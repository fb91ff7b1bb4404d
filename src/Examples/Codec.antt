-- ===== src/Examples/Codec.antt =====
-- Messages of each kind of field, packed and decoded.
use flight_safety_system.Base.{
  ℕ, ◌+◌, ◌^◌, ◌<◌, ◌≡◌, ◌≢◌, refl, List, [], ◌∷◌, ◌++◌, none, some, arith, be, length, take,
  replicate,
}
use flight_safety_system.Floats.{to_fixed}
use flight_safety_system.Examples.Micro.{micro}
use flight_safety_system.Buffer.{BufLen, align, add_data}
use flight_safety_system.Message.{FssMessageType, Body, Message, body_type, type_code}
use flight_safety_system.Message.Pack.{get_packed, pack_data, create_header, update_size}
use flight_safety_system.Message.Wire.{wire, wire_size, padding}
use flight_safety_system.Message.Packed.{get_packed-wire}
use flight_safety_system.Message.Decode.{decode}
use flight_safety_system.Message.RoundTrip.{Sendable, received, decode-get_packed}
use flight_safety_system.Message.Unpack.{Scan, unpack_servers, unpack_server_list}
use flight_safety_system.Message.Servers.{unpack_servers_end, unpack_server_list_overrun}

abbrev report : Message micro
report = record {
  id = 7;
  type = FssMessageType.position_report;
  body = Body.position_report (record {
    latitude = 4500000;
    longitude = 17200000;
    altitude = 120;
    heading = 90;
    horizontal_velocity = 20;
    vertical_velocity = 0;
    callsign = b'A' ∷ b'B' ∷ b'C' ∷ [];
    icao_address = 77;
    squawk = 1200;
    timestamp = 1000;
    tslc = 3;
    flags = 1;
    altitude_type = 0;
    emitter_type = 14;
  });
}

report-Sendable : Sendable report
unfolding be to_fixed align body_type
report-Sendable = record {
  id = omega arith;
  type = refl;
  in_range = record {
    timestamp = omega arith;
    altitude = omega arith;
    icao_address = omega arith;
    heading = omega arith;
    horizontal_velocity = omega arith;
    vertical_velocity = omega arith;
    squawk = omega arith;
    flags = omega arith;
    altitude_type = omega arith;
    emitter_type = omega arith;
  };
  size = omega arith;
}

decode-get_packed_example :
    decode micro (take (wire_size report.body) (get_packed report))
    ≡ some (received report.id report.body)
decode-get_packed_example = decode-get_packed report report-Sendable

abbrev settings : Message micro
settings = record {
  id = 9;
  type = FssMessageType.smm_settings;
  body =
      Body.smm_settings (record {
        server_url = b'u' ∷ b'r' ∷ b'l' ∷ [];
        username = [];
        password = b'p' ∷ b'w' ∷ [];
      });
}

settings-Sendable : Sendable settings
unfolding be align body_type
settings-Sendable = record { id = omega arith; type = refl; in_range = tt; size = omega arith }

settings-wire_size : wire_size settings.body < 2 ^ 16
unfolding be align
settings-wire_size = omega arith

get_packed-wire_example : get_packed settings ≡ wire settings ++ padding (wire_size settings.body)
get_packed-wire_example =
    get_packed-wire settings (omega arith, omega arith, omega arith) settings-wire_size

-- Three bytes behind the header, which are no server.
abbrev broken_list : BufLen
broken_list = replicate 15 1

unpack_servers_end_example :
    (unpack_servers (length broken_list + 2) broken_list 12 ≢ Scan.stuck)
    × (unpack_servers (length broken_list + 2 + 5) broken_list 12
        ≡ unpack_servers (length broken_list + 2) broken_list 12)
unpack_servers_end_example = unpack_servers_end broken_list 5

unpack_server_list_overrun_example :
    unpack_server_list (replicate 12 0 ++ (be 2 20202 ++ be 2 0)) ≡ none
unpack_server_list_overrun_example =
    unpack_server_list_overrun (replicate 12 0) 20202 refl (omega arith)

-- The bytes of a request, with its length and four bytes of padding.
abbrev request_bytes : List ℕ
request_bytes = 0 ∷ 12 ∷ 0 ∷ 3 ∷ 0 ∷ 0 ∷ 0 ∷ 0 ∷ 0 ∷ 0 ∷ 0 ∷ 5 ∷ 0 ∷ 0 ∷ 0 ∷ 0 ∷ []

packed_request :
    get_packed {F = micro}
      (record { id = 5; type = FssMessageType.rtt_request; body = Body.rtt_request })
    ≡ request_bytes
unfolding get_packed pack_data create_header update_size be type_code add_data
packed_request = refl
