-- ===== src/Message/Wire.antt =====
-- The format on the wire, described apart from the code of src/transport-messages.cpp.
use flight_safety_system.Base.{
  ℕ, ◌+◌, ◌-◌, ◌%◌, ◌^◌, ◌<◌, List, [], ◌∷◌, ◌++◌, length, replicate, be, All,
}
use flight_safety_system.Floats.{Floats, to_fixed}
use flight_safety_system.Buffer.{align}
use flight_safety_system.Buffer.Cursor.{packed_string}
use flight_safety_system.Message.{
  PositionReport, SmmSettingsMessage, Body, Message, type_code, command_code,
}

-- The numbers before the callsign of a position report, 32 bytes, and what follows them.
abbrev pub position_front : {F : Floats} → PositionReport F → List ℕ → List ℕ
position_front {F} p rest =
    be 8 p.timestamp
    ++ (be 4 (to_fixed F p.latitude)
        ++ (be 4 (to_fixed F p.longitude)
            ++ (be 4 p.altitude
                ++ (be 4 p.icao_address
                    ++ (be 2 p.heading
                        ++ (be 2 p.horizontal_velocity
                            ++ (be 2 p.vertical_velocity ++ (be 2 p.squawk ++ rest))))))))

abbrev pub servers_payload : ℕ → List (List ℕ × ℕ) → List ℕ
servers_payload offset [] = []
servers_payload offset ((address, port) ∷ servers) =
    be 2 port
    ++ (packed_string (offset + 2) address
        ++ servers_payload (align (offset + 4 + length address)) servers)

abbrev pub smm_payload : SmmSettingsMessage → List ℕ
smm_payload s =
    let user = align (14 + length s.server_url) in
    packed_string 12 s.server_url
    ++ (packed_string user s.username
        ++ packed_string (align (user + 2 + length s.username)) s.password)

-- What stands behind the header of 12 bytes.
abbrev pub payload : {F : Floats} → Body F → List ℕ
payload Body.closed = []
payload (Body.identity name) = name
payload Body.rtt_request = []
payload (Body.rtt_response request_id) = be 8 request_id
payload (Body.position_report p) =
    position_front p (
      packed_string 44 p.callsign
      ++ (be 2 p.flags ++ (be 1 p.altitude_type ++ be 1 p.emitter_type)))
payload {F} (Body.system_status s) =
    be 1 s.bat_percent ++ (be 4 s.mah_used ++ be 4 (to_fixed F s.voltage))
payload (Body.search_status s) = be 8 s.search_id ++ (be 8 s.point_completed ++ be 8 s.points_total)
payload {F} (Body.command c) =
    be 8 c.timestamp
    ++ (be 4 (to_fixed F c.latitude)
        ++ (be 4 (to_fixed F c.longitude)
            ++ (be 4 c.altitude ++ be 1 (command_code c.command % 2 ^ 8))))
payload (Body.smm_settings s) = smm_payload s
payload (Body.server_list servers) = servers_payload 12 servers
payload (Body.identity_non_aircraft caps) = be 8 caps
payload Body.identity_required = []

-- Each text is short enough for its length to fit two bytes.
abbrev pub FitsText : {F : Floats} → Body F → Type 0
FitsText (Body.identity name) = length name < 2 ^ 16
FitsText (Body.position_report p) = length p.callsign < 2 ^ 16
FitsText (Body.smm_settings s) =
    (length s.server_url < 2 ^ 16) × (length s.username < 2 ^ 16) × (length s.password < 2 ^ 16)
FitsText (Body.server_list servers) = All (λ (s : List ℕ × ℕ). length s.0 < 2 ^ 16) servers
FitsText _ = Unit {0}

-- The length that stands in the first two bytes.
abbrev pub wire_size : {F : Floats} → Body F → ℕ
wire_size b = 12 + length (payload b)

-- A whole message, without the padding behind it.
abbrev pub wire : {F : Floats} → Message F → List ℕ
wire m = be 2 (wire_size m.body) ++ (be 2 (type_code m.type) ++ (be 8 m.id ++ payload m.body))

-- The zero bytes behind a message of `n` bytes.
abbrev pub padding : ℕ → List ℕ
padding n = replicate ((8 - n % 8) % 8) 0
