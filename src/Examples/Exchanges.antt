-- ===== src/Examples/Exchanges.antt =====
-- A server and a client that talk to one another.
use flight_safety_system.Base.{ℕ, ◌%◌, ◌-◌, ◌≡◌, refl, true, List, [], ◌∷◌, ◌++◌, none, some, arith}
use flight_safety_system.Examples.Micro.{micro}
use flight_safety_system.Examples.Clients.{
  wire_to, craft, aircraft_client, state, database, return_home, state-WellFormed, known_command,
  command_due,
}
use flight_safety_system.Examples.Servers.{waiting_server, craft_client}
use flight_safety_system.Base.{be, ◌<◌, ◌^◌}
use flight_safety_system.Floats.{to_fixed}
use flight_safety_system.Buffer.{align}
use flight_safety_system.Message.{PositionReport}
use flight_safety_system.Message.Wire.{wire_size}
use flight_safety_system.Message.RoundTrip.Fields.{PositionInRange, position_received}
use flight_safety_system.Db.{DbWrite}
use flight_safety_system.Exchange.Position.{report, position_exchange}
use flight_safety_system.Message.{Body, Message, make, set_id}
use flight_safety_system.Message.Pack.{get_packed}
use flight_safety_system.Connection.{Connection, get_message_id}
use flight_safety_system.Connection.Accept.{Peer}
use flight_safety_system.Connection.Names.{common_name, find, starts_with}
use flight_safety_system.Server.{send_rtt_request, send_command, command_message}
use flight_safety_system.Server.Process as ServerProcess
use flight_safety_system.Server.Answers.{requested}
use flight_safety_system.Server.Process.{new_client_connect}
use flight_safety_system.Client.{ClientCall}
use flight_safety_system.Client.Servers.{FssClient}
use flight_safety_system.Client.Process as ClientProcess
use flight_safety_system.Exchange.{carried}
use flight_safety_system.Exchange.Rtt.{request_on, reply_on, rtt_exchange}
use flight_safety_system.Exchange.Command.{told, told_message, command_exchange}

-- A client with one server, whose connection is up.
abbrev online : FssClient micro
online = record craft_client { objects = λ p. record waiting_server { conn = some (wire_to []) } }

abbrev asks : Message micro
asks = request_on (wire_to [])

abbrev answers : Message micro
answers = reply_on (wire_to []) asks

rtt_exchange_example :
    let after =
      ServerProcess.process_message database 1450
        (requested state 1 1000 (make Body.rtt_request) [])
        1
        (some answers) in
    ((send_rtt_request 1000 aircraft_client (make Body.rtt_request)).0.conn.sent
      ≡ [] ++ get_packed asks ∷ [])
    × (carried asks ≡ some (some asks))
    × (((ClientProcess.process_message online 0 (some asks)).objects 0).conn
        ≡ some (record (get_message_id (wire_to [])).1 { sent = [] ++ get_packed answers ∷ [] }))
    × (carried answers ≡ some (some answers))
    × ((after.objects 1).outstanding_rtt_requests ≡ [] ++ [])
    × (after.writes ≡ [] ++ DbWrite.rtt_entry 8 (1450 - 1000) ∷ [])
rtt_exchange_example =
    rtt_exchange database 1000 1450 state 1 [] online 0 (wire_to []) refl refl refl refl refl
      (omega arith) (omega arith)

command_exchange_example :
    let n = (get_message_id (wire_to [])).0 in
    let m = set_id (command_message return_home) n in
    ((send_command database 1000 aircraft_client).conn.sent ≡ [] ++ get_packed m ∷ [])
    × (carried m ≡ some (some (told_message n return_home)))
    × (ClientProcess.process_message online 0 (some (told_message n return_home))
        ≡ record online { calls = [] ++ ClientCall.handle_command (told return_home) ∷ [] })
command_exchange_example =
    command_exchange database 1000 aircraft_client return_home online 0 known_command command_due
      (omega arith) refl (omega arith) (omega arith) tt

-- A peer with a certificate for the aircraft, one whose certificate has no name, and one whose
-- handshake fails.
abbrev holder : List (List ℕ) → Peer
holder dns = record { handshake = some true; peers_certificate = some dns }

abbrev stranger : Peer
stranger = record { handshake = none; peers_certificate = none }

abbrev craft_dn : List ℕ
craft_dn = b'C' ∷ b'N' ∷ b'=' ∷ craft

abbrev org_dn : List ℕ
org_dn = b'O' ∷ b'=' ∷ b'x' ∷ []

org_dn-common_name : common_name org_dn ≡ none
unfolding common_name find starts_with
org_dn-common_name = refl

abbrev here : PositionReport micro
here = record {
  latitude = 4500000;
  longitude = 17200000;
  altitude = 70000;
  heading = 0;
  horizontal_velocity = 0;
  vertical_velocity = 0;
  callsign = [];
  icao_address = 0;
  squawk = 0;
  timestamp = 0;
  tslc = 9;
  flags = 0;
  altitude_type = 0;
  emitter_type = 0;
}

here-PositionInRange : PositionInRange {F = micro} here
here-PositionInRange = record {
  timestamp = omega arith;
  altitude = omega arith;
  icao_address = omega arith;
  heading = omega arith;
  horizontal_velocity = omega arith;
  vertical_velocity = omega arith;
  squawk = omega arith;
  flags = omega arith;
  altitude_type = omega arith;
  emitter_type = omega arith;
}

here-wire_size : wire_size {F = micro} (Body.position_report here) < 2 ^ 16
unfolding be to_fixed align
here-wire_size = omega arith

position_exchange_example :
    let once = position_received micro here in
    let twice = position_received micro once in
    let after = ServerProcess.process_message database 1000 state 1 (some (report 8 once)) in
    let next = (get_message_id (wire_to [])).0 in
    (carried {F = micro} (report 8 here) ≡ some (some (report 8 once)))
    × (after.writes
        ≡ [] ++ DbWrite.position_entry 8 once.latitude once.longitude (once.altitude % 2 ^ 16) ∷ [])
    × ((after.objects 2).conn.sent ≡ [] ++ get_packed {F = micro} (report next once) ∷ [])
    × (carried {F = micro} (report next once) ≡ some (some (report next twice)))
    × (ClientProcess.process_message online 0 (some (report next twice))
        ≡ record online { calls = [] ++ ClientCall.handle_position_report twice ∷ [] })
position_exchange_example =
    position_exchange database 1000 state 1 2 8 here online 0 state-WellFormed refl refl refl refl
      refl (omega arith) here-PositionInRange here-wire_size
