-- ===== src/Examples/Clients.antt =====
-- The server with three clients: an aircraft at the address 1, another at 2, and at 3 a client that
-- has just connected.
use flight_safety_system.Base.{
  ℕ, ◌≡◌, ◌⊎◌, refl, true, false, List, [], ◌∷◌, ◌++◌, none, some, arith, if◌then◌else◌, ◌==◌,
  bytes_eq,
}
use flight_safety_system.Examples.Micro.{micro}
use flight_safety_system.Message.{
  FssMessageType, FssAssetCommand, Body, Message, set_id, get_latitude, get_longitude, get_altitude,
}
use flight_safety_system.Message.Pack.{get_packed}
use flight_safety_system.Connection.{Connection, get_message_id}
use flight_safety_system.Db.{Database, AssetCommand, DbWrite, asset_get_command, command_of_text}
use flight_safety_system.Server.{
  FssClient, client_send, send_command, send_rtt_request, command_message, command_is_due,
}
use flight_safety_system.Server.Clients.{ServerClients}
use flight_safety_system.Server.Process.{process_message, new_client_connect}
use flight_safety_system.Server.Gate.{StoresOwn, process_message-StoresOwn}
use flight_safety_system.Server.Relay.{position_report-relayed}
use flight_safety_system.Server.Registry.{WellFormed, Step, Reach}
use flight_safety_system.Server.Commands.{send_command_again}
use flight_safety_system.Server.Answers.{requested, make_response}

abbrev pub wire_to : List (List ℕ) → Connection micro
wire_to names = record {
  fd = some 4;
  last_msg_id = 6;
  handler = true;
  messages = [];
  usable = true;
  possible_names = names;
  hostname = [];
  receiving = true;
  sent = [];
}

abbrev pub craft : List ℕ
craft = b'A' ∷ b'1' ∷ []

abbrev pub aircraft_client : FssClient micro
aircraft_client = record {
  conn = wire_to [];
  identified = true;
  aircraft = true;
  name = craft;
  outstanding_rtt_requests = [];
  last_command_send_ts = 0;
  last_command_dbid = 0;
}

abbrev unknown_client : FssClient micro
unknown_client = record aircraft_client {
  conn = wire_to (craft ∷ []);
  identified = false;
  aircraft = false;
  name = [];
}

abbrev pub state : ServerClients micro
state = record {
  objects = λ p. if p == 3 then unknown_client else aircraft_client;
  clients = 1 ∷ 2 ∷ 3 ∷ [];
  disconnected = [];
  total_clients = 3;
  shutting_down = false;
  writes = [];
}

abbrev pub database : Database micro
database = record {
  db_get_asset_id = λ _. 8;
  db_asset_command_get = λ _. some (record {
    command = b'R' ∷ b'T' ∷ b'L' ∷ [];
    timestamp = 50;
    dbid = 21;
    latitude = 0;
    longitude = 0;
    altitude = 0;
  });
  db_asset_smm_settings_get = λ _. none;
  db_active_fss_servers_get = [];
}

abbrev identity_message : Message micro
identity_message = record { id = 1; type = FssMessageType.identity; body = Body.identity craft }

abbrev status_message : Message micro
status_message = record {
  id = 2;
  type = FssMessageType.system_status;
  body = Body.system_status (record { bat_percent = 80; mah_used = 900; voltage = 12000000 });
}

process_message-StoresOwn_example :
    ((process_message database 1000 state 1 (some status_message)).writes ≡ state.writes)
    ⊎ ((true ≡ true)
        × StoresOwn database craft state.writes
            (process_message database 1000 state 1 (some status_message)).writes)
process_message-StoresOwn_example =
    process_message-StoresOwn database 1000 state 1 (some status_message)

pub state-WellFormed : WellFormed state
state-WellFormed = record { once = λ p. ground arith; total = omega arith }

abbrev report_message : Message micro
report_message = record {
  id = 3;
  type = FssMessageType.position_report;
  body = Body.position_report (record {
    latitude = 4500000;
    longitude = 17200000;
    altitude = 70000;
    heading = 0;
    horizontal_velocity = 0;
    vertical_velocity = 0;
    callsign = [];
    icao_address = 0;
    squawk = 0;
    timestamp = 0;
    tslc = 0;
    flags = 0;
    altitude_type = 0;
    emitter_type = 0;
  });
}

position_report-relayed_example :
    ((process_message database 1000 state 1 (some report_message)).objects 2
      ≡ (client_send aircraft_client report_message).0)
    × ((process_message database 1000 state 1 (some report_message)).writes
        ≡ [] ++ DbWrite.position_entry 8 4500000 17200000 4464 ∷ [])
unfolding get_latitude get_longitude get_altitude
position_report-relayed_example =
    position_report-relayed database 1000 state 1 2 report_message state-WellFormed refl refl

joins : Reach state (new_client_connect database 900 state 4 (wire_to []))
joins = Reach.step Reach.start (Step.connects database 900 state 4 (wire_to []) refl refl)

abbrev pub return_home : AssetCommand micro
return_home = record {
  dbid = 21;
  timestamp = 50;
  command = FssAssetCommand.rtl;
  latitude = 0;
  longitude = 0;
  altitude = 0;
}

pub known_command : asset_get_command database craft ≡ some return_home
unfolding asset_get_command command_of_text bytes_eq
known_command = refl

pub command_due : command_is_due aircraft_client return_home 1000 ≡ true
unfolding command_is_due
command_due = refl

send_command_again_example :
    ((send_command database 1000 aircraft_client).conn.sent
      ≡ []
        ++ get_packed (set_id (command_message return_home) (get_message_id (wire_to [])).0) ∷ [])
    × ((send_command database 12000 (send_command database 1000 aircraft_client)).conn.sent
        ≡ (send_command database 1000 aircraft_client).conn.sent
          ++ get_packed (
              set_id
                (command_message return_home)
                (get_message_id (send_command database 1000 aircraft_client).conn).0)
            ∷ [])
send_command_again_example =
    send_command_again database aircraft_client return_home 1000 12000 known_command command_due
      (omega arith) refl

abbrev rtt_request : Message micro
rtt_request = record { id = 0; type = FssMessageType.rtt_request; body = Body.rtt_request }

abbrev answered : ServerClients micro
answered =
    process_message database 1450 (requested state 1 1000 rtt_request []) 1
      (some (make_response 2 (send_rtt_request 1000 aircraft_client rtt_request).1.id))
