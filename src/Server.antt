-- ===== src/Server.antt =====
-- `server::fss_client` of src/server.cpp: the server's side of one connection.
pub mod Clients
pub mod Process
pub mod Essence
pub mod Roster
pub mod Registry
pub mod Shutdown
pub mod Stored
pub mod Relay
pub mod Names
pub mod Gate
pub mod Answers
pub mod Commands
pub mod Rounds
pub mod Admission
pub mod Outstanding
pub mod Window
pub mod Main
pub mod Waiting
pub mod Silent
pub mod Stays
use flight_safety_system.Base.{
  ℕ, ◌+◌, ◌%◌, ◌^◌, Bool, true, false, not, ◌||◌, List, [], ◌∷◌, ◌++◌, Option, none, some, ltb,
  ◌==◌, if◌then◌else◌,
}
use flight_safety_system.Message.Constructors.{add_server, new_smm_settings}
use flight_safety_system.Floats.{Floats}
use flight_safety_system.Message.{
  FssAssetCommand, Body, Message, make, plain_command, goto_command, altitude_command,
}
use flight_safety_system.Connection.{Connection, send_msg}
use flight_safety_system.Db.{
  Database, AssetCommand, SmmSettings, asset_get_command, asset_get_smm_settings,
  get_active_fss_servers,
}

-- `fss_client_rtt`. Each entry is an object of its own.
pub record FssClientRtt : Type 0 where
  pub timestamp : ℕ
  pub reqid : ℕ

-- The loop of `getServersListMsg`.
unfoldable pub add_each_server : List (List ℕ × ℕ) → List (List ℕ × ℕ) → List (List ℕ × ℕ)
unfolding add_server
add_each_server servers [] = servers
add_each_server servers ((address, port) ∷ known_servers) =
    add_each_server (add_server servers address port) known_servers

-- The connection of the base class is null on the server only behind `shut_down`, where the destroyed
-- connection stands for it.
pub record FssClient (F : Floats) : Type 0 where
  pub conn : Connection F
  pub identified : Bool
  pub aircraft : Bool
  pub name : List ℕ
  pub outstanding_rtt_requests : List FssClientRtt
  pub last_command_send_ts : ℕ
  pub last_command_dbid : ℕ

module _ {F : Floats} where
  -- The constructor: `setHandler` takes the queue of the connection.
  unfoldable pub new_client : Connection F → FssClient F
  new_client conn = record {
    conn = record conn { handler = true; messages = [] };
    identified = false;
    aircraft = false;
    name = [];
    outstanding_rtt_requests = [];
    last_command_send_ts = 0;
    last_command_dbid = 0;
  }

  -- `fss_message_cb::sendMsg`.
  unfoldable pub client_send : FssClient F → Message F → FssClient F × Message F
  client_send c m = let (conn', m', _) = send_msg c.conn m in (record c { conn = conn' }, m')

  -- The message for a command of the database.
  unfoldable pub command_message : AssetCommand F → Message F
  unfolding make plain_command goto_command altitude_command
  command_message ac = make (
      Body.command (elim ac.command [
        | FssAssetCommand.goto ↦ goto_command F ac.command ac.timestamp ac.latitude ac.longitude
        | FssAssetCommand.altitude ↦ altitude_command F ac.command ac.timestamp ac.altitude
        | _ ↦ plain_command F ac.command ac.timestamp
      ]))

  -- The test of `sendCommand`; the sum wraps as a `uint64_t`.
  unfoldable pub command_is_due : FssClient F → AssetCommand F → ℕ → Bool
  command_is_due c ac ts =
      not (ac.dbid == c.last_command_dbid) || ltb ((c.last_command_send_ts + 10000) % 2 ^ 64) ts

  unfoldable pub send_command : Database F → ℕ → FssClient F → FssClient F
  send_command db ts c = elim (asset_get_command db c.name) [
    | none ↦ c
    | some ac ↦
        if command_is_due c ac ts
        then (client_send (record c { last_command_send_ts = ts; last_command_dbid = ac.dbid })
            (command_message ac)).0
        else c
  ]

  -- The request is one object for all clients: the next client gets it with this one's id.
  unfoldable pub send_rtt_request : ℕ → FssClient F → Message F → FssClient F × Message F
  send_rtt_request ts c rtt_req =
      let (c', req) = client_send c rtt_req in
      (
        record c' {
          outstanding_rtt_requests =
              c'.outstanding_rtt_requests ++ record { timestamp = ts; reqid = req.id } ∷ [];
        },
        req,
      )

  unfoldable pub smm_message : SmmSettings → Message F
  unfolding make
  smm_message s = new_smm_settings s.address s.username s.password

  unfoldable pub send_smm_settings : Database F → FssClient F → FssClient F
  send_smm_settings db c = elim (asset_get_smm_settings db c.name) [
    | none ↦ c
    | some smm ↦ (client_send c (smm_message smm)).0
  ]

  unfoldable pub get_servers_list_msg : Database F → Message F
  unfolding make add_each_server
  get_servers_list_msg db = make (Body.server_list (add_each_server [] (get_active_fss_servers db)))
