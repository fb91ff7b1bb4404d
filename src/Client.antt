-- ===== src/Client.antt =====
-- `client_ssl::fss_server` of src/client-ssl.cpp: what a client keeps of one server, and the
-- attempts to connect to it.
pub mod Servers
pub mod Process
pub mod Backoff
pub mod Waits
pub mod Delays
pub mod Invariant
pub mod Registry
pub mod Extends
pub mod Known
pub mod Reconnect
pub mod Early
pub mod Disconnect
pub mod Queued
pub mod Broadcast
pub mod Recovery
use flight_safety_system.Base.{
  ℕ, ◌+◌, ◌-◌, ◌%◌, ◌^◌, Bool, true, false, List, [], ◌∷◌, Option, none, some, ltb, if◌then◌else◌,
}
use flight_safety_system.Message.Constructors.{new_identity}
use flight_safety_system.Floats.{Floats}
use flight_safety_system.Message.{
  Body, Message, PositionReport, CommandMessage, SmmSettingsMessage, make,
}
use flight_safety_system.Connection.{Connection, new_connection, send_msg}
use flight_safety_system.Connection.Connect.{Network, connect_to}

-- The names of the files that a connection gives to gnutls.
pub record TlsFiles : Type 0 where
  pub ca_file : List ℕ
  pub private_key_file : List ℕ
  pub public_key_file : List ℕ

-- `client_ssl::fss_server`; `conn` is `none` for a null pointer. The pointer to the client is left
-- out: what is read through it is an argument.
pub record FssServer (F : Floats) : Type 0 where
  pub address : List ℕ
  pub port : ℕ
  pub files : TlsFiles
  pub conn : Option (Connection F)
  pub last_tried : ℕ
  pub retry_count : ℕ
  pub retry_delay : ℕ

abbrev pub retry_delay_start : ℕ
retry_delay_start = 1000

abbrev pub retry_delay_cap : ℕ
retry_delay_cap = 30000

pub data ConnectionStatus : Type 0 where
  unknown connected_1_server connected_2_or_more disconnected : ConnectionStatus

-- A call of a virtual function that an application overrides.
pub data ClientCall (F : Floats) : Type 0 where
  connection_status_change : ConnectionStatus → ClientCall F
  handle_command : CommandMessage F → ClientCall F
  handle_position_report : PositionReport F → ClientCall F
  handle_smm_settings : SmmSettingsMessage → ClientCall F

module _ {F : Floats} where
  unfoldable pub new_server : List ℕ → ℕ → TlsFiles → FssServer F
  new_server address port files = record {
    address = address;
    port = port;
    files = files;
    conn = none;
    last_tried = 0;
    retry_count = 0;
    retry_delay = retry_delay_start;
  }

  -- `fss_message_cb::connected`.
  unfoldable pub connected : FssServer F → Bool
  connected s = elim s.conn [ none ↦ false | some c ↦ true ]

  -- `fss_message_cb::sendMsg`: without a connection the message is left as it is.
  unfoldable pub cb_send : FssServer F → Message F → FssServer F × Message F × Bool
  cb_send s m = elim s.conn [
    | none ↦ (s, m, false)
    | some c ↦ let (c', m', ret) = send_msg c m in (record s { conn = some c' }, m', ret)
  ]

  -- `sendIdentify`, where there is a connection.
  unfoldable pub send_identify : List ℕ → FssServer F → FssServer F
  unfolding make cb_send
  send_identify asset_name s = (cb_send s (new_identity asset_name)).0

  -- `setHandler(this)` on the new connection. What the receiving thread gets from then on is a step
  -- of its own; it has queued nothing yet (where it has, see
  -- Client.Queued).
  unfoldable pub take_handler : FssServer F → FssServer F
  take_handler s = elim s.conn [
    | none ↦ s
    | some c ↦ record s { conn = some (record c { handler = true }) }
  ]

  unfoldable pub reconnect_to : Network → FssServer F → FssServer F × Bool
  unfolding new_connection
  reconnect_to net s =
      let (c, ok) = connect_to net new_connection s.address s.port in
      (record s { conn = some c }, ok)

  -- The attempt: the counters as it starts, and as it ends.
  unfoldable pub attempt : Network → ℕ → List ℕ → FssServer F → FssServer F × Bool
  unfolding reconnect_to take_handler send_identify
  attempt net ts asset_name s =
      let tried : FssServer F = record s {
        retry_count = (s.retry_count + 1) % 2 ^ 64;
        retry_delay =
            if ltb s.retry_delay retry_delay_cap
            then (s.retry_delay + s.retry_delay) % 2 ^ 64
            else s.retry_delay;
        last_tried = ts;
      } in
      let (s, ok) = reconnect_to net tried in
      if ok
      then (
        record (send_identify asset_name (take_handler s)) {
          retry_count = 0;
          last_tried = 0;
          retry_delay = retry_delay_start;
        },
        true,
      )
      else (record s { conn = none }, false)

  -- `reconnect`, at the time `ts`: the old connection is dropped in any case.
  unfoldable pub reconnect : Network → ℕ → List ℕ → FssServer F → FssServer F × Bool
  unfolding attempt
  reconnect net ts asset_name s =
      let elapsed_time = (ts + 2 ^ 64 - s.last_tried) % 2 ^ 64 in
      let s : FssServer F = record s { conn = none } in
      if ltb s.retry_delay elapsed_time then attempt net ts asset_name s else (s, false)
