-- ===== src/Server/Clients.antt =====
-- `server_clients` of src/server.cpp: the objects of all connections, and the lists that hold them.
use flight_safety_system.Base.{
  ℕ, ◌+◌, ◌-◌, ◌%◌, ◌^◌, Bool, true, false, not, ◌&&◌, List, [], ◌∷◌, ◌++◌, Option, none, some,
  ◌==◌, if◌then◌else◌, contains, remove, update,
}
use flight_safety_system.Floats.{Floats}
use flight_safety_system.Message.{Message}
use flight_safety_system.Connection.{destroy}
use flight_safety_system.Db.{Database, DbWrite}
use flight_safety_system.Server.{
  FssClient, client_send, send_command, send_rtt_request, send_smm_settings,
}

-- `objects` is the store of the client objects by their addresses. `writes` lists what was handed
-- to the database, in order.
pub record ServerClients (F : Floats) : Type 0 where
  pub objects : ℕ → FssClient F
  pub clients : List ℕ
  pub disconnected : List ℕ
  pub total_clients : ℕ
  pub shutting_down : Bool
  pub writes : List (DbWrite F)

-- The count goes down by one, modulo 2 ^ 32, for each queued client.
abbrev pub count_down : ℕ → List ℕ → ℕ
count_down total [] = total
count_down total (p ∷ ps) = count_down ((total + 2 ^ 32 - 1) % 2 ^ 32) ps

-- `client.get() != except`, negated; `none` is a null pointer.
abbrev pub is_except : Option ℕ → ℕ → Bool
is_except none p = false
is_except (some q) p = p == q

module _ {F : Floats} where
  -- `clientConnected`, with the object at the address `p`. The count is a `uint32_t`.
  unfoldable pub client_connected : ServerClients F → ℕ → ServerClients F
  client_connected s p = record s {
    clients = s.clients ++ p ∷ [];
    total_clients = (s.total_clients + 1) % 2 ^ 32;
  }

  unfoldable pub client_disconnected : ServerClients F → ℕ → ServerClients F
  client_disconnected s p =
      if s.shutting_down
      then s
      else if contains p s.clients
      then record s { disconnected = s.disconnected ++ p ∷ []; clients = remove p s.clients }
      else s

  unfoldable pub cleanup_removable_clients : ServerClients F → ServerClients F
  cleanup_removable_clients s = record s {
    disconnected = [];
    total_clients = count_down s.total_clients s.disconnected;
  }

  -- The loop of `sendMsg(msg, except)`. The message object
  -- is shared, and each connection gives it a new id.
  unfoldable pub send_each : List ℕ → Option ℕ → (ℕ → FssClient F) → Message F → ℕ → FssClient F
  send_each [] except objects msg = objects
  send_each (p ∷ ps) except objects msg =
      let (c, msg') = client_send (objects p) msg in
      let wanted = (objects p).aircraft && not (is_except except p) in
      send_each ps except (if wanted then update objects p c else objects)
        (if wanted then msg' else msg)

  unfoldable pub send_msg_all : ServerClients F → Message F → Option ℕ → ServerClients F
  unfolding send_each
  send_msg_all s msg except = record s { objects = send_each s.clients except s.objects msg }

  -- `sendRTTRequest`; `now p` is the time that is read for the client at `p`.
  unfoldable pub rtt_each : (ℕ → ℕ) → List ℕ → (ℕ → FssClient F) → Message F → ℕ → FssClient F
  rtt_each now [] objects msg = objects
  rtt_each now (p ∷ ps) objects msg =
      let (c, msg') = send_rtt_request (now p) (objects p) msg in
      rtt_each now ps (update objects p c) msg'

  -- A loop that calls one method of each client.
  unfoldable pub for_each :
      (ℕ → FssClient F → FssClient F) → List ℕ → (ℕ → FssClient F) → ℕ → FssClient F
  for_each method [] objects = objects
  for_each method (p ∷ ps) objects = for_each method ps (update objects p (method p (objects p)))

  unfoldable pub send_rtt_request_all : (ℕ → ℕ) → ServerClients F → Message F → ServerClients F
  unfolding rtt_each
  send_rtt_request_all now s msg = record s { objects = rtt_each now s.clients s.objects msg }

  unfoldable pub send_command_all : Database F → (ℕ → ℕ) → ServerClients F → ServerClients F
  unfolding for_each
  send_command_all db now s = record s {
    objects = for_each (λ p c. send_command db (now p) c) s.clients s.objects;
  }

  unfoldable pub send_smm_settings_all : Database F → ServerClients F → ServerClients F
  unfolding for_each
  send_smm_settings_all db s = record s {
    objects = for_each (λ p c. send_smm_settings db c) s.clients s.objects;
  }

  -- The destructor: every client in the list drops its connection, whose destructor runs.
  unfoldable pub shut_down : ServerClients F → ServerClients F
  unfolding for_each
  shut_down s = record s {
    shutting_down = true;
    objects = for_each (λ p c. record c { conn = destroy c.conn }) s.clients s.objects;
  }
