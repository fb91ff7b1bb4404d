-- ===== src/Client/Servers.antt =====
-- `client_ssl::fss_client` of src/client-ssl.cpp: the two lists of servers.
use flight_safety_system.Base.{
  ℕ, ◌+◌, ◌%◌, ◌^◌, Bool, true, false, ◌&&◌, ◌||◌, List, [], ◌∷◌, ◌++◌, Option, none, some, ◌==◌,
  if◌then◌else◌, bytes_eq, length, contains, remove, update,
}
use flight_safety_system.Floats.{Floats}
use flight_safety_system.Message.{Message}
use flight_safety_system.Connection.Connect.{Network}
use flight_safety_system.Client.{
  TlsFiles, FssServer, ConnectionStatus, ClientCall, new_server, connected, cb_send, reconnect,
}

-- `objects` is the store of the server objects by their addresses, of which those below
-- `next_object` are in use. `calls` lists the calls of the virtual functions, in order.
pub record FssClient (F : Floats) : Type 0 where
  pub asset_name : List ℕ
  pub files : TlsFiles
  pub objects : ℕ → FssServer F
  pub next_object : ℕ
  pub servers : List ℕ
  pub reconnect_servers : List ℕ
  pub calls : List (ClientCall F)

-- What the configuration file holds.
pub record Config : Type 0 where
  pub name : List ℕ
  pub files : TlsFiles
  pub servers : List (List ℕ × ℕ)

abbrev pub is_empty : List ℕ → Bool
is_empty [] = true
is_empty (x ∷ xs) = false

abbrev pub no_files : TlsFiles
no_files = record { ca_file = []; private_key_file = []; public_key_file = [] }

-- The switch of `notifyConnectionStatus`.
unfoldable pub status_of : ℕ → ConnectionStatus
status_of n =
    if n == 0
    then ConnectionStatus.disconnected
    else if n == 1
    then ConnectionStatus.connected_1_server
    else ConnectionStatus.connected_2_or_more

module _ {F : Floats} where
  unfoldable pub notify_connection_status : FssClient F → FssClient F
  notify_connection_status c = record c {
    calls = c.calls ++ ClientCall.connection_status_change (status_of (length c.servers)) ∷ [];
  }

  -- `addServer`, of the object at `p`.
  unfoldable pub add_server : FssClient F → ℕ → FssClient F
  add_server c p =
      if connected (c.objects p)
      then record c { servers = c.servers ++ p ∷ [] }
      else record c { reconnect_servers = c.reconnect_servers ++ p ∷ [] }

  -- `std::make_shared<fss_server>`: an object at a new address.
  unfoldable pub make_server : FssClient F → List ℕ → ℕ → FssClient F
  unfolding new_server
  make_server c address port = record c {
    objects = update c.objects c.next_object (new_server address port c.files);
    next_object = c.next_object + 1;
  }

  -- `connectTo`; what stands for `t_connect` is `none` if it is false, else the network and the time.
  unfoldable pub connect_to : FssClient F → List ℕ → ℕ → Option (Network × ℕ) → FssClient F
  unfolding make_server add_server
  connect_to c address port t_connect =
      let p = c.next_object in
      let c = make_server c address port in
      let c : FssClient F = elim t_connect [
        | none ↦ c
        | some (net, ts) ↦ record c {
          objects = update c.objects p (reconnect net ts c.asset_name (c.objects p)).0;
        }
      ] in
      add_server c p

  -- The first loop of `attemptReconnect`: which servers were reached, and the objects. The network
  -- and the time may differ from server to server.
  unfoldable pub try_each :
      (ℕ → Network) → (ℕ → ℕ) → List ℕ → List ℕ → (ℕ → FssServer F) → List ℕ × (ℕ → FssServer F)
  try_each nets now asset_name [] objects = ([], objects)
  try_each nets now asset_name (p ∷ ps) objects =
      let (server, ok) = reconnect (nets p) (now p) asset_name (objects p) in
      let (reconnected, after) = try_each nets now asset_name ps (update objects p server) in
      (if ok then p ∷ reconnected else reconnected, after)

  -- The second loop.
  unfoldable pub move_each : List ℕ → FssClient F → FssClient F
  move_each [] c = c
  move_each (p ∷ ps) c =
      move_each ps (record c {
        reconnect_servers = remove p c.reconnect_servers;
        servers = c.servers ++ p ∷ [];
      })

  unfoldable pub attempt_reconnect : (ℕ → Network) → (ℕ → ℕ) → FssClient F → FssClient F
  unfolding try_each move_each notify_connection_status
  attempt_reconnect nets now c =
      let (reconnected, objects) = try_each nets now c.asset_name c.reconnect_servers c.objects in
      let c = move_each reconnected (record c { objects = objects }) in
      if is_empty reconnected then c else notify_connection_status c

  -- The loop of `sendMsgAll`: the message object is shared, and each connection gives it a new id.
  unfoldable pub send_each : List ℕ → (ℕ → FssServer F) → Message F → ℕ → FssServer F
  send_each [] objects msg = objects
  send_each (p ∷ ps) objects msg =
      let (s, msg', _) = cb_send (objects p) msg in send_each ps (update objects p s) msg'

  unfoldable pub send_msg_all : FssClient F → Message F → FssClient F
  unfolding send_each
  send_msg_all c msg = record c { objects = send_each c.servers c.objects msg }

  unfoldable pub is_at : FssServer F → List ℕ → ℕ → Bool
  is_at s address port = bytes_eq s.address address && s.port == port

  unfoldable pub server_list_matches : (ℕ → FssServer F) → List ℕ → List ℕ → ℕ → Bool
  unfolding is_at
  server_list_matches objects [] address port = false
  server_list_matches objects (p ∷ ps) address port =
      if is_at (objects p) address port then true else server_list_matches objects ps address port

  -- One round of the loop of `updateServers`; `connectTo` does not connect there.
  unfoldable pub update_server : FssClient F → List ℕ × ℕ → FssClient F
  unfolding connect_to server_list_matches
  update_server c (address, port) =
      let exists =
        server_list_matches c.objects c.servers address port
        || server_list_matches c.objects c.reconnect_servers address port in
      if exists then c else connect_to c address port none

  unfoldable pub update_servers : FssClient F → List (List ℕ × ℕ) → FssClient F
  unfolding update_server
  update_servers c [] = c
  update_servers c (entry ∷ entries) = update_servers (update_server c entry) entries

  -- `serverRequiresReconnect`, of the object at `p`.
  unfoldable pub server_requires_reconnect : FssClient F → ℕ → FssClient F
  unfolding notify_connection_status
  server_requires_reconnect c p =
      let c : FssClient F =
        if contains p c.servers
        then record c {
          servers = remove p c.servers;
          reconnect_servers = c.reconnect_servers ++ p ∷ [];
        }
        else c in
      notify_connection_status c

  -- A client with no server; no object is in use.
  unfoldable pub empty_client : List ℕ → TlsFiles → FssClient F
  unfolding new_server
  empty_client name files = record {
    asset_name = name;
    files = files;
    objects = λ p. new_server [] 0 files;
    next_object = 0;
    servers = [];
    reconnect_servers = [];
    calls = [];
  }

  -- The loop of the constructor over the servers of the configuration. A port becomes a `uint16_t`.
  unfoldable pub add_all : FssClient F → List (List ℕ × ℕ) → FssClient F
  unfolding make_server add_server
  add_all c [] = c
  add_all c ((address, port) ∷ entries) =
      add_all (add_server (make_server c address (port % 2 ^ 16)) c.next_object) entries

  -- The constructor that reads a configuration file; `none` is a file that cannot be opened.
  unfoldable pub client_of_config : Option Config → FssClient F
  unfolding add_all new_server
  client_of_config file = elim file [
    | none ↦ empty_client [] no_files
    | some config ↦ add_all (empty_client config.name config.files) config.servers
  ]
