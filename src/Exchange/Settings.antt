-- ===== src/Exchange/Settings.antt =====
-- The settings and the list of servers that src/server.cpp sends, up to src/client-ssl.cpp.
use flight_safety_system.Base.{
  ℕ, ◌%◌, ◌^◌, ◌<◌, ◌≡◌, refl, sym, ap, ◌∙◌, true, List, [], ◌∷◌, ◌++◌, append-nil, append_assoc,
  some, arith, All, map,
}
use flight_safety_system.Floats.{Floats}
use flight_safety_system.Message.{
  FssMessageType, Body, Message, SmmSettingsMessage, make, body_type, set_id,
}
use flight_safety_system.Message.Pack.{get_packed}
use flight_safety_system.Message.Wire.{wire_size}
use flight_safety_system.Message.RoundTrip.{decode-get_packed}
use flight_safety_system.Connection.{get_message_id}
use flight_safety_system.Db.{Database, SmmSettings, asset_get_smm_settings, get_active_fss_servers}
use flight_safety_system.Server.{
  FssClient as ServerFssClient, client_send, send_smm_settings, smm_message, get_servers_list_msg,
  add_each_server,
}
use flight_safety_system.Message.Constructors.{add_server}
use flight_safety_system.Server.Commands.{client_send-sent}
use flight_safety_system.Client.{ClientCall}
use flight_safety_system.Client.Servers.{FssClient, update_servers}
use flight_safety_system.Client.Process as ClientProcess
use flight_safety_system.Exchange.{carried, get_message_id-lt}

abbrev pub settings_of : SmmSettings → SmmSettingsMessage
settings_of x = record { server_url = x.address; username = x.username; password = x.password }

ports_fit :
    (servers : List (List ℕ × ℕ))
    → All (λ (s : List ℕ × ℕ). s.1 < 2 ^ 16) (map (λ (s : List ℕ × ℕ). (s.0, s.1 % 2 ^ 16)) servers)
ports_fit [] = tt
ports_fit (s ∷ rest) = (omega arith, ports_fit rest)

-- The message lists the servers that the loop has gone through, in their order.
add_each_server_lem :
    (servers known : List (List ℕ × ℕ)) → add_each_server servers known ≡ servers ++ known
unfolding add_each_server add_server
add_each_server_lem servers [] = sym (append-nil servers)
add_each_server_lem servers ((address, port) ∷ known) =
    add_each_server_lem (add_server servers address port) known
    ∙ append_assoc servers ((address, port) ∷ []) known

module _ {F : Floats} where
  abbrev pub settings_at : ℕ → SmmSettings → Message F
  settings_at n x = record {
    id = n;
    type = FssMessageType.smm_settings;
    body = Body.smm_settings (settings_of x);
  }

  abbrev pub servers_at : ℕ → List (List ℕ × ℕ) → Message F
  servers_at n servers = record {
    id = n;
    type = FssMessageType.server_list;
    body = Body.server_list servers;
  }

  servers_fit :
      (db : Database F) → All (λ (s : List ℕ × ℕ). s.1 < 2 ^ 16) (get_active_fss_servers db)
  unfolding get_active_fss_servers
  servers_fit db = ports_fit db.db_active_fss_servers_get

  settings_carried :
      (x : SmmSettings) (n : ℕ)
      → n < 2 ^ 64
      → wire_size {F = F} (Body.smm_settings (settings_of x)) < 2 ^ 16
      → carried (set_id (smm_message x) n) ≡ some (some (settings_at n x))
  unfolding smm_message make set_id body_type
  settings_carried x n h size =
      decode-get_packed (settings_at n x)
        (record { id = h; type = refl; in_range = tt; size = size })

  servers_carried :
      (db : Database F) (n : ℕ)
      → n < 2 ^ 64
      → wire_size {F = F} (Body.server_list (get_active_fss_servers db)) < 2 ^ 16
      → carried (set_id (get_servers_list_msg db) n)
        ≡ some (some (servers_at n (get_active_fss_servers db)))
  unfolding get_servers_list_msg make set_id body_type
  servers_carried db n h size =
      ap (λ (servers : List (List ℕ × ℕ)). carried (servers_at n servers))
        (add_each_server_lem [] (get_active_fss_servers db))
      ∙ decode-get_packed (servers_at n (get_active_fss_servers db))
          (record { id = h; type = refl; in_range = servers_fit db; size = size })

  settings_sent :
      (db : Database F) (server : ServerFssClient F) (x : SmmSettings)
      → asset_get_smm_settings db server.name ≡ some x
      → send_smm_settings db server ≡ (client_send server (smm_message x)).0
  unfolding send_smm_settings
  settings_sent db server x known = ground arith

  messages_handled :
      (c : FssClient F) (q n : ℕ) (x : SmmSettings) (servers : List (List ℕ × ℕ))
      → (ClientProcess.process_message c q (some (settings_at n x))
          ≡ record c { calls = c.calls ++ ClientCall.handle_smm_settings (settings_of x) ∷ [] })
        × (ClientProcess.process_message c q (some (servers_at n servers))
            ≡ update_servers c servers)
  unfolding ClientProcess.process_message
  messages_handled c q n x servers = (refl, refl)

  -- The settings of a client that the database knows, and the list of active servers, each sent on a
  -- usable connection and short enough for the two bytes of the length: the message goes out once
  -- under the next id, the client decodes it as it was sent, and then its application is called once
  -- with the settings, or the client takes the listed servers.
  pub settings_exchange :
      (db : Database F) (server : ServerFssClient F) (x : SmmSettings) (c : FssClient F) (q : ℕ)
      → asset_get_smm_settings db server.name ≡ some x
      → server.conn.usable ≡ true
      → wire_size {F = F} (Body.smm_settings (settings_of x)) < 2 ^ 16
      → wire_size {F = F} (Body.server_list (get_active_fss_servers db)) < 2 ^ 16
      → let n = (get_message_id server.conn).0 in
        let settings = set_id (smm_message x) n in
        let list = set_id (get_servers_list_msg db) n in
        let servers = get_active_fss_servers db in
        ((send_smm_settings db server).conn.sent ≡ server.conn.sent ++ get_packed settings ∷ [])
        × (carried settings ≡ some (some (settings_at n x)))
        × (ClientProcess.process_message c q (some (settings_at n x))
            ≡ record c { calls = c.calls ++ ClientCall.handle_smm_settings (settings_of x) ∷ [] })
        × ((client_send server (get_servers_list_msg db)).0.conn.sent
            ≡ server.conn.sent ++ get_packed list ∷ [])
        × (carried list ≡ some (some (servers_at n servers)))
        × (ClientProcess.process_message c q (some (servers_at n servers))
            ≡ update_servers c servers)
  settings_exchange db server x c q known up size list_size =
      let n = (get_message_id server.conn).0 in
      let (settings, servers) = messages_handled c q n x (get_active_fss_servers db) in
      let small = get_message_id-lt server.conn in
      (
        ap (λ (d : ServerFssClient F). d.conn.sent) (settings_sent db server x known)
            ∙ client_send-sent server (smm_message x) up,
        settings_carried x n small size,
        settings,
        client_send-sent server (get_servers_list_msg db) up,
        servers_carried db n small list_size,
        servers,
      )
