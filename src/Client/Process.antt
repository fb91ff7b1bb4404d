-- ===== src/Client/Process.antt =====
-- `client_ssl::fss_server::processMessage` of src/client-ssl.cpp.
use flight_safety_system.Base.{ℕ, [], ◌∷◌, ◌++◌, Option, none, some, update}
use flight_safety_system.Message.Constructors.{new_rtt_response}
use flight_safety_system.Floats.{Floats}
use flight_safety_system.Message.{FssMessageType, Body, Message}
use flight_safety_system.Client.{FssServer, ClientCall, cb_send}
use flight_safety_system.Client.Servers.{FssClient, update_servers, server_requires_reconnect}

module _ {F : Floats} where
  abbrev pub put_server : FssClient F → ℕ → FssServer F → FssClient F
  put_server c p s = record c { objects = update c.objects p s }

  abbrev pub call : FssClient F → ClientCall F → FssClient F
  call c x = record c { calls = c.calls ++ x ∷ [] }

  -- A message that says that the connection of the server at `p` has been closed.
  unfoldable pub process_closed : FssClient F → ℕ → FssClient F
  process_closed c p =
      let c = server_requires_reconnect c p in
      put_server c p (record (c.objects p) { last_tried = 0; retry_count = 0 })

  -- `processMessage` of the server at `p`; `none` is a null pointer.
  unfoldable pub process_message : FssClient F → ℕ → Option (Message F) → FssClient F
  unfolding process_closed
  process_message c p none = c
  process_message c p (some m) = elim m.type [
    | FssMessageType.closed ↦ process_closed c p
    | FssMessageType.rtt_request ↦ put_server c p (cb_send (c.objects p) (new_rtt_response m.id)).0
    | FssMessageType.position_report ↦ elim m.body [
      | Body.position_report r ↦ call c (ClientCall.handle_position_report r)
      | _ ↦ c
    ]
    | FssMessageType.command ↦ elim m.body [
      | Body.command x ↦ call c (ClientCall.handle_command x)
      | _ ↦ c
    ]
    | FssMessageType.server_list ↦ elim m.body [
      | Body.server_list servers ↦ update_servers c servers
      | _ ↦ c
    ]
    | FssMessageType.smm_settings ↦ elim m.body [
      | Body.smm_settings s ↦ call c (ClientCall.handle_smm_settings s)
      | _ ↦ c
    ]
    | _ ↦ c
  ]
