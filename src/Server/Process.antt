-- ===== src/Server/Process.antt =====
-- `fss_client::processMessage` and the periodic work of `main` in src/server.cpp.
use flight_safety_system.Base.{
  ℕ, ◌+◌, ◌-◌, ◌%◌, ◌^◌, Bool, true, false, List, [], ◌∷◌, ◌++◌, Option, none, some, ◌==◌,
  if◌then◌else◌, bytes_eq, update,
}
use flight_safety_system.Message.Constructors.{
  new_identity_required, new_rtt_response, new_rtt_request,
}
use flight_safety_system.Message.Accessors.{
  get_bat_remaining, get_bat_mah_used, get_bat_voltage, get_search_id, get_search_completed,
  get_search_total,
}
use flight_safety_system.Floats.{Floats}
use flight_safety_system.Message.{
  FssMessageType, Body, Message, get_latitude, get_longitude, get_altitude,
}
use flight_safety_system.Connection.{Connection, get_client_names, drain}
use flight_safety_system.Db.{
  Database, DbWrite, asset_add_rtt, asset_add_status, asset_add_search_status, asset_add_position,
}
use flight_safety_system.Server.{
  FssClientRtt, FssClient, new_client, client_send, send_command, send_smm_settings,
  get_servers_list_msg,
}
use flight_safety_system.Server.Clients.{
  ServerClients, client_connected, client_disconnected, send_msg_all, cleanup_removable_clients,
  send_rtt_request_all, send_command_all, send_smm_settings_all,
}

-- The search for the request of a response: the last entry with the id is taken out.
unfoldable pub take_rtt : ℕ → List FssClientRtt → Option (FssClientRtt × List FssClientRtt)
take_rtt request_id [] = none
take_rtt request_id (req ∷ reqs) =
    let rest = take_rtt request_id reqs in
    elim rest [
      | some (found, left) ↦ some (found, req ∷ left)
      | none ↦ if req.reqid == request_id then some (req, reqs) else none
    ]

unfoldable pub is_listed : List (List ℕ) → List ℕ → Bool
is_listed [] name = false
is_listed (n ∷ ns) name = if bytes_eq n name then true else is_listed ns name

-- The names of the certificate: none means that any name will do.
unfoldable pub name_is_possible : List (List ℕ) → List ℕ → Bool
unfolding is_listed
name_is_possible [] name = true
name_is_possible (n ∷ ns) name = is_listed (n ∷ ns) name

module _ {F : Floats} (db : Database F) (ts : ℕ) where
  abbrev put : ServerClients F → ℕ → FssClient F → ServerClients F
  put s p c = record s { objects = update s.objects p c }

  abbrev store : ServerClients F → List (DbWrite F) → ServerClients F
  store s ws = record s { writes = s.writes ++ ws }

  -- What an accepted identity is answered with: the command, the settings and the servers.
  unfoldable pub welcome : FssClient F → FssClient F
  welcome c =
      let c = send_command db ts c in
      let c = send_smm_settings db c in (client_send c (get_servers_list_msg db)).0

  -- An identity message of a client that is not identified.
  unfoldable pub identify : ServerClients F → ℕ → List ℕ → ServerClients F
  unfolding welcome
  identify s p name =
      let c : FssClient F = record (s.objects p) { name = name } in
      if name_is_possible (get_client_names c.conn) name
      then put s p (welcome (record c { identified = true; aircraft = true }))
      else client_disconnected (put s p c) p

  unfoldable pub process_unidentified : ServerClients F → ℕ → Message F → ServerClients F
  unfolding identify
  process_unidentified s p m = elim m.type [
    | FssMessageType.identity ↦ elim m.body [ Body.identity name ↦ identify s p name | _ ↦ s ]
    | FssMessageType.identity_non_aircraft ↦
        put s p (record (s.objects p) { identified = true; aircraft = false })
    | _ ↦ put s p (client_send (s.objects p) new_identity_required).0
  ]

  -- A response to a round-trip request: the difference wraps as a `uint64_t`.
  unfoldable pub process_rtt_response : ServerClients F → ℕ → ℕ → ServerClients F
  process_rtt_response s p request_id =
      let c = s.objects p in
      elim (take_rtt request_id c.outstanding_rtt_requests) [
        | none ↦ s
        | some (req, left) ↦
            store (put s p (record c { outstanding_rtt_requests = left }))
              (asset_add_rtt db c.name ((ts + 2 ^ 64 - req.timestamp) % 2 ^ 64))
      ]

  unfoldable pub process_identified : ServerClients F → ℕ → Message F → ServerClients F
  unfolding process_rtt_response
  process_identified s p m =
      let c = s.objects p in
      elim m.type [
        | FssMessageType.rtt_request ↦ put s p (client_send c (new_rtt_response m.id)).0
        | FssMessageType.rtt_response ↦ elim m.body [
          | Body.rtt_response request_id ↦ process_rtt_response s p request_id
          | _ ↦ s
        ]
        | FssMessageType.position_report ↦
            let stored =
              if c.aircraft
              then store s (
                  asset_add_position db c.name (get_latitude m.body) (get_longitude m.body)
                    (get_altitude m.body))
              else s in
            send_msg_all stored m (some p)
        | FssMessageType.system_status ↦ elim m.body [
          | Body.system_status b ↦ store s (
              asset_add_status db c.name (get_bat_remaining b) (get_bat_mah_used b)
                (get_bat_voltage b))
          | _ ↦ s
        ]
        | FssMessageType.search_status ↦ elim m.body [
          | Body.search_status b ↦ store s (
              asset_add_search_status db c.name (get_search_id b) (get_search_completed b)
                (get_search_total b))
          | _ ↦ s
        ]
        | _ ↦ s
      ]

  -- `processMessage` of the client at `p`; `none` is a null pointer.
  unfoldable pub process_message : ServerClients F → ℕ → Option (Message F) → ServerClients F
  process_message s p none = s
  process_message s p (some m) = elim m.type [
    | FssMessageType.closed ↦ client_disconnected s p
    | _ ↦ if (s.objects p).identified then process_identified s p m else process_unidentified s p m
  ]

-- `new_client_connect`: the object is made and gets what its connection has queued (one time `ts`
-- stands for the times that are read then); only behind that it is listed.
unfoldable pub new_client_connect :
    {F : Floats} → Database F → ℕ → ServerClients F → ℕ → Connection F → ServerClients F
unfolding new_client
new_client_connect db ts s p conn =
    let s = record s { objects = update s.objects p (new_client conn) } in
    let s = drain (λ s m. process_message db ts s p m) conn.messages s in client_connected s p

-- One round of the loop of `main`, `now p` being the times read for the client at `p`: by
-- `sendRTTRequest` and then by `sendCommand`.
unfoldable pub periodic :
    {F : Floats} → Database F → (ℕ → ℕ × ℕ) → ℕ → ServerClients F → ServerClients F
periodic db now counter s =
    let s = cleanup_removable_clients s in
    let s = send_rtt_request_all (λ p. (now p).0) s new_rtt_request in
    let s = send_command_all db (λ p. (now p).1) s in
    if counter % 15 == 0
    then send_smm_settings_all db (send_msg_all s (get_servers_list_msg db) none)
    else s
