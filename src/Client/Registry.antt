-- ===== src/Client/Registry.antt =====
-- The two lists of servers of a client (src/client-ssl.cpp) over every sequence of calls and messages.
use flight_safety_system.Base.{
  ℕ, ◌%◌, ◌^◌, ◌≤◌, refl, sym, inl, inr, not, List, [], ◌∷◌, ◌++◌, Option, none, some, arith,
  contains, count, update, Bool-cases, Option-cases, subst,
}
use flight_safety_system.Floats.{Floats}
use flight_safety_system.Message.{FssMessageType, Body, Message, make}
use flight_safety_system.Connection.Connect.{Network}
use flight_safety_system.Client.{TlsFiles, FssServer, ClientCall, new_server, cb_send}
use flight_safety_system.Client.Servers.{
  FssClient, Config, connect_to, add_server, make_server, attempt_reconnect,
  server_requires_reconnect, send_msg_all, add_all, no_files, empty_client, client_of_config,
}
use flight_safety_system.Client.Process.{process_message, process_closed, put_server, call}
use flight_safety_system.Client.Disconnect.{
  client_of, hand_over_last, cb_disconnect, disconnect_each, client_disconnect,
}
use flight_safety_system.Client.Reconnect.{
  those, reached, attempt_reconnect-those, attempt_reconnect-next_object,
}
use flight_safety_system.Client.Delays.{
  IsDelay, cb_send-delay, reconnect-IsDelay, send_each-delays, update-IsDelay,
}
use flight_safety_system.Client.Invariant.{
  sorted_both, WellFormed, well_formed, server_requires_reconnect-WellFormed,
  update_servers-WellFormed, add_server-WellFormed, connect_to-WellFormed,
}

module _ {F : Floats} where
  pub attempt_reconnect-WellFormed :
      (nets : ℕ → Network) (now : ℕ → ℕ) (c : FssClient F)
      → WellFormed c
      → WellFormed (attempt_reconnect nets now c)
  attempt_reconnect-WellFormed nets now c w =
      let name = c.asset_name in
      let test = reached nets now name c.objects in
      let once : (q : ℕ) → count q c.reconnect_servers ≤ 1 =
        λ q. (let a = w.each q in ground arith) in
      let (s, r, o, _) = attempt_reconnect-those nets now c once in
      let n = attempt_reconnect-next_object nets now c in
      well_formed (attempt_reconnect nets now c)
        (
          c.servers ++ those test c.reconnect_servers,
          those (λ q. not (test q)) c.reconnect_servers,
          c.next_object,
        )
        (rw (s, r, n) refl) (sorted_both test c.servers c.reconnect_servers c.next_object w.each)
        (λ q.
          subst (λ (x : FssServer F). IsDelay x.retry_delay) (sym (o q))
            (elim (Bool-cases (contains q c.reconnect_servers)) [
              | inl held ↦
                  rw held (reconnect-IsDelay (nets q) (now q) name (c.objects q) (w.delays q))
              | inr other ↦ rw other (w.delays q)
            ]))

  pub send_msg_all-WellFormed :
      (c : FssClient F) (m : Message F) → WellFormed c → WellFormed (send_msg_all c m)
  unfolding send_msg_all
  send_msg_all-WellFormed c m w = record {
    each = w.each;
    delays = send_each-delays c.servers c.objects m w.delays;
  }

  put-WellFormed :
      (c : FssClient F) (p : ℕ) (s : FssServer F)
      → WellFormed c
      → IsDelay s.retry_delay
      → WellFormed (put_server c p s)
  put-WellFormed c p s w d = record {
    each = w.each;
    delays = update-IsDelay c.objects p s w.delays d;
  }

  call-WellFormed : (c : FssClient F) (x : ClientCall F) → WellFormed c → WellFormed (call c x)
  call-WellFormed c x w = record { each = w.each; delays = w.delays }

  process_closed-WellFormed :
      (c : FssClient F) (p : ℕ) → WellFormed c → WellFormed (process_closed c p)
  unfolding process_closed
  process_closed-WellFormed c p w =
      let w' = server_requires_reconnect-WellFormed c p w in
      let c' = server_requires_reconnect c p in
      put-WellFormed c' p (record (c'.objects p) { last_tried = 0; retry_count = 0 }) w'
        (w'.delays p)

  message-WellFormed :
      (c : FssClient F) (p id : ℕ) (t : FssMessageType) (b : Body F)
      → WellFormed c
      → WellFormed (process_message c p (some (record { id = id; type = t; body = b })))
  unfolding process_message
  message-WellFormed c p id FssMessageType.closed b w = process_closed-WellFormed c p w
  message-WellFormed c p id FssMessageType.rtt_request b w =
      let reply = make (Body.rtt_response id) in
      put-WellFormed c p (cb_send (c.objects p) reply).0 w
        (subst IsDelay (sym (cb_send-delay (c.objects p) reply)) (w.delays p))
  message-WellFormed c p id FssMessageType.position_report (Body.position_report r) w =
      call-WellFormed c (ClientCall.handle_position_report r) w
  message-WellFormed c p id FssMessageType.command (Body.command x) w =
      call-WellFormed c (ClientCall.handle_command x) w
  message-WellFormed c p id FssMessageType.server_list (Body.server_list servers) w =
      update_servers-WellFormed servers c w
  message-WellFormed c p id FssMessageType.smm_settings (Body.smm_settings x) w =
      call-WellFormed c (ClientCall.handle_smm_settings x) w
  message-WellFormed c p id _ _ w = w

  pub process_message-WellFormed :
      (c : FssClient F) (p : ℕ) (m : Option (Message F))
      → WellFormed c
      → WellFormed (process_message c p m)
  unfolding process_message
  process_message-WellFormed c p none w = w
  process_message-WellFormed c p (some m) w = message-WellFormed c p m.id m.type m.body w

  hand_over_last-WellFormed :
      (c : FssClient F) (p : ℕ) (ms : List (Option (Message F)))
      → WellFormed c
      → WellFormed (hand_over_last c p ms)
  unfolding hand_over_last
  hand_over_last-WellFormed c p [] w = w
  hand_over_last-WellFormed c p (m ∷ ms) w =
      hand_over_last-WellFormed (process_message c p m) p ms (process_message-WellFormed c p m w)

  cb_disconnect-WellFormed :
      (last : ℕ → List (Option (Message F))) (c : FssClient F) (p : ℕ)
      → WellFormed c
      → WellFormed (cb_disconnect last c p)
  unfolding cb_disconnect
  cb_disconnect-WellFormed last c p w = elim (Option-cases (c.objects p).conn) [
    | inl gone ↦ rw (gone, cb_disconnect) w
    | inr (k, e) ↦
        let c' = hand_over_last c p (last p) in
        let w' = hand_over_last-WellFormed c p (last p) w in
        rw (e, cb_disconnect)
          (put-WellFormed c' p (record (c'.objects p) { conn = none }) w' (w'.delays p))
  ]

  disconnect_each-WellFormed :
      (last : ℕ → List (Option (Message F))) (ps : List ℕ) (c : FssClient F)
      → WellFormed c
      → WellFormed (client_of (disconnect_each last ps c))
  unfolding disconnect_each
  disconnect_each-WellFormed last [] c w = w
  disconnect_each-WellFormed last (p ∷ ps) c w =
      let c' = cb_disconnect last c p in
      let w' = cb_disconnect-WellFormed last c p w in
      elim (Bool-cases (contains p c'.servers)) [
        | inl still ↦
            rw (still, client_of, disconnect_each) (disconnect_each-WellFormed last ps c' w')
        | inr gone ↦ rw (gone, client_of, disconnect_each) w'
      ]

  add_all-WellFormed :
      (entries : List (List ℕ × ℕ)) (c : FssClient F)
      → WellFormed c
      → WellFormed (add_all c entries)
  unfolding add_all make_server new_server
  add_all-WellFormed [] c w = w
  add_all-WellFormed ((a, k) ∷ entries) c w =
      let s = new_server a (k % 2 ^ 16) c.files in
      let objects = update c.objects c.next_object s in
      add_all-WellFormed entries (add_server (make_server c a (k % 2 ^ 16)) c.next_object) (
        add_server-WellFormed c c.next_object objects w refl
          (update-IsDelay c.objects c.next_object s w.delays (0, refl)))

  empty-WellFormed :
      (name : List ℕ) (files : TlsFiles) → WellFormed (empty_client {F = F} name files)
  unfolding empty_client new_server
  empty-WellFormed name files = record { each = λ p. ground arith; delays = λ p. (0, refl) }

  pub client_of_config-WellFormed :
      (file : Option Config) → WellFormed (client_of_config {F = F} file)
  unfolding client_of_config
  client_of_config-WellFormed none = empty-WellFormed [] no_files
  client_of_config-WellFormed (some config) =
      add_all-WellFormed config.servers (empty_client config.name config.files)
        (empty-WellFormed config.name config.files)

  -- What the application and the threads that receive do with a client.
  pub data Step : FssClient F → FssClient F → Type 0 where
    connects :
        (c : FssClient F) (address : List ℕ) (port : ℕ) (t_connect : Option (Network × ℕ))
        → Step c (connect_to c address port t_connect)
    attempts :
        (c : FssClient F) (nets : ℕ → Network) (now : ℕ → ℕ) → Step c (attempt_reconnect nets now c)
    receives : (c : FssClient F) (p : ℕ) (m : Option (Message F)) → Step c (process_message c p m)
    sends : (c : FssClient F) (m : Message F) → Step c (send_msg_all c m)
    -- Also where the loop cannot go on.
    disconnects :
        (c : FssClient F) (last : ℕ → List (Option (Message F)))
        → Step c (client_of (client_disconnect last c))

  pub data Reach (c0 : FssClient F) : FssClient F → Type 0 where
    start : Reach c0 c0
    then : (c d : FssClient F) → Reach c0 c → Step c d → Reach c0 d

  Step-WellFormed : (c d : FssClient F) → Step c d → WellFormed c → WellFormed d
  unfolding client_disconnect
  Step-WellFormed c d (Step.connects _ a k t) w = connect_to-WellFormed c a k t w
  Step-WellFormed c d (Step.attempts _ nets now) w = attempt_reconnect-WellFormed nets now c w
  Step-WellFormed c d (Step.receives _ p m) w = process_message-WellFormed c p m w
  Step-WellFormed c d (Step.sends _ m) w = send_msg_all-WellFormed c m w
  Step-WellFormed c d (Step.disconnects _ last) w = disconnect_each-WellFormed last c.servers c w

  -- After the constructor with any configuration and any sequence of connections asked for, attempts
  -- to reconnect, messages handled, messages sent to all and disconnections, with what the
  -- threads that they join hand over: every server object that was made is in exactly one of the two lists of the client, once, nothing else is in them,
  -- and the delay of every object is one that doubling the first one below the cap gives.
  pub reachable_client-WellFormed :
      (file : Option Config) (c : FssClient F) → Reach (client_of_config file) c → WellFormed c
  reachable_client-WellFormed file _ Reach.start = client_of_config-WellFormed file
  reachable_client-WellFormed file d (Reach.then c _ r s) =
      Step-WellFormed c d s (reachable_client-WellFormed file c r)
