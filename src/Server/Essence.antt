-- ===== src/Server/Essence.antt =====
-- What src/server.cpp keeps of a client when it sends to it: whether and as what it is identified, its
-- name, and the names of its certificate.
use flight_safety_system.Base.{
  ℕ, ◌≡◌, refl, ◌∙◌, inl, inr, Bool, true, false, List, [], ◌∷◌, Option, none, some, arith, ◌==◌,
  if◌then◌else◌, update, ==_iff, Bool-cases, Option-cases, ap, sym, not, ◌&&◌, ◌%◌,
}
use flight_safety_system.Floats.{Floats}
use flight_safety_system.Message.{FssMessageType, Message, Body, make}
use flight_safety_system.Connection.{
  send_msg, send_session_msg, get_message_id, destroy, disconnect,
}
use flight_safety_system.Db.{Database}
use flight_safety_system.Server.{
  FssClient, client_send, get_servers_list_msg, send_command, send_rtt_request, send_smm_settings,
}
use flight_safety_system.Server.Clients.{
  ServerClients, is_except, send_each, send_msg_all, rtt_each, for_each, send_rtt_request_all,
  send_command_all, send_smm_settings_all, cleanup_removable_clients, shut_down,
}
use flight_safety_system.Server.Process.{
  process_identified, process_rtt_response, periodic, welcome, take_rtt,
}

module _ {F : Floats} where
  abbrev pub essence : FssClient F → Bool × Bool × List ℕ × List (List ℕ)
  essence c = (c.identified, c.aircraft, c.name, c.conn.possible_names)

  -- Every object of a store has the essence that it has in another.
  abbrev pub Same : (ℕ → FssClient F) → (ℕ → FssClient F) → Type 0
  Same objects objects' = (q : ℕ) → essence (objects' q) ≡ essence (objects q)

  pub client_send-essence :
      (c : FssClient F) (m : Message F) → essence (client_send c m).0 ≡ essence c
  unfolding client_send send_msg send_session_msg get_message_id
  client_send-essence c m = ground arith

  send_command-essence :
      (db : Database F) (ts : ℕ) (c : FssClient F) → essence (send_command db ts c) ≡ essence c
  unfolding send_command client_send send_msg send_session_msg get_message_id
  send_command-essence db ts c = ground arith

  send_smm_settings-essence :
      (db : Database F) (c : FssClient F) → essence (send_smm_settings db c) ≡ essence c
  unfolding send_smm_settings client_send send_msg send_session_msg get_message_id
  send_smm_settings-essence db c = ground arith

  send_rtt_request-essence :
      (ts : ℕ) (c : FssClient F) (m : Message F) → essence (send_rtt_request ts c m).0 ≡ essence c
  unfolding send_rtt_request client_send send_msg send_session_msg get_message_id
  send_rtt_request-essence ts c m = ground arith

  pub update-Same :
      (objects : ℕ → FssClient F) (p : ℕ) (c : FssClient F)
      → essence c ≡ essence (objects p)
      → Same objects (update objects p c)
  update-Same objects p c e q = elim (Bool-cases (q == p)) [
    | inl here ↦
        let same = ap (λ x. essence (objects x)) ((==_iff q p).0 here) in
        let at : update objects p c q ≡ c = ground arith in ap essence at ∙ e ∙ sym same
    | inr other ↦ let at : update objects p c q ≡ objects q = ground arith in ap essence at
  ]

  Same-trans : (a b c : ℕ → FssClient F) → Same a b → Same b c → Same a c
  Same-trans a b c ab bc q = bc q ∙ ab q

  if-Same :
      (b : Bool) (objects after : ℕ → FssClient F)
      → Same objects after
      → Same objects (if b then after else objects)
  if-Same true objects after h q = h q
  if-Same false objects after h q = refl

  pub send_each-Same :
      (ps : List ℕ) (except : Option ℕ) (objects : ℕ → FssClient F) (m : Message F)
      → Same objects (send_each ps except objects m)
  unfolding send_each
  send_each-Same [] except objects m = λ q. refl
  send_each-Same (p ∷ ps) except objects m =
      let (c, m') = client_send (objects p) m in
      let wanted = (objects p).aircraft && not (is_except except p) in
      let next : ℕ → FssClient F = if wanted then update objects p c else objects in
      Same-trans objects next (send_each ps except next (if wanted then m' else m))
        (if-Same wanted objects (update objects p c)
          (update-Same objects p c (client_send-essence (objects p) m)))
        (send_each-Same ps except next (if wanted then m' else m))

  rtt_each-Same :
      (now : ℕ → ℕ) (ps : List ℕ) (objects : ℕ → FssClient F) (m : Message F)
      → Same objects (rtt_each now ps objects m)
  unfolding rtt_each
  rtt_each-Same now [] objects m = λ q. refl
  rtt_each-Same now (p ∷ ps) objects m =
      let (c, m') = send_rtt_request (now p) (objects p) m in
      Same-trans objects (update objects p c) (rtt_each now ps (update objects p c) m')
        (update-Same objects p c (send_rtt_request-essence (now p) (objects p) m))
        (rtt_each-Same now ps (update objects p c) m')

  pub for_each-Same :
      (method : ℕ → FssClient F → FssClient F) (ps : List ℕ) (objects : ℕ → FssClient F)
      → ((p : ℕ) (c : FssClient F) → essence (method p c) ≡ essence c)
      → Same objects (for_each method ps objects)
  unfolding for_each
  for_each-Same method [] objects keeps = λ q. refl
  for_each-Same method (p ∷ ps) objects keeps =
      let next = update objects p (method p (objects p)) in
      Same-trans objects next (for_each method ps next)
        (update-Same objects p (method p (objects p)) (keeps p (objects p)))
        (for_each-Same method ps next keeps)

  pub shut_down-Same : (s : ServerClients F) → Same s.objects (shut_down s).objects
  unfolding shut_down destroy disconnect
  shut_down-Same s =
      for_each-Same (λ p c. record c { conn = destroy c.conn }) s.clients s.objects (λ p c. refl)

  -- A round of the main loop changes neither what a client is identified as nor its names.
  pub periodic-Same :
      (db : Database F) (now : ℕ → ℕ × ℕ) (counter : ℕ) (s : ServerClients F)
      → Same s.objects (periodic db now counter s).objects
  unfolding periodic cleanup_removable_clients send_rtt_request_all send_command_all
      send_smm_settings_all send_msg_all
  periodic-Same db now counter s =
      let o1 = rtt_each (λ p. (now p).0) s.clients s.objects (make Body.rtt_request) in
      let o2 = for_each (λ p c. send_command db (now p).1 c) s.clients o1 in
      let o3 = send_each s.clients none o2 (get_servers_list_msg db) in
      let o4 = for_each (λ p c. send_smm_settings db c) s.clients o3 in
      let h1 = rtt_each-Same (λ p. (now p).0) s.clients s.objects (make Body.rtt_request) in
      let h2 =
        for_each-Same (λ p c. send_command db (now p).1 c) s.clients o1
          (λ p c. send_command-essence db (now p).1 c) in
      let h3 = send_each-Same s.clients none o2 (get_servers_list_msg db) in
      let h4 =
        for_each-Same (λ p c. send_smm_settings db c) s.clients o3
          (λ p c. send_smm_settings-essence db c) in
      λ q. elim (Bool-cases (counter % 15 == 0)) [
        | inl full ↦
            let e : essence ((periodic db now counter s).objects q) ≡ essence (o4 q) =
              rw (full, periodic) refl in
            e ∙ h4 q ∙ h3 q ∙ h2 q ∙ h1 q
        | inr other ↦
            let e : essence ((periodic db now counter s).objects q) ≡ essence (o2 q) =
              rw (other, periodic) refl in
            e ∙ h2 q ∙ h1 q
      ]

  pub welcome-essence :
      (db : Database F) (ts : ℕ) (c : FssClient F) → essence (welcome db ts c) ≡ essence c
  unfolding welcome
  welcome-essence db ts c =
      let c1 = send_command db ts c in
      let c2 = send_smm_settings db c1 in
      client_send-essence c2 (get_servers_list_msg db)
      ∙ send_smm_settings-essence db c1
      ∙ send_command-essence db ts c

  rtt_response-Same :
      (db : Database F) (ts : ℕ) (s : ServerClients F) (p request_id : ℕ)
      → Same s.objects (process_rtt_response db ts s p request_id).objects
  unfolding process_rtt_response
  rtt_response-Same db ts s p request_id =
      elim (Option-cases (take_rtt request_id (s.objects p).outstanding_rtt_requests)) [
        | inl nothing ↦
            let e : process_rtt_response db ts s p request_id ≡ s = ground arith in
            λ q. ap (λ (t : ServerClients F). essence (t.objects q)) e
        | inr ((req, left), found) ↦
            let c : FssClient F = record (s.objects p) { outstanding_rtt_requests = left } in
            let e : (process_rtt_response db ts s p request_id).objects ≡ update s.objects p c =
              ground arith in
            λ q. ap (λ (o : ℕ → FssClient F). essence (o q)) e ∙ update-Same s.objects p c refl q
      ]

  position-Same :
      (db : Database F) (ts : ℕ) (s : ServerClients F) (p : ℕ) (m : Message F)
      → m.type ≡ FssMessageType.position_report
      → Same s.objects (process_identified db ts s p m).objects
  unfolding process_identified send_msg_all
  position-Same db ts s p m kind q =
      let e : (process_identified db ts s p m).objects ≡ send_each s.clients (some p) s.objects m =
        ground arith in
      ap (λ (o : ℕ → FssClient F). essence (o q)) e
      ∙ send_each-Same s.clients (some p) s.objects m q

  pub process_identified-Same :
      (db : Database F) (ts : ℕ) (s : ServerClients F) (p id : ℕ) (t : FssMessageType) (b : Body F)
      → Same s.objects
          (process_identified db ts s p (record { id = id; type = t; body = b })).objects
  unfolding process_identified
  process_identified-Same db ts s p id FssMessageType.rtt_request b =
      let reply : Message F = make (Body.rtt_response id) in
      update-Same s.objects p (client_send (s.objects p) reply).0
        (client_send-essence (s.objects p) reply)
  process_identified-Same db ts s p id FssMessageType.position_report b =
      position-Same db ts s p (record { id = id; type = FssMessageType.position_report; body = b })
        refl
  process_identified-Same db ts s p id FssMessageType.rtt_response (Body.rtt_response r) =
      rtt_response-Same db ts s p r
  process_identified-Same db ts s p id FssMessageType.rtt_response b = λ q. refl
  process_identified-Same db ts s p id FssMessageType.system_status (Body.system_status x) =
      λ q. refl
  process_identified-Same db ts s p id FssMessageType.system_status b = λ q. refl
  process_identified-Same db ts s p id FssMessageType.search_status (Body.search_status x) =
      λ q. refl
  process_identified-Same db ts s p id FssMessageType.search_status b = λ q. refl
  process_identified-Same db ts s p id t b = λ q. refl
