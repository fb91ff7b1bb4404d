-- ===== src/Server/Waiting.antt =====
-- What the messages of one client in src/server.cpp leave of the outstanding requests of another.
use flight_safety_system.Base.{
  ℕ, ◌≡◌, ◌≢◌, refl, sym, ap, ◌∙◌, inl, inr, Bool, List, [], ◌∷◌, Option, none, some, arith, ◌==◌,
  ==_iff, if◌then◌else◌, update, not, ◌&&◌, length, Bool-cases, Option-cases,
}
use flight_safety_system.Floats.{Floats}
use flight_safety_system.Message.{FssMessageType, Body, Message, make}
use flight_safety_system.Connection.{send_msg, send_session_msg, get_message_id, drain}
use flight_safety_system.Db.{Database}
use flight_safety_system.Server.{FssClient, client_send}
use flight_safety_system.Server.Clients.{ServerClients, is_except, send_each, send_msg_all}
use flight_safety_system.Server.Process.{
  process_message, process_identified, process_rtt_response, take_rtt,
}
use flight_safety_system.Server.Gate.{unidentified_writes_nothing}
use flight_safety_system.Server.Roster.Growth.{process_message-cases, client_disconnected-objects}

abbrev pub waiting_for : {F : Floats} → FssClient F → ℕ
waiting_for c = length c.outstanding_rtt_requests

module _ {F : Floats} where
  sent-waiting : (c : FssClient F) (m : Message F) → waiting_for (client_send c m).0 ≡ waiting_for c
  unfolding client_send send_msg send_session_msg get_message_id
  sent-waiting c m = ground arith

  put-waiting :
      (objects : ℕ → FssClient F) (p q : ℕ) (c : FssClient F)
      → waiting_for c ≡ waiting_for (objects p)
      → waiting_for (update objects p c q) ≡ waiting_for (objects q)
  put-waiting objects p q c e = elim (Bool-cases (q == p)) [
    | inl here ↦
        let same = ap (λ x. waiting_for (objects x)) ((==_iff q p).0 here) in
        let at : update objects p c q ≡ c = ground arith in ap waiting_for at ∙ e ∙ sym same
    | inr other ↦ let at : update objects p c q ≡ objects q = ground arith in ap waiting_for at
  ]

  pub put-other :
      (objects : ℕ → FssClient F) (p q : ℕ) (c : FssClient F)
      → q ≢ p
      → waiting_for (update objects p c q) ≡ waiting_for (objects q)
  put-other objects p q c other =
      let e = ==_iff q p in
      let at : update objects p c q ≡ objects q = ground arith in ap waiting_for at

  send_each-waiting :
      (ps : List ℕ) (except : Option ℕ) (objects : ℕ → FssClient F) (m : Message F) (q : ℕ)
      → waiting_for (send_each ps except objects m q) ≡ waiting_for (objects q)
  unfolding send_each
  send_each-waiting [] except objects m q = refl
  send_each-waiting (p ∷ ps) except objects m q =
      let wanted : Bool = (objects p).aircraft && not (is_except except p) in
      let (c, m') = client_send (objects p) m in
      let next : ℕ → FssClient F = if wanted then update objects p c else objects in
      send_each-waiting ps except next (if wanted then m' else m) q ∙ elim (Bool-cases wanted) [
        | inl wants ↦
            ap (λ (b : Bool). waiting_for ((if b then update objects p c else objects) q)) wants
            ∙ put-waiting objects p q c (sent-waiting (objects p) m)
        | inr not_wanted ↦
            ap (λ (b : Bool). waiting_for ((if b then update objects p c else objects) q))
              not_wanted
      ]

  rtt_response-waiting :
      (db : Database F) (ts : ℕ) (s : ServerClients F) (p q request_id : ℕ)
      → q ≢ p
      → waiting_for ((process_rtt_response db ts s p request_id).objects q)
        ≡ waiting_for (s.objects q)
  unfolding process_rtt_response
  rtt_response-waiting db ts s p q request_id other =
      elim (Option-cases (take_rtt request_id (s.objects p).outstanding_rtt_requests)) [
        | inl nothing ↦
            let e : process_rtt_response db ts s p request_id ≡ s = ground arith in
            ap (λ (t : ServerClients F). waiting_for (t.objects q)) e
        | inr ((req, left), found) ↦
            let c : FssClient F = record (s.objects p) { outstanding_rtt_requests = left } in
            let e : (process_rtt_response db ts s p request_id).objects ≡ update s.objects p c =
              ground arith in
            ap (λ (o : ℕ → FssClient F). waiting_for (o q)) e ∙ put-other s.objects p q c other
      ]

  position-waiting :
      (db : Database F) (ts : ℕ) (s : ServerClients F) (p q : ℕ) (m : Message F)
      → m.type ≡ FssMessageType.position_report
      → waiting_for ((process_identified db ts s p m).objects q) ≡ waiting_for (s.objects q)
  unfolding process_identified send_msg_all
  position-waiting db ts s p q m kind =
      let e : (process_identified db ts s p m).objects ≡ send_each s.clients (some p) s.objects m =
        ground arith in
      ap (λ (o : ℕ → FssClient F). waiting_for (o q)) e
      ∙ send_each-waiting s.clients (some p) s.objects m q

  identified-waiting :
      (db : Database F) (ts : ℕ) (s : ServerClients F) (p q id : ℕ) (t : FssMessageType)
      (b : Body F)
      → q ≢ p
      → waiting_for
          ((process_identified db ts s p (record { id = id; type = t; body = b })).objects q)
        ≡ waiting_for (s.objects q)
  unfolding process_identified
  identified-waiting db ts s p q id FssMessageType.rtt_request b other =
      put-other s.objects p q (client_send (s.objects p) (make (Body.rtt_response id))).0 other
  identified-waiting db ts s p q id FssMessageType.position_report b other =
      position-waiting db ts s p q
        (record { id = id; type = FssMessageType.position_report; body = b }) refl
  identified-waiting db ts s p q id FssMessageType.rtt_response (Body.rtt_response r) other =
      rtt_response-waiting db ts s p q r other
  identified-waiting db ts s p q id FssMessageType.rtt_response b other = refl
  identified-waiting db ts s p q id FssMessageType.system_status (Body.system_status x) other = refl
  identified-waiting db ts s p q id FssMessageType.system_status b other = refl
  identified-waiting db ts s p q id FssMessageType.search_status (Body.search_status x) other = refl
  identified-waiting db ts s p q id FssMessageType.search_status b other = refl
  identified-waiting db ts s p q id t b other = refl

  pub process_message-waiting :
      (db : Database F) (ts : ℕ) (s : ServerClients F) (p : ℕ) (m : Option (Message F)) (q : ℕ)
      → q ≢ p
      → waiting_for ((process_message db ts s p m).objects q) ≡ waiting_for (s.objects q)
  unfolding process_message
  process_message-waiting db ts s p none q other = refl
  process_message-waiting db ts s p (some m) q other = elim (process_message-cases db ts s p m) [
    | inl gone ↦
        ap (λ (t : ServerClients F). waiting_for (t.objects q)) gone
        ∙ ap (λ (o : ℕ → FssClient F). waiting_for (o q)) (client_disconnected-objects s p)
    | inr (inl (known, same)) ↦
        ap (λ (t : ServerClients F). waiting_for (t.objects q)) same
        ∙ identified-waiting db ts s p q m.id m.type m.body other
    | inr (inr (new, same)) ↦
        ap waiting_for (unidentified_writes_nothing db ts s p q (some m) new other).1
  ]

  pub drain-waiting :
      (db : Database F) (ts : ℕ) (s : ServerClients F) (p : ℕ) (ms : List (Option (Message F)))
      (q : ℕ)
      → q ≢ p
      → waiting_for ((drain (λ s m. process_message db ts s p m) ms s).objects q)
        ≡ waiting_for (s.objects q)
  unfolding drain
  drain-waiting db ts s p [] q other = refl
  drain-waiting db ts s p (m ∷ ms) q other =
      drain-waiting db ts (process_message db ts s p m) p ms q other
      ∙ process_message-waiting db ts s p m q other
