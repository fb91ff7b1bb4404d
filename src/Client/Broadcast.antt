-- ===== src/Client/Broadcast.antt =====
-- What each server of a client in src/client-ssl.cpp sees of a message to all and of a connection
-- that closes.
use flight_safety_system.Base.{
  ℕ, ◌+◌, ◌%◌, ◌^◌, ◌≤◌, ◌≡◌, refl, ap, ◌∙◌, inl, inr, false, List, [], ◌∷◌, ◌++◌, none, some,
  arith, ◌==◌, if◌then◌else◌, contains, count, update, ==_iff, Bool-cases, contains-count, subst,
  Option-cases,
}
use flight_safety_system.Floats.{Floats}
use flight_safety_system.Message.{Message, set_id}
use flight_safety_system.Message.Pack.{get_packed}
use flight_safety_system.Message.Valid.{get_packed-is_valid}
use flight_safety_system.Connection.{Connection, send_msg, send_session_msg, get_message_id}
use flight_safety_system.Client.{FssServer, cb_send}
use flight_safety_system.Client.Servers.{FssClient, send_each, send_msg_all}

module _ {F : Floats} where
  cb_send_renamed :
      (s t : FssServer F) (m : Message F) → (cb_send s (cb_send t m).1).0 ≡ (cb_send s m).0
  unfolding cb_send send_msg set_id
  cb_send_renamed s t m = ground arith

  send_each_other :
      (ps : List ℕ) (objects : ℕ → FssServer F) (m : Message F) (q : ℕ)
      → contains q ps ≡ false
      → send_each ps objects m q ≡ objects q
  unfolding send_each
  send_each_other [] objects m q h = refl
  send_each_other (p ∷ ps) objects m q h =
      let r = cb_send (objects p) m in
      send_each_other ps (update objects p r.0) r.1 q (ground arith) ∙ ground arith

  send_each_once :
      (ps : List ℕ) (objects : ℕ → FssServer F) (m : Message F) (q : ℕ)
      → count q ps ≤ 1
      → send_each ps objects m q ≡ (if contains q ps then (cb_send (objects q) m).0 else objects q)
  unfolding send_each
  send_each_once [] objects m q h = refl
  send_each_once (p ∷ ps) objects m q h =
      let r = cb_send (objects p) m in
      let after = update objects p r.0 in
      elim (Bool-cases (p == q)) [
        | inl same ↦
            let held = contains-count q ps in
            send_each_other ps after r.1 q (ground arith)
            ∙ subst
                (λ x.
                  after x ≡ (if contains x (p ∷ ps) then (cb_send (objects x) m).0 else objects x))
                ((==_iff p q).0 same) (let e = ==_iff p p in ground arith)
        | inr other ↦
            let kept : after q ≡ objects q = ground arith in
            send_each_once ps after r.1 q (ground arith)
            ∙ rw (kept, cb_send_renamed (objects q) (objects p) m) (ground arith)
      ]

  -- A usable connection that has sent a message.
  abbrev pub said : Connection F → Message F → Connection F
  said k m = record k {
    last_msg_id = (k.last_msg_id + 1) % 2 ^ 64;
    sent = k.sent ++ get_packed (set_id m ((k.last_msg_id + 1) % 2 ^ 64)) ∷ [];
  }

  -- A server that was sent a message: it goes out on a usable connection, packed with the next id of
  -- that connection, and only the id is used up on another.
  abbrev pub given : FssServer F → Message F → FssServer F
  given s m = elim s.conn [
    | none ↦ s
    | some k ↦ record s {
      conn = some (record k {
        last_msg_id = (k.last_msg_id + 1) % 2 ^ 64;
        sent =
            if k.usable
            then k.sent ++ get_packed (set_id m ((k.last_msg_id + 1) % 2 ^ 64)) ∷ []
            else k.sent;
      });
    }
  ]

  pub cb_send-given : (s : FssServer F) (m : Message F) → (cb_send s m).0 ≡ given s m
  unfolding cb_send send_msg send_session_msg get_message_id
  cb_send-given s m = elim (Option-cases s.conn) [
    | inl gone ↦ ground arith
    | inr (k, e) ↦
        let v = get_packed-is_valid (set_id m ((k.last_msg_id + 1) % 2 ^ 64)) in ground arith
  ]

  -- A message to all, no server being held twice: each connected server is given it once, under the
  -- next id of its own connection, and the object of a server that is not connected stays.
  pub send_msg_all-given :
      (c : FssClient F) (m : Message F) (q : ℕ)
      → count q c.servers ≤ 1
      → (send_msg_all c m).objects q
        ≡ (if contains q c.servers then given (c.objects q) m else c.objects q)
  unfolding send_msg_all
  send_msg_all-given c m q once =
      send_each_once c.servers c.objects m q once
      ∙ ap (λ x. if contains q c.servers then x else c.objects q) (cb_send-given (c.objects q) m)
