-- ===== src/Connection/Tls.antt =====
-- `recvSessionBytes` of src/transport-ssl.cpp, below `recvMsg`.
use flight_safety_system.Base.{
  ℕ, suc, ◌≡◌, refl, Bool, true, false, List, ◌∷◌, Option, some, map, if◌then◌else◌, arith, ◌⊎◌,
}
use flight_safety_system.Floats.{Floats}
use flight_safety_system.Message.{Message, Body, make, body_type}
use flight_safety_system.Connection.{Connection}
use flight_safety_system.Connection.Receive.{
  Reply, recv_msg, Received, is_closed, Run, process_messages,
}

-- What `session.recv` does: it returns bytes or a negative number, or throws.
pub data SessionReply : Type 0 where
  bytes : List ℕ → SessionReply
  negative thrown : SessionReply

-- An unusable session is not asked; an exception is caught and leaves -1.
unfoldable pub recv_session_bytes : Bool → SessionReply → Reply
recv_session_bytes usable r =
    if usable
    then elim r [
      | SessionReply.bytes bs ↦ Reply.bytes bs
      | SessionReply.negative ↦ Reply.failed
      | SessionReply.thrown ↦ Reply.failed
    ]
    else Reply.failed

-- `processMessages` over a TLS session.
unfoldable pub process_session {ℓ} :
    {F : Floats} {S : Type ℓ}
    → (S → Option (Message F) → S)
    → (ℕ → Bool)
    → ℕ
    → S
    → Connection F
    → List SessionReply
    → Run S
unfolding recv_session_bytes
process_session {F} hand_over ebadf rounds s c rs =
    process_messages F hand_over ebadf rounds s (map (recv_session_bytes c.usable) rs)

recv_msg_failed :
    (F : Floats) (ebadf : Bool) (rs : List Reply)
    → recv_msg F ebadf (Reply.failed ∷ rs) ≡ Received.got (some (make Body.closed)) rs
unfolding recv_msg
recv_msg_failed F ebadf rs = refl

made_closed : (F : Floats) → is_closed {F = F} (some (make Body.closed)) ≡ true
unfolding is_closed make body_type
made_closed F = refl

failing_reply :
    (usable : Bool) (r : SessionReply)
    → (usable ≡ false) ⊎ (r ≡ SessionReply.negative) ⊎ (r ≡ SessionReply.thrown)
    → recv_session_bytes usable r ≡ Reply.failed
unfolding recv_session_bytes
failing_reply usable r h = ground arith

-- A connection that is not usable, or whose session fails or throws where a message would start:
-- `processMessages`, given a round, returns after it has handed over one message, that the connection
-- is closed, whatever the session would bring after that.
pub process_session_closes {ℓ} :
    {F : Floats} {S : Type ℓ} (hand_over : S → Option (Message F) → S) (ebadf : ℕ → Bool)
    (rounds : ℕ) (s : S) (c : Connection F) (r : SessionReply) (rs : List SessionReply)
    → (c.usable ≡ false) ⊎ (r ≡ SessionReply.negative) ⊎ (r ≡ SessionReply.thrown)
    → process_session hand_over ebadf (suc rounds) s c (r ∷ rs)
      ≡ Run.returned (hand_over s (some (make Body.closed)))
unfolding process_session process_messages
process_session_closes {F} hand_over ebadf rounds s c r rs h =
    let rest = map (recv_session_bytes c.usable) rs in
    rw
      (
        failing_reply c.usable r h,
        process_messages,
        recv_msg_failed F (ebadf rounds) rest,
        process_messages,
        made_closed F,
      )
      refl
