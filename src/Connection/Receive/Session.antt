-- ===== src/Connection/Receive/Session.antt =====
-- `processMessages` of src/transport.cpp on the stream of a peer that sends packed messages and
-- closes.
use flight_safety_system.Base.{
  ℕ, zero, suc, ◌<◌, ◌≡◌, refl, Bool, false, List, [], ◌∷◌, ◌++◌, Option, some, arith, length, be,
  All,
}
use flight_safety_system.Floats.{Floats}
use flight_safety_system.Message.{Message, Body, make, body_type}
use flight_safety_system.Message.Wire.{wire_size}
use flight_safety_system.Message.RoundTrip.{Sendable, received}
use flight_safety_system.Connection.Receive.{Reply, recv_msg, is_closed, Run, process_messages}
use flight_safety_system.Connection.Receive.Framing.{
  IsChunks, replies, flatten, packed_tail, recv_msg-get_packed,
}

module _ (F : Floats) where
  -- A message that the peer sends, with the parts in which the bytes behind its length arrive.
  pub record Delivery : Type 0 where
    pub message : Message F
    pub chunks : List (List ℕ)

  pub record IsDelivery (d : Delivery) : Type 0 where
    pub sendable : Sendable d.message
    pub non_empty : IsChunks d.chunks
    pub whole : flatten d.chunks ≡ packed_tail d.message

  abbrev pub stream : List Delivery → List Reply → List Reply
  stream [] rest = rest
  stream (d ∷ ds) rest =
      Reply.bytes (be 2 (wire_size d.message.body)) ∷ (replies d.chunks ++ stream ds rest)

  -- The callback on each message in turn.
  abbrev pub hand_over_all {ℓ} : {S : Type ℓ} → (S → Option (Message F) → S) → S → List Delivery → S
  hand_over_all hand_over s [] = s
  hand_over_all hand_over s (d ∷ ds) =
      hand_over_all hand_over (hand_over s (received d.message.id d.message.body)) ds

received_not_closed : {F : Floats} (msg_id : ℕ) (b : Body F) → is_closed (received msg_id b) ≡ false
unfolding is_closed body_type
received_not_closed msg_id Body.closed = refl
received_not_closed msg_id _ = refl

-- A stream of packed messages, the two bytes of each length arriving together and alone and the bytes
-- behind them in whatever non-empty parts, and then the close of the peer: given more rounds than
-- there are messages, `processMessages` returns, and has handed over each message as
-- the receiver gets it, once and in order, and last the message that says the connection was closed.
pub process_messages-stream {ℓ} :
    (F : Floats) {S : Type ℓ} (hand_over : S → Option (Message F) → S) (ebadf : ℕ → Bool)
    (ds : List (Delivery F)) (rounds : ℕ) (s : S) (rest : List Reply)
    → length ds < rounds
    → All (IsDelivery F) ds
    → process_messages F hand_over ebadf rounds s (stream F ds (Reply.bytes [] ∷ rest))
      ≡ Run.returned (hand_over (hand_over_all F hand_over s ds) (some (make Body.closed)))
unfolding process_messages
process_messages-stream F hand_over ebadf ds zero s rest h all = absurd (omega arith)
process_messages-stream F hand_over ebadf [] (suc rounds) s rest h all =
    unfold recv_msg is_closed make body_type in refl
process_messages-stream F hand_over ebadf (d ∷ ds) (suc rounds) s rest h (v, vs) =
    let m = d.message in
    rw
      (
        recv_msg-get_packed m v.sendable (ebadf rounds) d.chunks
            (stream F ds (Reply.bytes [] ∷ rest)) v.non_empty v.whole,
        process_messages,
        received_not_closed m.id m.body,
      )
      (process_messages-stream F hand_over ebadf ds rounds (hand_over s (received m.id m.body)) rest
        (omega arith) vs)
