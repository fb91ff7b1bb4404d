-- ===== src/Connection/Receive/Chunking.antt =====
-- `recvMsg` and `processMessages` of src/transport.cpp on any content, compared with a reader that
-- gets each message in one piece.
use flight_safety_system.Base.{
  ℕ, zero, suc, ◌+◌, ◌^◌, ◌<◌, ◌≡◌, refl, ◌∙◌, Bool, List, [], ◌∷◌, ◌++◌, Option, none, some, arith,
  length, take, be, All, length-be, if◌then◌else◌, Bool-cases, inl, inr,
}
use flight_safety_system.Floats.{Floats}
use flight_safety_system.Message.{Message}
use flight_safety_system.Message.Decode.{decode}
use flight_safety_system.Connection.Receive.{
  Reply, total_length, Received, decode_received, recv_sized, recv_msg, is_closed, Run,
  process_messages,
}
use flight_safety_system.Connection.Receive.Framing.{
  IsChunks, replies, flatten, fill_chunks, recv_msg_start,
}

-- Bytes that a peer sends behind a length, in the parts in which they arrive.
pub record Arrival : Type 0 where
  pub size : ℕ
  pub chunks : List (List ℕ)

-- They are as many as the length asks for, with the padding.
pub record IsArrival (a : Arrival) : Type 0 where
  pub size : a.size < 2 ^ 16
  pub non_empty : IsChunks a.chunks
  pub whole : 2 + length (flatten a.chunks) ≡ total_length a.size

-- The message in one piece, cut to its length.
abbrev pub in_one_piece : Arrival → List ℕ
in_one_piece a = take a.size (be 2 a.size ++ flatten a.chunks)

abbrev pub arriving : List Arrival → List Reply
arriving [] = []
arriving (a ∷ rest) = Reply.bytes (be 2 a.size) ∷ (replies a.chunks ++ arriving rest)

-- What a reader does with a piece that was decoded: a read outside the piece has no defined
-- behaviour, and behind a closed message it stops.
abbrev pub read_one {ℓ} :
    {F : Floats} {S : Type ℓ}
    → (S → Option (Message F) → S)
    → (S → Run S)
    → S
    → Option (Option (Message F))
    → Run S
read_one hand_over go_on s none = Run.fault
read_one hand_over go_on s (some msg) =
    if is_closed msg then Run.returned (hand_over s msg) else go_on (hand_over s msg)

-- A reader that gets the messages in one piece each, and waits behind the last.
abbrev pub read_each {ℓ} :
    (F : Floats) {S : Type ℓ} → (S → Option (Message F) → S) → List (List ℕ) → S → Run S
read_each F hand_over [] s = Run.waiting s
read_each F hand_over (piece ∷ pieces) s =
    read_one hand_over (read_each F hand_over pieces) s (decode F piece)

abbrev pub pieces_of : List Arrival → List (List ℕ)
pieces_of [] = []
pieces_of (a ∷ rest) = in_one_piece a ∷ pieces_of rest

recv_msg-arrival :
    (F : Floats) (ebadf : Bool) (a : Arrival) (rest : List Reply)
    → IsArrival a
    → recv_msg F ebadf (Reply.bytes (be 2 a.size) ∷ (replies a.chunks ++ rest))
      ≡ decode_received F (in_one_piece a) rest
unfolding recv_sized
recv_msg-arrival F ebadf a rest v =
    let filled =
      fill_chunks a.chunks (total_length a.size) (be 2 a.size) rest v.non_empty
        (omega (arith, length-be 2 a.size, v.whole)) in
    recv_msg_start F ebadf a.size (replies a.chunks ++ rest) v.size ∙ rw (filled, recv_sized) refl

-- What `recvMsg` makes of a piece that was decoded.
abbrev received_one : {F : Floats} → List Reply → Option (Option (Message F)) → Received F
received_one rest none = Received.fault
received_one rest (some msg) = Received.got msg rest

decode_received-one :
    (F : Floats) (piece : List ℕ) (rest : List Reply)
    → decode_received F piece rest ≡ received_one rest (decode F piece)
unfolding decode_received
decode_received-one F piece rest = ground arith

-- One round of `processMessages` is one step of the reader.
round_lem {ℓ} :
    (F : Floats) {S : Type ℓ} (hand_over : S → Option (Message F) → S) (ebadf : ℕ → Bool)
    (rounds : ℕ) (s : S) (rs rest : List Reply) (pieces : List (List ℕ))
    (o : Option (Option (Message F)))
    → recv_msg F (ebadf rounds) rs ≡ received_one rest o
    → ((t : S) → process_messages F hand_over ebadf rounds t rest ≡ read_each F hand_over pieces t)
    → process_messages F hand_over ebadf (suc rounds) s rs
      ≡ read_one hand_over (read_each F hand_over pieces) s o
unfolding process_messages
round_lem F hand_over ebadf rounds s rs rest pieces none e ih = rw (e, process_messages) refl
round_lem F hand_over ebadf rounds s rs rest pieces (some msg) e ih =
    elim (Bool-cases (is_closed msg)) [
      | inl last ↦ rw (e, process_messages, last) refl
      | inr more ↦ rw (e, process_messages, more) (ih (hand_over s msg))
    ]

-- Whatever the messages hold and in whatever non-empty parts their bytes arrive behind the lengths:
-- given one round more than there are messages, `processMessages` ends as a reader does that gets each
-- message in one piece, with the same messages handed over in the same order.
pub process_messages-read_each {ℓ} :
    (F : Floats) {S : Type ℓ} (hand_over : S → Option (Message F) → S) (ebadf : ℕ → Bool)
    (arrivals : List Arrival) (rounds : ℕ) (s : S)
    → length arrivals < rounds
    → All IsArrival arrivals
    → process_messages F hand_over ebadf rounds s (arriving arrivals)
      ≡ read_each F hand_over (pieces_of arrivals) s
unfolding process_messages
process_messages-read_each F hand_over ebadf arrivals zero s h all = absurd (omega arith)
process_messages-read_each F hand_over ebadf [] (suc rounds) s h all = unfold recv_msg in refl
process_messages-read_each F hand_over ebadf (a ∷ arrivals) (suc rounds) s h (v, vs) =
    round_lem F hand_over ebadf rounds s (arriving (a ∷ arrivals)) (arriving arrivals)
      (pieces_of arrivals) (decode F (in_one_piece a))
      (recv_msg-arrival F (ebadf rounds) a (arriving arrivals) v
        ∙ decode_received-one F (in_one_piece a) (arriving arrivals))
      (λ t. process_messages-read_each F hand_over ebadf arrivals rounds t (omega arith) vs)
