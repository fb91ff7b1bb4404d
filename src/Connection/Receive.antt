-- ===== src/Connection/Receive.antt =====
-- `recvMsg` and `processMessages` of src/transport.cpp. The socket is what its `recv` calls return,
-- one after the other.
pub mod Framing
pub mod Chunking
pub mod Broken
pub mod Session
use flight_safety_system.Base.{
  ℕ, zero, suc, ◌+◌, ◌-◌, ◌%◌, Bool, true, false, not, ◌||◌, List, [], ◌∷◌, ◌++◌, Option, none,
  some, ltb, ◌==◌, if◌then◌else◌, length, take, from_be,
}
use flight_safety_system.Message.Constructors.{new_closed}
use flight_safety_system.Floats.{Floats}
use flight_safety_system.Message.{FssMessageType, Body, Message, make}
use flight_safety_system.Message.Decode.{decode}

-- The bytes that a call of `recvBytes` stores (none of them: the peer has closed), or a failure.
pub data Reply : Type 0 where
  bytes : List ℕ → Reply
  failed : Reply

-- How the loop that collects a message stands: all bytes are there, or a call failed, with the
-- replies that are left; it reads outside the buffer; or it waits for a reply.
pub data Filled : Type 0 where
  complete : List ℕ → List Reply → Filled
  broken : List Reply → Filled
  overrun : Filled
  pending : Filled

-- `while (received != total_length)`. The buffer has `total` bytes: where more are in it already,
-- `total_length - received` wraps and the call is told to store past its end.
unfoldable pub fill : ℕ → List ℕ → List Reply → Filled
fill total buf [] =
    if length buf == total
    then Filled.complete buf []
    else if ltb total (length buf)
    then Filled.overrun
    else Filled.pending
fill total buf (Reply.failed ∷ rs) =
    if length buf == total
    then Filled.complete buf (Reply.failed ∷ rs)
    else if ltb total (length buf)
    then Filled.overrun
    else Filled.broken rs
fill total buf (Reply.bytes bs ∷ rs) =
    if length buf == total
    then Filled.complete buf (Reply.bytes bs ∷ rs)
    else if ltb total (length buf)
    then Filled.overrun
    else fill total (buf ++ bs) rs

unfoldable pub total_length : ℕ → ℕ
total_length data_length =
    if not (data_length % 8 == 0) then data_length + 8 - data_length % 8 else data_length

-- `recvMsg` returns a message or a null pointer, has no defined behaviour, or waits.
pub data Received (F : Floats) : Type 0 where
  got : Option (Message F) → List Reply → Received F
  fault : Received F
  waiting : Received F

unfoldable pub decode_received : (F : Floats) → List ℕ → List Reply → Received F
decode_received F bl rs = elim (decode F bl) [
  | none ↦ Received.fault
  | some msg ↦ Received.got msg rs
]

-- The part of `recvMsg` behind the two bytes of the header, which hold `data_length`.
unfoldable pub recv_sized : (F : Floats) → ℕ → List ℕ → List Reply → Received F
recv_sized F data_length header rs = elim (fill (total_length data_length) header rs) [
  | Filled.complete buf rest ↦ decode_received F (take data_length buf) rest
  | Filled.broken rest ↦ Received.got none rest
  | Filled.overrun ↦ Received.fault
  | Filled.pending ↦ Received.waiting
]

unfoldable pub recv_body : (F : Floats) → List ℕ → List Reply → Received F
recv_body F header rs = recv_sized F (from_be header) header rs

-- `ebadf` is the test `errno == EBADF`, which is read only where one byte came.
unfoldable pub recv_msg : (F : Floats) → Bool → List Reply → Received F
recv_msg F ebadf [] = Received.waiting
recv_msg F ebadf (Reply.failed ∷ rs) = Received.got (some new_closed) rs
recv_msg F ebadf (Reply.bytes bs ∷ rs) =
    if length bs == 2
    then recv_body F bs rs
    else if length bs == 0 || ebadf
    then Received.got (some new_closed) rs
    else Received.got none rs

unfoldable pub is_closed : {F : Floats} → Option (Message F) → Bool
is_closed none = false
is_closed (some m) = elim m.type [ FssMessageType.closed ↦ true | _ ↦ false ]

-- How `processMessages` stands: it returned, it has no defined behaviour, it waits, or (no outcome
-- of the program) the rounds given to the model ran out.
pub data Run {ℓ} (S : Type ℓ) : Type ℓ where
  returned : S → Run S
  fault : Run S
  waiting : S → Run S
  stuck : S → Run S

-- `processMessages`, with the hand-over of a message as an argument. `ebadf` answers the test of
-- `errno` in the round with so many rounds left.
unfoldable pub process_messages {ℓ} :
    (F : Floats) {S : Type ℓ}
    → (S → Option (Message F) → S)
    → (ℕ → Bool)
    → ℕ
    → S
    → List Reply
    → Run S
unfolding is_closed
process_messages F hand_over ebadf zero s rs = Run.stuck s
process_messages F hand_over ebadf (suc rounds) s rs = elim (recv_msg F (ebadf rounds) rs) [
  | Received.fault ↦ Run.fault
  | Received.waiting ↦ Run.waiting s
  | Received.got msg rest ↦ elim (is_closed msg) [
    | true ↦ Run.returned (hand_over s msg)
    | false ↦ process_messages F hand_over ebadf rounds (hand_over s msg) rest
  ]
]
