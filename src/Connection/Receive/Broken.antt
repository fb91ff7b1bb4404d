-- ===== src/Connection/Receive/Broken.antt =====
-- `recvMsg` of src/transport.cpp on a peer that closes inside a message, and on lengths that no
-- packed message has.
use flight_safety_system.Base.{
  ℕ, zero, suc, ◌+◌, ◌-◌, ◌^◌, ◌≤◌, ◌<◌, ◌≡◌, ◌∙◌, Bool, List, [], ◌∷◌, ◌++◌, none, arith,
  Option-cases, inl, inr, length, take, replicate, be, length-append, length-be, length-take,
}
use flight_safety_system.Floats.{Floats}
use flight_safety_system.Buffer.{BufLen, get_data, load}
use flight_safety_system.Message.Decode.{decode}
use flight_safety_system.Connection.Receive.{
  Reply, Filled, fill, total_length, Received, decode_received, recv_sized, recv_msg,
}
use flight_safety_system.Connection.Receive.Framing.{
  IsChunks, replies, flatten, fill_more, fill_chunks, fill_partial, recv_msg_start,
}

-- A reply with no bytes: the peer has closed.
abbrev pub eof : Reply
eof = Reply.bytes []

fill-eof :
    (n total : ℕ) (buf : List ℕ)
    → length buf < total
    → fill total buf (replicate n eof) ≡ Filled.pending
unfolding fill
fill-eof zero total buf h = ground arith
fill-eof (suc n) total buf h =
    fill_more total buf [] (replicate n eof) h
    ∙ fill-eof n total (buf ++ []) (omega (arith, length-append buf []))

load_short :
    (n : ℕ) (bl : BufLen) (offset : ℕ) → length bl + 1 < offset + n → load n bl offset ≡ none
unfolding load get_data
load_short n bl offset h = ground (arith, length-append bl (0 ∷ []))

decode_short : (F : Floats) (bl : BufLen) → length bl < 11 → decode F bl ≡ none
unfolding decode
decode_short F bl h = elim (Option-cases (load 2 bl 2)) [
  | inl fails ↦ rw fails
  | inr (type, reads) ↦ rw (reads, load_short 8 bl 4 (omega arith))
]

-- A peer that closes the connection inside a message keeps `recvMsg` in its loop: however many
-- calls of `recv` report the close, it asks again.
pub recv_msg-eof_loops :
    (F : Floats) (ebadf : Bool) (size n : ℕ) (chunks : List (List ℕ))
    → size < 2 ^ 16
    → 2 + length (flatten chunks) < total_length size
    → recv_msg F ebadf (Reply.bytes (be 2 size) ∷ (replies chunks ++ replicate n eof))
      ≡ Received.waiting
unfolding recv_sized
recv_msg-eof_loops F ebadf size n chunks h e =
    let whole = length-append (be 2 size) (flatten chunks) in
    let two = length-be 2 size in
    recv_msg_start F ebadf size (replies chunks ++ replicate n eof) h
    ∙ rw (
      fill_partial chunks (total_length size) (be 2 size) (replicate n eof) (omega (arith, two)),
      fill-eof n (total_length size) (be 2 size ++ flatten chunks) (omega (arith, whole, two)),
      recv_sized,
    )

fill_past :
    (total : ℕ) (buf : List ℕ) (rs : List Reply)
    → total < length buf
    → fill total buf rs ≡ Filled.overrun
unfolding fill
fill_past total buf [] h = ground arith
fill_past total buf (Reply.failed ∷ rs) h = ground arith
fill_past total buf (Reply.bytes bs ∷ rs) h = ground arith

recv_sized_zero :
    (F : Floats) (header : List ℕ) (rs : List Reply)
    → 0 < length header
    → recv_sized F 0 header rs ≡ Received.fault
unfolding recv_sized total_length
recv_sized_zero F header rs h = rw (fill_past 0 header rs h, recv_sized)

recv_sized_short :
    (F : Floats) (size : ℕ) (header : List ℕ) (chunks : List (List ℕ)) (rest : List Reply)
    → size < 11
    → IsChunks chunks
    → length header + length (flatten chunks) ≡ total_length size
    → recv_sized F size header (replies chunks ++ rest) ≡ Received.fault
unfolding recv_sized decode_received
recv_sized_short F size header chunks rest h c e =
    let buf = header ++ flatten chunks in
    rw (
      fill_chunks chunks (total_length size) header rest c e,
      recv_sized,
      decode_short F (take size buf) (omega (arith, length-take size buf)),
      decode_received,
    )

total_length-ge : (k : ℕ) → 2 ≤ total_length (suc k)
unfolding total_length
total_length-ge k = ground arith

-- A length below 11 in the header, whose message arrives whole, has no defined behaviour: length 0
-- stores behind the buffer, and the others read the id of the message behind it.
pub recv_msg_runt :
    (F : Floats) (ebadf : Bool) (size : ℕ) (chunks : List (List ℕ)) (rest : List Reply)
    → size < 11
    → IsChunks chunks
    → length (flatten chunks) ≡ total_length size - 2
    → recv_msg F ebadf (Reply.bytes (be 2 size) ∷ (replies chunks ++ rest)) ≡ Received.fault
recv_msg_runt F ebadf zero chunks rest h c e =
    recv_msg_start F ebadf 0 (replies chunks ++ rest) (omega arith)
    ∙ recv_sized_zero F (be 2 0) (replies chunks ++ rest) (omega (arith, length-be 2 0))
recv_msg_runt F ebadf (suc k) chunks rest h c e =
    recv_msg_start F ebadf (suc k) (replies chunks ++ rest) (omega arith)
    ∙ recv_sized_short F (suc k) (be 2 (suc k)) chunks rest h c
        (omega (arith, e, total_length-ge k, length-be 2 (suc k)))
