-- ===== src/Connection/Receive/Framing.antt =====
-- `recvMsg` of src/transport.cpp on what a peer sends that packs its messages by `getPacked`,
-- however the bytes are cut into replies.
use flight_safety_system.Base.{
  ℕ, ◌+◌, ◌-◌, ◌%◌, ◌^◌, ◌<◌, ◌≡◌, refl, sym, ap, ◌∙◌, Bool, List, [], ◌∷◌, ◌++◌, arith, map,
  length, drop, drop-eq, be, All, length-append, length-be, length-replicate, from_be-be,
  append-nil, append_assoc,
}
use flight_safety_system.Floats.{Floats}
use flight_safety_system.Message.{Message, type_code}
use flight_safety_system.Message.Pack.{get_packed}
use flight_safety_system.Message.Wire.{payload, wire, wire_size, padding}
use flight_safety_system.Message.Packed.{get_packed-wire}
use flight_safety_system.Message.RoundTrip.{Sendable, length-wire, received, decode-get_packed}
use flight_safety_system.Message.RoundTrip.Fits.{FitsText-wire_size}
use flight_safety_system.Connection.Receive.{
  Reply, Filled, fill, total_length, Received, decode_received, recv_sized, recv_body, recv_msg,
}

-- The parts in which the bytes arrive, none of them empty.
abbrev pub IsChunks : List (List ℕ) → Type 0
IsChunks = All (λ c. 0 < length c)

abbrev pub replies : List (List ℕ) → List Reply
replies = map Reply.bytes

abbrev pub flatten : List (List ℕ) → List ℕ
flatten [] = []
flatten (c ∷ chunks) = c ++ flatten chunks

fill_done :
    (total : ℕ) (buf : List ℕ) (rs : List Reply)
    → length buf ≡ total
    → fill total buf rs ≡ Filled.complete buf rs
unfolding fill
fill_done total buf [] e = ground arith
fill_done total buf (Reply.failed ∷ rs) e = ground arith
fill_done total buf (Reply.bytes bs ∷ rs) e = ground arith

pub fill_more :
    (total : ℕ) (buf bs : List ℕ) (rs : List Reply)
    → length buf < total
    → fill total buf (Reply.bytes bs ∷ rs) ≡ fill total (buf ++ bs) rs
unfolding fill
fill_more total buf bs rs h = ground arith

pub fill_chunks :
    (chunks : List (List ℕ)) (total : ℕ) (buf : List ℕ) (rest : List Reply)
    → IsChunks chunks
    → length buf + length (flatten chunks) ≡ total
    → fill total buf (replies chunks ++ rest) ≡ Filled.complete (buf ++ flatten chunks) rest
fill_chunks [] total buf rest h e = rw append-nil (fill_done total buf rest (omega arith))
fill_chunks (c ∷ chunks) total buf rest (h, hs) e =
    fill_more total buf c (replies chunks ++ rest) (omega (arith, length-append c (flatten chunks)))
    ∙ fill_chunks chunks total (buf ++ c) rest hs
        (omega (arith, length-append c (flatten chunks), length-append buf c))
    ∙ ap (λ (t : List ℕ). Filled.complete t rest) (append_assoc buf c (flatten chunks))

-- Parts that do not yet make up the message are collected.
pub fill_partial :
    (chunks : List (List ℕ)) (total : ℕ) (buf : List ℕ) (rest : List Reply)
    → length buf + length (flatten chunks) < total
    → fill total buf (replies chunks ++ rest) ≡ fill total (buf ++ flatten chunks) rest
fill_partial [] total buf rest h = rw append-nil refl
fill_partial (c ∷ chunks) total buf rest h =
    fill_more total buf c (replies chunks ++ rest) (omega (arith, length-append c (flatten chunks)))
    ∙ fill_partial chunks total (buf ++ c) rest
        (omega (arith, length-append c (flatten chunks), length-append buf c))
    ∙ ap (λ (t : List ℕ). fill total t rest) (append_assoc buf c (flatten chunks))

-- Two bytes of a length start the reading of a message of that length.
pub recv_msg_start :
    (F : Floats) (ebadf : Bool) (size : ℕ) (rs : List Reply)
    → size < 2 ^ 16
    → recv_msg F ebadf (Reply.bytes (be 2 size) ∷ rs) ≡ recv_sized F size (be 2 size) rs
unfolding recv_msg recv_body
recv_msg_start F ebadf size rs h =
    rw (length-be 2 size, recv_msg)
      (ap (λ (k : ℕ). recv_sized F k (be 2 size) rs) (from_be-be 2 size (omega arith)))

-- The bytes behind the length of a packed message.
abbrev pub packed_tail : {F : Floats} → Message F → List ℕ
packed_tail m = drop 2 (get_packed m)

module _ {F : Floats} (m : Message F) (s : Sendable m) where
  packed_parts : get_packed m ≡ be 2 (wire_size m.body) ++ packed_tail m
  packed_parts =
      whole
      ∙ ap (◌++◌ (be 2 size))
          (sym (ap (drop 2) whole ∙ drop-eq 2 (be 2 size) tail (sym (length-be 2 size))))
    where
      size : ℕ
      size = wire_size m.body

      tail : List ℕ
      tail = (be 2 (type_code m.type) ++ (be 8 m.id ++ payload m.body)) ++ padding size

      whole : get_packed m ≡ be 2 size ++ tail
      whole =
          get_packed-wire m (FitsText-wire_size m.body s.size) s.size
          ∙ append_assoc (be 2 size) _ (padding size)

  length-get_packed : length (get_packed m) ≡ total_length (wire_size m.body)
  unfolding total_length
  length-get_packed =
      let size = wire_size m.body in
      let e : length (get_packed m) ≡ size + (8 - size % 8) % 8 =
        ap length (get_packed-wire m (FitsText-wire_size m.body s.size) s.size)
        ∙ length-append (wire m) (padding size)
        ∙ omega (arith, length-wire m, length-replicate {A = ℕ} ((8 - size % 8) % 8) 0) in
      ground (arith, e)

  recv_sized_lem :
      (chunks : List (List ℕ)) (rest : List Reply)
      → IsChunks chunks
      → flatten chunks ≡ packed_tail m
      → recv_sized F (wire_size m.body) (be 2 (wire_size m.body)) (replies chunks ++ rest)
        ≡ Received.got (received m.id m.body) rest
  unfolding recv_sized decode_received
  recv_sized_lem chunks rest h e =
      let size = wire_size m.body in
      let all : be 2 size ++ flatten chunks ≡ get_packed m =
        ap (◌++◌ (be 2 size)) e ∙ sym packed_parts in
      let filled =
        fill_chunks chunks (total_length size) (be 2 size) rest h
          (sym (length-append (be 2 size) (flatten chunks)) ∙ ap length all ∙ length-get_packed) in
      rw (filled, recv_sized, all, decode-get_packed m s, decode_received)

  -- The stream of a connection is cut into messages where the sender packed them: from the two
  -- bytes of the length, and the other bytes in whatever non-empty parts they arrive, `recvMsg`
  -- returns what the receiver makes of the message that was packed, and leaves what follows it.
  pub recv_msg-get_packed :
      (ebadf : Bool) (chunks : List (List ℕ)) (rest : List Reply)
      → IsChunks chunks
      → flatten chunks ≡ packed_tail m
      → recv_msg F ebadf (Reply.bytes (be 2 (wire_size m.body)) ∷ (replies chunks ++ rest))
        ≡ Received.got (received m.id m.body) rest
  recv_msg-get_packed ebadf chunks rest h e =
      recv_msg_start F ebadf (wire_size m.body) (replies chunks ++ rest) s.size
      ∙ recv_sized_lem chunks rest h e
