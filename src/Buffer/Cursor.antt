-- ===== src/Buffer/Cursor.antt =====
-- What the reads of `Buffer` return at an offset behind which the bytes are known, and what
-- `addData` and `packString` append.
use flight_safety_system.Base.{
  ℕ, zero, suc, ◌+◌, ◌-◌, ◌%◌, ◌^◌, ◌≤◌, ◌<◌, ◌≡◌, refl, sym, ap, ◌∙◌, List, [], ◌∷◌, ◌++◌, true,
  none, some, arith, leb, le→leb, length, take, drop, replicate, be, append_assoc, length-append,
  length-be, length-replicate, append-nil, take-eq, drop-eq, drop-append_left, drop-drop,
  from_be-be,
}
use flight_safety_system.Buffer.{
  BufLen, add_data, get_data, pack_string, load, load_text, remaining, align, optional_field,
  optional_text,
}

-- The bytes of `bl` from `offset` on are `rest`.
pub record At (bl : BufLen) (offset : ℕ) (rest : List ℕ) : Type 0 where
  pub bytes : drop offset bl ≡ rest
  pub room : offset + length rest ≡ length bl

pub At-start : (front rest : List ℕ) → At (front ++ rest) (length front) rest
At-start front rest = record {
  bytes = drop-eq _ front rest refl;
  room = sym (length-append front rest);
}

module _ {bl : BufLen} {offset : ℕ} where
  pub At-next :
      (xs rest : List ℕ) (n : ℕ)
      → n ≡ length xs
      → At bl offset (xs ++ rest)
      → At bl (offset + n) rest
  At-next xs rest n e a = record {
    bytes = sym (drop-drop n offset bl) ∙ ap (drop n) a.bytes ∙ drop-eq n xs rest e;
    room = omega (arith, a.room, length-append xs rest);
  }

  pub remaining-At :
      (rest : List ℕ) → At bl offset rest → length bl < 2 ^ 64 → remaining bl offset ≡ length rest
  unfolding remaining
  remaining-At rest a h = omega (arith, a.room)

  -- The terminator stands behind what is left.
  data_At :
      (xs rest : List ℕ) (n : ℕ)
      → n ≡ length xs
      → At bl offset (xs ++ rest)
      → take n (drop offset (get_data bl)) ≡ xs
  unfolding get_data
  data_At xs rest n e a =
      ap (take n) (
        drop-append_left offset bl (0 ∷ []) (omega (arith, a.room))
        ∙ ap (λ (t : List ℕ). t ++ 0 ∷ []) a.bytes
        ∙ append_assoc xs rest (0 ∷ []))
      ∙ take-eq n xs (rest ++ 0 ∷ []) e

  in_data :
      (xs rest : List ℕ) (n : ℕ)
      → n ≡ length xs
      → At bl offset (xs ++ rest)
      → leb (offset + n) (length (get_data bl)) ≡ true
  unfolding get_data
  in_data xs rest n e a =
      le→leb _ _ (omega (arith, a.room, length-append xs rest, length-append bl (0 ∷ [])))

  pub load-At :
      (n v : ℕ) (rest : List ℕ)
      → v < 256 ^ n
      → At bl offset (be n v ++ rest)
      → load n bl offset ≡ some v
  unfolding load
  load-At n v rest fits a =
      let e = sym (length-be n v) in
      rw (in_data (be n v) rest n e a, data_At (be n v) rest n e a, from_be-be n v fits)

  pub load_text-At :
      (text rest : List ℕ)
      → At bl offset (text ++ rest)
      → load_text bl offset (length text) ≡ some text
  unfolding load_text
  load_text-At text rest a = rw (in_data text rest _ refl a, data_At text rest _ refl a)

  pub optional_field-At :
      (n v : ℕ) (rest : List ℕ)
      → v < 256 ^ n
      → length bl < 2 ^ 64
      → At bl offset (be n v ++ rest)
      → optional_field n bl offset ≡ some (some v, offset + n)
  unfolding optional_field
  optional_field-At n v rest fits h a = rw (
    le→leb n (remaining bl offset) (
        omega
          (arith, remaining-At (be n v ++ rest) a h, length-append (be n v) rest, length-be n v)),
    load-At n v rest fits a,
  )

  -- Where fewer than `n` bytes are left, the field is left alone.
  pub optional_field_short :
      (n : ℕ) (rest : List ℕ)
      → length rest < n
      → length bl < 2 ^ 64
      → At bl offset rest
      → optional_field n bl offset ≡ some (none, offset)
  unfolding optional_field
  optional_field_short n rest short h a = ground (arith, remaining-At rest a h)

-- What `packString` appends at a given length of the buffer.
abbrev pub packed_string : ℕ → List ℕ → List ℕ
packed_string offset text =
    be 2 (length text) ++ (text ++ replicate (8 - (offset + 2 + length text) % 8) 0)

pub length-packed_string :
    (offset : ℕ) (text : List ℕ)
    → offset + length (packed_string offset text) ≡ align (offset + 2 + length text)
unfolding align
length-packed_string offset text =
    let pad = replicate {A = ℕ} (8 - (offset + 2 + length text) % 8) 0 in
    omega (
      arith,
      length-append (be 2 (length text)) (text ++ pad),
      length-append text pad,
      length-be 2 (length text),
      length-replicate {A = ℕ} (8 - (offset + 2 + length text) % 8) 0,
    )

-- The length and the text of a packed string are read back.
pub loads-packed_string :
    {bl : BufLen} {offset : ℕ} (text rest : List ℕ)
    → length text < 2 ^ 16
    → At bl offset (packed_string offset text ++ rest)
    → (load 2 bl offset ≡ some (length text))
      × (load_text bl (offset + 2) (length text) ≡ some text)
loads-packed_string {bl} {offset} text rest fits a = (
  load-At 2 (length text) ((text ++ pad) ++ rest) (omega arith) at_len,
  load_text-At text (pad ++ rest) at_text,
)
  where
    pad : List ℕ
    pad = replicate (8 - (offset + 2 + length text) % 8) 0

    at_len : At bl offset (be 2 (length text) ++ ((text ++ pad) ++ rest))
    at_len = rw (← append_assoc (be 2 (length text)) (text ++ pad) rest) a

    at_text : At bl (offset + 2) (text ++ (pad ++ rest))
    at_text =
        rw (← append_assoc text pad rest)
          (At-next (be 2 (length text)) ((text ++ pad) ++ rest) 2 (sym (length-be 2 _)) at_len)

pub length-packed_string-ge : (offset : ℕ) (text : List ℕ) → 3 ≤ length (packed_string offset text)
length-packed_string-ge offset text =
    unfold align in omega (arith, length-packed_string offset text)

pub optional_text-At :
    {bl : BufLen} {offset : ℕ} (text rest : List ℕ)
    → length text < 2 ^ 16
    → length bl < 2 ^ 64
    → At bl offset (packed_string offset text ++ rest)
    → optional_text bl offset ≡ some (some text, align (offset + 2 + length text))
unfolding optional_text
optional_text-At {bl} {offset} text rest fits h a =
    let loads = loads-packed_string text rest fits a in
    rw (
      le→leb 2 (remaining bl offset) (
          omega (
            arith,
            remaining-At (packed_string offset text ++ rest) a h,
            length-append (packed_string offset text) rest,
            length-packed_string-ge offset text,
          )),
      loads.0,
      loads.1,
    )

take-mod : (n : ℕ) (xs : List ℕ) → n ≡ length xs → n < 2 ^ 16 → take (n % 2 ^ 16) xs ≡ xs
take-mod n xs e h =
    ap (λ (k : ℕ). take k xs) (omega arith)
    ∙ ap (take (length xs)) (sym (append-nil xs))
    ∙ take-eq (length xs) xs [] refl

pub add_data-all :
    (bl new_data : List ℕ) (n : ℕ)
    → n ≡ length new_data
    → n < 2 ^ 16
    → add_data bl new_data n ≡ bl ++ new_data
unfolding add_data
add_data-all bl new_data n e h = ap (◌++◌ bl) (take-mod n new_data e h)

pub add_data-be : (bl : BufLen) (n v : ℕ) → n < 2 ^ 16 → add_data bl (be n v) n ≡ bl ++ be n v
add_data-be bl n v h = add_data-all bl (be n v) n (sym (length-be n v)) h

take-replicate : (k n : ℕ) (a : ℕ) → k ≤ n → take k (replicate n a) ≡ replicate k a
take-replicate zero n a h = refl
take-replicate (suc k) zero a h = absurd (omega arith)
take-replicate (suc k) (suc n) a h = ap (◌∷◌ a) (take-replicate k n a (omega arith))

pub add_data-zeros :
    (bl : BufLen) (k : ℕ) → k ≤ 8 → add_data bl (replicate 8 0) k ≡ bl ++ replicate k 0
unfolding add_data
add_data-zeros bl k h = ap (◌++◌ bl) (
    ap (λ (j : ℕ). take j (replicate 8 0)) {x = k % 2 ^ 16} {y = k} (omega arith)
    ∙ take-replicate k 8 0 h)

pack_tail :
    (front : BufLen) (size : ℕ)
    → length front ≡ size
    → add_data front (replicate 8 0) (8 - length front % 8) ≡ front ++ replicate (8 - size % 8) 0
pack_tail front size e = rw e (add_data-zeros front (8 - size % 8) (omega arith))

-- `packString` appends the length, the text and the padding.
pub pack_string_lem :
    (bl : BufLen) (text : List ℕ)
    → length text < 2 ^ 16
    → pack_string bl text ≡ bl ++ packed_string (length bl) text
unfolding pack_string
pack_string_lem bl text h = rw (
  with_len,
  add_data-all (bl ++ be 2 n) text n refl h,
  pack_tail ((bl ++ be 2 n) ++ text) (length bl + 2 + n) size,
  append_assoc (bl ++ be 2 n) text pad,
  append_assoc bl (be 2 n) (text ++ pad),
)
  where
    n : ℕ
    n = length text

    pad : List ℕ
    pad = replicate (8 - (length bl + 2 + n) % 8) 0

    with_len : add_data bl (be 2 (n % 2 ^ 16)) 2 ≡ bl ++ be 2 n
    with_len =
        rw (add_data-be bl 2 (n % 2 ^ 16) (omega arith))
          (ap (λ (k : ℕ). bl ++ be 2 k) (omega arith))

    size : length ((bl ++ be 2 n) ++ text) ≡ length bl + 2 + n
    size =
        omega (arith, length-append (bl ++ be 2 n) text, length-append bl (be 2 n), length-be 2 n)
