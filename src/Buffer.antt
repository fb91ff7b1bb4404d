-- ===== src/Buffer.antt =====
-- `buf_len` and `packString` of src/transport-messages.cpp, and the guarded reads that the
-- `unpackData` methods share. A buffer is the list of its bytes.
pub mod Cursor
use flight_safety_system.Base.{
  ℕ, suc, ◌+◌, ◌-◌, ◌%◌, ◌^◌, List, [], ◌∷◌, ◌++◌, Bool, not, Option, none, some, leb, ◌==◌,
  if◌then◌else◌, ◌>>=◌, length, take, drop, replicate, be, from_be,
}

abbrev pub BufLen : Type 0
BufLen = List ℕ

-- `buf_len::addData`: appends `len` bytes of `new_data`; `len` is a `uint16_t`.
unfoldable pub add_data : BufLen → List ℕ → ℕ → BufLen
add_data bl new_data len = bl ++ take (len % 2 ^ 16) new_data

-- `buf_len::getLength`.
abbrev pub get_length : BufLen → ℕ
get_length bl = length bl

-- `buf_len::isValid`.
unfoldable pub is_valid : BufLen → Bool
is_valid bl = not (get_length bl == 0)

-- `buf_len::getData`: the bytes of the string with the terminator that `c_str` adds.
unfoldable pub get_data : BufLen → List ℕ
get_data bl = bl ++ 0 ∷ []

-- `packString`: a length of two bytes, the text, and 1 to 8 zero bytes up to a multiple of 8.
unfoldable pub pack_string : BufLen → List ℕ → BufLen
pack_string bl val =
    let str_len = length val in
    let with_len = add_data bl (be 2 (str_len % 2 ^ 16)) 2 in
    let with_text = add_data with_len val str_len in
    add_data with_text (replicate 8 0) (8 - get_length with_text % 8)

-- `*(uintN_t *)(data + offset)` and the change from network order, for `n` bytes.
-- `none` is a read outside the string, which C++ leaves undefined.
unfoldable pub load : ℕ → BufLen → ℕ → Option ℕ
load n bl offset =
    if leb (offset + n) (length (get_data bl))
    then some (from_be (take n (drop offset (get_data bl))))
    else none

-- `text.assign((char *)(data + offset), len)`.
unfoldable pub load_text : BufLen → ℕ → ℕ → Option (List ℕ)
load_text bl offset len =
    if leb (offset + len) (length (get_data bl))
    then some (take len (drop offset (get_data bl)))
    else none

-- `length - offset`, in the wrapping arithmetic of `size_t`.
unfoldable pub remaining : BufLen → ℕ → ℕ
remaining bl offset = (get_length bl + 2 ^ 64 - offset) % 2 ^ 64

-- `offset += (sizeof(uint64_t) - offset % sizeof(uint64_t))`.
unfoldable pub align : ℕ → ℕ
align offset = offset + (8 - offset % 8)

-- `if (length - offset >= n) { field = load; offset += n; }`: the value read, if any, and the
-- offset that follows. The outer `none` is a read outside the buffer.
unfoldable pub optional_field : ℕ → BufLen → ℕ → Option (Option ℕ × ℕ)
optional_field n bl offset =
    if leb n (remaining bl offset)
    then (do v ← load n bl offset; some (some v, offset + n))
    else some (none, offset)

-- The same for a text behind its length, with the alignment that follows it.
unfoldable pub optional_text : BufLen → ℕ → Option (Option (List ℕ) × ℕ)
optional_text bl offset =
    if leb 2 (remaining bl offset)
    then (do
      len ← load 2 bl offset
      text ← load_text bl (offset + 2) len
      some (some text, align (offset + 2 + len)))
    else some (none, offset)
