-- ===== src/Connection/Names.antt =====
-- The names that `fss_connection_server::setupSSL` of src/transport-ssl.cpp takes from the
-- certificates of the peer. A distinguished name is the text that gnutls writes for it, which the
-- code gives 512 bytes.
use flight_safety_system.Base.{
  ℕ, ◌+◌, ◌≡◌, refl, ◌≢◌, ap, ◌∙◌, Bool, true, false, ◌&&◌, List, [], ◌∷◌, ◌++◌, Option, none, some,
  arith, ◌==◌, if◌then◌else◌, ◌>>=◌, length, take, drop, take-append, drop-eq, All, append_assoc,
  append-nil, length-append, sym, Bool-cases, inl, inr,
}
use mathlib.Core.Option

unfoldable pub starts_with : List ℕ → List ℕ → Bool
starts_with [] text = true
starts_with (n ∷ ns) [] = false
starts_with (n ∷ ns) (t ∷ ts) = n == t && starts_with ns ts

-- `std::string::find`; `none` is `npos`.
unfoldable pub find : List ℕ → List ℕ → Option ℕ
unfolding starts_with
find needle [] = if starts_with needle [] then some 0 else none
find needle (t ∷ ts) =
    let rest = find needle ts in
    if starts_with needle (t ∷ ts) then some 0 else Option.map (λ (i : ℕ). i + 1) rest

abbrev pub cn_prefix : List ℕ
cn_prefix = b'C' ∷ b'N' ∷ b'=' ∷ []

-- `erase` from the first comma on.
unfoldable pub strip_rest : List ℕ → List ℕ
unfolding find
strip_rest name = elim (find (b',' ∷ []) name) [ none ↦ name | some found ↦ take found name ]

-- The name pushed for one certificate, if any.
unfoldable pub common_name : List ℕ → Option (List ℕ)
unfolding find strip_rest
common_name name = do found ← find cn_prefix name; some (strip_rest (drop (found + 3) name))

-- The loop over the certificates.
unfoldable pub certificate_names : List (List ℕ) → List (List ℕ)
unfolding common_name
certificate_names [] = []
certificate_names (dn ∷ dns) = elim (common_name dn) [
  | none ↦ certificate_names dns
  | some name ↦ name ∷ certificate_names dns
]

find_behind :
    (needle before after : List ℕ) (c : ℕ) (cs : List ℕ)
    → needle ≡ c ∷ cs
    → All (λ b. b ≢ c) before
    → starts_with needle after ≡ true
    → find needle (before ++ after) ≡ some (length before)
unfolding find
find_behind needle [] [] c cs e h found = ground arith
find_behind needle [] (t ∷ ts) c cs e h found = ground arith
find_behind needle (b ∷ bs) after c cs e (h, hs) found =
    let ih = find_behind needle bs after c cs e hs found in ground arith

find_nothing : (c : ℕ) (text : List ℕ) → All (λ b. b ≢ c) text → find (c ∷ []) text ≡ none
unfolding find
find_nothing c [] h = refl
find_nothing c (t ∷ ts) (h, hs) = let ih = find_nothing c ts hs in ground arith

-- What may stand behind the value of an attribute: nothing, or a comma.
pub data IsEnd : List ℕ → Type 0 where
  nothing : IsEnd []
  comma : (rest : List ℕ) → IsEnd (b',' ∷ rest)

strip_rest-IsEnd :
    (name rest : List ℕ) → All (λ b. b ≢ b',') name → IsEnd rest → strip_rest (name ++ rest) ≡ name
unfolding strip_rest
strip_rest-IsEnd name _ h IsEnd.nothing =
    ap strip_rest (append-nil name) ∙ rw (find_nothing b',' name h, strip_rest)
strip_rest-IsEnd name _ h (IsEnd.comma rest) =
    let found =
      find_behind (b',' ∷ []) name (b',' ∷ rest) b',' [] refl h (unfold starts_with in refl) in
    rw (found, strip_rest) (take-append name (b',' ∷ rest))

-- A text in which "CN=" does not occur.
abbrev pub LacksPrefix : List ℕ → Type 0
LacksPrefix text = (xs ys : List ℕ) → text ≢ xs ++ (cn_prefix ++ ys)

find_occurrence : (xs ys : List ℕ) → find cn_prefix (xs ++ (cn_prefix ++ ys)) ≢ none
unfolding find starts_with
find_occurrence [] ys e = ground arith
find_occurrence (x ∷ xs) ys e = let ih = find_occurrence xs ys in ground arith

-- The search tells which texts these are.
pub find-LacksPrefix : (text : List ℕ) → find cn_prefix text ≡ none → LacksPrefix text
find-LacksPrefix text e xs ys eq = find_occurrence xs ys (ap (find cn_prefix) (sym eq) ∙ e)

-- "CN=" does not overlap itself: no occurrence starts in front of the first.
starts_before :
    (b : ℕ) (bs ys : List ℕ)
    → LacksPrefix (b ∷ bs)
    → starts_with cn_prefix ((b ∷ bs) ++ (cn_prefix ++ ys)) ≡ false
unfolding starts_with
starts_before b [] ys h = ground arith
starts_before b (c ∷ []) ys h = ground arith
starts_before b (c ∷ d ∷ rest) ys h = elim (Bool-cases (starts_with cn_prefix (b ∷ c ∷ d ∷ []))) [
  | inr other ↦ ground arith
  | inl here ↦ let e : (b ∷ c ∷ d ∷ rest) ≡ cn_prefix ++ rest = ground arith in absurd (h [] rest e)
]

find_first :
    (before ys : List ℕ)
    → LacksPrefix before
    → find cn_prefix (before ++ (cn_prefix ++ ys)) ≡ some (length before)
unfolding find
find_first [] ys h = unfold starts_with in refl
find_first (b ∷ bs) ys h =
    let ih = find_first bs ys (λ xs zs e. h (b ∷ xs) zs (ap (◌∷◌ b) e)) in
    let no = starts_before b bs ys h in ground arith

-- The name of a certificate is the value behind the first "CN=" of its distinguished name, up to a
-- comma or the end, wherever that "CN=" stands: also inside the value of another attribute.
pub common_name_first :
    (before name rest : List ℕ)
    → LacksPrefix before
    → All (λ b. b ≢ b',') name
    → IsEnd rest
    → common_name (before ++ (cn_prefix ++ (name ++ rest))) ≡ some name
unfolding common_name
common_name_first before name rest hb hn e =
    let found = find_first before (name ++ rest) hb in
    let behind : drop (length before + 3) (before ++ (cn_prefix ++ (name ++ rest))) ≡ name ++ rest =
      ap (drop (length before + 3)) (sym (append_assoc before cn_prefix (name ++ rest)))
      ∙ drop-eq (length before + 3) (before ++ cn_prefix) (name ++ rest)
          (omega (arith, length-append before cn_prefix)) in
    rw (found, behind) (ap some (strip_rest-IsEnd name rest hn e))

pub unnamed_certificates :
    (dns : List (List ℕ)) → All (λ dn. common_name dn ≡ none) dns → certificate_names dns ≡ []
unfolding certificate_names
unnamed_certificates [] h = refl
unnamed_certificates (dn ∷ dns) (h, hs) = rw (h, certificate_names) (unnamed_certificates dns hs)
