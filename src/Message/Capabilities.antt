-- ===== src/Message/Capabilities.antt =====
-- The capabilities of `fss_message_identity_non_aircraft` in src/transport-messages.cpp: a set of
-- numbers below 64, as the bits of a word.
use Prim.Native.Nat.{
  ◌/◌, min, max, bit_and, bit_or, digits, bitwise, bit_and-bitwise, bit_or-bitwise,
}
use flight_safety_system.Base.{
  ℕ, zero, suc, ◌+◌, ◌*◌, ◌%◌, ◌^◌, ◌≤◌, ◌<◌, ◌≡◌, refl, sym, ap, ◌∙◌, Bool, not, ◌||◌, Option,
  none, some, arith, ◌==◌, ltb, if◌then◌else◌, ◌>>=◌, Bool-cases, inl, inr, ==_iff,
}

-- `(uint64_t)(1) << cap_id`; `none` is a shift that C++ leaves undefined.
unfoldable pub shifted : ℕ → Option ℕ
shifted cap_id = if ltb cap_id 64 then some (2 ^ cap_id) else none

unfoldable pub add_capability : ℕ → ℕ → Option ℕ
unfolding shifted
add_capability capabilities cap_id = do mask ← shifted cap_id; some (bit_or capabilities mask)

unfoldable pub get_capability : ℕ → ℕ → Option Bool
unfolding shifted
get_capability capabilities cap_id = do
  mask ← shifted cap_id
  some (not (bit_and capabilities mask == 0))

-- An operation on digits whose end agrees with it.
abbrev Ends : (ℕ → ℕ) → (ℕ → ℕ → ℕ) → Type 0
Ends z f = (b : ℕ) → z b ≡ z (b / 2) * 2 + f 0 (b % 2)

module _ (z : ℕ → ℕ) (f : ℕ → ℕ → ℕ) where
  any_count : (n m a b : ℕ) → a ≤ n → a ≤ m → digits z f n a b ≡ digits z f m a b
  any_count n m zero b p q = done n ∙ sym (done m)
    where
      done : (k : ℕ) → digits z f k 0 b ≡ z b
      done zero = refl
      done (suc k) = refl
  any_count (suc n) (suc m) (suc a) b p q =
      ap (λ x. x * 2 + f (suc a % 2) (b % 2))
        (any_count n m (suc a / 2) (b / 2) (omega arith) (omega arith))
  any_count zero m (suc a) b p q = absurd (omega arith)
  any_count (suc n) zero (suc a) b p q = absurd (omega arith)

  digits_step :
      Ends z f → (a b : ℕ) → bitwise z f a b ≡ bitwise z f (a / 2) (b / 2) * 2 + f (a % 2) (b % 2)
  digits_step ends zero b = ends b
  digits_step ends (suc a) b =
      ap (λ x. x * 2 + f (suc a % 2) (b % 2))
        (any_count a (suc a / 2) (suc a / 2) (b / 2) (omega arith) (omega arith))

bit_or_step : (a b : ℕ) → bit_or a b ≡ bit_or (a / 2) (b / 2) * 2 + max (a % 2) (b % 2)
bit_or_step a b =
    bit_or-bitwise a b
    ∙ digits_step (λ b. b) max (λ b. omega arith) a b
    ∙ ap (λ x. x * 2 + max (a % 2) (b % 2)) (sym (bit_or-bitwise (a / 2) (b / 2)))

and_step : (a b : ℕ) → bit_and a b ≡ bit_and (a / 2) (b / 2) * 2 + min (a % 2) (b % 2)
and_step a b =
    bit_and-bitwise a b
    ∙ digits_step (λ b. 0) min (λ b. omega arith) a b
    ∙ ap (λ x. x * 2 + min (a % 2) (b % 2)) (sym (bit_and-bitwise (a / 2) (b / 2)))

no_digits : (n a : ℕ) → digits (λ b. 0) min n a 0 ≡ 0
no_digits zero a = refl
no_digits (suc n) zero = refl
no_digits (suc n) (suc a) = omega (arith, no_digits n (suc a / 2))

-- The digit at a place.
abbrev bit : ℕ → ℕ → ℕ
bit zero x = x % 2
bit (suc j) x = bit j (x / 2)

bit-lt : (j x : ℕ) → bit j x < 2
bit-lt zero x = omega arith
bit-lt (suc j) x = bit-lt j (x / 2)

bit-bit_or : (j x y : ℕ) → bit j (bit_or x y) ≡ max (bit j x) (bit j y)
bit-bit_or zero x y = omega (arith, bit_or_step x y)
bit-bit_or (suc j) x y =
    let half : bit_or x y / 2 ≡ bit_or (x / 2) (y / 2) = omega (arith, bit_or_step x y) in
    ap (bit j) half ∙ bit-bit_or j (x / 2) (y / 2)

power_half : (k : ℕ) → 2 ^ suc k / 2 ≡ 2 ^ k
power_half k = omega arith

power_even : (k : ℕ) → 2 ^ suc k % 2 ≡ 0
power_even k = omega arith

power_positive : (k : ℕ) → 0 < 2 ^ k
power_positive zero = omega arith
power_positive (suc k) = omega (arith, power_positive k)

doubled : (b j : ℕ) → b * 2 ^ j * 2 ≡ b * 2 ^ suc j
doubled zero j = omega arith
doubled (suc b) j = let e : 2 ^ suc j ≡ 2 ^ j * 2 = omega arith in omega (arith, doubled b j)

bit-zero : (j : ℕ) → bit j 0 ≡ 0
bit-zero zero = refl
bit-zero (suc j) = bit-zero j

bit_and-bit : (j x : ℕ) → bit_and x (2 ^ j) ≡ bit j x * 2 ^ j
bit_and-bit zero x =
    let e = bit_and-bitwise (x / 2) 0 ∙ no_digits (x / 2) (x / 2) in omega (arith, and_step x 1)
bit_and-bit (suc j) x =
    let half = power_half j in
    let even = power_even j in
    let narrow = ap (bit_and (x / 2)) half ∙ bit_and-bit j (x / 2) in
    and_step x (2 ^ suc j) ∙ omega (arith, narrow, even) ∙ doubled (bit j (x / 2)) j

bit-power : (j k : ℕ) → bit j (2 ^ k) ≡ (if k == j then 1 else 0)
bit-power zero zero = refl
bit-power zero (suc k) = power_even k ∙ ground arith
bit-power (suc j) zero = bit-zero j ∙ ground arith
bit-power (suc j) (suc k) = let ih = bit-power j k in ap (bit j) (power_half k) ∙ ih ∙ ground arith

-- What the mask of a number leaves of a word is nothing exactly where the digit is 0.
masked : (j x : ℕ) → (not (bit_and x (2 ^ j) == 0)) ≡ (bit j x == 1)
masked j x =
    let product = bit_and-bit j x in
    let small = bit-lt j x in
    let positive = power_positive j in
    elim (Bool-cases (bit j x == 1)) [
      | inl set ↦
          let one = (==_iff (bit j x) 1).0 set in
          let all : bit j x * 2 ^ j ≡ 1 * 2 ^ j = ap (λ b. b * 2 ^ j) one in ground arith
      | inr clear ↦
          let zeros : bit j x ≡ 0 = ground arith in
          let nothing : bit j x * 2 ^ j ≡ 0 * 2 ^ j = ap (λ b. b * 2 ^ j) zeros in ground arith
    ]

-- After a capability below 64 was added, it is there, and any other is there exactly if it was there
-- before; a number of 64 or more, of which C++ leaves the shift undefined, has no result.
pub add_capability-get_capability :
    (capabilities j k : ℕ)
    → (do added ← add_capability capabilities k; get_capability added j) ≡ (
        if ltb k 64 then (do held ← get_capability capabilities j; some (k == j || held)) else none)
unfolding add_capability get_capability shifted
add_capability-get_capability capabilities j k =
    let before = masked j capabilities in
    let after = masked j (bit_or capabilities (2 ^ k)) in
    let digit = bit-bit_or j capabilities (2 ^ k) in
    let single = bit-power j k in let small = bit-lt j capabilities in ground arith
