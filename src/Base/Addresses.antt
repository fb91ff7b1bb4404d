-- ===== src/Base/Addresses.antt =====
-- Lists of the addresses of objects, and the store of the objects by address.
use Prim.Native.Nat.{ℕ, ◌+◌, ◌≤◌}
use mathlib.Core.Path.{◌≡◌, refl, ap}
use mathlib.Core.Logic.{inl, inr}
use mathlib.Core.Bool.{Bool, true, false, ◌||◌}
use mathlib.Core.List.{List, [], ◌∷◌, ◌++◌}
use native.Mathlib.Omega.{arith}
use flight_safety_system.Base.Lists.{length, length-append}
use flight_safety_system.Base.Tests.{◌==◌, if◌then◌else◌, ==_iff, Bool-cases}

abbrev pub contains : ℕ → List ℕ → Bool
contains p [] = false
contains p (q ∷ qs) = if q == p then true else contains p qs

-- `std::list::remove`.
abbrev pub remove : ℕ → List ℕ → List ℕ
remove p [] = []
remove p (q ∷ qs) = if q == p then remove p qs else q ∷ remove p qs

-- How often an address stands in a list.
abbrev pub count : ℕ → List ℕ → ℕ
count p [] = 0
count p (q ∷ qs) = if q == p then count p qs + 1 else count p qs

-- A write to the object at an address.
abbrev pub update {ℓ} : {A : Type ℓ} → (ℕ → A) → ℕ → A → ℕ → A
update objects p a q = if q == p then a else objects q

pub update-same {ℓ} : {A : Type ℓ} (objects : ℕ → A) (p : ℕ) (a : A) → update objects p a p ≡ a
update-same objects p a = let e = ==_iff p p in ground arith

pub count-append : (p : ℕ) (a b : List ℕ) → count p (a ++ b) ≡ count p a + count p b
count-append p [] b = ground arith
count-append p (x ∷ xs) b = let ih = count-append p xs b in ground arith

pub contains-count : (p : ℕ) (a : List ℕ) → contains p a ≡ true → 1 ≤ count p a
contains-count p [] h = ground arith
contains-count p (x ∷ xs) h = let ih = contains-count p xs in ground arith

pub contains-count-false : (p : ℕ) (a : List ℕ) → contains p a ≡ false → count p a ≡ 0
contains-count-false p [] h = refl
contains-count-false p (x ∷ xs) h = let ih = contains-count-false p xs in ground arith

pub count-contains-false : (p : ℕ) (a : List ℕ) → count p a ≡ 0 → contains p a ≡ false
count-contains-false p [] h = refl
count-contains-false p (x ∷ xs) h = let ih = count-contains-false p xs in ground arith

pub remove-contains : (p : ℕ) (ps : List ℕ) → contains p (remove p ps) ≡ false
remove-contains p [] = refl
remove-contains p (q ∷ qs) = let ih = remove-contains p qs in ground arith

pub remove-count : (p : ℕ) (a : List ℕ) → count p (remove p a) ≡ 0
remove-count p [] = refl
remove-count p (x ∷ xs) = let ih = remove-count p xs in ground arith

pub remove-count_other : (p q : ℕ) (a : List ℕ) → p == q ≡ false → count q (remove p a) ≡ count q a
remove-count_other p q [] h = refl
remove-count_other p q (x ∷ xs) h = let ih = remove-count_other p q xs h in ground arith

pub remove-length : (p : ℕ) (a : List ℕ) → length (remove p a) + count p a ≡ length a
remove-length p [] = refl
remove-length p (x ∷ xs) = let ih = remove-length p xs in ground arith

-- An address that stands in neither of two lists joins one of them.
pub joined-once :
    (p q : ℕ) (cs ds : List ℕ)
    → contains p cs ≡ false
    → contains p ds ≡ false
    → count q cs + count q ds ≤ 1
    → count q (cs ++ p ∷ []) + count q ds ≤ 1
joined-once p q cs ds new_c new_d h =
    let a = contains-count-false p cs new_c in
    let b = contains-count-false p ds new_d in
    let c = count-append q cs (p ∷ []) in
    elim (Bool-cases (p == q)) [
      | inl same ↦
          let eq = ((==_iff p q).0 same) in
          let a' = ap (λ x. count x cs) eq in let b' = ap (λ x. count x ds) eq in ground arith
      | inr other ↦ ground arith
    ]

-- An address moves from one of two lists to the end of the other.
pub moved-once :
    (p q : ℕ) (cs ds : List ℕ)
    → contains p cs ≡ true
    → count q cs + count q ds ≤ 1
    → count q (remove p cs) + count q (ds ++ p ∷ []) ≤ 1
moved-once p q cs ds held h =
    let a = contains-count p cs held in
    let c = count-append q ds (p ∷ []) in
    let gone = remove-count p cs in
    elim (Bool-cases (p == q)) [
      | inl same ↦
          let eq = ((==_iff p q).0 same) in
          let a' = ap (λ x. count x cs) eq in
          let gone' = ap (λ x. count x (remove p cs)) eq in ground arith
      | inr other ↦ let kept = remove-count_other p q cs other in ground arith
    ]

pub moved-total :
    (p : ℕ) (cs ds : List ℕ)
    → contains p cs ≡ true
    → count p cs + count p ds ≤ 1
    → length (remove p cs) + length (ds ++ p ∷ []) ≡ length cs + length ds
moved-total p cs ds held h =
    let a = contains-count p cs held in
    let b = remove-length p cs in let c = length-append ds (p ∷ []) in ground arith

pub contains-append :
    (q n : ℕ) (ps : List ℕ) → contains q (ps ++ n ∷ []) ≡ (contains q ps || n == q)
contains-append q n [] = ground arith
contains-append q n (p ∷ ps) = let ih = contains-append q n ps in ground arith
