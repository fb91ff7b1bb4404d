-- ===== src/Base/Bytes.antt =====
-- Numbers in network byte order, and texts as lists of bytes.
use Prim.Native.Nat.{ℕ, zero, suc, ◌+◌, ◌*◌, ◌/◌, ◌%◌, ◌^◌, ◌<◌}
use mathlib.Core.Path.{◌≡◌, refl}
use mathlib.Core.Logic.{◌↔◌}
use mathlib.Core.Bool.{Bool, true, false, ◌&&◌}
use mathlib.Core.List.{List, [], ◌∷◌, ◌++◌}
use native.Mathlib.Nat.{pow-suc}
use native.Mathlib.Omega.{arith}
use flight_safety_system.Base.Lists.{length, length-append}
use flight_safety_system.Base.Tests.{◌==◌}

abbrev pub IsByte : ℕ → Type 0
IsByte b = b < 256

-- The `n` bytes of `v`, highest first: `htons`, `htonl` or `htonll` and the copy of the result.
unfoldable pub be : ℕ → ℕ → List ℕ
be zero v = []
be (suc n) v = be n (v / 256) ++ (v % 256) ∷ []

from_be_acc : ℕ → List ℕ → ℕ
from_be_acc acc [] = acc
from_be_acc acc (b ∷ bs) = from_be_acc (acc * 256 + b) bs

-- The number that the bytes spell: the load and `ntohs`, `ntohl` or `ntohll`.
unfoldable pub from_be : List ℕ → ℕ
unfolding from_be_acc
from_be bs = from_be_acc 0 bs

pub length-be : (n v : ℕ) → length (be n v) ≡ n
unfolding be
length-be zero v = refl
length-be (suc n) v =
    omega (arith, length-append (be n (v / 256)) ((v % 256) ∷ []), length-be n (v / 256))

from_be_acc-snoc :
    (acc : ℕ) (bs : List ℕ) (b : ℕ) → from_be_acc acc (bs ++ b ∷ []) ≡ from_be_acc acc bs * 256 + b
unfolding from_be_acc
from_be_acc-snoc acc [] b = refl
from_be_acc-snoc acc (x ∷ bs) b = from_be_acc-snoc (acc * 256 + x) bs b

-- What is written in network order is read back.
pub from_be-be : (n v : ℕ) → v < 256 ^ n → from_be (be n v) ≡ v
unfolding be from_be
from_be-be zero v h = omega arith
from_be-be (suc n) v h = omega (
  arith,
  from_be_acc-snoc 0 (be n (v / 256)) (v % 256),
  from_be-be n (v / 256) (omega (arith, pow-suc 256 n)),
)

-- `std::string` equality.
unfoldable pub bytes_eq : List ℕ → List ℕ → Bool
bytes_eq [] [] = true
bytes_eq [] (b ∷ bs) = false
bytes_eq (a ∷ as') [] = false
bytes_eq (a ∷ as') (b ∷ bs) = a == b && bytes_eq as' bs

pub bytes_eq_iff : (s t : List ℕ) → (bytes_eq s t ≡ true) ↔ (s ≡ t)
unfolding bytes_eq
bytes_eq_iff [] [] = (λ _. refl, λ _. refl)
bytes_eq_iff [] (b ∷ bs) = ground arith
bytes_eq_iff (a ∷ s) [] = ground arith
bytes_eq_iff (a ∷ s) (b ∷ bs) = ground (arith, bytes_eq_iff s bs)
