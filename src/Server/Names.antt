-- ===== src/Server/Names.antt =====
-- Which names the server of src/server.cpp lets a client take.
use flight_safety_system.Base.{
  ℕ, true, List, [], ◌∷◌, bytes_eq, bytes_eq_iff, ◌≡◌, refl, sym, subst, inl, inr, ◌↔◌, Bool-cases,
  arith,
}
use flight_safety_system.Server.Process.{is_listed, name_is_possible}

-- The names a certificate holds, as a predicate: one of them is the name.
pub data IsNamed (name : List ℕ) : List (List ℕ) → Type 0 where
  here : (ns : List (List ℕ)) → IsNamed name (name ∷ ns)
  there : (n : List ℕ) (ns : List (List ℕ)) → IsNamed name ns → IsNamed name (n ∷ ns)

is_listed-IsNamed :
    (ns : List (List ℕ)) (name : List ℕ) → is_listed ns name ≡ true → IsNamed name ns
unfolding is_listed
is_listed-IsNamed [] name h = ground arith
is_listed-IsNamed (n ∷ ns) name h = elim (Bool-cases (bytes_eq n name)) [
  | inl same ↦
      subst (λ x. IsNamed name (x ∷ ns)) (sym ((bytes_eq_iff n name).0 same)) (IsNamed.here ns)
  | inr other ↦ IsNamed.there n ns (is_listed-IsNamed ns name (ground arith))
]

IsNamed-is_listed :
    (name : List ℕ) (ns : List (List ℕ)) → IsNamed name ns → is_listed ns name ≡ true
unfolding is_listed
IsNamed-is_listed name _ (IsNamed.here ns) = let e = (bytes_eq_iff name name).1 refl in ground arith
IsNamed-is_listed name _ (IsNamed.there n ns h) =
    let ih = IsNamed-is_listed name ns h in ground arith

-- A client may take a name that its certificate holds, or any name if the certificate holds none.
pub data MayBe (name : List ℕ) : List (List ℕ) → Type 0 where
  unnamed : MayBe name []
  named : {names : List (List ℕ)} → IsNamed name names → MayBe name names

pub name_is_possible-MayBe :
    (names : List (List ℕ)) (name : List ℕ)
    → (name_is_possible names name ≡ true) ↔ MayBe name names
unfolding name_is_possible
name_is_possible-MayBe [] name = (λ _. MayBe.unnamed, λ _. refl)
name_is_possible-MayBe (n ∷ ns) name =
    (λ h. MayBe.named (is_listed-IsNamed (n ∷ ns) name h), listed)
  where
    listed : MayBe name (n ∷ ns) → is_listed (n ∷ ns) name ≡ true
    listed (MayBe.named h) = IsNamed-is_listed name (n ∷ ns) h
