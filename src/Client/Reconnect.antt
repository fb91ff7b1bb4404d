-- ===== src/Client/Reconnect.antt =====
-- `attemptReconnect` of src/client-ssl.cpp: which servers change lists.
use flight_safety_system.Base.{
  ℕ, ◌≤◌, ◌≡◌, refl, sym, ap, ◌∙◌, inl, inr, Bool, true, false, not, ◌&&◌, List, [], ◌∷◌, ◌++◌,
  arith, ◌==◌, if◌then◌else◌, length, contains, remove, count, update, append-nil, append_assoc,
  ==_iff, Bool-cases, count-contains-false, subst,
}
use flight_safety_system.Floats.{Floats}
use flight_safety_system.Connection.Connect.{Network}
use flight_safety_system.Client.{FssServer, ClientCall, reconnect}
use flight_safety_system.Client.Servers.{
  FssClient, status_of, try_each, move_each, is_empty, attempt_reconnect,
}

-- The addresses that pass a test, in their order.
abbrev pub those : (ℕ → Bool) → List ℕ → List ℕ
those test [] = []
those test (p ∷ ps) = if test p then p ∷ those test ps else those test ps

those-cong :
    (f g : ℕ → Bool) (ps : List ℕ)
    → ((q : ℕ) → contains q ps ≡ true → f q ≡ g q)
    → those f ps ≡ those g ps
those-cong f g [] h = refl
those-cong f g (p ∷ ps) h =
    let here = h p (let e = ==_iff p p in ground arith) in
    let rest = those-cong f g ps (λ q k. h q (ground arith)) in ground arith

those-those : (f g : ℕ → Bool) (ps : List ℕ) → those f (those g ps) ≡ those (λ q. g q && f q) ps
those-those f g [] = refl
those-those f g (p ∷ ps) = let ih = those-those f g ps in ground arith

remove-those : (r : ℕ) (ps : List ℕ) → remove r ps ≡ those (λ q. not (q == r)) ps
remove-those r [] = refl
remove-those r (p ∷ ps) = let ih = remove-those r ps in ground arith

abbrev pub removes : List ℕ → List ℕ → List ℕ
removes [] ps = ps
removes (r ∷ rs) ps = removes rs (remove r ps)

removes-those : (rs ps : List ℕ) → removes rs ps ≡ those (λ q. not (contains q rs)) ps
removes-those [] ps = sym (all ps)
  where
    all : (ps : List ℕ) → those (λ q. true) ps ≡ ps
    all [] = refl
    all (p ∷ ps) = ap (◌∷◌ p) (all ps)
removes-those (r ∷ rs) ps =
    removes-those rs (remove r ps)
    ∙ ap (those (λ q. not (contains q rs))) (remove-those r ps)
    ∙ those-those (λ q. not (contains q rs)) (λ q. not (q == r)) ps
    ∙ those-cong (λ q. not (q == r) && not (contains q rs)) (λ q. not (contains q (r ∷ rs))) ps
        (λ q h. let e = ==_iff q r in let e' = ==_iff r q in ground arith)

pub those_excludes :
    (f : ℕ → Bool) (q : ℕ) (ps : List ℕ) → f q ≡ false → contains q (those f ps) ≡ false
those_excludes f q [] h = refl
those_excludes f q (p ∷ ps) h =
    let ih = those_excludes f q ps h in
    elim (Bool-cases (p == q)) [
      | inl eq ↦ let k = ap f ((==_iff p q).0 eq) in ground arith
      | inr other ↦ ground arith
    ]

pub contains-those :
    (f : ℕ → Bool) (q : ℕ) (ps : List ℕ) → contains q ps ≡ true → contains q (those f ps) ≡ f q
contains-those f q [] h = ground arith
contains-those f q (p ∷ ps) h = elim (Bool-cases (p == q)) [
  | inl same ↦ let e = ap f ((==_iff p q).0 same) in let out = those_excludes f q ps in ground arith
  | inr other ↦ let ih = contains-those f q ps in ground arith
]

removes-those_self :
    (f : ℕ → Bool) (ps : List ℕ) → removes (those f ps) ps ≡ those (λ q. not (f q)) ps
removes-those_self f ps =
    removes-those (those f ps) ps
    ∙ those-cong (λ q. not (contains q (those f ps))) (λ q. not (f q)) ps
        (λ q h. ap not (contains-those f q ps h))

module _ {F : Floats} where
  pub move_each-removes :
      (rs : List ℕ) (c : FssClient F)
      → move_each rs c
        ≡ record c { reconnect_servers = removes rs c.reconnect_servers; servers = c.servers ++ rs }
  unfolding move_each
  move_each-removes [] c = rw append-nil
  move_each-removes (r ∷ rs) c =
      move_each-removes rs (record c {
        reconnect_servers = remove r c.reconnect_servers;
        servers = c.servers ++ r ∷ [];
      })
      ∙ rw append_assoc

  module _ (nets : ℕ → Network) (now : ℕ → ℕ) (name : List ℕ) where
    -- The server at an address after its attempt, and whether it was reached.
    abbrev pub retried : (ℕ → FssServer F) → ℕ → FssServer F
    retried objects p = (reconnect (nets p) (now p) name (objects p)).0

    abbrev pub reached : (ℕ → FssServer F) → ℕ → Bool
    reached objects p = (reconnect (nets p) (now p) name (objects p)).1

    reached-update :
        (objects : ℕ → FssServer F) (p : ℕ) (s : FssServer F) (ps : List ℕ)
        → contains p ps ≡ false
        → those (reached (update objects p s)) ps ≡ those (reached objects) ps
    reached-update objects p s ps new =
        those-cong (reached (update objects p s)) (reached objects) ps (λ q held.
          ap (λ x. (reconnect (nets q) (now q) name x).1)
            (elim (Bool-cases (p == q)) [
              | inl same ↦
                  let e = ap (λ x. contains x ps) ((==_iff p q).0 same) in absurd (ground arith)
              | inr other ↦ ground arith
            ]))

    pub try_each-reached :
        (ps : List ℕ) (objects : ℕ → FssServer F)
        → ((q : ℕ) → count q ps ≤ 1)
        → (try_each nets now name ps objects).0 ≡ those (reached objects) ps
    unfolding try_each
    try_each-reached [] objects once = refl
    try_each-reached (p ∷ ps) objects once =
        let new : contains p ps ≡ false =
          count-contains-false p ps (let o = once p in let e = ==_iff p p in ground arith) in
        let ih =
          try_each-reached ps (update objects p (retried objects p))
            (λ q. let o = once q in ground arith) in
        let same = reached-update objects p (retried objects p) ps new in rw (ih, same)

    try_each-retried :
        (ps : List ℕ) (objects : ℕ → FssServer F) (q : ℕ)
        → ((q : ℕ) → count q ps ≤ 1)
        → (try_each nets now name ps objects).1 q
          ≡ (if contains q ps then retried objects q else objects q)
    unfolding try_each
    try_each-retried [] objects q once = refl
    try_each-retried (p ∷ ps) objects q once =
        let new : contains p ps ≡ false =
          count-contains-false p ps (let o = once p in let e = ==_iff p p in ground arith) in
        let ih =
          try_each-retried ps (update objects p (retried objects p)) q
            (λ q. let o = once q in ground arith) in
        let objects' = update objects p (retried objects p) in
        ih ∙ elim (Bool-cases (p == q)) [
          | inl same ↦
              subst
                (λ x.
                  (if contains x ps then retried objects' x else objects' x)
                  ≡ (if contains x (p ∷ ps) then retried objects x else objects x))
                ((==_iff p q).0 same) (let e = ==_iff p p in ground arith)
          | inr other ↦ ground arith
        ]

  -- `attemptReconnect`, where no server waits twice: the servers that are reached move to the end of
  -- the connected ones, the others go on waiting, both in their order; the objects of the servers
  -- that waited are those after their attempts, no other object changes; and the application is told
  -- the new status once, if a server was reached.
  pub attempt_reconnect-those :
      (nets : ℕ → Network) (now : ℕ → ℕ) (c : FssClient F)
      → ((q : ℕ) → count q c.reconnect_servers ≤ 1)
      → let moved = those (reached nets now c.asset_name c.objects) c.reconnect_servers in
        let c' = attempt_reconnect nets now c in
        (c'.servers ≡ c.servers ++ moved)
        × (c'.reconnect_servers
            ≡ those (λ q. not (reached nets now c.asset_name c.objects q)) c.reconnect_servers)
        × ((q : ℕ)
            → c'.objects q ≡ (
                if contains q c.reconnect_servers
                then retried nets now c.asset_name c.objects q
                else c.objects q))
        × (c'.calls
            ≡ c.calls
              ++ (if is_empty moved
                  then []
                  else ClientCall.connection_status_change (status_of (length (c.servers ++ moved)))
                    ∷ []))
  unfolding attempt_reconnect
  attempt_reconnect-those nets now c once =
      let name = c.asset_name in
      let test = reached nets now name c.objects in
      let moved = those test c.reconnect_servers in
      let e = try_each-reached nets now name c.reconnect_servers c.objects once in
      let m =
        move_each-removes moved
          (record c { objects = (try_each nets now name c.reconnect_servers c.objects).1 }) in
      let left = removes-those_self test c.reconnect_servers in
      let n = append-nil c.calls in
      rw (e, m)
        (
          ground arith,
          ground arith,
          λ q.
              (let k = try_each-retried nets now name c.reconnect_servers c.objects q once in
                ground arith),
          ground arith,
        )

  pub attempt_reconnect-next_object :
      (nets : ℕ → Network) (now : ℕ → ℕ) (c : FssClient F)
      → (attempt_reconnect nets now c).next_object ≡ c.next_object
  unfolding attempt_reconnect
  attempt_reconnect-next_object nets now c =
      let tried = try_each nets now c.asset_name c.reconnect_servers c.objects in
      rw (move_each-removes tried.0 (record c { objects = tried.1 })) (ground arith)
