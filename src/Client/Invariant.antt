-- ===== src/Client/Invariant.antt =====
-- The two lists of servers of a client (src/client-ssl.cpp): what each operation on them keeps.
use flight_safety_system.Base.{
  ℕ, ◌+◌, ◌≡◌, refl, sym, ap, inl, inr, Bool, true, not, List, [], ◌∷◌, ◌++◌, Option, none, some,
  arith, ◌==◌, ltb, if◌then◌else◌, contains, remove, count, count-append, contains-count,
  remove-count, remove-count_other, update, ==_iff, Bool-cases, subst,
}
use flight_safety_system.Floats.{Floats}
use flight_safety_system.Connection.Connect.{Network}
use flight_safety_system.Client.{FssServer, new_server, connected, reconnect}
use flight_safety_system.Client.Servers.{
  FssClient, connect_to, add_server, make_server, update_server, update_servers,
  server_requires_reconnect,
}
use flight_safety_system.Client.Known.{update_server-cases}
use flight_safety_system.Client.Reconnect.{those}
use flight_safety_system.Client.Delays.{AllDelays, IsDelay, reconnect-IsDelay, update-IsDelay}

abbrev Each : List ℕ × List ℕ × ℕ → Type 0
Each (cs, ds, n) = (p : ℕ) → count p cs + count p ds ≡ (if ltb p n then 1 else 0)

-- A new object joins the second list, or the first.
joined_second : (cs ds : List ℕ) (n : ℕ) → Each (cs, ds, n) → Each (cs, ds ++ n ∷ [], n + 1)
joined_second cs ds n h p = let a = h p in let b = count-append p ds (n ∷ []) in ground arith

joined_first : (cs ds : List ℕ) (n : ℕ) → Each (cs, ds, n) → Each (cs ++ n ∷ [], ds, n + 1)
joined_first cs ds n h p = let a = h p in let b = count-append p cs (n ∷ []) in ground arith

-- An object moves from the first list to the second.
moved_second :
    (p : ℕ) (cs ds : List ℕ) (n : ℕ)
    → contains p cs ≡ true
    → Each (cs, ds, n)
    → Each (remove p cs, ds ++ p ∷ [], n)
moved_second p cs ds n held h q =
    let a = h q in
    let b = count-append q ds (p ∷ []) in
    let c = remove-count q cs in
    let d = contains-count p cs held in
    elim (Bool-cases (p == q)) [
      | inl same ↦
          let e = (==_iff p q).0 same in
          let e' = ap (λ x. count x cs) e in
          let e'' = ap (λ x. count q (remove x cs)) e in ground arith
      | inr other ↦ let kept = remove-count_other p q cs other in ground arith
    ]

pub count-those :
    (f : ℕ → Bool) (q : ℕ) (ps : List ℕ)
    → count q (those f ps) + count q (those (λ x. not (f x)) ps) ≡ count q ps
count-those f q [] = omega arith
count-those f q (p ∷ ps) = let ih = count-those f q ps in ground arith

-- The objects of the second list that pass a test move to the first.
pub sorted_both :
    (f : ℕ → Bool) (cs ds : List ℕ) (n : ℕ)
    → Each (cs, ds, n)
    → Each (cs ++ those f ds, those (λ x. not (f x)) ds, n)
sorted_both f cs ds n h q =
    let a = h q in
    let b = count-append q cs (those f ds) in let c = count-those f q ds in omega arith

module _ {F : Floats} where
  -- Every server object that was made is in exactly one of the two lists, once, and nothing else is
  -- in them; and every delay is one that doubling gives.
  pub record WellFormed (c : FssClient F) : Type 0 where
    pub each :
        (p : ℕ)
        → count p c.servers + count p c.reconnect_servers ≡ (if ltb p c.next_object then 1 else 0)
    pub delays : (p : ℕ) → IsDelay (c.objects p).retry_delay

  -- The fields of the lists.
  abbrev pub lists : FssClient F → List ℕ × List ℕ × ℕ
  lists c = (c.servers, c.reconnect_servers, c.next_object)

  pub well_formed :
      (c : FssClient F) (l : List ℕ × List ℕ × ℕ)
      → lists c ≡ l
      → Each l
      → AllDelays c.objects
      → WellFormed c
  well_formed c l e h d = record { each = subst Each {y = lists c} (sym e) h; delays = d }

  pub server_requires_reconnect-WellFormed :
      (c : FssClient F) (p : ℕ) → WellFormed c → WellFormed (server_requires_reconnect c p)
  unfolding server_requires_reconnect
  server_requires_reconnect-WellFormed c p w = elim (Bool-cases (contains p c.servers)) [
    | inl held ↦
        rw (held, server_requires_reconnect)
          (record {
            each = moved_second p c.servers c.reconnect_servers c.next_object held w.each;
            delays = w.delays;
          })
    | inr other ↦
        rw (other, server_requires_reconnect) (record { each = w.each; delays = w.delays })
  ]

  update_server-WellFormed :
      (c : FssClient F) (entry : List ℕ × ℕ) → WellFormed c → WellFormed (update_server c entry)
  unfolding new_server
  update_server-WellFormed c (a, k) w = elim (update_server-cases c a k) [
    | inr same ↦ subst WellFormed (sym same) w
    | inl new ↦ subst WellFormed (sym new) (record {
      each = joined_second c.servers c.reconnect_servers c.next_object w.each;
      delays = update-IsDelay c.objects c.next_object (new_server a k c.files) w.delays (0, refl);
    })
  ]

  pub update_servers-WellFormed :
      (entries : List (List ℕ × ℕ)) (c : FssClient F)
      → WellFormed c
      → WellFormed (update_servers c entries)
  unfolding update_servers
  update_servers-WellFormed [] c w = w
  update_servers-WellFormed (e ∷ entries) c w =
      update_servers-WellFormed entries (update_server c e) (update_server-WellFormed c e w)

  pub add_server-WellFormed :
      (c : FssClient F) (n : ℕ) (objects : ℕ → FssServer F)
      → WellFormed c
      → n ≡ c.next_object
      → AllDelays objects
      → WellFormed (add_server (record c { objects = objects; next_object = n + 1 }) n)
  unfolding add_server
  add_server-WellFormed c n objects w e d = elim (Bool-cases (connected (objects n))) [
    | inl up ↦
        rw (up, add_server)
          (record {
            each =
                subst (λ (k : ℕ). Each (c.servers ++ k ∷ [], c.reconnect_servers, k + 1)) (sym e)
                  (joined_first c.servers c.reconnect_servers c.next_object w.each);
            delays = d;
          })
    | inr down ↦
        rw (down, add_server)
          (record {
            each =
                subst (λ (k : ℕ). Each (c.servers, c.reconnect_servers ++ k ∷ [], k + 1)) (sym e)
                  (joined_second c.servers c.reconnect_servers c.next_object w.each);
            delays = d;
          })
  ]

  pub connect_to-WellFormed :
      (c : FssClient F) (a : List ℕ) (k : ℕ) (t_connect : Option (Network × ℕ))
      → WellFormed c
      → WellFormed (connect_to c a k t_connect)
  unfolding connect_to make_server new_server
  connect_to-WellFormed c a k none w =
      add_server-WellFormed c c.next_object
        (update c.objects c.next_object (new_server a k c.files)) w refl
        (update-IsDelay c.objects c.next_object (new_server a k c.files) w.delays (0, refl))
  connect_to-WellFormed c a k (some (net, ts)) w =
      let made = update c.objects c.next_object (new_server a k c.files) in
      let d = update-IsDelay c.objects c.next_object (new_server a k c.files) w.delays (0, refl) in
      add_server-WellFormed c c.next_object
        (update made c.next_object (reconnect net ts c.asset_name (made c.next_object)).0) w refl
        (update-IsDelay made c.next_object (reconnect net ts c.asset_name (made c.next_object)).0 d
          (reconnect-IsDelay net ts c.asset_name (made c.next_object) (d c.next_object)))
