-- ===== src/Server/Roster/Refines.antt =====
-- The lists of `server_clients` of src/server.cpp keep to the roster.
use flight_safety_system.Base.{
  ℕ, ◌≡◌, refl, ◌∙◌, ◌⊎◌, inl, inr, Bool, true, false, List, [], ◌∷◌, ◌++◌, Option, none, some,
  arith, ◌==◌, update, ==_iff, Bool-cases, ap, sym, subst, ◌≢◌, contains, remove, contains-append,
  remove-contains, update-same, true≢false,
}
use flight_safety_system.Floats.{Floats}
use flight_safety_system.Message.{Message}
use flight_safety_system.Connection.{Connection, drain}
use flight_safety_system.Db.{Database}
use flight_safety_system.Server.{FssClient, new_client}
use flight_safety_system.Server.Clients.{
  ServerClients, client_disconnected, client_connected, shut_down, cleanup_removable_clients,
}
use flight_safety_system.Server.Process.{process_message, new_client_connect, periodic}
use flight_safety_system.Server.Essence.{essence, Same, periodic-Same, shut_down-Same}
use flight_safety_system.Server.Registry.{
  Step, Reach, process_message-lists, periodic-lists, drained_unlisted, drained-lists,
}
use flight_safety_system.Server.Roster.{
  Entry, Vouched, Grows, Change, Moves, History, Roster, if_listed, roster, entry_of, AllVouched,
}
use flight_safety_system.Server.Roster.Growth.{process_message-Grows, process_message-others}

Change-Grows :
    (b b' : Bool) (e e' : Entry)
    → Grows e e'
    → (b' ≡ b) ⊎ (b' ≡ false)
    → Change (if_listed b e) (if_listed b' e')
Change-Grows true true e e' g h = Change.grows g
Change-Grows true false e e' g h = Change.leaves
Change-Grows false false e e' g h = Change.absent
Change-Grows false true e e' g h = absurd (ground arith)

Vouched-Grows : (e e' : Entry) → Grows e e' → Vouched e → Vouched e'
Vouched-Grows e _ Grows.stays h = h
Vouched-Grows _ _ (Grows.identifies name names may) h = may
Vouched-Grows _ _ (Grows.observes names) h = h

contains-remove_other : (p q : ℕ) (ps : List ℕ) → q ≢ p → contains q (remove p ps) ≡ contains q ps
contains-remove_other p q [] other = refl
contains-remove_other p q (x ∷ xs) other =
    let ih = contains-remove_other p q xs other in
    let a = ==_iff x p in let b = ==_iff x q in ground arith

Change-same : (b : Bool) (e e' : Entry) → e' ≡ e → Change (if_listed b e) (if_listed b e')
Change-same b e e' same = Change-Grows b b e e' (subst (Grows e) (sym same) Grows.stays) (inl refl)

module _ {F : Floats} where
  pub disconnected-other :
      (s : ServerClients F) (p q : ℕ)
      → q ≢ p
      → contains q (client_disconnected s p).clients ≡ contains q s.clients
  unfolding client_disconnected
  disconnected-other s p q other = let h = contains-remove_other p q s.clients other in ground arith

  disconnected_self :
      (s : ServerClients F) (p : ℕ)
      → (contains p (client_disconnected s p).clients ≡ contains p s.clients)
        ⊎ (contains p (client_disconnected s p).clients ≡ false)
  unfolding client_disconnected
  disconnected_self s p = let h = remove-contains p s.clients in ground arith

  roster-eq :
      (s s' : ServerClients F) (q : ℕ)
      → contains q s'.clients ≡ contains q s.clients
      → essence (s'.objects q) ≡ essence (s.objects q)
      → roster s' q ≡ roster s q
  roster-eq s s' q l e =
      ap (λ b. if_listed b (entry_of (essence (s'.objects q)))) l
      ∙ ap (λ x. if_listed (contains q s.clients) (entry_of x)) e

  receives-Moves :
      (db : Database F) (ts : ℕ) (s : ServerClients F) (p : ℕ) (m : Option (Message F))
      → Moves (roster s) (roster (process_message db ts s p m))
  receives-Moves db ts s p m =
      let s' = process_message db ts s p m in
      let held = λ (q : ℕ) (l : List ℕ × List ℕ × ℕ). contains q l.0 in
      let l = process_message-lists db ts s p m in
      (
        p,
        Change-Grows (contains p s.clients) (contains p s'.clients)
            (entry_of (essence (s.objects p))) (entry_of (essence (s'.objects p)))
            (process_message-Grows db ts s p m)
            (elim l [
              | inl same ↦ inl (ap (held p) same)
              | inr gone ↦ elim (disconnected_self s p) [
                | inl kept ↦ inl (ap (held p) gone ∙ kept)
                | inr out ↦ inr (ap (held p) gone ∙ out)
              ]
            ]),
        λ q other.
            roster-eq s s' q
              (elim l [
                | inl same ↦ ap (held q) same
                | inr gone ↦ ap (held q) gone ∙ disconnected-other s p q other
              ])
              (process_message-others db ts s p m q other),
      )

  Same-Moves :
      (s s' : ServerClients F)
      → s'.clients ≡ s.clients
      → Same s.objects s'.objects
      → Moves (roster s) (roster s')
  Same-Moves s s' l e = (
    0,
    subst (Change (roster s 0)) (sym (roster-eq s s' 0 (ap (contains 0) l) (e 0))) (
        Change-same (contains 0 s.clients) (entry_of (essence (s.objects 0)))
          (entry_of (essence (s.objects 0))) refl),
    λ q other. roster-eq s s' q (ap (contains q) l) (e q),
  )

  -- What the messages leave that a connection has queued before its client is listed.
  drained-Vouched :
      (db : Database F) (ts : ℕ) (s : ServerClients F) (p : ℕ) (ms : List (Option (Message F)))
      → Vouched (entry_of (essence (s.objects p)))
      → Vouched (entry_of (essence ((drain (λ s m. process_message db ts s p m) ms s).objects p)))
  unfolding drain
  drained-Vouched db ts s p [] h = h
  drained-Vouched db ts s p (m ∷ ms) h = drained-Vouched db ts (process_message db ts s p m) p ms (
      Vouched-Grows (entry_of (essence (s.objects p)))
        (entry_of (essence ((process_message db ts s p m).objects p)))
        (process_message-Grows db ts s p m) h)

  drained-others :
      (db : Database F) (ts : ℕ) (s : ServerClients F) (p q : ℕ) (ms : List (Option (Message F)))
      → q ≢ p
      → essence ((drain (λ s m. process_message db ts s p m) ms s).objects q)
        ≡ essence (s.objects q)
  unfolding drain
  drained-others db ts s p q [] other = refl
  drained-others db ts s p q (m ∷ ms) other =
      drained-others db ts (process_message db ts s p m) p q ms other
      ∙ process_message-others db ts s p m q other

  connected-Moves :
      (s d : ServerClients F) (p : ℕ)
      → contains p s.clients ≡ false
      → d.clients ≡ s.clients
      → Vouched (entry_of (essence (d.objects p)))
      → ((q : ℕ) → q ≢ p → essence (d.objects q) ≡ essence (s.objects q))
      → Moves (roster s) (roster (client_connected d p))
  unfolding client_connected
  connected-Moves s d p new l may others =
      let held = λ (q : ℕ). ap (contains q) l in
      let before : roster s p ≡ none =
        ap (λ b. if_listed b (entry_of (essence (s.objects p)))) new in
      let listed : contains p (d.clients ++ p ∷ []) ≡ true =
        let c = contains-append p p d.clients in let e = ==_iff p p in ground arith in
      let after : roster (client_connected d p) p ≡ some (entry_of (essence (d.objects p))) =
        ap (λ b. if_listed b (entry_of (essence (d.objects p)))) listed in
      (
        p,
        subst (λ x. Change x (roster (client_connected d p) p)) (sym before)
            (subst (Change none) (sym after) (Change.joins may)),
        λ q other.
            roster-eq s (client_connected d p) q
              (let c = contains-append q p d.clients in
                let e = ==_iff p q in
                let apart : ¬ (p ≡ q) = λ h. other (sym h) in let h = held q in ground arith)
              (others q other),
      )

  connects-Moves :
      (db : Database F) (ts : ℕ) (s : ServerClients F) (p : ℕ) (conn : Connection F)
      → contains p s.clients ≡ false
      → Moves (roster s) (roster (new_client_connect db ts s p conn))
  unfolding new_client_connect new_client
  connects-Moves db ts s p conn new =
      let fresh : ServerClients F = record s { objects = update s.objects p (new_client conn) } in
      let at = update-same s.objects p (new_client conn) in
      connected-Moves s (drained_unlisted db ts s p conn) p new
        (ap (λ (l : List ℕ × List ℕ × ℕ). l.0) (drained-lists db ts s p conn new))
        (drained-Vouched db ts fresh p conn.messages
          (subst (λ (c : FssClient F). Vouched (entry_of (essence c))) (sym at) tt))
        (λ q other.
          drained-others db ts fresh p q conn.messages other
          ∙ ap essence (
              let e = ==_iff q p in
              let apart : update s.objects p (new_client conn) q ≡ s.objects q = ground arith in
              apart))

  cleanup-clients :
      (db : Database F) (now : ℕ → ℕ × ℕ) (counter : ℕ) (s : ServerClients F)
      → (periodic db now counter s).clients ≡ s.clients
  unfolding cleanup_removable_clients
  cleanup-clients db now counter s =
      ap (λ (l : List ℕ × List ℕ × ℕ). l.0) (periodic-lists db now counter s)

  Step-Moves : {s s' : ServerClients F} → Step s s' → Moves (roster s) (roster s')
  unfolding shut_down
  Step-Moves (Step.connects db ts s p conn new_c new_d) = connects-Moves db ts s p conn new_c
  Step-Moves (Step.receives db ts s p m) = receives-Moves db ts s p m
  Step-Moves (Step.round db now counter s) =
      Same-Moves s (periodic db now counter s) (cleanup-clients db now counter s)
        (periodic-Same db now counter s)
  Step-Moves (Step.stops s) = Same-Moves s (shut_down s) refl (shut_down-Same s)

  -- Over any sequence of events: the listed clients change one at a time, and each only so: it joins,
  -- with a name that its certificate lets it take if it is identified by then; it is identified, from
  -- having said nothing of itself, as an aircraft of such a name or as no aircraft; or it leaves.
  pub reachable-History : {s s' : ServerClients F} → Reach s s' → History (roster s) (roster s')
  reachable-History Reach.start = History.start
  reachable-History (Reach.step r t) = History.move (reachable-History r) (Step-Moves t)

Change-Vouched :
    (o o' : Option Entry)
    → Change o o'
    → ((e : Entry) → o ≡ some e → Vouched e)
    → (e' : Entry) → o' ≡ some e'
    → Vouched e'
Change-Vouched _ _ Change.absent h e' eq = absurd (ground arith)
Change-Vouched _ _ (Change.grows {e = e} {e' = x} g) h e' eq =
    subst Vouched (ground arith) (Vouched-Grows e x g (h e refl))
Change-Vouched _ _ (Change.joins {e = x} v) h e' eq = subst Vouched (ground arith) v
Change-Vouched _ _ Change.leaves h e' eq = absurd (ground arith)

Moves-AllVouched : (r r' : Roster) → Moves r r' → AllVouched r → AllVouched r'
Moves-AllVouched r r' (p, change, others) h q e eq = elim (Bool-cases (q == p)) [
  | inl here ↦
      let same = (==_iff q p).0 here in
      Change-Vouched (r p) (r' p) change (h p) e (ap r' (sym same) ∙ eq)
  | inr apart ↦
      let other : q ≢ p = λ same. true≢false (sym ((==_iff q p).1 same) ∙ apart) in
      h q e (sym (others q other) ∙ eq)
]

History-AllVouched : {r r' : Roster} → History r r' → AllVouched r → AllVouched r'
History-AllVouched History.start h = h
History-AllVouched (History.move {r' = a} {r'' = b} past m) h =
    Moves-AllVouched a b m (History-AllVouched past h)

-- From a state where it is so, over any sequence of events: each listed client that is identified as
-- an aircraft has a name that its certificate lets it take.
pub reachable-AllVouched :
    {F : Floats} {s s' : ServerClients F}
    → Reach s s'
    → AllVouched (roster s)
    → AllVouched (roster s')
reachable-AllVouched r h = History-AllVouched (reachable-History r) h
