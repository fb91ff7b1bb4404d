-- ===== src/Client/Early.antt =====
-- `attemptReconnect` of src/client-ssl.cpp where the connection of a server closes between its two
-- loops, the message about it being handled by the receiving thread of that server.
use flight_safety_system.Base.{
  ℕ, ◌≤◌, ◌≡◌, refl, sym, ap, ◌∙◌, Bool, true, false, not, List, [], ◌∷◌, ◌++◌, arith, contains,
  count, if◌then◌else◌, contains-count, count-contains-false, subst,
}
use flight_safety_system.Floats.{Floats}
use flight_safety_system.Connection.Connect.{Network}
use flight_safety_system.Client.Servers.{
  FssClient, try_each, move_each, is_empty, attempt_reconnect, notify_connection_status,
  server_requires_reconnect,
}
use flight_safety_system.Client.Process.{process_closed}
use flight_safety_system.Client.Reconnect.{
  those, reached, contains-those, attempt_reconnect-those, those_excludes, move_each-removes,
  removes,
}
use flight_safety_system.Client.Invariant.{WellFormed, count-those}

pub contains-append_left :
    (p : ℕ) (xs ys : List ℕ) → contains p xs ≡ true → contains p (xs ++ ys) ≡ true
contains-append_left p [] ys h = ground arith
contains-append_left p (x ∷ xs) ys h = let ih = contains-append_left p xs ys in ground arith

contains-append_right :
    (p : ℕ) (xs ys : List ℕ) → contains p ys ≡ true → contains p (xs ++ ys) ≡ true
contains-append_right p [] ys h = h
contains-append_right p (x ∷ xs) ys h = let ih = contains-append_right p xs ys h in ground arith

count-those_le : (f : ℕ → Bool) (q : ℕ) (ps : List ℕ) → count q ps ≤ 1 → count q (those f ps) ≤ 1
count-those_le f q ps h = omega (arith, count-those f q ps)

not_among_those :
    (f : ℕ → Bool) (p : ℕ) (ps : List ℕ) → contains p ps ≡ false → contains p (those f ps) ≡ false
not_among_those f p [] h = refl
not_among_those f p (x ∷ xs) h = let ih = not_among_those f p xs in ground arith

module _ {F : Floats} where
  -- The first loop: the servers that were reached, and the client with their objects.
  unfoldable pub first_loop : (ℕ → Network) → (ℕ → ℕ) → FssClient F → List ℕ × FssClient F
  first_loop nets now c =
      let (reconnected, objects) = try_each nets now c.asset_name c.reconnect_servers c.objects in
      (reconnected, record c { objects = objects })

  -- The second loop, and what follows it.
  unfoldable pub second_loop : List ℕ × FssClient F → FssClient F
  second_loop (reconnected, c) =
      let c = move_each reconnected c in
      if is_empty reconnected then c else notify_connection_status c

  unfoldable pub attempt_with_close : (ℕ → Network) → (ℕ → ℕ) → ℕ → FssClient F → FssClient F
  unfolding first_loop second_loop
  attempt_with_close nets now p c =
      let (reconnected, c) = first_loop nets now c in second_loop (reconnected, process_closed c p)

  loops-attempt_reconnect :
      (nets : ℕ → Network) (now : ℕ → ℕ) (c : FssClient F)
      → second_loop (first_loop nets now c) ≡ attempt_reconnect nets now c
  unfolding first_loop second_loop attempt_reconnect
  loops-attempt_reconnect nets now c = refl

  -- The two lists.
  abbrev both : FssClient F → List ℕ × List ℕ
  both c = (c.servers, c.reconnect_servers)

  process_closed-both :
      (c : FssClient F) (p : ℕ) → contains p c.servers ≡ false → both (process_closed c p) ≡ both c
  unfolding process_closed server_requires_reconnect notify_connection_status
  process_closed-both c p h = ground arith

  second_loop-both :
      (rs : List ℕ) (c d : FssClient F)
      → both c ≡ both d
      → both (second_loop (rs, c)) ≡ both (second_loop (rs, d))
  unfolding second_loop notify_connection_status
  second_loop-both rs c d e =
      rw (move_each-removes rs c, move_each-removes rs d)
        (let s = ap (λ (b : List ℕ × List ℕ). b.0) e in
          let r = ap (λ (b : List ℕ × List ℕ). removes rs b.1) e in ground arith)

  attempt_with_close-both :
      (nets : ℕ → Network) (now : ℕ → ℕ) (p : ℕ) (c : FssClient F)
      → contains p c.servers ≡ false
      → both (attempt_with_close nets now p c) ≡ both (attempt_reconnect nets now c)
  unfolding attempt_with_close first_loop
  attempt_with_close-both nets now p c h =
      let first = first_loop nets now c in
      second_loop-both first.0 (process_closed first.1 p) first.1 (process_closed-both first.1 p h)
      ∙ ap both (loops-attempt_reconnect nets now c)

  -- Later calls of `attemptReconnect`.
  abbrev pub attempts : List ((ℕ → Network) × (ℕ → ℕ)) → FssClient F → FssClient F
  attempts [] c = c
  attempts ((nets, now) ∷ later) c = attempts later (attempt_reconnect nets now c)

  -- A server that is listed as connected and does not wait: no later call touches it.
  attempts_leave :
      (later : List ((ℕ → Network) × (ℕ → ℕ))) (c : FssClient F) (p : ℕ)
      → ((q : ℕ) → count q c.reconnect_servers ≤ 1)
      → contains p c.reconnect_servers ≡ false
      → contains p c.servers ≡ true
      → ((attempts later c).objects p ≡ c.objects p)
        × (contains p (attempts later c).servers ≡ true)
        × (contains p (attempts later c).reconnect_servers ≡ false)
  attempts_leave [] c p once away held = (refl, held, away)
  attempts_leave ((nets, now) ∷ later) c p once away held =
      let test = reached nets now c.asset_name c.objects in
      let (s, r, o, _) = attempt_reconnect-those nets now c once in
      let c' = attempt_reconnect nets now c in
      let (o', held', away') =
        attempts_leave later c' p
          (λ q.
            subst (λ l. count q l ≤ 1) (sym r)
              (count-those_le (λ q. not (test q)) q c.reconnect_servers (once q)))
          (ap (contains p) r ∙ not_among_those (λ q. not (test q)) p c.reconnect_servers away)
          (ap (contains p) s
            ∙ contains-append_left p c.servers (those test c.reconnect_servers) held) in
      let same : c'.objects p ≡ c.objects p = o p ∙ rw away refl in (o' ∙ same, held', away')

  -- A well-formed client with a server that waits and is reached by an attempt, whose connection
  -- closes before the second loop of that attempt: after it, and after any number of later attempts,
  -- the server is listed as connected and does not wait, and the later ones do not touch its object.
  pub closed_stays_listed :
      (nets : ℕ → Network) (now : ℕ → ℕ) (later : List ((ℕ → Network) × (ℕ → ℕ))) (c : FssClient F)
      (p : ℕ)
      → WellFormed c
      → contains p c.reconnect_servers ≡ true
      → reached nets now c.asset_name c.objects p ≡ true
      → let c' = attempt_with_close nets now p c in
        ((attempts later c').objects p ≡ c'.objects p)
        × (contains p (attempts later c').servers ≡ true)
        × (contains p (attempts later c').reconnect_servers ≡ false)
  closed_stays_listed nets now later c p w waits ok =
      let test = reached nets now c.asset_name c.objects in
      let once : (q : ℕ) → count q c.reconnect_servers ≤ 1 =
        λ q. (let a = w.each q in ground arith) in
      let apart : contains p c.servers ≡ false =
        count-contains-false p c.servers (
          let a = w.each p in let b = contains-count p c.reconnect_servers waits in ground arith) in
      let (s, r, _, _) = attempt_reconnect-those nets now c once in
      let c' = attempt_with_close nets now p c in
      let e = attempt_with_close-both nets now p c apart in
      let s' = ap (λ (b : List ℕ × List ℕ). b.0) e ∙ s in
      let r' = ap (λ (b : List ℕ × List ℕ). b.1) e ∙ r in
      let held : contains p c'.servers ≡ true =
        ap (contains p) s'
        ∙ contains-append_right p c.servers (those test c.reconnect_servers)
            (contains-those test p c.reconnect_servers waits ∙ ok) in
      let away : contains p c'.reconnect_servers ≡ false =
        ap (contains p) r' ∙ those_excludes (λ q. not (test q)) p c.reconnect_servers (ap not ok) in
      attempts_leave later c' p
        (λ q.
          subst (λ l. count q l ≤ 1) (sym r')
            (count-those_le (λ q. not (test q)) q c.reconnect_servers (once q)))
        away held
