-- ===== src/Client/Recovery.antt =====
-- A connection that closes, and the next attempt to reconnect, in src/client-ssl.cpp.
use flight_safety_system.Base.{
  ℕ, ◌^◌, ◌≤◌, ◌<◌, ◌≡◌, refl, ap, ◌∙◌, Bool, true, false, ◌||◌, List, [], ◌∷◌, ◌++◌, none, some,
  arith, length, contains, remove, count, ==_iff, contains-append, remove-contains, not,
}
use flight_safety_system.Floats.{Floats}
use flight_safety_system.Message.{Body, make, body_type}
use flight_safety_system.Connection.Connect.{Network}
use flight_safety_system.Client.{FssServer, ClientCall, reconnect}
use flight_safety_system.Client.Servers.{
  FssClient, attempt_reconnect, server_requires_reconnect, notify_connection_status, status_of,
}
use flight_safety_system.Client.Process.{process_closed, process_message}
use flight_safety_system.Client.Backoff.{Due, Reachable, attempt_succeeds, reconnect-Due}
use flight_safety_system.Client.Reconnect.{
  those, reached, contains-those, those_excludes, attempt_reconnect-those,
}
use flight_safety_system.Client.Invariant.{WellFormed}
use flight_safety_system.Client.Registry.{process_message-WellFormed}

contains-joined :
    (q : ℕ) (ps qs : List ℕ) → contains q (ps ++ qs) ≡ (contains q ps || contains q qs)
contains-joined q [] qs = refl
contains-joined q (p ∷ ps) qs = let ih = contains-joined q ps qs in ground arith

module _ {F : Floats} where
  -- The client behind the closing of the connection of the server at `p`.
  abbrev pub after_close : FssClient F → ℕ → FssClient F
  after_close c p = process_message c p (some (make Body.closed))

  closed-after :
      (c : FssClient F) (p : ℕ)
      → contains p c.servers ≡ true
      → ((after_close c p).servers ≡ remove p c.servers)
        × ((after_close c p).reconnect_servers ≡ c.reconnect_servers ++ p ∷ [])
        × ((after_close c p).calls
            ≡ c.calls
              ++ ClientCall.connection_status_change (status_of (length (remove p c.servers))) ∷ [])
        × ((after_close c p).objects p ≡ record (c.objects p) { last_tried = 0; retry_count = 0 })
        × ((after_close c p).asset_name ≡ c.asset_name)
  unfolding process_message process_closed server_requires_reconnect notify_connection_status make
      body_type
  closed-after c p held = (
    ground arith,
    ground arith,
    ground arith,
    let here = ==_iff p p in ground arith,
    ground arith,
  )

  reconnect_succeeds :
      (net : Network) (ts : ℕ) (name : List ℕ) (s : FssServer F)
      → Due s ts
      → Reachable net s
      → (reconnect net ts name s).1 ≡ true
  reconnect_succeeds net ts name s due h =
      ap (λ (r : FssServer F × Bool). r.1) (reconnect-Due net ts name s due)
      ∙ (attempt_succeeds net ts name (record s { conn = none }) h).0

  -- The connection of a connected server closes: its server waits then and is connected no longer.
  -- If the network lets it be reached at the next attempt, and that is later than its delay after the
  -- start of the clock, the attempt brings it back among the connected servers.
  pub close-attempt_reconnect :
      (nets : ℕ → Network) (now : ℕ → ℕ) (c : FssClient F) (p : ℕ)
      → WellFormed c
      → contains p c.servers ≡ true
      → Reachable (nets p) (c.objects p)
      → (c.objects p).retry_delay < now p
      → now p < 2 ^ 64
      → let waiting = after_close c p in
        let c' = attempt_reconnect nets now waiting in
        (contains p waiting.servers ≡ false)
        × (contains p waiting.reconnect_servers ≡ true)
        × (contains p c'.servers ≡ true)
        × (contains p c'.reconnect_servers ≡ false)
  close-attempt_reconnect nets now c p w held reachable late small =
      let (s, r, _, object, name) = closed-after c p held in
      let waiting = after_close c p in
      let w' = process_message-WellFormed c p (some (make Body.closed)) w in
      let once : (q : ℕ) → count q waiting.reconnect_servers ≤ 1 =
        λ q. (let a = w'.each q in ground arith) in
      let (s', r', _, _) = attempt_reconnect-those nets now waiting once in
      let test = reached nets now waiting.asset_name waiting.objects in
      let waits : contains p waiting.reconnect_servers ≡ true =
        ap (contains p) r
        ∙ contains-append p p c.reconnect_servers
        ∙ (let e = ==_iff p p in ground arith) in
      let hit : test p ≡ true =
        ap (λ (x : FssServer F). (reconnect (nets p) (now p) waiting.asset_name x).1) object
        ∙ reconnect_succeeds (nets p) (now p) waiting.asset_name
            (record (c.objects p) { last_tried = 0; retry_count = 0 }) (ground arith) reachable in
      (
        ap (contains p) s ∙ remove-contains p c.servers,
        waits,
        ap (contains p) s'
            ∙ contains-joined p waiting.servers (those test waiting.reconnect_servers)
            ∙ (let k = contains-those test p waiting.reconnect_servers waits in ground arith),
        ap (contains p) r'
            ∙ those_excludes (λ q. not (test q)) p waiting.reconnect_servers (ap not hit),
      )
