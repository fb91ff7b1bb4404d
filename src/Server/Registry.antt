-- ===== src/Server/Registry.antt =====
-- The lists of `server_clients` (src/server.cpp) over every sequence of connections, messages and
-- rounds of the main loop.
use flight_safety_system.Base.{
  ℕ, ◌+◌, ◌%◌, ◌^◌, ◌≤◌, true, false, List, [], ◌∷◌, ◌++◌, Option, none, some, length,
  length-append, ◌≡◌, refl, sym, ap, subst, ◌∙◌, ◌⊎◌, inl, inr, arith, contains, remove, count,
  joined-once, moved-once, moved-total, update,
}
use flight_safety_system.Floats.{Floats}
use flight_safety_system.Message.{Message}
use flight_safety_system.Connection.{Connection, drain}
use flight_safety_system.Db.{Database}
use flight_safety_system.Server.{new_client}
use flight_safety_system.Server.Clients.{
  ServerClients, count_down, client_connected, client_disconnected, cleanup_removable_clients,
  send_msg_all, send_rtt_request_all, send_command_all, send_smm_settings_all, shut_down,
}
use flight_safety_system.Server.Process.{
  process_message, new_client_connect, periodic, process_unidentified, process_identified, identify,
  process_rtt_response,
}

count_down_lem : (n : ℕ) (ps : List ℕ) → count_down ((n + length ps) % 2 ^ 32) ps ≡ n % 2 ^ 32
count_down_lem n [] = ground arith
count_down_lem n (p ∷ ps) = ap (λ t. count_down t ps) (ground arith) ∙ count_down_lem n ps

-- Each queued or listed client is held once, and `total_clients` is their number (a `uint32_t`).
pub record WellFormed {F : Floats} (s : ServerClients F) : Type 0 where
  pub once : (p : ℕ) → count p s.clients + count p s.disconnected ≤ 1
  pub total : s.total_clients ≡ (length s.clients + length s.disconnected) % 2 ^ 32

module _ {F : Floats} where
  client_connected-WellFormed :
      (s : ServerClients F) (p : ℕ)
      → WellFormed s
      → contains p s.clients ≡ false
      → contains p s.disconnected ≡ false
      → WellFormed (client_connected s p)
  unfolding client_connected
  client_connected-WellFormed s p w new_c new_d = record {
    once = λ q. joined-once p q s.clients s.disconnected new_c new_d (w.once q);
    total = let c = length-append s.clients (p ∷ []) in let t = w.total in ground arith;
  }

  abbrev pub moved : ServerClients F → ℕ → ServerClients F
  moved s p = record s { disconnected = s.disconnected ++ p ∷ []; clients = remove p s.clients }

  pub client_disconnected-cases :
      (s : ServerClients F) (p : ℕ)
      → (client_disconnected s p ≡ s)
        ⊎ ((contains p s.clients ≡ true) × (client_disconnected s p ≡ moved s p))
  unfolding client_disconnected
  client_disconnected-cases s p = ground arith

  client_disconnected-WellFormed :
      (s : ServerClients F) (p : ℕ) → WellFormed s → WellFormed (client_disconnected s p)
  client_disconnected-WellFormed s p w = elim (client_disconnected-cases s p) [
    | inl same ↦ subst WellFormed (sym same) w
    | inr (held, eq) ↦ subst WellFormed (sym eq) (record {
      once = λ q. moved-once p q s.clients s.disconnected held (w.once q);
      total =
          w.total
          ∙ ap (λ n. n % 2 ^ 32) (sym (moved-total p s.clients s.disconnected held (w.once p)));
    })
  ]

  cleanup-WellFormed :
      (s : ServerClients F) → WellFormed s → WellFormed (cleanup_removable_clients s)
  unfolding cleanup_removable_clients
  cleanup-WellFormed s w = record {
    once = λ q. let h = w.once q in ground arith;
    total =
        ap (λ t. count_down t s.disconnected) w.total
        ∙ count_down_lem (length s.clients) s.disconnected
        ∙ ground arith;
  }

  -- The fields the invariant reads.
  abbrev pub lists : ServerClients F → List ℕ × List ℕ × ℕ
  lists s = (s.clients, s.disconnected, s.total_clients)

  same-WellFormed : (s s' : ServerClients F) → lists s' ≡ lists s → WellFormed s → WellFormed s'
  same-WellFormed s s' eq w = record {
    once =
        λ q. subst (λ (l : List ℕ × List ℕ × ℕ). count q l.0 + count q l.1 ≤ 1) (sym eq) (w.once q);
    total =
        subst (λ (l : List ℕ × List ℕ × ℕ). l.2 ≡ (length l.0 + length l.1) % 2 ^ 32) (sym eq)
          w.total;
  }

  process_identified-lists :
      (db : Database F) (ts : ℕ) (s : ServerClients F) (p : ℕ) (m : Message F)
      → lists (process_identified db ts s p m) ≡ lists s
  unfolding process_identified process_rtt_response send_msg_all
  process_identified-lists db ts s p m = ground arith

  process_unidentified-lists :
      (db : Database F) (ts : ℕ) (s : ServerClients F) (p : ℕ) (m : Message F)
      → (lists (process_unidentified db ts s p m) ≡ lists s)
        ⊎ (lists (process_unidentified db ts s p m) ≡ lists (client_disconnected s p))
  unfolding process_unidentified identify client_disconnected
  process_unidentified-lists db ts s p m = ground arith

  pub process_message-lists :
      (db : Database F) (ts : ℕ) (s : ServerClients F) (p : ℕ) (m : Option (Message F))
      → (lists (process_message db ts s p m) ≡ lists s)
        ⊎ (lists (process_message db ts s p m) ≡ lists (client_disconnected s p))
  unfolding process_message
  process_message-lists db ts s p none = inl refl
  process_message-lists db ts s p (some m) =
      let h = process_unidentified-lists db ts s p m in
      let k = process_identified-lists db ts s p m in ground arith

  pub periodic-lists :
      (db : Database F) (now : ℕ → ℕ × ℕ) (counter : ℕ) (s : ServerClients F)
      → lists (periodic db now counter s) ≡ lists (cleanup_removable_clients s)
  unfolding periodic send_rtt_request_all send_command_all send_msg_all send_smm_settings_all
  periodic-lists db now counter s = ground arith

  -- One event of the server. A connection gets an object at an address that is not in use.
  pub data Step : ServerClients F → ServerClients F → Type 0 where
    connects :
        (db : Database F) (ts : ℕ) (s : ServerClients F) (p : ℕ) (conn : Connection F)
        → contains p s.clients ≡ false
        → contains p s.disconnected ≡ false
        → Step s (new_client_connect db ts s p conn)
    receives :
        (db : Database F) (ts : ℕ) (s : ServerClients F) (p : ℕ) (m : Option (Message F))
        → Step s (process_message db ts s p m)
    round :
        (db : Database F) (now : ℕ → ℕ × ℕ) (counter : ℕ) (s : ServerClients F)
        → Step s (periodic db now counter s)
    stops : (s : ServerClients F) → Step s (shut_down s)

  pub data Reach : ServerClients F → ServerClients F → Type 0 where
    start : {s : ServerClients F} → Reach s s
    step : {s s' s'' : ServerClients F} → Reach s s' → Step s' s'' → Reach s s''

  client_disconnected_unlisted :
      (s : ServerClients F) (p : ℕ) → contains p s.clients ≡ false → client_disconnected s p ≡ s
  unfolding client_disconnected
  client_disconnected_unlisted s p new = ground arith

  pub unlisted-lists :
      (db : Database F) (ts : ℕ) (s : ServerClients F) (p : ℕ) (m : Option (Message F))
      → contains p s.clients ≡ false
      → lists (process_message db ts s p m) ≡ lists s
  unlisted-lists db ts s p m new = elim (process_message-lists db ts s p m) [
    | inl same ↦ same
    | inr left ↦ left ∙ ap lists (client_disconnected_unlisted s p new)
  ]

  drain-lists :
      (db : Database F) (ts : ℕ) (s : ServerClients F) (p : ℕ) (ms : List (Option (Message F)))
      → contains p s.clients ≡ false
      → lists (drain (λ s m. process_message db ts s p m) ms s) ≡ lists s
  unfolding drain
  drain-lists db ts s p [] new = refl
  drain-lists db ts s p (m ∷ ms) new =
      let same = unlisted-lists db ts s p m new in
      drain-lists db ts (process_message db ts s p m) p ms
        (ap (λ (l : List ℕ × List ℕ × ℕ). contains p l.0) same ∙ new)
      ∙ same

  -- The state before a new client is listed.
  abbrev pub drained_unlisted :
      Database F → ℕ → ServerClients F → ℕ → Connection F → ServerClients F
  drained_unlisted db ts s p conn =
      drain (λ s m. process_message db ts s p m) conn.messages
        (record s { objects = update s.objects p (new_client conn) })

  pub drained-lists :
      (db : Database F) (ts : ℕ) (s : ServerClients F) (p : ℕ) (conn : Connection F)
      → contains p s.clients ≡ false
      → lists (drained_unlisted db ts s p conn) ≡ lists s
  drained-lists db ts s p conn new =
      drain-lists db ts (record s { objects = update s.objects p (new_client conn) }) p
        conn.messages new

  Step-WellFormed : {s s' : ServerClients F} → Step s s' → WellFormed s → WellFormed s'
  unfolding shut_down new_client_connect
  Step-WellFormed (Step.connects db ts s p conn new_c new_d) w =
      let drained = drained_unlisted db ts s p conn in
      let still = drained-lists db ts s p conn new_c in
      client_connected-WellFormed drained p (same-WellFormed s drained still w)
        (ap (λ (l : List ℕ × List ℕ × ℕ). contains p l.0) still ∙ new_c)
        (ap (λ (l : List ℕ × List ℕ × ℕ). contains p l.1) still ∙ new_d)
  Step-WellFormed (Step.receives db ts s p m) w = elim (process_message-lists db ts s p m) [
    | inl same ↦ same-WellFormed s (process_message db ts s p m) same w
    | inr left ↦
        same-WellFormed (client_disconnected s p) (process_message db ts s p m) left
          (client_disconnected-WellFormed s p w)
  ]
  Step-WellFormed (Step.round db now counter s) w =
      same-WellFormed (cleanup_removable_clients s) (periodic db now counter s)
        (periodic-lists db now counter s) (cleanup-WellFormed s w)
  Step-WellFormed (Step.stops s) w = same-WellFormed s (shut_down s) refl w

  -- Whatever events the server sees, in whatever order, from a well-formed state on: no client is
  -- listed or queued twice, and `total_clients` stays the number of those listed or queued.
  pub reachable-WellFormed : {s s' : ServerClients F} → WellFormed s → Reach s s' → WellFormed s'
  reachable-WellFormed w Reach.start = w
  reachable-WellFormed w (Reach.step r t) = Step-WellFormed t (reachable-WellFormed w r)
