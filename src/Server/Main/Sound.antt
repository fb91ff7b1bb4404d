-- ===== src/Server/Main/Sound.antt =====
-- The clients of the server over a whole run of `main` in src/server.cpp.
use flight_safety_system.Base.{
  ℕ, ◌+◌, ◌≤◌, ◌≡◌, refl, sym, ap, subst, inl, inr, true, false, List, [], ◌∷◌, ◌++◌, Option, arith,
  contains, contains-append, remove, ◌<◌, leb, leb→le, Bool-cases,
}
use flight_safety_system.Floats.{Floats}
use flight_safety_system.Message.{Message}
use flight_safety_system.Connection.{Connection}
use flight_safety_system.Connection.Accept.{ListenSocket}
use flight_safety_system.Db.{Database}
use flight_safety_system.Server.Clients.{
  ServerClients, client_disconnected, client_connected, cleanup_removable_clients,
}
use flight_safety_system.Server.Process.{new_client_connect}
use flight_safety_system.Server.Registry.{
  Step, Reach, WellFormed, lists, process_message-lists, client_disconnected-cases, periodic-lists,
  drained_unlisted, drained-lists, reachable-WellFormed,
}
use flight_safety_system.Server.Roster.{AllVouched, roster}
use flight_safety_system.Server.Roster.Refines.{reachable-AllVouched}
use flight_safety_system.Server.Main.{
  ServerConfig, Event, Round, MainState, no_clients, started, happen, happen_all, loop_round,
  main_loop, end_main,
}

-- No address from a number on is in a list.
abbrev pub Below : ℕ → List ℕ → Type 0
Below n ps = (q : ℕ) → n ≤ q → contains q ps ≡ false

Below-remove : (n p : ℕ) (ps : List ℕ) → Below n ps → Below n (remove p ps)
Below-remove n p ps h q k = out ps (h q k)
  where
    out : (ps : List ℕ) → contains q ps ≡ false → contains q (remove p ps) ≡ false
    out [] h = refl
    out (x ∷ xs) h = let ih = out xs in ground arith

Below-append : (n p : ℕ) (ps : List ℕ) → p < n → Below n ps → Below n (ps ++ p ∷ [])
Below-append n p ps l h q k = let a = contains-append q p ps in let b = h q k in ground arith

Below-suc : (n : ℕ) (ps : List ℕ) → Below n ps → Below (n + 1) ps
Below-suc n ps h q k = h q (omega arith)

pub held-Below : (n p : ℕ) (ps : List ℕ) → Below n ps → contains p ps ≡ true → p < n
held-Below n p ps h held = elim (Bool-cases (leb n p)) [
  | inl late ↦ absurd (let a = h p (leb→le n p late) in ground arith)
  | inr early ↦ ground arith
]

abbrev pub Fresh : ℕ → List ℕ × List ℕ × ℕ → Type 0
Fresh n l = Below n l.0 × Below n l.1

module _ {F : Floats} where
  -- A state that `main` gets to: the addresses from `next_object` on are in no list.
  pub record Tracked (s : MainState F) : Type 0 where
    pub reach : Reach no_clients s.clients
    pub fresh : Fresh s.next_object (lists s.clients)

  disconnected-Fresh :
      (s : ServerClients F) (p n : ℕ)
      → Fresh n (lists s)
      → Fresh n (lists (client_disconnected s p))
  disconnected-Fresh s p n (c, d) = elim (client_disconnected-cases s p) [
    | inl same ↦ subst (λ (t : ServerClients F). Fresh n (lists t)) (sym same) (c, d)
    | inr (held, gone) ↦
        subst (λ (t : ServerClients F). Fresh n (lists t)) (sym gone)
          (
            Below-remove n p s.clients c,
            Below-append n p s.disconnected (held-Below n p s.clients c held) d,
          )
  ]

  pub receives-Tracked :
      (db : Database F) (ts p : ℕ) (m : Option (Message F)) (s : MainState F)
      → Tracked s
      → Tracked (happen (Event.receives db ts p m) s)
  unfolding happen
  receives-Tracked db ts p m s t = record {
    reach = Reach.step t.reach (Step.receives db ts s.clients p m);
    fresh = elim (process_message-lists db ts s.clients p m) [
      | inl same ↦ subst (Fresh s.next_object) (sym same) t.fresh
      | inr gone ↦
          subst (Fresh s.next_object) (sym gone)
            (disconnected-Fresh s.clients p s.next_object t.fresh)
    ];
  }

  pub connects-Tracked :
      (db : Database F) (ts : ℕ) (conn : Connection F) (s : MainState F)
      → Tracked s
      → Tracked (happen (Event.connects db ts conn) s)
  unfolding happen new_client_connect client_connected
  connects-Tracked db ts conn s t =
      let n = s.next_object in
      let (c, d) = t.fresh in
      let new = c n (omega arith) in
      let still = drained-lists db ts s.clients n conn new in
      let drained = drained_unlisted db ts s.clients n conn in
      let (c', d') = subst (Fresh n) (sym still) (c, d) in
      record {
        reach = Reach.step t.reach (Step.connects db ts s.clients n conn new (d n (omega arith)));
        fresh = (
          Below-append (n + 1) n drained.clients (omega arith) (Below-suc n drained.clients c'),
          Below-suc n drained.disconnected d',
        );
      }

  pub happen_all-Tracked :
      (es : List (Event F)) (s : MainState F) → Tracked s → Tracked (happen_all es s)
  unfolding happen_all
  happen_all-Tracked [] s t = t
  happen_all-Tracked (Event.connects db ts conn ∷ es) s t =
      happen_all-Tracked es (happen (Event.connects db ts conn) s) (connects-Tracked db ts conn s t)
  happen_all-Tracked (Event.receives db ts p m ∷ es) s t =
      happen_all-Tracked es (happen (Event.receives db ts p m) s) (receives-Tracked db ts p m s t)

  pub round-Tracked : (r : Round F) (s : MainState F) → Tracked s → Tracked (loop_round r s)
  unfolding loop_round cleanup_removable_clients
  round-Tracked r s t =
      let s' = happen_all r.events s in
      let t' = happen_all-Tracked r.events s t in
      record {
        reach = Reach.step t'.reach (Step.round r.db r.now s'.counter s'.clients);
        fresh =
            subst (Fresh s'.next_object) (sym (periodic-lists r.db r.now s'.counter s'.clients))
              (t'.fresh.0, λ q k. refl);
      }

  pub main_loop-Tracked :
      (rs : List (Round F)) (s : MainState F) → Tracked s → Tracked (main_loop rs s)
  unfolding main_loop
  main_loop-Tracked [] s t = t
  main_loop-Tracked (r ∷ rs) s t = main_loop-Tracked rs (loop_round r s) (round-Tracked r s t)

  pub started-Tracked : (config : ServerConfig) (k : ListenSocket) → Tracked (started config k)
  unfolding started no_clients
  started-Tracked config k = record { reach = Reach.start; fresh = (λ q l. refl, λ q l. refl) }

  pub no_clients-WellFormed : WellFormed {F = F} no_clients
  unfolding no_clients
  no_clients-WellFormed = record { once = λ p. omega arith; total = refl }

  no_clients-AllVouched : (s : ServerClients F) → s.clients ≡ [] → AllVouched (roster s)
  no_clients-AllVouched s none_listed q e h =
      absurd (let a = ap (contains q) none_listed in ground arith)

  -- A whole run of `main` from any configuration: whatever sockets are accepted and messages received
  -- while it sleeps, whatever the database answers, and behind its end: no client is listed or queued
  -- twice, `total_clients` is the number of those, modulo 2 ^ 32, and each listed client that is
  -- identified as an aircraft has a name that its certificate lets it take.
  pub main-WellFormed :
      (config : ServerConfig) (k : ListenSocket) (rs : List (Round F)) (last : List (Event F))
      → let s = end_main (happen_all last (main_loop rs (started config k))) in
        WellFormed s.clients × AllVouched (roster s.clients)
  unfolding end_main no_clients
  main-WellFormed config k rs last =
      let t =
        happen_all-Tracked last (main_loop rs (started config k))
          (main_loop-Tracked rs (started config k) (started-Tracked config k)) in
      let s = happen_all last (main_loop rs (started config k)) in
      let r = Reach.step t.reach (Step.stops s.clients) in
      (
        reachable-WellFormed no_clients-WellFormed r,
        reachable-AllVouched r (no_clients-AllVouched no_clients refl),
      )
