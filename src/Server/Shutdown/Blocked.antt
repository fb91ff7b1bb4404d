-- ===== src/Server/Shutdown/Blocked.antt =====
-- How the destructor of `server_clients` in src/server.cpp can wait for good.
use flight_safety_system.Base.{
  ℕ, ◌≡◌, ◌≢◌, refl, sym, ap, subst, ◌∙◌, Bool, true, false, List, [], ◌∷◌, none, some, ◌==◌,
  if◌then◌else◌, contains, arith, ==_iff, true≢false,
}
use flight_safety_system.Server.Shutdown.{
  Destructor, Worker, Owner, Closing, Turn, destroy_turn, work_turn, turn, run,
}

-- The clients that the destructor has still to disconnect or waits for.
abbrev pub remains : ℕ → Destructor → Bool
remains p Destructor.before = false
remains p Destructor.flagged = false
remains p (Destructor.emptying ps) = contains p ps
remains p (Destructor.joining q ps) = if q == p then true else contains p ps
remains p Destructor.ended = false

record Stuck (p : ℕ) (s : Closing) : Type 0 where
  held : s.lock ≡ some Owner.destructor
  waits : s.workers p ≡ Worker.waiting
  nobody : (q : ℕ) → s.workers q ≢ Worker.removing
  ahead : remains p s.phase ≡ true

destroy_turn-Stuck : (p : ℕ) (s : Closing) → Stuck p s → Stuck p (destroy_turn s)
unfolding destroy_turn
destroy_turn-Stuck p s h =
    let held = h.held in
    let waits = h.waits in
    let ahead = h.ahead in
    record {
      held = ground arith;
      waits = ground arith;
      nobody = λ q. let n = h.nobody q in ground arith;
      ahead = ground arith;
    }

work_turn-Stuck : (p q : ℕ) (s : Closing) → Stuck p s → Stuck p (work_turn q s)
unfolding work_turn
work_turn-Stuck p q s h =
    let held = h.held in
    let waits = h.waits in
    let ahead = h.ahead in
    let n = h.nobody q in
    let e = ==_iff p q in
    let same = λ (eq : p ≡ q). ap s.workers eq in
    record {
      held = ground arith;
      waits = ground arith;
      nobody = λ r. let m = h.nobody r in ground arith;
      ahead = ground arith;
    }

turn-Stuck : (t : Turn) (p : ℕ) (s : Closing) → Stuck p s → Stuck p (turn t s)
unfolding turn
turn-Stuck Turn.destroys p s h = destroy_turn-Stuck p s h
turn-Stuck (Turn.works q) p s h = work_turn-Stuck p q s h
turn-Stuck (Turn.hangs_up q) p s h = record {
  held = h.held;
  waits = h.waits;
  nobody = h.nobody;
  ahead = h.ahead;
}

run-Stuck : (ts : List Turn) (p : ℕ) (s : Closing) → Stuck p s → Stuck p (run ts s)
unfolding run
run-Stuck [] p s h = h
run-Stuck (t ∷ ts) p s h = run-Stuck ts p (turn t s) (turn-Stuck t p s h)

-- Where the thread of a listed client has passed the test of `shutting_down` and waits for the lock,
-- which nobody holds, and the destructor takes it first: whatever turns the threads take from then on,
-- the destructor does not end, and that thread waits.
pub destructor_waits :
    (ts : List Turn) (p : ℕ) (s : Closing)
    → s.phase ≡ Destructor.flagged
    → s.lock ≡ none
    → s.workers p ≡ Worker.waiting
    → ((q : ℕ) → s.workers q ≢ Worker.removing)
    → contains p s.clients ≡ true
    → ((run (Turn.destroys ∷ ts) s).phase ≢ Destructor.ended)
      × ((run (Turn.destroys ∷ ts) s).workers p ≡ Worker.waiting)
unfolding run turn destroy_turn
destructor_waits ts p s f l w nobody listed =
    let next : Closing = record s {
      phase = Destructor.emptying s.clients;
      lock = some Owner.destructor;
    } in
    let e : destroy_turn s ≡ next = ground arith in
    let stuck =
      run-Stuck ts p next (record { held = refl; waits = w; nobody = nobody; ahead = listed }) in
    subst
      (λ (t : Closing).
        ((run ts t).phase ≢ Destructor.ended) × ((run ts t).workers p ≡ Worker.waiting))
      (sym e) (λ over. let a = stuck.ahead in true≢false (sym a ∙ ap (remains p) over), stuck.waits)
