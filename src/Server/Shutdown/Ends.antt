-- ===== src/Server/Shutdown/Ends.antt =====
-- When the destructor of `server_clients` in src/server.cpp can always end.
use flight_safety_system.Base.{
  ℕ, ◌≡◌, refl, sym, subst, ◌∙◌, Bool, true, false, List, [], ◌∷◌, none, some, arith, ==_iff,
}
use flight_safety_system.Server.Shutdown.{
  Destructor, Worker, Owner, Closing, Turn, destroy_turn, work_turn, turn, run,
}

-- A thread that does not go for the lock.
abbrev pub IsCalm : Worker → Type 0
IsCalm Worker.receiving = Unit {0}
IsCalm Worker.testing = Unit {0}
IsCalm Worker.waiting = ⊥
IsCalm Worker.removing = ⊥
IsCalm Worker.exited = Unit {0}

-- The destructor has the lock, or has given it back; the client it waits for has a socket that is shut.
abbrev InHand : Destructor → (ℕ → Bool) → Type 0
InHand Destructor.before is_open = ⊥
InHand Destructor.flagged is_open = ⊥
InHand (Destructor.emptying ps) is_open = Unit {0}
InHand (Destructor.joining p ps) is_open = is_open p ≡ false
InHand Destructor.ended is_open = Unit {0}

record Calm (s : Closing) : Type 0 where
  flag : s.shutting_down ≡ true
  calm : (q : ℕ) → IsCalm (s.workers q)
  in_hand : InHand s.phase s.is_open

destroy_turn-Calm : (s : Closing) → Calm s → Calm (destroy_turn s)
unfolding destroy_turn
destroy_turn-Calm s h =
    let flag = h.flag in
    let in_hand = h.in_hand in
    record {
      flag = ground arith;
      calm = λ q. let n = h.calm q in ground arith;
      in_hand = ground arith;
    }

work_turn-Calm : (p : ℕ) (s : Closing) → Calm s → Calm (work_turn p s)
unfolding work_turn
work_turn-Calm p s h =
    let flag = h.flag in
    let in_hand = h.in_hand in
    let n = h.calm p in
    record {
      flag = ground arith;
      calm = λ q. let m = h.calm q in ground arith;
      in_hand = ground arith;
    }

hangs_up-Calm : (p : ℕ) (s : Closing) → Calm s → Calm (turn (Turn.hangs_up p) s)
unfolding turn
hangs_up-Calm p s h =
    let in_hand = h.in_hand in record { flag = h.flag; calm = h.calm; in_hand = ground arith }

turn-Calm : (t : Turn) (s : Closing) → Calm s → Calm (turn t s)
unfolding turn
turn-Calm Turn.destroys s h = destroy_turn-Calm s h
turn-Calm (Turn.works p) s h = work_turn-Calm p s h
turn-Calm (Turn.hangs_up p) s h = hangs_up-Calm p s h

run-Calm : (ts : List Turn) (s : Closing) → Calm s → Calm (run ts s)
unfolding run
run-Calm [] s h = h
run-Calm (t ∷ ts) s h = run-Calm ts (turn t s) (turn-Calm t s h)

-- Turns that end the destructor: each client's socket is shut, its thread goes through two turns and
-- is joined.
abbrev pub each_finishes : List ℕ → List Turn
each_finishes [] = Turn.destroys ∷ []
each_finishes (p ∷ ps) =
    Turn.destroys ∷ Turn.works p ∷ Turn.works p ∷ Turn.destroys ∷ each_finishes ps

abbrev pub finishing : Destructor → List Turn
finishing (Destructor.emptying ps) = each_finishes ps
finishing (Destructor.joining p ps) = Turn.works p ∷ Turn.works p ∷ Turn.destroys ∷ each_finishes ps
finishing d = []

work_twice :
    (p : ℕ) (s : Closing)
    → Calm s
    → s.is_open p ≡ false
    → ((work_turn p (work_turn p s)).workers p ≡ Worker.exited)
      × ((work_turn p (work_turn p s)).phase ≡ s.phase)
unfolding work_turn
work_twice p s h shut =
    let flag = h.flag in let n = h.calm p in let e = ==_iff p p in (ground arith, ground arith)

joined :
    (p : ℕ) (ps : List ℕ) (s : Closing)
    → s.phase ≡ Destructor.joining p ps
    → s.workers p ≡ Worker.exited
    → (destroy_turn s).phase ≡ Destructor.emptying ps
unfolding destroy_turn
joined p ps s h x = ground arith

shuts :
    (p : ℕ) (ps : List ℕ) (s : Closing)
    → s.phase ≡ Destructor.emptying (p ∷ ps)
    → ((destroy_turn s).phase ≡ Destructor.joining p ps) × ((destroy_turn s).is_open p ≡ false)
unfolding destroy_turn
shuts p ps s h = let e = ==_iff p p in (ground arith, ground arith)

-- The turns of one client, from the one that shuts its socket on or from the one behind it.
joining_finishes :
    (p : ℕ) (ps : List ℕ) (s : Closing)
    → Calm s
    → s.phase ≡ Destructor.joining p ps
    → s.is_open p ≡ false
    → (destroy_turn (work_turn p (work_turn p s))).phase ≡ Destructor.emptying ps
joining_finishes p ps s h j shut =
    let (gone, still) = work_twice p s h shut in
    joined p ps (work_turn p (work_turn p s)) (still ∙ j) gone

joining-Calm : (p : ℕ) (s : Closing) → Calm s → Calm (destroy_turn (work_turn p (work_turn p s)))
joining-Calm p s h =
    destroy_turn-Calm (work_turn p (work_turn p s))
      (work_turn-Calm p (work_turn p s) (work_turn-Calm p s h))

each_finishes_lem :
    (ps : List ℕ) (s : Closing)
    → Calm s
    → s.phase ≡ Destructor.emptying ps
    → (run (each_finishes ps) s).phase ≡ Destructor.ended
unfolding run turn destroy_turn
each_finishes_lem [] s h e = ground arith
each_finishes_lem (p ∷ ps) s h e =
    let (j, shut) = shuts p ps s e in
    let s1 = destroy_turn s in
    each_finishes_lem ps (destroy_turn (work_turn p (work_turn p s1)))
      (joining-Calm p s1 (destroy_turn-Calm s h))
      (joining_finishes p ps s1 (destroy_turn-Calm s h) j shut)

finishing_lem :
    (d : Destructor) (s : Closing)
    → s.phase ≡ d
    → Calm s
    → (run (finishing d) s).phase ≡ Destructor.ended
unfolding run turn
finishing_lem Destructor.before s e h = absurd (let i = h.in_hand in ground arith)
finishing_lem Destructor.flagged s e h = absurd (let i = h.in_hand in ground arith)
finishing_lem (Destructor.emptying ps) s e h = each_finishes_lem ps s h e
finishing_lem (Destructor.joining p ps) s e h =
    each_finishes_lem ps (destroy_turn (work_turn p (work_turn p s))) (joining-Calm p s h)
      (joining_finishes p ps s h e (let i = h.in_hand in ground arith))
finishing_lem Destructor.ended s e h = e

-- Where no thread waits for the lock or holds it when the destructor takes it: whatever turns the
-- threads take from then on, there are turns behind them with which the destructor ends.
pub destructor_ends :
    (ts : List Turn) (s : Closing)
    → s.phase ≡ Destructor.flagged
    → s.shutting_down ≡ true
    → s.lock ≡ none
    → ((q : ℕ) → IsCalm (s.workers q))
    → let after = run (Turn.destroys ∷ ts) s in
      (run (finishing after.phase) after).phase ≡ Destructor.ended
unfolding run turn destroy_turn
destructor_ends ts s f flag l calm =
    let next : Closing = record s {
      phase = Destructor.emptying s.clients;
      lock = some Owner.destructor;
    } in
    let e : destroy_turn s ≡ next = ground arith in
    subst (λ (t : Closing). (run (finishing (run ts t).phase) (run ts t)).phase ≡ Destructor.ended)
      (sym e)
      (finishing_lem (run ts next).phase (run ts next) refl
        (run-Calm ts next (record { flag = flag; calm = calm; in_hand = tt })))
