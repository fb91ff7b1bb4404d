-- ===== src/Examples/Threads.antt =====
-- Threads that take turns: a connection that gets its handler, and a server that shuts down.
use flight_safety_system.Base.{
  ℕ, ◌≡◌, ◌≢◌, refl, true, false, List, [], ◌∷◌, ◌++◌, none, arith, update,
}
use flight_safety_system.Examples.Micro.{micro}
use flight_safety_system.Connection.Receive.{total_length, process_messages}
use flight_safety_system.Connection.Receive.Chunking.{
  Arrival, IsArrival, arriving, pieces_of, read_each, process_messages-read_each,
}
use flight_safety_system.Connection.Race.{Receiver, Setter, Threads, Turn, run}
use flight_safety_system.Connection.Race.Kept.{everything, run-everything}
use flight_safety_system.Connection.Race.Emptied.{emptying_turns, setter_done, stranded}
use flight_safety_system.Server.Shutdown as Shutdown
use flight_safety_system.Server.Shutdown.{Destructor, Worker, Closing}
use flight_safety_system.Server.Shutdown.Blocked.{destructor_waits}
use flight_safety_system.Server.Shutdown.Ends.{finishing, destructor_ends}

-- Numbers for messages: 5 is queued, the receiving thread is about to queue 6, and 7 is to come.
abbrev busy : Threads ℕ
busy = record {
  incoming = 7 ∷ [];
  receiver = Receiver.to_queue 6;
  setter = Setter.before;
  handler = false;
  messages = 5 ∷ [];
  handled = [];
}

abbrev some_turns : List Turn
some_turns = Turn.sets ∷ Turn.receives ∷ Turn.sets ∷ Turn.sets ∷ Turn.receives ∷ []

run-everything_example :
    everything (λ (m : ℕ). m) (run some_turns busy) ≡ everything (λ (m : ℕ). m) busy
run-everything_example = run-everything (λ (m : ℕ). m) some_turns busy

abbrev free : Threads ℕ
free = record busy { receiver = Receiver.ready }

setter_done_example :
    ((run (Turn.sets ∷ Turn.receives ∷ Turn.sets ∷ Turn.sets ∷ Turn.sets ∷ []) free).setter
      ≡ Setter.done)
    × ((run (Turn.sets ∷ Turn.receives ∷ Turn.sets ∷ Turn.sets ∷ Turn.sets ∷ []) free).messages
        ≡ [])
setter_done_example =
    setter_done (Turn.receives ∷ Turn.sets ∷ Turn.sets ∷ Turn.sets ∷ []) free refl tt (omega arith)

stranded_example :
    (run
      ((Turn.sets ∷ emptying_turns busy.messages)
        ++ Turn.receives ∷ Turn.receives ∷ Turn.receives ∷ Turn.sets ∷ [])
      busy).messages
    ≡ 6 ∷ []
stranded_example = stranded (Turn.receives ∷ Turn.receives ∷ Turn.sets ∷ []) busy 6 refl refl

-- A callback that keeps what it is called with.
abbrev keep : {A : Type 0} → List A → A → List A
keep hs m = hs ++ m ∷ []

-- Twelve bytes of a round-trip request and their padding, in two parts.
abbrev pieces : Arrival
pieces = record {
  size = 12;
  chunks = (0 ∷ 3 ∷ []) ∷ (0 ∷ 0 ∷ 0 ∷ 0 ∷ 0 ∷ 0 ∷ 0 ∷ 9 ∷ 0 ∷ 0 ∷ 0 ∷ 0 ∷ []) ∷ [];
}

pieces-IsArrival : IsArrival pieces
unfolding total_length
pieces-IsArrival = record {
  size = omega arith;
  non_empty = (omega arith, (omega arith, tt));
  whole = refl;
}

process_messages-read_each_example :
    process_messages micro keep (λ _. false) 3 [] (arriving (pieces ∷ pieces ∷ []))
    ≡ read_each micro keep (pieces_of (pieces ∷ pieces ∷ [])) []
process_messages-read_each_example =
    process_messages-read_each micro keep (λ _. false) (pieces ∷ pieces ∷ []) 3 [] (omega arith)
      (pieces-IsArrival, (pieces-IsArrival, tt))

-- Two listed clients; the destructor is about to take the lock.
abbrev closing : Closing
closing = record {
  shutting_down = true;
  lock = none;
  phase = Destructor.flagged;
  workers = λ p. Worker.receiving;
  is_open = λ p. true;
  clients = 1 ∷ 2 ∷ [];
}

-- The thread of the second waits for it.
abbrev contended : Closing
contended = record closing { workers = update closing.workers 2 Worker.waiting }

nobody_removes : (q : ℕ) → contended.workers q ≢ Worker.removing
nobody_removes q = ground arith

destructor_waits_example :
    ((Shutdown.run
        (Shutdown.Turn.destroys ∷ Shutdown.Turn.destroys ∷ Shutdown.Turn.works 2 ∷ [])
        contended).phase
      ≢ Destructor.ended)
    × ((Shutdown.run
            (Shutdown.Turn.destroys ∷ Shutdown.Turn.destroys ∷ Shutdown.Turn.works 2 ∷ [])
            contended).workers
          2
        ≡ Worker.waiting)
destructor_waits_example =
    destructor_waits (Shutdown.Turn.destroys ∷ Shutdown.Turn.works 2 ∷ []) 2 contended refl refl
      refl nobody_removes refl

destructor_ends_example :
    let after =
      Shutdown.run
        (Shutdown.Turn.destroys
          ∷ Shutdown.Turn.hangs_up 2
          ∷ Shutdown.Turn.works 2
          ∷ Shutdown.Turn.destroys
          ∷ [])
        closing in
    (Shutdown.run (finishing after.phase) after).phase ≡ Destructor.ended
destructor_ends_example =
    destructor_ends (Shutdown.Turn.hangs_up 2 ∷ Shutdown.Turn.works 2 ∷ Shutdown.Turn.destroys ∷ [])
      closing refl refl refl (λ q. tt)
