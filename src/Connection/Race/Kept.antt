-- ===== src/Connection/Race/Kept.antt =====
-- Where the messages are, whatever turns the two threads of src/transport.cpp take.
use flight_safety_system.Base.{ℕ, ◌+◌, List, [], ◌∷◌, ◌++◌, ◌≡◌, refl, ◌∙◌, arith}
use flight_safety_system.Connection.Race.{
  Receiver, Setter, Threads, Turn, receive_turn, set_turn, turn, run,
}

module _ {A : Type 0} (weigh : A → ℕ) where
  abbrev pub tally : List A → ℕ
  tally [] = 0
  tally (x ∷ xs) = weigh x + tally xs

  abbrev pub in_receiver : Receiver A → ℕ
  in_receiver Receiver.ready = 0
  in_receiver (Receiver.to_handle m) = weigh m
  in_receiver (Receiver.to_queue m) = weigh m

  abbrev pub in_setter : Setter A → ℕ
  in_setter Setter.before = 0
  in_setter Setter.emptying = 0
  in_setter (Setter.took m) = weigh m
  in_setter Setter.done = 0

  -- All the messages: handled, queued, in the hands of a thread, and still to come.
  abbrev pub everything : Threads A → ℕ
  everything s =
      tally s.handled
      + tally s.messages
      + in_receiver s.receiver
      + in_setter s.setter
      + tally s.incoming

  tally-append : (xs ys : List A) → tally (xs ++ ys) ≡ tally xs + tally ys
  tally-append [] ys = omega arith
  tally-append (x ∷ xs) ys = let ih = tally-append xs ys in ground arith

  turn-everything : (t : Turn) (s : Threads A) → everything (turn t s) ≡ everything s
  unfolding turn receive_turn set_turn
  turn-everything Turn.receives s = grind (arith, tally-append)
  turn-everything Turn.sets s = grind (arith, tally-append)

  -- However the two threads take turns, no message is lost and none is handled twice: counted by any
  -- weight, those that were handled, those in the queue, those that a thread holds and those still to
  -- come stay as many as they were.
  pub run-everything : (ts : List Turn) (s : Threads A) → everything (run ts s) ≡ everything s
  unfolding run
  run-everything [] s = refl
  run-everything (t ∷ ts) s = run-everything ts (turn t s) ∙ turn-everything t s
