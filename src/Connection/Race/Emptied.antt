-- ===== src/Connection/Race/Emptied.antt =====
-- When `setHandler` of src/transport.cpp leaves no message in the queue, and when it does.
use flight_safety_system.Base.{
  ℕ, ◌+◌, ◌*◌, ◌-◌, ◌≤◌, Bool, true, List, [], ◌∷◌, ◌++◌, ◌≡◌, refl, sym, ap, ◌∙◌, arith, length,
  append-nil, append_assoc, subst,
}
use flight_safety_system.Connection.Race.{
  Receiver, Setter, Threads, Turn, receive_turn, set_turn, turn, run,
}

abbrev pub sets_in : List Turn → ℕ
sets_in [] = 0
sets_in (Turn.receives ∷ ts) = sets_in ts
sets_in (Turn.sets ∷ ts) = sets_in ts + 1

module _ {A : Type 0} where
  pub run-append : (ts us : List Turn) (s : Threads A) → run (ts ++ us) s ≡ run us (run ts s)
  unfolding run
  run-append [] us s = refl
  run-append (t ∷ ts) us s = run-append ts us (turn t s)

  -- The receiving thread is not on its way to queue a message.
  abbrev pub NotQueueing : Receiver A → Type 0
  NotQueueing Receiver.ready = Unit {0}
  NotQueueing (Receiver.to_handle m) = Unit {0}
  NotQueueing (Receiver.to_queue m) = ⊥

  -- The turns that `setHandler` has left, once it has set the callback.
  abbrev left : Setter A → List A → ℕ
  left Setter.before ms = 2 * length ms + 2
  left Setter.emptying ms = 2 * length ms + 1
  left (Setter.took m) ms = 2 * length ms + 2
  left Setter.done ms = 0

  -- Where `setHandler` has set the callback, and what is in the queue when it has returned.
  abbrev Emptying : Receiver A → Setter A → Bool → List A → Type 0
  Emptying r Setter.before b ms = ⊥
  Emptying r Setter.emptying b ms = (b ≡ true) × NotQueueing r
  Emptying r (Setter.took m) b ms = (b ≡ true) × NotQueueing r
  Emptying r Setter.done b ms = (b ≡ true) × NotQueueing r × (ms ≡ [])

  abbrev IsEmptying : Threads A → Type 0
  IsEmptying s = Emptying s.receiver s.setter s.handler s.messages

  receive_turn-IsEmptying : (s : Threads A) → IsEmptying s → IsEmptying (receive_turn s)
  unfolding receive_turn
  receive_turn-IsEmptying s h = ground arith

  receive_turn-left :
      (s : Threads A)
      → IsEmptying s
      → left (receive_turn s).setter (receive_turn s).messages ≡ left s.setter s.messages
  unfolding receive_turn
  receive_turn-left s h = ground arith

  set_turn-IsEmptying : (s : Threads A) → IsEmptying s → IsEmptying (set_turn s)
  unfolding set_turn
  set_turn-IsEmptying s h = ground arith

  set_turn-left :
      (s : Threads A)
      → IsEmptying s
      → left (set_turn s).setter (set_turn s).messages ≡ left s.setter s.messages - 1
  unfolding set_turn
  set_turn-left s h = ground arith

  run_emptying :
      (ts : List Turn) (s : Threads A)
      → IsEmptying s
      → left s.setter s.messages ≤ sets_in ts
      → ((run ts s).setter ≡ Setter.done) × ((run ts s).messages ≡ [])
  unfolding run turn
  run_emptying [] s h n = ground arith
  run_emptying (Turn.receives ∷ ts) s h n =
      run_emptying ts (receive_turn s) (receive_turn-IsEmptying s h)
        (let l = receive_turn-left s h in ground arith)
  run_emptying (Turn.sets ∷ ts) s h n =
      run_emptying ts (set_turn s) (set_turn-IsEmptying s h)
        (let l = set_turn-left s h in ground arith)

  -- Before `setHandler` is called, the receiving thread not being on its way to queue a message: its
  -- first turn, and then any turns of the two threads among which it has two for each queued message
  -- and one more, end with `setHandler` returned and the queue empty.
  pub setter_done :
      (ts : List Turn) (s : Threads A)
      → s.setter ≡ Setter.before
      → NotQueueing s.receiver
      → 2 * length s.messages + 1 ≤ sets_in ts
      → ((run (Turn.sets ∷ ts) s).setter ≡ Setter.done) × ((run (Turn.sets ∷ ts) s).messages ≡ [])
  unfolding run turn set_turn
  setter_done ts s h free n =
      let next : Threads A = record s { setter = Setter.emptying; handler = true } in
      let e : set_turn s ≡ next = ground arith in
      subst (λ (t : Threads A). ((run ts t).setter ≡ Setter.done) × ((run ts t).messages ≡ []))
        (sym e) (run_emptying ts next (refl, free) n)

  -- The turns of `setHandler` that empty a queue: two for each message, and the last test.
  abbrev pub emptying_turns : List A → List Turn
  emptying_turns [] = Turn.sets ∷ []
  emptying_turns (m ∷ ms) = Turn.sets ∷ Turn.sets ∷ emptying_turns ms

  -- `setHandler` at the test of its loop.
  abbrev pub at_test : Threads A → List A → List A → Threads A
  at_test s ms hs = record s {
    setter = Setter.emptying;
    handler = true;
    messages = ms;
    handled = hs;
  }

  emptying_turns_lem :
      (s : Threads A) (ms hs : List A)
      → run (emptying_turns ms) (at_test s ms hs)
        ≡ record (at_test s [] (hs ++ ms)) { setter = Setter.done }
  unfolding run turn set_turn
  emptying_turns_lem s [] hs =
      ap (λ l. record (at_test s [] l) { setter = Setter.done }) (sym (append-nil hs))
  emptying_turns_lem s (m ∷ ms) hs =
      emptying_turns_lem s ms (hs ++ m ∷ [])
      ∙ ap (λ l. record (at_test s [] l) { setter = Setter.done }) (append_assoc hs (m ∷ []) ms)

  -- All of `setHandler`, with no turn of the other thread between.
  pub set_handler_turns :
      (s : Threads A)
      → s.setter ≡ Setter.before
      → run (Turn.sets ∷ emptying_turns s.messages) s
        ≡ record (at_test s [] (s.handled ++ s.messages)) { setter = Setter.done }
  unfolding run turn set_turn
  set_handler_turns s h =
      let e : set_turn s ≡ at_test s s.messages s.handled = ground arith in
      ap (run (emptying_turns s.messages)) e ∙ emptying_turns_lem s s.messages s.handled

  settled_stays :
      (ts : List Turn) (s : Threads A)
      → (s.handler ≡ true)
      → (s.setter ≡ Setter.done)
      → NotQueueing s.receiver
      → (run ts s).messages ≡ s.messages
  unfolding run turn set_turn receive_turn
  settled_stays [] s b d free = refl
  settled_stays (Turn.receives ∷ ts) s b d free =
      let e : (receive_turn s).messages ≡ s.messages = ground arith in
      settled_stays ts (receive_turn s) (ground arith) (ground arith) (ground arith) ∙ e
  settled_stays (Turn.sets ∷ ts) s b d free =
      let e : set_turn s ≡ s = ground arith in
      ap (λ (t : Threads A). (run ts t).messages) e ∙ settled_stays ts s b d free

  -- Where the receiving thread has found no callback and is about to queue its message, and the other
  -- thread then goes through all of `setHandler`: the message stays in the queue, whatever turns the
  -- two threads take from then on.
  pub stranded :
      (ts : List Turn) (s : Threads A) (m : A)
      → s.receiver ≡ Receiver.to_queue m
      → s.setter ≡ Setter.before
      → (run ((Turn.sets ∷ emptying_turns s.messages) ++ Turn.receives ∷ ts) s).messages ≡ m ∷ []
  unfolding run turn set_turn receive_turn
  stranded ts s m busy h =
      let after : Threads A = record (at_test s [] (s.handled ++ s.messages)) {
        setter = Setter.done;
      } in
      let queued : Threads A = record after { receiver = Receiver.ready; messages = m ∷ [] } in
      let e : receive_turn after ≡ queued = ground arith in
      ap (λ (t : Threads A). t.messages)
        (run-append (Turn.sets ∷ emptying_turns s.messages) (Turn.receives ∷ ts) s)
      ∙ ap (λ (t : Threads A). (run (Turn.receives ∷ ts) t).messages) (set_handler_turns s h)
      ∙ ap (λ (t : Threads A). (run ts t).messages) e
      ∙ settled_stays ts queued refl refl tt
