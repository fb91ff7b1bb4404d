-- ===== src/Connection/Race.antt =====
-- `processMessages` on the receiving thread and `setHandler` on another one (src/transport.cpp): the
-- two share `handler` and `messages` with no lock.
pub mod Kept
pub mod Emptied
use flight_safety_system.Base.{ℕ, Bool, true, false, List, [], ◌∷◌, ◌++◌}

-- The receiving thread waits for a message, or has one and has tested `handler`.
pub data Receiver (A : Type 0) : Type 0 where
  ready : Receiver A
  to_handle : A → Receiver A
  to_queue : A → Receiver A

-- The other thread has not called `setHandler`, is at the test of its loop, has taken a message out
-- of the queue, or has returned.
pub data Setter (A : Type 0) : Type 0 where
  before : Setter A
  emptying : Setter A
  took : A → Setter A
  done : Setter A

-- `incoming` is what the socket brings, `handled` what the callback was called with, in order. A turn
-- is one access to what the threads share, each access to the queue being whole.
pub record Threads (A : Type 0) : Type 0 where
  pub incoming : List A
  pub receiver : Receiver A
  pub setter : Setter A
  pub handler : Bool
  pub messages : List A
  pub handled : List A

pub data Turn : Type 0 where
  receives : Turn
  sets : Turn

module _ {A : Type 0} where
  unfoldable pub receive_turn : Threads A → Threads A
  receive_turn s = elim s.receiver [
    | Receiver.ready ↦ elim s.incoming [
      | [] ↦ s
      | m ∷ rest ↦ record s {
        incoming = rest;
        receiver = elim s.handler [ true ↦ Receiver.to_handle m | false ↦ Receiver.to_queue m ];
      }
    ]
    | Receiver.to_handle m ↦ record s { receiver = Receiver.ready; handled = s.handled ++ m ∷ [] }
    | Receiver.to_queue m ↦ record s { receiver = Receiver.ready; messages = s.messages ++ m ∷ [] }
  ]

  unfoldable pub set_turn : Threads A → Threads A
  set_turn s = elim s.setter [
    | Setter.before ↦ record s { setter = Setter.emptying; handler = true }
    | Setter.emptying ↦ elim s.messages [
      | [] ↦ record s { setter = Setter.done }
      | m ∷ rest ↦ record s { setter = Setter.took m; messages = rest }
    ]
    | Setter.took m ↦ record s { setter = Setter.emptying; handled = s.handled ++ m ∷ [] }
    | Setter.done ↦ s
  ]

  unfoldable pub turn : Turn → Threads A → Threads A
  turn Turn.receives s = receive_turn s
  turn Turn.sets s = set_turn s

  unfoldable pub run : List Turn → Threads A → Threads A
  run [] s = s
  run (t ∷ ts) s = run ts (turn t s)
