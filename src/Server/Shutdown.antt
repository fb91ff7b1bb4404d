-- ===== src/Server/Shutdown.antt =====
-- The destructor of `server_clients` and the receiving threads of its clients (src/server.cpp), which
-- share the lock, the list and `shutting_down`.
pub mod Blocked
pub mod Ends
use flight_safety_system.Base.{
  ℕ, Bool, true, false, List, [], ◌∷◌, Option, none, some, remove, update,
}

-- The destructor has not begun, has set `shutting_down`, holds the lock with the clients that are
-- left to disconnect, waits in `disconnect` for the thread of one of them, or has given back the lock.
pub data Destructor : Type 0 where
  before : Destructor
  flagged : Destructor
  emptying : List ℕ → Destructor
  joining : ℕ → List ℕ → Destructor
  ended : Destructor

-- The thread of a client receives, is at the test of `shutting_down` in `clientDisconnected` for a
-- message that its connection is closed, waits for the lock, holds it, or has left its loop.
pub data Worker : Type 0 where
  receiving : Worker
  testing : Worker
  waiting : Worker
  removing : Worker
  exited : Worker

pub data Owner : Type 0 where
  destructor : Owner
  worker : ℕ → Owner

-- `is_open` says whether the socket of a client brings anything but its end.
pub record Closing : Type 0 where
  pub shutting_down : Bool
  pub lock : Option Owner
  pub phase : Destructor
  pub workers : ℕ → Worker
  pub is_open : ℕ → Bool
  pub clients : List ℕ

-- A step of the destructor, of the thread of a client, or of the peer of a client that goes away.
pub data Turn : Type 0 where
  destroys : Turn
  works : ℕ → Turn
  hangs_up : ℕ → Turn

unfoldable pub destroy_turn : Closing → Closing
destroy_turn s = elim s.phase [
  | Destructor.before ↦ record s { phase = Destructor.flagged; shutting_down = true }
  | Destructor.flagged ↦ elim s.lock [
    | none ↦ record s { phase = Destructor.emptying s.clients; lock = some Owner.destructor }
    | some o ↦ s
  ]
  | Destructor.emptying [] ↦ record s { phase = Destructor.ended; lock = none }
  | Destructor.emptying (p ∷ ps) ↦ record s {
    phase = Destructor.joining p ps;
    is_open = update s.is_open p false;
  }
  | Destructor.joining p ps ↦ elim (s.workers p) [
    | Worker.exited ↦ record s { phase = Destructor.emptying ps }
    | _ ↦ s
  ]
  | Destructor.ended ↦ s
]

unfoldable pub work_turn : ℕ → Closing → Closing
work_turn p s = elim (s.workers p) [
  | Worker.receiving ↦ elim (s.is_open p) [
    | true ↦ s
    | false ↦ record s { workers = update s.workers p Worker.testing }
  ]
  | Worker.testing ↦ elim s.shutting_down [
    | true ↦ record s { workers = update s.workers p Worker.exited }
    | false ↦ record s { workers = update s.workers p Worker.waiting }
  ]
  | Worker.waiting ↦ elim s.lock [
    | none ↦ record s { workers = update s.workers p Worker.removing; lock = some (Owner.worker p) }
    | some o ↦ s
  ]
  | Worker.removing ↦ record s {
    workers = update s.workers p Worker.exited;
    lock = none;
    clients = remove p s.clients;
  }
  | Worker.exited ↦ s
]

unfoldable pub turn : Turn → Closing → Closing
turn Turn.destroys s = destroy_turn s
turn (Turn.works p) s = work_turn p s
turn (Turn.hangs_up p) s = record s { is_open = update s.is_open p false }

unfoldable pub run : List Turn → Closing → Closing
run [] s = s
run (t ∷ ts) s = run ts (turn t s)
