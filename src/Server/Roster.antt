-- ===== src/Server/Roster.antt =====
-- What src/server.cpp may do with the clients it lists, described apart from its messages: who joins,
-- who is identified as what, and who leaves.
pub mod Growth
pub mod Refines
use flight_safety_system.Base.{ℕ, ◌≡◌, ◌≢◌, Bool, true, false, List, Option, none, some, contains}
use flight_safety_system.Floats.{Floats}
use flight_safety_system.Server.{FssClient}
use flight_safety_system.Server.Clients.{ServerClients}
use flight_safety_system.Server.Names.{MayBe}
use flight_safety_system.Server.Essence.{essence}

-- A client that has said nothing of itself, an aircraft of a name, or one that is no aircraft.
pub data Standing : Type 0 where
  guest : Standing
  craft : List ℕ → Standing
  observer : Standing

-- What the server keeps of a client, with the names of its certificate.
abbrev pub Entry : Type 0
Entry = Standing × List (List ℕ)

abbrev pub standing : Bool → Bool → List ℕ → Standing
standing false flies name = Standing.guest
standing true true name = Standing.craft name
standing true false name = Standing.observer

abbrev pub entry_of : Bool × Bool × List ℕ × List (List ℕ) → Entry
entry_of (known, flies, name, names) = (standing known flies name, names)

-- An aircraft has a name that its certificate lets it take.
abbrev pub Vouched : Entry → Type 0
Vouched (Standing.guest, names) = Unit {0}
Vouched (Standing.craft name, names) = MayBe name names
Vouched (Standing.observer, names) = Unit {0}

-- A message changes a client that has said nothing of itself only, and only to what it may be.
pub data Grows : Entry → Entry → Type 0 where
  stays : {e : Entry} → Grows e e
  identifies :
      (name : List ℕ) (names : List (List ℕ))
      → MayBe name names
      → Grows (Standing.guest, names) (Standing.craft name, names)
  observes : (names : List (List ℕ)) → Grows (Standing.guest, names) (Standing.observer, names)

-- What may become of one client. Who joins has a name it may take, if it has one already.
pub data Change : Option Entry → Option Entry → Type 0 where
  absent : Change none none
  grows : {e e' : Entry} → Grows e e' → Change (some e) (some e')
  joins : {e : Entry} → Vouched e → Change none (some e)
  leaves : {e : Entry} → Change (some e) none

-- The listed clients by their addresses.
abbrev pub Roster : Type 0
Roster = ℕ → Option Entry

-- One client changes, and all others stay.
abbrev pub Moves : Roster → Roster → Type 0
Moves r r' = (p : ℕ) × Change (r p) (r' p) × ((q : ℕ) → q ≢ p → r' q ≡ r q)

pub data History : Roster → Roster → Type 0 where
  start : {r : Roster} → History r r
  move : {r r' r'' : Roster} → History r r' → Moves r' r'' → History r r''

abbrev pub if_listed : Bool → Entry → Option Entry
if_listed true e = some e
if_listed false e = none

abbrev pub roster : {F : Floats} → ServerClients F → Roster
roster s q = if_listed (contains q s.clients) (entry_of (essence (s.objects q)))

abbrev pub AllVouched : Roster → Type 0
AllVouched r = (q : ℕ) (e : Entry) → r q ≡ some e → Vouched e
