-- ===== src/Server/Silent.antt =====
-- A client of src/server.cpp that sends nothing, while the others and the loop of `main` go on.
use flight_safety_system.Base.{
  ℕ, ◌≡◌, ◌≢◌, refl, sym, ap, ◌∙◌, inl, inr, true, List, [], ◌∷◌, ◌++◌, Option, arith, ==_iff,
  update, contains, contains-append, All,
}
use flight_safety_system.Floats.{Floats}
use flight_safety_system.Message.{Message}
use flight_safety_system.Connection.{Connection}
use flight_safety_system.Db.{Database}
use flight_safety_system.Server.{new_client}
use flight_safety_system.Server.Clients.{ServerClients, client_connected, cleanup_removable_clients}
use flight_safety_system.Server.Process.{new_client_connect, periodic}
use flight_safety_system.Server.Registry.{process_message-lists, periodic-lists, drained-lists}
use flight_safety_system.Server.Roster.Refines.{disconnected-other}
use flight_safety_system.Server.Main.{Event, Round, MainState, happen, happen_all}
use flight_safety_system.Server.Main.Sound.{Tracked, held-Below, connects-Tracked, receives-Tracked}
use flight_safety_system.Server.Waiting.{
  waiting_for, put-other, process_message-waiting, drain-waiting,
}

-- An event that is no message of the client at `q`.
abbrev pub IsSilent : {F : Floats} → ℕ → Event F → Type 0
IsSilent q (Event.connects db ts conn) = Unit {0}
IsSilent q (Event.receives db ts p m) = q ≢ p

-- Rounds of `main` in which the client at `q` sends nothing.
abbrev pub AllSilent : {F : Floats} → ℕ → List (Round F) → Type 0
AllSilent q rs = All (λ r. All (IsSilent q) r.events) rs

module _ {F : Floats} where
  -- What the silent client keeps: its place in the list and its outstanding requests.
  abbrev pub Keeps : ℕ → MainState F → MainState F → Type 0
  Keeps q s s' =
      (contains q s'.clients.clients ≡ contains q s.clients.clients)
      × (waiting_for (s'.clients.objects q) ≡ waiting_for (s.clients.objects q))

  receives-Keeps :
      (db : Database F) (ts p q : ℕ) (m : Option (Message F)) (s : MainState F)
      → q ≢ p
      → Keeps q s (happen (Event.receives db ts p m) s)
  unfolding happen
  receives-Keeps db ts p q m s other = (
    elim (process_message-lists db ts s.clients p m) [
      | inl same ↦ ap (λ (l : List ℕ × List ℕ × ℕ). contains q l.0) same
      | inr gone ↦
          ap (λ (l : List ℕ × List ℕ × ℕ). contains q l.0) gone
          ∙ disconnected-other s.clients p q other
    ],
    process_message-waiting db ts s.clients p m q other,
  )

  connects-Keeps :
      (db : Database F) (ts q : ℕ) (conn : Connection F) (s : MainState F)
      → Tracked s
      → contains q s.clients.clients ≡ true
      → Keeps q s (happen (Event.connects db ts conn) s)
  unfolding happen new_client_connect client_connected
  connects-Keeps db ts q conn s t held =
      let n = s.next_object in
      let (c, d) = t.fresh in
      let new = c n (omega arith) in
      let early = held-Below n q s.clients.clients c held in
      let other : q ≢ n = λ e. (omega (arith, e, early)) in
      let still = drained-lists db ts s.clients n conn new in
      let fresh : ServerClients F = record s.clients {
        objects = update s.clients.objects n (new_client conn);
      } in
      (
        (let a = contains-append q n s.clients.clients in
            let e = ==_iff n q in
            let apart : ¬ (n ≡ q) = λ h. other (sym h) in
            let l = ap (λ (l : List ℕ × List ℕ × ℕ). contains q (l.0 ++ n ∷ [])) still in
            l ∙ ground arith),
        drain-waiting db ts fresh n conn.messages q other
            ∙ put-other s.clients.objects n q (new_client conn) other,
      )

  pub happen_all-Keeps :
      (es : List (Event F)) (q : ℕ) (s : MainState F)
      → Tracked s
      → contains q s.clients.clients ≡ true
      → All (IsSilent q) es
      → Keeps q s (happen_all es s)
  unfolding happen_all
  happen_all-Keeps [] q s t held quiet = (refl, refl)
  happen_all-Keeps (Event.connects db ts conn ∷ es) q s t held (_, quiet) =
      let s' = happen (Event.connects db ts conn) s in
      let (l, w) = connects-Keeps db ts q conn s t held in
      let (l', w') = happen_all-Keeps es q s' (connects-Tracked db ts conn s t) (l ∙ held) quiet in
      (l' ∙ l, w' ∙ w)
  happen_all-Keeps (Event.receives db ts p m ∷ es) q s t held (other, quiet) =
      let s' = happen (Event.receives db ts p m) s in
      let (l, w) = receives-Keeps db ts p q m s other in
      let (l', w') = happen_all-Keeps es q s' (receives-Tracked db ts p m s t) (l ∙ held) quiet in
      (l' ∙ l, w' ∙ w)

  pub round-clients :
      (db : Database F) (now : ℕ → ℕ × ℕ) (counter : ℕ) (s : ServerClients F)
      → (periodic db now counter s).clients ≡ s.clients
  unfolding cleanup_removable_clients
  round-clients db now counter s =
      ap (λ (l : List ℕ × List ℕ × ℕ). l.0) (periodic-lists db now counter s)
