-- ===== src/Server/Roster/Growth.antt =====
-- What one message changes of the client that it comes from, in src/server.cpp.
use flight_safety_system.Base.{
  ℕ, ◌≡◌, refl, ◌∙◌, ◌⊎◌, inl, inr, true, false, List, Option, none, some, arith, update,
  Bool-cases, ap, sym, subst, ◌≢◌,
}
use flight_safety_system.Floats.{Floats}
use flight_safety_system.Message.{FssMessageType, Message, Body, make}
use flight_safety_system.Connection.{get_client_names}
use flight_safety_system.Db.{Database}
use flight_safety_system.Server.{FssClient, client_send}
use flight_safety_system.Server.Clients.{ServerClients, client_disconnected}
use flight_safety_system.Server.Process.{
  process_identified, process_unidentified, process_message, identify, welcome, name_is_possible,
}
use flight_safety_system.Server.Names.{name_is_possible-MayBe}
use flight_safety_system.Server.Essence.{
  essence, client_send-essence, update-Same, welcome-essence, process_identified-Same,
}
use flight_safety_system.Server.Roster.{Standing, standing, entry_of, Grows}
use flight_safety_system.Server.Gate.{unidentified_writes_nothing}

module _ {F : Floats} where
  same-Grows :
      (c c' : FssClient F)
      → essence c' ≡ essence c
      → Grows (entry_of (essence c)) (entry_of (essence c'))
  same-Grows c c' e = subst (Grows (entry_of (essence c))) (sym (ap entry_of e)) Grows.stays

  guest_entry :
      (c : FssClient F)
      → c.identified ≡ false
      → entry_of (essence c) ≡ (Standing.guest, get_client_names c.conn)
  unfolding get_client_names
  guest_entry c new = ap (λ b. (standing b c.aircraft c.name, c.conn.possible_names)) new

  identify-Grows :
      (db : Database F) (ts : ℕ) (s : ServerClients F) (p : ℕ) (name : List ℕ)
      → (s.objects p).identified ≡ false
      → Grows
          (entry_of (essence (s.objects p)))
          (entry_of (essence ((identify db ts s p name).objects p)))
  unfolding identify client_disconnected get_client_names
  identify-Grows db ts s p name new =
      let names = (s.objects p).conn.possible_names in
      let guest = guest_entry (s.objects p) new in
      let named : FssClient F = record (s.objects p) { name = name } in
      let known : FssClient F = record named { identified = true; aircraft = true } in
      elim (Bool-cases (name_is_possible names name)) [
        | inl may ↦
            let at : (identify db ts s p name).objects p ≡ welcome db ts known = ground arith in
            let e : entry_of (essence ((identify db ts s p name).objects p))
                ≡ (Standing.craft name, names) =
              ap (λ c. entry_of (essence c)) at ∙ ap entry_of (welcome-essence db ts known) in
            subst (λ x. Grows x (entry_of (essence ((identify db ts s p name).objects p))))
              (sym guest)
              (subst (Grows (Standing.guest, names)) (sym e)
                (Grows.identifies name names ((name_is_possible-MayBe names name).0 may)))
        | inr refused ↦
            let at : (identify db ts s p name).objects p ≡ named = ground arith in
            let e : entry_of (essence ((identify db ts s p name).objects p))
                ≡ entry_of (essence (s.objects p)) =
              ap (λ c. entry_of (essence c)) at ∙ guest_entry named new ∙ sym guest in
            subst (Grows (entry_of (essence (s.objects p)))) (sym e) Grows.stays
      ]

  asked-Grows :
      (s : ServerClients F) (p : ℕ) (m : Message F)
      → Grows
          (entry_of (essence (s.objects p)))
          (entry_of (essence (update s.objects p (client_send (s.objects p) m).0 p)))
  asked-Grows s p m =
      same-Grows (s.objects p) (update s.objects p (client_send (s.objects p) m).0 p) (
        update-Same s.objects p (client_send (s.objects p) m).0
          (client_send-essence (s.objects p) m) p)

  observes-Grows :
      (s : ServerClients F) (p : ℕ)
      → (s.objects p).identified ≡ false
      → Grows (entry_of (essence (s.objects p))) (
          entry_of (
            essence (
              update s.objects p (record (s.objects p) { identified = true; aircraft = false }) p)))
  unfolding get_client_names
  observes-Grows s p new =
      let names = (s.objects p).conn.possible_names in
      let c : FssClient F = record (s.objects p) { identified = true; aircraft = false } in
      let at : update s.objects p c p ≡ c = ground arith in
      subst (λ d. Grows (entry_of (essence (s.objects p))) (entry_of (essence d))) (sym at)
        (subst (λ x. Grows x (Standing.observer, names)) (sym (guest_entry (s.objects p) new))
          (Grows.observes names))

  process_unidentified-Grows :
      (db : Database F) (ts : ℕ) (s : ServerClients F) (p id : ℕ) (t : FssMessageType) (b : Body F)
      → (s.objects p).identified ≡ false
      → Grows (entry_of (essence (s.objects p))) (
          entry_of (
            essence (
              (process_unidentified db ts s p (record { id = id; type = t; body = b })).objects p)))
  unfolding process_unidentified
  process_unidentified-Grows db ts s p id FssMessageType.identity (Body.identity name) new =
      identify-Grows db ts s p name new
  process_unidentified-Grows db ts s p id FssMessageType.identity b new = Grows.stays
  process_unidentified-Grows db ts s p id FssMessageType.identity_non_aircraft b new =
      observes-Grows s p new
  process_unidentified-Grows db ts s p id t b new = asked-Grows s p (make Body.identity_required)

  pub process_message-cases :
      (db : Database F) (ts : ℕ) (s : ServerClients F) (p : ℕ) (m : Message F)
      → (process_message db ts s p (some m) ≡ client_disconnected s p)
        ⊎ (((s.objects p).identified ≡ true)
            × (process_message db ts s p (some m) ≡ process_identified db ts s p m))
        ⊎ (((s.objects p).identified ≡ false)
            × (process_message db ts s p (some m) ≡ process_unidentified db ts s p m))
  unfolding process_message
  process_message-cases db ts s p m = ground arith

  pub client_disconnected-objects :
      (s : ServerClients F) (p : ℕ) → (client_disconnected s p).objects ≡ s.objects
  unfolding client_disconnected
  client_disconnected-objects s p = ground arith

  -- A message of a client leaves what the server keeps of it, or lets it take its place.
  pub process_message-Grows :
      (db : Database F) (ts : ℕ) (s : ServerClients F) (p : ℕ) (m : Option (Message F))
      → Grows
          (entry_of (essence (s.objects p)))
          (entry_of (essence ((process_message db ts s p m).objects p)))
  unfolding process_message
  process_message-Grows db ts s p none = Grows.stays
  process_message-Grows db ts s p (some m) = elim (process_message-cases db ts s p m) [
    | inl gone ↦ same-Grows (s.objects p) ((process_message db ts s p (some m)).objects p) (
        ap (λ (t : ServerClients F). essence (t.objects p)) gone
        ∙ ap (λ (o : ℕ → FssClient F). essence (o p)) (client_disconnected-objects s p))
    | inr (inl (known, same)) ↦
        same-Grows (s.objects p) ((process_message db ts s p (some m)).objects p) (
          ap (λ (t : ServerClients F). essence (t.objects p)) same
          ∙ process_identified-Same db ts s p m.id m.type m.body p)
    | inr (inr (new, same)) ↦
        subst
          (λ (t : ServerClients F).
            Grows (entry_of (essence (s.objects p))) (entry_of (essence (t.objects p))))
          (sym same) (process_unidentified-Grows db ts s p m.id m.type m.body new)
  ]

  -- It leaves what the server keeps of the others.
  pub process_message-others :
      (db : Database F) (ts : ℕ) (s : ServerClients F) (p : ℕ) (m : Option (Message F)) (q : ℕ)
      → q ≢ p
      → essence ((process_message db ts s p m).objects q) ≡ essence (s.objects q)
  unfolding process_message
  process_message-others db ts s p none q other = refl
  process_message-others db ts s p (some m) q other = elim (process_message-cases db ts s p m) [
    | inl gone ↦
        ap (λ (t : ServerClients F). essence (t.objects q)) gone
        ∙ ap (λ (o : ℕ → FssClient F). essence (o q)) (client_disconnected-objects s p)
    | inr (inl (known, same)) ↦
        ap (λ (t : ServerClients F). essence (t.objects q)) same
        ∙ process_identified-Same db ts s p m.id m.type m.body q
    | inr (inr (new, same)) ↦
        ap essence (unidentified_writes_nothing db ts s p q (some m) new other).1
  ]
