-- ===== src/Server/Window.antt =====
-- A client that src/server.cpp accepts while its listening socket is being constructed.
use flight_safety_system.Base.{
  ℕ, ◌≡◌, refl, sym, ap, ◌∙◌, subst, inl, inr, true, false, List, [], ◌∷◌, ◌++◌, some,
}
use flight_safety_system.Floats.{Floats}
use flight_safety_system.Message.{Body, make, body_type}
use flight_safety_system.Connection.{Connection, new_connection, get_client_names}
use flight_safety_system.Connection.Accept.{Peer}
use flight_safety_system.Connection.Plain.{plain_connection, virtual_new_connection}
use flight_safety_system.Db.{Database}
use flight_safety_system.Server.{FssClient, new_client}
use flight_safety_system.Server.Clients.{ServerClients}
use flight_safety_system.Server.Process.{new_client_connect, process_message}
use flight_safety_system.Server.Gate.{identity-Decided}
use flight_safety_system.Server.Names.{MayBe}
use flight_safety_system.Server.Admission.{joined-kept}

module _ {F : Floats} where
  -- The state behind the accepting of a socket and the identity message of its client.
  abbrev pub joins_early :
      Database F → ℕ → ℕ → ServerClients F → ℕ → Peer → ℕ → List ℕ → ServerClients F
  joins_early db ts now s p peer fd name =
      process_message db now (new_client_connect db ts s p (virtual_new_connection false peer fd)) p
        (some (make (Body.identity name)))

  -- A client whose socket is accepted before the constructor of the TLS listening socket runs, the
  -- server not shutting down: whatever its peer would answer to a handshake, it is listed and an
  -- identified aircraft of whatever name its first message says.
  pub joins_early_anyone :
      (db : Database F) (ts now : ℕ) (s : ServerClients F) (p : ℕ) (peer : Peer) (fd : ℕ)
      (name : List ℕ)
      → s.shutting_down ≡ false
      → let after = joins_early db ts now s p peer fd name in
        ((after.objects p).identified ≡ true)
        × ((after.objects p).aircraft ≡ true)
        × ((after.objects p).name ≡ name)
        × (after.clients ≡ s.clients ++ p ∷ [])
  unfolding new_client make body_type get_client_names new_connection plain_connection
      virtual_new_connection
  joins_early_anyone db ts now s p peer fd name up =
      let k : Connection F = virtual_new_connection false peer fd in
      let (object, kept, listed) = joined-kept db ts s p k refl in
      let s' = new_client_connect db ts s p k in
      let names = ap (λ (x : FssClient F). x.conn.possible_names) object in
      let new = ap (λ (x : FssClient F). x.identified) object in
      elim (identity-Decided db now s' p (make (Body.identity name)) name new (kept ∙ up) refl
        refl) [
          | inl (_, known, flies, its_name, clients) ↦ (known, flies, its_name, clients ∙ listed)
          | inr (refused, _, _) ↦ absurd (refused (subst (MayBe name) (sym names) MayBe.unnamed))
        ]
