-- ===== src/Server/Admission.antt =====
-- Clients from the accepting of their socket in src/transport-ssl.cpp to their identity in
-- src/server.cpp.
use flight_safety_system.Base.{
  ℕ, ◌≡◌, refl, sym, ap, ◌∙◌, subst, inl, inr, ◌⊎◌, true, false, List, [], ◌∷◌, ◌++◌, none, some,
  arith, contains, update, update-same, All,
}
use flight_safety_system.Floats.{Floats}
use flight_safety_system.Message.{Body, make, body_type}
use flight_safety_system.Connection.{Connection, new_connection, get_client_names, drain}
use flight_safety_system.Connection.Names.{certificate_names, common_name, unnamed_certificates}
use flight_safety_system.Connection.Accept.{Peer, setup_ssl_server, accept_connection}
use flight_safety_system.Db.{Database}
use flight_safety_system.Server.{FssClient, new_client}
use flight_safety_system.Server.Clients.{ServerClients, client_connected}
use flight_safety_system.Server.Process.{new_client_connect, process_message}
use flight_safety_system.Server.Gate.{identity-Decided}
use flight_safety_system.Server.Names.{MayBe}

module _ {F : Floats} where
  accepted :
      (peer : Peer) (fd : ℕ) (dns : List (List ℕ))
      → peer.handshake ≡ some true
      → peer.peers_certificate ≡ some dns
      → accept_connection {F = F} peer fd ≡ record new_connection {
        fd = some fd;
        possible_names = certificate_names dns;
        usable = true;
        receiving = true;
      }
  unfolding accept_connection setup_ssl_server new_connection
  accepted peer fd dns h e = ground arith

  -- A connection that has queued nothing: the new client is listed, and not identified.
  joined :
      (db : Database F) (ts : ℕ) (s : ServerClients F) (p : ℕ) (k : Connection F)
      → k.messages ≡ []
      → new_client_connect db ts s p k
        ≡ client_connected (record s { objects = update s.objects p (new_client k) }) p
  unfolding new_client_connect drain
  joined db ts s p k e = rw e refl

  pub joined-kept :
      (db : Database F) (ts : ℕ) (s : ServerClients F) (p : ℕ) (k : Connection F)
      → k.messages ≡ []
      → let s' = new_client_connect db ts s p k in
        (s'.objects p ≡ new_client k)
        × (s'.shutting_down ≡ s.shutting_down)
        × (s'.clients ≡ s.clients ++ p ∷ [])
  unfolding client_connected
  joined-kept db ts s p k e =
      let s' = joined db ts s p k e in
      (
        ap (λ (x : ServerClients F). x.objects p) s' ∙ update-same s.objects p (new_client k),
        ap (λ (x : ServerClients F). x.shutting_down) s',
        ap (λ (x : ServerClients F). x.clients) s',
      )

  -- The state behind the accepting of a socket and the identity message of its client.
  abbrev pub joins_as :
      Database F → ℕ → ℕ → ServerClients F → ℕ → Peer → ℕ → List ℕ → ServerClients F
  joins_as db ts now s p peer fd name =
      process_message db now (new_client_connect db ts s p (accept_connection peer fd)) p
        (some (make (Body.identity name)))

  -- What becomes of a client whose certificates have the distinguished names `dns`.
  abbrev pub Admitted : List (List ℕ) → List ℕ → ServerClients F → ServerClients F → ℕ → Type 0
  Admitted dns name before after p =
      (MayBe name (certificate_names dns)
        × ((after.objects p).identified ≡ true)
        × ((after.objects p).aircraft ≡ true)
        × ((after.objects p).name ≡ name)
        × (after.clients ≡ before.clients ++ p ∷ []))
      ⊎ (¬ MayBe name (certificate_names dns)
          × ((after.objects p).identified ≡ false)
          × (contains p after.clients ≡ false))

  pub joins_as-Admitted :
      (db : Database F) (ts now : ℕ) (s : ServerClients F) (p : ℕ) (peer : Peer) (fd : ℕ)
      (dns : List (List ℕ)) (name : List ℕ)
      → peer.handshake ≡ some true
      → peer.peers_certificate ≡ some dns
      → s.shutting_down ≡ false
      → Admitted dns name s (joins_as db ts now s p peer fd name) p
  unfolding new_client make body_type get_client_names new_connection
  joins_as-Admitted db ts now s p peer fd dns name h e up =
      let k = accepted peer fd dns h e in
      let (object, kept, listed) =
        joined-kept db ts s p (accept_connection peer fd)
          (ap (λ (x : Connection F). x.messages) k) in
      let s' = new_client_connect db ts s p (accept_connection peer fd) in
      let names =
        ap (λ (x : FssClient F). x.conn.possible_names) object
        ∙ ap (λ (x : Connection F). x.possible_names) k in
      let new = ap (λ (x : FssClient F). x.identified) object in
      let decided =
        identity-Decided db now s' p (make (Body.identity name)) name new (kept ∙ up) refl refl in
      elim decided [
        | inl (may, known, flies, its_name, clients) ↦
            inl (subst (MayBe name) names may, known, flies, its_name, clients ∙ listed)
        | inr (refused, unknown, out) ↦
            inr (λ may. refused (subst (MayBe name) (sym names) may), unknown, out)
      ]

  -- A client whose handshake succeeds with certificates that hold no common name, the server not
  -- shutting down, is identified by any name: it is an aircraft of the name that it sends.
  pub joins_as_anyone :
      (db : Database F) (ts now : ℕ) (s : ServerClients F) (p : ℕ) (peer : Peer) (fd : ℕ)
      (dns : List (List ℕ)) (name : List ℕ)
      → peer.handshake ≡ some true
      → peer.peers_certificate ≡ some dns
      → s.shutting_down ≡ false
      → All (λ dn. common_name dn ≡ none) dns
      → (((joins_as db ts now s p peer fd name).objects p).identified ≡ true)
        × (((joins_as db ts now s p peer fd name).objects p).aircraft ≡ true)
        × (((joins_as db ts now s p peer fd name).objects p).name ≡ name)
  joins_as_anyone db ts now s p peer fd dns name h e up none_of =
      let any : MayBe name (certificate_names dns) =
        subst (MayBe name) (sym (unnamed_certificates dns none_of)) MayBe.unnamed in
      elim (joins_as-Admitted db ts now s p peer fd dns name h e up) [
        | inl (_, known, flies, its_name, _) ↦ (known, flies, its_name)
        | inr (refused, _, _) ↦ absurd (refused any)
      ]

  refused_socket :
      (peer : Peer) (fd : ℕ)
      → (peer.handshake ≡ none) ⊎ (peer.handshake ≡ some false)
      → accept_connection {F = F} peer fd ≡ record new_connection { fd = some fd }
  unfolding accept_connection setup_ssl_server new_connection
  refused_socket peer fd h = ground arith

  -- A client whose handshake fails: its connection cannot send and has no thread that receives, so
  -- no message will say that it is closed; it is listed all the same.
  pub refused_socket-listed :
      (db : Database F) (ts : ℕ) (s : ServerClients F) (p : ℕ) (peer : Peer) (fd : ℕ)
      → (peer.handshake ≡ none) ⊎ (peer.handshake ≡ some false)
      → let k = accept_connection peer fd in
        (k.usable ≡ false)
        × (k.receiving ≡ false)
        × ((new_client_connect db ts s p k).clients ≡ s.clients ++ p ∷ [])
  unfolding new_connection
  refused_socket-listed db ts s p peer fd h =
      let k = refused_socket peer fd h in
      let (_, _, listed) =
        joined-kept db ts s p (accept_connection peer fd)
          (ap (λ (x : Connection F). x.messages) k) in
      (ap (λ (x : Connection F). x.usable) k, ap (λ (x : Connection F). x.receiving) k, listed)
