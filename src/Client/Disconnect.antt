-- ===== src/Client/Disconnect.antt =====
-- `fss_client::disconnect` of src/client-ssl.cpp and `fss_message_cb::disconnect` of
-- src/transport-messages.cpp, which joins the receiving thread of a connection.
use flight_safety_system.Base.{
  ℕ, ◌≡◌, refl, ap, ◌∙◌, true, false, List, [], ◌∷◌, Option, none, some, arith, contains,
  contains-append, remove-contains, update-same, ==_iff,
}
use flight_safety_system.Floats.{Floats}
use flight_safety_system.Message.{Message, Body, make, body_type}
use flight_safety_system.Connection.{Connection}
use flight_safety_system.Client.{FssServer}
use flight_safety_system.Client.Servers.{
  FssClient, server_requires_reconnect, notify_connection_status,
}
use flight_safety_system.Client.Process.{put_server, process_closed, process_message}

-- How the loop of `disconnect` leaves a client: it returns, or it goes on from a node of the list
-- that has been erased, which is undefined.
pub data Disconnected (F : Floats) : Type 0 where
  returned erased : FssClient F → Disconnected F

module _ {F : Floats} where
  -- The client as it is then.
  abbrev pub client_of : Disconnected F → FssClient F
  client_of (Disconnected.returned c) = c
  client_of (Disconnected.erased c) = c

  -- What the receiving thread of the server at `p` hands over while it is joined.
  unfoldable pub hand_over_last : FssClient F → ℕ → List (Option (Message F)) → FssClient F
  hand_over_last c p [] = c
  hand_over_last c p (m ∷ messages) = hand_over_last (process_message c p m) p messages

  -- `fss_message_cb::disconnect` of the server at `p`: a thread that still runs when the socket is
  -- shut down gets the message that the connection is closed. Which messages come is an argument.
  unfoldable pub cb_disconnect : (ℕ → List (Option (Message F))) → FssClient F → ℕ → FssClient F
  unfolding hand_over_last
  cb_disconnect last c p = elim (c.objects p).conn [
    | none ↦ c
    | some k ↦
        let c = hand_over_last c p (last p) in put_server c p (record (c.objects p) { conn = none })
  ]

  -- The loop of `disconnect` over the nodes of `servers`; only the node of the server itself can
  -- leave the list meanwhile.
  unfoldable pub disconnect_each :
      (ℕ → List (Option (Message F))) → List ℕ → FssClient F → Disconnected F
  unfolding cb_disconnect
  disconnect_each last [] c = Disconnected.returned c
  disconnect_each last (p ∷ ps) c =
      let c = cb_disconnect last c p in
      elim (contains p c.servers) [
        | true ↦ disconnect_each last ps c
        | false ↦ Disconnected.erased c
      ]

  unfoldable pub client_disconnect : (ℕ → List (Option (Message F))) → FssClient F → Disconnected F
  unfolding disconnect_each
  client_disconnect last c = disconnect_each last c.servers c

  process_closed-lists :
      (c : FssClient F) (p : ℕ)
      → contains p c.servers ≡ true
      → (contains p (process_closed c p).servers ≡ false)
        × (contains p (process_closed c p).reconnect_servers ≡ true)
  unfolding process_closed server_requires_reconnect notify_connection_status
  process_closed-lists c p held =
      let r = remove-contains p c.servers in
      let a = contains-append p p c.reconnect_servers in
      let e = ==_iff p p in (ground arith, ground arith)

  cb_disconnect_closed :
      (last : ℕ → List (Option (Message F))) (c : FssClient F) (p : ℕ) (k : Connection F)
      → (c.objects p).conn ≡ some k
      → last p ≡ some (make Body.closed) ∷ []
      → cb_disconnect last c p
        ≡ put_server
            (process_closed c p)
            p
            (record ((process_closed c p).objects p) { conn = none })
  unfolding cb_disconnect hand_over_last process_message make body_type
  cb_disconnect_closed last c p k conn closes = rw (conn, cb_disconnect, closes) refl

  loop_erased :
      (last : ℕ → List (Option (Message F))) (c : FssClient F) (p : ℕ) (ps : List ℕ)
      → contains p (cb_disconnect last c p).servers ≡ false
      → disconnect_each last (p ∷ ps) c ≡ Disconnected.erased (cb_disconnect last c p)
  unfolding disconnect_each
  loop_erased last c p ps gone = rw (gone, disconnect_each) refl

  -- A client whose first connected server has a receiving thread that still runs, so that joining it
  -- hands over that the connection is closed: `disconnect` goes on from the node of that server, which
  -- has been erased from the list; by then the server waits to be connected again.
  pub client_disconnect_erased :
      (last : ℕ → List (Option (Message F))) (c : FssClient F) (p : ℕ) (ps : List ℕ)
      (k : Connection F)
      → c.servers ≡ p ∷ ps
      → (c.objects p).conn ≡ some k
      → last p ≡ some (make Body.closed) ∷ []
      → (d : FssClient F) × (client_disconnect last c ≡ Disconnected.erased d)
        × (contains p d.servers ≡ false)
        × (contains p d.reconnect_servers ≡ true)
        × ((d.objects p).conn ≡ none)
  unfolding client_disconnect disconnect_each
  client_disconnect_erased last c p ps k listed conn closes =
      let held : contains p c.servers ≡ true =
        ap (contains p) listed ∙ (let e = ==_iff p p in ground arith) in
      let (gone, waits) = process_closed-lists c p held in
      let d =
        put_server (process_closed c p) p
          (record ((process_closed c p).objects p) { conn = none }) in
      let each : disconnect_each last (p ∷ ps) c ≡ Disconnected.erased d =
        let closed = cb_disconnect_closed last c p k conn closes in
        loop_erased last c p ps (ap (λ (x : FssClient F). contains p x.servers) closed ∙ gone)
        ∙ ap (λ x. Disconnected.erased x) closed in
      (
        d,
        ap (λ l. disconnect_each last l c) listed ∙ each,
        gone,
        waits,
        ap (λ (s : FssServer F). s.conn)
            (update-same (process_closed c p).objects p
              (record ((process_closed c p).objects p) { conn = none })),
      )
