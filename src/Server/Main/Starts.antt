-- ===== src/Server/Main/Starts.antt =====
-- When `main` of src/server.cpp starts, and what becomes of a socket that does not listen.
use flight_safety_system.Base.{
  ◌+◌, ◌≡◌, ◌≢◌, ◌↔◌, refl, ap, ◌∙◌, ◌&&◌, List, [], ◌∷◌, none, some, arith, length,
}
use flight_safety_system.Floats.{Floats}
use flight_safety_system.Connection.{new_connection}
use flight_safety_system.Connection.Accept.{ListenSocket, start_listening}
use flight_safety_system.Server.Main.{
  ServerConfig, TlsListen, Event, Round, MainState, new_listen, started, start, happen, happen_all,
  loop_round, main_loop,
}

-- A configuration that names the three files of TLS.
pub record IsComplete (config : ServerConfig) : Type 0 where
  pub ca : config.ca_public_key ≢ []
  pub private_key : config.server_private_key ≢ []
  pub public_key : config.server_public_key ≢ []

module _ (F : Floats) where
  start-IsComplete :
      (config : ServerConfig) (k : ListenSocket)
      → IsComplete config
      → start {F = F} (some config) k ≡ some (started config k)
  unfolding start
  start-IsComplete config k c =
      let a = c.ca in let b = c.private_key in let d = c.public_key in ground arith

  IsComplete-start :
      (config : ServerConfig) (k : ListenSocket) (s : MainState F)
      → start (some config) k ≡ some s
      → IsComplete config
  unfolding start
  IsComplete-start config k s h = record {
    ca = λ e. ground arith;
    private_key = λ e. ground arith;
    public_key = λ e. ground arith;
  }

  started-receiving :
      (config : ServerConfig) (k : ListenSocket)
      → (started {F = F} config k).listen.conn.receiving ≡ (k.bind && k.listen)
  unfolding started new_listen start_listening new_connection
  started-receiving config k = ground arith

  happen_all-listen :
      (es : List (Event F)) (s : MainState F)
      → ((happen_all es s).listen ≡ s.listen) × ((happen_all es s).counter ≡ s.counter)
  unfolding happen_all happen
  happen_all-listen [] s = (refl, refl)
  happen_all-listen (Event.connects db ts conn ∷ es) s =
      happen_all-listen es (happen (Event.connects db ts conn) s)
  happen_all-listen (Event.receives db ts p m ∷ es) s =
      happen_all-listen es (happen (Event.receives db ts p m) s)

  main_loop-listen :
      (rs : List (Round F)) (s : MainState F)
      → ((main_loop rs s).listen ≡ s.listen) × ((main_loop rs s).counter ≡ s.counter + length rs)
  unfolding main_loop loop_round
  main_loop-listen [] s = (refl, omega arith)
  main_loop-listen (r ∷ rs) s =
      let (same, n) = main_loop-listen rs (loop_round r s) in
      let (kept, m) = happen_all-listen r.events s in (same ∙ kept, omega (arith, n, m))

  -- `main` starts exactly when there is a configuration that names the three files of TLS; then,
  -- whatever the socket answers, it goes through all its rounds, and a thread accepts connections,
  -- then as at the start, exactly when the socket was bound and listens.
  pub start-rounds :
      (config : ServerConfig) (k : ListenSocket) (rs : List (Round F))
      → (start {F = F} none k ≡ none)
        × (IsComplete config ↔ ((s : MainState F) × (start (some config) k ≡ some s)))
        × (IsComplete config → start {F = F} (some config) k ≡ some (started config k))
        × ((main_loop rs (started config k)).counter ≡ length rs)
        × ((main_loop rs (started config k)).listen.conn.receiving ≡ (k.bind && k.listen))
  unfolding start started
  start-rounds config k rs =
      let (same, n) = main_loop-listen rs (started config k) in
      (
        refl,
        (
          λ c. (started config k, start-IsComplete config k c),
          λ h. IsComplete-start config k h.0 h.1,
        ),
        start-IsComplete config k,
        omega (arith, n),
        ap (λ (l : TlsListen F). l.conn.receiving) same ∙ started-receiving config k,
      )
