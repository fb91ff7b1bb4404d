-- ===== src/Server/Main.antt =====
-- `main` of src/server.cpp: the start, the loop, and the end.
pub mod Sound
pub mod Starts
use flight_safety_system.Base.{
  ℕ, ◌+◌, ◌%◌, ◌^◌, Bool, true, false, ◌||◌, List, [], ◌∷◌, Option, none, some, if◌then◌else◌,
}
use flight_safety_system.Floats.{Floats}
use flight_safety_system.Message.{Message}
use flight_safety_system.Connection.{Connection, new_connection, disconnect}
use flight_safety_system.Connection.Accept.{ListenSocket, start_listening}
use flight_safety_system.Db.{Database}
use flight_safety_system.Server.{new_client}
use flight_safety_system.Server.Clients.{ServerClients, shut_down}
use flight_safety_system.Server.Process.{new_client_connect, process_message, periodic}

-- What the configuration file holds, but for the access to the database; a text that is missing is
-- empty.
pub record ServerConfig : Type 0 where
  pub port : ℕ
  pub ca_public_key : List ℕ
  pub server_private_key : List ℕ
  pub server_public_key : List ℕ

-- `transport_ssl::fss_listen`.
pub record TlsListen (F : Floats) : Type 0 where
  pub conn : Connection F
  pub port : ℕ
  pub ca_file : List ℕ
  pub private_key_file : List ℕ
  pub public_key_file : List ℕ

abbrev is_empty_text : List ℕ → Bool
is_empty_text [] = true
is_empty_text (x ∷ xs) = false

-- What happens to the clients while `main` sleeps: a socket is accepted, or a message of a client is
-- received, with what the database then answers and the time.
pub data Event (F : Floats) : Type 0 where
  connects : Database F → ℕ → Connection F → Event F
  receives : Database F → ℕ → ℕ → Option (Message F) → Event F

-- A sleep of the loop, and what is read in the round behind it.
pub record Round (F : Floats) : Type 0 where
  pub events : List (Event F)
  pub db : Database F
  pub now : ℕ → ℕ × ℕ

-- `next_object` is the address of the next client object; those below it have been given out.
pub record MainState (F : Floats) : Type 0 where
  pub listen : TlsListen F
  pub clients : ServerClients F
  pub next_object : ℕ
  pub counter : ℕ

module _ {F : Floats} where
  -- The constructor of `transport_ssl::fss_listen`: that of the base class drops the result of
  -- `startListening`.
  unfoldable pub new_listen : ListenSocket → ℕ → List ℕ → List ℕ → List ℕ → TlsListen F
  unfolding new_connection start_listening
  new_listen k t_port t_ca t_private_key t_public_key = record {
    conn = (start_listening k new_connection).0;
    port = t_port;
    ca_file = t_ca;
    private_key_file = t_private_key;
    public_key_file = t_public_key;
  }

  -- `server_clients()`; no object is in use.
  unfoldable pub no_clients : ServerClients F
  unfolding new_client new_connection
  no_clients = record {
    objects = λ p. new_client new_connection;
    clients = [];
    disconnected = [];
    total_clients = 0;
    shutting_down = false;
    writes = [];
  }

  -- Up to the loop, where nothing is missing. The port becomes a `uint16_t`.
  unfoldable pub started : ServerConfig → ListenSocket → MainState F
  unfolding new_listen no_clients
  started config k = record {
    listen =
        new_listen k (config.port % 2 ^ 16) config.ca_public_key config.server_private_key
          config.server_public_key;
    clients = no_clients;
    next_object = 0;
    counter = 0;
  }

  -- `none` stands for `exit(-1)`; a file that cannot be opened is `none` too.
  unfoldable pub start : Option ServerConfig → ListenSocket → Option (MainState F)
  unfolding started
  start none k = none
  start (some config) k =
      if is_empty_text config.ca_public_key
        || is_empty_text config.server_private_key
        || is_empty_text config.server_public_key
      then none
      else some (started config k)

  unfoldable pub happen : Event F → MainState F → MainState F
  happen (Event.connects db ts conn) s = record s {
    clients = new_client_connect db ts s.clients s.next_object conn;
    next_object = s.next_object + 1;
  }
  happen (Event.receives db ts p m) s = record s { clients = process_message db ts s.clients p m }

  unfoldable pub happen_all : List (Event F) → MainState F → MainState F
  unfolding happen
  happen_all [] s = s
  happen_all (e ∷ es) s = happen_all es (happen e s)

  unfoldable pub loop_round : Round F → MainState F → MainState F
  unfolding happen_all
  loop_round r s =
      let s = happen_all r.events s in
      record s { clients = periodic r.db r.now s.counter s.clients; counter = s.counter + 1 }

  unfoldable pub main_loop : List (Round F) → MainState F → MainState F
  unfolding loop_round
  main_loop [] s = s
  main_loop (r ∷ rs) s = main_loop rs (loop_round r s)

  -- The end of `main`: the listening socket goes first, then the clients.
  unfoldable pub end_main : MainState F → MainState F
  unfolding disconnect
  end_main s =
      let listen = s.listen in
      record s {
        listen = record listen { conn = disconnect listen.conn };
        clients = shut_down s.clients;
      }
