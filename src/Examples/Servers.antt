-- ===== src/Examples/Servers.antt =====
-- A client with servers at three addresses, on networks that refuse and that connect.
use flight_safety_system.Base.{
  ℕ, ◌+◌, ◌*◌, ◌≤◌, ◌<◌, ◌≡◌, refl, true, false, List, [], ◌∷◌, ◌++◌, none, some, arith, ◌==◌,
  if◌then◌else◌, not, length, contains, count,
}
use flight_safety_system.Examples.Micro.{micro}
use flight_safety_system.Message.{Body, make}
use flight_safety_system.Connection.{Connection}
use flight_safety_system.Connection.Connect.{Network, convert_str_to_sa, connect_to, resolve}
use flight_safety_system.Connection.Names.{
  IsEnd, LacksPrefix, cn_prefix, common_name, common_name_first, find-LacksPrefix, find,
  starts_with,
}
use flight_safety_system.Clock.{Timeval, fss_current_timestamp, microseconds}
use flight_safety_system.Client.Waits.{reconnect_waits}
use flight_safety_system.Client.{TlsFiles, FssServer, ClientCall, reconnect, attempt, reconnect_to}
use flight_safety_system.Client.Servers.{
  FssClient, Config, attempt_reconnect, update_servers, client_of_config, status_of, is_empty,
}
use flight_safety_system.Client.Disconnect.{client_of, client_disconnect}
use flight_safety_system.Client.Recovery.{after_close, close-attempt_reconnect}
use flight_safety_system.Client.Backoff.{Reachable}
use flight_safety_system.Connection.Connect.{open_socket, start_session, setup_ssl}
use flight_safety_system.Connection.Accept.{Peer}
use flight_safety_system.Client.Backoff.{
  Due, Unreachable, Reachable, Failures, delay_after, reconnects, reconnects-delay_after,
}
use flight_safety_system.Client.Reconnect.{those, reached, retried, attempt_reconnect-those}
use flight_safety_system.Client.Known.{InUse, known, listed, update_servers-known}
use flight_safety_system.Client.Extends.{Extends}
use flight_safety_system.Client.Registry.{Step, Reach, reachable_client-WellFormed}
use flight_safety_system.Client.Invariant.{WellFormed}

abbrev pub dead : Network
dead = record {
  inet_pton_v4 = λ _. none;
  inet_pton_v6 = λ _. none;
  getaddrinfo = λ _. none;
  socket = some 5;
  connect = λ _ _. false;
  handshake = λ _. none;
}

abbrev pub live : Network
live = record dead {
  inet_pton_v6 = λ text. some (text ++ text);
  connect = λ _ _. true;
  handshake = λ _. some true;
}

abbrev mute : Peer
mute = record { handshake = none; peers_certificate = none }

abbrev pub home : List ℕ
home = b'h' ∷ b'1' ∷ []

abbrev fresh : Connection micro
fresh = record {
  fd = none;
  last_msg_id = 0;
  handler = false;
  messages = [];
  usable = false;
  possible_names = [];
  hostname = [];
  receiving = false;
  sent = [];
}

-- A country, and an organisation whose name holds the text that the search is for.
abbrev country : List ℕ
country = b'C' ∷ b'=' ∷ b'N' ∷ b'Z' ∷ b',' ∷ b'O' ∷ b'=' ∷ []

country-LacksPrefix : LacksPrefix country
country-LacksPrefix = find-LacksPrefix country (unfold find starts_with in refl)

common_name_first_example :
    common_name (country ++ (cn_prefix ++ (home ++ (b',' ∷ b'C' ∷ b'N' ∷ b'=' ∷ b'x' ∷ []))))
    ≡ some home
common_name_first_example =
    common_name_first country home (b',' ∷ b'C' ∷ b'N' ∷ b'=' ∷ b'x' ∷ []) country-LacksPrefix
      (omega arith, (omega arith, tt)) (IsEnd.comma (b'C' ∷ b'N' ∷ b'=' ∷ b'x' ∷ []))

abbrev key_files : TlsFiles
key_files = record { ca_file = []; private_key_file = []; public_key_file = [] }

abbrev pub waiting_server : FssServer micro
waiting_server = record {
  address = home;
  port = 20202;
  files = key_files;
  conn = none;
  last_tried = 0;
  retry_count = 0;
  retry_delay = 1000;
}

dead_twice : Failures [] waiting_server ((dead, 2000) ∷ (dead, 5000) ∷ [])
unfolding connect_to convert_str_to_sa resolve reconnect attempt reconnect_to
dead_twice = (refl, refl, (refl, refl, tt))

reconnects-delay_after_example :
    ((reconnects [] waiting_server ((dead, 2000) ∷ (dead, 5000) ∷ [])).retry_delay ≡ delay_after 2)
    × ((reconnects [] waiting_server ((dead, 2000) ∷ (dead, 5000) ∷ [])).retry_count ≡ 2)
reconnects-delay_after_example =
    reconnects-delay_after [] waiting_server ((dead, 2000) ∷ (dead, 5000) ∷ []) refl refl
      (omega arith) dead_twice

dead-Unreachable : Unreachable dead waiting_server
unfolding connect_to convert_str_to_sa resolve
dead-Unreachable = refl

abbrev first_try : Timeval
first_try = record { tv_sec = 2; tv_usec = 900 }

abbrev second_try : Timeval
second_try = record { tv_sec = 4; tv_usec = 1000 }

second_try_connects :
    (reconnect live
      (fss_current_timestamp second_try)
      []
      (reconnect dead (fss_current_timestamp first_try) [] waiting_server).0).1
    ≡ true
unfolding connect_to convert_str_to_sa resolve reconnect attempt reconnect_to fss_current_timestamp
    open_socket setup_ssl start_session
second_try_connects = refl

first_try-Due : Due waiting_server (fss_current_timestamp first_try)
unfolding fss_current_timestamp
first_try-Due = refl

reconnect_waits_example : microseconds first_try + 1000 * 2000 < microseconds second_try
reconnect_waits_example =
    reconnect_waits dead live first_try second_try [] waiting_server first_try-Due dead-Unreachable
      (omega arith) (omega arith) second_try_connects

-- A connected server at 0; 1 and 2 wait.
abbrev pub craft_client : FssClient micro
craft_client = record {
  asset_name = b'A' ∷ [];
  files = key_files;
  objects = λ p. waiting_server;
  next_object = 3;
  servers = 0 ∷ [];
  reconnect_servers = 1 ∷ 2 ∷ [];
  calls = [];
}

once_each : (q : ℕ) → count q craft_client.reconnect_servers ≤ 1
once_each q = ground arith

attempt_reconnect-those_example :
    let nets : ℕ → Network = λ p. if p == 2 then live else dead in
    let now : ℕ → ℕ = λ p. 2000 + p in
    let moved = those (reached nets now (b'A' ∷ []) craft_client.objects) (1 ∷ 2 ∷ []) in
    let c' = attempt_reconnect nets now craft_client in
    (c'.servers ≡ (0 ∷ []) ++ moved)
    × (c'.reconnect_servers
        ≡ those (λ q. not (reached nets now (b'A' ∷ []) craft_client.objects q)) (1 ∷ 2 ∷ []))
    × ((q : ℕ)
        → c'.objects q ≡ (
            if contains q (1 ∷ 2 ∷ [])
            then retried nets now (b'A' ∷ []) craft_client.objects q
            else waiting_server))
    × (c'.calls
        ≡ []
          ++ (if is_empty moved
              then []
              else ClientCall.connection_status_change (status_of (length ((0 ∷ []) ++ moved)))
                ∷ []))
attempt_reconnect-those_example =
    attempt_reconnect-those (λ p. if p == 2 then live else dead) (λ p. 2000 + p) craft_client
      once_each

craft_client-InUse : InUse craft_client
craft_client-InUse = record {
  servers = λ p h. ground arith;
  reconnect_servers = λ p h. ground arith;
}

abbrev told : List (List ℕ × ℕ)
told = (home, 20202) ∷ (b'x' ∷ [], 20203) ∷ (b'x' ∷ [], 20203) ∷ []

update_servers-known_example :
    ((address : List ℕ) (port : ℕ)
      → known (update_servers craft_client told) address port ≡ (
          if known craft_client address port == 0
          then (if listed told address port then 1 else 0)
          else known craft_client address port))
    × Extends craft_client (update_servers craft_client told)
update_servers-known_example = update_servers-known craft_client told craft_client-InUse

abbrev config : Config
config = record { name = b'A' ∷ []; files = key_files; servers = (home, 20202) ∷ [] }

abbrev configured : FssClient micro
configured = client_of_config (some config)

abbrev after_attempt : FssClient micro
after_attempt = attempt_reconnect (λ _. live) (λ _. 2000) configured

-- The connection closes while its thread is joined.
abbrev after_disconnect : FssClient micro
after_disconnect = client_of (client_disconnect (λ p. some (make Body.closed) ∷ []) after_attempt)

reachable_client-WellFormed_example : WellFormed after_disconnect
reachable_client-WellFormed_example = reachable_client-WellFormed (some config) after_disconnect (
    Reach.then after_attempt after_disconnect
      (Reach.then configured after_attempt Reach.start
        (Step.attempts configured (λ _. live) (λ _. 2000)))
      (Step.disconnects after_attempt (λ p. some (make Body.closed) ∷ [])))

once_connected : count 0 craft_client.servers ≤ 1
once_connected = omega arith

craft_client-WellFormed : WellFormed craft_client
craft_client-WellFormed = record { each = λ p. ground arith; delays = λ p. (0, refl) }

pub live-Reachable : Reachable live waiting_server
unfolding connect_to convert_str_to_sa resolve open_socket start_session setup_ssl
live-Reachable = refl

close-attempt_reconnect_example :
    let waiting = after_close craft_client 0 in
    let c' = attempt_reconnect (λ _. live) (λ _. 2000) waiting in
    (contains 0 waiting.servers ≡ false)
    × (contains 0 waiting.reconnect_servers ≡ true)
    × (contains 0 c'.servers ≡ true)
    × (contains 0 c'.reconnect_servers ≡ false)
close-attempt_reconnect_example =
    close-attempt_reconnect (λ _. live) (λ _. 2000) craft_client 0 craft_client-WellFormed refl
      live-Reachable (omega arith) (omega arith)

-- A callback that counts, and two sockets with a failed call between them.
abbrev counts : ℕ → Connection micro → ℕ
counts n c = n + 1

abbrev nothing_yet : ℕ × List ℕ
nothing_yet = (0, [])
