-- ===== src/Examples/Runs.antt =====
-- Whole runs of the server and of the example client.
use flight_safety_system.Base.{
  ℕ, ◌+◌, ◌≡◌, refl, true, false, List, [], ◌∷◌, ◌++◌, none, some, arith, contains, be, ◌<◌, ◌^◌,
  subst, sym,
}
use flight_safety_system.Examples.Micro.{micro}
use flight_safety_system.Examples.Clients.{wire_to, craft, aircraft_client, state, database}
use flight_safety_system.Examples.Servers.{dead, live, waiting_server, craft_client}
use flight_safety_system.Message.{Body, Message, make, set_id}
use flight_safety_system.Message.Constructors.{new_system_status, new_search_status}
use flight_safety_system.Message.Pack.{get_packed}
use flight_safety_system.Connection.Accept.{Peer, ListenSocket}
use flight_safety_system.Server.Clients.{ServerClients, client_connected}
use flight_safety_system.Server.Process.{new_client_connect}
use flight_safety_system.Server.Process as ServerProcess
use flight_safety_system.Server.Registry.{WellFormed, Reach, Step}
use flight_safety_system.Server.Roster.{History, AllVouched, roster}
use flight_safety_system.Server.Roster.Refines.{reachable-History}
use flight_safety_system.Server.Outstanding.{rounds-outstanding}
use flight_safety_system.Server.Waiting.{waiting_for}
use flight_safety_system.Server.Silent.{AllSilent}
use flight_safety_system.Server.Stays.{new_client_connect-rounds}
use flight_safety_system.Server.Window.{joins_early, joins_early_anyone}
use flight_safety_system.Server.Main.{
  ServerConfig, Event, Round, MainState, no_clients, happen, happen_all, main_loop, started,
  end_main,
}
use flight_safety_system.Server.Main.Sound.{
  main-WellFormed, Tracked, connects-Tracked, started-Tracked,
}
use flight_safety_system.FakeClient as FakeClient
use flight_safety_system.FakeClient.{Constants}
use flight_safety_system.FakeClient.Reports.{reported, main_loop-reported}
use flight_safety_system.Client.Servers.{FssClient}
use flight_safety_system.Client.Invariant as ClientInvariant
use flight_safety_system.Client.Reconnect.{reached}
use flight_safety_system.Client.Disconnect.{
  Disconnected, client_disconnect, client_disconnect_erased,
}
use flight_safety_system.Client.Early.{attempt_with_close, attempts, closed_stays_listed}
use flight_safety_system.Exchange.{carried}
use flight_safety_system.Exchange.Settings.{settings_of, settings_at, servers_at, settings_exchange}
use flight_safety_system.Message.{SystemStatus, SearchStatus}
use flight_safety_system.Message.RoundTrip.Fields.{system_status_received}
use flight_safety_system.Message.Wire.{wire_size}
use flight_safety_system.Buffer.{align}
use flight_safety_system.Connection.{Connection, get_message_id, drain}
use flight_safety_system.Connection.Connect.{
  connect_to, convert_str_to_sa, resolve, open_socket, start_session, setup_ssl,
}
use flight_safety_system.Client.{ClientCall, reconnect, attempt, reconnect_to}
use flight_safety_system.Client.Servers.{update_servers}
use flight_safety_system.Client.Process as ClientProcess
use flight_safety_system.Server.{client_send, send_smm_settings, smm_message, get_servers_list_msg}
use flight_safety_system.Db.{
  Database, SmmSettings, asset_get_smm_settings, get_active_fss_servers, DbWrite,
}
use flight_safety_system.Exchange.Status.{status_at, search_at, status_exchange}

abbrev config : ServerConfig
config = record {
  port = 20202;
  ca_public_key = b'c' ∷ [];
  server_private_key = b'k' ∷ [];
  server_public_key = b'p' ∷ [];
}

abbrev bound : ListenSocket
bound = record { socket = some 3; bind = true; listen = true }

abbrev identity : Message micro
identity = make (Body.identity craft)

-- A client that connects and says who it is, and a round; then another that closes at once.
abbrev first_round : Round micro
first_round = record {
  events =
      Event.connects database 900 (wire_to (craft ∷ []))
      ∷ Event.receives database 901 0 (some identity)
      ∷ [];
  db = database;
  now = λ p. (1000, 1001);
}

abbrev last_events : List (Event micro)
last_events =
    Event.connects database 1500 (wire_to [])
    ∷ Event.receives database 1501 1 (some (make Body.closed))
    ∷ []

main-WellFormed_example :
    let s =
      end_main (happen_all last_events (main_loop (first_round ∷ []) (started config bound))) in
    WellFormed s.clients × AllVouched (roster s.clients)
main-WellFormed_example = main-WellFormed config bound (first_round ∷ []) last_events

abbrev joined : ServerClients micro
joined = new_client_connect database 900 state 4 (wire_to (craft ∷ []))

reachable-History_example :
    History
      (roster state)
      (roster (ServerProcess.process_message database 901 joined 4 (some identity)))
reachable-History_example =
    reachable-History {s = state}
      {s' = ServerProcess.process_message database 901 joined 4 (some identity)}
      (Reach.step
        (Reach.step Reach.start
          (Step.connects database 900 state 4 (wire_to (craft ∷ [])) refl refl))
        (Step.receives database 901 joined 4 (some identity)))

abbrev at_start : MainState micro
at_start = started config bound

abbrev with_guest : MainState micro
with_guest = happen (Event.connects database 900 (wire_to [])) at_start

with_guest-Tracked : Tracked with_guest
with_guest-Tracked =
    connects-Tracked database 900 (wire_to []) at_start (started-Tracked config bound)

-- A second client connects and says who it is, and then closes; the first says nothing.
abbrev busy_rounds : List (Round micro)
busy_rounds =
    record {
      events =
          Event.connects database 1000 (wire_to (craft ∷ []))
          ∷ Event.receives database 1001 1 (some identity)
          ∷ [];
      db = database;
      now = λ p. (1100, 1101);
    }
    ∷ record {
      events = Event.receives database 2001 1 (some (make Body.closed)) ∷ [];
      db = database;
      now = λ p. (2100, 2101);
    }
    ∷ []

busy_rounds-AllSilent : AllSilent 0 busy_rounds
busy_rounds-AllSilent = ((tt, ((λ e. omega (arith, e)), tt)), (((λ e. omega (arith, e)), tt), tt))

held_guest : contains 0 with_guest.clients.clients ≡ true
unfolding started no_clients happen new_client_connect client_connected drain
held_guest = refl

rounds-outstanding_example :
    waiting_for ((main_loop busy_rounds with_guest).clients.objects 0)
    ≡ waiting_for (with_guest.clients.objects 0) + 2
rounds-outstanding_example =
    rounds-outstanding busy_rounds with_guest 0 with_guest-Tracked held_guest busy_rounds-AllSilent

-- The connection of a client that has closed before it was handed over.
abbrev gone : Connection micro
gone = record (wire_to []) { messages = some (make Body.closed) ∷ []; receiving = false }

start-next_object : at_start.next_object ≡ 0
unfolding started
start-next_object = refl

new_client_connect-rounds_example :
    let s' = happen (Event.connects database 900 gone) at_start in
    (s'.clients.clients ≡ at_start.clients.clients ++ at_start.next_object ∷ [])
    × (contains at_start.next_object (main_loop busy_rounds s').clients.clients ≡ true)
new_client_connect-rounds_example =
    new_client_connect-rounds database 900 gone at_start busy_rounds (started-Tracked config bound)
      (subst (λ n. AllSilent n busy_rounds) (sym start-next_object) busy_rounds-AllSilent)

abbrev nobody : Peer
nobody = record { handshake = none; peers_certificate = none }

joins_early_anyone_example :
    let after = joins_early database 900 1000 state 4 nobody 7 craft in
    ((after.objects 4).identified ≡ true)
    × ((after.objects 4).aircraft ≡ true)
    × ((after.objects 4).name ≡ craft)
    × (after.clients ≡ (1 ∷ 2 ∷ 3 ∷ []) ++ 4 ∷ [])
joins_early_anyone_example = joins_early_anyone database 900 1000 state 4 nobody 7 craft refl

abbrev constants : Constants micro
constants = record { bat_voltage = 11400000; lat = 43500000; lng = 172500000 }

abbrev still : ℕ → FakeClient.Round micro
still t = record { received = []; nets = λ _. dead; now = λ _. t; timestamp = t }

-- The client of `craft_client`, its server at 0 connected.
abbrev online : FssClient micro
online = record craft_client { objects = λ p. record waiting_server { conn = some (wire_to []) } }

online-WellFormed : ClientInvariant.WellFormed online
online-WellFormed = record { each = λ p. ground arith; delays = λ p. (0, refl) }

main_loop-reported_example :
    let c' =
      (FakeClient.main_loop constants (still 1000 ∷ still 2000 ∷ still 3000 ∷ []) (online, 3)).0 in
    ((c'.objects 0).conn
      ≡ some (reported constants (still 1000 ∷ still 2000 ∷ still 3000 ∷ []) 3 (wire_to [])))
    × (contains 0 c'.servers ≡ true)
main_loop-reported_example =
    main_loop-reported constants (still 1000 ∷ still 2000 ∷ still 3000 ∷ []) 0 3 (wire_to []) online
      online-WellFormed refl refl refl (refl, (refl, (refl, tt)))

craft_client-WellFormed : ClientInvariant.WellFormed craft_client
craft_client-WellFormed = record { each = λ p. ground arith; delays = λ p. (0, refl) }

reached-live : reached (λ _. live) (λ _. 2000) craft_client.asset_name craft_client.objects 1 ≡ true
unfolding reconnect attempt connect_to convert_str_to_sa resolve reconnect_to open_socket
    start_session setup_ssl
reached-live = refl

closed_stays_listed_example :
    let c' = attempt_with_close (λ _. live) (λ _. 2000) 1 craft_client in
    ((attempts (((λ _. live), (λ _. 9000)) ∷ []) c').objects 1 ≡ c'.objects 1)
    × (contains 1 (attempts (((λ _. live), (λ _. 9000)) ∷ []) c').servers ≡ true)
    × (contains 1 (attempts (((λ _. live), (λ _. 9000)) ∷ []) c').reconnect_servers ≡ false)
closed_stays_listed_example =
    closed_stays_listed (λ _. live) (λ _. 2000) (((λ _. live), (λ _. 9000)) ∷ []) craft_client 1
      craft_client-WellFormed refl reached-live

-- The thread of each connection is still running when it is joined.
client_disconnect_erased_example :
    (d : FssClient micro) × (client_disconnect (λ p. some (make Body.closed) ∷ []) online
      ≡ Disconnected.erased d)
    × (contains 0 d.servers ≡ false)
    × (contains 0 d.reconnect_servers ≡ true)
    × ((d.objects 0).conn ≡ none)
client_disconnect_erased_example =
    client_disconnect_erased (λ p. some (make Body.closed) ∷ []) online 0 [] (wire_to []) refl refl
      refl

abbrev battery : SystemStatus micro
battery = record { bat_percent = 75; mah_used = 1000; voltage = 11400000 }

abbrev search : SearchStatus
search = record { search_id = 1; point_completed = 23; points_total = 100 }

status_exchange_example :
    let y = system_status_received micro battery in
    (carried (set_id {F = micro} (new_system_status 75 1000 11400000) 4)
      ≡ some (some (status_at 4 y)))
    × (ServerProcess.process_message database 1000 state 1 (some (status_at 4 y))
        ≡ record state { writes = [] ++ DbWrite.status_entry 8 75 1000 y.voltage ∷ [] })
    × (carried (set_id {F = micro} (new_search_status 1 23 100) 5)
        ≡ some (some (search_at 5 search)))
    × (ServerProcess.process_message database 1000 state 1 (some (search_at 5 search))
        ≡ record state { writes = [] ++ DbWrite.search_status_entry 8 1 23 100 ∷ [] })
status_exchange_example =
    status_exchange database 1000 state 1 4 5 75 1000 11400000 1 23 100 refl (omega arith)
      (omega arith) (omega arith) (omega arith) (omega arith) (omega arith) (omega arith)

abbrev smm : SmmSettings
smm = record { address = b'u' ∷ []; username = b'n' ∷ []; password = b'w' ∷ [] }

abbrev with_settings : Database micro
with_settings = record database {
  db_asset_smm_settings_get = λ _. some smm;
  db_active_fss_servers_get = (b'h' ∷ [], 20202) ∷ [];
}

known_settings : asset_get_smm_settings with_settings craft ≡ some smm
unfolding asset_get_smm_settings
known_settings = refl

smm-wire_size : wire_size {F = micro} (Body.smm_settings (settings_of smm)) < 2 ^ 16
unfolding be align
smm-wire_size = omega arith

servers-wire_size :
    wire_size {F = micro} (Body.server_list (get_active_fss_servers with_settings)) < 2 ^ 16
unfolding be align get_active_fss_servers
servers-wire_size = omega arith

settings_exchange_example :
    let n = (get_message_id (wire_to [])).0 in
    let settings = set_id {F = micro} (smm_message smm) n in
    let list = set_id (get_servers_list_msg with_settings) n in
    let servers = get_active_fss_servers with_settings in
    ((send_smm_settings with_settings aircraft_client).conn.sent ≡ [] ++ get_packed settings ∷ [])
    × (carried settings ≡ some (some (settings_at n smm)))
    × (ClientProcess.process_message craft_client 0 (some (settings_at n smm))
        ≡ record craft_client {
          calls = [] ++ ClientCall.handle_smm_settings (settings_of smm) ∷ [];
        })
    × ((client_send aircraft_client (get_servers_list_msg with_settings)).0.conn.sent
        ≡ [] ++ get_packed list ∷ [])
    × (carried list ≡ some (some (servers_at n servers)))
    × (ClientProcess.process_message craft_client 0 (some (servers_at n servers))
        ≡ update_servers craft_client servers)
settings_exchange_example =
    settings_exchange with_settings aircraft_client smm craft_client 0 known_settings refl
      smm-wire_size servers-wire_size
