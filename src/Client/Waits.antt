-- ===== src/Client/Waits.antt =====
-- How long `fss_server::reconnect` of src/client-ssl.cpp keeps off the network, on the clock of
-- src/fss-main.cpp.
use flight_safety_system.Base.{ℕ, ◌+◌, ◌*◌, ◌^◌, ◌≤◌, ◌<◌, ◌≡◌, true, List, arith}
use flight_safety_system.Floats.{Floats}
use flight_safety_system.Clock.{
  Timeval, fss_current_timestamp, microseconds, IsRepresentable, fss_current_timestamp_mono,
  fss_current_timestamp_elapsed,
}
use flight_safety_system.Connection.Connect.{Network}
use flight_safety_system.Client.{FssServer, reconnect}
use flight_safety_system.Client.Backoff.{
  Due, Unreachable, Reachable, next_delay, reconnect-reconnect,
}

fss_current_timestamp_fits : (tv : Timeval) → fss_current_timestamp tv < 2 ^ 64
unfolding fss_current_timestamp
fss_current_timestamp_fits tv = omega arith

module _ {F : Floats} where
  -- After an attempt that fails, a call that connects comes later by more than the new delay, in
  -- microseconds of the clock: each failure keeps the server off the network for its whole delay.
  pub reconnect_waits :
      (net net' : Network) (before after : Timeval) (name : List ℕ) (s : FssServer F)
      → Due s (fss_current_timestamp before)
      → Unreachable net s
      → IsRepresentable after
      → microseconds before ≤ microseconds after
      → (reconnect net'
          (fss_current_timestamp after)
          name
          (reconnect net (fss_current_timestamp before) name s).0).1
        ≡ true
      → microseconds before + 1000 * next_delay s.retry_delay < microseconds after
  reconnect_waits net net' before after name s due unreachable fits later h =
      let order = fss_current_timestamp_mono before after fits later in
      let (upper, lower) = fss_current_timestamp_elapsed before after fits later in
      let (waited, _) =
        (reconnect-reconnect net net' (fss_current_timestamp before) (fss_current_timestamp after)
            name s due unreachable order (fss_current_timestamp_fits after)).0
          h in
      omega arith

  -- A call that comes later by the new delay and two milliseconds connects, if the network lets it.
  reconnect_waits_no_longer :
      (net net' : Network) (before after : Timeval) (name : List ℕ) (s : FssServer F)
      → Due s (fss_current_timestamp before)
      → Unreachable net s
      → IsRepresentable after
      → microseconds before + 1000 * next_delay s.retry_delay + 2000 ≤ microseconds after
      → Reachable net' s
      → (reconnect net'
          (fss_current_timestamp after)
          name
          (reconnect net (fss_current_timestamp before) name s).0).1
        ≡ true
  reconnect_waits_no_longer net net' before after name s due unreachable fits long reachable =
      let later : microseconds before ≤ microseconds after = omega arith in
      let order = fss_current_timestamp_mono before after fits later in
      let (upper, lower) = fss_current_timestamp_elapsed before after fits later in
      (reconnect-reconnect net net' (fss_current_timestamp before) (fss_current_timestamp after)
          name s due unreachable order (fss_current_timestamp_fits after)).1
        (omega arith, reachable)
