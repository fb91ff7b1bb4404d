-- ===== src/Client/Backoff.antt =====
-- When `fss_server::reconnect` of src/client-ssl.cpp tries, and how the delay between two attempts
-- grows.
use flight_safety_system.Base.{
  ℕ, zero, suc, ◌+◌, ◌-◌, ◌*◌, ◌%◌, ◌^◌, ◌≤◌, ◌<◌, ◌≡◌, refl, sym, ap, ◌∙◌, Bool, ◌↔◌, true, false,
  List, [], ◌∷◌, none, arith, ltb, if◌then◌else◌, length, subst,
}
use flight_safety_system.Floats.{Floats}
use flight_safety_system.Connection.{new_connection}
use flight_safety_system.Connection.Connect.{Network, connect_to}
use flight_safety_system.Client.{
  FssServer, retry_delay_start, retry_delay_cap, reconnect_to, attempt, reconnect,
}

-- The delay after one more failure.
abbrev pub next_delay : ℕ → ℕ
next_delay d = if ltb d retry_delay_cap then (d + d) % 2 ^ 64 else d

-- The delay after `n` failures in a row: it doubles from one second, up to 32 seconds.
abbrev pub delay_after : ℕ → ℕ
delay_after n = if ltb n 5 then retry_delay_start * 2 ^ n else 32000

pub next_delay_lem : (n : ℕ) → next_delay (delay_after n) ≡ delay_after (n + 1)
next_delay_lem zero = refl
next_delay_lem (suc zero) = refl
next_delay_lem (suc (suc zero)) = refl
next_delay_lem (suc (suc (suc zero))) = refl
next_delay_lem (suc (suc (suc (suc zero)))) = refl
next_delay_lem (suc (suc (suc (suc (suc n))))) = ground arith

module _ {F : Floats} where
  -- The attempt is refused by the network: no address, no connection, or no handshake.
  abbrev pub Unreachable : Network → FssServer F → Type 0
  Unreachable net s = (connect_to {F = F} net new_connection s.address s.port).1 ≡ false

  abbrev pub Reachable : Network → FssServer F → Type 0
  Reachable net s = (connect_to {F = F} net new_connection s.address s.port).1 ≡ true

  -- The server behind an attempt that failed.
  abbrev pub after_failure : FssServer F → ℕ → FssServer F
  after_failure s ts = record s {
    conn = none;
    retry_count = (s.retry_count + 1) % 2 ^ 64;
    retry_delay = next_delay s.retry_delay;
    last_tried = ts;
  }

  attempt_fails :
      (net : Network) (ts : ℕ) (name : List ℕ) (s : FssServer F)
      → Unreachable net s
      → attempt net ts name s ≡ (after_failure s ts, false)
  unfolding attempt reconnect_to
  attempt_fails net ts name s h = ground arith

  pub attempt_succeeds :
      (net : Network) (ts : ℕ) (name : List ℕ) (s : FssServer F)
      → Reachable net s
      → ((attempt net ts name s).1 ≡ true)
        × ((attempt net ts name s).0.retry_delay ≡ retry_delay_start)
        × ((attempt net ts name s).0.retry_count ≡ 0)
        × ((attempt net ts name s).0.last_tried ≡ 0)
  unfolding attempt reconnect_to
  attempt_succeeds net ts name s h = ground arith

  -- An attempt is due: more time has passed since the last one than the delay.
  abbrev pub Due : FssServer F → ℕ → Type 0
  Due s ts = ltb s.retry_delay ((ts + 2 ^ 64 - s.last_tried) % 2 ^ 64) ≡ true

  pub reconnect-Due :
      (net : Network) (ts : ℕ) (name : List ℕ) (s : FssServer F)
      → Due s ts
      → reconnect net ts name s ≡ attempt net ts name (record s { conn = none })
  unfolding reconnect
  reconnect-Due net ts name s h = ground arith

  reconnect_fails :
      (net : Network) (ts : ℕ) (name : List ℕ) (s : FssServer F)
      → Due s ts
      → Unreachable net s
      → reconnect net ts name s ≡ (after_failure s ts, false)
  reconnect_fails net ts name s due h =
      reconnect-Due net ts name s due ∙ attempt_fails net ts name (record s { conn = none }) h

  -- The server behind calls of `reconnect`, one after the other.
  abbrev pub reconnects : List ℕ → FssServer F → List (Network × ℕ) → FssServer F
  reconnects name s [] = s
  reconnects name s ((net, ts) ∷ rest) = reconnects name (reconnect net ts name s).0 rest

  -- Each of the calls is due, and the network refuses it.
  abbrev pub Failures : List ℕ → FssServer F → List (Network × ℕ) → Type 0
  Failures name s [] = Unit {0}
  Failures name s ((net, ts) ∷ rest) =
      Due s ts × Unreachable net s × Failures name (reconnect net ts name s).0 rest

  reconnects_count :
      (name : List ℕ) (s : FssServer F) (calls : List (Network × ℕ)) (n : ℕ)
      → s.retry_delay ≡ delay_after n
      → s.retry_count ≡ n
      → n + length calls < 2 ^ 64
      → Failures name s calls
      → ((reconnects name s calls).retry_delay ≡ delay_after (n + length calls))
        × ((reconnects name s calls).retry_count ≡ n + length calls)
  reconnects_count name s [] n d c room f = (d ∙ ap delay_after (omega arith), omega arith)
  reconnects_count name s ((net, ts) ∷ rest) n d c room (due, unreachable, f) =
      let e = reconnect_fails net ts name s due unreachable in
      let s' : FssServer F = after_failure s ts in
      let moved = ap (λ (r : FssServer F × Bool). r.0) e in
      let (delay, count) =
        reconnects_count name s' rest (n + 1) (ap next_delay d ∙ next_delay_lem n) (omega arith)
          (omega arith) (subst (λ (x : FssServer F). Failures name x rest) moved f) in
      let k : n + 1 + length rest ≡ n + suc (length rest) = omega arith in
      (
        ap (λ (x : FssServer F). (reconnects name x rest).retry_delay) moved
            ∙ delay
            ∙ ap delay_after k,
        ap (λ (x : FssServer F). (reconnects name x rest).retry_count) moved ∙ count ∙ k,
      )

  -- After any number of attempts that fail, from a server whose delay is the first one, the delay is
  -- 1000 ms doubled for each failure, but 32000 ms from the fifth on, and the count is the number of
  -- the failures.
  pub reconnects-delay_after :
      (name : List ℕ) (s : FssServer F) (calls : List (Network × ℕ))
      → s.retry_delay ≡ retry_delay_start
      → s.retry_count ≡ 0
      → length calls < 2 ^ 64
      → Failures name s calls
      → ((reconnects name s calls).retry_delay ≡ delay_after (length calls))
        × ((reconnects name s calls).retry_count ≡ length calls)
  reconnects-delay_after name s calls d c room f =
      let (delay, count) = reconnects_count name s calls 0 d c (omega arith) f in
      (delay ∙ ap delay_after (omega arith), count ∙ omega arith)

  reconnect_later :
      (net : Network) (later : ℕ) (name : List ℕ) (s : FssServer F)
      → s.conn ≡ none
      → s.last_tried ≤ later
      → later < 2 ^ 64
      → ((reconnect net later name s).1 ≡ true)
        ↔ ((s.last_tried + s.retry_delay < later) × Reachable net s)
  unfolding reconnect attempt reconnect_to
  reconnect_later net later name s gone order small =
      (λ h. (ground arith, ground arith), λ h. ground arith)

  -- An attempt that fails keeps the server off the network for its new delay: a later call connects
  -- exactly if more time than that has passed and the network then lets it.
  pub reconnect-reconnect :
      (net net' : Network) (ts later : ℕ) (name : List ℕ) (s : FssServer F)
      → Due s ts
      → Unreachable net s
      → ts ≤ later
      → later < 2 ^ 64
      → ((reconnect net' later name (reconnect net ts name s).0).1 ≡ true)
        ↔ ((ts + next_delay s.retry_delay < later) × Reachable net' s)
  reconnect-reconnect net net' ts later name s due unreachable order small =
      let moved =
        ap (λ (r : FssServer F × Bool). r.0) (reconnect_fails net ts name s due unreachable) in
      subst
        (λ (x : FssServer F).
          ((reconnect net' later name x).1 ≡ true)
          ↔ ((ts + next_delay s.retry_delay < later) × Reachable net' s))
        (sym moved) (reconnect_later net' later name (after_failure s ts) refl order small)
