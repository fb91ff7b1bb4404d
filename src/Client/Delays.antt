-- ===== src/Client/Delays.antt =====
-- The delay between the attempts to connect to a server (src/client-ssl.cpp), under every operation.
use flight_safety_system.Base.{
  ℕ, ◌+◌, ◌≡◌, refl, sym, ap, ◌∙◌, ◌⊎◌, inl, inr, List, [], ◌∷◌, arith, ◌==◌, update, Bool-cases,
  subst,
}
use flight_safety_system.Floats.{Floats}
use flight_safety_system.Message.{Message}
use flight_safety_system.Connection.Connect.{Network}
use flight_safety_system.Client.{
  FssServer, retry_delay_start, cb_send, attempt, reconnect, reconnect_to,
}
use flight_safety_system.Client.Servers.{send_each}
use flight_safety_system.Client.Backoff.{next_delay, delay_after, next_delay_lem}

-- One of the delays that doubling from the first one gives.
abbrev pub IsDelay : ℕ → Type 0
IsDelay d = (k : ℕ) × (d ≡ delay_after k)

next_delay-IsDelay : (d : ℕ) → IsDelay d → IsDelay (next_delay d)
next_delay-IsDelay d (k, e) = (k + 1, ap next_delay e ∙ next_delay_lem k)

module _ {F : Floats} where
  reconnect-delays :
      (net : Network) (ts : ℕ) (name : List ℕ) (s : FssServer F)
      → ((reconnect net ts name s).0.retry_delay ≡ s.retry_delay)
        ⊎ ((reconnect net ts name s).0.retry_delay ≡ next_delay s.retry_delay)
        ⊎ ((reconnect net ts name s).0.retry_delay ≡ retry_delay_start)
  unfolding reconnect attempt reconnect_to
  reconnect-delays net ts name s = ground arith

  pub reconnect-IsDelay :
      (net : Network) (ts : ℕ) (name : List ℕ) (s : FssServer F)
      → IsDelay s.retry_delay
      → IsDelay (reconnect net ts name s).0.retry_delay
  reconnect-IsDelay net ts name s h = elim (reconnect-delays net ts name s) [
    | inl same ↦ subst IsDelay (sym same) h
    | inr (inl next) ↦ subst IsDelay (sym next) (next_delay-IsDelay s.retry_delay h)
    | inr (inr first) ↦ subst IsDelay (sym first) (0, refl)
  ]

  pub update-IsDelay :
      (objects : ℕ → FssServer F) (p : ℕ) (s : FssServer F)
      → ((q : ℕ) → IsDelay (objects q).retry_delay)
      → IsDelay s.retry_delay
      → (q : ℕ) → IsDelay (update objects p s q).retry_delay
  update-IsDelay objects p s h k q = elim (Bool-cases (q == p)) [
    | inl here ↦
        let e : update objects p s q ≡ s = ground arith in
        subst (λ (x : FssServer F). IsDelay x.retry_delay) (sym e) k
    | inr other ↦
        let e : update objects p s q ≡ objects q = ground arith in
        subst (λ (x : FssServer F). IsDelay x.retry_delay) (sym e) (h q)
  ]

  pub cb_send-delay :
      (s : FssServer F) (m : Message F) → (cb_send s m).0.retry_delay ≡ s.retry_delay
  unfolding cb_send
  cb_send-delay s m = ground arith

  abbrev pub AllDelays : (ℕ → FssServer F) → Type 0
  AllDelays objects = (p : ℕ) → IsDelay (objects p).retry_delay

  pub send_each-delays :
      (ps : List ℕ) (objects : ℕ → FssServer F) (m : Message F)
      → AllDelays objects
      → AllDelays (send_each ps objects m)
  unfolding send_each
  send_each-delays [] objects m d = d
  send_each-delays (p ∷ ps) objects m d =
      send_each-delays ps (update objects p (cb_send (objects p) m).0) (cb_send (objects p) m).1 (
        update-IsDelay objects p (cb_send (objects p) m).0 d
          (subst IsDelay (sym (cb_send-delay (objects p) m)) (d p)))
