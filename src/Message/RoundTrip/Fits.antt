-- ===== src/Message/RoundTrip/Fits.antt =====
-- A message whose length fits two bytes holds no text whose length does not.
use flight_safety_system.Base.{
  ℕ, ◌+◌, ◌^◌, ◌≤◌, ◌<◌, List, [], ◌∷◌, ◌++◌, arith, length, be, All, length-append, length-be,
}
use flight_safety_system.Floats.{Floats}
use flight_safety_system.Buffer.{align}
use flight_safety_system.Buffer.Cursor.{packed_string, length-packed_string}
use flight_safety_system.Message.{Body, SmmSettingsMessage}
use flight_safety_system.Message.Wire.{FitsText, wire_size, servers_payload, smm_payload}

length-le-packed_string :
    (offset : ℕ) (text : List ℕ) → length text ≤ length (packed_string offset text)
length-le-packed_string offset text =
    unfold align in omega (arith, length-packed_string offset text)

servers_fit :
    (offset : ℕ) (servers : List (List ℕ × ℕ))
    → length (servers_payload offset servers) < 2 ^ 16
    → All (λ (s : List ℕ × ℕ). length s.0 < 2 ^ 16) servers
servers_fit offset [] h = tt
servers_fit offset ((address, port) ∷ servers) h =
    let next = align (offset + 4 + length address) in
    let parts = length-append (packed_string (offset + 2) address) (servers_payload next servers) in
    let whole =
      length-append (be 2 port)
        (packed_string (offset + 2) address ++ servers_payload next servers) in
    (
      omega (arith, whole, parts, length-le-packed_string (offset + 2) address),
      servers_fit next servers (omega (arith, whole, parts)),
    )

smm_fit :
    (s : SmmSettingsMessage)
    → length (smm_payload s) < 2 ^ 16
    → (length s.server_url < 2 ^ 16) × (length s.username < 2 ^ 16) × (length s.password < 2 ^ 16)
smm_fit s h =
    let user = align (14 + length s.server_url) in
    let pass = align (user + 2 + length s.username) in
    omega (
      arith,
      length-append (packed_string 12 s.server_url)
          (packed_string user s.username ++ packed_string pass s.password),
      length-append (packed_string user s.username) (packed_string pass s.password),
      length-le-packed_string 12 s.server_url,
      length-le-packed_string user s.username,
      length-le-packed_string pass s.password,
    )

pub FitsText-wire_size : {F : Floats} (b : Body F) → wire_size b < 2 ^ 16 → FitsText b
FitsText-wire_size Body.closed h = tt
FitsText-wire_size (Body.identity name) h = omega arith
FitsText-wire_size (Body.position_report p) h = omega (arith, simp (length-append, length-be) at h)
FitsText-wire_size (Body.smm_settings s) h = smm_fit s (omega arith)
FitsText-wire_size (Body.server_list servers) h = servers_fit 12 servers (omega arith)
FitsText-wire_size _ h = tt
