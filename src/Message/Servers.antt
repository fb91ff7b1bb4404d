-- ===== src/Message/Servers.antt =====
-- The loop of `fss_message_server_list::unpackData` in src/transport-messages.cpp.
use flight_safety_system.Base.{
  ℕ, zero, suc, ◌+◌, ◌^◌, ◌≤◌, ◌<◌, ◌≡◌, refl, sym, ap, subst, ◌∙◌, ◌≢◌, inl, inr, List, [], ◌∷◌,
  ◌++◌, true, none, some, arith, leb, le→leb, lt→leb, Bool-cases, Option-cases, length, be, All,
  length-append, length-be, append-nil,
}
use flight_safety_system.Buffer.{BufLen, get_data, load, remaining, align}
use flight_safety_system.Buffer.Cursor.{
  At, At-start, At-next, remaining-At, load-At, load_text-At, packed_string, length-packed_string,
  loads-packed_string, length-packed_string-ge,
}
use flight_safety_system.Message.Unpack.{
  Scan, cons_scan, unpack_server, unpack_servers, unpack_server_list,
}
use flight_safety_system.Message.Wire.{servers_payload}

load_bound :
    (n : ℕ) (bl : BufLen) (offset : ℕ) {v : ℕ}
    → load n bl offset ≡ some v
    → offset + n ≤ length bl + 1
unfolding load get_data
load_bound n bl offset e = ground (arith, length-append bl (0 ∷ []))

-- A server that is read starts inside the buffer, and the offset moves.
unpack_server_bound :
    (bl : BufLen) (offset : ℕ) (server : List ℕ × ℕ) (next : ℕ)
    → unpack_server bl offset ≡ some (server, next)
    → (offset + 2 ≤ length bl + 1) × (offset < next)
unfolding unpack_server align
unpack_server_bound bl offset server next e = elim (Option-cases (load 2 bl offset)) [
  | inl fails ↦ cc (rw fails at e)
  | inr (port, reads) ↦ (load_bound 2 bl offset reads, ground arith)
]

cons_scan-stuck :
    (server : List ℕ × ℕ) (s : Scan) → cons_scan server s ≡ Scan.stuck → s ≡ Scan.stuck
cons_scan-stuck server (Scan.done servers) e = cc
cons_scan-stuck server Scan.fault e = cc
cons_scan-stuck server Scan.stuck e = refl

unpack_servers-ne-stuck :
    (fuel : ℕ) (bl : BufLen) (offset : ℕ)
    → 0 < fuel
    → length bl + 2 ≤ offset + fuel
    → unpack_servers fuel bl offset ≢ Scan.stuck
unfolding unpack_servers
unpack_servers-ne-stuck zero bl offset pos h = absurd (omega arith)
unpack_servers-ne-stuck (suc fuel) bl offset pos h =
    elim (Bool-cases (leb 4 (remaining bl offset))) [
      | inr ends ↦ rw (ends, unpack_servers) (λ e. cc)
      | inl more ↦ elim (Option-cases (unpack_server bl offset)) [
        | inl fails ↦ rw (more, unpack_servers, fails) (λ e. cc)
        | inr ((server, next), reads) ↦
            let (inside, moves) = unpack_server_bound bl offset server next reads in
            let rest = unpack_servers-ne-stuck fuel bl next (omega arith) (omega arith) in
            rw (more, unpack_servers, reads) (λ e. rest (cons_scan-stuck server _ e))
      ]
    ]

-- A round that starts behind the end of the buffer reads outside it.
unpack_servers_behind :
    (fuel : ℕ) (bl : BufLen) (offset : ℕ)
    → length bl < offset
    → offset < 2 ^ 63
    → unpack_servers (suc fuel) bl offset ≡ Scan.fault
unfolding unpack_servers unpack_server load remaining get_data
unpack_servers_behind fuel bl offset h k = ground (arith, length-append bl (0 ∷ []))

module _ {bl : BufLen} (short : length bl < 2 ^ 64) where
  unpack_server-At :
      {offset : ℕ} (address : List ℕ) (port : ℕ) (rest : List ℕ)
      → length address < 2 ^ 16
      → port < 2 ^ 16
      → At bl offset (be 2 port ++ (packed_string (offset + 2) address ++ rest))
      → unpack_server bl offset ≡ some ((address, port), align (offset + 4 + length address))
  unfolding unpack_server
  unpack_server-At {offset} address port rest ha hp a =
      let behind = At-next (be 2 port) _ 2 (sym (length-be 2 port)) a in
      let loads = loads-packed_string address rest ha behind in
      rw (load-At 2 port _ hp a, loads.0, four, loads.1)
    where
      four : offset + 4 ≡ offset + 2 + 2
      four = omega arith

  server_next :
      {offset : ℕ} (address : List ℕ) (port : ℕ) (rest : List ℕ)
      → At bl offset (be 2 port ++ (packed_string (offset + 2) address ++ rest))
      → At bl (align (offset + 4 + length address)) rest
  server_next {offset} address port rest a =
      let behind = At-next (be 2 port) _ 2 (sym (length-be 2 port)) a in
      subst (λ (k : ℕ). At bl k rest)
        (length-packed_string (offset + 2) address ∙ ap align (omega arith))
        (At-next (packed_string (offset + 2) address) rest _ refl behind)

  unpack_servers-At :
      (servers : List (List ℕ × ℕ)) (fuel offset : ℕ)
      → length servers < fuel
      → All (λ (s : List ℕ × ℕ). length s.0 < 2 ^ 16) servers
      → All (λ (s : List ℕ × ℕ). s.1 < 2 ^ 16) servers
      → At bl offset (servers_payload offset servers)
      → unpack_servers fuel bl offset ≡ Scan.done servers
  unfolding unpack_servers
  unpack_servers-At servers zero offset h fits ports a = absurd (omega arith)
  unpack_servers-At [] (suc fuel) offset h fits ports a =
      rw (lt→leb 4 (remaining bl offset) (omega (arith, remaining-At [] a short)), unpack_servers)
  unpack_servers-At ((address, port) ∷ servers) (suc fuel) offset h (fit, fits) (p, ports) a =
      let rest = servers_payload (align (offset + 4 + length address)) servers in
      let next = server_next address port rest a in
      rw (
        le→leb 4 (remaining bl offset) (
            omega (
              arith,
              remaining-At _ a short,
              length-append (be 2 port) (packed_string (offset + 2) address ++ rest),
              length-be 2 port,
              length-append (packed_string (offset + 2) address) rest,
              length-packed_string-ge (offset + 2) address,
            )),
        unpack_servers,
        unpack_server-At address port rest fit p a,
        unpack_servers-At servers fuel _ (omega arith) fits ports next,
      )

length-servers-le :
    (offset : ℕ) (servers : List (List ℕ × ℕ))
    → length servers ≤ length (servers_payload offset servers)
length-servers-le offset [] = omega arith
length-servers-le offset ((address, port) ∷ servers) =
    let next = align (offset + 4 + length address) in
    omega (
      arith,
      length-append (be 2 port)
          (packed_string (offset + 2) address ++ servers_payload next servers),
      length-be 2 port,
      length-append (packed_string (offset + 2) address) (servers_payload next servers),
      length-servers-le next servers,
    )

pub unpack_server_list-At :
    {bl : BufLen} (short : length bl < 2 ^ 64) (servers : List (List ℕ × ℕ))
    → All (λ (s : List ℕ × ℕ). length s.0 < 2 ^ 16) servers
    → All (λ (s : List ℕ × ℕ). s.1 < 2 ^ 16) servers
    → At bl 12 (servers_payload 12 servers)
    → unpack_server_list bl ≡ some servers
unfolding unpack_server_list
unpack_server_list-At {bl} short servers fits ports a = rw (
  unpack_servers-At short servers (length bl + 2) 12
      (omega (arith, a.room, length-servers-le 12 servers)) fits ports a,
  unpack_server_list,
)

cons_scan-ne-stuck :
    (server : List ℕ × ℕ) (s : Scan) → cons_scan server s ≢ Scan.stuck → s ≢ Scan.stuck
cons_scan-ne-stuck server (Scan.done servers) h = λ e. cc
cons_scan-ne-stuck server Scan.fault h = λ e. cc
cons_scan-ne-stuck server Scan.stuck h = absurd (h refl)

-- A scan that has come to its end does not change with more fuel.
unpack_servers_more :
    (fuel more : ℕ) (bl : BufLen) (offset : ℕ)
    → fuel ≤ more
    → unpack_servers fuel bl offset ≢ Scan.stuck
    → unpack_servers more bl offset ≡ unpack_servers fuel bl offset
unfolding unpack_servers
unpack_servers_more zero more bl offset l h = absurd (h refl)
unpack_servers_more (suc fuel) zero bl offset l h = absurd (omega arith)
unpack_servers_more (suc fuel) (suc more) bl offset l h =
    elim (Bool-cases (leb 4 (remaining bl offset))) [
      | inr ends ↦ rw (ends, unpack_servers) refl
      | inl go ↦ elim (Option-cases (unpack_server bl offset)) [
        | inl fails ↦ rw (go, unpack_servers, fails) refl
        | inr ((server, next), reads) ↦
            let e : unpack_servers (suc fuel) bl offset
                ≡ cons_scan server (unpack_servers fuel bl next) =
              rw (go, unpack_servers, reads) refl in
            let e' : unpack_servers (suc more) bl offset
                ≡ cons_scan server (unpack_servers more bl next) =
              rw (go, unpack_servers, reads) refl in
            let rest =
              unpack_servers_more fuel more bl next (omega arith)
                (cons_scan-ne-stuck server (unpack_servers fuel bl next) (λ k. h (e ∙ k))) in
            e' ∙ ap (cons_scan server) rest ∙ sym e
      ]
    ]

-- On every buffer, well formed or not, the loop over the servers comes to its end or to a read
-- outside the buffer, where the model stops, within two rounds more than the buffer has bytes; with
-- more fuel than that the result is the same.
pub unpack_servers_end :
    (bl : BufLen) (more : ℕ)
    → (unpack_servers (length bl + 2) bl 12 ≢ Scan.stuck)
      × (unpack_servers (length bl + 2 + more) bl 12 ≡ unpack_servers (length bl + 2) bl 12)
unpack_servers_end bl more =
    let ends = unpack_servers-ne-stuck (length bl + 2) bl 12 (omega arith) (omega arith) in
    (ends, unpack_servers_more (length bl + 2) (length bl + 2 + more) bl 12 (omega arith) ends)

module _ (header : List ℕ) (port : ℕ) (e : length header ≡ 12) (p : port < 2 ^ 16) where
  abbrev overrun : BufLen
  overrun = header ++ (be 2 port ++ be 2 0)

  length-overrun : length overrun ≡ 16
  length-overrun = omega (
    arith,
    length-append header (be 2 port ++ be 2 0),
    length-append (be 2 port) (be 2 0),
    length-be 2 port,
    length-be 2 0,
  )

  overrun-At : At overrun 12 (be 2 port ++ be 2 0)
  overrun-At =
      subst (λ (k : ℕ). At overrun k (be 2 port ++ be 2 0)) e
        (At-start header (be 2 port ++ be 2 0))

  unpack_server-overrun : unpack_server overrun 12 ≡ some (([], port), 24)
  unfolding unpack_server align
  unpack_server-overrun =
      let a = overrun-At in
      let b = At-next (be 2 port) (be 2 0) 2 (sym (length-be 2 port)) a in
      let b' = subst (At overrun 14) (sym (append-nil (be 2 0))) b in
      let c = At-next (be 2 0) [] 2 (sym (length-be 2 0)) b' in
      rw (load-At 2 port _ p a, load-At 2 0 [] (omega arith) b', load_text-At [] [] c)

-- A buffer of 16 bytes whose last four hold a port and an empty address makes `unpackData` read
-- outside it: the alignment moves the offset past the end, `length - offset` wraps, and the loop
-- goes on.
pub unpack_server_list_overrun :
    (header : List ℕ) (port : ℕ)
    → length header ≡ 12
    → port < 2 ^ 16
    → unpack_server_list (header ++ (be 2 port ++ be 2 0)) ≡ none
unfolding unpack_server_list
unpack_server_list_overrun header port e p =
    let bl = overrun header port e p in
    let size = length-overrun header port e p in
    let a = overrun-At header port e p in
    let four : leb 4 (remaining bl 12) ≡ true =
      le→leb 4 _ (omega (arith, remaining-At _ a (omega (arith, size)), size, a.room)) in
    let first : unpack_servers 18 bl 12 ≡ Scan.fault = rw (
      four,
      unpack_servers,
      unpack_server-overrun header port e p,
      unpack_servers_behind 16 bl 24 (omega (arith, size)) (omega arith),
    ) in
    rw (ap (λ (k : ℕ). unpack_servers (k + 2) bl 12) size ∙ first, unpack_server_list)
