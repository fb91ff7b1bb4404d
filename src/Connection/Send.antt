-- ===== src/Connection/Send.antt =====
-- The loop of `fss_connection::sendMsg(bl)` in src/transport.cpp. The socket is what its `send`
-- calls return, one after the other.
use flight_safety_system.Base.{
  ℕ, ◌+◌, ◌≤◌, ◌<◌, All, map, ◌≡◌, refl, sym, ap, ◌∙◌, Bool, true, false, List, [], ◌∷◌, ◌++◌,
  arith, ltb, if◌then◌else◌, length, take, drop, Bool-cases, inl, inr, append-nil, append_assoc,
  take-drop, drop-drop, drop-all,
}

-- The number of bytes that a call took, or a failure.
pub data SendReply : Type 0 where
  transfered : ℕ → SendReply
  failed : SendReply

-- The result, if the loop has ended, with the bytes that went out.
pub data Sent : Type 0 where
  result : Bool → List ℕ → Sent
  waiting : Sent

-- The loop at `sent` bytes, of which `out` has gone out.
unfoldable pub send_loop : List ℕ → ℕ → List ℕ → List SendReply → Sent
send_loop bytes sent out [] = if ltb sent (length bytes) then Sent.waiting else Sent.result true out
send_loop bytes sent out (SendReply.failed ∷ rs) =
    if ltb sent (length bytes) then Sent.result false out else Sent.result true out
send_loop bytes sent out (SendReply.transfered n ∷ rs) =
    if ltb sent (length bytes)
    then send_loop bytes (sent + n) (out ++ take n (drop sent bytes)) rs
    else Sent.result true out

unfoldable pub send_bytes : List ℕ → List SendReply → Sent
unfolding send_loop
send_bytes bytes rs = send_loop bytes 0 [] rs

-- What has gone out and what has not make up the buffer, and success means that all went out.
abbrev pub IsPrefixSent : List ℕ → Sent → Type 0
IsPrefixSent bytes (Sent.result true out) = out ≡ bytes
IsPrefixSent bytes (Sent.result false out) = (rest : List ℕ) × (out ++ rest ≡ bytes)
IsPrefixSent bytes Sent.waiting = Unit {0}

ended :
    (bytes : List ℕ) (sent : ℕ) (out : List ℕ)
    → out ++ drop sent bytes ≡ bytes
    → length bytes ≤ sent
    → out ≡ bytes
ended bytes sent out e h = sym (append-nil out) ∙ ap (◌++◌ out) (sym (drop-all sent bytes h)) ∙ e

send_step :
    (bytes : List ℕ) (sent n : ℕ) (out : List ℕ)
    → out ++ drop sent bytes ≡ bytes
    → (out ++ take n (drop sent bytes)) ++ drop (sent + n) bytes ≡ bytes
send_step bytes sent n out e =
    append_assoc out _ _
    ∙ ap (◌++◌ out) (
        ap (◌++◌ (take n (drop sent bytes))) (sym (drop-drop n sent bytes))
        ∙ take-drop n (drop sent bytes))
    ∙ e

le→ltb_false : (a b : ℕ) → b ≤ a → ltb a b ≡ false
le→ltb_false a b h = ground arith

send_loop-IsPrefixSent :
    (bytes : List ℕ) (sent : ℕ) (out : List ℕ) (rs : List SendReply)
    → out ++ drop sent bytes ≡ bytes
    → IsPrefixSent bytes (send_loop bytes sent out rs)
unfolding send_loop
send_loop-IsPrefixSent bytes sent out [] e = elim (Bool-cases (ltb sent (length bytes))) [
  | inl more ↦ rw (more, send_loop) tt
  | inr done ↦ rw (done, send_loop) (ended bytes sent out e (ground arith))
]
send_loop-IsPrefixSent bytes sent out (SendReply.failed ∷ rs) e =
    elim (Bool-cases (ltb sent (length bytes))) [
      | inl more ↦ rw (more, send_loop) (drop sent bytes, e)
      | inr done ↦ rw (done, send_loop) (ended bytes sent out e (ground arith))
    ]
send_loop-IsPrefixSent bytes sent out (SendReply.transfered n ∷ rs) e =
    elim (Bool-cases (ltb sent (length bytes))) [
      | inl more ↦
          rw (more, send_loop)
            (send_loop-IsPrefixSent bytes (sent + n) (out ++ take n (drop sent bytes)) rs
              (send_step bytes sent n out e))
      | inr done ↦ rw (done, send_loop) (ended bytes sent out e (ground arith))
    ]

-- Whatever parts of the buffer the single `send` calls take: `sendMsg` returns true only if the
-- whole buffer went out, each byte once and in order, and where it returns false what went out is
-- a beginning of the buffer.
pub send_bytes_in_order :
    (bytes : List ℕ) (rs : List SendReply) → IsPrefixSent bytes (send_bytes bytes rs)
unfolding send_bytes
send_bytes_in_order bytes rs = send_loop-IsPrefixSent bytes 0 [] rs refl

send_loop-All :
    (bytes : List ℕ) (sent : ℕ) (out ns : List ℕ)
    → All (λ n. 0 < n) ns
    → length bytes ≤ sent + length ns
    → out ++ drop sent bytes ≡ bytes
    → send_loop bytes sent out (map SendReply.transfered ns) ≡ Sent.result true bytes
unfolding send_loop
send_loop-All bytes sent out [] pos room e =
    rw (le→ltb_false sent (length bytes) (omega arith), send_loop)
      (ap (Sent.result true) (ended bytes sent out e (omega arith)))
send_loop-All bytes sent out (n ∷ ns) (p, ps) room e = elim (Bool-cases (ltb sent (length bytes))) [
  | inl more ↦
      rw (more, send_loop)
        (send_loop-All bytes (sent + n) (out ++ take n (drop sent bytes)) ns ps (omega arith)
          (send_step bytes sent n out e))
  | inr done ↦ rw (done, send_loop) (ap (Sent.result true) (ended bytes sent out e (ground arith)))
]

-- Where every call of `send` takes at least one byte, as many calls as the buffer has bytes are
-- enough: the loop ends, `sendMsg` returns true, and the whole buffer went out.
pub send_bytes-All :
    (bytes ns : List ℕ)
    → All (λ n. 0 < n) ns
    → length bytes ≤ length ns
    → send_bytes bytes (map SendReply.transfered ns) ≡ Sent.result true bytes
unfolding send_bytes
send_bytes-All bytes ns pos room = send_loop-All bytes 0 [] ns pos (omega arith) refl
