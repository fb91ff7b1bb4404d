-- ===== src/Connection/Queue.antt =====
-- `getMsg`, `setHandler` and the hand-over of `processMessages` in src/transport.cpp: where the
-- messages of a connection end up.
use flight_safety_system.Base.{
  ℕ, zero, suc, ◌≡◌, refl, ap, ◌∙◌, true, false, List, [], ◌∷◌, ◌++◌, Option, none, some, arith,
  map, length, replicate, append-nil, append_assoc,
}
use flight_safety_system.Floats.{Floats}
use flight_safety_system.Message.{Message}
use flight_safety_system.Connection.{Connection, get_msg, deliver, drain, set_handler}

module _ {F : Floats} where
  -- `n` calls of `getMsg`.
  abbrev pub get_msgs : ℕ → Connection F → List (Option (Message F)) × Connection F
  get_msgs zero c = ([], c)
  get_msgs (suc n) c =
      let (msg, c') = get_msg c in let (msgs, c'') = get_msgs n c' in (msg ∷ msgs, c'')

  get_msg-some :
      (c : Connection F) (m : Message F) (rest : List (Option (Message F)))
      → c.handler ≡ false
      → c.messages ≡ some m ∷ rest
      → get_msg c ≡ (some m, record c { messages = rest })
  unfolding get_msg
  get_msg-some c m rest h e = ground arith

  get_msg-none :
      (c : Connection F) (rest : List (Option (Message F)))
      → c.handler ≡ false
      → c.messages ≡ none ∷ rest
      → get_msg c ≡ (none, c)
  unfolding get_msg
  get_msg-none c rest h e = ground arith

  -- Without a callback, `getMsg` returns the queued messages from the oldest on.
  pub get_msgs-queue :
      (ms : List (Message F)) (rest : List (Option (Message F))) (c : Connection F)
      → c.handler ≡ false
      → c.messages ≡ map some ms ++ rest
      → get_msgs (length ms) c ≡ (map some ms, record c { messages = rest })
  get_msgs-queue [] rest c h e = ground (arith)
  get_msgs-queue (m ∷ ms) rest c h e = rw (
    get_msg-some c m (map some ms ++ rest) h e,
    get_msgs-queue ms rest (record c { messages = map some ms ++ rest }) h refl,
  )

  -- A null pointer in the queue, which a message of an unknown type leaves there, stops `getMsg`
  -- for good: every later call returns null, and what is queued behind it is never returned.
  pub get_msgs_blocked :
      (n : ℕ) (c : Connection F) (rest : List (Option (Message F)))
      → c.handler ≡ false
      → c.messages ≡ none ∷ rest
      → get_msgs n c ≡ (replicate n none, c)
  get_msgs_blocked zero c rest h e = refl
  get_msgs_blocked (suc n) c rest h e = rw (get_msg-none c rest h e, get_msgs_blocked n c rest h e)

  module _ {ℓ} {S : Type ℓ} (process : S → Option (Message F) → S) where
    abbrev pub deliver_all : Connection F × S → List (Option (Message F)) → Connection F × S
    deliver_all cs [] = cs
    deliver_all cs (msg ∷ msgs) = deliver_all (deliver process cs msg) msgs

    deliver_queue :
        (c : Connection F) (s : S) (msg : Option (Message F))
        → c.handler ≡ false
        → deliver process (c, s) msg ≡ (record c { messages = c.messages ++ msg ∷ [] }, s)
    unfolding deliver
    deliver_queue c s msg h = ground arith

    deliver_handler :
        (c : Connection F) (s : S) (msg : Option (Message F))
        → c.handler ≡ true
        → deliver process (c, s) msg ≡ (c, process s msg)
    unfolding deliver
    deliver_handler c s msg h = ground arith

    deliver_all_queue :
        (c : Connection F) (s : S) (msgs : List (Option (Message F)))
        → c.handler ≡ false
        → deliver_all (c, s) msgs ≡ (record c { messages = c.messages ++ msgs }, s)
    deliver_all_queue c s [] h = rw append-nil
    deliver_all_queue c s (msg ∷ msgs) h = rw (deliver_queue c s msg h) (
        deliver_all_queue (record c { messages = c.messages ++ msg ∷ [] }) s msgs h
        ∙ rw append_assoc)

    deliver_all_handler :
        (c : Connection F) (s : S) (msgs : List (Option (Message F)))
        → c.handler ≡ true
        → deliver_all (c, s) msgs ≡ (c, drain process msgs s)
    unfolding drain
    deliver_all_handler c s [] h = refl
    deliver_all_handler c s (msg ∷ msgs) h =
        rw (deliver_handler c s msg h) (deliver_all_handler c (process s msg) msgs h)

    drain-append :
        (xs ys : List (Option (Message F))) (s : S)
        → drain process ys (drain process xs s) ≡ drain process (xs ++ ys) s
    unfolding drain
    drain-append [] ys s = refl
    drain-append (x ∷ xs) ys s = drain-append xs ys (process s x)

    -- Messages that come before a callback is set and messages that come after it reach the
    -- callback all, each once, in the order in which they came, and none stays in the queue.
    pub set_handler_order :
        (c : Connection F) (s : S) (before after : List (Option (Message F)))
        → c.handler ≡ false
        → c.messages ≡ []
        → deliver_all (set_handler process (deliver_all (c, s) before)) after
          ≡ (record c { handler = true; messages = [] }, drain process (before ++ after) s)
    unfolding set_handler
    set_handler_order c s before after h e =
        let queued : Connection F = record c { messages = before } in
        let start : deliver_all (c, s) before ≡ (queued, s) =
          deliver_all_queue c s before h ∙ rw e in
        ap (λ (cs : Connection F × S). deliver_all (set_handler process cs) after) start
        ∙ deliver_all_handler (record c { handler = true; messages = [] }) (drain process before s)
            after refl
        ∙ rw drain-append
