-- ===== src/Virtio/Receiving.antt =====
-- packages/kernel/src/virtio/rx.ts, `RxQueue`: the chains that the guest has posted for receiving, and
-- the producers that wait for one. A waiter is a promise, so that the queue keeps how many there are;
-- a chain is the number of its object.
use distro.Common.{
  ℕ, suc, ◌≡◌, ◌⊎◌, refl, Bool, true, false, not, ◌||◌, List, [], ◌∷◌, ◌++◌, Option, none, some,
  if◌then◌else◌, inl, inr, arith,
}

pub record RxQueue : Type 0 where
  pub chains : List ℕ
  pub waiters : ℕ
  pub closed : Bool

abbrev pub rx_queue : RxQueue
rx_queue = record { chains = []; waiters = 0; closed = false }

abbrev pub is_empty : List ℕ → Bool
is_empty [] = true
is_empty (c ∷ chains) = false

abbrev pub wake : RxQueue → RxQueue
wake rx = record rx { waiters = 0 }

-- The chains that the iteration of the queue yields, and whether it then throws: those chains are
-- posted by then, and nobody is woken.
unfoldable pub post : RxQueue → List ℕ → Bool → RxQueue
post rx queue throws =
    let all_chains = rx.chains ++ queue in
    let posted = record rx { chains = all_chains } in
    if rx.closed then rx else if throws || is_empty all_chains then posted else wake posted

-- A promise that is resolved leaves the queue alone; another waits.
unfoldable pub ready : RxQueue → RxQueue
ready rx =
    if not (is_empty rx.chains) || rx.closed then rx else record rx { waiters = suc rx.waiters }

-- The chain that is filled and released, where there is one.
unfoldable pub deliver_first : RxQueue → List ℕ → RxQueue × Option ℕ
deliver_first rx [] = (rx, none)
deliver_first rx (c ∷ rest) = (record rx { chains = rest }, some c)

unfoldable pub reset : RxQueue → RxQueue
reset rx = record rx { chains = [] }

unfoldable pub close_queue : RxQueue → RxQueue
close_queue rx = wake (record rx { closed = true; chains = [] })

pub data RxEvent : Type 0 where
  posted : List ℕ → (throws : Bool) → RxEvent
  asked_ready : RxEvent
  delivered_one : RxEvent
  was_reset : RxEvent
  was_closed : RxEvent

abbrev pub rx_step : RxQueue → RxEvent → RxQueue
rx_step rx (posted chains throws) = post rx chains throws
rx_step rx asked_ready = ready rx
rx_step rx delivered_one = (deliver_first rx rx.chains).0
rx_step rx was_reset = reset rx
rx_step rx was_closed = close_queue rx

abbrev pub rx_run : RxQueue → List RxEvent → RxQueue
rx_run rx [] = rx
rx_run rx (event ∷ events) = rx_run (rx_step rx event) events

-- No producer waits, or there is nothing to wait for but an open queue.
abbrev pub WaitsRightly : RxQueue → Type 0
WaitsRightly rx = (rx.waiters ≡ 0) ⊎ ((is_empty rx.chains ≡ true) × (rx.closed ≡ false))

-- Whether the last post that threw, if any, has been followed by a post that did not, a reset or
-- a close.
abbrev pub made_good : Bool → List RxEvent → Bool
made_good good [] = good
made_good good (posted chains throws ∷ events) = made_good (not throws) events
made_good good (asked_ready ∷ events) = made_good good events
made_good good (delivered_one ∷ events) = made_good good events
made_good good (was_reset ∷ events) = made_good true events
made_good good (was_closed ∷ events) = made_good true events

-- On a closed queue nobody waits; and where all has been made good, nobody waits wrongly.
record IsRight (good : Bool) (rx : RxQueue) : Type 0 where
  none_late : rx.closed ≡ true → rx.waiters ≡ 0
  right : good ≡ true → WaitsRightly rx

if-IsRight :
    (good b : Bool) (x y : RxQueue)
    → (b ≡ true → IsRight good x)
    → (b ≡ false → IsRight good y)
    → IsRight good (if b then x else y)
if-IsRight good true x y p q = p refl
if-IsRight good false x y p q = q refl

post-IsRight :
    (good : Bool) (rx : RxQueue) (chains : List ℕ) (throws : Bool)
    → IsRight good rx
    → IsRight (not throws) (post rx chains throws)
unfolding post
post-IsRight good rx chains throws h =
    if-IsRight (not throws) rx.closed _ _
      (λ c. record { none_late = h.none_late; right = λ _. inl (h.none_late c) })
      (λ c.
        if-IsRight (not throws) (throws || is_empty (rx.chains ++ chains)) _ _
          (λ e. record {
            none_late = λ d. absurd (let no : ⊥ = cc in no);
            right = λ g. inr (is_left throws _ e g, c);
          })
          (λ e. record { none_late = λ d. refl; right = λ g. inl refl }))
  where
    is_left : (a b : Bool) → (a || b) ≡ true → not a ≡ true → b ≡ true
    is_left a b e g = ground arith

ready-IsRight : (good : Bool) (rx : RxQueue) → IsRight good rx → IsRight good (ready rx)
unfolding ready
ready-IsRight good rx h =
    if-IsRight good (not (is_empty rx.chains) || rx.closed) _ _ (λ e. h)
      (λ e. record {
        none_late = λ c. absurd (is_open (is_empty rx.chains) rx.closed e c);
        right = λ g. inr (ground arith, ground arith);
      })
  where
    is_open : (a b : Bool) → (not a || b) ≡ false → b ≡ true → ⊥
    is_open a b e c = ground arith

deliver_first-IsRight :
    (good : Bool) (rx : RxQueue) (chains : List ℕ)
    → rx.chains ≡ chains
    → IsRight good rx
    → IsRight good (deliver_first rx chains).0
unfolding deliver_first
deliver_first-IsRight good rx [] e h = h
deliver_first-IsRight good rx (c ∷ rest) e h = record {
  none_late = h.none_late;
  right = λ g. still (h.right g);
}
  where
    still : WaitsRightly rx → WaitsRightly (record rx { chains = rest })
    still (inl w) = inl w
    still (inr (n, o)) = let no : false ≡ true = rw e at n in absurd (let f : ⊥ = cc in f)

reset-IsRight : (good : Bool) (rx : RxQueue) → IsRight good rx → IsRight true (reset rx)
unfolding reset
reset-IsRight good rx h = record { none_late = h.none_late; right = λ _. emptied rx.closed refl }
  where
    emptied : (b : Bool) → rx.closed ≡ b → WaitsRightly (record rx { chains = [] })
    emptied true e = inl (h.none_late e)
    emptied false e = inr (refl, e)

rx_run-IsRight :
    (good : Bool) (rx : RxQueue) (events : List RxEvent)
    → IsRight good rx
    → IsRight (made_good good events) (rx_run rx events)
unfolding close_queue
rx_run-IsRight good rx [] h = h
rx_run-IsRight good rx (posted chains throws ∷ events) h =
    rx_run-IsRight (not throws) (post rx chains throws) events
      (post-IsRight good rx chains throws h)
rx_run-IsRight good rx (asked_ready ∷ events) h =
    rx_run-IsRight good (ready rx) events (ready-IsRight good rx h)
rx_run-IsRight good rx (delivered_one ∷ events) h =
    rx_run-IsRight good (deliver_first rx rx.chains).0 events
      (deliver_first-IsRight good rx rx.chains refl h)
rx_run-IsRight good rx (was_reset ∷ events) h =
    rx_run-IsRight true (reset rx) events (reset-IsRight good rx h)
rx_run-IsRight good rx (was_closed ∷ events) h =
    rx_run-IsRight true (close_queue rx) events
      (record { none_late = λ _. refl; right = λ _. inl refl })

-- From a new queue on, whatever is posted, asked, delivered, reset and closed, in any order: where
-- every post whose iteration throws is followed, at any distance, by a post that does not throw, a
-- reset or a close, no producer is left waiting while a chain is posted or once the queue is closed.
pub rx_run-WaitsRightly :
    (events : List RxEvent) → made_good true events ≡ true → WaitsRightly (rx_run rx_queue events)
rx_run-WaitsRightly events g =
    (rx_run-IsRight true rx_queue events
        (record { none_late = λ _. refl; right = λ _. inl refl })).right
      g
