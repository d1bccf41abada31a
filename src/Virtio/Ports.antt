-- ===== src/Virtio/Ports.antt =====
-- packages/kernel/src/virtio/vsock.ts, `VirtioVsock`: its local ports and connections, and what a
-- packet of the guest does to them. A connection that is being made has a promise that is settled
-- once: the settlements are part of a step's result.
use distro.Common.{
  ℕ, zero, suc, ◌+◌, ◌-◌, ◌≤◌, ◌<◌, ◌≡◌, refl, Bool, true, false, ◌||◌, ◌&&◌, leb, ◌⊎◌, List, [],
  ◌∷◌, ◌++◌, Option, none, some, ◌==◌, if◌then◌else◌, arith, Bool-cases, inl, inr,
}
use distro.Virtio.Vsock.{
  VsockConnection, VsockOp, request, response, rst, shutdown, rw_op, credit_update, credit_request,
  close_from_peer, update_credit, enqueue,
}

pub record VsockConnectionState : Type 0 where
  pub controller : VsockConnection
  pub peer_port : ℕ
  pub connected : Bool

abbrev pub Connections : Type 0
Connections = List (ℕ × VsockConnectionState)

-- `#connections.get`.
abbrev pub get_connection : Connections → ℕ → Option VsockConnectionState
get_connection [] port = none
get_connection ((p, state) ∷ rest) port = if p == port then some state else get_connection rest port

abbrev pub has_connection : Connections → ℕ → Bool
has_connection [] port = false
has_connection ((p, state) ∷ rest) port = (p == port) || has_connection rest port

abbrev pub set_connection : Connections → ℕ → VsockConnectionState → Connections
set_connection [] port state = []
set_connection ((p, old) ∷ rest) port state =
    let others = set_connection rest port state in
    if p == port then (p, state) ∷ rest else (p, old) ∷ others

abbrev pub delete_connection : Connections → ℕ → Connections
delete_connection [] port = []
delete_connection ((p, state) ∷ rest) port =
    let others = delete_connection rest port in if p == port then others else (p, state) ∷ others

abbrev pub first_port : ℕ
first_port = 49152

abbrev pub port_after : ℕ → ℕ
port_after port = if port == 65535 then first_port else port + 1

-- The loop of `#allocate_port`: the port, if one is found, and the next one to try.
unfoldable pub allocate_port_loop : ℕ → Connections → ℕ → Option ℕ × ℕ
allocate_port_loop zero connections next = (none, next)
allocate_port_loop (suc attempts) connections next =
    let rest = allocate_port_loop attempts connections (port_after next) in
    if has_connection connections next then rest else (some next, port_after next)

unfoldable pub allocate_port : Connections → ℕ → Option ℕ × ℕ
allocate_port connections next = allocate_port_loop (65536 - first_port) connections next

-- A packet for the guest, by its connection's port, its operation and its size.
pub record OutPacket : Type 0 where
  pub port : ℕ
  pub op : VsockOp
  pub size : ℕ

-- `VsockHeader.size`, the size of a packet without payload.
abbrev pub header_size : ℕ
header_size = 44

abbrev pub bare_packet : ℕ → VsockOp → OutPacket
bare_packet port op = record { port = port; op = op; size = header_size }

pub record RxDescriptor : Type 0 where
  pub writable : Bool
  pub byte_length : ℕ

-- A chain that the guest has posted for receiving, and whether its release succeeds.
pub record RxChain : Type 0 where
  pub descriptors : List RxDescriptor
  pub releases : Bool

-- The assertions of `#flush`: one descriptor, writable, and large enough.
unfoldable pub has_room : List RxDescriptor → ℕ → Bool
has_room [] size = false
has_room (desc ∷ []) size = desc.writable && leb size desc.byte_length
has_room (desc ∷ next_desc ∷ rest) size = false

abbrev pub is_accepted : RxChain → OutPacket → Bool
is_accepted chain packet = has_room chain.descriptors packet.size && chain.releases

-- The packets that wait, the chains posted, what has been delivered, and whether it threw.
pub record Outbox : Type 0 where
  pub pending : List OutPacket
  pub chains : List RxChain
  pub delivered : List OutPacket
  pub threw : Bool

-- The loop takes a packet and a chain off before its assertions, so that a throw loses both.
unfoldable pub flush : List OutPacket → List RxChain → Outbox
flush [] chains = record { pending = []; chains = chains; delivered = []; threw = false }
flush (packet ∷ pending) [] = record {
  pending = packet ∷ pending;
  chains = [];
  delivered = [];
  threw = false;
}
flush (packet ∷ pending) (chain ∷ chains) =
    let rest = flush pending chains in
    if is_accepted chain packet
    then record rest { delivered = packet ∷ rest.delivered }
    else record { pending = pending; chains = chains; delivered = []; threw = true }

unfoldable pub send_packet : List OutPacket → List RxChain → OutPacket → Outbox
send_packet pending chains packet = flush (pending ++ packet ∷ []) chains

-- What a packet of the guest comes to: the connections, what is sent back, whether the promise
-- of the connection is resolved or rejected, the bytes that a waiting reader gets, and the connection
-- that the packet closes. Where the sending throws, the rest of the handler does not run.
pub record Handled : Type 0 where
  pub connections : Connections
  pub outbox : Outbox
  pub settled : Option Bool
  pub received : Option (List ℕ)
  pub closed_connection : Option VsockConnection

abbrev pub quietly : Connections → Outbox → Handled
quietly connections outbox = record {
  connections = connections;
  outbox = outbox;
  settled = none;
  received = none;
  closed_connection = none;
}

abbrev pub rejected : VsockConnectionState → Option Bool
rejected state = if state.connected then none else some false

module _ (pending : List OutPacket) (chains : List RxChain) where
  abbrev pub unsent : Outbox
  unsent = record { pending = pending; chains = chains; delivered = []; threw = false }

  abbrev pub drop_connection : Connections → ℕ → VsockConnectionState → Outbox → Handled
  drop_connection connections port state outbox =
      record (quietly (delete_connection connections port) outbox) {
        settled = rejected state;
        closed_connection = some (close_from_peer state.controller);
      }

  unfoldable pub handle_op : Connections → ℕ → VsockConnectionState → VsockOp → List ℕ → Handled
  handle_op connections port state response payload =
      record (quietly (set_connection connections port (record state { connected = true }))
        unsent) { settled = some true }
  handle_op connections port state rw_op payload =
      let taken = enqueue state.controller payload in
      record (quietly (set_connection connections port (record state { controller = taken.0 }))
        unsent) { received = taken.1 }
  handle_op connections port state credit_update payload =
      quietly (set_connection connections port state) unsent
  handle_op connections port state credit_request payload =
      quietly (set_connection connections port state)
        (send_packet pending chains (bare_packet port credit_update))
  handle_op connections port state shutdown payload =
      let outbox = send_packet pending chains (bare_packet port rst) in
      if outbox.threw
      then quietly (set_connection connections port state) outbox
      else drop_connection connections port state outbox
  handle_op connections port state rst payload = drop_connection connections port state unsent
  handle_op connections port state request payload =
      quietly (set_connection connections port state) unsent

  -- A packet for a port without a connection is dropped; the credit is noted before the operation is
  -- looked at.
  unfoldable pub handle_for :
      Option VsockConnectionState
      → Connections
      → ℕ
      → VsockOp
      → (buf_alloc fwd_cnt : ℕ) → List ℕ
      → Handled
  handle_for none connections local_port op buf_alloc fwd_cnt payload = quietly connections unsent
  handle_for (some state) connections local_port op buf_alloc fwd_cnt payload =
      handle_op connections local_port
        (record state { controller = update_credit state.controller buf_alloc fwd_cnt }) op payload

  unfoldable pub handle_tx_packet :
      Connections → (local_port : ℕ) → VsockOp → (buf_alloc fwd_cnt : ℕ) → List ℕ → Handled
  handle_tx_packet connections local_port op buf_alloc fwd_cnt payload =
      handle_for (get_connection connections local_port) connections local_port op buf_alloc fwd_cnt
        payload

-- As many ports as that, from one on and round the range, have connections.
abbrev pub AllTaken : ℕ → Connections → ℕ → Type 0
AllTaken zero connections port = Unit {0}
AllTaken (suc n) connections port =
    (has_connection connections port ≡ true) × AllTaken n connections (port_after port)

abbrev pub InRange : ℕ → Type 0
InRange port = (first_port ≤ port) × (port < 65536)

-- A port of the range that has no connection, or none where every attempt found one taken; the
-- cursor stays in the range.
pub data IsAllocated (attempts : ℕ) (connections : Connections) (start : ℕ)
    : Option ℕ × ℕ → Type 0 where
  found :
      (port next : ℕ)
      → InRange port
      → has_connection connections port ≡ false
      → InRange next
      → IsAllocated attempts connections start (some port, next)
  exhausted :
      (next : ℕ)
      → AllTaken attempts connections start
      → InRange next
      → IsAllocated attempts connections start (none, next)

port_after-InRange : (port : ℕ) → InRange port → InRange (port_after port)
port_after-InRange port (l, h) = (ground arith, ground arith)

one_more :
    (n : ℕ) (connections : Connections) (port : ℕ) (r : Option ℕ × ℕ)
    → has_connection connections port ≡ true
    → IsAllocated n connections (port_after port) r
    → IsAllocated (suc n) connections port r
one_more n connections port r e (found p next i f j) = found p next i f j
one_more n connections port r e (exhausted next t j) = exhausted next (e, t) j

allocate_port_loop-IsAllocated :
    (n : ℕ) (connections : Connections) (next : ℕ)
    → InRange next
    → IsAllocated n connections next (allocate_port_loop n connections next)
unfolding allocate_port_loop
allocate_port_loop-IsAllocated zero connections next i = exhausted next tt i
allocate_port_loop-IsAllocated (suc n) connections next i =
    elim (Bool-cases (has_connection connections next)) [
      | inl e ↦ rw e (
          one_more n connections next _ e (
            allocate_port_loop-IsAllocated n connections (port_after next)
              (port_after-InRange next i)))
      | inr e ↦ rw e (found next (port_after next) i e (port_after-InRange next i))
    ]

-- `allocate_port` finds a port from 49152 to 65535 that has no connection, or every one of its 16384
-- attempts has met a port that has one; the cursor stays in that range.
pub allocate_port-IsAllocated :
    (connections : Connections) (next : ℕ)
    → InRange next
    → IsAllocated (65536 - first_port) connections next (allocate_port connections next)
unfolding allocate_port
allocate_port-IsAllocated connections next i =
    allocate_port_loop-IsAllocated (65536 - first_port) connections next i

has_connection-delete_connection :
    (connections : Connections) (port : ℕ)
    → has_connection (delete_connection connections port) port ≡ false
has_connection-delete_connection [] port = refl
has_connection-delete_connection ((p, state) ∷ rest) port = elim (Bool-cases (p == port)) [
  | inl e ↦ rw e (has_connection-delete_connection rest port)
  | inr e ↦ rw (e, e) (has_connection-delete_connection rest port)
]

has_connection-get_connection :
    (connections : Connections) (port : ℕ)
    → get_connection connections port ≡ none
    → has_connection connections port ≡ false
has_connection-get_connection [] port e = refl
has_connection-get_connection ((p, state) ∷ rest) port e = elim (Bool-cases (p == port)) [
  | inl h ↦ (let no : some state ≡ none = rw h at e in cc)
  | inr h ↦ rw h (has_connection-get_connection rest port (rw h at e))
]

has_connection-set_connection :
    (connections : Connections) (port : ℕ) (state : VsockConnectionState)
    → has_connection (set_connection connections port state) port ≡ has_connection connections port
has_connection-set_connection [] port state = refl
has_connection-set_connection ((p, old) ∷ rest) port state = elim (Bool-cases (p == port)) [
  | inl e ↦ rw (e, e) refl
  | inr e ↦ rw (e, e) (has_connection-set_connection rest port state)
]

-- A packet meets a chain, in their orders, that is no single writable descriptor of its size, or
-- that cannot be released.
pub data Refused : List OutPacket → List RxChain → Type 0 where
  here :
      (packet : OutPacket) (packets : List OutPacket) (chain : RxChain) (chains : List RxChain)
      → is_accepted chain packet ≡ false
      → Refused (packet ∷ packets) (chain ∷ chains)
  later :
      (packet : OutPacket) (packets : List OutPacket) (chain : RxChain) (chains : List RxChain)
      → Refused packets chains
      → Refused (packet ∷ packets) (chain ∷ chains)

flush-Refused :
    (packets : List OutPacket) (chains : List RxChain)
    → (flush packets chains).threw ≡ true
    → Refused packets chains
unfolding flush
flush-Refused [] chains e = absurd (let no : ⊥ = cc in no)
flush-Refused (packet ∷ packets) [] e = absurd (let no : ⊥ = cc in no)
flush-Refused (packet ∷ packets) (chain ∷ chains) e = elim (Bool-cases (is_accepted chain packet)) [
  | inl a ↦ later packet packets chain chains (flush-Refused packets chains (rw a at e))
  | inr a ↦ here packet packets chain chains a
]

-- Without the connection; or as before, because a packet to be sent was refused.
abbrev pub FreesOrThrows : List OutPacket → List RxChain → Connections → ℕ → Handled → Type 0
FreesOrThrows pending chains connections port h =
    ((h.outbox.threw ≡ false) × (has_connection h.connections port ≡ false))
    ⊎ ((h.outbox.threw ≡ true)
        × Refused (pending ++ bare_packet port rst ∷ []) chains
        × (has_connection h.connections port ≡ has_connection connections port))

module _ (pending : List OutPacket) (chains : List RxChain) where
  frees :
      (o : Option VsockConnectionState) (connections : Connections) (port buf_alloc fwd_cnt : ℕ)
      (payload : List ℕ)
      → get_connection connections port ≡ o
      → (has_connection
            (handle_for pending chains o connections port rst buf_alloc fwd_cnt payload).connections
            port
          ≡ false)
        × FreesOrThrows pending chains connections port
            (handle_for pending chains o connections port shutdown buf_alloc fwd_cnt payload)
  unfolding handle_for handle_op send_packet
  frees none connections port buf_alloc fwd_cnt payload e = (
    has_connection-get_connection connections port e,
    inl (refl, has_connection-get_connection connections port e),
  )
  frees (some state) connections port buf_alloc fwd_cnt payload e = (
    has_connection-delete_connection connections port,
    elim (Bool-cases (flush (pending ++ bare_packet port rst ∷ []) chains).threw) [
      | inl t ↦ rw t (
          inr (
            refl,
            flush-Refused (pending ++ bare_packet port rst ∷ []) chains t,
            has_connection-set_connection connections port _,
          ))
      | inr t ↦ rw t (inl (refl, has_connection-delete_connection connections port))
    ],
  )

  -- After a reset by the guest, its packet's port has no connection, known or not, so that the port
  -- can be given out again. After a shutdown the same holds, where the answer and the packets
  -- before it can be sent as far as chains are posted; the handler throws, and keeps the connection,
  -- only where a chain refuses a packet: it is no single writable descriptor of the packet's
  -- size, or cannot be released.
  pub handle_tx_packet-frees :
      (connections : Connections) (port buf_alloc fwd_cnt : ℕ) (payload : List ℕ)
      → (has_connection
            (handle_tx_packet pending chains connections port rst buf_alloc fwd_cnt
              payload).connections
            port
          ≡ false)
        × FreesOrThrows pending chains connections port
            (handle_tx_packet pending chains connections port shutdown buf_alloc fwd_cnt payload)
  unfolding handle_tx_packet
  handle_tx_packet-frees connections port buf_alloc fwd_cnt payload =
      frees (get_connection connections port) connections port buf_alloc fwd_cnt payload refl
