-- ===== src/Virtio/Examples.antt =====
-- packages/kernel/src/virtio: the switch and the packed ring at concrete inputs.
use distro.Common.{
  ℕ, ◌-◌, ◌≡◌, ◌≢◌, refl, true, false, List, [], ◌∷◌, ◌++◌, none, some, ok, min, take, inl, inr,
  arith, replicate,
}
use distro.Virtio.Switch.{EthernetNetwork, Delivery, send, close_port, get_learned}
use distro.Virtio.Switch.Learning.{
  SendsTo, send-SendsTo, close_port-forgets, send-learns, delivered,
}
use distro.Virtio.Vsock.{VsockConnection, rst, shutdown}
use distro.Virtio.Ports.{
  Connections, first_port, allocate_port, has_connection, handle_tx_packet, IsAllocated, RxChain,
  FreesOrThrows, allocate_port-IsAllocated, handle_tx_packet-frees,
}
use distro.Virtio.Receiving.{
  RxEvent, asked_ready, posted, delivered_one, was_reset, rx_run, rx_queue, WaitsRightly,
  rx_run-WaitsRightly,
}
use distro.Virtio.Block.{
  BlockStorage, Segment, VirtqueueBuffer, request, read_request, runs, transfer,
}
use distro.Virtio.Block.Runs.{addresses, addresses_of, addresses-runs, length-addresses_of}
use distro.Virtio.Block.Transfer.{Move, pairs, MovesFirst, IsSingle, absent, transfer-MovesFirst}
use distro.Virtio.Block.Requests.{IsLawful, read_only, flushes, IsHandled, request-IsHandled}
use distro.Virtio.Fs.{FsRequest, lookup, forget_node, open_node, rename, release, new_state, notify}
use distro.Virtio.Fs.Balance.{IsBalanced}
use distro.Virtio.Fs.Leaks.{IsUsed}
use distro.Virtio.Fs.Requests.{notify-IsBalanced, notify-IsUsed}
use distro.Virtio.Fs.Buffers.{Buffer, concatenate, scatter, scatter-concatenate}
use distro.Virtio.Queue.{PackedVirtqueue, pop, no_descriptor}
use distro.Virtio.Queue.Chains.{IsWithin, pop-IsWithin}

-- Three ports, of which none has sent.
abbrev quiet : EthernetNetwork
quiet = record {
  ports = 0 ∷ 1 ∷ 2 ∷ [];
  next_port = 3;
  closed_ports = λ p. false;
  learned = [];
  closed = false;
}

-- A broadcast of station 2, and the reply of station 4 to it.
abbrev broadcast : List ℕ
broadcast = replicate 6 255 ++ (replicate 6 2 ++ (8 ∷ 0 ∷ []))

abbrev reply : List ℕ
reply = replicate 6 2 ++ (replicate 6 4 ++ (8 ∷ 0 ∷ []))

send-learns_example :
    (after : EthernetNetwork) × (first : Delivery) × (send quiet 0 broadcast ≡ ok (after, first))
    × ((final : EthernetNetwork) × (send after 1 reply ≡ ok (final, delivered (0 ∷ []) true reply)))
send-learns_example =
    send-learns quiet 0 1 broadcast reply refl refl refl (omega arith) (omega arith) (omega arith)
      refl refl refl

send-SendsTo_example : SendsTo quiet 0 (send quiet 0 broadcast)
send-SendsTo_example = send-SendsTo quiet 0 broadcast

-- Station 2 is behind port 0.
abbrev told : EthernetNetwork
told = record quiet { learned = (replicate 6 2, 0) ∷ [] }

close_port-forgets_example :
    ((close_port told 0).closed_ports 0 ≡ true)
    × (get_learned (close_port told 0).learned (replicate 6 2) ≢ some 0)
close_port-forgets_example = close_port-forgets told 0 (replicate 6 2) refl

-- Two descriptors that are both available and both claim to go on.
abbrev endless : PackedVirtqueue
endless = record {
  size = 2;
  ring =
      record { addr = 0; len = 8; id = 1; flags = 129 }
      ∷ record { addr = 8; len = 8; id = 2; flags = 129 }
      ∷ [];
  avail_wrap = true;
  used_wrap = true;
  used_idx = 0;
  avail_idx = 0;
  valid = true;
}

pop-IsWithin_example : IsWithin 2 (pop (λ address. no_descriptor) endless)
pop-IsWithin_example = pop-IsWithin (λ address. no_descriptor) endless (omega arith)

-- A peer with room for three bytes more.
abbrev busy : VsockConnection
busy = record {
  read_buffer = [];
  read_waiters = 0;
  credit_waiters = 0;
  closed = false;
  bytes_read = 0;
  bytes_written = 7;
  last_credit_update = 0;
  peer_buf_alloc = 8;
  peer_fwd_cnt = 2;
}

-- The last port of the range is taken.
abbrev one_connection : Connections
one_connection = (65535, record { controller = busy; peer_port = 80; connected = true }) ∷ []

allocate_port-IsAllocated_example :
    IsAllocated (65536 - first_port) one_connection 65535 (allocate_port one_connection 65535)
allocate_port-IsAllocated_example =
    allocate_port-IsAllocated one_connection 65535 (omega arith, omega arith)

-- A receive buffer that the guest has made read-only.
abbrev read_only_chain : RxChain
read_only_chain = record {
  descriptors = record { writable = false; byte_length = 4096 } ∷ [];
  releases = true;
}

handle_tx_packet-frees_example :
    (has_connection
        (handle_tx_packet [] (read_only_chain ∷ []) one_connection 65535 rst 8 7 []).connections
        65535
      ≡ false)
    × FreesOrThrows []
        (read_only_chain ∷ [])
        one_connection
        65535
        (handle_tx_packet [] (read_only_chain ∷ []) one_connection 65535 shutdown 8 7 [])
handle_tx_packet-frees_example =
    handle_tx_packet-frees [] (read_only_chain ∷ []) one_connection 65535 8 7 []

-- A producer waits, a chain comes before a throw, the next post wakes it, the chain is taken, and the next producer waits again.
abbrev exchange : List RxEvent
exchange =
    asked_ready
    ∷ posted (7 ∷ []) true
    ∷ posted [] false
    ∷ delivered_one
    ∷ asked_ready
    ∷ was_reset
    ∷ []

rx_run-WaitsRightly_example : WaitsRightly (rx_run rx_queue exchange)
rx_run-WaitsRightly_example = rx_run-WaitsRightly exchange refl

-- Two views of buffer 0 that are adjacent, with an empty view between, and one of buffer 1.
abbrev views : List Segment
views =
    record { buffer = 0; byte_offset = 16; byte_length = 2 }
    ∷ record { buffer = 1; byte_offset = 0; byte_length = 0 }
    ∷ record { buffer = 0; byte_offset = 18; byte_length = 3 }
    ∷ record { buffer = 1; byte_offset = 5; byte_length = 2 }
    ∷ []

addresses-runs_example : addresses (runs views) ≡ addresses views
addresses-runs_example = addresses-runs views

-- A storage that moves four bytes at most in a call.
abbrev four_at_most : List Move → ℕ → Segment → List Move × ℕ
four_at_most w at s = let n = min 4 s.byte_length in (w ++ pairs at (take n (addresses_of s)), n)

four_at_most-IsSingle : IsSingle (λ w. w) four_at_most
four_at_most-IsSingle = record {
  law = λ w at s. record { at_most = omega (arith, length-addresses_of s); moved = refl };
}

transfer-MovesFirst_example :
    MovesFirst (λ w. w) [] 512 (addresses views) (transfer four_at_most none [] 512 views)
transfer-MovesFirst_example =
    transfer-MovesFirst (λ w. w) four_at_most none [] 512 views four_at_most-IsSingle absent

-- A read-only storage of two sectors and a half.
abbrev small : BlockStorage (List Move)
small = record {
  read = four_at_most;
  readv = none;
  write = none;
  writev = none;
  flush = some (λ w. w);
  capacity = 1280;
}

small-IsLawful : IsLawful (λ w. w) small
small-IsLawful = record {
  read = four_at_most-IsSingle;
  readv = absent;
  write = read_only;
  writev = absent;
  flush = flushes (λ w. w) (λ w. refl);
}

abbrev chain_of : Segment → List VirtqueueBuffer
chain_of s =
    record { array = record { buffer = 0; byte_offset = 0; byte_length = 16 }; writable = false }
    ∷ record { array = s; writable = true }
    ∷ record { array = record { buffer = 0; byte_offset = 40; byte_length = 1 }; writable = true }
    ∷ []

-- A read of three bytes in sector 1.
request-IsHandled_example :
    IsHandled
      (λ w. w)
      1024
      []
      (read_request (replicate 8 0 ++ (1 ∷ replicate 7 0)))
      (chain_of (record { buffer = 0; byte_offset = 16; byte_length = 3 }))
      (request small []
        (replicate 8 0 ++ (1 ∷ replicate 7 0))
        (chain_of (record { buffer = 0; byte_offset = 16; byte_length = 3 })))
request-IsHandled_example =
    request-IsHandled (λ w. w) small [] (replicate 8 0 ++ (1 ∷ replicate 7 0))
      (chain_of (record { buffer = 0; byte_offset = 16; byte_length = 3 })) small-IsLawful

-- A directory and a file in it are looked up, the file is opened and moved to the root, the directory
-- forgotten, the file closed.
abbrev fs_requests : List (ℕ × FsRequest)
fs_requests =
    (1, lookup (some 10))
    ∷ (2, lookup (some 11))
    ∷ (3, open_node 5 false)
    ∷ (2, rename 1 (some 11))
    ∷ (2, forget_node 1)
    ∷ (3, release 1 false)
    ∷ []

notify-IsBalanced_example : IsBalanced (notify fs_requests new_state)
notify-IsBalanced_example =
    notify-IsBalanced fs_requests (tt, (tt, (tt, (omega arith, (tt, (tt, tt))))))

notify-IsUsed_example : IsUsed (notify fs_requests new_state)
notify-IsUsed_example = notify-IsUsed fs_requests (tt, (tt, (tt, (omega arith, (tt, (tt, tt))))))

-- Three bytes for a buffer of two, one that is not writable, and one of two.
abbrev fs_buffers : List Buffer
fs_buffers =
    record { bytes = 0 ∷ 0 ∷ []; writable = true }
    ∷ record { bytes = 9 ∷ []; writable = false }
    ∷ record { bytes = 7 ∷ 8 ∷ []; writable = true }
    ∷ []

scatter-concatenate_example :
    (after : List Buffer) × (scatter fs_buffers (1 ∷ 2 ∷ 3 ∷ []) ≡ ok after)
    × (concatenate true after ≡ 1 ∷ 2 ∷ 3 ∷ 8 ∷ [])
    × (concatenate false after ≡ concatenate false fs_buffers)
unfolding concatenate
scatter-concatenate_example =
    scatter-concatenate fs_buffers (1 ∷ 2 ∷ 3 ∷ [])
      (inr (omega arith), (inl refl, (inr (omega arith), tt))) (omega arith)
