-- ===== src/Network/Tcp.antt =====
-- packages/linux-guest/src/network.ts: a TCP flow of the gateway, as the segments of the guest and
-- the host's writes change it. Timers and promises are actions that a step emits; a segment that is
-- sent is an action with what it says. The emission itself is taken to succeed.
pub mod Tracking
pub mod Receive
use distro.Common.{
  ℕ, zero, suc, ◌+◌, ◌-◌, ◌/◌, ◌%◌, ◌^◌, Bool, true, false, not, ◌&&◌, ◌||◌, List, [], ◌∷◌, ◌++◌,
  Option, none, some, ltb, ◌==◌, if◌then◌else◌, length, min, take, drop,
}
use distro.Network.Packet.{ParsedTcpSegment}

abbrev pub tcp_receive_max : ℕ
tcp_receive_max = 0xffff

unfoldable pub sequence_add : ℕ → ℕ → ℕ
sequence_add sequence amount = (sequence + amount) % 2 ^ 32

-- `TcpFlag`: the bits of a segment's flags.
abbrev pub has_fin : ℕ → Bool
has_fin flags = flags % 2 == 1

abbrev pub has_syn : ℕ → Bool
has_syn flags = flags / 2 % 2 == 1

abbrev pub has_rst : ℕ → Bool
has_rst flags = flags / 4 % 2 == 1

abbrev pub has_ack : ℕ → Bool
has_ack flags = flags / 16 % 2 == 1

abbrev pub rst_ack : ℕ
rst_ack = 0x14

abbrev pub ack : ℕ
ack = 0x10

abbrev pub ack_psh : ℕ
ack_psh = 0x18

-- The controller of the readable stream: the bytes enqueued so far, those not yet read, and whether
-- the stream is closed.
pub record Readable : Type 0 where
  pub high_water_mark : ℕ
  pub queued : ℕ
  pub received : List ℕ
  pub ended : Bool

pub record TcpFlow : Type 0 where
  pub send_sequence : ℕ
  pub receive_sequence : ℕ
  pub established : Bool
  pub local_ended : Bool
  pub remote_ended : Bool
  pub closed : Bool
  pub ack_waiters : List ℕ
  pub window_waiters : ℕ
  pub advertised_window : ℕ
  pub peer_window : ℕ
  pub handshake : Bool
  pub readable : Option Readable
  pub activation : Bool
  pub receive_demand : Bool

pub data Action : Type 0 where
  sent : (flags sequence acknowledgement window : ℕ) → List ℕ → Action
  acknowledged : ℕ → Action
  window_opened : Action
  connected : Action
  flow_closed : Action
  flow_failed : Action

-- A step's new flow, its actions, and whether it threw.
pub record Step : Type 0 where
  pub flow : TcpFlow
  pub actions : List Action
  pub failed : Bool

-- A stream that is closing keeps its room until the last chunk has been read.
unfoldable pub desired_size : Readable → ℕ
desired_size r = if r.ended && (r.queued == 0) then 0 else r.high_water_mark - r.queued

unfoldable pub tcp_receive_window : TcpFlow → ℕ
unfolding desired_size
tcp_receive_window flow = elim flow.readable [
  | none ↦ tcp_receive_max
  | some r ↦
      if flow.activation
      then (if flow.receive_demand then tcp_receive_max else 0)
      else min tcp_receive_max (desired_size r)
]

-- `send_tcp`: the segment says the flow's sequence numbers, and the window becomes the advertised one.
unfoldable pub send_tcp : TcpFlow → ℕ → List ℕ → Step
send_tcp flow flags payload =
    let window = tcp_receive_window flow in
    record {
      flow = record flow { advertised_window = window };
      actions = sent flags flow.send_sequence flow.receive_sequence window payload ∷ [];
      failed = false;
    }

unfoldable pub acknowledge_waiters : List ℕ → ℕ → List ℕ
acknowledge_waiters [] acknowledgement = []
acknowledge_waiters (w ∷ waiters) acknowledgement =
    let rest = acknowledge_waiters waiters acknowledgement in
    if w == acknowledgement then rest else w ∷ rest

unfoldable pub update_peer_window : TcpFlow → ℕ → TcpFlow
update_peer_window flow window = record flow {
  peer_window = window;
  window_waiters = if window == 0 then flow.window_waiters else 0;
}

-- `if (segment.flags & TcpFlag.ACK)`.
unfoldable pub note_ack : TcpFlow → ParsedTcpSegment → TcpFlow
unfolding update_peer_window acknowledge_waiters
note_ack flow segment =
    if has_ack segment.flags
    then (let opened = update_peer_window flow segment.window in
        record opened {
          ack_waiters = acknowledge_waiters opened.ack_waiters segment.acknowledgement;
        })
    else flow

unfoldable pub end_readable : Option Readable → Option Readable
end_readable none = none
end_readable (some r) = some (record r { ended = true })

-- An error drops the chunks that have not been read.
unfoldable pub fail_readable : Option Readable → Option Readable
fail_readable none = none
fail_readable (some r) = some (record r { queued = 0; ended = true })

abbrev pub is_failure : Action → Bool
is_failure (sent flags sequence acknowledgement window payload) = false
is_failure (acknowledged n) = false
is_failure window_opened = false
is_failure connected = false
is_failure flow_closed = false
is_failure flow_failed = true

-- `close_tcp_flow`: every waiter is rejected, and the stream is closed, or fails with the flow.
unfoldable pub close_tcp_flow : TcpFlow → Action → Step
unfolding end_readable fail_readable
close_tcp_flow flow how =
    if flow.closed then record { flow = flow; actions = []; failed = false } else record {
      flow = record flow {
        closed = true;
        ack_waiters = [];
        window_waiters = 0;
        readable =
            if is_failure how then fail_readable flow.readable else end_readable flow.readable;
      };
      actions = how ∷ [];
      failed = false;
    }

unfoldable pub abort_tcp_flow : TcpFlow → Step
unfolding send_tcp close_tcp_flow
abort_tcp_flow flow =
    if flow.closed
    then record { flow = flow; actions = []; failed = false }
    else (let reset = send_tcp flow rst_ack [] in
        let end = close_tcp_flow reset.flow flow_failed in
        record { flow = end.flow; actions = reset.actions ++ end.actions; failed = false })

-- `host_tcp_connection` on a flow that is not activated lazily: its stream holds a window's bytes.
unfoldable pub fresh_readable : Readable
fresh_readable = record {
  high_water_mark = tcp_receive_max;
  queued = 0;
  received = [];
  ended = false;
}

-- The SYN-ACK of a connection that the host began, or the ACK of one that the guest began.
unfoldable pub process_handshake : TcpFlow → ParsedTcpSegment → Step
process_handshake flow segment =
    let matches = segment.acknowledgement == flow.send_sequence in
    if flow.handshake
    then (if not (has_syn segment.flags && has_ack segment.flags) || not matches
        then record { flow = flow; actions = []; failed = false }
        else (let open_flow = record flow {
          receive_sequence = sequence_add segment.sequence 1;
          established = true;
        } in
            let reply = send_tcp open_flow ack [] in
            record {
              flow = record (reply.flow) { handshake = false; readable = some fresh_readable };
              actions = reply.actions ++ connected ∷ [];
              failed = false;
            }))
    else record {
      flow = record flow { established = flow.established || (has_ack segment.flags && matches) };
      actions = [];
      failed = false;
    }

-- `flow.readable?.enqueue(...)`, which throws on a stream that has ended.
unfoldable pub enqueue : Option Readable → List ℕ → Option Readable
enqueue none payload = none
enqueue (some r) payload =
    some (record r { queued = r.queued + length payload; received = r.received ++ payload })

unfoldable pub has_ended : Option Readable → Bool
has_ended none = false
has_ended (some r) = r.ended

-- `if (segment.payload.byteLength > 0)`: the payload goes to the stream, and the sequence moves on.
unfoldable pub accept_payload : TcpFlow → List ℕ → TcpFlow
unfolding enqueue
accept_payload flow payload = if length payload == 0 then flow else record flow {
  readable = enqueue flow.readable payload;
  receive_demand = false;
  receive_sequence = sequence_add flow.receive_sequence (length payload);
}

unfoldable pub accept_fin : TcpFlow → TcpFlow
unfolding end_readable
accept_fin flow = record flow {
  receive_sequence = sequence_add flow.receive_sequence 1;
  remote_ended = true;
  readable = end_readable flow.readable;
}

unfoldable pub finish_segment : TcpFlow → Step
finish_segment flow =
    let reply = send_tcp flow ack [] in
    let over = flow.local_ended && (flow.remote_ended && (length flow.ack_waiters == 0)) in
    let end = close_tcp_flow reply.flow flow_closed in
    if over
    then record { flow = end.flow; actions = reply.actions ++ end.actions; failed = false }
    else reply

-- A segment in sequence, with its payload in the window. Where the stream has ended, `enqueue` and
-- `close` throw before the sequence moves, or after the payload's part of it.
unfoldable pub accept_segment : TcpFlow → ParsedTcpSegment → Step
accept_segment flow segment =
    let taken = accept_payload flow segment.payload in
    let ended = has_ended flow.readable in
    if ended && ltb 0 (length segment.payload)
    then record { flow = flow; actions = []; failed = true }
    else if has_fin segment.flags
    then (if ended
        then record {
          flow = record taken {
            receive_sequence = sequence_add taken.receive_sequence 1;
            remote_ended = true;
          };
          actions = [];
          failed = true;
        }
        else finish_segment (accept_fin taken))
    else finish_segment taken

unfoldable pub process_established : TcpFlow → ParsedTcpSegment → Step
process_established flow segment =
    let consumes = length segment.payload + (if has_fin segment.flags then 1 else 0) in
    if consumes == 0
    then record { flow = flow; actions = []; failed = false }
    else if not (segment.sequence == flow.receive_sequence)
    then send_tcp flow ack []
    else if ltb 0 (length segment.payload) && ltb (tcp_receive_window flow) (length segment.payload)
    then send_tcp flow ack []
    else accept_segment flow segment

unfoldable pub process_tcp : TcpFlow → ParsedTcpSegment → Step
process_tcp flow segment =
    if flow.closed
    then record { flow = flow; actions = []; failed = false }
    else if has_rst segment.flags
    then close_tcp_flow flow flow_failed
    else if not flow.established
    then process_handshake (note_ack flow segment) segment
    else process_established (note_ack flow segment) segment

-- `receive_tcp` for a flow that is known: a step that throws aborts the flow.
unfoldable pub receive_tcp : TcpFlow → ParsedTcpSegment → TcpFlow
receive_tcp flow segment =
    let step = process_tcp flow segment in
    if step.failed then (abort_tcp_flow step.flow).flow else step.flow

-- `update_tcp_window`: an ACK tells the guest of a window that has grown.
unfoldable pub update_tcp_window : TcpFlow → Step
update_tcp_window flow =
    if not flow.closed && (flow.established && ltb flow.advertised_window (tcp_receive_window flow))
    then send_tcp flow ack []
    else record { flow = flow; actions = []; failed = false }

abbrev pub tcp_mss : ℕ
tcp_mss = 1200

-- One round of the loop of `send_tcp_data`, up to the wait for its acknowledgement, with the bytes
-- that are left: a flow whose window is closed waits for it to open.
unfoldable pub next_data : TcpFlow → List ℕ → Step × List ℕ
next_data flow bytes =
    let n = min (min tcp_mss flow.peer_window) (length bytes) in
    let acknowledgement = sequence_add flow.send_sequence n in
    let waiting = record flow { ack_waiters = flow.ack_waiters ++ acknowledgement ∷ [] } in
    let reply = send_tcp waiting ack_psh (take n bytes) in
    if length bytes == 0
    then (record { flow = flow; actions = []; failed = false }, [])
    else if flow.closed || flow.local_ended
    then (record { flow = flow; actions = []; failed = true }, bytes)
    else if flow.peer_window == 0
    then (
      record {
        flow = record flow { window_waiters = suc flow.window_waiters };
        actions = [];
        failed = false;
      },
      bytes,
    )
    else (
      record reply { flow = record (reply.flow) { send_sequence = acknowledgement } },
      drop n bytes,
    )
