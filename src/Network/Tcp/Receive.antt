-- ===== src/Network/Tcp/Receive.antt =====
-- packages/linux-guest/src/network.ts, `process_tcp`: what the host's stream receives, against the
-- stream of bytes that the guest sends.
use distro.Common.{
  ℕ, ◌+◌, ◌^◌, ◌<◌, ◌≡◌, refl, sym, ◌∙◌, Bool, true, false, not, ◌&&◌, List, [], ◌∷◌, ltb, ◌==◌,
  if◌then◌else◌, length, arith, Bool-cases, inl, inr, All,
}
use distro.Network.Packet.{ParsedTcpSegment}
use distro.Network.Tcp.{
  has_fin, has_rst, has_ack, TcpFlow, Action, Step, tcp_receive_window, send_tcp, note_ack,
  close_tcp_flow, abort_tcp_flow, has_ended, accept_payload, accept_fin, finish_segment,
  accept_segment, process_established, process_tcp, receive_tcp, flow_closed, flow_failed, ack,
}
use distro.Network.Tcp.Tracking.{
  InOrder, IsPartOf, Tracks, Tracks-fin, Tracks-payload, Tracks-same, has_ended_lem,
}

-- What a flow keeps as long as it is open.
abbrev pub IsLive : ℕ → List ℕ → TcpFlow → Type 0
IsLive start stream flow =
    flow.closed ≡ false → (flow.established ≡ true) × InOrder start stream flow

-- A step that neither fails nor closes the flow leaves it established and in order.
record IsKept (start : ℕ) (stream : List ℕ) (step : Step) : Type 0 where
  keeps : step.failed ≡ false → IsLive start stream step.flow

module _ (start : ℕ) (stream : List ℕ) where
  if-IsKept :
      (b : Bool) (x y : Step)
      → (b ≡ true → IsKept start stream x)
      → (b ≡ false → IsKept start stream y)
      → IsKept start stream (if b then x else y)
  if-IsKept true x y p q = p refl
  if-IsKept false x y p q = q refl

  send_tcp-IsKept :
      (flow : TcpFlow) (flags : ℕ) (payload : List ℕ)
      → flow.established ≡ true
      → InOrder start stream flow
      → IsKept start stream (send_tcp flow flags payload)
  unfolding send_tcp
  send_tcp-IsKept flow flags payload e h = record { keeps = λ f c. (e, h) }

  close_tcp_flow-closed :
      (flow : TcpFlow) (how : Action) → (close_tcp_flow flow how).flow.closed ≡ true
  unfolding close_tcp_flow
  close_tcp_flow-closed flow how = elim (Bool-cases flow.closed) [
    | inl e ↦ rw e refl
    | inr e ↦ rw e refl
  ]

  closed-IsKept : (step : Step) → step.flow.closed ≡ true → IsKept start stream step
  closed-IsKept step e = record { keeps = λ f c. (let no : ⊥ = cc in absurd no) }

  failed-IsKept : (step : Step) → step.failed ≡ true → IsKept start stream step
  failed-IsKept step e = record { keeps = λ f c. (let no : ⊥ = cc in absurd no) }

  finish_segment-IsKept :
      (flow : TcpFlow)
      → flow.established ≡ true
      → InOrder start stream flow
      → IsKept start stream (finish_segment flow)
  unfolding finish_segment
  finish_segment-IsKept flow e h =
      if-IsKept (flow.local_ended && (flow.remote_ended && (length flow.ack_waiters == 0))) _ _
        (λ _. closed-IsKept _ (close_tcp_flow-closed (send_tcp flow ack []).flow flow_closed))
        (λ _. send_tcp-IsKept flow ack [] e h)

  accept_payload-empty :
      (flow : TcpFlow) (payload : List ℕ)
      → (length payload == 0) ≡ true
      → accept_payload flow payload ≡ flow
  unfolding accept_payload
  accept_payload-empty flow payload e = rw e refl

  accept_payload-established :
      (flow : TcpFlow) (payload : List ℕ)
      → (accept_payload flow payload).established ≡ flow.established
  unfolding accept_payload
  accept_payload-established flow payload = elim (Bool-cases (length payload == 0)) [
    | inl e ↦ rw e refl
    | inr e ↦ rw e refl
  ]

  -- What the flow holds after the payload of a segment in sequence, before the guest's FIN.
  accept_payload-InOrder :
      (flow : TcpFlow) (segment : ParsedTcpSegment)
      → length stream < 2 ^ 32
      → IsPartOf start stream segment
      → segment.sequence ≡ flow.receive_sequence
      → Tracks start stream flow.readable false flow.receive_sequence
      → Tracks start stream
          (accept_payload flow segment.payload).readable
          false
          (accept_payload flow segment.payload).receive_sequence
  unfolding accept_payload
  accept_payload-InOrder flow segment small part at h =
      elim (Bool-cases (length segment.payload == 0)) [
        | inl e ↦ rw e h
        | inr e ↦ rw e (
            Tracks-payload start stream flow.readable flow.receive_sequence segment small part at h)
      ]

  accept_payload-remote :
      (flow : TcpFlow) (payload : List ℕ)
      → (accept_payload flow payload).remote_ended ≡ flow.remote_ended
  unfolding accept_payload
  accept_payload-remote flow payload = elim (Bool-cases (length payload == 0)) [
    | inl e ↦ rw e refl
    | inr e ↦ rw e refl
  ]

  accept_payload-whole :
      (flow : TcpFlow) (segment : ParsedTcpSegment)
      → length stream < 2 ^ 32
      → IsPartOf start stream segment
      → segment.sequence ≡ flow.receive_sequence
      → (flow.remote_ended && ltb 0 (length segment.payload)) ≡ false
      → InOrder start stream flow
      → InOrder start stream (accept_payload flow segment.payload)
  accept_payload-whole flow segment small part at live h = elim (Bool-cases flow.remote_ended) [
    | inl o ↦
        let none_left : ltb 0 (length segment.payload) ≡ false = rw o at live in
        rw (accept_payload-empty flow segment.payload (ground arith)) h
    | inr o ↦
        Tracks-same start stream (accept_payload flow segment.payload).readable _ _ _
          (accept_payload-remote flow segment.payload ∙ o)
          (accept_payload-InOrder flow segment small part at (rw o at h))
  ]

  accept_segment-IsKept :
      (flow : TcpFlow) (segment : ParsedTcpSegment)
      → length stream < 2 ^ 32
      → IsPartOf start stream segment
      → segment.sequence ≡ flow.receive_sequence
      → flow.established ≡ true
      → InOrder start stream flow
      → IsKept start stream (accept_segment flow segment)
  unfolding accept_segment accept_fin
  accept_segment-IsKept flow segment small part at e h =
      let ended = has_ended flow.readable in
      let ended_is : has_ended flow.readable ≡ flow.remote_ended =
        has_ended_lem start stream flow.readable _ _ h in
      let taken = accept_payload flow segment.payload in
      let taken_open : taken.established ≡ true =
        accept_payload-established flow segment.payload ∙ e in
      let before : (flow.remote_ended ≡ false)
          → Tracks start stream flow.readable false flow.receive_sequence =
        λ o. (rw o at h) in
      let after = λ (o : flow.remote_ended ≡ false).
        accept_payload-InOrder flow segment small part at (before o) in
      if-IsKept (ended && ltb 0 (length segment.payload)) _ _ (λ _. failed-IsKept _ refl)
        (λ live.
          if-IsKept (has_fin segment.flags) _ _
            (λ _.
              if-IsKept ended _ _ (λ _. failed-IsKept _ refl)
                (λ live_still. finish_segment-IsKept (accept_fin taken) taken_open (
                  Tracks-fin start stream taken.readable taken.receive_sequence
                    (after (sym ended_is ∙ live_still)))))
            (λ _.
              finish_segment-IsKept taken taken_open
                (accept_payload-whole flow segment small part at (rw ended_is at live) h)))

  process_established-IsKept :
      (flow : TcpFlow) (segment : ParsedTcpSegment)
      → length stream < 2 ^ 32
      → IsPartOf start stream segment
      → flow.established ≡ true
      → InOrder start stream flow
      → IsKept start stream (process_established flow segment)
  unfolding process_established
  process_established-IsKept flow segment small part e h =
      if-IsKept (length segment.payload + (if has_fin segment.flags then 1 else 0) == 0) _ _
        (λ _. record { keeps = λ f c. (e, h) })
        (λ _.
          if-IsKept (not (segment.sequence == flow.receive_sequence)) _ _
            (λ _. send_tcp-IsKept flow ack [] e h)
            (λ at.
              if-IsKept
                (ltb 0 (length segment.payload)
                  && ltb (tcp_receive_window flow) (length segment.payload))
                _ _ (λ _. send_tcp-IsKept flow ack [] e h)
                (λ _. accept_segment-IsKept flow segment small part (ground arith) e h)))

  note_ack-InOrder :
      (flow : TcpFlow) (segment : ParsedTcpSegment)
      → InOrder start stream flow
      → InOrder start stream (note_ack flow segment)
  unfolding note_ack
  note_ack-InOrder flow segment h = elim (Bool-cases (has_ack segment.flags)) [
    | inl e ↦ rw e h
    | inr e ↦ rw e h
  ]

  note_ack-established :
      (flow : TcpFlow) (segment : ParsedTcpSegment)
      → (note_ack flow segment).established ≡ flow.established
  unfolding note_ack
  note_ack-established flow segment = elim (Bool-cases (has_ack segment.flags)) [
    | inl e ↦ rw e refl
    | inr e ↦ rw e refl
  ]

  process_tcp-IsKept :
      (flow : TcpFlow) (segment : ParsedTcpSegment)
      → length stream < 2 ^ 32
      → IsPartOf start stream segment
      → IsLive start stream flow
      → IsKept start stream (process_tcp flow segment)
  unfolding process_tcp
  process_tcp-IsKept flow segment small part live =
      if-IsKept flow.closed _ _ (λ c. closed-IsKept _ c)
        (λ c.
          if-IsKept (has_rst segment.flags) _ _
            (λ _. closed-IsKept _ (close_tcp_flow-closed flow flow_failed))
            (λ _.
              if-IsKept (not flow.established) _ _
                (λ n. (let e = (live c).0 in let no : ⊥ = ground arith in absurd no))
                (λ _.
                  process_established-IsKept (note_ack flow segment) segment small part
                    (note_ack-established flow segment ∙ (live c).0)
                    (note_ack-InOrder flow segment (live c).1))))

  abort_tcp_flow-closed : (flow : TcpFlow) → (abort_tcp_flow flow).flow.closed ≡ true
  unfolding abort_tcp_flow
  abort_tcp_flow-closed flow = elim (Bool-cases flow.closed) [
    | inl e ↦ rw e refl
    | inr e ↦ rw e refl
  ]

-- The guest's segments, as they come.
abbrev pub receive_all : TcpFlow → List ParsedTcpSegment → TcpFlow
receive_all flow [] = flow
receive_all flow (segment ∷ segments) = receive_all (receive_tcp flow segment) segments

receive_tcp-IsLive :
    (start : ℕ) (stream : List ℕ) (flow : TcpFlow) (segment : ParsedTcpSegment)
    → length stream < 2 ^ 32
    → IsPartOf start stream segment
    → IsLive start stream flow
    → IsLive start stream (receive_tcp flow segment)
unfolding receive_tcp
receive_tcp-IsLive start stream flow segment small part live =
    elim (Bool-cases (process_tcp flow segment).failed) [
      | inl e ↦ rw e (λ c.
          (let closed = abort_tcp_flow-closed start stream (process_tcp flow segment).flow in
            let no : ⊥ = cc in absurd no))
      | inr e ↦ rw e ((process_tcp-IsKept start stream flow segment small part live).keeps e)
    ]

receive_all-IsLive :
    (start : ℕ) (stream : List ℕ) (flow : TcpFlow) (segments : List ParsedTcpSegment)
    → length stream < 2 ^ 32
    → All (IsPartOf start stream) segments
    → IsLive start stream flow
    → IsLive start stream (receive_all flow segments)
receive_all-IsLive start stream flow [] small parts live = live
receive_all-IsLive start stream flow (segment ∷ segments) small (part, parts) live =
    receive_all-IsLive start stream (receive_tcp flow segment) segments small parts
      (receive_tcp-IsLive start stream flow segment small part live)

-- While an established flow stays open, whatever segments of the guest's stream come, in any order,
-- lost or again, the bytes that the host's stream has received are the guest's first bytes, and the
-- receive sequence number is the one after them, and after the stream's end once that has come; the
-- guest's stream is shorter than 2 ^ 32 bytes.
pub receive_all-InOrder :
    (start : ℕ) (stream : List ℕ) (flow : TcpFlow) (segments : List ParsedTcpSegment)
    → length stream < 2 ^ 32
    → All (IsPartOf start stream) segments
    → flow.established ≡ true
    → InOrder start stream flow
    → (receive_all flow segments).closed ≡ false
    → InOrder start stream (receive_all flow segments)
receive_all-InOrder start stream flow segments small parts e h c =
    (receive_all-IsLive start stream flow segments small parts (λ o. (e, h)) c).1
