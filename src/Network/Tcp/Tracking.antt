-- ===== src/Network/Tcp/Tracking.antt =====
-- packages/linux-guest/src/network.ts: a flow's receive sequence number and readable stream, against
-- the stream of bytes that the guest sends.
use distro.Common.{
  ℕ, ◌+◌, ◌%◌, ◌^◌, ◌<◌, ◌≡◌, refl, sym, ap, ◌∙◌, Bool, true, false, List, [], ◌∷◌, ◌++◌, Option,
  none, some, if◌then◌else◌, length, length-append, arith, append_assoc,
}
use distro.Network.Packet.{ParsedTcpSegment}
use distro.Network.Tcp.{sequence_add, Readable, TcpFlow, end_readable, enqueue, has_ended}

-- The sequence number of the next byte is that of the stream's start, plus the bytes received, plus
-- one for the end of the stream; the stream has ended just when the guest's FIN has come; and the
-- bytes received are the stream's first.
abbrev pub Tracks : ℕ → List ℕ → Option Readable → Bool → ℕ → Type 0
Tracks start stream none remote_ended sequence = ⊥
Tracks start stream (some r) remote_ended sequence =
    (r.ended ≡ remote_ended)
    × ((start + length r.received + (if remote_ended then 1 else 0)) % 2 ^ 32 ≡ sequence)
    × ((rest : List ℕ) × (r.received ++ rest ≡ stream))

abbrev pub InOrder : ℕ → List ℕ → TcpFlow → Type 0
InOrder start stream flow =
    Tracks start stream flow.readable flow.remote_ended flow.receive_sequence

-- A segment's payload lies in the stream where its sequence number says.
abbrev pub IsPartOf : ℕ → List ℕ → ParsedTcpSegment → Type 0
IsPartOf start stream segment =
    (front : List ℕ) × (back : List ℕ) × (front ++ (segment.payload ++ back) ≡ stream)
    × (segment.sequence ≡ (start + length front) % 2 ^ 32)

append_cancel :
    (xs ys us bs : List ℕ) → xs ++ us ≡ ys ++ bs → length xs ≡ length ys → (xs ≡ ys) × (us ≡ bs)
append_cancel [] [] us bs e l = (refl, e)
append_cancel [] (y ∷ ys) us bs e l = absurd (omega arith)
append_cancel (x ∷ xs) [] us bs e l = absurd (omega arith)
append_cancel (x ∷ xs) (y ∷ ys) us bs e l =
    let both = append_cancel xs ys us bs (cc) (omega arith) in (cc, both.1)

pub Tracks-payload :
    (start : ℕ) (stream : List ℕ) (o : Option Readable) (sequence : ℕ) (segment : ParsedTcpSegment)
    → length stream < 2 ^ 32
    → IsPartOf start stream segment
    → segment.sequence ≡ sequence
    → Tracks start stream o false sequence
    → Tracks start stream
        (enqueue o segment.payload)
        false
        (sequence_add sequence (length segment.payload))
unfolding enqueue sequence_add
Tracks-payload start stream none sequence segment small part at h = h
Tracks-payload start stream (some r) sequence segment small (front, back, whole, place) at
      (e, s, rest_of) =
    let rest = rest_of.0 in
    let p = rest_of.1 in
    let l1 = length-append r.received rest in
    let l2 = length-append front (segment.payload ++ back) in
    let both = append_cancel r.received front rest (segment.payload ++ back) (p ∙ sym whole) (
      let same_size : length (r.received ++ rest) ≡ length stream = ap length p in
      let same_whole : length (front ++ (segment.payload ++ back)) ≡ length stream =
        ap length whole in
      omega (arith, s, l1, l2, same_size, same_whole, place, at, small)) in
    (
      e,
      omega (arith, s, length-append r.received segment.payload),
      (
        back,
        append_assoc r.received segment.payload back
            ∙ (ap (λ f. f ++ (segment.payload ++ back)) both.0 ∙ whole),
      ),
    )

pub Tracks-fin :
    (start : ℕ) (stream : List ℕ) (o : Option Readable) (sequence : ℕ)
    → Tracks start stream o false sequence
    → Tracks start stream (end_readable o) true (sequence_add sequence 1)
unfolding end_readable sequence_add
Tracks-fin start stream none sequence h = h
Tracks-fin start stream (some r) sequence (e, s, p) = (refl, omega (arith, s), p)

pub Tracks-same :
    (start : ℕ) (stream : List ℕ) (o : Option Readable) (b c : Bool) (sequence : ℕ)
    → c ≡ b
    → Tracks start stream o b sequence
    → Tracks start stream o c sequence
Tracks-same start stream o b c sequence e h = rw e h

pub has_ended_lem :
    (start : ℕ) (stream : List ℕ) (o : Option Readable) (b : Bool) (sequence : ℕ)
    → Tracks start stream o b sequence
    → has_ended o ≡ b
unfolding has_ended
has_ended_lem start stream none b sequence h = absurd h
has_ended_lem start stream (some r) b sequence (e, s, p) = e
