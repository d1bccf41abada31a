-- ===== src/Network/Reassembly.antt =====
-- packages/linux-guest/src/network.ts: the reassembly of IPv4 fragments, and the fragments that
-- `send_ip` emits. A JavaScript map is a list of entries in the order of their insertion; a timer is
-- an event that calls `discard_ip_reassembly`.
pub mod Insertion
pub mod Places
pub mod Payloads
pub mod Table
use distro.Common.{
  ℕ, zero, suc, ◌+◌, ◌-◌, ◌*◌, ◌/◌, ◌%◌, ◌≤◌, ◌<◌, Bool, true, false, not, ◌&&◌, ◌||◌, List, [],
  ◌∷◌, ◌++◌, Option, none, some, ltb, leb, ◌==◌, if◌then◌else◌, length, take, drop, min, replicate,
}
use distro.Bytes.Buffer.{overwrite}
use distro.Network.Packet.{ParsedIpPacket, ParsedIpFragment, ip_fragment_payload, max_ip_payload}

pub record IpFragment : Type 0 where
  pub offset : ℕ
  pub payload : List ℕ

abbrev pub end_of : IpFragment → ℕ
end_of f = f.offset + length f.payload

pub record IpReassembly : Type 0 where
  pub source : ℕ
  pub destination : ℕ
  pub protocol : ℕ
  pub fragments : List IpFragment
  pub total_length : Option ℕ

abbrev pub piece_of : ParsedIpFragment → IpFragment
piece_of f = record { offset = f.offset; payload = f.packet.payload }

-- The template `source:destination:protocol:identification`.
pub record ReassemblyKey : Type 0 where
  pub source : ℕ
  pub destination : ℕ
  pub protocol : ℕ
  pub identification : ℕ

abbrev pub same_key : ReassemblyKey → ReassemblyKey → Bool
same_key a b =
    a.source == b.source
    && (a.destination == b.destination
        && (a.protocol == b.protocol && a.identification == b.identification))

abbrev pub ip_reassembly_key : ParsedIpFragment → ReassemblyKey
ip_reassembly_key f = record {
  source = f.packet.source;
  destination = f.packet.destination;
  protocol = f.packet.protocol;
  identification = f.identification;
}

abbrev pub Reassemblies : Type 0
Reassemblies = List (ReassemblyKey × IpReassembly)

abbrev pub max_ip_reassemblies : ℕ
max_ip_reassemblies = 64

abbrev pub max_ip_fragments : ℕ
max_ip_fragments = 64

unfoldable pub lookup : ReassemblyKey → Reassemblies → Option IpReassembly
lookup key [] = none
lookup key ((k, r) ∷ m) = if same_key k key then some r else lookup key m

unfoldable pub discard_ip_reassembly : ReassemblyKey → Reassemblies → Reassemblies
discard_ip_reassembly key [] = []
discard_ip_reassembly key ((k, r) ∷ m) =
    let rest = discard_ip_reassembly key m in if same_key k key then rest else (k, r) ∷ rest

-- The entry is an object that is changed in its place.
unfoldable pub update : ReassemblyKey → IpReassembly → Reassemblies → Reassemblies
update key r [] = []
update key r ((k, q) ∷ m) = let rest = update key r m in (k, if same_key k key then r else q) ∷ rest

-- The fragments before the first that ends behind `offset`, and the others: `insertion` is the
-- length of the first list, and `previous` and `next` stand at its end and behind it.
unfoldable pub split_at_insertion : ℕ → List IpFragment → List IpFragment × List IpFragment
split_at_insertion offset [] = ([], [])
split_at_insertion offset (c ∷ cs) =
    let rest = split_at_insertion offset cs in
    if ltb offset (end_of c) then ([], c ∷ cs) else (c ∷ rest.0, rest.1)

unfoldable pub overlaps_previous : ℕ → List IpFragment → Bool
overlaps_previous offset [] = false
overlaps_previous offset (c ∷ []) = ltb offset (end_of c)
overlaps_previous offset (c ∷ d ∷ cs) = overlaps_previous offset (d ∷ cs)

unfoldable pub overlaps_next : ℕ → List IpFragment → Bool
overlaps_next end [] = false
overlaps_next end (c ∷ cs) = ltb c.offset end

unfoldable pub same_bytes : List ℕ → List ℕ → Bool
same_bytes [] [] = true
same_bytes [] (b ∷ ys) = false
same_bytes (a ∷ xs) [] = false
same_bytes (a ∷ xs) (b ∷ ys) = a == b && same_bytes xs ys

unfoldable pub duplicate_of : IpFragment → List IpFragment → Option IpFragment
duplicate_of f [] = none
duplicate_of f (c ∷ cs) =
    if c.offset == f.offset && length c.payload == length f.payload
    then some c
    else duplicate_of f cs

unfoldable pub reaches : ℕ → List IpFragment → Bool
reaches end [] = false
reaches end (c ∷ cs) = leb end c.offset || reaches end cs

-- The length of fragments that follow each other from `length` on, `none` at a gap.
unfoldable pub contiguous : ℕ → List IpFragment → Option ℕ
contiguous len [] = some len
contiguous len (c ∷ cs) =
    let rest = contiguous (len + length c.payload) cs in if c.offset == len then rest else none

unfoldable pub write_fragments : List ℕ → List IpFragment → List ℕ
write_fragments payload [] = payload
write_fragments payload (c ∷ cs) = write_fragments (overwrite payload c.offset c.payload) cs

-- What a fragment does to its entry.
pub data Effect : Type 0 where
  discarded : Effect
  kept : IpReassembly → Effect
  completed : List ℕ → Effect

-- Once the fragment is in place: whether the payload is whole.
unfoldable pub try_complete : IpReassembly → Effect
try_complete r = elim r.total_length [
  | none ↦ kept r
  | some total ↦ elim (contiguous 0 r.fragments) [
    | none ↦ kept r
    | some len ↦
        if len == total then completed (write_fragments (replicate len 0) r.fragments) else kept r
  ]
]

unfoldable pub differs : Option ℕ → ℕ → Bool
differs none end = false
differs (some total) end = not (total == end)

-- `if (!fragment.more_fragments)`: the last fragment fixes the total length.
unfoldable pub fix_total : Bool → ℕ → IpReassembly → Effect
fix_total true end r = try_complete r
fix_total false end r =
    if differs r.total_length end
    then discarded
    else if reaches end r.fragments
    then discarded
    else try_complete (record r { total_length = some end })

unfoldable pub insert_fragment : ParsedIpFragment → IpReassembly → Effect
insert_fragment f r =
    let split = split_at_insertion f.offset r.fragments in
    let fragments = split.0 ++ piece_of f ∷ split.1 in
    if length r.fragments == max_ip_fragments
    then discarded
    else fix_total f.more_fragments (f.offset + length f.packet.payload)
        (record r { fragments = fragments })

unfoldable pub below : Option ℕ → ℕ → Bool
below none end = false
below (some total) end = ltb total end

-- A fragment that does not fit the packet or the total length.
unfoldable pub misfits : ParsedIpFragment → IpReassembly → Bool
unfolding below
misfits f r =
    let end = f.offset + length f.packet.payload in
    (f.offset == 0 && ltb 0xffff (end + f.header_length)) || below r.total_length end

unfoldable pub overlaps : ParsedIpFragment → IpReassembly → Bool
overlaps f r =
    let split = split_at_insertion f.offset r.fragments in
    overlaps_previous f.offset split.0 || overlaps_next (f.offset + length f.packet.payload) split.1

unfoldable pub is_duplicate : ParsedIpFragment → IpReassembly → Bool
unfolding duplicate_of same_bytes
is_duplicate f r = elim (duplicate_of (piece_of f) r.fragments) [
  | none ↦ false
  | some c ↦ same_bytes c.payload f.packet.payload
]

unfoldable pub add_fragment : ParsedIpFragment → IpReassembly → Effect
add_fragment f r =
    if misfits f r
    then discarded
    else if overlaps f r
    then (if is_duplicate f r then kept r else discarded)
    else insert_fragment f r

unfoldable pub fresh_reassembly : ParsedIpFragment → IpReassembly
fresh_reassembly f = record {
  source = f.packet.source;
  destination = f.packet.destination;
  protocol = f.packet.protocol;
  fragments = [];
  total_length = none;
}

-- `keys().next()` is the oldest entry.
unfoldable pub drop_oldest : Reassemblies → Reassemblies
drop_oldest [] = []
drop_oldest (e ∷ m) = m

-- The entry for a fragment, made if there is none.
unfoldable pub find_or_create : ParsedIpFragment → Reassemblies → Reassemblies × IpReassembly
find_or_create f m =
    let key = ip_reassembly_key f in
    let room = if length m == max_ip_reassemblies then drop_oldest m else m in
    elim (lookup key m) [
      | some r ↦ (m, r)
      | none ↦ (room ++ (key, fresh_reassembly f) ∷ [], fresh_reassembly f)
    ]

unfoldable pub settle :
    ReassemblyKey → IpReassembly → Effect → Reassemblies → Reassemblies × Option ParsedIpPacket
settle key r discarded m = (discard_ip_reassembly key m, none)
settle key r (kept r') m = (update key r' m, none)
settle key r (completed payload) m = (
  discard_ip_reassembly key m,
  some (record {
    source = r.source;
    destination = r.destination;
    protocol = r.protocol;
    payload = payload;
  }),
)

unfoldable pub reassemble_ip :
    ParsedIpFragment → Reassemblies → Reassemblies × Option ParsedIpPacket
reassemble_ip f m =
    let key = ip_reassembly_key f in
    let (entries, r) = find_or_create f m in
    if f.offset == 0 && not f.more_fragments
    then (discard_ip_reassembly key m, some f.packet)
    else settle key r (add_fragment f r) entries

-- The loop of `send_ip`: each slice with its offset and whether more follow. A round sends at least
-- a byte, so that the length is rounds enough.
unfoldable pub slices : ℕ → ℕ → List ℕ → List (ℕ × Bool × List ℕ)
slices zero offset payload = []
slices (suc rounds) offset payload =
    let end = min (offset + ip_fragment_payload) (length payload) in
    let rest = slices rounds (offset + ip_fragment_payload) payload in
    if ltb offset (length payload)
    then (offset, ltb end (length payload), take (end - offset) (drop offset payload)) ∷ rest
    else []

-- What `send_ip` emits: `none` if the payload is too large.
unfoldable pub send_ip : List ℕ → Option (List (ℕ × Bool × List ℕ))
send_ip payload =
    if ltb max_ip_payload (length payload)
    then none
    else if leb (length payload) ip_fragment_payload
    then some ((0, false, payload) ∷ [])
    else some (slices (length payload) 0 payload)
