-- ===== src/Virtio/Block.antt =====
-- packages/kernel/src/virtio/block.ts: the segments of a request, their transfer to and from the
-- storage, and a request's status. A segment is a view: the number of its buffer, its offset and
-- its length. The storage is a parameter, which works on a world: its own state and the guest's
-- memory.
pub mod Runs
pub mod Transfer
pub mod Requests
use distro.Common.{
  ℕ, zero, suc, ◌+◌, ◌-◌, ◌*◌, ◌/◌, ◌≤◌, ◌≡◌, Bool, true, false, not, ◌&&◌, ◌||◌, List, [], ◌∷◌,
  ◌++◌, Option, none, some, leb, ◌==◌, if◌then◌else◌, length, take, drop, all, map,
}
use distro.Bytes.Ints.{uint32_le, uint64_le, decode}

pub record Segment : Type 0 where
  pub buffer : ℕ
  pub byte_offset : ℕ
  pub byte_length : ℕ

abbrev pub adjacent : Segment → Segment → Bool
adjacent last s =
    (last.buffer == s.buffer) && (last.byte_offset + last.byte_length == s.byte_offset)

abbrev pub merge : Segment → Segment → Segment
merge last s = record last { byte_length = last.byte_length + s.byte_length }

-- The segment joins the last one, or stands behind it.
unfoldable pub push_run : List Segment → Segment → List Segment
push_run [] s = s ∷ []
push_run (last ∷ []) s = if adjacent last s then merge last s ∷ [] else last ∷ s ∷ []
push_run (first ∷ second ∷ merged) s = first ∷ push_run (second ∷ merged) s

unfoldable pub runs_loop : List Segment → List Segment → List Segment
runs_loop merged [] = merged
runs_loop merged (s ∷ segments) =
    runs_loop (if s.byte_length == 0 then merged else push_run merged s) segments

unfoldable pub runs : List Segment → List Segment
runs segments = runs_loop [] segments

abbrev pub total_length : List Segment → ℕ
total_length [] = 0
total_length (s ∷ segments) = s.byte_length + total_length segments

-- The storage's calls: a call moves bytes and says how many. `vectored` is optional.
module _ {World : Type 0} (single : World → ℕ → Segment → World × ℕ) where
  -- The loop over the pieces, which ends at the first short call.
  unfoldable pub transfer_loop : World → ℕ → List Segment → World × ℕ
  transfer_loop w at [] = (w, 0)
  transfer_loop w at (piece ∷ pieces) =
      let step = single w at piece in
      let rest = transfer_loop step.0 (at + step.1) pieces in
      if step.1 == piece.byte_length then (rest.0, step.1 + rest.1) else step

  unfoldable pub transfer_pieces :
      Option (World → ℕ → List Segment → World × ℕ) → World → ℕ → List Segment → World × ℕ
  transfer_pieces vectored w at (piece ∷ []) = single w at piece
  transfer_pieces (some many) w at pieces = many w at pieces
  transfer_pieces none w at pieces = transfer_loop w at pieces

  unfoldable pub transfer :
      Option (World → ℕ → List Segment → World × ℕ) → World → ℕ → List Segment → World × ℕ
  transfer vectored w at segments = transfer_pieces vectored w at (runs segments)

abbrev pub seg_max : ℕ
seg_max = 128

-- `BlockStorage`, on a world; `capacity` is in bytes.
pub record BlockStorage (World : Type 0) : Type 0 where
  pub read : World → ℕ → Segment → World × ℕ
  pub readv : Option (World → ℕ → List Segment → World × ℕ)
  pub write : Option (World → ℕ → Segment → World × ℕ)
  pub writev : Option (World → ℕ → List Segment → World × ℕ)
  pub flush : Option (World → World)
  pub capacity : ℕ

-- The advertised capacity: whole sectors.
abbrev pub advertised : ℕ → ℕ
advertised capacity = capacity / 512 * 512

pub record VirtqueueBuffer : Type 0 where
  pub array : Segment
  pub writable : Bool

pub record BlockDeviceRequest : Type 0 where
  pub type : ℕ
  pub sector : ℕ

-- `new BlockDeviceRequest(bytes)`.
abbrev pub read_request : List ℕ → BlockDeviceRequest
read_request bytes = record {
  type = decode uint32_le (take 4 bytes);
  sector = decode uint64_le (take 8 (drop 8 bytes));
}

pub data BlockDeviceStatus : Type 0 where
  is_ok io_error unsupported : BlockDeviceStatus

-- What a request comes to: an assertion that fails, or the status written and the bytes reported
-- by the release of the chain.
pub data Completion (World : Type 0) : Type 0 where
  assertion_failed : Completion World
  completed : World → BlockDeviceStatus → ℕ → Completion World

abbrev pub all_writable : List VirtqueueBuffer → Bool
all_writable buffers = all (λ b. b.writable) buffers

abbrev pub all_readonly : List VirtqueueBuffer → Bool
all_readonly buffers = all (λ b. not b.writable) buffers

abbrev pub arrays : List VirtqueueBuffer → List Segment
arrays [] = []
arrays (b ∷ buffers) = b.array ∷ arrays buffers

-- Whether the request lies in the advertised sectors.
abbrev pub is_in_sectors : ℕ → ℕ → List Segment → Bool
is_in_sectors capacity start segments =
    leb (length segments) seg_max && leb (start + total_length segments) (advertised capacity)

module _ {World : Type 0} (storage : BlockStorage World) where
  abbrev pub finish_read : ℕ → World × ℕ → Completion World
  finish_read size moved =
      if moved.1 == size then completed moved.0 is_ok size else completed moved.0 io_error 0

  abbrev pub finish_write : ℕ → World × ℕ → Completion World
  finish_write size moved =
      if moved.1 == size then completed moved.0 is_ok 0 else completed moved.0 io_error 0

  unfoldable pub request_in : World → ℕ → List VirtqueueBuffer → Completion World
  request_in w start buffers =
      let segments = arrays buffers in
      let moved = transfer storage.read storage.readv w start segments in
      if not (all_writable buffers)
      then assertion_failed
      else if not (is_in_sectors storage.capacity start segments)
      then completed w io_error 0
      else if total_length segments == 0
      then completed w is_ok 0
      else finish_read (total_length segments) moved

  unfoldable pub request_out_by :
      Option (World → ℕ → Segment → World × ℕ) → World → ℕ → List VirtqueueBuffer → Completion World
  request_out_by none w start buffers = completed w unsupported 0
  request_out_by (some write) w start buffers =
      let segments = arrays buffers in
      let moved = transfer write storage.writev w start segments in
      if not (is_in_sectors storage.capacity start segments)
      then completed w io_error 0
      else if total_length segments == 0
      then completed w is_ok 0
      else finish_write (total_length segments) moved

  unfoldable pub request_out : World → ℕ → List VirtqueueBuffer → Completion World
  request_out w start buffers =
      if not (all_readonly buffers)
      then assertion_failed
      else request_out_by storage.write w start buffers

  -- A flush comes after the writes in flight, which have ended in this world.
  unfoldable pub request_flush : Option (World → World) → World → Completion World
  request_flush none w = completed w unsupported 0
  request_flush (some flush) w = completed (flush w) is_ok 0

  unfoldable pub dispatch : World → BlockDeviceRequest → List VirtqueueBuffer → Completion World
  dispatch w request buffers =
      if request.type == 0
      then request_in w (request.sector * 512) buffers
      else if request.type == 1
      then request_out w (request.sector * 512) buffers
      else if request.type == 4
      then request_flush storage.flush w
      else if request.type == 8
      then completed w is_ok 0
      else completed w unsupported 0

  -- The buffers between the header and the status.
  unfoldable pub split_last :
      VirtqueueBuffer → List VirtqueueBuffer → List VirtqueueBuffer × VirtqueueBuffer
  split_last b [] = ([], b)
  split_last b (c ∷ buffers) = let rest = split_last c buffers in (b ∷ rest.0, rest.1)

  -- `#request`: `header_bytes` are the bytes of the header's array. A chain of one buffer has the
  -- same buffer as its header and its status.
  unfoldable pub request : World → List ℕ → List VirtqueueBuffer → Completion World
  request w header_bytes [] = assertion_failed
  request w header_bytes (header ∷ []) = assertion_failed
  request w header_bytes (header ∷ b ∷ buffers) =
      let parts = split_last b buffers in
      if header.writable || not (header.array.byte_length == 16)
      then assertion_failed
      else if not parts.1.writable || not (parts.1.array.byte_length == 1)
      then assertion_failed
      else dispatch w (read_request header_bytes) parts.0
