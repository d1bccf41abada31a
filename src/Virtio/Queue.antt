-- ===== src/Virtio/Queue.antt =====
-- packages/kernel/src/virtio/queue.ts, `PackedVirtqueue`: the ring's cursors, the chains popped from
-- it and the completions written to it. The ring is a list of descriptors, as the guest's memory has
-- them during one call; the descriptor at any other address is a parameter, since an indirect table
-- may lie anywhere in that memory.
pub mod Chains
use distro.Common.{
  ℕ, zero, suc, ◌+◌, ◌-◌, ◌/◌, ◌%◌, ◌^◌, Bool, true, false, not, ◌&&◌, ◌||◌, List, [], ◌∷◌, ◌++◌,
  Option, none, some, ltb, leb, ◌==◌, same, if◌then◌else◌, get_or, take, drop,
}

pub record Descriptor : Type 0 where
  pub addr : ℕ
  pub len : ℕ
  pub id : ℕ
  pub flags : ℕ

abbrev pub descriptor_size : ℕ
descriptor_size = 16

-- `DescriptorFlags`: the bits of a descriptor's flags.
abbrev pub has_next : ℕ → Bool
has_next flags = flags % 2 == 1

abbrev pub has_indirect : ℕ → Bool
has_indirect flags = flags / 2 ^ 2 % 2 == 1

abbrev pub has_avail : ℕ → Bool
has_avail flags = flags / 2 ^ 7 % 2 == 1

abbrev pub has_used : ℕ → Bool
has_used flags = flags / 2 ^ 15 % 2 == 1

pub record PackedVirtqueue : Type 0 where
  pub size : ℕ
  pub ring : List Descriptor
  pub avail_wrap : Bool
  pub used_wrap : Bool
  pub used_idx : ℕ
  pub avail_idx : ℕ
  pub valid : Bool

abbrev pub no_descriptor : Descriptor
no_descriptor = record { addr = 0; len = 0; id = 0; flags = 0 }

abbrev pub descriptor : PackedVirtqueue → ℕ → Descriptor
descriptor queue index = get_or queue.ring index no_descriptor

-- A cursor that a step took from `index`.
abbrev pub next_avail : PackedVirtqueue → PackedVirtqueue
next_avail queue =
    if leb queue.size (suc queue.avail_idx)
    then record queue { avail_idx = 0; avail_wrap = not queue.avail_wrap }
    else record queue { avail_idx = suc queue.avail_idx }

-- `advance`: whether the descriptor under the cursor is available; `none` where it is not.
abbrev pub is_ready : ℕ → Bool → Bool
is_ready flags wrap =
    not (same (has_avail flags) (has_used flags) || not (same (has_avail flags) wrap))

unfoldable pub advance : PackedVirtqueue → Option (ℕ × PackedVirtqueue)
advance queue =
    if is_ready (descriptor queue queue.avail_idx).flags queue.avail_wrap
    then some (queue.avail_idx, next_avail queue)
    else none

pub data QueueError : Type 0 where
  no_next : QueueError
  malformed_indirect : QueueError
  ring_full : QueueError

-- What `pop` comes to, with the queue as it is left: a throw keeps the cursor advanced. The loop over a chain runs on fuel, and `out_of_fuel` is a run that needs more.
pub data Popped (A : Type 0) : Type 0 where
  empty : PackedVirtqueue → Popped A
  popped : PackedVirtqueue → A → Popped A
  failed : PackedVirtqueue → QueueError → Popped A
  out_of_fuel : Popped A

-- A chain: the id and the number of ring slots that its release gives back, and its descriptors.
pub record Chain : Type 0 where
  pub id : ℕ
  pub skip : ℕ
  pub descriptors : List Descriptor

unfoldable pub pop_rest : ℕ → PackedVirtqueue → ℕ → ℕ → List Descriptor → Popped Chain
pop_rest zero queue id skip chain = out_of_fuel
pop_rest (suc fuel) queue id skip chain = elim (advance queue) [
  | none ↦ failed queue no_next
  | some step ↦
      let desc = descriptor queue step.0 in
      let rest = pop_rest fuel step.1 id (suc skip) (chain ++ desc ∷ []) in
      if has_next desc.flags
      then rest
      else popped step.1 (record { id = id; skip = suc skip; descriptors = chain ++ desc ∷ [] })
]

module _ (descriptor_at : ℕ → Descriptor) where
  unfoldable pub indirect_descriptors : ℕ → ℕ → List Descriptor
  indirect_descriptors address zero = []
  indirect_descriptors address (suc count) =
      descriptor_at address ∷ indirect_descriptors (address + descriptor_size) count

  unfoldable pub pop_indirect : PackedVirtqueue → Descriptor → Popped Chain
  pop_indirect queue desc =
      if not (desc.len % descriptor_size == 0) || ltb queue.size (desc.len / descriptor_size)
      then failed queue malformed_indirect
      else popped queue (record {
        id = desc.id;
        skip = 1;
        descriptors = indirect_descriptors desc.addr (desc.len / descriptor_size);
      })

  -- `pop`, on a queue that is current throughout.
  unfoldable pub pop : PackedVirtqueue → Popped Chain
  pop queue = elim (advance queue) [
    | none ↦ empty queue
    | some step ↦
        let desc = descriptor queue step.0 in
        if has_next desc.flags
        then pop_rest queue.size step.1 desc.id 1 (desc ∷ [])
        else if has_indirect desc.flags
        then pop_indirect step.1 desc
        else popped step.1 (record { id = desc.id; skip = 1; descriptors = desc ∷ [] })
  ]

-- The flags of a completion.
abbrev pub completion_flags : Bool → ℕ → ℕ
completion_flags used_wrap written =
    (if used_wrap then 2 ^ 7 + 2 ^ 15 else 0) + (if ltb 0 written then 2 else 0)

-- `publish_virtqueue_completion`, the descriptor's part of it.
abbrev pub publish : List Descriptor → ℕ → ℕ → ℕ → ℕ → List Descriptor
publish [] index id written flags = []
publish (d ∷ ring) zero id written flags = record d { id = id; len = written; flags = flags } ∷ ring
publish (d ∷ ring) (suc index) id written flags = d ∷ publish ring index id written flags

abbrev pub next_used : PackedVirtqueue → ℕ → PackedVirtqueue
next_used queue skip =
    if leb queue.size (queue.used_idx + skip)
    then record queue {
      used_idx = queue.used_idx + skip - queue.size;
      used_wrap = not queue.used_wrap;
    }
    else record queue { used_idx = queue.used_idx + skip }

unfoldable pub release : PackedVirtqueue → ℕ → ℕ → ℕ → Popped Unit
release queue id skip written =
    if not queue.valid
    then popped queue tt
    else if not (is_ready (descriptor queue queue.used_idx).flags queue.used_wrap)
    then failed queue ring_full
    else popped
        (record (next_used queue skip) {
          ring =
              publish queue.ring queue.used_idx id written
                (completion_flags queue.used_wrap written);
        })
        tt
