-- ===== src/Virtio/Queue/Chains.antt =====
-- packages/kernel/src/virtio/queue.ts, `pop`: a chain that the guest has made ends within the ring,
-- whatever its descriptors say.
use distro.Common.{
  ◌⊎◌, ℕ, zero, suc, ◌+◌, ◌-◌, ◌/◌, ◌%◌, ◌==◌, ◌||◌, ltb, length, length-append, ◌≤◌, ◌<◌, ◌≡◌,
  refl, ap, Bool, true, false, not, List, [], ◌∷◌, ◌++◌, none, some, leb, if◌then◌else◌, arith,
  Bool-cases, inl, inr,
}
use distro.Virtio.Queue.{
  PackedVirtqueue, Descriptor, descriptor, next_avail, is_ready, advance, Popped, popped, failed,
  empty, Chain, pop_rest, pop, pop_indirect, has_next, has_indirect, QueueError, no_next,
  malformed_indirect, indirect_descriptors, descriptor_size,
}

-- The cursor's way to the place `idx`, on the lap after the one of flag `wrap`.
abbrev pub Away : PackedVirtqueue → ℕ → Bool → ℕ → Type 0
Away queue idx wrap distance =
    (queue.avail_idx < queue.size)
    × (idx < queue.size)
    × (((queue.avail_wrap ≡ wrap) × (queue.avail_idx + distance ≡ idx + queue.size))
        ⊎ ((queue.avail_wrap ≡ not wrap) × (queue.avail_idx + distance ≡ idx)))

next_avail-Away :
    (queue : PackedVirtqueue) (idx : ℕ) (wrap : Bool) (distance : ℕ)
    → Away queue idx wrap (suc distance)
    → Away (next_avail queue) idx wrap distance
next_avail-Away queue idx wrap distance h =
    elim (Bool-cases (leb queue.size (suc queue.avail_idx))) [
      | inl l ↦ elim h.2 [
        | inl e ↦ rw l (ground arith, h.1, inr (ap not e.0, ground arith))
        | inr e ↦ absurd (let no : ⊥ = ground arith in no)
      ]
      | inr l ↦ elim h.2 [
        | inl e ↦ rw l (ground arith, h.1, inl (e.0, ground arith))
        | inr e ↦ rw l (ground arith, h.1, inr (e.0, ground arith))
      ]
    ]

is_ready-wrap :
    (flags : ℕ) (wrap : Bool) → is_ready flags wrap ≡ true → is_ready flags (not wrap) ≡ false
is_ready-wrap flags true e = ground arith
is_ready-wrap flags false e = ground arith

next_avail-ring :
    (queue : PackedVirtqueue)
    → ((next_avail queue).ring ≡ queue.ring) × ((next_avail queue).size ≡ queue.size)
next_avail-ring queue = elim (Bool-cases (leb queue.size (suc queue.avail_idx))) [
  | inl l ↦ rw l (refl, refl)
  | inr l ↦ rw l (refl, refl)
]

advance-some :
    (queue : PackedVirtqueue)
    → is_ready (descriptor queue queue.avail_idx).flags queue.avail_wrap ≡ true
    → advance queue ≡ some (queue.avail_idx, next_avail queue)
unfolding advance
advance-some queue e = rw e refl

advance-none :
    (queue : PackedVirtqueue)
    → is_ready (descriptor queue queue.avail_idx).flags queue.avail_wrap ≡ false
    → advance queue ≡ none
unfolding advance
advance-none queue e = rw e refl

-- The cursor lies in a ring of `n` places.
abbrev pub InRing : ℕ → PackedVirtqueue → Type 0
InRing n queue = (queue.avail_idx < n) × (queue.size ≡ n)

next_avail-InRing : (n : ℕ) (queue : PackedVirtqueue) → InRing n queue → InRing n (next_avail queue)
next_avail-InRing n queue (l, e) = elim (Bool-cases (leb queue.size (suc queue.avail_idx))) [
  | inl b ↦ rw b (omega arith, e)
  | inr b ↦ rw b (ground arith, e)
]

-- A result of `pop` that is not out of fuel: the cursor stays in a ring of `n` places, also after a
-- throw, and a chain takes at most `n` of them and has at most `n` descriptors.
pub data IsWithin (n : ℕ) : Popped Chain → Type 0 where
  at_end : (queue : PackedVirtqueue) → InRing n queue → IsWithin n (empty queue)
  refused :
      (queue : PackedVirtqueue) (e : QueueError) → InRing n queue → IsWithin n (failed queue e)
  took :
      (queue : PackedVirtqueue) (chain : Chain)
      → chain.skip ≤ n
      → length chain.descriptors ≤ n
      → InRing n queue
      → IsWithin n (popped queue chain)

if-IsWithin :
    (n : ℕ) (b : Bool) (x y : Popped Chain)
    → IsWithin n x
    → (b ≡ false → IsWithin n y)
    → IsWithin n (if b then x else y)
if-IsWithin n true x y p q = p
if-IsWithin n false x y p q = q refl

-- The place where the cursor would be a lap later is taken already.
abbrev Blocked : PackedVirtqueue → ℕ → Bool → Type 0
Blocked queue idx wrap = is_ready (descriptor queue idx).flags (not wrap) ≡ false

next_avail-Blocked :
    (queue : PackedVirtqueue) (idx : ℕ) (wrap : Bool)
    → Blocked queue idx wrap
    → Blocked (next_avail queue) idx wrap
next_avail-Blocked queue idx wrap b = rw (next_avail-ring queue).0 b

not_arrived :
    (queue : PackedVirtqueue) (idx : ℕ) (wrap : Bool)
    → Away queue idx wrap 0
    → Blocked queue idx wrap
    → is_ready (descriptor queue queue.avail_idx).flags queue.avail_wrap ≡ false
not_arrived queue idx wrap h b = elim h.2 [
  | inl e ↦ absurd (let no : ⊥ = ground arith in no)
  | inr e ↦ let here : queue.avail_idx ≡ idx = ground arith in rw (here, e.0) b
]

pop_rest-IsWithin :
    (n fuel : ℕ) (queue : PackedVirtqueue) (idx : ℕ) (wrap : Bool) (distance id skip : ℕ)
    (chain : List Descriptor)
    → Away queue idx wrap distance
    → Blocked queue idx wrap
    → distance < fuel
    → skip + distance ≤ n
    → length chain ≡ skip
    → InRing n queue
    → IsWithin n (pop_rest fuel queue id skip chain)
unfolding pop_rest
pop_rest-IsWithin n zero queue idx wrap distance id skip chain h b d s c i = absurd (omega arith)
pop_rest-IsWithin n (suc fuel) queue idx wrap zero id skip chain h b d s c i =
    rw (advance-none queue (not_arrived queue idx wrap h b), pop_rest) (refused queue no_next i)
pop_rest-IsWithin n (suc fuel) queue idx wrap (suc distance) id skip chain h b d s c i =
    elim (Bool-cases (is_ready (descriptor queue queue.avail_idx).flags queue.avail_wrap)) [
      | inl r ↦
          rw (advance-some queue r, pop_rest)
            (if-IsWithin n (has_next (descriptor queue queue.avail_idx).flags) _ _
              (pop_rest-IsWithin n fuel (next_avail queue) idx wrap distance id (suc skip)
                (chain ++ descriptor queue queue.avail_idx ∷ [])
                (next_avail-Away queue idx wrap distance h) (next_avail-Blocked queue idx wrap b)
                (omega arith) (omega arith)
                (omega (arith, length-append chain (descriptor queue queue.avail_idx ∷ []), c))
                (next_avail-InRing n queue i))
              (λ _.
                took _ _ (omega arith)
                  (omega (arith, length-append chain (descriptor queue queue.avail_idx ∷ []), c))
                  (next_avail-InRing n queue i)))
      | inr r ↦ rw (advance-none queue r, pop_rest) (refused queue no_next i)
    ]

length-indirect_descriptors :
    (descriptor_at : ℕ → Descriptor) (address count : ℕ)
    → length (indirect_descriptors descriptor_at address count) ≡ count
unfolding indirect_descriptors
length-indirect_descriptors descriptor_at address zero = refl
length-indirect_descriptors descriptor_at address (suc count) =
    ap suc (length-indirect_descriptors descriptor_at (address + descriptor_size) count)

pop_indirect-IsWithin :
    (descriptor_at : ℕ → Descriptor) (n : ℕ) (queue : PackedVirtqueue) (desc : Descriptor)
    → 1 ≤ n
    → InRing n queue
    → IsWithin n (pop_indirect descriptor_at queue desc)
unfolding pop_indirect
pop_indirect-IsWithin descriptor_at n queue desc p i =
    if-IsWithin n _ _ _ (refused queue malformed_indirect i) (λ e.
      took queue
        (record {
          id = desc.id;
          skip = 1;
          descriptors = indirect_descriptors descriptor_at desc.addr (desc.len / descriptor_size);
        })
        p
        (omega (
          arith,
          length-indirect_descriptors descriptor_at desc.addr (desc.len / descriptor_size),
          guarded desc.len queue.size e,
          i.1,
        ))
        i)
  where
    guarded :
        (len size : ℕ)
        → (not (len % descriptor_size == 0) || ltb size (len / descriptor_size)) ≡ false
        → len / descriptor_size ≤ size
    guarded len size e = ground arith

-- From a cursor inside the ring, and on whatever descriptors the guest has written, `pop` ends within
-- one lap of the ring: it is empty, throws, or takes a chain that gives back at most the ring's size
-- in slots and has at most as many descriptors, those of an indirect table included; and the cursor
-- is inside the ring afterwards, also when it throws.
pub pop-IsWithin :
    (descriptor_at : ℕ → Descriptor) (queue : PackedVirtqueue)
    → queue.avail_idx < queue.size
    → IsWithin queue.size (pop descriptor_at queue)
unfolding pop
pop-IsWithin descriptor_at queue p =
    elim (Bool-cases (is_ready (descriptor queue queue.avail_idx).flags queue.avail_wrap)) [
      | inl r ↦
          rw (advance-some queue r, pop)
            (let desc = descriptor queue queue.avail_idx in
              if-IsWithin queue.size (has_next desc.flags) _ _
                (pop_rest-IsWithin queue.size queue.size (next_avail queue) queue.avail_idx
                  queue.avail_wrap (queue.size - 1) desc.id 1 (desc ∷ [])
                  (next_avail-Away queue queue.avail_idx queue.avail_wrap (queue.size - 1)
                    (p, p, inl (refl, omega arith)))
                  (next_avail-Blocked queue queue.avail_idx queue.avail_wrap
                    (is_ready-wrap desc.flags queue.avail_wrap r))
                  (omega arith) (omega arith) refl (next_avail-InRing queue.size queue (p, refl)))
                (λ _.
                  if-IsWithin queue.size (has_indirect desc.flags) _ _
                    (pop_indirect-IsWithin descriptor_at queue.size (next_avail queue) desc
                      (omega arith) (next_avail-InRing queue.size queue (p, refl)))
                    (λ _.
                      took _ _ (omega arith) (omega arith)
                        (next_avail-InRing queue.size queue (p, refl)))))
      | inr r ↦ rw (advance-none queue r, pop) (at_end queue (p, refl))
    ]
