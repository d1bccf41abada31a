-- ===== src/Virtio/Block/Runs.antt =====
-- packages/kernel/src/virtio/block.ts, `runs`: the views merged are the same bytes in the same order.
use distro.Common.{
  ℕ, zero, suc, ◌+◌, ◌≡◌, refl, sym, ap, ◌∙◌, true, List, [], ◌∷◌, ◌++◌, ◌==◌, length, arith,
  Bool-cases, inl, inr, if_true, if_false, append-nil, append_assoc, length-append,
}
use distro.Virtio.Block.{Segment, adjacent, merge, push_run, runs_loop, runs, total_length}

-- The addresses of `n` bytes from an offset of a buffer.
abbrev pub bytes_from : ℕ → ℕ → ℕ → List (ℕ × ℕ)
bytes_from buffer offset zero = []
bytes_from buffer offset (suc n) = (buffer, offset) ∷ bytes_from buffer (suc offset) n

abbrev pub addresses_of : Segment → List (ℕ × ℕ)
addresses_of s = bytes_from s.buffer s.byte_offset s.byte_length

abbrev pub addresses : List Segment → List (ℕ × ℕ)
addresses [] = []
addresses (s ∷ segments) = addresses_of s ++ addresses segments

bytes_from-add :
    (buffer offset m n : ℕ)
    → bytes_from buffer offset (m + n)
      ≡ bytes_from buffer offset m ++ bytes_from buffer (offset + m) n
bytes_from-add buffer offset zero n =
    let e : zero + n ≡ n = omega arith in
    let f : offset + 0 ≡ offset = omega arith in rw (e, f) refl
bytes_from-add buffer offset (suc m) n =
    let e : suc m + n ≡ suc (m + n) = omega arith in
    let f : offset + suc m ≡ suc offset + m = omega arith in
    rw (e, f) (ap (λ r. (buffer, offset) ∷ r) (bytes_from-add buffer (suc offset) m n))

addresses_of-merge :
    (last s : Segment)
    → adjacent last s ≡ true
    → addresses_of (merge last s) ≡ addresses_of last ++ addresses_of s
addresses_of-merge last s e =
    let same_buffer : s.buffer ≡ last.buffer = ground arith in
    let follows : s.byte_offset ≡ last.byte_offset + last.byte_length = ground arith in
    bytes_from-add last.buffer last.byte_offset last.byte_length s.byte_length
    ∙ ap (λ r. addresses_of last ++ r)
        (from_there s.buffer s.byte_offset last.buffer _ s.byte_length same_buffer follows)
  where
    from_there : (b o b' o' n : ℕ) → b ≡ b' → o ≡ o' → bytes_from b' o' n ≡ bytes_from b o n
    from_there b o b' o' n e f = cc

apart : (last s : Segment) → addresses (last ∷ s ∷ []) ≡ addresses (last ∷ []) ++ addresses_of s
apart last s =
    ap (λ r. addresses_of last ++ r) (append-nil (addresses_of s))
    ∙ ap (λ r. r ++ addresses_of s) (sym (append-nil (addresses_of last)))

no_addresses : (b o n : ℕ) → n ≡ 0 → bytes_from b o n ≡ []
no_addresses b o n e = rw e refl

addresses-push_run :
    (merged : List Segment) (s : Segment)
    → addresses (push_run merged s) ≡ addresses merged ++ addresses_of s
unfolding push_run
addresses-push_run [] s = append-nil (addresses_of s)
addresses-push_run (last ∷ []) s = elim (Bool-cases (adjacent last s)) [
  | inl e ↦
      ap addresses (if_true (adjacent last s) _ _ e)
      ∙ (append-nil (addresses_of (merge last s))
          ∙ (addresses_of-merge last s e
              ∙ ap (λ r. r ++ addresses_of s) (sym (append-nil (addresses_of last)))))
  | inr e ↦ ap addresses (if_false (adjacent last s) _ _ e) ∙ apart last s
]
addresses-push_run (first ∷ second ∷ merged) s =
    ap (λ r. addresses_of first ++ r) (addresses-push_run (second ∷ merged) s)
    ∙ sym (append_assoc (addresses_of first) (addresses (second ∷ merged)) (addresses_of s))

addresses-runs_loop :
    (merged segments : List Segment)
    → addresses (runs_loop merged segments) ≡ addresses merged ++ addresses segments
unfolding runs_loop
addresses-runs_loop merged [] = sym (append-nil (addresses merged))
addresses-runs_loop merged (s ∷ segments) = elim (Bool-cases (s.byte_length == 0)) [
  | inl e ↦
      ap (λ m. addresses (runs_loop m segments)) (if_true (s.byte_length == 0) _ _ e)
      ∙ (addresses-runs_loop merged segments
          ∙ ap (λ r. addresses merged ++ (r ++ addresses segments))
              (sym (no_addresses s.buffer s.byte_offset s.byte_length (ground arith))))
  | inr e ↦
      ap (λ m. addresses (runs_loop m segments)) (if_false (s.byte_length == 0) _ _ e)
      ∙ (addresses-runs_loop (push_run merged s) segments
          ∙ (ap (λ r. r ++ addresses segments) (addresses-push_run merged s)
              ∙ append_assoc (addresses merged) (addresses_of s) (addresses segments)))
]

-- The merged views cover the same bytes of the same buffers, in the same order, as the segments.
pub addresses-runs : (segments : List Segment) → addresses (runs segments) ≡ addresses segments
unfolding runs
addresses-runs segments = addresses-runs_loop [] segments

-- The number of addresses is the total length.
length-bytes_from : (b o n : ℕ) → length (bytes_from b o n) ≡ n
length-bytes_from b o zero = refl
length-bytes_from b o (suc n) = ap suc (length-bytes_from b (suc o) n)

pub length-addresses_of : (s : Segment) → length (addresses_of s) ≡ s.byte_length
length-addresses_of s = length-bytes_from s.buffer s.byte_offset s.byte_length

pub length-addresses :
    (segments : List Segment) → length (addresses segments) ≡ total_length segments
length-addresses [] = refl
length-addresses (s ∷ segments) = omega (
  arith,
  length-append (addresses_of s) (addresses segments),
  length-addresses_of s,
  length-addresses segments,
)
