-- ===== src/Network/Reassembly/Payloads.antt =====
-- packages/linux-guest/src/network.ts, `reassemble_ip`: fragments with one more inserted, and the
-- payload that contiguous fragments make up.
use distro.Common.{
  ℕ, suc, ◌+◌, ◌≤◌, ◌<◌, ◌≡◌, refl, ap, sym, ◌∙◌, false, List, [], ◌∷◌, ◌++◌, none, some, ltb, ◌==◌,
  length, arith, Bool-cases, inl, inr, length-append, drop, take-append_exact, drop-append_ge,
  append_assoc, replicate, length-replicate, length-drop,
}
use distro.Bytes.Buffer.{overwrite}
use distro.Network.Reassembly.Places.{Ordered}
use distro.Network.Reassembly.{
  IpFragment, end_of, split_at_insertion, overlaps_next, contiguous, write_fragments,
}

abbrev pub joined : List IpFragment → List ℕ
joined [] = []
joined (c ∷ cs) = c.payload ++ joined cs

-- Insertion keeps the order, where the next fragment is not overlapped.
pub insert-Ordered :
    (lo : ℕ) (piece : IpFragment) (fs : List IpFragment)
    → lo ≤ piece.offset
    → 0 < length piece.payload
    → Ordered lo fs
    → overlaps_next (end_of piece) (split_at_insertion piece.offset fs).1 ≡ false
    → Ordered lo
        ((split_at_insertion piece.offset fs).0 ++ piece ∷ (split_at_insertion piece.offset fs).1)
unfolding split_at_insertion overlaps_next
insert-Ordered lo piece [] l p o n = (l, p, tt)
insert-Ordered lo piece (c ∷ cs) l p (lc, pc, o) n =
    elim (Bool-cases (ltb piece.offset (end_of c))) [
      | inl e ↦ rw e (
        l,
        p,
        (
          (let m : overlaps_next (end_of piece) (c ∷ cs) ≡ false = rw e at n in ground arith),
          pc,
          o,
        ),
      )
      | inr e ↦ rw e (lc, pc, insert-Ordered (end_of c) piece cs (ground arith) p o (rw e at n))
    ]

pub contiguous_lem :
    (len n : ℕ) (fs : List IpFragment) → contiguous len fs ≡ some n → n ≡ len + length (joined fs)
unfolding contiguous
contiguous_lem len n [] e = ground arith
contiguous_lem len n (c ∷ cs) e = elim (Bool-cases (c.offset == len)) [
  | inl t ↦ omega (
    arith,
    contiguous_lem (len + length c.payload) n cs (rw t at e),
    length-append c.payload (joined cs),
  )
  | inr t ↦ (let h : none ≡ some n = rw t at e in cc)
]

overwrite-append :
    (front xs zs : List ℕ)
    → overwrite (front ++ zs) (length front) xs ≡ front ++ (xs ++ drop (length xs) zs)
unfolding overwrite
overwrite-append front xs zs = rw (take-append_exact (length front) front zs refl) (
    ap (λ r. front ++ (xs ++ r))
      (drop-append_ge (length front + length xs) front zs (omega arith)
        ∙ ap (λ k. drop k zs) (omega arith)))

-- Contiguous fragments, written over as many bytes, leave the fragments joined.
write_fragments_lem :
    (front zs : List ℕ) (n : ℕ) (fs : List IpFragment)
    → contiguous (length front) fs ≡ some n
    → length zs ≡ length (joined fs)
    → write_fragments (front ++ zs) fs ≡ front ++ joined fs
unfolding contiguous write_fragments
write_fragments_lem front [] n [] e l = refl
write_fragments_lem front (z ∷ zs) n [] e l = absurd (omega arith)
write_fragments_lem front zs n (c ∷ cs) e l = elim (Bool-cases (c.offset == length front)) [
  | inl t ↦
      let rest = drop (length c.payload) zs in
      let at : c.offset ≡ length front = ground arith in
      let written : overwrite (front ++ zs) c.offset c.payload ≡ (front ++ c.payload) ++ rest =
        rw at (overwrite-append front c.payload zs ∙ sym (append_assoc front c.payload rest)) in
      rw written (
        write_fragments_lem (front ++ c.payload) rest n cs
          (let k : contiguous (length front + length c.payload) cs ≡ some n = rw t at e in
            rw (length-append front c.payload) k)
          (omega (arith, length-drop (length c.payload) zs, length-append c.payload (joined cs)))
        ∙ append_assoc front c.payload (joined cs))
  | inr t ↦ (let h : none ≡ some n = rw t at e in cc)
]

pub whole_payload :
    (fs : List IpFragment) (len : ℕ)
    → contiguous 0 fs ≡ some len
    → write_fragments (replicate len 0) fs ≡ joined fs
whole_payload fs len e =
    write_fragments_lem [] (replicate len 0) len fs e
      (omega (arith, length-replicate {A = ℕ} len 0, contiguous_lem 0 len fs e))

pub length-insert :
    (piece : IpFragment) (fs : List IpFragment)
    → length
        ((split_at_insertion piece.offset fs).0 ++ piece ∷ (split_at_insertion piece.offset fs).1)
      ≡ suc (length fs)
unfolding split_at_insertion
length-insert piece [] = refl
length-insert piece (c ∷ cs) = elim (Bool-cases (ltb piece.offset (end_of c))) [
  | inl e ↦ rw e refl
  | inr e ↦ rw e (ap suc (length-insert piece cs))
]
