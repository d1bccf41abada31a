-- ===== src/Virtio/Block/Transfer.antt =====
-- packages/kernel/src/virtio/block.ts, `transfer`: against a storage whose calls move a first part of
-- the bytes asked for, a transfer moves a first part of the request's bytes, from consecutive
-- places of the storage.
use distro.Common.{
  ℕ, suc, ◌+◌, ◌≤◌, ◌≡◌, refl, sym, ap, ◌∙◌, Bool, true, false, List, [], ◌∷◌, ◌++◌, Option, none,
  some, ◌==◌, if◌then◌else◌, length, take, arith, append-nil, append_assoc, length-append,
  take-append_within, take-append_past, take_all,
}
use mathlib.Core.Path.{subst}
use distro.Virtio.Block.{Segment, transfer_loop, transfer_pieces, transfer, runs}
use distro.Virtio.Block.Runs.{addresses_of, addresses, addresses-runs, length-addresses_of}

-- A byte moved: its place in the storage, and its address in the guest's memory.
abbrev pub Move : Type 0
Move = ℕ × (ℕ × ℕ)

abbrev pub pairs : ℕ → List (ℕ × ℕ) → List Move
pairs at [] = []
pairs at (a ∷ addrs) = (at, a) ∷ pairs (suc at) addrs

pairs-append :
    (at : ℕ) (xs ys : List (ℕ × ℕ)) → pairs at (xs ++ ys) ≡ pairs at xs ++ pairs (at + length xs) ys
pairs-append at [] ys = let e : at + 0 ≡ at = omega arith in rw e refl
pairs-append at (x ∷ xs) ys =
    let e : at + suc (length xs) ≡ suc at + length xs = omega arith in
    rw e (ap (λ r. (at, x) ∷ r) (pairs-append (suc at) xs ys))

-- What is documented of a storage: `moves` are the bytes moved so far, and a call returns how many
-- bytes it moved, which are the first of those asked for.
module _ {World : Type 0} (moves : World → List Move) where
  pub record MovesFirst (w : World) (at : ℕ) (addrs : List (ℕ × ℕ)) (step : World × ℕ)
      : Type 0 where
    pub at_most : step.1 ≤ length addrs
    pub moved : moves step.0 ≡ moves w ++ pairs at (take step.1 addrs)

  pub record IsSingle (single : World → ℕ → Segment → World × ℕ) : Type 0 where
    pub law : (w : World) (at : ℕ) (s : Segment) → MovesFirst w at (addresses_of s) (single w at s)

  pub data IsVectored : Option (World → ℕ → List Segment → World × ℕ) → Type 0 where
    absent : IsVectored none
    present :
        (many : World → ℕ → List Segment → World × ℕ)
        → ((w : World) (at : ℕ) (pieces : List Segment)
            → MovesFirst w at (addresses pieces) (many w at pieces))
        → IsVectored (some many)

  MovesFirst-all :
      (w : World) (at : ℕ) (xs ys : List (ℕ × ℕ)) (step rest : World × ℕ)
      → MovesFirst w at xs step
      → step.1 ≡ length xs
      → MovesFirst step.0 (at + step.1) ys rest
      → MovesFirst w at (xs ++ ys) (rest.0, step.1 + rest.1)
  MovesFirst-all w at xs ys step rest m e n = record {
    at_most = omega (arith, n.at_most, length-append xs ys);
    moved =
        n.moved
        ∙ (ap (λ r. r ++ pairs (at + step.1) (take rest.1 ys)) m.moved
            ∙ (append_assoc (moves w) (pairs at (take step.1 xs))
                  (pairs (at + step.1) (take rest.1 ys))
                ∙ ap (λ r. moves w ++ r) joined));
  }
    where
      joined :
          pairs at (take step.1 xs) ++ pairs (at + step.1) (take rest.1 ys)
          ≡ pairs at (take (step.1 + rest.1) (xs ++ ys))
      joined = rw e (
          ap (λ r. pairs at r ++ pairs (at + length xs) (take rest.1 ys))
            (take_all (length xs) xs (omega arith))
          ∙ (sym (pairs-append at xs (take rest.1 ys))
              ∙ ap (λ r. pairs at r) (sym (take-append_past rest.1 xs ys))))

  MovesFirst-part :
      (w : World) (at : ℕ) (xs ys : List (ℕ × ℕ)) (step : World × ℕ)
      → MovesFirst w at xs step
      → MovesFirst w at (xs ++ ys) step
  MovesFirst-part w at xs ys step m = record {
    at_most = omega (arith, m.at_most, length-append xs ys);
    moved =
        m.moved ∙ ap (λ r. moves w ++ pairs at r) (sym (take-append_within step.1 xs ys m.at_most));
  }

  if-MovesFirst :
      (w : World) (at : ℕ) (addrs : List (ℕ × ℕ)) (b : Bool) (x y : World × ℕ)
      → (b ≡ true → MovesFirst w at addrs x)
      → (b ≡ false → MovesFirst w at addrs y)
      → MovesFirst w at addrs (if b then x else y)
  if-MovesFirst w at addrs true x y p q = p refl
  if-MovesFirst w at addrs false x y p q = q refl

  transfer_loop-MovesFirst :
      (single : World → ℕ → Segment → World × ℕ) (w : World) (at : ℕ) (pieces : List Segment)
      → IsSingle single
      → MovesFirst w at (addresses pieces) (transfer_loop single w at pieces)
  unfolding transfer_loop
  transfer_loop-MovesFirst single w at [] s = record {
    at_most = omega arith;
    moved = sym (append-nil (moves w));
  }
  transfer_loop-MovesFirst single w at (piece ∷ pieces) s =
      let first = single w at piece in
      if-MovesFirst w at (addresses (piece ∷ pieces)) (first.1 == piece.byte_length) _ _
        (λ e.
          MovesFirst-all w at (addresses_of piece) (addresses pieces) first _ (s.law w at piece)
            (let f : first.1 ≡ piece.byte_length = ground arith in
              f ∙ sym (length-addresses_of piece))
            (transfer_loop-MovesFirst single first.0 (at + first.1) pieces s))
        (λ e. MovesFirst-part w at (addresses_of piece) (addresses pieces) first (s.law w at piece))

  transfer_pieces-MovesFirst :
      (single : World → ℕ → Segment → World × ℕ)
      (vectored : Option (World → ℕ → List Segment → World × ℕ)) (w : World) (at : ℕ)
      (pieces : List Segment)
      → IsSingle single
      → IsVectored vectored
      → MovesFirst w at (addresses pieces) (transfer_pieces single vectored w at pieces)
  unfolding transfer_pieces
  transfer_pieces-MovesFirst single vectored w at (piece ∷ []) s v =
      MovesFirst-part w at (addresses_of piece) [] _ (s.law w at piece)
  transfer_pieces-MovesFirst single (some many) w at [] s (present _ law) = law w at []
  transfer_pieces-MovesFirst single (some many) w at (p ∷ q ∷ pieces) s (present _ law) =
      law w at (p ∷ q ∷ pieces)
  transfer_pieces-MovesFirst single none w at [] s v = transfer_loop-MovesFirst single w at [] s
  transfer_pieces-MovesFirst single none w at (p ∷ q ∷ pieces) s v =
      transfer_loop-MovesFirst single w at (p ∷ q ∷ pieces) s

  -- With a storage whose calls, vectored or not, each move a first part of the bytes asked for,
  -- `transfer` moves as many bytes as it returns: the first of the segments' bytes in their order,
  -- and consecutive places of the storage from the request's offset on.
  pub transfer-MovesFirst :
      (single : World → ℕ → Segment → World × ℕ)
      (vectored : Option (World → ℕ → List Segment → World × ℕ)) (w : World) (at : ℕ)
      (segments : List Segment)
      → IsSingle single
      → IsVectored vectored
      → MovesFirst w at (addresses segments) (transfer single vectored w at segments)
  unfolding transfer
  transfer-MovesFirst single vectored w at segments s v =
      subst (λ a. MovesFirst w at a (transfer_pieces single vectored w at (runs segments)))
        (addresses-runs segments)
        (transfer_pieces-MovesFirst single vectored w at (runs segments) s v)
