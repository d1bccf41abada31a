-- ===== src/Bytes/Buffer.antt =====
-- packages/bytes/src/index.ts, the class Bytes: a buffer that doubles its array as it grows. The
-- `dv` cache is the array itself. `none` means that a loop of the model ran out of fuel.
use distro.Common.{
  ℕ, zero, suc, ◌+◌, ◌-◌, ◌*◌, ◌≤◌, ◌<◌, ◌≡◌, refl, ap, sym, ◌∙◌, List, [], ◌++◌, Option, none,
  some, ltb, if◌then◌else◌, take, drop, length, replicate, arith, length-append, length-take,
  length-drop, length-replicate, take-append_exact, take-append_within, append_assoc, Bool-cases,
  inl, inr, lt→ltb, le→ltb,
}
use mathlib.Core.Option
use mathlib.Core.List.{append-nil}

pub record Bytes : Type 0 where
  pub array : List ℕ
  pub used : ℕ

unfoldable pub new : ℕ → Bytes
new capacity = record { array = replicate capacity 0; used = 0 }

-- `while (length < capacity) length *= 2`.
unfoldable pub grow : ℕ → ℕ → ℕ → Option ℕ
grow zero len capacity = none
grow (suc fuel) len capacity =
    let rest = grow fuel (len * 2) capacity in if ltb len capacity then rest else some len

unfoldable pub ensure_capacity : Bytes → ℕ → Option Bytes
ensure_capacity b capacity =
    if ltb (length b.array) capacity
    then Option.map
        (λ (len : ℕ). record b { array = b.array ++ replicate (len - length b.array) 0 })
        (grow (suc capacity) (length b.array) capacity)
    else some b

-- The offset of the new bytes is the old length.
unfoldable pub bump : Bytes → ℕ → Option Bytes
bump b n =
    Option.map (λ (b' : Bytes). record b' { used = b'.used + n }) (ensure_capacity b (b.used + n))

-- `array.set(bytes, offset)`, in bounds.
unfoldable pub overwrite : List ℕ → ℕ → List ℕ → List ℕ
overwrite array offset bytes = take offset array ++ (bytes ++ drop (offset + length bytes) array)

unfoldable pub append : Bytes → List ℕ → Option Bytes
unfolding bump
append b bytes =
    Option.map (λ (b' : Bytes). record b' { array = overwrite b'.array b.used bytes })
      (bump b (length bytes))

-- The getter `array`: a copy of the used part.
abbrev pub contents : Bytes → List ℕ
contents b = take b.used b.array

pub record IsValid (b : Bytes) : Type 0 where
  pub fits : b.used ≤ length b.array
  pub positive : 0 < length b.array

-- Each round doubles a positive length, so that one round for each missing byte is enough.
grow_total :
    (fuel len capacity : ℕ)
    → 0 < len
    → capacity < len + fuel
    → (n : ℕ) × (grow (suc fuel) len capacity ≡ some n) × (capacity ≤ n) × (len ≤ n)
unfolding grow
grow_total zero len capacity p h =
    (len, rw (le→ltb len capacity (omega arith)) refl, omega arith, omega arith)
grow_total (suc fuel) len capacity p h = elim (Bool-cases (ltb len capacity)) [
  | inl more ↦
      let (n, e, c, l) = grow_total fuel (len * 2) capacity (omega arith) (omega arith) in
      (n, rw more e, c, omega arith)
  | inr enough ↦ (len, rw enough refl, ground arith, omega arith)
]

-- From an empty array the loop that doubles a length does not reach a positive capacity with any
-- fuel: twice nothing is nothing.
pub grow_stuck : (fuel capacity : ℕ) → 0 < capacity → grow fuel 0 capacity ≡ none
unfolding grow
grow_stuck zero capacity h = refl
grow_stuck (suc fuel) capacity h = rw (lt→ltb 0 capacity h) (grow_stuck fuel capacity h)

-- What growing keeps: the old array is a prefix of the new one, and there is room.
record IsRoom (b : Bytes) (capacity : ℕ) (b' : Bytes) : Type 0 where
  tail : List ℕ
  extended : b'.array ≡ b.array ++ tail
  same_used : b'.used ≡ b.used
  room : capacity ≤ length b'.array
  no_less : length b.array ≤ length b'.array

ensure_capacity_total :
    (b : Bytes) (capacity : ℕ)
    → 0 < length b.array
    → (b' : Bytes) × (ensure_capacity b capacity ≡ some b') × IsRoom b capacity b'
unfolding ensure_capacity
ensure_capacity_total b capacity p = elim (Bool-cases (ltb (length b.array) capacity)) [
  | inl more ↦
      let (n, e, c, l) = grow_total capacity (length b.array) capacity p (omega arith) in
      let tail : List ℕ = replicate (n - length b.array) 0 in
      let size : length (b.array ++ tail) ≡ n =
        omega
          (arith, length-append b.array tail, length-replicate {A = ℕ} (n - length b.array) 0) in
      (
        record b { array = b.array ++ tail },
        rw (more, e) refl,
        record {
          tail = tail;
          extended = refl;
          same_used = refl;
          room = omega arith;
          no_less = omega arith;
        },
      )
  | inr enough ↦ (
    b,
    rw enough refl,
    record {
      tail = [];
      extended = sym (append-nil b.array);
      same_used = refl;
      room = ground arith;
      no_less = omega arith;
    },
  )
]

take-overwrite :
    (array : List ℕ) (o : ℕ) (xs : List ℕ)
    → o + length xs ≤ length array
    → take (o + length xs) (overwrite array o xs) ≡ take o array ++ xs
unfolding overwrite
take-overwrite array o xs h = rw (← append_assoc (take o array) xs _) (
    take-append_exact (o + length xs) (take o array ++ xs) _
      (omega (arith, length-append (take o array) xs, length-take o array)))

length-overwrite :
    (array : List ℕ) (o : ℕ) (xs : List ℕ)
    → o + length xs ≤ length array
    → length (overwrite array o xs) ≡ length array
unfolding overwrite
length-overwrite array o xs h = omega (
  arith,
  length-append (take o array) (xs ++ drop (o + length xs) array),
  length-append xs (drop (o + length xs) array),
  length-take o array,
  length-drop (o + length xs) array,
)

-- On a valid buffer `append` ends, keeps it valid, and puts the bytes behind the contents.
pub append_lem :
    (b : Bytes) (bytes : List ℕ)
    → IsValid b
    → (b' : Bytes) × (append b bytes ≡ some b')
      × (contents b' ≡ contents b ++ bytes)
      × (b'.used ≡ b.used + length bytes)
      × IsValid b'
unfolding append bump
append_lem b bytes v =
    let (g, e, r) = ensure_capacity_total b (b.used + length bytes) v.positive in
    let size = length-overwrite g.array b.used bytes r.room in
    (
      record { array = overwrite g.array b.used bytes; used = g.used + length bytes },
      rw e refl,
      rw r.same_used (
          take-overwrite g.array b.used bytes r.room
          ∙ ap (λ front. front ++ bytes)
              (rw r.extended (take-append_within b.used b.array r.tail v.fits))),
      omega (arith, r.same_used),
      record {
        fits = omega (arith, r.same_used, r.room, size);
        positive = omega (arith, v.positive, r.no_less, size);
      },
    )
