-- ===== src/Bytes/Reader.antt =====
-- packages/bytes/src/index.ts, the class Reader: a sequential little-endian reader.
use distro.Common.{
  ℕ, suc, ◌+◌, ◌≤◌, ◌≡◌, ◌≢◌, refl, List, [], ◌∷◌, ◌++◌, Option, none, some, Result, ok, throw,
  ◌>>=◌, ltb, ◌==◌, if◌then◌else◌, take, drop, length, arith, le→ltb, All, Bool-cases, inl, inr,
  length-append, take-append_exact, drop-append_exact,
}
use distro.Bytes.Ints.{IntType, RangeError, past_end, unterminated, bad_utf8}

pub record Reader : Type 0 where
  pub array : List ℕ
  pub offset : ℕ

abbrev pub Outcome : Type 0 → Type 0
Outcome A = Result RangeError (A × Reader)

-- `#take` returns the old offset. A length is a natural number here, so never negative.
unfoldable pub advance : ℕ → Reader → Outcome ℕ
advance n r =
    if ltb (length r.array) (r.offset + n)
    then throw past_end
    else ok (r.offset, record r { offset = r.offset + n })

-- `u8` to `u64`: the type's `get` at the offset that `#take` returned.
unfoldable pub int : IntType → Reader → Outcome ℕ
unfolding advance
int t r = do at ← advance t.size r; value ← t.get r.array at.0; ok (value, at.1)

unfoldable pub skip : ℕ → Reader → Outcome (Unit {0})
unfolding advance
skip n r = do at ← advance n r; ok (tt, at.1)

unfoldable pub bytes : ℕ → Reader → Outcome (List ℕ)
unfolding advance
bytes n r = do at ← advance n r; ok (take n (drop at.0 r.array), at.1)

-- `array.indexOf(0, offset)`, from the offset: how many bytes stand before the first NUL.
unfoldable pub before_nul : List ℕ → Option ℕ
before_nul [] = none
before_nul (b ∷ bs) =
    if b == 0 then some 0 else elim (before_nul bs) [ none ↦ none | some n ↦ some (suc n) ]

-- The platform's UTF-8 decoder is the parameter `utf8`, `none` where it throws.
module _ {Text : Type 0} (utf8 : List ℕ → Option Text) where
  unfoldable pub cstring : Reader → Outcome Text
  unfolding before_nul bytes skip
  cstring r = elim (before_nul (drop r.offset r.array)) [
    | none ↦ throw unterminated
    | some n ↦ (do
      found ← bytes n r
      terminator ← skip 1 found.1
      elim (utf8 found.0) [ none ↦ throw bad_utf8 | some text ↦ ok (text, terminator.1) ])
  ]

-- A read either throws, or moves a reader that stood in its array by `n` bytes, inside it.
abbrev pub Moved : {A : Type 0} → ℕ → Reader → Outcome A → Type 0
Moved n r (throw e) = Unit {0}
Moved n r (ok (_, r')) =
    (r'.array ≡ r.array) × (r'.offset ≡ r.offset + n) × (r'.offset ≤ length r.array)

advance-Moved : (n : ℕ) (r : Reader) → Moved n r (advance n r)
unfolding advance
advance-Moved n r = elim (Bool-cases (ltb (length r.array) (r.offset + n))) [
  | inl e ↦ rw e tt
  | inr e ↦ rw e (refl, refl, ground arith)
]

before_nul-append :
    (front back : List ℕ)
    → All (λ b. b ≢ 0) front
    → before_nul (front ++ 0 ∷ back) ≡ some (length front)
unfolding before_nul
before_nul-append [] back h = refl
before_nul-append (b ∷ front) back (p, h) = rw (before_nul-append front back h) (ground arith)

-- `cstring` reads a text whose bytes hold no NUL, consuming the terminator, wherever it stands.
pub cstring_lem :
    {Text : Type 0} (utf8 : List ℕ → Option Text) (text : Text) (before front back : List ℕ)
    → All (λ b. b ≢ 0) front
    → utf8 front ≡ some text
    → cstring utf8 (record { array = before ++ (front ++ 0 ∷ back); offset = length before })
      ≡ ok (
        text,
        record { array = before ++ (front ++ 0 ∷ back); offset = length before + length front + 1 },
      )
unfolding cstring skip bytes advance
cstring_lem utf8 text before front back h e =
    let whole : List ℕ = before ++ (front ++ 0 ∷ back) in
    let unread : drop (length before) whole ≡ front ++ 0 ∷ back =
      drop-append_exact (length before) before _ refl in
    let size : length whole ≡ length before + (length front + suc (length back)) =
      omega (arith, length-append before (front ++ 0 ∷ back), length-append front (0 ∷ back)) in
    rw
      (
        unread,
        before_nul-append front back h,
        le→ltb (length whole) (length before + length front) (omega arith),
        unread,
        take-append_exact (length front) front (0 ∷ back) refl,
        le→ltb (length whole) (length before + length front + 1) (omega arith),
        e,
        cstring,
      )
      refl
