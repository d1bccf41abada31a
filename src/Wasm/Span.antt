-- ===== src/Wasm/Span.antt =====
-- What every reader of packages/kernel/src/wasm_binary.ts keeps: the cursor moves forward and stays
-- in its span, and a failure names a byte of the span.
use distro.Common.{
  ℕ, zero, suc, ◌+◌, ◌≤◌, ◌≡◌, ◌≢◌, refl, sym, Bool, true, false, List, Option, none, some, ok,
  throw, ltb, ◌==◌, arith, Bool-cases, inl, inr, if◌then◌else◌,
}
use distro.Wasm.Cursor.{
  Cursor, Outcome, Reader, Message, out_of_rounds, ◌>>=◌, pure, fail, byte, unsigned_loop, u32, u64,
  signed33_loop, signed33, span, text, expect_done, within, and_then,
}
use mathlib.Core.Path.{subst}

abbrev pub cursor : List ℕ → ℕ → ℕ → Cursor
cursor bytes end offset = record { bytes = bytes; offset = offset; end = end }

-- From offset `o` of a span of `bytes` that ends at `end`.
abbrev pub Holds : {A : Type 0} → List ℕ → ℕ → ℕ → Outcome A → Type 0
Holds bytes end o (ok (a, c)) = (o' : ℕ) × (c ≡ cursor bytes end o') × (o ≤ o') × (o' ≤ end)
Holds bytes end o (throw e) = (e.at ≤ end) × (e.message ≢ out_of_rounds)

pub record IsSafe {A : Type 0} (bytes : List ℕ) (end : ℕ) (p : Reader A) : Type 0 where
  pub holds : (o : ℕ) → o ≤ end → Holds bytes end o (p (cursor bytes end o))

-- A cursor that `span` hands out inside the span that ends at `end`.
pub record IsSub (bytes : List ℕ) (end : ℕ) (sub : Cursor) : Type 0 where
  pub same_bytes : sub.bytes ≡ bytes
  pub forward : sub.offset ≤ sub.end
  pub inside : sub.end ≤ end

pub Holds-widen :
    {A : Type 0} (bytes : List ℕ) (end o o' : ℕ) (r : Outcome A)
    → o ≤ o'
    → Holds bytes end o' r
    → Holds bytes end o r
Holds-widen bytes end o o' (ok (a, c)) h (k, e, l, m) = (k, e, omega arith, m)
Holds-widen bytes end o o' (throw e) h k = k

and_then-Holds :
    {A B : Type 0} (bytes : List ℕ) (end o : ℕ) (r : Outcome A) (f : A → Reader B)
    → Holds bytes end o r
    → ((a : A) → IsSafe bytes end (f a))
    → Holds bytes end o (and_then r f)
and_then-Holds bytes end o (ok (a, c)) f (o', e, l, m) k =
    rw e (Holds-widen bytes end o o' (f a (cursor bytes end o')) l ((k a).holds o' m))
and_then-Holds bytes end o (throw e) f h k = h

module _ (bytes : List ℕ) (end : ℕ) where
  pub pure-IsSafe : {A : Type 0} (a : A) → IsSafe bytes end (pure a)
  pure-IsSafe a = record { holds = λ o h. (o, refl, omega arith, h) }

  pub fail-IsSafe :
      {A : Type 0} (m : Message) → m ≢ out_of_rounds → IsSafe bytes end (fail {A = A} m)
  unfolding fail
  fail-IsSafe m n = record { holds = λ o h. (h, n) }

  pub bind-IsSafe :
      {A B : Type 0} {p : Reader A} {f : A → Reader B}
      → IsSafe bytes end p
      → ((a : A) → IsSafe bytes end (f a))
      → IsSafe bytes end (p >>= f)
  bind-IsSafe {p = p} {f = f} s k = record {
    holds = λ o h. and_then-Holds bytes end o (p (cursor bytes end o)) f (s.holds o h) k;
  }

  pub if-IsSafe :
      {A : Type 0} (b : Bool) {p q : Reader A}
      → IsSafe bytes end p
      → IsSafe bytes end q
      → IsSafe bytes end (if b then p else q)
  if-IsSafe true s t = s
  if-IsSafe false s t = t

  byte-Holds : (o : ℕ) → o ≤ end → Holds bytes end o (byte (cursor bytes end o))
  unfolding byte
  byte-Holds o h = elim (Bool-cases (o == end)) [
    | inl e ↦ rw e (h, λ p. cc)
    | inr e ↦ rw e (o + 1, refl, omega arith, ground arith)
  ]

  pub byte-IsSafe : IsSafe bytes end byte
  byte-IsSafe = record { holds = byte-Holds }

  pub unsigned_loop-IsSafe :
      (rounds bits i value : ℕ) → IsSafe bytes end (unsigned_loop rounds bits i value)
  unfolding unsigned_loop
  unsigned_loop-IsSafe zero bits i value = fail-IsSafe _ (λ e. cc)
  unsigned_loop-IsSafe (suc rounds) bits i value = bind-IsSafe byte-IsSafe λ b.
      if-IsSafe _ (fail-IsSafe _ (λ e. cc))
        (if-IsSafe _ (unsigned_loop-IsSafe rounds bits (i + 1) _) (pure-IsSafe _))

  pub u32-IsSafe : IsSafe bytes end u32
  unfolding u32
  u32-IsSafe = unsigned_loop-IsSafe 5 32 0 0

  pub u64-IsSafe : IsSafe bytes end u64
  unfolding u64
  u64-IsSafe = unsigned_loop-IsSafe 10 64 0 0

  pub signed33_loop-IsSafe : (rounds i b : ℕ) → IsSafe bytes end (signed33_loop rounds i b)
  unfolding signed33_loop
  signed33_loop-IsSafe zero i b = pure-IsSafe tt
  signed33_loop-IsSafe (suc rounds) i b =
      if-IsSafe _ (if-IsSafe _ (fail-IsSafe _ (λ e. cc)) (pure-IsSafe tt)) (
        if-IsSafe _ (fail-IsSafe _ (λ e. cc))
          (bind-IsSafe byte-IsSafe (λ b'. signed33_loop-IsSafe rounds (i + 1) b')))

  pub signed33-IsSafe : (first : ℕ) → IsSafe bytes end (signed33 first)
  unfolding signed33
  signed33-IsSafe first = signed33_loop-IsSafe 5 0 first

  expect_done-Holds : (o : ℕ) → o ≤ end → Holds bytes end o (expect_done (cursor bytes end o))
  unfolding expect_done fail
  expect_done-Holds o h = elim (Bool-cases (o == end)) [
    | inl e ↦ rw e (o, refl, omega arith, h)
    | inr e ↦ rw e (h, λ p. cc)
  ]

  pub expect_done-IsSafe : IsSafe bytes end expect_done
  expect_done-IsSafe = record { holds = expect_done-Holds }

  -- A sub-cursor that `span` hands out is read by `f`; its reads do not move this cursor.
  span_rest :
      {B : Type 0} (f : Cursor → Reader B) (n o : ℕ)
      → o ≤ end
      → ((sub : Cursor) → IsSub bytes end sub → IsSafe bytes end (f sub))
      → Holds bytes end o (
          and_then
            (if ltb end (o + n)
              then fail Message.span_too_long (cursor bytes end o)
              else ok (cursor bytes (o + n) o, cursor bytes end (o + n)))
            f)
  unfolding fail
  span_rest f n o h k = elim (Bool-cases (ltb end (o + n))) [
    | inl e ↦ rw e (h, λ p. cc)
    | inr e ↦ rw e (
        Holds-widen bytes end o (o + n) _ (omega arith) (
          (k _ (record { same_bytes = refl; forward = omega arith; inside = ground arith })).holds
            (o + n) (ground arith)))
  ]

  span-Holds :
      {B : Type 0} (f : Cursor → Reader B) (o : ℕ)
      → o ≤ end
      → ((sub : Cursor) → IsSub bytes end sub → IsSafe bytes end (f sub))
      → Holds bytes end o ((span >>= f) (cursor bytes end o))
  unfolding span
  span-Holds f o h k = spanned (u32 (cursor bytes end o)) (u32-IsSafe.holds o h)
    where
      spanned :
          (r : Outcome ℕ)
          → Holds bytes end o r
          → Holds bytes end o (
              and_then
                (and_then r (λ n c.
                  if ltb c.end (c.offset + n)
                  then fail Message.span_too_long c
                  else ok (record c { end = c.offset + n }, record c { offset = c.offset + n })))
                f)
      spanned (ok (n, c)) (o', e, l, m) =
          rw e (Holds-widen bytes end o o' _ l (span_rest f n o' m k))
      spanned (throw e) t = t

  pub span-IsSafe :
      {B : Type 0} {f : Cursor → Reader B}
      → ((sub : Cursor) → IsSub bytes end sub → IsSafe bytes end (f sub))
      → IsSafe bytes end (span >>= f)
  span-IsSafe {f = f} k = record { holds = λ o h. span-Holds f o h k }

  within-Holds :
      {A : Type 0} (sub : Cursor) (r : Outcome A) (s o : ℕ)
      → IsSub bytes end sub
      → o ≤ end
      → Holds bytes sub.end s r
      → Holds bytes end o (elim r [ ok (a, _) ↦ ok (a, cursor bytes end o) | throw e ↦ throw e ])
  within-Holds sub (ok (a, c)) s o i h k = (o, refl, omega arith, h)
  within-Holds sub (throw e) s o i h (k, n) = (omega arith, n)

  -- A read through a sub-cursor is safe if the reader is safe in the sub-cursor's span.
  pub within-IsSafe :
      {A : Type 0} (sub : Cursor) {p : Reader A}
      → IsSub bytes end sub
      → IsSafe bytes sub.end p
      → IsSafe bytes end (within sub p)
  unfolding within
  within-IsSafe sub {p = p} i s = record {
    holds = λ o h. within-Holds sub (p sub) sub.offset o i h from_sub;
  }
    where
      from_sub : Holds bytes sub.end sub.offset (p sub)
      from_sub =
          subst (λ bs. Holds bytes sub.end sub.offset (p (cursor bs sub.end sub.offset)))
            (sym i.same_bytes) (s.holds sub.offset i.forward)

  text-Holds :
      {Text : Type 0} (t : Option Text) (o : ℕ)
      → o ≤ end
      → Holds bytes end o (elim t as (λ _. Outcome Text) [
        | none ↦ fail Message.bad_name (cursor bytes end o)
        | some a ↦ ok (a, cursor bytes end o)
      ])
  unfolding fail
  text-Holds none o h = (h, λ p. cc)
  text-Holds (some t) o h = (o, refl, omega arith, h)

  pub text-IsSafe : {Text : Type 0} (decode : List ℕ → Option Text) → IsSafe bytes end (text decode)
  unfolding text
  text-IsSafe decode = record { holds = λ o h. text-Holds _ o h }

  -- A reader that begins with `byte` moves past it.
  pub byte_first :
      {B : Type 0} (f : ℕ → Reader B) (o : ℕ)
      → o ≤ end
      → ((b : ℕ) → IsSafe bytes end (f b))
      → Holds bytes end (o + 1) ((byte >>= f) (cursor bytes end o))
  unfolding byte
  byte_first f o h k = elim (Bool-cases (o == end)) [
    | inl e ↦ rw e (h, λ p. cc)
    | inr e ↦ rw e ((k _).holds (o + 1) (ground arith))
  ]
