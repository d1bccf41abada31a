-- ===== src/Wasm/Leb.antt =====
-- packages/kernel/src/wasm_binary.ts: `Cursor.u32` and `Cursor.u64` against LEB128.
use distro.Common.{
  ℕ, zero, suc, ◌+◌, ◌-◌, ◌*◌, ◌/◌, ◌%◌, ◌^◌, ◌≤◌, ◌<◌, ◌≡◌, refl, ap, sym, ◌∙◌, true, false, List,
  [], ◌∷◌, ◌++◌, ok, ltb, leb, if◌then◌else◌, length, arith, get_or, drop, drop-drop, Bool-cases,
  inl, inr, ltb→lt,
}
use distro.Wasm.Cursor.{Outcome, byte, unsigned_loop, u32, u64, has_bit}
use distro.Wasm.Span.{cursor}
use native.Mathlib.Decide.{dec_lt}
use native.Mathlib.Numerals.{towards_suc}
use native.Mathlib.Nat.{div-add-mod}

-- LEB128 of `v` in at most `k + 1` bytes: groups of seven bits, the lowest first.
unfoldable pub leb128 : ℕ → ℕ → List ℕ
leb128 zero v = v ∷ []
leb128 (suc k) v =
    let rest = leb128 k (v / 128) in if ltb v 128 then v ∷ [] else (v % 128 + 128) ∷ rest

-- The bytes `xs` stand at offset `o`, inside the span.
pub record IsAhead (bytes : List ℕ) (end o : ℕ) (xs : List ℕ) : Type 0 where
  pub rest : List ℕ
  pub unread : drop o bytes ≡ xs ++ rest
  pub inside : o + length xs ≤ end

get_or-drop : (o : ℕ) (bytes rest : List ℕ) (b : ℕ) → drop o bytes ≡ b ∷ rest → get_or bytes o 0 ≡ b
get_or-drop zero [] rest b e = cc
get_or-drop zero (x ∷ bytes) rest b e = cc
get_or-drop (suc o) [] rest b e = cc
get_or-drop (suc o) (x ∷ bytes) rest b e = get_or-drop o bytes rest b e

pub IsAhead-tail :
    {bytes : List ℕ} {end o b : ℕ} {xs : List ℕ}
    → IsAhead bytes end o (b ∷ xs)
    → IsAhead bytes end (o + 1) xs
IsAhead-tail {bytes} {end} {o} {b} {xs} a = record {
  rest = a.rest;
  unread = sym (drop-drop 1 o bytes) ∙ rw (a.unread) refl;
  inside = omega arith;
}

pub IsAhead-append :
    {bytes : List ℕ} {end : ℕ} (xs : List ℕ) {ys : List ℕ} {o : ℕ}
    → IsAhead bytes end o (xs ++ ys)
    → IsAhead bytes end (o + length xs) ys
IsAhead-append {bytes} {end} [] {ys} {o} a = let e : o + 0 ≡ o = omega arith in rw e a
IsAhead-append {bytes} {end} (x ∷ xs) {ys} {o} a =
    let e : o + suc (length xs) ≡ o + 1 + length xs = omega arith in
    rw e (IsAhead-append xs (IsAhead-tail a))

pub byte_ahead :
    {bytes : List ℕ} {end o b : ℕ} {xs : List ℕ}
    → IsAhead bytes end o (b ∷ xs)
    → byte (cursor bytes end o) ≡ ok (b, cursor bytes end (o + 1))
unfolding byte
byte_ahead {bytes} {end} {o} {b} {xs} a =
    ground (arith, get_or-drop o bytes (xs ++ a.rest) b a.unread)

pow_seven : (s : ℕ) → 2 ^ (s + 7) ≡ 128 * 2 ^ s
pow_seven s = simp towards_suc (omega arith)

-- The lowest seven bits of `v` and the others, in place at bit `s`.
groups : (v s : ℕ) → v % 128 * 2 ^ s + v / 128 * 2 ^ (s + 7) ≡ v * 2 ^ s
groups v s = omega (
  arith,
  ap (λ (t : ℕ). t * 2 ^ s) (div-add-mod v 128),
  ap (λ (t : ℕ). v / 128 * t) (pow_seven s),
)

pow_below_seven : (s : ℕ) → s < 7 → 2 ^ s ≤ 64
pow_below_seven zero h = omega arith
pow_below_seven (suc zero) h = omega arith
pow_below_seven (suc (suc zero)) h = omega arith
pow_below_seven (suc (suc (suc zero))) h = omega arith
pow_below_seven (suc (suc (suc (suc zero)))) h = omega arith
pow_below_seven (suc (suc (suc (suc (suc zero))))) h = omega arith
pow_below_seven (suc (suc (suc (suc (suc (suc zero)))))) h = omega arith
pow_below_seven (suc (suc (suc (suc (suc (suc (suc s))))))) h = absurd (omega arith)

-- A number of `rem` bits that has a second group: there are seven bits for the first, and the
-- others have the bits that are left.
more_bits : (v rem : ℕ) → v < 2 ^ rem → 128 ≤ v → (7 ≤ rem) × (v / 128 < 2 ^ (rem - 7))
more_bits v rem h k = elim (dec_lt rem 7) [
  | yes p ↦ absurd (omega (arith, pow_below_seven rem p))
  | no p ↦ (
    omega arith,
    (let e : rem ≡ rem - 7 + 7 = omega arith in
        let whole : 2 ^ rem ≡ 128 * 2 ^ (rem - 7) = ap (λ t. 2 ^ t) e ∙ pow_seven (rem - 7) in
        omega arith),
  )
]

-- One round on a last byte, and on a byte that another follows.
last_round :
    (bytes : List ℕ) (end o k bits i rem value v : ℕ)
    → IsAhead bytes end o (v ∷ [])
    → bits ≡ i * 7 + rem
    → v < 2 ^ rem
    → v < 128
    → unsigned_loop (suc k) bits i value (cursor bytes end o)
      ≡ ok (value + v * 2 ^ (i * 7), cursor bytes end (o + 1))
unfolding unsigned_loop
last_round bytes end o k bits i rem value v a e h l =
    let low : v % 128 ≡ v = omega arith in
    let bit : has_bit v 7 ≡ false = ground arith in
    let left : bits - i * 7 ≡ rem = omega arith in
    let fits : leb (2 ^ rem) v ≡ false = ground arith in
    rw (byte_ahead a, low, bit, left, fits) (ground arith)

inner_round :
    (bytes : List ℕ) (end o k bits i rem value g : ℕ) (xs : List ℕ)
    → IsAhead bytes end o ((g + 128) ∷ xs)
    → bits ≡ i * 7 + rem
    → 7 ≤ rem
    → g < 128
    → unsigned_loop (suc k) bits i value (cursor bytes end o)
      ≡ unsigned_loop k bits (i + 1) (value + g * 2 ^ (i * 7)) (cursor bytes end (o + 1))
unfolding unsigned_loop
inner_round bytes end o k bits i rem value g xs a e h l =
    let low : (g + 128) % 128 ≡ g = omega arith in
    let bit : has_bit (g + 128) 7 ≡ true = ground arith in
    let left : bits - i * 7 ≡ rem = omega arith in
    let enough : ltb rem 7 ≡ false = ground arith in rw (byte_ahead a, low, bit, left, enough) refl

ok_eq :
    (bytes : List ℕ) (end : ℕ) {x y o p : ℕ}
    → x ≡ y
    → o ≡ p
    → ◌≡◌ {A = Outcome ℕ} (ok (x, cursor bytes end o)) (ok (y, cursor bytes end p))
ok_eq bytes end e f = cc

-- `v` has at most `k + 1` groups.
abbrev pub Fits : ℕ → ℕ → Type 0
Fits zero v = v < 128
Fits (suc k) v = Fits k (v / 128)

-- After `i` groups, which make up `value`, the loop reads those of `v`.
unsigned_loop-leb128 :
    (bytes : List ℕ) (end k o bits i rem value v : ℕ)
    → IsAhead bytes end o (leb128 k v)
    → bits ≡ i * 7 + rem
    → v < 2 ^ rem
    → Fits k v
    → unsigned_loop (suc k) bits i value (cursor bytes end o)
      ≡ ok (value + v * 2 ^ (i * 7), cursor bytes end (o + length (leb128 k v)))
unfolding leb128
unsigned_loop-leb128 bytes end zero o bits i rem value v a e h f =
    last_round bytes end o zero bits i rem value v a e h f
unsigned_loop-leb128 bytes end (suc k) o bits i rem value v a e h f =
    elim (Bool-cases (ltb v 128)) [
      | inl small ↦ rw small (
          last_round bytes end o (suc k) bits i rem value v (rw small at a) e h
            (ltb→lt v 128 small))
      | inr large ↦
          let b : IsAhead bytes end o ((v % 128 + 128) ∷ leb128 k (v / 128)) = rw large at a in
          let (enough, fewer) = more_bits v rem h (ground arith) in
          let shift : (i + 1) * 7 ≡ i * 7 + 7 = omega arith in
          rw large (
            inner_round bytes end o (suc k) bits i rem value (v % 128) _ b e enough (omega arith)
            ∙ unsigned_loop-leb128 bytes end k (o + 1) bits (i + 1) (rem - 7) _ (v / 128)
                (IsAhead-tail b) (omega arith) fewer f
            ∙ ok_eq bytes end
                (omega (arith, groups v (i * 7), ap (λ (t : ℕ). v / 128 * 2 ^ t) shift))
                (omega arith))
    ]

-- `u32` reads back every number below 2 ^ 32 from its LEB128 encoding, whatever stands before and
-- after it in the span, and moves the cursor past the encoding.
pub u32-leb128 :
    (bytes : List ℕ) (end o v : ℕ)
    → IsAhead bytes end o (leb128 4 v)
    → v < 2 ^ 32
    → u32 (cursor bytes end o) ≡ ok (v, cursor bytes end (o + length (leb128 4 v)))
unfolding u32
u32-leb128 bytes end o v a h =
    unsigned_loop-leb128 bytes end 4 o 32 0 32 0 v a (omega arith) h (omega arith)
    ∙ ok_eq bytes end (omega arith) refl

-- `u64` reads back every number below 2 ^ 64 from its LEB128 encoding, whatever stands before and
-- after it in the span, and moves the cursor past the encoding.
pub u64-leb128 :
    (bytes : List ℕ) (end o v : ℕ)
    → IsAhead bytes end o (leb128 9 v)
    → v < 2 ^ 64
    → u64 (cursor bytes end o) ≡ ok (v, cursor bytes end (o + length (leb128 9 v)))
unfolding u64
u64-leb128 bytes end o v a h =
    unsigned_loop-leb128 bytes end 9 o 64 0 64 0 v a (omega arith) h (omega arith)
    ∙ ok_eq bytes end (omega arith) refl
