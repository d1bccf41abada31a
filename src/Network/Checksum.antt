-- ===== src/Network/Checksum.antt =====
-- packages/linux-guest/src/network.ts, `checksum`: the Internet checksum of several parts, read as
-- one run of big-endian 16-bit words. A sum stays below 2 ^ 32 on packets, so `>>>` is a division.
use distro.Common.{
  ℕ, zero, suc, ◌+◌, ◌-◌, ◌*◌, ◌/◌, ◌%◌, ◌^◌, ◌≤◌, ◌<◌, ◌≡◌, ◌≢◌, refl, sym, ap, ◌∙◌, List, [], ◌∷◌,
  ◌++◌, Option, none, some, ◌==◌, if◌then◌else◌, arith, Bool-cases, inl, inr,
}

-- The sum so far, and the high byte of a word that has begun.
unfoldable pub sum_bytes : ℕ → Option ℕ → List ℕ → ℕ × Option ℕ
sum_bytes sum high [] = (sum, high)
sum_bytes sum none (b ∷ bytes) = sum_bytes sum (some b) bytes
sum_bytes sum (some h) (b ∷ bytes) = sum_bytes (sum + (h * 256 + b)) none bytes

unfoldable pub sum_parts : ℕ → Option ℕ → List (List ℕ) → ℕ × Option ℕ
unfolding sum_bytes
sum_parts sum high [] = (sum, high)
sum_parts sum high (part ∷ parts) =
    let (sum', high') = sum_bytes sum high part in sum_parts sum' high' parts

-- `if (high !== undefined) sum += high << 8`.
unfoldable pub pad : ℕ × Option ℕ → ℕ
pad (sum, none) = sum
pad (sum, some h) = sum + h * 256

-- `while (sum >>> 16) sum = (sum & 0xffff) + (sum >>> 16)`.
unfoldable pub fold : ℕ → ℕ → Option ℕ
fold zero sum = none
fold (suc fuel) sum =
    let rest = fold fuel (sum % 2 ^ 16 + sum / 2 ^ 16) in
    if sum / 2 ^ 16 == 0 then some sum else rest

-- Three rounds bring a number below 2 ^ 32 under 2 ^ 16; the fourth sees it.
unfoldable pub folded : ℕ → ℕ
unfolding fold
folded sum = elim (fold 4 sum) [ some s ↦ s | none ↦ 0 ]

unfoldable pub checksum : List (List ℕ) → ℕ
checksum parts = 2 ^ 16 - 1 - folded (pad (sum_parts 0 none parts))

-- The outcome of folding: below 2 ^ 16, the same modulo 65535, and zero only for zero.
abbrev Folds : ℕ → ℕ → Type 0
Folds fuel sum =
    (s : ℕ) × (fold fuel sum ≡ some s)
    × (s < 2 ^ 16)
    × (s % 65535 ≡ sum % 65535)
    × (s ≡ 0 → sum ≡ 0)

fold_step :
    (fuel sum : ℕ)
    → (2 ^ 16 ≤ sum → Folds fuel (sum % 2 ^ 16 + sum / 2 ^ 16))
    → Folds (suc fuel) sum
unfolding fold
fold_step fuel sum k = elim (Bool-cases (sum / 2 ^ 16 == 0)) [
  | inl e ↦ (sum, rw e refl, ground arith, refl, λ z. z)
  | inr e ↦
      let (s, f, l, m, z) = k (ground arith) in
      (s, rw e f, l, m ∙ omega arith, λ p. omega (arith, z p))
]

fold_total : (sum : ℕ) → sum < 2 ^ 32 → Folds 4 sum
fold_total sum h =
    fold_step 3 _ λ a. fold_step 2 _ λ b. fold_step 1 _ λ c. fold_step 0 _ λ d. absurd (omega arith)

folded_lem :
    (sum : ℕ)
    → sum < 2 ^ 32
    → (folded sum < 2 ^ 16) × (folded sum % 65535 ≡ sum % 65535) × (folded sum ≡ 0 → sum ≡ 0)
unfolding folded
folded_lem sum h =
    let (s, f, l, m, z) = fold_total sum h in
    (rw (f, folded) l, rw (f, folded) m, λ p. z (rw (f, folded) at p))

-- The words that a run of bytes holds, from a word boundary.
unfoldable pub word_sum : List ℕ → ℕ
unfolding sum_bytes pad
word_sum bytes = pad (sum_bytes 0 none bytes)

sum_bytes-add :
    (sum : ℕ) (high : Option ℕ) (bytes : List ℕ)
    → pad (sum_bytes sum high bytes) ≡ sum + pad (sum_bytes 0 high bytes)
unfolding sum_bytes pad
sum_bytes-add sum none [] = omega arith
sum_bytes-add sum (some h) [] = omega arith
sum_bytes-add sum none (b ∷ bytes) = sum_bytes-add sum (some b) bytes
sum_bytes-add sum (some h) (b ∷ bytes) = omega (
  arith,
  sum_bytes-add (sum + (h * 256 + b)) none bytes,
  sum_bytes-add (0 + (h * 256 + b)) none bytes,
)

-- Bytes of an even number, as whole words, add up with what follows.
unfoldable pub IsEven : List ℕ → Type 0
IsEven [] = Unit
IsEven (a ∷ []) = ⊥
IsEven (a ∷ b ∷ bytes) = IsEven bytes

word_sum-append :
    (front back : List ℕ) → IsEven front → word_sum (front ++ back) ≡ word_sum front + word_sum back
unfolding word_sum IsEven
word_sum-append [] back e = omega arith
word_sum-append (a ∷ []) back e = absurd e
word_sum-append (a ∷ b ∷ front) back e = omega (
  arith,
  word_sum-append front back e,
  sum_bytes-add (0 + (a * 256 + b)) none (front ++ back),
  sum_bytes-add (0 + (a * 256 + b)) none front,
)

-- One word in the middle of a packet: the checksum's place.
abbrev pub with_word : List ℕ → ℕ → List ℕ → List ℕ
with_word front word back = front ++ (word / 256 ∷ word % 256 ∷ back)

word_sum-with_word :
    (front back : List ℕ) (word : ℕ)
    → IsEven front
    → word_sum (with_word front word back) ≡ word_sum front + word + word_sum back
unfolding word_sum
word_sum-with_word front back word e = omega (
  arith,
  word_sum-append front (word / 256 ∷ word % 256 ∷ back) e,
  sum_bytes-add (0 + (word / 256 * 256 + word % 256)) none back,
)

checksum-one : (part : List ℕ) → checksum (part ∷ []) ≡ 2 ^ 16 - 1 - folded (word_sum part)
unfolding checksum sum_parts word_sum
checksum-one part = refl

-- The sum of the 16-bit words, as RFC 1071 has it: the high byte first, an odd byte as the high one.
abbrev pub words : List ℕ → ℕ
words [] = 0
words (a ∷ []) = a * 256
words (a ∷ b ∷ bytes) = a * 256 + b + words bytes

word_sum-words : (bytes : List ℕ) → word_sum bytes ≡ words bytes
unfolding word_sum
word_sum-words [] = refl
word_sum-words (a ∷ []) = omega arith
word_sum-words (a ∷ b ∷ bytes) =
    omega (arith, word_sum-words bytes, sum_bytes-add (0 + (a * 256 + b)) none bytes)

-- A receiver's check: with the checksum of the packet in its place, which held zero when the
-- checksum was computed and lies on a word boundary, the sum of the packet's 16-bit words is zero in
-- ones' complement (a multiple of 65535, and not of zeros alone), and the program's own checksum of
-- the whole is zero. The sum of the words is below 2 ^ 31, as that of any packet is, and not zero.
pub checksum_verifies :
    (front back : List ℕ)
    → IsEven front
    → words front + words back < 2 ^ 31
    → words front + words back ≢ 0
    → let packet = with_word front (checksum (with_word front 0 back ∷ [])) back in
      (words packet % 65535 ≡ 0) × (words packet ≢ 0) × (checksum (packet ∷ []) ≡ 0)
checksum_verifies front back e h n =
    let front_words = word_sum-words front in
    let back_words = word_sum-words back in
    let base : ℕ = word_sum front + 0 + word_sum back in
    let check : ℕ = 2 ^ 16 - 1 - folded base in
    let word : checksum (with_word front 0 back ∷ []) ≡ check =
      checksum-one (with_word front 0 back)
      ∙ ap (λ s. 2 ^ 16 - 1 - folded s) (word_sum-with_word front back 0 e) in
    let (l, m, z) = folded_lem base (omega arith) in
    let (l', m', z') = folded_lem (word_sum front + check + word_sum back) (omega arith) in
    let sum : words (with_word front check back) ≡ word_sum front + check + word_sum back =
      sym (word_sum-words (with_word front check back)) ∙ word_sum-with_word front back check e in
    let some_word : word_sum front + word_sum back ≢ 0 = λ p. n (omega arith) in
    let nonzero : folded (word_sum front + check + word_sum back) ≢ 0 =
      λ p. some_word (omega (arith, z' p)) in
    rw word (
      omega arith,
      λ p. some_word (omega arith),
      checksum-one (with_word front check back)
          ∙ ap (λ s. 2 ^ 16 - 1 - folded s) (word_sum-with_word front back check e)
          ∙ omega arith,
    )
