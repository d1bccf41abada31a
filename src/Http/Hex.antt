-- ===== src/Http/Hex.antt =====
-- Numbers in hexadecimal digits, as `toString(16)` writes and `parseInt(line, 16)` reads them.
use distro.Common.{
  ℕ, zero, suc, ◌+◌, ◌-◌, ◌*◌, ◌/◌, ◌%◌, ◌^◌, ◌≤◌, ◌<◌, ◌≡◌, refl, ◌∙◌, ◌&&◌, List, [], ◌∷◌, ◌++◌,
  Option, none, some, ltb, leb, if◌then◌else◌, length, arith, All, All-append, Bool-cases, inl, inr,
  length-append,
}

abbrev pub hex_value : ℕ → Option ℕ
hex_value b =
    if leb 48 b && leb b 57
    then some (b - 48)
    else if leb 97 b && leb b 102
    then some (b - 87)
    else if leb 65 b && leb b 70
    then some (b - 55)
    else none

abbrev pub hex_digit : ℕ → ℕ
hex_digit d = if ltb d 10 then 48 + d else 87 + d

-- In at most `fuel + 1` digits.
unfoldable pub to_hex_loop : ℕ → ℕ → List ℕ
to_hex_loop zero n = hex_digit (n % 16) ∷ []
to_hex_loop (suc fuel) n =
    let front = to_hex_loop fuel (n / 16) in
    if ltb n 16 then hex_digit n ∷ [] else front ++ hex_digit (n % 16) ∷ []

-- An array's length is below 2 ^ 53, so that 14 digits are enough.
unfoldable pub to_hex : ℕ → List ℕ
to_hex n = to_hex_loop 13 n

-- The leading digits of a line, from the value of those before.
unfoldable pub parse_hex_from : ℕ → List ℕ → ℕ
parse_hex_from acc [] = acc
parse_hex_from acc (b ∷ bytes) = elim (hex_value b) [
  | none ↦ acc
  | some d ↦ parse_hex_from (acc * 16 + d) bytes
]

unfoldable pub parse_hex : List ℕ → ℕ
parse_hex bytes = parse_hex_from 0 bytes

hex_value-hex_digit : (d : ℕ) → d < 16 → hex_value (hex_digit d) ≡ some d
hex_value-hex_digit d h = ground arith

abbrev pub IsHex : ℕ → Type 0
IsHex b = (d : ℕ) × (hex_value b ≡ some d)

parse_hex_from-append :
    (acc : ℕ) (xs : List ℕ) (d : ℕ)
    → All IsHex xs
    → d < 16
    → parse_hex_from acc (xs ++ hex_digit d ∷ []) ≡ parse_hex_from acc xs * 16 + d
unfolding parse_hex_from
parse_hex_from-append acc [] d h l = rw (hex_value-hex_digit d l, parse_hex_from) refl
parse_hex_from-append acc (x ∷ xs) d ((v, e), h) l =
    rw (e, parse_hex_from) (parse_hex_from-append (acc * 16 + v) xs d h l)

pub to_hex_loop-IsHex : (fuel n : ℕ) → All IsHex (to_hex_loop fuel n)
unfolding to_hex_loop
to_hex_loop-IsHex zero n = ((n % 16, hex_value-hex_digit (n % 16) (omega arith)), tt)
to_hex_loop-IsHex (suc fuel) n = elim (Bool-cases (ltb n 16)) [
  | inl e ↦ rw e ((n, hex_value-hex_digit n (ground arith)), tt)
  | inr e ↦ rw e (
      All-append IsHex (to_hex_loop fuel (n / 16)) (hex_digit (n % 16) ∷ [])
        (to_hex_loop-IsHex fuel (n / 16))
        ((n % 16, hex_value-hex_digit (n % 16) (omega arith)), tt))
]

-- The numbers of `fuel + 1` digits.
unfoldable pub hex_range : ℕ → ℕ
hex_range zero = 16
hex_range (suc fuel) = 16 * hex_range fuel

one_digit : (d : ℕ) → d < 16 → parse_hex_from 0 (hex_digit d ∷ []) ≡ d
unfolding parse_hex_from
one_digit d l = rw (hex_value-hex_digit d l, parse_hex_from) (omega arith)

parse_hex-to_hex_loop :
    (fuel n : ℕ) → n < hex_range fuel → parse_hex_from 0 (to_hex_loop fuel n) ≡ n
unfolding to_hex_loop hex_range
parse_hex-to_hex_loop zero n h = one_digit (n % 16) (omega arith) ∙ omega arith
parse_hex-to_hex_loop (suc fuel) n h = elim (Bool-cases (ltb n 16)) [
  | inl e ↦ rw e (one_digit n (ground arith))
  | inr e ↦ rw e (
      parse_hex_from-append 0 (to_hex_loop fuel (n / 16)) (n % 16) (to_hex_loop-IsHex fuel (n / 16))
        (omega arith)
      ∙ omega (arith, parse_hex-to_hex_loop fuel (n / 16) (omega arith)))
]

length-to_hex_loop :
    (fuel n : ℕ) → (0 < length (to_hex_loop fuel n)) × (length (to_hex_loop fuel n) ≤ fuel + 1)
unfolding to_hex_loop
length-to_hex_loop zero n = (omega arith, omega arith)
length-to_hex_loop (suc fuel) n = elim (Bool-cases (ltb n 16)) [
  | inl e ↦ rw e (omega arith, omega arith)
  | inr e ↦ rw e (
      omega (
        arith,
        length-append (to_hex_loop fuel (n / 16)) (hex_digit (n % 16) ∷ []),
        length-to_hex_loop fuel (n / 16),
      ))
]

pub parse_hex-to_hex : (n : ℕ) → n < 2 ^ 53 → parse_hex (to_hex n) ≡ n
unfolding parse_hex to_hex hex_range
parse_hex-to_hex n h = parse_hex-to_hex_loop 13 n (omega arith)

pub length-to_hex : (n : ℕ) → (0 < length (to_hex n)) × (length (to_hex n) ≤ 14)
unfolding to_hex
length-to_hex n = length-to_hex_loop 13 n
