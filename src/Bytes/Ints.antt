-- ===== src/Bytes/Ints.antt =====
-- packages/bytes/src/index.ts: the unsigned integer types U8 to U64BE, as DataView reads and writes
-- them. A value is its bit pattern; a write keeps the value modulo its width.
use distro.Common.{
  ℕ, zero, suc, ◌+◌, ◌-◌, ◌*◌, ◌/◌, ◌%◌, ◌≤◌, ◌<◌, ◌≡◌, refl, sym, ap, ◌∙◌, ◌⊎◌, inl, inr, Bool,
  true, false, List, [], ◌∷◌, ◌++◌, Result, ok, throw, leb, if◌then◌else◌, take, drop, length,
  arith, length-append, length-take, length-drop, take-append_exact, drop-append_exact, le→leb, All,
  drop-append_ge, drop-drop,
}
use mathlib.Core.Path.{subst}
use mathlib.Core.List.{reverse, reverse-reverse, reverse-append}

abbrev pub IsByte : ℕ → Type 0
IsByte b = b < 256

pub data RangeError : Type 0 where
  out_of_bounds past_end unterminated bad_utf8 : RangeError

-- How the platform's DataView lays out an unsigned integer.
pub record Format : Type 0 where
  pub size : ℕ
  pub little_endian : Bool

abbrev pub uint8 : Format
uint8 = record { size = 1; little_endian = false }

abbrev pub uint16_le : Format
uint16_le = record { size = 2; little_endian = true }

abbrev pub uint32_le : Format
uint32_le = record { size = 4; little_endian = true }

abbrev pub uint64_le : Format
uint64_le = record { size = 8; little_endian = true }

abbrev pub uint16_be : Format
uint16_be = record { size = 2; little_endian = false }

abbrev pub uint32_be : Format
uint32_be = record { size = 4; little_endian = false }

abbrev pub uint64_be : Format
uint64_be = record { size = 8; little_endian = false }

-- The lowest `n` bytes of `v`, the lowest first.
unfoldable pub low_bytes : ℕ → ℕ → List ℕ
low_bytes zero v = []
low_bytes (suc n) v = v % 256 ∷ low_bytes n (v / 256)

unfoldable pub of_low_bytes : List ℕ → ℕ
of_low_bytes [] = 0
of_low_bytes (b ∷ bs) = b + 256 * of_low_bytes bs

unfoldable pub encode : Format → ℕ → List ℕ
unfolding low_bytes
encode t v = if t.little_endian then low_bytes t.size v else reverse (low_bytes t.size v)

unfoldable pub decode : Format → List ℕ → ℕ
unfolding of_low_bytes
decode t bytes = if t.little_endian then of_low_bytes bytes else of_low_bytes (reverse bytes)

-- `getUint8` to `getBigUint64`, and the writes.
unfoldable pub get_uint : Format → List ℕ → ℕ → Result RangeError ℕ
get_uint t dv offset =
    if leb (offset + t.size) (length dv)
    then ok (decode t (take t.size (drop offset dv)))
    else throw out_of_bounds

unfoldable pub set_uint : Format → List ℕ → ℕ → ℕ → Result RangeError (List ℕ)
set_uint t dv offset value =
    if leb (offset + t.size) (length dv)
    then ok (take offset dv ++ (encode t value ++ drop (offset + t.size) dv))
    else throw out_of_bounds

-- `Type<number>` and `Type<bigint>`: a size and two functions.
pub record IntType : Type 0 where
  pub size : ℕ
  pub get : List ℕ → ℕ → Result RangeError ℕ
  pub set : List ℕ → ℕ → ℕ → Result RangeError (List ℕ)

abbrev pub u8 : IntType
u8 = record {
  size = 1;
  get = λ dv offset. get_uint uint8 dv offset;
  set = λ dv offset value. set_uint uint8 dv offset value;
}

abbrev pub u16_le : IntType
u16_le = record {
  size = 2;
  get = λ dv offset. get_uint uint16_le dv offset;
  set = λ dv offset value. set_uint uint16_le dv offset value;
}

abbrev pub u32_le : IntType
u32_le = record {
  size = 4;
  get = λ dv offset. get_uint uint32_le dv offset;
  set = λ dv offset value. set_uint uint32_le dv offset value;
}

abbrev pub u64_le : IntType
u64_le = record {
  size = 8;
  get = λ dv offset. get_uint uint64_le dv offset;
  set = λ dv offset value. set_uint uint64_le dv offset value;
}

abbrev pub u16_be : IntType
u16_be = record {
  size = 2;
  get = λ dv offset. get_uint uint16_be dv offset;
  set = λ dv offset value. set_uint uint16_be dv offset value;
}

abbrev pub u32_be : IntType
u32_be = record {
  size = 4;
  get = λ dv offset. get_uint uint32_be dv offset;
  set = λ dv offset value. set_uint uint32_be dv offset value;
}

abbrev pub u64_be : IntType
u64_be = record {
  size = 8;
  get = λ dv offset. get_uint uint64_be dv offset;
  set = λ dv offset value. set_uint uint64_be dv offset value;
}

length-low_bytes : (n v : ℕ) → length (low_bytes n v) ≡ n
unfolding low_bytes
length-low_bytes zero v = refl
length-low_bytes (suc n) v = ap suc (length-low_bytes n (v / 256))

length-reverse {ℓ} : {A : Type ℓ} (xs : List A) → length (reverse xs) ≡ length xs
length-reverse [] = refl
length-reverse (x ∷ xs) =
    rw (reverse-append (x ∷ []) xs)
      (omega (arith, length-append (reverse xs) (x ∷ []), length-reverse xs))

pub length-encode : (t : Format) (v : ℕ) → length (encode t v) ≡ t.size
unfolding encode
length-encode t v = ground (arith, length-low_bytes t.size v, length-reverse (low_bytes t.size v))

-- The numbers that `n` bytes hold.
unfoldable pub range : ℕ → ℕ
range zero = 1
range (suc n) = 256 * range n

of_low_bytes-low_bytes : (n v : ℕ) → v < range n → of_low_bytes (low_bytes n v) ≡ v
unfolding of_low_bytes low_bytes range
of_low_bytes-low_bytes zero v h = omega arith
of_low_bytes-low_bytes (suc n) v h = omega (arith, of_low_bytes-low_bytes n (v / 256) (omega arith))

pub decode-encode : (t : Format) (v : ℕ) → v < range t.size → decode t (encode t v) ≡ v
unfolding decode encode
decode-encode t v h = ground (
  arith,
  of_low_bytes-low_bytes t.size v h,
  reverse-reverse (low_bytes t.size v),
  ap of_low_bytes (reverse-reverse (low_bytes t.size v)),
)

-- What `get` returns fits the type, if the array holds bytes.
of_low_bytes-lt : (bs : List ℕ) → All IsByte bs → of_low_bytes bs < range (length bs)
unfolding of_low_bytes range
of_low_bytes-lt [] h = omega arith
of_low_bytes-lt (b ∷ bs) (p, h) = omega (arith, of_low_bytes-lt bs h)

splice : List ℕ → ℕ → List ℕ → List ℕ
splice dv o xs = take o dv ++ (xs ++ drop (o + length xs) dv)

length-splice :
    (dv : List ℕ) (o : ℕ) (xs : List ℕ)
    → o + length xs ≤ length dv
    → length (splice dv o xs) ≡ length dv
unfolding splice
length-splice dv o xs h = omega (
  arith,
  length-append (take o dv) (xs ++ drop (o + length xs) dv),
  length-append xs (drop (o + length xs) dv),
  length-take o dv,
  length-drop (o + length xs) dv,
)

slice-splice_self :
    (dv : List ℕ) (o : ℕ) (xs : List ℕ)
    → o + length xs ≤ length dv
    → take (length xs) (drop o (splice dv o xs)) ≡ xs
unfolding splice
slice-splice_self dv o xs h =
    rw (drop-append_exact o (take o dv) _ (omega (arith, length-take o dv)))
      (take-append_exact (length xs) xs _ refl)

slice-append_before :
    (n p o : ℕ) (dv ys : List ℕ)
    → p + n ≤ o
    → o ≤ length dv
    → take n (drop p (take o dv ++ ys)) ≡ take n (drop p dv)
slice-append_before zero p o dv ys h k = refl
slice-append_before (suc n) p zero dv ys h k = absurd (omega arith)
slice-append_before (suc n) p (suc o) [] ys h k = absurd (omega arith)
slice-append_before (suc n) zero (suc o) (x ∷ dv) ys h k =
    ap (λ r. x ∷ r) (slice-append_before n 0 o dv ys (omega arith) (omega arith))
slice-append_before (suc n) (suc p) (suc o) (x ∷ dv) ys h k =
    slice-append_before (suc n) p o dv ys (omega arith) (omega arith)

drop-splice_after :
    (dv : List ℕ) (o p : ℕ) (xs : List ℕ)
    → o + length xs ≤ length dv
    → o + length xs ≤ p
    → drop p (splice dv o xs) ≡ drop p dv
unfolding splice
drop-splice_after dv o p xs h k =
    let front : length (take o dv) ≡ o = omega (arith, length-take o dv) in
    let back : o + length xs + (p - o - length xs) ≡ p = omega arith in
    drop-append_ge p (take o dv) _ (omega arith)
    ∙ rw front (
        drop-append_ge (p - o) xs _ (omega arith)
        ∙ drop-drop (p - o - length xs) (o + length xs) dv
        ∙ ap (λ k. drop k dv) back)

-- Two ranges of bytes that do not meet.
abbrev pub Apart : ℕ → ℕ → ℕ → ℕ → Type 0
Apart o m p n = (p + n ≤ o) ⊎ (o + m ≤ p)

slice-splice-Apart :
    (dv : List ℕ) (o p n : ℕ) (xs : List ℕ)
    → o + length xs ≤ length dv
    → Apart o (length xs) p n
    → take n (drop p (splice dv o xs)) ≡ take n (drop p dv)
unfolding splice
slice-splice-Apart dv o p n xs h (inl k) = slice-append_before n p o dv _ k (omega arith)
slice-splice-Apart dv o p n xs h (inr k) = ap (take n) (drop-splice_after dv o p xs h k)

-- What a write at `offset` leaves: it succeeds in bounds, keeps the array's length, is read back, and
-- changes no integer that lies apart from it.
abbrev WritesAt : IntType → IntType → Type 0
WritesAt t u =
    (dv : List ℕ) (offset value p : ℕ)
    → offset + t.size ≤ length dv
    → value < range t.size
    → Apart offset t.size p u.size
    → (dv' : List ℕ) × (t.set dv offset value ≡ ok dv')
      × (length dv' ≡ length dv)
      × (t.get dv' offset ≡ ok value)
      × (u.get dv' p ≡ u.get dv p)

-- A type that reads and writes the same layout.
abbrev typed : Format → IntType
typed f = record {
  size = f.size;
  get = λ dv offset. get_uint f dv offset;
  set = λ dv offset value. set_uint f dv offset value;
}

typed-WritesAt : (t u : Format) → WritesAt (typed t) (typed u)
unfolding set_uint get_uint
typed-WritesAt t u dv offset value p h v a =
    let xs : List ℕ = encode t value in
    let w : length xs ≡ t.size = length-encode t value in
    let in_bounds : offset + length xs ≤ length dv = omega arith in
    let slice : take t.size (drop offset (splice dv offset xs)) ≡ xs =
      subst (λ n. take n (drop offset (splice dv offset xs)) ≡ xs) w
        (slice-splice_self dv offset xs in_bounds) in
    let same : length (splice dv offset xs) ≡ length dv = length-splice dv offset xs in_bounds in
    (
      splice dv offset xs,
      rw (le→leb _ _ h) (unfold splice in rw w refl),
      same,
      rw (same, le→leb _ _ h, slice) (ap ok (decode-encode t value v)),
      rw (same, slice-splice-Apart dv offset p u.size xs in_bounds (rw w a)) refl,
    )

-- The library's unsigned types.
pub data IsIntType : IntType → Type 0 where
  is_u8 : IsIntType u8
  is_u16_le : IsIntType u16_le
  is_u32_le : IsIntType u32_le
  is_u64_le : IsIntType u64_le
  is_u16_be : IsIntType u16_be
  is_u32_be : IsIntType u32_be
  is_u64_be : IsIntType u64_be

IsIntType-typed : (t : IntType) → IsIntType t → (f : Format) × (t ≡ typed f)
IsIntType-typed _ is_u8 = (uint8, refl)
IsIntType-typed _ is_u16_le = (uint16_le, refl)
IsIntType-typed _ is_u32_le = (uint32_le, refl)
IsIntType-typed _ is_u64_le = (uint64_le, refl)
IsIntType-typed _ is_u16_be = (uint16_be, refl)
IsIntType-typed _ is_u32_be = (uint32_be, refl)
IsIntType-typed _ is_u64_be = (uint64_be, refl)

-- For any two of the unsigned types: in bounds, a value of the first one's range is written by its
-- `set`: the array keeps its length, the type's own `get` reads the value back, and a field of the
-- second type that lies apart from it reads as before.
pub get-set :
    (t u : IntType) (dv : List ℕ) (offset value p : ℕ)
    → IsIntType t
    → IsIntType u
    → offset + t.size ≤ length dv
    → value < range t.size
    → Apart offset t.size p u.size
    → (dv' : List ℕ) × (t.set dv offset value ≡ ok dv')
      × (length dv' ≡ length dv)
      × (t.get dv' offset ≡ ok value)
      × (u.get dv' p ≡ u.get dv p)
get-set t u dv offset value p i j h v a =
    let (f, e) = IsIntType-typed t i in
    let (g, d) = IsIntType-typed u j in
    let law : WritesAt t u =
      subst (λ q. WritesAt q u) (sym e)
        (subst (λ q. WritesAt (typed f) q) (sym d) (typed-WritesAt f g)) in
    law dv offset value p h v a
