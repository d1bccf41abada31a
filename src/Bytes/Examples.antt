-- ===== src/Bytes/Examples.antt =====
-- packages/bytes/src/index.ts: the buffer and the integers at concrete inputs.
use distro.Common.{
  ℕ, ◌≡◌, refl, inl, List, [], ◌∷◌, Option, none, some, ok, length, arith, replicate,
}
use distro.Bytes.Ints.{u8, u32_le, is_u8, is_u32_le, get-set, range}
use distro.Bytes.Buffer.{Bytes, grow, append, contents, IsValid, append_lem, grow_stuck}
use distro.Bytes.Reader.{cstring, cstring_lem}

-- Three bytes of four are used, so that two more double the array.
abbrev half_full : Bytes
half_full = record { array = 1 ∷ 2 ∷ 3 ∷ 0 ∷ []; used = 3 }

half_full-IsValid : IsValid half_full
half_full-IsValid = record { fits = omega arith; positive = omega arith }

append_lem_example :
    (b' : Bytes) × (append half_full (4 ∷ 5 ∷ []) ≡ some b')
    × (contents b' ≡ 1 ∷ 2 ∷ 3 ∷ 4 ∷ 5 ∷ [])
    × (b'.used ≡ 5)
    × IsValid b'
append_lem_example = append_lem half_full (4 ∷ 5 ∷ []) half_full-IsValid

grow_stuck_example : grow 100 0 1 ≡ none
grow_stuck_example = grow_stuck 100 1 (omega arith)

-- A word written behind a byte.
get-set_example :
    (dv' : List ℕ) × (u32_le.set (7 ∷ replicate 4 0) 1 513 ≡ ok dv')
    × (length dv' ≡ 5)
    × (u32_le.get dv' 1 ≡ ok 513)
    × (u8.get dv' 0 ≡ u8.get (7 ∷ replicate 4 0) 0)
get-set_example =
    get-set u32_le u8 (7 ∷ replicate 4 0) 1 513 0 is_u32_le is_u8 (omega arith)
      (unfold range in omega arith) (inl (omega arith))

-- The text is its bytes.
abbrev utf8 : List ℕ → Option (List ℕ)
utf8 bytes = some bytes

abbrev greeting : List ℕ
greeting = 9 ∷ 104 ∷ 105 ∷ 0 ∷ 9 ∷ []

cstring_lem_example :
    cstring utf8 (record { array = greeting; offset = 1 })
    ≡ ok (104 ∷ 105 ∷ [], record { array = greeting; offset = 4 })
cstring_lem_example =
    cstring_lem utf8 (104 ∷ 105 ∷ []) (9 ∷ []) (104 ∷ 105 ∷ []) (9 ∷ [])
      (omega arith, (omega arith, tt)) refl
