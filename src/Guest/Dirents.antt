-- ===== src/Guest/Dirents.antt =====
-- packages/linux-guest/src/abi.ts, `parse_dirents`. The platform's text decoder is a parameter, `none`
-- where it throws; a text is its characters' codes.
pub mod Records
use distro.Common.{
  ℕ, zero, suc, ◌+◌, ◌-◌, Bool, true, false, ◌&&◌, ◌||◌, List, [], ◌∷◌, Option, none, some, Result,
  ok, throw, ltb, ◌==◌, if◌then◌else◌, length, take, drop,
}
use distro.Bytes.Ints.{uint8, uint16_le, uint64_le, decode}

-- The header of a record; `d_off` as its bit pattern.
pub record Dirent : Type 0 where
  pub d_ino : ℕ
  pub d_off : ℕ
  pub d_reclen : ℕ
  pub d_type : ℕ

abbrev pub dirent_name_offset : ℕ
dirent_name_offset = 19

unfoldable pub read_dirent : List ℕ → Dirent
read_dirent bytes = record {
  d_ino = decode uint64_le (take 8 bytes);
  d_off = decode uint64_le (take 8 (drop 8 bytes));
  d_reclen = decode uint16_le (take 2 (drop 16 bytes));
  d_type = decode uint8 (take 1 (drop 18 bytes));
}

pub data DirentError : Type 0 where
  malformed_record undecodable_name : DirentError

pub record DirectoryEntry : Type 0 where
  pub name : List ℕ
  pub dtype : ℕ

-- The bytes before the first NUL, or all.
unfoldable pub until_nul : List ℕ → List ℕ
until_nul [] = []
until_nul (b ∷ bytes) = let rest = until_nul bytes in if b == 0 then [] else b ∷ rest

-- "." and "..".
unfoldable pub is_dots : List ℕ → Bool
is_dots [] = false
is_dots (a ∷ []) = a == 46
is_dots (a ∷ b ∷ []) = (a == 46) && (b == 46)
is_dots (a ∷ b ∷ c ∷ name) = false

unfoldable pub add_entry :
    List ℕ → ℕ → Result DirentError (List DirectoryEntry) → Result DirentError (List DirectoryEntry)
add_entry name dtype (throw e) = throw e
add_entry name dtype (ok entries) =
    ok (if is_dots name then entries else record { name = name; dtype = dtype } ∷ entries)

unfoldable pub add_decoded :
    Option (List ℕ)
    → ℕ
    → Result DirentError (List DirectoryEntry)
    → Result DirentError (List DirectoryEntry)
add_decoded none dtype rest = throw undecodable_name
add_decoded (some name) dtype rest = add_entry name dtype rest

module _ (decode_text : List ℕ → Option (List ℕ)) where
  -- The loop on what is left of the buffer. A record takes 19 bytes at least, so that a round for
  -- each byte is enough.
  unfoldable pub parse_dirents_loop : ℕ → List ℕ → Result DirentError (List DirectoryEntry)
  parse_dirents_loop zero buf = ok []
  parse_dirents_loop (suc fuel) buf =
      let header = read_dirent buf in
      let rest = parse_dirents_loop fuel (drop header.d_reclen buf) in
      let name_bytes = until_nul (drop dirent_name_offset (take header.d_reclen buf)) in
      if ltb (length buf) dirent_name_offset
      then ok []
      else if ltb header.d_reclen dirent_name_offset || ltb (length buf) header.d_reclen
      then throw malformed_record
      else add_decoded (decode_text name_bytes) header.d_type rest

  unfoldable pub parse_dirents : List ℕ → Result DirentError (List DirectoryEntry)
  parse_dirents buf = parse_dirents_loop (length buf) buf
