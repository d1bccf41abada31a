-- ===== src/Guest/Dirents/Records.antt =====
-- packages/linux-guest/src/abi.ts: `parse_dirents` on the records that getdents64 writes.
use distro.Common.{
  ℕ, zero, suc, ◌+◌, ◌^◌, ◌≤◌, ◌<◌, ◌≡◌, ◌≢◌, ◌⊎◌, refl, sym, ap, ◌∙◌, false, ◌||◌, List, [], ◌∷◌,
  ◌++◌, Option, some, Result, ok, throw, ◌&&◌, ◌==◌, ==_iff, true, ltb, length, take, drop, arith,
  All, Bool-cases, inl, inr, if_true, if_false, length-append, append_assoc, length-drop,
  take-append_exact, drop-append_exact,
}
use distro.Bytes.Ints.{
  uint8, uint16_le, uint64_le, encode, decode, decode-encode, length-encode, range,
}
use distro.Guest.Dirents.{
  read_dirent, dirent_name_offset, DirentError, malformed_record, DirectoryEntry, until_nul,
  add_entry, add_decoded, is_dots, parse_dirents_loop, parse_dirents,
}

-- A `linux_dirent64` record: its fields, the bytes of its name with their text, and the bytes that
-- pad it.
pub record DirentRecord : Type 0 where
  pub d_ino : ℕ
  pub d_off : ℕ
  pub d_type : ℕ
  pub name_bytes : List ℕ
  pub text : List ℕ
  pub padding : List ℕ

abbrev pub record_length : DirentRecord → ℕ
record_length d = 20 + length d.name_bytes + length d.padding

unfoldable pub write_dirent : DirentRecord → List ℕ
write_dirent d =
    (encode uint64_le d.d_ino ++ encode uint64_le d.d_off)
    ++ (encode uint16_le (record_length d) ++ (d.d_type ∷ (d.name_bytes ++ 0 ∷ d.padding)))

unfoldable pub write_dirents : List DirentRecord → List ℕ
write_dirents [] = []
write_dirents (d ∷ records) = write_dirent d ++ write_dirents records

pub record IsDirent (decode_text : List ℕ → Option (List ℕ)) (d : DirentRecord) : Type 0 where
  pub fits : record_length d < 2 ^ 16
  pub byte : d.d_type < 256
  pub without_nul : All (λ b. b ≢ 0) d.name_bytes
  pub decodes : decode_text d.name_bytes ≡ some d.text

-- The entries of the records, in front of what the rest gives.
abbrev pub add_entries :
    List DirentRecord
    → Result DirentError (List DirectoryEntry)
    → Result DirentError (List DirectoryEntry)
add_entries [] rest = rest
add_entries (d ∷ records) rest = add_entry d.text d.d_type (add_entries records rest)

-- The names of the directory itself and of its parent.
abbrev pub IsDots : List ℕ → Type 0
IsDots text = (text ≡ 46 ∷ []) ⊎ (text ≡ 46 ∷ 46 ∷ [])

-- The entries that records stand for.
pub data Listed : List DirentRecord → List DirectoryEntry → Type 0 where
  none_left : Listed [] []
  hidden :
      (d : DirentRecord) (records : List DirentRecord) (entries : List DirectoryEntry)
      → IsDots d.text
      → Listed records entries
      → Listed (d ∷ records) entries
  shown :
      (d : DirentRecord) (records : List DirentRecord) (entries : List DirectoryEntry)
      → ¬ IsDots d.text
      → Listed records entries
      → Listed (d ∷ records) (record { name = d.text; dtype = d.d_type } ∷ entries)

two_equal : (a b : ℕ) → (a == 46 && b == 46) ≡ true → (a ≡ 46) × (b ≡ 46)
two_equal a b e = ground arith

is_dots-IsDots : (text : List ℕ) → is_dots text ≡ true → IsDots text
unfolding is_dots
is_dots-IsDots [] e = cc
is_dots-IsDots (a ∷ []) e = inl (ap (λ x. x ∷ []) ((==_iff a 46).0 e))
is_dots-IsDots (a ∷ b ∷ []) e = let (p, q) = two_equal a b e in rw (p, q) (inr refl)
is_dots-IsDots (a ∷ b ∷ c ∷ text) e = cc

is_dots-shown : (text : List ℕ) → is_dots text ≡ false → ¬ IsDots text
unfolding is_dots
is_dots-shown text e (inl p) = let no : true ≡ false = rw p at e in cc
is_dots-shown text e (inr p) = let no : true ≡ false = rw p at e in cc

add_entries-Listed :
    (records : List DirentRecord) (more : List DirectoryEntry)
    → (entries : List DirectoryEntry) × Listed records entries
      × (add_entries records (ok more) ≡ ok (entries ++ more))
unfolding add_entry
add_entries-Listed [] more = ([], none_left, refl)
add_entries-Listed (d ∷ records) more =
    let (entries, listed, e) = add_entries-Listed records more in
    elim (Bool-cases (is_dots d.text)) [
      | inl b ↦ (
        entries,
        hidden d records entries (is_dots-IsDots d.text b) listed,
        rw (e, add_entry, b) refl,
      )
      | inr b ↦ (
        record { name = d.text; dtype = d.d_type } ∷ entries,
        shown d records entries (is_dots-shown d.text b) listed,
        rw (e, add_entry, b) refl,
      )
    ]

at_least_19 : (n : ℕ) → ltb n 19 ≡ false → 19 ≤ n
at_least_19 n e = ground arith

-- More rounds than bytes change nothing.
enough :
    (decode_text : List ℕ → Option (List ℕ)) (m n : ℕ) (buf : List ℕ)
    → length buf ≤ m
    → length buf ≤ n
    → parse_dirents_loop decode_text m buf ≡ parse_dirents_loop decode_text n buf
unfolding parse_dirents_loop
enough decode_text zero zero buf h k = refl
enough decode_text zero (suc n) buf h k = sym (if_true (ltb (length buf) 19) _ _ (ground arith))
enough decode_text (suc m) zero buf h k = if_true (ltb (length buf) 19) _ _ (ground arith)
enough decode_text (suc m) (suc n) buf h k = elim (Bool-cases (ltb (read_dirent buf).d_reclen 19)) [
  | inl e ↦ rw e refl
  | inr e ↦
      rw
        (enough decode_text m n (drop (read_dirent buf).d_reclen buf)
          (omega (arith, length-drop (read_dirent buf).d_reclen buf, at_least_19 _ e))
          (omega (arith, length-drop (read_dirent buf).d_reclen buf, at_least_19 _ e)))
        refl
]

until_nul-append :
    (name back : List ℕ) → All (λ b. b ≢ 0) name → until_nul (name ++ 0 ∷ back) ≡ name
unfolding until_nul
until_nul-append [] back h = refl
until_nul-append (b ∷ name) back (p, h) = rw (until_nul-append name back h) (ground arith)

decode-uint8 : (b : ℕ) → decode uint8 (b ∷ []) ≡ b
unfolding decode distro.Bytes.Ints.of_low_bytes
decode-uint8 b = omega arith

read_dirent-write_dirent :
    (d : DirentRecord) (rest : List ℕ)
    → record_length d < 2 ^ 16
    → d.d_type < 256
    → ((read_dirent (write_dirent d ++ rest)).d_reclen ≡ record_length d)
      × ((read_dirent (write_dirent d ++ rest)).d_type ≡ d.d_type)
unfolding read_dirent write_dirent
read_dirent-write_dirent d rest l t =
    let front = encode uint64_le d.d_ino ++ encode uint64_le d.d_off in
    let tail = d.name_bytes ++ 0 ∷ d.padding in
    let size = encode uint16_le (record_length d) in
    let front_length : length front ≡ 16 = omega (
      arith,
      length-append (encode uint64_le d.d_ino) (encode uint64_le d.d_off),
      length-encode uint64_le d.d_ino,
      length-encode uint64_le d.d_off,
    ) in
    let here : write_dirent d ++ rest ≡ front ++ (size ++ (d.d_type ∷ (tail ++ rest))) =
      append_assoc front (size ++ (d.d_type ∷ tail)) rest
      ∙ ap (λ r. front ++ r) (append_assoc size (d.d_type ∷ tail) rest) in
    let there : write_dirent d ++ rest ≡ (front ++ size) ++ (d.d_type ∷ (tail ++ rest)) =
      here ∙ sym (append_assoc front size (d.d_type ∷ (tail ++ rest))) in
    let size_length : length size ≡ 2 = length-encode uint16_le (record_length d) in
    let front_size_length : length (front ++ size) ≡ 18 = omega (arith, length-append front size) in
    let after_front : drop 16 (write_dirent d ++ rest) ≡ size ++ (d.d_type ∷ (tail ++ rest)) =
      ap (drop 16) here ∙ drop-append_exact 16 front _ front_length in
    let after_size : drop 18 (write_dirent d ++ rest) ≡ d.d_type ∷ (tail ++ rest) =
      ap (drop 18) there ∙ drop-append_exact 18 (front ++ size) _ front_size_length in
    (
      ap (λ b. decode uint16_le (take 2 b)) after_front
          ∙ (ap (decode uint16_le) (take-append_exact 2 size _ size_length)
              ∙ decode-encode uint16_le (record_length d) (unfold range in omega arith)),
      ap (λ b. decode uint8 (take 1 b)) after_size ∙ decode-uint8 d.d_type,
    )

length-write_dirent : (d : DirentRecord) → length (write_dirent d) ≡ record_length d
unfolding write_dirent
length-write_dirent d =
    let front = encode uint64_le d.d_ino ++ encode uint64_le d.d_off in
    let tail = d.name_bytes ++ 0 ∷ d.padding in
    omega (
      arith,
      length-append front (encode uint16_le (record_length d) ++ (d.d_type ∷ tail)),
      length-append (encode uint64_le d.d_ino) (encode uint64_le d.d_off),
      length-append (encode uint16_le (record_length d)) (d.d_type ∷ tail),
      length-append d.name_bytes (0 ∷ d.padding),
      length-encode uint64_le d.d_ino,
      length-encode uint64_le d.d_off,
      length-encode uint16_le (record_length d),
    )

drop-write_dirent :
    (d : DirentRecord) → drop dirent_name_offset (write_dirent d) ≡ d.name_bytes ++ 0 ∷ d.padding
unfolding write_dirent
drop-write_dirent d =
    let front = encode uint64_le d.d_ino ++ encode uint64_le d.d_off in
    let size = encode uint16_le (record_length d) in
    let tail = d.name_bytes ++ 0 ∷ d.padding in
    let shape : write_dirent d ≡ ((front ++ size) ++ (d.d_type ∷ [])) ++ tail =
      sym (append_assoc front size (d.d_type ∷ tail))
      ∙ sym (append_assoc (front ++ size) (d.d_type ∷ []) tail) in
    ap (drop 19) shape
    ∙ drop-append_exact 19 ((front ++ size) ++ (d.d_type ∷ [])) tail (
        omega (
          arith,
          length-append (front ++ size) (d.d_type ∷ []),
          length-append front size,
          length-append (encode uint64_le d.d_ino) (encode uint64_le d.d_off),
          length-encode uint64_le d.d_ino,
          length-encode uint64_le d.d_off,
          length-encode uint16_le (record_length d),
        ))

module _ (decode_text : List ℕ → Option (List ℕ)) where
  -- A round of the loop on a record of `k` bytes.
  parse_record :
      (fuel k : ℕ) (buf rest text : List ℕ)
      → (read_dirent buf).d_reclen ≡ k
      → 19 ≤ k
      → k ≤ length buf
      → drop k buf ≡ rest
      → decode_text (until_nul (drop dirent_name_offset (take k buf))) ≡ some text
      → parse_dirents_loop decode_text (suc fuel) buf
        ≡ add_entry text (read_dirent buf).d_type (parse_dirents_loop decode_text fuel rest)
  unfolding parse_dirents_loop add_decoded
  parse_record fuel k buf rest text e l m r t =
      let header = read_dirent buf in
      let name : decode_text (until_nul (drop dirent_name_offset (take header.d_reclen buf)))
          ≡ some text =
        ap (λ n. decode_text (until_nul (drop dirent_name_offset (take n buf)))) e ∙ t in
      if_false (ltb (length buf) dirent_name_offset) _ _ (ground arith)
      ∙ (if_false (ltb header.d_reclen dirent_name_offset || ltb (length buf) header.d_reclen) _ _
            (ground arith)
          ∙ (ap
                (λ o.
                  add_decoded o header.d_type
                    (parse_dirents_loop decode_text fuel (drop header.d_reclen buf)))
                name
              ∙ ap (λ b. add_entry text header.d_type (parse_dirents_loop decode_text fuel b))
                  (ap (λ n. drop n buf) e ∙ r)))

  parse_dirents-write_dirent :
      (d : DirentRecord) (rest : List ℕ)
      → IsDirent decode_text d
      → parse_dirents decode_text (write_dirent d ++ rest)
        ≡ add_entry d.text d.d_type (parse_dirents decode_text rest)
  unfolding parse_dirents
  parse_dirents-write_dirent d rest h =
      let w = write_dirent d in
      let fields = read_dirent-write_dirent d rest h.fits h.byte in
      let size = length-write_dirent d in
      let whole = length-append w rest in
      let taken : take (record_length d) (w ++ rest) ≡ w =
        take-append_exact (record_length d) w rest size in
      enough decode_text (length (w ++ rest)) (suc (length (w ++ rest))) (w ++ rest) (omega arith)
        (omega arith)
      ∙ (parse_record (length (w ++ rest)) (record_length d) (w ++ rest) rest d.text fields.0
            (omega arith) (omega arith) (drop-append_exact (record_length d) w rest size)
            (ap (λ b. decode_text (until_nul (drop dirent_name_offset b))) taken
              ∙ (ap (λ b. decode_text (until_nul b)) (drop-write_dirent d)
                  ∙ (ap decode_text (until_nul-append d.name_bytes d.padding h.without_nul)
                      ∙ h.decodes)))
          ∙ (ap (λ t. add_entry d.text t (parse_dirents_loop decode_text (length (w ++ rest)) rest))
                fields.1
              ∙ ap (λ r. add_entry d.text d.d_type r)
                  (enough decode_text (length (w ++ rest)) (length rest) rest (omega arith)
                    (omega arith))))

  -- The loop takes the records off the front.
  parse_dirents-add_entries :
      (records : List DirentRecord) (rest : List ℕ)
      → All (IsDirent decode_text) records
      → parse_dirents decode_text (write_dirents records ++ rest)
        ≡ add_entries records (parse_dirents decode_text rest)
  unfolding write_dirents
  parse_dirents-add_entries [] rest h = refl
  parse_dirents-add_entries (d ∷ records) rest (p, h) =
      ap (parse_dirents decode_text) (append_assoc (write_dirent d) (write_dirents records) rest)
      ∙ (parse_dirents-write_dirent d (write_dirents records ++ rest) p
          ∙ ap (λ r. add_entry d.text d.d_type r) (parse_dirents-add_entries records rest h))

  -- On records that each fit their lengths into 16 bits and have a name without NUL that the decoder
  -- reads, and bytes behind them that parse: `parse_dirents` gives an entry for each record that is not
  -- named "." or "..", with the record's name and type and in the records' order, and no other, and
  -- then the entries of the bytes behind.
  pub parse_dirents-write_dirents :
      (records : List DirentRecord) (rest : List ℕ) (more : List DirectoryEntry)
      → All (IsDirent decode_text) records
      → parse_dirents decode_text rest ≡ ok more
      → (entries : List DirectoryEntry) × Listed records entries
        × (parse_dirents decode_text (write_dirents records ++ rest) ≡ ok (entries ++ more))
  parse_dirents-write_dirents records rest more h e =
      let (entries, listed, same) = add_entries-Listed records more in
      (
        entries,
        listed,
        parse_dirents-add_entries records rest h ∙ (ap (add_entries records) e ∙ same),
      )

  add_entries-throw :
      (records : List DirentRecord) (e : DirentError) → add_entries records (throw e) ≡ throw e
  unfolding add_entry
  add_entries-throw [] e = refl
  add_entries-throw (d ∷ records) e =
      ap (λ r. add_entry d.text d.d_type r) (add_entries-throw records e)

  parse_dirents-bad :
      (bad : List ℕ)
      → 19 ≤ length bad
      → ((read_dirent bad).d_reclen < 19) ⊎ (length bad < (read_dirent bad).d_reclen)
      → parse_dirents decode_text bad ≡ throw malformed_record
  unfolding parse_dirents parse_dirents_loop
  parse_dirents-bad [] l b = absurd (omega arith)
  parse_dirents-bad (c ∷ bytes) l b =
      let header = read_dirent (c ∷ bytes) in
      if_false (ltb (length (c ∷ bytes)) dirent_name_offset) _ _ (ground arith)
      ∙ if_true (ltb header.d_reclen dirent_name_offset || ltb (length (c ∷ bytes)) header.d_reclen)
          _ _ (ground arith)

  -- When the records are followed by a header whose length is less than the header's or more than the
  -- bytes left, `parse_dirents` throws, and gives none of the entries.
  pub parse_dirents-malformed :
      (records : List DirentRecord) (bad : List ℕ)
      → All (IsDirent decode_text) records
      → 19 ≤ length bad
      → ((read_dirent bad).d_reclen < 19) ⊎ (length bad < (read_dirent bad).d_reclen)
      → parse_dirents decode_text (write_dirents records ++ bad) ≡ throw malformed_record
  parse_dirents-malformed records bad h l b =
      parse_dirents-add_entries records bad h
      ∙ (ap (add_entries records) (parse_dirents-bad bad l b)
          ∙ add_entries-throw records malformed_record)
