-- ===== src/Http/Lines.antt =====
-- packages/linux-guest/src/http.ts, ByteReader: a line and a piece of a body depend on the bytes of
-- the stream, and not on how they come in chunks.
use distro.Common.{
  ◌⊎◌, ℕ, ◌+◌, ◌-◌, ◌≤◌, ◌<◌, ◌≡◌, ◌≢◌, refl, sym, ap, ◌∙◌, true, false, not, ◌&&◌, ◌||◌, List, [],
  ◌∷◌, ◌++◌, Option, none, some, ltb, ◌==◌, if◌then◌else◌, length, take, drop, min, get_or, ok, All,
  arith, Bool-cases, inl, inr, append-nil, append_assoc, length-append, take-append_exact,
  drop-append_exact, take-append-drop, length-take, if_true, if_false,
}
use distro.Http.Reader.{
  ByteReader, index_of_lf, no_cr, end_line, line_from, line, fill_empty, is_empty, take_filled,
  take_bytes, max_line_bytes,
}

abbrev pub joined : List (List ℕ) → List ℕ
joined [] = []
joined (chunk ∷ chunks) = chunk ++ joined chunks

abbrev pub unread : ByteReader → List ℕ
unread r = r.buffer ++ joined r.incoming

-- A character of ASCII that may stand in a line: neither LF nor CR.
abbrev pub IsLineByte : ℕ → Type 0
IsLineByte b = (b < 128) × (b ≢ 10) × (b ≢ 13)

-- What is documented of the text decoder: ASCII stands for itself.
abbrev pub IsDecoder : (List ℕ → List ℕ) → Type 0
IsDecoder decode_text = (text : List ℕ) → All (λ b. b < 128) text → decode_text text ≡ text

ascii-text : (text : List ℕ) → All IsLineByte text → All (λ b. b < 128) text
ascii-text [] h = tt
ascii-text (b ∷ text) (p, h) = (p.0, ascii-text text h)

-- A buffer that is a first part of a line and its CR LF: it has the LF, or no LF yet.
index_of_lf-here :
    (text rest : List ℕ)
    → All IsLineByte text
    → index_of_lf (text ++ 13 ∷ 10 ∷ rest) ≡ some (length text + 1)
unfolding index_of_lf
index_of_lf-here [] rest h = refl
index_of_lf-here (b ∷ text) rest (p, h) = rw (index_of_lf-here text rest h) (ground arith)

-- A first part of the bytes up to the LF is either short of the LF, or holds it.
split_at_lf :
    (buffer more text rest : List ℕ)
    → buffer ++ more ≡ text ++ 13 ∷ 10 ∷ rest
    → All IsLineByte text
    → ((index_of_lf buffer ≡ none) × (length buffer ≤ length text + 1))
      ⊎ ((left : List ℕ) × (buffer ≡ text ++ 13 ∷ 10 ∷ left) × (left ++ more ≡ rest))
unfolding index_of_lf
split_at_lf [] more text rest e h = inl (refl, omega arith)
split_at_lf (b ∷ []) more [] rest e h = inl ((let e13 : b ≡ 13 = cc in rw e13 refl), omega arith)
split_at_lf (b ∷ c ∷ buffer) more [] rest e h = inr (buffer, cc, cc)
split_at_lf (b ∷ buffer) more (t ∷ text) rest e (p, h) =
    elim (split_at_lf buffer more text rest (cc) h) [
      | inl (n, l) ↦
          inl ((let same_byte : b ≡ t = cc in rw (same_byte, n) (ground arith)), omega arith)
      | inr (left, l, m) ↦ inr (left, (cc), m)
    ]

get_or-append : (xs ys : List ℕ) (y d : ℕ) → get_or (xs ++ y ∷ ys) (length xs) d ≡ y
get_or-append [] ys y d = refl
get_or-append (x ∷ xs) ys y d = get_or-append xs ys y d

no_cr-text : (text : List ℕ) → All IsLineByte text → no_cr text ≡ true
no_cr-text [] h = refl
no_cr-text (b ∷ text) (p, h) = rw (no_cr-text text h) (ground arith)

-- A text with its CR LF at the front of the buffer is the next line, of either kind of reader.
end_line-here :
    (decode_text : List ℕ → List ℕ)
    → IsDecoder decode_text
    → (r : ByteReader) (text left : List ℕ) → r.buffer ≡ text ++ 13 ∷ 10 ∷ left
    → All IsLineByte text
    → length text + 2 ≤ max_line_bytes
    → end_line decode_text r (length text + 1) ≡ ok (text, record r { buffer = left })
unfolding end_line
end_line-here decode_text ascii r text left e h l =
    let has_cr = ltb 0 (length text + 1) && (get_or r.buffer (length text + 1 - 1) 0 == 13) in
    let back : length text + 1 - 1 ≡ length text = omega arith in
    let cr : has_cr ≡ true =
      let byte : get_or r.buffer (length text) 0 ≡ 13 =
        rw e (get_or-append text (10 ∷ left) 13 0) in
      rw (back, byte) (ground arith) in
    let content : take (if has_cr then length text + 1 - 1 else length text + 1) r.buffer ≡ text =
      rw (cr, back, e) (take-append_exact (length text) text (13 ∷ 10 ∷ left) refl) in
    let after : drop (length text + 1 + 1) r.buffer ≡ left =
      rw (e ∙ sym (append_assoc text (13 ∷ 10 ∷ []) left)) (
        drop-append_exact (length text + 1 + 1) (text ++ 13 ∷ 10 ∷ []) left
          (omega (arith, length-append text (13 ∷ 10 ∷ [])))) in
    if_false (ltb max_line_bytes (length text + 1 + 1)) _ _ (ground arith)
    ∙ (if_false
          (r.strict_crlf
            && (not has_cr
                || not (
                    no_cr
                      (take (if has_cr then length text + 1 - 1 else length text + 1) r.buffer))))
          _ _ (rw (content, cr, no_cr-text text h) (ground arith))
        ∙ (ap (λ t. ok (t, record r { buffer = drop (length text + 1 + 1) r.buffer }))
              (ap decode_text content ∙ ascii text (ascii-text text h))
            ∙ ap (λ b. ok (text, record r { buffer = b })) after))

-- What the reader does with a line that is to come: whatever the chunks, it returns the text and has
-- read no more than the line.
line_from-text :
    (decode_text : List ℕ → List ℕ)
    → IsDecoder decode_text
    → (incoming : List (List ℕ)) (r : ByteReader) (text rest : List ℕ) → r.incoming ≡ incoming
    → unread r ≡ text ++ 13 ∷ 10 ∷ rest
    → All IsLineByte text
    → length text + 2 ≤ max_line_bytes
    → (r' : ByteReader) × (line_from decode_text incoming r ≡ ok (text, r')) × (unread r' ≡ rest)
unfolding line_from
line_from-text decode_text ascii [] r text rest i u h l =
    let whole : r.buffer ≡ text ++ 13 ∷ 10 ∷ rest =
      sym (append-nil r.buffer) ∙ (ap (λ cs. r.buffer ++ joined cs) (sym i) ∙ u) in
    let found : index_of_lf r.buffer ≡ some (length text + 1) =
      ap index_of_lf whole ∙ index_of_lf-here text rest h in
    (
      record r { buffer = rest },
      rw (found, line_from) (end_line-here decode_text ascii r text rest whole h l),
      ap (λ cs. rest ++ joined cs) i ∙ append-nil rest,
    )
line_from-text decode_text ascii (chunk ∷ chunks) r text rest i u h l =
    elim (split_at_lf r.buffer (joined r.incoming) text rest u h) [
      | inl (n, short) ↦
          let more : r.buffer ++ chunk ++ joined chunks ≡ text ++ 13 ∷ 10 ∷ rest =
            append_assoc r.buffer chunk (joined chunks)
            ∙ (ap (λ cs. r.buffer ++ joined cs) (sym i) ∙ u) in
          let (r', e, v) =
            line_from-text decode_text ascii chunks
              (record r { buffer = r.buffer ++ chunk; incoming = chunks }) text rest refl more h
              l in
          (
            r',
            rw (n, line_from)
                (if_false (ltb max_line_bytes (length r.buffer)) _ _ (ground arith) ∙ e),
            v,
          )
      | inr (left, b, m) ↦
          let found : index_of_lf r.buffer ≡ some (length text + 1) =
            ap index_of_lf b ∙ index_of_lf-here text left h in
          (
            record r { buffer = left },
            rw (found, line_from) (end_line-here decode_text ascii r text left b h l),
            m,
          )
    ]

-- When the unread bytes start with an ASCII text of at most 8190 bytes, without LF and CR, and its
-- CR LF, and the text decoder decodes ASCII to itself,
-- `line` returns the text, whether the reader is strict or not and however the stream is cut into
-- chunks, and what is left unread is what stands behind the CR LF.
pub line-text :
    (decode_text : List ℕ → List ℕ)
    → IsDecoder decode_text
    → (r : ByteReader) (text rest : List ℕ) → unread r ≡ text ++ 13 ∷ 10 ∷ rest
    → All IsLineByte text
    → length text + 2 ≤ max_line_bytes
    → (r' : ByteReader) × (line decode_text r ≡ ok (text, r')) × (unread r' ≡ rest)
unfolding line
line-text decode_text ascii r text rest u h l =
    line_from-text decode_text ascii r.incoming r text rest refl u h l

-- A buffer that is empty is filled, if anything is to come.
fill_empty_lem :
    (incoming : List (List ℕ)) (r : ByteReader)
    → 0 < length (joined incoming)
    → (0 < length (fill_empty incoming r).buffer)
      × (unread (fill_empty incoming r) ≡ joined incoming)
unfolding fill_empty
fill_empty_lem [] r h = absurd (omega arith)
fill_empty_lem ([] ∷ chunks) r h = fill_empty_lem chunks r h
fill_empty_lem ((b ∷ chunk) ∷ chunks) r h = (omega arith, refl)

is_empty-false : (bytes : List ℕ) → 0 < length bytes → is_empty bytes ≡ false
is_empty-false [] h = absurd (omega arith)
is_empty-false (b ∷ bytes) h = refl

is_empty-true : (bytes : List ℕ) → is_empty bytes ≡ true → bytes ≡ []
is_empty-true [] h = refl
is_empty-true (b ∷ bytes) h = cc

abbrev pub Taken : ByteReader → ℕ → Option (List ℕ) × ByteReader → Type 0
Taken r limit step =
    (piece : List ℕ) × (step.0 ≡ some piece)
    × (0 < length piece)
    × (length piece ≤ limit)
    × (piece ++ unread step.1 ≡ unread r)

take_filled_lem :
    (limit : ℕ) (r : ByteReader)
    → 0 < limit
    → 0 < length r.buffer
    → Taken r limit (take_filled limit r)
unfolding take_filled
take_filled_lem limit r p h =
    let n = min limit (length r.buffer) in
    let after = record r { buffer = drop n r.buffer } in
    let chosen : take_filled limit r ≡ (some (take n r.buffer), after) =
      if_false (is_empty r.buffer) _ _ (is_empty-false r.buffer h) in
    (
      take n r.buffer,
      ap (λ s. s.0) chosen,
      omega (arith, length-take n r.buffer),
      omega (arith, length-take n r.buffer),
      ap (λ s. take n r.buffer ++ unread s.1) chosen
          ∙ (sym (append_assoc (take n r.buffer) (drop n r.buffer) (joined r.incoming))
              ∙ ap (λ b. b ++ joined r.incoming) (take-append-drop n r.buffer)),
    )

-- `take` returns a piece, if anything is left and the limit is not zero.
pub take_bytes_lem :
    (limit : ℕ) (r : ByteReader)
    → 0 < limit
    → 0 < length (unread r)
    → Taken r limit (take_bytes limit r)
unfolding take_bytes
take_bytes_lem limit r p h = elim (Bool-cases (is_empty r.buffer)) [
  | inl e ↦
      let none_yet : unread r ≡ joined r.incoming =
        ap (λ b. b ++ joined r.incoming) (is_empty-true r.buffer e) in
      let full = fill_empty_lem r.incoming r (omega (arith, ap length none_yet)) in
      let (piece, s, a, l, m) = take_filled_lem limit (fill_empty r.incoming r) p full.0 in
      let chosen =
        ap (λ q. take_filled limit q) (if_true (is_empty r.buffer) (fill_empty r.incoming r) r e) in
      (
        piece,
        ap (λ q. q.0) chosen ∙ s,
        a,
        l,
        ap (λ q. piece ++ unread q.1) chosen ∙ (m ∙ (full.1 ∙ sym none_yet)),
      )
  | inr e ↦
      let (piece, s, a, l, m) = take_filled_lem limit r p (filled r.buffer e) in
      let chosen =
        ap (λ q. take_filled limit q)
          (if_false (is_empty r.buffer) (fill_empty r.incoming r) r e) in
      (piece, ap (λ q. q.0) chosen ∙ s, a, l, ap (λ q. piece ++ unread q.1) chosen ∙ m)
]
  where
    filled : (bytes : List ℕ) → is_empty bytes ≡ false → 0 < length bytes
    filled [] e = cc
    filled (b ∷ bytes) e = omega arith
