-- ===== src/Http/Reader.antt =====
-- packages/linux-guest/src/http.ts, the class ByteReader. The stream is the list of the chunks that
-- are still to come, after which it ends. `decode_text` is the platform's text
-- decoder, from bytes to the UTF-16 units of the text.
use distro.Common.{
  ℕ, suc, ◌+◌, ◌-◌, Bool, true, false, not, ◌&&◌, ◌||◌, List, [], ◌∷◌, ◌++◌, Option, none, some,
  ltb, ◌==◌, if◌then◌else◌, length, take, drop, min, get_or, Result, ok, throw, all,
}

pub data HttpError : Type 0 where
  line_too_long head_too_large unexpected_end requires_crlf : HttpError
  malformed_boundary malformed_size size_too_large trailers_too_large ended_early : HttpError
  both_framings unsupported_encoding invalid_length duplicate_length duplicate_encoding : HttpError

pub record ByteReader : Type 0 where
  pub buffer : List ℕ
  pub incoming : List (List ℕ)
  pub strict_crlf : Bool

abbrev pub max_line_bytes : ℕ
max_line_bytes = 8192

-- `buffer.indexOf(0x0a)`.
unfoldable pub index_of_lf : List ℕ → Option ℕ
index_of_lf [] = none
index_of_lf (b ∷ bytes) =
    let rest = index_of_lf bytes in
    if b == 10 then some 0 else elim rest [ none ↦ none | some i ↦ some (suc i) ]

-- Whether the line is free of a CR.
abbrev pub no_cr : List ℕ → Bool
no_cr bytes = all (λ b. not (b == 13)) bytes

-- The line that the LF at `index` ends, without its CR LF; `consume` takes it off the buffer.
unfoldable pub end_line :
    (decode_text : List ℕ → List ℕ) → ByteReader → ℕ → Result HttpError (List ℕ × ByteReader)
end_line decode_text r index =
    let has_cr = ltb 0 index && (get_or r.buffer (index - 1) 0 == 13) in
    let content = take (if has_cr then index - 1 else index) r.buffer in
    if ltb max_line_bytes (index + 1)
    then throw line_too_long
    else if r.strict_crlf && (not has_cr || not (no_cr content))
    then throw requires_crlf
    else ok (decode_text content, record r { buffer = drop (index + 1) r.buffer })

-- `line`, by the chunks to come: an empty chunk leaves the buffer as it was, and the same tests.
unfoldable pub line_from :
    (decode_text : List ℕ → List ℕ)
    → List (List ℕ)
    → ByteReader
    → Result HttpError (List ℕ × ByteReader)
line_from decode_text [] r = elim (index_of_lf r.buffer) [
  | some index ↦ end_line decode_text r index
  | none ↦
      if ltb max_line_bytes (length r.buffer) then throw line_too_long else throw unexpected_end
]
line_from decode_text (chunk ∷ chunks) r =
    let rest =
      line_from decode_text chunks (record r { buffer = r.buffer ++ chunk; incoming = chunks }) in
    elim (index_of_lf r.buffer) [
      | some index ↦ end_line decode_text r index
      | none ↦ if ltb max_line_bytes (length r.buffer) then throw line_too_long else rest
    ]

unfoldable pub line :
    (decode_text : List ℕ → List ℕ) → ByteReader → Result HttpError (List ℕ × ByteReader)
line decode_text r = line_from decode_text r.incoming r

-- `fill` on an empty buffer: the first chunk that is not empty.
unfoldable pub fill_empty : List (List ℕ) → ByteReader → ByteReader
fill_empty [] r = record r { incoming = [] }
fill_empty ([] ∷ chunks) r = fill_empty chunks r
fill_empty ((b ∷ chunk) ∷ chunks) r = record r { buffer = b ∷ chunk; incoming = chunks }

abbrev pub is_empty : List ℕ → Bool
is_empty [] = true
is_empty (b ∷ bytes) = false

-- `take`, from a reader whose buffer has been filled.
unfoldable pub take_filled : ℕ → ByteReader → Option (List ℕ) × ByteReader
take_filled limit r =
    let n = min limit (length r.buffer) in
    if is_empty r.buffer
    then (none, r)
    else (some (take n r.buffer), record r { buffer = drop n r.buffer })

unfoldable pub take_bytes : ℕ → ByteReader → Option (List ℕ) × ByteReader
take_bytes limit r = take_filled limit (if is_empty r.buffer then fill_empty r.incoming r else r)

-- `detach`: the bytes read past the message.
abbrev pub detach : ByteReader → List ℕ
detach r = r.buffer
