-- ===== src/Http/Chunked.antt =====
-- packages/linux-guest/src/http.ts, `chunked_body` and `fixed_body`: a body stream, one pull at a
-- time. A pull that throws, throws away the stream.
use distro.Common.{
  ℕ, zero, suc, ◌+◌, ◌-◌, ◌^◌, Bool, true, false, not, ◌&&◌, ◌||◌, List, [], ◌∷◌, ◌++◌, Option,
  none, some, ltb, leb, ◌==◌, if◌then◌else◌, length, Result, ok, throw, ◌>>=◌,
}
use distro.Http.Reader.{
  ByteReader, HttpError, line, take_bytes, is_empty, malformed_boundary, malformed_size,
  size_too_large, trailers_too_large, ended_early,
}
use distro.Http.Hex.{hex_value, parse_hex}

-- `CHUNK_SIZE_RE`, as the states of a matcher: hex digits, then extensions of a token with an
-- optional value, which is a token or a quoted text.
pub data SizeState : Type 0 where
  size_start in_size name_start in_name value_start in_value in_quotes after_quotes no_match :
      SizeState

abbrev pub is_alphanumeric : ℕ → Bool
is_alphanumeric b = (leb 48 b && leb b 57) || ((leb 65 b && leb b 90) || (leb 97 b && leb b 122))

-- The characters of `TOKEN_RE`: letters, digits, and !#$%&'*+.^_`|~-
abbrev pub is_token : ℕ → Bool
is_token b =
    is_alphanumeric b
    || (b == 33
        || (b == 35
            || (b == 36
                || (b == 37
                    || (b == 38
                        || (b == 39
                            || (b == 42
                                || (b == 43
                                    || (b == 46
                                        || (b == 94
                                            || (b == 95
                                                || (b == 96
                                                    || (b == 124
                                                        || (b == 126 || b == 45))))))))))))))

abbrev pub is_some : Option ℕ → Bool
is_some none = false
is_some (some d) = true

unfoldable pub is_hex : ℕ → Bool
is_hex b = is_some (hex_value b)

unfoldable pub size_step : SizeState → ℕ → SizeState
size_step size_start b = if is_hex b then in_size else no_match
size_step in_size b = if is_hex b then in_size else if b == 59 then name_start else no_match
size_step name_start b = if is_token b then in_name else no_match
size_step in_name b =
    if is_token b
    then in_name
    else if b == 59
    then name_start
    else if b == 61
    then value_start
    else no_match
size_step value_start b = if b == 34 then in_quotes else if is_token b then in_value else no_match
size_step in_value b = if is_token b then in_value else if b == 59 then name_start else no_match
size_step in_quotes b = if b == 34 then after_quotes else in_quotes
size_step after_quotes b = if b == 59 then name_start else no_match
size_step no_match b = no_match

unfoldable pub size_run : SizeState → List ℕ → SizeState
size_run state [] = state
size_run state (b ∷ bytes) = size_run (size_step state b) bytes

abbrev pub accepts : SizeState → Bool
accepts in_size = true
accepts in_name = true
accepts in_value = true
accepts after_quotes = true
accepts size_start = false
accepts name_start = false
accepts value_start = false
accepts in_quotes = false
accepts no_match = false

unfoldable pub is_size_line : List ℕ → Bool
is_size_line bytes = accepts (size_run size_start bytes)

abbrev pub max_trailer_bytes : ℕ
max_trailer_bytes = 65536

-- The trailer lines, up to the empty one. A line takes a byte at least, so that there are fewer
-- lines than bytes left.
unfoldable pub skip_trailers :
    (decode_text : List ℕ → List ℕ) → ℕ → ℕ → ByteReader → Result HttpError ByteReader
skip_trailers decode_text zero trailer_bytes r = throw trailers_too_large
skip_trailers decode_text (suc fuel) trailer_bytes r = do
  step ← line decode_text r
  let total = trailer_bytes + length step.0 + 2
  let rest = skip_trailers decode_text fuel total step.1
  if ltb max_trailer_bytes total
      then throw trailers_too_large
      else if is_empty step.0
      then ok step.1
      else rest

-- The state of the body: what is left of the chunk, and whether its CR LF is still to be read.
pub record ChunkedBody : Type 0 where
  pub reader : ByteReader
  pub remaining : ℕ
  pub between_chunks : Bool

pub data Pulled : Type 0 where
  enqueued : List ℕ → ChunkedBody → Pulled
  closed : ByteReader → Pulled

unfoldable pub enqueue_piece : ℕ → Bool → Option (List ℕ) × ByteReader → Result HttpError Pulled
enqueue_piece remaining between (none, r) = throw ended_early
enqueue_piece remaining between (some piece, r) = ok (
    enqueued piece (record {
      reader = r;
      remaining = remaining - length piece;
      between_chunks = between || (remaining - length piece == 0);
    }))

abbrev pub read_boundary :
    (decode_text : List ℕ → List ℕ) → Bool → ByteReader → Result HttpError ByteReader
read_boundary decode_text false r = ok r
read_boundary decode_text true r = do
  step ← line decode_text r
  if is_empty step.0 then ok step.1 else throw malformed_boundary

unfoldable pub begin_chunk :
    (decode_text : List ℕ → List ℕ) → ℕ → ByteReader → Result HttpError Pulled
begin_chunk decode_text fuel r = do
  step ← line decode_text r
  let size = parse_hex step.0
  if not (is_size_line step.0)
      then throw malformed_size
      else if leb (2 ^ 53) size
      then throw size_too_large
      else if size == 0
      then (do after ← skip_trailers decode_text fuel 0 step.1; ok (closed after))
      else enqueue_piece size false (take_bytes size step.1)

-- A pull; `fuel` bounds the number of trailer lines.
unfoldable pub pull : (decode_text : List ℕ → List ℕ) → ℕ → ChunkedBody → Result HttpError Pulled
pull decode_text fuel body =
    if body.remaining == 0
    then (do
      r ← read_boundary decode_text body.between_chunks body.reader
      begin_chunk decode_text fuel r)
    else enqueue_piece body.remaining body.between_chunks (take_bytes body.remaining body.reader)

abbrev pub chunked_body : ByteReader → ChunkedBody
chunked_body r = record { reader = r; remaining = 0; between_chunks = false }

-- The stream read to its end, by so many pulls: the pieces, and the reader after the message.
unfoldable pub drain :
    (decode_text : List ℕ → List ℕ)
    → ℕ
    → ℕ
    → ChunkedBody
    → Result HttpError (Option (List ℕ × ByteReader))
drain decode_text zero fuel body = ok none
drain decode_text (suc pulls) fuel body = do
  step ← pull decode_text fuel body
  elim step [
    | closed r ↦ ok (some ([], r))
    | enqueued piece next ↦ (do
      rest ← drain decode_text pulls fuel next
      ok (elim rest [ none ↦ none | some after ↦ some (piece ++ after.0, after.1) ]))
  ]
