-- ===== src/Http/Encoder.antt =====
-- packages/linux-guest/src/http.ts: `chunked_encoder`, and a pull of `chunked_body` on what it writes.
use distro.Common.{
  ℕ, suc, ◌-◌, ◌^◌, ◌≤◌, ◌<◌, ◌≡◌, ◌⊎◌, refl, sym, ap, ◌∙◌, true, false, ◌||◌, List, [], ◌∷◌, ◌++◌,
  some, leb, ◌==◌, if◌then◌else◌, length, Result, ok, ◌>>=◌, arith, All, inl, inr, append_assoc,
  length-append, if_true, if_false,
}
use mathlib.Core.Path.{subst}
use distro.Http.Reader.{ByteReader, HttpError, line, take_bytes, is_empty}
use distro.Http.Lines.{IsDecoder, unread, joined, IsLineByte, line-text, take_bytes_lem}
use distro.Http.Hex.{
  hex_value, to_hex, parse_hex, parse_hex_from, IsHex, to_hex_loop-IsHex, parse_hex-to_hex,
  length-to_hex,
}
use distro.Http.Chunked.{
  in_size, size_step, size_run, is_size_line, is_hex, is_some, no_match, accepts, skip_trailers,
  ChunkedBody, Pulled, enqueued, closed, enqueue_piece, read_boundary, begin_chunk, pull,
}

-- `transform` for each chunk, and `flush`.
unfoldable pub encode_chunks : List (List ℕ) → List ℕ
encode_chunks [] = 48 ∷ 13 ∷ 10 ∷ 13 ∷ 10 ∷ []
encode_chunks (chunk ∷ chunks) =
    let rest = encode_chunks chunks in
    if is_empty chunk then rest else to_hex (length chunk) ++ 13 ∷ 10 ∷ (chunk ++ 13 ∷ 10 ∷ rest)

to_hex-IsHex : (n : ℕ) → All IsHex (to_hex n)
unfolding to_hex
to_hex-IsHex n = to_hex_loop-IsHex 13 n

hex_value-ascii : (b d : ℕ) → hex_value b ≡ some d → b < 128
hex_value-ascii b d e = ground arith

IsLineByte-hex : (bytes : List ℕ) → All IsHex bytes → All IsLineByte bytes
IsLineByte-hex [] h = tt
IsLineByte-hex (b ∷ bytes) ((d, e), h) = (
  (
    hex_value-ascii b d e,
    (λ x. (let no : hex_value 10 ≡ some d = ap hex_value (sym x) ∙ e in cc)),
    (λ x. (let no : hex_value 13 ≡ some d = ap hex_value (sym x) ∙ e in cc)),
  ),
  IsLineByte-hex bytes h,
)

is_hex-hex : (b d : ℕ) → hex_value b ≡ some d → is_hex b ≡ true
unfolding is_hex
is_hex-hex b d e = ap is_some e

size_run-hex : (bytes : List ℕ) → All IsHex bytes → size_run in_size bytes ≡ in_size
unfolding size_run size_step
size_run-hex [] h = refl
size_run-hex (b ∷ bytes) ((d, e), h) =
    ap (λ s. size_run s bytes) (if_true (is_hex b) _ _ (is_hex-hex b d e)) ∙ size_run-hex bytes h

is_size_line-hex : (bytes : List ℕ) → 0 < length bytes → All IsHex bytes → is_size_line bytes ≡ true
unfolding is_size_line size_run size_step
is_size_line-hex [] l h = absurd (omega arith)
is_size_line-hex (b ∷ bytes) l ((d, e), h) =
    let run =
      ap (λ s. size_run s bytes) (if_true (is_hex b) in_size no_match (is_hex-hex b d e))
      ∙ size_run-hex bytes h in
    ap accepts run

split_prefix :
    (piece u data_bytes v : List ℕ)
    → piece ++ u ≡ data_bytes ++ v
    → length piece ≤ length data_bytes
    → (left : List ℕ) × (data_bytes ≡ piece ++ left) × (u ≡ left ++ v)
split_prefix [] u data_bytes v e l = (data_bytes, refl, e)
split_prefix (p ∷ piece) u [] v e l = absurd (omega arith)
split_prefix (p ∷ piece) u (d ∷ data_bytes) v e l =
    let (left, a, b) = split_prefix piece u data_bytes v (cc) (omega arith) in (left, cc, b)

-- The state in the middle of a chunk: what is left of it, its CR LF, and the chunks to come.
abbrev pub IsMid : ChunkedBody → List ℕ → List (List ℕ) → List ℕ → Type 0
IsMid body left chunks rest =
    (body.remaining ≡ length left)
    × (body.between_chunks ≡ (length left == 0))
    × (unread body.reader ≡ left ++ 13 ∷ 10 ∷ (encode_chunks chunks ++ rest))

-- A piece of the chunk.
abbrev pub Goes : List ℕ → List (List ℕ) → List ℕ → Result HttpError Pulled → Type 0
Goes left chunks rest result =
    (piece after : List ℕ) × (next : ChunkedBody) × (result ≡ ok (enqueued piece next))
    × (0 < length piece)
    × (left ≡ piece ++ after)
    × IsMid next after chunks rest

enqueue_piece-Goes :
    (r : ByteReader) (left : List ℕ) (chunks : List (List ℕ)) (rest : List ℕ)
    → 0 < length left
    → unread r ≡ left ++ 13 ∷ 10 ∷ (encode_chunks chunks ++ rest)
    → Goes left chunks rest (enqueue_piece (length left) false (take_bytes (length left) r))
unfolding enqueue_piece
enqueue_piece-Goes r left chunks rest p u =
    let more = 13 ∷ 10 ∷ (encode_chunks chunks ++ rest) in
    let some_left : 0 < length (unread r) = omega (arith, ap length u, length-append left more) in
    let step = take_bytes (length left) r in
    let (piece, s, a, l, m) = take_bytes_lem (length left) r p some_left in
    let (after, e, v) = split_prefix piece (unread step.1) left more (m ∙ u) l in
    let sizes : length left - length piece ≡ length after =
      omega (arith, ap length e, length-append piece after) in
    (
      piece,
      after,
      record { reader = step.1; remaining = length after; between_chunks = length after == 0 },
      ap (λ q. enqueue_piece (length left) false (q, step.1)) s
          ∙ ap
              (λ k. ok (
                enqueued piece
                  (record { reader = step.1; remaining = k; between_chunks = false || (k == 0) })))
              sizes,
      a,
      e,
      (refl, refl, v),
    )

line-crlf :
    (decode_text : List ℕ → List ℕ)
    → IsDecoder decode_text
    → (r : ByteReader) (rest : List ℕ) → unread r ≡ 13 ∷ 10 ∷ rest
    → (r' : ByteReader) × (line decode_text r ≡ ok ([], r')) × (unread r' ≡ rest)
line-crlf decode_text ascii r rest u = line-text decode_text ascii r [] rest u tt (omega arith)

-- The last chunk's empty trailers.
skip_trailers-none :
    (decode_text : List ℕ → List ℕ)
    → IsDecoder decode_text
    → (fuel : ℕ) (r : ByteReader) (rest : List ℕ) → unread r ≡ 13 ∷ 10 ∷ rest
    → (r' : ByteReader) × (skip_trailers decode_text (suc fuel) 0 r ≡ ok r') × (unread r' ≡ rest)
unfolding skip_trailers
skip_trailers-none decode_text ascii fuel r rest u =
    let (r', e, v) = line-crlf decode_text ascii r rest u in (r', rw (e, skip_trailers) refl, v)

-- A chunk is begun, or the body ends.
abbrev pub Begun : List (List ℕ) → List ℕ → Result HttpError Pulled → Type 0
Begun chunks rest result =
    ((r' : ByteReader) × (result ≡ ok (closed r')) × (joined chunks ≡ []) × (unread r' ≡ rest))
    ⊎ ((left : List ℕ) × (after : List (List ℕ)) × (joined chunks ≡ left ++ joined after)
        × All (λ c. length c < 2 ^ 53) after
        × Goes left after rest result)

begin_chunk-size :
    (decode_text : List ℕ → List ℕ)
    → (fuel : ℕ) (r r' : ByteReader) (n : ℕ) → line decode_text r ≡ ok (to_hex n, r')
    → 0 < n
    → n < 2 ^ 53
    → begin_chunk decode_text fuel r ≡ enqueue_piece n false (take_bytes n r')
unfolding begin_chunk
begin_chunk-size decode_text fuel r r' n e p l =
    let digits = is_size_line-hex (to_hex n) (length-to_hex n).0 (to_hex-IsHex n) in
    let value = parse_hex-to_hex n l in
    rw (e, begin_chunk, digits, value)
      (if_false (leb (2 ^ 53) n) _ _ (ground arith) ∙ if_false (n == 0) _ _ (ground arith))

last_chunk :
    (decode_text : List ℕ → List ℕ)
    → (fuel : ℕ) (r r1 r2 : ByteReader) → line decode_text r ≡ ok (48 ∷ [], r1)
    → skip_trailers decode_text (suc fuel) 0 r1 ≡ ok r2
    → begin_chunk decode_text (suc fuel) r ≡ ok (closed r2)
unfolding begin_chunk is_size_line size_run size_step is_hex parse_hex parse_hex_from
last_chunk decode_text fuel r r1 r2 e f = rw (e, begin_chunk) (rw f refl)

pub begin_chunk-Begun :
    (decode_text : List ℕ → List ℕ)
    → IsDecoder decode_text
    → (fuel : ℕ) (r : ByteReader) (chunks : List (List ℕ)) (rest : List ℕ)
    → unread r ≡ encode_chunks chunks ++ rest
    → All (λ c. length c < 2 ^ 53) chunks
    → Begun chunks rest (begin_chunk decode_text (suc fuel) r)
unfolding encode_chunks
begin_chunk-Begun decode_text ascii fuel r [] rest u h =
    let (r1, e, v) =
      line-text decode_text ascii r (48 ∷ []) (13 ∷ 10 ∷ rest) u
        ((omega arith, omega arith, omega arith), tt) (omega arith) in
    let (r2, f, w) = skip_trailers-none decode_text ascii fuel r1 rest v in
    inl (r2, last_chunk decode_text fuel r r1 r2 e f, refl, w)
begin_chunk-Begun decode_text ascii fuel r ([] ∷ chunks) rest u (p, h) =
    begin_chunk-Begun decode_text ascii fuel r chunks rest u h
begin_chunk-Begun decode_text ascii fuel r ((b ∷ chunk) ∷ chunks) rest u (p, h) =
    let n = length (b ∷ chunk) in
    let body = (b ∷ chunk) ++ 13 ∷ 10 ∷ (encode_chunks chunks ++ rest) in
    let whole : unread r ≡ to_hex n ++ 13 ∷ 10 ∷ body =
      u
      ∙ (append_assoc (to_hex n) (13 ∷ 10 ∷ ((b ∷ chunk) ++ 13 ∷ 10 ∷ encode_chunks chunks)) rest
          ∙ ap (λ t. to_hex n ++ 13 ∷ 10 ∷ t)
              (append_assoc (b ∷ chunk) (13 ∷ 10 ∷ encode_chunks chunks) rest)) in
    let (r1, e, v) =
      line-text decode_text ascii r (to_hex n) body whole
        (IsLineByte-hex (to_hex n) (to_hex-IsHex n)) (omega (arith, length-to_hex n)) in
    let (piece, after, next, q, a, l, m) =
      enqueue_piece-Goes r1 (b ∷ chunk) chunks rest (omega arith) v in
    inr (
      b ∷ chunk,
      chunks,
      refl,
      h,
      (
        piece,
        after,
        next,
        begin_chunk-size decode_text (suc fuel) r r1 n e (omega arith) p ∙ q,
        a,
        l,
        m,
      ),
    )

pub pull-boundary :
    (decode_text : List ℕ → List ℕ)
    → (fuel : ℕ) (body : ChunkedBody) (r' : ByteReader) → body.remaining ≡ 0
    → read_boundary decode_text body.between_chunks body.reader ≡ ok r'
    → pull decode_text fuel body ≡ begin_chunk decode_text fuel r'
unfolding pull
pull-boundary decode_text fuel body r' n e =
    if_true (body.remaining == 0) _ _ (ground arith)
    ∙ ap (λ (q : Result HttpError ByteReader). q >>= begin_chunk decode_text fuel) e

pull-piece :
    (decode_text : List ℕ → List ℕ)
    → (fuel : ℕ) (body : ChunkedBody) (n : ℕ) → body.remaining ≡ n
    → 0 < n
    → body.between_chunks ≡ false
    → pull decode_text fuel body ≡ enqueue_piece n false (take_bytes n body.reader)
unfolding pull
pull-piece decode_text fuel body n e p b =
    if_false (body.remaining == 0) _ _ (ground arith)
    ∙ (ap (λ k. enqueue_piece k body.between_chunks (take_bytes k body.reader)) e
        ∙ ap (λ k. enqueue_piece n k (take_bytes n body.reader)) b)

-- A pull from the middle of a chunk goes on with the chunk, or with the next one.
pub pull-IsMid :
    (decode_text : List ℕ → List ℕ)
    → IsDecoder decode_text
    → (fuel : ℕ) (body : ChunkedBody) (left : List ℕ) (chunks : List (List ℕ)) (rest : List ℕ)
    → IsMid body left chunks rest
    → All (λ c. length c < 2 ^ 53) chunks
    → ((left ≡ []) × Begun chunks rest (pull decode_text (suc fuel) body))
      ⊎ Goes left chunks rest (pull decode_text (suc fuel) body)
pull-IsMid decode_text ascii fuel body [] chunks rest (n, b, u) h =
    let (r', e, v) = line-crlf decode_text ascii body.reader (encode_chunks chunks ++ rest) u in
    let boundary : read_boundary decode_text body.between_chunks body.reader ≡ ok r' =
      rw b (rw e refl) in
    inl (
      refl,
      subst (λ q. Begun chunks rest q)
          (sym (pull-boundary decode_text (suc fuel) body r' n boundary))
          (begin_chunk-Begun decode_text ascii fuel r' chunks rest v h),
    )
pull-IsMid decode_text ascii fuel body (c ∷ left) chunks rest (n, b, u) h =
    let (piece, after, next, q, a, l, m) =
      enqueue_piece-Goes body.reader (c ∷ left) chunks rest (omega arith) u in
    inr (
      piece,
      after,
      next,
      pull-piece decode_text (suc fuel) body (length (c ∷ left)) n (omega arith) (b ∙ ground arith)
          ∙ q,
      a,
      l,
      m,
    )
