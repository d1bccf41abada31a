-- ===== src/Http/Encoding.antt =====
-- packages/linux-guest/src/http.ts: `chunked_body`, read to its end, on what `chunked_encoder` writes.
use distro.Common.{
  ℕ, zero, suc, ◌^◌, ◌<◌, ◌≡◌, refl, sym, ap, ◌∙◌, List, [], ◌++◌, some, length, ok, arith, All,
  inl, inr, append_assoc, length-append,
}
use distro.Http.Reader.{ByteReader}
use distro.Http.Lines.{IsDecoder, unread, joined}
use distro.Http.Chunked.{ChunkedBody, enqueued, closed, pull, chunked_body, drain}
use distro.Http.Encoder.{encode_chunks, IsMid, begin_chunk-Begun, pull-boundary, pull-IsMid}

drain_closed :
    (decode_text : List ℕ → List ℕ)
    → (pulls fuel : ℕ) (body : ChunkedBody) (r' : ByteReader)
    → pull decode_text fuel body ≡ ok (closed r')
    → drain decode_text (suc pulls) fuel body ≡ ok (some ([], r'))
unfolding drain
drain_closed decode_text pulls fuel body r' e = rw (e, drain) refl

drain_enqueued :
    (decode_text : List ℕ → List ℕ)
    → (pulls fuel : ℕ) (body next : ChunkedBody) (piece bytes : List ℕ) (r' : ByteReader)
    → pull decode_text fuel body ≡ ok (enqueued piece next)
    → drain decode_text pulls fuel next ≡ ok (some (bytes, r'))
    → drain decode_text (suc pulls) fuel body ≡ ok (some (piece ++ bytes, r'))
unfolding drain
drain_enqueued decode_text pulls fuel body next piece bytes r' e d = rw (e, drain) (rw d refl)

abbrev pub Drained :
    (decode_text : List ℕ → List ℕ) → ℕ → ℕ → ChunkedBody → List ℕ → List ℕ → Type 0
Drained decode_text pulls fuel body bytes rest =
    (r' : ByteReader) × (drain decode_text pulls fuel body ≡ ok (some (bytes, r')))
    × (unread r' ≡ rest)

drain-IsMid :
    (decode_text : List ℕ → List ℕ)
    → IsDecoder decode_text
    → (pulls fuel : ℕ) (body : ChunkedBody) (left : List ℕ) (chunks : List (List ℕ)) (rest : List ℕ)
    → length (left ++ joined chunks) < pulls
    → IsMid body left chunks rest
    → All (λ c. length c < 2 ^ 53) chunks
    → Drained decode_text pulls (suc fuel) body (left ++ joined chunks) rest
drain-IsMid decode_text ascii zero fuel body left chunks rest l m h = absurd (omega arith)
drain-IsMid decode_text ascii (suc pulls) fuel body left chunks rest l m h =
    elim (pull-IsMid decode_text ascii fuel body left chunks rest m h) [
      | inl (e, inl (r', q, j, v)) ↦ (
        r',
        drain_closed decode_text pulls (suc fuel) body r' q
            ∙ ap (λ (b : List ℕ). ok (some (b, r'))) (sym (ap (λ b. b ++ joined chunks) e ∙ j)),
        v,
      )
      | inl (e, inr (first, after, j, h', (piece, tail, next, q, a, f, n))) ↦
          let whole : left ++ joined chunks ≡ piece ++ (tail ++ joined after) =
            ap (λ b. b ++ joined chunks) e
            ∙ (j ∙ (ap (λ b. b ++ joined after) f ∙ append_assoc piece tail (joined after))) in
          let (r', d, v) =
            drain-IsMid decode_text ascii pulls fuel next tail after rest
              (omega (arith, ap length whole, length-append piece (tail ++ joined after))) n h' in
          (
            r',
            drain_enqueued decode_text pulls (suc fuel) body next piece (tail ++ joined after) r' q
                  d
                ∙ ap (λ (b : List ℕ). ok (some (b, r'))) (sym whole),
            v,
          )
      | inr (piece, tail, next, q, a, f, n) ↦
          let whole : left ++ joined chunks ≡ piece ++ (tail ++ joined chunks) =
            ap (λ b. b ++ joined chunks) f ∙ append_assoc piece tail (joined chunks) in
          let (r', d, v) =
            drain-IsMid decode_text ascii pulls fuel next tail chunks rest
              (omega (arith, ap length whole, length-append piece (tail ++ joined chunks))) n h in
          (
            r',
            drain_enqueued decode_text pulls (suc fuel) body next piece (tail ++ joined chunks) r' q
                  d
                ∙ ap (λ (b : List ℕ). ok (some (b, r'))) (sym whole),
            v,
          )
    ]

-- A stream that carries the chunked encoding of chunks, of lengths below 2 ^ 53, and more behind it,
-- however the stream itself is cut into pieces: `chunked_body`, pulled more often than there are
-- bytes in the chunks, gives the bytes of the chunks in order and ends, and what is left unread is
-- what stands behind the encoding. The text decoder decodes ASCII to itself.
pub drain-encode_chunks :
    (decode_text : List ℕ → List ℕ)
    → IsDecoder decode_text
    → (pulls fuel : ℕ) (r : ByteReader) (chunks : List (List ℕ)) (rest : List ℕ)
    → length (joined chunks) < pulls
    → unread r ≡ encode_chunks chunks ++ rest
    → All (λ c. length c < 2 ^ 53) chunks
    → Drained decode_text pulls (suc fuel) (chunked_body r) (joined chunks) rest
drain-encode_chunks decode_text ascii zero fuel r chunks rest l u h = absurd (omega arith)
drain-encode_chunks decode_text ascii (suc pulls) fuel r chunks rest l u h =
    let first = pull-boundary decode_text (suc fuel) (chunked_body r) r refl refl in
    elim (begin_chunk-Begun decode_text ascii fuel r chunks rest u h) [
      | inl (r', q, j, v) ↦ (
        r',
        drain_closed decode_text pulls (suc fuel) (chunked_body r) r' (first ∙ q)
            ∙ ap (λ (b : List ℕ). ok (some (b, r'))) (sym j),
        v,
      )
      | inr (left, after, j, h', (piece, tail, next, q, a, f, n)) ↦
          let whole : joined chunks ≡ piece ++ (tail ++ joined after) =
            j ∙ (ap (λ b. b ++ joined after) f ∙ append_assoc piece tail (joined after)) in
          let (r', d, v) =
            drain-IsMid decode_text ascii pulls fuel next tail after rest
              (omega (arith, ap length whole, length-append piece (tail ++ joined after))) n h' in
          (
            r',
            drain_enqueued decode_text pulls (suc fuel) (chunked_body r) next piece
                  (tail ++ joined after) r' (first ∙ q) d
                ∙ ap (λ (b : List ℕ). ok (some (b, r'))) (sym whole),
            v,
          )
    ]
