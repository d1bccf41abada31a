-- ===== src/Http/Examples.antt =====
-- packages/linux-guest/src/http.ts at concrete inputs.
use distro.Common.{ℕ, ◌≡◌, refl, false, true, List, [], ◌∷◌, ok, arith}
use distro.Http.Reader.{ByteReader, line}
use distro.Http.Lines.{unread, line-text}
use distro.Http.Chunked.{chunked_body}
use distro.Http.Encoder.{encode_chunks}
use distro.Http.Encoding.{Drained, drain-encode_chunks}

-- The line "abc", cut between its CR and its LF, and one byte behind it.
abbrev cut_line : ByteReader
cut_line = record {
  buffer = 97 ∷ [];
  incoming = (98 ∷ 99 ∷ 13 ∷ []) ∷ (10 ∷ 120 ∷ []) ∷ [];
  strict_crlf = true;
}

line-text_example :
    (after : ByteReader) × (line (λ text. text) cut_line ≡ ok (97 ∷ 98 ∷ 99 ∷ [], after))
    × (unread after ≡ 120 ∷ [])
line-text_example =
    line-text (λ text. text) (λ text ascii. refl) cut_line (97 ∷ 98 ∷ 99 ∷ []) (120 ∷ []) refl
      (
        (omega arith, omega arith, omega arith),
        ((omega arith, omega arith, omega arith), ((omega arith, omega arith, omega arith), tt)),
      )
      (omega arith)

-- Two chunks, with an empty one between that the encoder leaves out.
abbrev greeting : List (List ℕ)
greeting = (104 ∷ 105 ∷ []) ∷ [] ∷ (33 ∷ []) ∷ []

-- Their encoding, cut into two pieces, and one byte behind it.
abbrev encoded : ByteReader
encoded = record {
  buffer = 50 ∷ 13 ∷ [];
  incoming =
      (10 ∷ 104 ∷ 105 ∷ 13 ∷ 10 ∷ 49 ∷ 13 ∷ 10 ∷ 33 ∷ [])
      ∷ (13 ∷ 10 ∷ 48 ∷ 13 ∷ 10 ∷ 13 ∷ 10 ∷ 120 ∷ [])
      ∷ [];
  strict_crlf = false;
}

drain-encode_chunks_example :
    Drained (λ text. text) 4 2 (chunked_body encoded) (104 ∷ 105 ∷ 33 ∷ []) (120 ∷ [])
unfolding encode_chunks distro.Http.Hex.to_hex distro.Http.Hex.to_hex_loop
drain-encode_chunks_example =
    drain-encode_chunks (λ text. text) (λ text ascii. refl) 4 1 encoded greeting (120 ∷ [])
      (omega arith) refl (omega arith, (omega arith, (omega arith, tt)))
