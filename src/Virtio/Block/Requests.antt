-- ===== src/Virtio/Block/Requests.antt =====
-- packages/kernel/src/virtio/block.ts, `#request`: what a request does to the storage, and what it
-- reports.
use distro.Common.{
  ℕ, ◌+◌, ◌*◌, ◌≤◌, ◌≡◌, ◌≢◌, refl, sym, ap, ◌∙◌, Bool, true, false, not, ◌&&◌, ◌||◌, List, [], ◌∷◌,
  ◌++◌, Option, none, some, ◌==◌, if◌then◌else◌, length, take, arith, leb, leb→le, append-nil,
  Bool-cases, ◌⊎◌, inl, inr,
}
use distro.Virtio.Block.{
  Segment, total_length, BlockStorage, BlockDeviceStatus, is_ok, io_error, unsupported, Completion,
  assertion_failed, completed, VirtqueueBuffer, BlockDeviceRequest, arrays, is_in_sectors,
  advertised, seg_max, all_writable, all_readonly, finish_read, finish_write, request_in,
  request_out_by, request_out, request_flush, dispatch, request, split_last, read_request,
}
use distro.Virtio.Block.Runs.{addresses, length-addresses}
use distro.Virtio.Block.Transfer.{
  Move, pairs, MovesFirst, IsSingle, IsVectored, transfer-MovesFirst,
}

-- The bytes that a request asks for.
abbrev pub asked : BlockDeviceRequest → List VirtqueueBuffer → List (ℕ × ℕ)
asked r buffers = if (r.type == 0) || (r.type == 1) then addresses (arrays buffers) else []

-- A read into a buffer that is not writable, or a write from one that is.
abbrev pub is_misdirected : BlockDeviceRequest → List VirtqueueBuffer → Bool
is_misdirected r buffers =
    if r.type == 0
    then not (all_writable buffers)
    else if r.type == 1
    then not (all_readonly buffers)
    else false

-- The bytes that the release of the chain is to report.
abbrev pub reported : BlockDeviceStatus → (reads : Bool) → ℕ → ℕ
reported io_error reads n = 0
reported unsupported reads n = 0
reported is_ok reads n = if reads then n else 0

not_ok : io_error ≢ is_ok
not_ok e = cc

not_supported : unsupported ≢ is_ok
not_supported e = cc

all_of : (k size n : ℕ) → (k == size) ≡ true → n ≡ size → k ≡ n
all_of k size n e f = ground arith

either : (b : Bool) (k n : ℕ) → (b || not (k == n)) ≡ true → (b ≡ true) ⊎ (k ≢ n)
either true k n e = inl refl
either false k n e = inr (differ k n e)
  where
    differ : (k n : ℕ) → not (k == n) ≡ true → k ≢ n
    differ k n e = ground arith

either_not : (b : Bool) (k n : ℕ) → (not b || not (k == n)) ≡ true → (b ≡ false) ⊎ (k ≢ n)
either_not false k n e = inl refl
either_not true k n e = inr (differ k n e)
  where
    differ : (k n : ℕ) → not (k == n) ≡ true → k ≢ n
    differ k n e = ground arith

no_bytes :
    (segments : List Segment)
    → (total_length segments == 0) ≡ true
    → length (addresses segments) ≡ 0
no_bytes segments z =
    all_of_none (total_length segments) (length (addresses segments)) z (length-addresses segments)
  where
    all_of_none : (size n : ℕ) → (size == 0) ≡ true → n ≡ size → n ≡ 0
    all_of_none size n e f = ground arith

module _ {World : Type 0} (moves : World → List Move) where
  pub data IsOptionalSingle : Option (World → ℕ → Segment → World × ℕ) → Type 0 where
    read_only : IsOptionalSingle none
    writes :
        (write : World → ℕ → Segment → World × ℕ)
        → IsSingle moves write
        → IsOptionalSingle (some write)

  pub data IsFlush : Option (World → World) → Type 0 where
    no_flush : IsFlush none
    flushes :
        (flush : World → World) → ((w : World) → moves (flush w) ≡ moves w) → IsFlush (some flush)

  -- A storage whose calls move a first part of what they are asked for, and whose flush moves nothing.
  pub record IsLawful (storage : BlockStorage World) : Type 0 where
    pub read : IsSingle moves storage.read
    pub readv : IsVectored moves storage.readv
    pub write : IsOptionalSingle storage.write
    pub writev : IsVectored moves storage.writev
    pub flush : IsFlush storage.flush

  -- An answer to a request for the bytes at `addrs`, from the place `start` of the storage on: the
  -- first `k` of them are moved, all of them where the status is a success; those that are moved
  -- stand below `limit`; and a read that succeeds reports them all, everything else none.
  -- An assertion fails only for buffers of the wrong direction.
  data IsAnswer (limit start : ℕ) (w : World) (addrs : List (ℕ × ℕ)) (reads wrong : Bool)
      : Completion World → Type 0 where
    asserted : wrong ≡ true → IsAnswer limit start w addrs reads wrong assertion_failed
    answered :
        (w' : World) (status : BlockDeviceStatus) (n k : ℕ)
        → moves w' ≡ moves w ++ pairs start (take k addrs)
        → k ≤ length addrs
        → (k ≡ 0) ⊎ (start + k ≤ limit)
        → (status ≡ is_ok → k ≡ length addrs)
        → n ≡ reported status reads (length addrs)
        → IsAnswer limit start w addrs reads wrong (completed w' status n)

  -- What a request comes to: an assertion fails, and the chain is malformed; or the chain is a
  -- header, the request's buffers and a status, and the request is answered as above.
  pub data IsHandled (limit : ℕ) (w : World) (r : BlockDeviceRequest) (chain : List VirtqueueBuffer)
      : Completion World → Type 0 where
    too_short : length chain ≤ 1 → IsHandled limit w r chain assertion_failed
    bad_header :
        (header : VirtqueueBuffer) (rest : List VirtqueueBuffer)
        → chain ≡ header ∷ rest
        → (header.writable ≡ true) ⊎ (header.array.byte_length ≢ 16)
        → IsHandled limit w r chain assertion_failed
    bad_status :
        (front : List VirtqueueBuffer) (last : VirtqueueBuffer)
        → chain ≡ front ++ last ∷ []
        → (last.writable ≡ false) ⊎ (last.array.byte_length ≢ 1)
        → IsHandled limit w r chain assertion_failed
    misdirected :
        (header last : VirtqueueBuffer) (buffers : List VirtqueueBuffer)
        → chain ≡ header ∷ (buffers ++ last ∷ [])
        → is_misdirected r buffers ≡ true
        → IsHandled limit w r chain assertion_failed
    handled :
        (header last : VirtqueueBuffer) (buffers : List VirtqueueBuffer) (w' : World)
        (status : BlockDeviceStatus) (n k : ℕ)
        → chain ≡ header ∷ (buffers ++ last ∷ [])
        → moves w' ≡ moves w ++ pairs (r.sector * 512) (take k (asked r buffers))
        → k ≤ length (asked r buffers)
        → (k ≡ 0) ⊎ (r.sector * 512 + k ≤ limit)
        → (status ≡ is_ok → k ≡ length (asked r buffers))
        → n ≡ reported status (r.type == 0) (length (asked r buffers))
        → IsHandled limit w r chain (completed w' status n)

  fails :
      (limit start : ℕ) (w : World) (addrs : List (ℕ × ℕ)) (reads wrong : Bool)
      (status : BlockDeviceStatus)
      → status ≢ is_ok
      → IsAnswer limit start w addrs reads wrong (completed w status 0)
  fails limit start w addrs reads wrong status e =
      answered w status 0 0 (sym (append-nil (moves w))) (omega arith) (inl refl)
        (λ o. absurd (e o)) (none_reported status e)
    where
      none_reported :
          (status : BlockDeviceStatus) → status ≢ is_ok → 0 ≡ reported status reads (length addrs)
      none_reported is_ok e = absurd (e refl)
      none_reported io_error e = refl
      none_reported unsupported e = refl

  -- A success that asks for no bytes.
  moves_none :
      (limit start : ℕ) (w w' : World) (addrs : List (ℕ × ℕ)) (reads wrong : Bool)
      → moves w' ≡ moves w
      → length addrs ≡ 0
      → IsAnswer limit start w addrs reads wrong (completed w' is_ok 0)
  moves_none limit start w w' addrs reads wrong e z =
      answered w' is_ok 0 0 (e ∙ sym (append-nil (moves w))) (omega arith) (inl refl) (λ _. sym z)
        (none_reported reads)
    where
      none_reported : (reads : Bool) → 0 ≡ reported is_ok reads (length addrs)
      none_reported true = sym z
      none_reported false = refl

  if-IsAnswer :
      (limit start : ℕ) (w : World) (addrs : List (ℕ × ℕ)) (reads wrong b : Bool)
      (x y : Completion World)
      → (b ≡ true → IsAnswer limit start w addrs reads wrong x)
      → (b ≡ false → IsAnswer limit start w addrs reads wrong y)
      → IsAnswer limit start w addrs reads wrong (if b then x else y)
  if-IsAnswer limit start w addrs reads wrong true x y p q = p refl
  if-IsAnswer limit start w addrs reads wrong false x y p q = q refl

  if-IsHandled :
      (limit : ℕ) (w : World) (r : BlockDeviceRequest) (chain : List VirtqueueBuffer) (b : Bool)
      (x y : Completion World)
      → (b ≡ true → IsHandled limit w r chain x)
      → (b ≡ false → IsHandled limit w r chain y)
      → IsHandled limit w r chain (if b then x else y)
  if-IsHandled limit w r chain true x y p q = p refl
  if-IsHandled limit w r chain false x y p q = q refl

  in_sectors :
      (capacity start : ℕ) (segments : List Segment) (k : ℕ)
      → not (is_in_sectors capacity start segments) ≡ false
      → k ≤ length (addresses segments)
      → start + k ≤ advertised capacity
  in_sectors capacity start segments k e l =
      let fits : leb (start + total_length segments) (advertised capacity) ≡ true =
        right_of (leb (length segments) seg_max) _ e in
      omega (arith, leb→le _ _ fits, length-addresses segments)
    where
      right_of : (a b : Bool) → not (a && b) ≡ false → b ≡ true
      right_of true true e = refl
      right_of true false e = cc
      right_of false b e = cc

  module _ (storage : BlockStorage World) (w : World) (start : ℕ)
      (buffers : List VirtqueueBuffer) where
    finish_read-IsAnswer :
        (moved : World × ℕ) (wrong : Bool)
        → not (is_in_sectors storage.capacity start (arrays buffers)) ≡ false
        → MovesFirst moves w start (addresses (arrays buffers)) moved
        → IsAnswer
            (advertised storage.capacity)
            start
            w
            (addresses (arrays buffers))
            true
            wrong
            (finish_read storage (total_length (arrays buffers)) moved)
    finish_read-IsAnswer moved wrong e m =
        let limit = advertised storage.capacity in
        let addrs = addresses (arrays buffers) in
        let size = length-addresses (arrays buffers) in
        let inside = in_sectors storage.capacity start (arrays buffers) moved.1 e m.at_most in
        if-IsAnswer limit start w addrs true wrong (moved.1 == total_length (arrays buffers)) _ _
          (λ t.
            answered moved.0 is_ok (total_length (arrays buffers)) moved.1 m.moved m.at_most
              (inr inside)
              (λ _. all_of moved.1 (total_length (arrays buffers)) (length addrs) t size)
              (sym size))
          (λ t.
            answered moved.0 io_error 0 moved.1 m.moved m.at_most (inr inside)
              (λ o. absurd (not_ok o)) refl)

    finish_write-IsAnswer :
        (moved : World × ℕ) (wrong : Bool)
        → not (is_in_sectors storage.capacity start (arrays buffers)) ≡ false
        → MovesFirst moves w start (addresses (arrays buffers)) moved
        → IsAnswer
            (advertised storage.capacity)
            start
            w
            (addresses (arrays buffers))
            false
            wrong
            (finish_write storage (total_length (arrays buffers)) moved)
    finish_write-IsAnswer moved wrong e m =
        let limit = advertised storage.capacity in
        let addrs = addresses (arrays buffers) in
        let size = length-addresses (arrays buffers) in
        let inside = in_sectors storage.capacity start (arrays buffers) moved.1 e m.at_most in
        if-IsAnswer limit start w addrs false wrong (moved.1 == total_length (arrays buffers)) _ _
          (λ t.
            answered moved.0 is_ok 0 moved.1 m.moved m.at_most (inr inside)
              (λ _. all_of moved.1 (total_length (arrays buffers)) (length addrs) t size) refl)
          (λ t.
            answered moved.0 io_error 0 moved.1 m.moved m.at_most (inr inside)
              (λ o. absurd (not_ok o)) refl)

    request_in-IsAnswer :
        IsLawful storage
        → IsAnswer
            (advertised storage.capacity)
            start
            w
            (addresses (arrays buffers))
            true
            (not (all_writable buffers))
            (request_in storage w start buffers)
    unfolding request_in
    request_in-IsAnswer l =
        let limit = advertised storage.capacity in
        let addrs = addresses (arrays buffers) in
        let wrong = not (all_writable buffers) in
        if-IsAnswer limit start w addrs true wrong wrong _ _ (λ e. asserted e)
          (λ _.
            if-IsAnswer limit start w addrs true wrong
              (not (is_in_sectors storage.capacity start (arrays buffers))) _ _
              (λ _. fails limit start w addrs true wrong io_error not_ok)
              (λ e.
                if-IsAnswer limit start w addrs true wrong (total_length (arrays buffers) == 0) _ _
                  (λ z.
                    moves_none limit start w w addrs true wrong refl (no_bytes (arrays buffers) z))
                  (λ _. finish_read-IsAnswer _ wrong e (
                    transfer-MovesFirst moves storage.read storage.readv w start (arrays buffers)
                      l.read l.readv))))

    request_out_by-IsAnswer :
        (write : Option (World → ℕ → Segment → World × ℕ)) (wrong : Bool)
        → IsOptionalSingle write
        → IsVectored moves storage.writev
        → IsAnswer
            (advertised storage.capacity)
            start
            w
            (addresses (arrays buffers))
            false
            wrong
            (request_out_by storage write w start buffers)
    unfolding request_out_by
    request_out_by-IsAnswer none wrong o v =
        fails (advertised storage.capacity) start w (addresses (arrays buffers)) false wrong
          unsupported not_supported
    request_out_by-IsAnswer (some write) wrong (writes _ law) v =
        let limit = advertised storage.capacity in
        let addrs = addresses (arrays buffers) in
        if-IsAnswer limit start w addrs false wrong
          (not (is_in_sectors storage.capacity start (arrays buffers))) _ _
          (λ _. fails limit start w addrs false wrong io_error not_ok)
          (λ e.
            if-IsAnswer limit start w addrs false wrong (total_length (arrays buffers) == 0) _ _
              (λ z. moves_none limit start w w addrs false wrong refl (no_bytes (arrays buffers) z))
              (λ _.
                finish_write-IsAnswer _ wrong e
                  (transfer-MovesFirst moves write storage.writev w start (arrays buffers) law v)))

    request_out-IsAnswer :
        IsLawful storage
        → IsAnswer
            (advertised storage.capacity)
            start
            w
            (addresses (arrays buffers))
            false
            (not (all_readonly buffers))
            (request_out storage w start buffers)
    unfolding request_out
    request_out-IsAnswer l =
        let wrong = not (all_readonly buffers) in
        if-IsAnswer (advertised storage.capacity) start w (addresses (arrays buffers)) false wrong
          wrong _ _ (λ e. asserted e)
          (λ _. request_out_by-IsAnswer storage.write wrong l.write l.writev)

  request_flush-IsAnswer :
      (limit start : ℕ) (w : World) (storage : BlockStorage World) (flush : Option (World → World))
      → IsFlush flush
      → IsAnswer limit start w [] false false (request_flush storage flush w)
  unfolding request_flush
  request_flush-IsAnswer limit start w storage none f =
      fails limit start w [] false false unsupported not_supported
  request_flush-IsAnswer limit start w storage (some flush) (flushes _ law) =
      moves_none limit start w (flush w) [] false false (law w) refl

  dispatch-IsAnswer :
      (storage : BlockStorage World) (w : World) (r : BlockDeviceRequest)
      (buffers : List VirtqueueBuffer)
      → IsLawful storage
      → IsAnswer
          (advertised storage.capacity)
          (r.sector * 512)
          w
          (asked r buffers)
          (r.type == 0)
          (is_misdirected r buffers)
          (dispatch storage w r buffers)
  unfolding dispatch
  dispatch-IsAnswer storage w r buffers l =
      let limit = advertised storage.capacity in
      let start = r.sector * 512 in
      elim (Bool-cases (r.type == 0)) [
        | inl e ↦ rw e (request_in-IsAnswer storage w (r.sector * 512) buffers l)
        | inr e ↦ elim (Bool-cases (r.type == 1)) [
          | inl f ↦ rw (e, f) (request_out-IsAnswer storage w (r.sector * 512) buffers l)
          | inr f ↦
              rw (e, f)
                (if-IsAnswer limit start w [] false false (r.type == 4) _ _
                  (λ _. request_flush-IsAnswer limit start w storage storage.flush l.flush)
                  (λ _.
                    if-IsAnswer limit start w [] false false (r.type == 8) _ _
                      (λ _. moves_none limit start w w [] false false refl refl)
                      (λ _. fails limit start w [] false false unsupported not_supported)))
        ]
      ]

  answer-IsHandled :
      (limit : ℕ) (w : World) (r : BlockDeviceRequest) (header last : VirtqueueBuffer)
      (buffers chain : List VirtqueueBuffer) (completion : Completion World)
      → chain ≡ header ∷ (buffers ++ last ∷ [])
      → IsAnswer limit
          (r.sector * 512)
          w
          (asked r buffers)
          (r.type == 0)
          (is_misdirected r buffers)
          completion
      → IsHandled limit w r chain completion
  answer-IsHandled limit w r header last buffers chain _ e (asserted wrong) =
      misdirected header last buffers e wrong
  answer-IsHandled limit w r header last buffers chain _ e (answered w' status n k m a i s q) =
      handled header last buffers w' status n k e m a i s q

  split_last-append :
      (storage : BlockStorage World) (b : VirtqueueBuffer) (buffers : List VirtqueueBuffer)
      → b ∷ buffers ≡ (split_last storage b buffers).0 ++ (split_last storage b buffers).1 ∷ []
  unfolding split_last
  split_last-append storage b [] = refl
  split_last-append storage b (c ∷ buffers) = ap (λ r. b ∷ r) (split_last-append storage c buffers)

  -- With a lawful storage and any chain, `request` fails an assertion only on a malformed chain: fewer
  -- than two buffers, a header that is writable or not of 16 bytes, a status that is not writable or
  -- not of one byte, or data of the wrong direction. Otherwise it moves a first part of the bytes
  -- that the chain's data buffers address (none, for a request that neither reads nor writes) from
  -- the request's sector on, inside the storage's whole sectors; the status is a success only if
  -- all of them are moved; and a read that succeeds reports all of them, everything else none.
  pub request-IsHandled :
      (storage : BlockStorage World) (w : World) (header_bytes : List ℕ)
      (chain : List VirtqueueBuffer)
      → IsLawful storage
      → IsHandled
          (advertised storage.capacity)
          w
          (read_request header_bytes)
          chain
          (request storage w header_bytes chain)
  unfolding request
  request-IsHandled storage w header_bytes [] l = too_short (omega arith)
  request-IsHandled storage w header_bytes (header ∷ []) l = too_short (omega arith)
  request-IsHandled storage w header_bytes (header ∷ b ∷ buffers) l =
      let limit = advertised storage.capacity in
      let r = read_request header_bytes in
      let parts = split_last storage b buffers in
      let chain = header ∷ b ∷ buffers in
      let whole : chain ≡ header ∷ (parts.0 ++ parts.1 ∷ []) =
        ap (λ rest. header ∷ rest) (split_last-append storage b buffers) in
      if-IsHandled limit w r chain (header.writable || not (header.array.byte_length == 16)) _ _
        (λ e.
          bad_header header (b ∷ buffers) refl
            (either header.writable header.array.byte_length 16 e))
        (λ _.
          if-IsHandled limit w r chain
            (not parts.1.writable || not (parts.1.array.byte_length == 1)) _ _
            (λ e.
              bad_status (header ∷ parts.0) parts.1 whole
                (either_not parts.1.writable parts.1.array.byte_length 1 e))
            (λ _.
              answer-IsHandled limit w r header parts.1 parts.0 chain _ whole
                (dispatch-IsAnswer storage w r parts.0 l)))
