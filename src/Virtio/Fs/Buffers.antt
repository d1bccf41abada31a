-- ===== src/Virtio/Fs/Buffers.antt =====
-- packages/kernel/src/virtio/fs.ts, `concatenate` and `scatter`: the bytes of a request, and the
-- answer put into the buffers that the guest gave for it.
use distro.Common.{
  ℕ, zero, suc, ◌-◌, ◌<◌, ◌≤◌, ◌≡◌, ◌⊎◌, refl, sym, ap, ◌∙◌, Bool, true, false, not, ◌&&◌, ◌||◌,
  List, [], ◌∷◌, ◌++◌, ◌==◌, leb, if◌then◌else◌, length, take, drop, min, Result, ok, throw, arith,
  All, Bool-cases, inl, inr, append_assoc, append-nil, length-append, length-drop, take-append-drop,
  drop-append_ge, take_all, drop-nil,
}

-- The bytes of a buffer, and whether the device may write them.
pub record Buffer : Type 0 where
  pub bytes : List ℕ
  pub writable : Bool

unfoldable pub concatenate : Bool → List Buffer → List ℕ
concatenate writable [] = []
concatenate writable (b ∷ buffers) =
    let rest = concatenate writable buffers in
    if (b.writable && writable) || (not b.writable && not writable) then b.bytes ++ rest else rest

-- The loop of `scatter`: the buffers, and the data that is left when it ends.
unfoldable pub scatter_loop : List Buffer → List ℕ → List Buffer × List ℕ
scatter_loop [] data_bytes = ([], data_bytes)
scatter_loop (b ∷ buffers) data_bytes =
    let n = min (length b.bytes) (length data_bytes) in
    let skipped = scatter_loop buffers data_bytes in
    let written = scatter_loop buffers (drop n data_bytes) in
    if not b.writable
    then (b ∷ skipped.0, skipped.1)
    else if n == 0
    then (b ∷ buffers, data_bytes)
    else (record b { bytes = take n data_bytes ++ drop n b.bytes } ∷ written.0, written.1)

pub data ScatterError : Type 0 where
  buffers_too_small : ScatterError

abbrev pub check_left : List Buffer × List ℕ → Result ScatterError (List Buffer)
check_left (buffers, []) = ok buffers
check_left (buffers, b ∷ left) = throw buffers_too_small

unfoldable pub scatter : List Buffer → List ℕ → Result ScatterError (List Buffer)
scatter buffers data_bytes = check_left (scatter_loop buffers data_bytes)

abbrev pub IsRoomy : Buffer → Type 0
IsRoomy b = (b.writable ≡ false) ⊎ (0 < length b.bytes)

-- What the loop leaves of the writable bytes, and of the others.
abbrev IsScattered : List Buffer → List ℕ → List Buffer × List ℕ → Type 0
IsScattered buffers data_bytes step =
    (step.1 ≡ [])
    × (concatenate true step.0 ≡ data_bytes ++ drop (length data_bytes) (concatenate true buffers))
    × (concatenate false step.0 ≡ concatenate false buffers)

no_data :
    (buffers : List Buffer) (data_bytes : List ℕ)
    → length data_bytes ≡ 0
    → IsScattered buffers data_bytes (buffers, data_bytes)
no_data buffers [] e = (refl, refl, refl)
no_data buffers (d ∷ data_bytes) e = absurd (omega arith)

drop_all : (n : ℕ) (xs : List ℕ) → length xs ≤ n → drop n xs ≡ []
drop_all n [] l = drop-nil n
drop_all zero (x ∷ xs) l = absurd (omega arith)
drop_all (suc n) (x ∷ xs) l = drop_all n xs (omega arith)

drop-append_within : (n : ℕ) (xs ys : List ℕ) → n ≤ length xs → drop n (xs ++ ys) ≡ drop n xs ++ ys
drop-append_within zero xs ys l = refl
drop-append_within (suc n) [] ys l = absurd (omega arith)
drop-append_within (suc n) (x ∷ xs) ys l = drop-append_within n xs ys (omega arith)

if-IsScattered :
    (buffers : List Buffer) (data_bytes : List ℕ) (b : Bool) (x y : List Buffer × List ℕ)
    → (b ≡ true → IsScattered buffers data_bytes x)
    → (b ≡ false → IsScattered buffers data_bytes y)
    → IsScattered buffers data_bytes (if b then x else y)
if-IsScattered buffers data_bytes true x y p q = p refl
if-IsScattered buffers data_bytes false x y p q = q refl

first_bytes :
    (n : ℕ) (data_bytes bytes rest : List ℕ)
    → n ≡ min (length bytes) (length data_bytes)
    → take n data_bytes
        ++ drop n bytes
        ++ (drop n data_bytes ++ drop (length (drop n data_bytes)) rest)
      ≡ data_bytes ++ drop (length data_bytes) (bytes ++ rest)
first_bytes n data_bytes bytes rest e = elim (Bool-cases (leb (length bytes) (length data_bytes))) [
  | inl q ↦
      (let l : length bytes ≤ length data_bytes = ground arith in
        let n_bytes : n ≡ length bytes = omega arith in
        let used_up : drop n bytes ≡ [] = drop_all n bytes (omega arith) in
        let size : length (drop n data_bytes) ≡ length data_bytes - length bytes =
          omega (arith, length-drop n data_bytes) in
        ap
          (λ t.
            take n data_bytes ++ t ++ (drop n data_bytes ++ drop (length (drop n data_bytes)) rest))
          used_up
        ∙ (ap (λ t. t ++ (drop n data_bytes ++ drop (length (drop n data_bytes)) rest))
              (append-nil (take n data_bytes))
            ∙ (sym (
                  append_assoc (take n data_bytes) (drop n data_bytes)
                    (drop (length (drop n data_bytes)) rest))
                ∙ (ap (λ t. t ++ drop (length (drop n data_bytes)) rest)
                      (take-append-drop n data_bytes)
                    ∙ (ap (λ k. data_bytes ++ drop k rest) size
                        ∙ ap (λ t. data_bytes ++ t)
                            (sym (drop-append_ge (length data_bytes) bytes rest l)))))))
  | inr q ↦
      (let l : length data_bytes ≤ length bytes = ground arith in
        let n_data : n ≡ length data_bytes = omega arith in
        let whole : take n data_bytes ≡ data_bytes = take_all n data_bytes (omega arith) in
        let used_up : drop n data_bytes ≡ [] = drop_all n data_bytes (omega arith) in
        ap (λ t. t ++ drop n bytes ++ (drop n data_bytes ++ drop (length (drop n data_bytes)) rest))
          whole
        ∙ (ap (λ t. data_bytes ++ drop n bytes ++ (t ++ drop (length t) rest)) used_up
            ∙ (append_assoc data_bytes (drop n bytes) rest
                ∙ (ap (λ k. data_bytes ++ (drop k bytes ++ rest)) n_data
                    ∙ ap (λ t. data_bytes ++ t)
                        (sym (drop-append_within (length data_bytes) bytes rest l))))))
]

module _ (buffers : List Buffer) (h : All IsRoomy buffers)
    (rest : (data_bytes : List ℕ)
      → length data_bytes ≤ length (concatenate true buffers)
      → IsScattered buffers data_bytes (scatter_loop buffers data_bytes)) where
  cons-IsScattered :
      (bytes : List ℕ) (writable : Bool) (data_bytes : List ℕ)
      → (writable ≡ false) ⊎ (0 < length bytes)
      → length data_bytes
        ≤ length (concatenate true (record { bytes = bytes; writable = writable } ∷ buffers))
      → IsScattered
          (record { bytes = bytes; writable = writable } ∷ buffers)
          data_bytes
          (scatter_loop (record { bytes = bytes; writable = writable } ∷ buffers) data_bytes)
  unfolding scatter_loop concatenate
  cons-IsScattered bytes false data_bytes r l =
      let (left, w, k) = rest data_bytes l in (left, w, ap (λ t. bytes ++ t) k)
  cons-IsScattered bytes true data_bytes (inl r) l = absurd (let no : ⊥ = cc in no)
  cons-IsScattered bytes true data_bytes (inr r) l =
      let all_buffers = record { bytes = bytes; writable = true } ∷ buffers in
      let n = min (length bytes) (length data_bytes) in
      if-IsScattered all_buffers data_bytes (n == 0) _ _
        (λ e. no_data all_buffers data_bytes (ground arith))
        (λ e.
          (let (left, w, k) = rest (drop n data_bytes) (
              omega (
                arith,
                length-drop n data_bytes,
                length-append bytes (concatenate true buffers),
              )) in
            (
              left,
              ap (λ t. take n data_bytes ++ drop n bytes ++ t) w
                  ∙ first_bytes n data_bytes bytes (concatenate true buffers) refl,
              k,
            )))

scatter_loop-IsScattered :
    (buffers : List Buffer)
    → All IsRoomy buffers
    → (data_bytes : List ℕ) → length data_bytes ≤ length (concatenate true buffers)
    → IsScattered buffers data_bytes (scatter_loop buffers data_bytes)
unfolding scatter_loop concatenate
scatter_loop-IsScattered [] h data_bytes l = no_data [] data_bytes (omega arith)
scatter_loop-IsScattered (b ∷ buffers) (r, h) data_bytes l =
    cons-IsScattered buffers h (scatter_loop-IsScattered buffers h) b.bytes b.writable data_bytes r
      l

-- When no writable buffer is empty and the writable ones have room for the data, `scatter` succeeds:
-- the writable bytes then start with the data and go on as before, and the others are
-- unchanged.
pub scatter-concatenate :
    (buffers : List Buffer) (data_bytes : List ℕ)
    → All IsRoomy buffers
    → length data_bytes ≤ length (concatenate true buffers)
    → (after : List Buffer) × (scatter buffers data_bytes ≡ ok after)
      × (concatenate true after ≡ data_bytes ++ drop (length data_bytes) (concatenate true buffers))
      × (concatenate false after ≡ concatenate false buffers)
unfolding scatter
scatter-concatenate buffers data_bytes h l =
    let step = scatter_loop buffers data_bytes in
    let (left, w, k) = scatter_loop-IsScattered buffers h data_bytes l in
    (step.0, ap (λ bytes. check_left (step.0, bytes)) left, w, k)
