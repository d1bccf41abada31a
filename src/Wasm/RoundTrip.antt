-- ===== src/Wasm/RoundTrip.antt =====
-- packages/kernel/src/wasm_binary.ts against the binary format: a writer of memory types and of a
-- module with a memory section, and the reader on what it writes.
use distro.Common.{
  ℕ, ◌+◌, ◌^◌, ◌<◌, ◌≡◌, refl, ap, ◌∙◌, true, false, List, [], ◌∷◌, ◌++◌, Option, none, some, ok,
  ltb, if◌then◌else◌, length, arith, length-append, All, append-nil, append_assoc, ==_iff,
}
use distro.Wasm.Cursor.{Outcome, has_bit, expect_done}
use distro.Wasm.Types.{
  Address, i32, i64, WasmMemoryType, read_limit, read_maximum, read_memory_type,
}
use distro.Wasm.Memories.{header, read_definitions_loop, read_definitions}
use distro.Wasm.Span.{cursor}
use distro.Wasm.Leb.{
  leb128, IsAhead, byte_ahead, IsAhead-tail, IsAhead-append, u32-leb128, u64-leb128,
}

unfoldable pub write_limit : Address → ℕ → List ℕ
unfolding leb128
write_limit i32 n = leb128 4 n
write_limit i64 n = leb128 9 n

abbrev pub limit_bound : Address → ℕ
limit_bound i32 = 2 ^ 32
limit_bound i64 = 2 ^ 64

abbrev pub limits_flags : WasmMemoryType → ℕ
limits_flags t =
    elim t.maximum [ none ↦ 0 | some _ ↦ 1 ]
    + (if t.shared then 2 else 0)
    + elim t.address [ i32 ↦ 0 | i64 ↦ 4 ]

unfoldable pub write_maximum : Address → Option ℕ → List ℕ
unfolding write_limit
write_maximum a none = []
write_maximum a (some n) = write_limit a n

unfoldable pub write_memory_type : WasmMemoryType → List ℕ
unfolding write_limit write_maximum
write_memory_type t =
    limits_flags t ∷ write_limit t.address t.minimum ++ write_maximum t.address t.maximum

abbrev pub FitsMaximum : Address → Option ℕ → Type 0
FitsMaximum a none = Unit {0}
FitsMaximum a (some n) = n < limit_bound a

-- The limits fit the memory's address type.
abbrev pub HasLimits : WasmMemoryType → Type 0
HasLimits t = (t.minimum < limit_bound t.address) × FitsMaximum t.address t.maximum

pub IsAhead-front :
    {bytes : List ℕ} {end o : ℕ} (xs ys : List ℕ)
    → IsAhead bytes end o (xs ++ ys)
    → IsAhead bytes end o xs
IsAhead-front {bytes} {end} {o} xs ys a = record {
  rest = ys ++ a.rest;
  unread = a.unread ∙ append_assoc xs ys a.rest;
  inside = omega (arith, length-append xs ys, a.inside);
}

read_limit-write_limit :
    (bytes : List ℕ) (end o : ℕ) (a : Address) (n : ℕ)
    → IsAhead bytes end o (write_limit a n)
    → n < limit_bound a
    → read_limit a (cursor bytes end o) ≡ ok (n, cursor bytes end (o + length (write_limit a n)))
unfolding read_limit write_limit
read_limit-write_limit bytes end o i32 n h l = u32-leb128 bytes end o n h l
read_limit-write_limit bytes end o i64 n h l = u64-leb128 bytes end o n h l

read_maximum-write_maximum :
    (bytes : List ℕ) (end o : ℕ) (a : Address) (m : Option ℕ)
    → IsAhead bytes end o (write_maximum a m)
    → FitsMaximum a m
    → read_maximum (elim m [ none ↦ false | some _ ↦ true ]) a (cursor bytes end o)
      ≡ ok (m, cursor bytes end (o + length (write_maximum a m)))
unfolding read_maximum write_maximum
read_maximum-write_maximum bytes end o a none h l = let e : o + 0 ≡ o = omega arith in rw e refl
read_maximum-write_maximum bytes end o a (some n) h l =
    rw (read_limit-write_limit bytes end o a n h l) refl

flags_lem :
    (t : WasmMemoryType)
    → (ltb 7 (limits_flags t) ≡ false)
      × (has_bit (limits_flags t) 0 ≡ elim t.maximum [ none ↦ false | some _ ↦ true ])
      × (has_bit (limits_flags t) 1 ≡ t.shared)
      × ((if has_bit (limits_flags t) 2 then i64 else i32) ≡ t.address)
flags_lem t = ground arith

-- `read_memory_type` reads back every memory type whose limits fit its address type.
pub read_memory_type-write :
    (bytes : List ℕ) (end o : ℕ) (t : WasmMemoryType)
    → IsAhead bytes end o (write_memory_type t)
    → HasLimits t
    → read_memory_type (cursor bytes end o)
      ≡ ok (t, cursor bytes end (o + length (write_memory_type t)))
unfolding read_memory_type write_memory_type
read_memory_type-write bytes end o t a (l, m) =
    let (known, bit0, bit1, bit2) = flags_lem t in
    let low : List ℕ = write_limit t.address t.minimum in
    let high : List ℕ = write_maximum t.address t.maximum in
    let limits : IsAhead bytes end (o + 1) (low ++ high) = IsAhead-tail a in
    rw
      (
        byte_ahead a,
        known,
        bit0,
        bit1,
        bit2,
        read_limit-write_limit bytes end (o + 1) t.address t.minimum (IsAhead-front low high limits)
            l,
        read_maximum-write_maximum bytes end _ t.address t.maximum (IsAhead-append low limits) m,
      )
      (ap (λ k. ok (t, cursor bytes end k)) (omega (arith, length-append low high)))

abbrev pub write_types : List WasmMemoryType → List ℕ
write_types [] = []
write_types (t ∷ ts) = write_memory_type t ++ write_types ts

read_definitions_loop-write :
    (bytes : List ℕ) (end o : ℕ) (ts found : List WasmMemoryType)
    → IsAhead bytes end o (write_types ts)
    → All HasLimits ts
    → read_definitions_loop (length ts) found (cursor bytes end o)
      ≡ ok (found ++ ts, cursor bytes end (o + length (write_types ts)))
unfolding read_definitions_loop
read_definitions_loop-write bytes end o [] found a h =
    let e : o + 0 ≡ o = omega arith in rw (e, append-nil) refl
read_definitions_loop-write bytes end o (t ∷ ts) found a (l, h) =
    rw
      (read_memory_type-write bytes end o t (IsAhead-front (write_memory_type t) (write_types ts) a)
        l)
      (read_definitions_loop-write bytes end (o + length (write_memory_type t)) ts (found ++ t ∷ [])
          (IsAhead-append (write_memory_type t) a) h
        ∙ at_eq (append_assoc found (t ∷ []) ts)
            (omega (arith, length-append (write_memory_type t) (write_types ts))))
  where
    at_eq :
        {xs ys : List WasmMemoryType} {k l : ℕ}
        → xs ≡ ys
        → k ≡ l
        → ◌≡◌ {A = Outcome (List WasmMemoryType)}
            (ok (xs, cursor bytes end k))
            (ok (ys, cursor bytes end l))
    at_eq e f = cc

-- The contents of a memory section, and a module that has this section alone.
unfoldable pub write_definitions : List WasmMemoryType → List ℕ
unfolding write_memory_type leb128
write_definitions ts = leb128 4 (length ts) ++ write_types ts

unfoldable pub write_module : List WasmMemoryType → List ℕ
unfolding header leb128 write_definitions
write_module ts = header ++ (5 ∷ leb128 4 (length (write_definitions ts)) ++ write_definitions ts)

-- A memory section that fills its span is read back whole.
pub read_definitions-write :
    (bytes : List ℕ) (o : ℕ) (ts : List WasmMemoryType)
    → IsAhead bytes (o + length (write_definitions ts)) o (write_definitions ts)
    → length ts < 2 ^ 32
    → All HasLimits ts
    → read_definitions [] (cursor bytes (o + length (write_definitions ts)) o)
      ≡ ok
          (ts, cursor bytes (o + length (write_definitions ts)) (o + length (write_definitions ts)))
unfolding read_definitions write_definitions expect_done
read_definitions-write bytes o ts a l h =
    let count : List ℕ = leb128 4 (length ts) in
    let end : ℕ = o + length (count ++ write_types ts) in
    let e : o + length count + length (write_types ts) ≡ end =
      omega (arith, length-append count (write_types ts)) in
    rw
      (
        u32-leb128 bytes end o (length ts) (IsAhead-front count (write_types ts) a) l,
        read_definitions_loop-write bytes end _ ts [] (IsAhead-append count a) h,
        e,
        (==_iff end end).1 refl,
      )
      refl
