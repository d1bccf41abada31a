-- ===== src/Wasm/WholeModule.antt =====
-- packages/kernel/src/wasm_binary.ts, `read_wasm_memories` on a module with a memory section.
use distro.Common.{
  ℕ, zero, suc, ◌+◌, ◌-◌, ◌^◌, ◌<◌, ◌≡◌, refl, ap, sym, ◌∙◌, true, false, List, [], ◌∷◌, ◌++◌,
  Option, ok, length, arith, length-append, All, append-nil, ==_iff, le→ltb,
}
use mathlib.Core.Path.{subst}
use distro.Wasm.Cursor.{Cursor, Reader, ◌>>=◌, span, done, within, new}
use distro.Wasm.Types.{WasmMemoryType}
use distro.Wasm.Memories.{
  header, read_header_loop, read_header, read_definitions, take_section, read_section,
  read_sections, Progress, with_definitions, read_wasm_memories, returned,
}
use distro.Wasm.Span.{cursor}
use distro.Wasm.Leb.{leb128, IsAhead, byte_ahead, IsAhead-tail, IsAhead-append, u32-leb128}
use distro.Wasm.RoundTrip.{
  HasLimits, IsAhead-front, read_definitions-write, write_definitions, write_module,
}

read_header_loop-ahead :
    (bytes : List ℕ) (end o : ℕ) (xs : List ℕ)
    → IsAhead bytes end o xs
    → read_header_loop xs (cursor bytes end o) ≡ ok (tt, cursor bytes end (o + length xs))
unfolding read_header_loop
read_header_loop-ahead bytes end o [] a = let e : o + 0 ≡ o = omega arith in rw e refl
read_header_loop-ahead bytes end o (x ∷ xs) a =
    let e : o + suc (length xs) ≡ o + 1 + length xs = omega arith in
    rw (byte_ahead a, (==_iff x x).1 refl, e)
      (read_header_loop-ahead bytes end (o + 1) xs (IsAhead-tail a))

span-leb128 :
    (bytes : List ℕ) (end o : ℕ) (xs : List ℕ)
    → IsAhead bytes end o (leb128 4 (length xs) ++ xs)
    → length xs < 2 ^ 32
    → let o' = o + length (leb128 4 (length xs)) in
      span (cursor bytes end o)
      ≡ ok (cursor bytes (o' + length xs) o', cursor bytes end (o' + length xs))
unfolding span
span-leb128 bytes end o xs a l =
    let size : List ℕ = leb128 4 (length xs) in
    rw
      (
        u32-leb128 bytes end o (length xs) (IsAhead-front size xs a) l,
        le→ltb end (o + length size + length xs) ((IsAhead-append size a).inside),
      )
      refl

within_ok :
    {A : Type 0} (sub s : Cursor) (p : Reader A) (a : A) (c : Cursor)
    → p sub ≡ ok (a, s)
    → within sub p c ≡ ok (a, c)
unfolding within
within_ok sub s p a c e = rw (e, within) refl

read_header-ahead :
    (bytes : List ℕ) (end : ℕ)
    → IsAhead bytes end 0 header
    → read_header (cursor bytes end 0) ≡ ok (tt, cursor bytes end 8)
unfolding read_header header
read_header-ahead bytes end a = read_header_loop-ahead bytes end 0 header a

module _ {Text : Type 0} (decode : List ℕ → Option Text) where
  read_sections-done :
      (rounds : ℕ) (p : Progress decode) (c : Cursor)
      → done c ≡ true
      → read_sections decode rounds p c ≡ ok (p.memories, c)
  unfolding read_sections
  read_sections-done zero p c e = rw e refl
  read_sections-done (suc rounds) p c e = rw e refl

  read_sections_step :
      (rounds : ℕ) (p q : Progress decode) (c d : Cursor)
      → done c ≡ false
      → read_section decode p c ≡ ok (q, d)
      → read_sections decode (suc rounds) p c ≡ read_sections decode rounds q d
  unfolding read_sections
  read_sections_step rounds p q c d e f = rw (e, f) refl

module _ {Text : Type 0} (decode : List ℕ → Option Text) (ts : List WasmMemoryType) where
  take_definitions :
      (c sub s : Cursor) (p : Progress decode)
      → read_definitions [] sub ≡ ok (ts, s)
      → p.saw_definitions ≡ false
      → p.memories.definitions ≡ []
      → take_section decode p 5 sub c ≡ ok (with_definitions decode p ts, c)
  unfolding take_section
  take_definitions c sub s p e unseen none_yet =
      let found : read_definitions p.memories.definitions sub ≡ ok (ts, s) =
        subst (λ ds. read_definitions ds sub ≡ ok (ts, s)) (sym none_yet) e in
      rw (unseen, within_ok sub s (read_definitions p.memories.definitions) ts c found) refl

  -- A memory section, when none has been seen.
  read_section-write :
      (bytes : List ℕ) (end o : ℕ) (p : Progress decode)
      → IsAhead bytes end o (5 ∷ leb128 4 (length (write_definitions ts)) ++ write_definitions ts)
      → length (write_definitions ts) < 2 ^ 32
      → length ts < 2 ^ 32
      → All HasLimits ts
      → p.saw_definitions ≡ false
      → p.memories.definitions ≡ []
      → read_section decode p (cursor bytes end o)
        ≡ ok (
          with_definitions decode p ts,
          cursor bytes end (
              o
              + 1
              + length (leb128 4 (length (write_definitions ts)))
              + length (write_definitions ts)),
        )
  unfolding read_section
  read_section-write bytes end o p a l m h unseen none_yet =
      let payload : List ℕ = write_definitions ts in
      let size : List ℕ = leb128 4 (length payload) in
      let sized : IsAhead bytes end (o + 1) (size ++ payload) = IsAhead-tail a in
      let inner : IsAhead bytes end (o + 1 + length size) payload = IsAhead-append size sized in
      let sub : IsAhead bytes (o + 1 + length size + length payload) (o + 1 + length size) payload =
        record { rest = inner.rest; unread = inner.unread; inside = omega arith } in
      rw
        (
          byte_ahead a,
          span-leb128 bytes end (o + 1) payload sized l,
          take_definitions _ _ _ p (read_definitions-write bytes (o + 1 + length size) ts sub m h)
              unseen none_yet,
        )
        refl

  abbrev start : Progress decode
  start = record {
    memories = record { imports = []; definitions = [] };
    saw_imports = false;
    saw_definitions = false;
  }

  -- The reader of a module, in any bytes that begin with the module and end with it.
  read_module :
      (bytes : List ℕ) (end rounds less : ℕ)
      → rounds ≡ suc less
      → IsAhead bytes end 0
          (header ++ (5 ∷ leb128 4 (length (write_definitions ts)) ++ write_definitions ts))
      → 8 + 1 + length (leb128 4 (length (write_definitions ts))) + length (write_definitions ts)
        ≡ end
      → length ts < 2 ^ 32
      → length (write_definitions ts) < 2 ^ 32
      → All HasLimits ts
      → (read_header >>= λ _. read_sections decode rounds start) (cursor bytes end 0)
        ≡ ok (record { imports = []; definitions = ts }, cursor bytes end end)
  unfolding header done with_definitions
  read_module bytes end rounds less again whole at_end m l h =
      rw (read_header-ahead bytes end (IsAhead-front header _ whole), again)
        (read_sections_step decode less start _ _ _ (ground arith)
            (read_section-write bytes end 8 start (IsAhead-append header whole) l m h refl refl)
          ∙ rw at_end
              (read_sections-done decode less _ (cursor bytes end end) ((==_iff end end).1 refl)))

  -- `read_wasm_memories` on a module whose only section is a memory section returns the section's
  -- memory types, in order, and no imports: if the limits fit, and the sizes are below 2 ^ 32.
  pub read_wasm_memories-write_module :
      length ts < 2 ^ 32
      → length (write_definitions ts) < 2 ^ 32
      → All HasLimits ts
      → read_wasm_memories decode (write_module ts) ≡ ok (record { imports = []; definitions = ts })
  unfolding read_wasm_memories write_module new header
  read_wasm_memories-write_module m l h =
      let bytes : List ℕ = write_module ts in
      let size : List ℕ = leb128 4 (length (write_definitions ts)) in
      ap returned (
        read_module bytes (length bytes) (length bytes) (length bytes - 1) (omega arith)
          (record { rest = []; unread = sym (append-nil bytes); inside = omega arith })
          (omega (arith, length-append size (write_definitions ts))) m l h)
