-- ===== src/Wasm/Safety.antt =====
-- The readers of packages/kernel/src/wasm_binary.ts stay inside the module, on any input.
use distro.Common.{
  ℕ, zero, suc, ◌+◌, ◌≤◌, ◌≡◌, ◌≢◌, refl, Bool, true, false, List, [], ◌∷◌, Option, none, some,
  Result, ok, throw, length, arith, Bool-cases, inl, inr, ◌==◌, ==_iff,
}
use distro.Wasm.Cursor.{
  Cursor, Reader, Outcome, Message, out_of_rounds, duplicate_imports, duplicate_memories, ◌>>=◌,
  ◌>>◌, WasmParseError, pure, fail, byte, new, done, span, and_then,
}
use distro.Wasm.Types.{
  Address, i32, i64, read_limit, read_maximum, read_memory_type, skip_heap_or, skip_reference_type,
  skip_value_type, skip_limits, WasmMemoryType,
}
use distro.Wasm.Memories.{
  skip_import, read_definitions_loop, read_definitions, header, read_header_loop, read_header,
  WasmMemoryImport, read_import, read_imports_loop, read_imports, read_section, take_section,
  with_imports, with_definitions, Progress, read_sections, read_wasm_memories, returned,
}
use distro.Wasm.Span.{
  cursor, Holds, IsSafe, IsSub, pure-IsSafe, fail-IsSafe, bind-IsSafe, if-IsSafe, byte-IsSafe,
  u32-IsSafe, u64-IsSafe, signed33-IsSafe, span-IsSafe, within-IsSafe, text-IsSafe,
  expect_done-IsSafe, byte_first, Holds-widen,
}

module _ (bytes : List ℕ) (end : ℕ) where
  refused : {A : Type 0} (m : Message) → m ≢ out_of_rounds → IsSafe bytes end (fail {A = A} m)
  refused = fail-IsSafe bytes end

  read_limit-IsSafe : (address : Address) → IsSafe bytes end (read_limit address)
  unfolding read_limit
  read_limit-IsSafe i32 = u32-IsSafe bytes end
  read_limit-IsSafe i64 = u64-IsSafe bytes end

  read_maximum-IsSafe : (b : Bool) (address : Address) → IsSafe bytes end (read_maximum b address)
  unfolding read_maximum
  read_maximum-IsSafe true address =
      bind-IsSafe bytes end (read_limit-IsSafe address) (λ n. pure-IsSafe bytes end (some n))
  read_maximum-IsSafe false address = pure-IsSafe bytes end none

  pub read_memory_type-IsSafe : IsSafe bytes end read_memory_type
  unfolding read_memory_type
  read_memory_type-IsSafe = bind-IsSafe bytes end (byte-IsSafe bytes end) λ flags.
      if-IsSafe bytes end _ (refused _ (λ e. cc)) (
        bind-IsSafe bytes end (read_limit-IsSafe _)
          (λ n. bind-IsSafe bytes end (read_maximum-IsSafe _ _) (λ m. pure-IsSafe bytes end _)))

  skip_heap_or-IsSafe :
      {A : Type 0} (type : ℕ) (a : A) {refuse : Reader A}
      → IsSafe bytes end refuse
      → IsSafe bytes end (skip_heap_or type a refuse)
  unfolding skip_heap_or
  skip_heap_or-IsSafe type a s =
      if-IsSafe bytes end _
        (bind-IsSafe bytes end (byte-IsSafe bytes end) λ first.
          bind-IsSafe bytes end (signed33-IsSafe bytes end first) λ _. pure-IsSafe bytes end a)
        (if-IsSafe bytes end _ s (pure-IsSafe bytes end a))

  skip_reference_type-IsSafe : IsSafe bytes end skip_reference_type
  unfolding skip_reference_type
  skip_reference_type-IsSafe =
      bind-IsSafe bytes end (byte-IsSafe bytes end)
        λ type. skip_heap_or-IsSafe type tt (refused _ (λ e. cc))

  pub skip_value_type-IsSafe : IsSafe bytes end skip_value_type
  unfolding skip_value_type
  skip_value_type-IsSafe = bind-IsSafe bytes end (byte-IsSafe bytes end) λ type.
      if-IsSafe bytes end _ (pure-IsSafe bytes end tt)
        (skip_heap_or-IsSafe type tt (refused _ (λ e. cc)))

  skip_limits-IsSafe : IsSafe bytes end skip_limits
  unfolding skip_limits
  skip_limits-IsSafe = bind-IsSafe bytes end (byte-IsSafe bytes end) λ flags.
      if-IsSafe bytes end _ (refused _ (λ e. cc)) (
        bind-IsSafe bytes end (read_limit-IsSafe _) λ _.
          if-IsSafe bytes end _
            (bind-IsSafe bytes end (read_limit-IsSafe _) λ _. pure-IsSafe bytes end tt)
            (pure-IsSafe bytes end tt))

  pub skip_import-IsSafe : (kind : ℕ) → IsSafe bytes end (skip_import kind)
  unfolding skip_import
  skip_import-IsSafe kind =
      if-IsSafe bytes end _
        (bind-IsSafe bytes end skip_reference_type-IsSafe λ _. skip_limits-IsSafe)
        (if-IsSafe bytes end _
          (bind-IsSafe bytes end skip_value_type-IsSafe λ _.
            bind-IsSafe bytes end (byte-IsSafe bytes end)
              λ _. if-IsSafe bytes end _ (refused _ (λ e. cc)) (pure-IsSafe bytes end tt))
          (if-IsSafe bytes end _
            (bind-IsSafe bytes end (byte-IsSafe bytes end) λ _.
              if-IsSafe bytes end _ (refused _ (λ e. cc))
                (bind-IsSafe bytes end (u32-IsSafe bytes end) λ _. pure-IsSafe bytes end tt))
            (refused _ (λ e. cc))))

  read_definitions_loop-IsSafe :
      (count : ℕ) (definitions : List WasmMemoryType)
      → IsSafe bytes end (read_definitions_loop count definitions)
  unfolding read_definitions_loop
  read_definitions_loop-IsSafe zero definitions = pure-IsSafe bytes end definitions
  read_definitions_loop-IsSafe (suc count) definitions =
      bind-IsSafe bytes end read_memory_type-IsSafe λ type. read_definitions_loop-IsSafe count _

  read_definitions-IsSafe :
      (definitions : List WasmMemoryType) → IsSafe bytes end (read_definitions definitions)
  unfolding read_definitions
  read_definitions-IsSafe definitions = bind-IsSafe bytes end (u32-IsSafe bytes end) λ count.
      bind-IsSafe bytes end (read_definitions_loop-IsSafe count definitions)
        λ _. bind-IsSafe bytes end (expect_done-IsSafe bytes end) λ _. pure-IsSafe bytes end _

  read_header_loop-IsSafe : (expected : List ℕ) → IsSafe bytes end (read_header_loop expected)
  unfolding read_header_loop
  read_header_loop-IsSafe [] = pure-IsSafe bytes end tt
  read_header_loop-IsSafe (x ∷ expected) =
      bind-IsSafe bytes end (byte-IsSafe bytes end)
        λ b. if-IsSafe bytes end _ (refused _ (λ e. cc)) (read_header_loop-IsSafe expected)

  pub read_header-IsSafe : IsSafe bytes end read_header
  unfolding read_header
  read_header-IsSafe = read_header_loop-IsSafe header

module _ {Text : Type 0} (decode : List ℕ → Option Text) (bytes : List ℕ) where
  read_import-IsSafe :
      (end : ℕ) (imports : List (WasmMemoryImport Text))
      → IsSafe bytes end (read_import decode imports)
  unfolding read_import
  read_import-IsSafe end imports = span-IsSafe bytes end λ module_span m.
      span-IsSafe bytes end λ name_span n. bind-IsSafe bytes end (byte-IsSafe bytes end) λ kind.
        if-IsSafe bytes end _
          (bind-IsSafe bytes end (u32-IsSafe bytes end) λ _. pure-IsSafe bytes end imports)
          (if-IsSafe bytes end _
            (bind-IsSafe bytes end (name_in module_span m) λ _.
              bind-IsSafe bytes end (name_in name_span n) λ _.
                bind-IsSafe bytes end (read_memory_type-IsSafe bytes end)
                  λ _. pure-IsSafe bytes end _)
            (bind-IsSafe bytes end (skip_import-IsSafe bytes end kind)
              λ _. pure-IsSafe bytes end imports))
    where
      name_in :
          (sub : Cursor)
          → IsSub bytes end sub
          → IsSafe bytes end (distro.Wasm.Cursor.within sub (distro.Wasm.Cursor.text decode))
      name_in sub i = within-IsSafe bytes end sub i (text-IsSafe bytes sub.end decode)

  read_imports_loop-IsSafe :
      (end count : ℕ) (imports : List (WasmMemoryImport Text))
      → IsSafe bytes end (read_imports_loop decode count imports)
  unfolding read_imports_loop
  read_imports_loop-IsSafe end zero imports = pure-IsSafe bytes end imports
  read_imports_loop-IsSafe end (suc count) imports =
      bind-IsSafe bytes end (read_import-IsSafe end imports)
        λ imports'. read_imports_loop-IsSafe end count imports'

  read_imports-IsSafe :
      (end : ℕ) (imports : List (WasmMemoryImport Text))
      → IsSafe bytes end (read_imports decode imports)
  unfolding read_imports
  read_imports-IsSafe end imports = bind-IsSafe bytes end (u32-IsSafe bytes end) λ count.
      bind-IsSafe bytes end (read_imports_loop-IsSafe end count imports)
        λ _. bind-IsSafe bytes end (expect_done-IsSafe bytes end) λ _. pure-IsSafe bytes end _

  take_section-IsSafe :
      (end id : ℕ) (p : Progress decode) (section : Cursor)
      → IsSub bytes end section
      → IsSafe bytes end (take_section decode p id section)
  unfolding take_section
  take_section-IsSafe end id p section i =
      if-IsSafe bytes end (id == 2)
        (if-IsSafe bytes end p.saw_imports (refused bytes end duplicate_imports (λ e. cc)) (
          bind-IsSafe bytes end
            (within-IsSafe bytes end section i (read_imports-IsSafe section.end p.memories.imports))
            λ imports. pure-IsSafe bytes end (with_imports decode p imports)))
        (if-IsSafe bytes end (id == 5)
          (if-IsSafe bytes end p.saw_definitions (refused bytes end duplicate_memories (λ e. cc)) (
            bind-IsSafe bytes end
              (within-IsSafe bytes end section i
                (read_definitions-IsSafe bytes section.end p.memories.definitions))
              λ definitions. pure-IsSafe bytes end (with_definitions decode p definitions)))
          (pure-IsSafe bytes end p))

  -- A section begins with its id, so that reading one moves the cursor.
  read_section_moves :
      (end o : ℕ) (p : Progress decode)
      → o ≤ end
      → Holds bytes end (o + 1) (read_section decode p (cursor bytes end o))
  unfolding read_section
  read_section_moves end o p h =
      byte_first bytes end (λ id. span >>= take_section decode p id) o h
        (λ id. span-IsSafe bytes end (λ section i. take_section-IsSafe end id p section i))

  read_sections-Holds :
      (rounds end o : ℕ) (p : Progress decode)
      → o ≤ end
      → end ≤ o + rounds
      → Holds bytes end o (read_sections decode rounds p (cursor bytes end o))
  unfolding read_sections
  read_sections-Holds zero end o p h k =
      let e : o ≡ end = omega arith in
      rw (e, (==_iff end end).1 refl) (end, refl, omega arith, omega arith)
  read_sections-Holds (suc rounds) end o p h k = elim (Bool-cases (o == end)) [
    | inl e ↦ rw e (o, refl, omega arith, h)
    | inr e ↦ rw e (more (read_sections-Holds rounds end) _ (read_section_moves end o p h))
  ]
    where
      more :
          ((o' : ℕ) (p' : Progress decode)
            → o' ≤ end
            → end ≤ o' + rounds
            → Holds bytes end o' (read_sections decode rounds p' (cursor bytes end o')))
          → (r : Outcome (Progress decode)) → Holds bytes end (o + 1) r
          → Holds bytes end o (and_then r (λ p'. read_sections decode rounds p'))
      more again (ok (p', c)) (o', e, l, m) =
          rw e (Holds-widen bytes end o o' _ (omega arith) (again o' p' m (omega arith)))
      more again (throw e) t = t

-- The outcome of reading a module: a failure names a byte of it, and no loop gives up.
abbrev pub IsOutcomeOf : {A : Type 0} → List ℕ → Result WasmParseError A → Type 0
IsOutcomeOf bytes (ok _) = Unit {0}
IsOutcomeOf bytes (throw e) = (e.at ≤ length bytes) × (e.message ≢ out_of_rounds)

IsOutcomeOf-Holds :
    {A : Type 0} (bytes : List ℕ) (r : Outcome A)
    → Holds bytes (length bytes) 0 r
    → IsOutcomeOf bytes (returned r)
IsOutcomeOf-Holds bytes (ok (a, c)) h = tt
IsOutcomeOf-Holds bytes (throw e) h = h

-- On any bytes, and with any text decoder, `read_wasm_memories` ends: it returns memories, or it
-- throws an error of the program's that names an offset inside the module.
pub read_wasm_memories_total :
    {Text : Type 0} (decode : List ℕ → Option Text) (bytes : List ℕ)
    → IsOutcomeOf bytes (read_wasm_memories decode bytes)
unfolding read_wasm_memories
read_wasm_memories_total decode bytes = IsOutcomeOf-Holds bytes _ (
    after (read_header (cursor bytes (length bytes) 0))
      ((read_header-IsSafe bytes (length bytes)).holds 0 (omega arith)))
  where
    start : Progress decode
    start = record {
      memories = record { imports = []; definitions = [] };
      saw_imports = false;
      saw_definitions = false;
    }

    after :
        (r : Outcome (Unit {0}))
        → Holds bytes (length bytes) 0 r
        → Holds bytes (length bytes) 0 (and_then r (λ _. read_sections decode (length bytes) start))
    after (ok (a, c)) (o', e, l, m) = rw e (
        Holds-widen bytes (length bytes) 0 o' _ l
          (read_sections-Holds decode bytes (length bytes) (length bytes) o' start m (omega arith)))
    after (throw e) t = t
