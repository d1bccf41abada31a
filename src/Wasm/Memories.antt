-- ===== src/Wasm/Memories.antt =====
-- packages/kernel/src/wasm_binary.ts: the import section, the memory section and the module.
use distro.Common.{
  ℕ, zero, suc, Bool, true, false, List, [], ◌∷◌, ◌++◌, Option, Result, ok, throw, ltb, ◌==◌,
  if◌then◌else◌, length, not,
}
use distro.Wasm.Cursor.{
  Cursor, Reader, Outcome, WasmParseError, ◌>>=◌, ◌>>◌, pure, fail, byte, u32, span, text,
  expect_done, within, new, done, invalid_global_mutability, unknown_tag_attribute,
  unknown_import_type, invalid_header, duplicate_imports, duplicate_memories, out_of_rounds,
}
use distro.Wasm.Types.{
  WasmMemoryType, read_memory_type, skip_reference_type, skip_value_type, skip_limits,
}

abbrev pub returned : {A : Type 0} → Outcome A → Result WasmParseError A
returned (ok (a, _)) = ok a
returned (throw e) = throw e

-- A table, a global or a tag: what an import of another kind than a function or a memory says.
unfoldable pub skip_import : ℕ → Reader (Unit {0})
unfolding skip_reference_type skip_limits skip_value_type
skip_import kind =
    if kind == 1
    then (do skip_reference_type; skip_limits)
    else if kind == 3
    then (do
      skip_value_type
      mutability ← byte
      if ltb 1 mutability then fail invalid_global_mutability else pure tt)
    else if kind == 4
    then (do
      attribute ← byte
      if not (attribute == 0) then fail unknown_tag_attribute else (do u32; pure tt))
    else fail unknown_import_type

unfoldable pub read_definitions_loop : ℕ → List WasmMemoryType → Reader (List WasmMemoryType)
unfolding read_memory_type
read_definitions_loop zero definitions = pure definitions
read_definitions_loop (suc count) definitions = do
  type ← read_memory_type
  read_definitions_loop count (definitions ++ type ∷ [])

unfoldable pub read_definitions : List WasmMemoryType → Reader (List WasmMemoryType)
unfolding read_definitions_loop
read_definitions definitions = do
  count ← u32
  definitions' ← read_definitions_loop count definitions
  expect_done
  pure definitions'

unfoldable pub header : List ℕ
header = 0x00 ∷ 0x61 ∷ 0x73 ∷ 0x6d ∷ 0x01 ∷ 0x00 ∷ 0x00 ∷ 0x00 ∷ []

unfoldable pub read_header_loop : List ℕ → Reader (Unit {0})
read_header_loop [] = pure tt
read_header_loop (expected ∷ more) = do
  b ← byte
  if not (b == expected) then fail invalid_header else read_header_loop more

unfoldable pub read_header : Reader (Unit {0})
unfolding read_header_loop header
read_header = read_header_loop header

pub record WasmMemoryImport (Text : Type 0) : Type 0 where
  pub module_name : Text
  pub name : Text
  pub type : WasmMemoryType

pub record WasmMemories (Text : Type 0) : Type 0 where
  pub imports : List (WasmMemoryImport Text)
  pub definitions : List WasmMemoryType

module _ {Text : Type 0} (decode : List ℕ → Option Text) where
  unfoldable pub read_import : List (WasmMemoryImport Text) → Reader (List (WasmMemoryImport Text))
  unfolding span text within read_memory_type skip_import
  read_import imports = do
    module_span ← span
    name_span ← span
    kind ← byte
    if kind == 0
        then (do u32; pure imports)
        else if kind == 2
        then (do
          module_name ← within module_span (text decode)
          name ← within name_span (text decode)
          type ← read_memory_type
          pure (imports ++ record { module_name = module_name; name = name; type = type } ∷ []))
        else (do skip_import kind; pure imports)

  unfoldable pub read_imports_loop :
      ℕ → List (WasmMemoryImport Text) → Reader (List (WasmMemoryImport Text))
  unfolding read_import
  read_imports_loop zero imports = pure imports
  read_imports_loop (suc count) imports = do
    imports' ← read_import imports
    read_imports_loop count imports'

  unfoldable pub read_imports : List (WasmMemoryImport Text) → Reader (List (WasmMemoryImport Text))
  unfolding read_imports_loop expect_done
  read_imports imports = do
    count ← u32
    imports' ← read_imports_loop count imports
    expect_done
    pure imports'

  -- One section: what has been read, and whether the two sections have been seen.
  pub record Progress : Type 0 where
    pub memories : WasmMemories Text
    pub saw_imports : Bool
    pub saw_definitions : Bool

  unfoldable pub with_imports : Progress → List (WasmMemoryImport Text) → Progress
  with_imports p imports = record {
    memories = record { imports = imports; definitions = p.memories.definitions };
    saw_imports = true;
    saw_definitions = p.saw_definitions;
  }

  unfoldable pub with_definitions : Progress → List WasmMemoryType → Progress
  with_definitions p definitions = record {
    memories = record { imports = p.memories.imports; definitions = definitions };
    saw_imports = p.saw_imports;
    saw_definitions = true;
  }

  unfoldable pub take_section : Progress → ℕ → Cursor → Reader Progress
  take_section p id section =
      if id == 2
      then (if p.saw_imports then fail duplicate_imports else (do
        imports ← within section (read_imports p.memories.imports)
        pure (with_imports p imports)))
      else if id == 5
      then (if p.saw_definitions then fail duplicate_memories else (do
        definitions ← within section (read_definitions p.memories.definitions)
        pure (with_definitions p definitions)))
      else pure p

  unfoldable pub read_section : Progress → Reader Progress
  read_section p = do id ← byte; section ← span; take_section p id section

  -- `while (!bytes.done)`, with rounds; a section takes at least two bytes.
  unfoldable pub read_sections : ℕ → Progress → Reader (WasmMemories Text)
  unfolding done
  read_sections zero p c =
      if done c
      then ok (p.memories, c)
      else throw (record { message = out_of_rounds; at = c.offset })
  read_sections (suc rounds) p c =
      let rest = (do p' ← read_section p; read_sections rounds p') in
      if done c then ok (p.memories, c) else rest c

  unfoldable pub read_wasm_memories : List ℕ → Result WasmParseError (WasmMemories Text)
  unfolding new
  read_wasm_memories bytes =
      let start : Progress = record {
        memories = record { imports = []; definitions = [] };
        saw_imports = false;
        saw_definitions = false;
      } in
      let reader : Reader (WasmMemories Text) = (do
        read_header
        read_sections (length bytes) start) in
      returned (reader (new bytes))
