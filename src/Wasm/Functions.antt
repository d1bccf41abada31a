-- ===== src/Wasm/Functions.antt =====
-- packages/kernel/src/wasm_binary.ts: the types of function imports.
use distro.Common.{
  ℕ, zero, suc, Bool, false, ◌||◌, List, [], ◌∷◌, ◌++◌, Option, none, some, Result, ok, throw, ltb,
  ◌==◌, if◌then◌else◌, length, get_elem?,
}
use distro.Wasm.Cursor.{
  Cursor, Reader, WasmParseError, Message, ◌>>=◌, ◌>>◌, pure, fail, byte, u32, span, text, view,
  expect_done, within, new, done, invalid_value_type, out_of_rounds,
}
use distro.Wasm.Types.{skip_heap_or, read_memory_type}
use distro.Wasm.Memories.{read_header, skip_import, returned}

-- A value type as `read_value_type` names it; a reference is "ref".
pub data ValueType : Type 0 where
  i32 i64 f32 f64 v128 ref : ValueType

-- The signature "i64,i64->i32" as its two lists; `none` for an aggregate type.
pub record FunctionType : Type 0 where
  pub params : List ValueType
  pub results : List ValueType

unfoldable pub value_type_names : ℕ → Option ValueType
value_type_names type =
    if type == 0x7f
    then some i32
    else if type == 0x7e
    then some i64
    else if type == 0x7d
    then some f32
    else if type == 0x7c
    then some f64
    else if type == 0x7b
    then some v128
    else none

unfoldable pub read_value_type : Reader ValueType
unfolding value_type_names skip_heap_or
read_value_type = do
  type ← byte
  elim (value_type_names type) [
    | some name ↦ pure name
    | none ↦ skip_heap_or type ref (fail invalid_value_type)
  ]

-- `bytes.view()[0] === b`, false at the end of the cursor.
unfoldable pub peeks : ℕ → Cursor → Bool
unfolding view
peeks b c = elim (view c) [ [] ↦ false | x ∷ _ ↦ x == b ]

unfoldable pub read_storage_type : Reader (Unit {0})
unfolding read_value_type peeks
read_storage_type = do
  λ c. if peeks 0x78 c || peeks 0x77 c then (byte >> pure tt) c else (read_value_type >> pure tt) c
  mutability ← byte
  if ltb 1 mutability then fail Message.invalid_field_mutability else pure tt

unfoldable pub read_value_types : ℕ → Reader (List ValueType)
unfolding read_value_type
read_value_types zero = pure []
read_value_types (suc count) = do
  type ← read_value_type
  types ← read_value_types count
  pure (type ∷ types)

unfoldable pub read_storage_types : ℕ → Reader (Unit {0})
unfolding read_storage_type
read_storage_types zero = pure tt
read_storage_types (suc count) = do read_storage_type; read_storage_types count

unfoldable pub read_composite_type : Reader (Option FunctionType)
unfolding read_value_types read_storage_types read_storage_type
read_composite_type = do
  form ← byte
  if form == 0x60
      then (do
        param_count ← u32
        params ← read_value_types param_count
        result_count ← u32
        results ← read_value_types result_count
        pure (some (record { params = params; results = results })))
      else if form == 0x5f
      then (do count ← u32; read_storage_types count; pure none)
      else if form == 0x5e
      then (do read_storage_type; pure none)
      else fail Message.unknown_composite_type

unfoldable pub skip_u32s : ℕ → Reader (Unit {0})
skip_u32s zero = pure tt
skip_u32s (suc count) = do u32; skip_u32s count

unfoldable pub read_sub_type : List (Option FunctionType) → Reader (List (Option FunctionType))
unfolding peeks skip_u32s read_composite_type
read_sub_type types = do
  λ c.
      if peeks 0x50 c || peeks 0x4f c
      then (do byte; supertypes ← u32; skip_u32s supertypes) c
      else pure tt c
  type ← read_composite_type
  pure (types ++ type ∷ [])

unfoldable pub read_sub_types : ℕ → List (Option FunctionType) → Reader (List (Option FunctionType))
unfolding read_sub_type
read_sub_types zero types = pure types
read_sub_types (suc count) types = do types' ← read_sub_type types; read_sub_types count types'

-- One entry of the type section: a recursion group, or a type by itself.
unfoldable pub read_type_entry : List (Option FunctionType) → Reader (List (Option FunctionType))
unfolding read_sub_types read_sub_type peeks
read_type_entry types c =
    if peeks 0x4e c
    then (do byte; members ← u32; read_sub_types members types) c
    else read_sub_type types c

unfoldable pub read_types_loop :
    ℕ → List (Option FunctionType) → Reader (List (Option FunctionType))
unfolding read_type_entry
read_types_loop zero types = pure types
read_types_loop (suc count) types = do types' ← read_type_entry types; read_types_loop count types'

unfoldable pub read_types : List (Option FunctionType) → Reader (List (Option FunctionType))
unfolding read_types_loop expect_done
read_types types = do count ← u32; types' ← read_types_loop count types; expect_done; pure types'

-- `types[index] ?? null`.
unfoldable pub type_at : List (Option FunctionType) → ℕ → Option FunctionType
type_at types index = elim (get_elem? types index) [ some t ↦ t | none ↦ none ]

pub record WasmFunctionImport (Text : Type 0) : Type 0 where
  pub module_name : Text
  pub name : Text
  pub type : Option FunctionType

module _ {Text : Type 0} (decode : List ℕ → Option Text) where
  unfoldable pub read_function_import :
      List (Option FunctionType)
      → List (WasmFunctionImport Text)
      → Reader (List (WasmFunctionImport Text))
  unfolding span text within skip_import type_at read_memory_type
  read_function_import types imports = do
    module_span ← span
    module_name ← within module_span (text decode)
    name_span ← span
    name ← within name_span (text decode)
    kind ← byte
    if kind == 0
        then (do
          index ← u32
          pure (
              imports
              ++ record { module_name = module_name; name = name; type = type_at types index }
                ∷ []))
        else if kind == 2
        then (do read_memory_type; pure imports)
        else (do skip_import kind; pure imports)

  unfoldable pub read_function_imports :
      ℕ
      → List (Option FunctionType)
      → List (WasmFunctionImport Text)
      → Reader (List (WasmFunctionImport Text))
  unfolding read_function_import
  read_function_imports zero types imports = pure imports
  read_function_imports (suc count) types imports = do
    imports' ← read_function_import types imports
    read_function_imports count types imports'

  -- What a section gives: the types so far, or the imports, after which the loop breaks.
  unfoldable pub read_function_section :
      List (Option FunctionType)
      → Reader (Result (List (WasmFunctionImport Text)) (List (Option FunctionType)))
  unfolding span within read_types read_function_imports
  read_function_section types = do
    id ← byte
    section ← span
    if id == 1
        then (do types' ← within section (read_types types); pure (ok types'))
        else if id == 2
        then (do
          imports ← within section (do
            count ← u32
            imports ← read_function_imports count types []
            expect_done
            pure imports)
          pure (throw imports))
        else pure (ok types)

  unfoldable pub read_function_sections :
      ℕ → List (Option FunctionType) → Reader (List (WasmFunctionImport Text))
  unfolding read_function_section done
  read_function_sections zero types c =
      if done c then ok ([], c) else throw (record { message = out_of_rounds; at = c.offset })
  read_function_sections (suc rounds) types c =
      let rest = (do
        outcome ← read_function_section types
        elim outcome [
          | throw imports ↦ pure imports
          | ok types' ↦ read_function_sections rounds types'
        ]) in
      if done c then ok ([], c) else rest c

  unfoldable pub read_wasm_function_imports :
      List ℕ → Result WasmParseError (List (WasmFunctionImport Text))
  unfolding new
  read_wasm_function_imports bytes =
      let reader : Reader (List (WasmFunctionImport Text)) = (do
        read_header
        read_function_sections (length bytes) []) in
      returned (reader (new bytes))
