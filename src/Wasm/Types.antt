-- ===== src/Wasm/Types.antt =====
-- packages/kernel/src/wasm_binary.ts: memory types, and the readers that skip other types.
use distro.Common.{
  ℕ, Bool, true, false, ◌&&◌, ◌||◌, Option, none, some, ltb, leb, ◌==◌, if◌then◌else◌,
}
use distro.Wasm.Cursor.{
  Reader, ◌>>=◌, ◌>>◌, pure, fail, byte, u32, u64, signed33, has_bit, unknown_memory_flags,
  unknown_limits_flags, invalid_reference_type, invalid_value_type,
}

pub data Address : Type 0 where
  i32 i64 : Address

pub record WasmMemoryType : Type 0 where
  pub address : Address
  pub minimum : ℕ
  pub maximum : Option ℕ
  pub shared : Bool

unfoldable pub read_limit : Address → Reader ℕ
unfolding u32 u64
read_limit i32 = u32
read_limit i64 = u64

unfoldable pub read_maximum : Bool → Address → Reader (Option ℕ)
unfolding read_limit
read_maximum true address = do n ← read_limit address; pure (some n)
read_maximum false address = pure none

unfoldable pub read_memory_type : Reader WasmMemoryType
unfolding read_limit read_maximum
read_memory_type = do
  flags ← byte
  let address = if has_bit flags 2 then i64 else i32
  if ltb 7 flags then fail unknown_memory_flags else (do
    minimum ← read_limit address
    maximum ← read_maximum (has_bit flags 0) address
    pure (record {
      address = address;
      minimum = minimum;
      maximum = maximum;
      shared = has_bit flags 1;
    }))

-- The types that a heap type follows, `(ref null ht)` and `(ref ht)`, and the shorthands.
unfoldable pub skip_heap_or : {A : Type 0} → ℕ → A → Reader A → Reader A
skip_heap_or type a refuse =
    if type == 0x63 || type == 0x64
    then (do first ← byte; signed33 first; pure a)
    else if ltb type 0x69 || ltb 0x74 type
    then refuse
    else pure a

unfoldable pub skip_reference_type : Reader (Unit {0})
unfolding skip_heap_or
skip_reference_type = do type ← byte; skip_heap_or type tt (fail invalid_reference_type)

unfoldable pub skip_value_type : Reader (Unit {0})
unfolding skip_heap_or
skip_value_type = do
  type ← byte
  if leb 0x7b type && leb type 0x7f then pure tt else skip_heap_or type tt (fail invalid_value_type)

-- `flags & ~0x05`: any bit but 0 and 2.
unfoldable pub skip_limits : Reader (Unit {0})
unfolding read_limit
skip_limits = do
  flags ← byte
  let address = if has_bit flags 2 then i64 else i32
  if ltb 7 flags || has_bit flags 1 then fail unknown_limits_flags else (do
    read_limit address
    if has_bit flags 0 then (do read_limit address; pure tt) else pure tt)
