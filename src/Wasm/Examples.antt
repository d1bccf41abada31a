-- ===== src/Wasm/Examples.antt =====
-- packages/kernel/src/wasm_binary.ts: the parser on concrete modules.
use distro.Common.{ℕ, ◌^◌, ◌≡◌, refl, true, false, List, [], ◌∷◌, Option, none, some, ok, arith}
use distro.Wasm.Cursor.{u32, u64}
use distro.Wasm.Types.{WasmMemoryType, i32, i64, read_memory_type}
use distro.Wasm.Memories.{read_wasm_memories, read_definitions}
use distro.Wasm.Span.{cursor}
use distro.Wasm.Leb.{leb128, u32-leb128, u64-leb128}
use distro.Wasm.Safety.{IsOutcomeOf, read_wasm_memories_total}
use distro.Wasm.RoundTrip.{
  write_memory_type, write_definitions, write_module, read_memory_type-write,
  read_definitions-write, write_limit, write_maximum,
}
use distro.Wasm.WholeModule.{read_wasm_memories-write_module}

abbrev decode : List ℕ → Option (List ℕ)
decode bytes = some bytes

-- A shared memory of up to 300 pages, and one with 64-bit addresses and no maximum.
abbrev shared_memory : WasmMemoryType
shared_memory = record { address = i32; minimum = 1; maximum = some 300; shared = true }

abbrev wide_memory : WasmMemoryType
wide_memory = record { address = i64; minimum = 2 ^ 40; maximum = none; shared = false }

abbrev memories : List WasmMemoryType
memories = shared_memory ∷ wide_memory ∷ []

read_wasm_memories-write_module_example :
    read_wasm_memories decode (write_module memories)
    ≡ ok (record { imports = []; definitions = memories })
unfolding write_definitions write_memory_type write_limit write_maximum leb128
read_wasm_memories-write_module_example =
    read_wasm_memories-write_module decode memories (omega arith) (omega arith)
      ((omega arith, omega arith), ((omega arith, tt), tt))

-- A header, and a section whose size runs past the end.
abbrev truncated : List ℕ
truncated = 0 ∷ 97 ∷ 115 ∷ 109 ∷ 1 ∷ 0 ∷ 0 ∷ 0 ∷ 5 ∷ 9 ∷ 1 ∷ []

read_wasm_memories_total_example : IsOutcomeOf truncated (read_wasm_memories decode truncated)
read_wasm_memories_total_example = read_wasm_memories_total decode truncated

-- 300 in two bytes, with another byte behind them.
abbrev three_hundred : List ℕ
three_hundred = 0xac ∷ 0x02 ∷ 9 ∷ []

u32-leb128_example : u32 (cursor three_hundred 3 0) ≡ ok (300, cursor three_hundred 3 2)
unfolding leb128
u32-leb128_example =
    u32-leb128 three_hundred 3 0 300 (record { rest = 9 ∷ []; unread = refl; inside = omega arith })
      (omega arith)

u64-leb128_example : u64 (cursor three_hundred 3 0) ≡ ok (300, cursor three_hundred 3 2)
unfolding leb128
u64-leb128_example =
    u64-leb128 three_hundred 3 0 300 (record { rest = 9 ∷ []; unread = refl; inside = omega arith })
      (omega arith)

-- The flags 3, one page at least and 300 at most.
abbrev limits : List ℕ
limits = 3 ∷ 1 ∷ 0xac ∷ 0x02 ∷ []

read_memory_type-write_example :
    read_memory_type (cursor limits 4 0) ≡ ok (shared_memory, cursor limits 4 4)
unfolding write_memory_type write_limit write_maximum leb128
read_memory_type-write_example =
    read_memory_type-write limits 4 0 shared_memory
      (record { rest = []; unread = refl; inside = omega arith }) (omega arith, omega arith)

read_definitions-write_example :
    read_definitions [] (cursor (1 ∷ limits) 5 0) ≡ ok (shared_memory ∷ [], cursor (1 ∷ limits) 5 5)
unfolding write_definitions write_memory_type write_limit write_maximum leb128
read_definitions-write_example =
    read_definitions-write (1 ∷ limits) 0 (shared_memory ∷ [])
      (record { rest = []; unread = refl; inside = omega arith }) (omega arith)
      ((omega arith, omega arith), tt)
