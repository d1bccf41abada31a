-- ===== src/Wasm/Cursor.antt =====
-- packages/kernel/src/wasm_binary.ts, the class Cursor. A method takes the cursor and returns it
-- moved on, with its result; a failure carries the offset that the message names.
use distro.Common.{
  ℕ, zero, suc, ◌+◌, ◌-◌, ◌*◌, ◌/◌, ◌%◌, ◌^◌, Bool, ◌&&◌, List, Result, ok, throw, Option, none,
  some, ltb, leb, ◌==◌, if◌then◌else◌, get_or, take, drop, length, not,
}
use Prim.Native.Nat.{bit_and, bit_xor}

-- The messages of `WasmParseError`. `out_of_rounds` is none of the program's: a loop of the model
-- ran out of its rounds.
pub data Message : Type 0 where
  unexpected_end leb_overflows leb_too_long s33_overflows s33_too_long : Message
  span_too_long bad_name trailing_bytes unknown_memory_flags unknown_limits_flags : Message
  invalid_reference_type invalid_value_type invalid_global_mutability : Message
  unknown_tag_attribute unknown_import_type invalid_header : Message
  duplicate_imports duplicate_memories invalid_field_mutability unknown_composite_type : Message
  out_of_rounds : Message

pub record WasmParseError : Type 0 where
  pub message : Message
  pub at : ℕ

pub record Cursor : Type 0 where
  pub bytes : List ℕ
  pub offset : ℕ
  pub end : ℕ

abbrev pub Outcome : Type 0 → Type 0
Outcome A = Result WasmParseError (A × Cursor)

abbrev pub Reader : Type 0 → Type 0
Reader A = Cursor → Outcome A

abbrev pub and_then : {A B : Type 0} → Outcome A → (A → Reader B) → Outcome B
and_then (ok (a, c)) f = f a c
and_then (throw e) f = throw e

infixl 5 ◌>>=◌ ◌>>◌
abbrev pub ◌>>=◌ : {A B : Type 0} → Reader A → (A → Reader B) → Reader B
◌>>=◌ m f c = and_then (m c) f

abbrev pub ◌>>◌ : {A B : Type 0} → Reader A → Reader B → Reader B
m >> k = m >>= λ _. k

abbrev pub pure : {A : Type 0} → A → Reader A
pure a c = ok (a, c)

-- `new Cursor(bytes)`.
unfoldable pub new : List ℕ → Cursor
new bytes = record { bytes = bytes; offset = 0; end = length bytes }

unfoldable pub done : Cursor → Bool
done c = c.offset == c.end

unfoldable pub fail : {A : Type 0} → Message → Reader A
fail m c = throw (record { message = m; at = c.offset })

unfoldable pub byte : Reader ℕ
unfolding fail
byte c =
    if c.offset == c.end
    then fail unexpected_end c
    else ok (get_or c.bytes c.offset 0, record c { offset = c.offset + 1 })

-- Bit `k` of `x`: `x & (1 << k)`.
abbrev pub has_bit : ℕ → ℕ → Bool
has_bit x k = x / 2 ^ k % 2 == 1

-- The rounds of `#unsigned` that are left. Round `i` adds bits 7i to 7i + 6, which `value` lacks, so
-- that `|=` is a sum.
unfoldable pub unsigned_loop : ℕ → ℕ → ℕ → ℕ → Reader ℕ
unsigned_loop zero bits i value = fail leb_too_long
unsigned_loop (suc rounds) bits i value = do
  b ← byte
  let payload = b % 128
  let remaining = bits - i * 7
  let next = value + payload * 2 ^ (i * 7)
  if ltb remaining 7 && leb (2 ^ remaining) payload
      then fail leb_overflows
      else if has_bit b 7
      then unsigned_loop rounds bits (i + 1) next
      else pure next

-- Rounds: the bits divided by 7, rounded up.
unfoldable pub unsigned : ℕ → Reader ℕ
unfolding unsigned_loop
unsigned bits = unsigned_loop ((bits + 6) / 7) bits 0 0

unfoldable pub u32 : Reader ℕ
unfolding unsigned
u32 = unsigned 32

unfoldable pub u64 : Reader ℕ
unfolding unsigned
u64 = unsigned 64

-- Whether the last byte's payload extends the sign of its `remaining` bits.
unfoldable pub extends_sign : ℕ → ℕ → Bool
extends_sign payload remaining =
    let unused = bit_xor 0x7f (2 ^ remaining - 1) in
    let extension = if bit_and payload (2 ^ (remaining - 1)) == 0 then 0 else unused in
    bit_and payload unused == extension

unfoldable pub signed33_loop : ℕ → ℕ → ℕ → Reader (Unit {0})
unfolding extends_sign
signed33_loop zero i b = pure tt
signed33_loop (suc rounds) i b =
    let payload = b % 128 in
    let remaining = 33 - i * 7 in
    let rest = (do b' ← byte; signed33_loop rounds (i + 1) b') in
    if not (has_bit b 7)
    then (if ltb remaining 7 && not (extends_sign payload remaining)
        then fail s33_overflows
        else pure tt)
    else if i == 4
    then fail s33_too_long
    else rest

unfoldable pub signed33 : ℕ → Reader (Unit {0})
unfolding signed33_loop
signed33 first = signed33_loop 5 0 first

-- The cursor over the next `length` bytes; this one moves past them.
unfoldable pub span : Reader Cursor
unfolding u32
span = do
  n ← u32
  λ c.
      if ltb c.end (c.offset + n)
      then fail span_too_long c
      else ok (record c { end = c.offset + n }, record c { offset = c.offset + n })

unfoldable pub view : Cursor → List ℕ
view c = take (c.end - c.offset) (drop c.offset c.bytes)

-- `text_decoder.decode` is the platform's: the UTF-8 decoder, `none` where it throws.
module _ {Text : Type 0} (decode : List ℕ → Option Text) where
  unfoldable pub text : Reader Text
  unfolding view fail
  text c = elim (decode (view c)) [ none ↦ fail bad_name c | some t ↦ ok (t, c) ]

unfoldable pub expect_done : Reader (Unit {0})
unfolding done
expect_done c = if done c then ok (tt, c) else fail trailing_bytes c

-- A read by another cursor, such as a section's. Cursors share nothing but the module's bytes.
unfoldable pub within : {A : Type 0} → Cursor → Reader A → Reader A
within sub p c = elim (p sub) [ ok (a, _) ↦ ok (a, c) | throw e ↦ throw e ]
