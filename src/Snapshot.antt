-- ===== src/Snapshot.antt =====
-- The bytes of a heap snapshot: crates/starlight/src/gc/snapshot/serializer.rs and
-- crates/starlight/src/gc/snapshot/deserializer.rs. A `Format` is the `serialize` of a type, which appends to the
-- output, and its `deserialize_inplace`, which reads from a position on. What both only read, the maps of
-- references and symbols, are the records `Serializer` and `Deserializer`. `none` is a failed
-- `unwrap`, a failed assertion, or a read outside the bytes.
pub mod Cells
pub mod Bytes
pub mod Copied
pub mod Values
pub mod Sequences
pub mod Classes
pub mod Images
pub mod RoundTrip
pub mod Deleted
mod Tests
use js.Common.{
  ℕ, zero, suc, ◌+◌, ◌*◌, ◌/◌, ◌%◌, ◌^◌, Bool, true, false, Option, none, some, List, [], ◌∷◌, ◌++◌,
}
use js.Common.{◌==◌, ltb, if◌then◌else◌, length, get_elem?, ◌>>=◌}

-- `vm::symbol_table::Symbol`; a `SymbolID` is a number.
pub data Symbol : Type 0 where
  key private index : ℕ → Symbol

abbrev pub public_start : ℕ
public_start = 128

-- `to_le_bytes` of an integer of `n` bytes.
unfoldable pub to_le_bytes : ℕ → ℕ → List ℕ
to_le_bytes zero v = []
to_le_bytes (suc n) v = v % 256 ∷ to_le_bytes n (v / 256)

unfoldable pub from_le_bytes : List ℕ → ℕ
from_le_bytes [] = 0
from_le_bytes (b ∷ bs) = b + 256 * from_le_bytes bs

pub record Serializer : Type 0 where
  pub reference_map : List ℕ
  -- the identifiers of keys with their indices
  pub symbol_map : List (ℕ × ℕ)

pub record Deserializer : Type 0 where
  pub reader : List ℕ
  pub references : List ℕ
  pub symbols : List Symbol

unfoldable pub write_u8 : List ℕ → ℕ → List ℕ
write_u8 output val = output ++ to_le_bytes 1 val

unfoldable pub write_u32 : List ℕ → ℕ → List ℕ
write_u32 output val = output ++ to_le_bytes 4 val

unfoldable pub write_u64 : List ℕ → ℕ → List ℕ
write_u64 output val = output ++ to_le_bytes 8 val

-- The index of the first reference that is `p`.
unfoldable pub position : List ℕ → ℕ → Option ℕ
position [] p = none
position (q ∷ qs) p =
    let rest : Option ℕ = elim (position qs p) [ none ↦ none | some i ↦ some (suc i) ] in
    if q == p then some 0 else rest

unfoldable pub symbol_index : List (ℕ × ℕ) → ℕ → Option ℕ
symbol_index [] id = none
symbol_index ((k, i) ∷ rest) id =
    let later = symbol_index rest id in if k == id then some i else later

-- The reads of `n` bytes from the position `pc` on.
unfoldable pub get_bytes : List ℕ → ℕ → ℕ → Option (List ℕ)
get_bytes reader zero pc = some []
get_bytes reader (suc n) pc = do
  b ← get_elem? reader pc
  bs ← get_bytes reader n (pc + 1)
  some (b ∷ bs)

pub record Format (A : Type 0) : Type 0 where
  pub serialize : List ℕ → A → Option (List ℕ)
  pub deserialize_inplace : ℕ → Option (A × ℕ)

module _ (serializer : Serializer) where
  unfoldable pub get_gcpointer : ℕ → Option ℕ
  get_gcpointer at = do i ← position serializer.reference_map at; some (i % 2 ^ 32)

  unfoldable pub write_gcpointer : List ℕ → ℕ → Option (List ℕ)
  write_gcpointer output at = do reference ← get_gcpointer at; some (write_u32 output reference)

  unfoldable pub write_symbol : List ℕ → Symbol → Option (List ℕ)
  write_symbol output (index i) = some (write_u32 (write_u8 output 0xff) i)
  write_symbol output (key id) =
      let later =
        symbol_index serializer.symbol_map id
        >>= (λ i. some (write_u32 (write_u8 output 0x2f) i)) in
      if ltb id public_start then some (write_u32 (write_u8 output 0x1f) id) else later
  write_symbol output (private id) = do
    i ← symbol_index serializer.symbol_map id
    some (write_u32 (write_u8 output 0x3f) i)

-- `Symbol::private`
unfoldable pub to_private : Symbol → Option Symbol
to_private (key id) = some (private id)
to_private (private id) = none
to_private (index i) = none

module _ (deserializer : Deserializer) where
  unfoldable pub get_u8 : ℕ → Option (ℕ × ℕ)
  get_u8 pc = do b ← get_elem? deserializer.reader pc; some (b, pc + 1)

  unfoldable pub get_u32 : ℕ → Option (ℕ × ℕ)
  get_u32 pc = do buf ← get_bytes deserializer.reader 4 pc; some (from_le_bytes buf, pc + 4)

  unfoldable pub get_u64 : ℕ → Option (ℕ × ℕ)
  get_u64 pc = do buf ← get_bytes deserializer.reader 8 pc; some (from_le_bytes buf, pc + 8)

  unfoldable pub get_reference : ℕ → Option (ℕ × ℕ)
  get_reference pc = do
    (i, pc') ← get_u32 pc
    p ← get_elem? deserializer.references i
    some (p, pc')

  -- The symbol of the type `ty` with the number `i`.
  unfoldable pub symbol_of : ℕ → ℕ → Option Symbol
  symbol_of ty i =
      let known = get_elem? deserializer.symbols i in
      if ty == 0xff
      then some (index i)
      else if ty == 0x1f
      then some (key i)
      else if ty == 0x2f
      then known
      else if ty == 0x3f
      then known >>= to_private
      else none

  unfoldable pub get_symbol : ℕ → Option (Symbol × ℕ)
  get_symbol pc = do
    (ty, pc') ← get_u8 pc
    (i, pc2) ← get_u32 pc'
    s ← symbol_of ty i
    some (s, pc2)
