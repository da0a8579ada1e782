-- ===== src/Object/Elements.antt =====
-- The indexed elements of an object: crates/starlight/src/vm/indexed_elements.rs.
-- Dense elements stand in the vector, sparse ones in the map. The map belongs to one object, so the
-- pointer to it is left out. `none` is a failed assertion of `at` or `at_mut`.
use js.Common.{
  ℕ, zero, suc, ◌+◌, ◌*◌, ◌^◌, bit_and, bit_or, Bool, true, not, Option, none, some, List, [],
}
use js.Common.{◌==◌, if◌then◌else◌, ◌>>=◌, map_insert}
use js.Attributes.{invert, object_data}
use js.Value.{is_empty, encode_empty_value}
use js.Property.{StoredSlot, new_raw}
use js.ArrayStorage.Memory.{Memory}
use js.ArrayStorage.Defs
use js.ArrayStorage.Defs.{ArrayStorage, at, set_at}

abbrev pub flag_dense : ℕ
flag_dense = 1

abbrev pub flag_writable : ℕ
flag_writable = 2

abbrev pub max_vector_size : ℕ
max_vector_size = 1024 * 2 ^ 6

-- `HashMap<u32, StoredSlot>`
abbrev pub SparseArrayMap : Type 0
SparseArrayMap = List (ℕ × StoredSlot)

pub record IndexedElements : Type 0 where
  pub map : Option SparseArrayMap
  pub vector : ArrayStorage
  pub length : ℕ
  pub flags : ℕ
  pub non_gc : Bool

unfoldable pub dense : IndexedElements → Bool
dense e = not (bit_and e.flags flag_dense == 0)

unfoldable pub sparse : IndexedElements → Bool
sparse e = not (dense e)

unfoldable pub writable : IndexedElements → Bool
writable e = not (bit_and e.flags flag_writable == 0)

unfoldable pub make_readonly : IndexedElements → IndexedElements
make_readonly e = record e { flags = bit_and e.flags (invert flag_writable) }

unfoldable pub make_dense : IndexedElements → IndexedElements
make_dense e = record e { flags = bit_or e.flags flag_dense; map = none }

unfoldable pub set_length : IndexedElements → ℕ → IndexedElements
set_length e len = record e { length = len }

-- The elements with a map, and that map.
unfoldable pub ensure_map : IndexedElements → IndexedElements × SparseArrayMap
ensure_map e = elim e.map [ none ↦ (record e { map = some [] }, []) | some map ↦ (e, map) ]

-- The first loop of `make_sparse`, from index `i` on, with `n` indices left.
unfoldable pub copy_to_map : ArrayStorage → ℕ → ℕ → SparseArrayMap → Option SparseArrayMap
copy_to_map vector zero i map = some map
copy_to_map vector (suc n) i map = do
  value ← at vector i
  copy_to_map vector n (i + 1)
      (if not (is_empty value) then map_insert map i (new_raw value object_data) else map)

-- The second loop.
unfoldable pub clear_vector : ℕ → ℕ → ArrayStorage → Option ArrayStorage
clear_vector zero i vector = some vector
clear_vector (suc n) i vector = do
  vector' ← set_at vector i encode_empty_value
  clear_vector n (i + 1) vector'

unfoldable pub make_sparse : IndexedElements → Option IndexedElements
make_sparse e = do
  let (e', map) = ensure_map (record e { flags = bit_and e.flags (invert flag_dense) })
  map' ← copy_to_map e'.vector e'.vector.size 0 map
  vector' ← clear_vector e'.vector.size 0 e'.vector
  some (record e' { map = some map'; vector = vector' })

-- `IndexedElements::new`; `fresh` is what a new allocation holds.
unfoldable pub new : Memory → IndexedElements
new fresh = record {
  length = 0;
  flags = bit_or flag_dense flag_writable;
  vector = js.ArrayStorage.Defs.new fresh 0;
  map = none;
  non_gc = true;
}
