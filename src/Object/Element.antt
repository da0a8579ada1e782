-- ===== src/Object/Element.antt =====
-- The indexed elements as a map from an index to a stored property, which forgets whether they are
-- dense or sparse (crates/starlight/src/vm/indexed_elements.rs).
use js.Common.{ℕ, ◌<◌, ◌≤◌, ◌≡◌, ◌∙◌, arith, bit_and, bit_or, true, false, ◌&&◌, Option, none, some}
use js.Common.{bit, bit-and, bit-or, bit_and-pow, ltb, if◌then◌else◌, map_get}
use js.Attributes.{object_data, invert}
use js.Value.{is_empty}
use js.Property.{StoredSlot, new_raw}
use js.ArrayStorage.Shift
use js.Object.Elements.{
  IndexedElements, SparseArrayMap, dense, writable, max_vector_size, flag_dense,
}

abbrev pub find_in : Option SparseArrayMap → ℕ → Option StoredSlot
find_in none i = none
find_in (some m) i = map_get m i

abbrev pub in_vector : IndexedElements → ℕ → Option StoredSlot
in_vector e i =
    if is_empty (e.vector.data_words i)
    then none
    else some (new_raw (e.vector.data_words i) object_data)

-- The property at an index, as `GetOwnIndexedPropertySlotMethod` finds it.
unfoldable pub element : IndexedElements → ℕ → Option StoredSlot
element e i =
    if dense e && ltb i e.vector.size
    then in_vector e i
    else if ltb i e.length
    then find_in e.map i
    else none

pub record IsValid (e : IndexedElements) : Type 0 where
  pub vector_fits : js.ArrayStorage.Shift.IsValid e.vector
  pub short : e.vector.size ≤ max_vector_size
  -- the vector of sparse elements is empty
  pub cleared :
      (i : ℕ) → dense e ≡ false → i < e.vector.size → is_empty (e.vector.data_words i) ≡ true
  -- the map of dense elements holds what does not fit in a vector
  pub far :
      (i : ℕ) (s : StoredSlot) → dense e ≡ true → find_in e.map i ≡ some s → max_vector_size ≤ i
  pub in_length : (i : ℕ) (s : StoredSlot) → find_in e.map i ≡ some s → i < e.length
  pub vector_in_length :
      (i : ℕ) → i < e.vector.size → is_empty (e.vector.data_words i) ≡ false → i < e.length

pub dense-bit : (e : IndexedElements) → dense e ≡ bit 0 e.flags
unfolding dense
dense-bit e = bit_and-pow 0 e.flags

pub writable-bit : (e : IndexedElements) → writable e ≡ bit 1 e.flags
unfolding writable
writable-bit e = bit_and-pow 1 e.flags

pub not_dense : (f : ℕ) → bit 0 (bit_and f (invert flag_dense)) ≡ false
not_dense f = bit-and 0 f (invert flag_dense) ∙ (unfold bit in ground arith)

pub still_writable : (f : ℕ) → bit 1 (bit_and f (invert flag_dense)) ≡ bit 1 f
still_writable f = bit-and 1 f (invert flag_dense) ∙ (unfold bit in ground arith)

pub made_dense : (f : ℕ) → bit 0 (bit_or f flag_dense) ≡ true
made_dense f = bit-or 0 f flag_dense ∙ (unfold bit in ground arith)
