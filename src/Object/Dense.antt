-- ===== src/Object/Dense.antt =====
-- `define_own_indexe_value_dense_internal` (crates/starlight/src/vm/object.rs) on the elements as a map.
use js.Common.{ℕ, ◌+◌, ◌%◌, ◌^◌, ◌<◌, ◌≤◌, ◌≡◌, arith, refl, Bool, true, false, not, ◌&&◌, some}
use js.Common.{ltb, leb, ◌==◌, if◌then◌else◌, Bool-cases, inl, inr}
use js.Value.{JsValue, is_object, encode_undefined_value, encode_empty_value}
use js.ArrayStorage.Memory.{Memory, put, store}
use js.ArrayStorage.Defs.{ArrayStorage, max_elements, set_at, resize}
use js.ArrayStorage.Shift
use js.ArrayStorage.Shift.{shifted, shift_lem}
use js.ArrayStorage.Valid.{shifted-IsValid, shifted-size, resized_words}
use js.Structure.Defs.{is_indexed}
use js.Object.Elements.{IndexedElements, max_vector_size, set_length}
use js.Object.Element.{IsValid}
use js.Object.Defs.{State}
use js.Object.Index.{mark_indexed, with_indexed, put_dense, define_dense}

-- The new structure is all that `mark_indexed` changes.
pub mark_indexed-keeps :
    (s : State)
    → ((mark_indexed s).object.indexed ≡ s.object.indexed)
      × ((mark_indexed s).object.flags ≡ s.object.flags)
      × ((mark_indexed s).object.slots ≡ s.object.slots)
      × ((mark_indexed s).cells ≡ s.cells)
unfolding mark_indexed
mark_indexed-keeps s = elim (Bool-cases (is_indexed (s.heap.structures s.object.structure))) [
  | inl e ↦ rw e (refl, refl, refl, refl)
  | inr e ↦ rw e (refl, refl, refl, refl)
]

abbrev pub stored : JsValue → Bool → JsValue
stored val absent = if absent then encode_undefined_value else val

abbrev written : IndexedElements → ℕ → JsValue → Bool → IndexedElements
written e i val absent = record e {
  non_gc = if absent then e.non_gc else e.non_gc && not (is_object val);
  vector = record e.vector { data_words = put e.vector.data_words i (stored val absent) };
}

put_dense_lem :
    (e : IndexedElements) (i : ℕ) (val : JsValue) (absent : Bool)
    → i < e.vector.size
    → e.vector.size ≤ e.vector.capacity
    → put_dense e i val absent ≡ some (written e i val absent)
unfolding put_dense set_at store
put_dense_lem e i val absent h k =
    let inside : ltb i e.vector.size ≡ true = ground arith in
    let room : ltb i e.vector.capacity ≡ true = ground arith in
    elim (Bool-cases absent) [
      | inl a ↦ rw (a, inside, room) refl
      | inr a ↦ rw (a, inside, room) refl
    ]

-- The elements after a definition at `i`, where the vector is `v`.
abbrev defined : IndexedElements → ArrayStorage → Bool → ℕ → JsValue → Bool → IndexedElements
defined e v non_gc i val absent = record e {
  vector = record v { data_words = put v.data_words i (stored val absent) };
  non_gc = non_gc;
  length = if leb e.length i then (i + 1) % 2 ^ 32 else e.length;
}

-- What `define_dense` leaves: the elements, and a state that differs in the structure only.
pub record IsDefined (s s' : State) (i : ℕ) (val : JsValue) (absent : Bool) : Type 0 where
  pub same_cells : s'.cells ≡ s.cells
  pub same_flags : s'.object.flags ≡ s.object.flags
  pub same_slots : s'.object.slots ≡ s.object.slots
  pub same_map : s'.object.indexed.map ≡ s.object.indexed.map
  pub same_dense : s'.object.indexed.flags ≡ s.object.indexed.flags
  pub fits : js.ArrayStorage.Shift.IsValid s'.object.indexed.vector
  pub size :
      s'.object.indexed.vector.size
      ≡ (if ltb i s.object.indexed.vector.size then s.object.indexed.vector.size else i + 1)
  pub words :
      (j : ℕ)
      → j < s'.object.indexed.vector.size
      → s'.object.indexed.vector.data_words j ≡ (
          if j == i
          then stored val absent
          else if ltb j s.object.indexed.vector.size
          then s.object.indexed.vector.data_words j
          else encode_empty_value)
  pub length :
      s'.object.indexed.length
      ≡ (if leb s.object.indexed.length i then i + 1 else s.object.indexed.length)

define_inside :
    (fresh : Memory) (s : State) (i : ℕ) (val : JsValue) (absent : Bool)
    → IsValid s.object.indexed
    → i < s.object.indexed.vector.size
    → (s' : State) × (define_dense fresh s i val absent ≡ some s') × IsDefined s s' i val absent
unfolding define_dense set_length
define_inside fresh s i val absent v h =
    let e = s.object.indexed in
    let inside : ltb i e.vector.size ≡ true = ground arith in
    let first = put_dense_lem e i val absent h v.vector_fits.size_fits in
    let e1 = written e i val absent in
    let second = put_dense_lem e1 i val absent h v.vector_fits.size_fits in
    let e2 = written e1 i val absent in
    (
      with_indexed (with_indexed s e1)
          (if leb e2.length i then record e2 { length = (i + 1) % 2 ^ 32 } else e2),
      rw (inside, first, second) refl,
      record {
        same_cells = refl;
        same_flags = refl;
        same_slots = refl;
        same_map = ground arith;
        same_dense = ground arith;
        fits = record {
          size_fits = ground (arith, v.vector_fits.size_fits);
          capacity_fits = ground (arith, v.vector_fits.capacity_fits);
        };
        size = ground arith;
        words = λ j l. ground arith;
        length = ground (arith, v.short);
      },
    )

define_outside :
    (fresh : Memory) (s : State) (i : ℕ) (val : JsValue) (absent : Bool)
    → IsValid s.object.indexed
    → s.object.indexed.vector.size ≤ i
    → i < max_vector_size
    → (s' : State) × (define_dense fresh s i val absent ≡ some s') × IsDefined s s' i val absent
unfolding define_dense set_length resize
define_outside fresh s i val absent v h k =
    let (same_indexed, same_flags, same_slots, same_cells) = mark_indexed-keeps s in
    let e = s.object.indexed in
    let marked = mark_indexed s in
    let outside : ltb i e.vector.size ≡ false = ground arith in
    let wraps : (i + 1) % 2 ^ 32 ≡ i + 1 = ground arith in
    let fit : i + 1 ≤ max_elements = ground arith in
    let grown = shifted fresh e.vector 0 0 (i + 1) in
    let moved =
      shift_lem fresh e.vector v.vector_fits 0 0 (i + 1) (omega arith) (omega arith) (omega arith)
        fit in
    let ok = shifted-IsValid fresh e.vector v.vector_fits 0 0 (i + 1) fit in
    let size' = shifted-size fresh e.vector v.vector_fits 0 0 (i + 1) in
    let e1 = record e { vector = grown } in
    let put_lem = put_dense_lem e1 i val absent (ground arith) ok.size_fits in
    let e2 = written e1 i val absent in
    (
      with_indexed (with_indexed marked e1)
          (if leb e2.length i then record e2 { length = (i + 1) % 2 ^ 32 } else e2),
      rw (outside, same_indexed, wraps, moved, put_lem) refl,
      record {
        same_cells = same_cells;
        same_flags = same_flags;
        same_slots = same_slots;
        same_map = ground arith;
        same_dense = ground arith;
        fits = record {
          size_fits = ground (arith, ok.size_fits, size');
          capacity_fits = ground (arith, ok.capacity_fits);
        };
        size = ground (arith, size');
        words = λ j l. ground (arith, resized_words fresh e.vector v.vector_fits (i + 1) j);
        length = ground arith;
      },
    )

-- A definition below the greatest size of a vector succeeds.
pub define_dense_lem :
    (fresh : Memory) (s : State) (i : ℕ) (val : JsValue) (absent : Bool)
    → IsValid s.object.indexed
    → i < max_vector_size
    → (s' : State) × (define_dense fresh s i val absent ≡ some s') × IsDefined s s' i val absent
define_dense_lem fresh s i val absent v h = elim (Bool-cases (ltb i s.object.indexed.vector.size)) [
  | inl e ↦ define_inside fresh s i val absent v (ground arith)
  | inr e ↦ define_outside fresh s i val absent v (ground arith) h
]
