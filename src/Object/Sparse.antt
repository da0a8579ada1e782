-- ===== src/Object/Sparse.antt =====
-- `make_sparse` (crates/starlight/src/vm/indexed_elements.rs) changes the representation only.
use mathlib.Core.Path.{fun_ext}
use js.Common.{
  ℕ, zero, suc, ap, ◌+◌, ◌≤◌, ◌≡◌, ◌∙◌, arith, refl, bit_and, true, false, not, ◌&&◌, Option, none,
  some, [],
}
use js.Common.{
  ltb, leb, if◌then◌else◌, map_get, map_insert, map_get-map_insert, Option-cases, inl, inr,
}
use js.Attributes.{object_data, invert}
use js.Value.{is_empty, encode_empty_value}
use js.Property.{new_raw}
use js.ArrayStorage.Memory.{Memory, put, load, store}
use js.ArrayStorage.Defs.{ArrayStorage, at, set_at}
use js.ArrayStorage.Loops.{overlay}
use js.Object.Elements.{
  IndexedElements, SparseArrayMap, dense, make_sparse, ensure_map, copy_to_map, clear_vector,
  flag_dense,
}
use js.Object.Element.{element, find_in, IsValid, dense-bit, not_dense}

-- The map after the first loop.
unfoldable pub copied : Memory → ℕ → ℕ → SparseArrayMap → SparseArrayMap
copied words zero i map = map
copied words (suc n) i map =
    copied words n (i + 1)
      (if not (is_empty (words i)) then map_insert map i (new_raw (words i) object_data) else map)

copy_to_map_lem :
    (v : ArrayStorage) (n i : ℕ) (map : SparseArrayMap)
    → i + n ≤ v.size
    → v.size ≤ v.capacity
    → copy_to_map v n i map ≡ some (copied v.data_words n i map)
unfolding copy_to_map copied at load
copy_to_map_lem v zero i map h k = refl
copy_to_map_lem v (suc n) i map h k =
    let inside : ltb i v.size ≡ true = ground arith in
    let room : ltb i v.capacity ≡ true = ground arith in
    rw (inside, room)
      (copy_to_map_lem v n (i + 1)
        (if not (is_empty (v.data_words i))
          then map_insert map i (new_raw (v.data_words i) object_data)
          else map)
        (omega arith) k)

clear_vector_lem :
    (n i : ℕ) (v : ArrayStorage)
    → i + n ≤ v.size
    → v.size ≤ v.capacity
    → clear_vector n i v
      ≡ some (record v { data_words = overlay i n (λ _. encode_empty_value) v.data_words })
unfolding clear_vector set_at store
clear_vector_lem zero i v h k =
    ap (λ (w : Memory). some (record v { data_words = w })) (fun_ext λ j. ground arith)
clear_vector_lem (suc n) i v h k =
    let inside : ltb i v.size ≡ true = ground arith in
    let room : ltb i v.capacity ≡ true = ground arith in
    let ih =
      clear_vector_lem n (i + 1) (record v { data_words = put v.data_words i encode_empty_value })
        (omega arith) k in
    rw (inside, room)
      (ih ∙ ap (λ (w : Memory). some (record v { data_words = w })) (fun_ext λ j. ground arith))

pub map_get-copied :
    (words : Memory) (n i : ℕ) (map : SparseArrayMap) (k : ℕ)
    → map_get (copied words n i map) k ≡ (
        if leb i k && ltb k (i + n) && not (is_empty (words k))
        then some (new_raw (words k) object_data)
        else map_get map k)
unfolding copied
map_get-copied words zero i map k = ground arith
map_get-copied words (suc n) i map k =
    let rest =
      if not (is_empty (words i)) then map_insert map i (new_raw (words i) object_data) else map in
    ground (
      arith,
      map_get-copied words n (i + 1) rest k,
      map_get-map_insert map i k (new_raw (words i) object_data),
    )

abbrev pub map_of : Option SparseArrayMap → SparseArrayMap
map_of none = []
map_of (some m) = m

map_of-get : (m : Option SparseArrayMap) (i : ℕ) → map_get (map_of m) i ≡ find_in m i
unfolding map_get
map_of-get none i = refl
map_of-get (some m) i = refl

-- The elements after `make_sparse`.
abbrev pub made_sparse : IndexedElements → IndexedElements
made_sparse e = record e {
  flags = bit_and e.flags (invert flag_dense);
  map = some (copied e.vector.data_words e.vector.size 0 (map_of e.map));
  vector = record e.vector {
    data_words = overlay 0 e.vector.size (λ _. encode_empty_value) e.vector.data_words;
  };
}

make_sparse_lem : (e : IndexedElements) → IsValid e → make_sparse e ≡ some (made_sparse e)
unfolding make_sparse ensure_map
make_sparse_lem e v = elim (Option-cases e.map) [
  | inl n ↦
      let c = copy_to_map_lem e.vector e.vector.size 0 [] (omega arith) v.vector_fits.size_fits in
      let w = clear_vector_lem e.vector.size 0 e.vector (omega arith) v.vector_fits.size_fits in
      rw (n, c, w) refl
  | inr (m, x) ↦
      let c = copy_to_map_lem e.vector e.vector.size 0 m (omega arith) v.vector_fits.size_fits in
      let w = clear_vector_lem e.vector.size 0 e.vector (omega arith) v.vector_fits.size_fits in
      rw (x, c, w) refl
]

pub found_made_sparse :
    (e : IndexedElements) (i : ℕ)
    → find_in (made_sparse e).map i ≡ (
        if ltb i e.vector.size && not (is_empty (e.vector.data_words i))
        then some (new_raw (e.vector.data_words i) object_data)
        else find_in e.map i)
found_made_sparse e i =
    ground (
      arith,
      map_get-copied e.vector.data_words e.vector.size 0 (map_of e.map) i,
      map_of-get e.map i,
    )

made_sparse-dense : (e : IndexedElements) → dense (made_sparse e) ≡ false
made_sparse-dense e = dense-bit (made_sparse e) ∙ not_dense e.flags

made_sparse-IsValid : (e : IndexedElements) → IsValid e → IsValid (made_sparse e)
unfolding is_empty
made_sparse-IsValid e v =
    let d = made_sparse-dense e in
    record {
      vector_fits = record {
        size_fits = v.vector_fits.size_fits;
        capacity_fits = v.vector_fits.capacity_fits;
      };
      short = v.short;
      cleared = λ i _ l. ground arith;
      far = λ i s x f. absurd (ground arith);
      in_length =
          λ i s f. ground (arith, found_made_sparse e i, v.in_length i s, v.vector_in_length i);
      vector_in_length = λ i l f. absurd (ground arith);
    }

-- `make_sparse` of valid elements succeeds, keeps the invariant, and leaves sparse elements with the same
-- property at every index.
pub make_sparse_keeps :
    (e : IndexedElements)
    → IsValid e
    → (e' : IndexedElements) × (make_sparse e ≡ some e')
      × IsValid e'
      × (dense e' ≡ false)
      × ((i : ℕ) → element e' i ≡ element e i)
unfolding element
make_sparse_keeps e v = (
  made_sparse e,
  make_sparse_lem e v,
  made_sparse-IsValid e v,
  made_sparse-dense e,
  λ i. elim (Option-cases (find_in e.map i)) [
    | inl n ↦
        ground
          (arith, made_sparse-dense e, found_made_sparse e i, v.vector_in_length i, v.cleared i)
    | inr (s, f) ↦ ground (
      arith,
      made_sparse-dense e,
      found_made_sparse e i,
      v.vector_in_length i,
      v.cleared i,
      v.far i s,
      v.short,
    )
  ],
)
