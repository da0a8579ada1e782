-- ===== src/SizeClasses/Table.antt =====
-- The table of size classes (crates/starlight/src/gc/allocation.rs) gives each size a cell that it fits in.
use js.Common.{
  ℕ, zero, suc, ◌+◌, ◌-◌, ◌*◌, ◌/◌, ◌%◌, ◌<◌, ◌≤◌, ◌≡◌, ◌∙◌, arith, refl, true, ◌&&◌, some, List,
  [], ◌∷◌,
}
use js.Common.{ap, ltb, leb, ◌==◌, if◌then◌else◌, Bool-cases, inl, inr}
use native.Mathlib.Nat.{mul_comm, mul-le-mul_left, div-mul-le_self, le-div_iff_mul-le}
use js.SizeClasses.{
  round_up_to_step, better_size_class, size_class_to_index, index_to_size_class, fill_entries,
  fill_defaults, build_size_class_table, initialize_size_class_for_step_size,
}

-- The least class with cells for a multiple of the step, if the classes go up; where there is none, the size itself.
unfoldable pub class_for : List ℕ → ℕ → ℕ
class_for [] i = index_to_size_class i
class_for (sz ∷ classes) i = if leb i (size_class_to_index sz) then sz else class_for classes i

-- The classes go up, from an index on, and are multiples of the step below the size of the table.
pub data IsAscending (size : ℕ) : ℕ → List ℕ → Type 0 where
  done : {i : ℕ} → IsAscending size i []
  next :
      {i sz : ℕ} {classes : List ℕ}
      → sz % 16 ≡ 0
      → i ≤ size_class_to_index sz
      → size_class_to_index sz < size
      → IsAscending size (size_class_to_index sz + 1) classes
      → IsAscending size i (sz ∷ classes)

fill_entries_lem :
    (size n i entry : ℕ) (table : ℕ → ℕ)
    → i + n ≤ size
    → (t : ℕ → ℕ) × (fill_entries size n i entry table ≡ some t)
      × ((j : ℕ) → t j ≡ (if leb i j && ltb j (i + n) then entry else table j))
unfolding fill_entries
fill_entries_lem size zero i entry table h = (table, refl, λ j. ground arith)
fill_entries_lem size (suc n) i entry table h =
    let (t, e, f) =
      fill_entries_lem size n (i + 1) entry (λ j. if j == i then entry else table j)
        (omega arith) in
    let inside : ltb i size ≡ true = ground arith in
    (t, rw (inside, e) refl, λ j. ground (arith, f j))

fill_defaults_lem :
    (n i : ℕ) (table : ℕ → ℕ) (j : ℕ)
    → fill_defaults n i (λ sz. sz) table j
      ≡ (if leb i j && ltb j (i + n) then index_to_size_class j else table j)
unfolding fill_defaults
fill_defaults_lem zero i table j = ground arith
fill_defaults_lem (suc n) i table j =
    let ih =
      fill_defaults_lem n (i + 1) (λ k. if k == i then index_to_size_class i else table k) j in
    elim (Bool-cases (j == i)) [
      | inl e ↦
          let same : j ≡ i = ground arith in
          let cls : index_to_size_class j ≡ index_to_size_class i = ap index_to_size_class same in
          ground arith
      | inr e ↦ ground arith
    ]

built :
    (size : ℕ) (classes : List ℕ) (i : ℕ) (table : ℕ → ℕ)
    → IsAscending size i classes
    → i ≤ size
    → (t : ℕ → ℕ) × (build_size_class_table size (λ sz. sz) (λ sz. sz) classes i table ≡ some t)
      × ((j : ℕ) → j < size → t j ≡ (if leb i j then class_for classes j else table j))
unfolding build_size_class_table class_for
built size [] i table done h = (
  fill_defaults (size - i) i (λ sz. sz) table,
  refl,
  λ j l. ground (arith, fill_defaults_lem (size - i) i table j),
)
built size (sz ∷ classes) i table (next m a b c) h =
    let index = size_class_to_index sz in
    let (t1, e, f) = fill_entries_lem size (index + 1 - i) i sz table (omega arith) in
    let (t, e', f') = built size classes (index + 1) t1 c (omega arith) in
    (t, rw e e', λ j l. ground (arith, f j, f' j))

-- `build_size_class_table` from classes that go up, are multiples of the step and stand below the end of the
-- table never writes outside of it, and the entry of an index is the least class for it.
pub build_size_class_table_lem :
    (size : ℕ) (classes : List ℕ) (table : ℕ → ℕ) (j : ℕ)
    → IsAscending size 0 classes
    → j < size
    → (t : ℕ → ℕ) × (initialize_size_class_for_step_size size classes table ≡ some t)
      × (t j ≡ class_for classes j)
unfolding initialize_size_class_for_step_size
build_size_class_table_lem size classes table j c h =
    let (t, e, f) = built size classes 0 table c (omega arith) in (t, e, f j h ∙ ground arith)

-- An allocation fits in the cells of the class that it is given, whatever its size.
pub size-class_for :
    (size i : ℕ) (classes : List ℕ) (request : ℕ)
    → IsAscending size i classes
    → request ≤ class_for classes (size_class_to_index request)
unfolding class_for size_class_to_index index_to_size_class
size-class_for size i [] request done = omega arith
size-class_for size i (sz ∷ classes) request (next m a b c) =
    let ih = size-class_for size (size_class_to_index sz + 1) classes request c in ground arith

-- The class chosen for an approximate size that a block has room for is a multiple of the step and not below that
-- size, and as many of its cells fit in a block as of the size rounded up.
pub better_size_class_lem :
    (payload approximate : ℕ)
    → 1 ≤ approximate
    → round_up_to_step approximate ≤ payload
    → (approximate ≤ better_size_class payload approximate)
      × (better_size_class payload approximate % 16 ≡ 0)
      × (payload / round_up_to_step approximate * better_size_class payload approximate ≤ payload)
unfolding better_size_class
better_size_class_lem payload approximate h l =
    let sc = round_up_to_step approximate in
    let cells = payload / sc in
    let q = payload / cells in
    let filled : cells * sc ≤ payload = div-mul-le_self payload sc in
    let some_cell : 1 ≤ cells =
      (le-div_iff_mul-le {k = sc} {x = 1} {y = payload} (omega arith)).1 (omega arith) in
    let enough : sc ≤ q =
      (le-div_iff_mul-le {k = cells} {x = sc} {y = payload} some_cell).1
        (omega (arith, filled, mul_comm sc cells)) in
    let fits : cells * (q / 16 * 16) ≤ payload =
      (let down : q / 16 * 16 ≤ q = omega arith in
        omega
          (arith, mul-le-mul_left cells down, div-mul-le_self payload cells, mul_comm cells q)) in
    (ground arith, ground arith, ground arith)
