-- ===== src/Object/Direct.antt =====
-- The branches of `define_own_indexed_property_internal` (crates/starlight/src/vm/object.rs) that write
-- to the vector, and all of its branches together.
use mathlib.Core.Path.{subst}
use mathlib.Core.Option
use mathlib.Core.Option.{some-injective}
use js.Common.{
  ℕ, ap, ◌+◌, ◌^◌, ◌<◌, ◌≡◌, ◌≢◌, ◌∙◌, sym, arith, refl, Bool, true, false, not, ◌&&◌, Option, none,
  some,
}
use js.Common.{◌==◌, if◌then◌else◌, Bool-cases, Option-cases, inl, inr}
use js.Attributes.{is_default, is_value_absent, object_data}
use js.Value.{JsValue, is_empty, is_object}
use js.Property.{StoredSlot, PropertyDescriptor, Cells, first_word, new_raw}
use js.ArrayStorage.Memory.{load, store, put}
use js.ArrayStorage.Defs
use js.ArrayStorage.Defs.{set_at}
use js.Object.Elements.{IndexedElements, dense}
use js.Object.Element.{element, IsValid}
use js.Object.Defs.{State, Engine, Completion, ok, refuse, is_extensible, length_not_writable}
use js.Object.Index.{with_indexed, define_own_indexed_property_internal}
use js.Object.Dense.{stored, define_dense_lem}
use js.Object.Filled.{filled-IsValid, filled_same, filled_at}
use js.Object.InMap.{define_element}
use js.Object.Define.{IsStep, is_locked, is_direct, define_own_lem}

-- The property that a word of the vector stands for.
abbrev pub as_element : JsValue → Option StoredSlot
as_element x = if is_empty x then none else some (new_raw x object_data)

-- The elements with the word at `i` of the vector replaced.
abbrev overwritten : IndexedElements → ℕ → JsValue → IndexedElements
overwritten e i x = record e {
  non_gc = e.non_gc && not (is_object x);
  vector = record e.vector { data_words = put e.vector.data_words i x };
}

overwritten-IsStep :
    (s : State) (i : ℕ) (x : JsValue)
    → IsValid s.object.indexed
    → dense s.object.indexed ≡ true
    → i < s.object.indexed.vector.size
    → is_empty (s.object.indexed.vector.data_words i) ≡ false
    → IsStep s (with_indexed s (overwritten s.object.indexed i x)) i (as_element x)
unfolding element dense
overwritten-IsStep s i x v d h full =
    let e = s.object.indexed in
    record {
      valid = record {
        vector_fits = record {
          size_fits = v.vector_fits.size_fits;
          capacity_fits = v.vector_fits.capacity_fits;
        };
        short = v.short;
        cleared = λ j n l. absurd (ground arith);
        far = λ j y t f. v.far j y t f;
        in_length = λ j y f. v.in_length j y f;
        vector_in_length = λ j l f. ground (arith, v.vector_in_length j, v.vector_in_length i);
      };
      elements = λ j. ground arith;
      same_flags = refl;
      stays_sparse = ground arith;
    }

-- What a definition shows at an index: the accessor cells, the property, the result.
abbrev pub observed : ℕ → State × Completion → Cells × Option StoredSlot × Completion
observed i (s, c) = (s.cells, element s.object.indexed i, c)

-- What a direct request leaves at the index.
unfoldable pub direct_value : State → ℕ → PropertyDescriptor → Option StoredSlot
direct_value s i desc =
    if is_default desc.attrs
    then as_element (stored (first_word desc) (is_value_absent desc.attrs))
    else if is_value_absent desc.attrs
    then element s.object.indexed i
    else as_element (first_word desc)

-- A definition on the property at the index alone. An index that the length locks out is refused; a direct
-- request leaves its value with default attributes, or the element that is there where it only names
-- attributes; every other request goes through `is_defined_property_accepted` and `merge` of the stored property, or through
-- `new` if there is none and the object is extensible.
unfoldable pub define_one :
    Engine → State → ℕ → PropertyDescriptor → Bool → Option (Cells × Option StoredSlot × Completion)
define_one engine s i desc throwable =
    if is_locked s i
    then some (s.cells, element s.object.indexed i, refuse throwable length_not_writable)
    else if is_direct s i desc
    then some (s.cells, direct_value s i desc, ok true)
    else define_element engine s.cells (element s.object.indexed i) (is_extensible s.object) desc
        throwable

module _ (engine : Engine) (s : State) (i : ℕ) (desc : PropertyDescriptor) (throwable : Bool)
    (v : IsValid s.object.indexed) (short : i + 1 < 2 ^ 32) where
  -- A request that goes to the vector always succeeds. It leaves the value, or undefined if there is none, with
  -- default attributes; a request that only names attributes leaves the element that is there. The other elements
  -- and the accessor cells stay, and the elements are valid.
  pub define_direct_lem :
      is_locked s i ≡ false
      → is_direct s i desc ≡ true
      → (s' : State) × (define_own_indexed_property_internal engine s i desc throwable
          ≡ some (s', ok true))
        × (s'.cells ≡ s.cells)
        × IsStep s s' i (direct_value s i desc)
  unfolding define_own_indexed_property_internal set_at js.ArrayStorage.Defs.at load store
      direct_value
  define_direct_lem open_ direct =
      let e = s.object.indexed in
      let fits = v.vector_fits.size_fits in
      elim (Bool-cases (is_default desc.attrs)) [
        | inl default ↦
            let absent = is_value_absent desc.attrs in
            let (s', runs, d) =
              define_dense_lem engine.fresh s i (first_word desc) absent v (ground arith) in
            (
              s',
              ground arith,
              d.same_cells,
              record {
                valid = filled-IsValid d v (ground arith) (ground arith);
                elements = λ j. elim (Bool-cases (i == j)) [
                  | inl here ↦
                      let same : j ≡ i = ground arith in
                      ap (λ k. element s'.object.indexed k) same
                      ∙ filled_at d v (ground arith) (ground arith)
                      ∙ ground arith
                  | inr other ↦
                      filled_same d v (ground arith) (ground arith) j
                        (λ same. absurd (ground arith))
                      ∙ ground arith
                ];
                same_flags = d.same_flags;
                stays_sparse = ground arith;
              },
            )
        | inr other ↦ elim (Bool-cases (is_value_absent desc.attrs)) [
          | inl absent ↦ (
            s,
            ground arith,
            refl,
            record {
              valid = v;
              elements = λ j. ground arith;
              same_flags = refl;
              stays_sparse = ground arith;
            },
          )
          | inr present ↦ (
            with_indexed s (overwritten e i (first_word desc)),
            ground arith,
            refl,
            subst (λ x. IsStep s (with_indexed s (overwritten e i (first_word desc))) i x)
                (ground arith)
                (overwritten-IsStep s i (first_word desc) v (ground arith) (ground arith)
                  (ground arith)),
          )
        ]
      ]

  -- Whichever branch runs and however it ends, the elements stay valid, and an element at another index is as
  -- it was.
  pub define_own_keeps :
      (s' : State) (c : Completion) (j : ℕ)
      → define_own_indexed_property_internal engine s i desc throwable ≡ some (s', c)
      → j ≢ i
      → IsValid s'.object.indexed × (element s'.object.indexed j ≡ element s.object.indexed j)
  unfolding define_own_indexed_property_internal
  define_own_keeps s' c j e n =
      let keeps : State → Type 0 =
        λ t. IsValid t.object.indexed × (element t.object.indexed j ≡ element s.object.indexed j) in
      let found : (t : State) (c' : Completion)
          → define_own_indexed_property_internal engine s i desc throwable ≡ some (t, c')
          → keeps t
          → keeps s' =
        λ t c' runs k.
          subst keeps (ap (λ p. p.0) (some-injective (t, c') (s', c) (sym runs ∙ e))) k in
      elim (Bool-cases (is_locked s i)) [
        | inl l ↦ found s (refuse throwable length_not_writable) (ground arith) (v, refl)
        | inr open_ ↦ elim (Bool-cases (is_direct s i desc)) [
          | inl direct ↦
              let (t, runs, _, step) = define_direct_lem open_ direct in
              found t (ok true) runs (step.valid, ground (arith, step.elements j))
          | inr indirect ↦
              let d = define_own_lem engine s i desc throwable v short open_ indirect in
              elim (Option-cases (
                define_element engine s.cells (element s.object.indexed i) (is_extensible s.object)
                  desc throwable)) [
                    | inl n ↦ absurd (ground (arith, d.stops n))
                    | inr ((h, x, c'), q) ↦
                        let (t, runs, _, step) = d.gives h x c' q in
                        found t c' runs (step.valid, ground (arith, step.elements j))
                  ]
        ]
      ]

  define_own_indirect :
      is_locked s i ≡ false
      → is_direct s i desc ≡ false
      → Option.map (observed i) (define_own_indexed_property_internal engine s i desc throwable)
        ≡ define_element engine s.cells
            (element s.object.indexed i)
            (is_extensible s.object)
            desc
            throwable
  define_own_indirect open_ indirect =
      let d = define_own_lem engine s i desc throwable v short open_ indirect in
      elim (Option-cases (
        define_element engine s.cells (element s.object.indexed i) (is_extensible s.object) desc
          throwable)) [
            | inl n ↦ rw (n, d.stops n) refl
            | inr ((h, x, c), q) ↦
                let (t, runs, cells', step) = d.gives h x c q in
                rw (q, runs) (ground (arith, step.elements i))
          ]

  define_locked :
      is_locked s i ≡ true
      → define_own_indexed_property_internal engine s i desc throwable
        ≡ some (s, refuse throwable length_not_writable)
  unfolding define_own_indexed_property_internal
  define_locked locked = rw locked refl

  -- What the method shows at an index with room for a length behind it is that of `define_one` on the one property
  -- there, for every request and in both representations of valid elements: the accessor cells and the property that
  -- are left, the result, and whether it fails.
  pub define_own_refines :
      Option.map (observed i) (define_own_indexed_property_internal engine s i desc throwable)
      ≡ define_one engine s i desc throwable
  unfolding define_one
  define_own_refines = elim (Bool-cases (is_locked s i)) [
    | inl locked ↦ rw locked (ap (Option.map (observed i)) (define_locked locked))
    | inr open_ ↦ elim (Bool-cases (is_direct s i desc)) [
      | inl direct ↦
          let (s', runs, cells', step) = define_direct_lem open_ direct in
          rw (open_, direct)
            (ap (Option.map (observed i)) runs ∙ ground (arith, cells', step.elements i))
      | inr indirect ↦ rw (open_, indirect) (define_own_indirect open_ indirect)
    ]
  ]
