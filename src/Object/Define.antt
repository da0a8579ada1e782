-- ===== src/Object/Define.antt =====
-- `define_own_indexed_property_internal` (crates/starlight/src/vm/object.rs): its effect on the elements
-- as a map, whichever of the two representations it starts from and ends in.
use mathlib.Core.Path.{subst}
use js.Common.{
  ℕ, ap, ◌+◌, ◌^◌, ◌<◌, ◌≤◌, ◌≡◌, ◌∙◌, sym, arith, refl, bit_and, Bool, true, false, not, ◌&&◌,
  Option, none, some,
}
use js.Common.{ltb, leb, ◌==◌, if◌then◌else◌, Bool-cases, Option-cases, inl, inr}
use js.Attributes.{is_default}
use js.Value.{is_empty}
use js.Property.{StoredSlot, PropertyDescriptor, Cells}
use js.ArrayStorage.Memory.{load}
use js.ArrayStorage.Defs
use js.ArrayStorage.Shift
use js.Object.Elements.{IndexedElements, dense, writable, max_vector_size}
use js.Object.Element.{element, find_in, in_vector, IsValid}
use js.Object.Defs.{State, Engine, Completion, is_extensible, is_absent_descriptor}
use js.Object.Index.{with_indexed, define_in_map, define_own_indexed_property_internal}
use js.Object.Sparse.{make_sparse_keeps}
use js.Object.InMap.{IsChanged, define_element, refined}

-- The elements after a step: valid, with `x` at the index, the others as they were.
pub record IsStep (s s' : State) (i : ℕ) (x : Option StoredSlot) : Type 0 where
  pub valid : IsValid s'.object.indexed
  pub elements :
      (j : ℕ) → element s'.object.indexed j ≡ (if i == j then x else element s.object.indexed j)
  pub same_flags : s'.object.flags ≡ s.object.flags
  pub stays_sparse : (dense s'.object.indexed && not (dense s.object.indexed)) ≡ false

-- Where an element is, of valid elements.
element_lem :
    (e : IndexedElements) (i : ℕ)
    → IsValid e
    → element e i ≡ (if dense e && ltb i e.vector.size then in_vector e i else find_in e.map i)
unfolding element
element_lem e i v = elim (Option-cases (find_in e.map i)) [
  | inl n ↦ ground arith
  | inr (x, f) ↦ ground (arith, v.in_length i x f)
]

-- What is not in the vector is in the map.
in_map :
    (e : IndexedElements) (i : ℕ)
    → IsValid e
    → (dense e ≡ true → max_vector_size ≤ i)
    → element e i ≡ find_in e.map i
in_map e i v far = element_lem e i v ∙ (let short = v.short in ground arith)

module _ {s s' : State} {i : ℕ} {x : Option StoredSlot} (c : IsChanged s s' i x)
    (v : IsValid s.object.indexed) (far : dense s.object.indexed ≡ true → max_vector_size ≤ i) where
  changed-dense : dense s'.object.indexed ≡ dense s.object.indexed
  unfolding dense
  changed-dense = ap (λ f. not (bit_and f 1 == 0)) c.same_dense

  changed-IsValid : IsValid s'.object.indexed
  changed-IsValid =
      let d = changed-dense in
      record {
        vector_fits =
            subst (λ w. js.ArrayStorage.Shift.IsValid w) (sym c.same_vector) v.vector_fits;
        short = ground (arith, c.same_vector, v.short);
        cleared = λ j n l. ground (arith, c.same_vector, v.cleared j);
        far = λ j y t f. ground (arith, c.found j, v.far j y);
        in_length = λ j y f. elim (Option-cases (find_in s.object.indexed.map j)) [
          | inl n ↦ ground (arith, c.found j, c.reached y)
          | inr (z, q) ↦ ground (arith, v.in_length j z q, c.longer)
        ];
        vector_in_length = λ j l f. ground (arith, c.same_vector, v.vector_in_length j, c.longer);
      }

  changed-IsStep : IsStep s s' i x
  changed-IsStep =
      let d = changed-dense in
      record {
        valid = changed-IsValid;
        elements = λ j.
            element_lem s'.object.indexed j changed-IsValid
            ∙ ground (arith, c.found j, c.same_vector, element_lem s.object.indexed j v, v.short);
        same_flags = c.same_flags;
        stays_sparse = ground arith;
      }

-- A definition at an index past the end of read-only elements is refused.
abbrev pub is_locked : State → ℕ → Bool
is_locked s i = leb s.object.indexed.length i && not (writable s.object.indexed)

-- The requests that go to the vector.
abbrev pub is_direct : State → ℕ → PropertyDescriptor → Bool
is_direct s i desc =
    let e = s.object.indexed in
    dense e
    && (if is_default desc.attrs
        then ltb i max_vector_size
        else is_absent_descriptor desc
          && (ltb i e.vector.size && not (is_empty (e.vector.data_words i))))

module _ (engine : Engine) (s : State) (i : ℕ) (desc : PropertyDescriptor) (throwable : Bool)
    (v : IsValid s.object.indexed) (short : i + 1 < 2 ^ 32) where
  -- The definition is that of `define_element` on the property at the index.
  pub record IsDefinition : Type 0 where
    pub stops :
        define_element engine s.cells
            (element s.object.indexed i)
            (is_extensible s.object)
            desc
            throwable
          ≡ none
        → define_own_indexed_property_internal engine s i desc throwable ≡ none
    pub gives :
        (h : Cells) (x : Option StoredSlot) (c : Completion)
        → define_element engine s.cells
            (element s.object.indexed i)
            (is_extensible s.object)
            desc
            throwable
          ≡ some (h, x, c)
        → (s' : State) × (define_own_indexed_property_internal engine s i desc throwable
            ≡ some (s', c))
          × (s'.cells ≡ h)
          × IsStep s s' i x

  -- Through the map of `s1`, which has the elements of `s`.
  through_map :
      (s1 : State)
      → IsValid s1.object.indexed
      → (dense s1.object.indexed ≡ true → max_vector_size ≤ i)
      → (s1.cells ≡ s.cells) × (s1.object.flags ≡ s.object.flags)
      → (dense s.object.indexed ≡ false → dense s1.object.indexed ≡ false)
      → ((j : ℕ) → element s1.object.indexed j ≡ element s.object.indexed j)
      → define_own_indexed_property_internal engine s i desc throwable
        ≡ define_in_map engine s1 i desc throwable
      → IsDefinition
  unfolding is_extensible
  through_map s1 v1 far (same_cells, same_flags) stays same runs =
      let at_i : element s.object.indexed i ≡ find_in s1.object.indexed.map i =
        sym (same i) ∙ in_map s1.object.indexed i v1 far in
      let extensible : is_extensible s.object ≡ is_extensible s1.object =
        ap (λ f. not (bit_and f 1 == 0)) (sym same_flags) in
      let spec : define_element engine s.cells (element s.object.indexed i) (is_extensible s.object)
            desc throwable
          ≡ define_element engine s1.cells (find_in s1.object.indexed.map i)
              (is_extensible s1.object) desc throwable =
        rw (at_i, same_cells, extensible) refl in
      let r = refined engine s1 i desc throwable short in
      record {
        stops = λ e. runs ∙ r.stops (sym spec ∙ e);
        gives = λ h x c e.
            let (s', out, cells', changed) = r.gives h x c (sym spec ∙ e) in
            let step = changed-IsStep changed v1 far in
            (
              s',
              runs ∙ out,
              cells',
              record {
                valid = step.valid;
                elements = λ j. ground (arith, step.elements j, same j);
                same_flags = step.same_flags ∙ same_flags;
                stays_sparse = ground (arith, step.stays_sparse);
              },
            );
      }

  -- Unless the index is past the end of read-only elements, or the request goes to the vector, the method
  -- does to the property at the index what `[[DefineOwnProperty]]` does to one property, with the same
  -- result, keeps the other elements and the invariant.
  pub define_own_lem : is_locked s i ≡ false → is_direct s i desc ≡ false → IsDefinition
  unfolding define_own_indexed_property_internal js.ArrayStorage.Defs.at load
  define_own_lem open_ indirect =
      let fits = v.vector_fits.size_fits in
      let short' = v.short in
      elim (Bool-cases (dense s.object.indexed)) [
        | inr d ↦
            through_map s v (λ t. absurd (ground arith)) (refl, refl) (λ f. f) (λ j. refl)
              (ground arith)
        | inl d ↦ elim (Bool-cases (ltb i max_vector_size)) [
          | inr far ↦
              through_map s v (λ t. ground arith) (refl, refl) (λ f. f) (λ j. refl) (ground arith)
          | inl near ↦
              let (e', runs, v', d', same) = make_sparse_keeps s.object.indexed v in
              through_map (with_indexed s e') v' (λ t. absurd (ground arith)) (refl, refl) (λ _. d')
                same (ground arith)
        ]
      ]
