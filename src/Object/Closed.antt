-- ===== src/Object/Closed.antt =====
-- Objects that are not extensible: crates/starlight/src/vm/object.rs.
use mathlib.Core.Path.{subst}
use mathlib.Core.Option.{some-injective}
use js.Common.{
  ℕ, ap, ◌+◌, ◌^◌, ◌<◌, ◌≡◌, ◌∙◌, sym, arith, refl, bit_and, Bool, true, false, not, Option, none,
  some, [], ◌∷◌,
}
use js.Common.{
  bit-or, map_get, map_remove, map_is_empty, bit_and-pow, ◌==◌, Bool-cases, Option-cases, inl, inr,
}
use js.Attributes.{invert, is_configurable, is_default, is_value_absent}
use js.Property.{StoredSlot, PropertyDescriptor, Cells, first_word}
use js.Object.Elements.{IndexedElements, flag_dense, dense, writable, max_vector_size, make_dense}
use js.Structure.Transitions.{change_extensible_transition}
use js.Object.Element.{element, find_in, IsValid, not_dense, dense-bit, made_dense, writable-bit}
use js.Object.Defs.{
  State, JsObject, Engine, Completion, ok, refuse, length_not_writable, is_extensible,
  obj_flag_extensible, change_extensible,
}
use js.Object.Index.{delete_indexed_internal, define_own_indexed_property_internal}
use js.Object.Sparse.{make_sparse_keeps}
use js.Object.InMap.{define_element}
use js.Object.Delete.{delete_lem}
use js.Object.Dense.{stored}
use js.Object.Direct.{as_element, define_direct_lem, direct_value}
use js.Object.Define.{is_locked, define_own_lem}

-- What `change_extensible` to `false` establishes.
pub record IsClosed (o : JsObject) : Type 0 where
  pub valid : IsValid o.indexed
  pub fixed : is_extensible o ≡ false
  pub sparse : dense o.indexed ≡ false

-- `preventExtensions` on an object with valid elements succeeds, keeps every element, and leaves a sparse
-- object that is not extensible.
pub change_extensible-IsClosed :
    (s : State)
    → IsValid s.object.indexed
    → (s' : State) × (change_extensible s false ≡ some s')
      × IsClosed s'.object
      × ((i : ℕ) → element s'.object.indexed i ≡ element s.object.indexed i)
unfolding change_extensible is_extensible
change_extensible-IsClosed s v =
    let (e', runs, v', d, same) = make_sparse_keeps s.object.indexed v in
    let flags = s.object.flags in
    (
      record s {
        heap = (change_extensible_transition s.heap s.object.structure).0;
        object = record s.object {
          flags = bit_and flags (invert obj_flag_extensible);
          structure = (change_extensible_transition s.heap s.object.structure).1;
          indexed = e';
        };
      },
      rw runs refl,
      record {
        valid = v';
        fixed = bit_and-pow 0 (bit_and flags (invert obj_flag_extensible)) ∙ not_dense flags;
        sparse = d;
      },
      same,
    )

not_added :
    (engine : Engine) (h : Cells) (desc : PropertyDescriptor) (throwable : Bool) {h' : Cells}
    {x : Option StoredSlot} {c : Completion}
    → define_element engine h none false desc throwable ≡ some (h', x, c)
    → x ≡ none
unfolding define_element
not_added engine h desc throwable e = ground arith

-- On such an object a definition adds no element, whatever the index and the descriptor, and the object
-- stays closed.
pub define_own-IsClosed :
    (engine : Engine) (s : State) (i : ℕ) (desc : PropertyDescriptor) (throwable : Bool)
    → IsClosed s.object
    → i + 1 < 2 ^ 32
    → (s' : State) (c : Completion) (j : ℕ)
    → define_own_indexed_property_internal engine s i desc throwable ≡ some (s', c)
    → element s.object.indexed j ≡ none
    → IsClosed s'.object × (element s'.object.indexed j ≡ none)
unfolding define_own_indexed_property_internal is_extensible define_element
define_own-IsClosed engine s i desc throwable k short s' c j e n =
    let v = k.valid in
    let closed : State → Type 0 = λ t. IsClosed t.object × (element t.object.indexed j ≡ none) in
    let found : (t : State) (c' : Completion)
        → define_own_indexed_property_internal engine s i desc throwable ≡ some (t, c')
        → closed t
        → closed s' =
      λ t c' runs r.
        subst closed (ap (λ p. p.0) (some-injective (t, c') (s', c) (sym runs ∙ e))) r in
    elim (Bool-cases (is_locked s i)) [
      | inl l ↦
          found s (refuse throwable length_not_writable) (let x = k.sparse in ground arith) (k, n)
      | inr open_ ↦
          let d =
            define_own_lem engine s i desc throwable v short open_
              (let x = k.sparse in ground arith) in
          elim (Option-cases (
            define_element engine s.cells (element s.object.indexed i) (is_extensible s.object) desc
              throwable)) [
                | inl m ↦ absurd (ground (arith, d.stops m))
                | inr ((h, x, c'), q) ↦
                    let (t, runs, _, step) = d.gives h x c' q in
                    found t c' runs (
                      record {
                        valid = step.valid;
                        fixed = ap (λ f. not (bit_and f 1 == 0)) step.same_flags ∙ k.fixed;
                        sparse = let x' = k.sparse in ground (arith, step.stays_sparse);
                      },
                      elim (Bool-cases (i == j)) [
                        | inr other ↦ ground (arith, step.elements j)
                        | inl here ↦
                            let absent : element s.object.indexed i ≡ none =
                              ap (λ m. element s.object.indexed m) (ground arith) ∙ n in
                            let asked =
                              ap
                                (λ p.
                                  define_element engine s.cells p (is_extensible s.object) desc
                                    throwable)
                                (sym absent)
                              ∙ q in
                            let closed' =
                              ap (λ b. define_element engine s.cells none b desc throwable)
                                (sym k.fixed)
                              ∙ asked in
                            let nothing = not_added engine s.cells desc throwable closed' in
                            ground (arith, step.elements j)
                      ],
                    )
              ]
    ]

delete_only :
    (s : State) (i : ℕ) (x : StoredSlot) (throwable : Bool)
    → IsClosed s.object
    → s.object.indexed.map ≡ some ((i, x) ∷ [])
    → is_configurable x.attributes.attributes ≡ true
    → delete_indexed_internal s.object i throwable
      ≡ some (
        record s.object { indexed = make_dense (record s.object.indexed { map = some [] }) },
        ok true,
      )
unfolding delete_indexed_internal map_get map_remove map_is_empty
delete_only s i x throwable k only c =
    let inside = k.valid.in_length i x (ap (λ m. find_in m i) only ∙ ground arith) in
    let sparse = k.sparse in ground arith

abbrev opened : IndexedElements → IndexedElements
opened e = make_dense (record e { map = some [] })

opened-dense : (e : IndexedElements) → dense (opened e) ≡ true
unfolding make_dense
opened-dense e = dense-bit (opened e) ∙ made_dense e.flags

opened-writable : (e : IndexedElements) → writable e ≡ true → writable (opened e) ≡ true
unfolding make_dense
opened-writable e w =
    writable-bit (opened e)
    ∙ bit-or 1 e.flags flag_dense
    ∙ (let b = sym (writable-bit e) ∙ w in rw b refl)

opened_empty :
    (e : IndexedElements) → IsValid e → dense e ≡ false → (j : ℕ) → element (opened e) j ≡ none
unfolding make_dense element
opened_empty e v sparse j = let d = opened-dense e in ground (arith, v.cleared j)

-- But `delete_indexed_internal` of the only element makes the elements dense again, and then a definition
-- with default attributes at any index below the greatest size of a vector is carried out, although the
-- object is not extensible.
pub delete_reopens :
    (engine : Engine) (s : State) (i : ℕ) (x : StoredSlot) (throwable : Bool)
    → IsClosed s.object
    → s.object.indexed.map ≡ some ((i, x) ∷ [])
    → is_configurable x.attributes.attributes ≡ true
    → writable s.object.indexed ≡ true
    → (j : ℕ) (desc : PropertyDescriptor) → j < max_vector_size
    → is_default desc.attrs ≡ true
    → (o : JsObject) × (s' : State) × (delete_indexed_internal s.object i throwable
        ≡ some (o, ok true))
      × (is_extensible o ≡ false)
      × (element o.indexed j ≡ none)
      × (define_own_indexed_property_internal engine (record s { object = o }) j desc throwable
          ≡ some (s', ok true))
      × (element s'.object.indexed j
          ≡ as_element (stored (first_word desc) (is_value_absent desc.attrs)))
unfolding is_extensible direct_value make_dense
delete_reopens engine s i x throwable k only c w j desc h default =
    let o = record s.object { indexed = opened s.object.indexed } in
    let runs = delete_only s i x throwable k only c in
    let (o', c', runs', d) = delete_lem s.object i throwable k.valid in
    let v : IsValid o.indexed =
      subst (λ (p : JsObject × Completion). IsValid p.0.indexed)
        (some-injective (o', c') (o, ok true) (sym runs' ∙ runs)) d.valid in
    let is_dense : dense o.indexed ≡ true = opened-dense s.object.indexed in
    let t = record s { object = o } in
    let short : j + 1 < 2 ^ 32 = omega arith in
    let w' : writable o.indexed ≡ true = opened-writable s.object.indexed w in
    let (s', defined, _, step) =
      define_direct_lem engine t j desc throwable v short (ground arith) (ground arith) in
    (
      o,
      s',
      runs,
      k.fixed,
      opened_empty s.object.indexed k.valid k.sparse j,
      defined,
      ground (arith, step.elements j),
    )
