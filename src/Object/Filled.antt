-- ===== src/Object/Filled.antt =====
-- What a definition in the vector (`define_own_indexe_value_dense_internal` of
-- crates/starlight/src/vm/object.rs) does to the elements as a map.
use js.Common.{ℕ, ap, ◌<◌, ◌≡◌, ◌≢◌, ◌∙◌, sym, arith, bit_and, Bool, true, not, none, some}
use js.Common.{◌==◌, if◌then◌else◌, Option-cases, inl, inr}
use js.Attributes.{object_data}
use js.Value.{JsValue, is_empty}
use js.Property.{new_raw}
use js.Object.Elements.{dense, max_vector_size}
use js.Object.Element.{element, find_in, IsValid}
use js.Object.Defs.{State}
use js.Object.Dense.{IsDefined, stored}

module _ {s s' : State} {i : ℕ} {val : JsValue} {absent : Bool} (d : IsDefined s s' i val absent)
    (v : IsValid s.object.indexed) (h : i < max_vector_size)
    (is_dense : dense s.object.indexed ≡ true) where
  pub still_dense : dense s'.object.indexed ≡ true
  unfolding dense
  still_dense = ap (λ f. not (bit_and f 1 == 0)) d.same_dense ∙ is_dense

  pub filled-IsValid : IsValid s'.object.indexed
  unfolding is_empty
  filled-IsValid =
      let e = s.object.indexed in
      let e' = s'.object.indexed in
      record {
        vector_fits = d.fits;
        short = ground (arith, d.size, v.short);
        cleared = λ j n l. absurd (ground (arith, still_dense));
        far = λ j x y f. v.far j x is_dense (sym (ap (λ m. find_in m j) d.same_map) ∙ f);
        in_length = λ j x f.
            let was = v.in_length j x (sym (ap (λ m. find_in m j) d.same_map) ∙ f) in
            ground (arith, d.length);
        vector_in_length =
            λ j l f. ground (arith, d.words j l, d.length, d.size, v.vector_in_length j);
      }

  pub filled_same : (j : ℕ) → j ≢ i → element s'.object.indexed j ≡ element s.object.indexed j
  unfolding element is_empty
  filled_same j n =
      let e = s.object.indexed in
      elim (Option-cases (find_in e.map j)) [
        | inl f ↦
            let f' : find_in s'.object.indexed.map j ≡ none =
              ap (λ m. find_in m j) d.same_map ∙ f in
            ground (arith, still_dense, d.size, d.words j, v.vector_in_length j)
        | inr (x, f) ↦
            let f' : find_in s'.object.indexed.map j ≡ some x =
              ap (λ m. find_in m j) d.same_map ∙ f in
            let out = v.far j x is_dense f in
            ground (arith, still_dense, d.size, d.length, v.short, v.in_length j x f)
      ]

  pub filled_at : element s'.object.indexed i ≡ (
      if is_empty (stored val absent) then none else some (new_raw (stored val absent) object_data))
  unfolding element
  filled_at = ground (arith, still_dense, d.size, d.words i)
