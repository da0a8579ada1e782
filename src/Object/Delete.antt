-- ===== src/Object/Delete.antt =====
-- Deleting an indexed property (crates/starlight/src/vm/object.rs), on the elements as a map.
use js.Common.{ℕ, ◌<◌, ◌≡◌, ◌∙◌, arith, refl, Bool, true, false, not, ◌&&◌, Option, none, some}
use js.Common.{
  ltb, leb, ◌==◌, if◌then◌else◌, Bool-cases, Option-cases, inl, inr, List, map_get, map_remove,
  map_is_empty, map_get-map_remove, map_get_empty,
}
use js.Attributes
use js.Attributes.{is_configurable, object_data}
use js.Value.{JsValue, is_empty, encode_empty_value}
use js.Property.{StoredSlot, new_raw}
use js.ArrayStorage.Memory.{store, put}
use js.ArrayStorage.Defs.{set_at}
use js.Object.Elements.{IndexedElements, dense, make_dense}
use js.Object.Element.{element, IsValid, dense-bit, made_dense}
use js.Object.Defs.{JsObject, Completion, ok, refuse, not_configurable}
use js.Object.Index.{delete_indexed_internal}

-- The property is there and may not be deleted.
unfoldable pub is_kept : Option StoredSlot → Bool
is_kept none = false
is_kept (some x) = not (is_configurable x.attributes.attributes)

-- What `delete_indexed_internal` leaves.
pub record IsDeleted (o : JsObject) (i : ℕ) (throwable : Bool) (o' : JsObject) (c : Completion)
    : Type 0 where
  pub valid : IsValid o'.indexed
  pub rest : (o'.structure ≡ o.structure) × (o'.flags ≡ o.flags) × (o'.slots ≡ o.slots)
  pub result :
      c ≡ (if is_kept (element o.indexed i) then refuse throwable not_configurable else ok true)
  pub elements :
      (j : ℕ)
      → element o'.indexed j
        ≡ (if i == j && not (is_kept (element o.indexed i)) then none else element o.indexed j)

data_not_kept : (x : JsValue) → is_kept (some (new_raw x object_data)) ≡ false
unfolding is_kept new_raw is_configurable object_data js.Attributes.create_data js.Attributes.safe
    js.Attributes.is_writable_absent js.Attributes.set_data
    js.Attributes.fill_enumerable_and_configurable
data_not_kept x = refl

module _ (o : JsObject) (i : ℕ) (throwable : Bool) (v : IsValid o.indexed) where
  -- Nothing is there.
  absent : element o.indexed i ≡ none → IsDeleted o i throwable o (ok true)
  unfolding is_kept
  absent n = record {
    valid = v;
    rest = (refl, refl, refl);
    result = ground arith;
    elements = λ j. ground arith;
  }

  -- The element is in the vector.
  emptied :
      dense o.indexed ≡ true
      → i < o.indexed.vector.size
      → IsDeleted o i throwable
          (record o {
            indexed = record o.indexed {
              vector = record o.indexed.vector {
                data_words = put o.indexed.vector.data_words i encode_empty_value;
              };
            };
          })
          (ok true)
  unfolding is_kept element is_empty dense is_configurable
  emptied d h = record {
    valid = record {
      vector_fits = record {
        size_fits = v.vector_fits.size_fits;
        capacity_fits = v.vector_fits.capacity_fits;
      };
      short = v.short;
      cleared = λ j n l. absurd (ground arith);
      far = λ j x t f. v.far j x t f;
      in_length = λ j x f. v.in_length j x f;
      vector_in_length = λ j l f. ground (arith, v.vector_in_length j);
    };
    rest = (refl, refl, refl);
    result = ground (arith, data_not_kept (o.indexed.vector.data_words i));
    elements = λ j. ground (arith, data_not_kept (o.indexed.vector.data_words i));
  }

  kept :
      (m : List (ℕ × StoredSlot)) (x : StoredSlot)
      → o.indexed.map ≡ some m
      → map_get m i ≡ some x
      → (dense o.indexed && ltb i o.indexed.vector.size) ≡ false
      → is_configurable x.attributes.attributes ≡ false
      → IsDeleted o i throwable o (refuse throwable not_configurable)
  unfolding is_kept element
  kept m x q g far k =
      let l = v.in_length i x in
      record {
        valid = v;
        rest = (refl, refl, refl);
        result = ground arith;
        elements = λ j. ground arith;
      }

  -- The element is in the map and may be deleted.
  module _ (m : List (ℕ × StoredSlot)) (x : StoredSlot) (q : o.indexed.map ≡ some m)
      (g : map_get m i ≡ some x) (c : is_configurable x.attributes.attributes ≡ true)
      (far : (dense o.indexed && ltb i o.indexed.vector.size) ≡ false) where
    left_over : IndexedElements
    left_over = record o.indexed { map = some (map_remove m i) }

    there : element o.indexed i ≡ some x
    unfolding element
    there = ground (arith, v.in_length i x)

    removed : IsDeleted o i throwable (record o { indexed = left_over }) (ok true)
    unfolding is_kept element left_over dense
    removed = record {
      valid = record {
        vector_fits = v.vector_fits;
        short = v.short;
        cleared = v.cleared;
        far = λ j y t f. ground (arith, map_get-map_remove m i j, v.far j y);
        in_length = λ j y f. ground (arith, map_get-map_remove m i j, v.in_length j y);
        vector_in_length = v.vector_in_length;
      };
      rest = (refl, refl, refl);
      result = ground (arith, there);
      elements = λ j. ground (arith, there, map_get-map_remove m i j);
    }

    removed_last :
        map_is_empty (map_remove m i) ≡ true
        → IsDeleted o i throwable (record o { indexed = make_dense left_over }) (ok true)
    unfolding is_kept element left_over make_dense
    removed_last e =
        let d = dense-bit (make_dense left_over) ∙ made_dense o.indexed.flags in
        record {
          valid = record {
            vector_fits = record {
              size_fits = v.vector_fits.size_fits;
              capacity_fits = v.vector_fits.capacity_fits;
            };
            short = v.short;
            cleared = λ j n l. absurd (ground arith);
            far = λ j y t f. absurd (ground arith);
            in_length = λ j y f. absurd (ground arith);
            vector_in_length = v.vector_in_length;
          };
          rest = (refl, refl, refl);
          result = ground (arith, there);
          elements = λ j. ground (
            arith,
            there,
            v.cleared j,
            map_get_empty (map_remove m i) j e,
            map_get-map_remove m i j,
          );
        }

  -- `delete_indexed_internal` always returns. It refuses exactly if there is a property that may not be
  -- configured, and then changes nothing; otherwise the property is gone, the others stay, and the elements
  -- are valid.
  pub delete_lem :
      (o' : JsObject) × (c : Completion) × (delete_indexed_internal o i throwable ≡ some (o', c))
      × IsDeleted o i throwable o' c
  unfolding delete_indexed_internal element set_at store is_kept left_over
  delete_lem =
      let e = o.indexed in
      let fits = v.vector_fits.size_fits in
      elim (Bool-cases (leb e.length i)) [
        | inl past ↦ (o, ok true, ground arith, absent (ground (arith, v.vector_in_length i)))
        | inr inside ↦ elim (Bool-cases (dense e && ltb i e.vector.size)) [
          | inl h ↦ (_, ok true, ground arith, emptied (ground arith) (ground arith))
          | inr out ↦ elim (Option-cases e.map) [
            | inl n ↦ (o, ok true, ground arith, absent (ground arith))
            | inr (m, q) ↦ elim (Option-cases (map_get m i)) [
              | inl n ↦ (o, ok true, ground arith, absent (ground arith))
              | inr (x, g) ↦
                  let far = v.far i x in
                  let inside' = v.in_length i x in
                  elim (Bool-cases (is_configurable x.attributes.attributes)) [
                    | inr k ↦
                        (o, refuse throwable not_configurable, ground arith, kept m x q g out k)
                    | inl c ↦ elim (Bool-cases (map_is_empty (map_remove m i))) [
                      | inl last ↦ (_, ok true, ground arith, removed_last m x q g c out last)
                      | inr more ↦ (_, ok true, ground arith, removed m x q g c out)
                    ]
                  ]
            ]
          ]
        ]
      ]
