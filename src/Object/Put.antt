-- ===== src/Object/Put.antt =====
-- `[[Put]]` of an indexed property (crates/starlight/src/vm/object.rs) on the elements as maps.
use js.Common.{ℕ, ◌≤◌, ◌≡◌, arith, refl, bit_or, Bool, true, false, not, Option, none, some, List}
use js.Common.{length, ◌==◌, if◌then◌else◌, ◌>>=◌, Option-cases, inl, inr}
use js.Slot
use js.Attributes.{
  raw, is_accessor, is_data, is_writable, is_stored, writable, enumerable, configurable,
  undef_writable, undef_enumerable, undef_configurable, is_not_found,
}
use js.Attributes.View.{is_data-view, is_accessor-view}
use js.Property.Frozen.{stored_flags}
use js.Value.{JsValue}
use js.Property
use js.Property.{PropertyDescriptor, StoredSlot, accessor_cell, data_descriptor}
use js.Slot.{Slot, set_from_slot, is_slot_not_found}
use js.Object.Element.{IsValid}
use js.Object.Defs.{Engine, put_failed, is_extensible}
use js.Object.Index.{define_own_indexed_property_internal}
use js.Object.Named.{is_own}
use js.Object.World.{
  World, index, enter, leave, can_put, has_setter, PutResult, stored, failed, as_result,
  define_own_property_slot, call_setter, put_checked, is_fast, put_slot,
}
use js.Object.Inherit.{IsChain, first_with, get_property_slot_lem}

from_slot :
    (slot : Slot) (x : StoredSlot) (base : Option ℕ)
    → ((set_from_slot slot x base).parent ≡ x) × ((set_from_slot slot x base).base ≡ base)
unfolding set_from_slot js.Slot.set_1 js.Slot.make_uncacheable js.Slot.make_used
    js.Property.set_slot
from_slot slot x base = (refl, refl)

-- Attributes that may be stored are not those of an absent property, and are of one kind.
pub stored_found :
    (x : StoredSlot) → is_stored (raw x.attributes) ≡ true → is_not_found x.attributes ≡ false
unfolding is_not_found is_stored
stored_found x st = ground arith

stored_kind :
    (x : StoredSlot)
    → is_stored (raw x.attributes) ≡ true
    → is_data x.attributes.attributes ≡ not (is_accessor x.attributes.attributes)
stored_kind x st =
    let f = stored_flags x st in
    let d = is_data-view x.attributes.attributes in
    let a = is_accessor-view x.attributes.attributes in ground (arith, f.one_kind)

module _ (engine : Engine)
    (call : World → JsValue → JsValue → JsValue → JsValue → Option (World × Option JsValue)) where
  -- The definition that a put turns into.
  unfoldable pub put_at : World → ℕ → ℕ → PropertyDescriptor → Bool → Option (World × PutResult)
  put_at w p i desc throwable = do
    (s, c) ← define_own_indexed_property_internal engine (enter w p) i desc throwable
    some (leave w p s, as_result c)

  -- `[[Put]]` at an index, where `found` is the first object in the chain with the element, and the element:
  -- a setter is called, a read-only element or an object that takes no new one refuses, and otherwise
  -- the element of the object itself is replaced or made.
  unfoldable pub put_element :
      World → ℕ → ℕ → JsValue → Bool → Option (ℕ × StoredSlot) → Option (World × PutResult)
  put_element w p i val throwable none =
      if is_extensible (w.objects p)
      then put_at w p i (data_descriptor val (bit_or (bit_or writable configurable) enumerable))
          throwable
      else some (w, (if throwable then failed put_failed else stored))
  put_element w p i val throwable (some (q, x)) =
      if is_accessor x.attributes.attributes
      then (do
        ac ← accessor_cell w.cells x
        if has_setter ac
            then call_setter engine call w p (index i) ac val
            else some (w, (if throwable then failed put_failed else stored)))
      else if not (is_writable x.attributes.attributes)
      then some (w, (if throwable then failed put_failed else stored))
      else if q == p
      then put_at w p i
          (data_descriptor val (bit_or (bit_or undef_enumerable undef_configurable) undef_writable))
          throwable
      else put_at w p i (data_descriptor val (bit_or (bit_or writable configurable) enumerable))
          throwable

  module _ (w : World) (p : ℕ) (ps : List ℕ) (i fuel : ℕ) (val : JsValue) (slot : Slot)
      (throwable : Bool) (v : (q : ℕ) → IsValid (w.objects q).indexed) (chain : IsChain w p ps)
      (enough : length ps ≤ fuel) (blank : is_slot_not_found slot ≡ true) where
    put_define :
        (desc : PropertyDescriptor) (slot' : Slot)
        → (do
          (w', s', c) ← define_own_property_slot engine w p (index i) desc slot' throwable
          some (w', as_result c))
          ≡ put_at w p i desc throwable
    unfolding define_own_property_slot put_at
    put_define desc slot' =
        elim (Option-cases
          (define_own_indexed_property_internal engine (enter w p) i desc throwable)) [
            | inl n ↦ ground arith
            | inr (r, e) ↦ ground arith
          ]

    put_absent :
        first_with w ps i ≡ none
        → put_checked engine call fuel w p (index i) val slot throwable
          ≡ put_element w p i val throwable none
    unfolding put_checked put_element can_put
    put_absent n =
        let found = get_property_slot_lem w p ps i fuel slot v chain enough in
        let define =
          put_define (data_descriptor val (bit_or (bit_or writable configurable) enumerable))
            slot in
        ground arith

    put_present :
        (q : ℕ) (x : StoredSlot)
        → first_with w ps i ≡ some (q, x)
        → is_stored (raw x.attributes) ≡ true
        → put_checked engine call fuel w p (index i) val slot throwable
          ≡ put_element w p i val throwable (some (q, x))
    unfolding put_checked put_element can_put is_own is_slot_not_found
    put_present q x e st =
        let found = get_property_slot_lem w p ps i fuel slot v chain enough in
        let slot' = set_from_slot slot x (some q) in
        let (parent, base) = from_slot slot x (some q) in
        let there = stored_found x st in
        let own =
          put_define
            (data_descriptor val
              (bit_or (bit_or undef_enumerable undef_configurable) undef_writable))
            slot' in
        let define =
          put_define (data_descriptor val (bit_or (bit_or writable configurable) enumerable))
            slot' in
        let kind = stored_kind x st in
        elim (Option-cases (accessor_cell w.cells x)) [
          | inl n ↦ ground arith
          | inr (ac, a) ↦ ground arith
        ]

    -- Unless its first test succeeds, `PutIndexedSlotMethod` on objects with valid elements is `[[Put]]` on
    -- the first object in the chain of prototypes that has the element: the slot is new, the attributes
    -- of the element are ones that may be stored, and there is fuel for the chain.
    pub put_slot_lem :
        is_fast fuel w p i ≡ some false
        → ((q : ℕ) (x : StoredSlot)
            → first_with w ps i ≡ some (q, x)
            → is_stored (raw x.attributes) ≡ true)
        → put_slot engine call fuel w p (index i) val slot throwable
          ≡ put_element w p i val throwable (first_with w ps i)
    unfolding put_slot
    put_slot_lem slow st = elim (Option-cases (first_with w ps i)) [
      | inl n ↦ rw n (ground (arith, put_absent n))
      | inr ((q, x), e) ↦ rw e (ground (arith, put_present q x e (st q x e)))
    ]
