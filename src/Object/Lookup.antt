-- ===== src/Object/Lookup.antt =====
-- Reading an indexed property (crates/starlight/src/vm/object.rs), on the elements as a map.
use js.Common.{ℕ, ◌≡◌, arith, refl, true, false, Option, none, some}
use js.Common.{Bool-cases, Option-cases, inl, inr, map_get}
use js.Attributes.{object_data}
use js.Value.{JsValue, is_empty}
use js.Property.{new_raw}
use js.Slot.{Slot, set_1, set_from_slot}
use js.ArrayStorage.Memory.{load}
use js.ArrayStorage.Defs
use js.ArrayStorage.Defs.{set_at}
use js.Object.Element.{element, IsValid}
use js.Object.Defs.{JsObject}
use js.Object.Index.{get_own_indexed_property_slot}

from_word :
    (slot : Slot) (x : JsValue) (base : Option ℕ)
    → set_from_slot slot (new_raw x object_data) base ≡ set_1 slot x object_data base
unfolding set_from_slot new_raw
from_word slot x base = refl

-- `GetOwnIndexedPropertySlotMethod` finds what the elements hold as a map, and fills the slot with it.
pub get_own_lem :
    (self : ℕ) (o : JsObject) (i : ℕ) (slot : Slot)
    → IsValid o.indexed
    → get_own_indexed_property_slot self o i slot
      ≡ some (elim (element o.indexed i) [
        | none ↦ (false, slot)
        | some x ↦ (true, set_from_slot slot x (some self))
      ])
unfolding get_own_indexed_property_slot element js.ArrayStorage.Defs.at load
get_own_lem self o i slot v =
    let fits = v.vector_fits.size_fits in
    let same = from_word slot (o.indexed.vector.data_words i) (some self) in
    elim (Option-cases o.indexed.map) [
      | inl n ↦ elim (Bool-cases (is_empty (o.indexed.vector.data_words i))) [
        | inl e ↦ ground arith
        | inr e ↦ ground arith
      ]
      | inr (m, q) ↦ elim (Option-cases (map_get m i)) [
        | inl n ↦ ground arith
        | inr (x, p) ↦ ground arith
      ]
    ]
