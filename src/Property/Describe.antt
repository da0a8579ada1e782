-- ===== src/Property/Describe.antt =====
-- A property described by `to_descriptor` and made anew by `new`
-- (crates/starlight/src/vm/property_descriptor.rs).
use js.Common.{ℕ, ◌≡◌, ◌∙◌, ap, arith, refl, Bool, true, false, none, some}
use js.Common.{◌>>=◌, bit}
use js.Attributes.{
  Raw, AttrSafe, raw, external, is_stored, is_data, is_configurable, is_writable, is_enumerable,
  create_data, create_accessor, set_enumerable, set_configurable, set_writable,
}
use js.Attributes.View.{
  Flags, reads, view, view-or, set_enumerable-view, set_configurable-view, set_writable-view,
  is_data-view, is_accessor-view, is_value_absent-view,
}
use mathlib.Core.Bool.{or-true, or-false}
use js.Attributes.Laws.{create_data-view, create_accessor-view}
use js.Value.{JsValue, encode_object_value, is_object, get_object}
use js.Property.{
  PropertyDescriptor, StoredSlot, Cells, Accessor, write, first_word, second_word, accessor,
  accessor_cell, data_descriptor, accessor_descriptor, to_descriptor,
}
use js.Property.Define.{new}
use js.Property.Effects.{slot_flags, desc_flags}
use js.Property.Frozen.{stored_flags}

data_descriptor-view :
    (v : JsValue) (r : Raw)
    → desc_flags (data_descriptor v r)
      ≡ record (view r) { d = true; no_getter = true; no_setter = true }
unfolding data_descriptor external
data_descriptor-view v r = simp view-or (unfold view bit in simp (or-true, or-false))

accessor_descriptor-view :
    (g t : JsValue) (r : Raw)
    → desc_flags (accessor_descriptor g t r)
      ≡ record (view r) { a = true; no_value = true; no_w = true }
unfolding accessor_descriptor external
accessor_descriptor-view g t r = simp view-or (unfold view bit in simp (or-true, or-false))

blank : Flags
blank = record {
  w = false;
  e = false;
  c = false;
  d = false;
  a = false;
  empty = false;
  no_w = false;
  no_e = false;
  no_c = false;
  no_value = false;
  no_getter = false;
  no_setter = false;
}

view-zero : view 0 ≡ blank
unfolding view blank bit
view-zero = refl

-- The flags that `new` takes from a descriptor before it creates the attributes.
requested-view :
    (c e : Bool)
    → view (set_enumerable (set_configurable (external none) c) e).raw
      ≡ record blank { c = c; e = e }
unfolding external blank
requested-view c e = simp (set_enumerable-view, set_configurable-view, view-zero)

-- The attributes that `new` gives a data property and an accessor property.
abbrev data_attrs : PropertyDescriptor → AttrSafe
data_attrs desc = create_data (
    set_writable
      (set_enumerable (set_configurable (external none) (is_configurable desc.attrs))
        (is_enumerable desc.attrs))
      (is_writable desc.attrs))

abbrev accessor_attrs : PropertyDescriptor → AttrSafe
accessor_attrs desc = create_accessor (
    set_enumerable (set_configurable (external none) (is_configurable desc.attrs))
      (is_enumerable desc.attrs))

data_attrs-view :
    (desc : PropertyDescriptor)
    → view (raw (data_attrs desc)) ≡ record blank {
      c = (desc_flags desc).c;
      e = (desc_flags desc).e;
      w = (desc_flags desc).w;
      d = true;
    }
unfolding blank
data_attrs-view desc =
    simp (create_data-view, set_writable-view, requested-view, reads) (unfold blank in ground arith)

accessor_attrs-view :
    (desc : PropertyDescriptor)
    → view (raw (accessor_attrs desc))
      ≡ record blank { c = (desc_flags desc).c; e = (desc_flags desc).e; a = true }
unfolding blank
accessor_attrs-view desc = simp (create_accessor-view, requested-view, reads)

module _ (place : Cells → ℕ) (h : Cells) (s : StoredSlot)
    (st : is_stored (raw s.attributes) ≡ true) where
  new_data :
      (desc : PropertyDescriptor)
      → desc ≡ data_descriptor s.value (raw s.attributes)
      → new place h desc ≡ some (h, record { value = s.value; attributes = data_attrs desc })
  unfolding new first_word data_descriptor
  new_data desc e =
      let v = data_descriptor-view s.value (raw s.attributes) in
      let o = stored_flags s st in
      ground (arith, is_data-view desc.attrs, is_value_absent-view desc.attrs)

  -- A data property that is described and made anew has the same value and the same flags, and no
  -- accessor cell changes.
  pub data_round_trip :
      is_data s.attributes.attributes ≡ true
      → (s' : StoredSlot) × ((to_descriptor h s >>= new place h) ≡ some (h, s'))
        × (s'.value ≡ s.value)
        × (slot_flags s' ≡ slot_flags s)
  unfolding to_descriptor
  data_round_trip d =
      let desc = data_descriptor s.value (raw s.attributes) in
      let o = stored_flags s st in
      let v = data_descriptor-view s.value (raw s.attributes) in
      (
        record { value = s.value; attributes = data_attrs desc },
        rw d (new_data desc refl),
        refl,
        data_attrs-view desc
            ∙ (unfold blank in rw v (ground (arith, is_data-view s.attributes.attributes))),
      )

  new_accessor :
      (desc : PropertyDescriptor) (a : Accessor)
      → is_data s.attributes.attributes ≡ false
      → desc ≡ accessor_descriptor a.getter a.setter (raw s.attributes)
      → new place h desc
        ≡ some (
          write h (place h) a,
          record { value = encode_object_value (place h); attributes = accessor_attrs desc },
        )
  unfolding new first_word second_word accessor_descriptor
  new_accessor desc a d e =
      let v = accessor_descriptor-view a.getter a.setter (raw s.attributes) in
      ground (
        arith,
        is_data-view desc.attrs,
        is_accessor-view desc.attrs,
        is_data-view s.attributes.attributes,
      )

  new_accessor_cell :
      (desc : PropertyDescriptor) (a : Accessor)
      → is_object (encode_object_value (place h)) ≡ true
      → accessor_cell
          (write h (place h) a)
          (record { value = encode_object_value (place h); attributes = accessor_attrs desc })
        ≡ some a
  unfolding accessor_cell accessor get_object encode_object_value blank
  new_accessor_cell desc a obj =
      let on =
        is_accessor-view (accessor_attrs desc).attributes
        ∙ ap (λ (f : Flags). f.a) (accessor_attrs-view desc) in
      ground arith

  -- An accessor property that is described and made anew gets a cell of its own, at the address that
  -- the collector gives, with the same getter and setter; the flags are the same.
  pub accessor_round_trip :
      (a : Accessor)
      → is_data s.attributes.attributes ≡ false
      → accessor_cell h s ≡ some a
      → is_object (encode_object_value (place h)) ≡ true
      → (s' : StoredSlot) × ((to_descriptor h s >>= new place h) ≡ some (write h (place h) a, s'))
        × (accessor_cell (write h (place h) a) s' ≡ some a)
        × (slot_flags s' ≡ slot_flags s)
  unfolding to_descriptor
  accessor_round_trip a d cell obj =
      let desc = accessor_descriptor a.getter a.setter (raw s.attributes) in
      let o = stored_flags s st in
      let v = accessor_descriptor-view a.getter a.setter (raw s.attributes) in
      (
        record { value = encode_object_value (place h); attributes = accessor_attrs desc },
        rw (d, cell) (new_accessor desc a d refl),
        new_accessor_cell desc a obj,
        accessor_attrs-view desc
            ∙ (unfold blank in rw v (ground (arith, is_data-view s.attributes.attributes))),
      )
