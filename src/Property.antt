-- ===== src/Property.antt =====
-- Property descriptors and stored properties: crates/starlight/src/vm/property_descriptor.rs.
-- The `Accessor` cells of the collector's heap are explicit, since properties share and change them;
-- where `allocate` puts a new cell is a parameter. `none` is a failed assertion, or a read of the
-- part of the union that was not written.
pub mod Define
pub mod Effects
pub mod Accept
pub mod Frozen
pub mod Build
pub mod Describe
mod Tests
use js.Common.{ℕ, bit_or, Bool, true, false, not, ◌&&◌, ◌||◌, Option, none, some, List}
use js.Common.{◌==◌, bool_eq, if◌then◌else◌, ◌>>=◌, ◌>>◌, assert}
use js.Attributes.{
  Raw, AttrExternal, AttrSafe, raw, external, not_found, un_safe, data_flag, accessor_flag,
  undef_value, undef_writable, undef_getter, undef_setter, ty, is_enumerable, is_enumerable_absent,
  set_enumerable, is_configurable, is_configurable_absent, set_configurable, is_writable,
  is_writable_absent, set_writable, is_accessor, set_accessor, is_data, set_data, is_generic,
  is_value_absent, is_getter_absent, is_setter_absent, is_absent, create_data, create_accessor,
  object_data,
}
use js.Value.{
  JsValue, Host, encode_undefined_value, encode_empty_value, encode_object_value, get_object,
  same_value,
}

-- `union PropertyLayout`: what was written into it.
pub data PropertyLayout : Type 0 where
  data_layout : JsValue → PropertyLayout
  accessors : JsValue → JsValue → PropertyLayout

pub record PropertyDescriptor : Type 0 where
  pub attrs : AttrExternal
  pub value : PropertyLayout

unfoldable pub data_descriptor : JsValue → Raw → PropertyDescriptor
data_descriptor val attrs = record {
  attrs = external (some (bit_or (bit_or (bit_or attrs data_flag) undef_getter) undef_setter));
  value = data_layout val;
}

unfoldable pub accessor_descriptor : JsValue → JsValue → Raw → PropertyDescriptor
accessor_descriptor getter setter attrs = record {
  attrs = external (some (bit_or (bit_or (bit_or attrs accessor_flag) undef_value) undef_writable));
  value = accessors getter setter;
}

unfoldable pub accessor_setter : JsValue → Raw → PropertyDescriptor
accessor_setter setter attrs = record {
  attrs = external (
      some (
        bit_or (bit_or (bit_or (bit_or attrs accessor_flag) undef_value) undef_setter)
          undef_writable));
  value = accessors encode_undefined_value setter;
}

unfoldable pub accessor_getter : JsValue → Raw → PropertyDescriptor
accessor_getter getter attrs = record {
  attrs = external (
      some (
        bit_or (bit_or (bit_or (bit_or attrs accessor_flag) undef_value) undef_setter)
          undef_writable));
  value = accessors getter encode_undefined_value;
}

unfoldable pub generic : Raw → PropertyDescriptor
generic attrs = record {
  attrs = external (
      some (
        bit_or (bit_or (bit_or (bit_or attrs undef_value) undef_getter) undef_setter)
          undef_writable));
  value = data_layout encode_empty_value;
}

unfoldable pub new_val : JsValue → AttrSafe → PropertyDescriptor
new_val val attrs = record { attrs = external (some (raw attrs)); value = data_layout val }

unfoldable pub new_getter_setter : JsValue → JsValue → AttrSafe → PropertyDescriptor
new_getter_setter getter setter attrs = record {
  attrs = external (some (raw attrs));
  value = accessors getter setter;
}

-- `value`, and `getter`: both read the first word of the union.
unfoldable pub first_word : PropertyDescriptor → JsValue
first_word desc = elim desc.value [ data_layout v ↦ v | accessors g s ↦ g ]

-- `setter` reads the second word.
unfoldable pub second_word : PropertyDescriptor → Option JsValue
second_word desc = elim desc.value [ data_layout v ↦ none | accessors g s ↦ some s ]

pub record Accessor : Type 0 where
  pub getter : JsValue
  pub setter : JsValue

-- The `Accessor` cells by address.
abbrev pub Cells : Type 0
Cells = ℕ → Option Accessor

abbrev pub write : Cells → ℕ → Accessor → Cells
write h p a q = if p == q then some a else h q

pub record StoredSlot : Type 0 where
  pub value : JsValue
  pub attributes : AttrSafe

unfoldable pub set_value : StoredSlot → JsValue → StoredSlot
set_value s val = record s { value = val }

unfoldable pub set_attributes : StoredSlot → AttrSafe → StoredSlot
set_attributes s attrs = record s { attributes = attrs }

unfoldable pub set_slot : StoredSlot → JsValue → AttrSafe → StoredSlot
set_slot s val attrs = record { value = val; attributes = attrs }

unfoldable pub empty_slot : StoredSlot
empty_slot = record { value = encode_empty_value; attributes = object_data }

unfoldable pub new_raw : JsValue → AttrSafe → StoredSlot
new_raw value attributes = record { value = value; attributes = attributes }

-- `StoredSlot::accessor`: the address of its cell.
unfoldable pub accessor : StoredSlot → Option ℕ
accessor s = do assert (is_accessor s.attributes.attributes); get_object s.value

-- The cell that `accessor` points to.
unfoldable pub accessor_cell : Cells → StoredSlot → Option Accessor
accessor_cell h s = do p ← accessor s; h p

unfoldable pub to_descriptor : Cells → StoredSlot → Option PropertyDescriptor
to_descriptor h s =
    if is_data s.attributes.attributes
    then some (data_descriptor s.value (raw s.attributes))
    else (do c ← accessor_cell h s; some (accessor_descriptor c.getter c.setter (raw s.attributes)))
