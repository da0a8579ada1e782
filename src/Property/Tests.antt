-- ===== src/Property/Tests.antt =====
-- Concrete properties and requests (crates/starlight/src/vm/property_descriptor.rs).
use js.Common.{ℕ, ◌≡◌, refl, true, some, none, ◌==◌, if◌then◌else◌}
use js.Attributes.{
  raw, is_stored, is_data, is_accessor, is_configurable, is_configurable_absent,
  is_enumerable_absent, is_writable_absent, is_value_absent, is_generic, is_enumerable, is_writable,
  set_data, set_writable, un_safe, safe, external, remove_undefs, ty, is_absent, is_empty,
}
use js.Value.{is_number, same_value, same_value_impl, same_number, get_number, get_int32, is_int32}
use js.Value.Tests.{bit_host, bit_host-IsFloat}
use js.Property.{StoredSlot, PropertyDescriptor, Cells, data_descriptor, first_word}
use js.Property.Define.{
  is_defined_property_accepted, merge, merge_attrs, merge_data, done, merge_with_no_effect,
  data_no_effect, accept_fields, accept_kind, accept_data,
}
use js.Property.Accept.{KeepsFrozen}
use js.Property.Frozen.{frozen_kept}
use js.Property.Build.{merge_stored}

-- One accessor cell.
abbrev cells : Cells
cells p = if p == 0x1000 then some (record { getter = 0x2000; setter = 0x3000 }) else none

abbrev place_at : Cells → ℕ
place_at h = 0x4000

-- A data property that is writable and not configurable.
abbrev fixed : StoredSlot
fixed = record {
  value = 0xfffe000000000001;
  attributes = record { attributes = record { raw = 9 } };
}

-- An accessor property that is configurable.
abbrev computed : StoredSlot
computed = record { value = 0x1000; attributes = record { attributes = record { raw = 20 } } }

-- A request for another value and for W to be false.
abbrev close : PropertyDescriptor
close = data_descriptor 0xfffe000000000002 384

abbrev closed : StoredSlot
closed = record {
  value = 0xfffe000000000002;
  attributes = record { attributes = record { raw = 8 } };
}

closed_by_merge : merge place_at cells fixed close ≡ some (cells, closed)
unfolding merge merge_attrs merge_data data_descriptor first_word is_generic is_data is_accessor
    is_empty ty external is_configurable_absent is_enumerable_absent is_writable_absent
    is_value_absent is_writable set_data set_writable un_safe safe remove_undefs
closed_by_merge = refl

close_accepted :
    is_defined_property_accepted bit_host cells fixed close true ≡ some (done true true)
unfolding is_defined_property_accepted merge_with_no_effect data_no_effect accept_fields accept_kind
    accept_data data_descriptor first_word is_generic is_data is_accessor is_empty ty
    is_configurable_absent is_enumerable_absent is_writable_absent is_value_absent is_writable
    is_configurable is_enumerable is_absent same_value same_value_impl same_number get_number
    get_int32 is_int32 is_number external
close_accepted = refl

frozen_kept_example : KeepsFrozen bit_host cells fixed cells closed
frozen_kept_example =
    frozen_kept bit_host bit_host-IsFloat place_at cells fixed close true cells closed
      (unfold is_stored in refl) (unfold is_configurable in refl) close_accepted closed_by_merge

merge_stored_example : is_stored (raw closed.attributes) ≡ true
merge_stored_example =
    merge_stored place_at cells cells closed fixed close (unfold is_stored in refl) closed_by_merge

-- A new property from a request for a value alone.
abbrev fresh_slot : StoredSlot
fresh_slot = record {
  value = 0xfffe000000000002;
  attributes = record { attributes = record { raw = 8 } };
}
