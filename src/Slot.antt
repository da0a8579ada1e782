-- ===== src/Slot.antt =====
-- Property slots, the result of a lookup with what inline caches need of it:
-- crates/starlight/src/vm/slot.rs.
-- `u32::MAX` is the absent offset. Whether a base is a `JsObject` is a question to the heap, a
-- parameter of the tests that ask it. A method with `&mut self` returns the new slot.
pub mod Calls
pub mod Flags
pub mod Laws
use js.Common.{
  ℕ, ◌*◌, ◌/◌, ◌-◌, ◌^◌, bit_and, bit_or, Bool, true, false, not, ◌&&◌, Option, none, some,
}
use js.Common.{◌==◌, if◌then◌else◌}
use js.Attributes.{AttrSafe, not_found, invert, is_data, is_simple_data, is_not_found}
use js.Value.{JsValue, encode_empty_value, encode_undefined_value}
use js.Property.{StoredSlot, set_slot, new_raw}

abbrev pub flag_used : ℕ
flag_used = 1

abbrev pub flag_cacheable : ℕ
flag_cacheable = 2

abbrev pub flag_put_cacheable : ℕ
flag_put_cacheable = 4

abbrev pub flag_force_put_uncacheable : ℕ
flag_force_put_uncacheable = 8

abbrev pub flag_init : ℕ
flag_init = flag_cacheable

abbrev pub put_shift : ℕ
put_shift = 4

abbrev pub put_mask : ℕ
put_mask = 3

abbrev pub u32_max : ℕ
u32_max = 2 ^ 32 - 1

pub data PutResultType : Type 0 where
  no_result replace new_property indexed_optimized : PutResultType

-- `ty as u32`
abbrev pub discriminant : PutResultType → ℕ
discriminant no_result = 0
discriminant replace = 1
discriminant new_property = 2
discriminant indexed_optimized = 3

-- `transmute` of a number below 4
abbrev pub from_discriminant : ℕ → PutResultType
from_discriminant n =
    if n == 0
    then no_result
    else if n == 1
    then replace
    else if n == 2
    then new_property
    else indexed_optimized

pub record Slot : Type 0 where
  pub parent : StoredSlot
  pub base : Option ℕ
  pub offset : ℕ
  pub flags : ℕ

abbrev pub has_flag : Slot → ℕ → Bool
has_flag s flag = not (bit_and s.flags flag == 0)

unfoldable pub new : Slot
new = record {
  parent = new_raw encode_undefined_value not_found;
  offset = u32_max;
  flags = flag_init;
  base = none;
}

unfoldable pub is_cacheable : (ℕ → Bool) → Slot → Bool
is_cacheable is_object s =
    has_flag s flag_cacheable && (elim s.base [ none ↦ false | some obj ↦ is_object obj ])

unfoldable pub is_put_force_uncacheable : Slot → Bool
is_put_force_uncacheable s = has_flag s flag_force_put_uncacheable

unfoldable pub set_put_result_type : Slot → PutResultType → Slot
set_put_result_type s ty =
    let cleared = bit_and s.flags (invert (put_mask * 2 ^ put_shift)) in
    record s { flags = bit_or cleared (discriminant ty * 2 ^ put_shift) }

unfoldable pub put_result_type : Slot → PutResultType
put_result_type s = from_discriminant (bit_and (s.flags / 2 ^ put_shift) put_mask)

unfoldable pub mark_put_result : Slot → PutResultType → ℕ → Slot
mark_put_result s ty offset =
    let typed = set_put_result_type s ty in
    record typed { offset = offset; flags = bit_or typed.flags flag_put_cacheable }

unfoldable pub is_used : Slot → Bool
is_used s = has_flag s flag_used

unfoldable pub clear : Slot → Slot
clear s = record {
  parent = set_slot s.parent encode_empty_value not_found;
  flags = flag_init;
  base = none;
  offset = u32_max;
}

unfoldable pub make_used : Slot → Slot
make_used s = record s { flags = bit_and s.flags (invert flag_used) }

unfoldable pub is_put_cacheable : Slot → Bool
is_put_cacheable s = has_flag s flag_put_cacheable && not (is_put_force_uncacheable s)

unfoldable pub make_put_uncacheable : Slot → Slot
make_put_uncacheable s = record s { flags = bit_or s.flags flag_force_put_uncacheable }

unfoldable pub make_uncacheable : Slot → Slot
make_uncacheable s = record s { flags = bit_and s.flags (invert flag_cacheable) }

unfoldable pub set_1 : Slot → JsValue → AttrSafe → Option ℕ → Slot
set_1 s value attributes obj =
    let moved =
      make_uncacheable (make_used (record s { parent = set_slot s.parent value attributes })) in
    record moved { base = obj; offset = u32_max }

unfoldable pub set_woffset : Slot → JsValue → AttrSafe → Option ℕ → ℕ → Slot
set_woffset s value attributes obj offset =
    let moved = make_used (record s { parent = set_slot s.parent value attributes }) in
    record moved { base = obj; offset = offset }

unfoldable pub set_from_slot : Slot → StoredSlot → Option ℕ → Slot
set_from_slot s slot obj = set_1 s slot.value slot.attributes obj

unfoldable pub is_load_cacheable : (ℕ → Bool) → Slot → Bool
is_load_cacheable is_object s = is_cacheable is_object s && is_data s.parent.attributes.attributes

unfoldable pub is_store_cacheable : (ℕ → Bool) → Slot → Bool
is_store_cacheable is_object s = is_cacheable is_object s && is_simple_data s.parent.attributes

unfoldable pub has_offset : Slot → Bool
has_offset s = not (s.offset == u32_max)

unfoldable pub is_slot_not_found : Slot → Bool
is_slot_not_found s = is_not_found s.parent.attributes
