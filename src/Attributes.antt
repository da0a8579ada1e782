-- ===== src/Attributes.antt =====
-- Property attributes: crates/starlight/src/vm/attributes.rs.
-- `Raw` is a `u32`; `!x` on it is `invert x`, and `x != 0` is written `not (x == 0)`.
-- A method with `&mut self` returns the new value.
pub mod View
pub mod Laws
use js.Common.{ℕ, ◌-◌, ◌^◌, bit_and, bit_or, Bool, true, false, not, ◌&&◌, Option, none, some}
use js.Common.{◌==◌, if◌then◌else◌}

abbrev pub Raw : Type 0
Raw = ℕ

abbrev pub none_attrs : Raw
none_attrs = 0

abbrev pub writable : Raw
writable = 1

abbrev pub enumerable : Raw
enumerable = 2

abbrev pub configurable : Raw
configurable = 4

abbrev pub data_flag : Raw
data_flag = 8

abbrev pub accessor_flag : Raw
accessor_flag = 16

abbrev pub empty_flag : Raw
empty_flag = 32

abbrev pub undef_writable : Raw
undef_writable = 64

abbrev pub undef_enumerable : Raw
undef_enumerable = 128

abbrev pub undef_configurable : Raw
undef_configurable = 256

abbrev pub undef_value : Raw
undef_value = 512

abbrev pub undef_getter : Raw
undef_getter = 1024

abbrev pub undef_setter : Raw
undef_setter = 2048

-- `!x` on a `u32`.
abbrev pub invert : Raw → Raw
invert x = 2 ^ 32 - 1 - x

abbrev pub type_mask : Raw
type_mask = bit_or data_flag accessor_flag

abbrev pub default_undefs : Raw
default_undefs =
    bit_or
      (bit_or
        (bit_or (bit_or (bit_or undef_writable undef_enumerable) undef_configurable) undef_value)
        undef_getter)
      undef_setter

abbrev pub undefs : Raw
undefs = bit_or empty_flag default_undefs

-- `(attrs & mask) != 0`.
abbrev pub has : Raw → Raw → Bool
has attrs mask = not (bit_and attrs mask == 0)

unfoldable pub is_stored : Raw → Bool
is_stored attrs =
    if has attrs undefs
    then false
    else if has attrs data_flag
    then bit_and attrs accessor_flag == 0
    else if has attrs accessor_flag
    then bit_and attrs writable == 0
    else false

unfoldable pub remove_undefs : Raw → Raw
remove_undefs attrs = bit_and attrs (invert undefs)

pub record AttrExternal : Type 0 where
  pub raw : Raw

-- `AttrExternal::new`
unfoldable pub external : Option Raw → AttrExternal
external none = record { raw = none_attrs }
external (some attrs) = record { raw = attrs }

unfoldable pub ty : AttrExternal → Raw
ty a = bit_and a.raw type_mask

unfoldable pub is_enumerable : AttrExternal → Bool
is_enumerable a = has a.raw enumerable

unfoldable pub is_enumerable_absent : AttrExternal → Bool
is_enumerable_absent a = has a.raw undef_enumerable

unfoldable pub set_enumerable : AttrExternal → Bool → AttrExternal
set_enumerable a val =
    if val
    then record { raw = bit_or (bit_and a.raw (invert undef_enumerable)) enumerable }
    else record { raw = bit_and (bit_and a.raw (invert undef_enumerable)) (invert enumerable) }

unfoldable pub is_configurable : AttrExternal → Bool
is_configurable a = has a.raw configurable

unfoldable pub is_configurable_absent : AttrExternal → Bool
is_configurable_absent a = has a.raw undef_configurable

unfoldable pub set_configurable : AttrExternal → Bool → AttrExternal
set_configurable a val =
    if val
    then record { raw = bit_or (bit_and a.raw (invert undef_configurable)) configurable }
    else record { raw = bit_and (bit_and a.raw (invert undef_configurable)) (invert configurable) }

unfoldable pub is_writable : AttrExternal → Bool
is_writable a = has a.raw writable

unfoldable pub is_writable_absent : AttrExternal → Bool
is_writable_absent a = has a.raw undef_writable

unfoldable pub set_writable : AttrExternal → Bool → AttrExternal
set_writable a val =
    if val
    then record { raw = bit_or (bit_and a.raw (invert undef_writable)) writable }
    else record { raw = bit_and (bit_and a.raw (invert undef_writable)) (invert writable) }

unfoldable pub is_accessor : AttrExternal → Bool
is_accessor a = has a.raw accessor_flag

unfoldable pub set_accessor : AttrExternal → AttrExternal
set_accessor a = record {
  raw = bit_or (bit_and a.raw (invert (bit_or data_flag writable))) accessor_flag;
}

unfoldable pub is_data : AttrExternal → Bool
is_data a = has a.raw data_flag

unfoldable pub set_data : AttrExternal → AttrExternal
set_data a = record { raw = bit_or (bit_and a.raw (invert accessor_flag)) data_flag }

unfoldable pub is_generic : AttrExternal → Bool
is_generic a = bit_and a.raw (bit_or (bit_or data_flag accessor_flag) empty_flag) == 0

unfoldable pub is_empty : AttrExternal → Bool
is_empty a = has a.raw empty_flag

unfoldable pub is_value_absent : AttrExternal → Bool
is_value_absent a = has a.raw undef_value

unfoldable pub is_getter_absent : AttrExternal → Bool
is_getter_absent a = has a.raw undef_getter

unfoldable pub is_setter_absent : AttrExternal → Bool
is_setter_absent a = has a.raw undef_setter

unfoldable pub is_absent : AttrExternal → Bool
unfolding is_configurable_absent is_enumerable_absent is_generic
is_absent a = is_configurable_absent a && is_enumerable_absent a && is_generic a

unfoldable pub is_default : AttrExternal → Bool
is_default a =
    let def = bit_or (bit_or (bit_or configurable enumerable) data_flag) writable in
    bit_and a.raw def == def

unfoldable pub fill_enumerable_and_configurable : AttrExternal → AttrExternal
unfolding is_configurable_absent is_enumerable_absent
fill_enumerable_and_configurable a =
    let b : AttrExternal =
      (if is_configurable_absent a
        then record { raw = bit_and a.raw (invert undef_configurable) }
        else a) in
    if is_enumerable_absent b then record { raw = bit_and b.raw (invert undef_enumerable) } else b

pub record AttrSafe : Type 0 where
  pub attributes : AttrExternal

-- `AttrSafe::new`
unfoldable pub safe : Raw → AttrSafe
unfolding remove_undefs external
safe attr = record { attributes = external (some (remove_undefs attr)) }

unfoldable pub not_found : AttrSafe
unfolding external
not_found = record { attributes = external none }

unfoldable pub un_safe : AttrExternal → AttrSafe
un_safe attr = safe attr.raw

abbrev pub raw : AttrSafe → Raw
raw a = a.attributes.raw

unfoldable pub is_simple_data : AttrSafe → Bool
is_simple_data a = let value = bit_or data_flag writable in bit_and a.attributes.raw value == value

unfoldable pub is_not_found : AttrSafe → Bool
is_not_found a = raw a == none_attrs

unfoldable pub create_data : AttrExternal → AttrSafe
create_data attrs =
    let filled = set_data (fill_enumerable_and_configurable attrs) in
    safe (if is_writable_absent filled then set_writable filled false else filled).raw

unfoldable pub create_accessor : AttrExternal → AttrSafe
create_accessor attrs = safe (set_accessor (fill_enumerable_and_configurable attrs)).raw

unfoldable pub object_data : AttrSafe
object_data = create_data (external (some (bit_or (bit_or writable enumerable) configurable)))

unfoldable pub object_accessor : AttrSafe
object_accessor = create_accessor (external (some (bit_or enumerable configurable)))

unfoldable pub string_length : AttrSafe
string_length = create_data (external none)

unfoldable pub string_indexed : AttrSafe
string_indexed = create_data (external (some enumerable))
