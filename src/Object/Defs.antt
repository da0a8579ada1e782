-- ===== src/Object/Defs.antt =====
-- `JsObject` and its indexed properties: crates/starlight/src/vm/object.rs.
-- The methods are those of an ordinary object: its class does not replace
-- `GetOwnIndexedPropertySlot`. Only what all methods share is here.
use js.Common.{ℕ, bit_and, bit_or, Bool, true, false, not, ◌&&◌, Option, some}
use js.Common.{◌==◌, if◌then◌else◌, ◌>>=◌}
use js.Attributes.{
  invert, is_enumerable, is_enumerable_absent, is_configurable, is_configurable_absent, is_accessor,
  is_data, is_writable, is_writable_absent,
}
use js.Value.{Host}
use js.Property.{PropertyDescriptor, Cells}
use js.Property.Define.{Reason}
use js.ArrayStorage.Memory.{Memory}
use js.ArrayStorage.Defs.{ArrayStorage}
use js.Structure.Defs.{Heap}
use js.Structure.Transitions.{change_extensible_transition}
use js.Object.Elements.{IndexedElements, make_sparse}

abbrev pub obj_flag_callable : ℕ
obj_flag_callable = 2

abbrev pub obj_flag_extensible : ℕ
obj_flag_extensible = 1

-- `slots` is the storage of the named properties.
pub record JsObject : Type 0 where
  pub structure : ℕ
  pub indexed : IndexedElements
  pub slots : ArrayStorage
  pub flags : ℕ

pub record State : Type 0 where
  pub heap : Heap
  pub cells : Cells
  pub object : JsObject

-- What the methods take from the rest of the engine: the host, the address of the next accessor cell, which
-- structures are alive, and what a new allocation holds.
pub record Engine : Type 1 where
  pub host : Host
  pub place : Cells → ℕ
  pub alive : ℕ → Bool
  pub fresh : Memory

-- The messages of the exceptions that these methods throw.
pub data Message : Type 0 where
  rejected : Reason → Message
  length_not_writable not_extensible not_configurable put_failed : Message

-- `Result<bool, JsValue>`
pub data Completion : Type 0 where
  ok : Bool → Completion
  type_error : Message → Completion

unfoldable pub refuse : Bool → Message → Completion
refuse throwable why = if throwable then type_error why else ok false

unfoldable pub is_extensible : JsObject → Bool
is_extensible o = not (bit_and o.flags obj_flag_extensible == 0)

unfoldable pub is_callable : JsObject → Bool
is_callable o = not (bit_and o.flags obj_flag_callable == 0)

unfoldable pub set_callable : JsObject → Bool → JsObject
set_callable o val =
    if val
    then record o { flags = bit_or o.flags obj_flag_callable }
    else record o { flags = bit_and o.flags (invert obj_flag_callable) }

unfoldable pub is_absent_descriptor : PropertyDescriptor → Bool
is_absent_descriptor desc =
    if not (is_enumerable desc.attrs) && not (is_enumerable_absent desc.attrs)
    then false
    else if not (is_configurable desc.attrs) && not (is_configurable_absent desc.attrs)
    then false
    else if is_accessor desc.attrs
    then false
    else if is_data desc.attrs
    then is_writable desc.attrs && is_writable_absent desc.attrs
    else true

unfoldable pub change_extensible : State → Bool → Option State
change_extensible s val =
    let o = s.object in
    let flags =
      (if val
        then bit_or o.flags obj_flag_extensible
        else bit_and o.flags (invert obj_flag_extensible)) in
    let (heap, structure) = change_extensible_transition s.heap o.structure in
    do
      indexed ← make_sparse o.indexed
      some (record s {
        heap = heap;
        object = record o { flags = flags; structure = structure; indexed = indexed };
      })
