-- ===== src/Property/Define.antt =====
-- The methods of `StoredSlot` that compare a property with a descriptor and change it
-- (crates/starlight/src/vm/property_descriptor.rs): `[[DefineOwnProperty]]` from step 5 on.
use js.Common.{ℕ, Bool, true, false, not, ◌&&◌, ◌||◌, Option, none, some}
use js.Common.{◌==◌, bool_eq, if◌then◌else◌, ◌>>=◌}
use js.Attributes.{
  AttrExternal, raw, external, un_safe, ty, is_enumerable, is_enumerable_absent, set_enumerable,
  is_configurable, is_configurable_absent, set_configurable, is_writable, is_writable_absent,
  set_writable, is_accessor, set_accessor, is_data, set_data, is_generic, is_value_absent,
  is_getter_absent, is_setter_absent, is_absent, create_data, create_accessor,
}
use js.Value.{Host, encode_undefined_value, encode_object_value, same_value}
use js.Property.{
  PropertyDescriptor, first_word, second_word, Accessor, Cells, write, StoredSlot, accessor,
  accessor_cell,
}

-- The messages of `reject!`.
pub data Reason : Type 0 where
  configurable enumerable kind writable value accessors : Reason

-- `Result<bool, JsValue>` with the flag that `returned` receives.
pub data Outcome : Type 0 where
  done : Bool → Bool → Outcome
  throw : Reason → Outcome

unfoldable pub reject : Bool → Reason → Outcome
reject throwable why = if throwable then throw why else done false false

unfoldable pub accessor_no_effect : Cells → StoredSlot → PropertyDescriptor → Option Bool
accessor_no_effect h s desc = do
  ac ← accessor_cell h s
  if first_word desc == ac.getter
      then (do set ← second_word desc; some (set == ac.setter))
      else some false

-- `(!rhs.is_setter_absent() && lhs.setter() != rhs.set()) || (...)`; the second operand of each
-- `&&` is read only if the first holds.
unfoldable pub changes_accessor : Accessor → PropertyDescriptor → Option Bool
changes_accessor lhs desc = do
  set ←
      (if is_setter_absent desc.attrs
        then some false
        else (do new ← second_word desc; some (not (lhs.setter == new))))
  some (set || not (is_getter_absent desc.attrs) && not (lhs.getter == first_word desc))

-- Step 11: accessor descriptors.
unfoldable pub accept_accessor : Cells → StoredSlot → PropertyDescriptor → Bool → Option Outcome
accept_accessor h s desc throwable =
    if not (is_configurable s.attributes.attributes)
    then (do
      lhs ← accessor_cell h s
      changes ← changes_accessor lhs desc
      some (if changes then reject throwable accessors else done true true))
    else some (done true true)

module _ (host : Host) where
  -- The branch of a data descriptor.
  unfoldable pub data_no_effect : StoredSlot → PropertyDescriptor → Option Bool
  data_no_effect s desc =
      if not (is_writable_absent desc.attrs)
        && not (bool_eq (is_writable desc.attrs) (is_writable s.attributes.attributes))
      then some false
      else if is_value_absent desc.attrs
      then some true
      else same_value host (first_word desc) s.value

  unfoldable pub merge_with_no_effect : Cells → StoredSlot → PropertyDescriptor → Option Bool
  merge_with_no_effect h s desc =
      let attrs = s.attributes.attributes in
      if not (is_configurable_absent desc.attrs)
        && not (bool_eq (is_configurable desc.attrs) (is_configurable attrs))
      then some false
      else if not (is_enumerable_absent desc.attrs)
          && not (bool_eq (is_enumerable desc.attrs) (is_enumerable attrs))
      then some false
      else if not (ty desc.attrs == ty attrs)
      then some false
      else if is_data desc.attrs
      then data_no_effect s desc
      else if is_accessor desc.attrs
      then accessor_no_effect h s desc
      else some true

  -- Step 10: data descriptors.
  unfoldable pub accept_data : StoredSlot → PropertyDescriptor → Bool → Option Outcome
  accept_data s desc throwable =
      if not (is_configurable s.attributes.attributes) && not (is_writable s.attributes.attributes)
      then (if is_writable desc.attrs then some (reject throwable writable) else (do
        same ← same_value host s.value (first_word desc)
        some (if not same then reject throwable value else done true true)))
      else some (done true true)

  -- Step 9 and after.
  unfoldable pub accept_kind : Cells → StoredSlot → PropertyDescriptor → Bool → Option Outcome
  accept_kind h s desc throwable =
      let attrs = s.attributes.attributes in
      if is_generic desc.attrs
      then some (done true true)
      else if not (bool_eq (is_data attrs) (is_data desc.attrs))
      then some (if not (is_configurable attrs) then reject throwable kind else done true true)
      else if is_data attrs
      then accept_data s desc throwable
      else accept_accessor h s desc throwable

  unfoldable pub accept_fields : Cells → StoredSlot → PropertyDescriptor → Bool → Option Outcome
  accept_fields h s desc throwable =
      let attrs = s.attributes.attributes in
      if not (is_configurable attrs) && is_configurable desc.attrs
      then some (reject throwable configurable)
      else if not (is_configurable attrs)
          && (not (is_enumerable_absent desc.attrs)
              && not (bool_eq (is_enumerable attrs) (is_enumerable desc.attrs)))
      then some (reject throwable enumerable)
      else accept_kind h s desc throwable

  unfoldable pub is_defined_property_accepted :
      Cells → StoredSlot → PropertyDescriptor → Bool → Option Outcome
  is_defined_property_accepted h s desc throwable =
      if is_absent desc.attrs then some (done false true) else (do
        same ← merge_with_no_effect h s desc
        if same then some (done false true) else accept_fields h s desc throwable)

-- The attributes that `merge` starts from: those of the property, with C and E of the descriptor.
unfoldable pub merge_attrs : StoredSlot → PropertyDescriptor → AttrExternal
merge_attrs s desc =
    let attr = external (some (raw s.attributes)) in
    let attr' =
      (if not (is_configurable_absent desc.attrs)
        then set_configurable attr (is_configurable desc.attrs)
        else attr) in
    if not (is_enumerable_absent desc.attrs)
    then set_enumerable attr' (is_enumerable desc.attrs)
    else attr'

unfoldable pub merge_data : StoredSlot → PropertyDescriptor → AttrExternal → StoredSlot
merge_data s desc attr =
    let attr' = set_data attr in
    record {
      value = if not (is_value_absent desc.attrs) then first_word desc else s.value;
      attributes = un_safe (
          if not (is_writable_absent desc.attrs)
          then set_writable attr' (is_writable desc.attrs)
          else attr');
    }

-- `set_getter` and `set_setter` on the cell at `p`.
unfoldable pub merge_cell : Cells → ℕ → PropertyDescriptor → Option Cells
merge_cell h p desc = do
  c ← h p
  set ← (if not (is_setter_absent desc.attrs) then second_word desc else some c.setter)
  some (
      write h p (record {
        getter = if not (is_getter_absent desc.attrs) then first_word desc else c.getter;
        setter = set;
      }))

-- `place h` is the address at which the collector allocates a new cell.
module _ (place : Cells → ℕ) where
  unfoldable pub merge_accessor :
      Cells → StoredSlot → PropertyDescriptor → AttrExternal → Option (Cells × StoredSlot)
  merge_accessor h s desc attr =
      let attributes = un_safe (set_accessor attr) in
      if is_accessor s.attributes.attributes
      then (do
        p ← accessor s
        h' ← merge_cell h p desc
        some (h', record s { attributes = attributes }))
      else (let p = place h in
          let blank : Accessor = record {
            getter = encode_undefined_value;
            setter = encode_undefined_value;
          } in
          do
            h' ← merge_cell (write h p blank) p desc
            some (h', record { value = encode_object_value p; attributes = attributes }))

  unfoldable pub merge : Cells → StoredSlot → PropertyDescriptor → Option (Cells × StoredSlot)
  merge h s desc =
      let attr = merge_attrs s desc in
      if is_generic desc.attrs
      then some (h, record s { attributes = un_safe attr })
      else if is_data desc.attrs
      then some (h, merge_data s desc attr)
      else merge_accessor h s desc attr

  -- `StoredSlot::new`
  unfoldable pub new : Cells → PropertyDescriptor → Option (Cells × StoredSlot)
  new h desc =
      let attributes =
        set_enumerable (set_configurable (external none) (is_configurable desc.attrs))
          (is_enumerable desc.attrs) in
      if is_data desc.attrs
      then some (
        h,
        record {
          value =
              if not (is_value_absent desc.attrs) then first_word desc else encode_undefined_value;
          attributes = create_data (set_writable attributes (is_writable desc.attrs));
        },
      )
      else if is_accessor desc.attrs
      then (do
        set ← second_word desc
        let p = place h
        some (
          write h p (record { getter = first_word desc; setter = set }),
          record { value = encode_object_value p; attributes = create_accessor attributes },
        ))
      else some (h, record { value = encode_undefined_value; attributes = create_data attributes })
