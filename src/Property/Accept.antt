-- ===== src/Property/Accept.antt =====
-- What `is_defined_property_accepted` lets through: the invariants of a property that may not be
-- configured, across the `merge` that follows an accepted request.
use js.Common.{◌≡◌, arith, Bool, true, false, some, not, ◌&&◌, if◌then◌else◌}
use js.Common.{Option-cases, inl, inr}
use js.Attributes.{is_data, is_accessor, is_configurable, is_writable, is_enumerable}
use js.Attributes.View.{
  is_generic-view, is_data-view, is_configurable-view, is_enumerable-view,
  is_enumerable_absent-view, is_writable-view,
}
use js.Value.{Host, same_value}
use js.Property.{PropertyDescriptor, StoredSlot, Cells, Accessor, first_word, accessor_cell}
use js.Property.Define.{
  done, reject, accept_data, changes_accessor, accept_accessor, accept_kind, accept_fields,
  is_defined_property_accepted,
}
use js.Property.Effects.{slot_flags, desc_flags, lacks_kind}

module _ (host : Host) (h : Cells) (s : StoredSlot) (desc : PropertyDescriptor)
    (throwable : Bool) where
  -- An accepted request passed all the checks.
  pub accepted_fields :
      is_defined_property_accepted host h s desc throwable ≡ some (done true true)
      → accept_fields host h s desc throwable ≡ some (done true true)
  unfolding is_defined_property_accepted
  accepted_fields e = ground arith

  pub accepted_kind :
      accept_fields host h s desc throwable ≡ some (done true true)
      → (slot_flags s).c ≡ false
      → ((desc_flags desc).c ≡ false)
        × ((desc_flags desc).no_e ≡ false → (desc_flags desc).e ≡ (slot_flags s).e)
        × (accept_kind host h s desc throwable ≡ some (done true true))
  unfolding accept_fields reject
  accepted_kind e c =
      let s1 = is_configurable-view s.attributes.attributes in
      let d1 = is_configurable-view desc.attrs in
      let s2 = is_enumerable-view s.attributes.attributes in
      let d2 = is_enumerable-view desc.attrs in
      let d3 = is_enumerable_absent-view desc.attrs in
      (ground arith, λ p. ground arith, ground arith)

  pub accepted_data :
      accept_kind host h s desc throwable ≡ some (done true true)
      → (slot_flags s).c ≡ false
      → lacks_kind (desc_flags desc) ≡ false
      → ((desc_flags desc).d ≡ (slot_flags s).d)
        × ((slot_flags s).d ≡ true → accept_data host s desc throwable ≡ some (done true true))
        × ((slot_flags s).d ≡ false → accept_accessor h s desc throwable ≡ some (done true true))
  unfolding accept_kind reject
  accepted_data e c g =
      let s1 = is_configurable-view s.attributes.attributes in
      let s2 = is_data-view s.attributes.attributes in
      let d2 = is_data-view desc.attrs in
      let d3 = is_generic-view desc.attrs in (ground arith, λ p. ground arith, λ p. ground arith)

  pub accepted_value :
      accept_data host s desc throwable ≡ some (done true true)
      → (slot_flags s).c ≡ false
      → (slot_flags s).w ≡ false
      → ((desc_flags desc).w ≡ false) × (same_value host s.value (first_word desc) ≡ some true)
  unfolding accept_data reject
  accepted_value e c w =
      let s1 = is_configurable-view s.attributes.attributes in
      let s2 = is_writable-view s.attributes.attributes in
      let d2 = is_writable-view desc.attrs in (ground arith, ground arith)

  pub accepted_accessor :
      accept_accessor h s desc throwable ≡ some (done true true)
      → (slot_flags s).c ≡ false
      → (a : Accessor) × (accessor_cell h s ≡ some a) × (changes_accessor a desc ≡ some false)
  unfolding accept_accessor reject
  accepted_accessor e c = elim (Option-cases (accessor_cell h s)) [
    | inl n ↦ absurd (ground (arith, is_configurable-view s.attributes.attributes))
    | inr (a, q) ↦ (a, q, ground (arith, is_configurable-view s.attributes.attributes))
  ]

-- The invariants of a property that may not be configured: it stays so, it keeps E and its kind;
-- if it is read-only it stays read-only, and keeps its value up to `same_value` if it is data; an accessor keeps
-- its functions. A writable one may get another value and become read-only.
pub record KeepsFrozen (host : Host) (h : Cells) (s : StoredSlot) (h' : Cells) (s' : StoredSlot)
    : Type 0 where
  pub same_c : is_configurable s'.attributes.attributes ≡ false
  pub same_e : is_enumerable s'.attributes.attributes ≡ is_enumerable s.attributes.attributes
  pub same_d : is_data s'.attributes.attributes ≡ is_data s.attributes.attributes
  pub same_a : is_accessor s'.attributes.attributes ≡ is_accessor s.attributes.attributes
  pub same_w :
      (if is_writable s.attributes.attributes
        then true
        else not (is_writable s'.attributes.attributes))
      ≡ true
  pub same_value_if_read_only :
      (if is_data s.attributes.attributes && not (is_writable s.attributes.attributes)
        then same_value host s.value s'.value
        else some true)
      ≡ some true
  pub same_functions :
      (if is_accessor s.attributes.attributes then accessor_cell h' s' else accessor_cell h s)
      ≡ accessor_cell h s
