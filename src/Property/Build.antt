-- ===== src/Property/Build.antt =====
-- The properties that `StoredSlot::new` and `merge` build, and descriptors made from a property
-- (crates/starlight/src/vm/property_descriptor.rs).
use mathlib.Core.Option
use js.Common.{ℕ, ◌≡◌, ◌∙◌, arith, true, false, none, some}
use js.Common.{◌≢◌}
use js.Attributes.{
  raw, external, is_stored, is_configurable, is_writable, is_enumerable, set_enumerable,
  set_configurable, set_writable,
}
use js.Attributes.Laws.{create_stored, is_stored-view, has-undefs}
use js.Value.{Host}
use js.Property.{PropertyDescriptor, StoredSlot, Cells}
use js.Property.Define.{
  Outcome, done, throw, reject, new, merge, accept_data, accept_accessor, accept_kind,
  accept_fields, is_defined_property_accepted,
}
use js.Property.Effects.{merge-flags}
use js.Property.Frozen.{stored_flags}

module _ (place : Cells → ℕ) (h : Cells) (h' : Cells) (s' : StoredSlot) where
  -- Whatever the descriptor, the attributes of a new property may be stored.
  pub new_stored :
      (desc : PropertyDescriptor)
      → new place h desc ≡ some (h', s')
      → is_stored (raw s'.attributes) ≡ true
  unfolding new
  new_stored desc e =
      let x =
        set_enumerable (set_configurable (external none) (is_configurable desc.attrs))
          (is_enumerable desc.attrs) in
      ground (arith, create_stored x, create_stored (set_writable x (is_writable desc.attrs)))

  -- A merge with any descriptor turns attributes that may be stored into such attributes.
  pub merge_stored :
      (s : StoredSlot) (desc : PropertyDescriptor)
      → is_stored (raw s.attributes) ≡ true
      → merge place h s desc ≡ some (h', s')
      → is_stored (raw s'.attributes) ≡ true
  merge_stored s desc st e =
      let f = merge-flags place h s desc e in
      let o = stored_flags s st in
      let n = has-undefs (raw s'.attributes) in
      is_stored-view (raw s'.attributes) ∙ simp (has-undefs, f) (ground arith)

-- The same request, with the exception that `throwable` asks for turned back into `Ok(false)`.
abbrev pub soften : Outcome → Outcome
soften (done accepted returned) = done accepted returned
soften (throw why) = done false false

module _ (host : Host) (h : Cells) (s : StoredSlot) (desc : PropertyDescriptor) where
  -- `throwable` decides only how a rejection is reported: with it, every rejection is an exception,
  -- without it none is, and the requests that are accepted or ignored are the same.
  pub throwable_reports :
      (Option.map soften (is_defined_property_accepted host h s desc true)
        ≡ is_defined_property_accepted host h s desc false)
      × (is_defined_property_accepted host h s desc true ≢ some (done false false))
  unfolding is_defined_property_accepted accept_fields accept_kind accept_data accept_accessor
      reject
  throwable_reports = (ground arith, λ e. ground arith)
