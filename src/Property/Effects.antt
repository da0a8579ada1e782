-- ===== src/Property/Effects.antt =====
-- What `merge` and `new` do to the flags of a property.
use js.Common.{ℕ, ◌≡◌, arith, Bool, true, false, not, ◌&&◌, ◌||◌, some}
use js.Common.{if◌then◌else◌, Bool-cases, inl, inr}
use js.Attributes.{AttrExternal, raw, external, un_safe, set_accessor}
use js.Attributes.View.{
  Flags, view, present, reads, set_configurable-view, set_enumerable-view, set_writable-view,
  set_data-view, set_accessor-view, is_generic-view, is_data-view,
}
use js.Attributes.Laws.{safe-view}
use js.Property.{PropertyDescriptor, StoredSlot, Cells}
use js.Property.Define.{merge_attrs, merge_data, merge_accessor, merge}

abbrev pub slot_flags : StoredSlot → Flags
slot_flags s = view s.attributes.attributes.raw

abbrev pub desc_flags : PropertyDescriptor → Flags
desc_flags desc = view desc.attrs.raw

abbrev pub lacks_kind : Flags → Bool
lacks_kind g = not (g.d || g.a || g.empty)

-- A descriptor's C and E replace those of the property, unless they are absent.
abbrev pub with_fields : Flags → Flags → Flags
with_fields f g = record f {
  c = if g.no_c then f.c else g.c;
  no_c = g.no_c && f.no_c;
  e = if g.no_e then f.e else g.e;
  no_e = g.no_e && f.no_e;
}

-- The flags of a property after a merge.
abbrev pub merged : Flags → Flags → Flags
merged f g =
    let base = with_fields f g in
    present (
      if lacks_kind g
      then base
      else if g.d
      then record base { w = if g.no_w then f.w else g.w; d = true; a = false }
      else record base { w = false; d = false; a = true })

un_safe-view : (x : AttrExternal) → view (raw (un_safe x)) ≡ present (view x.raw)
unfolding un_safe
un_safe-view x = safe-view x.raw

merge_attrs-view :
    (s : StoredSlot) (desc : PropertyDescriptor)
    → view (merge_attrs s desc).raw ≡ with_fields (slot_flags s) (desc_flags desc)
unfolding merge_attrs external
merge_attrs-view s desc = elim (Bool-cases (desc_flags desc).no_c) [
  | inl hc ↦ elim (Bool-cases (desc_flags desc).no_e) [
    | inl he ↦ simp (reads, hc, he)
    | inr he ↦ simp (reads, hc, he, set_enumerable-view)
  ]
  | inr hc ↦ elim (Bool-cases (desc_flags desc).no_e) [
    | inl he ↦ simp (reads, hc, he, set_configurable-view)
    | inr he ↦ simp (reads, hc, he, set_configurable-view, set_enumerable-view)
  ]
]

merge_data-view :
    (s : StoredSlot) (desc : PropertyDescriptor) (x : AttrExternal)
    → slot_flags (merge_data s desc x)
      ≡ present (record (view x.raw) {
        w = if (desc_flags desc).no_w then (view x.raw).w else (desc_flags desc).w;
        d = true;
        a = false;
      })
unfolding merge_data
merge_data-view s desc x = elim (Bool-cases (desc_flags desc).no_w) [
  | inl h ↦ simp (reads, h, un_safe-view, set_data-view)
  | inr h ↦ simp (reads, h, un_safe-view, set_writable-view, set_data-view)
]

accessor_attrs-view :
    (x : AttrExternal)
    → view (raw (un_safe (set_accessor x)))
      ≡ present (record (view x.raw) { w = false; d = false; a = true })
accessor_attrs-view x = simp (un_safe-view, set_accessor-view)

module _ (place : Cells → ℕ) where
  merge_accessor-attributes :
      (h : Cells) (s : StoredSlot) (desc : PropertyDescriptor) (x : AttrExternal) {h' : Cells}
      {s' : StoredSlot}
      → merge_accessor place h s desc x ≡ some (h', s')
      → s'.attributes ≡ un_safe (set_accessor x)
  unfolding merge_accessor
  merge_accessor-attributes h s desc x e = ground arith

  -- The flags of a property after `merge`, whatever the property and the descriptor.
  pub merge-flags :
      (h : Cells) (s : StoredSlot) (desc : PropertyDescriptor) {h' : Cells} {s' : StoredSlot}
      → merge place h s desc ≡ some (h', s')
      → slot_flags s' ≡ merged (slot_flags s) (desc_flags desc)
  unfolding merge
  merge-flags h s desc {h'} {s'} e =
      let attr = merge_attrs s desc in
      let base = merge_attrs-view s desc in
      let g = is_generic-view desc.attrs in
      let d = is_data-view desc.attrs in
      elim (Bool-cases (lacks_kind (desc_flags desc))) [
        | inl hg ↦ ground (arith, un_safe-view attr)
        | inr hg ↦ elim (Bool-cases (desc_flags desc).d) [
          | inl hd ↦ ground (arith, merge_data-view s desc attr)
          | inr hd ↦ ground (
            arith,
            merge_accessor-attributes h s desc attr {h' = h'} {s' = s'},
            accessor_attrs-view attr,
          )
        ]
      ]
