-- ===== src/Property/Frozen.antt =====
-- A property that may not be configured, across an accepted request and its `merge`
-- (crates/starlight/src/vm/property_descriptor.rs).
use js.Common.{ℕ, ◌≡◌, refl, arith, Bool, true, false, not, ◌||◌, ◌&&◌, Option, some}
use mathlib.Core.Option.{some-injective}
use js.Common.{◌>>=◌, ap₂, ap, sym, ◌∙◌, if◌then◌else◌, Bool-cases, Option-cases, inl, inr}
use js.Attributes.{
  raw, is_stored, is_data, is_writable, is_accessor, is_configurable, is_value_absent,
  is_setter_absent, is_getter_absent,
}
use js.Attributes.View.{
  is_generic-view, is_data-view, is_accessor-view, is_configurable-view, is_enumerable-view,
  is_writable-view, Flags,
}
use js.Attributes.Laws.{is_stored-view, has-undefs}
use js.Value.{Host, same_value}
use js.Value.Same.{IsFloat, same_value_refl}
use js.Property.{
  PropertyDescriptor, StoredSlot, Cells, Accessor, first_word, second_word, accessor, accessor_cell,
  write,
}
use js.Property.Define.{
  done, changes_accessor, is_defined_property_accepted, merge_data, merge_cell, merge_accessor,
  merge,
}
use js.Property.Effects.{slot_flags, desc_flags, lacks_kind, merge-flags}
use js.Property.Accept.{
  KeepsFrozen, accepted_fields, accepted_kind, accepted_data, accepted_value, accepted_accessor,
}

-- A word that may be stored has no "absent" mark, and is data, or accessor and not writable.
pub record IsStoredFlags (s : StoredSlot) : Type 0 where
  pub marks :
      ((slot_flags s).empty
        || (slot_flags s).no_w
        || (slot_flags s).no_e
        || (slot_flags s).no_c
        || (slot_flags s).no_value
        || (slot_flags s).no_getter
        || (slot_flags s).no_setter)
      ≡ false
  pub one_kind : (slot_flags s).a ≡ not (slot_flags s).d
  pub read_only : (slot_flags s).d ≡ false → (slot_flags s).w ≡ false

pub stored_flags : (s : StoredSlot) → is_stored (raw s.attributes) ≡ true → IsStoredFlags s
stored_flags s e =
    let v = is_stored-view (raw s.attributes) in
    let u = has-undefs (raw s.attributes) in
    record { marks = ground arith; one_kind = ground arith; read_only = λ p. ground arith }

module _ (place : Cells → ℕ) (h : Cells) (s : StoredSlot) (desc : PropertyDescriptor) (h' : Cells)
    (s' : StoredSlot) (e : merge place h s desc ≡ some (h', s')) where
  merged_generic : lacks_kind (desc_flags desc) ≡ true → (h' ≡ h) × (s'.value ≡ s.value)
  unfolding merge
  merged_generic g = let v = is_generic-view desc.attrs in (ground arith, ground arith)

  merged_data :
      lacks_kind (desc_flags desc) ≡ false
      → (desc_flags desc).d ≡ true
      → (h' ≡ h)
        × (s'.value ≡ (if not (is_value_absent desc.attrs) then first_word desc else s.value))
  unfolding merge merge_data
  merged_data g d =
      let v = is_generic-view desc.attrs in
      let w = is_data-view desc.attrs in (ground arith, ground arith)

  merged_accessor :
      lacks_kind (desc_flags desc) ≡ false
      → (desc_flags desc).d ≡ false
      → (slot_flags s).a ≡ true
      → (p : ℕ) × (accessor s ≡ some p) × (merge_cell h p desc ≡ some h') × (s'.value ≡ s.value)
  unfolding merge merge_accessor
  merged_accessor g d a =
      let v = is_generic-view desc.attrs in
      let w = is_data-view desc.attrs in
      let x = is_accessor-view s.attributes.attributes in
      elim (Option-cases (accessor s)) [
        | inl n ↦ absurd (ground arith)
        | inr (p, q) ↦ (p, q, ground arith, ground arith)
      ]

-- The cell that a merge writes.
merge_cell_at :
    (h : Cells) (p : ℕ) (desc : PropertyDescriptor) (a b : Accessor) (h' : Cells)
    → h p ≡ some a
    → b.getter ≡ (if not (is_getter_absent desc.attrs) then first_word desc else a.getter)
    → (if not (is_setter_absent desc.attrs) then second_word desc else some a.setter)
      ≡ some b.setter
    → merge_cell h p desc ≡ some h'
    → h' p ≡ some b
unfolding merge_cell
merge_cell_at h p desc a b h' q g t e =
    let w : write h p b ≡ h' = some-injective (write h p b) h' (ground arith) in
    let x : write h p b p ≡ some b = ground arith in ap (λ (f : Cells). f p) (sym w) ∙ x

-- A merge that changes neither function leaves the cell as it was.
merge_cell_same :
    (h : Cells) (p : ℕ) (desc : PropertyDescriptor) (a : Accessor) (h' : Cells)
    → h p ≡ some a
    → changes_accessor a desc ≡ some false
    → merge_cell h p desc ≡ some h'
    → h' p ≡ some a
unfolding changes_accessor
merge_cell_same h p desc a h' q c e =
    merge_cell_at h p desc a a h' q (ground arith) (ground arith) e

same_accessor :
    (s s' : StoredSlot)
    → is_accessor s'.attributes.attributes ≡ is_accessor s.attributes.attributes
    → s'.value ≡ s.value
    → accessor s' ≡ accessor s
unfolding accessor
same_accessor s s' a v = rw (a, v)

module _ (host : Host) (laws : IsFloat host) (place : Cells → ℕ) (h : Cells) (s : StoredSlot)
    (desc : PropertyDescriptor) (throwable : Bool) (h' : Cells) (s' : StoredSlot) where
  module _ (st : is_stored (raw s.attributes) ≡ true)
      (c : is_configurable s.attributes.attributes ≡ false)
      (acc : is_defined_property_accepted host h s desc throwable ≡ some (done true true))
      (e : merge place h s desc ≡ some (h', s')) where
    c0 : (slot_flags s).c ≡ false
    c0 = sym (is_configurable-view s.attributes.attributes) ∙ c

    kept_flags :
        ((slot_flags s').c ≡ false)
        × ((slot_flags s').e ≡ (slot_flags s).e)
        × ((slot_flags s').d ≡ (slot_flags s).d)
        × ((slot_flags s').a ≡ (slot_flags s).a)
        × ((slot_flags s).w ≡ false → (slot_flags s').w ≡ false)
    kept_flags =
        let f = merge-flags place h s desc e in
        let c1 = c0 in
        let fc = ap (λ (x : Flags). x.c) f in
        let fe = ap (λ (x : Flags). x.e) f in
        let fd = ap (λ (x : Flags). x.d) f in
        let fa = ap (λ (x : Flags). x.a) f in
        let fw = ap (λ (x : Flags). x.w) f in
        let o = stored_flags s st in
        let k =
          accepted_kind host h s desc throwable (accepted_fields host h s desc throwable acc) c0 in
        elim (Bool-cases (lacks_kind (desc_flags desc))) [
          | inl hg ↦ (ground arith, ground arith, ground arith, ground arith, λ p. ground arith)
          | inr hg ↦
              let m = accepted_data host h s desc throwable k.2 c0 hg in
              (
                ground arith,
                ground arith,
                ground arith,
                ground arith,
                λ p. elim (Bool-cases (slot_flags s).d) [
                  | inl hd ↦ ground (arith, accepted_value host h s desc throwable (m.1 hd) c0 p)
                  | inr hd ↦ ground arith
                ],
              )
        ]

    kept_value :
        (slot_flags s).d ≡ true
        → (slot_flags s).w ≡ false
        → same_value host s.value s'.value ≡ some true
    kept_value d w =
        let k =
          accepted_kind host h s desc throwable (accepted_fields host h s desc throwable acc) c0 in
        let r = same_value_refl host laws s.value in
        elim (Bool-cases (lacks_kind (desc_flags desc))) [
          | inl hg ↦ rw (merged_generic place h s desc h' s' e hg).1 r
          | inr hg ↦
              let m = accepted_data host h s desc throwable k.2 c0 hg in
              let v = (merged_data place h s desc h' s' e hg (m.0 ∙ d)).1 in
              let same = (accepted_value host h s desc throwable (m.1 d) c0 w).1 in ground arith
        ]

    kept_functions : (slot_flags s).a ≡ true → accessor_cell h' s' ≡ accessor_cell h s
    unfolding accessor_cell
    kept_functions a =
        let k =
          accepted_kind host h s desc throwable (accepted_fields host h s desc throwable acc) c0 in
        let o = stored_flags s st in
        let d : (slot_flags s).d ≡ false = ground arith in
        let same : s'.value ≡ s.value → accessor s' ≡ accessor s = λ v.
          same_accessor s s'
            (is_accessor-view s'.attributes.attributes
              ∙ kept_flags.3
              ∙ sym (is_accessor-view s.attributes.attributes))
            v in
        elim (Bool-cases (lacks_kind (desc_flags desc))) [
          | inl hg ↦
              let v = merged_generic place h s desc h' s' e hg in
              ap₂ (λ (p : Option ℕ) (t : Cells). p >>= t) (same v.1) v.0
          | inr hg ↦
              let m = accepted_data host h s desc throwable k.2 c0 hg in
              let v = merged_accessor place h s desc h' s' e hg (m.0 ∙ d) a in
              let x = accepted_accessor host h s desc throwable (m.2 d) c0 in
              let at' : h v.0 ≡ some x.0 = ground arith in
              let new = merge_cell_same h v.0 desc x.0 h' at' x.2 v.2 in
              rw (same v.3, v.1, new, at')
        ]

  -- After an accepted request and its `merge`, a stored property that may not be configured still may not, and has
  -- the same E and kind. If it was read-only, it still is, and if it was also data, its value is the same for
  -- `same_value`. If it is an accessor, it has the same getter and setter. Nothing is said of the value of a
  -- property that was writable, which may also become read-only.
  pub frozen_kept :
      is_stored (raw s.attributes) ≡ true
      → is_configurable s.attributes.attributes ≡ false
      → is_defined_property_accepted host h s desc throwable ≡ some (done true true)
      → merge place h s desc ≡ some (h', s')
      → KeepsFrozen host h s h' s'
  frozen_kept st c acc e =
      let k = kept_flags st c acc e in
      let x = s.attributes.attributes in
      record {
        same_c = is_configurable-view s'.attributes.attributes ∙ k.0;
        same_e = simp (is_enumerable-view, k.1);
        same_d = simp (is_data-view, k.2);
        same_a = simp (is_accessor-view, k.3);
        same_w = (elim (Bool-cases (is_writable x)) [
          | inl w ↦ ground (arith, w)
          | inr w ↦
              let kept =
                is_writable-view s'.attributes.attributes ∙ k.4 (sym (is_writable-view x) ∙ w) in
              ground (arith, w, kept)
        ]);
        same_value_if_read_only = (elim (Bool-cases (is_data x && not (is_writable x))) [
          | inr n ↦ rw n refl
          | inl y ↦
              let d : is_data x ≡ true = ground (arith, y) in
              let w : is_writable x ≡ false = ground (arith, y) in
              rw y (kept_value st c acc e (sym (is_data-view x) ∙ d) (sym (is_writable-view x) ∙ w))
        ]);
        same_functions = (elim (Bool-cases (is_accessor x)) [
          | inl a ↦ rw a (kept_functions st c acc e (sym (is_accessor-view x) ∙ a))
          | inr a ↦ rw a refl
        ]);
      }
