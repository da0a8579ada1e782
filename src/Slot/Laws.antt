-- ===== src/Slot/Laws.antt =====
-- What a slot's flags say after any sequence of calls (crates/starlight/src/vm/slot.rs).
use js.Common.{ℕ, ◌≡◌, ◌∙◌, ap, arith, refl, Bool, true, false, not, ◌&&◌, List, [], ◌∷◌, Option}
use js.Common.{bit, bit_and-pow}
use js.Attributes.{AttrSafe}
use js.Value.{JsValue}
use js.Slot.{
  Slot, PutResultType, new, is_used, clear, is_put_cacheable, is_put_force_uncacheable,
  is_cacheable, is_load_cacheable, is_store_cacheable, has_offset, put_result_type, mark_put_result,
  set_1, set_put_result_type, set_from_slot, make_put_uncacheable,
}
use js.Slot.Calls.{Call, apply, run}
use js.Slot.Flags.{
  SlotFlags, decode, make_used-flags, make_uncacheable-flags, make_put_uncacheable-flags,
  mark_put_result-flags, set_1-flags, set_woffset-flags, put_result_type-flags,
}

is_used-flags : (s : Slot) → is_used s ≡ (decode s.flags).used
unfolding is_used decode
is_used-flags s = bit_and-pow 0 s.flags

is_put_cacheable-flags :
    (s : Slot) → is_put_cacheable s ≡ ((decode s.flags).put && not (decode s.flags).forced)
unfolding is_put_cacheable is_put_force_uncacheable decode
is_put_cacheable-flags s = ground (arith, bit_and-pow 2 s.flags, bit_and-pow 3 s.flags)

-- One call: no method sets the mark USED, and only `clear` takes off FORCE_PUT_UNCACHEABLE.
apply-used :
    (c : Call) (s : Slot) → (decode s.flags).used ≡ false → (decode (apply c s).flags).used ≡ false
unfolding apply
apply-used (Call.mark_put_result ty n) s h =
    ap (λ (f : SlotFlags). f.used) (mark_put_result-flags s ty n) ∙ h
apply-used Call.clear s h = unfold clear decode bit in refl
apply-used Call.make_used s h = ap (λ (f : SlotFlags). f.used) (make_used-flags s)
apply-used Call.make_put_uncacheable s h =
    ap (λ (f : SlotFlags). f.used) (make_put_uncacheable-flags s) ∙ h
apply-used Call.make_uncacheable s h = ap (λ (f : SlotFlags). f.used) (make_uncacheable-flags s) ∙ h
apply-used (Call.set_1 v a o) s h = ap (λ (f : SlotFlags). f.used) (set_1-flags s v a o)
apply-used (Call.set_woffset v a o n) s h =
    ap (λ (f : SlotFlags). f.used) (set_woffset-flags s v a o n)
apply-used (Call.set_from_slot t o) s h =
    unfold set_from_slot in ap (λ (f : SlotFlags). f.used) (set_1-flags s t.value t.attributes o)

run-used :
    (cs : List Call) (s : Slot)
    → (decode s.flags).used ≡ false
    → (decode (run cs s).flags).used ≡ false
unfolding run
run-used [] s h = h
run-used (c ∷ cs) s h = run-used cs (apply c s) (apply-used c s h)

-- No sequence of calls on a new slot makes `is_used` true: `make_used` clears the mark.
pub never_used : (cs : List Call) → is_used (run cs new) ≡ false
never_used cs = is_used-flags (run cs new) ∙ run-used cs new (unfold new decode bit in refl)

-- The calls other than `clear`.
abbrev pub IsNotClear : Call → Type 0
IsNotClear Call.clear = ⊥
IsNotClear _ = Unit

abbrev pub HasNoClear : List Call → Type 0
HasNoClear [] = Unit
HasNoClear (c ∷ cs) = IsNotClear c × HasNoClear cs

apply-forced :
    (c : Call) (s : Slot)
    → IsNotClear c
    → (decode s.flags).forced ≡ true
    → (decode (apply c s).flags).forced ≡ true
unfolding apply
apply-forced Call.clear s n h = absurd n
apply-forced (Call.mark_put_result ty k) s n h =
    ap (λ (f : SlotFlags). f.forced) (mark_put_result-flags s ty k) ∙ h
apply-forced Call.make_used s n h = ap (λ (f : SlotFlags). f.forced) (make_used-flags s) ∙ h
apply-forced Call.make_put_uncacheable s n h =
    ap (λ (f : SlotFlags). f.forced) (make_put_uncacheable-flags s)
apply-forced Call.make_uncacheable s n h =
    ap (λ (f : SlotFlags). f.forced) (make_uncacheable-flags s) ∙ h
apply-forced (Call.set_1 v a o) s n h = ap (λ (f : SlotFlags). f.forced) (set_1-flags s v a o) ∙ h
apply-forced (Call.set_woffset v a o k) s n h =
    ap (λ (f : SlotFlags). f.forced) (set_woffset-flags s v a o k) ∙ h
apply-forced (Call.set_from_slot t o) s n h =
    unfold set_from_slot in
    ap (λ (f : SlotFlags). f.forced) (set_1-flags s t.value t.attributes o) ∙ h

run-forced :
    (cs : List Call) (s : Slot)
    → HasNoClear cs
    → (decode s.flags).forced ≡ true
    → (decode (run cs s).flags).forced ≡ true
unfolding run
run-forced [] s n h = h
run-forced (c ∷ cs) s n h = run-forced cs (apply c s) n.1 (apply-forced c s n.0 h)

-- Once `make_put_uncacheable` was called, no later call but `clear` makes a put cacheable.
pub put_uncacheable_stays :
    (cs : List Call) (s : Slot)
    → HasNoClear cs
    → is_put_cacheable (run cs (make_put_uncacheable s)) ≡ false
put_uncacheable_stays cs s n =
    let forced =
      run-forced cs (make_put_uncacheable s) n
        (ap (λ (f : SlotFlags). f.forced) (make_put_uncacheable-flags s)) in
    ground (arith, is_put_cacheable-flags (run cs (make_put_uncacheable s)))

-- `mark_put_result` is read back: the result type and the offset, and the put is cacheable unless it
-- was forced not to be; the property and the base stay.
pub put_result_type-mark_put_result :
    (s : Slot) (ty : PutResultType) (offset : ℕ)
    → let s' = mark_put_result s ty offset in
      (put_result_type s' ≡ ty)
      × (s'.offset ≡ offset)
      × (is_put_cacheable s' ≡ not (is_put_force_uncacheable s))
      × (s'.parent ≡ s.parent)
      × (s'.base ≡ s.base)
unfolding is_put_force_uncacheable
put_result_type-mark_put_result s ty n =
    let f = mark_put_result-flags s ty n in
    (
      put_result_type-flags (mark_put_result s ty n) ty (ap (λ (x : SlotFlags). x.low) f)
          (ap (λ (x : SlotFlags). x.high) f),
      unfold mark_put_result in refl,
      is_put_cacheable-flags (mark_put_result s ty n)
          ∙ rw f (unfold decode in ground (arith, bit_and-pow 3 s.flags)),
      unfold mark_put_result set_put_result_type in refl,
      unfold mark_put_result set_put_result_type in refl,
    )

-- A slot that `set_1` filled is never cached: no load, no store, no offset.
pub set_1_uncacheable :
    (is_object : ℕ → Bool) (s : Slot) (v : JsValue) (a : AttrSafe) (o : Option ℕ)
    → (is_load_cacheable is_object (set_1 s v a o) ≡ false)
      × (is_store_cacheable is_object (set_1 s v a o) ≡ false)
      × (has_offset (set_1 s v a o) ≡ false)
unfolding is_load_cacheable is_store_cacheable
set_1_uncacheable is_object s v a o = (rw off, rw off, unfold set_1 has_offset in refl)
  where
    off : is_cacheable is_object (set_1 s v a o) ≡ false
    off =
        unfold is_cacheable decode in
        ground (arith, set_1-flags s v a o, bit_and-pow 1 (set_1 s v a o).flags)
