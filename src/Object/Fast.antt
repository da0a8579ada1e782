-- ===== src/Object/Fast.antt =====
-- The first test of `PutIndexedSlotMethod` (crates/starlight/src/vm/object.rs) and the put that follows it.
use js.Common.{
  ℕ, zero, suc, ap, ◌<◌, ◌≤◌, ◌≡◌, ◌∙◌, sym, arith, refl, Bool, true, false, ◌&&◌, ◌||◌, Option,
  some, List, [], ◌∷◌,
}
use js.Common.{length, ltb, ◌==◌, if◌then◌else◌, Bool-cases, inl, inr}
use js.Value.{JsValue}
use js.Slot.{Slot}
use js.Structure.Defs.{is_indexed}
use js.Object.Elements.{dense, max_vector_size}
use js.Object.Element.{element, IsValid}
use js.Object.Defs.{JsObject, Engine}
use js.Object.Dense.{define_dense_lem}
use js.Object.Filled.{filled_same, filled_at}
use js.Object.Direct.{as_element}
use js.Object.World.{World, index, enter, leave, has_indexed_property, stored, is_fast, put_slot}
use js.Object.Inherit.{IsChain, last, more}

-- The objects of a chain after the first.
abbrev pub rest : List ℕ → List ℕ
rest [] = []
rest (p ∷ ps) = ps

abbrev pub is_single : List ℕ → Bool
is_single (p ∷ []) = true
is_single ps = false

-- A prototype, or one of its prototypes, has a structure for indexed properties.
unfoldable pub any_indexed : World → List ℕ → Bool
any_indexed w [] = false
any_indexed w (p ∷ ps) = is_indexed (w.heap.structures (w.objects p).structure) || any_indexed w ps

has_indexed_property_lem :
    (w : World) (p : ℕ) (ps : List ℕ) (fuel : ℕ)
    → IsChain w p ps
    → length ps ≤ fuel
    → has_indexed_property fuel w p ≡ some (any_indexed w ps)
unfolding has_indexed_property any_indexed
has_indexed_property_lem w p ps zero (last e) l = absurd (omega arith)
has_indexed_property_lem w p ps zero (more e c) l = absurd (omega arith)
has_indexed_property_lem w p ps (suc fuel) (last e) l = ground arith
has_indexed_property_lem w p ps (suc fuel) (more {q = q} {ps = qs} e c) l =
    let rest = has_indexed_property_lem w q qs fuel c (omega arith) in ground arith

several_lem :
    {w : World} (p : ℕ) {q : ℕ} {qs : List ℕ} → IsChain w q qs → is_single (p ∷ qs) ≡ false
several_lem p (last e) = refl
several_lem p (more e c) = refl

-- The first test of `PutIndexedSlotMethod` succeeds on dense elements if there is no prototype, or if some
-- object further up the chain has indexed properties.
pub is_fast_lem :
    (w : World) (p i : ℕ) (ps : List ℕ) (fuel : ℕ)
    → IsChain w p ps
    → length ps ≤ fuel
    → is_fast fuel w p i
      ≡ some (
          ltb i max_vector_size
          && (dense (w.objects p).indexed && (is_single ps || any_indexed w (rest ps))))
unfolding is_fast any_indexed
is_fast_lem w p i ps fuel (last e) l = ground arith
is_fast_lem w p i ps fuel (more {q = q} {ps = qs} e c) l =
    let found = has_indexed_property_lem w q qs fuel c (omega arith) in
    let several = several_lem p c in ground arith

-- Then the value becomes an own element, whatever the prototypes hold: no setter of a prototype is called, and
-- its read-only element does not stop the put.
pub put_fast_lem :
    (engine : Engine) (w : World) (p i fuel : ℕ) (val : JsValue) (slot : Slot) (throwable : Bool)
    → IsValid (w.objects p).indexed
    → is_fast fuel w p i ≡ some true
    → (w' : World) × ((call : World
          → JsValue
          → JsValue
          → JsValue
          → JsValue
          → Option (World × Option JsValue))
        → put_slot engine call fuel w p (index i) val slot throwable ≡ some (w', stored))
      × ((q j : ℕ)
          → element (w'.objects q).indexed j
            ≡ (if q == p && j == i then as_element val else element (w.objects q).indexed j))
unfolding put_slot is_fast
put_fast_lem engine w p i fuel val slot throwable v fast =
    let near : i < max_vector_size = ground arith in
    let is_dense : dense (w.objects p).indexed ≡ true = ground arith in
    let (s', runs, d) = define_dense_lem engine.fresh (enter w p) i val false v near in
    (
      leave w p s',
      λ call. rw (fast, runs) refl,
      λ q j. elim (Bool-cases (q == p)) [
        | inr other ↦ ground arith
        | inl same ↦
            let at_p : (leave w p s').objects q ≡ s'.object = ground arith in
            let was : w.objects q ≡ w.objects p = ap w.objects (ground arith) in
            elim (Bool-cases (j == i)) [
              | inl here ↦
                  ap (λ (o : JsObject). element o.indexed j) at_p
                  ∙ ap (λ k. element s'.object.indexed k) (ground arith)
                  ∙ filled_at d v near is_dense
                  ∙ ground arith
              | inr there ↦
                  ap (λ (o : JsObject). element o.indexed j) at_p
                  ∙ filled_same d v near is_dense j (λ e. absurd (ground arith))
                  ∙ ap (λ (o : JsObject). element o.indexed j) (sym was)
                  ∙ ground arith
            ]
      ],
    )
