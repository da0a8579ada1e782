-- ===== src/Object/Inherit.antt =====
-- The loop of `GetIndexedPropertySlotMethod` over the prototypes (crates/starlight/src/vm/object.rs).
use js.Common.{ℕ, zero, suc, ◌≤◌, ◌≡◌, arith, Bool, true, false, Option, none, some, List, [], ◌∷◌}
use js.Common.{length, Option-cases, inl, inr}
use js.Property.{StoredSlot}
use js.Slot.{Slot, set_from_slot}
use js.Object.Element.{element, IsValid}
use js.Object.Lookup.{get_own_lem}
use js.Object.World.{World, index, prototype, get_own_property_slot, get_property_slot}

-- `ps` are the objects from one on, each followed by its prototype, to the one that has none.
pub data IsChain (w : World) : ℕ → List ℕ → Type 0 where
  last : {p : ℕ} → prototype w p ≡ none → IsChain w p (p ∷ [])
  more : {p q : ℕ} {ps : List ℕ} → prototype w p ≡ some q → IsChain w q ps → IsChain w p (p ∷ ps)

-- The first object of a list that has the element, and the element.
unfoldable pub first_with : World → List ℕ → ℕ → Option (ℕ × StoredSlot)
first_with w [] i = none
first_with w (p ∷ ps) i =
    let further = first_with w ps i in
    elim (element (w.objects p).indexed i) [ none ↦ further | some x ↦ some (p, x) ]

abbrev pub inherited : World → Slot → Option (ℕ × StoredSlot) → World × Bool × Slot
inherited w slot none = (w, false, slot)
inherited w slot (some (p, x)) = (w, true, set_from_slot slot x (some p))

-- What the loop leaves of the first object of a chain.
step_lem :
    (w : World) (p i : ℕ) (slot : Slot)
    → IsValid (w.objects p).indexed
    → get_own_property_slot w p (index i) slot
      ≡ some (elim (element (w.objects p).indexed i) [
        | none ↦ (w, false, slot)
        | some x ↦ (w, true, set_from_slot slot x (some p))
      ])
unfolding get_own_property_slot
step_lem w p i slot v = elim (Option-cases (element (w.objects p).indexed i)) [
  | inl n ↦ ground (arith, get_own_lem p (w.objects p) i slot v)
  | inr (x, e) ↦ ground (arith, get_own_lem p (w.objects p) i slot v)
]

-- The lookup of an index on objects with valid elements, with as much fuel as the chain of prototypes is
-- long, finds the element of the first object in the chain that has it, records that object as the base,
-- and changes nothing; if none has it, the slot stays as it was.
pub get_property_slot_lem :
    (w : World) (p : ℕ) (ps : List ℕ) (i fuel : ℕ) (slot : Slot)
    → ((q : ℕ) → IsValid (w.objects q).indexed)
    → IsChain w p ps
    → length ps ≤ fuel
    → get_property_slot fuel w p (index i) slot ≡ some (inherited w slot (first_with w ps i))
unfolding get_property_slot first_with
get_property_slot_lem w p ps i zero slot v (last e) l = absurd (omega arith)
get_property_slot_lem w p ps i zero slot v (more e c) l = absurd (omega arith)
get_property_slot_lem w p ps i (suc fuel) slot v (last e) l =
    let here = step_lem w p i slot (v p) in
    elim (Option-cases (element (w.objects p).indexed i)) [
      | inl n ↦ ground arith
      | inr (x, f) ↦ ground arith
    ]
get_property_slot_lem w p ps i (suc fuel) slot v (more {q = q} {ps = qs} e c) l =
    let here = step_lem w p i slot (v p) in
    let rest = get_property_slot_lem w q qs i fuel slot v c (omega arith) in
    elim (Option-cases (element (w.objects p).indexed i)) [
      | inl n ↦ ground arith
      | inr (x, f) ↦ ground arith
    ]
