-- ===== src/Collector/Finish.antt =====
-- What the end of `Heap::collect_internal` (crates/starlight/src/gc.rs) leaves of cells and weak references.
use js.Common.{
  ℕ, zero, suc, ap, sym, ◌+◌, ◌*◌, ◌/◌, ◌≤◌, ◌<◌, ◌≡◌, ◌∙◌, refl, arith, Bool, true, false, not,
  ◌&&◌, ◌||◌, Option, none, some, List, [], ◌∷◌, ◌++◌,
}
use js.Common.{◌==◌, if◌then◌else◌, Bool-cases, Option-cases, inl, inr}
use js.LargeObjects.{sweep_large}
use js.Sweep.{Sweep, definetely_white}
use js.Sweep.Cells.{mem, is_distinct}
use js.Collector.{
  Visitor, Heap, WeakSlot, update_weak, update_weak_references, reset_weak_references, sweep_space,
  sweep_allocators, grow, finish, same_granule, all_from, granule_test, test_mark,
}
use js.Collector.Space.{cells_of, sweep_allocators_lem, sweep_allocators_settled}

-- A heap between collections: no bit of the mark bitmap is set; the bits of live cells are those of granules,
-- in which there is a cell of a block of the allocators; these share no cell.
pub record IsResting (header : ℕ) (in_bitmap : ℕ → Bool) (h : Heap) : Type 0 where
  pub unmarked : (p : ℕ) → h.marked p ≡ false
  pub granular : (p q : ℕ) → same_granule p q ≡ true → h.live p ≡ h.live q
  pub placed :
      (p : ℕ)
      → in_bitmap p ≡ true
      → h.live p ≡ true
      → (c : ℕ) × (same_granule p c ≡ true) × (mem c (cells_of header h.allocators) ≡ true)
  pub distinct : is_distinct (cells_of header h.allocators) ≡ true
  pub no_null : mem 0 (cells_of header h.allocators) ≡ false

-- What holds of an address of the bitmap.
abbrev pub live_inside : (ℕ → Bool) → (ℕ → Bool) → ℕ → Bool
live_inside in_bitmap live p = not (in_bitmap p) || live p

unfoldable pub leads_to_live : (ℕ → Bool) → Option ℕ → Bool
leads_to_live live none = true
leads_to_live live (some val) = live val

-- Each weak reference is live, and what it leads to.
unfoldable pub all_live : (ℕ → Bool) → List WeakSlot → Bool
all_live live [] = true
all_live live (w ∷ ws) = live w.base && (leads_to_live live w.value && all_live live ws)

update_weak_base : (marked : ℕ → Bool) (w : WeakSlot) → (update_weak marked w).base ≡ w.base
unfolding update_weak
update_weak_base marked w = elim (Option-cases w.value) [
  | inl e ↦ rw e refl
  | inr (val, e) ↦ rw e (ground arith)
]

update_weak_value :
    (marked live : ℕ → Bool) (w : WeakSlot)
    → ((p : ℕ) → marked p ≡ true → live p ≡ true)
    → leads_to_live live (update_weak marked w).value ≡ true
unfolding update_weak leads_to_live
update_weak_value marked live w k = elim (Option-cases w.value) [
  | inl e ↦ rw e refl
  | inr (val, e) ↦ elim (Bool-cases (marked val)) [
    | inl m ↦ rw (e, m) (k val m)
    | inr m ↦ rw (e, m) refl
  ]
]

pub weak_live :
    (marked live : ℕ → Bool) (ws : List WeakSlot)
    → ((p : ℕ) → marked p ≡ true → live p ≡ true)
    → all_live live (reset_weak_references marked (update_weak_references marked ws)) ≡ true
unfolding all_live reset_weak_references update_weak_references
weak_live marked live [] k = refl
weak_live marked live (w ∷ ws) k = ground (
  arith,
  update_weak_base marked w,
  update_weak_value marked live w k,
  weak_live marked live ws k,
  k w.base,
)

all_from-ext : (f g : ℕ → Bool) (a n : ℕ) → ((q : ℕ) → f q ≡ g q) → all_from f a n ≡ all_from g a n
unfolding all_from
all_from-ext f g a zero e = refl
all_from-ext f g a (suc n) e = ground (arith, e a, all_from-ext f g (a + 1) n e)

granule_test-ext :
    (f g : ℕ → Bool) (p : ℕ) → ((q : ℕ) → f q ≡ g q) → granule_test f p ≡ granule_test g p
unfolding granule_test
granule_test-ext f g p e = all_from-ext f g (p / 16 * 16) 16 e

all_from-at : (f : ℕ → Bool) (a n q : ℕ) → a ≤ q → q < a + n → all_from f a n ≡ true → f q ≡ true
unfolding all_from
all_from-at f a zero q l h t = absurd (omega (arith, l, h))
all_from-at f a (suc n) q l h t = elim (Bool-cases (a == q)) [
  | inl e ↦ let here : a ≡ q = ground (arith, e) in ap f (sym here) ∙ ground (arith, t)
  | inr e ↦ all_from-at f (a + 1) n q (ground (arith, e, l)) (omega (arith, h)) (ground (arith, t))
]

all_from-true :
    (f : ℕ → Bool) (a n : ℕ) → ((q : ℕ) → a ≤ q → q < a + n → f q ≡ true) → all_from f a n ≡ true
unfolding all_from
all_from-true f a zero k = refl
all_from-true f a (suc n) k = ground (
  arith,
  k a (omega arith) (omega arith),
  all_from-true f (a + 1) n (λ q l h. k q (omega (arith, l)) (omega (arith, h))),
)

-- A bit that is set is set for every address of the granule.
pub granule_test-at :
    (f : ℕ → Bool) (p q : ℕ) → same_granule p q ≡ true → granule_test f p ≡ true → f q ≡ true
unfolding granule_test same_granule
granule_test-at f p q near t =
    let same : p / 16 ≡ q / 16 = ground (arith, near) in
    all_from-at f (p / 16 * 16) 16 q (omega (arith, same)) (omega (arith, same)) t

granule_test-here : (f : ℕ → Bool) (p : ℕ) → (not (granule_test f p) || f p) ≡ true
unfolding same_granule
granule_test-here f p = elim (Bool-cases (granule_test f p)) [
  | inl e ↦ ground (arith, granule_test-at f p p (ground arith) e)
  | inr e ↦ ground (arith, e)
]

pub granule_test-true :
    (f : ℕ → Bool) (p : ℕ)
    → ((q : ℕ) → same_granule p q ≡ true → f q ≡ true)
    → granule_test f p ≡ true
unfolding granule_test same_granule
granule_test-true f p k =
    all_from-true f (p / 16 * 16) 16
      (λ q l h. let same : p / 16 ≡ q / 16 = omega (arith, l, h) in k q (ground (arith, same)))

module _ (header : ℕ) (in_bitmap outside : ℕ → Bool) where
  grow_keeps :
      (h : Heap) (p : ℕ)
      → ((grow header h).live p ≡ h.live p)
        × ((grow header h).marked p ≡ h.marked p)
        × ((grow header h).states p ≡ h.states p)
        × ((grow header h).weak_refs ≡ h.weak_refs)
  unfolding grow
  grow_keeps h p = (ground arith, ground arith, ground arith, ground arith)

  -- What the sweep leaves of the bits of a granule, the state of a cell, and the weak references; `live` and
  -- `marked` are the bits before the end.
  pub finish_lem :
      (h : Heap) (v : Visitor)
      → IsResting header in_bitmap h
      → let w = finish header in_bitmap outside h v in
        let own : ℕ → Bool = λ p. mem p (cells_of header h.allocators) in
        let test = test_mark in_bitmap outside v.marked in
        (((p : ℕ)
            → w.live p ≡ granule_test (λ q. if own q then h.live q && v.marked q else h.live q) p)
          × ((p : ℕ) → w.marked p ≡ granule_test (λ q. v.marked q && not (own q && h.live q)) p))
        × ((p : ℕ) → own p ≡ true → (not (w.live p) || w.states p == definetely_white) ≡ true)
        × (w.weak_refs ≡ reset_weak_references test (update_weak_references test h.weak_refs))
  unfolding finish sweep_space
  finish_lem h v k =
      let test = test_mark in_bitmap outside v.marked in
      let marked : Heap = record h {
        marked = v.marked;
        states = v.states;
        large = v.large;
        weak_refs = reset_weak_references test (update_weak_references test h.weak_refs);
      } in
      let large = sweep_large v.large v.states in
      let start : Sweep = record {
        links = h.links;
        head = 0;
        live = h.live;
        marked = v.marked;
        states = large.states;
        fully_free = true;
        allocated = large.sweeped;
        dropped = large.dropped ++ h.dropped;
      } in
      let g = grow_keeps (sweep_space header marked) in
      let w = (sweep_allocators header h.allocators start h.free_blocks).0 in
      let s = sweep_allocators_lem header h.allocators start h.free_blocks k.distinct k.no_null in
      (
        (
          λ p. (g p).0 ∙ granule_test-ext w.live _ p (λ q. (s q).0),
          λ p. (g p).1 ∙ granule_test-ext w.marked _ p (λ q. (s q).1),
        ),
        λ p own.
            let t =
              sweep_allocators_settled header h.allocators start h.free_blocks p
                (ground (arith, own)) in
            ground (arith, g p, t, granule_test-here w.live p),
        (g 0).3,
      )
