-- ===== src/Collector/Visit.antt =====
-- What visits change: `visit` and `visit_raw` of `SlotVisitor` (crates/starlight/src/gc.rs).
use js.Common.{ℕ, ap, ◌≡◌, ◌∙◌, refl, arith, Bool, true, false, not, ◌&&◌, ◌||◌, List, [], ◌∷◌}
use js.Common.{◌==◌, Bool-cases, inl, inr}
use js.LargeObjects.{PreciseAllocation, contains, is_allocation, from_cell, test_and_set_marked}
use js.Sweep.{definetely_white}
use js.Sweep.Cells.{mem}
use js.Collector.{
  Visitor, set_state, mark_at, is_heap_pointer, mark, visit, visit_all, same_granule,
}

-- A cell that was not visited.
abbrev pub white : Visitor → ℕ → Bool
white v p = v.states p == definetely_white

-- Marking keeps the places of allocations.
pub is_allocation-mark_at :
    (as' : List PreciseAllocation) (p q : ℕ) → is_allocation (mark_at as' p) q ≡ is_allocation as' q
unfolding is_allocation mark_at test_and_set_marked
is_allocation-mark_at [] p q = refl
is_allocation-mark_at (a ∷ as') p q = ground (arith, is_allocation-mark_at as' p q)

module _ (in_bitmap owns : ℕ → Bool) where
  -- After visits of the cells `qs`.
  pub record IsVisited (v : Visitor) (qs : List ℕ) (v' : Visitor) : Type 0 where
    pub live : (p : ℕ) → v'.live p ≡ v.live p
    pub heap : (p : ℕ) → is_heap_pointer in_bitmap owns v' p ≡ is_heap_pointer in_bitmap owns v p
    pub whites :
        (p : ℕ) → white v' p ≡ (white v p && not (mem p qs && is_heap_pointer in_bitmap owns v p))
    pub queued :
        (p : ℕ)
        → mem p v'.queue
          ≡ (mem p v.queue || (mem p qs && (is_heap_pointer in_bitmap owns v p && white v p)))
    pub kept : (p : ℕ) → v.marked p ≡ true → v'.marked p ≡ true
    pub marks :
        (p q : ℕ)
        → same_granule p q ≡ true
        → (in_bitmap q && (mem q qs && (is_heap_pointer in_bitmap owns v q && white v q))) ≡ true
        → v'.marked p ≡ true
    pub marked_by :
        (p : ℕ)
        → v'.marked p ≡ true
        → v.marked p ≡ false
        → (q : ℕ) × (same_granule p q ≡ true)
          × ((in_bitmap q && (mem q qs && (is_heap_pointer in_bitmap owns v q && white v q)))
              ≡ true)

  visit-white :
      (v : Visitor) (p q : ℕ)
      → white (visit in_bitmap owns v p) q
        ≡ (white v q && not (mem q (p ∷ []) && is_heap_pointer in_bitmap owns v q))
  unfolding visit mark set_state mem
  visit-white v p q = elim (Bool-cases (p == q)) [
    | inl e ↦
        let same : p ≡ q = ground (arith, e) in
        ground (arith, e, ap (is_heap_pointer in_bitmap owns v) same, ap v.states same)
    | inr e ↦ ground (arith, e)
  ]

  visit-queue :
      (v : Visitor) (p q : ℕ)
      → mem q (visit in_bitmap owns v p).queue
        ≡ (mem q v.queue || (mem q (p ∷ []) && (is_heap_pointer in_bitmap owns v q && white v q)))
  unfolding visit mark set_state mem
  visit-queue v p q = elim (Bool-cases (p == q)) [
    | inl e ↦
        let same : p ≡ q = ground (arith, e) in
        ground (arith, e, ap (is_heap_pointer in_bitmap owns v) same, ap v.states same)
    | inr e ↦ ground (arith, e)
  ]

  visit-marked :
      (v : Visitor) (p r : ℕ)
      → (visit in_bitmap owns v p).marked r ≡ (
          v.marked r
          || (same_granule r p
              && (in_bitmap p && (is_heap_pointer in_bitmap owns v p && white v p))))
  unfolding visit mark set_state
  visit-marked v p r = ground arith

  pub visit-IsVisited : (v : Visitor) (p : ℕ) → IsVisited v (p ∷ []) (visit in_bitmap owns v p)
  unfolding visit is_heap_pointer mark set_state contains mem
  visit-IsVisited v p = record {
    live = λ q. ground arith;
    heap =
        λ q. ground (arith, is_allocation-mark_at v.large.allocations (from_cell p) (from_cell q));
    whites = visit-white v p;
    queued = visit-queue v p;
    kept = λ r m. ground (arith, visit-marked v p r, m);
    marks = λ r q near t.
        let at' : p ≡ q = ground (arith, t) in
        ground (
          arith,
          visit-marked v p r,
          near,
          t,
          ap (is_heap_pointer in_bitmap owns v) at',
          ap v.states at',
          ap in_bitmap at',
          ap (same_granule r) at',
        );
    marked_by = λ r m n.
        (p, ground (arith, visit-marked v p r, m, n), ground (arith, visit-marked v p r, m, n));
  }

  pub visit_all-IsVisited :
      (v : Visitor) (ps : List ℕ) → IsVisited v ps (visit_all in_bitmap owns v ps)
  unfolding visit_all mem
  visit_all-IsVisited v [] = record {
    live = λ q. refl;
    heap = λ q. refl;
    whites = λ q. ground arith;
    queued = λ q. ground arith;
    kept = λ r m. m;
    marks = λ r q near t. absurd (ground (arith, t));
    marked_by = λ r m n. absurd (ground (arith, m, n));
  }
  visit_all-IsVisited v (p ∷ ps) =
      let one = visit-IsVisited v p in
      let rest = visit_all-IsVisited (visit in_bitmap owns v p) ps in
      record {
        live = λ q. rest.live q ∙ one.live q;
        heap = λ q. rest.heap q ∙ one.heap q;
        whites = λ q. ground (arith, one.whites q, rest.whites q, one.heap q);
        queued = λ q. ground (arith, one.whites q, rest.queued q, one.queued q, one.heap q);
        kept = λ r m. rest.kept r (one.kept r m);
        marks = λ r q near t. elim (Bool-cases (p == q)) [
          | inl e ↦ rest.kept r (one.marks r q near (ground (arith, t, e)))
          | inr e ↦ rest.marks r q near (ground (arith, t, e, one.heap q, one.whites q))
        ];
        marked_by = λ r m n. elim (Bool-cases ((visit in_bitmap owns v p).marked r)) [
          | inl m' ↦ let (q, near, t) = one.marked_by r m' n in (q, near, ground (arith, t))
          | inr m' ↦
              let (q, near, t) = rest.marked_by r m m' in
              (q, near, ground (arith, t, one.heap q, one.whites q))
        ];
      }
