-- ===== src/Collector/Cycle.antt =====
-- A whole collection: `Heap::collect_internal` of crates/starlight/src/gc.rs.
use mathlib.Core.Option.{some-injective}
use mathlib.Core.Path.{subst}
use js.Common.{
  ℕ, ap, sym, ◌≤◌, ◌≡◌, ◌∙◌, refl, arith, Bool, true, false, ◌&&◌, Option, some, List, ◌++◌, length,
}
use js.Common.{◌==◌, ltb, if◌then◌else◌, Bool-cases, Option-cases, inl, inr}
use js.Sweep.{definetely_white}
use js.Sweep.Cells.{mem}
use js.Collector.{
  Visitor, Heap, is_heap_pointer, visit_all, process_worklist, finish, process_roots,
  collect_internal, same_granule, test_mark,
}
use js.Collector.Visit.{white, visit_all-IsVisited}
use js.Collector.Loop.{IsCovered, count_if-length, visit_all-work, process_worklist_ends}
use js.Collector.Reach.{
  Reachable, Reachable-roots, visit_all-IsMarking, marked-Reachable, Reachable-marked,
}
use js.Collector.Roots.{
  stack_words, visitor_of, process_roots_lem, IsRoot, IsRoot-listed, listed-IsRoot,
}
use js.Collector.Space.{cells_of}
use js.Collector.Finish.{
  IsResting, live_inside, all_live, weak_live, finish_lem, granule_test-at, granule_test-true,
}

same_granule_comm : (p q : ℕ) → same_granule p q ≡ true → same_granule q p ≡ true
unfolding same_granule
same_granule_comm p q e = ground (arith, e)

same_granule_trans :
    (p q r : ℕ) → same_granule p q ≡ true → same_granule q r ≡ true → same_granule p r ≡ true
unfolding same_granule
same_granule_trans p q r e f = ground (arith, e, f)

module _ (header : ℕ) (in_bitmap owns outside : ℕ → Bool) (trace : ℕ → List ℕ) where
  -- The addresses that a visit goes on from: those that are taken for pointers into the heap, and whose state is
  -- white, before a collection.
  abbrev pub heap_of : Heap → ℕ → Bool
  heap_of h p = is_heap_pointer in_bitmap owns (visitor_of h) p && h.states p == definetely_white

  module _ (fuel : ℕ) (words : ℕ → ℕ) (origin sp : ℕ) (roots : List ℕ) where
    abbrev all_roots : List ℕ
    all_roots = stack_words words origin sp ++ roots

    -- What is reached from the words of the stack and what the constraints visit.
    abbrev pub Reached : Heap → ℕ → Type 0
    Reached h = Reachable (heap_of h) trace (IsRoot words origin sp roots)

    abbrev pub collect : Heap → Option Heap
    collect = collect_internal header in_bitmap owns outside trace fuel words origin sp roots

    collect_done :
        (h h' : Heap)
        → h.defers ≡ 0
        → collect h ≡ some h'
        → (v : Visitor) × (process_worklist in_bitmap owns trace fuel
              (visit_all in_bitmap owns (visitor_of h) all_roots)
            ≡ some v)
          × (h' ≡ finish header in_bitmap outside h v)
    unfolding collect_internal
    collect_done h h' d e =
        let now : ltb 0 h.defers ≡ false = ground (arith, d) in
        let begun = process_roots_lem in_bitmap owns words origin sp roots h in
        elim (Option-cases (
          process_worklist in_bitmap owns trace fuel
            (process_roots in_bitmap owns words origin sp roots h))) [
              | inl n ↦ absurd (ground (arith, (rw (now, n) at e)))
              | inr (v, s) ↦ (
                v,
                ap (process_worklist in_bitmap owns trace fuel) (sym begun) ∙ s,
                some-injective h' (finish header in_bitmap outside h v)
                    (sym e ∙ (rw (now, s) refl)),
              )
            ]

    -- What marking leaves.
    record IsMarked (h : Heap) (v : Visitor) : Type 0 where
      sets :
          (p q : ℕ)
          → in_bitmap q ≡ true
          → Reached h q
          → same_granule p q ≡ true
          → (v.marked p ≡ true) × (h.live q ≡ true)
      set_by :
          (p : ℕ)
          → v.marked p ≡ true
          → (q : ℕ) × (same_granule p q ≡ true)
            × (in_bitmap q ≡ true)
            × (h.live q ≡ true)
            × Reached h q

    marked_lem :
        (h : Heap) (v : Visitor)
        → IsResting header in_bitmap h
        → process_worklist in_bitmap owns trace fuel
            (visit_all in_bitmap owns (visitor_of h) all_roots)
          ≡ some v
        → IsMarked h v
    unfolding is_heap_pointer
    marked_lem h v k s =
        let start = visit_all in_bitmap owns (visitor_of h) all_roots in
        let m =
          visit_all-IsMarking in_bitmap owns trace all_roots (heap_of h) (visitor_of h) (λ p. refl)
            k.unmarked refl in
        record {
          sets = λ p q i r near.
              let listed = Reachable-roots q (IsRoot-listed words origin sp roots) r in
              let (set', in_heap) =
                Reachable-marked in_bitmap owns trace all_roots (heap_of h) fuel start v p q m s i
                  listed near in
              (set', ground (arith, in_heap, i));
          set_by = λ p set'.
              let (q, near, i, in_heap, r) =
                marked-Reachable in_bitmap owns trace all_roots (heap_of h) fuel start v p m s
                  set' in
              (
                q,
                near,
                i,
                ground (arith, in_heap, i),
                Reachable-roots q (listed-IsRoot words origin sp roots) r,
              );
        }

    -- The bit of a granule with something that is reached stays set.
    granule_kept :
        (h : Heap) (v : Visitor) (p q : ℕ)
        → IsResting header in_bitmap h
        → IsMarked h v
        → in_bitmap q ≡ true
        → Reached h q
        → same_granule p q ≡ true
        → (finish header in_bitmap outside h v).live p ≡ true
    granule_kept h v p q k m i r near =
        (finish_lem header in_bitmap outside h v k).0.0 p
        ∙ granule_test-true _ p (λ x e.
          let near' = same_granule_trans x p q (same_granule_comm p x e) near in
          let (set', l) = m.sets x q i r near' in ground (arith, k.granular x q near', set', l))

    pub collect_keeps :
        (h h' : Heap) (p : ℕ)
        → IsResting header in_bitmap h
        → h.defers ≡ 0
        → collect h ≡ some h'
        → in_bitmap p ≡ true
        → Reached h p
        → h'.live p ≡ true
    unfolding same_granule
    collect_keeps h h' p k d e i r =
        let (v, s, done) = collect_done h h' d e in
        ap (λ u. u.live p) done ∙ granule_kept h v p p k (marked_lem h v k s) i r (ground arith)

    -- After a collection of a heap at rest that is not deferred, in the granule of every address of the bitmap that is
    -- live there is one that is reached from the words of the stack and what the constraints visit: the cells of
    -- other granules were freed.
    pub collect_frees :
        (h h' : Heap) (p : ℕ)
        → IsResting header in_bitmap h
        → h.defers ≡ 0
        → collect h ≡ some h'
        → in_bitmap p ≡ true
        → h'.live p ≡ true
        → (q : ℕ) × (same_granule p q ≡ true) × Reached h q
    unfolding same_granule
    collect_frees h h' p k d e i l =
        let (v, s, done) = collect_done h h' d e in
        let m = marked_lem h v k s in
        let f = finish_lem header in_bitmap outside h v k in
        let bit = sym (f.0.0 p) ∙ sym (ap (λ u. u.live p) done) ∙ l in
        let here = granule_test-at _ p p (ground arith) bit in
        let (c, near, own) = k.placed p i (ground (arith, here)) in
        let at_cell = granule_test-at _ p c near bit in
        let (q, near', _, _, r) = m.set_by c (ground (arith, at_cell, own)) in
        (q, same_granule_trans p c q near near', r)

    -- After a collection of a heap at rest that is not deferred, no bit of the mark bitmap is set, and the cells of
    -- the blocks that are live are white. Large objects keep their marks.
    pub collect_rests :
        (h h' : Heap) (p : ℕ)
        → IsResting header in_bitmap h
        → h.defers ≡ 0
        → collect h ≡ some h'
        → (h'.marked p ≡ false)
          × ((if mem p (cells_of header h.allocators) && h'.live p
                then h'.states p == definetely_white
                else true)
              ≡ true)
    unfolding same_granule
    collect_rests h h' p k d e =
        let (v, s, done) = collect_done h h' d e in
        let m = marked_lem h v k s in
        let f = finish_lem header in_bitmap outside h v k in
        let w = finish header in_bitmap outside h v in
        let unmarked : w.marked p ≡ false = elim (Bool-cases (w.marked p)) [
          | inr n ↦ n
          | inl n ↦
              let bit = sym (f.0.1 p) ∙ n in
              let here = granule_test-at _ p p (ground arith) bit in
              let (q, near, i, l, r) = m.set_by p (ground (arith, here)) in
              let (c, near', own) = k.placed q i l in
              let at_cell = granule_test-at _ p c (same_granule_trans p q c near near') bit in
              absurd (ground (arith, at_cell, own, l, k.granular q c near'))
        ] in
        let white' : (if mem p (cells_of header h.allocators) && w.live p
              then w.states p == definetely_white
              else true)
            ≡ true =
          elim (Bool-cases (mem p (cells_of header h.allocators))) [
            | inl own ↦ ground (arith, f.1 p own)
            | inr own ↦ ground (arith, own)
          ] in
        subst
          (λ u.
            (u.marked p ≡ false)
            × ((if mem p (cells_of header h.allocators) && u.live p
                  then u.states p == definetely_white
                  else true)
                ≡ true))
          (sym done) (unmarked, white')

    -- After a collection of a heap at rest that is not deferred, each slot of a weak reference that is left is live
    -- where the bitmap has its address, and leads to nothing, to a live cell, or to an address that the bitmap
    -- has not.
    pub collect_weak :
        (h h' : Heap)
        → IsResting header in_bitmap h
        → h.defers ≡ 0
        → collect h ≡ some h'
        → all_live (live_inside in_bitmap h'.live) h'.weak_refs ≡ true
    unfolding test_mark
    collect_weak h h' k d e =
        let (v, s, done) = collect_done h h' d e in
        let m = marked_lem h v k s in
        let w = finish header in_bitmap outside h v in
        let test = test_mark in_bitmap outside v.marked in
        let kept : (p : ℕ) → test p ≡ true → live_inside in_bitmap w.live p ≡ true = λ p t.
          elim (Bool-cases (in_bitmap p)) [
            | inr out ↦ ground (arith, out)
            | inl i ↦
                let (q, near, i', l, r) = m.set_by p (ground (arith, t, i)) in
                ground (arith, granule_kept h v p q k m i' r near)
          ] in
        let refs = (finish_lem header in_bitmap outside h v k).2 in
        subst (λ u. all_live (live_inside in_bitmap u.live) u.weak_refs ≡ true) (sym done)
          (ap (all_live (live_inside in_bitmap w.live)) refs
            ∙ weak_live test (live_inside in_bitmap w.live) h.weak_refs kept)

    -- When `cells` has every address that is taken for a pointer into the heap and there is fuel for each of
    -- them, a collection returns a heap.
    pub collect_returns :
        (h : Heap) (cells : List ℕ)
        → IsCovered in_bitmap owns trace cells (visitor_of h)
        → length cells ≤ fuel
        → (h' : Heap) × (collect h ≡ some h')
    unfolding collect_internal
    collect_returns h cells c l =
        let begun = process_roots_lem in_bitmap owns words origin sp roots h in
        let start = visit_all in_bitmap owns (visitor_of h) all_roots in
        let f = visit_all-IsVisited in_bitmap owns (visitor_of h) all_roots in
        let less = visit_all-work in_bitmap owns trace cells (visitor_of h) all_roots c in
        let few = count_if-length (white (visitor_of h)) cells in
        let (v, s) =
          process_worklist_ends in_bitmap owns trace cells fuel start
            (λ p i. c p (sym (f.heap p) ∙ i)) (omega (arith, less, few, l)) in
        elim (Bool-cases (ltb 0 h.defers)) [
          | inl n ↦ (h, rw n refl)
          | inr n ↦ (finish header in_bitmap outside h v, rw (begun, s, n) refl)
        ]
