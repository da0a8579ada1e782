-- ===== src/Collector/Reach.antt =====
-- The marks after `process_worklist` (crates/starlight/src/gc.rs) are the cells that can be reached.
use mathlib.Core.Option.{some-injective}
use mathlib.Core.Path.{subst}
use js.Common.{
  ℕ, zero, suc, ap, sym, ◌≡◌, ◌∙◌, refl, arith, Bool, true, false, ◌&&◌, ◌||◌, some, List, [], ◌∷◌,
}
use js.Common.{◌==◌, Bool-cases, inl, inr}
use js.Sweep.Cells.{mem}
use js.Collector.{
  Visitor, set_state, is_heap_pointer, visit_all, process, process_worklist, possibly_grey,
  possibly_black, same_granule,
}
use js.Collector.Visit.{white, visit_all-IsVisited}
use js.Collector.Loop.{process_next, process_short, process_last}

-- What can be reached from the roots through addresses of `heap`.
pub data Reachable (heap : ℕ → Bool) (trace : ℕ → List ℕ) (Root : ℕ → Type 0) : ℕ → Type 0 where
  from_root : (r : ℕ) → Root r → heap r ≡ true → Reachable heap trace Root r
  child :
      (p q : ℕ)
      → Reachable heap trace Root p
      → mem q (trace p) ≡ true
      → heap q ≡ true
      → Reachable heap trace Root q

-- More roots reach more.
pub Reachable-roots :
    {heap : ℕ → Bool} {trace : ℕ → List ℕ} {Root Other : ℕ → Type 0} (p : ℕ)
    → ((r : ℕ) → Root r → Other r)
    → Reachable heap trace Root p
    → Reachable heap trace Other p
Reachable-roots p f (from_root r m h) = from_root r (f r m) h
Reachable-roots p f (child q r before m h) = child q r (Reachable-roots q f before) m h

abbrev pub Listed : List ℕ → ℕ → Type 0
Listed roots r = mem r roots ≡ true

module _ (in_bitmap owns : ℕ → Bool) (trace : ℕ → List ℕ) (roots : List ℕ) (heap : ℕ → Bool) where
  -- Marking under way, where `heap` are the pointers into the heap that were white before it.
  pub record IsMarking (v : Visitor) : Type 0 where
    pub in_heap : (p : ℕ) → heap p ≡ true → is_heap_pointer in_bitmap owns v p ≡ true
    pub unvisited :
        (p : ℕ) → is_heap_pointer in_bitmap owns v p ≡ true → white v p ≡ true → heap p ≡ true
    pub queued : (p : ℕ) → mem p v.queue ≡ true → (heap p ≡ true) × (white v p ≡ false)
    pub sound : (p : ℕ) → heap p ≡ true → white v p ≡ false → Reachable heap trace (Listed roots) p
    pub rooted : (r : ℕ) → mem r roots ≡ true → heap r ≡ true → white v r ≡ false
    pub closed :
        (p q : ℕ)
        → heap p ≡ true
        → white v p ≡ false
        → mem p v.queue ≡ false
        → mem q (trace p) ≡ true
        → heap q ≡ true
        → white v q ≡ false
    pub marks :
        (p q : ℕ)
        → same_granule p q ≡ true
        → in_bitmap q ≡ true
        → heap q ≡ true
        → white v q ≡ false
        → v.marked p ≡ true
    pub marked_by :
        (p : ℕ)
        → v.marked p ≡ true
        → (q : ℕ) × (same_granule p q ≡ true)
          × (in_bitmap q ≡ true)
          × (heap q ≡ true)
          × (white v q ≡ false)

  process-IsMarking :
      (v : Visitor) (p : ℕ) (rest : List ℕ)
      → v.queue ≡ p ∷ rest
      → IsMarking v
      → IsMarking (process in_bitmap owns trace v p rest)
  unfolding process is_heap_pointer mem
  process-IsMarking v p rest e k =
      let v1 : Visitor = record v {
        queue = rest;
        states = (set_state v.states p possibly_grey possibly_black).1;
      } in
      let f = visit_all-IsVisited in_bitmap owns v1 (trace p) in
      let same : (q : ℕ) → white v1 q ≡ white v q = λ q. unfold set_state in ground arith in
      let queue : (q : ℕ) → mem q v.queue ≡ (p == q || mem q rest) = λ q. ap (mem q) e in
      let heap1 : (q : ℕ) → heap q ≡ true → is_heap_pointer in_bitmap owns v1 q ≡ true =
        k.in_heap in
      let unvisited1 : (q : ℕ)
          → is_heap_pointer in_bitmap owns v1 q ≡ true
          → white v1 q ≡ true
          → heap q ≡ true =
        λ q h w. k.unvisited q h (sym (same q) ∙ w) in
      let front = k.queued p (ground (arith, queue p)) in
      record {
        in_heap = λ q h. f.heap q ∙ heap1 q h;
        unvisited = λ q h w. unvisited1 q (sym (f.heap q) ∙ h) (ground (arith, f.whites q, w));
        queued = λ q m. elim (Bool-cases (mem q rest)) [
          | inl r ↦
              let (h, w) = k.queued q (ground (arith, queue q, r)) in
              (h, ground (arith, f.whites q, same q, w))
          | inr r ↦ (
            unvisited1 q (ground (arith, f.queued q, m, r)) (ground (arith, f.queued q, m, r)),
            ground (arith, f.queued q, m, r, f.whites q),
          )
        ];
        sound = λ q h w. elim (Bool-cases (white v q)) [
          | inl w0 ↦
              child p q (k.sound p front.0 front.1) (ground (arith, f.whites q, same q, w, w0)) h
          | inr w0 ↦ k.sound q h w0
        ];
        rooted = λ r m h. ground (arith, f.whites r, same r, k.rooted r m h);
        closed = λ a b h w n m h'. elim (Bool-cases (white v a)) [
          | inl w0 ↦ absurd (ground (arith, f.queued a, f.whites a, same a, heap1 a h, h, w, w0, n))
          | inr w0 ↦ elim (Bool-cases (p == a)) [
            | inl here ↦
                let at_p : mem b (trace p) ≡ true =
                  ap (λ t. mem b (trace t)) (ground (arith, here)) ∙ m in
                ground (arith, f.whites b, heap1 b h', h', at_p)
            | inr there ↦
                let old = k.closed a b h w0 (ground (arith, queue a, there, f.queued a, n)) m h' in
                ground (arith, f.whites b, same b, old)
          ]
        ];
        marks = λ a b near i h w. elim (Bool-cases (white v b)) [
          | inl w0 ↦ f.marks a b near (ground (arith, f.whites b, same b, heap1 b h, i, w, w0))
          | inr w0 ↦ f.kept a (k.marks a b near i h w0)
        ];
        marked_by = λ a m. elim (Bool-cases (v.marked a)) [
          | inl m0 ↦
              let (b, near, i, h, w) = k.marked_by a m0 in
              (b, near, i, h, ground (arith, f.whites b, same b, w))
          | inr m0 ↦
              let (b, near, t) = f.marked_by a m m0 in
              (
                b,
                near,
                ground (arith, t),
                unvisited1 b (ground (arith, t)) (ground (arith, t)),
                ground (arith, f.whites b, t),
              )
        ];
      }

  reached : (q : ℕ) → Reachable heap trace (Listed roots) q → heap q ≡ true
  reached q (from_root _ m h) = h
  reached q (child _ _ _ m h) = h

  -- What is visited when the queue is empty is what can be reached.
  pub visited_when_empty :
      (v : Visitor)
      → IsMarking v
      → v.queue ≡ []
      → (p : ℕ) → Reachable heap trace (Listed roots) p
      → white v p ≡ false
  unfolding mem
  visited_when_empty v k e p (from_root r m h) = k.rooted r m h
  visited_when_empty v k e p (child q _ r m h) =
      let before = visited_when_empty v k e q r in
      k.closed q p (reached q r) before (ap (mem q) e) m h

  pub loop_from :
      (n : ℕ) (v v' : Visitor) (q : List ℕ)
      → v.queue ≡ q
      → IsMarking v
      → process_worklist in_bitmap owns trace n v ≡ some v'
      → IsMarking v' × (v'.queue ≡ [])
  loop_from n v v' [] e k r =
      let same = some-injective v v' (sym (process_last in_bitmap owns trace n v e) ∙ r) in
      subst (λ u. IsMarking u × (u.queue ≡ [])) same (k, e)
  loop_from zero v v' (p ∷ rest) e k r =
      absurd (ground (arith, sym (process_short in_bitmap owns trace v p rest e) ∙ r))
  loop_from (suc n) v v' (p ∷ rest) e k r =
      let v1 = process in_bitmap owns trace v p rest in
      loop_from n v1 v' v1.queue refl (process-IsMarking v p rest e k)
        (sym (process_next in_bitmap owns trace n v p rest e) ∙ r)

  -- After the loop, a bit is set for something in the granule that can be reached.
  pub marked-Reachable :
      (n : ℕ) (v v' : Visitor) (p : ℕ)
      → IsMarking v
      → process_worklist in_bitmap owns trace n v ≡ some v'
      → v'.marked p ≡ true
      → (q : ℕ) × (same_granule p q ≡ true)
        × (in_bitmap q ≡ true)
        × (heap q ≡ true)
        × Reachable heap trace (Listed roots) q
  marked-Reachable n v v' p k r m =
      let (k', e) = loop_from n v v' v.queue refl k r in
      let (q, near, i, h, w) = k'.marked_by p m in (q, near, i, h, k'.sound q h w)

  -- All addresses in the granule of what can be reached are marked.
  pub Reachable-marked :
      (n : ℕ) (v v' : Visitor) (p q : ℕ)
      → IsMarking v
      → process_worklist in_bitmap owns trace n v ≡ some v'
      → in_bitmap q ≡ true
      → Reachable heap trace (Listed roots) q
      → same_granule p q ≡ true
      → (v'.marked p ≡ true) × (heap q ≡ true)
  Reachable-marked n v v' p q k r i m near =
      let (k', e) = loop_from n v v' v.queue refl k r in
      let h = reached q m in (k'.marks p q near i h (visited_when_empty v' k' e q m), h)

  -- Visits on a heap without marks start the marking.
  pub visit_all-IsMarking :
      (v : Visitor)
      → ((p : ℕ) → heap p ≡ (is_heap_pointer in_bitmap owns v p && white v p))
      → ((p : ℕ) → v.marked p ≡ false)
      → v.queue ≡ []
      → IsMarking (visit_all in_bitmap owns v roots)
  unfolding mem
  visit_all-IsMarking v s m e =
      let f = visit_all-IsVisited in_bitmap owns v roots in
      let none_queued : (p : ℕ) → mem p v.queue ≡ false = λ p. ap (mem p) e in
      record {
        in_heap = λ p h. f.heap p ∙ ground (arith, s p, h);
        unvisited = λ p h w. ground (arith, f.heap p, f.whites p, s p, h, w);
        queued = λ p q. (
          ground (arith, f.queued p, none_queued p, s p, q),
          ground (arith, f.queued p, f.whites p, none_queued p, s p, q),
        );
        sound = λ p h n. from_root p (ground (arith, f.whites p, s p, h, n)) h;
        rooted = λ r q h. ground (arith, f.whites r, q, s r, h);
        closed = λ p q h n o c h'.
            absurd (ground (arith, f.queued p, f.whites p, none_queued p, h, s p, n, o));
        marks = λ p q near i h w. f.marks p q near (ground (arith, f.whites q, s q, h, i, w));
        marked_by = λ p n.
            let (q, near, t) = f.marked_by p n (m p) in
            (q, near, ground (arith, t), ground (arith, s q, t), ground (arith, f.whites q, t));
      }
