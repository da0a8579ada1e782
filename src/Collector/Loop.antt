-- ===== src/Collector/Loop.antt =====
-- The loop of `process_worklist` (crates/starlight/src/gc.rs) comes to an end.
use js.Common.{
  ℕ, zero, suc, ap, sym, ◌+◌, ◌≤◌, ◌≡◌, ◌∙◌, refl, arith, Bool, true, false, ◌&&◌, Option, none,
  some, List, [], ◌∷◌, length,
}
use js.Common.{◌==◌, if◌then◌else◌, Bool-cases, inl, inr}
use js.Sweep.Cells.{mem}
use js.Collector.{
  Visitor, set_state, is_heap_pointer, mark, visit, visit_all, process, process_worklist,
  possibly_grey, possibly_black,
}
use js.Collector.Visit.{white, visit-IsVisited, visit_all-IsVisited}

-- How many of the cells satisfy the test.
unfoldable pub count_if : (ℕ → Bool) → List ℕ → ℕ
count_if f [] = 0
count_if f (c ∷ cs) = (if f c then 1 else 0) + count_if f cs

pub count_if-length : (f : ℕ → Bool) (cs : List ℕ) → count_if f cs ≤ length cs
unfolding count_if
count_if-length f [] = omega arith
count_if-length f (c ∷ cs) = ground (arith, count_if-length f cs)

pub count_if-le :
    (f g : ℕ → Bool) (cs : List ℕ)
    → ((p : ℕ) → g p ≡ true → f p ≡ true)
    → count_if g cs ≤ count_if f cs
unfolding count_if
count_if-le f g [] h = omega arith
count_if-le f g (c ∷ cs) h = ground (arith, h c, count_if-le f g cs h)

count_if-drop :
    (f g : ℕ → Bool) (cs : List ℕ) (p : ℕ)
    → ((q : ℕ) → g q ≡ true → f q ≡ true)
    → mem p cs ≡ true
    → f p ≡ true
    → g p ≡ false
    → count_if g cs + 1 ≤ count_if f cs
unfolding count_if mem
count_if-drop f g [] p h m a b = absurd (ground (arith, m))
count_if-drop f g (c ∷ cs) p h m a b = elim (Bool-cases (c == p)) [
  | inl e ↦
      let same : c ≡ p = ground (arith, e) in
      ground (arith, ap f same, ap g same, a, b, count_if-le f g cs h)
  | inr e ↦ ground (arith, e, m, h c, count_if-drop f g cs p h (ground (arith, e, m)) a b)
]

module _ (in_bitmap owns : ℕ → Bool) (trace : ℕ → List ℕ) where
  pub process_next :
      (n : ℕ) (v : Visitor) (p : ℕ) (rest : List ℕ)
      → v.queue ≡ p ∷ rest
      → process_worklist in_bitmap owns trace (suc n) v
        ≡ process_worklist in_bitmap owns trace n (process in_bitmap owns trace v p rest)
  unfolding process_worklist
  process_next n v p rest e =
      ap
        (λ (q : List ℕ). elim q as (λ x. Option Visitor) [
          | [] ↦ some v
          | c ∷ cs ↦ process_worklist in_bitmap owns trace n (process in_bitmap owns trace v c cs)
        ])
        e

  pub process_short :
      (v : Visitor) (p : ℕ) (rest : List ℕ)
      → v.queue ≡ p ∷ rest
      → process_worklist in_bitmap owns trace zero v ≡ none
  unfolding process_worklist
  process_short v p rest e =
      ap (λ (q : List ℕ). elim q as (λ x. Option Visitor) [ [] ↦ some v | c ∷ cs ↦ none ]) e

  pub process_last :
      (n : ℕ) (v : Visitor) → v.queue ≡ [] → process_worklist in_bitmap owns trace n v ≡ some v
  unfolding process_worklist
  process_last zero v e =
      ap (λ (q : List ℕ). elim q as (λ x. Option Visitor) [ [] ↦ some v | c ∷ cs ↦ none ]) e
  process_last (suc n) v e =
      ap
        (λ (q : List ℕ). elim q as (λ x. Option Visitor) [
          | [] ↦ some v
          | c ∷ cs ↦ process_worklist in_bitmap owns trace n (process in_bitmap owns trace v c cs)
        ])
        e

module _ (in_bitmap owns : ℕ → Bool) (trace : ℕ → List ℕ) (cells : List ℕ) where
  -- The cells of the heap are among `cells`.
  abbrev pub IsCovered : Visitor → Type 0
  IsCovered v = (p : ℕ) → is_heap_pointer in_bitmap owns v p ≡ true → mem p cells ≡ true

  -- What is left to do.
  abbrev pub work : Visitor → ℕ
  work v = count_if (white v) cells + length v.queue

  visit_pushes :
      (v : Visitor) (p : ℕ)
      → (visit in_bitmap owns v p).queue
        ≡ (if is_heap_pointer in_bitmap owns v p && white v p then p ∷ v.queue else v.queue)
  unfolding visit mark set_state
  visit_pushes v p = ground arith

  visit-work : (v : Visitor) (p : ℕ) → IsCovered v → work (visit in_bitmap owns v p) ≤ work v
  unfolding mem
  visit-work v p k =
      let one = visit-IsVisited in_bitmap owns v p in
      let v' = visit in_bitmap owns v p in
      let fewer : (q : ℕ) → white v' q ≡ true → white v q ≡ true =
        λ q h. ground (arith, one.whites q, h) in
      elim (Bool-cases (is_heap_pointer in_bitmap owns v p && white v p)) [
        | inl e ↦
            let longer : length v'.queue ≡ suc (length v.queue) =
              ap length (visit_pushes v p) ∙ (rw e refl) in
            let less =
              count_if-drop (white v) (white v') cells p fewer (k p (ground (arith, e)))
                (ground (arith, e)) (ground (arith, one.whites p, e)) in
            omega (arith, longer, less)
        | inr e ↦
            let same : length v'.queue ≡ length v.queue =
              ap length (visit_pushes v p) ∙ (rw e refl) in
            omega (arith, same, count_if-le (white v) (white v') cells fewer)
      ]

  pub visit_all-work :
      (v : Visitor) (ps : List ℕ) → IsCovered v → work (visit_all in_bitmap owns v ps) ≤ work v
  unfolding visit_all
  visit_all-work v [] k = omega arith
  visit_all-work v (p ∷ ps) k =
      let one = visit-IsVisited in_bitmap owns v p in
      let v' = visit in_bitmap owns v p in
      let rest = visit_all-work v' ps (λ q h. k q (ground (arith, one.heap q, h))) in
      omega (arith, visit-work v p k, rest)

  process-work :
      (v : Visitor) (p : ℕ) (rest : List ℕ)
      → IsCovered v
      → v.queue ≡ p ∷ rest
      → work (process in_bitmap owns trace v p rest) + 1 ≤ work v
  unfolding process is_heap_pointer
  process-work v p rest k e =
      let v1 : Visitor = record v {
        queue = rest;
        states = (set_state v.states p possibly_grey possibly_black).1;
      } in
      let fewer : (q : ℕ) → white v1 q ≡ true → white v q ≡ true =
        λ q h. unfold set_state in ground (arith, h) in
      let longer : length v.queue ≡ suc (length rest) = ap length e in
      omega
        (arith, visit_all-work v1 (trace p) k, longer, count_if-le (white v) (white v1) cells fewer)

  process-IsCovered :
      (v : Visitor) (p : ℕ) (rest : List ℕ)
      → IsCovered v
      → IsCovered (process in_bitmap owns trace v p rest)
  unfolding process is_heap_pointer
  process-IsCovered v p rest k q h =
      let v1 : Visitor = record v {
        queue = rest;
        states = (set_state v.states p possibly_grey possibly_black).1;
      } in
      k q (sym ((visit_all-IsVisited in_bitmap owns v1 (trace p)).heap q) ∙ h)

  ends_from :
      (n : ℕ) (v : Visitor) (q : List ℕ)
      → v.queue ≡ q
      → IsCovered v
      → count_if (white v) cells + length v.queue ≤ n
      → (v' : Visitor) × (process_worklist in_bitmap owns trace n v ≡ some v')
  ends_from zero v [] e k h = (v, process_last in_bitmap owns trace zero v e)
  ends_from zero v (p ∷ rest) e k h =
      let longer : length v.queue ≡ suc (length rest) = ap length e in
      absurd (omega (arith, h, longer))
  ends_from (suc n) v [] e k h = (v, process_last in_bitmap owns trace (suc n) v e)
  ends_from (suc n) v (p ∷ rest) e k h =
      let v1 = process in_bitmap owns trace v p rest in
      let (v', e') =
        ends_from n v1 v1.queue refl (process-IsCovered v p rest k)
          (omega (arith, process-work v p rest k e, h)) in
      (v', process_next in_bitmap owns trace n v p rest e ∙ e')

  -- Fuel for each cell that was not visited and each that is in the queue is enough.
  pub process_worklist_ends :
      (fuel : ℕ) (v : Visitor)
      → IsCovered v
      → count_if (white v) cells + length v.queue ≤ fuel
      → (v' : Visitor) × (process_worklist in_bitmap owns trace fuel v ≡ some v')
  process_worklist_ends fuel v k h = ends_from fuel v v.queue refl k h
