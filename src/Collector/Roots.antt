-- ===== src/Collector/Roots.antt =====
-- The roots of a collection: the words of the stack and the constraints (crates/starlight/src/gc.rs).
use mathlib.Core.Path.{subst}
use js.Common.{
  ℕ, zero, suc, ap, sym, min, max, ◌+◌, ◌*◌, ◌<◌, ◌≡◌, ◌∙◌, refl, arith, Bool, true, List, [], ◌∷◌,
  ◌++◌,
}
use js.Common.{ltb, ◌==◌, if◌then◌else◌, Bool-cases, inl, inr}
use js.Sweep.Cells.{mem}
use js.Sweep.Survive.{mem-append}
use js.Collector.{
  Visitor, Heap, is_heap_pointer, visit, visit_all, scan_words, words_before, add_conservative,
  process_roots,
}

-- The words that the stack scan visits.
unfoldable pub words_from : (ℕ → ℕ) → ℕ → ℕ → List ℕ
words_from words zero scan = []
words_from words (suc n) scan = words scan ∷ words_from words n (scan + 8)

unfoldable pub stack_words : (ℕ → ℕ) → ℕ → ℕ → List ℕ
stack_words words from to =
    if ltb to from
    then words_from words (words_before to from) to
    else words_from words (words_before from to) from

abbrev pub visitor_of : Heap → Visitor
visitor_of h = record {
  live = h.live;
  marked = h.marked;
  states = h.states;
  large = h.large;
  queue = [];
}

module _ (in_bitmap owns : ℕ → Bool) where
  visit_all-append :
      (v : Visitor) (ps qs : List ℕ)
      → visit_all in_bitmap owns v (ps ++ qs)
        ≡ visit_all in_bitmap owns (visit_all in_bitmap owns v ps) qs
  unfolding visit_all
  visit_all-append v [] qs = refl
  visit_all-append v (p ∷ ps) qs = visit_all-append (visit in_bitmap owns v p) ps qs

  -- The test before a visit is the first test of the visit.
  visit_tested :
      (v : Visitor) (p : ℕ)
      → (if is_heap_pointer in_bitmap owns v p then visit in_bitmap owns v p else v)
        ≡ visit in_bitmap owns v p
  unfolding visit
  visit_tested v p = ground arith

  scan_words_lem :
      (words : ℕ → ℕ) (v : Visitor) (n scan : ℕ)
      → scan_words in_bitmap owns words v n scan
        ≡ visit_all in_bitmap owns v (words_from words n scan)
  unfolding scan_words visit_all words_from
  scan_words_lem words v zero scan = refl
  scan_words_lem words v (suc n) scan =
      ap (λ u. scan_words in_bitmap owns words u n (scan + 8)) (visit_tested v (words scan))
      ∙ scan_words_lem words (visit in_bitmap owns v (words scan)) n (scan + 8)

  add_conservative_lem :
      (words : ℕ → ℕ) (v : Visitor) (from to : ℕ)
      → add_conservative in_bitmap owns words v from to
        ≡ visit_all in_bitmap owns v (stack_words words from to)
  unfolding add_conservative stack_words
  add_conservative_lem words v from to = elim (Bool-cases (ltb to from)) [
    | inl e ↦ rw e (scan_words_lem words v (words_before to from) to)
    | inr e ↦ rw e (scan_words_lem words v (words_before from to) from)
  ]

  -- The stack and the constraints together.
  pub process_roots_lem :
      (words : ℕ → ℕ) (origin sp : ℕ) (roots : List ℕ) (h : Heap)
      → process_roots in_bitmap owns words origin sp roots h
        ≡ visit_all in_bitmap owns (visitor_of h) (stack_words words origin sp ++ roots)
  unfolding process_roots
  process_roots_lem words origin sp roots h =
      ap (λ u. visit_all in_bitmap owns u roots)
        (add_conservative_lem words (visitor_of h) origin sp)
      ∙ sym (visit_all-append (visitor_of h) (stack_words words origin sp) roots)

-- What a collection starts from: the words between the ends of the stack, at every eighth address from the lower end
-- on, but for one that begins less than 9 bytes before the upper end, and what the constraints visit.
pub data IsRoot (words : ℕ → ℕ) (origin sp : ℕ) (roots : List ℕ) : ℕ → Type 0 where
  on_stack :
      (i : ℕ)
      → min origin sp + 8 * i + 8 < max origin sp
      → IsRoot words origin sp roots (words (min origin sp + 8 * i))
  constraint : (r : ℕ) → mem r roots ≡ true → IsRoot words origin sp roots r

words_from-mem :
    (words : ℕ → ℕ) (n scan i : ℕ)
    → i < n
    → mem (words (scan + 8 * i)) (words_from words n scan) ≡ true
unfolding words_from mem
words_from-mem words zero scan i l = absurd (omega (arith, l))
words_from-mem words (suc n) scan zero l =
    let here : scan + 8 * 0 ≡ scan = omega arith in ground (arith, ap words here)
words_from-mem words (suc n) scan (suc i) l =
    let there : scan + 8 * suc i ≡ scan + 8 + 8 * i = omega arith in
    let rest = words_from-mem words n (scan + 8) i (omega (arith, l)) in
    ground (arith, ap (λ a. mem (words a) (words_from words n (scan + 8))) there, rest)

mem-words_from :
    (words : ℕ → ℕ) (n scan r : ℕ)
    → mem r (words_from words n scan) ≡ true
    → (i : ℕ) × (i < n) × (words (scan + 8 * i) ≡ r)
unfolding words_from mem
mem-words_from words zero scan r m = absurd (ground (arith, m))
mem-words_from words (suc n) scan r m = elim (Bool-cases (words scan == r)) [
  | inl e ↦
      let here : scan + 8 * 0 ≡ scan = omega arith in
      (0, omega arith, ap words here ∙ ground (arith, e))
  | inr e ↦
      let (i, l, at') = mem-words_from words n (scan + 8) r (ground (arith, e, m)) in
      let there : scan + 8 * suc i ≡ scan + 8 + 8 * i = omega arith in
      (suc i, omega (arith, l), ap words there ∙ at')
]

-- Both ways around, the scan starts at the lower end and ends before the upper one.
stack_words_lem :
    (words : ℕ → ℕ) (origin sp : ℕ)
    → stack_words words origin sp
      ≡ words_from words (words_before (min origin sp) (max origin sp)) (min origin sp)
unfolding stack_words
stack_words_lem words origin sp = elim (Bool-cases (ltb sp origin)) [
  | inl e ↦
      let low : min origin sp ≡ sp = ground (arith, e) in
      let high : max origin sp ≡ origin = ground (arith, e) in rw (e, low, high) refl
  | inr e ↦
      let low : min origin sp ≡ origin = ground (arith, e) in
      let high : max origin sp ≡ sp = ground (arith, e) in rw (e, low, high) refl
]

pub IsRoot-listed :
    (words : ℕ → ℕ) (origin sp : ℕ) (roots : List ℕ) (r : ℕ)
    → IsRoot words origin sp roots r
    → mem r (stack_words words origin sp ++ roots) ≡ true
unfolding words_before
IsRoot-listed words origin sp roots _ (on_stack i l) =
    let low = min origin sp in
    let high = max origin sp in
    let found = words_from-mem words (words_before low high) low i (omega (arith, l)) in
    let stack = stack_words_lem words origin sp in
    ground (
      arith,
      mem-append (words (low + 8 * i)) (stack_words words origin sp) roots,
      ap (mem (words (low + 8 * i))) stack,
      found,
    )
IsRoot-listed words origin sp roots _ (constraint r m) =
    ground (arith, mem-append r (stack_words words origin sp) roots, m)

pub listed-IsRoot :
    (words : ℕ → ℕ) (origin sp : ℕ) (roots : List ℕ) (r : ℕ)
    → mem r (stack_words words origin sp ++ roots) ≡ true
    → IsRoot words origin sp roots r
unfolding words_before
listed-IsRoot words origin sp roots r m = elim (Bool-cases (mem r roots)) [
  | inl e ↦ constraint r e
  | inr e ↦
      let low = min origin sp in
      let high = max origin sp in
      let stack = stack_words_lem words origin sp in
      let (i, l, at') = mem-words_from words (words_before low high) low r (
        ground (arith, mem-append r (stack_words words origin sp) roots, ap (mem r) stack, m, e)) in
      subst (IsRoot words origin sp roots) at' (on_stack i (omega (arith, l)))
]
