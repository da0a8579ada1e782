-- ===== src/Sweep/Cells.antt =====
-- What the sweep of the cells of a block does (crates/starlight/src/gc/allocation.rs).
use mathlib.Core.Path.{subst}
use js.Common.{
  ℕ, ◌+◌, ◌≡◌, ◌∙◌, ap, sym, arith, refl, Bool, true, false, not, ◌&&◌, ◌||◌, List, [], ◌∷◌,
}
use js.Common.{◌==◌, if◌then◌else◌, Bool-cases, inl, inr}
use js.Block.{add}
use js.Block.Free.{IsFree, IsAbsent, add-IsFree}
use js.Sweep.{Sweep, sweep_cell, sweep_cells}

unfoldable pub mem : ℕ → List ℕ → Bool
mem p [] = false
mem p (c ∷ cs) = c == p || mem p cs

unfoldable pub is_distinct : List ℕ → Bool
is_distinct [] = true
is_distinct (c ∷ cs) = not (mem c cs) && is_distinct cs

-- The cells that are not kept, the last one first, before others.
unfoldable pub freed : (ℕ → Bool) → List ℕ → List ℕ → List ℕ
freed keep [] xs = xs
freed keep (c ∷ cs) xs = freed keep cs (if keep c then xs else c ∷ xs)

unfoldable pub bytes : ℕ → (ℕ → Bool) → List ℕ → ℕ
bytes size keep [] = 0
bytes size keep (c ∷ cs) = (if keep c then size else 0) + bytes size keep cs

unfoldable pub keeps_none : (ℕ → Bool) → List ℕ → Bool
keeps_none keep [] = true
keeps_none keep (c ∷ cs) = not (keep c) && keeps_none keep cs

-- The sweep of the cells `cs` by which those of `keep` survive.
pub record IsSwept (size : ℕ) (keep : ℕ → Bool) (cs xs : List ℕ) (w w' : Sweep) : Type 0 where
  pub live : (p : ℕ) → w'.live p ≡ (if mem p cs then keep p else w.live p)
  pub marked : (p : ℕ) → w'.marked p ≡ (w.marked p && not (mem p cs && w.live p))
  pub fully_free : w'.fully_free ≡ (w.fully_free && keeps_none keep cs)
  pub allocated : w'.allocated ≡ w.allocated + bytes size keep cs
  pub free : IsFree w'.links w'.head (freed keep cs xs)

not_again : (c p : ℕ) (cs : List ℕ) → mem c cs ≡ false → mem p cs ≡ true → (p == c) ≡ false
not_again c p cs n m = elim (Bool-cases (p == c)) [
  | inr e ↦ e
  | inl e ↦
      let same : p ≡ c = ground arith in
      let again : mem c cs ≡ true = ap (λ q. mem q cs) (sym same) ∙ m in absurd (ground arith)
]

-- One cell.
record IsCell (size : ℕ) (keep : Bool) (c : ℕ) (w w1 : Sweep) : Type 0 where
  live : (p : ℕ) → w1.live p ≡ (if p == c then keep else w.live p)
  marked : (p : ℕ) → w1.marked p ≡ (w.marked p && not (p == c && w.live p))
  fully_free : w1.fully_free ≡ (w.fully_free && not keep)
  allocated : w1.allocated ≡ w.allocated + (if keep then size else 0)
  links : w1.links ≡ (if keep then w.links else (add w.links w.head c).0)
  head : w1.head ≡ (if keep then w.head else (add w.links w.head c).1)

at_cell : (f : ℕ → Bool) (p c : ℕ) → (p == c) ≡ true → f p ≡ f c
at_cell f p c e = ap f (ground arith)

cell_lem :
    (size : ℕ) (c : ℕ) (w : Sweep) → IsCell size (w.live c && w.marked c) c w (sweep_cell size w c)
unfolding sweep_cell
cell_lem size c w = record {
  live = λ p. elim (Bool-cases (p == c)) [
    | inl e ↦ let l = at_cell w.live p c e in ground arith
    | inr e ↦ ground arith
  ];
  marked = λ p. elim (Bool-cases (p == c)) [
    | inl e ↦ let l = at_cell w.live p c e in let m = at_cell w.marked p c e in ground arith
    | inr e ↦ ground arith
  ];
  fully_free = ground arith;
  allocated = ground arith;
  links = ground arith;
  head = ground arith;
}

module _ (size : ℕ) (keep : ℕ → Bool) where
  pub swept :
      (cs xs : List ℕ) (w : Sweep)
      → is_distinct cs ≡ true
      → mem 0 cs ≡ false
      → ((p : ℕ) → mem p cs ≡ true → (w.live p && w.marked p) ≡ keep p)
      → ((p : ℕ) → mem p cs ≡ true → IsAbsent p xs)
      → IsFree w.links w.head xs
      → IsSwept size keep cs xs w (sweep_cells size w cs)
  unfolding sweep_cells mem is_distinct freed bytes keeps_none IsAbsent
  swept [] xs w d z k a f = record {
    live = λ p. refl;
    marked = λ p. ground arith;
    fully_free = ground arith;
    allocated = ground arith;
    free = f;
  }
  swept (c ∷ cs) xs w d z k a f =
      let w1 = sweep_cell size w c in
      let new : mem c cs ≡ false = ground arith in
      let cell' : IsCell size (keep c) c w w1 =
        subst (λ b. IsCell size b c w w1) (k c (ground arith)) (cell_lem size c w) in
      let xs1 = if keep c then xs else c ∷ xs in
      let free1 : IsFree w1.links w1.head xs1 = elim (Bool-cases (keep c)) [
        | inl y ↦
            let l : w1.links ≡ w.links = ground (arith, cell'.links) in
            let h : w1.head ≡ w.head = ground (arith, cell'.head) in rw (l, h, y) f
        | inr y ↦
            let l : w1.links ≡ (add w.links w.head c).0 = ground (arith, cell'.links) in
            let h : w1.head ≡ (add w.links w.head c).1 = ground (arith, cell'.head) in
            rw (l, h, y) (add-IsFree w.links w.head c xs f (λ e. ground arith) (a c (ground arith)))
      ] in
      let ih =
        swept cs xs1 w1 (ground arith) (ground arith)
          (λ p m.
            let other = not_again c p cs new m in ground (arith, k p, cell'.live p, cell'.marked p))
          (λ p m. elim (Bool-cases (keep c)) [
            | inl y ↦ rw y (a p (ground arith))
            | inr y ↦
                let other = not_again c p cs new m in
                rw y (λ e. absurd (ground arith), a p (ground arith))
          ])
          free1 in
      record {
        live = λ p. elim (Bool-cases (p == c)) [
          | inl e ↦
              let l = at_cell keep p c e in
              let n = at_cell (λ q. mem q cs) p c e in ground (arith, ih.live p, cell'.live p)
          | inr e ↦ ground (arith, ih.live p, cell'.live p)
        ];
        marked = λ p. elim (Bool-cases (p == c)) [
          | inl e ↦
              let n = at_cell (λ q. mem q cs) p c e in ground (arith, ih.marked p, cell'.marked p)
          | inr e ↦ ground (arith, ih.marked p, cell'.marked p, cell'.live p)
        ];
        fully_free = ground (arith, ih.fully_free, cell'.fully_free);
        allocated = omega (arith, ih.allocated, cell'.allocated);
        free = ih.free;
      }
