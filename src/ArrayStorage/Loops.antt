-- ===== src/ArrayStorage/Loops.antt =====
-- What the loops over memory leave, in one equation each.
use mathlib.Core.Path.{fun_ext}
use js.Common.{ℕ, zero, suc, ◌+◌, ◌-◌, ◌≤◌, ◌<◌, ◌≡◌, ap, ◌∙◌, arith, refl, true, ◌&&◌, none, some}
use js.Common.{ltb, leb, if◌then◌else◌}
use js.Value.{JsValue}
use js.ArrayStorage.Memory.{Memory, put, store, load, fill, uninit_copy, copy, copy_backward}

-- The words from `start` on, `n` of them, are those of `src` at a distance; the others are of `mem`.
abbrev pub overlay : ℕ → ℕ → Memory → Memory → Memory
overlay start n src mem i = if leb start i && ltb i (start + n) then src (i - start) else mem i

pub fill_lem :
    (cap n start : ℕ) (v : JsValue) (mem : Memory)
    → start + n ≤ cap
    → fill cap n start v mem ≡ some (overlay start n (λ _. v) mem)
unfolding fill store
fill_lem cap zero start v mem h = ap some (fun_ext λ i. ground arith)
fill_lem cap (suc n) start v mem h =
    let ih = fill_lem cap n (start + 1) v (put mem start v) (omega arith) in
    let room : ltb start cap ≡ true = ground arith in
    rw room (ih ∙ ap some (fun_ext λ i. ground arith))

pub uninit_copy_lem :
    (from_cap : ℕ) (src : Memory) (cap n first result : ℕ) (mem : Memory)
    → first + n ≤ from_cap
    → result + n ≤ cap
    → uninit_copy from_cap src cap n first result mem
      ≡ some (overlay result n (λ i. src (first + i)) mem)
unfolding uninit_copy store load
uninit_copy_lem from_cap src cap zero first result mem h k = ap some (fun_ext λ i. ground arith)
uninit_copy_lem from_cap src cap (suc n) first result mem h k =
    let ih =
      uninit_copy_lem from_cap src cap n (first + 1) (result + 1) (put mem result (src first))
        (omega arith) (omega arith) in
    let room : ltb first from_cap ≡ true = ground arith in
    let room' : ltb result cap ≡ true = ground arith in
    rw (room, room') (ih ∙ ap some (fun_ext λ i. ground arith))

-- `copy` towards the start may overlap.
pub copy_lem :
    (cap n first result : ℕ) (mem : Memory)
    → first + n ≤ cap
    → result ≤ first
    → copy cap n first result mem ≡ some (overlay result n (λ i. mem (first + i)) mem)
unfolding copy store load
copy_lem cap zero first result mem h k = ap some (fun_ext λ i. ground arith)
copy_lem cap (suc n) first result mem h k =
    let ih =
      copy_lem cap n (first + 1) (result + 1) (put mem result (mem first)) (omega arith)
        (omega arith) in
    let room : ltb first cap ≡ true = ground arith in
    let room' : ltb result cap ≡ true = ground arith in
    rw (room, room') (ih ∙ ap some (fun_ext λ i. ground arith))

-- `copy_backward` of words that lie before `result`: it fills the `n` words BEFORE `result`.
pub copy_backward_lem :
    (cap n last result : ℕ) (mem : Memory)
    → last ≤ cap
    → result ≤ cap
    → n ≤ last
    → n ≤ result
    → last ≤ result
    → copy_backward cap n last result mem
      ≡ some (overlay (result - n) n (λ i. mem (last - n + i)) mem)
unfolding copy_backward store load
copy_backward_lem cap zero last result mem h k a b c = ap some (fun_ext λ i. ground arith)
copy_backward_lem cap (suc n) last zero mem h k a b c = absurd (omega arith)
copy_backward_lem cap (suc n) last (suc result) mem h k a b c =
    let ih =
      copy_backward_lem cap n (last - 1) result (put mem result (mem (last - 1))) (omega arith)
        (omega arith) (omega arith) (omega arith) (omega arith) in
    let room : ltb (last - 1) cap ≡ true = ground arith in
    let room' : ltb result cap ≡ true = ground arith in
    rw (room, room') (ih ∙ ap some (fun_ext λ i. ground arith))

-- `copy_backward` of more words than lie before `result` leaves the array.
pub copy_backward_short :
    (cap n last result : ℕ) (mem : Memory) → result < n → copy_backward cap n last result mem ≡ none
unfolding copy_backward store load
copy_backward_short cap zero last result mem h = absurd (omega arith)
copy_backward_short cap (suc n) last zero mem h = refl
copy_backward_short cap (suc n) last (suc result) mem h =
    ground (arith, copy_backward_short cap n (last - 1) result (put mem result (mem (last - 1))))
