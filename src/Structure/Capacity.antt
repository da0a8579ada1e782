-- ===== src/Structure/Capacity.antt =====
-- The number of slots that an object has for the properties of its structure: `storage_capacity`
-- (crates/starlight/src/vm/structure.rs).
use js.Common.{ℕ, suc, ◌+◌, ◌-◌, ◌*◌, ◌/◌, ◌^◌, ◌<◌, ◌≤◌, ◌≡◌, arith, bit_or}
use js.Common.{ltb, Bool-cases, inl, inr}
use native.Mathlib.Nat.{pow-suc, pow-le-pow_right}
use js.Common.{IsFull, first_place, IsFull-start, IsFull-step, full_end}
use js.Structure.Defs.{Structure, Heap, clp2, get_slots_size, storage_capacity}

-- The least power of two that is not below a number from 2 on, as a word of 32 bits.
pub clp2_lem :
    (n : ℕ)
    → 2 ≤ n
    → n ≤ 2 ^ 31
    → (t : ℕ) × (t < 31)
      × (clp2 n ≡ 2 ^ suc t)
      × (n ≤ clp2 n)
      × (clp2 n < 2 * n)
      × (clp2 n ≤ 2 ^ 31)
unfolding clp2
clp2_lem n h l =
    let x0 = n - 1 in
    let (t, a, b, c) = first_place 31 x0 (omega arith) (omega arith) in
    let x1 = bit_or x0 (x0 / 2) in
    let x2 = bit_or x1 (x1 / 2 ^ 2) in
    let x3 = bit_or x2 (x2 / 2 ^ 4) in
    let x4 = bit_or x3 (x3 / 2 ^ 8) in
    let x5 = bit_or x4 (x4 / 2 ^ 16) in
    let f1 : IsFull t 2 x1 = IsFull-step t 1 x0 (IsFull-start t x0 b c) in
    let f2 : IsFull t 4 x2 = IsFull-step t 2 x1 f1 in
    let f3 : IsFull t 8 x3 = IsFull-step t 4 x2 f2 in
    let f4 : IsFull t 16 x4 = IsFull-step t 8 x3 f3 in
    let f5 : IsFull t 32 x5 = IsFull-step t 16 x4 f4 in
    let all = full_end t 32 x5 (omega arith) f5 in
    let most : 2 ^ suc t ≤ 2 ^ 31 =
      pow-le-pow_right {n = 2} (omega arith) {i = suc t} {j = 31} (omega arith) in
    (
      t,
      a,
      omega (arith, all, b, pow-suc 2 t),
      omega (arith, all, c),
      omega (arith, all, b, c, pow-suc 2 t),
      omega (arith, all, most),
    )

-- An object has a slot for every property, and for less than eight properties or twice the properties: the number
-- of slots is 0, 8 or the least power of two that is enough, if there are at most 2 ^ 31 properties.
pub storage_capacity_lem :
    (h : Heap) (s : Structure)
    → get_slots_size h s ≤ 2 ^ 31
    → (get_slots_size h s ≤ storage_capacity h s)
      × (storage_capacity h s < 2 * get_slots_size h s + 8)
      × (storage_capacity h s ≤ 2 ^ 31)
unfolding storage_capacity
storage_capacity_lem h s l =
    let n = get_slots_size h s in
    elim (Bool-cases (ltb n 8)) [
      | inl small ↦ ground arith
      | inr big ↦ let (t, a, b, c, d, e) = clp2_lem n (ground arith) l in ground arith
    ]
