-- ===== src/Block/Free.antt =====
-- The free list of a block as a list of addresses (crates/starlight/src/gc/block.rs).
use native.Mathlib.Nat.{mul-le-mul_right, suc-mul}
use js.Common.{
  ℕ, zero, suc, sym, ◌+◌, ◌≤◌, ◌<◌, ◌≡◌, ◌≢◌, arith, refl, true, false, ◌^◌, List, [], ◌∷◌,
  if◌then◌else◌, ◌==◌,
}
use js.Block.{
  Block, Links, get, is_aligned, add, begin, cell, cell_count, allocate, deallocate, walk_add, init,
}
use js.Block.Cells.{IsPlaced, cell_from_ptr-cell}

-- The entries from `head` on are these addresses, in this order.
unfoldable pub IsFree : Links → ℕ → List ℕ → Type 0
IsFree links head [] = head ≡ 0
IsFree links head (x ∷ xs) = (head ≡ x) × (x ≢ 0) × IsFree links (links x) xs

unfoldable pub IsAbsent : ℕ → List ℕ → Type 0
IsAbsent x [] = Unit
IsAbsent x (y ∷ ys) = (x ≢ y) × IsAbsent x ys

-- An address that is not in the list can be written to.
IsFree-write :
    (links : Links) (head x l : ℕ) (xs : List ℕ)
    → IsFree links head xs
    → IsAbsent x xs
    → IsFree (λ p. if p == x then l else links p) head xs
unfolding IsFree IsAbsent
IsFree-write links head x l [] f a = f
IsFree-write links head x l (y ∷ ys) (e, n, f) (d, a) =
    (e, n, rw (other y d) (IsFree-write links (links y) x l ys f a))
  where
    other : (z : ℕ) → x ≢ z → (if z == x then l else links z) ≡ links z
    other z d = ground arith

pub add-IsFree :
    (links : Links) (head x : ℕ) (xs : List ℕ)
    → IsFree links head xs
    → x ≢ 0
    → IsAbsent x xs
    → IsFree (add links head x).0 (add links head x).1 (x ∷ xs)
unfolding add IsFree
add-IsFree links head x xs f n a = (refl, n, rw at' (IsFree-write links head x head xs f a))
  where
    at' : (if x == x then head else links x) ≡ head
    at' = ground arith

pub get-IsFree :
    (links : Links) (head x : ℕ) (xs : List ℕ)
    → IsFree links head (x ∷ xs)
    → ((get links head).0 ≡ x) × IsFree links (get links head).1 xs
unfolding get IsFree
get-IsFree links head x xs (e, n, f) =
    let found : (head == 0) ≡ false = ground arith in rw (found, e) (refl, f)

pub get_empty : (links : Links) (head : ℕ) → IsFree links head [] → (get links head).0 ≡ 0
unfolding get IsFree
get_empty links head e = ground arith

-- `deallocate` of an address that is not null and not in the free list puts it in front of the list,
-- and `allocate` takes the first address of the list; where the list is empty it returns null.
pub allocate-deallocate :
    (links : Links) (b : Block) (ptr : ℕ) (xs : List ℕ)
    → IsFree links b.free xs
    → ptr ≢ 0
    → IsAbsent ptr xs
    → let (links', b') = deallocate links b ptr in
      IsFree links' b'.free (ptr ∷ xs)
      × ((allocate links' b').0 ≡ ptr)
      × IsFree links' (allocate links' b').1.free xs
      × (xs ≡ [] → (allocate links' (allocate links' b').1).0 ≡ 0)
unfolding allocate get deallocate
allocate-deallocate links b ptr xs f n a =
    let freed = add-IsFree links b.free ptr xs f n a in
    let taken = get-IsFree (add links b.free ptr).0 (add links b.free ptr).1 ptr xs freed in
    (
      freed,
      taken.0,
      taken.1,
      λ e.
          get_empty (add links b.free ptr).0
            (get (add links b.free ptr).0 (add links b.free ptr).1).1 (rw (sym e) taken.1),
    )

-- The cells below the index `n`, the last one first.
unfoldable pub cells_down : ℕ → Block → ℕ → List ℕ
cells_down header b zero = []
cells_down header b (suc n) = cell header b n ∷ cells_down header b n

module _ (header : ℕ) (b : Block) (v : IsPlaced header b) where
  later : (i j : ℕ) → i < cell_count header b → j < i → cell header b i ≢ cell header b j
  later i j h l e =
      let at_i = (cell_from_ptr-cell header b v i 0 h v.sized).0 in
      let at_j = (cell_from_ptr-cell header b v j 0 (omega (arith, h, l)) v.sized).0 in
      let apart = mul-le-mul_right {m = suc j} {n = i} b.cell_size (omega (arith, l)) in
      omega (arith, at_i, at_j, apart, suc-mul j b.cell_size, v.sized, e)

  cell-IsAbsent :
      (i n : ℕ)
      → i < cell_count header b
      → n ≤ i
      → IsAbsent (cell header b i) (cells_down header b n)
  unfolding IsAbsent cells_down
  cell-IsAbsent i zero h l = tt
  cell-IsAbsent i (suc n) h l =
      (later i n h (omega (arith, l)), cell-IsAbsent i n h (omega (arith, l)))

  cell_not_null : (i : ℕ) → i < cell_count header b → cell header b i ≢ 0
  cell_not_null i h e =
      let at' = (cell_from_ptr-cell header b v i 0 h v.sized).0 in
      let start : begin header b ≡ b.address + header = unfold begin in refl in
      omega (arith, at', start, v.not_null, e)

  walk_add-IsFree :
      (n i k : ℕ) (links : Links) (head : ℕ)
      → k ≡ i + n
      → k ≤ cell_count header b
      → IsFree links head (cells_down header b i)
      → IsFree
          (walk_add header b n i links head).0
          (walk_add header b n i links head).1
          (cells_down header b k)
  unfolding walk_add
  walk_add-IsFree zero i k links head e h f = let here : k ≡ i = omega (arith, e) in rw here f
  walk_add-IsFree (suc n) i k links head e h f =
      let inside : i < cell_count header b = omega (arith, e, h) in
      let next : i + 1 ≡ suc i = omega arith in
      let more =
        add-IsFree links head (cell header b i) (cells_down header b i) f (cell_not_null i inside)
          (cell-IsAbsent i i inside (omega arith)) in
      let made = add links head (cell header b i) in
      walk_add-IsFree n (i + 1) k made.0 made.1 (omega (arith, e)) h
        (rw next (unfold cells_down in more))

-- After `init` with a cell size that is a 16-bit multiple of 16 and not 0, as its assertion wants, the assertion holds and
-- the free list has each cell of the block once, the last cell first.
pub init-IsFree :
    (header : ℕ) (links : Links) (b : Block) (size : ℕ)
    → IsPlaced header (record b { cell_size = size })
    → 16 ≤ size
    → size < 2 ^ 16
    → is_aligned size 16 ≡ true
    → let (ok, links', b') = init header links b size in
      let sized : Block = record b { cell_size = size } in
      (ok ≡ true)
      × (b'.cell_size ≡ size)
      × (b'.address ≡ b.address)
      × IsFree links' b'.free (cells_down header sized (cell_count header sized))
unfolding init
init-IsFree header links b size v l u a =
    let sized : Block = record b { cell_size = size } in
    (
      ground (arith, l, a),
      refl,
      refl,
      walk_add-IsFree header sized v (cell_count header sized) 0 (cell_count header sized) links 0
          (omega arith) (omega arith) (unfold IsFree cells_down in refl),
    )
