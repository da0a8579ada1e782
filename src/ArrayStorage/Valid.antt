-- ===== src/ArrayStorage/Valid.antt =====
-- The storage as a sequence of values (crates/starlight/src/vm/array_storage.rs): each operation
-- against the same operation on a list.
use js.Common.{ℕ, zero, suc, ◌+◌, ◌-◌, ◌≤◌, ◌<◌, ◌≡◌, ap, ap₂, ◌∙◌, arith, refl, true}
use js.Common.{some, ltb, leb, lt→ltb, if◌then◌else◌, Bool-cases, inl, inr}
use js.Common.{List, [], ◌∷◌, ◌++◌}
use js.Value.{JsValue, encode_empty_value}
use js.ArrayStorage.Memory.{Memory, put, store, load}
use js.ArrayStorage.Defs.{
  ArrayStorage, max_elements, set_at, resize, push_back, push_back_slowpath, pop_back,
  grown_capacity,
}
use js.ArrayStorage.Shift.{IsValid, shift_lem, shifted}

-- The `n` words from index `i` on.
abbrev pub words : Memory → ℕ → ℕ → List JsValue
words mem i zero = []
words mem i (suc n) = mem i ∷ words mem (i + 1) n

-- The elements of an array.
abbrev pub contents : ArrayStorage → List JsValue
contents s = words s.data_words 0 s.size

words_congr :
    (mem mem' : Memory) (i n : ℕ)
    → ((j : ℕ) → i ≤ j → j < i + n → mem j ≡ mem' j)
    → words mem i n ≡ words mem' i n
words_congr mem mem' i zero h = refl
words_congr mem mem' i (suc n) h =
    ap₂ ◌∷◌ (h i (omega arith) (omega arith))
      (words_congr mem mem' (i + 1) n (λ j a b. h j (omega arith) (omega arith)))

words_last : (mem : Memory) (i n : ℕ) → words mem i (suc n) ≡ words mem i n ++ (mem (i + n) ∷ [])
words_last mem i zero = ap (λ k. mem k ∷ []) (omega arith)
words_last mem i (suc n) =
    ap (λ r. mem i ∷ r)
      (words_last mem (i + 1) n ∙ ap (λ k. words mem (i + 1) n ++ (mem k ∷ [])) (omega arith))

-- Padding with holes.
abbrev pub pad : ℕ → List JsValue → List JsValue
pad zero xs = []
pad (suc n) [] = encode_empty_value ∷ pad n []
pad (suc n) (x ∷ xs) = x ∷ pad n xs

words-pad :
    (mem mem' : Memory) (i m n : ℕ)
    → ((j : ℕ) → i ≤ j → j < i + n → mem' j ≡ (if ltb j (i + m) then mem j else encode_empty_value))
    → words mem' i n ≡ pad n (words mem i m)
words-pad mem mem' i m zero h = refl
words-pad mem mem' i zero (suc n) h =
    ap₂ ◌∷◌ (h i (omega arith) (omega arith) ∙ ground arith)
      (words-pad mem mem' (i + 1) zero n (λ j a b. h j (omega arith) (omega arith) ∙ ground arith))
words-pad mem mem' i (suc m) (suc n) h =
    ap₂ ◌∷◌ (h i (omega arith) (omega arith) ∙ ground arith)
      (words-pad mem mem' (i + 1) m n (λ j a b. h j (omega arith) (omega arith) ∙ ground arith))

put_ne : (mem : Memory) (i j : ℕ) (x : JsValue) → j < i → put mem i x j ≡ mem j
put_ne mem i j x h = ground arith

module _ (s : ArrayStorage) where
  pushed :
      (mem mem' : Memory) (x : JsValue)
      → ((j : ℕ) → j < s.size → mem' j ≡ mem j)
      → mem' s.size ≡ x
      → words mem' 0 (s.size + 1) ≡ words mem 0 s.size ++ (x ∷ [])
  pushed mem mem' x h e =
      let size' : s.size + 1 ≡ suc s.size = omega arith in
      let at' : mem' (0 + s.size) ≡ x = ap mem' (omega arith) ∙ e in
      rw size' (
        words_last mem' 0 s.size
        ∙ ap₂ (λ l y. l ++ (y ∷ [])) (words_congr mem' mem 0 s.size (λ j a b. h j (omega arith)))
            at')

module _ (fresh : Memory) (s : ArrayStorage) (v : IsValid s) where
  pub shifted-IsValid :
      (from_first to_first to_last : ℕ)
      → to_last ≤ max_elements
      → IsValid (shifted fresh s from_first to_first to_last)
  unfolding grown_capacity
  shifted-IsValid f t l h = elim (Bool-cases (leb l s.capacity)) [
    | inl e ↦ rw e (ground arith)
    | inr e ↦ rw e (ground arith)
  ]

  pub resized_words :
      (n j : ℕ)
      → j < n
      → (shifted fresh s 0 0 n).data_words j
        ≡ (if ltb j s.size then s.data_words j else encode_empty_value)
  resized_words n j h = elim (Bool-cases (leb n s.capacity)) [
    | inl e ↦ rw e (ground arith)
    | inr e ↦ rw e (ground arith)
  ]

  pub shifted-size : (f t l : ℕ) → (shifted fresh s f t l).size ≡ l
  shifted-size f t l = ground arith

  contents_resized : (n : ℕ) → contents (shifted fresh s 0 0 n) ≡ pad n (contents s)
  contents_resized n = rw (shifted-size 0 0 n) (
      words-pad s.data_words (shifted fresh s 0 0 n).data_words 0 s.size n
        (λ j a b. resized_words n j (omega arith) ∙ ground arith))

  -- `resize` to a length that the heap can hold gives the elements cut off at that length or padded
  -- with holes, and keeps the invariant.
  pub resize_lem :
      (n : ℕ)
      → n ≤ max_elements
      → (s' : ArrayStorage) × (resize fresh s n ≡ some s')
        × (contents s' ≡ pad n (contents s))
        × IsValid s'
  unfolding resize
  resize_lem n h = (
    shifted fresh s 0 0 n,
    shift_lem fresh s v 0 0 n (omega arith) (omega arith) (omega arith) h,
    contents_resized n,
    shifted-IsValid 0 0 n h,
  )

  -- The way through `resize`, at a full array.
  push_back_slowpath_lem :
      (x : JsValue)
      → s.size < max_elements
      → let r = shifted fresh s 0 0 (s.size + 1) in
        push_back_slowpath fresh s x ≡ some (record r { data_words = put r.data_words s.size x })
  unfolding push_back_slowpath resize set_at store
  push_back_slowpath_lem x h =
      let r = shifted fresh s 0 0 (s.size + 1) in
      let size' = shifted-size 0 0 (s.size + 1) in
      let ok = shifted-IsValid 0 0 (s.size + 1) (omega arith) in
      let moved_to =
        shift_lem fresh s v 0 0 (s.size + 1) (omega arith) (omega arith) (omega arith)
          (omega arith) in
      let in_size : ltb s.size r.size ≡ true = lt→ltb s.size r.size (omega (arith, size')) in
      let in_capacity : ltb s.size r.capacity ≡ true =
        lt→ltb s.size r.capacity (omega (arith, size', ok.size_fits)) in
      rw (moved_to, in_size, in_capacity) refl

  -- `push_back` below the greatest length appends the value, in place or in a larger allocation, and
  -- keeps the invariant.
  pub push_back_lem :
      (x : JsValue)
      → s.size < max_elements
      → (s' : ArrayStorage) × (push_back fresh s x ≡ some s')
        × (contents s' ≡ contents s ++ (x ∷ []))
        × IsValid s'
  unfolding push_back store
  push_back_lem x h = elim (Bool-cases (ltb s.size s.capacity)) [
    | inl e ↦ (
      record s { size = s.size + 1; data_words = put s.data_words s.size x },
      rw e refl,
      pushed s s.data_words (put s.data_words s.size x) x (λ j l. ground arith) (ground arith),
      ground arith,
    )
    | inr e ↦
        let r = shifted fresh s 0 0 (s.size + 1) in
        let size' = shifted-size 0 0 (s.size + 1) in
        let ok = shifted-IsValid 0 0 (s.size + 1) (omega arith) in
        (
          record r { data_words = put r.data_words s.size x },
          rw e (push_back_slowpath_lem x h),
          rw size' (
              pushed s s.data_words (put r.data_words s.size x) x
                (λ j l.
                  put_ne r.data_words s.size j x l
                  ∙ resized_words (s.size + 1) j (omega arith)
                  ∙ ground arith)
                (ground arith)),
          record { size_fits = ok.size_fits; capacity_fits = ok.capacity_fits },
        )
  ]

  -- `pop_back` takes the last value off, and keeps the invariant.
  pub pop_back_lem :
      0 < s.size
      → (x : JsValue) × (s' : ArrayStorage) × (pop_back s ≡ some (x, s'))
        × (contents s ≡ contents s' ++ (x ∷ []))
        × IsValid s'
  unfolding pop_back load
  pop_back_lem h = (
    s.data_words (s.size - 1),
    record s { size = s.size - 1 },
    ground arith,
    popped (s.size - 1) s.size (omega arith),
    ground arith,
  )
    where
      popped :
          (k n : ℕ)
          → n ≡ suc k
          → words s.data_words 0 n ≡ words s.data_words 0 k ++ (s.data_words k ∷ [])
      popped k n e = rw e (
          words_last s.data_words 0 k
          ∙ ap (λ j. words s.data_words 0 k ++ (s.data_words j ∷ [])) (omega arith))
