-- ===== src/ArrayStorage/Elements.antt =====
-- Where `shift` puts each element (crates/starlight/src/vm/array_storage.rs), towards the start
-- and away from it.
use js.Common.{ℕ, ◌+◌, ◌-◌, ◌≤◌, ◌<◌, ◌≡◌, arith, refl, true, false}
use js.Common.{none, some, ltb, leb, Bool-cases, inl, inr}
use js.Value.{encode_empty_value}
use js.ArrayStorage.Memory.{Memory}
use js.ArrayStorage.Defs.{ArrayStorage, max_elements, shift, shift_words, shift_in_place}
use js.ArrayStorage.Loops.{overlay, fill_lem, copy_backward_lem, copy_backward_short}
use js.ArrayStorage.Shift.{IsValid, shift_lem, shifted, moved}
use js.ArrayStorage.Valid.{shifted-IsValid, shifted-size}

module _ (fresh : Memory) (s : ArrayStorage) (v : IsValid s) (from_first to_first to_last : ℕ)
    (ordered : to_first ≤ to_last) (inside : from_first ≤ s.size) where
  -- A shift towards the start succeeds and keeps the invariant; the elements from `from_first` on, as
  -- many as there are and fit, stand from `to_first` on, and holes follow up to `to_last`.
  pub shift_left_elements :
      to_first ≤ from_first
      → to_last ≤ max_elements
      → (s' : ArrayStorage) × (shift fresh s from_first to_first to_last ≡ some s')
        × IsValid s'
        × (s'.size ≡ to_last)
        × ((i : ℕ)
            → i < moved s from_first to_first to_last
            → s'.data_words (to_first + i) ≡ s.data_words (from_first + i))
        × ((j : ℕ)
            → to_first + moved s from_first to_first to_last ≤ j
            → j < to_last
            → s'.data_words j ≡ encode_empty_value)
  shift_left_elements left fits = (
    shifted fresh s from_first to_first to_last,
    shift_lem fresh s v from_first to_first to_last ordered inside left fits,
    shifted-IsValid fresh s v from_first to_first to_last fits,
    shifted-size fresh s v from_first to_first to_last,
    λ i h. elim (Bool-cases (leb to_last s.capacity)) [
      | inl e ↦ rw e (ground arith)
      | inr e ↦ rw e (ground arith)
    ],
    λ j a b. elim (Bool-cases (leb to_last s.capacity)) [
      | inl e ↦ rw e (ground arith)
      | inr e ↦ rw e (ground arith)
    ],
  )

  -- A shift away from the start, in place: `copy_backward` is given the first index of the target in
  -- place of its end. Where fewer words lie before `to_first` than are moved, the writes leave the
  -- array.
  pub shift_right_leaves_array :
      from_first < to_first
      → to_last ≤ s.capacity
      → to_first < moved s from_first to_first to_last
      → shift fresh s from_first to_first to_last ≡ none
  unfolding shift shift_in_place shift_words
  shift_right_leaves_array right fits few =
      let n = moved s from_first to_first to_last in
      let ordered' : leb to_first to_last ≡ true = ground arith in
      let inside' : leb from_first s.size ≡ true = ground arith in
      let fits' : leb to_last s.capacity ≡ true = ground arith in
      let right' : ltb to_first from_first ≡ false = ground arith in
      let right'' : ltb from_first to_first ≡ true = ground arith in
      rw
        (
          ordered',
          inside',
          fits',
          right',
          right'',
          copy_backward_short s.capacity n (from_first + n) to_first s.data_words few,
        )
        refl

  -- Otherwise the elements land just before `to_first`, and the words from `to_first` on, where they
  -- should be, keep what they held.
  pub shift_right_misplaces :
      from_first < to_first
      → to_last ≤ s.capacity
      → from_first + moved s from_first to_first to_last ≤ to_first
      → (s' : ArrayStorage) × (shift fresh s from_first to_first to_last ≡ some s')
        × ((i : ℕ)
            → i < moved s from_first to_first to_last
            → (s'.data_words (to_first - moved s from_first to_first to_last + i)
                ≡ s.data_words (from_first + i))
              × (s'.data_words (to_first + i) ≡ s.data_words (to_first + i)))
  unfolding shift shift_in_place shift_words
  shift_right_misplaces right fits room =
      let n = moved s from_first to_first to_last in
      let ordered' : leb to_first to_last ≡ true = ground arith in
      let inside' : leb from_first s.size ≡ true = ground arith in
      let fits' : leb to_last s.capacity ≡ true = ground arith in
      let right' : ltb to_first from_first ≡ false = ground arith in
      let right'' : ltb from_first to_first ≡ true = ground arith in
      let mem =
        overlay (to_first - n) n (λ i. s.data_words (from_first + n - n + i)) s.data_words in
      let mem' = overlay (to_first + n) (to_last - (to_first + n)) (λ _. encode_empty_value) mem in
      (
        record s { size = to_last; data_words = mem' },
        rw
            (
              ordered',
              inside',
              fits',
              right',
              right'',
              copy_backward_lem s.capacity n (from_first + n) to_first s.data_words (omega arith)
                  (omega arith) (omega arith) (omega arith) (omega arith),
              fill_lem s.capacity (to_last - (to_first + n)) (to_first + n) encode_empty_value mem
                  (omega arith),
            )
            refl,
        λ i h. (ground arith, ground arith),
      )
