-- ===== src/ArrayStorage/Shift.antt =====
-- `shift` and its two ways (crates/starlight/src/vm/array_storage.rs): where the elements go.
use mathlib.Core.Path.{fun_ext}
use js.Common.{ℕ, ◌+◌, ◌-◌, ◌≤◌, ◌<◌, ◌≡◌, ap, arith, min, true, false}
use js.Common.{some, ltb, leb, if◌then◌else◌, Bool-cases, inl, inr}
use js.Value.{encode_empty_value}
use js.ArrayStorage.Memory.{Memory, fill}
use js.ArrayStorage.Defs.{
  ArrayStorage, max_elements, shift_words, shift_in_place, reallocate_to_larger, grown_capacity,
  shift, new,
}
use js.ArrayStorage.Loops.{overlay, fill_lem, uninit_copy_lem, copy_lem}

-- `size` and `capacity` are those of an array that the heap can hold.
pub record IsValid (s : ArrayStorage) : Type 0 where
  pub size_fits : s.size ≤ s.capacity
  pub capacity_fits : s.capacity ≤ max_elements

abbrev pub moved : ArrayStorage → ℕ → ℕ → ℕ → ℕ
moved s from_first to_first to_last = min (s.size - from_first) (to_last - to_first)

-- The words after a shift, over the words that were there: the moved elements, then holes.
abbrev pub shifted_words : ArrayStorage → ℕ → ℕ → ℕ → Memory → Memory
shifted_words s from_first to_first to_last under =
    let n = moved s from_first to_first to_last in
    overlay (to_first + n) (to_last - (to_first + n)) (λ _. encode_empty_value)
      (overlay to_first n (λ i. s.data_words (from_first + i)) under)

-- The array after a shift: within its capacity in place, beyond it in a new allocation.
abbrev pub shifted : Memory → ArrayStorage → ℕ → ℕ → ℕ → ArrayStorage
shifted fresh s from_first to_first to_last =
    if leb to_last s.capacity
    then record s {
      size = to_last;
      data_words = shifted_words s from_first to_first to_last s.data_words;
    }
    else record {
      capacity = grown_capacity s.capacity to_last;
      size = to_last;
      data_words =
          shifted_words s from_first to_first to_last
            (overlay 0 to_first (λ _. encode_empty_value) fresh);
    }

module _ (fresh : Memory) (s : ArrayStorage) (v : IsValid s) (from_first to_first to_last : ℕ)
    (ordered : to_first ≤ to_last) (inside : from_first ≤ s.size) where
  shift_words_lem :
      to_first ≤ from_first
      → to_last ≤ s.capacity
      → shift_words s from_first to_first (moved s from_first to_first to_last)
        ≡ some (
            overlay to_first
              (moved s from_first to_first to_last)
              (λ i. s.data_words (from_first + i))
              s.data_words)
  unfolding shift_words
  shift_words_lem left fits =
      let n = moved s from_first to_first to_last in
      elim (Bool-cases (ltb to_first from_first)) [
        | inl h ↦ rw h (copy_lem s.capacity n from_first to_first s.data_words (omega arith) left)
        | inr h ↦
            let same : from_first ≡ to_first = ground arith in
            let not_right : ltb from_first to_first ≡ false = ground arith in
            rw (h, not_right) (ap some (fun_ext λ i. ground arith))
      ]

  shift_in_place_lem :
      to_first ≤ from_first
      → to_last ≤ s.capacity
      → shift_in_place s from_first to_first to_last
        ≡ some (record s {
          size = to_last;
          data_words = shifted_words s from_first to_first to_last s.data_words;
        })
  unfolding shift_in_place
  shift_in_place_lem left fits =
      let n = moved s from_first to_first to_last in
      rw (
        shift_words_lem left fits,
        fill_lem s.capacity (to_last - (to_first + n)) (to_first + n) encode_empty_value
            (overlay to_first n (λ i. s.data_words (from_first + i)) s.data_words) (omega arith),
      )

  tail_lem :
      (capacity n : ℕ) (mem : Memory)
      → to_first + n ≤ to_last
      → to_last ≤ capacity
      → (if ltb (to_first + n) to_last
          then fill capacity (to_last - (to_first + n)) (to_first + n) encode_empty_value mem
          else some mem)
        ≡ some (overlay (to_first + n) (to_last - (to_first + n)) (λ _. encode_empty_value) mem)
  tail_lem capacity n mem h fits = elim (Bool-cases (ltb (to_first + n) to_last)) [
    | inl l ↦ rw l (
        fill_lem capacity (to_last - (to_first + n)) (to_first + n) encode_empty_value mem
          (omega arith))
    | inr l ↦ rw l (ap some (fun_ext λ i. ground arith))
  ]

  pub reallocate_lem :
      (capacity : ℕ)
      → s.capacity < capacity
      → to_last ≤ capacity
      → reallocate_to_larger fresh s capacity from_first to_first to_last
        ≡ some (record {
          capacity = capacity;
          size = to_last;
          data_words =
              shifted_words s from_first to_first to_last
                (overlay 0 to_first (λ _. encode_empty_value) fresh);
        })
  unfolding reallocate_to_larger new
  reallocate_lem capacity grows fits =
      let n = moved s from_first to_first to_last in
      let grows' : ltb s.capacity capacity ≡ true = ground arith in
      let copied =
        uninit_copy_lem s.capacity s.data_words capacity n from_first to_first fresh (omega arith)
          (omega arith) in
      let mem1 = overlay to_first n (λ i. s.data_words (from_first + i)) fresh in
      let mem2 = overlay 0 to_first (λ _. encode_empty_value) mem1 in
      let head = fill_lem capacity to_first 0 encode_empty_value mem1 (omega arith) in
      rw (grows', copied, head, tail_lem capacity n mem2 (omega arith) fits)
        (ap (λ (m : Memory). some (record { size = to_last; capacity = capacity; data_words = m }))
          (fun_ext λ i. ground arith))

  pub shift_lem :
      to_first ≤ from_first
      → to_last ≤ max_elements
      → shift fresh s from_first to_first to_last
        ≡ some (shifted fresh s from_first to_first to_last)
  unfolding shift grown_capacity
  shift_lem left fits =
      let ordered' : leb to_first to_last ≡ true = ground arith in
      let inside' : leb from_first s.size ≡ true = ground arith in
      elim (Bool-cases (leb to_last s.capacity)) [
        | inl h ↦ rw (ordered', inside', h) (shift_in_place_lem left (ground arith))
        | inr h ↦
            rw (ordered', inside', h)
              (reallocate_lem (grown_capacity s.capacity to_last) (ground arith) (ground arith))
      ]
