-- ===== src/ArrayStorage/Defs.antt =====
-- `ArrayStorage` and the methods of `GcPointer<ArrayStorage>`
-- (crates/starlight/src/vm/array_storage.rs).
use js.Common.{ℕ, ◌+◌, ◌-◌, ◌*◌, ◌/◌, ◌^◌, min, max, Bool, Option, some}
use js.Common.{ltb, leb, ◌==◌, if◌then◌else◌, ◌>>=◌, ◌>>◌, assert}
use js.Value.{JsValue, encode_empty_value}
use js.ArrayStorage.Memory.{Memory, store, load, fill, uninit_copy, copy, copy_backward}

pub record ArrayStorage : Type 0 where
  pub size : ℕ
  pub capacity : ℕ
  pub data_words : Memory

-- `(u32::MAX - 8) / size_of::<JsValue>()`
abbrev pub max_elements : ℕ
max_elements = (2 ^ 32 - 1 - 8) / 8

unfoldable pub is_empty : ArrayStorage → Bool
is_empty s = s.size == 0

unfoldable pub at : ArrayStorage → ℕ → Option JsValue
at s index = do assert (ltb index s.size); load s.capacity s.data_words index

-- `*self.at_mut(index) = v`
unfoldable pub set_at : ArrayStorage → ℕ → JsValue → Option ArrayStorage
set_at s index v = do
  assert (ltb index s.size)
  mem ← store s.capacity s.data_words index v
  some (record s { data_words = mem })

unfoldable pub resize_within_capacity : ArrayStorage → ℕ → Option ArrayStorage
resize_within_capacity s new_size = do
  assert (leb new_size s.capacity)
  mem ←
      (if ltb s.size new_size
        then fill s.capacity (new_size - s.size) s.size encode_empty_value s.data_words
        else some s.data_words)
  some (record s { size = new_size; data_words = mem })

unfoldable pub pop_back : ArrayStorage → Option (JsValue × ArrayStorage)
pop_back s = do
  assert (ltb 0 s.size)
  val ← load s.capacity s.data_words (s.size - 1)
  some (val, record s { size = s.size - 1 })

unfoldable pub grown_capacity : ℕ → ℕ → ℕ
grown_capacity capacity to_last =
    if ltb capacity (max_elements / 2) then max (capacity * 2) to_last else max_elements

-- The move of the elements that `shift` makes in place.
unfoldable pub shift_words : ArrayStorage → ℕ → ℕ → ℕ → Option Memory
shift_words s from_first to_first copy_size =
    if ltb to_first from_first
    then copy s.capacity copy_size from_first to_first s.data_words
    else if ltb from_first to_first
    then copy_backward s.capacity copy_size (from_first + copy_size) to_first s.data_words
    else some s.data_words

unfoldable pub shift_in_place : ArrayStorage → ℕ → ℕ → ℕ → Option ArrayStorage
shift_in_place s from_first to_first to_last = do
  let copy_size = min (s.size - from_first) (to_last - to_first)
  mem ← shift_words s from_first to_first copy_size
  mem' ←
      fill s.capacity (to_last - (to_first + copy_size)) (to_first + copy_size) encode_empty_value
        mem
  some (record s { size = to_last; data_words = mem' })

module _ (fresh : Memory) where
  unfoldable pub new : ℕ → ArrayStorage
  new capacity = record { capacity = capacity; size = 0; data_words = fresh }

  unfoldable pub with_size : ℕ → ℕ → Option ArrayStorage
  with_size size capacity = resize_within_capacity (new capacity) size

  -- The result replaces `*self`.
  unfoldable pub reallocate_to_larger : ArrayStorage → ℕ → ℕ → ℕ → ℕ → Option ArrayStorage
  reallocate_to_larger s capacity from_first to_first to_last = do
    assert (ltb s.capacity capacity)
    let arr_res = new capacity
    let copy_size = min (s.size - from_first) (to_last - to_first)
    mem1 ←
        uninit_copy s.capacity s.data_words capacity copy_size from_first to_first
          arr_res.data_words
    mem2 ← fill capacity to_first 0 encode_empty_value mem1
    mem3 ←
        (if ltb (to_first + copy_size) to_last
          then fill capacity (to_last - (to_first + copy_size)) (to_first + copy_size)
              encode_empty_value mem2
          else some mem2)
    some (record { capacity = capacity; size = to_last; data_words = mem3 })

  unfoldable pub shift : ArrayStorage → ℕ → ℕ → ℕ → Option ArrayStorage
  shift s from_first to_first to_last = do
    assert (leb to_first to_last)
    assert (leb from_first s.size)
    if leb to_last s.capacity
        then shift_in_place s from_first to_first to_last
        else reallocate_to_larger s (grown_capacity s.capacity to_last) from_first to_first to_last

  unfoldable pub ensure_capacity : ArrayStorage → ℕ → Option ArrayStorage
  ensure_capacity s capacity = do
    assert (leb capacity max_elements)
    if leb capacity s.capacity then some s else reallocate_to_larger s capacity 0 0 s.size

  unfoldable pub resize : ArrayStorage → ℕ → Option ArrayStorage
  resize s new_size = shift s 0 0 new_size

  unfoldable pub push_back_slowpath : ArrayStorage → JsValue → Option ArrayStorage
  push_back_slowpath s value = do s' ← resize s (s.size + 1); set_at s' s.size value

  unfoldable pub push_back : ArrayStorage → JsValue → Option ArrayStorage
  push_back s value =
      if ltb s.size s.capacity
      then (do
        mem ← store s.capacity s.data_words s.size value
        some (record s { size = s.size + 1; data_words = mem }))
      else push_back_slowpath s value
