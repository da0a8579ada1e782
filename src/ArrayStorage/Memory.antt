-- ===== src/ArrayStorage/Memory.antt =====
-- The loops over raw memory: `fill`, `uninit_copy`, `copy_backward` and `copy` of
-- crates/starlight/src/vm/value.rs. A pointer is an index from the start of the data of an array, and
-- the loop counter is the distance from `first` to `last`; `none` is an access outside the
-- `cap` words that the array has.
use js.Common.{ℕ, zero, suc, ◌+◌, ◌-◌, Option, none, some, ltb, ◌==◌, if◌then◌else◌, ◌>>=◌}
use js.Value.{JsValue}

abbrev pub Memory : Type 0
Memory = ℕ → JsValue

abbrev pub put : Memory → ℕ → JsValue → Memory
put mem i v j = if i == j then v else mem j

unfoldable pub store : ℕ → Memory → ℕ → JsValue → Option Memory
store cap mem i v = if ltb i cap then some (put mem i v) else none

unfoldable pub load : ℕ → Memory → ℕ → Option JsValue
load cap mem i = if ltb i cap then some (mem i) else none

-- `fill(start, start + n, v)`
unfoldable pub fill : ℕ → ℕ → ℕ → JsValue → Memory → Option Memory
fill cap zero cur v mem = some mem
fill cap (suc n) cur v mem = do mem' ← store cap mem cur v; fill cap n (cur + 1) v mem'

-- `uninit_copy(first, first + n, result)` from the memory `src` to another one.
unfoldable pub uninit_copy : ℕ → Memory → ℕ → ℕ → ℕ → ℕ → Memory → Option Memory
uninit_copy from_cap src cap zero first result mem = some mem
uninit_copy from_cap src cap (suc n) first result mem = do
  v ← load from_cap src first
  mem' ← store cap mem result v
  uninit_copy from_cap src cap n (first + 1) (result + 1) mem'

-- `copy(first, first + n, result)` within one memory.
unfoldable pub copy : ℕ → ℕ → ℕ → ℕ → Memory → Option Memory
copy cap zero first result mem = some mem
copy cap (suc n) first result mem = do
  v ← load cap mem first
  mem' ← store cap mem result v
  copy cap n (first + 1) (result + 1) mem'

-- `copy_backward(last - n, last, result)` within one memory; `result.sub(1)` leaves the array at 0.
unfoldable pub copy_backward : ℕ → ℕ → ℕ → ℕ → Memory → Option Memory
copy_backward cap zero last result mem = some mem
copy_backward cap (suc n) last zero mem = none
copy_backward cap (suc n) last (suc result) mem = do
  v ← load cap mem (last - 1)
  mem' ← store cap mem result v
  copy_backward cap n (last - 1) result mem'
