-- ===== src/Value.antt =====
-- Encoded values: module `new_value` of crates/starlight/src/vm/value.rs (the encoding of 64-bit
-- targets), with `same_value` and `crates/wtf-rs/src/pure_nan.rs`.
-- A `JsValue` is its 64-bit pattern; an `i32` or an `f64` is given by its bits, a `GcPointer` by its
-- address. `none` is a failed assertion. The encoding of a double adds with wrap-around, as a release build does; a
-- debug build panics there for NaNs of some other bits.
pub mod Masks
pub mod RoundTrip
pub mod Same
pub mod Tests
use js.Common.{ℕ, ◌+◌, ◌-◌, ◌*◌, ◌/◌, ◌%◌, ◌^◌, bit_and, bit_or, Bool, true, false, not, ◌&&◌, ◌||◌}
use js.Common.{List, [], ◌∷◌, Option, none, some, ◌==◌, leb, if◌then◌else◌}

abbrev pub JsValue : Type 0
JsValue = ℕ

abbrev pub double_encode_offset : ℕ
double_encode_offset = 2 ^ 49

abbrev pub number_tag : ℕ
number_tag = 0xfffe000000000000

abbrev pub other_tag : ℕ
other_tag = 0x2

abbrev pub bool_tag : ℕ
bool_tag = 0x4

abbrev pub undefined_tag : ℕ
undefined_tag = 0x8

abbrev pub native32_tag : ℕ
native32_tag = 0x12

abbrev pub native32_mask : ℕ
native32_mask = bit_or number_tag native32_tag

abbrev pub value_false : ℕ
value_false = bit_or (bit_or other_tag bool_tag) 0

abbrev pub value_true : ℕ
value_true = bit_or (bit_or other_tag bool_tag) 1

abbrev pub value_undefined : ℕ
value_undefined = bit_or other_tag undefined_tag

abbrev pub value_null : ℕ
value_null = other_tag

abbrev pub not_cell_mask : ℕ
not_cell_mask = bit_or number_tag other_tag

abbrev pub value_empty : ℕ
value_empty = 0

-- `!1` on an `i64`
abbrev pub not_one : ℕ
not_one = 2 ^ 64 - 2

abbrev pub encode_empty_value : JsValue
encode_empty_value = value_empty

abbrev pub encode_undefined_value : JsValue
encode_undefined_value = value_undefined

abbrev pub encode_null_value : JsValue
encode_null_value = value_null

unfoldable pub encode_bool_value : Bool → JsValue
encode_bool_value x = if x then value_true else value_false

unfoldable pub encode_object_value : ℕ → JsValue
encode_object_value gc = gc

unfoldable pub encode_f64_value : ℕ → JsValue
encode_f64_value bits = (bits + double_encode_offset) % 2 ^ 64

unfoldable pub encode_int32 : ℕ → JsValue
encode_int32 x = bit_or number_tag x

unfoldable pub encode_native_u32 : ℕ → JsValue
encode_native_u32 x = bit_or (x * 2 ^ 16) native32_tag

unfoldable pub is_empty : JsValue → Bool
is_empty v = v == value_empty

unfoldable pub is_undefined : JsValue → Bool
is_undefined v = v == encode_undefined_value

unfoldable pub is_null : JsValue → Bool
is_null v = v == encode_null_value

unfoldable pub is_true : JsValue → Bool
unfolding encode_bool_value
is_true v = v == encode_bool_value true

unfoldable pub is_false : JsValue → Bool
unfolding encode_bool_value
is_false v = v == encode_bool_value false

unfoldable pub is_bool : JsValue → Bool
is_bool v = bit_and v not_one == value_false

unfoldable pub is_pointer : JsValue → Bool
is_pointer v = bit_and v not_cell_mask == 0

unfoldable pub is_int32 : JsValue → Bool
is_int32 v = bit_and v number_tag == number_tag

unfoldable pub is_number : JsValue → Bool
is_number v = not (bit_and v number_tag == 0)

unfoldable pub is_object : JsValue → Bool
is_object v = is_pointer v && not (is_empty v)

unfoldable pub is_double : JsValue → Bool
is_double v = is_number v && not (is_int32 v)

unfoldable pub is_native_value : JsValue → Bool
is_native_value v = bit_and v native32_mask == native32_tag

unfoldable pub get_object : JsValue → Option ℕ
get_object v = if is_object v then some v else none

unfoldable pub get_int32 : JsValue → ℕ
get_int32 v = v % 2 ^ 32

unfoldable pub get_double : JsValue → Option ℕ
get_double v = if is_double v then some ((v + 2 ^ 64 - double_encode_offset) % 2 ^ 64) else none

unfoldable pub get_native_u32 : JsValue → ℕ
get_native_u32 v = v / 2 ^ 16 % 2 ^ 32

unfoldable pub get_bool : JsValue → Option Bool
unfolding encode_bool_value
get_bool v = if is_bool v then some (v == encode_bool_value true) else none

-- `wtf_rs::pure_nan`, on bits
abbrev pub pure_nan : ℕ
pure_nan = 0x7ff8000000000000

unfoldable pub is_impure_nan : ℕ → Bool
is_impure_nan bits = leb 0xfffe000000000000 bits

unfoldable pub encode_nan_value : JsValue
encode_nan_value = encode_f64_value pure_nan

-- What the crate takes from Rust and from the heap: `f64` with its conversions from an `i32` and from
-- bits, `==` and `is_nan`; and the text of the cell at an address, if that is a `JsString`.
pub record Host : Type 1 where
  pub F64 : Type 0
  pub of_i32 : ℕ → F64
  pub of_bits : ℕ → F64
  pub float_eq : F64 → F64 → Bool
  pub is_nan : F64 → Bool
  pub string_at : ℕ → Option (List ℕ)

-- `==` of `&str`
unfoldable pub str_eq : List ℕ → List ℕ → Bool
str_eq [] [] = true
str_eq [] (y ∷ ys) = false
str_eq (x ∷ xs) [] = false
str_eq (x ∷ xs) (y ∷ ys) = x == y && str_eq xs ys

module _ (host : Host) where
  open host use {F64, of_i32, of_bits, float_eq, is_nan, string_at}

  -- `if x != x` tests for a NaN.
  unfoldable pub purify_nan : ℕ → ℕ
  purify_nan bits = if not (float_eq (of_bits bits) (of_bits bits)) then pure_nan else bits

  unfoldable pub encode_untrusted_f64_value : ℕ → JsValue
  encode_untrusted_f64_value bits = encode_f64_value (purify_nan bits)

  -- `none` where the assertion of `get_double` fails.
  unfoldable pub get_number : JsValue → Option F64
  get_number v =
      if is_int32 v
      then some (of_i32 (get_int32 v))
      else (elim (get_double v) [ none ↦ none | some bits ↦ some (of_bits bits) ])

  unfoldable pub same_number : Option F64 → Option F64 → Option Bool
  same_number (some l) (some r) = some (if float_eq l r then true else is_nan l && is_nan r)
  same_number none r = none
  same_number (some l) none = none

  unfoldable pub same_cell : Option (List ℕ) → Option (List ℕ) → Bool → Bool
  same_cell (some l) (some r) raw_eq = str_eq l r
  same_cell none r raw_eq = raw_eq
  same_cell (some l) none raw_eq = raw_eq

  -- The parameter `_zero` is not used by the code.
  unfoldable pub same_value_impl : JsValue → JsValue → Bool → Option Bool
  same_value_impl lhs rhs zero' =
      if is_number lhs
      then (if not (is_number rhs)
          then some false
          else same_number (get_number lhs) (get_number rhs))
      else if not (is_object lhs) || not (is_object rhs)
      then some (lhs == rhs)
      else some (same_cell (string_at lhs) (string_at rhs) (lhs == rhs))

  unfoldable pub same_value : JsValue → JsValue → Option Bool
  same_value x y = same_value_impl x y false

  unfoldable pub same_value_zero : JsValue → JsValue → Option Bool
  same_value_zero lhs rhs = same_value_impl lhs rhs true
