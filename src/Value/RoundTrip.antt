-- ===== src/Value/RoundTrip.antt =====
-- Encodings, decodings and tests of the kinds of values (crates/starlight/src/vm/value.rs).
use js.Common.{ℕ, ◌+◌, ◌*◌, ◌%◌, ◌^◌, ◌<◌, ◌≤◌, ◌≡◌, arith}
use js.Common.{Bool, true, false, some, refl}
use js.Value.{
  JsValue, number_tag, encode_bool_value, encode_int32, encode_f64_value, encode_object_value,
  encode_native_u32, encode_empty_value, encode_undefined_value, encode_null_value, is_empty,
  is_undefined, is_null, is_bool, is_int32, is_number, is_double, is_pointer, is_object,
  is_native_value, get_bool, get_int32, get_double, get_object, get_native_u32, is_impure_nan,
}
use js.Value.Masks.{
  number_tag_lem, not_one_lem, not_cell_mask_lem, native32_mask_lem, encode_int32_sum, native_sum,
}

-- The kinds that the tests tell apart.
pub data Kind : Type 0 where
  hole undefined null boolean int32 double object native : Kind

-- What the tests of the kinds say of a pattern, in the order of `Kind`.
abbrev pub Tests : Type 0
Tests = Bool × Bool × Bool × Bool × Bool × Bool × Bool × Bool

pub tests : JsValue → Tests
tests v = (
  is_empty v,
  is_undefined v,
  is_null v,
  is_bool v,
  is_int32 v,
  is_double v,
  is_object v,
  is_native_value v,
)

-- The tests that a value of one kind should pass: its own.
abbrev pub only : Kind → Tests
only Kind.hole = (true, false, false, false, false, false, false, false)
only Kind.undefined = (false, true, false, false, false, false, false, false)
only Kind.null = (false, false, true, false, false, false, false, false)
only Kind.boolean = (false, false, false, true, false, false, false, false)
only Kind.int32 = (false, false, false, false, true, false, false, false)
only Kind.double = (false, false, false, false, false, true, false, false)
only Kind.object = (false, false, false, false, false, false, true, false)
only Kind.native = (false, false, false, false, false, false, false, true)

-- A double whose bits lie below 0xfffc000000000000, as those of every number do, passes the double test
-- and no other, and decodes to its bits.
pub f64_round_trip :
    (bits : ℕ)
    → bits < 0xfffc000000000000
    → (tests (encode_f64_value bits) ≡ only Kind.double)
      × (get_double (encode_f64_value bits) ≡ some bits)
unfolding encode_f64_value tests is_empty is_undefined is_null is_bool is_int32 is_double is_object
    is_number is_pointer is_native_value get_double
f64_round_trip bits h =
    let v = bits + 2 ^ 49 in
    ground (
      arith,
      number_tag_lem v (omega arith),
      not_one_lem v (omega arith),
      not_cell_mask_lem v (omega arith),
      native32_mask_lem v (omega arith),
    )

-- An `i32`, given by its 32 bits, is an int32 for every test, and decodes to its bits.
pub int32_round_trip :
    (x : ℕ)
    → x < 2 ^ 32
    → (tests (encode_int32 x) ≡ only Kind.int32) × (get_int32 (encode_int32 x) ≡ x)
unfolding encode_int32 tests is_empty is_undefined is_null is_bool is_int32 is_double is_object
    is_number is_pointer is_native_value get_int32
int32_round_trip x h =
    let v = number_tag + x in
    rw (encode_int32_sum x h) (
      ground (
        arith,
        number_tag_lem v (omega arith),
        not_one_lem v (omega arith),
        not_cell_mask_lem v (omega arith),
        native32_mask_lem v (omega arith),
      ))

-- The non-null address of a heap cell, which is a multiple of 8 below 2 ^ 48, is an object for
-- every test, and decodes to the address.
pub object_round_trip :
    (p : ℕ)
    → p < 2 ^ 48
    → p % 8 ≡ 0
    → 0 < p
    → (tests (encode_object_value p) ≡ only Kind.object)
      × (get_object (encode_object_value p) ≡ some p)
unfolding encode_object_value tests is_empty is_undefined is_null is_bool is_int32 is_double
    is_object is_number is_pointer is_native_value get_object
object_round_trip p h a n = ground (
  arith,
  number_tag_lem p (omega arith),
  not_one_lem p (omega arith),
  not_cell_mask_lem p (omega arith),
  native32_mask_lem p (omega arith),
)

-- A native `u32` passes the native test only, and decodes to itself.
pub native_round_trip :
    (x : ℕ)
    → x < 2 ^ 32
    → (tests (encode_native_u32 x) ≡ only Kind.native) × (get_native_u32 (encode_native_u32 x) ≡ x)
unfolding encode_native_u32 tests is_empty is_undefined is_null is_bool is_int32 is_double is_object
    is_number is_pointer is_native_value get_native_u32
native_round_trip x h =
    let v = x * 2 ^ 16 + 18 in
    rw (native_sum x) (
      ground (
        arith,
        number_tag_lem v (omega arith),
        not_one_lem v (omega arith),
        not_cell_mask_lem v (omega arith),
        native32_mask_lem v (omega arith),
      ))

-- The two Booleans and the three constants pass the test of their kind only.
pub constants_tests :
    (b : Bool)
    → (tests (encode_bool_value b) ≡ only Kind.boolean)
      × (get_bool (encode_bool_value b) ≡ some b)
      × (tests encode_empty_value ≡ only Kind.hole)
      × (tests encode_undefined_value ≡ only Kind.undefined)
      × (tests encode_null_value ≡ only Kind.null)
unfolding encode_bool_value tests is_empty is_undefined is_null is_bool is_int32 is_double is_object
    is_number is_pointer is_native_value get_bool
constants_tests true = (refl, refl, refl, refl, refl)
constants_tests false = (refl, refl, refl, refl, refl)

-- `is_impure_nan` calls the patterns from 0xfffc000000000000 up to 0xfffe000000000000 pure, but each
-- of them is encoded as a pattern that the tests take for an int32.
pub impure_as_int32 :
    (bits : ℕ)
    → 0xfffc000000000000 ≤ bits
    → bits < 0xfffe000000000000
    → (is_impure_nan bits ≡ false) × (is_int32 (encode_f64_value bits) ≡ true)
unfolding is_impure_nan encode_f64_value is_int32
impure_as_int32 bits low high = ground (arith, number_tag_lem (bits + 2 ^ 49) (omega arith))
