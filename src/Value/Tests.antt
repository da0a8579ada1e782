-- ===== src/Value/Tests.antt =====
-- Concrete values, and a host to run the comparisons on (crates/starlight/src/vm/value.rs).
use js.Common.{ℕ, ◌≡◌, arith, refl, true, not, ◌&&◌, some, none, ltb, ◌==◌, ◌||◌}
use js.Common.{[], ◌∷◌, if◌then◌else◌}
use js.Value.{
  Host, encode_f64_value, get_double, same_value, same_value_impl, same_cell, str_eq, is_number,
  is_object, is_pointer, is_empty,
}
use js.Value.RoundTrip.{tests, only, Kind, f64_round_trip}
use js.Value.Same.{IsFloat}

-- Doubles as their bits, compared as bits but for the NaNs with the sign bit clear.
abbrev pub bit_host : Host
bit_host = record {
  F64 = ℕ;
  of_i32 = λ x. x;
  of_bits = λ x. x;
  float_eq = λ x y. x == y && not (ltb 0x7ff0000000000000 x && ltb x 0x8000000000000000);
  is_nan = λ x. ltb 0x7ff0000000000000 x && ltb x 0x8000000000000000;
  string_at = λ p. if p == 0x1000 || p == 0x2000 then some (104 ∷ 105 ∷ []) else none;
}

pub bit_host-IsFloat : IsFloat bit_host
bit_host-IsFloat = record { eq_comm = λ x y. ground arith; eq_refl = λ x h. ground arith }

f64_round_trip_example :
    (tests (encode_f64_value 0x3ff8000000000000) ≡ only Kind.double)
    × (get_double (encode_f64_value 0x3ff8000000000000) ≡ some 0x3ff8000000000000)
f64_round_trip_example = f64_round_trip 0x3ff8000000000000 (omega arith)

-- Two cells with the same text are the same value.
same_text : same_value bit_host 0x1000 0x2000 ≡ some true
unfolding same_value same_value_impl same_cell str_eq is_number is_object is_pointer is_empty
same_text = refl
