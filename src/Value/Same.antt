-- ===== src/Value/Same.antt =====
-- `same_value` as an equality test (crates/starlight/src/vm/value.rs).
use js.Value.Masks.{number_tag_lem, not_cell_mask_lem}
use js.Common.{ℕ, ◌+◌, ◌-◌, ◌%◌, ◌^◌, ◌<◌, ◌≡◌, arith, refl}
use js.Common.{
  List, [], ◌∷◌, true, false, Option, none, some, ◌==◌, inl, inr, Bool-cases, Option-cases,
}
use js.Value.{
  JsValue, Host, str_eq, is_number, is_int32, is_double, is_object, get_number, get_double,
  get_int32, is_pointer, same_number, same_cell, same_value_impl, same_value,
}

str_eq_refl : (s : List ℕ) → str_eq s s ≡ true
unfolding str_eq
str_eq_refl [] = refl
str_eq_refl (x ∷ s) = ground (arith, str_eq_refl s)

str_eq_comm : (s t : List ℕ) → str_eq s t ≡ str_eq t s
unfolding str_eq
str_eq_comm [] [] = refl
str_eq_comm [] (y ∷ t) = refl
str_eq_comm (x ∷ s) [] = refl
str_eq_comm (x ∷ s) (y ∷ t) = ground (arith, str_eq_comm s t)

-- What Rust documents of `f64`: `==` is symmetric, and reflexive except at NaN.
pub record IsFloat (host : Host) : Type 0 where
  pub eq_comm : (x y : host.F64) → host.float_eq x y ≡ host.float_eq y x
  pub eq_refl : (x : host.F64) → host.is_nan x ≡ false → host.float_eq x x ≡ true

-- The assertion of `get_double` holds wherever `get_number` calls it.
get_number-some :
    (host : Host) (v : JsValue) → is_number v ≡ true → (x : host.F64) × (get_number host v ≡ some x)
unfolding get_number get_double is_double
get_number-some host v h = elim (Bool-cases (is_int32 v)) [
  | inl i ↦ (host.of_i32 (get_int32 v), rw i)
  | inr i ↦ (host.of_bits ((v + 2 ^ 64 - 2 ^ 49) % 2 ^ 64), rw (h, i))
]

number-not-object : (v : JsValue) → v < 2 ^ 64 → is_number v ≡ true → is_object v ≡ false
unfolding is_number is_object is_pointer
number-not-object v b h = ground (arith, number_tag_lem v b, not_cell_mask_lem v b)

module _ (host : Host) (laws : IsFloat host) where
  same_number_refl : (x : host.F64) → same_number host (some x) (some x) ≡ some true
  unfolding same_number
  same_number_refl x = ground (arith, laws.eq_refl x)

  -- A value is the same as itself: a NaN too, and a string.
  pub same_value_refl : (v : JsValue) → same_value host v v ≡ some true
  unfolding same_value same_value_impl same_cell
  same_value_refl v = elim (Bool-cases (is_number v)) [
    | inl h ↦ let n = get_number-some host v h in rw (h, n.1) (same_number_refl n.0)
    | inr h ↦ elim (Option-cases (host.string_at v)) [
      | inl e ↦ rw (h, e) (ground arith)
      | inr (s, e) ↦ rw (h, e) (ground (arith, str_eq_refl s))
    ]
  ]

  same_number_comm : (x y : Option host.F64) → same_number host x y ≡ same_number host y x
  unfolding same_number
  same_number_comm none none = refl
  same_number_comm none (some y) = refl
  same_number_comm (some x) none = refl
  same_number_comm (some x) (some y) = ground (arith, laws.eq_comm x y)

  same_cell_comm :
      (s t : Option (List ℕ)) (v w : JsValue)
      → same_cell host s t (v == w) ≡ same_cell host t s (w == v)
  unfolding same_cell
  same_cell_comm none none v w = ground arith
  same_cell_comm none (some t) v w = ground arith
  same_cell_comm (some s) none v w = ground arith
  same_cell_comm (some s) (some t) v w = str_eq_comm s t

  -- The order of two 64-bit patterns does not matter.
  pub same_value_comm :
      (v w : JsValue) → v < 2 ^ 64 → w < 2 ^ 64 → same_value host v w ≡ same_value host w v
  unfolding same_value same_value_impl
  same_value_comm v w hv hw = ground (
    arith,
    number-not-object v hv,
    number-not-object w hw,
    same_number_comm (get_number host v) (get_number host w),
    same_cell_comm (host.string_at v) (host.string_at w) v w,
  )
