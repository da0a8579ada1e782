-- ===== src/Attributes/View.antt =====
-- What a word of attributes says: one Boolean for each named flag.
use js.Common.{◌+◌, ◌/◌, bit_and, bit_or, Bool, true, false, not, ◌&&◌, ◌||◌, ◌≡◌, arith}
use js.Common.{
  bit, bit-and, bit-or, bit_and-pow, bit_and-digit, bit_and-zero, ◌==◌, bool_eq, Bool-cases, inl,
  inr, if◌then◌else◌,
}
use mathlib.Core.Bool.{and-true, and-false, or-true, or-false}
use js.Attributes.{
  Raw, AttrExternal, is_enumerable, is_configurable, is_writable, is_data, is_accessor, is_empty,
  is_generic, is_enumerable_absent, is_configurable_absent, is_writable_absent, is_value_absent,
  is_getter_absent, is_setter_absent, set_enumerable, set_configurable, set_writable, set_data,
  set_accessor, ty, remove_undefs, is_default, fill_enumerable_and_configurable, undef_enumerable,
  undef_configurable, invert, has,
}

pub record Flags : Type 0 where
  pub w : Bool
  pub e : Bool
  pub c : Bool
  pub d : Bool
  pub a : Bool
  pub empty : Bool
  pub no_w : Bool
  pub no_e : Bool
  pub no_c : Bool
  pub no_value : Bool
  pub no_getter : Bool
  pub no_setter : Bool

unfoldable pub view : Raw → Flags
view r = record {
  w = bit 0 r;
  e = bit 1 r;
  c = bit 2 r;
  d = bit 3 r;
  a = bit 4 r;
  empty = bit 5 r;
  no_w = bit 6 r;
  no_e = bit 7 r;
  no_c = bit 8 r;
  no_value = bit 9 r;
  no_getter = bit 10 r;
  no_setter = bit 11 r;
}

abbrev pub zip_flags : (Bool → Bool → Bool) → Flags → Flags → Flags
zip_flags f p q = record {
  w = f p.w q.w;
  e = f p.e q.e;
  c = f p.c q.c;
  d = f p.d q.d;
  a = f p.a q.a;
  empty = f p.empty q.empty;
  no_w = f p.no_w q.no_w;
  no_e = f p.no_e q.no_e;
  no_c = f p.no_c q.no_c;
  no_value = f p.no_value q.no_value;
  no_getter = f p.no_getter q.no_getter;
  no_setter = f p.no_setter q.no_setter;
}

pub view-and : (x y : Raw) → view (bit_and x y) ≡ zip_flags ◌&&◌ (view x) (view y)
unfolding view
view-and x y = simp bit-and

pub view-or : (x y : Raw) → view (bit_or x y) ≡ zip_flags ◌||◌ (view x) (view y)
unfolding view
view-or x y = simp bit-or

-- Each predicate reads its flag.
pub is_writable-view : (x : AttrExternal) → is_writable x ≡ (view x.raw).w
unfolding is_writable view
is_writable-view x = bit_and-pow 0 x.raw

pub is_enumerable-view : (x : AttrExternal) → is_enumerable x ≡ (view x.raw).e
unfolding is_enumerable view
is_enumerable-view x = bit_and-pow 1 x.raw

pub is_configurable-view : (x : AttrExternal) → is_configurable x ≡ (view x.raw).c
unfolding is_configurable view
is_configurable-view x = bit_and-pow 2 x.raw

pub is_data-view : (x : AttrExternal) → is_data x ≡ (view x.raw).d
unfolding is_data view
is_data-view x = bit_and-pow 3 x.raw

pub is_accessor-view : (x : AttrExternal) → is_accessor x ≡ (view x.raw).a
unfolding is_accessor view
is_accessor-view x = bit_and-pow 4 x.raw

pub is_empty-view : (x : AttrExternal) → is_empty x ≡ (view x.raw).empty
unfolding is_empty view
is_empty-view x = bit_and-pow 5 x.raw

pub is_writable_absent-view : (x : AttrExternal) → is_writable_absent x ≡ (view x.raw).no_w
unfolding is_writable_absent view
is_writable_absent-view x = bit_and-pow 6 x.raw

pub is_enumerable_absent-view : (x : AttrExternal) → is_enumerable_absent x ≡ (view x.raw).no_e
unfolding is_enumerable_absent view
is_enumerable_absent-view x = bit_and-pow 7 x.raw

pub is_configurable_absent-view : (x : AttrExternal) → is_configurable_absent x ≡ (view x.raw).no_c
unfolding is_configurable_absent view
is_configurable_absent-view x = bit_and-pow 8 x.raw

pub is_value_absent-view : (x : AttrExternal) → is_value_absent x ≡ (view x.raw).no_value
unfolding is_value_absent view
is_value_absent-view x = bit_and-pow 9 x.raw

pub is_getter_absent-view : (x : AttrExternal) → is_getter_absent x ≡ (view x.raw).no_getter
unfolding is_getter_absent view
is_getter_absent-view x = bit_and-pow 10 x.raw

pub is_setter_absent-view : (x : AttrExternal) → is_setter_absent x ≡ (view x.raw).no_setter
unfolding is_setter_absent view
is_setter_absent-view x = bit_and-pow 11 x.raw

pub ruleset reads = (
  is_writable-view, is_enumerable-view, is_configurable-view, is_data-view, is_accessor-view,
  is_empty-view, is_writable_absent-view, is_enumerable_absent-view, is_configurable_absent-view,
  is_value_absent-view, is_getter_absent-view, is_setter_absent-view,
)

ruleset closed = (and-true, and-false, or-true, or-false)

-- Each setter changes its flags and no other.
pub set_enumerable-view :
    (x : AttrExternal) (v : Bool)
    → view (set_enumerable x v).raw ≡ record (view x.raw) { e = v; no_e = false }
unfolding set_enumerable
set_enumerable-view x true = simp (view-and, view-or) (unfold view bit in simp closed)
set_enumerable-view x false = simp view-and (unfold view bit in simp closed)

pub set_configurable-view :
    (x : AttrExternal) (v : Bool)
    → view (set_configurable x v).raw ≡ record (view x.raw) { c = v; no_c = false }
unfolding set_configurable
set_configurable-view x true = simp (view-and, view-or) (unfold view bit in simp closed)
set_configurable-view x false = simp view-and (unfold view bit in simp closed)

pub set_writable-view :
    (x : AttrExternal) (v : Bool)
    → view (set_writable x v).raw ≡ record (view x.raw) { w = v; no_w = false }
unfolding set_writable
set_writable-view x true = simp (view-and, view-or) (unfold view bit in simp closed)
set_writable-view x false = simp view-and (unfold view bit in simp closed)

pub set_data-view :
    (x : AttrExternal) → view (set_data x).raw ≡ record (view x.raw) { d = true; a = false }
unfolding set_data
set_data-view x = simp (view-and, view-or) (unfold view bit in simp closed)

pub set_accessor-view :
    (x : AttrExternal)
    → view (set_accessor x).raw ≡ record (view x.raw) { w = false; d = false; a = true }
unfolding set_accessor
set_accessor-view x = simp (view-and, view-or) (unfold view bit in simp closed)

-- The flags that are left when the "absent" marks are taken off.
abbrev pub present : Flags → Flags
present f = record f {
  empty = false;
  no_w = false;
  no_e = false;
  no_c = false;
  no_value = false;
  no_getter = false;
  no_setter = false;
}

pub remove_undefs-view : (r : Raw) → view (remove_undefs r) ≡ present (view r)
unfolding remove_undefs
remove_undefs-view r = simp view-and (unfold view bit in simp closed)

-- Taking off a mark that is not there changes nothing.
clear_no_c :
    (x : AttrExternal)
    → view
        (if has x.raw undef_configurable
          then record { raw = bit_and x.raw (invert undef_configurable) }
          else x).raw
      ≡ record (view x.raw) { no_c = false }
clear_no_c x = elim (Bool-cases (has x.raw undef_configurable)) [
  | inl h ↦ rw h (simp view-and (unfold view bit in simp closed))
  | inr h ↦ rw h (unfold view in cc (bit_and-pow 8 x.raw))
]

clear_no_e :
    (x : AttrExternal)
    → view
        (if has x.raw undef_enumerable
          then record { raw = bit_and x.raw (invert undef_enumerable) }
          else x).raw
      ≡ record (view x.raw) { no_e = false }
clear_no_e x = elim (Bool-cases (has x.raw undef_enumerable)) [
  | inl h ↦ rw h (simp view-and (unfold view bit in simp closed))
  | inr h ↦ rw h (unfold view in cc (bit_and-pow 7 x.raw))
]

pub fill-view :
    (x : AttrExternal)
    → view (fill_enumerable_and_configurable x).raw
      ≡ record (view x.raw) { no_e = false; no_c = false }
unfolding fill_enumerable_and_configurable
fill-view x = simp (clear_no_e, clear_no_c)

pub is_default-view :
    (x : AttrExternal)
    → is_default x ≡ ((view x.raw).w && (view x.raw).e && (view x.raw).c && (view x.raw).d)
unfolding is_default view bit
is_default-view x = ground (
  arith,
  bit_and-digit x.raw 15,
  bit_and-digit (x.raw / 2) 7,
  bit_and-digit (x.raw / 2 / 2) 3,
  bit_and-digit (x.raw / 2 / 2 / 2) 1,
  bit_and-zero (x.raw / 2 / 2 / 2 / 2),
)

pub is_generic-view :
    (x : AttrExternal) → is_generic x ≡ not ((view x.raw).d || (view x.raw).a || (view x.raw).empty)
unfolding is_generic view bit
is_generic-view x = ground (
  arith,
  bit_and-digit x.raw 56,
  bit_and-digit (x.raw / 2) 28,
  bit_and-digit (x.raw / 2 / 2) 14,
  bit_and-digit (x.raw / 2 / 2 / 2) 7,
  bit_and-digit (x.raw / 2 / 2 / 2 / 2) 3,
  bit_and-digit (x.raw / 2 / 2 / 2 / 2 / 2) 1,
  bit_and-zero (x.raw / 2 / 2 / 2 / 2 / 2 / 2),
)

ty-sum :
    (x : AttrExternal)
    → ty x ≡ (if (view x.raw).d then 8 else 0) + (if (view x.raw).a then 16 else 0)
unfolding ty view bit
ty-sum x = ground (
  arith,
  bit_and-digit x.raw 24,
  bit_and-digit (x.raw / 2) 12,
  bit_and-digit (x.raw / 2 / 2) 6,
  bit_and-digit (x.raw / 2 / 2 / 2) 3,
  bit_and-digit (x.raw / 2 / 2 / 2 / 2) 1,
  bit_and-zero (x.raw / 2 / 2 / 2 / 2 / 2),
)

-- `ty` holds the two type flags.
pub ty-view :
    (x y : AttrExternal)
    → (ty x == ty y)
      ≡ (bool_eq (view x.raw).d (view y.raw).d && bool_eq (view x.raw).a (view y.raw).a)
ty-view x y = rw (ty-sum x, ty-sum y) (ground arith)
