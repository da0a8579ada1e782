-- ===== src/Attributes/Laws.antt =====
-- The attributes that are stored in a property: what `create_data` and `create_accessor` build.
use mathlib.Core.Bool.{and-true, and-false}
use js.Common.{◌/◌, Bool, true, false, not, ◌&&◌, ◌||◌, ◌≡◌, arith}
use js.Common.{bit, bit_and-digit, bit_and-zero, bit_and-pow, Bool-cases, inl, inr, if◌then◌else◌}
use js.Attributes.{
  Raw, AttrExternal, raw, has, undefs, is_stored, create_data, create_accessor, safe, external,
  is_writable_absent, set_writable, set_data, set_accessor, fill_enumerable_and_configurable,
  remove_undefs, set_enumerable, set_configurable,
}
use js.Attributes.View.{
  view, present, fill-view, set_data-view, set_accessor-view, set_writable-view,
  set_enumerable-view, set_configurable-view, remove_undefs-view, is_writable_absent-view,
}

ruleset closed = (and-true, and-false)

-- On the flags that a word holds, each setter assigns its own flag and takes off its "absent" mark,
-- `set_data` and `set_accessor` exchange the type flags (and an accessor is not writable), and
-- `remove_undefs` takes off every mark. No other flag changes.
pub setters_refine :
    (x : AttrExternal) (v : Bool)
    → (view (set_enumerable x v).raw ≡ record (view x.raw) { e = v; no_e = false })
      × (view (set_configurable x v).raw ≡ record (view x.raw) { c = v; no_c = false })
      × (view (set_writable x v).raw ≡ record (view x.raw) { w = v; no_w = false })
      × (view (set_data x).raw ≡ record (view x.raw) { d = true; a = false })
      × (view (set_accessor x).raw ≡ record (view x.raw) { w = false; d = false; a = true })
      × (view (remove_undefs x.raw) ≡ present (view x.raw))
setters_refine x v = (
  set_enumerable-view x v,
  set_configurable-view x v,
  set_writable-view x v,
  set_data-view x,
  set_accessor-view x,
  remove_undefs-view x.raw,
)

pub safe-view : (r : Raw) → view (raw (safe r)) ≡ present (view r)
unfolding safe external
safe-view r = remove_undefs-view r

-- What `create_data` stores: a data property with the given C, E and W, where an absent W is false.
pub create_data-view :
    (x : AttrExternal)
    → view (raw (create_data x)) ≡ record (present (view x.raw)) {
      w = (view x.raw).w && not (view x.raw).no_w;
      d = true;
      a = false;
    }
unfolding create_data
create_data-view x =
    let filled = set_data (fill_enumerable_and_configurable x) in
    let mark : is_writable_absent filled ≡ (view x.raw).no_w =
      simp (is_writable_absent-view, set_data-view, fill-view) in
    elim (Bool-cases (view x.raw).no_w) [
      | inl h ↦
          rw (mark, h) (simp (safe-view, set_writable-view, set_data-view, fill-view) (simp closed))
      | inr h ↦ rw (mark, h) (simp (safe-view, set_data-view, fill-view) (simp closed))
    ]

-- What `create_accessor` stores: an accessor property with the given C and E, never writable.
pub create_accessor-view :
    (x : AttrExternal)
    → view (raw (create_accessor x))
      ≡ record (present (view x.raw)) { w = false; d = false; a = true }
unfolding create_accessor
create_accessor-view x = simp (safe-view, set_accessor-view, fill-view)

pub has-undefs :
    (r : Raw)
    → has r undefs ≡ (
        (view r).empty
        || (view r).no_w
        || (view r).no_e
        || (view r).no_c
        || (view r).no_value
        || (view r).no_getter
        || (view r).no_setter)
unfolding view bit
has-undefs r = ground (
  arith,
  bit_and-digit r 4064,
  bit_and-digit (r / 2) 2032,
  bit_and-digit (r / 2 / 2) 1016,
  bit_and-digit (r / 2 / 2 / 2) 508,
  bit_and-digit (r / 2 / 2 / 2 / 2) 254,
  bit_and-digit (r / 2 / 2 / 2 / 2 / 2) 127,
  bit_and-digit (r / 2 / 2 / 2 / 2 / 2 / 2) 63,
  bit_and-digit (r / 2 / 2 / 2 / 2 / 2 / 2 / 2) 31,
  bit_and-digit (r / 2 / 2 / 2 / 2 / 2 / 2 / 2 / 2) 15,
  bit_and-digit (r / 2 / 2 / 2 / 2 / 2 / 2 / 2 / 2 / 2) 7,
  bit_and-digit (r / 2 / 2 / 2 / 2 / 2 / 2 / 2 / 2 / 2 / 2) 3,
  bit_and-digit (r / 2 / 2 / 2 / 2 / 2 / 2 / 2 / 2 / 2 / 2 / 2) 1,
  bit_and-zero (r / 2 / 2 / 2 / 2 / 2 / 2 / 2 / 2 / 2 / 2 / 2 / 2),
)

-- `is_stored` accepts exactly the words with no mark that are data, or accessor and not writable.
pub is_stored-view :
    (r : Raw)
    → is_stored r ≡ (
        if has r undefs
        then false
        else if (view r).d
        then not (view r).a
        else (view r).a && not (view r).w)
unfolding is_stored view
is_stored-view r = ground (arith, bit_and-pow 0 r, bit_and-pow 3 r, bit_and-pow 4 r)

-- Whatever the request, the attributes that both constructors build may be stored.
pub create_stored :
    (x : AttrExternal)
    → (is_stored (raw (create_data x)) ≡ true) × (is_stored (raw (create_accessor x)) ≡ true)
create_stored x = (
  simp (is_stored-view, has-undefs, create_data-view),
  simp (is_stored-view, has-undefs, create_accessor-view),
)
