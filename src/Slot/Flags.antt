-- ===== src/Slot/Flags.antt =====
-- What each method does to the flags of a slot (crates/starlight/src/vm/slot.rs).
use mathlib.Core.Bool.{and-true, and-false, or-true, or-false}
use js.Common.{ℕ, ◌/◌, ◌≡◌, arith, Bool, true, false, ◌&&◌, ◌||◌, bit_and, bit_or}
use js.Common.{bit, bit-and, bit-or, bit_and_low, Option}
use js.Attributes.{AttrSafe}
use js.Value.{JsValue}
use js.Slot.{
  Slot, PutResultType, no_result, replace, new_property, indexed_optimized, put_result_type,
  mark_put_result, set_put_result_type, make_used, make_put_uncacheable, make_uncacheable, set_1,
  set_woffset,
}

pub record SlotFlags : Type 0 where
  pub used : Bool
  pub cacheable : Bool
  pub put : Bool
  pub forced : Bool
  pub low : Bool
  pub high : Bool

unfoldable pub decode : ℕ → SlotFlags
decode f = record {
  used = bit 0 f;
  cacheable = bit 1 f;
  put = bit 2 f;
  forced = bit 3 f;
  low = bit 4 f;
  high = bit 5 f;
}

abbrev zip_flags : (Bool → Bool → Bool) → SlotFlags → SlotFlags → SlotFlags
zip_flags f p q = record {
  used = f p.used q.used;
  cacheable = f p.cacheable q.cacheable;
  put = f p.put q.put;
  forced = f p.forced q.forced;
  low = f p.low q.low;
  high = f p.high q.high;
}

decode-and : (x y : ℕ) → decode (bit_and x y) ≡ zip_flags ◌&&◌ (decode x) (decode y)
unfolding decode
decode-and x y = simp bit-and

decode-or : (x y : ℕ) → decode (bit_or x y) ≡ zip_flags ◌||◌ (decode x) (decode y)
unfolding decode
decode-or x y = simp bit-or

ruleset closed = (and-true, and-false, or-true, or-false)

-- The two digits of a put result.
abbrev pub digits_of : PutResultType → Bool × Bool
digits_of no_result = (false, false)
digits_of replace = (true, false)
digits_of new_property = (false, true)
digits_of indexed_optimized = (true, true)

pub make_used-flags :
    (s : Slot) → decode (make_used s).flags ≡ record (decode s.flags) { used = false }
unfolding make_used
make_used-flags s = simp decode-and (unfold decode bit in simp closed)

pub make_uncacheable-flags :
    (s : Slot) → decode (make_uncacheable s).flags ≡ record (decode s.flags) { cacheable = false }
unfolding make_uncacheable
make_uncacheable-flags s = simp decode-and (unfold decode bit in simp closed)

pub make_put_uncacheable-flags :
    (s : Slot) → decode (make_put_uncacheable s).flags ≡ record (decode s.flags) { forced = true }
unfolding make_put_uncacheable
make_put_uncacheable-flags s = simp decode-or (unfold decode bit in simp closed)

pub mark_put_result-flags :
    (s : Slot) (ty : PutResultType) (offset : ℕ)
    → decode (mark_put_result s ty offset).flags
      ≡ record (decode s.flags) { put = true; low = (digits_of ty).0; high = (digits_of ty).1 }
unfolding mark_put_result set_put_result_type
mark_put_result-flags s no_result n =
    simp (decode-and, decode-or) (unfold decode bit in simp closed)
mark_put_result-flags s replace n = simp (decode-and, decode-or) (unfold decode bit in simp closed)
mark_put_result-flags s new_property n =
    simp (decode-and, decode-or) (unfold decode bit in simp closed)
mark_put_result-flags s indexed_optimized n =
    simp (decode-and, decode-or) (unfold decode bit in simp closed)

pub set_1-flags :
    (s : Slot) (v : JsValue) (a : AttrSafe) (o : Option ℕ)
    → decode (set_1 s v a o).flags ≡ record (decode s.flags) { used = false; cacheable = false }
unfolding set_1
set_1-flags s v a o = simp (make_uncacheable-flags, make_used-flags)

pub set_woffset-flags :
    (s : Slot) (v : JsValue) (a : AttrSafe) (o : Option ℕ) (n : ℕ)
    → decode (set_woffset s v a o n).flags ≡ record (decode s.flags) { used = false }
unfolding set_woffset
set_woffset-flags s v a o n = simp make_used-flags

-- The put result is read from its two digits.
pub put_result_type-flags :
    (s : Slot) (ty : PutResultType)
    → (decode s.flags).low ≡ (digits_of ty).0
    → (decode s.flags).high ≡ (digits_of ty).1
    → put_result_type s ≡ ty
unfolding put_result_type decode bit
put_result_type-flags s no_result l h = ground (arith, bit_and_low 2 (s.flags / 16))
put_result_type-flags s replace l h = ground (arith, bit_and_low 2 (s.flags / 16))
put_result_type-flags s new_property l h = ground (arith, bit_and_low 2 (s.flags / 16))
put_result_type-flags s indexed_optimized l h = ground (arith, bit_and_low 2 (s.flags / 16))
