-- ===== src/Slot/Calls.antt =====
-- Sequences of calls on one slot (the methods of crates/starlight/src/vm/slot.rs that change it).
use js.Common.{ℕ, List, [], ◌∷◌, Option}
use js.Attributes.{AttrSafe}
use js.Value.{JsValue}
use js.Property.{StoredSlot}
use js.Slot
use js.Slot.{Slot, PutResultType}

-- The methods that change a slot, as calls.
pub data Call : Type 0 where
  mark_put_result : PutResultType → ℕ → Call
  clear make_used make_put_uncacheable make_uncacheable : Call
  set_1 : JsValue → AttrSafe → Option ℕ → Call
  set_woffset : JsValue → AttrSafe → Option ℕ → ℕ → Call
  set_from_slot : StoredSlot → Option ℕ → Call

unfoldable pub apply : Call → Slot → Slot
apply (Call.mark_put_result ty offset) s = Slot.mark_put_result s ty offset
apply Call.clear s = Slot.clear s
apply Call.make_used s = Slot.make_used s
apply Call.make_put_uncacheable s = Slot.make_put_uncacheable s
apply Call.make_uncacheable s = Slot.make_uncacheable s
apply (Call.set_1 v a o) s = Slot.set_1 s v a o
apply (Call.set_woffset v a o n) s = Slot.set_woffset s v a o n
apply (Call.set_from_slot t o) s = Slot.set_from_slot s t o

unfoldable pub run : List Call → Slot → Slot
run [] s = s
run (c ∷ cs) s = run cs (apply c s)
