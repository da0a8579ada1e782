-- ===== src/Object/Tests.antt =====
-- Concrete objects: crates/starlight/src/vm/object.rs.
use mathlib.Core.Option
use js.Common.{ℕ, ◌+◌, ◌≡◌, arith, refl, true, false, Option, none, some, [], ◌∷◌}
use js.Common.{ltb, ◌==◌, if◌then◌else◌, map_get, Bool-cases, inl, inr}
use js.Attributes
use js.Property
use js.Attributes.{raw, is_default, is_value_absent, is_configurable, is_stored, is_not_found}
use js.Value.{JsValue, is_empty}
use js.Value.Tests.{bit_host}
use js.Property.{StoredSlot, Cells, PropertyDescriptor, data_descriptor, first_word}
use js.Slot
use js.Slot.{set_from_slot, is_slot_not_found}
use js.Structure.Defs.{Heap, root}
use js.Object.Elements.{IndexedElements, dense, writable, ensure_map, make_sparse}
use js.Object.Element.{element, IsValid}
use js.Object.Defs.{JsObject, State, Engine, Completion, ok, is_extensible, refuse}
use js.Object.World.{World, index, prototype, get_property_slot, put_slot, is_fast}
use js.Object.Sparse.{make_sparse_keeps}
use js.Object.Index.{
  define_own_indexed_property_internal, define_in_map, get_own_indexed_property_slot,
  delete_indexed_internal,
}
use js.Object.Dense.{stored}
use js.Object.Define.{IsStep}
use js.Object.Direct.{
  direct_value, observed, as_element, define_direct_lem, define_own_refines, define_one,
  define_own_keeps,
}
use js.Object.Lookup.{get_own_lem}
use js.Object.Delete.{IsDeleted, delete_lem}
use js.Object.Closed.{IsClosed, delete_reopens}
use js.Object.Inherit.{IsChain, last, more, first_with, inherited, get_property_slot_lem}
use js.Object.Put.{put_element, put_slot_lem}
use js.Attributes.{is_data}
use js.Slot.{Slot, set_woffset, is_used}
use js.Value.{encode_empty_value}
use js.ArrayStorage.Defs.{at}
use js.Property.Define
use js.Structure.Tables.{find, no_deleted, new_transitions}
use js.Structure.Defs.{is_unique, get_slots_size, has_table}
use js.Structure.Transitions
use js.Object.Named.{define_own_non_indexed_property_slot, get_own_non_indexed_property_slot}
use js.Object.Grow.{IsOpen, define_new_lem}

abbrev engine : Engine
engine = record { host = bit_host; place = λ h. 0x4000; alive = λ i. true; fresh = λ i. 0 }

-- `[0, , 2]`
abbrev three : IndexedElements
three = record {
  map = none;
  vector = record {
    size = 3;
    capacity = 4;
    data_words = λ i. if i == 1 then 0 else 0xfffe000000000000 + i;
  };
  length = 3;
  flags = 3;
  non_gc = true;
}

three-IsValid : IsValid three
unfolding dense is_empty
three-IsValid = record {
  vector_fits = record { size_fits = omega arith; capacity_fits = omega arith };
  short = omega arith;
  cleared = λ i n l. absurd (ground arith);
  far = λ i s t f. absurd (ground arith);
  in_length = λ i s f. absurd (ground arith);
  vector_in_length = λ i l f. ground arith;
}

-- One element at 7, read-only and configurable.
abbrev read_only : StoredSlot
read_only = record {
  value = 0xfffe000000000007;
  attributes = record { attributes = record { raw = 12 } };
}

abbrev far_apart : IndexedElements
far_apart = record {
  map = some ((7, read_only) ∷ []);
  vector = record { size = 0; capacity = 0; data_words = λ i. 0 };
  length = 8;
  flags = 2;
  non_gc = true;
}

far_apart-IsValid : IsValid far_apart
unfolding dense is_empty map_get
far_apart-IsValid = record {
  vector_fits = record { size_fits = omega arith; capacity_fits = omega arith };
  short = omega arith;
  cleared = λ i n l. absurd (ground arith);
  far = λ i s t f. absurd (ground arith);
  in_length = λ i s f. ground arith;
  vector_in_length = λ i l f. absurd (ground arith);
}

abbrev heap : Heap
heap = record {
  structures = λ i. root none none false false 0;
  next_structure = 1;
  tables = λ i. [];
  next_table = 0;
}

abbrev with_elements : IndexedElements → ℕ → JsObject
with_elements e flags = record {
  structure = 0;
  indexed = e;
  slots = record { size = 0; capacity = 0; data_words = λ i. 0 };
  flags = flags;
}

abbrev at_start : IndexedElements → ℕ → State
at_start e flags = record { heap = heap; cells = λ i. none; object = with_elements e flags }

make_sparse_keeps_example :
    (e : IndexedElements) × (make_sparse three ≡ some e)
    × IsValid e
    × (dense e ≡ false)
    × ((i : ℕ) → element e i ≡ element three i)
make_sparse_keeps_example = make_sparse_keeps three three-IsValid

-- A request for a value with default attributes.
abbrev nine : PropertyDescriptor
nine = data_descriptor 0xfffe000000000009 7

define_direct_lem_example :
    (s' : State) × (define_own_indexed_property_internal engine (at_start three 1) 1 nine true
      ≡ some (s', ok true))
    × (s'.cells ≡ (at_start three 1).cells)
    × IsStep (at_start three 1) s' 1 (direct_value (at_start three 1) 1 nine)
unfolding writable dense is_default data_descriptor js.Attributes.external
define_direct_lem_example =
    define_direct_lem engine (at_start three 1) 1 nine true three-IsValid (omega arith) refl refl

-- A read-only element: the request makes dense elements sparse.
abbrev fixed_nine : PropertyDescriptor
fixed_nine = data_descriptor 0xfffe000000000009 6

define_own_refines_example :
    Option.map
      (observed 1)
      (define_own_indexed_property_internal engine (at_start three 1) 1 fixed_nine true)
    ≡ define_one engine (at_start three 1) 1 fixed_nine true
define_own_refines_example =
    define_own_refines engine (at_start three 1) 1 fixed_nine true three-IsValid (omega arith)

-- No element is added to an object that is not extensible.
refused :
    define_own_indexed_property_internal engine (at_start far_apart 0) 3 nine false
    ≡ some (at_start far_apart 0, ok false)
unfolding define_own_indexed_property_internal define_in_map writable dense ensure_map map_get
    is_extensible refuse
refused = refl

define_own_keeps_example : IsValid far_apart × (element far_apart 7 ≡ element far_apart 7)
define_own_keeps_example =
    define_own_keeps engine (at_start far_apart 0) 3 nine false far_apart-IsValid (omega arith)
      (at_start far_apart 0) (ok false) 7 refused (λ e. ground arith)

far_apart-IsClosed : IsClosed (with_elements far_apart 0)
far_apart-IsClosed = record {
  valid = far_apart-IsValid;
  fixed = unfold is_extensible in refl;
  sparse = unfold dense in refl;
}

own_three :
    get_own_indexed_property_slot 0x8000 (with_elements three 1) 2 js.Slot.new
    ≡ some (elim (element three 2) [
      | none ↦ (false, js.Slot.new)
      | some x ↦ (true, set_from_slot js.Slot.new x (some 0x8000))
    ])
own_three = get_own_lem 0x8000 (with_elements three 1) 2 js.Slot.new three-IsValid

delete_lem_example :
    (o : JsObject) × (c : Completion) × (delete_indexed_internal (with_elements far_apart 1) 7 false
      ≡ some (o, c))
    × IsDeleted (with_elements far_apart 1) 7 false o c
delete_lem_example = delete_lem (with_elements far_apart 1) 7 false far_apart-IsValid

delete_reopens_example :
    (o : JsObject) × (s : State) × (delete_indexed_internal (with_elements far_apart 0) 7 true
      ≡ some (o, ok true))
    × (is_extensible o ≡ false)
    × (element o.indexed 2 ≡ none)
    × (define_own_indexed_property_internal engine
          (record (at_start far_apart 0) { object = o })
          2
          nine
          true
        ≡ some (s, ok true))
    × (element s.object.indexed 2
        ≡ as_element (stored (first_word nine) (is_value_absent nine.attrs)))
unfolding is_configurable writable is_default data_descriptor js.Attributes.external
delete_reopens_example =
    delete_reopens engine (at_start far_apart 0) 7 read_only true far_apart-IsClosed refl refl refl
      2 nine (omega arith) refl

-- The object at 16 has the prototype at 32, and the one at 48 has none.
abbrev world : World
world = record {
  heap = record heap {
    structures = λ i. root none (if i == 1 then some 32 else none) false false 0;
  };
  cells = λ i. none;
  objects = λ q.
      if q == 16
      then record (with_elements three 1) { structure = 1 }
      else if q == 48
      then with_elements three 1
      else with_elements far_apart 1;
}

world-IsValid : (q : ℕ) → IsValid (world.objects q).indexed
world-IsValid q = elim (Bool-cases (q == 16)) [
  | inl e ↦ rw e three-IsValid
  | inr e ↦ elim (Bool-cases (q == 48)) [
    | inl f ↦ rw (e, f) three-IsValid
    | inr f ↦ rw (e, f) far_apart-IsValid
  ]
]

chain16 : IsChain world 16 (16 ∷ 32 ∷ [])
unfolding prototype
chain16 = more refl (last refl)

chain32 : IsChain world 32 (32 ∷ [])
unfolding prototype
chain32 = last refl

get_property_slot_lem_example :
    get_property_slot 2 world 16 (index 7) js.Slot.new
    ≡ some (inherited world js.Slot.new (first_with world (16 ∷ 32 ∷ []) 7))
get_property_slot_lem_example =
    get_property_slot_lem world 16 (16 ∷ 32 ∷ []) 7 2 js.Slot.new world-IsValid chain16
      (omega arith)

-- A setter that does nothing.
abbrev call : World → JsValue → JsValue → JsValue → JsValue → Option (World × Option JsValue)
call w f this arg callee = some (w, none)

found_stored :
    (q : ℕ) (x : StoredSlot)
    → first_with world (32 ∷ []) 7 ≡ some (q, x)
    → is_stored (raw x.attributes) ≡ true
unfolding first_with element map_get dense is_stored
found_stored q x e = ground arith

put_slot_lem_example :
    put_slot engine call 1 world 32 (index 7) 5 js.Slot.new true
    ≡ put_element engine call world 32 7 5 true (first_with world (32 ∷ []) 7)
unfolding is_fast dense is_slot_not_found is_not_found js.Slot.new js.Property.new_raw
    js.Attributes.not_found
put_slot_lem_example =
    put_slot_lem engine call world 32 (32 ∷ []) 7 1 5 js.Slot.new true world-IsValid chain32
      (omega arith) refl refl found_stored

abbrev fresh_slot : Slot
fresh_slot = js.Slot.new

-- The property that `nine` describes.
abbrev nine_stored : StoredSlot
nine_stored = record {
  value = 0xfffe000000000009;
  attributes = record { attributes = record { raw = 15 } };
}

heap-IsOpen : IsOpen engine.alive heap 0 5 nine_stored.attributes
unfolding find is_unique get_slots_size no_deleted new_transitions
heap-IsOpen = record {
  allocated = omega arith;
  named = λ e. omega (arith, e);
  shared = refl;
  no_transition = refl;
  few_transitions = omega arith;
  none_deleted = refl;
  few = omega arith;
}

define_new_lem_example :
    (s : State) × (slot : Slot) × (define_own_non_indexed_property_slot engine 0x8000
        (at_start three 1)
        5
        nine
        fresh_slot
        true
      ≡ some (s, slot, ok true))
    × (get_own_non_indexed_property_slot 0x8000 s 5 fresh_slot
        ≡ some (
          s,
          true,
          set_woffset fresh_slot nine_stored.value nine_stored.attributes
              (some 0x8000)
              (get_slots_size heap (heap.structures 0)),
        ))
    × ((k : ℕ)
        → at s.object.slots k ≡ (
            if k == get_slots_size heap (heap.structures 0)
            then some nine_stored.value
            else if ltb k s.object.slots.size
            then some (if ltb k 0 then 0 else encode_empty_value)
            else none))
unfolding is_extensible is_used js.Slot.new is_slot_not_found is_not_found
    js.Structure.Transitions.get js.Property.Define.new has_table data_descriptor
    js.Attributes.external is_data is_value_absent first_word js.Property.new_raw
    js.Attributes.not_found js.Attributes.create_data js.Attributes.safe
    js.Attributes.is_writable_absent js.Attributes.set_data
    js.Attributes.fill_enumerable_and_configurable js.Attributes.set_writable
    js.Attributes.is_writable js.Attributes.set_enumerable js.Attributes.is_enumerable
    js.Attributes.set_configurable is_configurable
define_new_lem_example =
    define_new_lem engine 0x8000 (at_start three 1) 5 nine fresh_slot true heap (λ i. none)
      nine_stored (record { size_fits = omega arith; capacity_fits = omega arith }) refl refl refl
      refl refl heap-IsOpen fresh_slot
