-- ===== src/Object/Grow.antt =====
-- A new named property of an object: `DefineOwnNonIndexedPropertySlotMethod` over the structures and the
-- slots (crates/starlight/src/vm/object.rs).
use js.Common.{
  ℕ, ◌+◌, ◌%◌, ◌^◌, ◌<◌, ◌≤◌, ◌≡◌, ◌≢◌, ◌∙◌, arith, refl, Bool, true, false, none, some,
}
use js.Common.{ltb, ◌==◌, if◌then◌else◌, Option-cases, inl, inr}
use js.Attributes.{AttrSafe, raw, is_stored, is_not_found}
use js.Value.{JsValue, encode_empty_value}
use js.Property.{PropertyDescriptor, StoredSlot, Cells}
use js.Property.Define
use js.Property.Build.{new_stored}
use js.Object.Put.{stored_found}
use js.Attributes
use js.Slot.{new_property, mark_put_result, Slot, set_woffset, is_used, is_slot_not_found}
use js.ArrayStorage.Memory.{Memory, put, load, store}
use js.ArrayStorage.Defs.{ArrayStorage, at, set_at, resize, max_elements}
use js.ArrayStorage.Shift
use js.ArrayStorage.Shift.{shifted, shift_lem}
use js.ArrayStorage.Valid.{shifted-IsValid, shifted-size, resized_words}
use js.Structure.Tables.{Symbol, entry_not_found, is_entry_not_found, find, no_deleted}
use js.Structure.Defs.{
  Heap, dummy_symbol, is_unique, get_slots_size, storage_capacity, new_structure, ctor,
  allocate_structure,
}
use js.Structure.Transitions
use js.Structure.Transitions.{add_shared, take_offset, add_property_transition}
use js.Structure.Lookup.{get-add_property_transition}
use js.Structure.Capacity.{storage_capacity_lem}
use js.Object.Defs.{State, Engine, ok, is_extensible}
use js.Object.Named.{
  get_own_non_indexed_property_slot, store_new, define_absent, define_own_non_indexed_property_slot,
}

-- A shared structure whose transitions do not lead to the name yet, with few properties.
pub record IsOpen (alive : ℕ → Bool) (h : Heap) (p : ℕ) (name : Symbol) (attrs : AttrSafe)
    : Type 0 where
  pub allocated : p < h.next_structure
  pub named : name ≢ dummy_symbol
  pub shared : is_unique (h.structures p) ≡ false
  pub no_transition : find alive (h.structures p).transitions name attrs ≡ none
  pub few_transitions : (h.structures p).transit_count ≤ 64
  pub none_deleted : no_deleted (h.structures p).deleted ≡ true
  pub few : get_slots_size h (h.structures p) < 2 ^ 27

shared_returns :
    (alive : ℕ → Bool) (h : Heap) (p : ℕ) (name : Symbol) (attrs : AttrSafe)
    → IsOpen alive h p name attrs
    → add_shared h p name attrs ≢ none
unfolding add_shared new_structure ctor allocate_structure take_offset get_slots_size
shared_returns alive h p name attrs o e =
    let few = o.few in
    let none_deleted = o.none_deleted in let allocated = o.allocated in ground arith

shared_size :
    (alive : ℕ → Bool) (h : Heap) (p : ℕ) (name : Symbol) (attrs : AttrSafe) (h' : Heap) (q n : ℕ)
    → IsOpen alive h p name attrs
    → add_shared h p name attrs ≡ some (h', q, n)
    → (n ≡ get_slots_size h (h.structures p))
      × (get_slots_size h' (h'.structures q) ≡ get_slots_size h (h.structures p) + 1)
unfolding add_shared new_structure ctor allocate_structure take_offset get_slots_size
shared_size alive h p name attrs h' q n o e =
    let few = o.few in
    let none_deleted = o.none_deleted in let allocated = o.allocated in (ground arith, ground arith)

-- The addition of a property to such a structure gives it the next offset.
added_lem :
    (alive : ℕ → Bool) (h : Heap) (p : ℕ) (name : Symbol) (attrs : AttrSafe)
    → IsOpen alive h p name attrs
    → (h' : Heap) × (q : ℕ) × (add_property_transition alive h p name attrs
        ≡ some (h', q, get_slots_size h (h.structures p)))
      × (get_slots_size h' (h'.structures q) ≡ get_slots_size h (h.structures p) + 1)
unfolding add_property_transition
added_lem alive h p name attrs o =
    let shared = o.shared in
    let new = o.no_transition in
    let few = o.few_transitions in
    elim (Option-cases (add_shared h p name attrs)) [
      | inl n ↦ absurd (shared_returns alive h p name attrs o n)
      | inr ((h', q, n), e) ↦
          let (same, grown) = shared_size alive h p name attrs h' q n o e in
          (h', q, ground arith, grown)
    ]

-- The slots after the value was put at `n`, where there is room for `capacity` of them.
abbrev grown : Memory → ArrayStorage → ℕ → ℕ → JsValue → ArrayStorage
grown fresh slots capacity n x =
    let wide = shifted fresh slots 0 0 capacity in
    record wide { data_words = put wide.data_words n x }

at-grown :
    (fresh : Memory) (slots : ArrayStorage) (capacity n : ℕ) (x : JsValue)
    → js.ArrayStorage.Shift.IsValid slots
    → n < capacity
    → capacity ≤ max_elements
    → (k : ℕ)
    → at (grown fresh slots capacity n x) k ≡ (
        if k == n
        then some x
        else if ltb k (grown fresh slots capacity n x).size
        then some (if ltb k slots.size then slots.data_words k else encode_empty_value)
        else none)
unfolding at load
at-grown fresh slots capacity n x v room fits k =
    let wide = shifted-size fresh slots v 0 0 capacity in
    let ok' = shifted-IsValid fresh slots v 0 0 capacity fits in
    ground (arith, ok'.size_fits, resized_words fresh slots v capacity k)

module _ (engine : Engine) (self : ℕ) (s : State) (name : Symbol) (x : StoredSlot)
    (o : IsOpen engine.alive s.heap s.object.structure name x.attributes)
    (v : js.ArrayStorage.Shift.IsValid s.object.slots) where
  store_new_lem :
      (h' : Heap) × (q capacity : ℕ) × (store_new engine self s name x
        ≡ some (
          record s {
            heap = h';
            object = record s.object {
              structure = q;
              slots =
                  grown engine.fresh s.object.slots capacity
                    (get_slots_size s.heap (s.heap.structures s.object.structure))
                    x.value;
            };
          },
          get_slots_size s.heap (s.heap.structures s.object.structure),
        ))
      × (get_slots_size s.heap (s.heap.structures s.object.structure) < capacity)
      × (capacity ≤ max_elements)
      × (js.Structure.Transitions.get h' q name
          ≡ some (
            h',
            record {
              offset = get_slots_size s.heap (s.heap.structures s.object.structure);
              attrs = x.attributes;
            },
          ))
  unfolding store_new resize set_at store
  store_new_lem =
      let p = s.object.structure in
      let n = get_slots_size s.heap (s.heap.structures p) in
      let few = o.few in
      let (h', q, added, size') = added_lem engine.alive s.heap p name x.attributes o in
      let (enough, least, most) = storage_capacity_lem h' (h'.structures q) (omega arith) in
      let capacity = storage_capacity h' (h'.structures q) in
      let fits : capacity ≤ max_elements = omega arith in
      let whole : capacity % 2 ^ 32 ≡ capacity = omega arith in
      let moved =
        shift_lem engine.fresh s.object.slots v 0 0 capacity (omega arith) (omega arith)
          (omega arith) fits in
      let ok' = shifted-IsValid engine.fresh s.object.slots v 0 0 capacity fits in
      let wide = shifted-size engine.fresh s.object.slots v 0 0 capacity in
      let room : ltb n (shifted engine.fresh s.object.slots 0 0 capacity).size ≡ true =
        ground arith in
      let place : ltb n (shifted engine.fresh s.object.slots 0 0 capacity).capacity ≡ true =
        ground (arith, ok'.size_fits) in
      let found =
        get-add_property_transition engine.alive s.heap p name x.attributes h' q n o.allocated
          o.named o.no_transition added in
      (h', q, capacity, rw (added, whole, moved, room, place) refl, omega arith, fits, found)

module _ (engine : Engine) (self : ℕ) (s : State) (name : Symbol) (desc : PropertyDescriptor)
    (slot : Slot) (throwable : Bool) (h1 : Heap) (cells : Cells) (x : StoredSlot)
    (v : js.ArrayStorage.Shift.IsValid s.object.slots) (extensible : is_extensible s.object ≡ true)
    (unused : is_used slot ≡ false) (blank : is_slot_not_found slot ≡ true)
    (looked : js.Structure.Transitions.get s.heap s.object.structure name
      ≡ some (h1, entry_not_found))
    (made : js.Property.Define.new engine.place s.cells desc ≡ some (cells, x))
    (o : IsOpen engine.alive h1 s.object.structure name x.attributes) where
  -- The definition of a name that an extensible object has not, by a descriptor from which a property can be
  -- made, succeeds. Then the object has the property with its value and attributes, and every slot that the
  -- object had keeps its value. The structure is shared, has no deleted property and less than 2 ^ 27
  -- properties, and has no transition for the property yet.
  pub define_new_lem :
      (slot' : Slot)
      → (s' : State) × (made_slot : Slot) × (define_own_non_indexed_property_slot engine self s name
            desc slot throwable
          ≡ some (s', made_slot, ok true))
        × (get_own_non_indexed_property_slot self s' name slot'
            ≡ some (
              s',
              true,
              set_woffset slot' x.value x.attributes
                  (some self)
                  (get_slots_size h1 (h1.structures s.object.structure)),
            ))
        × ((k : ℕ)
            → at s'.object.slots k ≡ (
                if k == get_slots_size h1 (h1.structures s.object.structure)
                then some x.value
                else if ltb k s'.object.slots.size
                then some (
                    if ltb k s.object.slots.size
                    then s.object.slots.data_words k
                    else encode_empty_value)
                else none))
  unfolding define_own_non_indexed_property_slot define_absent get_own_non_indexed_property_slot
  define_new_lem slot' =
      let s1 = record s { heap = h1; cells = cells } in
      let (h', q, capacity, runs, room, fits, found) = store_new_lem engine self s1 name x o v in
      let n = get_slots_size h1 (h1.structures s.object.structure) in
      let slots = grown engine.fresh s.object.slots capacity n x.value in
      let s' = record s1 { heap = h'; object = record s.object { structure = q; slots = slots } } in
      let none_there : is_entry_not_found entry_not_found ≡ true =
        unfold is_entry_not_found is_not_found entry_not_found js.Attributes.not_found in refl in
      let there : is_entry_not_found (record { offset = n; attrs = x.attributes }) ≡ false =
        unfold is_entry_not_found in
        stored_found x (new_stored engine.place s.cells cells x desc made) in
      let read = at-grown engine.fresh s.object.slots capacity n x.value v room fits in
      let value_at : at slots n ≡ some x.value = read n ∙ ground arith in
      (
        s',
        record (mark_put_result slot new_property n) { base = some self },
        rw (unused, looked, none_there, blank, extensible, made, runs) refl,
        rw (found, there, value_at) refl,
        λ k. read k,
      )
