-- ===== src/Object/World.antt =====
-- Objects that lead to each other by their prototypes, and `[[Put]]`: crates/starlight/src/vm/object.rs.
-- The loops over the prototypes run on fuel, and `none` is a failed assertion or the end of the fuel.
-- Of `Symbol`, the names that are not an index are numbers.
use js.Common.{ℕ, zero, suc, bit_or, Bool, true, false, not, ◌&&◌, Option, none, some}
use js.Common.{◌==◌, ltb, if◌then◌else◌, ◌>>=◌}
use js.Attributes.{
  is_accessor, is_data, is_writable, writable, enumerable, configurable, undef_writable,
  undef_enumerable, undef_configurable,
}
use js.Value.{JsValue, is_empty, is_pointer, encode_object_value}
use js.Property.{PropertyDescriptor, Accessor, Cells, accessor_cell, data_descriptor}
use js.Slot.{Slot, is_slot_not_found}
use js.Structure.Defs.{Heap, is_indexed}
use js.Object.Elements.{dense, max_vector_size}
use js.Object.Defs.{
  State, JsObject, Engine, Message, Completion, ok, type_error, put_failed, is_extensible,
}
use js.Object.Index.{
  get_own_indexed_property_slot, define_dense, define_own_indexed_property_internal,
}
use js.Object.Named.{
  get_own_non_indexed_property_slot, define_own_non_indexed_property_slot, is_own,
}

-- The whole heap: the objects by address.
pub record World : Type 0 where
  pub heap : Heap
  pub cells : Cells
  pub objects : ℕ → JsObject

-- `Symbol`: an index, or any other name.
pub data Name : Type 0 where
  index key : ℕ → Name

abbrev pub enter : World → ℕ → State
enter w p = record { heap = w.heap; cells = w.cells; object = w.objects p }

abbrev pub leave : World → ℕ → State → World
leave w p s = record {
  heap = s.heap;
  cells = s.cells;
  objects = λ q. if q == p then s.object else w.objects q;
}

unfoldable pub prototype : World → ℕ → Option ℕ
prototype w p = (w.heap.structures (w.objects p).structure).prototype

-- `get_own_property_slot`
unfoldable pub get_own_property_slot : World → ℕ → Name → Slot → Option (World × Bool × Slot)
get_own_property_slot w p (index i) slot = do
  (found, slot') ← get_own_indexed_property_slot p (w.objects p) i slot
  some (w, found, slot')
get_own_property_slot w p (key name) slot = do
  (s, found, slot') ← get_own_non_indexed_property_slot p (enter w p) name slot
  some (leave w p s, found, slot')

-- `GetNonIndexedPropertySlotMethod` and `GetIndexedPropertySlotMethod`, which `get_property_slot` calls.
unfoldable pub get_property_slot : ℕ → World → ℕ → Name → Slot → Option (World × Bool × Slot)
get_property_slot zero w p name slot = none
get_property_slot (suc fuel) w p name slot = do
  (w', found, slot') ← get_own_property_slot w p name slot
  if found then some (w', true, slot') else (elim (prototype w' p) [
    | none ↦ some (w', false, slot')
    | some proto ↦ get_property_slot fuel w' proto name slot'
  ])

unfoldable pub has_indexed_property : ℕ → World → ℕ → Option Bool
has_indexed_property zero w p = none
has_indexed_property (suc fuel) w p =
    let further : Option Bool = elim (prototype w p) [
      | none ↦ some false
      | some proto ↦ has_indexed_property fuel w proto
    ] in
    if is_indexed (w.heap.structures (w.objects p).structure) then some true else further

-- A setter that may be called: `is_pointer` and not the empty value.
unfoldable pub has_setter : Accessor → Bool
has_setter ac = is_pointer ac.setter && not (is_empty ac.setter)

-- `can_put_non_indexed` and `can_put_indexed`, which `can_put` calls. The object is the one at `p`.
unfoldable pub can_put : ℕ → World → ℕ → Name → Slot → Option (World × Bool × Slot)
can_put fuel w p name slot = do
  (w', found, slot') ← get_property_slot fuel w p name slot
  if not found
      then some (w', is_extensible (w'.objects p), slot')
      else if is_accessor slot'.parent.attributes.attributes
      then (do ac ← accessor_cell w'.cells slot'.parent; some (w', has_setter ac, slot'))
      else some (w', is_writable slot'.parent.attributes.attributes, slot')

-- The first test of `PutIndexedSlotMethod`.
unfoldable pub is_fast : ℕ → World → ℕ → ℕ → Option Bool
is_fast fuel w p i =
    if ltb i max_vector_size && dense (w.objects p).indexed
    then (elim (prototype w p) [
      | none ↦ some true
      | some proto ↦ has_indexed_property fuel w proto
    ])
    else some false

-- `Result<(), JsValue>`
pub data PutResult : Type 0 where
  stored : PutResult
  failed : Message → PutResult
  thrown : JsValue → PutResult

abbrev pub as_result : Completion → PutResult
as_result (ok b) = stored
as_result (type_error why) = failed why

module _ (engine : Engine) where
  open engine use {fresh}

  unfoldable pub define_own_property_slot :
      World → ℕ → Name → PropertyDescriptor → Slot → Bool → Option (World × Slot × Completion)
  define_own_property_slot w p (index i) desc slot throwable = do
    (s, c) ← define_own_indexed_property_internal engine (enter w p) i desc throwable
    some (leave w p s, slot, c)
  define_own_property_slot w p (key name) desc slot throwable = do
    (s, slot', c) ←
        define_own_non_indexed_property_slot engine p (enter w p) name desc slot throwable
    some (leave w p s, slot', c)

  -- `call w f this arg callee`: the call of the function `f`, which runs user code; the exception that it
  -- throws.
  module _
      (call : World → JsValue → JsValue → JsValue → JsValue → Option (World × Option JsValue)) where
    unfoldable pub call_setter : World → ℕ → Name → Accessor → JsValue → Option (World × PutResult)
    call_setter w p name ac val = do
      (w', exception) ←
          call w ac.setter (encode_object_value p) val
            (elim name [ index i ↦ ac.setter | key k ↦ encode_object_value p ])
      some (w', (elim exception [ none ↦ stored | some e ↦ thrown e ]))

    -- `PutNonIndexedSlotMethod`, and `PutIndexedSlotMethod` after its first test.
    unfoldable pub put_checked :
        ℕ → World → ℕ → Name → JsValue → Slot → Bool → Option (World × PutResult)
    put_checked fuel w p name val slot throwable = do
      (w1, allowed, slot1) ← can_put fuel w p name slot
      if not allowed
          then some (w1, (if throwable then failed put_failed else stored))
          else if not (is_slot_not_found slot1)
              && (is_own p slot1 && is_data slot1.parent.attributes.attributes)
          then (do
            (w2, _, c) ←
                define_own_property_slot w1 p name
                  (data_descriptor val
                    (bit_or (bit_or undef_enumerable undef_configurable) undef_writable))
                  slot1 throwable
            some (w2, as_result c))
          else if not (is_slot_not_found slot1) && is_accessor slot1.parent.attributes.attributes
          then (do ac ← accessor_cell w1.cells slot1.parent; call_setter w1 p name ac val)
          else (do
            (w2, _, c) ←
                define_own_property_slot w1 p name
                  (data_descriptor val (bit_or (bit_or writable configurable) enumerable)) slot1
                  throwable
            some (w2, as_result c))

    -- `put_slot`
    unfoldable pub put_slot :
        ℕ → World → ℕ → Name → JsValue → Slot → Bool → Option (World × PutResult)
    put_slot fuel w p (key name) val slot throwable =
        put_checked fuel w p (key name) val slot throwable
    put_slot fuel w p (index i) val slot throwable = do
      fast ← is_fast fuel w p i
      if fast
          then (do s ← define_dense fresh (enter w p) i val false; some (leave w p s, stored))
          else put_checked fuel w p (index i) val slot throwable
