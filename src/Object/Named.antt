-- ===== src/Object/Named.antt =====
-- Named properties of an object, which its structure gives an offset in `slots`:
-- crates/starlight/src/vm/object.rs. `self` is the address of the object. `none` is a failed assertion.
use js.Common.{ℕ, ◌%◌, ◌^◌, Bool, true, false, not, ◌&&◌, Option, none, some}
use js.Common.{◌==◌, if◌then◌else◌, ◌>>=◌}
use js.Attributes.{raw, is_configurable}
use js.Value.{encode_empty_value}
use js.Property.{PropertyDescriptor, StoredSlot}
use js.Property.Define
use js.Property.Define.{Outcome, done, throw, is_defined_property_accepted, merge}
use js.Slot
use js.Slot.{
  Slot, PutResultType, new_property, replace, is_used, is_slot_not_found, has_offset, set_woffset,
  mark_put_result,
}
use js.ArrayStorage.Defs.{at, set_at, resize}
use js.Structure.Tables.{Symbol, is_entry_not_found}
use js.Structure.Defs.{storage_capacity}
use js.Structure.Transitions
use js.Structure.Transitions.{
  add_property_transition, change_attributes_transition, delete_property_transition,
}
use js.Object.Defs.{
  State, Engine, Completion, ok, type_error, rejected, refuse, not_extensible, not_configurable,
  is_extensible,
}

-- `GetOwnNonIndexedPropertySlotMethod`
unfoldable pub get_own_non_indexed_property_slot :
    ℕ → State → Symbol → Slot → Option (State × Bool × Slot)
get_own_non_indexed_property_slot self s name slot = do
  (heap, entry) ← js.Structure.Transitions.get s.heap s.object.structure name
  let s' = record s { heap = heap }
  if not (is_entry_not_found entry)
      then (do
        value ← at s.object.slots entry.offset
        some (s', true, set_woffset slot value entry.attrs (some self) entry.offset))
      else some (s', false, slot)

-- `base` is the object itself.
unfoldable pub is_own : ℕ → Slot → Bool
is_own self slot = elim slot.base [ none ↦ false | some base ↦ base == self ]

module _ (engine : Engine) (self : ℕ) where
  open engine use {host, place, alive, fresh}

  -- The new structure, room for its properties, and the value at the offset of the new one.
  unfoldable pub store_new : State → Symbol → StoredSlot → Option (State × ℕ)
  store_new s name stored = do
    (heap, structure, offset) ←
        add_property_transition alive s.heap s.object.structure name stored.attributes
    slots ← resize fresh s.object.slots (storage_capacity heap (heap.structures structure) % 2 ^ 32)
    slots' ← set_at slots offset stored.value
    some (
      record s { heap = heap; object = record s.object { structure = structure; slots = slots' } },
      offset,
    )

  -- The accepted definition of a property that has an offset.
  unfoldable pub store_merged : State → Symbol → PropertyDescriptor → Slot → Option (State × Slot)
  store_merged s name desc slot = do
    (cells, parent) ← merge place s.cells slot.parent desc
    (heap, structure) ←
        (if not (raw slot.parent.attributes == raw parent.attributes)
          then change_attributes_transition s.heap s.object.structure name parent.attributes
          else some (s.heap, s.object.structure))
    slots ← set_at s.object.slots slot.offset parent.value
    some (
      record {
        heap = heap;
        cells = cells;
        object = record s.object { structure = structure; slots = slots };
      },
      mark_put_result (record slot { parent = parent }) replace slot.offset,
    )

  -- The accepted definition of a property that has none.
  unfoldable pub store_placed : State → Symbol → PropertyDescriptor → Slot → Option (State × Slot)
  store_placed s name desc slot = do
    (cells, parent) ← merge place s.cells slot.parent desc
    (s', offset) ← store_new (record s { cells = cells }) name parent
    some (s', mark_put_result (record slot { parent = parent }) new_property offset)

  unfoldable pub define_present :
      State → Symbol → PropertyDescriptor → Slot → Bool → Option (State × Slot × Completion)
  define_present s name desc slot throwable = do
    outcome ← is_defined_property_accepted host s.cells slot.parent desc throwable
    elim outcome [
      | throw why ↦ some (s, slot, type_error (rejected why))
      | done accepted returned ↦
          if accepted
          then (do
            (s', slot') ←
                (if has_offset slot
                  then store_merged s name desc slot
                  else store_placed s name desc slot)
            some (s', slot', ok returned))
          else some (s, slot, ok returned)
    ]

  unfoldable pub define_absent :
      State → Symbol → PropertyDescriptor → Slot → Bool → Option (State × Slot × Completion)
  define_absent s name desc slot throwable =
      if not (is_extensible s.object) then some (s, slot, refuse throwable not_extensible) else (do
        (cells, stored) ← js.Property.Define.new place s.cells desc
        (s', offset) ← store_new (record s { cells = cells }) name stored
        some (s', record (mark_put_result slot new_property offset) { base = some self }, ok true))

  -- `DefineOwnNonIndexedPropertySlotMethod`
  unfoldable pub define_own_non_indexed_property_slot :
      State → Symbol → PropertyDescriptor → Slot → Bool → Option (State × Slot × Completion)
  define_own_non_indexed_property_slot s name desc slot throwable = do
    (s1, slot1) ←
        (if not (is_used slot)
          then (do
            (s1, _, slot1) ← get_own_non_indexed_property_slot self s name slot
            some (s1, slot1))
          else some (s, slot))
    if not (is_slot_not_found slot1) && is_own self slot1
        then define_present s1 name desc slot1 throwable
        else define_absent s1 name desc slot1 throwable

-- `DeleteNonIndexedMethod`
unfoldable pub delete_non_indexed : ℕ → State → Symbol → Bool → Option (State × Completion)
delete_non_indexed self s name throwable = do
  (s1, found, slot) ← get_own_non_indexed_property_slot self s name js.Slot.new
  if not found
      then some (s1, ok true)
      else if not (is_configurable slot.parent.attributes.attributes)
      then some (s1, refuse throwable not_configurable)
      else (do
        (heap, offset) ←
            (if has_offset slot then some (s1.heap, some slot.offset) else (do
              (heap, entry) ← js.Structure.Transitions.get s1.heap s1.object.structure name
              some (heap, (if is_entry_not_found entry then none else some entry.offset))))
        elim offset [
          | none ↦ some (record s1 { heap = heap }, ok true)
          | some n ↦ (do
            (heap', structure) ← delete_property_transition heap s1.object.structure name
            slots ← set_at s1.object.slots n encode_empty_value
            some (
              record s1 {
                heap = heap';
                object = record s1.object { structure = structure; slots = slots };
              },
              ok true,
            ))
        ])
