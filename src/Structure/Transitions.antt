-- ===== src/Structure/Transitions.antt =====
-- The methods of `GcPointer<Structure>` (crates/starlight/src/vm/structure.rs): lookup and transitions.
use js.Common.{map_get, map_insert, map_remove}
use js.Common.{
  ℕ, zero, suc, ◌+◌, ◌%◌, ◌^◌, Bool, true, false, not, ◌&&◌, Option, none, some, List, [], ◌∷◌,
}
use js.Common.{ltb, ◌==◌, if◌then◌else◌, ◌>>=◌, ◌>>◌, assert}
use js.Attributes.{AttrSafe}
use js.Structure.Tables.{
  Symbol, MapEntry, entry_not_found, TargetTable, insert, find, push, pop, no_deleted, set_indexed,
}
use js.Structure.Defs.{
  Structure, Heap, allocate_hash_map, write_structure, write_table, has_table, is_adding_map,
  is_unique, get_slots_size, new_unique, new_structure, collect,
}

-- What the loop of `allocate_table` finds from a structure on: the properties that the structures
-- add, the nearest first, and the table at the end. `none` when the fuel does not last.
unfoldable pub walk : Heap → ℕ → Option ℕ → Option (List (Symbol × MapEntry) × TargetTable)
walk h fuel none = some ([], [])
walk h zero (some p) = none
walk h (suc fuel) (some p) =
    let cur = h.structures p in
    let further = walk h fuel cur.previous in
    elim cur.table [
      | some t ↦ some ([], h.tables t)
      | none ↦ (do
        found ← further
        some (
          if is_adding_map cur then (cur.added_name, cur.added_entry) ∷ found.0 else found.0,
          found.1,
        ))
    ]

-- A new table for the structure at `p`, which ends its chain.
unfoldable pub give_table : Heap → ℕ → TargetTable → Heap
give_table h p table =
    let (h', t) = allocate_hash_map h table in
    write_structure h' p (record (h.structures p) { table = some t; previous = none })

-- The chain of a structure that has no table yet: an address is greater than the ones it leads to, so
-- the address is fuel enough.
unfoldable pub allocate_table : Heap → ℕ → Option Heap
allocate_table h p = do
  let self = h.structures p
  found ← walk h p self.previous
  let stack =
      (if is_adding_map self then (self.added_name, self.added_entry) ∷ found.0 else found.0)
  some (give_table h p (collect stack found.1))

unfoldable pub allocate_table_if_needed : Heap → ℕ → Option (Heap × Bool)
allocate_table_if_needed h p =
    let self = h.structures p in
    if has_table self then some (h, true) else (elim self.previous [
      | none ↦ some (h, false)
      | some q ↦ (do h' ← allocate_table h p; some (h', true))
    ])

-- The table of a structure that has one.
unfoldable pub own_table : Heap → ℕ → Option TargetTable
own_table h p = do t ← (h.structures p).table; some (h.tables t)

unfoldable pub entry_in : Heap → ℕ → Symbol → Option MapEntry
entry_in h p name = do
  t ← own_table h p
  some (elim (map_get t name) [ none ↦ entry_not_found | some e ↦ e ])

unfoldable pub get : Heap → ℕ → Symbol → Option (Heap × MapEntry)
get h p name =
    let self = h.structures p in
    if has_table self then (do e ← entry_in h p name; some (h, e)) else (elim self.previous [
      | none ↦ some (h, entry_not_found)
      | some q ↦
          (if is_adding_map self && self.added_name == name
            then some (h, self.added_entry)
            else (do h' ← allocate_table h p; e ← entry_in h' p name; some (h', e)))
    ])

unfoldable pub delete : Heap → ℕ → Symbol → Option Heap
delete h p name = do
  let self = h.structures p
  t ← self.table
  it ← map_get (h.tables t) name
  some (
      write_structure (write_table h t (map_remove (h.tables t) name)) p
        (record self { deleted = push self.deleted it.offset }))

unfoldable pub change_attributes : Heap → ℕ → Symbol → AttrSafe → Option Heap
change_attributes h p name attributes = do
  t ← (h.structures p).table
  it ← map_get (h.tables t) name
  some (write_table h t (map_insert (h.tables t) name (record it { attrs = attributes })))

unfoldable pub ensure_table : Heap → ℕ → Option Heap
ensure_table h p = if has_table (h.structures p) then some h else allocate_table h p

unfoldable pub delete_property_transition : Heap → ℕ → Symbol → Option (Heap × ℕ)
delete_property_transition h p name = do
  let (h1, map) = new_unique h p
  h2 ← ensure_table h1 map
  h3 ← delete h2 map name
  some (h3, map)

unfoldable pub change_attributes_transition : Heap → ℕ → Symbol → AttrSafe → Option (Heap × ℕ)
change_attributes_transition h p name attributes = do
  let (h1, map) = new_unique h p
  h2 ← ensure_table h1 map
  h3 ← change_attributes h2 map name attributes
  some (h3, map)

-- `self`, or a new structure if transitions from a unique structure are unique too.
unfoldable pub unique_map : Heap → ℕ → Heap × ℕ
unique_map h p = if (h.structures p).transitions.unique then new_unique h p else (h, p)

-- The call on a structure that is not unique is answered by the same call on a new unique one.
unfoldable pub change_indexed_transition : Heap → ℕ → Heap × ℕ
change_indexed_transition h p =
    let (h', p') = (if is_unique (h.structures p) then (h, p) else new_unique h p) in
    let (h'', map) = unique_map h' p' in
    let s = h''.structures map in
    (write_structure h'' map (record s { transitions = set_indexed s.transitions true }), map)

unfoldable pub change_prototype_transition : Heap → ℕ → Option ℕ → Heap × ℕ
change_prototype_transition h p prototype =
    let (h', p') = (if is_unique (h.structures p) then (h, p) else new_unique h p) in
    let (h'', map) = unique_map h' p' in
    let s = h''.structures map in
    (write_structure h'' map (record s { prototype = prototype }), map)

unfoldable pub change_extensible_transition : Heap → ℕ → Heap × ℕ
change_extensible_transition h p = new_unique h p

-- The offset of a new property, and the structure without it among its deleted ones: an offset that a
-- deleted property left, or else `otherwise`.
unfoldable pub take_offset : Structure → ℕ → Option (ℕ × Structure)
take_offset s otherwise =
    if not (no_deleted s.deleted)
    then (do (offset, deleted) ← pop s.deleted; some (offset, record s { deleted = deleted }))
    else some (otherwise % 2 ^ 32, s)

-- The part of `add_property_transition` for a unique structure: the heap, the structure that has the
-- property, and its offset.
unfoldable pub add_unique : Heap → ℕ → Symbol → AttrSafe → Option (Heap × ℕ × ℕ)
add_unique h p name attributes = do
  h1 ← ensure_table h p
  let (h2, map) = unique_map h1 p
  taken ← take_offset (h2.structures map) (get_slots_size h2 (h2.structures p))
  let h3 = write_structure h2 map taken.1
  t ← taken.1.table
  some (
    write_table h3 t
        (map_insert (h3.tables t) name (record { offset = taken.0; attrs = attributes })),
    map,
    taken.0,
  )

-- The part that makes a new structure after the one at `p`.
unfoldable pub add_shared : Heap → ℕ → Symbol → AttrSafe → Option (Heap × ℕ × ℕ)
add_shared h p name attributes = do
  let self = h.structures p
  let (h1, map) = new_structure h p
  let s = h1.structures map
  let slots = get_slots_size h1 self % 2 ^ 32
  taken ← take_offset s slots
  let size = (if no_deleted s.deleted then (slots + 1) % 2 ^ 32 else slots)
  let s' : Structure = record taken.1 {
    added_name = name;
    added_entry = record { offset = taken.0; attrs = attributes };
    calculated_size = size;
    transit_count = (taken.1.transit_count + 1) % 2 ^ 32;
  }
  let h2 = write_structure h1 map s'
  let h3 =
      write_structure h2 p
        (record self { transitions = insert self.transitions name attributes map })
  assert (ltb taken.0 (get_slots_size h3 s' % 2 ^ 32))
  some (h3, map, taken.0)

module _ (alive : ℕ → Bool) where
  unfoldable pub add_property_transition : Heap → ℕ → Symbol → AttrSafe → Option (Heap × ℕ × ℕ)
  add_property_transition h p name attributes =
      let self = h.structures p in
      if is_unique self
      then add_unique h p name attributes
      else (elim (find alive self.transitions name attributes) [
        | some map ↦ some (h, map, (h.structures map).added_entry.offset)
        | none ↦
            (if ltb 64 self.transit_count
              then (let (h1, map) = new_unique h p in add_unique h1 map name attributes)
              else add_shared h p name attributes)
      ])
