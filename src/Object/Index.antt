-- ===== src/Object/Index.antt =====
-- The methods of `JsObject` on indexed properties: crates/starlight/src/vm/object.rs.
-- A call gets the structures, the accessor cells and the object, and returns them with its result.
use js.Common.{ℕ, ◌+◌, ◌%◌, ◌^◌, Bool, true, false, not, ◌&&◌, Option, none, some}
use js.Common.{ltb, leb, if◌then◌else◌, ◌>>=◌, map_get, map_insert, map_remove, map_is_empty}
use js.Attributes.{is_configurable, is_default, is_value_absent, object_data}
use js.Value.{JsValue, is_empty, is_object, encode_undefined_value, encode_empty_value}
use js.Property.{PropertyDescriptor, StoredSlot, Cells, first_word, new_raw}
use js.Property.Define
use js.Property.Define.{Reason, Outcome, done, throw, is_defined_property_accepted, merge}
use js.Slot.{Slot, set_1, set_from_slot}
use js.ArrayStorage.Memory.{Memory}
use js.ArrayStorage.Defs.{at, set_at, resize}
use js.Structure.Defs.{is_indexed}
use js.Structure.Transitions.{change_indexed_transition}
use js.Object.Elements.{
  IndexedElements, max_vector_size, dense, writable, make_dense, set_length, ensure_map,
  make_sparse,
}
use js.Object.Defs.{
  JsObject, State, Engine, rejected, length_not_writable, not_extensible, not_configurable,
  Completion, ok, type_error, refuse, is_extensible, is_absent_descriptor,
}

-- `GetOwnIndexedPropertySlotMethod`; `self` is the address of the object.
unfoldable pub get_own_indexed_property_slot : ℕ → JsObject → ℕ → Slot → Option (Bool × Slot)
get_own_indexed_property_slot self o index slot =
    let e = o.indexed in
    if dense e && ltb index e.vector.size
    then (do
      value ← at e.vector index
      some (
          if is_empty value
          then (false, slot)
          else (true, set_1 slot value object_data (some self))))
    else some (elim e.map [
      | none ↦ (false, slot)
      | some map ↦
          if ltb index e.length
          then (elim (map_get map index) [
            | none ↦ (false, slot)
            | some it ↦ (true, set_from_slot slot it (some self))
          ])
          else (false, slot)
    ])

-- The structure of an object that has indexed properties.
unfoldable pub mark_indexed : State → State
mark_indexed s =
    if not (is_indexed (s.heap.structures s.object.structure))
    then (let (heap, structure) = change_indexed_transition s.heap s.object.structure in
        record s { heap = heap; object = record s.object { structure = structure } })
    else s

abbrev pub with_indexed : State → IndexedElements → State
with_indexed s e = record s { object = record s.object { indexed = e } }

-- The value that goes to the vector, in `define_own_indexe_value_dense_internal`.
unfoldable pub put_dense : IndexedElements → ℕ → JsValue → Bool → Option IndexedElements
put_dense e index val absent =
    if not absent
    then (do
      vector ← set_at e.vector index val
      some (record e { non_gc = e.non_gc && not (is_object val); vector = vector }))
    else (do
      vector ← set_at e.vector index encode_undefined_value
      some (record e { vector = vector }))

-- `define_own_indexe_value_dense_internal`
unfoldable pub define_dense : Memory → State → ℕ → JsValue → Bool → Option State
define_dense fresh s index val absent = do
  s1 ←
      (if ltb index s.object.indexed.vector.size
        then (do e ← put_dense s.object.indexed index val absent; some (with_indexed s e))
        else (do
          let marked = mark_indexed s
          vector ← resize fresh marked.object.indexed.vector ((index + 1) % 2 ^ 32)
          some (with_indexed marked (record marked.object.indexed { vector = vector }))))
  e ← put_dense s1.object.indexed index val absent
  some (with_indexed s1 (if leb e.length index then set_length e ((index + 1) % 2 ^ 32) else e))

unfoldable pub delete_indexed_internal : JsObject → ℕ → Bool → Option (JsObject × Completion)
delete_indexed_internal o index throwable =
    let e = o.indexed in
    if leb e.length index
    then some (o, ok true)
    else if dense e && ltb index e.vector.size
    then (do
      vector ← set_at e.vector index encode_empty_value
      some (record o { indexed = record e { vector = vector } }, ok true))
    else if dense e && ltb index max_vector_size
    then some (o, ok true)
    else (elim e.map [
      | none ↦ some (o, ok true)
      | some map ↦ elim (map_get map index) [
        | none ↦ some (o, ok true)
        | some it ↦
            if not (is_configurable it.attributes.attributes)
            then some (o, refuse throwable not_configurable)
            else (let left = map_remove map index in
                let e' : IndexedElements = record e { map = some left } in
                some
                  (record o { indexed = if map_is_empty left then make_dense e' else e' }, ok true))
      ]
    ])

module _ (engine : Engine) where
  open engine use {host, place, fresh}

  -- From `ensure_map` on.
  unfoldable pub define_in_map : State → ℕ → PropertyDescriptor → Bool → Option (State × Completion)
  define_in_map s index desc throwable =
      let (e, map) = ensure_map s.object.indexed in
      let s' = with_indexed s e in
      let non_gc = e.non_gc && not (is_object (first_word desc)) in
      elim (map_get map index) [
        | some entry ↦ (do
          outcome ← is_defined_property_accepted host s.cells entry desc throwable
          elim outcome [
            | throw why ↦ some (s', type_error (rejected why))
            | done accepted returned ↦
                if accepted
                then (do
                  (cells, entry') ← merge place s.cells entry desc
                  some (
                    record (with_indexed s
                        (record e { non_gc = non_gc; map = some (map_insert map index entry') })) {
                          cells = cells;
                        },
                    ok returned,
                  ))
                else some (s', ok returned)
          ])
        | none ↦
            if not (is_extensible s.object) then some (s', refuse throwable not_extensible) else (do
              let marked = mark_indexed s'
              let long = (if leb e.length index then set_length e ((index + 1) % 2 ^ 32) else e)
              (cells, entry) ← js.Property.Define.new place s.cells desc
              some (
                record (with_indexed marked
                    (record long { non_gc = non_gc; map = some (map_insert map index entry) })) {
                      cells = cells;
                    },
                ok true,
              ))
      ]

  unfoldable pub define_own_indexed_property_internal :
      State → ℕ → PropertyDescriptor → Bool → Option (State × Completion)
  define_own_indexed_property_internal s index desc throwable =
      let e = s.object.indexed in
      if leb e.length index && not (writable e)
      then some (s, refuse throwable length_not_writable)
      else if dense e
      then (if is_default desc.attrs
          then (if ltb index max_vector_size
              then (do
                s' ← define_dense fresh s index (first_word desc) (is_value_absent desc.attrs)
                some (s', ok true))
              else define_in_map s index desc throwable)
          else (do
            present ←
                (if is_absent_descriptor desc && ltb index e.vector.size
                  then (do value ← at e.vector index; some (not (is_empty value)))
                  else some false)
            if present
                then (if not (is_value_absent desc.attrs)
                    then (do
                      vector ← set_at e.vector index (first_word desc)
                      some (
                        with_indexed s (record e {
                          non_gc = e.non_gc && not (is_object (first_word desc));
                          vector = vector;
                        }),
                        ok true,
                      ))
                    else some (s, ok true))
                else if ltb index max_vector_size
                then (do e' ← make_sparse e; define_in_map (with_indexed s e') index desc throwable)
                else define_in_map s index desc throwable))
      else define_in_map s index desc throwable
