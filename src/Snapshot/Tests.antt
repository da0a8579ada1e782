-- ===== src/Snapshot/Tests.antt =====
-- A snapshot of two cells: crates/starlight/src/gc/snapshot/serializer.rs.
use js.Common.{ℕ, ◌≡◌, ◌≢◌, refl, arith, true, false, none, some, List, [], ◌∷◌, ◌++◌}
use js.Common.{length}
use js.Value.{JsValue, is_object, is_pointer, is_empty, encode_object_value}
use js.Snapshot.{
  Symbol, key, index, Serializer, Deserializer, position, symbol_index, write_u32, write_u8,
  to_le_bytes, get_reference, get_u32, get_bytes, from_le_bytes,
}
use js.Snapshot.Cells.{of_raw, array_format, pair_format, option_format, pointer_format, u32_format}
use js.Snapshot.Classes.{ClassFields, DeletedFields, to_structure, structure_format, deleted_format}
use js.Snapshot.Values.{IsMoved, same_index, new_key}
use js.Snapshot.Images.{nowhere, somewhere, structure_moved, IsClassMoved}
use js.Snapshot.RoundTrip.{
  over, no_values, plain_value, object_value, structure_round_trip, array_round_trip,
}
use js.Snapshot.Deleted.{deleted_misread}

abbrev serializer : Serializer
serializer = record { reference_map = 1008 ∷ 2000 ∷ []; symbol_map = (200, 0) ∷ [] }

abbrev deserializer : Deserializer
deserializer = record { reader = []; references = 5008 ∷ 6000 ∷ []; symbols = key 300 ∷ [] }

-- A class with a transition for the symbol `name` to the class at `p`, which is its previous one too.
abbrev class : Symbol → ℕ → ℕ → ClassFields
class name p q = record {
  id = 7;
  transitions = record {
    var = to_structure (record { name = name; attrs = 7 }) p;
    enabled = true;
    unique = false;
    indexed = false;
  };
  table = some q;
  deleted = record { entry = none; size = 0 };
  added = (index 3, record { offset = 1; attrs = of_raw 7 });
  previous = some p;
  prototype = none;
  calculated_size = 2;
  transit_count = 1;
  has_been_flattened_before = false;
  cached_prototype_chain = none;
}

first : IsMoved serializer deserializer.references 1008 5008
unfolding position
first = record { i = 0; small = omega arith; old = refl; new = refl }

second : IsMoved serializer deserializer.references 2000 6000
unfolding position
second = record { i = 1; small = omega arith; old = refl; new = refl }

class-IsClassMoved :
    IsClassMoved serializer deserializer.references deserializer.symbols
      (class (key 200) 1008 2000)
      (class (key 300) 5008 6000)
unfolding symbol_index of_raw
class-IsClassMoved = record {
  var =
      structure_moved (new_key 200 0 (key 300) (omega arith) (omega arith) refl refl) (omega arith)
        refl first;
  enabled = refl;
  unique = refl;
  indexed = refl;
  table = somewhere second;
  entry = nowhere;
  size = refl;
  small_size = omega arith;
  name = same_index 3 (omega arith);
  added = refl;
  small_offset = omega arith;
  small_attrs = omega arith;
  previous = somewhere first;
  prototype = nowhere;
  calculated_size = refl;
  small_calculated = omega arith;
  transit_count = refl;
  small_count = omega arith;
  flattened = refl;
  chain = nowhere;
}

structure_round_trip_example :
    (bytes : List ℕ) × ((structure_format serializer deserializer).serialize
        (9 ∷ [])
        (class (key 200) 1008 2000)
      ≡ some ((9 ∷ []) ++ bytes))
    × ((structure_format serializer
            (over deserializer (((9 ∷ []) ++ bytes) ++ (8 ∷ [])))).deserialize_inplace
          1
        ≡ some (record (class (key 300) 5008 6000) { id = 0 }, length ((9 ∷ []) ++ bytes)))
structure_round_trip_example =
    structure_round_trip serializer deserializer (9 ∷ []) (8 ∷ []) (class (key 200) 1008 2000)
      (class (key 300) 5008 6000) class-IsClassMoved

-- An int32 and the object at 1008.
abbrev elements : List JsValue
elements = 0xfffe000000000005 ∷ 1008 ∷ []

array_round_trip_example :
    (bytes : List ℕ) × ((array_format serializer deserializer).serialize [] (4, elements)
      ≡ some bytes)
    × ((array_format serializer (over deserializer (bytes ++ []))).deserialize_inplace 0
        ≡ some ((4, 0xfffe000000000005 ∷ 5008 ∷ []), length bytes))
unfolding is_object is_pointer is_empty encode_object_value
array_round_trip_example =
    array_round_trip serializer deserializer [] [] 4 elements (0xfffe000000000005 ∷ 5008 ∷ [])
      (plain_value 0xfffe000000000005 (omega arith) refl
        (object_value 1008 5008 refl first no_values))
      (omega arith) (omega arith)

-- An entry without a previous one: the reader takes the tag for a part of the reference.
abbrev entry : DeletedFields
entry = record { prev = none; offset = 0 }

abbrev entry_bytes : List ℕ
entry_bytes = 0 ∷ 0 ∷ 0 ∷ 0 ∷ 0 ∷ []

-- Where the reader stands after it read the entry.
abbrev after_entry : ℕ
after_entry = 8

deleted_misread_example : after_entry ≢ length entry_bytes
unfolding deleted_format pair_format option_format pointer_format u32_format write_u32 write_u8
    to_le_bytes get_reference get_u32 get_bytes from_le_bytes
deleted_misread_example =
    deleted_misread serializer deserializer entry (record { prev = some 5008; offset = 0 }) []
      entry_bytes (0 ∷ 0 ∷ 0 ∷ []) after_entry refl refl
