-- ===== src/Snapshot/Classes.antt =====
-- The formats of hidden classes and of the elements of objects: crates/starlight/src/gc/snapshot/serializer.rs
-- and crates/starlight/src/gc/snapshot/deserializer.rs. The records here have the fields as they lie in the
-- heap, with the addresses of the cells that they lead to.
use js.Common.{ℕ, Bool, true, Option, none, some, List}
use js.Common.{◌==◌, if◌then◌else◌, ◌>>=◌}
use js.Structure.Tables.{MapEntry}
use js.Snapshot.{Symbol, Serializer, Deserializer, Format, write_u8, get_u8}
use js.Snapshot.Cells.{
  pair_format, via_format, u32_format, bool_format, pointer_format, symbol_format, option_format,
  map_entry_format,
}

pub record KeyFields : Type 0 where
  pub name : Symbol
  pub attrs : ℕ

-- `Transition`
pub data Link : Type 0 where
  unlinked : Link
  to_table : Option ℕ → Link
  to_structure : KeyFields → ℕ → Link

-- `TransitionsTable`
pub record LinkFields : Type 0 where
  pub var : Link
  pub enabled : Bool
  pub unique : Bool
  pub indexed : Bool

-- `DeletedEntryHolder`
pub record HolderFields : Type 0 where
  pub entry : Option ℕ
  pub size : ℕ

-- `DeletedEntry`
pub record DeletedFields : Type 0 where
  pub prev : Option ℕ
  pub offset : ℕ

-- `Structure`
pub record ClassFields : Type 0 where
  pub id : ℕ
  pub transitions : LinkFields
  pub table : Option ℕ
  pub deleted : HolderFields
  pub added : Symbol × MapEntry
  pub previous : Option ℕ
  pub prototype : Option ℕ
  pub calculated_size : ℕ
  pub transit_count : ℕ
  pub has_been_flattened_before : Bool
  pub cached_prototype_chain : Option ℕ

-- `IndexedElements`
pub record ElementsFields : Type 0 where
  pub vector : ℕ
  pub map : Option ℕ
  pub length : ℕ
  pub flags : ℕ
  pub non_gc : Bool

module _ (serializer : Serializer) (deserializer : Deserializer) where
  abbrev word : Format ℕ
  word = u32_format serializer deserializer

  abbrev flag : Format Bool
  flag = bool_format serializer deserializer

  abbrev pointer : Format ℕ
  pointer = pointer_format serializer deserializer

  abbrev optional : Format (Option ℕ)
  optional = option_format serializer deserializer pointer

  unfoldable pub key_format : Format KeyFields
  key_format =
      via_format (λ k. (k.name, k.attrs)) (λ a. record { name = a.0; attrs = a.1 })
        (pair_format (symbol_format serializer deserializer) word)

  -- A transition after its tag.
  unfoldable pub get_link : ℕ → ℕ → Option (Link × ℕ)
  get_link ty pc =
      let table = optional.deserialize_inplace pc >>= (λ a. some (to_table a.0, a.1)) in
      let pair =
        (pair_format key_format pointer).deserialize_inplace pc
        >>= (λ a. some (to_structure a.0.0 a.0.1, a.1)) in
      if ty == 0
      then some (unlinked, pc)
      else if ty == 1
      then table
      else if ty == 2
      then pair
      else none

  unfoldable pub write_link : List ℕ → Link → Option (List ℕ)
  write_link output unlinked = some (write_u8 output 0)
  write_link output (to_table table) = optional.serialize (write_u8 output 1) table
  write_link output (to_structure key structure) =
      (pair_format key_format pointer).serialize (write_u8 output 2) (key, structure)

  unfoldable pub link_format : Format Link
  link_format = record {
    serialize = write_link;
    deserialize_inplace = (λ pc. get_u8 deserializer pc >>= (λ a. get_link a.0 a.1));
  }

  unfoldable pub transitions_format : Format LinkFields
  transitions_format =
      via_format (λ t. (t.var, (t.enabled, (t.unique, t.indexed))))
        (λ a. record { var = a.0; enabled = a.1.0; unique = a.1.1.0; indexed = a.1.1.1 })
        (pair_format link_format (pair_format flag (pair_format flag flag)))

  unfoldable pub holder_format : Format HolderFields
  holder_format =
      via_format (λ h. (h.entry, h.size)) (λ a. record { entry = a.0; size = a.1 })
        (pair_format optional word)

  -- `serialize` writes `prev` as an `Option`, `deserialize_inplace` reads a reference.
  unfoldable pub deleted_format : Format DeletedFields
  deleted_format = record {
    serialize = (λ output e. (pair_format optional word).serialize output (e.prev, e.offset));
    deserialize_inplace = (λ pc.
        (pair_format pointer word).deserialize_inplace pc
        >>= (λ a. some (record { prev = some a.0.0; offset = a.0.1 }, a.1)));
  }

  -- The identifier of the class is not written.
  unfoldable pub structure_format : Format ClassFields
  structure_format =
      via_format
        (λ x. (
          x.transitions,
          (
            x.table,
            (
              x.deleted,
              (
                x.added,
                (
                  x.previous,
                  (
                    x.prototype,
                    (
                      x.calculated_size,
                      (x.transit_count, (x.has_been_flattened_before, x.cached_prototype_chain)),
                    ),
                  ),
                ),
              ),
            ),
          ),
        ))
        (λ a. record {
          id = 0;
          transitions = a.0;
          table = a.1.0;
          deleted = a.1.1.0;
          added = a.1.1.1.0;
          previous = a.1.1.1.1.0;
          prototype = a.1.1.1.1.1.0;
          calculated_size = a.1.1.1.1.1.1.0;
          transit_count = a.1.1.1.1.1.1.1.0;
          has_been_flattened_before = a.1.1.1.1.1.1.1.1.0;
          cached_prototype_chain = a.1.1.1.1.1.1.1.1.1;
        })
        (pair_format transitions_format (
          pair_format optional (
            pair_format holder_format (
              pair_format
                (pair_format (symbol_format serializer deserializer)
                  (map_entry_format serializer deserializer))
                (pair_format optional (
                  pair_format optional
                    (pair_format word (pair_format word (pair_format flag optional)))))))))

  -- `non_gc` is not written, and is set when the elements are read.
  unfoldable pub elements_format : Format ElementsFields
  elements_format =
      via_format (λ e. (e.vector, (e.map, (e.length, e.flags))))
        (λ a. record {
          vector = a.0;
          map = a.1.0;
          length = a.1.1.0;
          flags = a.1.1.1;
          non_gc = true;
        })
        (pair_format pointer (pair_format optional (pair_format word word)))
