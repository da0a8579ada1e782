-- ===== src/Structure/Defs.antt =====
-- `Structure` and its constructors (crates/starlight/src/vm/structure.rs).
-- The heap is written out, since structures point to each other and may share a table: an address is
-- the number of an allocation. `as u32` wraps.
use js.Common.{map_insert}
use js.Common.{
  ℕ, ◌+◌, ◌-◌, ◌/◌, ◌%◌, ◌^◌, bit_or, Bool, true, false, not, ◌&&◌, ◌||◌, Option, none, some, List,
  [], ◌∷◌,
}
use js.Common.{length, ltb, ◌==◌, if◌then◌else◌}
use js.Structure.Tables.{
  Symbol, MapEntry, entry_not_found, TargetTable, TransitionsTable, new_transitions,
  enable_unique_transition, DeletedEntryHolder,
}

abbrev pub dummy_symbol : Symbol
dummy_symbol = 0

pub record Structure : Type 0 where
  pub id : ℕ
  pub transitions : TransitionsTable
  pub table : Option ℕ
  pub deleted : DeletedEntryHolder
  pub added_name : Symbol
  pub added_entry : MapEntry
  pub previous : Option ℕ
  pub prototype : Option ℕ
  pub calculated_size : ℕ
  pub transit_count : ℕ
  pub has_been_flattened_before : Bool
  pub cached_prototype_chain : Option ℕ

pub record Heap : Type 0 where
  pub structures : ℕ → Structure
  pub next_structure : ℕ
  pub tables : ℕ → TargetTable
  pub next_table : ℕ

-- `heap.allocate(structure)`: the heap, and the address in it.
unfoldable pub allocate_structure : Heap → Structure → Heap × ℕ
allocate_structure h s = (
  record h {
    structures = λ i. if i == h.next_structure then s else h.structures i;
    next_structure = h.next_structure + 1;
  },
  h.next_structure,
)

unfoldable pub allocate_hash_map : Heap → TargetTable → Heap × ℕ
allocate_hash_map h t = (
  record h {
    tables = λ i. if i == h.next_table then t else h.tables i;
    next_table = h.next_table + 1;
  },
  h.next_table,
)

abbrev pub write_structure : Heap → ℕ → Structure → Heap
write_structure h p s = record h { structures = λ i. if i == p then s else h.structures i }

abbrev pub write_table : Heap → ℕ → TargetTable → Heap
write_table h p t = record h { tables = λ i. if i == p then t else h.tables i }

unfoldable pub has_table : Structure → Bool
has_table s = elim s.table [ none ↦ false | some t ↦ true ]

unfoldable pub is_adding_map : Structure → Bool
is_adding_map s = not (s.added_name == dummy_symbol)

unfoldable pub is_indexed : Structure → Bool
is_indexed s = s.transitions.indexed

unfoldable pub is_unique : Structure → Bool
is_unique s = not s.transitions.enabled

unfoldable pub is_shaped : Structure → Bool
is_shaped s = not (is_unique s) || s.transitions.enabled

unfoldable pub flatten : Structure → Structure
flatten s =
    if is_unique s
    then record s {
      transitions = enable_unique_transition s.transitions;
      has_been_flattened_before = true;
    }
    else s

unfoldable pub get_slots_size : Heap → Structure → ℕ
get_slots_size h s = elim s.table [
  | none ↦ s.calculated_size
  | some t ↦ length (h.tables t) + s.deleted.size
]

unfoldable pub clp2 : ℕ → ℕ
clp2 number =
    let x0 = number - 1 in
    let x1 = bit_or x0 (x0 / 2) in
    let x2 = bit_or x1 (x1 / 2 ^ 2) in
    let x3 = bit_or x2 (x2 / 2 ^ 4) in
    let x4 = bit_or x3 (x3 / 2 ^ 8) in let x5 = bit_or x4 (x4 / 2 ^ 16) in x5 + 1

unfoldable pub storage_capacity : Heap → Structure → ℕ
storage_capacity h s =
    let sz = get_slots_size h s in if sz == 0 then 0 else if ltb sz 8 then 8 else clp2 sz

-- `Structure::ctor`: a structure after the one at `previous`.
unfoldable pub ctor : Heap → ℕ → Bool → Heap × ℕ
ctor h previous unique =
    let prev = h.structures previous in
    let this : Structure = record {
      id = 0;
      prototype = prev.prototype;
      previous = some previous;
      table = if unique && is_unique prev then prev.table else none;
      transitions = new_transitions (not unique) (is_indexed prev);
      deleted = prev.deleted;
      added_name = dummy_symbol;
      added_entry = entry_not_found;
      calculated_size = get_slots_size h prev % 2 ^ 32;
      transit_count = 0;
      has_been_flattened_before = prev.has_been_flattened_before;
      cached_prototype_chain = none;
    } in
    allocate_structure h (record this { calculated_size = get_slots_size h this % 2 ^ 32 })

-- The record that `Structure::ctor1` allocates, with the table of `ctor2` and `ctor3`.
abbrev pub root : Option ℕ → Option ℕ → Bool → Bool → ℕ → Structure
root table prototype unique indexed calculated_size = record {
  id = 0;
  prototype = prototype;
  previous = none;
  table = table;
  transitions = new_transitions (not unique) indexed;
  deleted = record { entry = []; size = 0 };
  added_name = dummy_symbol;
  added_entry = entry_not_found;
  calculated_size = calculated_size;
  transit_count = 0;
  has_been_flattened_before = false;
  cached_prototype_chain = none;
}

unfoldable pub ctor1 : Heap → Option ℕ → Bool → Bool → Heap × ℕ
ctor1 h prototype unique indexed = allocate_structure h (root none prototype unique indexed 0)

unfoldable pub ctor2 : Heap → Option ℕ → Option ℕ → Bool → Bool → Heap × ℕ
ctor2 h table prototype unique indexed =
    let this = root table prototype unique indexed 0 in
    allocate_structure h (record this { calculated_size = get_slots_size h this % 2 ^ 32 })

-- `it.iter().copied().collect::<TargetTable>()`
unfoldable pub collect : List (Symbol × MapEntry) → TargetTable → TargetTable
collect [] t = t
collect ((name, entry) ∷ it) t = collect it (map_insert t name entry)

unfoldable pub ctor3 : Heap → List (Symbol × MapEntry) → Heap × ℕ
ctor3 h it =
    let (h', t) = allocate_hash_map h (collect it []) in
    let this = root (some t) none false false 0 in
    allocate_structure h' (record this { calculated_size = get_slots_size h' this % 2 ^ 32 })

unfoldable pub new_unique : Heap → ℕ → Heap × ℕ
new_unique h previous = ctor h previous true

unfoldable pub new_structure : Heap → ℕ → Heap × ℕ
new_structure h previous = ctor h previous false

unfoldable pub new_from_point : Heap → ℕ → Heap × ℕ
new_from_point h map = if is_unique (h.structures map) then new_unique h map else (h, map)
