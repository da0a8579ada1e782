-- ===== src/Structure/Tests.antt =====
-- Concrete hidden classes (crates/starlight/src/vm/structure.rs).
use js.Common.{
  zero, suc, ℕ, ◌+◌, ◌<◌, ◌≡◌, refl, arith, Bool, true, false, Option, none, some, [], ◌∷◌, ◌==◌,
  if◌then◌else◌, ltb,
}
use js.Attributes.{AttrSafe}
use js.Structure.Tables.{TransitionsTable, pair, key_of, find, new_transitions, no_deleted}
use js.Structure.Defs.{
  Structure, Heap, root, is_unique, is_adding_map, new_structure, ctor, allocate_structure,
  get_slots_size,
}
use js.Structure.Transitions.{add_property_transition, get, add_shared, take_offset}
use js.Structure.Shared.{same_shape}
use js.Structure.Chain.{IsValid, add_property_transition-IsValid}
use js.Structure.Lookup.{get-add_property_transition}
use js.Structure.Shape.{lookup, HasNoRepeat}
use js.Structure.Refine.{get_lem, or_not_found}

-- Writable, enumerable and configurable data; and data that is not.
abbrev plain : AttrSafe
plain = record { attributes = record { raw = 15 } }

abbrev fixed : AttrSafe
fixed = record { attributes = record { raw = 8 } }

-- One structure without properties, and the address 0 for it.
abbrev empty_heap : Heap
empty_heap = record {
  structures = λ i. root none none false false 0;
  next_structure = 1;
  tables = λ i. [];
  next_table = 0;
}

abbrev all_alive : ℕ → Bool
all_alive i = true

abbrev old_alive : ℕ → Bool
old_alive i = ltb i 1

empty_heap-IsValid : IsValid empty_heap
empty_heap-IsValid = record { older = λ p q l e. ground arith; counted = λ p l. omega arith }

abbrev one_transition : TransitionsTable
one_transition = record {
  var = pair (key_of 5 plain) 1;
  enabled = true;
  unique = false;
  indexed = false;
}

abbrev heap_of : Option (Heap × ℕ × ℕ) → Heap
heap_of none = empty_heap
heap_of (some r) = r.0

-- The heap after the property 5 was added to the empty structure.
abbrev first_heap : Heap
first_heap = heap_of (add_shared empty_heap 0 5 plain)

first_added : add_shared empty_heap 0 5 plain ≡ some (first_heap, 1, 0)
unfolding add_shared new_transitions take_offset no_deleted new_structure ctor allocate_structure
    get_slots_size
first_added = refl

first :
    (alive : ℕ → Bool)
    → add_property_transition alive empty_heap 0 5 plain ≡ some (first_heap, 1, 0)
unfolding add_property_transition is_unique new_transitions find
first alive = first_added

same_shape_example :
    add_property_transition all_alive first_heap 0 5 plain ≡ some (first_heap, 1, 0)
same_shape_example =
    same_shape all_alive empty_heap 0 5 plain first_heap 1 0 (omega arith)
      (unfold is_unique new_transitions in refl) (omega arith) refl (first all_alive)

add_property_transition-IsValid_example : IsValid first_heap × (1 < first_heap.next_structure)
add_property_transition-IsValid_example =
    add_property_transition-IsValid old_alive empty_heap 0 5 plain first_heap 1 0 empty_heap-IsValid
      (omega arith) (λ i e. ground arith) (first old_alive)

get-add_property_transition_example :
    get first_heap 1 5 ≡ some (first_heap, record { offset = 0; attrs = plain })
get-add_property_transition_example =
    get-add_property_transition all_alive empty_heap 0 5 plain first_heap 1 0 (omega arith)
      (λ e. omega (arith, e)) (unfold find new_transitions in refl) (first all_alive)

-- A chain of three structures that add the properties 5 and 6.
abbrev linked : ℕ → ℕ → ℕ → Structure
linked q name offset = record (root none none false false (offset + 1)) {
  previous = some q;
  added_name = name;
  added_entry = record { offset = offset; attrs = plain };
}

abbrev chain : Heap
chain = record {
  structures = λ i.
      if i == 0
      then root none none false false 0
      else if i == 1
      then linked 0 5 0
      else linked 1 6 1;
  next_structure = 3;
  tables = λ i. [];
  next_table = 0;
}

chain-IsValid : IsValid chain
chain-IsValid = record { older = λ p q l e. ground arith; counted = λ p l. ground arith }

-- A unique structure with the properties 5 and 6 in its table.
abbrev unique_heap : Heap
unique_heap = record {
  structures = λ i. root (some 0) none true false 2;
  next_structure = 1;
  tables = λ i.
      (5, record { offset = 0; attrs = plain }) ∷ (6, record { offset = 1; attrs = plain }) ∷ [];
  next_table = 1;
}

chain_names :
    (p : ℕ)
    → p < 3
    → lookup chain p (chain.structures p).previous (chain.structures p).added_name ≡ none
unfolding lookup is_adding_map
chain_names zero l = refl
chain_names (suc zero) l = refl
chain_names (suc (suc zero)) l = refl
chain_names (suc (suc (suc n))) l = absurd (omega (arith, l))

chain-HasNoRepeat : HasNoRepeat chain
unfolding is_adding_map
chain-HasNoRepeat = record {
  new_name = λ p l t a. chain_names p l;
  continues = λ p l t a e. ground arith;
}

get_lem_example :
    (h' : Heap) × (get chain 2 5 ≡ some (h', or_not_found (lookup chain 3 (some 2) 5)))
get_lem_example = get_lem chain 2 5 chain-IsValid chain-HasNoRepeat (omega arith)

found_in_chain : lookup chain 3 (some 2) 5 ≡ some (record { offset = 0; attrs = plain })
unfolding lookup is_adding_map
found_in_chain = refl
