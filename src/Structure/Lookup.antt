-- ===== src/Structure/Lookup.antt =====
-- A property is found where its transition put it, and the offset of a deleted one is used again
-- (crates/starlight/src/vm/structure.rs).
use js.Common.{map_get, map_get-map_insert}
use js.Common.{ℕ, ◌<◌, ◌≡◌, ◌≢◌, arith, Bool, none, some}
use js.Common.{Bool-cases, Option-cases, inl, inr, ltb}
use js.Attributes.{AttrSafe}
use js.Structure.Tables.{Symbol, MapEntry, find}
use js.Structure.Defs.{
  Heap, dummy_symbol, is_unique, has_table, is_adding_map, new_unique, get_slots_size,
}
use js.Structure.Transitions.{
  get, entry_in, own_table, ensure_table, unique_map, take_offset, add_unique, add_shared,
  add_property_transition,
}
use js.Structure.Shared.{add_shared-Added}

get-table :
    (h : Heap) (p : ℕ) (name : Symbol) (t : ℕ) (entry : MapEntry)
    → (h.structures p).table ≡ some t
    → map_get (h.tables t) name ≡ some entry
    → get h p name ≡ some (h, entry)
unfolding get entry_in own_table has_table
get-table h p name t entry e f = ground arith

get-add_shared :
    (h : Heap) (p : ℕ) (name : Symbol) (attrs : AttrSafe) (h' : Heap) (q o : ℕ)
    → p < h.next_structure
    → name ≢ dummy_symbol
    → add_shared h p name attrs ≡ some (h', q, o)
    → get h' q name ≡ some (h', record { offset = o; attrs = attrs })
unfolding get has_table is_adding_map
get-add_shared h p name attrs h' q o b n e =
    let a = add_shared-Added h p name attrs h' q o b e in
    ground (arith, a.added_name, a.no_table, a.after, a.entry)

get-add_unique :
    (h : Heap) (p : ℕ) (name : Symbol) (attrs : AttrSafe) (h' : Heap) (q o : ℕ)
    → add_unique h p name attrs ≡ some (h', q, o)
    → get h' q name ≡ some (h', record { offset = o; attrs = attrs })
unfolding add_unique
get-add_unique h p name attrs h' q o e = elim (Option-cases (ensure_table h p)) [
  | inl n ↦ absurd (ground arith)
  | inr (h1, e1) ↦
      let m = unique_map h1 p in
      elim (Option-cases
        (take_offset (m.0.structures m.1) (get_slots_size m.0 (m.0.structures p)))) [
          | inl n ↦ absurd (ground arith)
          | inr (taken, e2) ↦ elim (Option-cases taken.1.table) [
            | inl n ↦ absurd (ground arith)
            | inr (t, e3) ↦
                let entry : MapEntry = record { offset = o; attrs = attrs } in
                let at' : m.1 ≡ q = ground arith in
                let own : (h'.structures q).table ≡ some t = ground arith in
                let inserted = map_get-map_insert (m.0.tables t) name name entry in
                get-table h' q name t entry own (ground (arith, inserted))
          ]
        ]
]

module _ (alive : ℕ → Bool) where
  -- A property that `add_property_transition` gives an allocated structure for the first time (no transition
  -- for it is found) is looked up in the new structure with the offset returned and its attributes;
  -- its name is not the one that stands for none.
  pub get-add_property_transition :
      (h : Heap) (p : ℕ) (name : Symbol) (attrs : AttrSafe) (h' : Heap) (q o : ℕ)
      → p < h.next_structure
      → name ≢ dummy_symbol
      → find alive (h.structures p).transitions name attrs ≡ none
      → add_property_transition alive h p name attrs ≡ some (h', q, o)
      → get h' q name ≡ some (h', record { offset = o; attrs = attrs })
  unfolding add_property_transition
  get-add_property_transition h p name attrs h' q o b n f e =
      elim (Bool-cases (is_unique (h.structures p))) [
        | inl u ↦ get-add_unique h p name attrs h' q o (ground arith)
        | inr u ↦ elim (Bool-cases (ltb 64 (h.structures p).transit_count)) [
          | inl l ↦
              let m = new_unique h p in get-add_unique m.0 m.1 name attrs h' q o (ground arith)
          | inr l ↦ get-add_shared h p name attrs h' q o b n (ground arith)
        ]
      ]
