-- ===== src/Structure/Shared.antt =====
-- Transitions that are found again, and properties that are found after they were added
-- (crates/starlight/src/vm/structure.rs).
use js.Common.{
  ℕ, ◌+◌, ◌<◌, ◌≤◌, ◌≡◌, ◌≢◌, arith, refl, Bool, true, false, ◌&&◌, none, some, [], ◌∷◌,
}
use js.Common.{◌==◌, if◌then◌else◌, Option-cases, inl, inr}
use js.Attributes.{AttrSafe, raw}
use js.Structure.Tables.{
  Symbol, Table, TransitionKey, same_key, key_get, key_insert, Transition, no_transition, table,
  pair, TransitionsTable, insert, find, key_of,
}
use js.Structure.Defs.{Structure, Heap, is_unique, new_structure, ctor, allocate_structure}
use js.Structure.Transitions.{add_shared, take_offset, add_property_transition}

key_get-key_insert :
    (t : Table) (k l : TransitionKey) (p : ℕ)
    → key_get (key_insert t k p) l ≡ (if same_key k l then some p else key_get t l)
unfolding key_get key_insert same_key
key_get-key_insert [] k l p = refl
key_get-key_insert ((j, q) ∷ t) k l p = ground (arith, key_get-key_insert t k l p)

key_get-pair :
    (k : TransitionKey) (q : ℕ) (l : TransitionKey)
    → key_get ((k, q) ∷ []) l ≡ (if same_key k l then some q else none)
unfolding key_get
key_get-pair k q l = refl

-- What `add_shared` leaves at the two structures.
pub record Added (h : Heap) (p : ℕ) (name : Symbol) (attrs : AttrSafe) (h' : Heap) (q o : ℕ)
    : Type 0 where
  pub fresh : q ≡ h.next_structure
  pub self_changed :
      h'.structures p
      ≡ record (h.structures p) { transitions = insert (h.structures p).transitions name attrs q }
  pub entry : (h'.structures q).added_entry ≡ record { offset = o; attrs = attrs }
  pub added_name : (h'.structures q).added_name ≡ name
  pub no_table : (h'.structures q).table ≡ none
  pub after : (h'.structures q).previous ≡ some p
  pub transit_count : (h'.structures q).transit_count ≡ 1
  pub others : (i : ℕ) → i ≢ p → i ≢ q → h'.structures i ≡ h.structures i

pub taken_count :
    (s : Structure) (otherwise : ℕ) (x : ℕ × Structure)
    → take_offset s otherwise ≡ some x
    → (x.1.transit_count ≡ s.transit_count) × (x.1.table ≡ s.table) × (x.1.previous ≡ s.previous)
unfolding take_offset
taken_count s n x e = ground arith

pub add_shared-Added :
    (h : Heap) (p : ℕ) (name : Symbol) (attrs : AttrSafe) (h' : Heap) (q o : ℕ)
    → p < h.next_structure
    → add_shared h p name attrs ≡ some (h', q, o)
    → Added h p name attrs h' q o
unfolding add_shared new_structure ctor allocate_structure take_offset
add_shared-Added h p name attrs h' q o fits e = record {
  fresh = ground arith;
  self_changed = ground arith;
  entry = ground arith;
  added_name = ground arith;
  no_table = ground arith;
  after = ground arith;
  transit_count = ground arith;
  others = λ i a b. ground arith;
}

pub add_shared-next :
    (h : Heap) (p : ℕ) (name : Symbol) (attrs : AttrSafe) (h' : Heap) (q o : ℕ)
    → add_shared h p name attrs ≡ some (h', q, o)
    → h'.next_structure ≡ h.next_structure + 1
unfolding add_shared new_structure ctor allocate_structure
add_shared-next h p name attrs h' q o e = ground arith

module _ (alive : ℕ → Bool) where
  -- Only a structure that is alive is found.
  pub find-alive :
      (t : TransitionsTable) (name : Symbol) (attrs : AttrSafe) (map : ℕ)
      → find alive t name attrs ≡ some map
      → alive map ≡ true
  unfolding find
  find-alive t name attrs map e = ground arith

  find-insert-var :
      (v : Transition) (t : TransitionsTable) (name name' : Symbol) (attrs attrs' : AttrSafe)
      (map : ℕ)
      → t.var ≡ v
      → find alive (insert t name attrs map) name' attrs' ≡ (
          if name == name' && raw attrs == raw attrs'
          then (if alive map then some map else none)
          else find alive t name' attrs')
  unfolding find insert same_key
  find-insert-var no_transition t name name' attrs attrs' map e = rw e (ground arith)
  find-insert-var (table es) t name name' attrs attrs' map e =
      rw e (ground (arith, key_get-key_insert es (key_of name attrs) (key_of name' attrs') map))
  find-insert-var (pair k q) t name name' attrs attrs' map e = rw e (
      ground (
        arith,
        key_get-key_insert ((k, q) ∷ []) (key_of name attrs) (key_of name' attrs') map,
        key_get-pair k q (key_of name' attrs'),
      ))

  -- A transition that was inserted is found under its name and attributes while its structure is alive;
  -- under any other key the transitions are those of before.
  pub find-insert :
      (t : TransitionsTable) (name name' : Symbol) (attrs attrs' : AttrSafe) (map : ℕ)
      → find alive (insert t name attrs map) name' attrs' ≡ (
          if name == name' && raw attrs == raw attrs'
          then (if alive map then some map else none)
          else find alive t name' attrs')
  find-insert t name name' attrs attrs' map =
      find-insert-var t.var t name name' attrs attrs' map refl

  -- A property that a shared structure was given is found again: the same request on the same structure
  -- answers with the structure made by the first one, and the same offset, and changes nothing. The new
  -- structure is still alive, and the chain of transitions is not longer than the limit of the code.
  pub same_shape :
      (h : Heap) (p : ℕ) (name : Symbol) (attrs : AttrSafe) (h' : Heap) (q o : ℕ)
      → p < h.next_structure
      → is_unique (h.structures p) ≡ false
      → (h.structures p).transit_count ≤ 64
      → alive q ≡ true
      → add_property_transition alive h p name attrs ≡ some (h', q, o)
      → add_property_transition alive h' p name attrs ≡ some (h', q, o)
  unfolding add_property_transition insert
  same_shape h p name attrs h' q o fits shared short live e =
      elim (Option-cases (find alive (h.structures p).transitions name attrs)) [
        | inl n ↦
            let made : add_shared h p name attrs ≡ some (h', q, o) = ground arith in
            let a = add_shared-Added h p name attrs h' q o fits made in
            let again = find-insert (h.structures p).transitions name name attrs attrs q in
            let same : is_unique (h'.structures p) ≡ false =
              rw a.self_changed (unfold is_unique in shared) in
            let found : find alive (h'.structures p).transitions name attrs ≡ some q =
              rw a.self_changed (ground (arith, again)) in
            rw (same, found, a.entry) refl
        | inr (m, f) ↦ ground arith
      ]
