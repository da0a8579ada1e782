-- ===== src/Structure/Reuse.antt =====
-- The offset that a deleted property leaves is used again (crates/starlight/src/vm/structure.rs).
use js.Common.{map_get, map_insert, map_remove}
use js.Common.{ℕ, ap, ◌+◌, ◌-◌, ◌%◌, ◌^◌, ◌<◌, ◌≡◌, ◌∙◌, arith, refl, Bool, true, false, some}
use js.Common.{◌==◌}
use js.Attributes.{AttrSafe}
use js.Structure.Tables.{Symbol, MapEntry, push, pop, no_deleted}
use js.Structure.Defs.{
  Structure, Heap, is_unique, has_table, write_structure, write_table, get_slots_size,
}
use js.Structure.Transitions.{
  ensure_table, unique_map, take_offset, add_unique, add_property_transition, delete,
}

-- The structure after `delete`, at its address.
abbrev left_behind : Structure → ℕ → Structure
left_behind s offset = record s { deleted = push s.deleted offset }

-- An offset that was pushed is taken again, and the structure is the one of before.
take_offset-left_behind :
    (s : Structure) (offset otherwise : ℕ)
    → s.deleted.size < 2 ^ 32 - 1
    → take_offset (left_behind s offset) otherwise ≡ some (offset, s)
unfolding take_offset push pop no_deleted
take_offset-left_behind s offset otherwise b =
    let counted : (s.deleted.size + 1) % 2 ^ 32 ≡ s.deleted.size + 1 = omega arith in
    let back : ((s.deleted.size + 1) % 2 ^ 32 + 2 ^ 32 - 1) % 2 ^ 32 ≡ s.deleted.size =
      omega arith in
    let some_left : ((s.deleted.size + 1) % 2 ^ 32 == 0) ≡ false = ground arith in
    rw (some_left, back) refl

-- `add_unique` on a structure that has a table and whose transitions are made in place.
add_unique_lem :
    (h : Heap) (p t : ℕ) (name : Symbol) (attrs : AttrSafe) (offset : ℕ) (s' : Structure)
    → (h.structures p).table ≡ some t
    → (h.structures p).transitions.unique ≡ false
    → take_offset (h.structures p) (get_slots_size h (h.structures p)) ≡ some (offset, s')
    → s'.table ≡ some t
    → add_unique h p name attrs
      ≡ some (
        write_table
            (write_structure h p s')
            t
            (map_insert (h.tables t) name (record { offset = offset; attrs = attrs })),
        p,
        offset,
      )
unfolding add_unique ensure_table has_table unique_map
add_unique_lem h p t name attrs offset s' own i taken own' = rw (own, i, taken, own') refl

module _ (h : Heap) (p : ℕ) (name : Symbol) (t : ℕ) (it : MapEntry)
    (own : (h.structures p).table ≡ some t) (there : map_get (h.tables t) name ≡ some it) where
  delete_lem :
      delete h p name
      ≡ some (
          write_structure
            (write_table h t (map_remove (h.tables t) name))
            p
            (left_behind (h.structures p) it.offset))
  unfolding delete
  delete_lem = rw (own, there) refl

  -- A property that is deleted from a unique structure whose transitions are made in place leaves its
  -- offset: the next property added to the structure, whatever it is, gets that offset, in the same
  -- structure, and is not counted among the deleted ones any more. The count does not overflow.
  pub add_property_transition-delete :
      (alive : ℕ → Bool) (other : Symbol) (attrs : AttrSafe)
      → is_unique (h.structures p) ≡ true
      → (h.structures p).transitions.unique ≡ false
      → (h.structures p).deleted.size < 2 ^ 32 - 1
      → (h1 : Heap) × (h2 : Heap) × (delete h p name ≡ some h1)
        × (add_property_transition alive h1 p other attrs ≡ some (h2, p, it.offset))
        × ((h2.structures p).deleted ≡ (h.structures p).deleted)
  unfolding add_property_transition
  add_property_transition-delete alive other attrs u i b =
      let s = h.structures p in
      let h1 =
        write_structure (write_table h t (map_remove (h.tables t) name)) p
          (left_behind s it.offset) in
      let h2 = write_structure h1 p s in
      let taken =
        take_offset-left_behind s it.offset (get_slots_size h1 (left_behind s it.offset)) b in
      let at' : h1.structures p ≡ left_behind s it.offset = ground arith in
      let unique' : is_unique (h1.structures p) ≡ true = rw at' (unfold is_unique in u) in
      (
        h1,
        write_table h2 t
            (map_insert (h2.tables t) other (record { offset = it.offset; attrs = attrs })),
        delete_lem,
        rw unique' (
            add_unique_lem h1 p t other attrs it.offset s
              (ap (λ (x : Structure). x.table) at' ∙ own)
              (ap (λ (x : Structure). x.transitions.unique) at' ∙ i) (rw at' taken) own),
        ground arith,
      )
