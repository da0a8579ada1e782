-- ===== src/Snapshot/Images.antt =====
-- Hidden classes and elements are read back with their pointers moved:
-- crates/starlight/src/gc/snapshot/deserializer.rs.
use js.Common.{ℕ, ap, ◌+◌, ◌^◌, ◌<◌, ◌≡◌, ◌∙◌, refl, arith, true, Option, none, some, List, ◌++◌}
use js.Common.{length, ◌>>=◌}
use js.Attributes.{raw}
use js.Snapshot.{Symbol, Serializer, Deserializer, Format, to_le_bytes, write_u8}
use js.Snapshot.Cells.{pointer_format, option_format}
use js.Snapshot.Bytes.{append_assoc, get_u8_lem}
use js.Snapshot.Copied.{IsCopied, next_bytes, pair-IsCopied, via-IsCopied}
use js.Snapshot.Values.{
  IsMoved, IsRenamed, u32-IsCopied, bool-IsCopied, pointer-IsCopied, symbol-IsCopied, none-IsCopied,
  some-IsCopied, map_entry-IsCopied,
}
use js.Snapshot.Classes.{
  KeyFields, Link, unlinked, to_table, to_structure, ClassFields, ElementsFields, key_format,
  get_link, write_link, link_format, transitions_format, holder_format, structure_format,
  elements_format,
}

module _ (s : Serializer) (references : List ℕ) (symbols : List Symbol) where
  pub data AreMoved : Option ℕ → Option ℕ → Type 0 where
    nowhere : AreMoved none none
    somewhere : {p q : ℕ} → IsMoved s references p q → AreMoved (some p) (some q)

  pub data IsLinkMoved : Link → Link → Type 0 where
    unlinked_moved : IsLinkMoved unlinked unlinked
    table_moved : {p q : Option ℕ} → AreMoved p q → IsLinkMoved (to_table p) (to_table q)
    structure_moved :
        {k l : KeyFields} {p q : ℕ}
        → IsRenamed s symbols k.name l.name
        → k.attrs < 2 ^ 32
        → k.attrs ≡ l.attrs
        → IsMoved s references p q
        → IsLinkMoved (to_structure k p) (to_structure l q)

  -- The class `y` has the contents of `x`: pointers are moved, symbols renamed, and words fit.
  pub record IsClassMoved (x y : ClassFields) : Type 0 where
    pub var : IsLinkMoved x.transitions.var y.transitions.var
    pub enabled : x.transitions.enabled ≡ y.transitions.enabled
    pub unique : x.transitions.unique ≡ y.transitions.unique
    pub indexed : x.transitions.indexed ≡ y.transitions.indexed
    pub table : AreMoved x.table y.table
    pub entry : AreMoved x.deleted.entry y.deleted.entry
    pub size : x.deleted.size ≡ y.deleted.size
    pub small_size : x.deleted.size < 2 ^ 32
    pub name : IsRenamed s symbols x.added.0 y.added.0
    pub added : x.added.1 ≡ y.added.1
    pub small_offset : x.added.1.offset < 2 ^ 32
    pub small_attrs : raw x.added.1.attrs < 2 ^ 32
    pub previous : AreMoved x.previous y.previous
    pub prototype : AreMoved x.prototype y.prototype
    pub calculated_size : x.calculated_size ≡ y.calculated_size
    pub small_calculated : x.calculated_size < 2 ^ 32
    pub transit_count : x.transit_count ≡ y.transit_count
    pub small_count : x.transit_count < 2 ^ 32
    pub flattened : x.has_been_flattened_before ≡ y.has_been_flattened_before
    pub chain : AreMoved x.cached_prototype_chain y.cached_prototype_chain

module _ (s : Serializer) (d : Deserializer) where
  -- Where the field is equal in the new cell.
  same-IsCopied :
      {A : Type 0} {f : Format A} {x y : A} → x ≡ y → IsCopied d f x x → IsCopied d f x y
  same-IsCopied {A} {f} {x} e k = record {
    bytes = k.bytes;
    written = k.written;
    read = (λ pc rest h. k.read pc rest h ∙ ap (λ y. some (y, pc + length k.bytes)) e);
  }

  optional-IsCopied :
      {p q : Option ℕ}
      → AreMoved s d.references d.symbols p q
      → IsCopied d (option_format s d (pointer_format s d)) p q
  optional-IsCopied nowhere = none-IsCopied s d (pointer_format s d)
  optional-IsCopied (somewhere k) = some-IsCopied s d (pointer-IsCopied s d k)

  -- Bytes after a tag.
  tag-IsCopied :
      {A : Type 0} {f : Format A} {x y : A} (link : A → Link) (tag : ℕ) (l : Link)
      → tag < 256
      → IsCopied d f x y
      → ((output : List ℕ) → write_link s d output l ≡ f.serialize (write_u8 output tag) x)
      → ((pc : ℕ)
          → get_link s d tag pc ≡ (f.deserialize_inplace pc >>= (λ a. some (link a.0, a.1))))
      → IsCopied d (link_format s d) l (link y)
  unfolding link_format write_u8 to_le_bytes
  tag-IsCopied {f = f} {y = y} link tag l h k w g = record {
    bytes = to_le_bytes 1 tag ++ k.bytes;
    written = (λ output.
        w output
        ∙ k.written (output ++ to_le_bytes 1 tag)
        ∙ ap some (append_assoc output (to_le_bytes 1 tag) k.bytes));
    read = (λ pc rest e.
        let (here, after, total) = next_bytes d (to_le_bytes 1 tag) k.bytes rest pc e in
        rw (get_u8_lem d tag pc (k.bytes ++ rest) h here, g (pc + 1), k.read (pc + 1) rest after)
          (ap (λ n. some (link y, n)) total));
  }

  link-IsCopied :
      {x y : Link} → IsLinkMoved s d.references d.symbols x y → IsCopied d (link_format s d) x y
  unfolding link_format write_link get_link key_format write_u8 to_le_bytes
  link-IsCopied unlinked_moved = record {
    bytes = to_le_bytes 1 0;
    written = (λ output. refl);
    read = (λ pc rest e. rw (get_u8_lem d 0 pc rest (omega arith) e) refl);
  }
  link-IsCopied (table_moved k) =
      tag-IsCopied to_table 1 _ (omega arith) (optional-IsCopied k) (λ output. refl) (λ pc. refl)
  link-IsCopied (structure_moved {k} {l} r h e m) =
      let named =
        pair-IsCopied d (symbol-IsCopied s d r) (same-IsCopied e (u32-IsCopied s d k.attrs h)) in
      let keyed =
        via-IsCopied d (λ k. (k.name, k.attrs)) (λ a. record { name = a.0; attrs = a.1 }) k named in
      tag-IsCopied (λ a. to_structure a.0 a.1) 2 _ (omega arith)
        (pair-IsCopied d keyed (pointer-IsCopied s d m)) (λ output. refl) (λ pc. refl)

  -- The fields of a class in the order in which they are written.
  pub structure-IsCopied :
      (x y : ClassFields)
      → IsClassMoved s d.references d.symbols x y
      → IsCopied d (structure_format s d) x (record y { id = 0 })
  unfolding structure_format transitions_format holder_format
  structure-IsCopied x y k =
      let flags =
        pair-IsCopied d (same-IsCopied k.enabled (bool-IsCopied s d x.transitions.enabled)) (
          pair-IsCopied d (same-IsCopied k.unique (bool-IsCopied s d x.transitions.unique))
            (same-IsCopied k.indexed (bool-IsCopied s d x.transitions.indexed))) in
      let transitions =
        via-IsCopied d (λ t. (t.var, (t.enabled, (t.unique, t.indexed))))
          (λ a. record { var = a.0; enabled = a.1.0; unique = a.1.1.0; indexed = a.1.1.1 })
          x.transitions (pair-IsCopied d (link-IsCopied k.var) flags) in
      let holder =
        via-IsCopied d (λ h. (h.entry, h.size)) (λ a. record { entry = a.0; size = a.1 }) x.deleted
          (pair-IsCopied d (optional-IsCopied k.entry)
            (same-IsCopied k.size (u32-IsCopied s d x.deleted.size k.small_size))) in
      let entry =
        same-IsCopied k.added (map_entry-IsCopied s d x.added.1 k.small_offset k.small_attrs) in
      let size =
        same-IsCopied k.calculated_size (u32-IsCopied s d x.calculated_size k.small_calculated) in
      let count = same-IsCopied k.transit_count (u32-IsCopied s d x.transit_count k.small_count) in
      let flattened = same-IsCopied k.flattened (bool-IsCopied s d x.has_been_flattened_before) in
      via-IsCopied d _ _ x (
        pair-IsCopied d transitions (
          pair-IsCopied d (optional-IsCopied k.table) (
            pair-IsCopied d holder (
              pair-IsCopied d (pair-IsCopied d (symbol-IsCopied s d k.name) entry) (
                pair-IsCopied d (optional-IsCopied k.previous) (
                  pair-IsCopied d (optional-IsCopied k.prototype) (
                    pair-IsCopied d size (
                      pair-IsCopied d count
                        (pair-IsCopied d flattened (optional-IsCopied k.chain))))))))))

  -- The elements of an object: `non_gc` is set in the new cell, whatever it was.
  pub elements-IsCopied :
      (e : ElementsFields) (v : ℕ) (m : Option ℕ)
      → IsMoved s d.references e.vector v
      → AreMoved s d.references d.symbols e.map m
      → e.length < 2 ^ 32
      → e.flags < 2 ^ 32
      → IsCopied d (elements_format s d) e (record e { vector = v; map = m; non_gc = true })
  unfolding elements_format
  elements-IsCopied e v m k l a b = via-IsCopied d _ _ e (
      pair-IsCopied d (pointer-IsCopied s d k) (
        pair-IsCopied d (optional-IsCopied l)
          (pair-IsCopied d (u32-IsCopied s d e.length a) (u32-IsCopied s d e.flags b))))
