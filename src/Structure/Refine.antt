-- ===== src/Structure/Refine.antt =====
-- `get` against the shape of a structure (crates/starlight/src/vm/structure.rs).
use js.Common.{map_get}
use js.Common.{
  ℕ, suc, ap, sym, ◌<◌, ◌≡◌, ◌∙◌, arith, refl, true, false, ◌&&◌, Option, none, some, List,
}
use js.Common.{◌==◌, Bool-cases, Option-cases, inl, inr}
use js.Structure.Tables.{Symbol, MapEntry, TargetTable, entry_not_found}
use js.Structure.Defs.{Heap, has_table, is_adding_map, collect, allocate_hash_map}
use js.Structure.Transitions.{walk, allocate_table, give_table, get, entry_in, own_table}
use js.Structure.Chain.{IsValid, walk_total}
use js.Structure.Shape.{
  lookup, HasNoRepeat, extend, walk_more, lookup_more, walk-lookup, walk-IsFound, collect-get,
}

abbrev pub or_not_found : Option MapEntry → MapEntry
or_not_found none = entry_not_found
or_not_found (some e) = e

given_table :
    (h : Heap) (p : ℕ) (t : TargetTable) (name : Symbol)
    → entry_in (give_table h p t) p name ≡ some (or_not_found (map_get t name))
unfolding entry_in own_table give_table allocate_hash_map
given_table h p t name = elim (Option-cases (map_get t name)) [
  | inl n ↦ ground arith
  | inr (e, f) ↦ ground arith
]

module _ (h : Heap) (p : ℕ) (name : Symbol) (v : IsValid h) (d : HasNoRepeat h)
    (b : p < h.next_structure) where
  get_own :
      (t : ℕ)
      → (h.structures p).table ≡ some t
      → get h p name ≡ some (h, or_not_found (lookup h (suc p) (some p) name))
  unfolding get has_table entry_in own_table lookup
  get_own t e = elim (Option-cases (map_get (h.tables t) name)) [
    | inl n ↦ ground arith
    | inr (x, f) ↦ ground arith
  ]

  get_root :
      (h.structures p).table ≡ none
      → (h.structures p).previous ≡ none
      → get h p name ≡ some (h, or_not_found (lookup h (suc p) (some p) name))
  unfolding get has_table
  get_root n e =
      let more = lookup_more h p p name n in
      let end : lookup h p none name ≡ none = unfold lookup in refl in
      let further : lookup h p (h.structures p).previous name ≡ none = rw e end in
      ground (arith, d.continues p b n)

  get_added :
      (q : ℕ)
      → (h.structures p).table ≡ none
      → (h.structures p).previous ≡ some q
      → (is_adding_map (h.structures p) && (h.structures p).added_name == name) ≡ true
      → get h p name ≡ some (h, or_not_found (lookup h (suc p) (some p) name))
  unfolding get has_table
  get_added q n e m = let more = lookup_more h p p name n in ground arith

  get_built :
      (q : ℕ) (found : List (Symbol × MapEntry) × TargetTable)
      → (h.structures p).table ≡ none
      → (h.structures p).previous ≡ some q
      → (is_adding_map (h.structures p) && (h.structures p).added_name == name) ≡ false
      → walk h p (h.structures p).previous ≡ some found
      → get h p name
        ≡ some (
          give_table h p (collect (extend (h.structures p) found.0) found.1),
          or_not_found (lookup h (suc p) (some p) name),
        )
  unfolding get has_table
  get_built q found n e m w =
      let s = h.structures p in
      let whole = walk_more h p p found.0 found.1 n w in
      let once =
        walk-IsFound h v d name (suc p) (some p) (extend s found.0, found.1)
          (λ r f. (ground arith, ground arith)) whole in
      let built =
        collect-get (extend s found.0) found.1 name once.0 once.1
        ∙ sym (walk-lookup h (suc p) (some p) name (extend s found.0) found.1 whole) in
      let entry =
        given_table h p (collect (extend s found.0) found.1) name
        ∙ ap (λ t. some (or_not_found t)) built in
      let allocated : allocate_table h p
          ≡ some (give_table h p (collect (extend s found.0) found.1)) =
        unfold allocate_table in rw w refl in
      ground arith

  -- `get` of any name on an allocated structure answers with the entry that the chain of the structure
  -- has for the name, and with `MapEntry::not_found` where it has none: also when it builds the table
  -- first. Each structure leads to an older one, and none adds a name that its chain has already.
  pub get_lem :
      (h' : Heap) × (get h p name ≡ some (h', or_not_found (lookup h (suc p) (some p) name)))
  unfolding get has_table
  get_lem =
      let s = h.structures p in
      elim (Option-cases s.table) [
        | inr (t, e) ↦ (h, get_own t e)
        | inl n ↦ elim (Option-cases s.previous) [
          | inl e ↦ (h, get_root n e)
          | inr (q, e) ↦ elim (Bool-cases (is_adding_map s && s.added_name == name)) [
            | inl m ↦ (h, get_added q n e m)
            | inr m ↦
                let reached =
                  walk_total h p s.previous v (λ r f. v.older p r b f)
                    (λ r f. omega (arith, v.older p r b f, b)) in
                elim (Option-cases (walk h p s.previous)) [
                  | inl w ↦ absurd (reached w)
                  | inr (found, w) ↦ (
                    give_table h p (collect (extend s found.0) found.1),
                    get_built q found n e m w,
                  )
                ]
          ]
        ]
      ]
