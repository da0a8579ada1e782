-- ===== src/Structure/Chain.antt =====
-- Chains of structures (crates/starlight/src/vm/structure.rs): `allocate_table` reaches the end of every
-- chain, and what transitions keep.
use js.Common.{
  ℕ, ap, zero, suc, ◌+◌, ◌<◌, ◌≤◌, ◌≡◌, ◌≢◌, sym, arith, refl, Bool, true, Option, none, some, ◌∷◌,
}
use js.Common.{◌==◌, if◌then◌else◌, Bool-cases, Option-cases, inl, inr}
use js.Attributes.{AttrSafe}
use js.Structure.Tables.{Symbol, TargetTable, find}
use js.Structure.Defs.{
  Structure, Heap, is_unique, has_table, is_adding_map, ctor, allocate_structure, allocate_hash_map,
  get_slots_size, new_unique, collect, write_structure,
}
use js.Structure.Transitions.{
  walk, give_table, allocate_table, ensure_table, unique_map, take_offset, add_unique, add_shared,
  add_property_transition,
}
use js.Structure.Shared.{taken_count, add_shared-Added, add_shared-next, find-alive}

-- Every allocated structure leads to an older one, and counts at most one transition.
pub record IsValid (h : Heap) : Type 0 where
  pub older : (p q : ℕ) → p < h.next_structure → (h.structures p).previous ≡ some q → q < p
  pub counted : (p : ℕ) → p < h.next_structure → (h.structures p).transit_count ≤ 1

pub walk_total :
    (h : Heap) (fuel : ℕ) (p : Option ℕ)
    → IsValid h
    → ((q : ℕ) → p ≡ some q → q < fuel)
    → ((q : ℕ) → p ≡ some q → q < h.next_structure)
    → walk h fuel p ≢ none
unfolding walk
walk_total h fuel none v b c = λ e. ground arith
walk_total h zero (some q) v b c = absurd (omega (arith, b q refl))
walk_total h (suc fuel) (some q) v b c =
    let cur = h.structures q in
    let in_heap = c q refl in
    let rest =
      walk_total h fuel cur.previous v (λ r e. omega (arith, v.older q r in_heap e, b q refl))
        (λ r e. omega (arith, v.older q r in_heap e, in_heap)) in
    λ e. ground (arith, rest)

give_table-IsValid :
    (h : Heap) (p : ℕ) (t : TargetTable)
    → IsValid h
    → IsValid (give_table h p t) × ((give_table h p t).next_structure ≡ h.next_structure)
unfolding give_table allocate_hash_map
give_table-IsValid h p t v = (
  record {
    older = λ i q l e. ground (arith, v.older i q);
    counted = λ i l. ground (arith, v.counted i, v.counted p);
  },
  refl,
)

-- `allocate_table` reaches the end of the chain of any allocated structure, where each structure leads to
-- an older one; the heap that it leaves is such a heap too.
pub allocate_table_returns :
    (h : Heap) (p : ℕ)
    → IsValid h
    → p < h.next_structure
    → (h' : Heap) × (allocate_table h p ≡ some h')
      × IsValid h'
      × (h'.next_structure ≡ h.next_structure)
unfolding allocate_table
allocate_table_returns h p v b =
    let self = h.structures p in
    let reached =
      walk_total h p self.previous v (λ q e. v.older p q b e)
        (λ q e. omega (arith, v.older p q b e, b)) in
    elim (Option-cases (walk h p self.previous)) [
      | inl n ↦ absurd (reached n)
      | inr (found, e) ↦
          let stack =
            if is_adding_map self then (self.added_name, self.added_entry) ∷ found.0 else found.0 in
          let keeps = give_table-IsValid h p (collect stack found.1) v in
          (give_table h p (collect stack found.1), rw e refl, keeps.0, keeps.1)
    ]

allocated-IsValid :
    (h : Heap) (p : ℕ) (h' : Heap)
    → IsValid h
    → allocate_table h p ≡ some h'
    → IsValid h' × (h'.next_structure ≡ h.next_structure)
unfolding allocate_table
allocated-IsValid h p h' v e = elim (Option-cases (walk h p (h.structures p).previous)) [
  | inl n ↦ absurd (ground arith)
  | inr (found, f) ↦
      let self = h.structures p in
      let stack =
        if is_adding_map self then (self.added_name, self.added_entry) ∷ found.0 else found.0 in
      let keeps = give_table-IsValid h p (collect stack found.1) v in
      let same : give_table h p (collect stack found.1) ≡ h' = ground arith in rw (sym same) keeps
]

ctor-IsValid :
    (h : Heap) (p : ℕ) (unique : Bool)
    → IsValid h
    → p < h.next_structure
    → IsValid (ctor h p unique).0
      × ((ctor h p unique).1 ≡ h.next_structure)
      × ((ctor h p unique).0.next_structure ≡ h.next_structure + 1)
unfolding ctor allocate_structure
ctor-IsValid h p unique v b = (
  record {
    older = λ i q l e. ground (arith, v.older i q);
    counted = λ i l. ground (arith, v.counted i, v.counted p);
  },
  refl,
  refl,
)

ensure_table-IsValid :
    (h : Heap) (p : ℕ) (h' : Heap)
    → IsValid h
    → ensure_table h p ≡ some h'
    → IsValid h' × (h'.next_structure ≡ h.next_structure)
unfolding ensure_table
ensure_table-IsValid h p h' v e = elim (Bool-cases (has_table (h.structures p))) [
  | inl t ↦ let same : h ≡ h' = ground arith in rw (sym same) (v, refl)
  | inr f ↦ allocated-IsValid h p h' v (ground arith)
]

unique_map-IsValid :
    (h : Heap) (p : ℕ)
    → IsValid h
    → p < h.next_structure
    → IsValid (unique_map h p).0 × ((unique_map h p).1 < (unique_map h p).0.next_structure)
unfolding unique_map new_unique
unique_map-IsValid h p v b =
    let c = ctor-IsValid h p true v b in
    elim (Bool-cases (h.structures p).transitions.unique) [
      | inl u ↦ rw u (c.0, omega (arith, c.1, c.2))
      | inr u ↦ rw u (v, b)
    ]

written-IsValid :
    (h : Heap) (p : ℕ) (s : Structure)
    → IsValid h
    → s.previous ≡ (h.structures p).previous
    → s.transit_count ≤ 1
    → IsValid (write_structure h p s)
written-IsValid h p s v e c = record {
  older = λ i q l f. ground (arith, v.older i q);
  counted = λ i l. ground (arith, v.counted i, c);
}

add_unique-IsValid :
    (h : Heap) (p : ℕ) (name : Symbol) (attrs : AttrSafe) (h' : Heap) (q o : ℕ)
    → IsValid h
    → p < h.next_structure
    → add_unique h p name attrs ≡ some (h', q, o)
    → IsValid h' × (q < h'.next_structure)
unfolding add_unique
add_unique-IsValid h p name attrs h' q o v b e = elim (Option-cases (ensure_table h p)) [
  | inl n ↦ absurd (ground arith)
  | inr (h1, e1) ↦
      let v1 = ensure_table-IsValid h p h1 v e1 in
      let m = unique_map h1 p in
      let v2 = unique_map-IsValid h1 p v1.0 (omega (arith, v1.1, b)) in
      elim (Option-cases
        (take_offset (m.0.structures m.1) (get_slots_size m.0 (m.0.structures p)))) [
          | inl n ↦ absurd (ground arith)
          | inr (taken, e2) ↦
              let k =
                taken_count (m.0.structures m.1) (get_slots_size m.0 (m.0.structures p)) taken e2 in
              let w =
                written-IsValid m.0 m.1 taken.1 v2.0 k.2
                  (omega (arith, k.0, v2.0.counted m.1 v2.1)) in
              (
                record {
                  older = λ i r l f. ground (arith, w.older i r);
                  counted = λ i l. ground (arith, w.counted i);
                },
                ground arith,
              )
        ]
]

add_shared-IsValid :
    (h : Heap) (p : ℕ) (name : Symbol) (attrs : AttrSafe) (h' : Heap) (q o : ℕ)
    → IsValid h
    → p < h.next_structure
    → add_shared h p name attrs ≡ some (h', q, o)
    → IsValid h' × (q < h'.next_structure)
add_shared-IsValid h p name attrs h' q o v b e =
    let a = add_shared-Added h p name attrs h' q o b e in
    let self_previous = ap (λ (s : Structure). s.previous) a.self_changed in
    let self_count = ap (λ (s : Structure). s.transit_count) a.self_changed in
    let grown = add_shared-next h p name attrs h' q o e in
    (
      record {
        older = λ i r l f. elim (Bool-cases (i == p)) [
          | inl x ↦ ground (arith, v.older p r, self_previous)
          | inr x ↦ elim (Bool-cases (i == q)) [
            | inl y ↦ ground (arith, a.after, a.fresh)
            | inr y ↦ ground (arith, v.older i r, a.others i, a.fresh, grown)
          ]
        ];
        counted = λ i l. elim (Bool-cases (i == p)) [
          | inl x ↦ ground (arith, v.counted p, self_count)
          | inr x ↦ elim (Bool-cases (i == q)) [
            | inl y ↦ ground (arith, a.transit_count)
            | inr y ↦ ground (arith, v.counted i, a.others i, a.fresh, grown)
          ]
        ];
      },
      omega (arith, a.fresh, grown),
    )

module _ (alive : ℕ → Bool) where
  -- `add_property_transition` on an allocated structure, where only allocated structures are alive, keeps
  -- every chain going to older structures and every count of transitions at most one, so the limit of
  -- 64 transitions is never reached; the result is allocated.
  pub add_property_transition-IsValid :
      (h : Heap) (p : ℕ) (name : Symbol) (attrs : AttrSafe) (h' : Heap) (q o : ℕ)
      → IsValid h
      → p < h.next_structure
      → ((i : ℕ) → alive i ≡ true → i < h.next_structure)
      → add_property_transition alive h p name attrs ≡ some (h', q, o)
      → IsValid h' × (q < h'.next_structure)
  unfolding add_property_transition
  add_property_transition-IsValid h p name attrs h' q o v b live e =
      let self = h.structures p in
      let few = v.counted p b in
      elim (Bool-cases (is_unique self)) [
        | inl u ↦ add_unique-IsValid h p name attrs h' q o v b (ground arith)
        | inr u ↦ elim (Option-cases (find alive self.transitions name attrs)) [
          | inl n ↦ add_shared-IsValid h p name attrs h' q o v b (ground arith)
          | inr (m, f) ↦
              let l = find-alive alive self.transitions name attrs m f in
              let same : h ≡ h' = ground arith in
              let at' : m ≡ q = ground arith in rw (sym same, sym at') (v, live m l)
        ]
      ]
