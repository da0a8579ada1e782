-- ===== src/Structure/Shape.antt =====
-- The shape of an object as a map from names to entries, and `get` against it
-- (crates/starlight/src/vm/structure.rs).
use js.Common.{map_get, map_insert, map_get-map_insert}
use js.Common.{
  ℕ, zero, suc, ap, sym, ◌<◌, ◌≡◌, ◌≢◌, ◌∙◌, arith, refl, true, ◌&&◌, Option, none, some, List, [],
  ◌∷◌,
}
use mathlib.Core.Option.{some-injective}
use mathlib.Core.Path.{subst}
use js.Common.{◌==◌, if◌then◌else◌, Bool-cases, Option-cases, inl, inr}
use js.Structure.Tables.{Symbol, MapEntry, TargetTable}
use js.Structure.Defs.{Structure, Heap, is_adding_map, collect}
use js.Structure.Transitions.{walk}
use js.Structure.Chain.{IsValid}

abbrev pub or_else : Option MapEntry → Option MapEntry → Option MapEntry
or_else none x = x
or_else (some e) x = some e

-- The entry of a name in the chain from a structure on: the nearest structure that adds the name, or
-- the table that ends the chain.
unfoldable pub lookup : Heap → ℕ → Option ℕ → Symbol → Option MapEntry
lookup h fuel none name = none
lookup h zero (some p) name = none
lookup h (suc fuel) (some p) name =
    let cur = h.structures p in
    let further = lookup h fuel cur.previous name in
    elim cur.table [
      | some t ↦ map_get (h.tables t) name
      | none ↦ if is_adding_map cur && cur.added_name == name then some cur.added_entry else further
    ]

-- No later structure of a chain adds a name that the chain has already.
pub record HasNoRepeat (h : Heap) : Type 0 where
  pub new_name :
      (p : ℕ)
      → p < h.next_structure
      → (h.structures p).table ≡ none
      → is_adding_map (h.structures p) ≡ true
      → lookup h p (h.structures p).previous (h.structures p).added_name ≡ none
  pub continues :
      (p : ℕ)
      → p < h.next_structure
      → (h.structures p).table ≡ none
      → is_adding_map (h.structures p) ≡ true
      → (h.structures p).previous ≢ none

-- What a structure adds, in front of what the chain behind it adds.
abbrev pub extend : Structure → List (Symbol × MapEntry) → List (Symbol × MapEntry)
extend s stack = if is_adding_map s then (s.added_name, s.added_entry) ∷ stack else stack

extend-get :
    (s : Structure) (stack : List (Symbol × MapEntry)) (base : TargetTable) (name : Symbol)
    → or_else (map_get (extend s stack) name) (map_get base name) ≡ (
        if is_adding_map s && s.added_name == name
        then some s.added_entry
        else or_else (map_get stack name) (map_get base name))
unfolding map_get
extend-get s stack base name = elim (Bool-cases (is_adding_map s)) [
  | inl a ↦ elim (Bool-cases (s.added_name == name)) [
    | inl x ↦ rw (a, x) refl
    | inr x ↦ rw (a, x) refl
  ]
  | inr a ↦ rw a refl
]

pub walk_more :
    (h : Heap) (fuel q : ℕ) (stack : List (Symbol × MapEntry)) (base : TargetTable)
    → (h.structures q).table ≡ none
    → walk h fuel (h.structures q).previous ≡ some (stack, base)
    → walk h (suc fuel) (some q) ≡ some (extend (h.structures q) stack, base)
unfolding walk
walk_more h fuel q stack base n w = ground arith

pub lookup_more :
    (h : Heap) (fuel q : ℕ) (name : Symbol)
    → (h.structures q).table ≡ none
    → lookup h (suc fuel) (some q) name ≡ (
        if is_adding_map (h.structures q) && (h.structures q).added_name == name
        then some (h.structures q).added_entry
        else lookup h fuel (h.structures q).previous name)
unfolding lookup
lookup_more h fuel q name n = ground arith

pub walk-lookup :
    (h : Heap) (fuel : ℕ) (p : Option ℕ) (name : Symbol) (stack : List (Symbol × MapEntry))
    (base : TargetTable)
    → walk h fuel p ≡ some (stack, base)
    → lookup h fuel p name ≡ or_else (map_get stack name) (map_get base name)
unfolding walk lookup map_get
walk-lookup h fuel none name stack base e =
    let whole : ([], []) ≡ (stack, base) = some-injective ([], []) (stack, base) e in
    ap
      (λ (x : List (Symbol × MapEntry) × TargetTable).
        or_else (map_get x.0 name) (map_get x.1 name))
      whole
walk-lookup h zero (some q) name stack base e = absurd (ground arith)
walk-lookup h (suc fuel) (some q) name stack base e = elim (Option-cases (h.structures q).table) [
  | inr (t, f) ↦ ground arith
  | inl n ↦ elim (Option-cases (walk h fuel (h.structures q).previous)) [
    | inl w ↦ absurd (ground arith)
    | inr (found, w) ↦
        let ih = walk-lookup h fuel (h.structures q).previous name found.0 found.1 w in
        let whole : (extend (h.structures q) found.0, found.1) ≡ (stack, base) =
          some-injective (extend (h.structures q) found.0, found.1) (stack, base)
            (sym (walk_more h fuel q found.0 found.1 n w) ∙ e) in
        lookup_more h fuel q name n
        ∙ rw ih (sym (extend-get (h.structures q) found.0 found.1 name))
        ∙ ap
            (λ (x : List (Symbol × MapEntry) × TargetTable).
              or_else (map_get x.0 name) (map_get x.1 name))
            whole
  ]
]

-- The name stands in the list at most once.
unfoldable pub IsOnce : Symbol → List (Symbol × MapEntry) → Type 0
IsOnce name [] = Unit
IsOnce name ((n, e) ∷ r) = (n ≡ name → map_get r name ≡ none) × IsOnce name r

pub collect-get :
    (stack : List (Symbol × MapEntry)) (base : TargetTable) (name : Symbol)
    → IsOnce name stack
    → (map_get stack name ≢ none → map_get base name ≡ none)
    → map_get (collect stack base) name ≡ or_else (map_get stack name) (map_get base name)
unfolding collect map_get IsOnce
collect-get [] base name o a = refl
collect-get ((n, e) ∷ r) base name (here, o) a =
    let inserted = map_get-map_insert base n name e in
    elim (Bool-cases (n == name)) [
      | inl x ↦
          let alone = here (ground arith) in
          ground (arith, collect-get r (map_insert base n e) name o (λ k. absurd (k alone)))
      | inr x ↦
          ground (arith, collect-get r (map_insert base n e) name o (λ k. inserted ∙ ground arith))
    ]

-- More fuel than the address finds nothing new.
lookup_fuel :
    (h : Heap) (fuel fuel' : ℕ) (p : Option ℕ) (name : Symbol)
    → IsValid h
    → ((q : ℕ) → p ≡ some q → (q < fuel) × (q < fuel') × (q < h.next_structure))
    → lookup h fuel p name ≡ lookup h fuel' p name
unfolding lookup
lookup_fuel h fuel fuel' none name v b = refl
lookup_fuel h zero fuel' (some q) name v b = absurd (omega (arith, (b q refl).0))
lookup_fuel h (suc fuel) zero (some q) name v b = absurd (omega (arith, (b q refl).1))
lookup_fuel h (suc fuel) (suc fuel') (some q) name v b =
    let c = b q refl in
    let ih = lookup_fuel h fuel fuel' (h.structures q).previous name v (λ r e.
      let o = v.older q r c.2 e in
      (omega (arith, o, c.0), omega (arith, o, c.1), omega (arith, o, c.2))) in
    ground (arith, ih)

or_else-none : (x y : Option MapEntry) → or_else x y ≡ none → (x ≡ none) × (y ≡ none)
or_else-none none y e = (refl, e)
or_else-none (some a) y e = absurd (ground arith)

-- What a walk found holds a name once, in the list or in the table.
abbrev pub IsFound : Symbol → List (Symbol × MapEntry) × TargetTable → Type 0
IsFound name x = IsOnce name x.0 × (map_get x.0 name ≢ none → map_get x.1 name ≡ none)

extend-IsFound :
    (s : Structure) (name : Symbol) (found : List (Symbol × MapEntry) × TargetTable)
    → (is_adding_map s ≡ true
        → s.added_name ≡ name
        → (map_get found.0 name ≡ none) × (map_get found.1 name ≡ none))
    → IsFound name found
    → IsFound name (extend s found.0, found.1)
unfolding IsOnce map_get
extend-IsFound s name found new (once, apart) = elim (Bool-cases (is_adding_map s)) [
  | inr a ↦ rw a (once, apart)
  | inl a ↦ rw a (
    (λ x. (new a x).0, once),
    λ k. elim (Bool-cases (s.added_name == name)) [
      | inl x ↦ (new a (ground arith)).1
      | inr x ↦ apart (λ y. k (rw x y))
    ],
  )
]

module _ (h : Heap) (v : IsValid h) (d : HasNoRepeat h) (name : Symbol) where
  -- The names that a chain adds are found once, in the chain or in the table at its end.
  pub walk-IsFound :
      (fuel : ℕ) (p : Option ℕ) (x : List (Symbol × MapEntry) × TargetTable)
      → ((q : ℕ) → p ≡ some q → (q < fuel) × (q < h.next_structure))
      → walk h fuel p ≡ some x
      → IsFound name x
  unfolding walk IsOnce map_get
  walk-IsFound fuel none x b e =
      let whole = some-injective ([], []) x e in subst (λ y. IsFound name y) whole (tt, λ k. refl)
  walk-IsFound zero (some q) x b e = absurd (omega (arith, (b q refl).0))
  walk-IsFound (suc fuel) (some q) x b e =
      let s = h.structures q in
      let c = b q refl in
      let older : (r : ℕ) → s.previous ≡ some r → r < q = λ r f. v.older q r c.1 f in
      elim (Option-cases s.table) [
        | inr (t, f) ↦
            let whole : ([], h.tables t) ≡ x = some-injective ([], h.tables t) x (ground arith) in
            subst (λ y. IsFound name y) whole (tt, λ k. absurd (k refl))
        | inl n ↦ elim (Option-cases (walk h fuel s.previous)) [
          | inl w ↦ absurd (ground arith)
          | inr (found, w) ↦
              let whole =
                some-injective (extend s found.0, found.1) x
                  (sym (walk_more h fuel q found.0 found.1 n w) ∙ e) in
              let ih =
                walk-IsFound fuel s.previous found
                  (λ r f. (omega (arith, older r f, c.0), omega (arith, older r f, c.1))) w in
              let seen = walk-lookup h fuel s.previous s.added_name found.0 found.1 w in
              let same = lookup_fuel h fuel q s.previous s.added_name v (λ r f.
                (omega (arith, older r f, c.0), older r f, omega (arith, older r f, c.1))) in
              subst (λ y. IsFound name y) whole
                (extend-IsFound s name found
                  (λ a m.
                    let new = d.new_name q c.1 n a in
                    subst (λ z. (map_get found.0 z ≡ none) × (map_get found.1 z ≡ none)) m
                      (or_else-none (map_get found.0 s.added_name) (map_get found.1 s.added_name)
                        (sym seen ∙ same ∙ new)))
                  ih)
        ]
      ]
