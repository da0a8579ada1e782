-- ===== src/Object/InMap.antt =====
-- The part of `define_own_indexed_property_internal` (crates/starlight/src/vm/object.rs) that works
-- on the map of sparse elements, against `[[DefineOwnProperty]]` on one property.
use mathlib.Core.Path.{subst}
use js.Common.{
  ℕ, ◌+◌, ◌%◌, ◌^◌, ◌<◌, ◌≤◌, ◌≡◌, ◌∙◌, sym, arith, refl, Bool, true, false, not, ◌&&◌, Option,
  none, some,
}
use js.Common.{
  leb, ◌==◌, if◌then◌else◌, ◌>>=◌, map_get, map_insert, map_get-map_insert, Bool-cases,
  Option-cases, inl, inr,
}
use js.Value.{is_object}
use js.Property.{StoredSlot, PropertyDescriptor, Cells, first_word}
use js.Property.Define
use js.Property.Define.{Outcome, done, throw, is_defined_property_accepted, merge}
use js.Object.Elements.{IndexedElements, set_length, ensure_map}
use js.Object.Element.{find_in}
use js.Object.Defs.{
  State, Engine, rejected, not_extensible, Completion, ok, type_error, refuse, is_extensible,
}
use js.Object.Index.{mark_indexed, with_indexed, define_in_map}
use js.Object.Dense.{mark_indexed-keeps}

-- What stands in the map at an index after the definition, if the elements are sparse.
pub record IsChanged (s s' : State) (i : ℕ) (x : Option StoredSlot) : Type 0 where
  pub same_flags : s'.object.flags ≡ s.object.flags
  pub same_slots : s'.object.slots ≡ s.object.slots
  pub same_dense : s'.object.indexed.flags ≡ s.object.indexed.flags
  pub same_vector : s'.object.indexed.vector ≡ s.object.indexed.vector
  pub found :
      (j : ℕ)
      → find_in s'.object.indexed.map j ≡ (if i == j then x else find_in s.object.indexed.map j)
  pub longer : s.object.indexed.length ≤ s'.object.indexed.length
  pub reached :
      (y : StoredSlot)
      → find_in s.object.indexed.map i ≡ none
      → x ≡ some y
      → i < s'.object.indexed.length

-- `ensure_map` makes an empty map if there is none.
ensure_map_lem :
    (e : IndexedElements)
    → ((j : ℕ) → map_get (ensure_map e).1 j ≡ find_in e.map j)
      × ((j : ℕ) → find_in (ensure_map e).0.map j ≡ find_in e.map j)
      × ((ensure_map e).0.vector ≡ e.vector)
      × ((ensure_map e).0.length ≡ e.length)
      × ((ensure_map e).0.flags ≡ e.flags)
unfolding ensure_map map_get
ensure_map_lem e = elim (Option-cases e.map) [
  | inl n ↦ (λ j. ground arith, λ j. ground arith, ground arith, ground arith, ground arith)
  | inr (m, q) ↦ (λ j. ground arith, λ j. ground arith, ground arith, ground arith, ground arith)
]

module _ (engine : Engine) where
  open engine use {host, place}

  -- `[[DefineOwnProperty]]` on a property that may be there, of an object that may be extensible.
  unfoldable pub define_element :
      Cells
      → Option StoredSlot
      → Bool
      → PropertyDescriptor
      → Bool
      → Option (Cells × Option StoredSlot × Completion)
  define_element h none extensible desc throwable =
      if not extensible then some (h, none, refuse throwable not_extensible) else (do
        (cells, entry) ← js.Property.Define.new place h desc
        some (cells, some entry, ok true))
  define_element h (some entry) extensible desc throwable = do
    outcome ← is_defined_property_accepted host h entry desc throwable
    elim outcome [
      | throw why ↦ some (h, some entry, type_error (rejected why))
      | done accepted returned ↦
          if accepted
          then (do
            (cells, entry') ← merge place h entry desc
            some (cells, some entry', ok returned))
          else some (h, some entry, ok returned)
    ]

  module _ (s : State) (i : ℕ) (desc : PropertyDescriptor) (throwable : Bool)
      (short : i + 1 < 2 ^ 32) where
    -- `define_in_map` does on the map what `define_element` does to the property at the index.
    pub record IsRefined (before : Option StoredSlot) : Type 0 where
      pub stops :
          define_element s.cells before (is_extensible s.object) desc throwable ≡ none
          → define_in_map engine s i desc throwable ≡ none
      pub gives :
          (h : Cells) (x : Option StoredSlot) (c : Completion)
          → define_element s.cells before (is_extensible s.object) desc throwable ≡ some (h, x, c)
          → (s' : State) × (define_in_map engine s i desc throwable ≡ some (s', c))
            × (s'.cells ≡ h)
            × IsChanged s s' i x

    IsRefined-found :
        (entry : StoredSlot) → find_in s.object.indexed.map i ≡ some entry → IsRefined (some entry)
    unfolding define_in_map define_element ensure_map
    IsRefined-found entry f = elim (Option-cases s.object.indexed.map) [
      | inl n ↦ absurd (ground arith)
      | inr (map, m) ↦
          let at_i : map_get map i ≡ some entry = ground arith in
          let kept : IsChanged s s i (some entry) = record {
            same_flags = refl;
            same_slots = refl;
            same_dense = refl;
            same_vector = refl;
            found = λ j. ground arith;
            longer = ground arith;
            reached = λ w gone q. absurd (ground arith);
          } in
          let outcome = is_defined_property_accepted host s.cells entry desc throwable in
          elim (Option-cases outcome) [
            | inl n ↦ record { stops = λ e. ground arith; gives = λ h x c e. absurd (ground arith) }
            | inr (throw why, a) ↦ record {
              stops = λ e. absurd (ground arith);
              gives = λ h x c e. (
                s,
                ground arith,
                ground arith,
                subst (λ w. IsChanged s s i w) (ground arith) kept,
              );
            }
            | inr (done false r, a) ↦ record {
              stops = λ e. absurd (ground arith);
              gives = λ h x c e. (
                s,
                ground arith,
                ground arith,
                subst (λ w. IsChanged s s i w) (ground arith) kept,
              );
            }
            | inr (done true r, a) ↦ elim (Option-cases (merge place s.cells entry desc)) [
              | inl n ↦ record {
                stops = λ e. ground arith;
                gives = λ h x c e. absurd (ground arith);
              }
              | inr ((h', entry'), q) ↦ record {
                stops = λ e. absurd (ground arith);
                gives = λ h x c e. (
                  record (with_indexed s (record s.object.indexed {
                    non_gc = s.object.indexed.non_gc && not (is_object (first_word desc));
                    map = some (map_insert map i entry');
                  })) { cells = h' },
                  ground arith,
                  ground arith,
                  record {
                    same_flags = refl;
                    same_slots = refl;
                    same_dense = refl;
                    same_vector = refl;
                    found = λ j. ground (arith, map_get-map_insert map i j entry');
                    longer = ground arith;
                    reached = λ w gone q. absurd (ground arith);
                  },
                );
              }
            ]
          ]
    ]

    IsRefined-new : find_in s.object.indexed.map i ≡ none → IsRefined none
    unfolding define_in_map define_element set_length
    IsRefined-new f =
        let e = s.object.indexed in
        let (gets, finds, same_vector, same_length, same_dense) = ensure_map_lem e in
        let at_i : map_get (ensure_map e).1 i ≡ none = gets i ∙ f in
        let s1 = with_indexed s (ensure_map e).0 in
        let (same_indexed, same_flags, same_slots, same_cells) = mark_indexed-keeps s1 in
        elim (Bool-cases (is_extensible s.object)) [
          | inr n ↦ record {
            stops = λ e. absurd (ground arith);
            gives = λ h x c e. (
              s1,
              ground arith,
              ground arith,
              record {
                same_flags = refl;
                same_slots = refl;
                same_dense = same_dense;
                same_vector = same_vector;
                found = λ j. ground (arith, finds j);
                longer = ground arith;
                reached = λ w _ q. absurd (ground arith);
              },
            );
          }
          | inl y ↦ elim (Option-cases (js.Property.Define.new place s.cells desc)) [
            | inl n ↦ record { stops = λ e. ground arith; gives = λ h x c e. absurd (ground arith) }
            | inr ((h', entry), q) ↦
                let long =
                  if leb (ensure_map e).0.length i
                  then set_length (ensure_map e).0 ((i + 1) % 2 ^ 32)
                  else (ensure_map e).0 in
                record {
                  stops = λ e. absurd (ground arith);
                  gives = λ h x c e. (
                    record (with_indexed (mark_indexed s1) (record long {
                      non_gc =
                          (ensure_map s.object.indexed).0.non_gc
                          && not (is_object (first_word desc));
                      map = some (map_insert (ensure_map s.object.indexed).1 i entry);
                    })) { cells = h' },
                    ground arith,
                    ground arith,
                    record {
                      same_flags = same_flags;
                      same_slots = same_slots;
                      same_dense = ground arith;
                      same_vector = ground arith;
                      found = λ j. ground (
                        arith,
                        gets j,
                        map_get-map_insert (ensure_map s.object.indexed).1 i j entry,
                      );
                      longer = ground arith;
                      reached = λ w _ q. ground arith;
                    },
                  );
                }
          ]
        ]

    pub refined : IsRefined (find_in s.object.indexed.map i)
    refined = elim (Option-cases (find_in s.object.indexed.map i)) [
      | inl f ↦ subst IsRefined (sym f) (IsRefined-new f)
      | inr (entry, f) ↦ subst IsRefined (sym f) (IsRefined-found entry f)
    ]
