-- ===== src/Structure/Tables.antt =====
-- The tables of a hidden class (crates/starlight/src/vm/structure.rs): `MapEntry`, the transitions and
-- the offsets of deleted properties. A `HashMap` is a list of keys with their values, without an order
-- that anything here depends on; a `Symbol` is a number.
use js.Common.{ℕ, ◌+◌, ◌-◌, ◌%◌, ◌^◌, Bool, true, false, ◌&&◌, Option, none, some, List, [], ◌∷◌}
use js.Common.{◌==◌, if◌then◌else◌}
use js.Attributes.{AttrSafe, raw, not_found, is_not_found}

abbrev pub Symbol : Type 0
Symbol = ℕ

pub record MapEntry : Type 0 where
  pub offset : ℕ
  pub attrs : AttrSafe

unfoldable pub entry_not_found : MapEntry
entry_not_found = record { offset = 2 ^ 32 - 1; attrs = not_found }

unfoldable pub is_entry_not_found : MapEntry → Bool
is_entry_not_found e = is_not_found e.attrs

-- `HashMap<Symbol, MapEntry>`
abbrev pub TargetTable : Type 0
TargetTable = List (Symbol × MapEntry)

pub record TransitionKey : Type 0 where
  pub name : Symbol
  pub attrs : ℕ

unfoldable pub same_key : TransitionKey → TransitionKey → Bool
same_key k l = k.name == l.name && k.attrs == l.attrs

-- `HashMap<TransitionKey, WeakRef<Structure>>`; a structure is its address.
abbrev pub Table : Type 0
Table = List (TransitionKey × ℕ)

unfoldable pub key_get : Table → TransitionKey → Option ℕ
key_get [] key = none
key_get ((k, p) ∷ t) key = if same_key k key then some p else key_get t key

unfoldable pub key_insert : Table → TransitionKey → ℕ → Table
key_insert [] key p = (key, p) ∷ []
key_insert ((k, q) ∷ t) key p =
    let rest = key_insert t key p in if same_key k key then (k, p) ∷ t else (k, q) ∷ rest

-- `Table(None)` is never built.
pub data Transition : Type 0 where
  no_transition : Transition
  table : Table → Transition
  pair : TransitionKey → ℕ → Transition

pub record TransitionsTable : Type 0 where
  pub var : Transition
  pub enabled : Bool
  pub unique : Bool
  pub indexed : Bool

unfoldable pub new_transitions : Bool → Bool → TransitionsTable
new_transitions enabled indexed = record {
  var = no_transition;
  unique = false;
  indexed = indexed;
  enabled = enabled;
}

unfoldable pub set_indexed : TransitionsTable → Bool → TransitionsTable
set_indexed t indexed = record t { indexed = indexed }

unfoldable pub enable_unique_transition : TransitionsTable → TransitionsTable
enable_unique_transition t = record t { unique = true }

abbrev pub key_of : Symbol → AttrSafe → TransitionKey
key_of name attrs = record { name = name; attrs = raw attrs }

unfoldable pub insert : TransitionsTable → Symbol → AttrSafe → ℕ → TransitionsTable
insert t name attrs map =
    let key = key_of name attrs in
    record t {
      var = elim t.var [
        | no_transition ↦ pair key map
        | table entries ↦ table (key_insert entries key map)
        | pair x y ↦ table (key_insert ((x, y) ∷ []) key map)
      ];
    }

-- `alive p`: the structure at `p` has not been collected, so a `WeakRef` to it can be upgraded.
module _ (alive : ℕ → Bool) where
  abbrev upgrade : Option ℕ → Option ℕ
  upgrade none = none
  upgrade (some p) = if alive p then some p else none

  unfoldable pub find : TransitionsTable → Symbol → AttrSafe → Option ℕ
  find t name attrs =
      let key = key_of name attrs in
      elim t.var [
        | no_transition ↦ none
        | table entries ↦ upgrade (key_get entries key)
        | pair key' map ↦ if same_key key key' then upgrade (some map) else none
      ]

-- The list of `DeletedEntry`s, the last one pushed first.
pub record DeletedEntryHolder : Type 0 where
  pub entry : List ℕ
  pub size : ℕ

unfoldable pub push : DeletedEntryHolder → ℕ → DeletedEntryHolder
push d offset = record { entry = offset ∷ d.entry; size = (d.size + 1) % 2 ^ 32 }

-- `none` where `unwrap_unchecked` has no entry.
unfoldable pub pop : DeletedEntryHolder → Option (ℕ × DeletedEntryHolder)
pop d = elim d.entry [
  | [] ↦ none
  | offset ∷ prev ↦ some (offset, record { entry = prev; size = (d.size + 2 ^ 32 - 1) % 2 ^ 32 })
]

unfoldable pub no_deleted : DeletedEntryHolder → Bool
no_deleted d = d.size == 0
