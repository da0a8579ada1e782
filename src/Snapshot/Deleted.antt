-- ===== src/Snapshot/Deleted.antt =====
-- The deleted entries of hidden classes in a snapshot: crates/starlight/src/gc/snapshot/serializer.rs and
-- crates/starlight/src/gc/snapshot/deserializer.rs.
use mathlib.Core.Option.{some-injective}
use js.Common.{ℕ, ap, sym, ◌+◌, ◌≡◌, ◌≢◌, ◌∙◌, arith, none, some, List, ◌++◌}
use js.Common.{length, length-append, get_elem?, Option-cases, inl, inr}
use js.Snapshot.{
  Serializer, Deserializer, to_le_bytes, from_le_bytes, write_u8, write_u32, write_gcpointer,
  get_gcpointer, get_bytes, get_u32, get_reference,
}
use js.Snapshot.Cells.{pair_format, u32_format, pointer_format, option_format}
use js.Snapshot.Bytes.{length-to_le_bytes}
use js.Snapshot.Classes.{DeletedFields, deleted_format}
use js.Snapshot.RoundTrip.{over}

get_u32_ends : (d : Deserializer) (pc : ℕ) (x : ℕ × ℕ) → get_u32 d pc ≡ some x → x.1 ≡ pc + 4
unfolding get_u32
get_u32_ends d pc x h = elim (Option-cases (get_bytes d.reader 4 pc)) [
  | inl n ↦ absurd (ground (arith, (rw n at h)))
  | inr (bs, e) ↦ ap (λ y. y.1) (some-injective x (from_le_bytes bs, pc + 4) (sym (rw e at h)))
]

get_reference_ends :
    (d : Deserializer) (pc : ℕ) (x : ℕ × ℕ) → get_reference d pc ≡ some x → x.1 ≡ pc + 4
unfolding get_reference
get_reference_ends d pc x h = elim (Option-cases (get_u32 d pc)) [
  | inl n ↦ absurd (ground (arith, (rw n at h)))
  | inr (a, e) ↦ elim (Option-cases (get_elem? d.references a.0)) [
    | inl n ↦ absurd (ground (arith, (rw (e, n) at h)))
    | inr (p, e') ↦
        ap (λ y. y.1) (some-injective x (p, a.1) (sym (rw (e, e') at h))) ∙ get_u32_ends d pc a e
  ]
]

deleted_read :
    (s : Serializer) (d : Deserializer) (x : DeletedFields) (from pc : ℕ)
    → (deleted_format s d).deserialize_inplace from ≡ some (x, pc)
    → pc ≡ from + 8
unfolding deleted_format pair_format pointer_format u32_format
deleted_read s d x from pc r = elim (Option-cases (get_reference d from)) [
  | inl n ↦ absurd (ground (arith, (rw n at r)))
  | inr (a, e) ↦ elim (Option-cases (get_u32 d a.1)) [
    | inl n ↦ absurd (ground (arith, (rw (e, n) at r)))
    | inr (b, e') ↦
        let ends : pc ≡ b.1 =
          ap (λ y. y.1)
            (some-injective (x, pc) (record { prev = some a.0; offset = b.0 }, b.1)
              (sym (rw (e, e') at r))) in
        omega (arith, ends, get_u32_ends d a.1 b e', get_reference_ends d from a e)
  ]
]

length-write_u8 : (output : List ℕ) (v : ℕ) → length (write_u8 output v) ≡ length output + 1
unfolding write_u8
length-write_u8 output v =
    omega (arith, length-append output (to_le_bytes 1 v), length-to_le_bytes 1 v)

length-write_u32 : (output : List ℕ) (v : ℕ) → length (write_u32 output v) ≡ length output + 4
unfolding write_u32
length-write_u32 output v =
    omega (arith, length-append output (to_le_bytes 4 v), length-to_le_bytes 4 v)

deleted_none :
    (s : Serializer) (d : Deserializer) (x : DeletedFields) (before after : List ℕ)
    → x.prev ≡ none
    → (deleted_format s d).serialize before x ≡ some after
    → length after ≡ length before + 5
unfolding deleted_format pair_format option_format u32_format
deleted_none s d x before after n w =
    let out = write_u32 (write_u8 before 0) x.offset in
    let same : out ≡ after = some-injective out after (rw n at w) in
    omega (
      arith,
      ap length same,
      length-write_u32 (write_u8 before 0) x.offset,
      length-write_u8 before 0,
    )

deleted_some :
    (s : Serializer) (d : Deserializer) (x : DeletedFields) (p : ℕ) (before after : List ℕ)
    → x.prev ≡ some p
    → (deleted_format s d).serialize before x ≡ some after
    → length after ≡ length before + 9
unfolding deleted_format pair_format option_format pointer_format u32_format write_gcpointer
deleted_some s d x p before after n w = elim (Option-cases (get_gcpointer s p)) [
  | inl m ↦ absurd (ground (arith, (rw (n, m) at w)))
  | inr (i, m) ↦
      let tagged = write_u8 before 1 in
      let out = write_u32 (write_u32 tagged i) x.offset in
      let same : out ≡ after = some-injective out after (rw (n, m) at w) in
      omega (
        arith,
        ap length same,
        length-write_u32 (write_u32 tagged i) x.offset,
        length-write_u32 tagged i,
        length-write_u8 before 1,
      )
]

module _ (s : Serializer) (d : Deserializer) where
  -- What `serialize` writes for a `DeletedEntry` is not what `deserialize_inplace` reads: where the reader has these
  -- bytes and any others after them, it does not stand behind them when it returns an entry.
  pub deleted_misread :
      (e e' : DeletedFields) (before after rest : List ℕ) (pc : ℕ)
      → (deleted_format s d).serialize before e ≡ some after
      → (deleted_format s (over d (after ++ rest))).deserialize_inplace (length before)
        ≡ some (e', pc)
      → pc ≢ length after
  deleted_misread e e' before after rest pc w r same =
      let read : pc ≡ length before + 8 =
        deleted_read s (over d (after ++ rest)) e' (length before) pc r in
      elim (Option-cases e.prev) [
        | inl n ↦ absurd (omega (arith, read, same, deleted_none s d e before after n w))
        | inr (p, h) ↦ absurd (omega (arith, read, same, deleted_some s d e p before after h w))
      ]
