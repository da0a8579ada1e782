-- ===== src/Snapshot/RoundTrip.antt =====
-- Cells that were written to a snapshot are read back: crates/starlight/src/gc/snapshot/serializer.rs and
-- crates/starlight/src/gc/snapshot/deserializer.rs.
use mathlib.Core.Option.{some-injective}
use js.Common.{
  ℕ, ap, sym, ◌+◌, ◌^◌, ◌<◌, ◌≡◌, ◌∙◌, refl, arith, true, false, some, List, [], ◌∷◌, ◌++◌,
}
use js.Common.{if◌then◌else◌, length, length-append, drop, Option-cases, inl, inr}
use js.Value.{JsValue, is_object, encode_object_value}
use js.Snapshot.{
  Serializer, Deserializer, Format, to_le_bytes, write_u8, write_u32, write_u64, write_gcpointer,
}
use js.Snapshot.Cells.{
  pair_format, via_format, u8_format, u32_format, bool_format, pointer_format, option_format,
  symbol_format, attr_format, map_entry_format, value_format, array_format, serialize_items,
}
use js.Snapshot.Bytes.{append_assoc, length-to_le_bytes, get_u32_lem}
use js.Snapshot.Copied.{
  IsCopied, next_bytes, AreCopied, nothing, item, bytes_of, items_written, items_read,
}
use js.Snapshot.Values.{IsMoved, plain-IsCopied, object-IsCopied}
use js.Snapshot.Classes.{
  ClassFields, key_format, write_link, link_format, transitions_format, holder_format,
  structure_format,
}
use js.Snapshot.Images.{IsClassMoved, structure-IsCopied}

drop-length : (xs ys : List ℕ) → drop (length xs) (xs ++ ys) ≡ ys
drop-length [] ys = refl
drop-length (x ∷ xs) ys = drop-length xs ys

-- The reader that has `bytes`.
abbrev pub over : Deserializer → List ℕ → Deserializer
over d bytes = record d { reader = bytes }

copied_round_trip :
    {A : Type 0} (d : Deserializer) (f : Deserializer → Format A) (x y : A)
    → ((bytes : List ℕ) → IsCopied (over d bytes) (f (over d bytes)) x y)
    → ((bytes output : List ℕ) → (f (over d bytes)).serialize output x ≡ (f d).serialize output x)
    → (before rest : List ℕ)
    → (bytes : List ℕ) × ((f d).serialize before x ≡ some (before ++ bytes))
      × ((f (over d ((before ++ bytes) ++ rest))).deserialize_inplace (length before)
          ≡ some (y, length (before ++ bytes)))
copied_round_trip d f x y k same before rest =
    let bytes = (k []).bytes in
    let all = (before ++ bytes) ++ rest in
    let again : (k all).bytes ≡ bytes =
      some-injective (k all).bytes bytes
        (sym ((k all).written []) ∙ same all [] ∙ sym (same [] []) ∙ (k []).written []) in
    let there : drop (length before) all ≡ (k all).bytes ++ rest =
      ap (drop (length before)) (append_assoc before bytes rest)
      ∙ drop-length before (bytes ++ rest)
      ∙ ap (λ t. t ++ rest) (sym again) in
    let total : length before + length (k all).bytes ≡ length (before ++ bytes) =
      ap (λ t. length before + length t) again ∙ sym (length-append before bytes) in
    (
      bytes,
      sym (same [] before) ∙ (k []).written before,
      (k all).read (length before) rest there ∙ ap (λ n. some (y, n)) total,
    )

-- The values at the same place in the new array.
pub data AreValuesMoved (s : Serializer) (references : List ℕ)
    : List JsValue → List JsValue → Type 0 where
  no_values : AreValuesMoved s references [] []
  plain_value :
      (v : JsValue) {xs ys : List JsValue}
      → v < 2 ^ 64
      → is_object v ≡ false
      → AreValuesMoved s references xs ys
      → AreValuesMoved s references (v ∷ xs) (v ∷ ys)
  object_value :
      (v q : ℕ) {xs ys : List JsValue}
      → is_object v ≡ true
      → IsMoved s references v q
      → AreValuesMoved s references xs ys
      → AreValuesMoved s references (v ∷ xs) (encode_object_value q ∷ ys)

module _ (s : Serializer) (d : Deserializer) where
  values-AreCopied :
      {xs ys : List JsValue}
      → AreValuesMoved s d.references xs ys
      → AreCopied d (value_format s d) xs ys
  values-AreCopied no_values = nothing
  values-AreCopied (plain_value v l n ks) = item (plain-IsCopied s d v l n) (values-AreCopied ks)
  values-AreCopied (object_value v q o m ks) =
      item (object-IsCopied s d v q o m) (values-AreCopied ks)

  values_same :
      (bytes output : List ℕ) (xs : List JsValue)
      → serialize_items (value_format s (over d bytes)) output xs
        ≡ serialize_items (value_format s d) output xs
  unfolding serialize_items value_format
  values_same bytes output [] = refl
  values_same bytes output (x ∷ xs) =
      let first =
        if is_object x
        then write_gcpointer s (write_u8 output 0xff) x
        else some (write_u64 (write_u8 output 0x1f) x) in
      elim (Option-cases first) [
        | inl n ↦ rw n refl
        | inr (out, e) ↦ rw e (values_same bytes out xs)
      ]

  array_same :
      (capacity : ℕ) (xs : List JsValue) (bytes output : List ℕ)
      → (array_format s (over d bytes)).serialize output (capacity, xs)
        ≡ (array_format s d).serialize output (capacity, xs)
  unfolding array_format
  array_same capacity xs bytes output =
      values_same bytes (write_u32 (write_u32 output (length xs)) capacity) xs

  array-IsCopied :
      (capacity : ℕ) (xs ys : List JsValue)
      → AreValuesMoved s d.references xs ys
      → length xs < 2 ^ 32
      → capacity < 2 ^ 32
      → IsCopied d (array_format s d) (capacity, xs) (capacity, ys)
  unfolding array_format write_u32
  array-IsCopied capacity xs ys k l c =
      let ks = values-AreCopied k in
      let first = to_le_bytes 4 (length xs) in
      let second = to_le_bytes 4 capacity in
      record {
        bytes = first ++ (second ++ bytes_of d ks);
        written = (λ output.
            items_written d ks ((output ++ first) ++ second)
            ∙ ap some (
                append_assoc (output ++ first) second (bytes_of d ks)
                ∙ append_assoc output first (second ++ bytes_of d ks)));
        read = (λ pc rest e.
            let (here, after, total) = next_bytes d first (second ++ bytes_of d ks) rest pc e in
            let (here2, after2, total2) =
              next_bytes d second (bytes_of d ks) rest (pc + length first) after in
            let n4 = length-to_le_bytes 4 (length xs) in
            let m4 = length-to_le_bytes 4 capacity in
            let at' : pc + length first ≡ pc + 4 = omega (arith, n4) in
            let at2 : pc + length first + length second ≡ pc + 4 + 4 = omega (arith, n4, m4) in
            let end : pc + 4 + 4 + length (bytes_of d ks)
                ≡ pc + length (first ++ (second ++ bytes_of d ks)) =
              omega (arith, n4, m4, total, total2) in
            rw
              (
                get_u32_lem d (length xs) pc ((second ++ bytes_of d ks) ++ rest) l here,
                get_u32_lem d capacity (pc + 4) (bytes_of d ks ++ rest) c
                    (ap (λ t. drop t d.reader) (sym at') ∙ here2),
                items_read d ks (pc + 4 + 4) rest (ap (λ t. drop t d.reader) (sym at2) ∙ after2),
              )
              (ap (λ n. some ((capacity, ys), n)) end));
      }

module _ (s : Serializer) (d : Deserializer) (before rest : List ℕ) where
  structure_same :
      (x : ClassFields) (bytes output : List ℕ)
      → (structure_format s (over d bytes)).serialize output x
        ≡ (structure_format s d).serialize output x
  unfolding structure_format transitions_format link_format write_link key_format holder_format
      pair_format via_format u8_format u32_format bool_format pointer_format option_format
      symbol_format attr_format map_entry_format
  structure_same x bytes output = refl

  -- A hidden class is written, after any bytes, and where the reader has these bytes and any others after
  -- them, it is read back with its pointers moved, its symbols renamed and the identifier 0, and the
  -- reader stands behind it.
  pub structure_round_trip :
      (x y : ClassFields)
      → IsClassMoved s d.references d.symbols x y
      → (bytes : List ℕ) × ((structure_format s d).serialize before x ≡ some (before ++ bytes))
        × ((structure_format s (over d ((before ++ bytes) ++ rest))).deserialize_inplace
              (length before)
            ≡ some (record y { id = 0 }, length (before ++ bytes)))
  structure_round_trip x y k =
      copied_round_trip d (structure_format s) x (record y { id = 0 })
        (λ bytes. structure-IsCopied s (over d bytes) x y k) (structure_same x) before rest

  -- The elements of an array are read back in their order: values that are no objects as they were, objects at
  -- their new address. The capacity is kept.
  pub array_round_trip :
      (capacity : ℕ) (xs ys : List JsValue)
      → AreValuesMoved s d.references xs ys
      → length xs < 2 ^ 32
      → capacity < 2 ^ 32
      → (bytes : List ℕ) × ((array_format s d).serialize before (capacity, xs)
          ≡ some (before ++ bytes))
        × ((array_format s (over d ((before ++ bytes) ++ rest))).deserialize_inplace (length before)
            ≡ some ((capacity, ys), length (before ++ bytes)))
  array_round_trip capacity xs ys k l c =
      copied_round_trip d (array_format s) (capacity, xs) (capacity, ys)
        (λ bytes. array-IsCopied s (over d bytes) capacity xs ys k l c) (array_same s d capacity xs)
        before rest
