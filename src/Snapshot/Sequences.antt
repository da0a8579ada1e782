-- ===== src/Snapshot/Sequences.antt =====
-- Strings and vectors are read back: crates/starlight/src/gc/snapshot/deserializer.rs.
use js.Common.{
  ℕ, ap, sym, ◌+◌, ◌^◌, ◌<◌, ◌≡◌, ◌∙◌, refl, arith, Bool, true, ◌&&◌, List, [], ◌∷◌, ◌++◌,
}
use js.Common.{ltb, length, drop}
use js.Snapshot.{Serializer, Deserializer, Format, to_le_bytes, write_u32, write_u64}
use js.Snapshot.Cells.{serialize_items, deserialize_items, u8_format, vec_format, js_string_format}
use js.Snapshot.Bytes.{length-to_le_bytes, append_assoc, get_u32_lem, get_u64_lem}
use js.Snapshot.Copied.{IsCopied, next_bytes, list-IsCopied, AreCopied, nothing, item}
use js.Snapshot.Values.{u8-IsCopied}

unfoldable pub all_bytes : List ℕ → Bool
all_bytes [] = true
all_bytes (b ∷ bs) = ltb b 256 && all_bytes bs

module _ (s : Serializer) (d : Deserializer) where
  u8s-AreCopied : (bs : List ℕ) → all_bytes bs ≡ true → AreCopied d (u8_format s d) bs bs
  unfolding all_bytes
  u8s-AreCopied [] h = nothing
  u8s-AreCopied (b ∷ bs) h =
      item (u8-IsCopied s d b (ground (arith, h))) (u8s-AreCopied bs (ground (arith, h)))

  -- The bytes of a string.
  pub js_string-IsCopied :
      (bs : List ℕ)
      → all_bytes bs ≡ true
      → length bs < 2 ^ 32
      → IsCopied d (js_string_format s d) bs bs
  unfolding js_string_format write_u32
  js_string-IsCopied bs h l =
      list-IsCopied d (js_string_format s d) (to_le_bytes 4 (length bs)) (u8s-AreCopied bs h)
        (λ output. refl)
        (λ pc rest e items.
          let four = length-to_le_bytes 4 (length bs) in
          rw (get_u32_lem d (length bs) pc rest l e)
            (ap (λ n. deserialize_items (u8_format s d) (length bs) (pc + n)) (sym four) ∙ items))

  -- The items of a vector in their order, and its capacity.
  pub vec-IsCopied :
      {A : Type 0} {f : Format A} {xs ys : List A} (capacity : ℕ) (ks : AreCopied d f xs ys)
      → length xs < 2 ^ 64
      → capacity < 2 ^ 64
      → IsCopied d (vec_format s d f) (capacity, xs) (capacity, ys)
  unfolding vec_format write_u64
  vec-IsCopied {f = f} {xs = xs} capacity ks l c =
      let first = to_le_bytes 8 (length xs) in
      let second = to_le_bytes 8 capacity in
      list-IsCopied d (vec_format s d f) (first ++ second) ks
        (λ output. ap (λ o. serialize_items f o xs) (append_assoc output first second))
        (λ pc rest e items.
          let (here, after, total) = next_bytes d first second rest pc e in
          let a8 : length first ≡ 8 = length-to_le_bytes 8 (length xs) in
          let b8 : length second ≡ 8 = length-to_le_bytes 8 capacity in
          let start : pc + 8 + 8 ≡ pc + length (first ++ second) = omega (arith, total, a8, b8) in
          let next : pc + length first ≡ pc + 8 = omega (arith, a8) in
          rw
            (
              get_u64_lem d (length xs) pc (second ++ rest) l here,
              get_u64_lem d capacity (pc + 8) rest c (ap (λ t. drop t d.reader) (sym next) ∙ after),
              ap (deserialize_items f (length xs)) start ∙ items,
            )
            refl)
