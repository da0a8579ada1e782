-- ===== src/Snapshot/Copied.antt =====
-- What was serialized is read back: crates/starlight/src/gc/snapshot/deserializer.rs.
use js.Common.{ℕ, ap, sym, ◌+◌, ◌≡◌, ◌∙◌, refl, arith, some, List, [], ◌∷◌, ◌++◌}
use js.Common.{length, length-append, drop}
use js.Snapshot.{Deserializer, Format}
use js.Snapshot.Cells.{pair_format, via_format, serialize_items, deserialize_items}
use js.Snapshot.Bytes.{append_assoc, drop_past}

-- `serialize` appends bytes for `x`, and where the reader has these bytes, whatever follows them,
-- `deserialize_inplace` builds `y` and stands after them.
pub record IsCopied {A : Type 0} (d : Deserializer) (f : Format A) (x y : A) : Type 0 where
  pub bytes : List ℕ
  pub written : (output : List ℕ) → f.serialize output x ≡ some (output ++ bytes)
  pub read :
      (pc : ℕ) (rest : List ℕ)
      → drop pc d.reader ≡ bytes ++ rest
      → f.deserialize_inplace pc ≡ some (y, pc + length bytes)

module _ (d : Deserializer) where
  -- The bytes `bs`, then those of `rest`.
  pub next_bytes :
      (bs cs rest : List ℕ) (pc : ℕ)
      → drop pc d.reader ≡ (bs ++ cs) ++ rest
      → (drop pc d.reader ≡ bs ++ (cs ++ rest))
        × (drop (pc + length bs) d.reader ≡ cs ++ rest)
        × (pc + length bs + length cs ≡ pc + length (bs ++ cs))
  next_bytes bs cs rest pc e =
      let here = e ∙ append_assoc bs cs rest in
      (here, drop_past d.reader bs (cs ++ rest) pc here, omega (arith, length-append bs cs))

  pub pair-IsCopied :
      {A B : Type 0} {f : Format A} {g : Format B} {x x' : A} {y y' : B}
      → IsCopied d f x x'
      → IsCopied d g y y'
      → IsCopied d (pair_format f g) (x, y) (x', y')
  unfolding pair_format
  pair-IsCopied {A} {B} {f} {g} {x} {x'} {y} {y'} k l = record {
    bytes = k.bytes ++ l.bytes;
    written = (λ output.
        rw (k.written output)
          (l.written (output ++ k.bytes) ∙ ap some (append_assoc output k.bytes l.bytes)));
    read = (λ pc rest e.
        let (here, after, total) = next_bytes k.bytes l.bytes rest pc e in
        rw (k.read pc (l.bytes ++ rest) here, l.read (pc + length k.bytes) rest after)
          (ap (λ n. some ((x', y'), n)) total));
  }

  pub via-IsCopied :
      {A B : Type 0} (fields : B → A) (build : A → B) {f : Format A} (x : B) {y : A}
      → IsCopied d f (fields x) y
      → IsCopied d (via_format fields build f) x (build y)
  unfolding via_format
  via-IsCopied fields build x k = record {
    bytes = k.bytes;
    written = k.written;
    read = (λ pc rest e. rw (k.read pc rest e) refl);
  }

  -- The bytes of `xs` where each item is copied to the one of `ys`.
  pub data AreCopied {A : Type 0} (f : Format A) : List A → List A → Type 0 where
    nothing : AreCopied f [] []
    item :
        {x y : A} {xs ys : List A}
        → IsCopied d f x y
        → AreCopied f xs ys
        → AreCopied f (x ∷ xs) (y ∷ ys)

  unfoldable pub bytes_of :
      {A : Type 0} {f : Format A} {xs ys : List A} → AreCopied f xs ys → List ℕ
  bytes_of nothing = []
  bytes_of (item k ks) = k.bytes ++ bytes_of ks

  pub items_written :
      {A : Type 0} {f : Format A} {xs ys : List A} (ks : AreCopied f xs ys) (output : List ℕ)
      → serialize_items f output xs ≡ some (output ++ bytes_of ks)
  unfolding serialize_items bytes_of
  items_written nothing output = ap some (sym (append-nil output))
    where
      append-nil : (xs : List ℕ) → xs ++ [] ≡ xs
      append-nil [] = refl
      append-nil (x ∷ xs) = ap (λ t. x ∷ t) (append-nil xs)
  items_written (item k ks) output =
      rw (k.written output)
        (items_written ks (output ++ k.bytes) ∙ ap some (append_assoc output k.bytes (bytes_of ks)))

  pub items_read :
      {A : Type 0} {f : Format A} {xs ys : List A} (ks : AreCopied f xs ys) (pc : ℕ) (rest : List ℕ)
      → drop pc d.reader ≡ bytes_of ks ++ rest
      → deserialize_items f (length xs) pc ≡ some (ys, pc + length (bytes_of ks))
  unfolding deserialize_items bytes_of
  items_read nothing pc rest e =
      (let same : pc ≡ pc + 0 = omega arith in ap (λ n. some ([], n)) same)
  items_read {ys = y ∷ ys} (item k ks) pc rest e =
      let (here, after, total) = next_bytes k.bytes (bytes_of ks) rest pc e in
      rw (k.read pc (bytes_of ks ++ rest) here, items_read ks (pc + length k.bytes) rest after)
        (ap (λ n. some (y ∷ ys, n)) total)

  -- A list of items after the header `head`.
  pub list-IsCopied :
      {A B : Type 0} {f : Format A} {xs ys : List A} {x y : B} (g : Format B) (head : List ℕ)
      (ks : AreCopied f xs ys)
      → ((output : List ℕ) → g.serialize output x ≡ serialize_items f (output ++ head) xs)
      → ((pc : ℕ) (rest : List ℕ)
          → drop pc d.reader ≡ head ++ rest
          → deserialize_items f (length xs) (pc + length head)
            ≡ some (ys, pc + length head + length (bytes_of ks))
          → g.deserialize_inplace pc ≡ some (y, pc + length head + length (bytes_of ks)))
      → IsCopied d g x y
  list-IsCopied {y = y} g head ks w r = record {
    bytes = head ++ bytes_of ks;
    written = (λ output.
        w output
        ∙ items_written ks (output ++ head)
        ∙ ap some (append_assoc output head (bytes_of ks)));
    read = (λ pc rest e.
        let (here, after, total) = next_bytes head (bytes_of ks) rest pc e in
        r pc (bytes_of ks ++ rest) here (items_read ks (pc + length head) rest after)
        ∙ ap (λ n. some (y, n)) total);
  }
