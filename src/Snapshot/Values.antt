-- ===== src/Snapshot/Values.antt =====
-- Numbers, pointers, symbols and values are read back: crates/starlight/src/gc/snapshot/deserializer.rs.
use js.Common.{
  ℕ, ap, ◌+◌, ◌%◌, ◌^◌, ◌<◌, ◌≤◌, ◌≡◌, ◌∙◌, refl, arith, Bool, true, false, none, some, List, ◌++◌,
}
use js.Common.{ltb, if◌then◌else◌, length, get_elem?, drop}
use js.Value.{JsValue, is_object, encode_object_value}
use js.Attributes.{AttrSafe, raw}
use js.Property.{StoredSlot}
use js.Structure.Tables.{MapEntry}
use js.Snapshot.{
  Symbol, key, private, index, Serializer, Deserializer, Format, to_le_bytes, write_u8, write_u32,
  write_u64, get_u8, position, symbol_index, get_gcpointer, write_gcpointer, write_symbol,
  symbol_of, get_reference, get_symbol, to_private,
}
use js.Snapshot.Cells.{
  u8_format, u32_format, bool_format, pointer_format, symbol_format, get_value, value_format,
  get_option, option_format, attr_format, of_raw, map_entry_format, stored_slot_format,
}
use js.Snapshot.Bytes.{length-to_le_bytes, append_assoc, get_u8_lem, get_u32_lem, get_u64_lem}
use js.Snapshot.Copied.{IsCopied, next_bytes, pair-IsCopied, via-IsCopied}

-- The pointer `p` was at an index of the references at which the reader has `q`.
pub record IsMoved (s : Serializer) (references : List ℕ) (p q : ℕ) : Type 0 where
  pub i : ℕ
  pub small : i < 2 ^ 32
  pub old : position s.reference_map p ≡ some i
  pub new : get_elem? references i ≡ some q

-- The symbol of the writer that becomes that of the reader. Predefined keys keep their identifier.
pub data IsRenamed (s : Serializer) (symbols : List Symbol) : Symbol → Symbol → Type 0 where
  same_index : (i : ℕ) → i < 2 ^ 32 → IsRenamed s symbols (index i) (index i)
  old_key : (id : ℕ) → id < 128 → IsRenamed s symbols (key id) (key id)
  new_key :
      (id i : ℕ) (t : Symbol)
      → 128 ≤ id
      → i < 2 ^ 32
      → symbol_index s.symbol_map id ≡ some i
      → get_elem? symbols i ≡ some t
      → IsRenamed s symbols (key id) t
  new_private :
      (id i id' : ℕ)
      → i < 2 ^ 32
      → symbol_index s.symbol_map id ≡ some i
      → get_elem? symbols i ≡ some (key id')
      → IsRenamed s symbols (private id) (private id')

module _ (s : Serializer) (d : Deserializer) where
  -- Bytes of a tag and of what comes after it.
  tagged :
      (tag n v pc : ℕ) (rest : List ℕ)
      → tag < 256
      → drop pc d.reader ≡ (to_le_bytes 1 tag ++ to_le_bytes n v) ++ rest
      → (get_u8 d pc ≡ some (tag, pc + 1))
        × (drop (pc + 1) d.reader ≡ to_le_bytes n v ++ rest)
        × (pc + 1 + n ≡ pc + length (to_le_bytes 1 tag ++ to_le_bytes n v))
  unfolding to_le_bytes
  tagged tag n v pc rest h e =
      let (here, after, total) = next_bytes d (to_le_bytes 1 tag) (to_le_bytes n v) rest pc e in
      (
        get_u8_lem d tag pc (to_le_bytes n v ++ rest) h here,
        after,
        omega (arith, length-to_le_bytes n v, total),
      )

  pub u8-IsCopied : (v : ℕ) → v < 256 → IsCopied d (u8_format s d) v v
  unfolding u8_format write_u8 to_le_bytes
  u8-IsCopied v h = record {
    bytes = to_le_bytes 1 v;
    written = (λ output. refl);
    read = (λ pc rest e. get_u8_lem d v pc rest h e);
  }

  pub u32-IsCopied : (v : ℕ) → v < 2 ^ 32 → IsCopied d (u32_format s d) v v
  unfolding u32_format write_u32 to_le_bytes
  u32-IsCopied v h = record {
    bytes = to_le_bytes 4 v;
    written = (λ output. refl);
    read = (λ pc rest e. get_u32_lem d v pc rest h e);
  }

  pub bool-IsCopied : (b : Bool) → IsCopied d (bool_format s d) b b
  unfolding bool_format
  bool-IsCopied true = via-IsCopied d (λ b. if b then 1 else 0) _ true (u8-IsCopied 1 (omega arith))
  bool-IsCopied false =
      via-IsCopied d (λ b. if b then 1 else 0) _ false (u8-IsCopied 0 (omega arith))

  reference_read :
      (p q pc : ℕ) (rest : List ℕ) (k : IsMoved s d.references p q)
      → drop pc d.reader ≡ to_le_bytes 4 k.i ++ rest
      → get_reference d pc ≡ some (q, pc + 4)
  unfolding get_reference
  reference_read p q pc rest k e = rw (get_u32_lem d k.i pc rest k.small e, k.new) refl

  pointer_written :
      (p q : ℕ) (output : List ℕ) (k : IsMoved s d.references p q)
      → write_gcpointer s output p ≡ some (output ++ to_le_bytes 4 k.i)
  unfolding write_gcpointer get_gcpointer write_u32
  pointer_written p q output k =
      let same : k.i % 2 ^ 32 ≡ k.i = omega (arith, k.small) in rw (k.old, same) refl

  pub pointer-IsCopied :
      {p q : ℕ} → IsMoved s d.references p q → IsCopied d (pointer_format s d) p q
  unfolding pointer_format to_le_bytes
  pointer-IsCopied {p} {q} k = record {
    bytes = to_le_bytes 4 k.i;
    written = (λ output. pointer_written p q output k);
    read = (λ pc rest e. reference_read p q pc rest k e);
  }

  symbol_read :
      (tag v pc : ℕ) (t : Symbol) (rest : List ℕ)
      → tag < 256
      → v < 2 ^ 32
      → symbol_of d tag v ≡ some t
      → drop pc d.reader ≡ (to_le_bytes 1 tag ++ to_le_bytes 4 v) ++ rest
      → get_symbol d pc ≡ some (t, pc + length (to_le_bytes 1 tag ++ to_le_bytes 4 v))
  unfolding get_symbol
  symbol_read tag v pc t rest h l k e =
      let (first, after, total) = tagged tag 4 v pc rest h e in
      rw (first, get_u32_lem d v (pc + 1) rest l after, k) (ap (λ n. some (t, n)) total)

  pub symbol-IsCopied :
      {x y : Symbol} → IsRenamed s d.symbols x y → IsCopied d (symbol_format s d) x y
  unfolding symbol_format write_symbol write_u8 write_u32 symbol_of to_private
  symbol-IsCopied (same_index i l) = record {
    bytes = to_le_bytes 1 0xff ++ to_le_bytes 4 i;
    written = (λ output. ap some (append_assoc output (to_le_bytes 1 0xff) (to_le_bytes 4 i)));
    read = (λ pc rest e. symbol_read 0xff i pc (index i) rest (omega arith) l refl e);
  }
  symbol-IsCopied (old_key id l) = record {
    bytes = to_le_bytes 1 0x1f ++ to_le_bytes 4 id;
    written = (λ output.
        let public' : ltb id 128 ≡ true = ground (arith, l) in
        rw public' (ap some (append_assoc output (to_le_bytes 1 0x1f) (to_le_bytes 4 id))));
    read =
        (λ pc rest e. symbol_read 0x1f id pc (key id) rest (omega arith) (omega (arith, l)) refl e);
  }
  symbol-IsCopied (new_key id i t h l a b) = record {
    bytes = to_le_bytes 1 0x2f ++ to_le_bytes 4 i;
    written = (λ output.
        let later : ltb id 128 ≡ false = ground (arith, h) in
        rw (later, a) (ap some (append_assoc output (to_le_bytes 1 0x2f) (to_le_bytes 4 i))));
    read = (λ pc rest e. symbol_read 0x2f i pc t rest (omega arith) l b e);
  }
  symbol-IsCopied (new_private id i id' l a b) = record {
    bytes = to_le_bytes 1 0x3f ++ to_le_bytes 4 i;
    written =
        (λ output. rw a (ap some (append_assoc output (to_le_bytes 1 0x3f) (to_le_bytes 4 i))));
    read = (λ pc rest e. symbol_read 0x3f i pc (private id') rest (omega arith) l (rw b refl) e);
  }

  -- A value that is no object is read back as it was.
  pub plain-IsCopied :
      (v : JsValue) → v < 2 ^ 64 → is_object v ≡ false → IsCopied d (value_format s d) v v
  unfolding value_format write_u8 write_u64 get_value
  plain-IsCopied v l n = record {
    bytes = to_le_bytes 1 0x1f ++ to_le_bytes 8 v;
    written =
        (λ output. rw n (ap some (append_assoc output (to_le_bytes 1 0x1f) (to_le_bytes 8 v))));
    read = (λ pc rest e.
        let (first, after, total) = tagged 0x1f 8 v pc rest (omega arith) e in
        rw (first, get_u64_lem d v (pc + 1) rest l after) (ap (λ n. some (v, n)) total));
  }

  -- An object is read back as the object at the new address.
  pub object-IsCopied :
      (v q : ℕ)
      → is_object v ≡ true
      → IsMoved s d.references v q
      → IsCopied d (value_format s d) v (encode_object_value q)
  unfolding value_format write_u8 get_value
  object-IsCopied v q o k = record {
    bytes = to_le_bytes 1 0xff ++ to_le_bytes 4 k.i;
    written = (λ output. rw o (
        pointer_written v q (output ++ to_le_bytes 1 0xff) k
        ∙ ap some (append_assoc output (to_le_bytes 1 0xff) (to_le_bytes 4 k.i))));
    read = (λ pc rest e.
        let (first, after, total) = tagged 0xff 4 k.i pc rest (omega arith) e in
        rw (first, reference_read v q (pc + 1) rest k after)
          (ap (λ n. some (encode_object_value q, n)) total));
  }

  pub none-IsCopied : {A : Type 0} (f : Format A) → IsCopied d (option_format s d f) none none
  unfolding option_format get_option write_u8 to_le_bytes
  none-IsCopied f = record {
    bytes = to_le_bytes 1 0;
    written = (λ output. refl);
    read = (λ pc rest e. rw (get_u8_lem d 0 pc rest (omega arith) e) refl);
  }

  pub some-IsCopied :
      {A : Type 0} {f : Format A} {x y : A}
      → IsCopied d f x y
      → IsCopied d (option_format s d f) (some x) (some y)
  unfolding option_format get_option write_u8 to_le_bytes
  some-IsCopied {A} {f} {x} {y} k = record {
    bytes = to_le_bytes 1 1 ++ k.bytes;
    written = (λ output.
        k.written (output ++ to_le_bytes 1 1)
        ∙ ap some (append_assoc output (to_le_bytes 1 1) k.bytes));
    read = (λ pc rest e.
        let (here, after, total) = next_bytes d (to_le_bytes 1 1) k.bytes rest pc e in
        rw (get_u8_lem d 1 pc (k.bytes ++ rest) (omega arith) here, k.read (pc + 1) rest after)
          (ap (λ n. some (some y, n)) total));
  }

  pub attr-IsCopied : (a : AttrSafe) → raw a < 2 ^ 32 → IsCopied d (attr_format s d) a a
  unfolding attr_format of_raw
  attr-IsCopied a l = via-IsCopied d raw of_raw a (u32-IsCopied (raw a) l)

  pub map_entry-IsCopied :
      (e : MapEntry)
      → e.offset < 2 ^ 32
      → raw e.attrs < 2 ^ 32
      → IsCopied d (map_entry_format s d) e e
  unfolding map_entry_format
  map_entry-IsCopied e l h =
      via-IsCopied d (λ e. (e.offset, e.attrs)) (λ a. record { offset = a.0; attrs = a.1 }) e
        (pair-IsCopied d (u32-IsCopied e.offset l) (attr-IsCopied e.attrs h))

  pub stored_slot-IsCopied :
      (x : StoredSlot) {v : JsValue}
      → IsCopied d (value_format s d) x.value v
      → raw x.attributes < 2 ^ 32
      → IsCopied d (stored_slot_format s d) x (record { value = v; attributes = x.attributes })
  unfolding stored_slot_format
  stored_slot-IsCopied x k h =
      via-IsCopied d (λ s. (s.value, s.attributes)) (λ a. record { value = a.0; attributes = a.1 })
        x (pair-IsCopied d k (attr-IsCopied x.attributes h))
