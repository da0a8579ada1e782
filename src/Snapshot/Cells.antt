-- ===== src/Snapshot/Cells.antt =====
-- The formats of values in a snapshot: crates/starlight/src/gc/snapshot/serializer.rs and
-- crates/starlight/src/gc/snapshot/deserializer.rs. The fields of a struct are written one after the other and read in
-- the same order: `pair_format` and `via_format`. Pointers are addresses.
use js.Common.{ℕ, zero, suc, Bool, not, Option, none, some, List, [], ◌∷◌}
use js.Common.{◌==◌, if◌then◌else◌, length, ◌>>=◌}
use js.Value.{JsValue, is_object, encode_object_value}
use js.Attributes.{AttrSafe, raw}
use js.Property.{StoredSlot}
use js.Structure.Tables.{MapEntry}
use js.Snapshot.{
  Symbol, Serializer, Deserializer, Format, write_u8, write_u32, write_u64, write_gcpointer,
  write_symbol, get_u8, get_u32, get_u64, get_reference, get_symbol,
}

-- `transmute` of the word.
unfoldable pub of_raw : ℕ → AttrSafe
of_raw v = record { attributes = record { raw = v } }

-- Two fields, one after the other.
unfoldable pub pair_format : {A B : Type 0} → Format A → Format B → Format (A × B)
pair_format f g = record {
  serialize = (λ output x. f.serialize output x.0 >>= (λ output'. g.serialize output' x.1));
  deserialize_inplace = (λ pc.
      f.deserialize_inplace pc
      >>= (λ a. g.deserialize_inplace a.1 >>= (λ b. some ((a.0, b.0), b.1))));
}

-- A struct with the fields `fields`, which `build` builds anew.
unfoldable pub via_format : {A B : Type 0} → (B → A) → (A → B) → Format A → Format B
via_format fields build f = record {
  serialize = (λ output x. f.serialize output (fields x));
  deserialize_inplace = (λ pc. f.deserialize_inplace pc >>= (λ a. some (build a.0, a.1)));
}

-- `for item in self.iter() { item.serialize(serializer) }`
unfoldable pub serialize_items : {A : Type 0} → Format A → List ℕ → List A → Option (List ℕ)
serialize_items f output [] = some output
serialize_items f output (x ∷ xs) =
    f.serialize output x >>= (λ output'. serialize_items f output' xs)

unfoldable pub deserialize_items : {A : Type 0} → Format A → ℕ → ℕ → Option (List A × ℕ)
deserialize_items f zero pc = some ([], pc)
deserialize_items f (suc n) pc =
    f.deserialize_inplace pc >>= (λ a. deserialize_items f n a.1 >>= (λ b. some (a.0 ∷ b.0, b.1)))

module _ (serializer : Serializer) (deserializer : Deserializer) where
  unfoldable pub u8_format : Format ℕ
  u8_format = record {
    serialize = (λ output v. some (write_u8 output v));
    deserialize_inplace = get_u8 deserializer;
  }

  unfoldable pub u32_format : Format ℕ
  u32_format = record {
    serialize = (λ output v. some (write_u32 output v));
    deserialize_inplace = get_u32 deserializer;
  }

  unfoldable pub bool_format : Format Bool
  bool_format = via_format (λ b. if b then 1 else 0) (λ v. not (v == 0)) u8_format

  -- `GcPointer<T>`, and `WeakRef<T>` with the pointer to its slot.
  unfoldable pub pointer_format : Format ℕ
  pointer_format = record {
    serialize = write_gcpointer serializer;
    deserialize_inplace = get_reference deserializer;
  }

  unfoldable pub symbol_format : Format Symbol
  symbol_format = record {
    serialize = write_symbol serializer;
    deserialize_inplace = get_symbol deserializer;
  }

  -- The value after its type byte.
  unfoldable pub get_value : ℕ → ℕ → Option (JsValue × ℕ)
  get_value ty pc =
      let object = get_reference deserializer pc >>= (λ a. some (encode_object_value a.0, a.1)) in
      if ty == 0xff then object else get_u64 deserializer pc

  unfoldable pub value_format : Format JsValue
  value_format = record {
    serialize = (λ output v.
        if is_object v
        then write_gcpointer serializer (write_u8 output 0xff) v
        else some (write_u64 (write_u8 output 0x1f) v));
    deserialize_inplace = (λ pc. get_u8 deserializer pc >>= (λ a. get_value a.0 a.1));
  }

  -- The rest of an `Option` after its tag.
  unfoldable pub get_option : {A : Type 0} → Format A → ℕ → ℕ → Option (Option A × ℕ)
  get_option f tag pc =
      let val = f.deserialize_inplace pc >>= (λ a. some (some a.0, a.1)) in
      if tag == 0 then some (none, pc) else if tag == 1 then val else none

  unfoldable pub option_format : {A : Type 0} → Format A → Format (Option A)
  option_format f = record {
    serialize = (λ output x. elim x [
      | none ↦ some (write_u8 output 0)
      | some item ↦ f.serialize (write_u8 output 1) item
    ]);
    deserialize_inplace = (λ pc. get_u8 deserializer pc >>= (λ a. get_option f a.0 a.1));
  }

  -- A `Vec` with its capacity, which the new one is made with.
  unfoldable pub vec_format : {A : Type 0} → Format A → Format (ℕ × List A)
  vec_format f = record {
    serialize = (λ output x. serialize_items f (write_u64 (write_u64 output (length x.1)) x.0) x.1);
    deserialize_inplace = (λ pc. get_u64 deserializer pc >>= (λ n.
        get_u64 deserializer n.1
        >>= (λ cap. deserialize_items f n.0 cap.1 >>= (λ xs. some ((cap.0, xs.0), xs.1)))));
  }

  -- The bytes of a `JsString`.
  unfoldable pub js_string_format : Format (List ℕ)
  js_string_format = record {
    serialize = (λ output s. serialize_items u8_format (write_u32 output (length s)) s);
    deserialize_inplace =
        (λ pc. get_u32 deserializer pc >>= (λ n. deserialize_items u8_format n.0 n.1));
  }

  -- An `ArrayStorage` as its capacity and its elements.
  unfoldable pub array_format : Format (ℕ × List JsValue)
  array_format = record {
    serialize = (λ output x.
        serialize_items value_format (write_u32 (write_u32 output (length x.1)) x.0) x.1);
    deserialize_inplace = (λ pc. get_u32 deserializer pc >>= (λ size.
        get_u32 deserializer size.1 >>= (λ capacity.
          deserialize_items value_format size.0 capacity.1
          >>= (λ xs. some ((capacity.0, xs.0), xs.1)))));
  }

  unfoldable pub attr_format : Format AttrSafe
  attr_format = via_format raw of_raw u32_format

  unfoldable pub map_entry_format : Format MapEntry
  map_entry_format =
      via_format (λ e. (e.offset, e.attrs)) (λ a. record { offset = a.0; attrs = a.1 })
        (pair_format u32_format attr_format)

  unfoldable pub stored_slot_format : Format StoredSlot
  stored_slot_format =
      via_format (λ s. (s.value, s.attributes)) (λ a. record { value = a.0; attributes = a.1 })
        (pair_format value_format attr_format)
