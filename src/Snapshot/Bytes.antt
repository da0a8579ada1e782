-- ===== src/Snapshot/Bytes.antt =====
-- Bytes that were written are read back: crates/starlight/src/gc/snapshot/deserializer.rs.
use js.Common.{
  ℕ, zero, suc, ap, ◌+◌, ◌*◌, ◌/◌, ◌%◌, ◌^◌, ◌<◌, ◌≡◌, ◌∙◌, refl, arith, some, List, [], ◌∷◌, ◌++◌,
}
use js.Common.{length, get_elem?, drop}
use js.Snapshot.{to_le_bytes, from_le_bytes, get_bytes, Deserializer, get_u8, get_u32, get_u64}

pub length-to_le_bytes : (n v : ℕ) → length (to_le_bytes n v) ≡ n
unfolding to_le_bytes
length-to_le_bytes zero v = refl
length-to_le_bytes (suc n) v = ap suc (length-to_le_bytes n (v / 256))

pub append_assoc : (xs ys zs : List ℕ) → (xs ++ ys) ++ zs ≡ xs ++ (ys ++ zs)
append_assoc [] ys zs = refl
append_assoc (x ∷ xs) ys zs = ap (λ t. x ∷ t) (append_assoc xs ys zs)

drop_here : (xs rest : List ℕ) (b pc : ℕ) → drop pc xs ≡ b ∷ rest → get_elem? xs pc ≡ some b
drop_here [] rest b zero e = absurd (ground (arith, e))
drop_here [] rest b (suc pc) e = absurd (ground (arith, e))
drop_here (x ∷ xs) rest b zero e = ground (arith, e)
drop_here (x ∷ xs) rest b (suc pc) e = drop_here xs rest b pc e

drop-suc : (xs rest : List ℕ) (b pc : ℕ) → drop pc xs ≡ b ∷ rest → drop (suc pc) xs ≡ rest
drop-suc [] rest b zero e = absurd (ground (arith, e))
drop-suc [] rest b (suc pc) e = absurd (ground (arith, e))
drop-suc (x ∷ xs) rest b zero e = ground (arith, e)
drop-suc (x ∷ xs) rest b (suc pc) e = drop-suc xs rest b pc e

drop_next : (xs rest : List ℕ) (b pc : ℕ) → drop pc xs ≡ b ∷ rest → drop (pc + 1) xs ≡ rest
drop_next xs rest b pc e =
    let same : pc + 1 ≡ suc pc = omega arith in ap (λ t. drop t xs) same ∙ drop-suc xs rest b pc e

-- What follows the bytes `bs`.
pub drop_past :
    (xs bs rest : List ℕ) (pc : ℕ) → drop pc xs ≡ bs ++ rest → drop (pc + length bs) xs ≡ rest
drop_past xs [] rest pc e = (let same : pc + 0 ≡ pc = omega arith in ap (λ t. drop t xs) same ∙ e)
drop_past xs (b ∷ bs) rest pc e =
    let same : pc + suc (length bs) ≡ pc + 1 + length bs = omega arith in
    ap (λ t. drop t xs) same ∙ drop_past xs bs rest (pc + 1) (drop_next xs (bs ++ rest) b pc e)

pub get_bytes_lem :
    (xs bs rest : List ℕ) (n pc : ℕ)
    → length bs ≡ n
    → drop pc xs ≡ bs ++ rest
    → get_bytes xs n pc ≡ some bs
unfolding get_bytes
get_bytes_lem xs [] rest zero pc l e = refl
get_bytes_lem xs [] rest (suc n) pc l e = absurd (omega (arith, l))
get_bytes_lem xs (b ∷ bs) rest zero pc l e = absurd (omega (arith, l))
get_bytes_lem xs (b ∷ bs) rest (suc n) pc l e =
    rw
      (
        drop_here xs (bs ++ rest) b pc e,
        get_bytes_lem xs bs rest n (pc + 1) (omega (arith, l)) (drop_next xs (bs ++ rest) b pc e),
      )
      refl

power_next : (n : ℕ) → 256 ^ suc n ≡ 256 * 256 ^ n
power_next n = omega arith

pub from-to_le_bytes : (n v : ℕ) → v < 256 ^ n → from_le_bytes (to_le_bytes n v) ≡ v
unfolding to_le_bytes from_le_bytes
from-to_le_bytes zero v h = omega (arith, h)
from-to_le_bytes (suc n) v h =
    let less : v / 256 < 256 ^ n = omega (arith, h, power_next n) in
    omega (arith, from-to_le_bytes n (v / 256) less)

module _ (d : Deserializer) where
  pub get_u8_lem :
      (v pc : ℕ) (rest : List ℕ)
      → v < 256
      → drop pc d.reader ≡ to_le_bytes 1 v ++ rest
      → get_u8 d pc ≡ some (v, pc + 1)
  unfolding get_u8 to_le_bytes
  get_u8_lem v pc rest h e =
      let same : v % 256 ≡ v = omega (arith, h) in
      rw (drop_here d.reader rest (v % 256) pc e, same) refl

  pub get_u32_lem :
      (v pc : ℕ) (rest : List ℕ)
      → v < 2 ^ 32
      → drop pc d.reader ≡ to_le_bytes 4 v ++ rest
      → get_u32 d pc ≡ some (v, pc + 4)
  unfolding get_u32
  get_u32_lem v pc rest h e =
      rw
        (
          get_bytes_lem d.reader (to_le_bytes 4 v) rest 4 pc (length-to_le_bytes 4 v) e,
          from-to_le_bytes 4 v h,
        )
        refl

  pub get_u64_lem :
      (v pc : ℕ) (rest : List ℕ)
      → v < 2 ^ 64
      → drop pc d.reader ≡ to_le_bytes 8 v ++ rest
      → get_u64 d pc ≡ some (v, pc + 8)
  unfolding get_u64
  get_u64_lem v pc rest h e =
      rw
        (
          get_bytes_lem d.reader (to_le_bytes 8 v) rest 8 pc (length-to_le_bytes 8 v) e,
          from-to_le_bytes 8 v h,
        )
        refl
