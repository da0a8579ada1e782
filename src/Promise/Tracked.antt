-- ===== src/Promise/Tracked.antt =====
-- Promises that track others, as in `Promise.all` and `Promise.race`: crates/starlight/src/vm/promise.rs.
use mathlib.Core.Path.{subst}
use js.Common.{
  ℕ, zero, suc, ap, ◌+◌, ◌<◌, ◌≡◌, refl, arith, true, false, Option, none, some, List, [], ◌∷◌,
}
use js.Common.{length, set}
use js.Value.{JsValue}
use js.Sweep.Cells.{mem}
use js.Promise.{Outcome, ok, all_values, has_none}

-- The results are those of `v` from the index `k` on, as far as they are there.
unfoldable pub IsPartial : (ℕ → JsValue) → ℕ → List (Option Outcome) → Type 0
IsPartial v k [] = Unit
IsPartial v k (none ∷ rs) = IsPartial v (suc k) rs
IsPartial v k (some o ∷ rs) = (o ≡ ok (v k)) × IsPartial v (suc k) rs

-- The indices of the results that are missing are in `is`.
unfoldable pub IsAwaited : List ℕ → ℕ → List (Option Outcome) → Type 0
IsAwaited is k [] = Unit
IsAwaited is k (none ∷ rs) = (mem k is ≡ true) × IsAwaited is (suc k) rs
IsAwaited is k (some o ∷ rs) = IsAwaited is (suc k) rs

-- `n` values of `v` from the index `k` on.
unfoldable pub values : (ℕ → JsValue) → ℕ → ℕ → List JsValue
values v k zero = []
values v k (suc n) = v k ∷ values v (suc k) n

pub all_values-IsPartial :
    (v : ℕ → JsValue) (k : ℕ) (rs : List (Option Outcome))
    → IsPartial v k rs
    → has_none rs ≡ false
    → all_values rs ≡ some (values v k (length rs))
unfolding IsPartial has_none all_values values
all_values-IsPartial v k [] i h = refl
all_values-IsPartial v k (none ∷ rs) i h = absurd (ground (arith, h))
all_values-IsPartial v k (some o ∷ rs) (e, i) h = rw (e, all_values-IsPartial v (suc k) rs i h) refl

pub set-IsPartial :
    (v : ℕ → JsValue) (k i : ℕ) (rs : List (Option Outcome))
    → IsPartial v k rs
    → IsPartial v k (set rs i (some (ok (v (k + i)))))
unfolding IsPartial
set-IsPartial v k i [] p = tt
set-IsPartial v k zero (none ∷ rs) p = (ap (λ t. ok (v t)) (omega arith), p)
set-IsPartial v k zero (some o ∷ rs) (e, p) = (ap (λ t. ok (v t)) (omega arith), p)
set-IsPartial v k (suc i) (none ∷ rs) p =
    let at' : k + suc i ≡ suc k + i = omega arith in rw at' (set-IsPartial v (suc k) i rs p)
set-IsPartial v k (suc i) (some o ∷ rs) (e, p) =
    let at' : k + suc i ≡ suc k + i = omega arith in (e, rw at' (set-IsPartial v (suc k) i rs p))

-- An index before all others is not awaited.
IsAwaited-drop :
    (i k : ℕ) (is : List ℕ) (rs : List (Option Outcome))
    → i < k
    → IsAwaited (i ∷ is) k rs
    → IsAwaited is k rs
unfolding IsAwaited mem
IsAwaited-drop i k is [] l a = tt
IsAwaited-drop i k is (none ∷ rs) l (m, a) =
    (ground (arith, m, l), IsAwaited-drop i (suc k) is rs (omega (arith, l)) a)
IsAwaited-drop i k is (some o ∷ rs) l a = IsAwaited-drop i (suc k) is rs (omega (arith, l)) a

pub set-IsAwaited :
    (i k : ℕ) (is : List ℕ) (rs : List (Option Outcome)) (o : Outcome)
    → i < length rs
    → IsAwaited ((k + i) ∷ is) k rs
    → IsAwaited is k (set rs i (some o))
unfolding IsAwaited mem
set-IsAwaited i k is [] o l a = tt
set-IsAwaited zero k is (none ∷ rs) o l (m, a) =
    let at' : k + 0 ≡ k = omega arith in
    IsAwaited-drop k (suc k) is rs (omega arith) (subst (λ t. IsAwaited (t ∷ is) (suc k) rs) at' a)
set-IsAwaited zero k is (some x ∷ rs) o l a =
    let at' : k + 0 ≡ k = omega arith in
    IsAwaited-drop k (suc k) is rs (omega arith) (subst (λ t. IsAwaited (t ∷ is) (suc k) rs) at' a)
set-IsAwaited (suc i) k is (none ∷ rs) o l (m, a) =
    let at' : k + suc i ≡ suc k + i = omega arith in
    (
      ground (arith, m),
      set-IsAwaited i (suc k) is rs o (omega (arith, l))
          (subst (λ t. IsAwaited (t ∷ is) (suc k) rs) at' a),
    )
set-IsAwaited (suc i) k is (some x ∷ rs) o l a =
    let at' : k + suc i ≡ suc k + i = omega arith in
    set-IsAwaited i (suc k) is rs o (omega (arith, l))
      (subst (λ t. IsAwaited (t ∷ is) (suc k) rs) at' a)

-- Where nothing is awaited nothing is missing.
pub none_missing : (k : ℕ) (rs : List (Option Outcome)) → IsAwaited [] k rs → has_none rs ≡ false
unfolding IsAwaited has_none mem
none_missing k [] a = refl
none_missing k (none ∷ rs) (m, a) = absurd (ground (arith, m))
none_missing k (some o ∷ rs) a = none_missing (suc k) rs a
