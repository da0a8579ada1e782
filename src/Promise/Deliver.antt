-- ===== src/Promise/Deliver.antt =====
-- The results of the tracked promises come in: `resolve_single_tracked_resolution` of
-- crates/starlight/src/vm/promise.rs.
use mathlib.Core.Path.{subst}
use js.Common.{
  ℕ, ap, ap₂, sym, ◌+◌, ◌<◌, ◌≡◌, ◌∙◌, refl, arith, Bool, true, false, ◌&&◌, Option, none, some,
  List, [], ◌∷◌, ◌>>=◌,
}
use js.Common.{ltb, if◌then◌else◌, length, set, length-set, Bool-cases, inl, inr}
use js.Value.{JsValue}
use js.Promise.{
  Outcome, ok, err, Done, done, TrackingMode, all, race, Realm, Engine, write, settle,
  schedule_async, resolved_with, do_resolve, resolve, reject, all_values, has_none, after_result,
  track, resolve_single_tracked_resolution,
}
use js.Promise.Kept.{do_resolve_settles}
use js.Promise.Tracked.{
  IsPartial, IsAwaited, values, all_values-IsPartial, set-IsPartial, set-IsAwaited, none_missing,
}

-- The results come in this order.
unfoldable pub deliver : Engine → Realm → ℕ → List (ℕ × Outcome) → Option Realm
deliver engine r p [] = some r
deliver engine r p ((i, x) ∷ rest) = do
  (d, r') ← resolve_single_tracked_resolution engine r p i x
  deliver engine r' p rest

-- Each result is that of `v`.
abbrev pub fulfilled : (ℕ → JsValue) → List ℕ → List (ℕ × Outcome)
fulfilled v [] = []
fulfilled v (i ∷ is) = (i, ok (v i)) ∷ fulfilled v is

unfoldable pub all_below : ℕ → List ℕ → Bool
all_below n [] = true
all_below n (i ∷ is) = ltb i n && all_below n is

module _ (engine : Engine) (p : ℕ) where
  single_settled :
      (r : Realm) (i : ℕ) (x y : Outcome)
      → (r.promises p).resolution ≡ some y
      → resolve_single_tracked_resolution engine r p i x ≡ some (done, r)
  unfolding resolve_single_tracked_resolution
  single_settled r i x y e = rw (resolve_single_tracked_resolution, e) refl

  -- What comes later changes nothing.
  deliver_settled :
      (r : Realm) (rest : List (ℕ × Outcome)) (y : Outcome)
      → (r.promises p).resolution ≡ some y
      → deliver engine r p rest ≡ some r
  unfolding deliver
  deliver_settled r [] y e = refl
  deliver_settled r ((i, x) ∷ rest) y e = rw (single_settled r i x y e) (deliver_settled r rest y e)

  deliver_next :
      (r r' : Realm) (i : ℕ) (x : Outcome) (rest : List (ℕ × Outcome)) (d : Done)
      → resolve_single_tracked_resolution engine r p i x ≡ some (d, r')
      → deliver engine r p ((i, x) ∷ rest) ≡ deliver engine r' p rest
  unfolding deliver
  deliver_next r r' i x rest d e = rw e refl

  -- The resolution that a promise gets that has none.
  settled_by :
      (r : Realm) (x : Outcome)
      → (r.promises p).resolution ≡ none
      → resolved_with engine x ≡ none
      → ((do_resolve engine r p x).1.promises p).resolution ≡ some x
  unfolding schedule_async settle
  settled_by r x e n = rw (do_resolve_settles engine r p x e n) (ground arith)

  single_tracks :
      (r : Realm) (i : ℕ) (x : Outcome) (mode : TrackingMode) (results : List (Option Outcome))
      → (r.promises p).resolution ≡ none
      → (r.promises p).tracking_mode ≡ some mode
      → (r.promises p).tracking_results ≡ some results
      → i < length results
      → resolve_single_tracked_resolution engine r p i x
        ≡ after_result engine
            (write r p (record (r.promises p) { tracking_results = some (set results i (some x)) }))
            p
            mode
            (set results i (some x))
            x
  unfolding resolve_single_tracked_resolution track
  single_tracks r i x mode results e m t l =
      let inside : ltb i (length results) ≡ true = ground (arith, l) in
      ap
        (λ (o : Option Outcome). elim o as (λ y. Option (Done × Realm)) [
          | some y ↦ some (done, r)
          | none ↦ track engine r p i x (r.promises p).tracking_mode (r.promises p).tracking_results
        ])
        e
      ∙ ap₂ (track engine r p i x) m t
      ∙ ap
          (λ (b : Bool).
            if b
            then after_result engine
                (write r p
                  (record (r.promises p) { tracking_results = some (set results i (some x)) }))
                p mode (set results i (some x)) x
            else none)
          inside

  raced :
      (r : Realm) (x : Outcome) (results : List (Option Outcome))
      → after_result engine r p race results x ≡ some (do_resolve engine r p x)
  unfolding after_result resolve reject
  raced r (ok v) results = refl
  raced r (err e) results = refl

  -- `Promise.race`: the first result that comes in and is no promise is the resolution, whatever comes later.
  pub race_lem :
      (r : Realm) (i : ℕ) (x : Outcome) (results : List (Option Outcome))
      (rest : List (ℕ × Outcome))
      → (r.promises p).resolution ≡ none
      → (r.promises p).tracking_mode ≡ some race
      → (r.promises p).tracking_results ≡ some results
      → i < length results
      → resolved_with engine x ≡ none
      → (r' : Realm) × (deliver engine r p ((i, x) ∷ rest) ≡ some r')
        × ((r'.promises p).resolution ≡ some x)
  unfolding deliver after_result resolve reject
  race_lem r i x results rest e m t l n =
      let written : Realm =
        write r p (record (r.promises p) { tracking_results = some (set results i (some x)) }) in
      let r' = (do_resolve engine written p x).1 in
      let pending : (written.promises p).resolution ≡ none = ground (arith, e) in
      let got : (r'.promises p).resolution ≡ some x = settled_by written x pending n in
      let first : resolve_single_tracked_resolution engine r p i x
          ≡ some (do_resolve engine written p x) =
        single_tracks r i x race results e m t l ∙ raced written x (set results i (some x)) in
      (r', rw first (deliver_settled r' rest x got), got)

  all_waits :
      (r : Realm) (x : JsValue) (results : List (Option Outcome))
      → has_none results ≡ true
      → after_result engine r p all results (ok x) ≡ some (done, r)
  unfolding after_result
  all_waits r x results h = rw h refl

  all_resolves :
      (r : Realm) (x : JsValue) (results : List (Option Outcome)) (vs : List JsValue)
      → has_none results ≡ false
      → all_values results ≡ some vs
      → after_result engine r p all results (ok x)
        ≡ some (do_resolve engine r p (ok (engine.make_array vs)))
  unfolding after_result resolve
  all_resolves r x results vs h e = rw (h, e) refl

  -- `Promise.all`: when the values of all promises have come in, in any order, the resolution is the array of
  -- the values in the order of the promises. At least one is missing at the start, an array is no
  -- promise, and what has come in before are values of `v`.
  pub all_lem :
      (r : Realm) (v : ℕ → JsValue) (is : List ℕ) (results : List (Option Outcome))
      → (r.promises p).resolution ≡ none
      → (r.promises p).tracking_mode ≡ some all
      → (r.promises p).tracking_results ≡ some results
      → all_below (length results) is ≡ true
      → IsPartial v 0 results
      → IsAwaited is 0 results
      → has_none results ≡ true
      → engine.promise_of (engine.make_array (values v 0 (length results))) ≡ none
      → (r' : Realm) × (deliver engine r p (fulfilled v is) ≡ some r')
        × ((r'.promises p).resolution ≡ some (ok (engine.make_array (values v 0 (length results)))))
  unfolding all_below resolved_with
  all_lem r v [] results e m t b i a h n = absurd (ground (arith, h, none_missing 0 results a))
  all_lem r v (i ∷ is) results e m t b part a h n =
      let l : i < length results = ground (arith, b) in
      let results' = set results i (some (ok (v i))) in
      let zero_plus : 0 + i ≡ i = omega arith in
      let part' : IsPartial v 0 results' =
        subst (λ t. IsPartial v 0 (set results i (some (ok (v t))))) zero_plus
          (set-IsPartial v 0 i results part) in
      let a' : IsAwaited is 0 results' =
        set-IsAwaited i 0 is results (ok (v i)) l
          (subst (λ t. IsAwaited (t ∷ is) 0 results) (sym zero_plus) a) in
      let same = length-set results i (some (ok (v i))) in
      let written : Realm =
        write r p (record (r.promises p) { tracking_results = some results' }) in
      let tracked = single_tracks r i (ok (v i)) all results e m t l in
      elim (Bool-cases (has_none results')) [
        | inl h' ↦
            let (r', done', got) =
              all_lem written v is results' (ground (arith, e)) (ground (arith, m)) (ground arith)
                (ap (λ k. all_below k is) same ∙ ground (arith, b)) part' a' h'
                (ap (λ k. engine.promise_of (engine.make_array (values v 0 k))) same ∙ n) in
            (
              r',
              deliver_next r written i (ok (v i)) (fulfilled v is) done
                    (tracked ∙ all_waits written (v i) results' h')
                  ∙ done',
              got ∙ ap (λ k. some (ok (engine.make_array (values v 0 k)))) same,
            )
        | inr h' ↦
            let vs = values v 0 (length results) in
            let there : all_values results' ≡ some vs =
              all_values-IsPartial v 0 results' part' h' ∙ ap (λ k. some (values v 0 k)) same in
            let res = do_resolve engine written p (ok (engine.make_array vs)) in
            let got = settled_by written (ok (engine.make_array vs)) (ground (arith, e)) n in
            (
              res.1,
              deliver_next r res.1 i (ok (v i)) (fulfilled v is) res.0
                    (tracked ∙ all_resolves written (v i) results' vs h' there)
                  ∙ deliver_settled res.1 (fulfilled v is) (ok (engine.make_array vs)) got,
              got,
            )
      ]
