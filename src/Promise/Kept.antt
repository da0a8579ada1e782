-- ===== src/Promise/Kept.antt =====
-- What each function of crates/starlight/src/vm/promise.rs does to a promise that is settled.
use mathlib.Core.Path.{subst}
use mathlib.Core.Option.{some-injective}
use js.Common.{
  ℕ, ap, sym, ◌+◌, ◌<◌, ◌≡◌, ◌∙◌, refl, arith, false, Option, none, some, List, [], ◌∷◌, ◌++◌,
}
use js.Common.{◌==◌, ltb, if◌then◌else◌, length, set, Option-cases, Bool-cases, inl, inr}
use js.Value.{JsValue}
use js.Promise.{
  Outcome, ok, err, Done, done, failed, TrackingMode, all, race, all_settled, any, Sub, JsPromise,
  Realm, Engine, push_sub, settle, write, allocate_promise, new_promise, new_unresolving, then',
  schedule_async, resolved_with, adopt, do_resolve, resolve, reject, all_values, has_none,
  after_result, track, resolve_single_tracked_resolution,
}

-- How often `p` is in the list.
unfoldable pub times : ℕ → List ℕ → ℕ
times p [] = 0
times p (q ∷ qs) = (if q == p then 1 else 0) + times p qs

pub times-append : (p : ℕ) (xs ys : List ℕ) → times p (xs ++ ys) ≡ times p xs + times p ys
unfolding times
times-append p [] ys = omega arith
times-append p (x ∷ xs) ys = ground (arith, times-append p xs ys)

-- From one realm to a later one: a promise with the resolution `o` keeps it, and its job is not scheduled again.
pub record IsKept (p : ℕ) (o : Outcome) (r r' : Realm) : Type 0 where
  pub old : p < r'.next
  pub settled : (r'.promises p).resolution ≡ some o
  pub scheduled : times p r'.jobs ≡ times p r.jobs

module _ (engine : Engine) (r : Realm) (q : ℕ) where
  pub do_resolve_again :
      (x y : Outcome)
      → (r.promises q).resolution ≡ some y
      → do_resolve engine r q x ≡ (failed engine.already_resolved, r)
  unfolding do_resolve
  do_resolve_again x y e = rw (do_resolve, e) refl

  pub do_resolve_adopts :
      (t : ℕ) (x : Outcome)
      → (r.promises q).resolution ≡ none
      → resolved_with engine x ≡ some t
      → do_resolve engine r q x ≡ (done, adopt engine r q t)
  unfolding do_resolve
  do_resolve_adopts t x e e' = rw (do_resolve, e, e') refl

  pub do_resolve_settles :
      (x : Outcome)
      → (r.promises q).resolution ≡ none
      → resolved_with engine x ≡ none
      → do_resolve engine r q x ≡ schedule_async engine (settle r q x) q
  unfolding do_resolve
  do_resolve_settles x e e' = rw (do_resolve, e, e') refl

pub IsKept-trans :
    {p : ℕ} {o : Outcome} {r s t : Realm} → IsKept p o r s → IsKept p o s t → IsKept p o r t
IsKept-trans a b = record {
  old = b.old;
  settled = b.settled;
  scheduled = b.scheduled ∙ a.scheduled;
}

-- The result that was computed is the one that was asked for.
same :
    {p : ℕ} {o : Outcome} {r r' : Realm} {d : Done} {x : Done × Realm}
    → some x ≡ some (d, r')
    → IsKept p o r x.1
    → IsKept p o r r'
same {p} {o} {r} {r'} {d} {x} e k = subst (λ y. IsKept p o r y.1) (some-injective x (d, r') e) k

module _ (engine : Engine) (p : ℕ) (o : Outcome) where
  schedule-IsKept :
      (r : Realm) (q : ℕ) (x : Outcome)
      → p < r.next
      → (r.promises p).resolution ≡ some o
      → (q == p) ≡ false
      → IsKept p o r (schedule_async engine (settle r q x) q).1
  unfolding schedule_async settle times
  schedule-IsKept r q x l s other =
      let t = times-append p r.jobs (q ∷ []) in
      record {
        old = ground (arith, l);
        settled = ground (arith, s, other);
        scheduled = ground (arith, t, other);
      }

  push_sub-IsKept :
      (r : Realm) (q : ℕ) (x : Sub)
      → p < r.next
      → (r.promises p).resolution ≡ some o
      → IsKept p o r (push_sub r q x)
  unfolding push_sub
  push_sub-IsKept r q x l s = record {
    old = l;
    settled = (elim (Bool-cases (p == q)) [
      | inl e ↦
          let at' : p ≡ q = ground (arith, e) in
          rw e (ap (λ t. (r.promises t).resolution) (sym at') ∙ s)
      | inr e ↦ rw e s
    ]);
    scheduled = refl;
  }

  pub do_resolve-IsKept :
      (r : Realm) (q : ℕ) (x : Outcome)
      → p < r.next
      → (r.promises p).resolution ≡ some o
      → IsKept p o r (do_resolve engine r q x).1
  unfolding adopt
  do_resolve-IsKept r q x l s = elim (Option-cases (r.promises q).resolution) [
    | inr (y, e) ↦
        rw (do_resolve_again engine r q x y e) (record { old = l; settled = s; scheduled = refl })
    | inl e ↦
        let other : (q == p) ≡ false = differ q e in
        elim (Option-cases (resolved_with engine x)) [
          | inr (y, e') ↦ rw (do_resolve_adopts engine r q y x e e') (
              push_sub-IsKept r y
                (record {
                  on_resolved = some engine.pass_val;
                  on_rejected = some engine.pass_val;
                  on_finally = none;
                  sub_promise = q;
                })
                l s)
          | inl e' ↦ rw (do_resolve_settles engine r q x e e') (schedule-IsKept r q x l s other)
        ]
  ]
    where
      differ : (q : ℕ) → (r.promises q).resolution ≡ none → (q == p) ≡ false
      differ q e = elim (Bool-cases (q == p)) [
        | inl same ↦
            let at' : q ≡ p = ground (arith, same) in
            absurd (ground (arith, s, e, ap (λ t. (r.promises t).resolution) at'))
        | inr apart ↦ apart
      ]

  pub allocate-IsKept :
      (r : Realm) (x : JsPromise)
      → p < r.next
      → (r.promises p).resolution ≡ some o
      → IsKept p o r (allocate_promise r x).1
  unfolding allocate_promise
  allocate-IsKept r x l s = record {
    old = omega (arith, l);
    settled = (let new : (p == r.next) ≡ false = ground (arith, l) in rw new s);
    scheduled = refl;
  }

  pub then-IsKept :
      (r : Realm) (q : ℕ) (a b c : Option JsValue)
      → p < r.next
      → (r.promises p).resolution ≡ some o
      → IsKept p o r (then' r q a b c).1
  unfolding then' new_unresolving allocate_promise
  then-IsKept r q a b c l s =
      let new = allocate-IsKept r (new_promise none none) l s in
      IsKept-trans new (
        push_sub-IsKept (allocate_promise r (new_promise none none)).1 q
          (record { on_resolved = a; on_rejected = b; on_finally = c; sub_promise = r.next })
          new.old new.settled)

  after_result-IsKept :
      (r r' : Realm) (q : ℕ) (d : Done) (mode : TrackingMode) (results : List (Option Outcome))
      (x : Outcome)
      → p < r.next
      → (r.promises p).resolution ≡ some o
      → after_result engine r q mode results x ≡ some (d, r')
      → IsKept p o r r'
  unfolding after_result resolve reject
  after_result-IsKept r r' q d all results (ok v) l s e = elim (Bool-cases (has_none results)) [
    | inl h ↦ same (rw h at e) (record { old = l; settled = s; scheduled = refl })
    | inr h ↦ elim (Option-cases (all_values results)) [
      | inl n ↦ absurd (ground (arith, (rw (h, n) at e)))
      | inr (vs, n) ↦ same (rw (h, n) at e) (do_resolve-IsKept r q (ok (engine.make_array vs)) l s)
    ]
  ]
  after_result-IsKept r r' q d all results (err x) l s e =
      same e (do_resolve-IsKept r q (err x) l s)
  after_result-IsKept r r' q d race results (ok v) l s e = same e (do_resolve-IsKept r q (ok v) l s)
  after_result-IsKept r r' q d race results (err x) l s e =
      same e (do_resolve-IsKept r q (err x) l s)
  after_result-IsKept r r' q d all_settled results x l s e =
      same e (record { old = l; settled = s; scheduled = refl })
  after_result-IsKept r r' q d any results x l s e =
      same e (record { old = l; settled = s; scheduled = refl })

  track-IsKept :
      (r r' : Realm) (q i : ℕ) (d : Done) (x : Outcome) (mode : Option TrackingMode)
      (results : Option (List (Option Outcome)))
      → p < r.next
      → (r.promises p).resolution ≡ some o
      → (r.promises q).resolution ≡ none
      → track engine r q i x mode results ≡ some (d, r')
      → IsKept p o r r'
  unfolding track
  track-IsKept r r' q i d x none results l s n e = absurd (ground (arith, e))
  track-IsKept r r' q i d x (some mode) none l s n e = absurd (ground (arith, e))
  track-IsKept r r' q i d x (some mode) (some results) l s n e =
      let other : (p == q) ≡ false = elim (Bool-cases (p == q)) [
        | inl here' ↦
            let at' : p ≡ q = ground (arith, here') in
            absurd (ground (arith, s, n, ap (λ t. (r.promises t).resolution) at'))
        | inr apart ↦ apart
      ] in
      let written : Realm =
        write r q (record (r.promises q) { tracking_results = some (set results i (some x)) }) in
      let kept : (written.promises p).resolution ≡ some o = rw other s in
      elim (Bool-cases (ltb i (length results))) [
        | inl h ↦
            let k =
              after_result-IsKept written r' q d mode (set results i (some x)) x l kept
                (rw h at e) in
            record { old = k.old; settled = k.settled; scheduled = k.scheduled }
        | inr h ↦ absurd (ground (arith, (rw h at e)))
      ]

  pub resolve_single-IsKept :
      (r r' : Realm) (q i : ℕ) (d : Done) (x : Outcome)
      → p < r.next
      → (r.promises p).resolution ≡ some o
      → resolve_single_tracked_resolution engine r q i x ≡ some (d, r')
      → IsKept p o r r'
  unfolding resolve_single_tracked_resolution
  resolve_single-IsKept r r' q i d x l s e = elim (Option-cases (r.promises q).resolution) [
    | inr (y, n) ↦
        same (rw (resolve_single_tracked_resolution, n) at e)
          (record { old = l; settled = s; scheduled = refl })
    | inl n ↦
        track-IsKept r r' q i d x (r.promises q).tracking_mode (r.promises q).tracking_results l s n
          (rw (resolve_single_tracked_resolution, n) at e)
  ]
