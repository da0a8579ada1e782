-- ===== src/Promise/Adopted.antt =====
-- A promise that is resolved with another one: crates/starlight/src/vm/promise.rs.
use js.Common.{ℕ, ap, ◌≡◌, ◌≢◌, ◌∙◌, refl, arith, false, Option, none, some, List, [], ◌∷◌, ◌++◌}
use js.Common.{◌==◌, if◌then◌else◌, Bool-cases, inl, inr}
use js.Value.{JsValue}
use js.Promise.{
  Outcome, ok, err, Sub, Realm, Engine, push_sub, settle, adopt, schedule_async, resolved_with,
  do_resolve, notify, notify_outcome, run_job,
}
use js.Promise.Kept.{do_resolve_settles, do_resolve_adopts}

abbrev passing : Engine → ℕ → Sub
passing engine p = record {
  on_resolved = some engine.pass_val;
  on_rejected = some engine.pass_val;
  on_finally = none;
  sub_promise = p;
}

module _ (engine : Engine) (r : Realm) (p q : ℕ) where
  adopt-resolution :
      (t : ℕ) → ((adopt engine r p q).promises t).resolution ≡ (r.promises t).resolution
  unfolding adopt push_sub
  adopt-resolution t = elim (Bool-cases (t == q)) [
    | inl e ↦
        let same : t ≡ q = ground (arith, e) in
        ground (arith, e, ap (λ u. (r.promises u).resolution) same)
    | inr e ↦ ground (arith, e)
  ]

  adopt-subs :
      ((adopt engine r p q).promises q).subs ≡ (r.promises q).subs ++ (passing engine p ∷ [])
  unfolding adopt push_sub
  adopt-subs = ground arith

  settle-resolution :
      (o : Outcome)
      → ((schedule_async engine (settle r q o) q).1.promises p).resolution
        ≡ (if p == q then some o else (r.promises p).resolution)
  unfolding schedule_async settle
  settle-resolution o = ground arith

  settle-subs :
      (o : Outcome)
      → ((schedule_async engine (settle r q o) q).1.promises p).subs ≡ (r.promises p).subs
  unfolding schedule_async settle
  settle-subs o = elim (Bool-cases (p == q)) [
    | inl e ↦
        let same : p ≡ q = ground (arith, e) in
        ground (arith, e, ap (λ t. (r.promises t).subs) same)
    | inr e ↦ ground (arith, e)
  ]

module _ (engine : Engine) (call : JsValue → List JsValue → Realm → Outcome × Realm) where
  notify_one :
      (handler : Sub → Option JsValue) (args : List JsValue) (r : Realm) (s : Sub) (f : JsValue)
      (x : Outcome)
      → handler s ≡ some f
      → call f args r ≡ (x, r)
      → notify engine call handler args r (s ∷ []) ≡ (do_resolve engine r s.sub_promise x).1
  unfolding notify
  notify_one handler args r s f x h c = rw (notify, h, c) refl

  notify-none :
      (handler : Sub → Option JsValue) (args : List JsValue) (r : Realm) (s : Sub)
      → handler s ≡ none
      → notify engine call handler args r (s ∷ []) ≡ r
  unfolding notify
  notify-none handler args r s h = rw (notify, h) refl

  -- The job of a rejected promise with one sub, which has no function for the end.
  job_of_one :
      (r : Realm) (q : ℕ) (e f : JsValue) (s : Sub) (x : Outcome)
      → (r.promises q).resolution ≡ some (err e)
      → (r.promises q).subs ≡ s ∷ []
      → s.on_rejected ≡ some f
      → s.on_finally ≡ none
      → call f (e ∷ []) r ≡ (x, r)
      → ((do_resolve engine r s.sub_promise x).1.promises q).subs ≡ s ∷ []
      → run_job engine call r q ≡ some (do_resolve engine r s.sub_promise x).1
  unfolding run_job notify_outcome
  job_of_one r q e f s x a b c d g h =
      let r1 = (do_resolve engine r s.sub_promise x).1 in
      let ends : Realm → List Sub → Option Realm =
        λ t ss. some (notify engine call (λ u. u.on_finally) [] t ss) in
      let told : notify_outcome engine call r q (err e) ≡ r1 =
        ap (notify engine call (λ u. u.on_rejected) (e ∷ []) r) b
        ∙ notify_one (λ u. u.on_rejected) (e ∷ []) r s f x c g in
      ap
        (λ (o : Option Outcome). elim o as (λ y. Option Realm) [
          | none ↦ none
          | some y ↦ let t = notify_outcome engine call r q y in ends t (t.promises q).subs
        ])
        a
      ∙ ap (λ t. ends t (t.promises q).subs) told
      ∙ ap (ends r1) h
      ∙ ap some (notify-none (λ u. u.on_finally) [] r1 s d)

  -- Where a pending promise `p` is resolved with a pending promise `q` that has no subs yet and that is rejected
  -- later: the job of `q` resolves `p` with the error, as a value.
  pub adopted_rejection :
      (r : Realm) (p q : ℕ) (v e : JsValue)
      → p ≢ q
      → (r.promises p).resolution ≡ none
      → (r.promises q).resolution ≡ none
      → (r.promises q).subs ≡ []
      → engine.promise_of v ≡ some q
      → engine.promise_of e ≡ none
      → ((s : Realm) → call engine.pass_val (e ∷ []) s ≡ (ok e, s))
      → let r1 = (do_resolve engine r p (ok v)).1 in
        let r2 = (do_resolve engine r1 q (err e)).1 in
        (r3 : Realm) × (run_job engine call r2 q ≡ some r3)
        × ((r3.promises p).resolution ≡ some (ok e))
  unfolding resolved_with
  adopted_rejection r p q v e n a b c d g h =
      let apart : (p == q) ≡ false = ground (arith, n) in
      let apart' : (q == p) ≡ false = ground (arith, n) in
      let r1 = (do_resolve engine r p (ok v)).1 in
      let r2 = (do_resolve engine r1 q (err e)).1 in
      let first : r1 ≡ adopt engine r p q =
        ap (λ t. t.1) (do_resolve_adopts engine r p q (ok v) a d) in
      let q1 : (r1.promises q).resolution ≡ none =
        ap (λ t. (t.promises q).resolution) first ∙ adopt-resolution engine r p q q ∙ b in
      let p1 : (r1.promises p).resolution ≡ none =
        ap (λ t. (t.promises p).resolution) first ∙ adopt-resolution engine r p q p ∙ a in
      let s1 : (r1.promises q).subs ≡ passing engine p ∷ [] =
        ap (λ t. (t.promises q).subs) first
        ∙ adopt-subs engine r p q
        ∙ ap (λ l. l ++ (passing engine p ∷ [])) c in
      let second : r2 ≡ (schedule_async engine (settle r1 q (err e)) q).1 =
        ap (λ t. t.1) (do_resolve_settles engine r1 q (err e) q1 refl) in
      let q2 : (r2.promises q).resolution ≡ some (err e) =
        ap (λ t. (t.promises q).resolution) second
        ∙ settle-resolution engine r1 q q (err e)
        ∙ ground arith in
      let p2 : (r2.promises p).resolution ≡ none =
        ap (λ t. (t.promises p).resolution) second
        ∙ settle-resolution engine r1 p q (err e)
        ∙ ground (arith, apart, p1) in
      let s2 : (r2.promises q).subs ≡ passing engine p ∷ [] =
        ap (λ t. (t.promises q).subs) second ∙ settle-subs engine r1 q q (err e) ∙ s1 in
      let third : (do_resolve engine r2 p (ok e)).1
          ≡ (schedule_async engine (settle r2 p (ok e)) p).1 =
        ap (λ t. t.1) (do_resolve_settles engine r2 p (ok e) p2 g) in
      (
        (do_resolve engine r2 p (ok e)).1,
        job_of_one r2 q e engine.pass_val (passing engine p) (ok e) q2 s2 refl refl (h r2)
            (ap (λ t. (t.promises q).subs) third ∙ settle-subs engine r2 q p (ok e) ∙ s2),
        ap (λ t. (t.promises p).resolution) third
            ∙ settle-resolution engine r2 p p (ok e)
            ∙ ground arith,
      )
