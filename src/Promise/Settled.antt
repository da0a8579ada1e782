-- ===== src/Promise/Settled.antt =====
-- Jobs and settled promises: crates/starlight/src/vm/promise.rs.
use js.Common.{ℕ, ◌<◌, ◌≡◌, arith, Option, some, List, [], ◌∷◌, Option-cases, inl, inr}
use mathlib.Core.Option.{some-injective}
use mathlib.Core.Path.{subst}
use js.Value.{JsValue}
use js.Promise.{Outcome, ok, err, Sub, Realm, Engine, do_resolve, notify, notify_outcome, run_job}
use js.Promise.Acts.{Acts, here, next, resolve_act, settled_kept}
use js.Promise.Kept.{times}

Acts-trans : {engine : Engine} {r s t : Realm} → Acts engine r s → Acts engine s t → Acts engine r t
Acts-trans a here = a
Acts-trans a (next b act) = next (Acts-trans a b) act

module _ (engine : Engine) (call : JsValue → List JsValue → Realm → Outcome × Realm)
    (call-Acts : (f : JsValue) (args : List JsValue) (r : Realm)
      → Acts engine r (call f args r).1) where
  notify-Acts :
      (handler : Sub → Option JsValue) (args : List JsValue) (r : Realm) (ss : List Sub)
      → Acts engine r (notify engine call handler args r ss)
  unfolding notify
  notify-Acts handler args r [] = here
  notify-Acts handler args r (s ∷ ss) = elim (Option-cases (handler s)) [
    | inl e ↦ rw (notify, e) (notify-Acts handler args r ss)
    | inr (f, e) ↦
        let res = call f args r in
        let one = next (call-Acts f args r) (resolve_act res.1 s.sub_promise res.0) in
        rw (notify, e)
          (Acts-trans one
            (notify-Acts handler args (do_resolve engine res.1 s.sub_promise res.0).1 ss))
  ]

  notify_outcome-Acts :
      (r : Realm) (p : ℕ) (o : Outcome) → Acts engine r (notify_outcome engine call r p o)
  unfolding notify_outcome
  notify_outcome-Acts r p (ok v) = notify-Acts (λ s. s.on_resolved) (v ∷ []) r (r.promises p).subs
  notify_outcome-Acts r p (err e) = notify-Acts (λ s. s.on_rejected) (e ∷ []) r (r.promises p).subs

  -- Where the functions that it calls only act on promises by the functions of promises, a job changes no
  -- settled promise, its own or another, and does not schedule its job again.
  pub run_job_keeps :
      (p q : ℕ) (o : Outcome) (r r' : Realm)
      → p < r.next
      → (r.promises p).resolution ≡ some o
      → run_job engine call r q ≡ some r'
      → (p < r'.next) × ((r'.promises p).resolution ≡ some o) × (times p r'.jobs ≡ times p r.jobs)
  unfolding run_job
  run_job_keeps p q o r r' l s e = elim (Option-cases (r.promises q).resolution) [
    | inl n ↦ absurd (ground (arith, (rw (run_job, n) at e)))
    | inr (x, n) ↦
        let r1 = notify_outcome engine call r q x in
        let acts =
          Acts-trans (notify_outcome-Acts r q x)
            (notify-Acts (λ s. s.on_finally) [] r1 (r1.promises q).subs) in
        let same = some-injective _ r' (rw (run_job, n) at e) in
        settled_kept engine p o r r' l s (subst (λ t. Acts engine r t) same acts)
  ]
