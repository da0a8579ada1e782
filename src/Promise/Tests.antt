-- ===== src/Promise/Tests.antt =====
-- Four promises: crates/starlight/src/vm/promise.rs.
use js.Common.{ℕ, ◌+◌, ◌<◌, ◌≡◌, refl, arith, true, none, some, List, [], ◌∷◌}
use js.Common.{◌==◌, if◌then◌else◌}
use js.Value.{JsValue}
use js.Promise.{
  Outcome, ok, err, all, race, JsPromise, Realm, Engine, new_promise, do_resolve, run_job, notify,
  notify_outcome, has_none,
}
use js.Promise.Acts.{Acts, here, next, resolve_act, settled_kept}
use js.Promise.Kept.{times}
use js.Promise.Settled.{run_job_keeps}
use js.Promise.Tracked.{IsPartial, IsAwaited, values}
use js.Promise.Deliver.{deliver, fulfilled, all_below, all_lem}
use js.Promise.Adopted.{adopted_rejection}
use js.Sweep.Cells.{mem}

-- The value 100 is the promise 1.
abbrev engine : Engine
engine = record {
  promise_of = λ v. if v == 100 then some 1 else none;
  scheduler = true;
  pass_val = 7;
  already_resolved = 8;
  no_scheduler = 9;
  make_array = λ vs. 50;
}

-- `Promise.all` of two, a pending promise, `Promise.race` of two, and a settled promise.
abbrev promises : ℕ → JsPromise
promises p =
    if p == 0
    then new_promise (some all) (some (none ∷ none ∷ []))
    else if p == 2
    then new_promise (some race) (some (none ∷ none ∷ []))
    else if p == 3
    then record (new_promise none none) { resolution = some (ok 5) }
    else new_promise none none

abbrev realm : Realm
realm = record { promises = promises; next = 4; jobs = [] }

abbrev call : JsValue → List JsValue → Realm → Outcome × Realm
call f [] r = (ok 0, r)
call f (x ∷ xs) r = (ok x, r)

call-Acts : (f : JsValue) (args : List JsValue) (r : Realm) → Acts engine r (call f args r).1
call-Acts f [] r = here
call-Acts f (x ∷ xs) r = here

settled_kept_example :
    let r' = (do_resolve engine realm 3 (err 6)).1 in
    (3 < r'.next) × ((r'.promises 3).resolution ≡ some (ok 5)) × (times 3 r'.jobs ≡ times 3 [])
settled_kept_example =
    settled_kept engine 3 (ok 5) realm (do_resolve engine realm 3 (err 6)).1 (omega arith) refl
      (next here (resolve_act realm 3 (err 6)))

job : run_job engine call realm 3 ≡ some realm
unfolding run_job notify_outcome notify
job = refl

run_job_keeps_example :
    (3 < realm.next) × ((realm.promises 3).resolution ≡ some (ok 5)) × (times 3 [] ≡ times 3 [])
run_job_keeps_example =
    run_job_keeps engine call call-Acts 3 3 (ok 5) realm realm (omega arith) refl job

-- The second value comes in first.
all_lem_example :
    (r' : Realm) × (deliver engine realm 0 (fulfilled (λ i. i + 20) (1 ∷ 0 ∷ [])) ≡ some r')
    × ((r'.promises 0).resolution ≡ some (ok (engine.make_array (values (λ i. i + 20) 0 2))))
unfolding IsPartial IsAwaited mem all_below has_none
all_lem_example =
    all_lem engine 0 realm (λ i. i + 20) (1 ∷ 0 ∷ []) (none ∷ none ∷ []) refl refl refl refl tt
      (refl, (refl, tt)) refl refl

adopted_rejection_example :
    let r1 = (do_resolve engine realm 4 (ok 100)).1 in
    let r2 = (do_resolve engine r1 1 (err 6)).1 in
    (r3 : Realm) × (run_job engine call r2 1 ≡ some r3) × ((r3.promises 4).resolution ≡ some (ok 6))
adopted_rejection_example =
    adopted_rejection engine call realm 4 1 100 6 (λ e. omega (arith, e)) refl refl refl refl refl
      (λ s. refl)
