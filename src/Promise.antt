-- ===== src/Promise.antt =====
-- Promises: crates/starlight/src/vm/promise.rs, with `schedule_async` of crates/starlight/src/vm/context.rs.
-- A promise is the number of its object; `promise_of` says which value is a promise. The jobs wait in a queue that the
-- embedder empties. Parameters: `scheduler` says whether there is one, `call` is the interpreter, which may
-- act on promises, `make_array` is the new array of a list of values, and the values of the closures and of
-- the error messages. `none` is a failed `unwrap` or an index out of range.
pub mod Kept
pub mod Acts
pub mod Settled
pub mod Tracked
pub mod Deliver
pub mod Adopted
mod Tests
use js.Common.{ℕ, zero, suc, ◌+◌, Bool, true, false, Option, none, some, List, [], ◌∷◌, ◌++◌, ◌>>=◌}
use js.Common.{◌==◌, ltb, if◌then◌else◌, length, set, replicate}
use js.Value.{JsValue}

-- `Result<JsValue, JsValue>`
pub data Outcome : Type 0 where
  ok : JsValue → Outcome
  err : JsValue → Outcome

-- `Result<(), JsValue>`
pub data Done : Type 0 where
  done : Done
  failed : JsValue → Done

pub data TrackingMode : Type 0 where
  all race all_settled any : TrackingMode

-- then_func / catch_func / finally_func / sub_promise
pub record Sub : Type 0 where
  pub on_resolved : Option JsValue
  pub on_rejected : Option JsValue
  pub on_finally : Option JsValue
  pub sub_promise : ℕ

pub record JsPromise : Type 0 where
  pub subs : List Sub
  pub tracking_mode : Option TrackingMode
  pub tracking_results : Option (List (Option Outcome))
  pub resolution : Option Outcome

pub record Realm : Type 0 where
  pub promises : ℕ → JsPromise
  -- the number of the next object
  pub next : ℕ
  -- the promises whose job is scheduled, the first one first
  pub jobs : List ℕ

abbrev pub write : Realm → ℕ → JsPromise → Realm
write r p x = record r { promises = λ q. if q == p then x else r.promises q }

unfoldable pub push_sub : Realm → ℕ → Sub → Realm
push_sub r p s = write r p (record (r.promises p) { subs = (r.promises p).subs ++ (s ∷ []) })

unfoldable pub settle : Realm → ℕ → Outcome → Realm
settle r p o = write r p (record (r.promises p) { resolution = some o })

abbrev pub new_promise : Option TrackingMode → Option (List (Option Outcome)) → JsPromise
new_promise mode results = record {
  subs = [];
  tracking_mode = mode;
  tracking_results = results;
  resolution = none;
}

-- The number of the new promise.
unfoldable pub allocate_promise : Realm → JsPromise → ℕ × Realm
allocate_promise r x = (
  r.next,
  record r { promises = λ q. if q == r.next then x else r.promises q; next = suc r.next },
)

unfoldable pub new_unresolving : Realm → ℕ × Realm
new_unresolving r = allocate_promise r (new_promise none none)

unfoldable pub then' : Realm → ℕ → Option JsValue → Option JsValue → Option JsValue → ℕ × Realm
then' r p on_resolved on_rejected on_finally =
    let (sub_prom, r') = new_unresolving r in
    (
      sub_prom,
      push_sub r' p (record {
        on_resolved = on_resolved;
        on_rejected = on_rejected;
        on_finally = on_finally;
        sub_promise = sub_prom;
      }),
    )

-- The loop of `new_tracking` over the promises from the index `x` on; `tracker` is the closure that hands the
-- resolution of one to the promise `outer`.
unfoldable pub add_trackers : (ℕ → ℕ → JsValue) → Realm → ℕ → ℕ → List ℕ → Realm
add_trackers tracker r outer x [] = r
add_trackers tracker r outer x (q ∷ qs) =
    add_trackers tracker (then' r q none none (some (tracker outer x))).1 outer (x + 1) qs

-- `new_tracking` after the tests of its argument, on the promises in the array.
unfoldable pub new_tracking : (ℕ → ℕ → JsValue) → Realm → TrackingMode → List ℕ → ℕ × Realm
new_tracking tracker r mode qs =
    let (outer, r') =
      allocate_promise r (new_promise (some mode) (some (replicate (length qs) none))) in
    (outer, add_trackers tracker r' outer 0 qs)

-- What is known of the engine around promises.
pub record Engine : Type 0 where
  pub promise_of : JsValue → Option ℕ
  pub scheduler : Bool
  pub pass_val : JsValue
  pub already_resolved : JsValue
  pub no_scheduler : JsValue
  pub make_array : List JsValue → JsValue

-- The values of results that are all there and all `Ok`.
unfoldable pub all_values : List (Option Outcome) → Option (List JsValue)
all_values [] = some []
all_values (none ∷ rs) = none
all_values (some (err e) ∷ rs) = none
all_values (some (ok v) ∷ rs) = elim (all_values rs) [ none ↦ none | some vs ↦ some (v ∷ vs) ]

unfoldable pub has_none : List (Option Outcome) → Bool
has_none [] = false
has_none (none ∷ rs) = true
has_none (some o ∷ rs) = has_none rs

module _ (engine : Engine) where
  unfoldable pub schedule_async : Realm → ℕ → Done × Realm
  schedule_async r p =
      if engine.scheduler
      then (done, record r { jobs = r.jobs ++ (p ∷ []) })
      else (failed engine.no_scheduler, r)

  -- The promise that a resolution leads to.
  unfoldable pub resolved_with : Outcome → Option ℕ
  resolved_with (ok v) = engine.promise_of v
  resolved_with (err e) = none

  unfoldable pub adopt : Realm → ℕ → ℕ → Realm
  adopt r p q = push_sub r q (record {
    on_resolved = some engine.pass_val;
    on_rejected = some engine.pass_val;
    on_finally = none;
    sub_promise = p;
  })

  unfoldable pub do_resolve : Realm → ℕ → Outcome → Done × Realm
  do_resolve r p resolution = elim (r.promises p).resolution [
    | some o ↦ (failed engine.already_resolved, r)
    | none ↦ elim (resolved_with resolution) [
      | some q ↦ (done, adopt r p q)
      | none ↦ schedule_async (settle r p resolution) p
    ]
  ]

  unfoldable pub resolve : Realm → ℕ → JsValue → Done × Realm
  resolve r p v = do_resolve r p (ok v)

  unfoldable pub reject : Realm → ℕ → JsValue → Done × Realm
  reject r p e = do_resolve r p (err e)

  -- After the result of one promise was written.
  unfoldable pub after_result :
      Realm → ℕ → TrackingMode → List (Option Outcome) → Outcome → Option (Done × Realm)
  after_result r p all results (ok v) =
      let resolved : Option (Done × Realm) = elim (all_values results) [
        | none ↦ none
        | some vs ↦ some (resolve r p (engine.make_array vs))
      ] in
      if has_none results then some (done, r) else resolved
  after_result r p all results (err e) = some (reject r p e)
  after_result r p race results (ok v) = some (resolve r p v)
  after_result r p race results (err e) = some (reject r p e)
  after_result r p all_settled results o = some (done, r)
  after_result r p any results o = some (done, r)

  unfoldable pub track :
      Realm
      → ℕ
      → ℕ
      → Outcome
      → Option TrackingMode
      → Option (List (Option Outcome))
      → Option (Done × Realm)
  track r p index resolution (some mode) (some results) =
      let results' = set results index (some resolution) in
      let written = write r p (record (r.promises p) { tracking_results = some results' }) in
      let after = after_result written p mode results' resolution in
      if ltb index (length results) then after else none
  track r p index resolution none results = none
  track r p index resolution (some mode) none = none

  unfoldable pub resolve_single_tracked_resolution : Realm → ℕ → ℕ → Outcome → Option (Done × Realm)
  resolve_single_tracked_resolution r p index resolution =
      let tracked =
        track r p index resolution (r.promises p).tracking_mode (r.promises p).tracking_results in
      elim (r.promises p).resolution [ some o ↦ some (done, r) | none ↦ tracked ]

  module _ (call : JsValue → List JsValue → Realm → Outcome × Realm) where
    -- One of the loops over the subs: `handler` picks the function.
    unfoldable pub notify : (Sub → Option JsValue) → List JsValue → Realm → List Sub → Realm
    notify handler args r [] = r
    notify handler args r (s ∷ ss) = elim (handler s) [
      | none ↦ notify handler args r ss
      | some f ↦
          let (sub_res, r') = call f args r in
          notify handler args (do_resolve r' s.sub_promise sub_res).1 ss
    ]

    unfoldable pub notify_outcome : Realm → ℕ → Outcome → Realm
    notify_outcome r p (ok v) = notify (λ s. s.on_resolved) (v ∷ []) r (r.promises p).subs
    notify_outcome r p (err e) = notify (λ s. s.on_rejected) (e ∷ []) r (r.promises p).subs

    -- The job of a settled promise. A loop runs over the subs that there are when it starts.
    unfoldable pub run_job : Realm → ℕ → Option Realm
    run_job r p = elim (r.promises p).resolution [
      | none ↦ none
      | some o ↦
          let r' = notify_outcome r p o in
          some (notify (λ s. s.on_finally) [] r' (r'.promises p).subs)
    ]
