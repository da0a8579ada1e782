-- ===== src/Promise/Acts.antt =====
-- What the functions of crates/starlight/src/vm/promise.rs do to a promise that is settled.
use js.Common.{ℕ, ◌+◌, ◌<◌, ◌≡◌, ◌∙◌, refl, Option, none, some, List, [], ◌∷◌}
use js.Common.{length, replicate}
use js.Value.{JsValue}
use js.Promise.{
  Outcome, Done, TrackingMode, JsPromise, Realm, Engine, allocate_promise, new_promise, then',
  do_resolve, resolve_single_tracked_resolution, add_trackers, new_tracking,
}
use js.Promise.Kept.{
  times, IsKept, do_resolve-IsKept, allocate-IsKept, then-IsKept, resolve_single-IsKept,
}

-- What code does to promises: one call of a function of this file.
pub data Act (engine : Engine) : Realm → Realm → Type 0 where
  resolve_act : (r : Realm) (q : ℕ) (x : Outcome) → Act engine r (do_resolve engine r q x).1
  then_act : (r : Realm) (q : ℕ) (a b c : Option JsValue) → Act engine r (then' r q a b c).1
  new_act : (r : Realm) (x : JsPromise) → Act engine r (allocate_promise r x).1
  track_act :
      (r r' : Realm) (q i : ℕ) (d : Done) (x : Outcome)
      → resolve_single_tracked_resolution engine r q i x ≡ some (d, r')
      → Act engine r r'

pub data Acts (engine : Engine) (r : Realm) : Realm → Type 0 where
  here : Acts engine r r
  next : {s t : Realm} → Acts engine r s → Act engine s t → Acts engine r t

Act-IsKept :
    (engine : Engine) (p : ℕ) (o : Outcome) {r r' : Realm}
    → Act engine r r'
    → p < r.next
    → (r.promises p).resolution ≡ some o
    → IsKept p o r r'
Act-IsKept engine p o (resolve_act r q x) l s = do_resolve-IsKept engine p o r q x l s
Act-IsKept engine p o (then_act r q a b c) l s = then-IsKept engine p o r q a b c l s
Act-IsKept engine p o (new_act r x) l s = allocate-IsKept engine p o r x l s
Act-IsKept engine p o (track_act r r' q i d x e) l s =
    resolve_single-IsKept engine p o r r' q i d x l s e

-- A promise that is settled keeps its resolution, whatever code does, and its job is not scheduled again.
pub settled_kept :
    (engine : Engine) (p : ℕ) (o : Outcome) (r r' : Realm)
    → p < r.next
    → (r.promises p).resolution ≡ some o
    → Acts engine r r'
    → (p < r'.next) × ((r'.promises p).resolution ≡ some o) × (times p r'.jobs ≡ times p r.jobs)
settled_kept engine p o r r' l s here = (l, s, refl)
settled_kept engine p o r r' l s (next before act) =
    let (l', s', t') = settled_kept engine p o r _ l s before in
    let k = Act-IsKept engine p o act l' s' in (k.old, k.settled, k.scheduled ∙ t')

-- The loop of `new_tracking` is calls of `then`.
add_trackers-Acts :
    (engine : Engine) (tracker : ℕ → ℕ → JsValue) (r s : Realm) (outer x : ℕ) (qs : List ℕ)
    → Acts engine r s
    → Acts engine r (add_trackers tracker s outer x qs)
unfolding add_trackers
add_trackers-Acts engine tracker r s outer x [] before = before
add_trackers-Acts engine tracker r s outer x (q ∷ qs) before =
    add_trackers-Acts engine tracker r (then' s q none none (some (tracker outer x))).1 outer
      (x + 1) qs (next before (then_act s q none none (some (tracker outer x))))

-- So `new_tracking` keeps settled promises.
pub new_tracking-Acts :
    (engine : Engine) (tracker : ℕ → ℕ → JsValue) (r : Realm) (mode : TrackingMode) (qs : List ℕ)
    → Acts engine r (new_tracking tracker r mode qs).1
unfolding new_tracking allocate_promise
new_tracking-Acts engine tracker r mode qs =
    let x = new_promise (some mode) (some (replicate (length qs) none)) in
    add_trackers-Acts engine tracker r (allocate_promise r x).1 r.next 0 qs
      (next here (new_act r x))
