-- ===== src/SpaceBitmap/Race.antt =====
-- `atomic_test_and_set` (crates/starlight/src/gc/space_bitmap.rs) by many threads on one word: each thread
-- wants the digit `want i` of the word, and its loop is a state machine with one atomic access
-- (a load, or the weak compare-and-exchange) in each step.
use js.Common.{ℕ, ◌^◌, ◌≡◌, ◌≢◌, arith, bit_or, bit_and, Bool, true, false, not}
use js.Common.{bit, bit-or, bit-pow, bit_and-pow, ◌==◌, if◌then◌else◌}

-- Where a thread stands in `atomic_test_and_set`.
pub data Local : Type 0 where
  -- about to load
  loading : Local
  -- about to exchange the word that it loaded
  exchanging : ℕ → Local
  -- it returned this value: was the digit set before?
  returned : Bool → Local

pub record World : Type 0 where
  pub entry : ℕ
  pub threads : ℕ → Local

-- The locals after thread `i` moved to `l`.
abbrev pub update : (ℕ → Local) → ℕ → Local → ℕ → Local
update f i l j = if i == j then l else f j

-- After a load: `if (old_word & mask) != 0 { return true }`.
unfoldable pub after_load : ℕ → ℕ → Local
after_load old_word mask =
    if not (bit_and old_word mask == 0) then returned true else exchanging old_word

module _ (want : ℕ → ℕ) where
  -- One atomic access of thread `i`. The exchange may fail spuriously, whatever the word is.
  pub data Step : World → World → Type 0 where
    load_step :
        (w : World) (i : ℕ)
        → w.threads i ≡ loading
        → Step w (record w { threads = update w.threads i (after_load w.entry (2 ^ want i)) })
    exchange_step :
        (w : World) (i : ℕ)
        → w.threads i ≡ exchanging w.entry
        → Step w (record {
          entry = bit_or w.entry (2 ^ want i);
          threads = update w.threads i (returned false);
        })
    fail_step :
        (w : World) (i old : ℕ)
        → w.threads i ≡ exchanging old
        → Step w (record w { threads = update w.threads i loading })

  pub data Reach (start : World) : World → Type 0 where
    here : Reach start start
    next : {v w : World} → Reach start v → Step v w → Reach start w

  pub record IsSound (w : World) : Type 0 where
    -- what a thread is about to exchange lacks its digit
    pub loaded : (i old : ℕ) → w.threads i ≡ exchanging old → bit (want i) old ≡ false
    -- a thread that returned leaves its digit set
    pub left : (i : ℕ) (b : Bool) → w.threads i ≡ returned b → bit (want i) w.entry ≡ true
    -- of the threads that want one digit at most one returned false
    pub one :
        (i j : ℕ)
        → want i ≡ want j
        → w.threads i ≡ returned false
        → w.threads j ≡ returned false
        → i ≡ j

  Step-IsSound : {v w : World} → Step v w → IsSound v → IsSound w
  unfolding after_load
  Step-IsSound (load_step w i e) s = record {
    loaded = λ j old h. ground (arith, s.loaded j old, bit_and-pow (want i) w.entry);
    left = λ j b h. ground (arith, s.left j b, bit_and-pow (want i) w.entry);
    one = λ j k e' h h'. ground (arith, s.one j k, bit_and-pow (want i) w.entry);
  }
  Step-IsSound (exchange_step w i e) s = record {
    loaded = λ j old h. ground (arith, s.loaded j old);
    left = λ j b h.
        ground (arith, s.left j b, bit-or (want j) w.entry (2 ^ want i), bit-pow (want j) (want i));
    one = λ j k e' h h'.
        ground (arith, s.one j k, s.loaded i w.entry, s.left j false, s.left k false);
  }
  Step-IsSound (fail_step w i old e) s = record {
    loaded = λ j o h. ground (arith, s.loaded j o);
    left = λ j b h. ground (arith, s.left j b);
    one = λ j k e' h h'. ground (arith, s.one j k);
  }

  Reach-IsSound : {v w : World} → Reach v w → IsSound v → IsSound w
  Reach-IsSound here s = s
  Reach-IsSound (next r st) s = Step-IsSound st (Reach-IsSound r s)

  start-IsSound : (entry : ℕ) → IsSound (record { entry = entry; threads = λ _. loading })
  start-IsSound entry = record {
    loaded = λ i old h. ground arith;
    left = λ i b h. ground arith;
    one = λ i j e h h'. ground arith;
  }

  -- Started on any word, after any interleaving of any number of threads: a thread that returned leaves
  -- its digit set, and of the threads that want one digit at most one was told that it set it.
  pub race_sound :
      (entry : ℕ) (w : World)
      → Reach (record { entry = entry; threads = λ _. loading }) w
      → ((i : ℕ) (b : Bool) → w.threads i ≡ returned b → bit (want i) w.entry ≡ true)
        × ((i j : ℕ)
            → want i ≡ want j
            → w.threads i ≡ returned false
            → w.threads j ≡ returned false
            → i ≡ j)
  race_sound entry w r = let s = Reach-IsSound r (start-IsSound entry) in (s.left, s.one)

  -- The digit of thread `i` is set, and it was not told that it set it.
  abbrev IsTold : ℕ → World → Type 0
  IsTold i w = (bit (want i) w.entry ≡ true) × (w.threads i ≢ returned false)

  Step-IsTold : {v w : World} (i : ℕ) → Step v w → IsSound v → IsTold i v → IsTold i w
  unfolding after_load
  Step-IsTold i (load_step w j e) s (set, told) =
      (set, λ h. ground (arith, told, bit_and-pow (want i) w.entry))
  Step-IsTold i (exchange_step w j e) s (set, told) = (
    ground (arith, bit-or (want i) w.entry (2 ^ want j)),
    λ h. ground (arith, told, s.loaded j w.entry),
  )
  Step-IsTold i (fail_step w j old e) s (set, told) = (set, λ h. ground (arith, told))

  Reach-IsTold : {v w : World} (i : ℕ) → Reach v w → IsSound v → IsTold i v → IsTold i w
  Reach-IsTold i here s t = t
  Reach-IsTold i (next r st) s t = Step-IsTold i st (Reach-IsSound r s) (Reach-IsTold i r s t)

  -- The digit of an address that is marked already: no thread that wants it is told that it set it.
  pub marked_stays :
      (entry : ℕ) (w : World) (i : ℕ)
      → bit (want i) entry ≡ true
      → Reach (record { entry = entry; threads = λ _. loading }) w
      → w.threads i ≢ returned false
  marked_stays entry w i set r = (Reach-IsTold i r (start-IsSound entry) (set, λ h. ground arith)).1
