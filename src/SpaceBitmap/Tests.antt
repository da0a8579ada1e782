-- ===== src/SpaceBitmap/Tests.antt =====
-- Concrete bitmaps and races (crates/starlight/src/gc/space_bitmap.rs).
use js.Common.{ℕ, ◌-◌, ◌/◌, ◌≡◌, ◌==◌, if◌then◌else◌, refl, Bool, true, false, bit}
use js.SpaceBitmap.{create, modify, test}
use js.SpaceBitmap.Bits.{test-modify}
use js.SpaceBitmap.Race.{
  World, Reach, race_sound, loading, returned, exchanging, here, next, load_step, exchange_step,
  after_load, update,
}

test-modify_example :
    let (b', was_set) = modify 16 true (create 16 4096 4096) 4128 in
    (test 16 b' 4136 ≡ (
      if (4136 - 4096) / 16 == (4128 - 4096) / 16
      then true
      else test 16 (create 16 4096 4096) 4136))
    × (was_set ≡ test 16 (create 16 4096 4096) 4128)
unfolding create
test-modify_example = test-modify 16 true (create 16 4096 4096) 4128 4136

-- All threads want the digit 3: threads 0 and 1 load an empty word, and thread 0 exchanges it.
abbrev third : ℕ → ℕ
third i = 3

abbrev at_start : World
at_start = record { entry = 0; threads = λ _. loading }

abbrev first_loaded : World
first_loaded = record { entry = 0; threads = update at_start.threads 0 (exchanging 0) }

abbrev both_loaded : World
both_loaded = record { entry = 0; threads = update first_loaded.threads 1 (exchanging 0) }

abbrev first_done : World
first_done = record { entry = 8; threads = update both_loaded.threads 0 (returned false) }

race : Reach third at_start first_done
unfolding after_load
race =
    next
      (next {w = both_loaded} (next {w = first_loaded} here (load_step at_start 0 refl))
        (load_step first_loaded 1 refl))
      (exchange_step both_loaded 0 refl)

race_sound_example :
    ((i : ℕ) (b : Bool) → first_done.threads i ≡ returned b → bit 3 8 ≡ true)
    × ((i j : ℕ)
        → third i ≡ third j
        → first_done.threads i ≡ returned false
        → first_done.threads j ≡ returned false
        → i ≡ j)
race_sound_example = race_sound third 0 first_done race

-- The digit is set from the start, and thread 0 loads it.
abbrev marked_loaded : World
marked_loaded = record { entry = 8; threads = update at_start.threads 0 (returned true) }

marked_race : Reach third (record { entry = 8; threads = λ _. loading }) marked_loaded
unfolding after_load
marked_race = next here (load_step (record { entry = 8; threads = λ _. loading }) 0 refl)
