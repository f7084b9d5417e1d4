-- ===== src/Watchers/Examples.antt =====
-- Runs of watchers.rs: two watches on the hull of entity 5, one of them one-shot.
use bw_exp.Common.{ℕ, ◌≡◌, refl, Option, none, some, true, false, ◌==◌, if◌then◌else◌}
use bw_exp.Common.Int.{ℤ, pos}
use bw_exp.Common.Ids.{without}
use bw_exp.Common.Float.{integers}
use bw_exp.Common.Map.{lookup, insert, modify, remove}
use bw_exp.Watchers.{
  WatchValue, float, less_than, changed, PropertyWatch, WatchRegistry, watch_new, one_shot,
  should_trigger,
}
use bw_exp.Watchers.Registry.{new, registers, resumes, handle, check_entity, list_for_entity}
use bw_exp.Watchers.Consistency.{IsIndexed, new-IsIndexed}
use bw_exp.Watchers.Sweeps.{check_entity_lem, after, fired, checked}
use bw_exp.Watchers.Calls.{handle-IsIndexed, one_shot_once, Later, here, next, names}

abbrev low : PropertyWatch ℤ
low = one_shot (watch_new 1 0 5 0 (less_than (pos 25)) 7 8)

abbrev moves : PropertyWatch ℤ
moves = watch_new 2 0 5 0 changed 9 8

abbrev hull : ℤ → ℕ → Option (WatchValue ℤ)
hull v property = if property == 0 then some (float v) else none

abbrev empty : WatchRegistry ℤ
empty = new

abbrev one_watch : WatchRegistry ℤ
one_watch = handle (registers low) empty

abbrev two_watches : WatchRegistry ℤ
two_watches = handle (registers moves) one_watch

low_id : low.id ≡ 1
unfolding one_shot watch_new
low_id = refl

low_fresh : lookup low.id empty.watches ≡ none
unfolding new lookup
low_fresh = refl

moves_fresh : lookup moves.id one_watch.watches ≡ none
unfolding handle new lookup insert one_shot watch_new
moves_fresh = refl

two_watches-IsIndexed : IsIndexed two_watches
two_watches-IsIndexed =
    handle-IsIndexed (registers moves) one_watch moves_fresh
      (handle-IsIndexed (registers low) empty low_fresh new-IsIndexed)

check_entity_lem_example :
    IsIndexed (check_entity 5 (hull (pos 20)) two_watches).0
    × ((id : ℕ)
        → lookup id (check_entity 5 (hull (pos 20)) two_watches).0.watches
          ≡ after (hull (pos 20)) 5 (lookup id two_watches.watches))
    × ((check_entity 5 (hull (pos 20)) two_watches).1
        ≡ fired (hull (pos 20)) (list_for_entity 5 two_watches))
check_entity_lem_example = check_entity_lem (hull (pos 20)) 5 two_watches two_watches-IsIndexed

low_there : lookup 1 two_watches.watches ≡ some low
unfolding handle new lookup insert one_shot watch_new
low_there = refl

low_facts :
    (low.entity_id ≡ 5) × (low.is_one_shot ≡ true) × ((checked (hull (pos 20)) low).1 ≡ true)
unfolding one_shot watch_new should_trigger
low_facts = (refl, refl, refl)

abbrev swept : WatchRegistry ℤ
swept = (check_entity 5 (hull (pos 20)) two_watches).0

abbrev resumed : WatchRegistry ℤ
resumed = handle (resumes 1) swept

resumed-Later : Later 1 swept resumed
resumed-Later = next (resumes 1) here tt (λ w e. cc)

one_shot_once_example :
    (lookup 1 resumed.watches ≡ none)
    × ((e : ℕ) (get_value : ℕ → Option (WatchValue ℤ))
        → names (check_entity e get_value resumed).1 1 ≡ false)
one_shot_once_example =
    one_shot_once 5 (hull (pos 20)) 1 low two_watches resumed two_watches-IsIndexed low_there
      low_facts.0 low_facts.1 low_facts.2 resumed-Later

-- Both watches fire at 20; the one-shot watch is gone, and the other does not fire at 20 again.
both_fire :
    (names (check_entity 5 (hull (pos 20)) two_watches).1 1 ≡ true)
    × (names (check_entity 5 (hull (pos 20)) two_watches).1 2 ≡ true)
    × (names (check_entity 5 (hull (pos 20)) swept).1 2 ≡ false)
unfolding check_entity handle lookup insert new one_shot watch_new should_trigger modify without
    remove
both_fire = (refl, refl, refl)
