-- ===== src/Tests/Sync.antt =====
-- The upload processor at concrete inputs.
use carmine_desktop.Common.{
  ◌≡◌, refl, true, false, none, some, List, [], ◌∷◌, ◌++◌, ◌||◌, ◌⊎◌, ◌-◌, arith, nat_eq, leb,
}
use carmine_desktop.Common.Map
use carmine_desktop.Inode
use carmine_desktop.Sync.{
  Processor, default_config, start, flush_sync, flush, shutdown, handle_result, on_flush, on_tick,
  on_shutdown, max_retries,
}
use carmine_desktop.Sync.Loop.{
  Event, request, tick, result, running, draining, run, DrainEvent, deadline, recover_pending,
  processor_loop,
}
use carmine_desktop.Sync.Retry.{fail_times, expected, failed-fail_times}
use carmine_desktop.Sync.Runs.{processor_loop-IsSound, recover_pending-IsIdle}
use carmine_desktop.Sync.Schedule.{on_tick-on_flush, on_shutdown_flushes}
use carmine_desktop.Sync.Sound.{IsSound}
use carmine_desktop.Sync.Waiters.{answered, asked, answered-processor_loop}

-- A flush, a tick after its window, a synchronous flush of the inode in flight, a shutdown.
abbrev session : List Event
session =
    request (flush 7) 1000
    ∷ tick 1200
    ∷ request (flush_sync 7 42) 1250
    ∷ request (flush_sync 8 43) 1260
    ∷ request shutdown 1300
    ∷ []

abbrev results : List DrainEvent
results = result (record { ino = 7; success = true }) 1400 ∷ []

left_by_shutdown :
    (run default_config session (running, recover_pending "d" Inode.new 0 none start)).0 ≡ draining
unfolding run recover_pending
left_by_shutdown = refl

test_spawned :
    (processor_loop default_config "d" Inode.new 0 none session
      (results ++ deadline ∷ [])).1.replies
    ≡ (43, false) ∷ (42, true) ∷ []
unfolding processor_loop on_shutdown carmine_desktop.Sync.on_flush_sync Map.get on_tick on_flush
    Map.insert Map.remove
test_spawned = refl

answered-processor_loop_example :
    answered 42
      (processor_loop default_config "d" Inode.new 0 none session
        (results ++ deadline ∷ [])).1.replies
    ≡ asked 42 session
answered-processor_loop_example =
    answered-processor_loop 42 default_config "d" Inode.new 0 none session results left_by_shutdown

processor_loop-IsSound_example :
    IsSound (processor_loop default_config "d" Inode.new 0 none session results).1
processor_loop-IsSound_example =
    processor_loop-IsSound default_config "d" Inode.new 0 none session results

start-IsSound : IsSound start
unfolding recover_pending
start-IsSound = (recover_pending-IsIdle "d" Inode.new 0 none).0

on_tick-on_flush_example :
    (Map.contains_key 7 (on_tick default_config 1200 (on_flush 7 1000 start)).in_flight
      ≡ leb 100 (1200 - 1000))
    × ((leb 100 (1200 - 1000) ≡ true)
        ⊎ (Map.get 7 (on_tick default_config 1200 (on_flush 7 1000 start)).pending ≡ some 1000))
on_tick-on_flush_example =
    on_tick-on_flush default_config start 7 1000 1200 start-IsSound (Map.get-nil 7)

on_shutdown_flushes_example :
    (Map.get 7 (on_shutdown (on_flush 7 1000 start)).pending ≡ none)
    × (Map.contains_key 7 (on_shutdown (on_flush 7 1000 start)).in_flight ≡ (
        Map.contains_key 7 (on_flush 7 1000 start).pending
        || Map.contains_key 7 (on_flush 7 1000 start).in_flight))
on_shutdown_flushes_example = on_shutdown_flushes (on_flush 7 1000 start) 7

failed-fail_times_example :
    Map.get 7 (fail_times 7 (5000 ∷ 2000 ∷ []) start).failed ≡ expected 2 5000
failed-fail_times_example = failed-fail_times 7 5000 (2000 ∷ []) start (Map.get-nil 7) (omega arith)
