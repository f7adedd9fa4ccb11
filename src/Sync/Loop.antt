-- ===== src/Sync/Loop.antt =====
-- crates/carminedesktop-vfs/src/sync_processor.rs: the event loop, the crash recovery before it and
-- the shutdown after it.
use text.Mathlib.Text.{starts_with}
use carmine_desktop.Common.{
  ℕ, not, String, Bool, true, false, Option, none, some, List, [], ◌∷◌, if◌then◌else◌, ◌==◌,
  string_eq, nat_eq,
}
use carmine_desktop.Common.Map
use carmine_desktop.Common.Map.{Map}
use carmine_desktop.Inode.{InodeTable, get_inode}
use carmine_desktop.Sync.{
  SyncRequest, flush, flush_sync, shutdown, SyncProcessorConfig, UploadResult, Processor, increment,
  start, answer, handle_result, on_flush, on_flush_sync, on_shutdown, on_tick, update_metrics,
}

-- What one round of `select!` finds: an upload's result, a request, the closed channel, the tick.
-- Any order of events is a run; the bias of `select!` leaves out some of them.
pub data Event : Type 0 where
  result : UploadResult → ℕ → Event
  request : SyncRequest → ℕ → Event
  closed : Event
  tick : ℕ → Event

-- The loop goes on, has left for the shutdown phase, or has returned.
pub data Phase : Type 0 where
  running draining exited : Phase

unfoldable pub step : SyncProcessorConfig → Event → Processor → Phase × Processor
step config (result r now) s = (running, handle_result r now s)
step config (request (flush ino) now) s = (running, on_flush ino now s)
step config (request (flush_sync ino done) now) s = (running, on_flush_sync ino done s)
step config (request shutdown now) s = (draining, on_shutdown s)
step config closed s = (exited, s)
step config (tick now) s = (running, on_tick config now s)

-- The loop over the events. It ends `running` where it waits for more.
unfoldable pub run : SyncProcessorConfig → List Event → Phase × Processor → Phase × Processor
unfolding step
run config [] (phase, s) = (phase, s)
run config (e ∷ events) (running, s) = run config events (step config e s)
run config (e ∷ events) (draining, s) = (draining, s)
run config (e ∷ events) (exited, s) = (exited, s)

-- The shutdown phase: results of uploads, or the deadline.
pub data DrainEvent : Type 0 where
  result : UploadResult → ℕ → DrainEvent
  deadline : DrainEvent

-- `for (_, waiters) in in_flight.drain() { for waiter in waiters { waiter.send(false) } }`
unfoldable pub answer_all : Map ℕ (List ℕ) → List (ℕ × Bool) → List (ℕ × Bool)
unfolding answer
answer_all [] replies = replies
answer_all ((_, waiters) ∷ in_flight) replies = answer_all in_flight (answer waiters false replies)

unfoldable pub resolve_outstanding : Processor → Processor
unfolding answer_all
resolve_outstanding s = record s { in_flight = []; replies = answer_all s.in_flight s.replies }

abbrev pub is_empty : Processor → Bool
is_empty s = elim s.in_flight [ [] ↦ true | e ∷ m ↦ false ]

unfoldable pub drain : List DrainEvent → Processor → Processor
unfolding handle_result resolve_outstanding
drain [] s = s
drain (deadline ∷ events) s = if is_empty s then s else resolve_outstanding s
drain (result r now ∷ events) s =
    let rest = drain events (handle_result r now s) in if is_empty s then s else rest

-- After the loop: the shutdown phase and the last metrics.
unfoldable pub finish : List DrainEvent → Processor → Processor
unfolding drain update_metrics
finish events s = update_metrics (drain events s)

-- `recover_pending`: the entries that `list_pending` returned, or `none` if it failed. An entry of
-- another drive, of a local file or with no inode is passed over.
unfoldable pub recover_entry : String → InodeTable → ℕ → String × String → Processor → Processor
recover_entry drive_id inodes now (d, item_id) s =
    if not (d == drive_id)
    then s
    else if starts_with item_id "local:"
    then s
    else elim (get_inode item_id inodes) [
      | none ↦ s
      | some ino ↦
          if Map.contains_key ino s.pending
          then record s { total_deduplicated = increment s.total_deduplicated }
          else record s { pending = Map.insert ino now s.pending }
    ]

unfoldable pub recover_entries :
    String → InodeTable → ℕ → List (String × String) → Processor → Processor
unfolding recover_entry
recover_entries drive_id inodes now [] s = s
recover_entries drive_id inodes now (entry ∷ entries) s =
    recover_entries drive_id inodes now entries (recover_entry drive_id inodes now entry s)

unfoldable pub recover_pending :
    String → InodeTable → ℕ → Option (List (String × String)) → Processor → Processor
unfolding recover_entries
recover_pending drive_id inodes now none s = s
recover_pending drive_id inodes now (some entries) s = recover_entries drive_id inodes now entries s

-- A loop that was left by a shutdown request goes on to the shutdown phase.
unfoldable pub after_loop : List DrainEvent → Phase × Processor → Phase × Processor
unfolding finish
after_loop drains (running, s) = (running, s)
after_loop drains (draining, s) = (exited, finish drains s)
after_loop drains (exited, s) = (exited, s)

-- The processor starts, recovers, meets the events, and may shut down.
unfoldable pub processor_loop :
    SyncProcessorConfig
    → String
    → InodeTable
    → ℕ
    → Option (List (String × String))
    → List Event
    → List DrainEvent
    → Phase × Processor
unfolding run recover_pending after_loop
processor_loop config drive_id inodes now listed events drains =
    after_loop drains
      (run config events (running, recover_pending drive_id inodes now listed start))
