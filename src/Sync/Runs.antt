-- ===== src/Sync/Runs.antt =====
-- crates/carminedesktop-vfs/src/sync_processor.rs: the invariant over whole runs of the processor.
use text.Mathlib.Text.{starts_with}
use carmine_desktop.Common.{
  ℕ, ◌≡◌, String, Option, none, some, List, [], ◌∷◌, arith, string_eq, nat_eq, ◌==◌, Option-cases,
  inl, inr, if_lem, refl, not,
}
use carmine_desktop.Common.Map
use carmine_desktop.Inode.{InodeTable, get_inode}
use carmine_desktop.Sync.{
  SyncProcessorConfig, Processor, FailedEntry, start, flush, flush_sync, shutdown, update_metrics,
}
use carmine_desktop.Sync.Loop.{
  Event, result, request, closed, tick, Phase, running, draining, exited, step, run, DrainEvent,
  deadline, resolve_outstanding, drain, finish, recover_entry, recover_entries, recover_pending,
  after_loop, processor_loop, is_empty,
}
use carmine_desktop.Sync.Sound.{
  IsSound, IsSound-count, handle_result-IsSound, add_pending-IsSound, on_flush-IsSound,
  on_flush_sync-IsSound, on_shutdown-IsSound, on_tick-IsSound,
}

step-IsSound :
    (config : SyncProcessorConfig) (e : Event) (s : Processor)
    → IsSound s
    → IsSound (step config e s).1
unfolding step
step-IsSound config (result r now) s v = handle_result-IsSound s v r now
step-IsSound config (request (flush ino) now) s v = on_flush-IsSound ino now s v
step-IsSound config (request (flush_sync ino done) now) s v = on_flush_sync-IsSound ino done s v
step-IsSound config (request shutdown now) s v = on_shutdown-IsSound s v
step-IsSound config closed s v = v
step-IsSound config (tick now) s v = on_tick-IsSound config now s v

pub run-IsSound :
    (config : SyncProcessorConfig) (events : List Event) (p : Phase × Processor)
    → IsSound p.1
    → IsSound (run config events p).1
unfolding run
run-IsSound config [] (phase, s) v = v
run-IsSound config (e ∷ events) (running, s) v =
    run-IsSound config events (step config e s) (step-IsSound config e s v)
run-IsSound config (e ∷ events) (draining, s) v = v
run-IsSound config (e ∷ events) (exited, s) v = v

IsSound-start : IsSound start
IsSound-start = record {
  unique = tt;
  unique_pending = tt;
  apart = λ i h. Map.get-nil i;
  counted = λ i e h. ground (arith, Map.get-nil {V = FailedEntry} i);
}

-- Before the loop nothing is being uploaded, and nobody was answered.
abbrev pub IsIdle : Processor → Type 0
IsIdle s = IsSound s × (s.in_flight ≡ []) × (s.replies ≡ [])

recover_entry-IsIdle :
    (drive_id : String) (inodes : InodeTable) (now : ℕ) (entry : String × String) (s : Processor)
    → IsIdle s
    → IsIdle (recover_entry drive_id inodes now entry s)
unfolding recover_entry
recover_entry-IsIdle drive_id inodes now (d, item_id) s h = if_lem IsIdle (not (d == drive_id)) h (
    if_lem IsIdle (starts_with item_id "local:") h (elim (Option-cases (get_inode item_id inodes)) [
      | inl e ↦ rw e h
      | inr (ino, e) ↦ rw e (
          if_lem IsIdle (Map.contains_key ino s.pending) (IsSound-count _ s h.0, h.1, h.2)
            (add_pending-IsSound s h.0 ino now (rw (h.1) (Map.get-nil {V = List ℕ} ino)), h.1, h.2))
    ]))

recover_entries-IsIdle :
    (drive_id : String) (inodes : InodeTable) (now : ℕ) (entries : List (String × String))
    (s : Processor)
    → IsIdle s
    → IsIdle (recover_entries drive_id inodes now entries s)
unfolding recover_entries
recover_entries-IsIdle drive_id inodes now [] s h = h
recover_entries-IsIdle drive_id inodes now (e ∷ entries) s h =
    recover_entries-IsIdle drive_id inodes now entries _
      (recover_entry-IsIdle drive_id inodes now e s h)

pub recover_pending-IsIdle :
    (drive_id : String) (inodes : InodeTable) (now : ℕ) (listed : Option (List (String × String)))
    → IsIdle (recover_pending drive_id inodes now listed start)
unfolding recover_pending
recover_pending-IsIdle drive_id inodes now none = (IsSound-start, refl, refl)
recover_pending-IsIdle drive_id inodes now (some entries) =
    recover_entries-IsIdle drive_id inodes now entries start (IsSound-start, refl, refl)

resolve_outstanding-IsSound : (s : Processor) → IsSound s → IsSound (resolve_outstanding s)
unfolding resolve_outstanding
resolve_outstanding-IsSound s v = record {
  unique = tt;
  unique_pending = v.unique_pending;
  apart = λ i h. ground (arith, Map.get-nil {V = List ℕ} i);
  counted = v.counted;
}

drain-IsSound : (events : List DrainEvent) (s : Processor) → IsSound s → IsSound (drain events s)
unfolding drain
drain-IsSound [] s v = v
drain-IsSound (deadline ∷ events) s v =
    if_lem IsSound (is_empty s) v (resolve_outstanding-IsSound s v)
drain-IsSound (result r now ∷ events) s v =
    if_lem IsSound (is_empty s) v (drain-IsSound events _ (handle_result-IsSound s v r now))

after_loop-IsSound :
    (drains : List DrainEvent) (p : Phase × Processor)
    → IsSound p.1
    → IsSound (after_loop drains p).1
unfolding after_loop finish update_metrics
after_loop-IsSound drains (running, s) v = v
after_loop-IsSound drains (draining, s) v =
    let w = drain-IsSound drains s v in
    record {
      unique = w.unique;
      unique_pending = w.unique_pending;
      apart = w.apart;
      counted = w.counted;
    }
after_loop-IsSound drains (exited, s) v = v

-- Whatever the writeback buffer listed at the start, whatever the order of requests, results and
-- ticks, and whatever the shutdown meets: no inode is ever both pending and in flight, and every
-- retry counter lies between 1 and 9.
pub processor_loop-IsSound :
    (config : SyncProcessorConfig) (drive_id : String) (inodes : InodeTable) (now : ℕ)
    (listed : Option (List (String × String))) (events : List Event) (drains : List DrainEvent)
    → IsSound (processor_loop config drive_id inodes now listed events drains).1
unfolding processor_loop
processor_loop-IsSound config drive_id inodes now listed events drains =
    after_loop-IsSound drains _
      (run-IsSound config events _ (recover_pending-IsIdle drive_id inodes now listed).0)
