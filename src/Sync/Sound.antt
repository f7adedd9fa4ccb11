-- ===== src/Sync/Sound.antt =====
-- crates/carminedesktop-vfs/src/sync_processor.rs: the invariant of the processor's three maps.
use carmine_desktop.Common.{
  ℕ, ◌+◌, ◌≤◌, ◌<◌, ◌≡◌, true, none, some, List, [], ◌∷◌, arith, nat_eq, Bool-cases, Option-cases,
  inl, inr, ◌++◌, is_some-false, unwrap_or, ◌-◌, ◌*◌, not, ◌&&◌, if_lem, if_cases,
}
use carmine_desktop.Common.Map
use carmine_desktop.Common.Map.{get-insert, get-remove}
use carmine_desktop.Common.Map.Unique.{IsUnique, insert-IsUnique, remove-IsUnique}
use carmine_desktop.Sync.{
  SyncProcessorConfig, UploadResult, FailedEntry, Processor, max_retries, spawn_upload,
  note_failure, backoff_duration, debounced, retryable, handle_result, flush_ready, on_flush,
  push_waiter, on_flush_sync, on_shutdown, enqueue_retries, on_tick, update_metrics,
}

-- No inode is both waiting for its window and being uploaded, and an upload that is to be retried
-- has failed at least once and fewer times than the limit.
pub record IsSound (s : Processor) : Type 0 where
  pub unique : IsUnique s.in_flight
  pub unique_pending : IsUnique s.pending
  pub apart : (i : ℕ) → Map.contains_key i s.in_flight ≡ true → Map.get i s.pending ≡ none
  pub counted :
      (i : ℕ) (e : FailedEntry)
      → Map.get i s.failed ≡ some e
      → (1 ≤ e.retry_count) × (e.retry_count < max_retries)

-- The entry that a failure leaves, where the limit is not reached.
abbrev after_failure : ℕ → FailedEntry → FailedEntry
after_failure now entry = record {
  retry_count = entry.retry_count + 1;
  next_retry = now + 1000 * backoff_duration (entry.retry_count + 1);
}

module _ (s : Processor) (v : IsSound s) where
  note_failure-counted :
      (now ino : ℕ) (entry : FailedEntry) (i : ℕ) (e : FailedEntry)
      → Map.get i (note_failure now ino entry s.failed) ≡ some e
      → (1 ≤ e.retry_count) × (e.retry_count < max_retries)
  unfolding note_failure
  note_failure-counted now ino entry i e h = ground (
    arith,
    get-remove ino i s.failed,
    v.counted i e,
    get-insert ino i (after_failure now entry) s.failed,
  )

  -- A result takes the upload out of the map and changes nothing that is pending.
  pub handle_result-IsSound : (r : UploadResult) (now : ℕ) → IsSound (handle_result r now s)
  unfolding handle_result
  handle_result-IsSound r now = elim (Bool-cases r.success) [
    | inl e ↦
        rw (e, handle_result)
          (record {
            unique = remove-IsUnique r.ino s.in_flight v.unique;
            unique_pending = v.unique_pending;
            apart = λ i h. ground (arith, get-remove r.ino i s.in_flight, v.apart i);
            counted = λ i d h. ground (arith, get-remove r.ino i s.failed, v.counted i d);
          })
    | inr e ↦
        rw (e, handle_result)
          (record {
            unique = remove-IsUnique r.ino s.in_flight v.unique;
            unique_pending = v.unique_pending;
            apart = λ i h. ground (arith, get-remove r.ino i s.in_flight, v.apart i);
            counted =
                note_failure-counted now r.ino (
                  unwrap_or (Map.get r.ino s.failed)
                    (record { retry_count = 0; next_retry = now }));
          })
  ]

  pub take_pending-IsSound : (ino : ℕ) → IsSound (record s { pending = Map.remove ino s.pending })
  take_pending-IsSound ino = record {
    unique = v.unique;
    unique_pending = remove-IsUnique ino s.pending v.unique_pending;
    apart = λ i h. ground (arith, get-remove ino i s.pending, v.apart i);
    counted = v.counted;
  }

  pub add_pending-IsSound :
      (ino now : ℕ)
      → Map.get ino s.in_flight ≡ none
      → IsSound (record s { pending = Map.insert ino now s.pending })
  add_pending-IsSound ino now e = record {
    unique = v.unique;
    unique_pending = insert-IsUnique ino now s.pending v.unique_pending;
    apart = λ i h. ground (arith, get-insert ino i now s.pending, nat_eq.beq_iff ino i, v.apart i);
    counted = v.counted;
  }

  spawn_upload-IsSound : (ino : ℕ) → Map.get ino s.pending ≡ none → IsSound (spawn_upload ino s)
  unfolding spawn_upload
  spawn_upload-IsSound ino e = record {
    unique = insert-IsUnique ino [] s.in_flight v.unique;
    unique_pending = v.unique_pending;
    apart = λ i h. ground (arith, get-insert ino i [] s.in_flight, nat_eq.beq_iff ino i, v.apart i);
    counted = v.counted;
  }

  -- A waiter is added to an upload that runs.
  push_waiter-IsSound : (ino done : ℕ) → IsSound (push_waiter ino done s)
  unfolding push_waiter
  push_waiter-IsSound ino done = elim (Option-cases (Map.get ino s.in_flight)) [
    | inl e ↦ rw (e, push_waiter) v
    | inr (ws, e) ↦
        rw (e, push_waiter)
          (record {
            unique = insert-IsUnique ino (ws ++ done ∷ []) s.in_flight v.unique;
            unique_pending = v.unique_pending;
            apart = λ i h. ground (
              arith,
              get-insert ino i (ws ++ done ∷ []) s.in_flight,
              nat_eq.beq_iff ino i,
              v.apart i,
              v.apart ino,
            );
            counted = v.counted;
          })
  ]

start_now-IsSound :
    (s : Processor) (ino : ℕ)
    → IsSound s
    → IsSound (spawn_upload ino (record s { pending = Map.remove ino s.pending }))
start_now-IsSound s ino v =
    spawn_upload-IsSound _ (take_pending-IsSound s v ino) ino (Map.get-remove_self ino s.pending)

flush_ready-IsSound : (inos : List ℕ) (s : Processor) → IsSound s → IsSound (flush_ready inos s)
unfolding flush_ready
flush_ready-IsSound [] s v = v
flush_ready-IsSound (ino ∷ inos) s v = flush_ready-IsSound inos _ (
    if_lem IsSound (Map.contains_key ino s.in_flight) (take_pending-IsSound s v ino)
      (start_now-IsSound s ino v))

enqueue_retries-IsSound :
    (config : SyncProcessorConfig) (now : ℕ) (inos : List ℕ) (s : Processor)
    → IsSound s
    → IsSound (enqueue_retries config now inos s)
unfolding enqueue_retries
enqueue_retries-IsSound config now [] s v = v
enqueue_retries-IsSound config now (ino ∷ inos) s v = enqueue_retries-IsSound config now inos _ (
    if_cases IsSound
      (not (Map.contains_key ino s.in_flight) && not (Map.contains_key ino s.pending))
      (λ h. add_pending-IsSound s v ino (now - config.debounce_ms) (ground arith)) (λ _. v))

pub IsSound-count :
    (n : ℕ) (s : Processor) → IsSound s → IsSound (record s { total_deduplicated = n })
IsSound-count n s v = record {
  unique = v.unique;
  unique_pending = v.unique_pending;
  apart = v.apart;
  counted = v.counted;
}

pub on_flush-IsSound : (ino now : ℕ) (s : Processor) → IsSound s → IsSound (on_flush ino now s)
unfolding on_flush
on_flush-IsSound ino now s v =
    if_cases IsSound (Map.contains_key ino s.in_flight) (λ _. IsSound-count _ s v)
      λ h.
        let w = add_pending-IsSound s v ino now (is_some-false _ h) in
        if_lem IsSound (Map.contains_key ino s.pending) (IsSound-count _ _ w) w

pub on_flush_sync-IsSound :
    (ino done : ℕ) (s : Processor) → IsSound s → IsSound (on_flush_sync ino done s)
unfolding on_flush_sync
on_flush_sync-IsSound ino done s v =
    if_lem IsSound (Map.contains_key ino s.in_flight) (push_waiter-IsSound s v ino done)
      (push_waiter-IsSound _ (start_now-IsSound s ino v) ino done)

pub on_shutdown-IsSound : (s : Processor) → IsSound s → IsSound (on_shutdown s)
unfolding on_shutdown
on_shutdown-IsSound s v = flush_ready-IsSound (Map.keys s.pending) s v

pub on_tick-IsSound :
    (config : SyncProcessorConfig) (now : ℕ) (s : Processor)
    → IsSound s
    → IsSound (on_tick config now s)
unfolding on_tick update_metrics
on_tick-IsSound config now s v =
    let w =
      enqueue_retries-IsSound config now
        (retryable now (flush_ready (debounced config now s.pending) s).failed) _
        (flush_ready-IsSound (debounced config now s.pending) s v) in
    record {
      unique = w.unique;
      unique_pending = w.unique_pending;
      apart = w.apart;
      counted = w.counted;
    }
