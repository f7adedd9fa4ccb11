-- ===== src/Sync.antt =====
-- crates/carminedesktop-vfs/src/sync_processor.rs: the processor that schedules uploads. A waiter (a
-- oneshot sender) is a number, a clock reading a number of milliseconds; each event carries the
-- reading that its handler takes. An upload that is started is noted in `spawned`, an answer to a
-- waiter in `replies`, the newest first.
use text.Mathlib.Text.{starts_with}
use carmine_desktop.Common.{
  ℕ, ◌+◌, ◌-◌, ◌*◌, ◌%◌, ◌^◌, min, String, Bool, true, false, not, ◌&&◌, Option, none, some, List,
  [], ◌∷◌, ◌++◌, if◌then◌else◌, leb, ◌==◌, string_eq, nat_eq, length, unwrap_or, map,
}
use carmine_desktop.Common.Map
use carmine_desktop.Common.Map.{Map}
use carmine_desktop.Inode.{u64_modulus}
pub mod Loop
pub mod Sound
pub mod Runs
pub mod Waiters
pub mod Retry
pub mod Schedule

pub data SyncRequest : Type 0 where
  flush : ℕ → SyncRequest
  flush_sync : ℕ → ℕ → SyncRequest
  shutdown : SyncRequest

pub record SyncProcessorConfig : Type 0 where
  pub max_concurrent_uploads : ℕ
  pub debounce_ms : ℕ
  pub tick_interval_ms : ℕ
  pub shutdown_timeout_secs : ℕ

abbrev pub default_config : SyncProcessorConfig
default_config = record {
  max_concurrent_uploads = 16;
  debounce_ms = 100;
  tick_interval_ms = 200;
  shutdown_timeout_secs = 30;
}

pub record SyncMetrics : Type 0 where
  pub queue_depth : ℕ
  pub in_flight : ℕ
  pub failed_count : ℕ
  pub total_uploaded : ℕ
  pub total_failed : ℕ
  pub total_deduplicated : ℕ

pub record UploadResult : Type 0 where
  pub ino : ℕ
  pub success : Bool

pub record FailedEntry : Type 0 where
  pub retry_count : ℕ
  pub next_retry : ℕ

-- The variables of `processor_loop`, and what it sends to others.
pub record Processor : Type 0 where
  pub pending : Map ℕ ℕ
  pub in_flight : Map ℕ (List ℕ)
  pub failed : Map ℕ FailedEntry
  pub total_uploaded : ℕ
  pub total_failed : ℕ
  pub total_deduplicated : ℕ
  pub metrics : SyncMetrics
  pub spawned : List ℕ
  pub replies : List (ℕ × Bool)

abbrev pub zero_metrics : SyncMetrics
zero_metrics = record {
  queue_depth = 0;
  in_flight = 0;
  failed_count = 0;
  total_uploaded = 0;
  total_failed = 0;
  total_deduplicated = 0;
}

abbrev pub start : Processor
start = record {
  pending = [];
  in_flight = [];
  failed = [];
  total_uploaded = 0;
  total_failed = 0;
  total_deduplicated = 0;
  metrics = zero_metrics;
  spawned = [];
  replies = [];
}

abbrev pub max_retries : ℕ
max_retries = 10

-- `+= 1` on a `u64`.
abbrev pub increment : ℕ → ℕ
increment n = (n + 1) % u64_modulus

-- Seconds; the power is of a `u64`.
unfoldable pub backoff_duration : ℕ → ℕ
backoff_duration retry_count = min (2 ^ retry_count % u64_modulus) 30

unfoldable pub spawn_upload : ℕ → Processor → Processor
spawn_upload ino s = record s {
  in_flight = Map.insert ino [] s.in_flight;
  spawned = ino ∷ s.spawned;
}

-- `for waiter in waiters { waiter.send(value) }`
unfoldable pub answer : List ℕ → Bool → List (ℕ × Bool) → List (ℕ × Bool)
answer [] value replies = replies
answer (w ∷ waiters) value replies = answer waiters value ((w, value) ∷ replies)

-- The failure branch of `handle_result`, with the entry found or made.
unfoldable pub note_failure : ℕ → ℕ → FailedEntry → Map ℕ FailedEntry → Map ℕ FailedEntry
note_failure now ino entry failed =
    let retry_count = entry.retry_count + 1 in
    if leb max_retries retry_count
    then Map.remove ino failed
    else Map.insert ino
        (record {
          retry_count = retry_count;
          next_retry = now + 1000 * backoff_duration retry_count;
        })
        failed

unfoldable pub handle_result : UploadResult → ℕ → Processor → Processor
unfolding answer note_failure
handle_result result now s =
    let s' = record s {
      in_flight = Map.remove result.ino s.in_flight;
      replies = answer (unwrap_or (Map.get result.ino s.in_flight) []) result.success s.replies;
    } in
    if result.success
    then record s' {
      total_uploaded = increment s.total_uploaded;
      failed = Map.remove result.ino s.failed;
    }
    else record s' {
      total_failed = increment s.total_failed;
      failed =
          note_failure now result.ino
            (unwrap_or (Map.get result.ino s.failed) (record { retry_count = 0; next_retry = now }))
            s.failed;
    }

-- `for ino in ready { … }`: the pending uploads that are taken out and started.
unfoldable pub flush_ready : List ℕ → Processor → Processor
unfolding spawn_upload
flush_ready [] s = s
flush_ready (ino ∷ ready) s =
    let s' = record s { pending = Map.remove ino s.pending } in
    flush_ready ready (if Map.contains_key ino s.in_flight then s' else spawn_upload ino s')

unfoldable pub on_flush : ℕ → ℕ → Processor → Processor
on_flush ino now s =
    if Map.contains_key ino s.in_flight
    then record s { total_deduplicated = increment s.total_deduplicated }
    else if Map.contains_key ino s.pending
    then record s {
      pending = Map.insert ino now s.pending;
      total_deduplicated = increment s.total_deduplicated;
    }
    else record s { pending = Map.insert ino now s.pending }

-- `if let Some(waiters) = in_flight.get_mut(&ino) { waiters.push(done) }`
unfoldable pub push_waiter : ℕ → ℕ → Processor → Processor
push_waiter ino done s = elim (Map.get ino s.in_flight) [
  | some waiters ↦ record s { in_flight = Map.insert ino (waiters ++ done ∷ []) s.in_flight }
  | none ↦ s
]

unfoldable pub on_flush_sync : ℕ → ℕ → Processor → Processor
unfolding push_waiter spawn_upload
on_flush_sync ino done s =
    if Map.contains_key ino s.in_flight
    then push_waiter ino done s
    else push_waiter ino done (spawn_upload ino (record s { pending = Map.remove ino s.pending }))

unfoldable pub on_shutdown : Processor → Processor
unfolding flush_ready
on_shutdown s = flush_ready (Map.keys s.pending) s

-- `now.duration_since(ts) >= debounce`; the difference of instants stops at 0.
unfoldable pub debounced : SyncProcessorConfig → ℕ → Map ℕ ℕ → List ℕ
debounced config now [] = []
debounced config now ((ino, ts) ∷ pending) =
    let rest = debounced config now pending in
    if leb config.debounce_ms (now - ts) then ino ∷ rest else rest

unfoldable pub retryable : ℕ → Map ℕ FailedEntry → List ℕ
retryable now [] = []
retryable now ((ino, entry) ∷ failed) =
    let rest = retryable now failed in if leb entry.next_retry now then ino ∷ rest else rest

-- `Instant::now() - debounce`: the clock is taken to be past the debounce window.
unfoldable pub enqueue_retries : SyncProcessorConfig → ℕ → List ℕ → Processor → Processor
enqueue_retries config now [] s = s
enqueue_retries config now (ino ∷ inos) s = enqueue_retries config now inos (
    if not (Map.contains_key ino s.in_flight) && not (Map.contains_key ino s.pending)
    then record s { pending = Map.insert ino (now - config.debounce_ms) s.pending }
    else s)

unfoldable pub update_metrics : Processor → Processor
update_metrics s = record s {
  metrics = record {
    queue_depth = length s.pending;
    in_flight = length s.in_flight;
    failed_count = length s.failed;
    total_uploaded = s.total_uploaded;
    total_failed = s.total_failed;
    total_deduplicated = s.total_deduplicated;
  };
}

unfoldable pub on_tick : SyncProcessorConfig → ℕ → Processor → Processor
unfolding flush_ready debounced retryable enqueue_retries update_metrics
on_tick config now s =
    let flushed = flush_ready (debounced config now s.pending) s in
    update_metrics (enqueue_retries config now (retryable now flushed.failed) flushed)
