-- ===== src/Sync/Schedule.antt =====
-- crates/carminedesktop-vfs/src/sync_processor.rs: when uploads start.
use carmine_desktop.Common.{
  ℕ, ◌-◌, ◌≡◌, refl, Bool, true, false, Option, none, some, List, [], ◌∷◌, arith, nat_eq, ◌==◌, ◌∙◌,
  ap, ◌⊎◌, inl, inr, Bool-cases, if◌then◌else◌, leb, ◌||◌,
}
use carmine_desktop.Common.Map
use carmine_desktop.Common.Map.{Map, get-insert, get-remove}
use carmine_desktop.Sync.{
  SyncProcessorConfig, Processor, spawn_upload, flush_ready, on_flush, on_shutdown, debounced,
  enqueue_retries, retryable, update_metrics, on_tick, increment,
}
use carmine_desktop.Sync.Sound.{IsSound, on_flush-IsSound}
use carmine_desktop.Common.Map.Unique.{IsUnique}

-- `list.contains(&ino)`
abbrev pub contains : ℕ → List ℕ → Bool
contains ino [] = false
contains ino (j ∷ inos) = j == ino || contains ino inos

-- After the loop over `ready`, exactly the inodes of `ready` have left the pending map, and what is
-- in flight are the old uploads and those of `ready`.
flush_ready-pending :
    (ino : ℕ) (ready : List ℕ) (s : Processor)
    → Map.get ino (flush_ready ready s).pending
      ≡ (if contains ino ready then none else Map.get ino s.pending)
unfolding flush_ready spawn_upload
flush_ready-pending ino [] s = refl
flush_ready-pending ino (j ∷ ready) s =
    flush_ready-pending ino ready _ ∙ ground (arith, get-remove j ino s.pending)

flush_ready-in_flight :
    (ino : ℕ) (ready : List ℕ) (s : Processor)
    → Map.contains_key ino (flush_ready ready s).in_flight
      ≡ (contains ino ready || Map.contains_key ino s.in_flight)
unfolding flush_ready spawn_upload
flush_ready-in_flight ino [] s = refl
flush_ready-in_flight ino (j ∷ ready) s =
    flush_ready-in_flight ino ready _
    ∙ ground (arith, get-insert j ino [] s.in_flight, nat_eq.beq_iff j ino)

contains-keys :
    {V : Type 0} (ino : ℕ) (m : Map ℕ V) → contains ino (Map.keys m) ≡ Map.contains_key ino m
unfolding Map.get
contains-keys ino [] = refl
contains-keys ino ((j, v) ∷ m) = ground (arith, contains-keys ino m)

-- A shutdown request leaves nothing pending, and what was pending is in flight.
pub on_shutdown_flushes :
    (s : Processor) (ino : ℕ)
    → (Map.get ino (on_shutdown s).pending ≡ none)
      × (Map.contains_key ino (on_shutdown s).in_flight
          ≡ (Map.contains_key ino s.pending || Map.contains_key ino s.in_flight))
unfolding on_shutdown
on_shutdown_flushes s ino = (
  flush_ready-pending ino (Map.keys s.pending) s ∙ ground (arith, contains-keys ino s.pending),
  flush_ready-in_flight ino (Map.keys s.pending) s ∙ ground (arith, contains-keys ino s.pending),
)

enqueue_retries-in_flight :
    (config : SyncProcessorConfig) (now : ℕ) (inos : List ℕ) (s : Processor)
    → (enqueue_retries config now inos s).in_flight ≡ s.in_flight
unfolding enqueue_retries
enqueue_retries-in_flight config now [] s = refl
enqueue_retries-in_flight config now (j ∷ inos) s =
    enqueue_retries-in_flight config now inos _ ∙ ground arith

enqueue_retries_keeps :
    (config : SyncProcessorConfig) (now : ℕ) (inos : List ℕ) (s : Processor) (ino ts : ℕ)
    → Map.get ino s.pending ≡ some ts
    → Map.get ino (enqueue_retries config now inos s).pending ≡ some ts
unfolding enqueue_retries
enqueue_retries_keeps config now [] s ino ts h = h
enqueue_retries_keeps config now (j ∷ inos) s ino ts h =
    enqueue_retries_keeps config now inos _ ino ts
      (ground (arith, get-insert j ino (now - config.debounce_ms) s.pending, nat_eq.beq_iff j ino))

-- An inode's window has passed, where it is pending.
abbrev is_due : SyncProcessorConfig → ℕ → Option ℕ → Bool
is_due config now none = false
is_due config now (some ts) = leb config.debounce_ms (now - ts)

contains-debounced :
    (config : SyncProcessorConfig) (now ino : ℕ) (m : Map ℕ ℕ)
    → IsUnique m
    → contains ino (debounced config now m) ≡ is_due config now (Map.get ino m)
unfolding debounced Map.get
contains-debounced config now ino [] u = refl
contains-debounced config now ino ((j, ts) ∷ m) u = elim (Bool-cases (j == ino)) [
  | inl same ↦ ground (arith, contains-debounced config now ino m u.1, nat_eq.beq_iff j ino, u.0)
  | inr other ↦ ground (arith, contains-debounced config now ino m u.1)
]

or_false : (b : Bool) → (b || false) ≡ b
or_false b = ground arith

on_flush-in_flight :
    (ino now : ℕ) (s : Processor)
    → Map.get ino (on_flush ino now s).in_flight ≡ Map.get ino s.in_flight
unfolding on_flush
on_flush-in_flight ino now s = ground arith

on_flush-pending :
    (ino now : ℕ) (s : Processor)
    → Map.get ino s.in_flight ≡ none
    → Map.get ino (on_flush ino now s).pending ≡ some now
unfolding on_flush
on_flush-pending ino now s e = ground (arith, Map.get-insert_self ino now s.pending)

-- A flush of an inode that is in flight leaves no trace but in the counter: nothing is scheduled
-- for what was written since that upload read its content.
pub on_flush_in_flight :
    (ino now : ℕ) (s : Processor)
    → Map.contains_key ino s.in_flight ≡ true
    → on_flush ino now s ≡ record s { total_deduplicated = increment s.total_deduplicated }
unfolding on_flush
on_flush_in_flight ino now s h = rw h

module _ (config : SyncProcessorConfig) (now ino : ℕ) (s : Processor) where
  on_tick-in_flight :
      IsUnique s.pending
      → Map.contains_key ino (on_tick config now s).in_flight
        ≡ (is_due config now (Map.get ino s.pending) || Map.contains_key ino s.in_flight)
  unfolding on_tick update_metrics
  on_tick-in_flight u =
      let ready = debounced config now s.pending in
      let flushed = flush_ready ready s in
      ap (λ m. Map.contains_key ino m)
        (enqueue_retries-in_flight config now (retryable now flushed.failed) flushed)
      ∙ flush_ready-in_flight ino ready s
      ∙ rw (contains-debounced config now ino s.pending u)

  on_tick_keeps_pending :
      (ts : ℕ)
      → IsUnique s.pending
      → Map.get ino s.pending ≡ some ts
      → leb config.debounce_ms (now - ts) ≡ false
      → Map.get ino (on_tick config now s).pending ≡ some ts
  unfolding on_tick update_metrics
  on_tick_keeps_pending ts u e early =
      let ready = debounced config now s.pending in
      let flushed = flush_ready ready s in
      enqueue_retries_keeps config now (retryable now flushed.failed) flushed ino ts (
        flush_ready-pending ino ready s
        ∙ rw (contains-debounced config now ino s.pending u, e, early) refl)

-- A tick after a flush of an inode that is not in flight starts its upload exactly if the window
-- since that flush, the last one, has passed; if it has not, the inode stays pending at that time.
pub on_tick-on_flush :
    (config : SyncProcessorConfig) (s : Processor) (ino flushed now : ℕ)
    → IsSound s
    → Map.get ino s.in_flight ≡ none
    → (Map.contains_key ino (on_tick config now (on_flush ino flushed s)).in_flight
        ≡ leb config.debounce_ms (now - flushed))
      × ((leb config.debounce_ms (now - flushed) ≡ true)
          ⊎ (Map.get ino (on_tick config now (on_flush ino flushed s)).pending ≡ some flushed))
on_tick-on_flush config s ino flushed now v e =
    let v' = on_flush-IsSound ino flushed s v in
    let t = on_flush ino flushed s in
    let at : Map.get ino t.pending ≡ some flushed = on_flush-pending ino flushed s e in
    let idle : Map.get ino t.in_flight ≡ none = on_flush-in_flight ino flushed s ∙ e in
    (
      on_tick-in_flight config now ino t v'.unique_pending ∙ rw (at, idle) (or_false _),
      elim (Bool-cases (leb config.debounce_ms (now - flushed))) [
        | inl due ↦ inl due
        | inr early ↦
            inr (on_tick_keeps_pending config now ino t flushed v'.unique_pending at early)
      ],
    )
