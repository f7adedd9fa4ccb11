-- ===== src/Sync/Waiters.antt =====
-- crates/carminedesktop-vfs/src/sync_processor.rs: the waiters of synchronous flushes. How often a
-- waiter was handed in, is held by an upload in flight, and was answered.
use carmine_desktop.Common.{
  ℕ, ◌+◌, ◌≡◌, refl, ap, ◌∙◌, not, ◌&&◌, String, Bool, true, false, Option, none, some, List, [],
  ◌∷◌, ◌++◌, arith, nat_eq, ◌==◌, if◌then◌else◌, Bool-cases, Option-cases, inl, inr, if_lem,
  if_cases, unwrap_or, is_some-false,
}
use carmine_desktop.Common.Map
use carmine_desktop.Common.Map.{Map}
use carmine_desktop.Common.Map.Unique.{IsUnique, insert-IsUnique, remove_absent}
use carmine_desktop.Inode.{InodeTable}
use carmine_desktop.Sync.{
  SyncProcessorConfig, Processor, UploadResult, start, flush, flush_sync, shutdown, answer,
  handle_result, spawn_upload, flush_ready, on_flush, push_waiter, on_flush_sync, on_shutdown,
  enqueue_retries, on_tick, update_metrics, debounced, retryable,
}
use carmine_desktop.Sync.Loop.{
  Event, result, request, closed, tick, Phase, running, draining, exited, step, run, DrainEvent,
  deadline, answer_all, resolve_outstanding, drain, finish, recover_pending, after_loop,
  processor_loop, is_empty,
}
use carmine_desktop.Sync.Runs.{IsIdle, run-IsSound, recover_pending-IsIdle}
use carmine_desktop.Sync.Sound.{
  IsSound, handle_result-IsSound, on_flush-IsSound, on_flush_sync-IsSound, on_tick-IsSound,
}

module _ (w : ℕ) where
  abbrev pub one_if : ℕ → ℕ
  one_if v = if v == w then 1 else 0

  abbrev pub count : List ℕ → ℕ
  count [] = 0
  count (v ∷ waiters) = one_if v + count waiters

  abbrev pub held : Map ℕ (List ℕ) → ℕ
  held [] = 0
  held ((_, waiters) ∷ m) = count waiters + held m

  abbrev pub answered : List (ℕ × Bool) → ℕ
  answered [] = 0
  answered ((v, _) ∷ replies) = one_if v + answered replies

  -- The waiters handed in before the loop is left.
  abbrev pub asked : List Event → ℕ
  asked [] = 0
  asked (request (flush_sync ino done) now ∷ events) = one_if done + asked events
  asked (request shutdown now ∷ events) = 0
  asked (closed ∷ events) = 0
  asked (e ∷ events) = asked events

  abbrev pub known : Processor → ℕ
  known s = held s.in_flight + answered s.replies

  count-append : (xs ys : List ℕ) → count (xs ++ ys) ≡ count xs + count ys
  count-append [] ys = omega arith
  count-append (x ∷ xs) ys = omega (arith, count-append xs ys)

  held-remove :
      (k : ℕ) (m : Map ℕ (List ℕ))
      → IsUnique m
      → held (Map.remove k m) + count (unwrap_or (Map.get k m) []) ≡ held m
  unfolding Map.get Map.remove
  held-remove k [] u = omega arith
  held-remove k ((j, ws) ∷ m) u = elim (Bool-cases (j == k)) [
    | inl same ↦ rw same (ground (arith, remove_absent k m, nat_eq.beq_iff j k, u.0))
    | inr other ↦ rw other (omega (arith, held-remove k m u.1))
  ]

  held-insert :
      (k : ℕ) (ws : List ℕ) (m : Map ℕ (List ℕ))
      → IsUnique m
      → held (Map.insert k ws m) + count (unwrap_or (Map.get k m) []) ≡ held m + count ws
  unfolding Map.insert
  held-insert k ws m u = omega (arith, held-remove k m u)

  answered-answer :
      (ws : List ℕ) (b : Bool) (replies : List (ℕ × Bool))
      → answered (answer ws b replies) ≡ count ws + answered replies
  unfolding answer
  answered-answer [] b replies = omega arith
  answered-answer (v ∷ ws) b replies = omega (arith, answered-answer ws b ((v, b) ∷ replies))

  answered-answer_all :
      (m : Map ℕ (List ℕ)) (replies : List (ℕ × Bool))
      → answered (answer_all m replies) ≡ held m + answered replies
  unfolding answer_all
  answered-answer_all [] replies = omega arith
  answered-answer_all ((_, ws) ∷ m) replies =
      omega
        (arith, answered-answer_all m (answer ws false replies), answered-answer ws false replies)

  -- A result answers exactly the waiters of its upload.
  known-handle_result :
      (r : UploadResult) (now : ℕ) (s : Processor)
      → IsSound s
      → known (handle_result r now s) ≡ known s
  unfolding handle_result
  known-handle_result r now s v = elim (Bool-cases r.success) [
    | inl e ↦
        rw (e, handle_result)
          (omega (
            arith,
            held-remove r.ino s.in_flight v.unique,
            answered-answer (unwrap_or (Map.get r.ino s.in_flight) []) true s.replies,
          ))
    | inr e ↦
        rw (e, handle_result)
          (omega (
            arith,
            held-remove r.ino s.in_flight v.unique,
            answered-answer (unwrap_or (Map.get r.ino s.in_flight) []) false s.replies,
          ))
  ]

  known-spawn_upload :
      (ino : ℕ) (s : Processor)
      → Map.get ino s.in_flight ≡ none
      → known (spawn_upload ino s) ≡ known s
  unfolding spawn_upload Map.insert
  known-spawn_upload ino s e = rw (remove_absent ino s.in_flight e) (omega arith)

  known-flush_ready : (inos : List ℕ) (s : Processor) → known (flush_ready inos s) ≡ known s
  unfolding flush_ready
  known-flush_ready [] s = refl
  known-flush_ready (ino ∷ inos) s =
      known-flush_ready inos _
      ∙ if_cases (λ t. known t ≡ known s) (Map.contains_key ino s.in_flight) (λ _. refl)
          (λ h.
            known-spawn_upload ino (record s { pending = Map.remove ino s.pending })
              (is_some-false _ h))

  known-push_waiter :
      (ino done : ℕ) (s : Processor) (ws : List ℕ)
      → IsUnique s.in_flight
      → Map.get ino s.in_flight ≡ some ws
      → known (push_waiter ino done s) ≡ one_if done + known s
  unfolding push_waiter
  known-push_waiter ino done s ws u e =
      rw (e, push_waiter)
        (omega (
          arith,
          count-append ws (done ∷ []),
          held-insert ino (ws ++ done ∷ []) s.in_flight u,
          ap (λ (o : Option (List ℕ)). count (unwrap_or o [])) e,
        ))

  known-on_flush : (ino now : ℕ) (s : Processor) → known (on_flush ino now s) ≡ known s
  unfolding on_flush
  known-on_flush ino now s = ground arith

  known-on_flush_sync :
      (ino done : ℕ) (s : Processor)
      → IsSound s
      → known (on_flush_sync ino done s) ≡ one_if done + known s
  unfolding on_flush_sync
  known-on_flush_sync ino done s v = elim (Option-cases (Map.get ino s.in_flight)) [
    | inr (ws, e) ↦ rw (e, on_flush_sync) (known-push_waiter ino done s ws v.unique e)
    | inl e ↦
        let s' : Processor = record s { pending = Map.remove ino s.pending } in
        rw (e, on_flush_sync)
          (known-push_waiter ino done (spawn_upload ino s') []
              (unfold spawn_upload in insert-IsUnique ino [] s.in_flight v.unique)
              (unfold spawn_upload in Map.get-insert_self ino [] s.in_flight)
            ∙ ap (λ n. one_if done + n) (known-spawn_upload ino s' e))
  ]

  known-enqueue_retries :
      (config : SyncProcessorConfig) (now : ℕ) (inos : List ℕ) (s : Processor)
      → known (enqueue_retries config now inos s) ≡ known s
  unfolding enqueue_retries
  known-enqueue_retries config now [] s = refl
  known-enqueue_retries config now (ino ∷ inos) s =
      known-enqueue_retries config now inos _
      ∙ if_lem (λ t. known t ≡ known s)
          (not (Map.contains_key ino s.in_flight) && not (Map.contains_key ino s.pending)) refl refl

  known-on_tick :
      (config : SyncProcessorConfig) (now : ℕ) (s : Processor)
      → known (on_tick config now s) ≡ known s
  unfolding on_tick update_metrics
  known-on_tick config now s =
      let flushed = flush_ready (debounced config now s.pending) s in
      known-enqueue_retries config now (retryable now flushed.failed) flushed
      ∙ known-flush_ready (debounced config now s.pending) s

  -- Over a run of the loop, what is held and answered grows by what is handed in.
  pub known-run :
      (config : SyncProcessorConfig) (events : List Event) (s : Processor)
      → IsSound s
      → known (run config events (running, s)).1 ≡ asked events + known s
  unfolding run step on_shutdown
  known-run config [] s v = omega arith
  known-run config (result r now ∷ events) s v = omega (
    arith,
    known-run config events _ (handle_result-IsSound s v r now),
    known-handle_result r now s v,
  )
  known-run config (request (flush ino) now ∷ events) s v =
      omega
        (arith, known-run config events _ (on_flush-IsSound ino now s v), known-on_flush ino now s)
  known-run config (request (flush_sync ino done) now ∷ events) s v = omega (
    arith,
    known-run config events _ (on_flush_sync-IsSound ino done s v),
    known-on_flush_sync ino done s v,
  )
  known-run config (request shutdown now ∷ []) s v =
      omega (arith, known-flush_ready (Map.keys s.pending) s)
  known-run config (request shutdown now ∷ e ∷ events) s v =
      omega (arith, known-flush_ready (Map.keys s.pending) s)
  known-run config (closed ∷ []) s v = omega arith
  known-run config (closed ∷ e ∷ events) s v = omega arith
  known-run config (tick now ∷ events) s v = omega (
    arith,
    known-run config events _ (on_tick-IsSound config now s v),
    known-on_tick config now s,
  )

  known-drain :
      (drains : List DrainEvent) (s : Processor) → IsSound s → known (drain drains s) ≡ known s
  unfolding drain resolve_outstanding
  known-drain [] s v = refl
  known-drain (deadline ∷ drains) s v =
      if_lem (λ t. known t ≡ known s) (is_empty s) refl
        (omega (arith, answered-answer_all s.in_flight s.replies))
  known-drain (result r now ∷ drains) s v =
      if_lem (λ t. known t ≡ known s) (is_empty s) refl
        (known-drain drains _ (handle_result-IsSound s v r now) ∙ known-handle_result r now s v)

  drain-deadline :
      (drains : List DrainEvent) (s : Processor)
      → (drain (drains ++ deadline ∷ []) s).in_flight ≡ []
  unfolding drain resolve_outstanding
  drain-deadline [] s = ground arith
  drain-deadline (deadline ∷ drains) s = ground arith
  drain-deadline (result r now ∷ drains) s =
      if_cases (λ (t : Processor). t.in_flight ≡ []) (is_empty s) (λ h. ground arith)
        (λ _. drain-deadline drains _)

  answered-after_loop :
      (drains : List DrainEvent) (p : Phase × Processor)
      → IsSound p.1
      → p.0 ≡ draining
      → answered (after_loop (drains ++ deadline ∷ []) p).1.replies ≡ known p.1
  unfolding after_loop finish update_metrics
  answered-after_loop drains (running, s) v h = cc
  answered-after_loop drains (exited, s) v h = cc
  answered-after_loop drains (draining, s) v h =
      omega (arith, known-drain (drains ++ deadline ∷ []) s v, ap held (drain-deadline drains s))

  -- If the loop was left by a shutdown request and the shutdown phase goes on to its deadline at
  -- most, a waiter of a synchronous flush is answered exactly as often as it was handed in: no
  -- waiter is lost, and none is answered twice.
  pub answered-processor_loop :
      (config : SyncProcessorConfig) (drive_id : String) (inodes : InodeTable) (now : ℕ)
      (listed : Option (List (String × String))) (events : List Event) (drains : List DrainEvent)
      → (run config events (running, recover_pending drive_id inodes now listed start)).0 ≡ draining
      → answered
          (processor_loop config drive_id inodes now listed events
            (drains ++ deadline ∷ [])).1.replies
        ≡ asked events
  unfolding processor_loop
  answered-processor_loop config drive_id inodes now listed events drains h =
      answered-after_loop drains _ (run-IsSound config events _ idle.0) h
      ∙ known-run config events _ idle.0
      ∙ omega (arith, ap held idle.1, ap answered idle.2)
    where
      idle : IsIdle (recover_pending drive_id inodes now listed start)
      idle = recover_pending-IsIdle drive_id inodes now listed
