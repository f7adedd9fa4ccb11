-- ===== src/Sync/Retry.antt =====
-- crates/carminedesktop-vfs/src/sync_processor.rs: the retry counter and the backoff.
use carmine_desktop.Common.{
  ℕ, zero, suc, ◌+◌, ◌*◌, ◌^◌, ◌<◌, min, ◌≡◌, refl, false, Option, none, some, List, [], ◌∷◌, arith,
  nat_eq, ◌∙◌, ap, inl, inr, length, Option-cases, if◌then◌else◌, ltb,
}
use carmine_desktop.Common.Map
use carmine_desktop.Common.Map.{get-insert, get-remove}
use carmine_desktop.Sync.{
  Processor, FailedEntry, UploadResult, backoff_duration, max_retries, note_failure, handle_result,
}

-- The delay lies between 2 and 30 seconds, and doubles until it reaches 30, for every counter that
-- the processor can hold.
backoff_table : (n : ℕ) → n < 10 → backoff_duration n ≡ min (2 ^ n) 30
unfolding backoff_duration
backoff_table zero h = refl
backoff_table (suc zero) h = refl
backoff_table (suc (suc zero)) h = refl
backoff_table (suc (suc (suc zero))) h = refl
backoff_table (suc (suc (suc (suc zero)))) h = refl
backoff_table (suc (suc (suc (suc (suc zero))))) h = refl
backoff_table (suc (suc (suc (suc (suc (suc zero)))))) h = refl
backoff_table (suc (suc (suc (suc (suc (suc (suc zero))))))) h = refl
backoff_table (suc (suc (suc (suc (suc (suc (suc (suc zero)))))))) h = refl
backoff_table (suc (suc (suc (suc (suc (suc (suc (suc (suc zero))))))))) h = refl
backoff_table (suc (suc (suc (suc (suc (suc (suc (suc (suc (suc n)))))))))) h = absurd (omega arith)

abbrev failure : ℕ → UploadResult
failure ino = record { ino = ino; success = false }

-- `n` failures of one upload in a row, at the given times, the newest first.
pub fail_times : ℕ → List ℕ → Processor → Processor
fail_times ino [] s = s
fail_times ino (now ∷ times) s = handle_result (failure ino) now (fail_times ino times s)

-- What is left of them: a counter below the limit with its next date, or nothing.
pub expected : ℕ → ℕ → Option FailedEntry
expected zero now = none
expected (suc n) now =
    if ltb (suc n) max_retries
    then some (record { retry_count = suc n; next_retry = now + 1000 * min (2 ^ suc n) 30 })
    else none

-- The counter before a failure, 0 where there is no entry.
abbrev counter : Option FailedEntry → ℕ
counter none = 0
counter (some e) = e.retry_count

note_failure-expected :
    (ino now : ℕ) (entry : FailedEntry) (failed : Map.Map ℕ FailedEntry)
    → entry.retry_count < max_retries
    → Map.get ino (note_failure now ino entry failed) ≡ expected (suc entry.retry_count) now
unfolding note_failure expected
note_failure-expected ino now entry failed h =
    let e : entry.retry_count + 1 ≡ suc entry.retry_count = omega arith in
    let delay : ℕ = backoff_duration (suc entry.retry_count) in
    rw (e, note_failure)
      (ground (
        arith,
        Map.get-remove_self ino failed,
        backoff_table (suc entry.retry_count),
        Map.get-insert_self ino
            (record { retry_count = suc entry.retry_count; next_retry = now + 1000 * delay })
            failed,
      ))

failed-failure :
    (ino now : ℕ) (s : Processor)
    → counter (Map.get ino s.failed) < max_retries
    → Map.get ino (handle_result (failure ino) now s).failed
      ≡ expected (suc (counter (Map.get ino s.failed))) now
unfolding handle_result
failed-failure ino now s h = elim (Option-cases (Map.get ino s.failed)) [
  | inl e ↦
      rw (e, handle_result)
        (note_failure-expected ino now (record { retry_count = 0; next_retry = now }) s.failed
          (omega arith))
  | inr (d, e) ↦ rw (e, handle_result) (note_failure-expected ino now d s.failed (rw e at h))
]

counter-expected : (n now : ℕ) → n < max_retries → counter (expected n now) ≡ n
unfolding expected
counter-expected zero now h = refl
counter-expected (suc n) now h = ground arith

-- An upload that was not failing and now fails again and again: after 1 to 9 failures its counter
-- is their number and its next retry comes 2, 4, 8, 16 and then 30 seconds after the last one;
-- after the tenth it is given up, with no entry left.
pub failed-fail_times :
    (ino now : ℕ) (times : List ℕ) (s : Processor)
    → Map.get ino s.failed ≡ none
    → length times < max_retries
    → Map.get ino (fail_times ino (now ∷ times) s).failed ≡ expected (suc (length times)) now
unfolding fail_times
failed-fail_times ino now [] s e h = failed-failure ino now s (rw e (omega arith)) ∙ rw e
failed-fail_times ino now (t ∷ times) s e h =
    let ih = failed-fail_times ino t times s e (omega arith) in
    let c : counter (Map.get ino (fail_times ino (t ∷ times) s).failed) ≡ suc (length times) =
      ap counter ih ∙ counter-expected (suc (length times)) t (omega arith) in
    failed-failure ino now (fail_times ino (t ∷ times) s) (omega (arith, c))
    ∙ ap (λ n. expected (suc n) now) c
