-- ===== src/Graph/Retry.antt =====
-- crates/carminedesktop-graph/src/retry.rs: `with_retry`. The answers of the operation, the value of
-- the offline flag and the random numbers are given by the attempt, counted from 0; the delays slept
-- are part of the result.
use carmine_desktop.Common.{
  ℕ, zero, suc, ◌+◌, ◌*◌, ◌/◌, ◌%◌, ◌^◌, ◌≤◌, ◌≡◌, refl, Bool, true, false, not, ◌&&◌, ◌||◌, Option,
  none, some, List, [], ◌∷◌, if◌then◌else◌, nat_beq, leb, length, arith, inl, inr, sym, ◌∙◌, ap,
  ◌⊎◌, if_cases,
}
use carmine_desktop.Item.{Error, network, graph_api, Result, ok, err}

abbrev pub max_retries : ℕ
max_retries = 3

abbrev pub base_delay_ms : ℕ
base_delay_ms = 1000

abbrev pub is_network : Error → Bool
is_network (network s) = true
is_network e = false

abbrev pub is_server_transient : Error → Bool
is_server_transient (graph_api status message) = nat_beq status 429 || leb 500 status
is_server_transient e = false

abbrev pub delay_of : ℕ → ℕ → ℕ
delay_of attempt random =
    let delay = base_delay_ms * 2 ^ attempt in delay + random % (delay / 4 + 1)

abbrev pub add_delay {ℓ} : {A : Type ℓ} → ℕ → Option (A × List ℕ) → Option (A × List ℕ)
add_delay d none = none
add_delay d (some (a, ds)) = some (a, d ∷ ds)

module _ {ℓ} {A : Type ℓ} (offline : ℕ → Bool) (random : ℕ → ℕ) (f : ℕ → Result A) where
  -- `none` when the fuel is used up.
  unfoldable pub retry_loop : ℕ → ℕ → Option (Result A × List ℕ)
  retry_loop zero attempt = none
  retry_loop (suc fuel) attempt =
      let rest = retry_loop fuel (suc attempt) in
      elim (f attempt) [
        | ok val ↦ some (ok val, [])
        | err e ↦
            if not (is_network e || is_server_transient e) || leb max_retries attempt
            then some (err e, [])
            else if is_network e && offline attempt
            then some (err e, [])
            else add_delay (delay_of attempt (random attempt)) rest
      ]

  unfoldable pub with_retry : Option (Result A × List ℕ)
  unfolding retry_loop
  with_retry = retry_loop 4 0

delay_of-bounds :
    (attempt random : ℕ)
    → (base_delay_ms * 2 ^ attempt ≤ delay_of attempt random)
      × (delay_of attempt random ≤ base_delay_ms * 2 ^ attempt + base_delay_ms * 2 ^ attempt / 4)
delay_of-bounds attempt random = (omega arith, omega arith)

pub Result-cases {ℓ} :
    {A : Type ℓ} (r : Result A) → ((x : A) × (r ≡ ok x)) ⊎ ((e : Error) × (r ≡ err e))
Result-cases (ok x) = inl (x, refl)
Result-cases (err e) = inr (e, refl)

module _ {ℓ} {A : Type ℓ} (offline : ℕ → Bool) (random : ℕ → ℕ) (f : ℕ → Result A) where
  -- The answer of an attempt is the last one: a value, an error that is neither of the network nor
  -- transient, any error of the fourth attempt, a network error on a machine known to be offline.
  abbrev pub is_last : ℕ → Result A → Bool
  is_last attempt (ok val) = true
  is_last attempt (err e) =
      (not (is_network e || is_server_transient e) || leb max_retries attempt)
      || is_network e && offline attempt

  -- The attempts that were not the last, with the delays after them: these double, each with at
  -- most a quarter added.
  abbrev pub IsBackoff : ℕ → List ℕ → Type 0
  IsBackoff attempt [] = Unit {0}
  IsBackoff attempt (d ∷ ds) =
      (is_last attempt (f attempt) ≡ false)
      × ((base_delay_ms * 2 ^ attempt ≤ d)
          × ((d ≤ base_delay_ms * 2 ^ attempt + base_delay_ms * 2 ^ attempt / 4)
              × IsBackoff (suc attempt) ds))

  -- The attempts end, at the answer of the last one made.
  abbrev pub IsRetried : ℕ → ℕ → Option (Result A × List ℕ) → Type ℓ
  IsRetried fuel attempt o =
      (out : Result A × List ℕ) × ((o ≡ some out)
        × ((out.0 ≡ f (attempt + length out.1))
            × ((is_last (attempt + length out.1) out.0 ≡ true)
                × ((length out.1 ≤ fuel) × IsBackoff attempt out.1))))

  IsRetried-at_once :
      (fuel attempt : ℕ) (r : Result A)
      → f attempt ≡ r
      → is_last attempt r ≡ true
      → IsRetried fuel attempt (some (r, []))
  IsRetried-at_once fuel attempt r e last =
      let same : attempt + 0 ≡ attempt = omega arith in
      ((r, []), (refl, (sym e ∙ ap f (sym same), (rw same last, (omega arith, tt)))))

  IsRetried-again :
      (fuel attempt : ℕ) (o : Option (Result A × List ℕ))
      → is_last attempt (f attempt) ≡ false
      → IsRetried fuel (suc attempt) o
      → IsRetried (suc fuel) attempt (add_delay (delay_of attempt (random attempt)) o)
  IsRetried-again fuel attempt o goes_on ((r, ds), (e, (same, (last, (short, backoff))))) =
      let (low, high) = delay_of-bounds attempt (random attempt) in
      let next : suc attempt + length ds ≡ attempt + suc (length ds) = omega arith in
      (
        (r, delay_of attempt (random attempt) ∷ ds),
        (
          rw e refl,
          (
            same ∙ ap f next,
            (rw next at last, (omega (arith, short), (goes_on, (low, (high, backoff))))),
          ),
        ),
      )

  retry_loop_lem :
      (fuel attempt : ℕ)
      → attempt + fuel ≡ max_retries
      → IsRetried fuel attempt (retry_loop offline random f (suc fuel) attempt)
  unfolding retry_loop
  retry_loop_lem zero attempt h = elim (Result-cases (f attempt)) [
    | inl (v, e) ↦ rw (e, retry_loop) (IsRetried-at_once 0 attempt (ok v) e refl)
    | inr (x, e) ↦
        let last : leb max_retries attempt ≡ true = ground (arith, h) in
        rw (e, retry_loop, last)
          (if_cases (λ o. IsRetried 0 attempt o)
            (not (is_network x || is_server_transient x) || true)
            (λ _. IsRetried-at_once 0 attempt (err x) e (ground (arith, last)))
            (λ n. absurd (ground (arith, n))))
  ]
  retry_loop_lem (suc fuel) attempt h =
      let rest = retry_loop_lem fuel (suc attempt) (omega (arith, h)) in
      elim (Result-cases (f attempt)) [
        | inl (v, e) ↦ rw (e, retry_loop) (IsRetried-at_once (suc fuel) attempt (ok v) e refl)
        | inr (x, e) ↦
            rw (e, retry_loop)
              (if_cases (λ o. IsRetried (suc fuel) attempt o)
                (not (is_network x || is_server_transient x) || leb max_retries attempt)
                (λ final. IsRetried-at_once (suc fuel) attempt (err x) e (ground (arith, final)))
                (λ more.
                  if_cases (λ o. IsRetried (suc fuel) attempt o) (is_network x && offline attempt)
                    (λ off.
                      IsRetried-at_once (suc fuel) attempt (err x) e (ground (arith, more, off)))
                    (λ on. IsRetried-again fuel attempt _ (rw e (ground (arith, more, on))) rest)))
      ]

  -- The attempts end by themselves, after at most three delays that double from a second on with
  -- at most a quarter added. The result is the answer of the last attempt made, which is the first
  -- that is a value, an error not to be retried, a network error on a machine known to be offline,
  -- or any answer of the fourth attempt.
  pub with_retry-IsRetried : IsRetried max_retries 0 (with_retry offline random f)
  unfolding with_retry
  with_retry-IsRetried = retry_loop_lem max_retries 0 refl
