-- ===== src/Tests/Graph.antt =====
-- The retries and the chunked upload at concrete inputs.
use carmine_desktop.Common.{ℕ, zero, suc, ◌≡◌, refl, false, Bool, none, some, List, [], ◌∷◌, nat_eq}
use carmine_desktop.Graph.Chunks.{Put, upload_large, upload_large-IsSent, IsSent}
use carmine_desktop.Graph.Retry.{with_retry, with_retry-IsRetried, IsRetried, max_retries}
use carmine_desktop.Item.{network, Result, ok, err, DriveItem}
use carmine_desktop.Tests.{file_item}

-- Two attempts find no network, the third succeeds.
abbrev flaky : ℕ → Result ℕ
flaky zero = err (network "down")
flaky (suc zero) = err (network "down")
flaky (suc (suc n)) = ok 42

abbrev online : ℕ → Bool
online attempt = false

abbrev no_jitter : ℕ → ℕ
no_jitter attempt = 0

test_with_retry : with_retry online no_jitter flaky ≡ some (ok 42, 1000 ∷ 2000 ∷ [])
unfolding with_retry
test_with_retry = refl

with_retry-IsRetried_example :
    IsRetried online no_jitter flaky max_retries 0 (with_retry online no_jitter flaky)
with_retry-IsRetried_example = with_retry-IsRetried online no_jitter flaky

abbrev accept_all : List Put → Put → Result ℕ
accept_all puts put = ok 201

abbrev parse_item : ℕ → Result DriveItem
parse_item status = ok (file_item "01A" none)

upload_large-IsSent_example :
    IsSent accept_all parse_item
      (1 ∷ 2 ∷ [])
      (upload_large accept_all parse_item (1 ∷ 2 ∷ []) (ok "url"))
upload_large-IsSent_example = upload_large-IsSent accept_all parse_item (1 ∷ 2 ∷ []) (ok "url")
