-- ===== src/Server/Retry.antt =====
-- `retry_delay` and `failure_name` of crates/server/src/memory_extraction_coordinator.rs, with the
-- attempts that `retry_memory_job` of crates/storage counts.
use supermemory_rs.Prelude.{ℕ, ◌^◌, min, Text, codes, Option, none, some, leb, if◌then◌else◌}

pub data ExtractionFailure : Type 0 where
  rate_limited transport invalid_output authentication configuration provider : ExtractionFailure

-- In seconds; `1_u64 << attempt.clamp(0, 6)`.
unfoldable pub backoff : ℕ → Option ℕ
backoff attempt = some (2 ^ min attempt 6)

unfoldable pub retry_delay : ExtractionFailure → ℕ → Option ℕ
unfolding backoff
retry_delay authentication attempt = none
retry_delay configuration attempt = none
retry_delay invalid_output attempt = if leb 2 attempt then none else some 1
retry_delay rate_limited attempt = backoff attempt
retry_delay transport attempt = backoff attempt
retry_delay provider attempt = backoff attempt

unfoldable pub failure_name : ExtractionFailure → Text
failure_name rate_limited = codes "rate_limited"
failure_name transport = codes "transport"
failure_name invalid_output = codes "invalid_output"
failure_name authentication = codes "authentication"
failure_name configuration = codes "configuration"
failure_name provider = codes "provider"

-- The attempt from which on a failure of the kind ends the job.
abbrev pub last_attempt : ExtractionFailure → ℕ
last_attempt authentication = 0
last_attempt configuration = 0
last_attempt invalid_output = 2
last_attempt rate_limited = 4
last_attempt transport = 4
last_attempt provider = 4
