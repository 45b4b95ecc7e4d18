-- ===== src/Forwarder/Health.antt =====
-- `UpstreamHealth` of src/forwarder.rs: the score by which upstreams are ranked. Its two atomics are
-- a record; each update is taken as one step.
use rustblocker.Base.{ℕ, ◌-◌, ◌/◌, ltb, if◌then◌else◌, min, max, u64_add, u64_mul}

abbrev pub default_latency_score_us : ℕ
default_latency_score_us = 50_000

abbrev pub failure_penalty_us : ℕ
failure_penalty_us = 500_000

pub record UpstreamHealth : Type 0 where
  pub latency_score_us : ℕ
  pub failures : ℕ

abbrev pub new_health : UpstreamHealth
new_health = record { latency_score_us = default_latency_score_us; failures = 0 }

unfoldable pub rank_score : UpstreamHealth → ℕ
rank_score h = u64_add h.latency_score_us (u64_mul h.failures failure_penalty_us)

unfoldable pub health_success : ℕ → UpstreamHealth → UpstreamHealth
health_success latency_us h =
    let updated = max (u64_add (u64_mul h.latency_score_us 7) latency_us / 8) 1 in
    record h {
      latency_score_us = updated;
      failures = if ltb 0 h.failures then h.failures - 1 else h.failures;
    }

unfoldable pub health_hedged_miss : ℕ → UpstreamHealth → UpstreamHealth
health_hedged_miss elapsed_us h =
    if ltb h.latency_score_us elapsed_us then record h { latency_score_us = elapsed_us } else h

unfoldable pub health_failure : UpstreamHealth → UpstreamHealth
health_failure h = record h { failures = min (u64_add h.failures 1) 16 }
