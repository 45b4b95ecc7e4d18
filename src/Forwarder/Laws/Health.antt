-- ===== src/Forwarder/Laws/Health.antt =====
-- Bounds on the health of an upstream (src/forwarder.rs `UpstreamHealth`).
use rustblocker.Base.{
  ◌-◌, max, min, refl, ap, ◌∙◌, length, ◌==◌, Bool-cases, inl, inr, ℕ, ◌+◌, ◌*◌, ◌≤◌, ◌<◌, ◌≡◌,
  arith, u64_max, List, [], ◌∷◌, All, zero, suc,
}
use rustblocker.Forwarder.Health.{
  UpstreamHealth, rank_score, health_success, health_hedged_miss, health_failure,
}
use rustblocker.Forwarder.{
  Forwarder, update_at, record_success, record_failure, record_hedged_misses, miss_each,
}

-- The score is a word and the failures are at most 16.
pub record IsHealthy (h : UpstreamHealth) : Type 0 where
  pub score_word : h.latency_score_us ≤ u64_max
  pub few_failures : h.failures ≤ 16

pub health_success-IsHealthy :
    (latency_us : ℕ) (h : UpstreamHealth) → IsHealthy h → IsHealthy (health_success latency_us h)
unfolding health_success
health_success-IsHealthy latency_us h v = ground arith

pub health_hedged_miss-IsHealthy :
    (elapsed_us : ℕ) (h : UpstreamHealth)
    → elapsed_us ≤ u64_max
    → IsHealthy h
    → IsHealthy (health_hedged_miss elapsed_us h)
unfolding health_hedged_miss
health_hedged_miss-IsHealthy elapsed_us h e v = ground arith

pub health_failure-IsHealthy : (h : UpstreamHealth) → IsHealthy h → IsHealthy (health_failure h)
unfolding health_failure
health_failure-IsHealthy h v = ground arith

-- A rank score never saturates while the score stays 16 penalties below the top of the word.
pub rank_score_exact :
    (h : UpstreamHealth)
    → IsHealthy h
    → h.latency_score_us + 8_000_000 ≤ u64_max
    → rank_score h ≡ h.latency_score_us + h.failures * 500_000
unfolding rank_score
rank_score_exact h v r = omega (arith, v.few_failures)

-- While the score is far from the top of the word, a failure below the sixteenth costs the upstream
-- one penalty in the ranking.
pub health_failure-rank_score :
    (h : UpstreamHealth)
    → h.failures < 16
    → h.latency_score_us + 8_000_000 ≤ u64_max
    → rank_score (health_failure h) ≡ rank_score h + 500_000
unfolding rank_score health_failure
health_failure-rank_score h few r = omega arith

-- A success takes one failure back, and moves the score between the old score and the measured
-- latency, at least to 1, if seven times the score and the latency fit in a word together.
pub health_success_between :
    (latency_us : ℕ) (h : UpstreamHealth)
    → h.latency_score_us * 7 + latency_us ≤ u64_max
    → ((health_success latency_us h).latency_score_us ≤ max (max h.latency_score_us latency_us) 1)
      × (min h.latency_score_us latency_us ≤ (health_success latency_us h).latency_score_us)
      × ((health_success latency_us h).failures ≡ h.failures - 1)
unfolding health_success
health_success_between latency_us h r = (omega arith, omega arith, ground arith)

-- All records of a forwarder.
update_at-All :
    (P : UpstreamHealth → Type 0) (change : UpstreamHealth → UpstreamHealth)
    → ((h : UpstreamHealth) → P h → P (change h))
    → (hs : List UpstreamHealth) (idx : ℕ) → All P hs
    → All P (update_at change hs idx)
unfolding update_at
update_at-All P change keep [] idx k = tt
update_at-All P change keep (h ∷ hs) zero (p, k) = (keep h p, k)
update_at-All P change keep (h ∷ hs) (suc idx) (p, k) = (p, update_at-All P change keep hs idx k)

length-update_at :
    (change : UpstreamHealth → UpstreamHealth) (hs : List UpstreamHealth) (idx : ℕ)
    → length (update_at change hs idx) ≡ length hs
unfolding update_at
length-update_at change [] idx = refl
length-update_at change (h ∷ hs) zero = refl
length-update_at change (h ∷ hs) (suc idx) = ap suc (length-update_at change hs idx)

miss_each-All :
    (launched : List ℕ) (winner elapsed_us : ℕ) (hs : List UpstreamHealth)
    → elapsed_us ≤ u64_max
    → All IsHealthy hs
    → All IsHealthy (miss_each launched winner elapsed_us hs)
      × (length (miss_each launched winner elapsed_us hs) ≡ length hs)
unfolding miss_each
miss_each-All [] winner elapsed_us hs e k = (k, refl)
miss_each-All (idx ∷ launched) winner elapsed_us hs e k = elim (Bool-cases (idx == winner)) [
  | inl won ↦ rw won (miss_each-All launched winner elapsed_us hs e k)
  | inr lost ↦
      let ih =
        miss_each-All launched winner elapsed_us (update_at (health_hedged_miss elapsed_us) hs idx)
          e
          (update_at-All IsHealthy (health_hedged_miss elapsed_us)
            (λ h v. health_hedged_miss-IsHealthy elapsed_us h e v) hs idx k) in
      rw lost (ih.0, ih.1 ∙ length-update_at (health_hedged_miss elapsed_us) hs idx)
]

-- The forwarder has a healthy record and an address for each client.
pub record IsSound (f : Forwarder) : Type 0 where
  pub healthy : All IsHealthy f.health
  pub one_each : length f.health ≡ length f.clients
  pub addressed : length f.addresses ≡ length f.clients

pub record_success-IsSound :
    (f : Forwarder) (idx latency_us : ℕ) → IsSound f → IsSound (record_success f idx latency_us)
unfolding record_success
record_success-IsSound f idx latency_us v = record {
  healthy =
      update_at-All IsHealthy (health_success latency_us)
        (λ h k. health_success-IsHealthy latency_us h k) f.health idx v.healthy;
  one_each = length-update_at (health_success latency_us) f.health idx ∙ v.one_each;
  addressed = v.addressed;
}

pub record_failure-IsSound : (f : Forwarder) (idx : ℕ) → IsSound f → IsSound (record_failure f idx)
unfolding record_failure
record_failure-IsSound f idx v = record {
  healthy =
      update_at-All IsHealthy health_failure (λ h k. health_failure-IsHealthy h k) f.health idx
        v.healthy;
  one_each = length-update_at health_failure f.health idx ∙ v.one_each;
  addressed = v.addressed;
}

pub record_hedged_misses-IsSound :
    (f : Forwarder) (launched : List ℕ) (winner elapsed_us : ℕ)
    → elapsed_us ≤ u64_max
    → IsSound f
    → IsSound (record_hedged_misses f launched winner elapsed_us)
unfolding record_hedged_misses
record_hedged_misses-IsSound f launched winner elapsed_us e v = record {
  healthy = (miss_each-All launched winner elapsed_us f.health e v.healthy).0;
  one_each = (miss_each-All launched winner elapsed_us f.health e v.healthy).1 ∙ v.one_each;
  addressed = v.addressed;
}
