-- ===== src/Gate/Laws.antt =====
-- The concurrency gate of src/handler.rs under any interleaving of requests.
use rustblocker.Base.{
  ℕ, zero, suc, ◌+◌, ◌≤◌, ◌<◌, ◌≡◌, refl, sym, ap, ◌↔◌, ◌∙◌, Bool, true, false, arith, max,
}
use rustblocker.Gate.{
  DnsConcurrency, new_concurrency, in_flight, try_acquire, record_reject, release,
}

-- What happens at the gate, with the number of requests that run: a request arrives and gets a
-- permit, arrives and is rejected, or ends and drops its permit.
pub data GateStep : DnsConcurrency × ℕ → DnsConcurrency × ℕ → Type 0 where
  admits :
      (c : DnsConcurrency) (running : ℕ)
      → (try_acquire c).1 ≡ true
      → GateStep (c, running) ((try_acquire c).0, suc running)
  rejects :
      (c : DnsConcurrency) (running : ℕ)
      → (try_acquire c).1 ≡ false
      → GateStep (c, running) (record_reject (try_acquire c).0, running)
  ends : (c : DnsConcurrency) (running : ℕ) → GateStep (c, suc running) (release c, running)

pub data GateRun : DnsConcurrency × ℕ → DnsConcurrency × ℕ → Type 0 where
  still : (s : DnsConcurrency × ℕ) → GateRun s s
  more : (s t u : DnsConcurrency × ℕ) → GateRun s t → GateStep t u → GateRun s u

-- Each running request holds one permit.
pub record IsCounted (limit : ℕ) (s : DnsConcurrency × ℕ) : Type 0 where
  pub limit_kept : s.0.max_in_flight ≡ limit
  pub all_permits : s.0.permits + s.1 ≡ limit

-- What a try does: with a free permit it takes one, and without one it changes nothing.
abbrev pub IsTry : DnsConcurrency → DnsConcurrency × Bool → Type 0
IsTry c (d, true) =
    (suc d.permits ≡ c.permits) × (d.max_in_flight ≡ c.max_in_flight) × (d.rejected ≡ c.rejected)
IsTry c (d, false) = (c.permits ≡ 0) × (d ≡ c)

pub try_acquire-IsTry : (c : DnsConcurrency) → IsTry c (try_acquire c)
unfolding try_acquire
try_acquire-IsTry c = by_permits c.permits refl
  where
    by_permits :
        (n : ℕ)
        → c.permits ≡ n
        → IsTry c (elim n [ zero ↦ (c, false) | suc left ↦ (record c { permits = left }, true) ])
    by_permits zero e = (e, refl)
    by_permits (suc left) e = (sym e, refl, refl)

step-IsCounted :
    (limit : ℕ) (s t : DnsConcurrency × ℕ) → IsCounted limit s → GateStep s t → IsCounted limit t
unfolding record_reject release
step-IsCounted limit s t k (admits c running e) = admitted (try_acquire c) e (try_acquire-IsTry c)
  where
    admitted :
        (r : DnsConcurrency × Bool) → r.1 ≡ true → IsTry c r → IsCounted limit (r.0, suc running)
    admitted (d, true) e p = record {
      limit_kept = p.1 ∙ k.limit_kept;
      all_permits = omega (arith, p.0, k.all_permits);
    }
    admitted (d, false) e p = cc
step-IsCounted limit s t k (rejects c running e) =
    rejected_one (try_acquire c) e (try_acquire-IsTry c)
  where
    rejected_one :
        (r : DnsConcurrency × Bool)
        → r.1 ≡ false
        → IsTry c r
        → IsCounted limit (record_reject r.0, running)
    rejected_one (d, true) e p = cc
    rejected_one (d, false) e p = record {
      limit_kept = ap (λ c'. c'.max_in_flight) p.1 ∙ k.limit_kept;
      all_permits = ap (λ c'. c'.permits + running) p.1 ∙ k.all_permits;
    }
step-IsCounted limit s t k (ends c running) = record {
  limit_kept = k.limit_kept;
  all_permits = omega (arith, k.all_permits);
}

run-IsCounted :
    (limit : ℕ) (s t : DnsConcurrency × ℕ) → IsCounted limit s → GateRun s t → IsCounted limit t
run-IsCounted limit s t k (still s') = k
run-IsCounted limit s t k (more s' u t' run step) =
    step-IsCounted limit u t (run-IsCounted limit s u k run) step

-- Whatever requests come and go, the permits and the running requests add up to the limit of the new
-- gate, so that `in_flight` is the number of requests that run, at most the limit; and a request that
-- comes is admitted exactly when fewer than that run.
pub new_concurrency-IsCounted :
    (max_in_flight : ℕ) (c : DnsConcurrency) (running : ℕ)
    → GateRun (new_concurrency max_in_flight, 0) (c, running)
    → (in_flight c ≡ running)
      × (running ≤ max max_in_flight 1)
      × (((try_acquire c).1 ≡ true) ↔ (running < max max_in_flight 1))
unfolding new_concurrency in_flight
new_concurrency-IsCounted max_in_flight c running run =
    let k =
      run-IsCounted (max max_in_flight 1) (new_concurrency max_in_flight, 0) (c, running)
        (record { limit_kept = refl; all_permits = omega arith }) run in
    (
      omega (arith, k.limit_kept, k.all_permits),
      omega (arith, k.all_permits),
      room (try_acquire c) (try_acquire-IsTry c) k.all_permits,
    )
  where
    room :
        (r : DnsConcurrency × Bool)
        → IsTry c r
        → c.permits + running ≡ max max_in_flight 1
        → (r.1 ≡ true) ↔ (running < max max_in_flight 1)
    room (d, true) p k = (λ e. omega (arith, p.0, k), λ l. refl)
    room (d, false) p k = (λ e. cc, λ l. absurd (omega (arith, p.0, k, l)))
