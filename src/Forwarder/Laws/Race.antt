-- ===== src/Forwarder/Laws/Race.antt =====
-- The adaptive race of src/forwarder.rs (`resolve_adaptive`): which upstreams it starts, and when.
use rustblocker.Base.{
  ℕ, ◌≤◌, ◌<◌, ◌≡◌, refl, ◌∙◌, true, not, Option, none, some, List, [], ◌∷◌, ◌++◌, arith, is_empty,
  length, length-append, any, any-append, retain, length-retain-le, All, All-append, All-mono,
  All-retain, ◌==◌, if◌then◌else◌, Bool-cases, inl, inr,
}
use mathlib.Core.List.{append_assoc}
use rustblocker.Message.{Dns, Request}
use rustblocker.Forwarder.Labels.{NetError}
use rustblocker.Forwarder.{Forwarder, record_failure}
use rustblocker.Forwarder.Resolve.{
  Event, answered, failed, hedge_elapsed, deadline, Env, Outcome, Race, Step, running, done,
  launch_next, may_launch, is_flying, loop_head, adaptive_step,
}

-- Upstreams are launched in rank order, each at most once; no more than the limit are in flight; and
-- what is in flight was launched.
pub record IsRace (order : List ℕ) (limit : ℕ) (r : Race) : Type 0 where
  pub in_order : r.launched ++ r.waiting ≡ order
  pub bounded : length r.in_flight ≤ limit
  pub started : All (λ i. any (λ j. j == i) r.launched ≡ true) r.in_flight

length_of_empty : (xs : List ℕ) → is_empty xs ≡ true → length xs ≡ 0
length_of_empty [] h = refl
length_of_empty (x ∷ xs) h = cc

module _ (order : List ℕ) (limit : ℕ) where
  launch-IsRace :
      (flying waiting launched : List ℕ) (err : Option NetError)
      → (let r : Race = record {
        in_flight = flying;
        waiting = waiting;
        launched = launched;
        last_err = err;
      } in
          length flying < limit → IsRace order limit r → IsRace order limit (launch_next r))
  unfolding launch_next
  launch-IsRace flying [] launched err room k = k
  launch-IsRace flying (idx ∷ rest) launched err room k = record {
    in_order = append_assoc launched (idx ∷ []) rest ∙ k.in_order;
    bounded = omega (arith, length-append flying (idx ∷ []));
    started =
        All-append (λ i. any (λ j. j == i) (launched ++ idx ∷ []) ≡ true) flying (idx ∷ [])
          (All-mono (λ i. any (λ j. j == i) launched ≡ true)
            (λ i. any (λ j. j == i) (launched ++ idx ∷ []) ≡ true) more flying k.started)
          (rw (any-append (λ j. j == idx) launched (idx ∷ [])) (ground arith), tt);
  }
    where
      more :
          (i : ℕ)
          → any (λ j. j == i) launched ≡ true
          → any (λ j. j == i) (launched ++ idx ∷ []) ≡ true
      more i h = rw (any-append (λ j. j == i) launched (idx ∷ []), h)

  pub launch_next-IsRace :
      (r : Race)
      → length r.in_flight < limit
      → IsRace order limit r
      → IsRace order limit (launch_next r)
  launch_next-IsRace r room k = launch-IsRace r.in_flight r.waiting r.launched r.last_err room k

  may_launch-IsRace :
      (r : Race)
      → IsRace order limit r
      → IsRace order limit (if may_launch limit r then launch_next r else r)
  unfolding may_launch
  may_launch-IsRace r k = elim (Bool-cases (may_launch limit r)) [
    | inl now ↦ rw now (launch_next-IsRace r (ground arith) k)
    | inr not_now ↦ rw not_now k
  ]

  land-IsRace :
      (idx : ℕ) (err : Option NetError) (r : Race)
      → IsRace order limit r
      → IsRace order limit (record {
        in_flight = retain (λ j. not (j == idx)) r.in_flight;
        waiting = r.waiting;
        launched = r.launched;
        last_err = err;
      })
  land-IsRace idx err r k = record {
    in_order = k.in_order;
    bounded = omega (arith, k.bounded, length-retain-le (λ j. not (j == idx)) r.in_flight);
    started =
        All-retain (λ i. any (λ j. j == i) r.launched ≡ true) (λ j. not (j == idx)) r.in_flight
          k.started;
  }

-- What holds of a step's result: of the state if it runs on, of the outcome if it is done.
abbrev pub StepOk :
    {dns : Dns} {S : Type 0}
    → (Forwarder → S → Type 0)
    → (Forwarder → Outcome dns → Type 0)
    → Step dns S
    → Type 0
StepOk P Q (running f s) = P f s
StepOk P Q (done f o) = Q f o

module _ (dns : Dns) (request : Request dns) (env : Env) (order : List ℕ) (limit : ℕ) where
  loop_head-IsRace :
      (f : Forwarder) (r : Race)
      → 0 < limit
      → IsRace order limit r
      → StepOk (λ g s. IsRace order limit s) (λ g o. Unit) (loop_head dns request env f r)
  unfolding loop_head
  loop_head-IsRace f r some_limit k = elim (Bool-cases (is_empty r.in_flight)) [
    | inl none_left ↦ elim (Bool-cases (is_empty r.waiting)) [
      | inl no_more ↦ rw (none_left, no_more) tt
      | inr more ↦
          rw (none_left, more)
            (launch_next-IsRace order limit r (omega (arith, length_of_empty r.in_flight none_left))
              k)
    ]
    | inr flying ↦ rw flying k
  ]

  -- Every event keeps the race in rank order and within its limit.
  pub adaptive_step-IsRace :
      (f : Forwarder) (r : Race) (event : Event dns)
      → 0 < limit
      → IsRace order limit r
      → StepOk
          (λ g s. IsRace order limit s)
          (λ g o. Unit)
          (adaptive_step dns request env limit f r event)
  unfolding adaptive_step
  adaptive_step-IsRace f r (answered idx response latency_us) l k =
      elim (Bool-cases (is_flying idx r)) [ inl flying ↦ rw flying tt | inr other ↦ rw other k ]
  adaptive_step-IsRace f r (failed idx error) l k = elim (Bool-cases (is_flying idx r)) [
    | inl flying ↦ rw flying (
        loop_head-IsRace (record_failure f idx) _ l
          (may_launch-IsRace order limit _ (land-IsRace order limit idx (some error) r k)))
    | inr other ↦ rw other k
  ]
  adaptive_step-IsRace f r hedge_elapsed l k = may_launch-IsRace order limit r k
  adaptive_step-IsRace f r deadline l k = tt

  -- The state of a race after some events.
  pub advance : Step dns Race → List (Event dns) → Step dns Race
  advance (done f o) events = done f o
  advance (running f r) [] = running f r
  advance (running f r) (event ∷ events) =
      advance (adaptive_step dns request env limit f r event) events

  advance-IsRace :
      (st : Step dns Race) (events : List (Event dns))
      → 0 < limit
      → StepOk (λ g s. IsRace order limit s) (λ g o. Unit {0}) st
      → StepOk (λ g s. IsRace order limit s) (λ g o. Unit {0}) (advance st events)
  unfolding advance
  advance-IsRace (done f o) events l k = k
  advance-IsRace (running f r) [] l k = k
  advance-IsRace (running f r) (event ∷ events) l k =
      advance-IsRace (adaptive_step dns request env limit f r event) events l
        (adaptive_step-IsRace f r event l k)

  abbrev pub first_launch : Race
  first_launch =
      launch_next (record { in_flight = []; waiting = order; launched = []; last_err = none })

  -- From the first launch on, after any events, a race that still runs has launched a front part of
  -- the rank order, holds the rest back, and has at most `limit` lookups in flight, all of them
  -- launched.
  pub first_launch-IsRace :
      (f : Forwarder) (events : List (Event dns))
      → 0 < limit
      → StepOk
          (λ g s. IsRace order limit s)
          (λ g o. Unit {0})
          (advance (running f first_launch) events)
  first_launch-IsRace f events l = advance-IsRace (running f first_launch) events l (
      launch_next-IsRace order limit
        (record { in_flight = []; waiting = order; launched = []; last_err = none }) l
        (record { in_order = refl; bounded = omega arith; started = tt }))
