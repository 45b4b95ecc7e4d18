-- ===== src/Forwarder/Laws/Outcome.antt =====
-- What a call of `resolve` (src/forwarder.rs) ends with: the reply, and the health that it leaves.
use rustblocker.Base.{
  ℕ, ◌≤◌, ◌≡◌, refl, subst, Bool, true, false, Option, none, some, List, [], ◌∷◌, Bytes, codes, All,
  is_empty, length, ◌==◌, if◌then◌else◌, u64_max, Bool-cases, inl, inr,
}
use mathlib.Core.Option.{some-injective}
use rustblocker.Message.{Dns, Query, Message, Request, downstream_message}
use rustblocker.Forwarder.Labels.{NetError, ForwardStrategy, adaptive, parallel}
use rustblocker.Forwarder.{
  Forwarder, UpstreamClient, adaptive_order, range_from, record_success, record_failure,
}
use rustblocker.Forwarder.Resolve.{
  Event, answered, failed, hedge_elapsed, deadline, Reply, relayed, servfail, ResolveResult, Env,
  Outcome, Race, Step, running, done, is_flying, land, reply, send_upstream_response, send_servfail,
  send_upstream_failure, send_attempt_error, first_event, resolve_one, parallel_failed,
  parallel_step, loop_head, adaptive_step, drive, resolve_parallel, resolve_adaptive, resolve,
}
use rustblocker.Forwarder.Laws.Health.{
  IsSound, record_success-IsSound, record_failure-IsSound, record_hedged_misses-IsSound,
}
use rustblocker.Forwarder.Laws.Race.{StepOk}

module _ (dns : Dns) (request : Request dns) (env : Env) (P : Message dns → Type 0) where
  -- Latencies are words, and `P` holds of every message that an upstream sends.
  abbrev pub IsEvent : Event dns → Type 0
  IsEvent (answered idx response latency_us) = (latency_us ≤ u64_max) × P response
  IsEvent (failed idx error) = Unit
  IsEvent hedge_elapsed = Unit
  IsEvent deadline = Unit

  -- A reply is SERVFAIL, or the message of an upstream made ready for the client.
  abbrev pub IsReply : Reply dns → Type 0
  IsReply servfail = Unit
  IsReply (relayed m) =
      (response : Message dns) × P response
      × (m ≡ downstream_message dns response request.metadata.id request.edns)

  abbrev pub IsOutcome : Outcome dns → Type 0
  IsOutcome none = Unit
  IsOutcome (some r) = IsReply r.info

  abbrev pub IsEnd : Forwarder → Outcome dns → Type 0
  IsEnd f o = IsSound f × IsOutcome o

  reply-IsOutcome : (r : ResolveResult dns) → IsReply r.info → IsOutcome (reply dns request env r)
  unfolding reply
  reply-IsOutcome r k = elim (Bool-cases env.delivers) [
    | inl sent ↦ rw sent k
    | inr lost ↦ rw lost tt
  ]

  response-IsOutcome :
      (f : Forwarder) (idx : ℕ) (response : Message dns) (latency_us : ℕ)
      → P response
      → IsOutcome (send_upstream_response dns request env f idx response latency_us)
  unfolding send_upstream_response
  response-IsOutcome f idx response latency_us p = reply-IsOutcome _ (response, p, refl)

  servfail-IsOutcome : (label : Bytes) → IsOutcome (send_servfail dns request env label)
  unfolding send_servfail
  servfail-IsOutcome label = reply-IsOutcome _ tt

  attempt-IsOutcome : (err : Option NetError) → IsOutcome (send_attempt_error dns request env err)
  unfolding send_attempt_error send_upstream_failure
  attempt-IsOutcome none = servfail-IsOutcome _
  attempt-IsOutcome (some error) = servfail-IsOutcome _

  settled :
      {f g : Forwarder} {o' o : Outcome dns}
      → ◌≡◌ {A = Option (Forwarder × Outcome dns)} (some (f, o')) (some (g, o))
      → IsEnd f o'
      → IsEnd g o
  settled e k = subst (λ p. IsEnd p.0 p.1) (some-injective _ _ e) k

  -- A strategy whose every step is sound ends soundly.
  drive-IsEnd :
      (step : Forwarder → Race → Event dns → Step dns Race)
      → ((f : Forwarder) (r : Race) (e : Event dns)
          → IsEvent e
          → IsSound f
          → StepOk (λ g s. IsSound g) IsEnd (step f r e))
      → (st : Step dns Race) (events : List (Event dns)) → StepOk (λ g s. IsSound g) IsEnd st
      → All IsEvent events
      → (g : Forwarder) (o : Outcome dns) → drive dns request env step st events ≡ some (g, o)
      → IsEnd g o
  unfolding drive
  drive-IsEnd step keep (done f o') events k all g o e = settled e k
  drive-IsEnd step keep (running f r) [] k all g o e = cc
  drive-IsEnd step keep (running f r) (event ∷ events) k (p, all) g o e =
      drive-IsEnd step keep (step f r event) events (keep f r event p k) all g o e

  loop_head-IsEnd :
      (f : Forwarder) (r : Race)
      → IsSound f
      → StepOk (λ g s. IsSound g) IsEnd (loop_head dns request env f r)
  unfolding loop_head
  loop_head-IsEnd f r v = elim (Bool-cases (is_empty r.in_flight)) [
    | inl none_left ↦ elim (Bool-cases (is_empty r.waiting)) [
      | inl no_more ↦ rw (none_left, no_more) (v, attempt-IsOutcome r.last_err)
      | inr more ↦ rw (none_left, more) v
    ]
    | inr flying ↦ rw flying v
  ]

  adaptive_step-IsEnd :
      (limit : ℕ) (f : Forwarder) (r : Race) (e : Event dns)
      → IsEvent e
      → IsSound f
      → StepOk (λ g s. IsSound g) IsEnd (adaptive_step dns request env limit f r e)
  unfolding adaptive_step
  adaptive_step-IsEnd limit f r (answered idx response latency_us) (word, p) v =
      elim (Bool-cases (is_flying idx r)) [
        | inl flying ↦ rw flying (
          record_hedged_misses-IsSound (record_success f idx latency_us) r.launched idx latency_us
              word (record_success-IsSound f idx latency_us v),
          response-IsOutcome _ idx response latency_us p,
        )
        | inr other ↦ rw other v
      ]
  adaptive_step-IsEnd limit f r (failed idx error) u v = elim (Bool-cases (is_flying idx r)) [
    | inl flying ↦
        rw flying (loop_head-IsEnd (record_failure f idx) _ (record_failure-IsSound f idx v))
    | inr other ↦ rw other v
  ]
  adaptive_step-IsEnd limit f r hedge_elapsed u v = v
  adaptive_step-IsEnd limit f r deadline u v = (v, servfail-IsOutcome _)

  parallel_step-IsEnd :
      (f : Forwarder) (r : Race) (e : Event dns)
      → IsEvent e
      → IsSound f
      → StepOk (λ g s. IsSound g) IsEnd (parallel_step dns request env f r e)
  unfolding parallel_step parallel_failed
  parallel_step-IsEnd f r (answered idx response latency_us) (word, p) v =
      elim (Bool-cases (is_flying idx r)) [
        | inl flying ↦ rw flying (
          record_success-IsSound f idx latency_us v,
          response-IsOutcome _ idx response latency_us p,
        )
        | inr other ↦ rw other v
      ]
  parallel_step-IsEnd f r (failed idx error) u v = elim (Bool-cases (is_flying idx r)) [
    | inl flying ↦ elim (Bool-cases (is_empty (land idx r).in_flight)) [
      | inl last ↦
          rw (flying, last) (record_failure-IsSound f idx v, attempt-IsOutcome (some error))
      | inr more ↦ rw (flying, more) (record_failure-IsSound f idx v)
    ]
    | inr other ↦ rw other v
  ]
  parallel_step-IsEnd f r hedge_elapsed u v = v
  parallel_step-IsEnd f r deadline u v = (v, servfail-IsOutcome _)

  first_event-IsEnd :
      (f : Forwarder) (events : List (Event dns))
      → All IsEvent events
      → IsSound f
      → (g : Forwarder) (o : Outcome dns) → first_event dns request env f events ≡ some (g, o)
      → IsEnd g o
  unfolding first_event
  first_event-IsEnd f [] all v g o e = cc
  first_event-IsEnd f (answered idx response latency_us ∷ events) ((word, p), all) v g o e =
      settled e (
        record_success-IsSound f 0 latency_us v,
        response-IsOutcome (record_success f 0 latency_us) 0 response latency_us p,
      )
  first_event-IsEnd f (failed idx error ∷ events) all v g o e =
      settled e (record_failure-IsSound f 0 v, unfold send_upstream_failure in servfail-IsOutcome _)
  first_event-IsEnd f (hedge_elapsed ∷ events) (u, all) v g o e =
      first_event-IsEnd f events all v g o e
  first_event-IsEnd f (deadline ∷ events) all v g o e = settled e (v, servfail-IsOutcome _)

  module _ (f : Forwarder) (events : List (Event dns)) (all : All IsEvent events) (v : IsSound f)
      (g : Forwarder) (o : Outcome dns) where
    resolve_one-IsEnd : resolve_one dns request env f events ≡ some (g, o) → IsEnd g o
    unfolding resolve_one
    resolve_one-IsEnd e = by_clients f.clients e
      where
        by_clients :
            (cs : List UpstreamClient)
            → ◌≡◌ {A = Option (Forwarder × Outcome dns)}
                (elim cs [
                  | [] ↦ some (f, send_servfail dns request env (codes "no_upstream"))
                  | _ ∷ _ ↦ first_event dns request env f events
                ])
                (some (g, o))
            → IsEnd g o
        by_clients [] e = settled e (v, servfail-IsOutcome _)
        by_clients (c ∷ cs) e = first_event-IsEnd f events all v g o e

    resolve_parallel-IsEnd : resolve_parallel dns request env f events ≡ some (g, o) → IsEnd g o
    unfolding resolve_parallel
    resolve_parallel-IsEnd e =
        drive-IsEnd (parallel_step dns request env) parallel_step-IsEnd _ events begins all g o e
      where
        begins :
            StepOk {S = Race}
              (λ h s. IsSound h)
              IsEnd
              (if is_empty (range_from 0 (length f.clients))
                then done f (send_attempt_error dns request env none)
                else running f (record {
                  in_flight = range_from 0 (length f.clients);
                  waiting = [];
                  launched = range_from 0 (length f.clients);
                  last_err = none;
                }))
        begins = elim (Bool-cases (is_empty (range_from 0 (length f.clients)))) [
          | inl nobody ↦ rw nobody (v, attempt-IsOutcome none)
          | inr some_of_them ↦ rw some_of_them v
        ]

    resolve_adaptive-IsEnd : resolve_adaptive dns request env f events ≡ some (g, o) → IsEnd g o
    unfolding resolve_adaptive
    resolve_adaptive-IsEnd e = elim (Bool-cases (is_empty (adaptive_order f))) [
      | inl nobody ↦ settled (rw (nobody, resolve_adaptive) at e) (v, servfail-IsOutcome _)
      | inr some_of_them ↦
          drive-IsEnd (adaptive_step dns request env _) (adaptive_step-IsEnd _) _ events v all g o
            (rw (some_of_them, resolve_adaptive) at e)
    ]

    -- However the upstreams behave, a call that returns leaves a forwarder with a healthy record and
    -- an address for each client, and sends SERVFAIL or the message of an upstream that answered,
    -- with the client's id and EDNS limit; or the reply could not be sent.
    pub resolve-IsEnd : resolve dns request env f events ≡ some (g, o) → IsEnd g o
    unfolding resolve
    resolve-IsEnd e = by_queries request.queries e
      where
        by_strategy :
            (s : ForwardStrategy)
            → ◌≡◌ {A = Option (Forwarder × Outcome dns)}
                (elim s [
                  | adaptive ↦ resolve_adaptive dns request env f events
                  | parallel ↦ resolve_parallel dns request env f events
                ])
                (some (g, o))
            → IsEnd g o
        by_strategy adaptive e' = resolve_adaptive-IsEnd e'
        by_strategy parallel e' = resolve_parallel-IsEnd e'

        by_count :
            (b : Bool)
            → ◌≡◌ {A = Option (Forwarder × Outcome dns)}
                (if b then resolve_one dns request env f events else (elim f.strategy [
                  | adaptive ↦ resolve_adaptive dns request env f events
                  | parallel ↦ resolve_parallel dns request env f events
                ]))
                (some (g, o))
            → IsEnd g o
        by_count true e' = resolve_one-IsEnd e'
        by_count false e' = by_strategy f.strategy e'

        by_queries :
            (qs : List Query)
            → ◌≡◌ {A = Option (Forwarder × Outcome dns)}
                (elim qs [
                  | [] ↦ some (
                    f,
                    reply dns request env (record {
                      info = servfail;
                      resolver = codes "invalid_query";
                      latency_us = 0;
                    }),
                  )
                  | query ∷ rest ↦
                      if length f.clients == 1
                      then resolve_one dns request env f events
                      else elim f.strategy [
                        | adaptive ↦ resolve_adaptive dns request env f events
                        | parallel ↦ resolve_parallel dns request env f events
                      ]
                ])
                (some (g, o))
            → IsEnd g o
        by_queries [] e' = settled e' (
          v,
          reply-IsOutcome
              (record { info = servfail; resolver = codes "invalid_query"; latency_us = 0 }) tt,
        )
        by_queries (q ∷ qs) e' = by_count (length f.clients == 1) e'

-- The deadline is among the events.
abbrev pub has_deadline : {dns : Dns} → List (Event dns) → Bool
has_deadline [] = false
has_deadline (deadline ∷ events) = true
has_deadline (_ ∷ events) = has_deadline events

module _ (dns : Dns) (request : Request dns) (env : Env) where
  abbrev pub Ends : Option (Forwarder × Outcome dns) → Type 0
  Ends r = (g : Forwarder) × (o : Outcome dns) × (r ≡ some (g, o))

  drive-Ends :
      (step : Forwarder → Race → Event dns → Step dns Race)
      → ((f : Forwarder) (r : Race)
          → step f r deadline ≡ done f (send_servfail dns request env (codes "timeout")))
      → (st : Step dns Race) (events : List (Event dns)) → has_deadline events ≡ true
      → Ends (drive dns request env step st events)
  unfolding drive
  drive-Ends step stops (done f o) events h = (f, o, refl)
  drive-Ends step stops (running f r) [] h = cc
  drive-Ends step stops (running f r) (deadline ∷ events) h =
      rw (stops f r) (finished f (send_servfail dns request env (codes "timeout")) events)
    where
      finished :
          (f' : Forwarder) (o : Outcome dns) (es : List (Event dns))
          → Ends (drive dns request env step (done f' o) es)
      finished f' o es = (f', o, refl)
  drive-Ends step stops (running f r) (event ∷ events) h =
      drive-Ends step stops (step f r event) events h

  first_event-Ends :
      (f : Forwarder) (events : List (Event dns))
      → has_deadline events ≡ true
      → Ends (first_event dns request env f events)
  unfolding first_event
  first_event-Ends f [] h = cc
  first_event-Ends f (answered idx response latency_us ∷ events) h = (_, _, refl)
  first_event-Ends f (failed idx error ∷ events) h = (_, _, refl)
  first_event-Ends f (hedge_elapsed ∷ events) h = first_event-Ends f events h
  first_event-Ends f (deadline ∷ events) h = (_, _, refl)

  parallel_stops :
      (g : Forwarder) (r : Race)
      → parallel_step dns request env g r deadline
        ≡ done g (send_servfail dns request env (codes "timeout"))
  unfolding parallel_step
  parallel_stops g r = refl

  adaptive_stops :
      (n : ℕ) (g : Forwarder) (r : Race)
      → adaptive_step dns request env n g r deadline
        ≡ done g (send_servfail dns request env (codes "timeout"))
  unfolding adaptive_step
  adaptive_stops n g r = refl

  module _ (f : Forwarder) (events : List (Event dns)) (h : has_deadline events ≡ true) where
    resolve_one-Ends : Ends (resolve_one dns request env f events)
    unfolding resolve_one
    resolve_one-Ends = by_clients f.clients
      where
        by_clients :
            (cs : List UpstreamClient)
            → Ends (elim cs [
              | [] ↦ some (f, send_servfail dns request env (codes "no_upstream"))
              | _ ∷ _ ↦ first_event dns request env f events
            ])
        by_clients [] = (_, _, refl)
        by_clients (c ∷ cs) = first_event-Ends f events h

    resolve_parallel-Ends : Ends (resolve_parallel dns request env f events)
    unfolding resolve_parallel
    resolve_parallel-Ends = drive-Ends (parallel_step dns request env) parallel_stops _ events h

    resolve_adaptive-Ends : Ends (resolve_adaptive dns request env f events)
    unfolding resolve_adaptive
    resolve_adaptive-Ends = elim (Bool-cases (is_empty (adaptive_order f))) [
      | inl nobody ↦ rw nobody (_, _, refl)
      | inr some_of_them ↦
          rw some_of_them
            (drive-Ends (adaptive_step dns request env _) (adaptive_stops _) _ events h)
    ]

    -- A call of any strategy returns when the events delivered to it include its deadline.
    pub resolve-Ends : Ends (resolve dns request env f events)
    unfolding resolve
    resolve-Ends = by_queries request.queries
      where
        by_strategy :
            (s : ForwardStrategy)
            → Ends (elim s [
              | adaptive ↦ resolve_adaptive dns request env f events
              | parallel ↦ resolve_parallel dns request env f events
            ])
        by_strategy adaptive = resolve_adaptive-Ends
        by_strategy parallel = resolve_parallel-Ends

        by_count :
            (b : Bool)
            → Ends (
                if b then resolve_one dns request env f events else (elim f.strategy [
                  | adaptive ↦ resolve_adaptive dns request env f events
                  | parallel ↦ resolve_parallel dns request env f events
                ]))
        by_count true = resolve_one-Ends
        by_count false = by_strategy f.strategy

        by_queries :
            (qs : List Query)
            → Ends (elim qs [
              | [] ↦ some (
                f,
                reply dns request env
                    (record { info = servfail; resolver = codes "invalid_query"; latency_us = 0 }),
              )
              | query ∷ rest ↦
                  if length f.clients == 1
                  then resolve_one dns request env f events
                  else elim f.strategy [
                    | adaptive ↦ resolve_adaptive dns request env f events
                    | parallel ↦ resolve_parallel dns request env f events
                  ]
            ])
        by_queries [] = (_, _, refl)
        by_queries (q ∷ qs) = by_count (length f.clients == 1)
