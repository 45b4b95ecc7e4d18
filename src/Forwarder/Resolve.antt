-- ===== src/Forwarder/Resolve.antt =====
-- `resolve` of src/forwarder.rs and its three strategies. What the network and the timers do is a
-- list of events, in the order in which the runtime delivers them; `none` means that the call still
-- waits when the list ends. The runtime delivers the deadline of `timeout` in the end.
use rustblocker.Base.{
  ℕ, Bool, true, false, not, ◌&&◌, Option, none, some, List, [], ◌∷◌, ◌++◌, Bytes, codes, is_empty,
  length, get_elem?, any, retain, ltb, ◌==◌, if◌then◌else◌, min, max,
}
use rustblocker.Message.{Dns, Message, Request, no_error, downstream_message}
use rustblocker.Forwarder.Labels.{
  adaptive, parallel, NetError, classify_upstream_failure, response_code_label,
}
use rustblocker.Forwarder.{
  Forwarder, adaptive_order, range_from, record_success, record_hedged_misses, record_failure,
}

-- Whether the response handle takes the reply, and the time at which the call ends.
pub record Env : Type 0 where
  pub delivers : Bool
  pub end_us : ℕ

pub record Race : Type 0 where
  -- The lookups that have not ended, the rest of the order, and the upstreams launched.
  pub in_flight : List ℕ
  pub waiting : List ℕ
  pub launched : List ℕ
  pub last_err : Option NetError

abbrev pub is_flying : ℕ → Race → Bool
is_flying idx r = any (λ j. j == idx) r.in_flight

abbrev pub land : ℕ → Race → Race
land idx r = record r { in_flight = retain (λ j. not (j == idx)) r.in_flight }

-- The closure `launch` on the front of what waits. Every index of the order has a client, so that the
-- lookup starts.
unfoldable pub launch_next : Race → Race
launch_next r = elim r.waiting [
  | [] ↦ r
  | idx ∷ rest ↦ record r {
    in_flight = r.in_flight ++ idx ∷ [];
    waiting = rest;
    launched = r.launched ++ idx ∷ [];
  }
]

-- The condition under which one more lookup may start.
unfoldable pub may_launch : ℕ → Race → Bool
may_launch max_parallel r = ltb (length r.in_flight) max_parallel && not (is_empty r.waiting)

module _ (dns : Dns) where
  pub data Event : Type 0 where
    -- Upstream `idx` answered, this many microseconds after the start.
    answered : ℕ → Message dns → ℕ → Event
    failed : ℕ → NetError → Event
    -- The hedge delay ran out, or the whole call's time did.
    hedge_elapsed : Event
    deadline : Event

  -- What was handed to the client: an upstream's message, or SERVFAIL.
  pub data Reply : Type 0 where
    relayed : Message dns → Reply
    servfail : Reply

  pub record ResolveResult : Type 0 where
    pub info : Reply
    pub resolver : Bytes
    pub latency_us : ℕ

  -- The result of a call: `none` is the error that the reply could not be sent.
  abbrev pub Outcome : Type 0
  Outcome = Option ResolveResult

  or_unknown : Option Bytes → Bytes
  or_unknown none = codes "unknown"
  or_unknown (some address) = address

  no_answers {ℓ} : {A : Type ℓ} → List A → Bool
  no_answers [] = true
  no_answers (_ ∷ _) = false

  unfoldable pub response_label : Message dns → Option Bytes → Bytes
  unfolding or_unknown no_answers
  response_label response address = elim response.metadata.response_code [
    | no_error ↦ if no_answers response.answers then codes "nodata" else or_unknown address
    | code ↦ response_code_label code
  ]

  -- A strategy that runs: the forwarder and its state go on, or the call is done.
  pub data Step (S : Type 0) : Type 0 where
    running : Forwarder → S → Step S
    done : Forwarder → Outcome → Step S

  module _ (request : Request dns) (env : Env) where
    unfoldable pub reply : ResolveResult → Outcome
    reply r = if env.delivers then some r else none

    unfoldable pub send_upstream_response : Forwarder → ℕ → Message dns → ℕ → Outcome
    send_upstream_response f idx response latency_us = reply (record {
      info = relayed (downstream_message dns response request.metadata.id request.edns);
      resolver = response_label response (get_elem? f.addresses idx);
      latency_us = latency_us;
    })

    -- SERVFAIL under a label, at the end of the call.
    unfoldable pub send_servfail : Bytes → Outcome
    send_servfail label =
        reply (record { info = servfail; resolver = label; latency_us = env.end_us })

    unfoldable pub send_upstream_failure : NetError → Outcome
    send_upstream_failure error = send_servfail (classify_upstream_failure error)

    -- `ForwardAttemptError::Upstream`: the last error, or none captured.
    unfoldable pub send_attempt_error : Option NetError → Outcome
    send_attempt_error none = send_servfail (codes "upstream_error")
    send_attempt_error (some error) = send_upstream_failure error

    -- The first event that says how the only upstream did.
    unfoldable pub first_event : Forwarder → List Event → Option (Forwarder × Outcome)
    first_event f [] = none
    first_event f (answered idx response latency_us ∷ events) =
        let g = record_success f 0 latency_us in
        some (g, send_upstream_response g 0 response latency_us)
    first_event f (failed idx error ∷ events) =
        some (record_failure f 0, send_upstream_failure error)
    first_event f (hedge_elapsed ∷ events) = first_event f events
    first_event f (deadline ∷ events) = some (f, send_servfail (codes "timeout"))

    unfoldable pub resolve_one : Forwarder → List Event → Option (Forwarder × Outcome)
    resolve_one f events = elim f.clients [
      | [] ↦ some (f, send_servfail (codes "no_upstream"))
      | _ ∷ _ ↦ first_event f events
    ]

    -- One event of `resolve_parallel`: the loop ends with the last lookup.
    unfoldable pub parallel_failed : Forwarder → Race → NetError → Step Race
    parallel_failed f r error =
        if is_empty r.in_flight
        then done f (send_attempt_error (some error))
        else running f (record r { last_err = some error })

    unfoldable pub parallel_step : Forwarder → Race → Event → Step Race
    parallel_step f r (answered idx response latency_us) =
        let g = record_success f idx latency_us in
        if is_flying idx r
        then done g (send_upstream_response g idx response latency_us)
        else running f r
    parallel_step f r (failed idx error) =
        if is_flying idx r
        then parallel_failed (record_failure f idx) (land idx r) error
        else running f r
    parallel_step f r hedge_elapsed = running f r
    parallel_step f r deadline = done f (send_servfail (codes "timeout"))

    -- The head of the loop: with nothing in flight the next upstream is launched, or the call fails.
    unfoldable pub loop_head : Forwarder → Race → Step Race
    loop_head f r =
        if is_empty r.in_flight
        then (if is_empty r.waiting
            then done f (send_attempt_error r.last_err)
            else running f (launch_next r))
        else running f r

    unfoldable pub adaptive_step : ℕ → Forwarder → Race → Event → Step Race
    adaptive_step max_parallel f r (answered idx response latency_us) =
        let g = record_hedged_misses (record_success f idx latency_us) r.launched idx latency_us in
        if is_flying idx r
        then done g (send_upstream_response g idx response latency_us)
        else running f r
    adaptive_step max_parallel f r (failed idx error) =
        let s = land idx r in
        let t = record s { last_err = some error } in
        if is_flying idx r
        then loop_head (record_failure f idx)
            (if may_launch max_parallel t then launch_next t else t)
        else running f r
    adaptive_step max_parallel f r hedge_elapsed =
        running f (if may_launch max_parallel r then launch_next r else r)
    adaptive_step max_parallel f r deadline = done f (send_servfail (codes "timeout"))

    -- A strategy over the events.
    unfoldable pub drive :
        (Forwarder → Race → Event → Step Race)
        → Step Race
        → List Event
        → Option (Forwarder × Outcome)
    drive step (done f outcome) events = some (f, outcome)
    drive step (running f r) [] = none
    drive step (running f r) (event ∷ events) = drive step (step f r event) events

    unfoldable pub resolve_parallel : Forwarder → List Event → Option (Forwarder × Outcome)
    resolve_parallel f events =
        let all = range_from 0 (length f.clients) in
        let start : Race = record {
          in_flight = all;
          waiting = [];
          launched = all;
          last_err = none;
        } in
        drive parallel_step
          (if is_empty all then done f (send_attempt_error none) else running f start) events

    unfoldable pub resolve_adaptive : Forwarder → List Event → Option (Forwarder × Outcome)
    resolve_adaptive f events =
        let order = adaptive_order f in
        let max_parallel = min (max f.max_adaptive_parallel 1) (length order) in
        let start =
          launch_next
            (record { in_flight = []; waiting = order; launched = []; last_err = none }) in
        if is_empty order
        then some (f, send_servfail (codes "no_upstream"))
        else drive (adaptive_step max_parallel) (running f start) events

    -- The whole call. A request with no query gets SERVFAIL, and one upstream is asked alone.
    unfoldable pub resolve : Forwarder → List Event → Option (Forwarder × Outcome)
    resolve f events = elim request.queries [
      | [] ↦
          some (
            f,
            reply (record { info = servfail; resolver = codes "invalid_query"; latency_us = 0 }),
          )
      | query ∷ rest ↦ if length f.clients == 1 then resolve_one f events else elim f.strategy [
        | adaptive ↦ resolve_adaptive f events
        | parallel ↦ resolve_parallel f events
      ]
    ]
