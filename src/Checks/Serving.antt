-- ===== src/Checks/Serving.antt =====
-- The theorems on the forwarder and the handler at concrete inputs.
use mathlib.Core.List.{Perm}
use rustblocker.Base.{
  ℕ, ◌≡◌, refl, arith, true, Option, none, some, [], ◌∷◌, codes, strip_prefix, bytes_eq,
}
use rustblocker.Message.{downstream_message}
use rustblocker.Message.Laws.{FitsClient, downstream_message_lem}
use rustblocker.Forwarder.{
  Forwarder, adaptive_order, range_from, score_at, sort_by_key, insert_by_key, record_success,
  record_failure, record_hedged_misses, miss_each, update_at,
}
use rustblocker.Forwarder.Health.{rank_score, health_success, health_failure, health_hedged_miss}
use rustblocker.Forwarder.Resolve.{
  Outcome, resolve, resolve_adaptive, launch_next, may_launch, drive, adaptive_step, loop_head,
  send_upstream_response, reply, response_label, relayed, running,
}
use rustblocker.Forwarder.Laws.Health.{IsSound}
use rustblocker.Forwarder.Laws.Order.{IsOrdered, adaptive_order-IsOrdered}
use rustblocker.Forwarder.Laws.Race.{IsRace, StepOk, advance, first_launch, first_launch-IsRace}
use rustblocker.Forwarder.Laws.Outcome.{IsEnd, Ends, resolve-Ends, resolve-IsEnd}
use rustblocker.Domain.{normalize_domain, ends_with_dot, drop_last}
use rustblocker.Store.{
  matches, matches_suffix, contains_in, insert, insert_normalized, domain_eq, domain_at, entry,
  encoded, push_domain,
}
use rustblocker.Store.Buckets.{entry_push, get}
use rustblocker.Acl.{is_allowed}
use rustblocker.Rewrites.{lookup_rewrite, find_rule}
use rustblocker.QueryLog.{blocked}
use rustblocker.Handler.{ResponseInfo, sent, Built, built, mode_null_ip, rdata_a}
use rustblocker.Handler.Serve.{
  DnsBlockerHandler, rewrite_rdata, log_query, query_entry, serve, handle_request,
}
use rustblocker.Handler.Laws.Guard.{Guarded, FirstCleared, handle_request-Guarded}
use rustblocker.Handler.Laws.Block.{IsBlockMessage, serve-IsBlockMessage}
use rustblocker.Handler.Laws.Account.{IsHandled, handle_request-IsHandled}
use rustblocker.Checks.World.{
  plain_dns, by_length, parse_net, same_address, query, request, response, env, forwarder, events,
  handler,
}

handle_request-Guarded_example :
    Guarded ℕ parse_net same_address by_length plain_dns request env
      (FirstCleared ℕ parse_net same_address by_length plain_dns request env handler)
      handler
      (handle_request ℕ parse_net same_address by_length plain_dns request env handler events)
handle_request-Guarded_example =
    handle_request-Guarded ℕ parse_net same_address by_length plain_dns request env handler events

handle_request-IsHandled_example :
    (g : DnsBlockerHandler ℕ parse_net same_address) × (info : ResponseInfo plain_dns)
    × (handle_request ℕ parse_net same_address by_length plain_dns request env handler events
        ≡ some (g, info))
    × IsHandled ℕ parse_net same_address by_length plain_dns request env handler g info
handle_request-IsHandled_example =
    handle_request-IsHandled ℕ parse_net same_address by_length plain_dns request env handler events
      refl

resolve-Ends_example : Ends plain_dns request env (resolve plain_dns request env forwarder events)
resolve-Ends_example = resolve-Ends plain_dns request env forwarder events refl

adaptive_order-IsOrdered_example :
    Perm (adaptive_order forwarder) (range_from 0 2)
    × IsOrdered (score_at forwarder.health) (adaptive_order forwarder)
adaptive_order-IsOrdered_example = adaptive_order-IsOrdered forwarder

first_launch-IsRace_example :
    StepOk
      (λ g s. IsRace (1 ∷ 0 ∷ []) 2 s)
      (λ g o. Unit {0})
      (advance plain_dns request env
        (1 ∷ 0 ∷ [])
        2
        (running forwarder (first_launch plain_dns request env (1 ∷ 0 ∷ []) 2))
        events)
first_launch-IsRace_example =
    first_launch-IsRace plain_dns request env (1 ∷ 0 ∷ []) 2 forwarder events (omega arith)

downstream_message_lem_example :
    let metadata = response.metadata in
    ((downstream_message plain_dns response 7 (some 1232)).metadata ≡ record metadata { id = 7 })
    × ((downstream_message plain_dns response 7 (some 1232)).queries ≡ query ∷ [])
    × ((downstream_message plain_dns response 7 (some 1232)).answers ≡ 5 ∷ [])
    × ((downstream_message plain_dns response 7 (some 1232)).authorities ≡ [])
    × ((downstream_message plain_dns response 7 (some 1232)).additionals ≡ [])
    × FitsClient plain_dns
        (some 1232)
        (some 4096)
        (downstream_message plain_dns response 7 (some 1232)).edns
downstream_message_lem_example =
    downstream_message_lem plain_dns response 7 (some 1232) (omega arith) (omega arith)

forwarder-IsSound : IsSound forwarder
forwarder-IsSound = record {
  healthy = (
    record { score_word = omega arith; few_failures = omega arith },
    (record { score_word = omega arith; few_failures = omega arith }, tt),
  );
  one_each = refl;
  addressed = refl;
}

abbrev last_forwarder : Forwarder
last_forwarder = record forwarder {
  health =
      record { latency_score_us = 55_000; failures = 0 }
      ∷ record { latency_score_us = 90_000; failures = 1 }
      ∷ [];
}

abbrev last_outcome : Outcome plain_dns
last_outcome = some (record {
  info = relayed (downstream_message plain_dns response 7 (some 1232));
  resolver = codes "1.1.1.1:53";
  latency_us = 90_000;
})

resolve_run : resolve plain_dns request env forwarder events ≡ some (last_forwarder, last_outcome)
unfolding resolve resolve_adaptive adaptive_order sort_by_key insert_by_key range_from score_at
    rank_score launch_next may_launch drive adaptive_step loop_head record_success record_failure
    record_hedged_misses miss_each update_at health_success health_failure health_hedged_miss
    send_upstream_response reply response_label
resolve_run = refl

resolve-IsEnd_example : IsEnd plain_dns request env (λ m. m ≡ response) last_forwarder last_outcome
resolve-IsEnd_example =
    resolve-IsEnd plain_dns request env (λ m. m ≡ response) forwarder events
      (tt, (tt, ((omega arith, refl), (tt, tt)))) forwarder-IsSound last_forwarder last_outcome
      resolve_run

on_blocklist : matches by_length handler.blocklist (normalize_domain query.name) ≡ true
unfolding matches contains_in insert normalize_domain ends_with_dot drop_last strip_prefix
    insert_normalized entry_push domain_eq bytes_eq domain_at entry get encoded push_domain
on_blocklist = refl

abbrev served : Option (DnsBlockerHandler ℕ parse_net same_address × ResponseInfo plain_dns)
served = serve ℕ parse_net same_address by_length plain_dns request env handler events

serve-IsBlockMessage_example :
    (b : Built) × IsBlockMessage ℕ parse_net same_address by_length plain_dns request env handler
      query mode_null_ip
      (some (rdata_a 0))
      b
    × (served
        ≡ some (
          log_query ℕ parse_net same_address handler (
              query_entry ℕ parse_net same_address by_length plain_dns request env query blocked
                none none),
          sent (built b),
        ))
unfolding is_allowed rewrite_rdata lookup_rewrite find_rule matches contains_in matches_suffix
    normalize_domain ends_with_dot drop_last get
serve-IsBlockMessage_example =
    serve-IsBlockMessage ℕ parse_net same_address by_length plain_dns request env handler query []
      events refl refl refl refl refl on_blocklist
