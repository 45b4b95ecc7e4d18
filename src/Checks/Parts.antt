-- ===== src/Checks/Parts.antt =====
-- The theorems on the smaller parts at concrete inputs.
use rustblocker.Base.{
  ℕ, ◌+◌, ◌≤◌, ◌<◌, ◌≡◌, refl, arith, ◌↔◌, true, Option, none, some, List, [], ◌∷◌, Bytes, codes,
  length, max, min, if◌then◌else◌, bytes_eq,
}
use rustblocker.Domain.{normalize_domain}
use rustblocker.Acl.{parse_acl}
use rustblocker.Acl.Laws.{IsParsed, parse_acl-IsParsed}
use rustblocker.Rewrites.{RewriteRule, lookup_rewrite, remove_rewrite, load_rewrites}
use rustblocker.Rewrites.Laws.{
  last_rule, load_rewrites-lookup_rewrite, remove_rewrite-lookup_rewrite,
}
use rustblocker.QueryLog.{QueryEntry, blocked, forwarded, new_log, counters}
use rustblocker.QueryLog.Laws.{record_all, counters-count_of}
use rustblocker.Message.{a}
use rustblocker.Gate.{new_concurrency, in_flight, try_acquire}
use rustblocker.Gate.Laws.{GateRun, still, more, admits, new_concurrency-IsCounted}
use rustblocker.Forwarder.{UpstreamConfig, new_with_options, reload}
use rustblocker.Forwarder.Labels.{parallel}
use rustblocker.Forwarder.Health.{UpstreamHealth, health_success}
use rustblocker.Forwarder.Laws.Health.{health_success_between}
use rustblocker.Forwarder.Laws.Config.{
  IsBuilt, IsReloaded, new_with_options-IsBuilt, reload-IsReloaded,
}
use rustblocker.Checks.World.{parse_net, same_address, forwarder}

parse_acl-IsParsed_example :
    IsParsed ℕ parse_net same_address
      (codes "a, b")
      (parse_acl ℕ parse_net same_address (codes "a, b"))
parse_acl-IsParsed_example = parse_acl-IsParsed ℕ parse_net same_address (codes "a, b")

abbrev parse_ip : Bytes → Option ℕ
parse_ip s = some (length s)

abbrev rules : List RewriteRule
rules =
    record { domain = codes "Nas.home."; ipv4 = some (codes "10.0.0.2"); ipv6 = none }
    ∷ record { domain = codes "nas.home"; ipv4 = none; ipv6 = some (codes "::1") }
    ∷ []

load_rewrites-lookup_rewrite_example :
    lookup_rewrite (load_rewrites parse_ip parse_ip rules) (codes "nas.home")
    ≡ last_rule parse_ip parse_ip none rules (codes "nas.home")
load_rewrites-lookup_rewrite_example =
    load_rewrites-lookup_rewrite parse_ip parse_ip rules (codes "nas.home")

remove_rewrite-lookup_rewrite_example :
    lookup_rewrite
      (remove_rewrite (load_rewrites parse_ip parse_ip rules) (codes "NAS.home"))
      (codes "nas.home")
    ≡ (if bytes_eq (normalize_domain (codes "NAS.home")) (codes "nas.home")
        then none
        else lookup_rewrite (load_rewrites parse_ip parse_ip rules) (codes "nas.home"))
remove_rewrite-lookup_rewrite_example =
    remove_rewrite-lookup_rewrite (load_rewrites parse_ip parse_ip rules) (codes "NAS.home")
      (codes "nas.home")

abbrev first_entry : QueryEntry
first_entry = record {
  client_ip = 1;
  domain = codes "ads.test";
  query_type = a;
  action = blocked;
  resolver = none;
  latency_us = none;
}

abbrev entries : List QueryEntry
entries = first_entry ∷ record first_entry { action = forwarded } ∷ []

counters-count_of_example :
    let log = record_all (new_log 30) entries in
    (counters log ≡ (2, 1, 0, 0, 1)) × (2 ≡ 1 + 0 + 0 + 1) × (log.queued ≡ entries)
counters-count_of_example = counters-count_of 30 entries (omega arith)

one_admitted : GateRun (new_concurrency 2, 0) ((try_acquire (new_concurrency 2)).0, 1)
one_admitted =
    more _ _ _ (still _) (admits (new_concurrency 2) 0 (unfold try_acquire new_concurrency in refl))

new_concurrency-IsCounted_example :
    (in_flight (try_acquire (new_concurrency 2)).0 ≡ 1)
    × (1 ≤ 2)
    × (((try_acquire (try_acquire (new_concurrency 2)).0).1 ≡ true) ↔ (1 < 2))
new_concurrency-IsCounted_example =
    new_concurrency-IsCounted 2 (try_acquire (new_concurrency 2)).0 1 one_admitted

abbrev parse_socket : Bytes → ℕ → Option Bytes
parse_socket [] port = none
parse_socket (c ∷ s) port = some (c ∷ s)

abbrev upstreams : List UpstreamConfig
upstreams =
    record { address = codes "1.1.1.1"; port = none } ∷ record { address = []; port = some 53 } ∷ []

new_with_options-IsBuilt_example :
    IsBuilt parse_socket upstreams 2 parallel 75
      (new_with_options parse_socket upstreams 2 parallel 75)
new_with_options-IsBuilt_example = new_with_options-IsBuilt parse_socket upstreams 2 parallel 75

reload-IsReloaded_example :
    IsReloaded parse_socket upstreams 2 parallel 75 forwarder
      (reload parse_socket forwarder upstreams 2 parallel 75)
reload-IsReloaded_example = reload-IsReloaded parse_socket upstreams 2 parallel 75 forwarder

abbrev slow_health : UpstreamHealth
slow_health = record { latency_score_us = 50_000; failures = 3 }

health_success_between_example :
    ((health_success 10_000 slow_health).latency_score_us ≤ max (max 50_000 10_000) 1)
    × (min 50_000 10_000 ≤ (health_success 10_000 slow_health).latency_score_us)
    × ((health_success 10_000 slow_health).failures ≡ 2)
health_success_between_example = health_success_between 10_000 slow_health (omega arith)
