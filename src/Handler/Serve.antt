-- ===== src/Handler/Serve.antt =====
-- `handle_request` of src/handler.rs, stage by stage. One call runs alone: its guards are read once
-- each, as the source does, and the health that the forwarder records is shared with its clone.
use rustblocker.Base.{
  ℕ, Bool, true, false, not, Option, none, some, List, [], ◌∷◌, Bytes, if◌then◌else◌,
}
use rustblocker.Domain.{normalize_domain}
use rustblocker.Store.{DomainStore, matches}
use rustblocker.Message.{
  Dns, Query, Request, no_error, form_err, serv_fail, nx_domain, refused, RecordType, a, aaaa,
  other_type, internet, other_class,
}
use rustblocker.Rewrites.{RuntimeRewriteRule, RewriteMap, lookup_rewrite}
use rustblocker.QueryLog.{
  QueryLog, QueryEntry, QueryAction, allowed, blocked, rewritten, forwarded, record_query,
}
use rustblocker.Gate.{DnsConcurrency, try_acquire, record_reject, release}
use rustblocker.Acl.{Acl, is_allowed}
use rustblocker.Forwarder.{Forwarder}
use rustblocker.Forwarder.Resolve.{Env, Event, Outcome, resolve}
use rustblocker.Handler.{
  BlockResponseMode, RData, rdata_a, rdata_aaaa, BlockResponse, answer, blocked_nx_domain,
  blocked_refused, blocked_response, info_code, blocked_response_ttl_secs, BlockedEdns, Built,
  Response, error_msg, built, from_upstream, ResponseInfo, sent, serve_failed,
}

module _ (IpNet : Type 0) (parse_net : Bytes → Option IpNet) (contains : IpNet → ℕ → Bool) where
  pub record DnsBlockerHandler : Type 0 where
    pub blocklist : DomainStore
    pub allowlist : DomainStore
    pub rewrites : RewriteMap
    pub forwarder : Forwarder
    pub sinkhole_ipv4 : ℕ
    pub sinkhole_ipv6 : ℕ
    pub block_response_mode : BlockResponseMode
    pub acl : Acl IpNet parse_net contains
    pub query_log : QueryLog
    pub concurrency : DnsConcurrency

  -- The address that a rule has for a query of this type.
  unfoldable pub rewrite_rdata : Option RuntimeRewriteRule → RecordType → Option RData
  rewrite_rdata none query_type = none
  rewrite_rdata (some rule) a = of_v4 rule.ipv4
    where
      of_v4 : Option ℕ → Option RData
      of_v4 none = none
      of_v4 (some ip) = some (rdata_a ip)
  rewrite_rdata (some rule) aaaa = of_v6 rule.ipv6
    where
      of_v6 : Option ℕ → Option RData
      of_v6 none = none
      of_v6 (some ip) = some (rdata_aaaa ip)
  rewrite_rdata (some rule) (other_type n) = none

  -- The part of `handle_request` that ends in a built message.
  unfoldable pub rewritten_message : Bytes → RData → Built
  rewritten_message owner rdata = record {
    code = no_error;
    clears_aa = false;
    answers = record { owner = owner; ttl = 60; rdata = rdata } ∷ [];
    soa = false;
    edns = none;
  }

  unfoldable pub blocked_message : BlockResponse → Bytes → Option BlockedEdns → Built
  blocked_message (answer rdata) owner edns = record {
    code = no_error;
    clears_aa = false;
    answers = record { owner = owner; ttl = blocked_response_ttl_secs; rdata = rdata } ∷ [];
    soa = false;
    edns = edns;
  }
  blocked_message blocked_nx_domain owner edns = record {
    code = nx_domain;
    clears_aa = true;
    answers = [];
    soa = true;
    edns = edns;
  }
  blocked_message blocked_refused owner edns = record {
    code = refused;
    clears_aa = false;
    answers = [];
    soa = false;
    edns = edns;
  }

  unfoldable pub log_query : DnsBlockerHandler → QueryEntry → DnsBlockerHandler
  log_query h entry = record h { query_log = record_query h.query_log entry }

  module _ (domain_hash : Bytes → ℕ) (dns : Dns) (request : Request dns) (env : Env) where
    open dns use {Edns, max_payload}

    -- `Some` EDNS data exactly if the request has some.
    unfoldable pub blocked_response_edns : Option Edns → ℕ → Option BlockedEdns
    blocked_response_edns none code = none
    blocked_response_edns (some e) code =
        some (record { version = 0; max_payload = max_payload e; extended_error = code })

    -- `send_response`, and the made-up SERVFAIL if it fails.
    unfoldable pub deliver : Response dns → ResponseInfo dns
    deliver response = if env.delivers then sent response else serve_failed

    unfoldable pub query_entry : Query → QueryAction → Option Bytes → Option ℕ → QueryEntry
    query_entry query action resolver latency_us = record {
      client_ip = request.src_ip;
      domain = normalize_domain query.name;
      query_type = query.query_type;
      action = action;
      resolver = resolver;
      latency_us = latency_us;
    }

    -- Step 3: what is logged and returned after the forwarder's call.
    unfoldable pub finish :
        DnsBlockerHandler → Query → Bool → Outcome dns → DnsBlockerHandler × ResponseInfo dns
    finish h query allowlisted none =
        let action = if allowlisted then allowed else forwarded in
        (log_query h (query_entry query action none none), serve_failed)
    finish h query allowlisted (some r) =
        let action = if allowlisted then allowed else forwarded in
        (
          log_query h (query_entry query action (some r.resolver) (some r.latency_us)),
          sent (from_upstream r.info),
        )

    unfoldable pub forward_query :
        DnsBlockerHandler
        → Query
        → Bool
        → List (Event dns)
        → Option (DnsBlockerHandler × ResponseInfo dns)
    forward_query h query allowlisted events = elim (resolve dns request env h.forwarder events) [
      | none ↦ none
      | some r ↦ some (finish (record h { forwarder = r.0 }) query allowlisted r.1)
    ]

    unfoldable pub block_query : DnsBlockerHandler → Query → DnsBlockerHandler × ResponseInfo dns
    block_query h query =
        let response =
          blocked_response h.block_response_mode query.query_type h.sinkhole_ipv4 h.sinkhole_ipv6 in
        (
          log_query h (query_entry query blocked none none),
          deliver (
              built (
                blocked_message response query.name
                  (blocked_response_edns request.edns (info_code response)))),
        )

    -- Step 2: the allowlist, then the blocklist.
    unfoldable pub serve_listed :
        DnsBlockerHandler → Query → List (Event dns) → Option (DnsBlockerHandler × ResponseInfo dns)
    serve_listed h query events =
        let domain = normalize_domain query.name in
        let allowlisted = matches domain_hash h.allowlist domain in
        let is_domain_blocked =
          if allowlisted then false else matches domain_hash h.blocklist domain in
        if is_domain_blocked
        then some (block_query h query)
        else forward_query h query allowlisted events

    -- Step 1: the rewrite map.
    unfoldable pub serve_internet :
        DnsBlockerHandler → Query → List (Event dns) → Option (DnsBlockerHandler × ResponseInfo dns)
    serve_internet h query events =
        elim (rewrite_rdata (lookup_rewrite h.rewrites (normalize_domain query.name))
          query.query_type) [
            | some rdata ↦ some (
              log_query h (query_entry query rewritten none none),
              deliver (built (rewritten_message query.name rdata)),
            )
            | none ↦ serve_listed h query events
          ]

    -- Step 0: only class IN is served.
    unfoldable pub serve_query :
        DnsBlockerHandler → Query → List (Event dns) → Option (DnsBlockerHandler × ResponseInfo dns)
    serve_query h query events = elim query.query_class [
      | internet ↦ serve_internet h query events
      | other_class n ↦ some (h, deliver (error_msg refused))
    ]

    -- The request with its permit: the access list, and the first query.
    unfoldable pub serve :
        DnsBlockerHandler → List (Event dns) → Option (DnsBlockerHandler × ResponseInfo dns)
    serve h events =
        if not (is_allowed IpNet parse_net contains h.acl request.src_ip)
        then some (h, deliver (error_msg refused))
        else elim request.queries [
          | [] ↦ some (h, deliver (error_msg form_err))
          | query ∷ rest ↦ serve_query h query events
        ]

    -- The permit is dropped when the call ends.
    unfoldable pub release_after :
        Option (DnsBlockerHandler × ResponseInfo dns)
        → Option (DnsBlockerHandler × ResponseInfo dns)
    release_after none = none
    release_after (some r) =
        let h = r.0 in some (record h { concurrency = release h.concurrency }, r.1)

    unfoldable pub handle_request :
        DnsBlockerHandler → List (Event dns) → Option (DnsBlockerHandler × ResponseInfo dns)
    handle_request h events =
        let t = try_acquire h.concurrency in
        if t.1
        then release_after (serve (record h { concurrency = t.0 }) events)
        else some (record h { concurrency = record_reject t.0 }, deliver (error_msg serv_fail))
