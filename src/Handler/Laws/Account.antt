-- ===== src/Handler/Laws/Account.antt =====
-- What a call of `handle_request` (src/handler.rs) leaves behind.
use rustblocker.Base.{
  ℕ, suc, ◌+◌, ◌<◌, ◌%◌, ◌^◌, ◌≡◌, refl, ap, ◌∙◌, ◌⊎◌, inl, inr, Bool, true, false, Option, none,
  some, List, [], ◌∷◌, Bytes, arith, if◌then◌else◌, Bool-cases, Option-cases,
}
use rustblocker.Domain.{normalize_domain}
use rustblocker.Store.{matches}
use rustblocker.Message.{
  Dns, Query, Request, DnsClass, internet, other_class, form_err, serv_fail, refused,
}
use rustblocker.Rewrites.{lookup_rewrite}
use rustblocker.QueryLog.{QueryEntry, QueryAction, blocked, rewritten, record_query}
use rustblocker.Gate.{DnsConcurrency, try_acquire, record_reject, release}
use rustblocker.Acl.{is_allowed}
use rustblocker.Forwarder.{Forwarder}
use rustblocker.Forwarder.Resolve.{Env, Event, Outcome}
use rustblocker.Handler.{error_msg, ResponseInfo, sent, serve_failed}
use rustblocker.Handler.Serve.{
  DnsBlockerHandler, rewrite_rdata, log_query, deliver, query_entry, finish, forward_query,
  block_query, serve_listed, serve_internet, serve_query, serve, release_after, handle_request,
}
use rustblocker.Gate.Laws.{IsTry, try_acquire-IsTry}
use rustblocker.Forwarder.Laws.Outcome.{has_deadline, resolve-Ends}

module _ (IpNet : Type 0) (parse_net : Bytes → Option IpNet) (contains : IpNet → ℕ → Bool)
    (domain_hash : Bytes → ℕ) (dns : Dns) (request : Request dns) (env : Env) where
  abbrev Handler : Type 0
  Handler = DnsBlockerHandler IpNet parse_net contains

  -- Nothing but the forwarder and the log may differ, and at most one query was logged: one of this
  -- client.
  pub record IsServed (h g : Handler) : Type 0 where
    pub blocklist_same : g.blocklist ≡ h.blocklist
    pub allowlist_same : g.allowlist ≡ h.allowlist
    pub rewrites_same : g.rewrites ≡ h.rewrites
    pub concurrency_same : g.concurrency ≡ h.concurrency
    pub logged :
        (g.query_log ≡ h.query_log)
        ⊎ (entry : QueryEntry) × (entry.client_ip ≡ request.src_ip)
          × (g.query_log ≡ record_query h.query_log entry)

  abbrev pub Returns : Handler → Option (Handler × ResponseInfo dns) → Type 0
  Returns h r = (g : Handler) × (info : ResponseInfo dns) × (r ≡ some (g, info)) × IsServed h g

  at_once : (h : Handler) (info : ResponseInfo dns) → Returns h (some (h, info))
  at_once h info = (
    h,
    info,
    refl,
    record {
      blocklist_same = refl;
      allowlist_same = refl;
      rewrites_same = refl;
      concurrency_same = refl;
      logged = inl refl;
    },
  )

  logging :
      (h : Handler) (query : Query) (action : QueryAction) (resolver : Option Bytes)
      (latency_us : Option ℕ) (info : ResponseInfo dns)
      → Returns h (
          some (
            log_query IpNet parse_net contains h (
                query_entry IpNet parse_net contains domain_hash dns request env query action
                  resolver latency_us),
            info,
          ))
  unfolding log_query query_entry
  logging h query action resolver latency_us info = (
    _,
    info,
    refl,
    record {
      blocklist_same = refl;
      allowlist_same = refl;
      rewrites_same = refl;
      concurrency_same = refl;
      logged = inr (_, refl, refl);
    },
  )

  moved :
      (h : Handler) (f : Forwarder) (r : Option (Handler × ResponseInfo dns))
      → Returns (record h { forwarder = f }) r
      → Returns h r
  moved h f r (g, info, e, k) = (
    g,
    info,
    e,
    record {
      blocklist_same = k.blocklist_same;
      allowlist_same = k.allowlist_same;
      rewrites_same = k.rewrites_same;
      concurrency_same = k.concurrency_same;
      logged = k.logged;
    },
  )

  module _ (h : Handler) (query : Query) (events : List (Event dns))
      (d : has_deadline events ≡ true) where
    forward_query-Returns :
        (listed : Bool)
        → Returns h (
            forward_query IpNet parse_net contains domain_hash dns request env h query listed
              events)
    unfolding forward_query finish
    forward_query-Returns listed =
        let (f, o, e) = resolve-Ends dns request env h.forwarder events d in
        rw (e, forward_query) (finished f o)
      where
        finished :
            (f : Forwarder) (o : Outcome dns)
            → Returns h (
                some (
                  finish IpNet parse_net contains domain_hash dns request env
                    (record h { forwarder = f })
                    query
                    listed
                    o))
        finished f none = moved h f _ (logging (record h { forwarder = f }) query _ none none _)
        finished f (some r) =
            moved h f _
              (logging (record h { forwarder = f }) query _ (some r.resolver) (some r.latency_us) _)

    serve_listed-Returns :
        Returns h (serve_listed IpNet parse_net contains domain_hash dns request env h query events)
    unfolding serve_listed block_query
    serve_listed-Returns =
        elim (Bool-cases (matches domain_hash h.allowlist (normalize_domain query.name))) [
          | inl listed ↦ rw listed (forward_query-Returns true)
          | inr unlisted ↦
              elim (Bool-cases (matches domain_hash h.blocklist (normalize_domain query.name))) [
                | inl bad ↦ rw (unlisted, bad) (logging h query blocked none none _)
                | inr fine ↦ rw (unlisted, fine) (forward_query-Returns false)
              ]
        ]

    serve_internet-Returns :
        Returns h
          (serve_internet IpNet parse_net contains domain_hash dns request env h query events)
    unfolding serve_internet
    serve_internet-Returns =
        elim (Option-cases (
          rewrite_rdata IpNet parse_net contains
            (lookup_rewrite h.rewrites (normalize_domain query.name)) query.query_type)) [
              | inl e ↦ rw (e, serve_internet) serve_listed-Returns
              | inr (rdata, e) ↦ rw (e, serve_internet) (logging h query rewritten none none _)
            ]

    serve_query-Returns :
        Returns h (serve_query IpNet parse_net contains domain_hash dns request env h query events)
    unfolding serve_query
    serve_query-Returns = by_class query.query_class
      where
        by_class :
            (c : DnsClass)
            → Returns h (elim c [
              | internet ↦
                  serve_internet IpNet parse_net contains domain_hash dns request env h query events
              | other_class n ↦ some (
                h,
                deliver IpNet parse_net contains domain_hash dns request env (error_msg refused),
              )
            ])
        by_class internet = serve_internet-Returns
        by_class (other_class n) = at_once h _

  serve-Returns :
      (h : Handler) (events : List (Event dns))
      → has_deadline events ≡ true
      → Returns h (serve IpNet parse_net contains domain_hash dns request env h events)
  unfolding serve
  serve-Returns h events d =
      elim (Bool-cases (is_allowed IpNet parse_net contains h.acl request.src_ip)) [
        | inl ok ↦ rw ok (by_queries request.queries)
        | inr denied ↦ rw denied (at_once h _)
      ]
    where
      by_queries :
          (qs : List Query)
          → Returns h (elim qs [
            | [] ↦ some (
              h,
              deliver IpNet parse_net contains domain_hash dns request env (error_msg form_err),
            )
            | query ∷ rest ↦
                serve_query IpNet parse_net contains domain_hash dns request env h query events
          ])
      by_queries [] = at_once h _
      by_queries (query ∷ rest) = serve_query-Returns h query events d

  -- What a whole call leaves behind.
  pub record IsHandled (h g : Handler) (info : ResponseInfo dns) : Type 0 where
    pub blocklist_same : g.blocklist ≡ h.blocklist
    pub allowlist_same : g.allowlist ≡ h.allowlist
    pub rewrites_same : g.rewrites ≡ h.rewrites
    pub permits_back : g.concurrency.permits ≡ h.concurrency.permits
    pub limit_same : g.concurrency.max_in_flight ≡ h.concurrency.max_in_flight
    pub rejections :
        (0 < h.concurrency.permits) × (g.concurrency.rejected ≡ h.concurrency.rejected)
        ⊎ (h.concurrency.permits ≡ 0)
          × (g.concurrency.rejected ≡ (h.concurrency.rejected + 1) % 2 ^ 64)
          × (g.query_log ≡ h.query_log)
          × (g.forwarder ≡ h.forwarder)
          × (info ≡ (if env.delivers then sent (error_msg serv_fail) else serve_failed))
    pub logged :
        (g.query_log ≡ h.query_log)
        ⊎ (entry : QueryEntry) × (entry.client_ip ≡ request.src_ip)
          × (g.query_log ≡ record_query h.query_log entry)

  admitted-IsHandled :
      (h : Handler) (t : DnsConcurrency × Bool)
      → t.1 ≡ true
      → IsTry h.concurrency t
      → (g : Handler) (info : ResponseInfo dns) → IsServed (record h { concurrency = t.0 }) g
      → IsHandled h (record g { concurrency = release g.concurrency }) info
  unfolding release
  admitted-IsHandled h (c, true) e (p, limit, same) g info k = record {
    blocklist_same = k.blocklist_same;
    allowlist_same = k.allowlist_same;
    rewrites_same = k.rewrites_same;
    permits_back = ap (λ x. suc x.permits) k.concurrency_same ∙ p;
    limit_same = ap (λ x. x.max_in_flight) k.concurrency_same ∙ limit;
    rejections = inl (omega (arith, p), ap (λ x. x.rejected) k.concurrency_same ∙ same);
    logged = k.logged;
  }
  admitted-IsHandled h (c, false) e p g info k = cc

  rejected-IsHandled :
      (h : Handler) (t : DnsConcurrency × Bool)
      → t.1 ≡ false
      → IsTry h.concurrency t
      → IsHandled h
          (record h { concurrency = record_reject t.0 })
          (if env.delivers then sent (error_msg serv_fail) else serve_failed)
  unfolding record_reject
  rejected-IsHandled h (c, true) e p = cc
  rejected-IsHandled h (c, false) e (none_left, same) = record {
    blocklist_same = refl;
    allowlist_same = refl;
    rewrites_same = refl;
    permits_back = ap (λ x. x.permits) same;
    limit_same = ap (λ x. x.max_in_flight) same;
    rejections = inr (none_left, ap (λ x. (x.rejected + 1) % 2 ^ 64) same, refl, refl, refl);
    logged = inl refl;
  }

  -- When the upstreams' events include the deadline, the call returns, and gives its permit back. If
  -- no permit was free, it only counts the rejection and answers SERVFAIL. Lists and rewrites stay as
  -- they are, and at most one query is logged, under the client's address.
  pub handle_request-IsHandled :
      (h : Handler) (events : List (Event dns))
      → has_deadline events ≡ true
      → (g : Handler) × (info : ResponseInfo dns) × (handle_request IpNet parse_net contains
            domain_hash dns request env h events
          ≡ some (g, info))
        × IsHandled h g info
  unfolding handle_request release_after deliver
  handle_request-IsHandled h events d = elim (Bool-cases (try_acquire h.concurrency).1) [
    | inl admitted ↦
        let (g, info, e, k) =
          serve-Returns (record h { concurrency = (try_acquire h.concurrency).0 }) events d in
        (
          _,
          info,
          rw (admitted, e, release_after) refl,
          admitted-IsHandled h (try_acquire h.concurrency) admitted
              (try_acquire-IsTry h.concurrency) g info k,
        )
    | inr full ↦ (
      _,
      _,
      rw full refl,
      rejected-IsHandled h (try_acquire h.concurrency) full (try_acquire-IsTry h.concurrency),
    )
  ]
