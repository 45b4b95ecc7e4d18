-- ===== src/Handler/Laws/Guard.antt =====
-- What `handle_request` (src/handler.rs) sends upstream.
use rustblocker.Base.{
  ℕ, ◌≡◌, refl, ◌⊎◌, inl, inr, Bool, true, false, Option, none, some, List, [], ◌∷◌, Bytes,
  Bool-cases, Option-cases,
}
use rustblocker.Domain.{normalize_domain}
use rustblocker.Store.{matches}
use rustblocker.Message.{
  Dns, Query, Request, DnsClass, internet, other_class, form_err, serv_fail, refused,
}
use rustblocker.Rewrites.{lookup_rewrite}
use rustblocker.Gate.{try_acquire}
use rustblocker.Acl.{is_allowed}
use rustblocker.Forwarder.Resolve.{Env, Event}
use rustblocker.Handler.{Built, error_msg, built, from_upstream, ResponseInfo, sent, serve_failed}
use rustblocker.Handler.Serve.{
  DnsBlockerHandler, rewrite_rdata, log_query, deliver, block_query, serve_listed, serve_internet,
  serve_query, serve, release_after, handle_request,
}

module _ (IpNet : Type 0) (parse_net : Bytes → Option IpNet) (contains : IpNet → ℕ → Bool)
    (domain_hash : Bytes → ℕ) (dns : Dns) (request : Request dns) (env : Env) where
  abbrev Handler : Type 0
  Handler = DnsBlockerHandler IpNet parse_net contains

  -- The policy lets this query of the request pass.
  pub record Cleared (h : Handler) (query : Query) : Type 0 where
    pub client_allowed : is_allowed IpNet parse_net contains h.acl request.src_ip ≡ true
    pub in_class : query.query_class ≡ internet
    pub not_rewritten :
        rewrite_rdata IpNet parse_net contains
          (lookup_rewrite h.rewrites (normalize_domain query.name))
          query.query_type
        ≡ none
    pub not_blocked :
        (matches domain_hash h.allowlist (normalize_domain query.name) ≡ true)
        ⊎ (matches domain_hash h.blocklist (normalize_domain query.name) ≡ false)

  abbrev pub FirstCleared : Handler → Type 0
  FirstCleared h =
      (query : Query) × (rest : List Query) × (request.queries ≡ query ∷ rest) × Cleared h query

  -- No upstream had a part in it.
  abbrev pub IsLocal : ResponseInfo dns → Type 0
  IsLocal (sent (from_upstream r)) = ⊥
  IsLocal (sent (built b)) = Unit
  IsLocal (sent (error_msg code)) = Unit
  IsLocal serve_failed = Unit

  -- A call that waits, or that touched the forwarder, or that answers with an upstream's message, had
  -- `C`.
  abbrev pub Guarded : Type 0 → Handler → Option (Handler × ResponseInfo dns) → Type 0
  Guarded C h none = C
  Guarded C h (some r) = C ⊎ ((r.0.forwarder ≡ h.forwarder) × IsLocal r.1)

  error-IsLocal :
      (code : _)
      → IsLocal (deliver IpNet parse_net contains domain_hash dns request env (error_msg code))
  unfolding deliver
  error-IsLocal code = elim (Bool-cases env.delivers) [ inl ok ↦ rw ok tt | inr lost ↦ rw lost tt ]

  built-IsLocal :
      (b : Built) → IsLocal (deliver IpNet parse_net contains domain_hash dns request env (built b))
  unfolding deliver
  built-IsLocal b = elim (Bool-cases env.delivers) [ inl ok ↦ rw ok tt | inr lost ↦ rw lost tt ]

  cleared :
      (C : Type 0) (h : Handler) → C → (r : Option (Handler × ResponseInfo dns)) → Guarded C h r
  cleared C h c none = c
  cleared C h c (some r) = inl c

  serve_listed-Guarded :
      (C : Type 0) (h : Handler) (query : Query) (events : List (Event dns))
      → ((matches domain_hash h.allowlist (normalize_domain query.name) ≡ true)
            ⊎ (matches domain_hash h.blocklist (normalize_domain query.name) ≡ false)
          → C)
      → Guarded C h
          (serve_listed IpNet parse_net contains domain_hash dns request env h query events)
  unfolding serve_listed block_query log_query
  serve_listed-Guarded C h query events k =
      elim (Bool-cases (matches domain_hash h.allowlist (normalize_domain query.name))) [
        | inl listed ↦ rw listed (cleared C h (k (inl listed)) _)
        | inr unlisted ↦
            elim (Bool-cases (matches domain_hash h.blocklist (normalize_domain query.name))) [
              | inl bad ↦ rw (unlisted, bad) (inr (refl, built-IsLocal _))
              | inr fine ↦ rw (unlisted, fine) (cleared C h (k (inr fine)) _)
            ]
      ]

  serve_internet-Guarded :
      (C : Type 0) (h : Handler) (query : Query) (events : List (Event dns))
      → (rewrite_rdata IpNet parse_net contains
              (lookup_rewrite h.rewrites (normalize_domain query.name))
              query.query_type
            ≡ none
          → (matches domain_hash h.allowlist (normalize_domain query.name) ≡ true)
            ⊎ (matches domain_hash h.blocklist (normalize_domain query.name) ≡ false)
          → C)
      → Guarded C h
          (serve_internet IpNet parse_net contains domain_hash dns request env h query events)
  unfolding serve_internet log_query
  serve_internet-Guarded C h query events k =
      elim (Option-cases (
        rewrite_rdata IpNet parse_net contains
          (lookup_rewrite h.rewrites (normalize_domain query.name)) query.query_type)) [
            | inl e ↦ rw (e, serve_internet) (serve_listed-Guarded C h query events (k e))
            | inr (rdata, e) ↦ rw (e, serve_internet) (inr (refl, built-IsLocal _))
          ]

  serve_query-Guarded :
      (C : Type 0) (h : Handler) (query : Query) (events : List (Event dns))
      → (query.query_class ≡ internet
          → rewrite_rdata IpNet parse_net contains
              (lookup_rewrite h.rewrites (normalize_domain query.name))
              query.query_type
            ≡ none
          → (matches domain_hash h.allowlist (normalize_domain query.name) ≡ true)
            ⊎ (matches domain_hash h.blocklist (normalize_domain query.name) ≡ false)
          → C)
      → Guarded C h
          (serve_query IpNet parse_net contains domain_hash dns request env h query events)
  unfolding serve_query
  serve_query-Guarded C h query events k = by_class query.query_class refl
    where
      by_class :
          (c : DnsClass)
          → query.query_class ≡ c
          → Guarded C h (elim c [
            | internet ↦
                serve_internet IpNet parse_net contains domain_hash dns request env h query events
            | other_class n ↦ some (
              h,
              deliver IpNet parse_net contains domain_hash dns request env (error_msg refused),
            )
          ])
      by_class internet e = serve_internet-Guarded C h query events (k e)
      by_class (other_class n) e = inr (refl, error-IsLocal refused)

  serve-Guarded :
      (h : Handler) (events : List (Event dns))
      → Guarded
          (FirstCleared h)
          h
          (serve IpNet parse_net contains domain_hash dns request env h events)
  unfolding serve
  serve-Guarded h events =
      elim (Bool-cases (is_allowed IpNet parse_net contains h.acl request.src_ip)) [
        | inl ok ↦ rw ok (by_queries ok request.queries refl)
        | inr denied ↦ rw denied (inr (refl, error-IsLocal refused))
      ]
    where
      by_queries :
          is_allowed IpNet parse_net contains h.acl request.src_ip ≡ true
          → (qs : List Query) → request.queries ≡ qs
          → Guarded (FirstCleared h) h (elim qs [
            | [] ↦ some (
              h,
              deliver IpNet parse_net contains domain_hash dns request env (error_msg form_err),
            )
            | query ∷ rest ↦
                serve_query IpNet parse_net contains domain_hash dns request env h query events
          ])
      by_queries ok [] e = inr (refl, error-IsLocal form_err)
      by_queries ok (query ∷ rest) e =
          serve_query-Guarded (FirstCleared h) h query events (λ class plain open_name. (
            query,
            rest,
            e,
            record {
              client_allowed = ok;
              in_class = class;
              not_rewritten = plain;
              not_blocked = open_name;
            },
          ))

  -- Only what the policy lets pass goes upstream: a call that waits for upstreams, or that changes
  -- what the forwarder knows, or that answers with an upstream's message, serves a client that the
  -- access list allows, whose first query is of class IN, has no rewrite for its type, and is on
  -- the allowlist or not on the blocklist. All other calls return at once, with an answer of the
  -- handler's own.
  pub handle_request-Guarded :
      (h : Handler) (events : List (Event dns))
      → Guarded
          (FirstCleared h)
          h
          (handle_request IpNet parse_net contains domain_hash dns request env h events)
  unfolding handle_request release_after
  handle_request-Guarded h events = elim (Bool-cases (try_acquire h.concurrency).1) [
    | inl admitted ↦ rw admitted (
        released _
          (serve-Guarded (record h { concurrency = (try_acquire h.concurrency).0 }) events))
    | inr full ↦ rw full (inr (refl, error-IsLocal serv_fail))
  ]
    where
      same :
          FirstCleared (record h { concurrency = (try_acquire h.concurrency).0 }) → FirstCleared h
      same (query, rest, e, k) = (
        query,
        rest,
        e,
        record {
          client_allowed = k.client_allowed;
          in_class = k.in_class;
          not_rewritten = k.not_rewritten;
          not_blocked = k.not_blocked;
        },
      )

      released :
          (r : Option (Handler × ResponseInfo dns))
          → Guarded
              (FirstCleared (record h { concurrency = (try_acquire h.concurrency).0 }))
              (record h { concurrency = (try_acquire h.concurrency).0 })
              r
          → Guarded
              (FirstCleared h)
              h
              (release_after IpNet parse_net contains domain_hash dns request env r)
      released none k = same k
      released (some r) (inl k) = inl (same k)
      released (some r) (inr k) = inr k
