-- ===== src/Handler/Laws/Block.antt =====
-- How `handle_request` (src/handler.rs) answers a query for a blocked name.
use rustblocker.Base.{
  ℕ, ◌≡◌, refl, Bool, true, false, Option, none, some, List, [], ◌∷◌, Bytes, if◌then◌else◌,
}
use rustblocker.Domain.{normalize_domain}
use rustblocker.Store.{matches}
use rustblocker.Message.{
  Dns, Query, Request, RecordType, a, aaaa, other_type, internet, no_error, nx_domain, refused,
}
use rustblocker.Rewrites.{lookup_rewrite}
use rustblocker.QueryLog.{blocked}
use rustblocker.Acl.{is_allowed}
use rustblocker.Forwarder.Resolve.{Env, Event}
use rustblocker.Handler.{
  BlockResponseMode, mode_nx_domain, mode_null_ip, RData, rdata_a, rdata_aaaa, blocked_response,
  info_code, BlockedEdns, Built, built, sent, serve_failed,
}
use rustblocker.Handler.Serve.{
  DnsBlockerHandler, rewrite_rdata, blocked_message, log_query, blocked_response_edns, deliver,
  query_entry, block_query, serve_listed, serve_internet, serve_query, serve,
}

module _ (IpNet : Type 0) (parse_net : Bytes → Option IpNet) (contains : IpNet → ℕ → Bool)
    (domain_hash : Bytes → ℕ) (dns : Dns) (request : Request dns) (env : Env) where
  abbrev Handler : Type 0
  Handler = DnsBlockerHandler IpNet parse_net contains

  -- The extended error goes to exactly those clients that sent EDNS data, under their payload.
  abbrev pub HasError : ℕ → Option dns.Edns → Option BlockedEdns → Type 0
  HasError code none e = e ≡ none
  HasError code (some c) e =
      e ≡ some (record { version = 0; max_payload = dns.max_payload c; extended_error = code })

  -- The query type asks for the address of a family, or for something else.
  abbrev pub sinkhole_for : Handler → RecordType → Option RData
  sinkhole_for h a = some (rdata_a h.sinkhole_ipv4)
  sinkhole_for h aaaa = some (rdata_aaaa h.sinkhole_ipv6)
  sinkhole_for h (other_type n) = none

  -- The message for a blocked name: NXDOMAIN with the SOA record and without the AA flag; or in the
  -- null mode the sinkhole address of the family asked for, for 60 seconds, and REFUSED for other
  -- types.
  abbrev pub IsBlockMessage : Handler → Query → BlockResponseMode → Option RData → Built → Type 0
  IsBlockMessage h query mode_nx_domain sink b =
      (b.code ≡ nx_domain)
      × (b.answers ≡ [])
      × (b.soa ≡ true)
      × (b.clears_aa ≡ true)
      × HasError 15 request.edns b.edns
  IsBlockMessage h query mode_null_ip (some rdata) b =
      (b.code ≡ no_error)
      × (b.answers ≡ record { owner = query.name; ttl = 60; rdata = rdata } ∷ [])
      × (b.soa ≡ false)
      × HasError 4 request.edns b.edns
  IsBlockMessage h query mode_null_ip none b =
      (b.code ≡ refused) × (b.answers ≡ []) × (b.soa ≡ false) × HasError 15 request.edns b.edns

  edns-HasError :
      (code : ℕ) (e : Option dns.Edns)
      → HasError code e
          (blocked_response_edns IpNet parse_net contains domain_hash dns request env e code)
  unfolding blocked_response_edns
  edns-HasError code none = refl
  edns-HasError code (some c) = refl

  -- The message that blocks a query, under a mode.
  abbrev pub message_of : Handler → Query → BlockResponseMode → RecordType → Built
  message_of h query mode t =
      let response = blocked_response mode t h.sinkhole_ipv4 h.sinkhole_ipv6 in
      blocked_message IpNet parse_net contains response query.name (
        blocked_response_edns IpNet parse_net contains domain_hash dns request env request.edns
          (info_code response))

  message_of-IsBlockMessage :
      (h : Handler) (query : Query) (mode : BlockResponseMode) (t : RecordType)
      → IsBlockMessage h query mode (sinkhole_for h t) (message_of h query mode t)
  unfolding blocked_response blocked_message info_code
  message_of-IsBlockMessage h query mode_nx_domain t =
      (refl, refl, refl, refl, edns-HasError 15 request.edns)
  message_of-IsBlockMessage h query mode_null_ip a =
      (refl, refl, refl, edns-HasError 4 request.edns)
  message_of-IsBlockMessage h query mode_null_ip aaaa =
      (refl, refl, refl, edns-HasError 4 request.edns)
  message_of-IsBlockMessage h query mode_null_ip (other_type n) =
      (refl, refl, refl, edns-HasError 15 request.edns)

  -- A query of class IN for a name that has no rewrite for its type, is not on the allowlist and is
  -- on the blocklist, from a client that the access list allows, is answered at once whatever the
  -- upstreams do: with the block message of the mode that is set, or a made-up SERVFAIL if that
  -- cannot be sent. It is logged as blocked, and nothing else of the handler changes.
  pub serve-IsBlockMessage :
      (h : Handler) (query : Query) (rest : List Query) (events : List (Event dns))
      → is_allowed IpNet parse_net contains h.acl request.src_ip ≡ true
      → request.queries ≡ query ∷ rest
      → query.query_class ≡ internet
      → rewrite_rdata IpNet parse_net contains
          (lookup_rewrite h.rewrites (normalize_domain query.name))
          query.query_type
        ≡ none
      → matches domain_hash h.allowlist (normalize_domain query.name) ≡ false
      → matches domain_hash h.blocklist (normalize_domain query.name) ≡ true
      → (b : Built) × IsBlockMessage h query h.block_response_mode
          (sinkhole_for h query.query_type)
          b
        × (serve IpNet parse_net contains domain_hash dns request env h events
            ≡ some (
              log_query IpNet parse_net contains h (
                  query_entry IpNet parse_net contains domain_hash dns request env query blocked
                    none none),
              (if env.delivers then sent (built b) else serve_failed),
            ))
  unfolding serve serve_query serve_internet serve_listed block_query deliver query_entry
      blocked_response_edns
  serve-IsBlockMessage h query rest events ok qs class plain unlisted bad = (
    message_of h query h.block_response_mode query.query_type,
    message_of-IsBlockMessage h query h.block_response_mode query.query_type,
    rw (ok, qs, serve)
        (rw (class, serve_query) (rw (plain, serve_internet) (rw (unlisted, bad) refl))),
  )
