-- ===== src/Handler.antt =====
-- `DnsBlockerHandler` of src/handler.rs: what it answers to a request. A response is the code and the
-- data with which the message builder of hickory is called.
pub mod Serve
pub mod Laws
use rustblocker.Base.{
  ℕ, Bool, true, false, not, Option, none, some, List, [], ◌∷◌, Bytes, codes, bytes_eq,
  if◌then◌else◌,
}
use rustblocker.Domain.{normalize_domain}
use rustblocker.Store.{DomainStore, matches}
use rustblocker.Message.{
  Dns, Query, Request, ResponseCode, no_error, form_err, serv_fail, nx_domain, refused, RecordType,
  a, aaaa, other_type, DnsClass, internet, other_class,
}
use rustblocker.Rewrites.{RuntimeRewriteRule, RewriteMap, lookup_rewrite}
use rustblocker.QueryLog.{
  QueryLog, QueryEntry, QueryAction, allowed, blocked, rewritten, forwarded, record_query,
}
use rustblocker.Gate.{DnsConcurrency, try_acquire, record_reject, release}
use rustblocker.Acl.{Acl, is_allowed}
use rustblocker.Forwarder.{Forwarder}
use rustblocker.Forwarder.Resolve.{Env, Event, Reply, relayed, servfail, Outcome, resolve}

pub data BlockResponseMode : Type 0 where
  mode_nx_domain mode_null_ip : BlockResponseMode

unfoldable pub mode_as_str : BlockResponseMode → Bytes
mode_as_str mode_nx_domain = codes "nxdomain"
mode_as_str mode_null_ip = codes "null_ip"

unfoldable pub mode_from_str : Bytes → Option BlockResponseMode
mode_from_str value =
    if bytes_eq value (codes "nxdomain")
    then some mode_nx_domain
    else if bytes_eq value (codes "null_ip")
    then some mode_null_ip
    else none

abbrev pub blocked_response_ttl_secs : ℕ
blocked_response_ttl_secs = 60

abbrev pub ede_forged_answer : ℕ
ede_forged_answer = 4

abbrev pub ede_blocked : ℕ
ede_blocked = 15

pub data RData : Type 0 where
  rdata_a rdata_aaaa : ℕ → RData

pub data BlockResponse : Type 0 where
  answer : RData → BlockResponse
  blocked_nx_domain blocked_refused : BlockResponse

unfoldable pub blocked_response : BlockResponseMode → RecordType → ℕ → ℕ → BlockResponse
blocked_response mode_nx_domain query_type ipv4 ipv6 = blocked_nx_domain
blocked_response mode_null_ip a ipv4 ipv6 = answer (rdata_a ipv4)
blocked_response mode_null_ip aaaa ipv4 ipv6 = answer (rdata_aaaa ipv6)
blocked_response mode_null_ip (other_type n) ipv4 ipv6 = blocked_refused

unfoldable pub info_code : BlockResponse → ℕ
info_code (answer rdata) = ede_forged_answer
info_code blocked_nx_domain = ede_blocked
info_code blocked_refused = ede_blocked

-- EDNS data of the handler's own: version 0, a payload, and one option, the extended error (15).
pub record BlockedEdns : Type 0 where
  pub version : ℕ
  pub max_payload : ℕ
  pub extended_error : ℕ

-- An owner, a time to live and the data.
pub record Answer : Type 0 where
  pub owner : Bytes
  pub ttl : ℕ
  pub rdata : RData

-- A message that the handler builds. Its other metadata are those of a response to the request;
-- `clears_aa` is the assignment `authoritative = false`, `soa` the record BLOCKED_NXDOMAIN_SOA.
pub record Built : Type 0 where
  pub code : ResponseCode
  pub clears_aa : Bool
  pub answers : List Answer
  pub soa : Bool
  pub edns : Option BlockedEdns

pub data Response (dns : Dns) : Type 0 where
  error_msg : ResponseCode → Response dns
  built : Built → Response dns
  from_upstream : Reply dns → Response dns

-- What `handle_request` returns: the data of the response that was sent, or of a SERVFAIL that was
-- made up because nothing could be sent.
pub data ResponseInfo (dns : Dns) : Type 0 where
  sent : Response dns → ResponseInfo dns
  serve_failed : ResponseInfo dns
