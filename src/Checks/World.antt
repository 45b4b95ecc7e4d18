-- ===== src/Checks/World.antt =====
-- A small world for the checks: EDNS data that are their payload, two upstreams, some lists.
use rustblocker.Base.{
  ℕ, arith, Bool, true, false, Option, none, some, List, [], ◌∷◌, Bytes, codes, length, ◌==◌, max,
}
use rustblocker.Store.{empty_store, insert}
use rustblocker.Message.{Dns, Metadata, Query, Message, Request, no_error, a, internet}
use rustblocker.QueryLog.{new_log}
use rustblocker.Gate.{new_concurrency}
use rustblocker.Forwarder.{UpstreamClient, Forwarder}
use rustblocker.Forwarder.Labels.{adaptive, other_error}
use rustblocker.Forwarder.Resolve.{Env, Event, answered, failed, hedge_elapsed, deadline}
use rustblocker.Handler.{mode_null_ip}
use rustblocker.Handler.Serve.{DnsBlockerHandler}

abbrev pub payload_or : Option ℕ → ℕ
payload_or none = 512
payload_or (some n) = n

abbrev pub plain_dns : Dns
plain_dns = record {
  Edns = ℕ;
  Record = ℕ;
  max_payload = λ e. e;
  set_max_payload = λ e n. max n 512;
  dnssec_ok = λ e. false;
  message_payload = payload_or;
  set_max_payload_lem = λ e n h. omega (arith, h);
}

abbrev pub by_length : Bytes → ℕ
by_length d = length d

abbrev pub parse_net : Bytes → Option ℕ
parse_net [] = none
parse_net (c ∷ s) = some c

abbrev pub same_address : ℕ → ℕ → Bool
same_address net addr = net == addr

abbrev pub query : Query
query = record { name = codes "Ads.test."; query_type = a; query_class = internet }

abbrev pub metadata : Metadata
metadata = record {
  id = 7;
  response_code = no_error;
  authoritative = false;
  recursion_desired = true;
  recursion_available = true;
  authentic_data = false;
  checking_disabled = false;
}

abbrev pub request : Request plain_dns
request = record { src_ip = 1; metadata = metadata; queries = query ∷ []; edns = some 1232 }

abbrev pub response : Message plain_dns
response = record {
  metadata = record metadata { id = 99 };
  queries = query ∷ [];
  answers = 5 ∷ [];
  authorities = [];
  additionals = [];
  edns = some 4096;
}

abbrev pub env : Env
env = record { delivers = true; end_us = 2_000_000 }

abbrev pub client : Bytes → UpstreamClient
client address = record { address = address; timeout_ms = 2000 }

abbrev pub clients : List UpstreamClient
clients = client (codes "1.1.1.1:53") ∷ client (codes "9.9.9.9:53") ∷ []

abbrev pub forwarder : Forwarder
forwarder = record {
  clients = clients;
  addresses = codes "1.1.1.1:53" ∷ codes "9.9.9.9:53" ∷ [];
  health =
      record { latency_score_us = 50_000; failures = 1 }
      ∷ record { latency_score_us = 60_000; failures = 0 }
      ∷ [];
  timeout_ms = 2000;
  strategy = adaptive;
  hedge_delay_ms = 75;
  max_adaptive_parallel = 2;
}

-- The second upstream is tried first; the hedge starts the other one, which answers.
abbrev pub events : List (Event plain_dns)
events = hedge_elapsed ∷ failed 1 other_error ∷ answered 0 response 90_000 ∷ deadline ∷ []

abbrev pub handler : DnsBlockerHandler ℕ parse_net same_address
handler = record {
  blocklist = (insert by_length empty_store (codes "ads.test")).0;
  allowlist = empty_store;
  rewrites = record { rules = [] };
  forwarder = forwarder;
  sinkhole_ipv4 = 0;
  sinkhole_ipv6 = 0;
  block_response_mode = mode_null_ip;
  acl = record { networks = 1 ∷ [] };
  query_log = new_log 30;
  concurrency = new_concurrency 8;
}
