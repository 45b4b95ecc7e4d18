-- ===== src/Forwarder.antt =====
-- `ParallelForwarder` of src/forwarder.rs: its configuration, and the health of its upstreams. The
-- parsing and printing of socket addresses belong to `std::net` and are parameters.
pub mod Health
pub mod Labels
pub mod Resolve
pub mod Laws
use rustblocker.Base.{
  ℕ, zero, suc, ◌+◌, ◌*◌, Bool, true, false, not, Option, none, some, List, [], ◌∷◌, ◌++◌, Bytes,
  length, get_elem?, set, leb, ◌==◌, if◌then◌else◌, u64_max,
}
use rustblocker.Forwarder.Health.{
  UpstreamHealth, new_health, rank_score, health_success, health_hedged_miss, health_failure,
}
use rustblocker.Forwarder.Labels.{ForwardStrategy, default_strategy}

-- `UpstreamConfig` of src/config.rs.
pub record UpstreamConfig : Type 0 where
  pub address : Bytes
  pub port : Option ℕ

abbrev pub default_hedge_delay_ms : ℕ
default_hedge_delay_ms = 75

abbrev pub default_max_adaptive_parallel : ℕ
default_max_adaptive_parallel = 2

-- A duration is its number of milliseconds.
pub record UpstreamClient : Type 0 where
  pub address : Bytes
  pub timeout_ms : ℕ

pub record Forwarder : Type 0 where
  pub clients : List UpstreamClient
  pub addresses : List Bytes
  pub health : List UpstreamHealth
  pub timeout_ms : ℕ
  pub strategy : ForwardStrategy
  pub hedge_delay_ms : ℕ
  pub max_adaptive_parallel : ℕ

abbrev or_port : Option ℕ → ℕ
or_port none = 53
or_port (some port) = port

-- One fresh health record for each client.
unfoldable pub fresh_health : List UpstreamClient → List UpstreamHealth
fresh_health [] = []
fresh_health (c ∷ cs) = new_health ∷ fresh_health cs

unfoldable pub clients_of : ℕ → List Bytes → List UpstreamClient
clients_of timeout_ms [] = []
clients_of timeout_ms (address ∷ rest) =
    record { address = address; timeout_ms = timeout_ms } ∷ clients_of timeout_ms rest

-- `parse_socket address port` is `SocketAddr::new(address.parse()?, port)` printed, or the parse
-- error.
module _ (parse_socket : Bytes → ℕ → Option Bytes) where
  -- The loop of `new_with_options`: the addresses of all upstreams, or an error.
  unfoldable pub parse_upstreams : List UpstreamConfig → Option (List Bytes)
  parse_upstreams [] = some []
  parse_upstreams (u ∷ us) = elim (parse_socket u.address (or_port u.port)) [
    | none ↦ none
    | some address ↦ elim (parse_upstreams us) [ none ↦ none | some rest ↦ some (address ∷ rest) ]
  ]

  unfoldable pub new_with_options : List UpstreamConfig → ℕ → ForwardStrategy → ℕ → Option Forwarder
  new_with_options upstreams timeout_secs strategy hedge_delay_ms =
      elim (parse_upstreams upstreams) [
        | none ↦ none
        | some addresses ↦
            let clients = clients_of (timeout_secs * 1000) addresses in
            some (record {
              clients = clients;
              addresses = addresses;
              health = fresh_health clients;
              timeout_ms = timeout_secs * 1000;
              strategy = strategy;
              hedge_delay_ms = hedge_delay_ms;
              max_adaptive_parallel = default_max_adaptive_parallel;
            })
      ]

  unfoldable pub new_with_strategy : List UpstreamConfig → ℕ → ForwardStrategy → Option Forwarder
  new_with_strategy upstreams timeout_secs strategy =
      new_with_options upstreams timeout_secs strategy default_hedge_delay_ms

  unfoldable pub new : List UpstreamConfig → ℕ → Option Forwarder
  new upstreams timeout_secs =
      new_with_options upstreams timeout_secs default_strategy default_hedge_delay_ms

  -- The forwarder afterwards, and whether the call succeeded.
  unfoldable pub reload :
      Forwarder → List UpstreamConfig → ℕ → ForwardStrategy → ℕ → Forwarder × Bool
  reload f upstreams timeout_secs strategy hedge_delay_ms =
      elim (new_with_options upstreams timeout_secs strategy hedge_delay_ms) [
        | none ↦ (f, false)
        | some fresh ↦ (
          record f {
            clients = fresh.clients;
            addresses = fresh.addresses;
            health = fresh.health;
            timeout_ms = timeout_secs * 1000;
            strategy = strategy;
            hedge_delay_ms = fresh.hedge_delay_ms;
          },
          true,
        )
      ]

unfoldable pub set_timeout : Forwarder → ℕ → Forwarder
set_timeout f timeout_secs = record f { timeout_ms = timeout_secs * 1000 }

unfoldable pub set_strategy : Forwarder → ForwardStrategy → Forwarder
set_strategy f strategy = record f { strategy = strategy }

unfoldable pub set_hedge_delay_ms : Forwarder → ℕ → Forwarder
set_hedge_delay_ms f hedge_delay_ms = record f { hedge_delay_ms = hedge_delay_ms }

abbrev score_of : Option UpstreamHealth → ℕ
score_of none = u64_max
score_of (some h) = rank_score h

-- `self.health.get(idx).map(rank_score).unwrap_or(u64::MAX)`.
unfoldable pub score_at : List UpstreamHealth → ℕ → ℕ
score_at health idx = score_of (get_elem? health idx)

-- `0..n`, from a start.
unfoldable pub range_from : ℕ → ℕ → List ℕ
range_from start zero = []
range_from start (suc n) = start ∷ range_from (start + 1) n

-- The stable `sort_by_key`: an index goes before the first of those behind it whose key is not less.
unfoldable pub insert_by_key : (ℕ → ℕ) → ℕ → List ℕ → List ℕ
insert_by_key key idx [] = idx ∷ []
insert_by_key key idx (j ∷ rest) =
    if leb (key idx) (key j) then idx ∷ j ∷ rest else j ∷ insert_by_key key idx rest

unfoldable pub sort_by_key : (ℕ → ℕ) → List ℕ → List ℕ
sort_by_key key [] = []
sort_by_key key (idx ∷ rest) = insert_by_key key idx (sort_by_key key rest)

unfoldable pub adaptive_order : Forwarder → List ℕ
adaptive_order f = sort_by_key (score_at f.health) (range_from 0 (length f.clients))

-- `if let Some(health) = self.health.get(idx) { … }`.
unfoldable pub update_at :
    (UpstreamHealth → UpstreamHealth) → List UpstreamHealth → ℕ → List UpstreamHealth
update_at change [] idx = []
update_at change (h ∷ hs) zero = change h ∷ hs
update_at change (h ∷ hs) (suc idx) = h ∷ update_at change hs idx

unfoldable pub record_success : Forwarder → ℕ → ℕ → Forwarder
record_success f idx latency_us = record f {
  health = update_at (health_success latency_us) f.health idx;
}

unfoldable pub record_failure : Forwarder → ℕ → Forwarder
record_failure f idx = record f { health = update_at health_failure f.health idx }

-- The loop over the launched upstreams.
unfoldable pub miss_each : List ℕ → ℕ → ℕ → List UpstreamHealth → List UpstreamHealth
miss_each [] winner elapsed_us health = health
miss_each (idx ∷ launched) winner elapsed_us health =
    miss_each launched winner elapsed_us
      (if idx == winner then health else update_at (health_hedged_miss elapsed_us) health idx)

unfoldable pub record_hedged_misses : Forwarder → List ℕ → ℕ → ℕ → Forwarder
record_hedged_misses f launched winner elapsed_us = record f {
  health = miss_each launched winner elapsed_us f.health;
}
