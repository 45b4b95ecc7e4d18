-- ===== src/Api/Laws/Checks.antt =====
-- The theorem on the handlers of src/api.rs, at a request to delete a rewrite that is not there.
use rustblocker.Base.{◌≡◌, refl, true, false, none, some, [], length}
use rustblocker.Store.{empty_store}
use rustblocker.Forwarder.Labels.{adaptive}
use rustblocker.Database.Settings.{delete_rewrite_by_id, get_rewrite_by_id}
use rustblocker.Database.Refresh.{Weather}
use rustblocker.Sync.Apply.{World, Node, ApplyWeather}
use rustblocker.Api.{ApiWeather, check_acl}
use rustblocker.Api.Records.{rewrite_deleted, delete_rewrite_request}
use rustblocker.Api.Requests.{deletes_rewrite, route, handle_api}
use rustblocker.Api.Laws.Failed.{handle_api_lem}

abbrev world : World
world = record {
  Json = Unit;
  as_object = λ v. none;
  as_text = λ v. none;
  upstream_items = λ v. none;
  rewrite_items = λ v. none;
  source_items = λ v. none;
  domain_items = λ v. none;
  parse_u64 = λ t. none;
  parse_socket = λ address port. some address;
  parse_v4 = λ t. none;
  parse_v6 = λ t. none;
  domain_hash = λ d. length d;
}

abbrev fair_apply : ApplyWeather
fair_apply = record {
  runs = true;
  connects = true;
  commits = true;
  writes = λ key. true;
  reads_timeout = true;
  reads_strategy = true;
  reads_hedge = true;
  reads_upstreams = true;
}

abbrev fair_refresh : Weather
fair_refresh = record {
  fetched = none;
  runs = true;
  connects = true;
  commits = true;
  reads = record { opens = true; row_reads = λ row. true };
  notes = true;
  now = 5;
}

abbrev fair : ApiWeather
fair = record {
  runs = true;
  commits = true;
  deletes = true;
  forgets = true;
  cleanup = record { leftover = λ d. false; notes = λ d. true; prunes = true };
  reads = record { opens = true; row_reads = λ row. true };
  selects = true;
  row_reads = λ s. true;
  last_id = 0;
  content = none;
  reload = fair_apply;
  refresh = λ id. fair_refresh;
}

abbrev node : Node
node = record {
  runtime = record {
    db = record {
      settings = [];
      upstreams = [];
      next_upstream = 1;
      rewrites = [];
      next_rewrite = 1;
      blocklist_domains = record { rows = []; next_id = 1 };
      allowlist_domains = record { rows = []; next_id = 1 };
      sources = [];
      next_source = 1;
      source_domains = [];
      manual_domains = [];
    };
    block_store = empty_store;
    allow_store = empty_store;
  };
  rewrites = record { rules = [] };
  forwarder = record {
    clients = [];
    addresses = [];
    health = [];
    timeout_ms = 5000;
    strategy = adaptive;
    hedge_delay_ms = 75;
    max_adaptive_parallel = 2;
  };
}

handle_api_lem_example :
    (handle_api world (λ addr. true) (some 1) fair (deletes_rewrite 7) node).0 ≡ node
unfolding handle_api check_acl route delete_rewrite_request delete_rewrite_by_id get_rewrite_by_id
    rewrite_deleted
handle_api_lem_example =
    handle_api_lem world fair node (λ addr. true) (some 1) (deletes_rewrite 7) refl
