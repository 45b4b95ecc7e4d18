-- ===== src/Sync/Laws/Checks.antt =====
-- The theorems on the synchronisation of src/sync.rs at a node, and at a world whose values are texts,
-- lists of texts and objects.
use rustblocker.Base.{
  ◌≡◌, ◌⊎◌, ◌&&◌, refl, true, false, Option, none, some, List, [], ◌∷◌, Bytes, codes, arith, length,
  map, bytes_eq, strip_prefix,
}
use rustblocker.Domain.{normalize_domain, ends_with_dot, drop_last}
use rustblocker.Store.{empty_store}
use rustblocker.Forwarder.Labels.{adaptive}
use rustblocker.Database.Tables.{blocklist}
use rustblocker.Sync.Apply.{World, Node, ApplyWeather, apply_domains_inner}
use rustblocker.Sync.Poll.{
  Answers, Syncing, connecting, SyncLoop, SyncEvent, logs_in, polls, sync_categories, run_sync,
}
use rustblocker.Sync.Laws.Own.{listen_port}
use rustblocker.Sync.Laws.Settings.{setting_of}
use rustblocker.Sync.Laws.Local.{setting_of-run_sync}
use rustblocker.Sync.Laws.Applied.{IsReplica, apply_domains_inner-IsReplica}
use rustblocker.Sync.Laws.Polled.{sync_categories-again}

data Value : Type 0 where
  text : Bytes → Value
  texts : List Bytes → Value
  members : List (Bytes × Bytes) → Value

abbrev value_members : Value → Option (List (Bytes × Value))
value_members (members ms) = some (map (λ p. (p.0, text p.1)) ms)
value_members _ = none

abbrev value_text : Value → Option Bytes
value_text (text t) = some t
value_text _ = none

abbrev value_texts : Value → Option (List Bytes)
value_texts (texts ts) = some ts
value_texts _ = none

abbrev world : World
world = record {
  Json = Value;
  as_object = value_members;
  as_text = value_text;
  upstream_items = λ v. none;
  rewrite_items = λ v. none;
  source_items = λ v. none;
  domain_items = value_texts;
  parse_u64 = λ t. none;
  parse_socket = λ address port. some address;
  parse_v4 = λ t. none;
  parse_v6 = λ t. none;
  domain_hash = λ d. length d;
}

abbrev fair : ApplyWeather
fair = record {
  runs = true;
  connects = true;
  commits = true;
  writes = λ key. true;
  reads_timeout = true;
  reads_strategy = true;
  reads_hedge = true;
  reads_upstreams = true;
}

abbrev node : Node
node = record {
  runtime = record {
    db = record {
      settings = (codes "listen_port", codes "53") ∷ (codes "log_level", codes "info") ∷ [];
      upstreams = [];
      next_upstream = 1;
      rewrites = [];
      next_rewrite = 1;
      blocklist_domains = record { rows = []; next_id = 1 };
      allowlist_domains = record { rows = []; next_id = 1 };
      sources = [];
      next_source = 1;
      source_domains = [];
      manual_domains = [];
    };
    block_store = empty_store;
    allow_store = empty_store;
  };
  rewrites = record { rules = [] };
  forwarder = record {
    clients = [];
    addresses = [];
    health = [];
    timeout_ms = 5000;
    strategy = adaptive;
    hedge_delay_ms = 75;
    max_adaptive_parallel = 2;
  };
}

abbrev block_texts : List Bytes
block_texts = codes "ads.test" ∷ codes "*.bad.test" ∷ codes "ads.test" ∷ []

apply_domains_inner-IsReplica_example :
    IsReplica world blocklist block_texts node
      (apply_domains_inner world fair blocklist (texts block_texts) node)
    ⊎ ((apply_domains_inner world fair blocklist (texts block_texts) node ≡ node)
        × ((fair.connects && fair.commits) ≡ false))
unfolding normalize_domain ends_with_dot drop_last strip_prefix
apply_domains_inner-IsReplica_example =
    apply_domains_inner-IsReplica world fair blocklist (texts block_texts) node block_texts refl
      (omega arith)

abbrev primary_settings : Value
primary_settings =
    members ((codes "listen_port", codes "5353") ∷ (codes "log_level", codes "debug") ∷ [])

abbrev answers : Answers world
answers = record { snapshot = λ category. some primary_settings; weather = λ category. fair }

abbrev manifest : List (Bytes × Bytes)
manifest = (codes "settings", codes "4f") ∷ (codes "upstreams", codes "a0") ∷ []

abbrev fresh : Syncing world
fresh = record { node = node; known_hashes = [] }

abbrev start : SyncLoop world
start = record {
  syncing = fresh;
  state = record { status = connecting; last_sync = none; error = none };
  authenticated = false;
}

abbrev events : List (SyncEvent world)
events = logs_in true ∷ polls (some manifest) answers 7 ∷ polls none answers 9 ∷ []

setting_of-run_sync_example :
    setting_of (codes "listen_port") (run_sync world events start).syncing.node
    ≡ setting_of (codes "listen_port") node
setting_of-run_sync_example = setting_of-run_sync world listen_port events start

sync_categories-again_example :
    sync_categories world answers manifest (sync_categories world answers manifest fresh)
    ≡ sync_categories world answers manifest fresh
unfolding bytes_eq
sync_categories-again_example =
    sync_categories-again world answers answers manifest fresh (refl, (refl, tt)) (refl, (refl, tt))
