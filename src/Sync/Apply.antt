-- ===== src/Sync/Apply.antt =====
-- The apply functions of src/sync.rs.
use rustblocker.Base.{
  ℕ, suc, Bool, true, ◌&&◌, Option, none, some, List, [], ◌∷◌, Bytes, codes, bytes_eq, any, map,
  ◌==◌, if◌then◌else◌,
}
use rustblocker.Store.{DomainStore, empty_store, insert}
use rustblocker.Rewrites.{RewriteRule, RewriteMap, collect_rules}
use rustblocker.Forwarder.{UpstreamConfig, Forwarder, default_hedge_delay_ms, reload}
use rustblocker.Forwarder.Labels.{ForwardStrategy, default_strategy, from_str}
use rustblocker.Database.Tables.{
  ListType, DbUpstream, DbRewrite, DbSource, Database, table, with_table,
}
use rustblocker.Database.Sources.{insert_all}
use rustblocker.Database.Settings.{get_setting, set_setting, has_rewrite}
use rustblocker.Database.Refresh.{Runtime, install}

-- `UpstreamItem` and `SourceItem`; a `RewriteItem` has the fields of a `RewriteRule`.
pub record UpstreamItem : Type 0 where
  pub address : Bytes
  pub port : ℕ

pub record SourceItem : Type 0 where
  pub url : Bytes
  pub list_type : Bytes
  pub update_interval_hours : ℕ

-- `serde_json::Value`, its accessors, and `from_value` for the types of the items; and what else the
-- code calls.
pub record World : Type 1 where
  pub Json : Type 0
  pub as_object : Json → Option (List (Bytes × Json))
  pub as_text : Json → Option Bytes
  pub upstream_items : Json → Option (List UpstreamItem)
  pub rewrite_items : Json → Option (List RewriteRule)
  pub source_items : Json → Option (List SourceItem)
  pub domain_items : Json → Option (List Bytes)
  pub parse_u64 : Bytes → Option ℕ
  pub parse_socket : Bytes → ℕ → Option Bytes
  pub parse_v4 : Bytes → Option ℕ
  pub parse_v6 : Bytes → Option ℕ
  pub domain_hash : Bytes → ℕ

-- The state that a node applies snapshots to.
pub record Node : Type 0 where
  pub runtime : Runtime
  pub rewrites : RewriteMap
  pub forwarder : Forwarder

-- How the calls of one application end: whether its task runs, has a connection and commits, which
-- settings can be written, and which of the reads before a reload have a connection.
pub record ApplyWeather : Type 0 where
  pub runs : Bool
  pub connects : Bool
  pub commits : Bool
  pub writes : Bytes → Bool
  pub reads_timeout : Bool
  pub reads_strategy : Bool
  pub reads_hedge : Bool
  pub reads_upstreams : Bool

abbrev pub with_db : Database → Node → Node
with_db db s = record s { runtime = record s.runtime { db = db } }

-- `SKIP`: the settings that belong to this node.
abbrev pub local_keys : List Bytes
local_keys =
    codes "listen_address"
    ∷ codes "listen_port"
    ∷ codes "allowed_networks"
    ∷ codes "admin_password_hash"
    ∷ codes "session_secret"
    ∷ codes "domain"
    ∷ codes "acme_email"
    ∷ codes "acme_error"
    ∷ codes "acme_directory_url"
    ∷ codes "cloudflare_api_token"
    ∷ codes "wildcard_cert"
    ∷ codes "sync_password"
    ∷ codes "sync_master"
    ∷ codes "sync_enabled"
    ∷ codes "sync_interval_secs"
    ∷ []

unfoldable pub is_local : Bytes → Bool
is_local key = any (λ k. bytes_eq k key) local_keys

-- The new rows of the tables that are replaced as a whole, from the next id.
unfoldable pub upstream_rows : ℕ → List UpstreamItem → List DbUpstream
upstream_rows id [] = []
upstream_rows id (item ∷ rest) =
    record { id = id; address = item.address; port = item.port } ∷ upstream_rows (suc id) rest

unfoldable pub next_id_after {ℓ} : {A : Type ℓ} → ℕ → List A → ℕ
next_id_after id [] = id
next_id_after id (_ ∷ rest) = next_id_after (suc id) rest

-- `INSERT` fails on a domain that is there already.
unfoldable pub rewrite_rows : ℕ → List RewriteRule → Option (List DbRewrite)
rewrite_rows id [] = some []
rewrite_rows id (item ∷ rest) = elim (rewrite_rows (suc id) rest) [
  | none ↦ none
  | some rows ↦
      if has_rewrite item.domain rows
      then none
      else some
          (record { id = id; domain = item.domain; ipv4 = item.ipv4; ipv6 = item.ipv6 } ∷ rows)
]

-- `INSERT` fails on a url that is there already; the columns that it does not name have their defaults.
unfoldable pub source_rows : ℕ → List SourceItem → Option (List DbSource)
source_rows id [] = some []
source_rows id (item ∷ rest) = elim (source_rows (suc id) rest) [
  | none ↦ none
  | some rows ↦
      if any (λ s. bytes_eq s.url item.url) rows
      then none
      else some (
          record {
            id = id;
            url = item.url;
            list_type = item.list_type;
            enabled = true;
            update_interval_hours = item.update_interval_hours;
            last_updated = none;
            last_status = none;
          }
          ∷ rows)
]

abbrev pub configs_of_rows : List DbUpstream → List UpstreamConfig
configs_of_rows rows = map (λ u. record { address = u.address; port = some u.port }) rows

abbrev pub configs_of_items : List UpstreamItem → List UpstreamConfig
configs_of_items items = map (λ u. record { address = u.address; port = some u.port }) items

abbrev or_default {ℓ} : {A : Type ℓ} → A → Option A → A
or_default a none = a
or_default a (some b) = b

abbrev then_parse {ℓ} : {A : Type ℓ} → (Bytes → Option A) → Option Bytes → Option A
then_parse parse none = none
then_parse parse (some text) = parse text

module _ (world : World) where
  unfoldable pub timeout_from_db : Bool → Database → ℕ
  timeout_from_db reads db =
      or_default 5
        (then_parse world.parse_u64 (get_setting reads db (codes "upstream_timeout_secs")))

  unfoldable pub forward_strategy_from_db : Bool → Database → ForwardStrategy
  forward_strategy_from_db reads db =
      or_default default_strategy
        (then_parse from_str (get_setting reads db (codes "forward_strategy")))

  unfoldable pub hedge_delay_from_db : Bool → Database → ℕ
  hedge_delay_from_db reads db =
      or_default default_hedge_delay_ms
        (then_parse world.parse_u64 (get_setting reads db (codes "adaptive_hedge_delay_ms")))

  unfoldable pub reload_with : ApplyWeather → List UpstreamConfig → Node → Node
  reload_with w configs s =
      let db = s.runtime.db in
      record s {
        forwarder =
            (reload world.parse_socket s.forwarder configs (timeout_from_db w.reads_timeout db)
              (forward_strategy_from_db w.reads_strategy db)
              (hedge_delay_from_db w.reads_hedge db)).0;
      }

  -- `get_upstreams(pool).unwrap_or_default()`.
  unfoldable pub reload_forwarder_from_db : ApplyWeather → Node → Node
  reload_forwarder_from_db w s =
      reload_with w (if w.reads_upstreams then configs_of_rows s.runtime.db.upstreams else []) s

  unfoldable pub write_member : (Bytes → Bool) → Bytes → Option Bytes → Database → Database
  write_member writes key none db = db
  write_member writes key (some value) db = (set_setting (writes key) db key value).0

  -- The loop of `apply_settings`.
  unfoldable pub write_settings : (Bytes → Bool) → List (Bytes × world.Json) → Database → Database
  write_settings writes [] db = db
  write_settings writes ((key, value) ∷ rest) db =
      write_settings writes rest
        (if is_local key then db else write_member writes key (world.as_text value) db)

  unfoldable pub apply_settings : ApplyWeather → world.Json → Node → Node
  apply_settings w data_value s = elim (world.as_object data_value) [
    | none ↦ s
    | some members ↦
        reload_forwarder_from_db w (with_db (write_settings w.writes members s.runtime.db) s)
  ]

  unfoldable pub replace_upstreams : ApplyWeather → List UpstreamItem → Node → Node
  replace_upstreams w items s =
      let db = s.runtime.db in
      let next = record db {
        upstreams = upstream_rows db.next_upstream items;
        next_upstream = next_id_after db.next_upstream items;
      } in
      if any (λ item. item.port == 0) items
      then s
      else if w.connects && w.commits
      then reload_with w (configs_of_items items) (with_db next s)
      else s

  unfoldable pub apply_upstreams : ApplyWeather → world.Json → Node → Node
  apply_upstreams w data_value s = elim (world.upstream_items data_value) [
    | none ↦ s
    | some items ↦ replace_upstreams w items s
  ]

  -- The transaction has the new rows, or an error; the map is rebuilt only after it has committed.
  unfoldable pub replace_rewrites :
      ApplyWeather → List RewriteRule → Option (List DbRewrite) → Node → Node
  replace_rewrites w items none s = s
  replace_rewrites w items (some rows) s =
      let db = s.runtime.db in
      let next = record db {
        rewrites = rows;
        next_rewrite = next_id_after db.next_rewrite items;
      } in
      if w.connects && w.commits
      then record (with_db next s) {
        rewrites = collect_rules world.parse_v4 world.parse_v6 (record { rules = [] }) items;
      }
      else s

  unfoldable pub apply_rewrites : ApplyWeather → world.Json → Node → Node
  apply_rewrites w data_value s = elim (world.rewrite_items data_value) [
    | none ↦ s
    | some items ↦ replace_rewrites w items (rewrite_rows s.runtime.db.next_rewrite items) s
  ]

  unfoldable pub replace_sources :
      ApplyWeather → List SourceItem → Option (List DbSource) → Node → Node
  replace_sources w items none s = s
  replace_sources w items (some rows) s =
      let db = s.runtime.db in
      let next = record db { sources = rows; next_source = next_id_after db.next_source items } in
      if w.connects && w.commits then with_db next s else s

  unfoldable pub apply_sources : ApplyWeather → world.Json → Node → Node
  apply_sources w data_value s = elim (world.source_items data_value) [
    | none ↦ s
    | some items ↦ replace_sources w items (source_rows s.runtime.db.next_source items) s
  ]

  unfoldable pub insert_domains : List Bytes → DomainStore → DomainStore
  insert_domains [] store = store
  insert_domains (domain ∷ rest) store =
      insert_domains rest (insert world.domain_hash store domain).0

  unfoldable pub replace_domains : ApplyWeather → ListType → List Bytes → Node → Node
  replace_domains w t found s =
      let db = s.runtime.db in
      let old = table t db in
      let next = with_table t (insert_all found (record old { rows = [] })) db in
      let runtime = record s.runtime { db = next } in
      if w.connects && w.commits
      then record s { runtime = install t (insert_domains found empty_store) runtime }
      else s

  unfoldable pub apply_domains_inner : ApplyWeather → ListType → world.Json → Node → Node
  apply_domains_inner w t data_value s = elim (world.domain_items data_value) [
    | none ↦ s
    | some found ↦ replace_domains w t found s
  ]
