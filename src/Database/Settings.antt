-- ===== src/Database/Settings.antt =====
-- Settings, upstreams and rewrites of src/db.rs.
use rustblocker.Base.{
  ℕ, suc, Bool, true, false, not, ◌&&◌, ◌||◌, Option, none, some, List, [], ◌∷◌, ◌++◌, Bytes, codes,
  bytes_eq, any, retain, leb, ◌==◌, if◌then◌else◌, is_empty,
}
use rustblocker.Domain.{normalize_domain}
use rustblocker.Database.Tables.{Database, DbUpstream, DbRewrite}

-- `SELECT value FROM settings WHERE key = ?1`; the key is the primary key.
unfoldable pub setting : Bytes → List (Bytes × Bytes) → Option Bytes
setting key [] = none
setting key ((k, value) ∷ rest) = if bytes_eq k key then some value else setting key rest

abbrev pub drop_setting : Bytes → List (Bytes × Bytes) → List (Bytes × Bytes)
drop_setting key settings = retain (λ p. not (bytes_eq p.0 key)) settings

-- `INSERT OR REPLACE INTO settings`.
unfoldable pub put_setting : Bytes → Bytes → List (Bytes × Bytes) → List (Bytes × Bytes)
put_setting key value settings = (key, value) ∷ drop_setting key settings

unfoldable pub get_setting : Bool → Database → Bytes → Option Bytes
get_setting connects db key = if connects then setting key db.settings else none

-- Whether the statement succeeds; the database, and the result.
unfoldable pub set_setting : Bool → Database → Bytes → Bytes → Database × Bool
set_setting succeeds db key value =
    if succeeds
    then (record db { settings = put_setting key value db.settings }, true)
    else (db, false)

abbrev pub is_secret : Bytes → Bool
is_secret key =
    bytes_eq key (codes "admin_password_hash")
    || (bytes_eq key (codes "session_secret") || bytes_eq key (codes "sync_password"))

abbrev pub shown : Bytes → Bytes → Bytes
shown key value =
    if bytes_eq key (codes "cloudflare_api_token") then codes "***masked***" else value

-- `get_settings`: the object of the API, as its members.
unfoldable pub get_settings : List (Bytes × Bytes) → List (Bytes × Bytes)
get_settings [] = []
get_settings ((key, value) ∷ rest) =
    let others = get_settings rest in
    if is_secret key then others else (key, shown key value) ∷ others

-- `UPDATE settings SET value = ?1 WHERE key = … AND value = ?2`: the rows, and how many changed.
unfoldable pub exchange_setting :
    Bytes → Bytes → Bytes → List (Bytes × Bytes) → List (Bytes × Bytes) × ℕ
exchange_setting key old new [] = ([], 0)
exchange_setting key old new ((k, value) ∷ rest) =
    let later = exchange_setting key old new rest in
    if bytes_eq k key && bytes_eq value old
    then ((k, new) ∷ later.0, suc later.1)
    else ((k, value) ∷ later.0, later.1)

-- `none` is an error: no connection, or a statement or the commit that fails.
unfoldable pub update_auth_credentials :
    Bool → Bool → Database → Bytes → Bytes → Bytes → Database × Option Bool
update_auth_credentials connects commits db current_password_hash new_password_hash session_secret =
    let r =
      exchange_setting (codes "admin_password_hash") current_password_hash new_password_hash
        db.settings in
    let settings = put_setting (codes "session_secret") session_secret r.0 in
    if not connects
    then (db, none)
    else if not (r.1 == 1)
    then (db, some false)
    else if commits
    then (record db { settings = settings }, some true)
    else (db, none)

-- The triggers and the CHECK on ports.
abbrev pub is_port : ℕ → Bool
is_port port = leb 1 port && leb port 65535

unfoldable pub add_upstream : Bool → Database → Bytes → ℕ → Database × Option ℕ
add_upstream succeeds db address port =
    let row : DbUpstream = record { id = db.next_upstream; address = address; port = port } in
    if succeeds && is_port port
    then (
      record db { upstreams = db.upstreams ++ row ∷ []; next_upstream = suc db.next_upstream },
      some db.next_upstream,
    )
    else (db, none)

-- Whether a row went.
unfoldable pub delete_upstream : Database → ℕ → Database × Bool
delete_upstream db id = (
  record db { upstreams = retain (λ u. not (u.id == id)) db.upstreams },
  any (λ u. u.id == id) db.upstreams,
)

abbrev pub has_rewrite : Bytes → List DbRewrite → Bool
has_rewrite d rows = any (λ r. bytes_eq r.domain d) rows

-- `INSERT OR IGNORE INTO rewrites`; `last` is the id that the connection inserted last, which the
-- code returns.
unfoldable pub add_rewrite : ℕ → Database → Bytes → Option Bytes → Option Bytes → Database × ℕ
add_rewrite last db domain ipv4 ipv6 =
    let normalized = normalize_domain domain in
    let row : DbRewrite = record {
      id = db.next_rewrite;
      domain = normalized;
      ipv4 = ipv4;
      ipv6 = ipv6;
    } in
    if has_rewrite normalized db.rewrites then (db, last) else (
      record db { rewrites = db.rewrites ++ row ∷ []; next_rewrite = suc db.next_rewrite },
      db.next_rewrite,
    )

unfoldable pub get_rewrite_by_id : ℕ → List DbRewrite → Option DbRewrite
get_rewrite_by_id id [] = none
get_rewrite_by_id id (r ∷ rest) = if r.id == id then some r else get_rewrite_by_id id rest

-- Whether the deletion succeeds.
unfoldable pub delete_rewrite_by_id : Bool → Database → ℕ → Database × Option DbRewrite
delete_rewrite_by_id deletes db id = elim (get_rewrite_by_id id db.rewrites) [
  | none ↦ (db, none)
  | some rewrite ↦
      if deletes
      then (record db { rewrites = retain (λ r. not (r.id == id)) db.rewrites }, some rewrite)
      else (db, none)
]

-- The defaults of `seed_defaults`.
abbrev pub defaults : List (Bytes × Bytes)
defaults =
    (codes "listen_address", codes "0.0.0.0")
    ∷ (codes "listen_port", codes "53")
    ∷ (codes "sinkhole_ipv4", codes "0.0.0.0")
    ∷ (codes "sinkhole_ipv6", codes "::")
    ∷ (codes "block_response_mode", codes "nxdomain")
    ∷ (codes "log_level", codes "info")
    ∷ (codes "upstream_timeout_secs", codes "5")
    ∷ (codes "forward_strategy", codes "adaptive")
    ∷ (codes "adaptive_hedge_delay_ms", codes "75")
    ∷ (codes "allowed_networks", [])
    ∷ (codes "stats_retention_days", codes "30")
    ∷ []

-- `INSERT OR IGNORE INTO settings`, for each default.
unfoldable pub seed_settings : List (Bytes × Bytes) → List (Bytes × Bytes) → List (Bytes × Bytes)
seed_settings [] settings = settings
seed_settings ((key, value) ∷ rest) settings =
    seed_settings rest
      (if any (λ p. bytes_eq p.0 key) settings then settings else (key, value) ∷ settings)

unfoldable pub seed_defaults : Database → Database
seed_defaults db =
    let row : DbUpstream = record { id = db.next_upstream; address = codes "8.8.8.8"; port = 53 } in
    let seeded = record db { settings = seed_settings defaults db.settings } in
    if is_empty db.upstreams
    then record seeded { upstreams = row ∷ []; next_upstream = suc db.next_upstream }
    else seeded
