-- ===== src/Sync/Laws/Local.antt =====
-- The settings of a node that no snapshot of src/sync.rs touches.
use rustblocker.Base.{
  ◌≡◌, refl, ◌∙◌, Bool, true, false, Option, none, some, List, [], ◌∷◌, Bytes, codes, bytes_eq,
  if◌then◌else◌, Bool-cases, inl, inr,
}
use rustblocker.Database.Tables.{blocklist, allowlist}
use rustblocker.Sync.Apply.{
  World, Node, ApplyWeather, is_local, apply_settings, apply_upstreams, apply_rewrites,
  apply_sources, apply_domains_inner,
}
use rustblocker.Sync.Laws.Own.{OwnSetting, key_of, key_of-is_local}
use rustblocker.Sync.Poll.{
  is_hash, known_hash, Answers, Syncing, SyncEvent, logs_in, polls, SyncLoop,
  apply_snapshot_blocking, apply_snapshot, take_snapshot, sync_category, sync_categories,
  login_step, poll_step, sync_step, run_sync,
}
use rustblocker.Sync.Laws.Settings.{
  setting_of, settings_kept, setting_of-apply_settings, setting_of-apply_upstreams,
  setting_of-apply_rewrites, setting_of-apply_sources, setting_of-apply_domains_inner,
}

module _ (world : World) (key : Bytes) (own : is_local key ≡ true) where
  setting_of-apply_snapshot_blocking :
      (category : Bytes) (w : ApplyWeather) (value : world.Json) (s : Node)
      → setting_of key (apply_snapshot_blocking world category w value s) ≡ setting_of key s
  unfolding apply_snapshot_blocking
  setting_of-apply_snapshot_blocking category w value s =
      by_name (bytes_eq category (codes "settings")) (bytes_eq category (codes "upstreams"))
        (bytes_eq category (codes "rewrites")) (bytes_eq category (codes "sources"))
        (bytes_eq category (codes "blocklist")) (bytes_eq category (codes "allowlist"))
    where
      by_name :
          (is_settings is_upstreams is_rewrites is_sources is_block is_allow : Bool)
          → setting_of key (
              if is_settings
              then apply_settings world w value s
              else if is_upstreams
              then apply_upstreams world w value s
              else if is_rewrites
              then apply_rewrites world w value s
              else if is_sources
              then apply_sources world w value s
              else if is_block
              then apply_domains_inner world w blocklist value s
              else if is_allow
              then apply_domains_inner world w allowlist value s
              else s)
            ≡ setting_of key s
      by_name true b c d e f = setting_of-apply_settings world key w value s own
      by_name false true c d e f = setting_of-apply_upstreams world key w value s
      by_name false false true d e f = setting_of-apply_rewrites world key w value s
      by_name false false false true e f = setting_of-apply_sources world key w value s
      by_name false false false false true f =
          setting_of-apply_domains_inner world key w blocklist value s
      by_name false false false false false true =
          setting_of-apply_domains_inner world key w allowlist value s
      by_name false false false false false false = refl

  setting_of-apply_snapshot :
      (category : Bytes) (w : ApplyWeather) (value : world.Json) (s : Node)
      → setting_of key (apply_snapshot world category w value s) ≡ setting_of key s
  unfolding apply_snapshot
  setting_of-apply_snapshot category w value s =
      settings_kept world key s (apply_snapshot_blocking world category w value s) w.runs
        (setting_of-apply_snapshot_blocking category w value s)

  setting_of-take_snapshot :
      (category hash : Bytes) (w : ApplyWeather) (o : Option world.Json) (y : Syncing world)
      → setting_of key (take_snapshot world category hash w o y).node ≡ setting_of key y.node
  unfolding take_snapshot
  setting_of-take_snapshot category hash w none y = refl
  setting_of-take_snapshot category hash w (some value) y =
      setting_of-apply_snapshot category w value y.node

  setting_of-sync_category :
      (answers : Answers world) (category hash : Bytes) (y : Syncing world)
      → setting_of key (sync_category world answers category hash y).node ≡ setting_of key y.node
  unfolding sync_category
  setting_of-sync_category answers category hash y =
      elim (Bool-cases (is_hash hash (known_hash category y.known_hashes))) [
        | inl same ↦ rw same refl
        | inr new ↦ rw new (
            setting_of-take_snapshot category hash (answers.weather category)
              (answers.snapshot category) y)
      ]

  setting_of-sync_categories :
      (answers : Answers world) (hashes : List (Bytes × Bytes)) (y : Syncing world)
      → setting_of key (sync_categories world answers hashes y).node ≡ setting_of key y.node
  unfolding sync_categories
  setting_of-sync_categories answers [] y = refl
  setting_of-sync_categories answers ((category, hash) ∷ rest) y =
      setting_of-sync_categories answers rest (sync_category world answers category hash y)
      ∙ setting_of-sync_category answers category hash y

  loop_kept :
      (l x y : SyncLoop world) (b : Bool)
      → setting_of key x.syncing.node ≡ setting_of key l.syncing.node
      → setting_of key y.syncing.node ≡ setting_of key l.syncing.node
      → setting_of key (if b then x else y).syncing.node ≡ setting_of key l.syncing.node
  loop_kept l x y true h k = h
  loop_kept l x y false h k = k

  setting_of-sync_step :
      (l : SyncLoop world) (e : SyncEvent world)
      → setting_of key (sync_step world l e).syncing.node ≡ setting_of key l.syncing.node
  unfolding sync_step login_step poll_step
  setting_of-sync_step l (logs_in true) = loop_kept l l _ l.authenticated refl refl
  setting_of-sync_step l (logs_in false) = loop_kept l l _ l.authenticated refl refl
  setting_of-sync_step l (polls none answers now) = loop_kept l _ l l.authenticated refl refl
  setting_of-sync_step l (polls (some hashes) answers now) =
      loop_kept l (poll_step world (some hashes) answers now l) l l.authenticated
        (setting_of-sync_categories answers hashes l.syncing) refl

  setting_of-events :
      (events : List (SyncEvent world)) (l : SyncLoop world)
      → setting_of key (run_sync world events l).syncing.node ≡ setting_of key l.syncing.node
  unfolding run_sync
  setting_of-events [] l = refl
  setting_of-events (e ∷ events) l =
      setting_of-events events (sync_step world l e) ∙ setting_of-sync_step l e

-- Whatever the primary answers and however the database behaves, a run of the loop leaves these
-- settings of the node alone, whether they are set or not: listen_address, listen_port,
-- allowed_networks, admin_password_hash, session_secret, domain, acme_email, acme_error,
-- acme_directory_url, cloudflare_api_token, wildcard_cert, sync_password, sync_master, sync_enabled
-- and sync_interval_secs.
pub setting_of-run_sync :
    (world : World) (own : OwnSetting) (events : List (SyncEvent world)) (l : SyncLoop world)
    → setting_of (key_of own) (run_sync world events l).syncing.node
      ≡ setting_of (key_of own) l.syncing.node
setting_of-run_sync world own = setting_of-events world (key_of own) (key_of-is_local own)
