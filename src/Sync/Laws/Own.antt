-- ===== src/Sync/Laws/Own.antt =====
-- The settings that src/sync.rs leaves to each node.
use rustblocker.Base.{◌≡◌, refl, true, Bytes, codes, bytes_eq}
use rustblocker.Sync.Apply.{is_local}

-- Where a node listens, whom it serves, its secrets, its names and certificates, and how it takes part
-- in the synchronisation.
pub data OwnSetting : Type 0 where
  listen_address listen_port allowed_networks : OwnSetting
  admin_password_hash own_session_secret : OwnSetting
  own_domain acme_email acme_error acme_directory_url : OwnSetting
  cloudflare_api_token wildcard_cert : OwnSetting
  sync_password sync_master sync_enabled sync_interval_secs : OwnSetting

abbrev pub key_of : OwnSetting → Bytes
key_of listen_address = codes "listen_address"
key_of listen_port = codes "listen_port"
key_of allowed_networks = codes "allowed_networks"
key_of admin_password_hash = codes "admin_password_hash"
key_of own_session_secret = codes "session_secret"
key_of own_domain = codes "domain"
key_of acme_email = codes "acme_email"
key_of acme_error = codes "acme_error"
key_of acme_directory_url = codes "acme_directory_url"
key_of cloudflare_api_token = codes "cloudflare_api_token"
key_of wildcard_cert = codes "wildcard_cert"
key_of sync_password = codes "sync_password"
key_of sync_master = codes "sync_master"
key_of sync_enabled = codes "sync_enabled"
key_of sync_interval_secs = codes "sync_interval_secs"

pub key_of-is_local : (k : OwnSetting) → is_local (key_of k) ≡ true
unfolding is_local bytes_eq
key_of-is_local listen_address = refl
key_of-is_local listen_port = refl
key_of-is_local allowed_networks = refl
key_of-is_local admin_password_hash = refl
key_of-is_local own_session_secret = refl
key_of-is_local own_domain = refl
key_of-is_local acme_email = refl
key_of-is_local acme_error = refl
key_of-is_local acme_directory_url = refl
key_of-is_local cloudflare_api_token = refl
key_of-is_local wildcard_cert = refl
key_of-is_local sync_password = refl
key_of-is_local sync_master = refl
key_of-is_local sync_enabled = refl
key_of-is_local sync_interval_secs = refl
