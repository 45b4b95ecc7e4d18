-- ===== src/Sync/Poll.antt =====
-- `apply_snapshot`, the poll and the loop of src/sync.rs. The connection to the primary is a sequence
-- of events: what a login, the fetch of a manifest and the fetches of snapshots come to.
use rustblocker.Base.{
  ℕ, Bool, true, false, not, Option, none, some, List, [], ◌∷◌, Bytes, codes, bytes_eq, retain,
  if◌then◌else◌,
}
use rustblocker.Database.Tables.{blocklist, allowlist}
use rustblocker.Sync.Apply.{
  World, Node, ApplyWeather, apply_settings, apply_upstreams, apply_rewrites, apply_sources,
  apply_domains_inner,
}

-- `known_hashes`: one entry for each category.
unfoldable pub known_hash : Bytes → List (Bytes × Bytes) → Option Bytes
known_hash category [] = none
known_hash category ((c, hash) ∷ rest) =
    if bytes_eq c category then some hash else known_hash category rest

unfoldable pub put_hash : Bytes → Bytes → List (Bytes × Bytes) → List (Bytes × Bytes)
put_hash category hash known = (category, hash) ∷ retain (λ p. not (bytes_eq p.0 category)) known

abbrev pub is_hash : Bytes → Option Bytes → Bool
is_hash hash none = false
is_hash hash (some h) = bytes_eq h hash

pub data SyncStatus : Type 0 where
  disabled connecting polled_well sync_failed : SyncStatus

pub data SyncError : Type 0 where
  login_failed no_manifest : SyncError

-- The URL of the primary is the same all the time.
pub record SyncState : Type 0 where
  pub status : SyncStatus
  pub last_sync : Option ℕ
  pub error : Option SyncError

module _ (world : World) where
  -- What the primary answers for a category, and how its application goes here.
  pub record Answers : Type 0 where
    pub snapshot : Bytes → Option world.Json
    pub weather : Bytes → ApplyWeather

  unfoldable pub apply_snapshot_blocking : Bytes → ApplyWeather → world.Json → Node → Node
  apply_snapshot_blocking category w value s =
      if bytes_eq category (codes "settings")
      then apply_settings world w value s
      else if bytes_eq category (codes "upstreams")
      then apply_upstreams world w value s
      else if bytes_eq category (codes "rewrites")
      then apply_rewrites world w value s
      else if bytes_eq category (codes "sources")
      then apply_sources world w value s
      else if bytes_eq category (codes "blocklist")
      then apply_domains_inner world w blocklist value s
      else if bytes_eq category (codes "allowlist")
      then apply_domains_inner world w allowlist value s
      else s

  -- A task that dies has changed nothing.
  unfoldable pub apply_snapshot : Bytes → ApplyWeather → world.Json → Node → Node
  apply_snapshot category w value s =
      let next = apply_snapshot_blocking category w value s in if w.runs then next else s

  pub record Syncing : Type 0 where
    pub node : Node
    pub known_hashes : List (Bytes × Bytes)

  unfoldable pub take_snapshot :
      Bytes → Bytes → ApplyWeather → Option world.Json → Syncing → Syncing
  take_snapshot category hash w none y = y
  take_snapshot category hash w (some value) y = record {
    node = apply_snapshot category w value y.node;
    known_hashes = put_hash category hash y.known_hashes;
  }

  unfoldable pub sync_category : Answers → Bytes → Bytes → Syncing → Syncing
  sync_category answers category hash y =
      if is_hash hash (known_hash category y.known_hashes)
      then y
      else take_snapshot category hash (answers.weather category) (answers.snapshot category) y

  -- The loop over the manifest.
  unfoldable pub sync_categories : Answers → List (Bytes × Bytes) → Syncing → Syncing
  sync_categories answers [] y = y
  sync_categories answers ((category, hash) ∷ rest) y =
      sync_categories answers rest (sync_category answers category hash y)

  -- One turn of the outer or the inner loop.
  pub data SyncEvent : Type 0 where
    logs_in : Bool → SyncEvent
    polls : Option (List (Bytes × Bytes)) → Answers → ℕ → SyncEvent

  pub record SyncLoop : Type 0 where
    pub syncing : Syncing
    pub state : SyncState
    -- Whether the inner loop polls; the outer loop is about to log in otherwise.
    pub authenticated : Bool

  unfoldable pub login_step : Bool → SyncLoop → SyncLoop
  login_step succeeds l =
      let cleared = record l.syncing { known_hashes = [] } in
      let state = record l.state { status = connecting; error = none } in
      if succeeds
      then record { syncing = cleared; state = state; authenticated = true }
      else record {
        syncing = cleared;
        state = record state { status = sync_failed; error = some login_failed };
        authenticated = false;
      }

  unfoldable pub poll_step : Option (List (Bytes × Bytes)) → Answers → ℕ → SyncLoop → SyncLoop
  poll_step none answers now l = record l {
    state = record l.state { status = sync_failed; error = some no_manifest };
    authenticated = false;
  }
  poll_step (some hashes) answers now l = record l {
    syncing = sync_categories answers hashes l.syncing;
    state = record { status = polled_well; last_sync = some now; error = none };
  }

  -- An event of the other loop does not arise.
  unfoldable pub sync_step : SyncLoop → SyncEvent → SyncLoop
  sync_step l (logs_in succeeds) = if l.authenticated then l else login_step succeeds l
  sync_step l (polls manifest answers now) =
      if l.authenticated then poll_step manifest answers now l else l

  unfoldable pub run_sync : List SyncEvent → SyncLoop → SyncLoop
  run_sync [] l = l
  run_sync (e ∷ events) l = run_sync events (sync_step l e)
