-- ===== src/Database/Refresh.antt =====
-- `refresh_source` of src/db.rs: the database and the two stores in memory. The fetch and the tasks
-- end as the world decides; every caller passes both stores; the lock around source mutations makes the second half one step.
use rustblocker.Base.{ℕ, Bool, true, false, Option, none, some, Bytes}
use rustblocker.Store.{DomainStore, replace_with}
use rustblocker.Database.Tables.{
  ListType, blocklist, allowlist, list_of, RefreshError, fetch_failed, task_failed, SourceStatus,
  ok_domains, failed, DbSource, Database, Reads,
}
use rustblocker.Database.Sources.{
  update_source_status, Replaced, replaced_with, replace_failed, replace_source_domains,
}

pub record Runtime : Type 0 where
  pub db : Database
  pub block_store : DomainStore
  pub allow_store : DomainStore

-- How the calls of one refresh end: what was fetched, whether the database task runs to its end, has
-- a connection and commits, how the table written is read then, and whether the status is written
-- after a failure; and the time.
pub record Weather : Type 0 where
  pub fetched : Option Bytes
  pub runs : Bool
  pub connects : Bool
  pub commits : Bool
  pub reads : Reads
  pub notes : Bool
  pub now : ℕ

abbrev pub store_of : ListType → Runtime → DomainStore
store_of blocklist r = r.block_store
store_of allowlist r = r.allow_store

abbrev pub install : ListType → DomainStore → Runtime → Runtime
install blocklist s r = record r { block_store = replace_with r.block_store s }
install allowlist s r = record r { allow_store = replace_with r.allow_store s }

unfoldable pub note_failure : Weather → Runtime → DbSource → RefreshError → Runtime × SourceStatus
note_failure w r source error = (
  record r { db = update_source_status w.notes r.db w.now source.id (failed error) },
  failed error,
)

module _ (domain_hash : Bytes → ℕ) where
  unfoldable pub finish_refresh :
      Weather → Runtime → DbSource → Database × Replaced → Runtime × SourceStatus
  finish_refresh w r source (db, replaced_with count store) =
      (install (list_of source.list_type) store (record r { db = db }), ok_domains count)
  finish_refresh w r source (db, replace_failed error) =
      note_failure w (record r { db = db }) source error

  -- What is done with what was fetched, where the database task runs to its end or dies.
  unfoldable pub refresh_fetched :
      Weather → Runtime → DbSource → Bool → Option Bytes → Runtime × SourceStatus
  refresh_fetched w r source runs none = note_failure w r source fetch_failed
  refresh_fetched w r source true (some content) = finish_refresh w r source (
      replace_source_domains domain_hash w.reads w.connects w.commits r.db source.id
        (list_of source.list_type) content w.now)
  refresh_fetched w r source false (some content) = note_failure w r source task_failed

  unfoldable pub refresh_source : Weather → Runtime → DbSource → Runtime × SourceStatus
  refresh_source w r source = refresh_fetched w r source w.runs w.fetched
