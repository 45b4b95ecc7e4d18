-- ===== src/Api/Lists.antt =====
-- The handlers of src/api.rs for the domains of a list and for sources.
use rustblocker.Base.{
  ℕ, ◌+◌, true, ◌&&◌, Option, none, some, List, [], ◌∷◌, Bytes, codes, is_empty, retain,
  if◌then◌else◌,
}
use rustblocker.Store.{DomainStore, insert, remove_domain, merge}
use rustblocker.Database.Tables.{ListType, blocklist, allowlist, list_of, DbSource, Database}
use rustblocker.Database.Domains.{
  DomainImportResult, add_domain, delete_domain_by_id, bulk_import_domains,
}
use rustblocker.Database.Sources.{add_source, delete_source_with_cleanup, source_by_id}
use rustblocker.Database.Refresh.{Runtime, store_of, install, refresh_source}
use rustblocker.Sync.Apply.{World, Node}
use rustblocker.Api.{
  Response, server_error, bad_request, not_found, changed, created, imported, refreshed_all,
  ApiWeather,
}

-- A store changed in place.
abbrev pub set_store : ListType → DomainStore → Runtime → Runtime
set_store blocklist store r = record r { block_store = store }
set_store allowlist store r = record r { allow_store = store }

module _ (world : World) where
  unfoldable pub added : Node → ListType → Bytes → Database × Option ℕ → Node × Response
  added n t domain (db, none) = (n, server_error)
  added n t domain (db, some id) =
      let runtime = record n.runtime { db = db } in
      (
        record n {
          runtime = set_store t (insert world.domain_hash (store_of t n.runtime) domain).0 runtime;
        },
        created id,
      )

  -- `add_blocklist_domain` and `add_allowlist_domain`.
  unfoldable pub add_list_domain : ApiWeather → ListType → Bytes → Node → Node × Response
  add_list_domain w t domain n =
      added n t domain (add_domain (w.runs && w.commits) n.runtime.db t domain)

  unfoldable pub deleted : Node → ListType → Database × Option Bytes → Node × Response
  deleted n t (db, none) = (record n { runtime = record n.runtime { db = db } }, not_found)
  deleted n t (db, some domain) =
      let runtime = record n.runtime { db = db } in
      (
        record n {
          runtime =
              set_store t (remove_domain world.domain_hash (store_of t n.runtime) domain) runtime;
        },
        changed,
      )

  unfoldable pub delete_list_domain : ApiWeather → ListType → ℕ → Node → Node × Response
  delete_list_domain w t id n =
      let done = deleted n t (delete_domain_by_id w.deletes w.forgets n.runtime.db t id) in
      if w.runs then done else (n, server_error)

  unfoldable pub import_done :
      Node → ListType → Database × Option DomainImportResult → Node × Response
  import_done n t (db, none) = (n, server_error)
  import_done n t (db, some result) =
      let runtime = record n.runtime { db = db } in
      (
        record n {
          runtime =
              set_store t (merge world.domain_hash (store_of t n.runtime) result.store) runtime;
        },
        imported result.inserted,
      )

  -- `bulk_import_blocklist` and `bulk_import_allowlist`.
  unfoldable pub import_content : ApiWeather → ListType → Option Bytes → Node → Node × Response
  import_content w t none n = (n, bad_request)
  import_content w t (some content) n =
      let done =
        import_done n t
          (bulk_import_domains world.domain_hash (w.runs && w.commits) n.runtime.db t content) in
      if is_empty content then (n, bad_request) else done

  unfoldable pub bulk_import : ApiWeather → ListType → Node → Node × Response
  bulk_import w t n = import_content w t w.content n

  unfoldable pub refresh_node : ApiWeather → DbSource → Node → Node
  refresh_node w source n = record n {
    runtime = (refresh_source world.domain_hash (w.refresh source.id) n.runtime source).0;
  }

  -- `add_source` of the API: the row, and the first refresh.
  unfoldable pub add_source_request :
      ApiWeather → Bytes → Option Bytes → Option ℕ → Node → Node × Response
  add_source_request w url list_type interval n =
      let list_text : Bytes = elim list_type [ none ↦ codes "blocklist" | some text ↦ text ] in
      let hours : ℕ = elim interval [ none ↦ 24 | some hours ↦ hours ] in
      let r = add_source w.selects n.runtime.db url list_text hours in
      let source : DbSource = record {
        id = r.1;
        url = url;
        list_type = list_text;
        enabled = true;
        update_interval_hours = hours;
        last_updated = none;
        last_status = none;
      } in
      if w.runs && w.commits
      then (
        refresh_node w source (record n { runtime = record n.runtime { db = r.0 } }),
        created r.1,
      )
      else (n, server_error)

  unfoldable pub source_deleted : Node → Database × Option (Bytes × DomainStore) → Node × Response
  source_deleted n (db, none) = (record n { runtime = record n.runtime { db = db } }, not_found)
  source_deleted n (db, some (list_type, rebuilt)) = (
    record n { runtime = install (list_of list_type) rebuilt (record n.runtime { db = db }) },
    changed,
  )

  unfoldable pub delete_source_request : ApiWeather → ℕ → Node → Node × Response
  delete_source_request w id n =
      let done = source_deleted n (
        delete_source_with_cleanup world.domain_hash w.reads w.cleanup w.commits n.runtime.db id) in
      if w.runs then done else (n, server_error)

  -- The loop of `refresh_all_sources`: the enabled sources that are read, as they were when it began.
  unfoldable pub refresh_each : ApiWeather → List DbSource → ℕ → Node → Node × Response
  refresh_each w [] count n = (n, refreshed_all count)
  refresh_each w (source ∷ rest) count n =
      if source.enabled
      then refresh_each w rest (count + 1) (refresh_node w source n)
      else refresh_each w rest count n

  unfoldable pub refresh_all_sources : ApiWeather → Node → Node × Response
  refresh_all_sources w n =
      if w.runs && w.commits
      then refresh_each w (retain w.row_reads n.runtime.db.sources) 0 n
      else (n, server_error)

  unfoldable pub refresh_found : ApiWeather → Option DbSource → Node → Node × Response
  refresh_found w none n = (n, not_found)
  refresh_found w (some source) n = (refresh_node w source n, changed)

  unfoldable pub refresh_one_source : ApiWeather → ℕ → Node → Node × Response
  refresh_one_source w id n =
      let found = if w.selects then source_by_id id n.runtime.db.sources else none in
      if w.runs then refresh_found w found n else (n, server_error)
