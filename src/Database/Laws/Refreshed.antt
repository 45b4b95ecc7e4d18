-- ===== src/Database/Laws/Refreshed.antt =====
-- `refresh_source` of src/db.rs: the tables and the stores in memory together.
use rustblocker.Base.{
  ℕ, ◌≡◌, refl, sym, ap, subst, ◌∙◌, Bool, true, false, Option, none, some, List, Bytes, length,
}
use rustblocker.Store.{DomainStore, replace_with}
use rustblocker.Database.Tables.{
  ListType, blocklist, allowlist, list_of, RefreshError, fetch_failed, task_failed, no_connection,
  statement_failed, too_few, would_shrink, SourceStatus, ok_domains, failed, DbSource, Database,
  load_domain_store,
}
use rustblocker.Database.Sources.{
  domains, parse_source_domains, Replaced, replaced_with, replace_failed, replace_source_domains,
  update_source_status,
}
use rustblocker.Database.Refresh.{
  Runtime, Weather, store_of, install, note_failure, finish_refresh, refresh_fetched,
  refresh_source,
}
use rustblocker.Database.Laws.Rows.{other}
use rustblocker.Database.Laws.Replace.{IsReplaced, IsRefresh, replace_source_domains-IsRefresh}

install-store_of :
    (t : ListType) (s : DomainStore) (r : Runtime)
    → ((install t s r).db ≡ r.db)
      × (store_of t (install t s r) ≡ s)
      × (store_of (other t) (install t s r) ≡ store_of (other t) r)
unfolding replace_with
install-store_of blocklist s r = (refl, refl, refl)
install-store_of allowlist s r = (refl, refl, refl)

module _ (domain_hash : Bytes → ℕ) (w : Weather) (r : Runtime) (source : DbSource) where
  -- The database is written as by the replacement, and the store of the list is the one loaded from
  -- the table written, with the rows that are read then; the other store stays.
  abbrev pub Succeeded : Runtime → ℕ → Type 0
  Succeeded next n =
      (content : Bytes) × (ds : List Bytes) × (w.fetched ≡ some content)
      × (parse_source_domains content ≡ domains ds)
      × (n ≡ length ds)
      × IsReplaced r.db source.id (list_of source.list_type) ds w.now next.db
      × (store_of (list_of source.list_type) next
          ≡ load_domain_store domain_hash w.reads (list_of source.list_type) next.db)
      × (store_of (other (list_of source.list_type)) next
          ≡ store_of (other (list_of source.list_type)) r)

  -- Both stores stay, and of the database at most the status of the source changes.
  abbrev pub Failed : Runtime → RefreshError → Type 0
  Failed next error =
      (next.block_store ≡ r.block_store)
      × (next.allow_store ≡ r.allow_store)
      × (next.db ≡ update_source_status w.notes r.db w.now source.id (failed error))

  abbrev pub IsRefreshed : Runtime × SourceStatus → Type 0
  IsRefreshed (next, ok_domains n) = Succeeded next n
  IsRefreshed (next, failed error) = Failed next error

  kept_db :
      (t : ListType) (next : Database)
      → store_of (other t) (record r { db = next }) ≡ store_of (other t) r
  kept_db blocklist next = refl
  kept_db allowlist next = refl

  finish_refresh-IsRefreshed :
      (content : Bytes) (o : Database × Replaced)
      → w.fetched ≡ some content
      → IsRefresh domain_hash w.reads r.db source.id (list_of source.list_type) content w.now o
      → IsRefreshed (finish_refresh domain_hash w r source o)
  unfolding finish_refresh note_failure replace_with
  finish_refresh-IsRefreshed content (next, replaced_with n store) e h =
      let (ds, parsed, count, _, _, written, loaded) = h in
      let t = list_of source.list_type in
      let (same, shown, kept) = install-store_of t store (record r { db = next }) in
      (
        content,
        ds,
        e,
        parsed,
        count,
        subst (λ x. IsReplaced r.db source.id t ds w.now x) (sym same) written,
        shown ∙ loaded ∙ ap (load_domain_store domain_hash w.reads t) (sym same),
        kept ∙ kept_db t next,
      )
  finish_refresh-IsRefreshed content (next, replace_failed (would_shrink a b)) e h =
      (refl, refl, rw (h.0) refl)
  finish_refresh-IsRefreshed content (next, replace_failed (too_few a)) e h =
      (refl, refl, rw (h.0) refl)
  finish_refresh-IsRefreshed content (next, replace_failed fetch_failed) e h = absurd h
  finish_refresh-IsRefreshed content (next, replace_failed task_failed) e h = absurd h
  finish_refresh-IsRefreshed content (next, replace_failed no_connection) e h =
      (refl, refl, rw h refl)
  finish_refresh-IsRefreshed content (next, replace_failed statement_failed) e h =
      (refl, refl, rw h refl)

  refresh_fetched-IsRefreshed :
      (runs : Bool) (o : Option Bytes)
      → w.fetched ≡ o
      → IsRefreshed (refresh_fetched domain_hash w r source runs o)
  unfolding refresh_fetched note_failure
  refresh_fetched-IsRefreshed runs none e = (refl, refl, refl)
  refresh_fetched-IsRefreshed false (some content) e = (refl, refl, refl)
  refresh_fetched-IsRefreshed true (some content) e =
      finish_refresh-IsRefreshed content
        (replace_source_domains domain_hash w.reads w.connects w.commits r.db source.id
          (list_of source.list_type) content w.now)
        e
        (replace_source_domains-IsRefresh domain_hash w.reads r.db source.id
          (list_of source.list_type) content w.now w.connects w.commits)

  -- A refresh that succeeds writes the usable domains of what was fetched as those of the source, and
  -- the store of its list is the one loaded from the table written, by a reading whose failures are
  -- not reported, while the other list stays. One that fails, for whatever reason, leaves both stores and the database as they were, but for the
  -- status of the source.
  pub refresh_source-IsRefreshed : IsRefreshed (refresh_source domain_hash w r source)
  unfolding refresh_source
  refresh_source-IsRefreshed = refresh_fetched-IsRefreshed w.runs w.fetched refl
