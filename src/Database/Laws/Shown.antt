-- ===== src/Database/Laws/Shown.antt =====
-- The stores in memory against the tables of src/db.rs, over a refresh.
use rustblocker.Base.{ℕ, ◌≤◌, ◌^◌, ◌≡◌, refl, sym, ap, subst, ◌∙◌, Bool, true, false, Bytes}
use rustblocker.Store.Laws.Model.{total_cost, Represents}
use rustblocker.Database.Tables.{
  ListType, DbDomain, blocklist, allowlist, list_of, DbSource, Database, table, load_domain_store,
  SourceStatus, ok_domains, failed,
}
use rustblocker.Database.Sources.{update_source_status}
use rustblocker.Database.Refresh.{Runtime, Weather, store_of, refresh_source}
use rustblocker.Database.Laws.Rows.{other}
use rustblocker.Database.Laws.Load.{
  row_names, row_calls, read_rows-all, load_domain_store-Represents,
}
use rustblocker.Database.Laws.Refreshed.{IsRefreshed, refresh_source-IsRefreshed}

module _ (domain_hash : Bytes → ℕ) where
  -- The store of a list holds exactly the names of its table.
  abbrev pub Shows : Runtime → ListType → Type 0
  Shows r t = Represents domain_hash (store_of t r) (row_names (table t r.db).rows)

  -- Both stores do.
  abbrev pub IsShown : Runtime → Type 0
  IsShown r = (t : ListType) → Shows r t

  both_lists : (r : Runtime) (t : ListType) → Shows r t → Shows r (other t) → IsShown r
  both_lists r blocklist h k blocklist = h
  both_lists r blocklist h k allowlist = k
  both_lists r allowlist h k blocklist = k
  both_lists r allowlist h k allowlist = h

  Shows-same :
      (r next : Runtime) (t : ListType)
      → store_of t next ≡ store_of t r
      → table t next.db ≡ table t r.db
      → Shows r t
      → Shows next t
  Shows-same r next t e k h =
      subst (λ s. Represents domain_hash s (row_names (table t next.db).rows)) (sym e)
        (subst (λ x. Represents domain_hash (store_of t r) (row_names x.rows)) (sym k) h)

  table-update_source_status :
      (t : ListType) (notes : Bool) (db : Database) (now id : ℕ) (status : SourceStatus)
      → table t (update_source_status notes db now id status) ≡ table t db
  unfolding update_source_status
  table-update_source_status blocklist true db now id status = refl
  table-update_source_status allowlist true db now id status = refl
  table-update_source_status t false db now id status = refl

  store_of-same :
      (r next : Runtime) (t : ListType)
      → next.block_store ≡ r.block_store
      → next.allow_store ≡ r.allow_store
      → store_of t next ≡ store_of t r
  store_of-same r next blocklist h k = h
  store_of-same r next allowlist h k = k

  module _ (w : Weather) (r : Runtime) (source : DbSource) (opens : w.reads.opens ≡ true)
      (all_read : (d : DbDomain) → w.reads.row_reads d ≡ true) where
    loaded-Represents :
        (t : ListType) (db : Database)
        → total_cost (row_calls (table t db).rows) ≤ 2 ^ 32
        → Represents domain_hash
            (load_domain_store domain_hash w.reads t db)
            (row_names (table t db).rows)
    loaded-Represents t db room =
        let same = read_rows-all w.reads (table t db).rows opens all_read in
        subst
          (λ rows.
            Represents domain_hash (load_domain_store domain_hash w.reads t db) (row_names rows))
          same
          (load_domain_store-Represents domain_hash w.reads t db
            (subst (λ rows. total_cost (row_calls rows) ≤ 2 ^ 32) (sym same) room))

    outcome-IsShown :
        (o : Runtime × SourceStatus)
        → IsRefreshed domain_hash w r source o
        → IsShown r
        → total_cost (row_calls (table (list_of source.list_type) o.0.db).rows) ≤ 2 ^ 32
        → IsShown o.0
    outcome-IsShown (next, ok_domains n) (content, ds, _, _, _, written, loaded, kept) shown room =
        let t = list_of source.list_type in
        both_lists next t
          (subst (λ s. Represents domain_hash s (row_names (table t next.db).rows)) (sym loaded)
            (loaded-Represents t next.db room))
          (Shows-same r next (other t) kept written.other_rows (shown (other t)))
    outcome-IsShown (next, failed error) (block, allow, noted) shown room = λ t.
        Shows-same r next t (store_of-same r next t block allow)
          (ap (table t) noted
            ∙ table-update_source_status t w.notes r.db w.now source.id (failed error))
          (shown t)

    -- If both stores in memory hold exactly the names of their tables, they do so after a refresh,
    -- whether it succeeds or fails, provided that the reading from which a store is loaded opens the
    -- table and reads every row, and that the table of its list then takes at most 2^32 bytes.
    pub refresh_source-IsShown :
        IsShown r
        → total_cost (
            row_calls
              (table (list_of source.list_type) (refresh_source domain_hash w r source).0.db).rows)
          ≤ 2 ^ 32
        → IsShown (refresh_source domain_hash w r source).0
    refresh_source-IsShown =
        outcome-IsShown (refresh_source domain_hash w r source)
          (refresh_source-IsRefreshed domain_hash w r source)
