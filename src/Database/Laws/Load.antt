-- ===== src/Database/Laws/Load.antt =====
-- `load_domain_store_from_conn` and `refresh_source` of src/db.rs: what the stores in memory hold.
use rustblocker.Base.{
  ℕ, ◌≤◌, ◌^◌, ◌≡◌, refl, ap, ◌∙◌, Bool, false, ◌&&◌, ◌||◌, List, [], ◌∷◌, Bytes, arith, any,
  bytes_eq, true, retain, Bool-cases, inl, inr, if◌then◌else◌,
}
use rustblocker.Store.{DomainStore, empty_store, insert}
use rustblocker.Store.Laws.Insert.{same_kind}
use rustblocker.Store.Laws.Model.{
  named, is_listable, Names, Call, inserts, abstract_step, abstract_run, total_cost, step, run,
  Represents, empty_store-Represents, run-Represents,
}
use rustblocker.Database.Tables.{
  ListType, DbDomain, Database, table, Reads, insert_rows, load_domain_store,
}

-- The names of the rows of a table.
abbrev pub row_names : List DbDomain → Names
row_names rows w d =
    any
      (λ r.
        is_listable (named r.domain).1
        && (same_kind (named r.domain).0 w && bytes_eq (named r.domain).1 d))
      rows

-- The rows that the reading of a table yields.
abbrev pub read_rows : Reads → List DbDomain → List DbDomain
read_rows reads rows = if reads.opens then retain reads.row_reads rows else []

retain-all :
    (keep : DbDomain → Bool) (rows : List DbDomain)
    → ((r : DbDomain) → keep r ≡ true)
    → retain keep rows ≡ rows
retain-all keep [] all = refl
retain-all keep (r ∷ rows) all = rw (all r, retain-all keep rows all) refl

-- A reading that succeeds yields all of them.
pub read_rows-all :
    (reads : Reads) (rows : List DbDomain)
    → reads.opens ≡ true
    → ((r : DbDomain) → reads.row_reads r ≡ true)
    → read_rows reads rows ≡ rows
read_rows-all reads rows opens all =
    ap (λ b. if b then retain reads.row_reads rows else []) opens
    ∙ retain-all reads.row_reads rows all

abbrev pub row_calls : List DbDomain → List Call
row_calls [] = []
row_calls (r ∷ rows) = inserts r.domain ∷ row_calls rows

abstract_run-row_calls :
    (rows : List DbDomain) (v : Names) (w : Bool) (d : Bytes)
    → abstract_run v (row_calls rows) w d ≡ (v w d || row_names rows w d)
abstract_run-row_calls [] v w d = ground arith
abstract_run-row_calls (r ∷ rows) v w d =
    abstract_run-row_calls rows (abstract_step v (inserts r.domain)) w d ∙ ground arith

module _ (domain_hash : Bytes → ℕ) where
  insert_rows-run :
      (row_reads : DbDomain → Bool) (rows : List DbDomain) (s : DomainStore)
      → insert_rows domain_hash row_reads s rows
        ≡ run domain_hash s (row_calls (retain row_reads rows))
  unfolding insert_rows run step
  insert_rows-run row_reads [] s = refl
  insert_rows-run row_reads (r ∷ rows) s = elim (Bool-cases (row_reads r)) [
    | inl reads ↦ rw reads (insert_rows-run row_reads rows (insert domain_hash s r.domain).0)
    | inr fails ↦ rw fails (insert_rows-run row_reads rows s)
  ]

  run-row_names :
      (rows : List DbDomain)
      → total_cost (row_calls rows) ≤ 2 ^ 32
      → Represents domain_hash (run domain_hash empty_store (row_calls rows)) (row_names rows)
  run-row_names rows room =
      let p = run-Represents domain_hash (row_calls rows) room in
      record {
        inv = p.inv;
        tidy = p.tidy;
        agrees = λ w d. p.agrees w d ∙ abstract_run-row_calls rows (λ w d. false) w d;
      }

  loaded-Represents :
      (opens : Bool) (row_reads : DbDomain → Bool) (rows : List DbDomain)
      → total_cost (row_calls (if opens then retain row_reads rows else [])) ≤ 2 ^ 32
      → Represents domain_hash
          (if opens then insert_rows domain_hash row_reads empty_store rows else empty_store)
          (row_names (if opens then retain row_reads rows else []))
  loaded-Represents true row_reads rows room =
      rw (insert_rows-run row_reads rows empty_store) (run-row_names (retain row_reads rows) room)
  loaded-Represents false row_reads rows room = empty_store-Represents domain_hash

  -- The store loaded from a table is sound and tidy, and holds exactly the names of the rows that are
  -- read, if these take at most 2^32 bytes: of each row its kind and text, if its text has 1 to 65535
  -- bytes. Where the table is not read at all, the store is empty.
  pub load_domain_store-Represents :
      (reads : Reads) (t : ListType) (db : Database)
      → total_cost (row_calls (read_rows reads (table t db).rows)) ≤ 2 ^ 32
      → Represents domain_hash
          (load_domain_store domain_hash reads t db)
          (row_names (read_rows reads (table t db).rows))
  unfolding load_domain_store
  load_domain_store-Represents reads t db =
      loaded-Represents reads.opens reads.row_reads (table t db).rows
