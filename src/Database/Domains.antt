-- ===== src/Database/Domains.antt =====
-- Operations of src/db.rs on single domains and imports.
use rustblocker.Base.{
  ℕ, ◌+◌, Bool, not, ◌&&◌, Option, none, some, List, [], ◌∷◌, Bytes, bytes_eq, retain, ◌==◌,
  if◌then◌else◌,
}
use rustblocker.Domain.{normalize_domain, lines, parse_domain_line}
use rustblocker.Store.{DomainStore, empty_store, insert}
use rustblocker.Database.Tables.{
  ListType, same_list, DbDomain, Database, table, with_table, insert_domain, insert_manual,
}

-- The id of the row with this domain.
unfoldable pub id_of : Bytes → List DbDomain → Option ℕ
id_of d [] = none
id_of d (row ∷ rows) = if bytes_eq row.domain d then some row.id else id_of d rows

unfoldable pub domain_by_id : ℕ → List DbDomain → Option Bytes
domain_by_id id [] = none
domain_by_id id (row ∷ rows) = if row.id == id then some row.domain else domain_by_id id rows

-- One connection, one transaction: `commits` is false where any of its steps fails.
unfoldable pub add_domain : Bool → Database → ListType → Bytes → Database × Option ℕ
add_domain commits db t domain =
    let normalized = normalize_domain domain in
    let rows = (insert_domain (table t db) normalized).0 in
    let added = with_table t rows db in
    if commits
    then (
      record added { manual_domains = insert_manual db.manual_domains t normalized },
      id_of normalized rows.rows,
    )
    else (db, none)

abbrev pub keep_other_ids : ℕ → List DbDomain → List DbDomain
keep_other_ids id rows = retain (λ r. not (r.id == id)) rows

abbrev pub drop_manual : ListType → Bytes → List (ListType × Bytes) → List (ListType × Bytes)
drop_manual t d manual = retain (λ p. not (same_list p.0 t && bytes_eq p.1 d)) manual

-- `DELETE FROM … WHERE id = ?1`.
unfoldable pub delete_row : Database → ListType → ℕ → Database
delete_row db t id =
    let old = table t db in with_table t (record old { rows = keep_other_ids id old.rows }) db

-- No transaction: whether the row's deletion and the deletion of the manual entry succeed.
unfoldable pub delete_domain_by_id : Bool → Bool → Database → ListType → ℕ → Database × Option Bytes
delete_domain_by_id deletes forgets db t id = elim (domain_by_id id (table t db).rows) [
  | none ↦ (db, none)
  | some domain ↦
      let smaller = delete_row db t id in
      if deletes
      then (
        (if forgets
            then record smaller { manual_domains = drop_manual t domain db.manual_domains }
            else smaller),
        some domain,
      )
      else (db, none)
]

-- One line of an import: what it writes, and what it adds to the result.
unfoldable pub import_into : ListType → Option Bytes → Database → Database
import_into t none db = db
import_into t (some domain) db =
    let added = with_table t (insert_domain (table t db) domain).0 db in
    record added { manual_domains = insert_manual db.manual_domains t domain }

pub record DomainImportResult : Type 0 where
  pub inserted : ℕ
  pub store : DomainStore

module _ (domain_hash : Bytes → ℕ) where
  unfoldable pub import_count :
      ListType → Option Bytes → Database → DomainImportResult → DomainImportResult
  import_count t none db result = result
  import_count t (some domain) db result = record {
    inserted = result.inserted + (insert_domain (table t db) domain).1;
    store = (insert domain_hash result.store domain).0;
  }

  -- The loop of `insert_domains_from_content`.
  unfoldable pub import_lines :
      ListType → List Bytes → Database → DomainImportResult → Database × DomainImportResult
  import_lines t [] db result = (db, result)
  import_lines t (line ∷ rest) db result =
      import_lines t rest (import_into t (parse_domain_line line) db)
        (import_count t (parse_domain_line line) db result)

  unfoldable pub bulk_import_domains :
      Bool → Database → ListType → Bytes → Database × Option DomainImportResult
  bulk_import_domains commits db t content =
      let r = import_lines t (lines content) db (record { inserted = 0; store = empty_store }) in
      if commits then (r.0, some r.1) else (db, none)
