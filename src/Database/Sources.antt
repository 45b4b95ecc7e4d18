-- ===== src/Database/Sources.antt =====
-- Sources of src/db.rs: their rows, what they own, and how a new list of domains replaces the old.
use rustblocker.Base.{
  ℕ, suc, ◌+◌, ◌*◌, Bool, true, false, not, ◌&&◌, ◌||◌, Option, none, some, List, [], ◌∷◌, ◌++◌,
  Bytes, bytes_eq, retain, length, ltb, leb, ◌==◌, if◌then◌else◌, u64_mul,
}
use rustblocker.Domain.{lines, parse_domain_line}
use rustblocker.Store.{DomainStore}
use rustblocker.Database.Tables.{
  ListType, list_of, RefreshError, no_connection, statement_failed, too_few, would_shrink,
  SourceStatus, ok_domains, DbSource, DomainTable, Database, table, with_table, owns, has_owner,
  is_manual, insert_domain, insert_owned, load_domain_store, Reads,
}

abbrev pub min_source_domains : ℕ
min_source_domains = 10

abbrev pub min_source_retained_percent : ℕ
min_source_retained_percent = 10

-- The order of `str`: byte by byte, a front part first.
unfoldable pub bytes_le : Bytes → Bytes → Bool
bytes_le [] t = true
bytes_le (a ∷ s) [] = false
bytes_le (a ∷ s) (b ∷ t) =
    let rest = bytes_le s t in if ltb a b then true else if a == b then rest else false

-- `sort_unstable`: equal texts cannot be told apart, so that every sort gives this list.
unfoldable pub insert_sorted : Bytes → List Bytes → List Bytes
insert_sorted d [] = d ∷ []
insert_sorted d (e ∷ rest) =
    let later = e ∷ insert_sorted d rest in if bytes_le d e then d ∷ e ∷ rest else later

unfoldable pub sort : List Bytes → List Bytes
sort [] = []
sort (d ∷ rest) = insert_sorted d (sort rest)

-- `dedup`: of neighbours that are equal the first stays.
unfoldable pub dedup_after : Bytes → List Bytes → List Bytes
dedup_after d [] = []
dedup_after d (e ∷ rest) =
    let others = e ∷ dedup_after e rest in
    let same = dedup_after d rest in if bytes_eq d e then same else others

unfoldable pub dedup : List Bytes → List Bytes
unfolding dedup_after
dedup [] = []
dedup (d ∷ rest) = d ∷ dedup_after d rest

unfoldable pub parsed_lines : List Bytes → List Bytes
parsed_lines [] = []
parsed_lines (line ∷ rest) = elim (parse_domain_line line) [
  | none ↦ parsed_lines rest
  | some domain ↦ domain ∷ parsed_lines rest
]

pub data Parsed : Type 0 where
  domains : List Bytes → Parsed
  suspicious : RefreshError → Parsed

unfoldable pub parse_source_domains : Bytes → Parsed
parse_source_domains content =
    let found = dedup (sort (parsed_lines (lines content))) in
    if ltb (length found) min_source_domains
    then suspicious (too_few (length found))
    else domains found

abbrev pub source_count : ℕ → List (ℕ × Bytes) → ℕ
source_count id owned = length (retain (λ p. p.0 == id) owned)

-- `DELETE FROM source_domains WHERE source_id = ?1`.
abbrev pub disown : ℕ → List (ℕ × Bytes) → List (ℕ × Bytes)
disown id owned = retain (λ p. not (p.0 == id)) owned

unfoldable pub own_all : ℕ → List Bytes → List (ℕ × Bytes) → List (ℕ × Bytes)
own_all id [] owned = owned
own_all id (d ∷ rest) owned = own_all id rest (insert_owned owned id d)

unfoldable pub insert_all : List Bytes → DomainTable → DomainTable
insert_all [] t = t
insert_all (d ∷ rest) t = insert_all rest (insert_domain t d).0

-- The set-based prune: rows that the temporary table lists, that no source owns now, and that were not
-- added by hand.
unfoldable pub prune :
    ListType
    → (Bytes → Bool)
    → List (ℕ × Bytes)
    → List (ListType × Bytes)
    → DomainTable
    → DomainTable
prune t listed owned manual rows = record rows {
  rows =
      retain
        (λ r. not (
          listed r.domain && (not (has_owner r.domain owned) && not (is_manual t r.domain manual))))
        rows.rows;
}

-- `UPDATE sources SET last_updated = datetime('now'), last_status = ?1 WHERE id = ?2`.
unfoldable pub set_status : ℕ → ℕ → SourceStatus → List DbSource → List DbSource
set_status now id status [] = []
set_status now id status (s ∷ rest) =
    (if s.id == id then record s { last_updated = some now; last_status = some status } else s)
    ∷ set_status now id status rest

unfoldable pub update_source_status : Bool → Database → ℕ → ℕ → SourceStatus → Database
update_source_status commits db now id status =
    if commits then record db { sources = set_status now id status db.sources } else db

-- What the transaction of `replace_source_domains` writes.
unfoldable pub replaced : Database → ℕ → ListType → List Bytes → ℕ → Database
replaced db id t found now =
    let owned = own_all id found (disown id db.source_domains) in
    let rows =
      prune t (λ d. owns id d db.source_domains) owned db.manual_domains
        (insert_all found (table t db)) in
    let next = with_table t rows db in
    record next {
      source_domains = owned;
      sources = set_status now id (ok_domains (length found)) db.sources;
    }

pub data Replaced : Type 0 where
  replaced_with : ℕ → DomainStore → Replaced
  replace_failed : RefreshError → Replaced

unfoldable pub source_by_id : ℕ → List DbSource → Option DbSource
source_by_id id [] = none
source_by_id id (s ∷ rest) = if s.id == id then some s else source_by_id id rest

-- The failures of `delete_source_with_cleanup` that its code ignores: what the temporary table keeps of
-- an earlier call if it is not emptied, which of the owned domains are read and noted there, and
-- whether the prune succeeds.
pub record Cleanup : Type 0 where
  pub leftover : Bytes → Bool
  pub notes : Bytes → Bool
  pub prunes : Bool

-- What the temporary table lists.
abbrev pub is_listed : Cleanup → ℕ → List (ℕ × Bytes) → Bytes → Bool
is_listed c id before d = c.leftover d || (owns id d before && c.notes d)

-- What the transaction of `delete_source_with_cleanup` writes.
unfoldable pub without_source : Cleanup → Database → ℕ → ListType → Database
without_source c db id t =
    let owned = disown id db.source_domains in
    let rows = prune t (is_listed c id db.source_domains) owned db.manual_domains (table t db) in
    let next = with_table t (if c.prunes then rows else table t db) db in
    record next { source_domains = owned; sources = retain (λ s. not (s.id == id)) db.sources }

module _ (domain_hash : Bytes → ℕ) where
  -- The guard on a list that shrinks, then the transaction, and the reading of the table behind it.
  unfoldable pub replace_found :
      Reads → Bool → Database → ℕ → ListType → List Bytes → ℕ → Database × Replaced
  replace_found reads commits db id t found now =
      let previous = source_count id db.source_domains in
      let next = replaced db id t found now in
      if leb 10 previous
        && ltb (u64_mul (length found) 100) (u64_mul previous min_source_retained_percent)
      then (db, replace_failed (would_shrink (length found) previous))
      else if commits
      then (next, replaced_with (length found) (load_domain_store domain_hash reads t next))
      else (db, replace_failed statement_failed)

  -- Whether the pool has a connection, whether the transaction commits, and how the table is read then.
  unfoldable pub replace_source_domains :
      Reads → Bool → Bool → Database → ℕ → ListType → Bytes → ℕ → Database × Replaced
  replace_source_domains reads connects commits db id t content now =
      if connects
      then elim (parse_source_domains content) [
        | suspicious error ↦ (db, replace_failed error)
        | domains found ↦ replace_found reads commits db id t found now
      ]
      else (db, replace_failed no_connection)

  unfoldable pub delete_source_with_cleanup :
      Reads → Cleanup → Bool → Database → ℕ → Database × Option (Bytes × DomainStore)
  delete_source_with_cleanup reads c commits db id = elim (source_by_id id db.sources) [
    | none ↦ (db, none)
    | some source ↦
        let t = list_of source.list_type in
        let next = without_source c db id t in
        if commits
        then (next, some (source.list_type, load_domain_store domain_hash reads t next))
        else (db, none)
  ]

-- The id of the row with the url.
unfoldable pub source_by_url : Bytes → List DbSource → Option ℕ
source_by_url url [] = none
source_by_url url (s ∷ rest) = if bytes_eq s.url url then some s.id else source_by_url url rest

-- `INSERT OR IGNORE INTO sources`, and the id that is selected for the url; 0 if that fails.
unfoldable pub add_source : Bool → Database → Bytes → Bytes → ℕ → Database × ℕ
add_source selects db url list_type interval_hours =
    let row : DbSource = record {
      id = db.next_source;
      url = url;
      list_type = list_type;
      enabled = true;
      update_interval_hours = interval_hours;
      last_updated = none;
      last_status = none;
    } in
    elim (source_by_url url db.sources) [
      | some id ↦ (db, if selects then id else 0)
      | none ↦ (
        record db { sources = db.sources ++ row ∷ []; next_source = suc db.next_source },
        if selects then db.next_source else 0,
      )
    ]

is_late : ℕ → ℕ → Option ℕ → Bool
is_late now hours none = true
is_late now hours (some t) = leb (t + hours * 3600) now

-- `get_stale_sources`: the enabled sources that were never updated, or not for their interval.
unfoldable pub is_stale : ℕ → DbSource → Bool
unfolding is_late
is_stale now s = s.enabled && is_late now s.update_interval_hours s.last_updated

-- A row that cannot be read is left out.
unfoldable pub get_stale_sources : (DbSource → Bool) → Database → ℕ → List DbSource
get_stale_sources row_reads db now = retain (λ s. is_stale now s && row_reads s) db.sources
