-- ===== src/Database/Tables.antt =====
-- The tables of src/db.rs (`init_schema`) and the statements that its operations share.
use rustblocker.Base.{
  ℕ, suc, Bool, true, false, ◌&&◌, Option, List, [], ◌∷◌, ◌++◌, Bytes, codes, bytes_eq, any, ◌==◌,
  if◌then◌else◌,
}
use rustblocker.Store.{DomainStore, empty_store, insert}

-- `"allowlist_domains"`, and all else.
pub data ListType : Type 0 where
  blocklist allowlist : ListType

-- `match list_type { "allowlist" => …, _ => … }`.
unfoldable pub list_of : Bytes → ListType
list_of text = if bytes_eq text (codes "allowlist") then allowlist else blocklist

abbrev pub same_list : ListType → ListType → Bool
same_list blocklist blocklist = true
same_list allowlist allowlist = true
same_list _ _ = false

pub record DbDomain : Type 0 where
  pub id : ℕ
  pub domain : Bytes

-- Rows in the order of their ids, and the next id (AUTOINCREMENT).
pub record DomainTable : Type 0 where
  pub rows : List DbDomain
  pub next_id : ℕ

-- What the last refresh of a source came to; the source stores it as a text.
pub data RefreshError : Type 0 where
  fetch_failed no_connection task_failed statement_failed : RefreshError
  too_few : ℕ → RefreshError
  would_shrink : ℕ → ℕ → RefreshError

pub data SourceStatus : Type 0 where
  ok_domains : ℕ → SourceStatus
  failed : RefreshError → SourceStatus

-- Times are seconds, and an interval is not negative.
pub record DbSource : Type 0 where
  pub id : ℕ
  pub url : Bytes
  pub list_type : Bytes
  pub enabled : Bool
  pub update_interval_hours : ℕ
  pub last_updated : Option ℕ
  pub last_status : Option SourceStatus

pub record DbUpstream : Type 0 where
  pub id : ℕ
  pub address : Bytes
  pub port : ℕ

pub record DbRewrite : Type 0 where
  pub id : ℕ
  pub domain : Bytes
  pub ipv4 : Option Bytes
  pub ipv6 : Option Bytes

pub record Database : Type 0 where
  pub settings : List (Bytes × Bytes)
  pub upstreams : List DbUpstream
  pub next_upstream : ℕ
  pub rewrites : List DbRewrite
  pub next_rewrite : ℕ
  pub blocklist_domains : DomainTable
  pub allowlist_domains : DomainTable
  pub sources : List DbSource
  pub next_source : ℕ
  -- Which source owns which domain, and which domains were added by hand.
  pub source_domains : List (ℕ × Bytes)
  pub manual_domains : List (ListType × Bytes)

abbrev pub table : ListType → Database → DomainTable
table blocklist db = db.blocklist_domains
table allowlist db = db.allowlist_domains

abbrev pub with_table : ListType → DomainTable → Database → Database
with_table blocklist t db = record db { blocklist_domains = t }
with_table allowlist t db = record db { allowlist_domains = t }

-- The tests that statements make: `WHERE domain = ?1`, and the like.
abbrev pub has_domain : Bytes → List DbDomain → Bool
has_domain d rows = any (λ r. bytes_eq r.domain d) rows

abbrev pub has_text : Bytes → List Bytes → Bool
has_text d texts = any (λ e. bytes_eq e d) texts

abbrev pub owns : ℕ → Bytes → List (ℕ × Bytes) → Bool
owns id d owned = any (λ p. p.0 == id && bytes_eq p.1 d) owned

abbrev pub has_owner : Bytes → List (ℕ × Bytes) → Bool
has_owner d owned = any (λ p. bytes_eq p.1 d) owned

abbrev pub is_manual : ListType → Bytes → List (ListType × Bytes) → Bool
is_manual t d manual = any (λ p. same_list p.0 t && bytes_eq p.1 d) manual

-- `INSERT OR IGNORE INTO … (domain) VALUES (?1)`: the table and the number of rows inserted.
unfoldable pub insert_domain : DomainTable → Bytes → DomainTable × ℕ
insert_domain t d = if has_domain d t.rows then (t, 0) else (
  record { rows = t.rows ++ record { id = t.next_id; domain = d } ∷ []; next_id = suc t.next_id },
  1,
)

-- `INSERT OR IGNORE INTO manual_domains`.
unfoldable pub insert_manual : List (ListType × Bytes) → ListType → Bytes → List (ListType × Bytes)
insert_manual manual t d = if is_manual t d manual then manual else (t, d) ∷ manual

-- `INSERT OR IGNORE INTO source_domains`.
unfoldable pub insert_owned : List (ℕ × Bytes) → ℕ → Bytes → List (ℕ × Bytes)
insert_owned owned id d = if owns id d owned then owned else (id, d) ∷ owned

-- How the reading of a table goes: whether the statement is prepared and run, and which of its rows can
-- be read.
pub record Reads : Type 0 where
  pub opens : Bool
  pub row_reads : DbDomain → Bool

-- `load_domain_store_from_conn`: a fresh store with the rows that are read. A statement that fails
-- leaves the store empty, and a row that fails is left out; neither is reported.
module _ (domain_hash : Bytes → ℕ) where
  unfoldable pub insert_rows : (DbDomain → Bool) → DomainStore → List DbDomain → DomainStore
  insert_rows row_reads store [] = store
  insert_rows row_reads store (row ∷ rows) =
      insert_rows row_reads
        (if row_reads row then (insert domain_hash store row.domain).0 else store) rows

  unfoldable pub load_domain_store : Reads → ListType → Database → DomainStore
  load_domain_store reads t db =
      if reads.opens then insert_rows reads.row_reads empty_store (table t db).rows else empty_store
