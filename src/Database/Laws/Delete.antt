-- ===== src/Database/Laws/Delete.antt =====
-- What `delete_source_with_cleanup` of src/db.rs writes.
use rustblocker.Base.{
  ℕ, ◌≡◌, refl, ◌∙◌, ◌⊎◌, Bool, true, false, not, ◌&&◌, ◌||◌, Option, none, some, Bytes, arith,
  retain, ◌==◌, if◌then◌else◌, Bool-cases, Option-cases, inl, inr,
}
use rustblocker.Store.{DomainStore}
use rustblocker.Database.Tables.{
  ListType, blocklist, allowlist, list_of, Database, DbSource, table, has_domain, owns, has_owner,
  is_manual, Reads, load_domain_store,
}
use rustblocker.Database.Sources.{
  disown, prune, Cleanup, is_listed, source_by_id, without_source, delete_source_with_cleanup,
}
use rustblocker.Database.Laws.Rows.{owns-disown, has_domain-prune, other}

-- After a deletion the source owns nothing, and others what they owned. If the prune succeeds, those
-- rows of its table go that the temporary table lists, that no other source of any list owns, and that
-- were not added by hand; else all of them stay. The temporary table lists what the source owned, less
-- what was not read or noted, and what an earlier call left there if it is not emptied.
pub record IsDeleted (c : Cleanup) (db : Database) (id : ℕ) (t : ListType) (next : Database)
    : Type 0 where
  pub owned :
      (i : ℕ) (d : Bytes)
      → owns i d next.source_domains ≡ (owns i d db.source_domains && not (id == i))
  pub rows :
      (d : Bytes)
      → has_domain d (table t next).rows ≡ (
          has_domain d (table t db).rows
          && (not (c.prunes && (c.leftover d || (owns id d db.source_domains && c.notes d)))
              || (has_owner d (disown id db.source_domains) || is_manual t d db.manual_domains)))
  pub other_rows : table (other t) next ≡ table (other t) db
  pub manual_same : next.manual_domains ≡ db.manual_domains
  pub gone : next.sources ≡ retain (λ s. not (s.id == id)) db.sources

module _ (c : Cleanup) (db : Database) (id : ℕ) where
  rows_left :
      (b : Bool) (t : ListType) (d : Bytes)
      → has_domain d
          (if b
            then prune t
                (is_listed c id db.source_domains)
                (disown id db.source_domains)
                db.manual_domains
                (table t db)
            else table t db).rows
        ≡ (has_domain d (table t db).rows
            && (not (b && is_listed c id db.source_domains d)
                || (has_owner d (disown id db.source_domains) || is_manual t d db.manual_domains)))
  rows_left true t d =
      has_domain-prune t (is_listed c id db.source_domains) (disown id db.source_domains)
        db.manual_domains (table t db) d
      ∙ ground arith
  rows_left false t d = ground arith

  without_source-IsDeleted : (t : ListType) → IsDeleted c db id t (without_source c db id t)
  unfolding without_source
  without_source-IsDeleted blocklist = record {
    owned = λ i d. owns-disown i id d db.source_domains;
    rows = rows_left c.prunes blocklist;
    other_rows = refl;
    manual_same = refl;
    gone = refl;
  }
  without_source-IsDeleted allowlist = record {
    owned = λ i d. owns-disown i id d db.source_domains;
    rows = rows_left c.prunes allowlist;
    other_rows = refl;
    manual_same = refl;
    gone = refl;
  }

  module _ (domain_hash : Bytes → ℕ) (reads : Reads) where
    abbrev pub IsDeletion : Bool → Database × Option (Bytes × DomainStore) → Type 0
    IsDeletion commits (next, none) =
        (next ≡ db) × ((source_by_id id db.sources ≡ none) ⊎ (commits ≡ false))
    IsDeletion commits (next, some (list_type, store)) =
        (source : DbSource) × (source_by_id id db.sources ≡ some source)
        × (list_type ≡ source.list_type)
        × IsDeleted c db id (list_of source.list_type) next
        × (store ≡ load_domain_store domain_hash reads (list_of source.list_type) next)

    -- Whatever becomes of the statements whose failure is ignored, a deletion takes the source away
    -- with what it owned. If the prune succeeds, those rows of the table of its list go that the
    -- temporary table lists (what the source owned, less what was not read or noted, and what was left
    -- there before), that no other source of any list owns and that were not added by hand; else all
    -- stay. The store returned is loaded from the table written, by a reading whose failures are not
    -- reported. A deletion changes nothing only if there is no such source or the transaction does not
    -- commit.
    pub delete_source_with_cleanup-IsDeletion :
        (commits : Bool)
        → IsDeletion commits (delete_source_with_cleanup domain_hash reads c commits db id)
    unfolding delete_source_with_cleanup
    delete_source_with_cleanup-IsDeletion commits =
        elim (Option-cases (source_by_id id db.sources)) [
          | inl e ↦ rw (e, delete_source_with_cleanup) (refl, inl e)
          | inr (source, e) ↦ elim (Bool-cases commits) [
            | inl done ↦
                rw (e, delete_source_with_cleanup)
                  (rw done
                    (source, e, refl, without_source-IsDeleted (list_of source.list_type), refl))
            | inr rolled_back ↦ rw (e, delete_source_with_cleanup) (rw rolled_back (refl, inr refl))
          ]
        ]
