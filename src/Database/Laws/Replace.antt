-- ===== src/Database/Laws/Replace.antt =====
-- What `replace_source_domains` of src/db.rs writes.
use rustblocker.Base.{
  ℕ, ◌≤◌, ◌<◌, ◌≡◌, refl, ◌∙◌, ◌⊎◌, Bool, true, false, not, ◌&&◌, ◌||◌, List, Bytes, arith, length,
  ltb, leb, ◌==◌, if◌then◌else◌, Bool-cases, inl, inr, u64_mul,
}
use rustblocker.Domain.{lines}
use rustblocker.Database.Tables.{
  ListType, blocklist, allowlist, fetch_failed, task_failed, no_connection, statement_failed,
  too_few, would_shrink, ok_domains, Database, table, has_domain, has_text, owns, has_owner,
  is_manual, Reads, load_domain_store,
}
use rustblocker.Database.Sources.{
  dedup, sort, parsed_lines, disown, own_all, insert_all, prune, set_status, source_count, domains,
  suspicious, parse_source_domains, replaced, Replaced, replaced_with, replace_failed,
  replace_found, replace_source_domains,
}
use rustblocker.Database.Laws.Rows.{
  has_domain-insert_all, owns-own_all, has_owner-own_all, owns-disown, has_domain-prune, other,
}

-- After a replacement the source owns the new domains and no others; other sources own what they
-- owned. The table has the new domains, and of the old rows those that the source did not own, that
-- some other source owns, or that were added by hand. The other table, and what was added by hand,
-- stay.
pub record IsReplaced (db : Database) (id : ℕ) (t : ListType) (ds : List Bytes) (now : ℕ)
    (next : Database) : Type 0 where
  pub owned :
      (i : ℕ) (d : Bytes)
      → owns i d next.source_domains
        ≡ (if id == i then has_text d ds else owns i d db.source_domains)
  pub rows :
      (d : Bytes)
      → has_domain d (table t next).rows ≡ (
          has_text d ds
          || (has_domain d (table t db).rows
              && (not (owns id d db.source_domains)
                  || (has_owner d (disown id db.source_domains)
                      || is_manual t d db.manual_domains))))
  pub other_rows : table (other t) next ≡ table (other t) db
  pub manual_same : next.manual_domains ≡ db.manual_domains
  pub status : next.sources ≡ set_status now id (ok_domains (length ds)) db.sources

module _ (db : Database) (id : ℕ) (ds : List Bytes) (now : ℕ) where
  owns_after :
      (i : ℕ) (d : Bytes)
      → owns i d (own_all id ds (disown id db.source_domains))
        ≡ (if id == i then has_text d ds else owns i d db.source_domains)
  owns_after i d =
      owns-own_all i id d ds (disown id db.source_domains)
      ∙ rw (owns-disown i id d db.source_domains) (ground arith)

  rows_after :
      (t : ListType) (d : Bytes)
      → has_domain d
          (prune t
            (λ x. owns id x db.source_domains)
            (own_all id ds (disown id db.source_domains))
            db.manual_domains
            (insert_all ds (table t db))).rows
        ≡ (has_text d ds
            || (has_domain d (table t db).rows
                && (not (owns id d db.source_domains)
                    || (has_owner d (disown id db.source_domains)
                        || is_manual t d db.manual_domains))))
  rows_after t d =
      has_domain-prune t (λ x. owns id x db.source_domains)
        (own_all id ds (disown id db.source_domains)) db.manual_domains (insert_all ds (table t db))
        d
      ∙ rw
          (
            has_owner-own_all id d ds (disown id db.source_domains),
            has_domain-insert_all d ds (table t db),
          )
          (ground arith)

  replaced-IsReplaced : (t : ListType) → IsReplaced db id t ds now (replaced db id t ds now)
  unfolding replaced
  replaced-IsReplaced blocklist = record {
    owned = owns_after;
    rows = rows_after blocklist;
    other_rows = refl;
    manual_same = refl;
    status = refl;
  }
  replaced-IsReplaced allowlist = record {
    owned = owns_after;
    rows = rows_after allowlist;
    other_rows = refl;
    manual_same = refl;
    status = refl;
  }

-- What the parse of a list comes to.
parse-cases :
    (content : Bytes)
    → ((n : ℕ) × (parse_source_domains content ≡ suspicious (too_few n)) × (n < 10))
      ⊎ ((ds : List Bytes) × (parse_source_domains content ≡ domains ds) × (10 ≤ length ds))
unfolding parse_source_domains
parse-cases content =
    elim (Bool-cases (ltb (length (dedup (sort (parsed_lines (lines content))))) 10)) [
      | inl few ↦
          inl
            (length (dedup (sort (parsed_lines (lines content)))), rw few refl, ground (arith, few))
      | inr many ↦
          inr (dedup (sort (parsed_lines (lines content))), rw many refl, ground (arith, many))
    ]

module _ (domain_hash : Bytes → ℕ) (reads : Reads) (db : Database) (id : ℕ) (t : ListType)
    (content : Bytes) (now : ℕ) where
  -- How a refresh may end. A failure leaves the database as it was, and says why.
  abbrev pub IsRefresh : Database × Replaced → Type 0
  IsRefresh (next, replaced_with n store) =
      (ds : List Bytes) × (parse_source_domains content ≡ domains ds)
      × (n ≡ length ds)
      × (10 ≤ n)
      × (source_count id db.source_domains ≤ 9
          ⊎ (u64_mul (source_count id db.source_domains) 10 ≤ u64_mul n 100))
      × IsReplaced db id t ds now next
      × (store ≡ load_domain_store domain_hash reads t next)
  IsRefresh (next, replace_failed (would_shrink n previous)) =
      (next ≡ db)
      × (previous ≡ source_count id db.source_domains)
      × (10 ≤ previous)
      × (u64_mul n 100 < u64_mul previous 10)
  IsRefresh (next, replace_failed (too_few n)) =
      (next ≡ db) × (n < 10) × (parse_source_domains content ≡ suspicious (too_few n))
  IsRefresh (next, replace_failed fetch_failed) = ⊥
  IsRefresh (next, replace_failed task_failed) = ⊥
  IsRefresh (next, replace_failed no_connection) = next ≡ db
  IsRefresh (next, replace_failed statement_failed) = next ≡ db

  enough_kept :
      (previous n : ℕ)
      → (leb 10 previous && ltb (u64_mul n 100) (u64_mul previous 10)) ≡ false
      → (previous ≤ 9) ⊎ (u64_mul previous 10 ≤ u64_mul n 100)
  enough_kept previous n h = elim (Bool-cases (leb 10 previous)) [
    | inl many ↦ inr (ground (arith, many, h))
    | inr few ↦ inl (ground (arith, few))
  ]

  replace_found-IsRefresh :
      (commits : Bool) (ds : List Bytes)
      → parse_source_domains content ≡ domains ds
      → 10 ≤ length ds
      → IsRefresh (replace_found domain_hash reads commits db id t ds now)
  unfolding replace_found
  replace_found-IsRefresh commits ds e ten =
      elim (Bool-cases (
        leb 10 (source_count id db.source_domains)
        && ltb (u64_mul (length ds) 100) (u64_mul (source_count id db.source_domains) 10))) [
          | inl shrinks ↦ rw shrinks (refl, refl, ground (arith, shrinks), ground (arith, shrinks))
          | inr enough ↦ elim (Bool-cases commits) [
            | inl done ↦
                rw (enough, done)
                  (
                    ds,
                    e,
                    refl,
                    ten,
                    enough_kept (source_count id db.source_domains) (length ds) enough,
                    replaced-IsReplaced db id ds now t,
                    refl,
                  )
            | inr rolled_back ↦ rw (enough, rolled_back) refl
          ]
        ]

  -- A refresh that succeeds has ten domains or more, at least a tenth of what the source owned if
  -- that was ten or more, and writes exactly them; the store that it returns is loaded from the table
  -- written, by a reading whose failures are not reported. One that fails leaves the database as it was: for want of a connection, for fewer than
  -- ten domains, for too few of the former ones, or for a statement that failed.
  pub replace_source_domains-IsRefresh :
      (connects commits : Bool)
      → IsRefresh (replace_source_domains domain_hash reads connects commits db id t content now)
  unfolding replace_source_domains
  replace_source_domains-IsRefresh true commits = elim (parse-cases content) [
    | inl (n, e, few) ↦ rw (e, replace_source_domains) (refl, few, e)
    | inr (ds, e, ten) ↦ rw (e, replace_source_domains) (replace_found-IsRefresh commits ds e ten)
  ]
  replace_source_domains-IsRefresh false commits = refl
