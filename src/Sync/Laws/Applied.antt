-- ===== src/Sync/Laws/Applied.antt =====
-- A snapshot of a list, applied by src/sync.rs: the table and the store in memory afterwards.
use rustblocker.Base.{
  ◌≤◌, ◌^◌, ◌≡◌, refl, sym, subst, ◌∙◌, ◌⊎◌, Bool, true, false, ◌&&◌, ◌||◌, some, List, [], ◌∷◌,
  Bytes, arith, bytes_eq, bytes_eq_sound, any, any-append, Bool-cases, inl, inr,
}
use rustblocker.Store.{DomainStore, empty_store, insert, replace_with}
use rustblocker.Store.Laws.Insert.{same_kind}
use rustblocker.Store.Laws.Model.{
  named, is_listable, Names, Call, inserts, abstract_step, abstract_run, total_cost, step, run,
  Represents, run-Represents,
}
use rustblocker.Database.Tables.{
  ListType, blocklist, allowlist, DbDomain, DomainTable, table, has_domain, has_text, insert_domain,
}
use rustblocker.Database.Sources.{insert_all}
use rustblocker.Database.Refresh.{store_of}
use rustblocker.Database.Laws.Rows.{has_domain-insert_all, other}
use rustblocker.Database.Laws.Load.{row_names}
use rustblocker.Sync.Apply.{
  World, Node, ApplyWeather, insert_domains, replace_domains, apply_domains_inner,
}

-- A test that a row with this domain passes.
any-has_domain :
    (q : Bytes → Bool) (e : Bytes) (rows : List DbDomain)
    → has_domain e rows ≡ true
    → q e ≡ true
    → any (λ r. q r.domain) rows ≡ true
any-has_domain q e [] h k = cc
any-has_domain q e (r ∷ rows) h k = elim (Bool-cases (bytes_eq r.domain e)) [
  | inl here ↦
      let p : q r.domain ≡ true =
        subst (λ x. q x ≡ true) (sym (bytes_eq_sound r.domain e here)) k in
      rw p refl
  | inr later ↦ ground (arith, any-has_domain q e rows (rw later at h) k)
]

any-insert_domain :
    (q : Bytes → Bool) (t : DomainTable) (e : Bytes)
    → any (λ r. q r.domain) (insert_domain t e).0.rows ≡ (any (λ r. q r.domain) t.rows || q e)
unfolding insert_domain
any-insert_domain q t e = elim (Bool-cases (has_domain e t.rows)) [
  | inl old ↦ elim (Bool-cases (q e)) [
    | inl passes ↦ rw (old, passes, any-has_domain q e t.rows old passes) refl
    | inr fails ↦ rw (old, fails) (ground arith)
  ]
  | inr new ↦ rw new (any-append (λ r. q r.domain) t.rows _ ∙ ground arith)
]

any-insert_all :
    (q : Bytes → Bool) (ds : List Bytes) (t : DomainTable)
    → any (λ r. q r.domain) (insert_all ds t).rows ≡ (any (λ r. q r.domain) t.rows || any q ds)
unfolding insert_all
any-insert_all q [] t = ground arith
any-insert_all q (e ∷ ds) t =
    any-insert_all q ds (insert_domain t e).0 ∙ rw (any-insert_domain q t e) (ground arith)

abbrev pub text_calls : List Bytes → List Call
text_calls [] = []
text_calls (d ∷ ds) = inserts d ∷ text_calls ds

abbrev is_name : Bool → Bytes → Bytes → Bool
is_name w d e = is_listable (named e).1 && (same_kind (named e).0 w && bytes_eq (named e).1 d)

abstract_run-text_calls :
    (ds : List Bytes) (v : Names) (w : Bool) (d : Bytes)
    → abstract_run v (text_calls ds) w d ≡ (v w d || any (is_name w d) ds)
abstract_run-text_calls [] v w d = ground arith
abstract_run-text_calls (e ∷ ds) v w d =
    abstract_run-text_calls ds (abstract_step v (inserts e)) w d ∙ ground arith

module _ (world : World) where
  insert_domains-run :
      (ds : List Bytes) (s : DomainStore)
      → insert_domains world ds s ≡ run world.domain_hash s (text_calls ds)
  unfolding insert_domains run step
  insert_domains-run [] s = refl
  insert_domains-run (d ∷ ds) s = insert_domains-run ds (insert world.domain_hash s d).0

  insert_domains-Represents :
      (ds : List Bytes) (t : DomainTable)
      → total_cost (text_calls ds) ≤ 2 ^ 32
      → Represents world.domain_hash
          (insert_domains world ds empty_store)
          (row_names (insert_all ds (record t { rows = [] })).rows)
  insert_domains-Represents ds t room =
      let p = run-Represents world.domain_hash (text_calls ds) room in
      rw (insert_domains-run ds empty_store) (record {
        inv = p.inv;
        tidy = p.tidy;
        agrees = λ w d.
            p.agrees w d
            ∙ abstract_run-text_calls ds (λ w d. false) w d
            ∙ sym (any-insert_all (is_name w d) ds (record t { rows = [] }));
      })

  -- The list here is that of the snapshot: its table has exactly these domains, its store in memory
  -- shows exactly the rows of the table, and the other list stays.
  pub record IsReplica (t : ListType) (found : List Bytes) (s next : Node) : Type 0 where
    pub rows : (d : Bytes) → has_domain d (table t next.runtime.db).rows ≡ has_text d found
    pub shown :
        Represents world.domain_hash
          (store_of t next.runtime)
          (row_names (table t next.runtime.db).rows)
    pub other_rows : table (other t) next.runtime.db ≡ table (other t) s.runtime.db
    pub other_store : store_of (other t) next.runtime ≡ store_of (other t) s.runtime

  replace_domains-IsReplica :
      (w : ApplyWeather) (t : ListType) (found : List Bytes) (s : Node)
      → total_cost (text_calls found) ≤ 2 ^ 32
      → (w.connects && w.commits) ≡ true
      → IsReplica t found s (replace_domains world w t found s)
  unfolding replace_domains replace_with
  replace_domains-IsReplica w blocklist found s room h = rw h (record {
    rows = λ d. has_domain-insert_all d found _;
    shown = insert_domains-Represents found s.runtime.db.blocklist_domains room;
    other_rows = refl;
    other_store = refl;
  })
  replace_domains-IsReplica w allowlist found s room h = rw h (record {
    rows = λ d. has_domain-insert_all d found _;
    shown = insert_domains-Represents found s.runtime.db.allowlist_domains room;
    other_rows = refl;
    other_store = refl;
  })

  -- A snapshot that is a list of texts, of at most 2^32 bytes, replaces the list here, in the table and
  -- in memory alike; only if the pool has no connection or the transaction does not commit, it changes
  -- nothing.
  pub apply_domains_inner-IsReplica :
      (w : ApplyWeather) (t : ListType) (value : world.Json) (s : Node) (found : List Bytes)
      → world.domain_items value ≡ some found
      → total_cost (text_calls found) ≤ 2 ^ 32
      → IsReplica t found s (apply_domains_inner world w t value s)
        ⊎ ((apply_domains_inner world w t value s ≡ s) × ((w.connects && w.commits) ≡ false))
  unfolding apply_domains_inner
  apply_domains_inner-IsReplica w t value s found e room =
      elim (Bool-cases (w.connects && w.commits)) [
        | inl done ↦
            inl (rw (e, apply_domains_inner) (replace_domains-IsReplica w t found s room done))
        | inr fails ↦
            inr (rw (e, apply_domains_inner) (unfold replace_domains in rw fails refl), fails)
      ]
