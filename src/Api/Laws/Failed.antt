-- ===== src/Api/Laws/Failed.antt =====
-- A request to src/api.rs that fails changes nothing, in the database or in memory.
use rustblocker.Base.{
  ℕ, ◌+◌, ◌≡◌, refl, ap, Bool, true, false, ◌&&◌, Option, none, some, List, [], ◌∷◌, Bytes,
  is_empty, retain, if◌then◌else◌, Bool-cases, Option-cases, inl, inr,
}
use rustblocker.Store.{DomainStore}
use rustblocker.Database.Tables.{ListType, Database, DbSource, DbRewrite, table, Reads}
use rustblocker.Database.Domains.{
  domain_by_id, delete_domain_by_id, add_domain, bulk_import_domains, DomainImportResult,
}
use rustblocker.Database.Sources.{Cleanup, source_by_id, delete_source_with_cleanup}
use rustblocker.Database.Settings.{get_rewrite_by_id, delete_rewrite_by_id, delete_upstream}
use rustblocker.Sync.Apply.{World, Node}
use rustblocker.Api.{
  Response, forbidden, bad_request, server_error, not_found, changed, created, imported,
  refreshed_all, ApiWeather, check_acl,
}
use rustblocker.Api.Lists.{
  added, add_list_domain, deleted, delete_list_domain, import_done, import_content, bulk_import,
  add_source_request, source_deleted, delete_source_request, refresh_node, refresh_each,
  refresh_all_sources, refresh_found, refresh_one_source,
}
use rustblocker.Api.Records.{
  upstream_added, add_upstream_request, delete_upstream_request, add_rewrite_request,
  rewrite_deleted, delete_rewrite_request,
}
use rustblocker.Api.Requests.{
  ApiRequest, adds_domain, deletes_domain, imports, adds_source, deletes_source, refreshes_all,
  refreshes_one, adds_upstream, deletes_upstream, adds_rewrite, deletes_rewrite, route, handle_api,
}

abbrev pub is_failure : Response → Bool
is_failure forbidden = true
is_failure bad_request = true
is_failure server_error = true
is_failure not_found = true
is_failure changed = false
is_failure (created n) = false
is_failure (imported n) = false
is_failure (refreshed_all n) = false

-- If the answer is a failure, the node is as before.
abbrev IsAtomic : Node → Node × Response → Type 0
IsAtomic n r = is_failure r.1 ≡ true → r.0 ≡ n

-- If nothing is returned, the database is as before.
abbrev IsKept {ℓ} : {A : Type ℓ} → Database → Database × Option A → Type ℓ
IsKept db o = o.1 ≡ none → o.0 ≡ db

unchanged :
    (n : Node) (db : Database)
    → db ≡ n.runtime.db
    → record n { runtime = record n.runtime { db = db } } ≡ n
unchanged n db e = ap (λ x. record n { runtime = record n.runtime { db = x } }) e

delete_domain_by_id-IsKept :
    (deletes forgets : Bool) (db : Database) (t : ListType) (id : ℕ)
    → IsKept db (delete_domain_by_id deletes forgets db t id)
unfolding delete_domain_by_id
delete_domain_by_id-IsKept deletes forgets db t id =
    elim (Option-cases (domain_by_id id (table t db).rows)) [
      | inl e ↦ rw (e, delete_domain_by_id) (λ h. refl)
      | inr (d, e) ↦ elim (Bool-cases deletes) [
        | inl done ↦ rw (e, delete_domain_by_id) (rw done (λ h. cc))
        | inr fails ↦ rw (e, delete_domain_by_id) (rw fails (λ h. refl))
      ]
    ]

delete_rewrite_by_id-IsKept :
    (deletes : Bool) (db : Database) (id : ℕ) → IsKept db (delete_rewrite_by_id deletes db id)
unfolding delete_rewrite_by_id
delete_rewrite_by_id-IsKept deletes db id = elim (Option-cases (get_rewrite_by_id id db.rewrites)) [
  | inl e ↦ rw (e, delete_rewrite_by_id) (λ h. refl)
  | inr (r, e) ↦ elim (Bool-cases deletes) [
    | inl done ↦ rw (e, delete_rewrite_by_id) (rw done (λ h. cc))
    | inr fails ↦ rw (e, delete_rewrite_by_id) (rw fails (λ h. refl))
  ]
]

delete_source_with_cleanup-IsKept :
    (domain_hash : Bytes → ℕ) (reads : Reads) (c : Cleanup) (commits : Bool) (db : Database)
    (id : ℕ)
    → IsKept db (delete_source_with_cleanup domain_hash reads c commits db id)
unfolding delete_source_with_cleanup
delete_source_with_cleanup-IsKept domain_hash reads c commits db id =
    elim (Option-cases (source_by_id id db.sources)) [
      | inl e ↦ rw (e, delete_source_with_cleanup) (λ h. refl)
      | inr (s, e) ↦ elim (Bool-cases commits) [
        | inl done ↦ rw (e, delete_source_with_cleanup) (rw done (λ h. cc))
        | inr fails ↦ rw (e, delete_source_with_cleanup) (rw fails (λ h. refl))
      ]
    ]

-- A branch that fails, or one that is atomic.
choice-IsAtomic :
    (n : Node) (b : Bool) (x y : Node × Response)
    → IsAtomic n x
    → IsAtomic n y
    → IsAtomic n (if b then x else y)
choice-IsAtomic n true x y h k = h
choice-IsAtomic n false x y h k = k

choice-is_failure :
    (b : Bool) (x y : Node × Response)
    → is_failure x.1 ≡ false
    → is_failure y.1 ≡ false
    → is_failure (if b then x else y).1 ≡ false
choice-is_failure true x y h k = h
choice-is_failure false x y h k = k

module _ (world : World) (w : ApiWeather) (n : Node) where
  added-IsAtomic :
      (t : ListType) (d : Bytes) (o : Database × Option ℕ) → IsAtomic n (added world n t d o)
  unfolding added
  added-IsAtomic t d (db, none) h = refl
  added-IsAtomic t d (db, some id) h = cc

  deleted-IsAtomic :
      (t : ListType) (o : Database × Option Bytes)
      → IsKept n.runtime.db o
      → IsAtomic n (deleted world n t o)
  unfolding deleted
  deleted-IsAtomic t (db, none) k h = unchanged n db (k refl)
  deleted-IsAtomic t (db, some d) k h = cc

  import_done-IsAtomic :
      (t : ListType) (o : Database × Option DomainImportResult)
      → IsAtomic n (import_done world n t o)
  unfolding import_done
  import_done-IsAtomic t (db, none) h = refl
  import_done-IsAtomic t (db, some r) h = cc

  import_content-IsAtomic :
      (t : ListType) (o : Option Bytes) → IsAtomic n (import_content world w t o n)
  unfolding import_content
  import_content-IsAtomic t none = λ h. refl
  import_content-IsAtomic t (some content) =
      choice-IsAtomic n (is_empty content) (n, bad_request) _ (λ h. refl)
        (import_done-IsAtomic t
          (bulk_import_domains world.domain_hash (w.runs && w.commits) n.runtime.db t content))

  source_deleted-IsAtomic :
      (o : Database × Option (Bytes × DomainStore))
      → IsKept n.runtime.db o
      → IsAtomic n (source_deleted world n o)
  unfolding source_deleted
  source_deleted-IsAtomic (db, none) k h = unchanged n db (k refl)
  source_deleted-IsAtomic (db, some (t, s)) k h = cc

  refresh_each-count :
      (sources : List DbSource) (count : ℕ) (m : Node)
      → is_failure (refresh_each world w sources count m).1 ≡ false
  unfolding refresh_each
  refresh_each-count [] count m = refl
  refresh_each-count (s ∷ rest) count m =
      choice-is_failure s.enabled _ _
        (refresh_each-count rest (count + 1) (refresh_node world w s m))
        (refresh_each-count rest count m)

  refresh_found-IsAtomic : (o : Option DbSource) → IsAtomic n (refresh_found world w o n)
  unfolding refresh_found
  refresh_found-IsAtomic none h = refl
  refresh_found-IsAtomic (some s) h = cc

  upstream_added-IsAtomic : (o : Database × Option ℕ) → IsAtomic n (upstream_added world w n o)
  unfolding upstream_added
  upstream_added-IsAtomic (db, none) h = refl
  upstream_added-IsAtomic (db, some id) h = cc

  rewrite_deleted-IsAtomic :
      (o : Database × Option DbRewrite)
      → IsKept n.runtime.db o
      → IsAtomic n (rewrite_deleted world n o)
  unfolding rewrite_deleted
  rewrite_deleted-IsAtomic (db, none) k h = unchanged n db (k refl)
  rewrite_deleted-IsAtomic (db, some r) k h = cc

  route-IsAtomic : (request : ApiRequest) → IsAtomic n (route world w request n)
  unfolding route add_list_domain delete_list_domain bulk_import add_source_request
      delete_source_request refresh_all_sources refresh_one_source add_upstream_request
      delete_upstream_request add_rewrite_request delete_rewrite_request
  route-IsAtomic (adds_domain t d) =
      added-IsAtomic t d (add_domain (w.runs && w.commits) n.runtime.db t d)
  route-IsAtomic (deletes_domain t id) =
      choice-IsAtomic n w.runs _ (n, server_error)
        (deleted-IsAtomic t (delete_domain_by_id w.deletes w.forgets n.runtime.db t id)
          (delete_domain_by_id-IsKept w.deletes w.forgets n.runtime.db t id))
        (λ h. refl)
  route-IsAtomic (imports t) = import_content-IsAtomic t w.content
  route-IsAtomic (adds_source url list_type interval) =
      choice-IsAtomic n (w.runs && w.commits) _ (n, server_error) (λ h. cc) (λ h. refl)
  route-IsAtomic (deletes_source id) =
      choice-IsAtomic n w.runs _ (n, server_error)
        (source_deleted-IsAtomic
          (delete_source_with_cleanup world.domain_hash w.reads w.cleanup w.commits n.runtime.db id)
          (delete_source_with_cleanup-IsKept world.domain_hash w.reads w.cleanup w.commits
            n.runtime.db id))
        (λ h. refl)
  route-IsAtomic refreshes_all =
      choice-IsAtomic n (w.runs && w.commits)
        (refresh_each world w (retain w.row_reads n.runtime.db.sources) 0 n) (n, server_error)
        (λ h. cc (h, refresh_each-count (retain w.row_reads n.runtime.db.sources) 0 n)) (λ h. refl)
  route-IsAtomic (refreshes_one id) =
      choice-IsAtomic n w.runs _ (n, server_error)
        (refresh_found-IsAtomic (if w.selects then source_by_id id n.runtime.db.sources else none))
        (λ h. refl)
  route-IsAtomic (adds_upstream address port) =
      choice-IsAtomic n _ (n, bad_request) _ (λ h. refl) (upstream_added-IsAtomic _)
  route-IsAtomic (deletes_upstream id) =
      choice-IsAtomic n (w.deletes && (delete_upstream n.runtime.db id).1) _ (n, not_found)
        (λ h. cc) (λ h. refl)
  route-IsAtomic (adds_rewrite rule) =
      choice-IsAtomic n (w.runs && w.commits) _ (n, server_error) (λ h. cc) (λ h. refl)
  route-IsAtomic (deletes_rewrite id) =
      choice-IsAtomic n w.runs _ (n, server_error)
        (rewrite_deleted-IsAtomic (delete_rewrite_by_id w.deletes n.runtime.db id)
          (delete_rewrite_by_id-IsKept w.deletes n.runtime.db id))
        (λ h. refl)

  -- A request that is refused by the access list, that is bad, that finds nothing or whose database
  -- call fails leaves the database, the stores, the rewrites and the forwarder as they were.
  pub handle_api_lem :
      (allows : ℕ → Bool) (peer : Option ℕ) (request : ApiRequest)
      → is_failure (handle_api world allows peer w request n).1 ≡ true
      → (handle_api world allows peer w request n).0 ≡ n
  unfolding handle_api
  handle_api_lem allows peer request =
      choice-IsAtomic n (check_acl allows peer) (route world w request n) (n, forbidden)
        (route-IsAtomic request) (λ h. refl)
