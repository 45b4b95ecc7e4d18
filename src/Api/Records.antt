-- ===== src/Api/Records.antt =====
-- The handlers of src/api.rs for upstreams and rewrites.
use rustblocker.Base.{ℕ, ◌&&◌, Option, none, some, Bytes, ◌==◌, if◌then◌else◌}
use rustblocker.Rewrites.{RewriteRule, insert_rewrite, remove_rewrite}
use rustblocker.Database.Tables.{Database, DbRewrite}
use rustblocker.Database.Settings.{add_upstream, delete_upstream, add_rewrite, delete_rewrite_by_id}
use rustblocker.Sync.Apply.{World, Node, with_db, reload_forwarder_from_db}
use rustblocker.Api.{Response, server_error, bad_request, not_found, changed, created, ApiWeather}

module _ (world : World) where
  unfoldable pub upstream_added : ApiWeather → Node → Database × Option ℕ → Node × Response
  upstream_added w n (db, none) = (n, server_error)
  upstream_added w n (db, some id) =
      (reload_forwarder_from_db world w.reload (with_db db n), created id)

  unfoldable pub add_upstream_request : ApiWeather → Bytes → Option ℕ → Node → Node × Response
  add_upstream_request w address port n =
      let number : ℕ = elim port [ none ↦ 53 | some number ↦ number ] in
      let done =
        upstream_added w n (add_upstream (w.runs && w.commits) n.runtime.db address number) in
      if number == 0 then (n, bad_request) else done

  -- `delete_upstream(…).unwrap_or_default()`.
  unfoldable pub delete_upstream_request : ApiWeather → ℕ → Node → Node × Response
  delete_upstream_request w id n =
      let r = delete_upstream n.runtime.db id in
      if w.deletes && r.1
      then (reload_forwarder_from_db world w.reload (with_db r.0 n), changed)
      else (n, not_found)

  unfoldable pub add_rewrite_request : ApiWeather → RewriteRule → Node → Node × Response
  add_rewrite_request w rule n =
      let r = add_rewrite w.last_id n.runtime.db rule.domain rule.ipv4 rule.ipv6 in
      if w.runs && w.commits
      then (
        record (with_db r.0 n) {
          rewrites = insert_rewrite world.parse_v4 world.parse_v6 n.rewrites rule;
        },
        created r.1,
      )
      else (n, server_error)

  unfoldable pub rewrite_deleted : Node → Database × Option DbRewrite → Node × Response
  rewrite_deleted n (db, none) = (with_db db n, not_found)
  rewrite_deleted n (db, some rewrite) =
      (record (with_db db n) { rewrites = remove_rewrite n.rewrites rewrite.domain }, changed)

  unfoldable pub delete_rewrite_request : ApiWeather → ℕ → Node → Node × Response
  delete_rewrite_request w id n =
      let done = rewrite_deleted n (delete_rewrite_by_id w.deletes n.runtime.db id) in
      if w.runs then done else (n, server_error)
