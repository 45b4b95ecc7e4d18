-- ===== src/Api/Requests.antt =====
-- The routes of src/api.rs that change the lists, the rewrites and the upstreams. Each handler checks
-- the access list first.
use rustblocker.Base.{ℕ, Bool, Option, Bytes, if◌then◌else◌}
use rustblocker.Rewrites.{RewriteRule}
use rustblocker.Database.Tables.{ListType}
use rustblocker.Sync.Apply.{World, Node}
use rustblocker.Api.{Response, forbidden, ApiWeather, check_acl}
use rustblocker.Api.Lists.{
  add_list_domain, delete_list_domain, bulk_import, add_source_request, delete_source_request,
  refresh_all_sources, refresh_one_source,
}
use rustblocker.Api.Records.{
  add_upstream_request, delete_upstream_request, add_rewrite_request, delete_rewrite_request,
}

pub data ApiRequest : Type 0 where
  adds_domain : ListType → Bytes → ApiRequest
  deletes_domain : ListType → ℕ → ApiRequest
  imports : ListType → ApiRequest
  adds_source : Bytes → Option Bytes → Option ℕ → ApiRequest
  deletes_source : ℕ → ApiRequest
  refreshes_all : ApiRequest
  refreshes_one : ℕ → ApiRequest
  adds_upstream : Bytes → Option ℕ → ApiRequest
  deletes_upstream : ℕ → ApiRequest
  adds_rewrite : RewriteRule → ApiRequest
  deletes_rewrite : ℕ → ApiRequest

module _ (world : World) where
  unfoldable pub route : ApiWeather → ApiRequest → Node → Node × Response
  route w (adds_domain t domain) n = add_list_domain world w t domain n
  route w (deletes_domain t id) n = delete_list_domain world w t id n
  route w (imports t) n = bulk_import world w t n
  route w (adds_source url list_type interval) n =
      add_source_request world w url list_type interval n
  route w (deletes_source id) n = delete_source_request world w id n
  route w refreshes_all n = refresh_all_sources world w n
  route w (refreshes_one id) n = refresh_one_source world w id n
  route w (adds_upstream address port) n = add_upstream_request world w address port n
  route w (deletes_upstream id) n = delete_upstream_request world w id n
  route w (adds_rewrite rule) n = add_rewrite_request world w rule n
  route w (deletes_rewrite id) n = delete_rewrite_request world w id n

  unfoldable pub handle_api :
      (ℕ → Bool) → Option ℕ → ApiWeather → ApiRequest → Node → Node × Response
  handle_api allows peer w request n =
      let done = route w request n in if check_acl allows peer then done else (n, forbidden)
