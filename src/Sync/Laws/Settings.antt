-- ===== src/Sync/Laws/Settings.antt =====
-- What the apply functions of src/sync.rs do to a setting.
use rustblocker.Base.{
  ◌≡◌, refl, subst, ◌∙◌, Bool, true, false, ◌&&◌, Option, none, some, List, [], ◌∷◌, Bytes,
  bytes_eq, bytes_eq_sound, any, ◌==◌, if◌then◌else◌, Bool-cases, Option-cases, inl, inr,
}
use rustblocker.Rewrites.{RewriteRule}
use rustblocker.Database.Tables.{ListType, blocklist, allowlist, DbRewrite, DbSource, Database}
use rustblocker.Database.Settings.{setting, set_setting}
use rustblocker.Database.Laws.Settings.{setting-put_setting}
use rustblocker.Sync.Apply.{
  World, SourceItem, Node, ApplyWeather, is_local, write_member, write_settings, reload_with,
  reload_forwarder_from_db, apply_settings, replace_upstreams, apply_upstreams, rewrite_rows,
  replace_rewrites, apply_rewrites, source_rows, replace_sources, apply_sources, replace_domains,
  apply_domains_inner,
}

-- The value that a node has for a setting.
abbrev pub setting_of : Bytes → Node → Option Bytes
setting_of key s = setting key s.runtime.db.settings

module _ (world : World) (key : Bytes) where
  setting-set_setting :
      (succeeds : Bool) (db : Database) (k value : Bytes)
      → bytes_eq k key ≡ false
      → setting key (set_setting succeeds db k value).0.settings ≡ setting key db.settings
  unfolding set_setting
  setting-set_setting true db k value h = setting-put_setting k value key db.settings ∙ rw h refl
  setting-set_setting false db k value h = refl

  differs-local : (k : Bytes) → is_local key ≡ true → is_local k ≡ false → bytes_eq k key ≡ false
  differs-local k own h = elim (Bool-cases (bytes_eq k key)) [
    | inl same ↦
        let e : is_local key ≡ false =
          subst (λ x. is_local x ≡ false) (bytes_eq_sound k key same) h in
        cc
    | inr differs ↦ differs
  ]

  setting-write_member :
      (writes : Bytes → Bool) (k : Bytes) (o : Option Bytes) (db : Database)
      → bytes_eq k key ≡ false
      → setting key (write_member world writes k o db).settings ≡ setting key db.settings
  unfolding write_member
  setting-write_member writes k none db h = refl
  setting-write_member writes k (some value) db h = setting-set_setting (writes k) db k value h

  setting-write_settings :
      (writes : Bytes → Bool) (members : List (Bytes × world.Json)) (db : Database)
      → is_local key ≡ true
      → setting key (write_settings world writes members db).settings ≡ setting key db.settings
  unfolding write_settings
  setting-write_settings writes [] db own = refl
  setting-write_settings writes ((k, value) ∷ rest) db own = elim (Bool-cases (is_local k)) [
    | inl local ↦ rw (local, write_settings) (setting-write_settings writes rest db own)
    | inr shared ↦
        rw (shared, write_settings)
          (setting-write_settings writes rest (write_member world writes k (world.as_text value) db)
              own
            ∙ setting-write_member writes k (world.as_text value) db (differs-local k own shared))
  ]

  pub setting_of-apply_settings :
      (w : ApplyWeather) (value : world.Json) (s : Node)
      → is_local key ≡ true
      → setting_of key (apply_settings world w value s) ≡ setting_of key s
  unfolding apply_settings reload_forwarder_from_db reload_with
  setting_of-apply_settings w value s own = elim (Option-cases (world.as_object value)) [
    | inl e ↦ rw (e, apply_settings) refl
    | inr (members, e) ↦
        rw (e, apply_settings) (setting-write_settings w.writes members s.runtime.db own)
  ]

  pub settings_kept :
      (s next : Node) (b : Bool)
      → setting_of key next ≡ setting_of key s
      → setting_of key (if b then next else s) ≡ setting_of key s
  settings_kept s next true h = h
  settings_kept s next false h = refl

  pub setting_of-apply_upstreams :
      (w : ApplyWeather) (value : world.Json) (s : Node)
      → setting_of key (apply_upstreams world w value s) ≡ setting_of key s
  unfolding apply_upstreams replace_upstreams reload_with
  setting_of-apply_upstreams w value s = elim (Option-cases (world.upstream_items value)) [
    | inl e ↦ rw (e, apply_upstreams) refl
    | inr (items, e) ↦
        rw (e, apply_upstreams)
          (elim (Bool-cases (any (λ item. item.port == 0) items)) [
            | inl zero_port ↦ rw zero_port refl
            | inr ports ↦ rw ports (settings_kept s _ (w.connects && w.commits) refl)
          ])
  ]

  setting_of-replace_rewrites :
      (w : ApplyWeather) (items : List RewriteRule) (o : Option (List DbRewrite)) (s : Node)
      → setting_of key (replace_rewrites world w items o s) ≡ setting_of key s
  unfolding replace_rewrites
  setting_of-replace_rewrites w items none s = refl
  setting_of-replace_rewrites w items (some rows) s =
      settings_kept s _ (w.connects && w.commits) refl

  pub setting_of-apply_rewrites :
      (w : ApplyWeather) (value : world.Json) (s : Node)
      → setting_of key (apply_rewrites world w value s) ≡ setting_of key s
  unfolding apply_rewrites
  setting_of-apply_rewrites w value s = elim (Option-cases (world.rewrite_items value)) [
    | inl e ↦ rw (e, apply_rewrites) refl
    | inr (items, e) ↦
        rw (e, apply_rewrites)
          (setting_of-replace_rewrites w items (rewrite_rows s.runtime.db.next_rewrite items) s)
  ]

  setting_of-replace_sources :
      (w : ApplyWeather) (items : List SourceItem) (o : Option (List DbSource)) (s : Node)
      → setting_of key (replace_sources world w items o s) ≡ setting_of key s
  unfolding replace_sources
  setting_of-replace_sources w items none s = refl
  setting_of-replace_sources w items (some rows) s =
      settings_kept s _ (w.connects && w.commits) refl

  pub setting_of-apply_sources :
      (w : ApplyWeather) (value : world.Json) (s : Node)
      → setting_of key (apply_sources world w value s) ≡ setting_of key s
  unfolding apply_sources
  setting_of-apply_sources w value s = elim (Option-cases (world.source_items value)) [
    | inl e ↦ rw (e, apply_sources) refl
    | inr (items, e) ↦
        rw (e, apply_sources)
          (setting_of-replace_sources w items (source_rows s.runtime.db.next_source items) s)
  ]

  setting_of-replace_domains :
      (w : ApplyWeather) (t : ListType) (found : List Bytes) (s : Node)
      → setting_of key (replace_domains world w t found s) ≡ setting_of key s
  unfolding replace_domains
  setting_of-replace_domains w blocklist found s = settings_kept s _ (w.connects && w.commits) refl
  setting_of-replace_domains w allowlist found s = settings_kept s _ (w.connects && w.commits) refl

  pub setting_of-apply_domains_inner :
      (w : ApplyWeather) (t : ListType) (value : world.Json) (s : Node)
      → setting_of key (apply_domains_inner world w t value s) ≡ setting_of key s
  unfolding apply_domains_inner
  setting_of-apply_domains_inner w t value s = elim (Option-cases (world.domain_items value)) [
    | inl e ↦ rw (e, apply_domains_inner) refl
    | inr (found, e) ↦ rw (e, apply_domains_inner) (setting_of-replace_domains w t found s)
  ]
