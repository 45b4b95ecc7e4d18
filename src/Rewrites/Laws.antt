-- ===== src/Rewrites/Laws.antt =====
-- Laws of the rewrite map of src/lists.rs.
use mathlib.Core.Bool.{true≢false}
use rustblocker.Base.{
  ℕ, ◌≡◌, refl, sym, ap, ◌∙◌, true, false, Option, none, some, List, [], ◌∷◌, Bytes, arith,
  bytes_eq, bytes_eq_sound, bytes_eq_refl, Bool-cases, inl, inr, if◌then◌else◌,
}
use rustblocker.Domain.{normalize_domain}
use rustblocker.Rewrites.{
  RewriteRule, RuntimeRewriteRule, RewriteMap, find_rule, drop_rule, put_rule, lookup_rewrite,
  remove_rewrite, from_config, insert_rewrite, collect_rules, load_rewrites,
}

unkept :
    (k key domain : Bytes)
    → bytes_eq k key ≡ false
    → bytes_eq k domain ≡ true
    → bytes_eq key domain ≡ false
unkept k key domain other here = elim (Bool-cases (bytes_eq key domain)) [
  | inl same ↦
      let e = bytes_eq_sound k domain here ∙ sym (bytes_eq_sound key domain same) in
      absurd (true≢false (sym (bytes_eq_refl k) ∙ ap (bytes_eq k) e ∙ other))
  | inr other_name ↦ other_name
]

find_rule-drop_rule :
    (rules : List (Bytes × RuntimeRewriteRule)) (key domain : Bytes)
    → find_rule (drop_rule rules key) domain
      ≡ (if bytes_eq key domain then none else find_rule rules domain)
unfolding find_rule drop_rule
find_rule-drop_rule [] key domain = ground arith
find_rule-drop_rule ((k, rule) ∷ rules) key domain = elim (Bool-cases (bytes_eq k key)) [
  | inl same ↦
      let e = bytes_eq_sound k key same in
      rw (same, find_rule-drop_rule rules key domain, e) (ground arith)
  | inr other ↦ elim (Bool-cases (bytes_eq k domain)) [
    | inl here ↦ rw (other, here, unkept k key domain other here) refl
    | inr elsewhere ↦ rw (other, elsewhere) (find_rule-drop_rule rules key domain)
  ]
]

-- After a removal the map answers as before, but no longer for the normal form of the name.
pub remove_rewrite-lookup_rewrite :
    (m : RewriteMap) (name domain : Bytes)
    → lookup_rewrite (remove_rewrite m name) domain
      ≡ (if bytes_eq (normalize_domain name) domain then none else lookup_rewrite m domain)
unfolding lookup_rewrite remove_rewrite
remove_rewrite-lookup_rewrite m name domain =
    find_rule-drop_rule m.rules (normalize_domain name) domain

module _ (parse_v4 parse_v6 : Bytes → Option ℕ) where
  -- After an insertion the map answers the new rule for the normal form of its name, and every other
  -- name as before.
  pub insert_rewrite-lookup_rewrite :
      (m : RewriteMap) (rule : RewriteRule) (domain : Bytes)
      → lookup_rewrite (insert_rewrite parse_v4 parse_v6 m rule) domain ≡ (
          if bytes_eq (normalize_domain rule.domain) domain
          then some (from_config parse_v4 parse_v6 rule)
          else lookup_rewrite m domain)
  unfolding lookup_rewrite insert_rewrite put_rule find_rule
  insert_rewrite-lookup_rewrite m rule domain =
      elim (Bool-cases (bytes_eq (normalize_domain rule.domain) domain)) [
        | inl same ↦ rw same refl
        | inr other ↦
            rw other
              (find_rule-drop_rule m.rules (normalize_domain rule.domain) domain ∙ rw other refl)
      ]

  -- The last rule for a name, or what was there before.
  abbrev pub last_rule :
      Option RuntimeRewriteRule → List RewriteRule → Bytes → Option RuntimeRewriteRule
  last_rule before [] domain = before
  last_rule before (rule ∷ rules) domain =
      last_rule
        (if bytes_eq (normalize_domain rule.domain) domain
          then some (from_config parse_v4 parse_v6 rule)
          else before)
        rules domain

  collected :
      (m : RewriteMap) (rules : List RewriteRule) (domain : Bytes)
      → lookup_rewrite (collect_rules parse_v4 parse_v6 m rules) domain
        ≡ last_rule (lookup_rewrite m domain) rules domain
  unfolding collect_rules
  collected m [] domain = refl
  collected m (rule ∷ rules) domain =
      collected (insert_rewrite parse_v4 parse_v6 m rule) rules domain
      ∙ ap (λ o. last_rule o rules domain) (insert_rewrite-lookup_rewrite m rule domain)

  -- A loaded map answers the last rule whose name has the normal form that is looked up, and nothing
  -- for other names.
  pub load_rewrites-lookup_rewrite :
      (rules : List RewriteRule) (domain : Bytes)
      → lookup_rewrite (load_rewrites parse_v4 parse_v6 rules) domain ≡ last_rule none rules domain
  unfolding load_rewrites
  load_rewrites-lookup_rewrite rules domain =
      collected (record { rules = [] }) rules domain
      ∙ ap (λ o. last_rule o rules domain) (unfold lookup_rewrite find_rule in refl)
