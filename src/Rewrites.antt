-- ===== src/Rewrites.antt =====
-- `RewriteMap` of src/lists.rs: the custom answers for names. The hash map is an association list
-- with one entry for each key. The parsing of addresses belongs to `std::net` and is a parameter.
pub mod Laws
use rustblocker.Base.{ℕ, Bool, Option, none, some, List, [], ◌∷◌, Bytes, bytes_eq, if◌then◌else◌}
use rustblocker.Domain.{normalize_domain}

-- `RewriteRule` of src/config.rs.
pub record RewriteRule : Type 0 where
  pub domain : Bytes
  pub ipv4 : Option Bytes
  pub ipv6 : Option Bytes

-- The addresses are numbers.
pub record RuntimeRewriteRule : Type 0 where
  pub ipv4 : Option ℕ
  pub ipv6 : Option ℕ

pub record RewriteMap : Type 0 where
  pub rules : List (Bytes × RuntimeRewriteRule)

unfoldable pub find_rule : List (Bytes × RuntimeRewriteRule) → Bytes → Option RuntimeRewriteRule
find_rule [] domain = none
find_rule ((key, rule) ∷ rules) domain =
    if bytes_eq key domain then some rule else find_rule rules domain

unfoldable pub drop_rule :
    List (Bytes × RuntimeRewriteRule) → Bytes → List (Bytes × RuntimeRewriteRule)
drop_rule [] domain = []
drop_rule ((key, rule) ∷ rules) domain =
    let rest = drop_rule rules domain in if bytes_eq key domain then rest else (key, rule) ∷ rest

unfoldable pub put_rule :
    List (Bytes × RuntimeRewriteRule)
    → Bytes
    → RuntimeRewriteRule
    → List (Bytes × RuntimeRewriteRule)
put_rule rules domain rule = (domain, rule) ∷ drop_rule rules domain

unfoldable pub lookup_rewrite : RewriteMap → Bytes → Option RuntimeRewriteRule
lookup_rewrite m domain = find_rule m.rules domain

unfoldable pub remove_rewrite : RewriteMap → Bytes → RewriteMap
remove_rewrite m domain = record { rules = drop_rule m.rules (normalize_domain domain) }

module _ (parse_v4 parse_v6 : Bytes → Option ℕ) where
  parsed_ip : (Bytes → Option ℕ) → Option Bytes → Option ℕ
  parsed_ip parse none = none
  parsed_ip parse (some ip) = parse ip

  unfoldable pub from_config : RewriteRule → RuntimeRewriteRule
  unfolding parsed_ip
  from_config rule = record {
    ipv4 = parsed_ip parse_v4 rule.ipv4;
    ipv6 = parsed_ip parse_v6 rule.ipv6;
  }

  unfoldable pub insert_rewrite : RewriteMap → RewriteRule → RewriteMap
  insert_rewrite m rule = record {
    rules = put_rule m.rules (normalize_domain rule.domain) (from_config rule);
  }

  -- `collect` puts the pairs into the map in their order.
  unfoldable pub collect_rules : RewriteMap → List RewriteRule → RewriteMap
  collect_rules m [] = m
  collect_rules m (rule ∷ rules) = collect_rules (insert_rewrite m rule) rules

  unfoldable pub load_rewrites : List RewriteRule → RewriteMap
  unfolding collect_rules
  load_rewrites rules = collect_rules (record { rules = [] }) rules
