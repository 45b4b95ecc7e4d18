-- ===== src/Domain/Checks.antt =====
-- Runs of the text functions on the inputs of the unit tests of src/lists.rs.
use rustblocker.Base.{◌≡◌, refl, codes, none, some, [], ◌∷◌}
use rustblocker.Domain.{
  normalize_domain, list_line, lines, parse_domain_line, ends_with_dot, drop_last,
}

normalize_upper : normalize_domain (codes "Example.COM.") ≡ codes "example.com"
unfolding normalize_domain ends_with_dot drop_last
normalize_upper = refl

hosts_line : list_line (codes " 0.0.0.0 ads.example.com ") ≡ some (codes "ads.example.com")
unfolding list_line
hosts_line = refl

comment_line : list_line (codes "   # indented comment") ≡ none
unfolding list_line
comment_line = refl

three_lines : lines (10 ∷ 97 ∷ 13 ∷ 10 ∷ 98 ∷ []) ≡ [] ∷ codes "a" ∷ codes "b" ∷ []
unfolding lines
three_lines = refl

wildcard_line : parse_domain_line (codes "*.Ads.test..") ≡ some (codes "*.ads.test")
unfolding parse_domain_line
wildcard_line = refl
