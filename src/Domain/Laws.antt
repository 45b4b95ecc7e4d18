-- ===== src/Domain/Laws.antt =====
-- What normalising a domain does: src/lists.rs `normalize_domain`.
use rustblocker.Base.{
  ℕ, ◌≡◌, refl, ap, true, false, ◌++◌, [], ◌∷◌, arith, Bytes, to_lower, to_lowercase,
}
use rustblocker.Domain.{normalize_domain, ends_with_dot, drop_last}

to_lower_idem : (c : ℕ) → to_lower (to_lower c) ≡ to_lower c
to_lower_idem c = ground arith

to_lowercase_idem : (s : Bytes) → to_lowercase (to_lowercase s) ≡ to_lowercase s
to_lowercase_idem [] = refl
to_lowercase_idem (c ∷ s) = cc (to_lower_idem c, to_lowercase_idem s)

ends_with_dot-append : (s : Bytes) → ends_with_dot (s ++ b'.' ∷ []) ≡ true
unfolding ends_with_dot
ends_with_dot-append [] = refl
ends_with_dot-append (c ∷ []) = refl
ends_with_dot-append (c ∷ d ∷ s) = ends_with_dot-append (d ∷ s)

drop_last-append : (s : Bytes) → drop_last (s ++ b'.' ∷ []) ≡ s
unfolding drop_last
drop_last-append [] = refl
drop_last-append (c ∷ []) = refl
drop_last-append (c ∷ d ∷ s) = ap (◌∷◌ c) (drop_last-append (d ∷ s))

map-append_dot : (s : Bytes) → to_lowercase (s ++ b'.' ∷ []) ≡ to_lowercase s ++ b'.' ∷ []
map-append_dot [] = refl
map-append_dot (c ∷ s) = ap (◌∷◌ (to_lower c)) (map-append_dot s)

-- Normalising ignores the case of the text and one trailing dot: a name that does not end in a
-- dot, the same name with a dot behind it, and its lower-case form have one normal form.
pub normalize_domain_stable :
    (s : Bytes)
    → ends_with_dot (to_lowercase s) ≡ false
    → (normalize_domain s ≡ to_lowercase s)
      × (normalize_domain (s ++ b'.' ∷ []) ≡ normalize_domain s)
      × (normalize_domain (normalize_domain s) ≡ normalize_domain s)
unfolding normalize_domain
normalize_domain_stable s h = (
  rw h,
  rw (map-append_dot s, ends_with_dot-append, drop_last-append, h),
  rw (h, to_lowercase_idem, h),
)
