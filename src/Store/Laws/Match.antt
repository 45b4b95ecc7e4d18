-- ===== src/Store/Laws/Match.antt =====
-- `matches` of src/lists.rs against its description: a name is listed itself, or a part of it that
-- follows a dot is listed as a wildcard.
use rustblocker.Base.{
  ℕ, ◌≡◌, ◌↔◌, ◌⊎◌, inl, inr, ap, true, false, ◌&&◌, [], ◌∷◌, ◌++◌, Bytes, arith, ◌==◌, ==_iff,
  Bool-cases,
}
use rustblocker.Store.{DomainStore, index_of, contains_in, matches_suffix, matches}
use rustblocker.Store.Laws.Insert.{holds}

module _ (domain_hash : Bytes → ℕ) where
  -- The name is some labels, a dot and a suffix that the store holds as a wildcard.
  abbrev pub UnderWildcard : DomainStore → Bytes → Type 0
  UnderWildcard s d =
      (front : Bytes) × (suffix : Bytes) × (d ≡ front ++ b'.' ∷ suffix)
      × (holds domain_hash s true suffix ≡ true)

  matches_suffix_sound :
      (s : DomainStore) (d : Bytes)
      → matches_suffix domain_hash s.arena s.wildcards d ≡ true
      → UnderWildcard s d
  unfolding matches_suffix index_of
  matches_suffix_sound s [] h = cc
  matches_suffix_sound s (b ∷ d) h =
      elim (Bool-cases (b == b'.' && contains_in s.arena s.wildcards d (domain_hash d))) [
        | inl here ↦ ([], d, ap (λ c. c ∷ d) ((==_iff b b'.').0 (ground arith)), ground arith)
        | inr later ↦
            let (front, suffix, e, k) = matches_suffix_sound s d (ground arith) in
            (b ∷ front, suffix, ap (◌∷◌ b) e, k)
      ]

  matches_suffix_complete :
      (s : DomainStore) (front suffix : Bytes)
      → holds domain_hash s true suffix ≡ true
      → matches_suffix domain_hash s.arena s.wildcards (front ++ b'.' ∷ suffix) ≡ true
  unfolding matches_suffix index_of
  matches_suffix_complete s [] suffix h = ground arith
  matches_suffix_complete s (b ∷ front) suffix h =
      ground (arith, matches_suffix_complete s front suffix h)

  -- A name matches exactly when the store holds it as an exact name, or holds as a wildcard what
  -- follows one of its dots.
  pub matches_iff :
      (s : DomainStore) (d : Bytes)
      → (matches domain_hash s d ≡ true)
        ↔ ((holds domain_hash s false d ≡ true) ⊎ UnderWildcard s d)
  unfolding matches index_of
  matches_iff s d = (to, from)
    where
      to : matches domain_hash s d ≡ true → (holds domain_hash s false d ≡ true) ⊎ UnderWildcard s d
      to h = elim (Bool-cases (contains_in s.arena s.exact d (domain_hash d))) [
        | inl exact ↦ inl exact
        | inr other ↦ inr (matches_suffix_sound s d (ground arith))
      ]

      from :
          (holds domain_hash s false d ≡ true) ⊎ UnderWildcard s d → matches domain_hash s d ≡ true
      from (inl exact) = ground arith
      from (inr (front, suffix, e, k)) =
          rw e (ground (arith, matches_suffix_complete s front suffix k))
