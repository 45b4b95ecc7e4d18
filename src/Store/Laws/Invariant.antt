-- ===== src/Store/Laws/Invariant.antt =====
-- The invariant of `DomainStore` (src/lists.rs): what the indexes say of the arena, the counts and
-- the dead bytes.
use rustblocker.Base.{
  ℕ, ◌+◌, ◌*◌, ◌≤◌, ◌≡◌, false, List, [], ◌∷◌, Bytes, arith, any, length, All, is_empty,
}
use rustblocker.Store.{Index, DomainStore, domain_at, domain_eq, empty_store}
use rustblocker.Store.Laws.Index.{DistinctKeys, weight}

-- No two entries of a bucket hold the same domain.
abbrev pub Distinct : Bytes → List ℕ → Type 0
Distinct arena [] = Unit
Distinct arena (o ∷ os) =
    (any (λ p. domain_eq arena p (domain_at arena o)) os ≡ false) × Distinct arena os

-- The bytes that an entry takes: its length prefix and its domain.
abbrev pub size_at : Bytes → ℕ → ℕ
size_at arena o = 2 + length (domain_at arena o)

-- The number of entries of an index, and the bytes that they take.
abbrev pub entries : Index → ℕ
entries = weight (λ o. 1)

abbrev pub live : Bytes → Index → ℕ
live arena = weight (size_at arena)

-- Holes take a quarter of the arena at most.
abbrev pub IsTidy : DomainStore → Type 0
IsTidy s = 4 * s.dead_bytes ≤ length s.arena

module _ (domain_hash : Bytes → ℕ) where
  -- An offset in the bucket of `h` leads to a domain of that hash, never to the "" of a miss.
  abbrev pub IsHeld : Bytes → ℕ → ℕ → Type 0
  IsHeld arena h o =
      (is_empty (domain_at arena o) ≡ false)
      × (domain_hash (domain_at arena o) ≡ h)
      × (length (domain_at arena o) ≤ 65535)

  abbrev pub IsBucket : Bytes → ℕ → List ℕ → Type 0
  IsBucket arena h os = All (IsHeld arena h) os × Distinct arena os

  abbrev pub IsIndex : Bytes → Index → Type 0
  IsIndex arena index = DistinctKeys index × All (λ b. IsBucket arena b.0 b.1) index

  pub record Inv (s : DomainStore) : Type 0 where
    pub exact_ok : IsIndex s.arena s.exact
    pub wildcards_ok : IsIndex s.arena s.wildcards
    pub exact_counted : s.exact_count ≡ entries s.exact
    pub wildcards_counted : s.wildcard_count ≡ entries s.wildcards
    pub space : length s.arena ≡ live s.arena s.exact + live s.arena s.wildcards + s.dead_bytes

  pub empty_store-Inv : Inv empty_store
  empty_store-Inv = record {
    exact_ok = (tt, tt);
    wildcards_ok = (tt, tt);
    exact_counted = omega arith;
    wildcards_counted = omega arith;
    space = omega arith;
  }
