-- ===== src/Store/Laws/Remove.antt =====
-- `remove_from_index` of src/lists.rs: what leaves the index, and the bytes that it frees.
use rustblocker.Base.{
  ℕ, ◌+◌, ◌≤◌, ◌≡◌, refl, sym, subst, Bool, true, false, not, ◌&&◌, some, List, [], ◌∷◌, Bytes,
  arith, any, length, All, is_empty, bytes_eq, bytes_eq_sound, bytes_eq_iff, if◌then◌else◌, ◌==◌,
  ==_iff, Bool-cases, inl, inr, u64_add,
}
use rustblocker.Store.{Index, Removal, domain_at, domain_eq, contains_in, kept_offsets, freed_bytes}
use rustblocker.Store.Buckets.{get, put, remove}
use rustblocker.Store.Laws.Index.{
  bucket, bucket-put, bucket-remove, DistinctKeys, DistinctKeys-put, DistinctKeys-remove, sum_by,
  weight, weight-put, weight-remove,
}
use rustblocker.Store.Laws.Invariant.{Distinct, size_at, live, entries, IsBucket, IsIndex}

-- Of the offsets of a bucket, those that `retain` keeps hold every other domain.
pub any-kept_offsets :
    (arena d d' : Bytes) (os : List ℕ)
    → any (λ o. domain_eq arena o d') (kept_offsets arena d os)
      ≡ (any (λ o. domain_eq arena o d') os && not (bytes_eq d d'))
unfolding kept_offsets domain_eq
any-kept_offsets arena d d' [] = refl
any-kept_offsets arena d d' (o ∷ os) = ground (
  arith,
  any-kept_offsets arena d d' os,
  bytes_eq_iff (domain_at arena o) d,
  bytes_eq_iff (domain_at arena o) d',
  bytes_eq_iff d d',
)

any-kept_of_any :
    (arena d d' : Bytes) (os : List ℕ)
    → any (λ o. domain_eq arena o d') os ≡ false
    → any (λ o. domain_eq arena o d') (kept_offsets arena d os) ≡ false
any-kept_of_any arena d d' os h = rw (any-kept_offsets arena d d' os, h)

pub Distinct-kept :
    (arena d : Bytes) (os : List ℕ) → Distinct arena os → Distinct arena (kept_offsets arena d os)
unfolding kept_offsets
Distinct-kept arena d [] h = tt
Distinct-kept arena d (o ∷ os) (p, h) =
    ground (arith, Distinct-kept arena d os h, any-kept_of_any arena d (domain_at arena o) os p)

-- Any weight of a bucket that gives each held domain a value falls by that of the domain, once.
-- Here: entries by one, and bytes by the entry's size.
abbrev pub one_if : Bool → ℕ
one_if true = 1
one_if false = 0

pub none_left :
    (arena d : Bytes) (os : List ℕ)
    → any (λ o. domain_eq arena o d) os ≡ false
    → (kept_offsets arena d os ≡ os) × (freed_bytes arena d os ≡ 0)
unfolding kept_offsets freed_bytes
none_left arena d [] h = (refl, refl)
none_left arena d (o ∷ os) h = ground (arith, none_left arena d os)

hit_domain : (arena d : Bytes) (o : ℕ) → domain_eq arena o d ≡ true → domain_at arena o ≡ d
unfolding domain_eq
hit_domain arena d o e = bytes_eq_sound (domain_at arena o) d e

hit_is_last :
    (arena d : Bytes) (o : ℕ) (os : List ℕ)
    → domain_eq arena o d ≡ true
    → any (λ p. domain_eq arena p (domain_at arena o)) os ≡ false
    → any (λ p. domain_eq arena p d) os ≡ false
unfolding domain_eq
hit_is_last arena d o os e h =
    subst (λ x. any (λ p. bytes_eq (domain_at arena p) x) os ≡ false) (bytes_eq_sound _ d e) h

pub kept_entries :
    (arena d : Bytes) (os : List ℕ)
    → Distinct arena os
    → length (kept_offsets arena d os) + one_if (any (λ o. domain_eq arena o d) os) ≡ length os
unfolding kept_offsets
kept_entries arena d [] h = omega arith
kept_entries arena d (o ∷ os) (p, h) = elim (Bool-cases (domain_eq arena o d)) [
  | inl hit ↦ rw (hit, (none_left arena d os (hit_is_last arena d o os hit p)).0) (omega arith)
  | inr miss ↦ rw miss (omega (arith, kept_entries arena d os h))
]

-- The bytes freed are those that the kept entries of the bucket no longer take: no saturation.
pub kept_sizes :
    (arena d : Bytes) (os : List ℕ)
    → Distinct arena os
    → All (λ o. length (domain_at arena o) ≤ 65535) os
    → sum_by (size_at arena) (kept_offsets arena d os) + freed_bytes arena d os
      ≡ sum_by (size_at arena) os
unfolding kept_offsets freed_bytes
kept_sizes arena d [] h k = omega arith
kept_sizes arena d (o ∷ os) (p, h) (fits, k) = elim (Bool-cases (domain_eq arena o d)) [
  | inl hit ↦
      let gone = none_left arena d os (hit_is_last arena d o os hit p) in
      rw (hit, gone.0, gone.1) (omega arith)
  | inr miss ↦ rw miss (omega (arith, kept_sizes arena d os h k))
]

-- What is freed is nothing, or the entry of the domain.
pub freed-eq_size :
    (arena d : Bytes) (os : List ℕ)
    → Distinct arena os
    → All (λ o. length (domain_at arena o) ≤ 65535) os
    → freed_bytes arena d os ≡ (if any (λ o. domain_eq arena o d) os then 2 + length d else 0)
unfolding freed_bytes
freed-eq_size arena d [] h k = refl
freed-eq_size arena d (o ∷ os) (p, h) (fits, k) = elim (Bool-cases (domain_eq arena o d)) [
  | inl hit ↦
      let gone = none_left arena d os (hit_is_last arena d o os hit p) in
      rw (hit, gone.1, hit_domain arena d o hit)
        (short (subst (λ x. length x ≤ 65535) (hit_domain arena d o hit) fits))
  | inr miss ↦ rw miss (freed-eq_size arena d os h k)
]
  where
    short : length d ≤ 65535 → u64_add 0 (2 + length d) ≡ 2 + length d
    short q = omega arith

pub sum_by-one : (os : List ℕ) → sum_by (λ o. 1) os ≡ length os
sum_by-one [] = refl
sum_by-one (o ∷ os) = omega (arith, sum_by-one os)

pub is_empty-eq : (os : List ℕ) → is_empty os ≡ true → os ≡ []
is_empty-eq [] h = refl
is_empty-eq (o ∷ os) h = cc

-- An index in which the bucket of `h` went from `os` to `kept`.
pub record Rebucketed (index : Index) (h : ℕ) (os kept : List ℕ) (index' : Index) : Type 0 where
  pub at : (h' : ℕ) → bucket h' index' ≡ (if h == h' then kept else bucket h' index)
  pub keys : DistinctKeys index'
  pub weighs : (f : ℕ → ℕ) → weight f index' + sum_by f os ≡ weight f index + sum_by f kept

pub put-Rebucketed :
    (index : Index) (h : ℕ) (os kept : List ℕ)
    → DistinctKeys index
    → get h index ≡ some os
    → Rebucketed index h os kept (put h kept index)
put-Rebucketed index h os kept d e = record {
  at = λ h'. bucket-put h h' kept index os e;
  keys = DistinctKeys-put h kept index d;
  weighs = λ f. weight-put f h kept index os e;
}

pub remove-Rebucketed :
    (index : Index) (h : ℕ) (os : List ℕ)
    → DistinctKeys index
    → get h index ≡ some os
    → Rebucketed index h os [] (remove h index)
remove-Rebucketed index h os d e = record {
  at = λ h'. bucket-remove h h' index d;
  keys = DistinctKeys-remove h index d;
  weighs = λ f. omega (arith, weight-remove f h index os e);
}

module _ (domain_hash : Bytes → ℕ) where
  pub IsBuckets-put :
      (arena : Bytes) (h : ℕ) (kept : List ℕ) (index : Index)
      → All (λ b. IsBucket domain_hash arena b.0 b.1) index
      → IsBucket domain_hash arena h kept
      → All (λ b. IsBucket domain_hash arena b.0 b.1) (put h kept index)
  unfolding put
  IsBuckets-put arena h kept [] k b = tt
  IsBuckets-put arena h kept ((j, os) ∷ index) (c, k) b = elim (Bool-cases (j == h)) [
    | inl same ↦
        rw same (subst (λ x. IsBucket domain_hash arena x kept) (sym ((==_iff j h).0 same)) b, k)
    | inr other ↦ rw other (c, IsBuckets-put arena h kept index k b)
  ]

  pub IsBuckets-remove :
      (arena : Bytes) (h : ℕ) (index : Index)
      → All (λ b. IsBucket domain_hash arena b.0 b.1) index
      → All (λ b. IsBucket domain_hash arena b.0 b.1) (remove h index)
  unfolding remove
  IsBuckets-remove arena h [] k = tt
  IsBuckets-remove arena h ((j, os) ∷ index) (c, k) = elim (Bool-cases (j == h)) [
    | inl same ↦ rw same k
    | inr other ↦ rw other (c, IsBuckets-remove arena h index k)
  ]

  -- What removing a domain from an index does.
  pub record Removes (arena : Bytes) (index : Index) (d : Bytes) (r : Removal) : Type 0 where
    pub ok : IsIndex domain_hash arena r.index
    pub counted : r.count ≡ entries r.index
    pub space : live arena r.index + r.freed ≡ live arena index
    pub freed : r.freed ≡ (if contains_in arena index d (domain_hash d) then 2 + length d else 0)
    pub contains :
        (d' : Bytes)
        → contains_in arena r.index d' (domain_hash d')
          ≡ (contains_in arena index d' (domain_hash d') && not (bytes_eq d d'))
