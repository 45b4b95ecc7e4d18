-- ===== src/Store/Laws/Frame.antt =====
-- Writing behind the arena changes nothing that an index of src/lists.rs can see.
use rustblocker.Base.{
  ℕ, ◌≡◌, refl, List, [], ◌∷◌, ◌++◌, Bytes, any, All, ◌==◌, Bool-cases, inl, inr, ==_iff, subst,
}
use rustblocker.Store.{Index, domain_at, domain_eq, contains_in}
use rustblocker.Store.Laws.Index.{bucket, sum_by, contains_in-bucket}
use rustblocker.Store.Laws.Invariant.{Distinct, size_at, live, IsHeld, IsBucket, IsIndex}
use rustblocker.Store.Laws.Arena.{domain_at-append}

module _ (domain_hash : Bytes → ℕ) (arena more : Bytes) where
  any-domain_eq-append :
      (h : ℕ) (d : Bytes) (os : List ℕ)
      → All (IsHeld domain_hash arena h) os
      → any (λ o. domain_eq (arena ++ more) o d) os ≡ any (λ o. domain_eq arena o d) os
  unfolding domain_eq
  any-domain_eq-append h d [] k = refl
  any-domain_eq-append h d (o ∷ os) (p, k) =
      rw (domain_at-append arena more o p.0, any-domain_eq-append h d os k)

  pub IsHeld-append :
      (h : ℕ) (os : List ℕ)
      → All (IsHeld domain_hash arena h) os
      → All (IsHeld domain_hash (arena ++ more) h) os
  IsHeld-append h [] k = tt
  IsHeld-append h (o ∷ os) (p, k) = (rw (domain_at-append arena more o p.0) p, IsHeld-append h os k)

  Distinct-append :
      (h : ℕ) (os : List ℕ)
      → All (IsHeld domain_hash arena h) os
      → Distinct arena os
      → Distinct (arena ++ more) os
  Distinct-append h [] k d = tt
  Distinct-append h (o ∷ os) (p, k) (q, d) = (
    rw (domain_at-append arena more o p.0, any-domain_eq-append h (domain_at arena o) os k) q,
    Distinct-append h os k d,
  )

  sum_by-append_arena :
      (h : ℕ) (os : List ℕ)
      → All (IsHeld domain_hash arena h) os
      → sum_by (size_at (arena ++ more)) os ≡ sum_by (size_at arena) os
  sum_by-append_arena h [] k = refl
  sum_by-append_arena h (o ∷ os) (p, k) =
      rw (domain_at-append arena more o p.0, sum_by-append_arena h os k)

  pub IsBuckets-append :
      (index : Index)
      → All (λ b. IsBucket domain_hash arena b.0 b.1) index
      → All (λ b. IsBucket domain_hash (arena ++ more) b.0 b.1) index
  IsBuckets-append [] k = tt
  IsBuckets-append ((h, os) ∷ index) ((held, distinct), k) =
      ((IsHeld-append h os held, Distinct-append h os held distinct), IsBuckets-append index k)

  pub live-append :
      (index : Index)
      → All (λ b. IsBucket domain_hash arena b.0 b.1) index
      → live (arena ++ more) index ≡ live arena index
  live-append [] k = refl
  live-append ((h, os) ∷ index) ((held, distinct), k) =
      rw (sum_by-append_arena h os held, live-append index k)

  pub bucket-IsBucket :
      (h : ℕ) (index : Index)
      → All (λ b. IsBucket domain_hash arena b.0 b.1) index
      → IsBucket domain_hash arena h (bucket h index)
  unfolding bucket
  bucket-IsBucket h [] k = (tt, tt)
  bucket-IsBucket h ((j, os) ∷ index) (b, k) = elim (Bool-cases (j == h)) [
    | inl same ↦ rw same (subst (λ x. IsBucket domain_hash arena x os) ((==_iff j h).0 same) b)
    | inr other ↦ rw other (bucket-IsBucket h index k)
  ]

  pub contains_in-append :
      (index : Index) (d : Bytes)
      → IsIndex domain_hash arena index
      → contains_in (arena ++ more) index d (domain_hash d)
        ≡ contains_in arena index d (domain_hash d)
  contains_in-append index d (_, k) =
      rw
        (
          contains_in-bucket (arena ++ more) index d (domain_hash d),
          contains_in-bucket arena index d (domain_hash d),
        )
        (any-domain_eq-append (domain_hash d) d (bucket (domain_hash d) index)
          (bucket-IsBucket (domain_hash d) index k).0)
