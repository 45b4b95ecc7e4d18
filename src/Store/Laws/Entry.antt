-- ===== src/Store/Laws/Entry.antt =====
-- One index of src/lists.rs after a push: what it contains, and that it stays well formed.
use rustblocker.Base.{
  ℕ, ◌≡◌, refl, sym, ap, subst, false, ◌||◌, List, [], ◌∷◌, ◌++◌, Bytes, arith, any, any-append,
  All, All-append, bytes_eq, bytes_eq_sound, bytes_eq_iff, ◌==◌, ==_iff, Bool-cases, inl, inr,
}
use rustblocker.Store.{Index, domain_at, domain_eq, contains_in}
use rustblocker.Store.Buckets.{entry_push}
use rustblocker.Store.Laws.Index.{bucket, contains_in-bucket, bucket-entry_push}
use rustblocker.Store.Laws.Invariant.{Distinct, IsHeld, IsBucket, IsIndex}
use rustblocker.Store.Laws.Frame.{contains_in-append}

pub bytes_eq_sym : (s t : Bytes) → bytes_eq s t ≡ bytes_eq t s
bytes_eq_sym s t = ground (arith, bytes_eq_iff s t, bytes_eq_iff t s)

Distinct-snoc :
    (arena : Bytes) (os : List ℕ) (o : ℕ)
    → Distinct arena os
    → any (λ p. domain_eq arena p (domain_at arena o)) os ≡ false
    → Distinct arena (os ++ o ∷ [])
unfolding domain_eq
Distinct-snoc arena [] o d n = (refl, tt)
Distinct-snoc arena (p ∷ os) o (q, d) n = (
  rw (any-append (λ r. bytes_eq (domain_at arena r) (domain_at arena p)) os (o ∷ []))
      (ground (arith, bytes_eq_sym (domain_at arena o) (domain_at arena p))),
  Distinct-snoc arena os o d (ground arith),
)

module _ (domain_hash : Bytes → ℕ) where
  pub IsBuckets-entry_push :
      (arena : Bytes) (h o : ℕ) (index : Index)
      → All (λ b. IsBucket domain_hash arena b.0 b.1) index
      → IsHeld domain_hash arena h o
      → any (λ p. domain_eq arena p (domain_at arena o)) (bucket h index) ≡ false
      → All (λ b. IsBucket domain_hash arena b.0 b.1) (entry_push h o index)
  unfolding entry_push bucket
  IsBuckets-entry_push arena h o [] k held n = (((held, tt), (refl, tt)), tt)
  IsBuckets-entry_push arena h o ((j, os) ∷ index) ((all, distinct), k) held n =
      elim (Bool-cases (j == h)) [
        | inl same ↦ rw same (
          (
            All-append (IsHeld domain_hash arena j) os (o ∷ []) all
                (subst (λ x. IsHeld domain_hash arena x o) (sym ((==_iff j h).0 same)) held, tt),
            Distinct-snoc arena os o distinct (rw same at n),
          ),
          k,
        )
        | inr other ↦
            rw other ((all, distinct), IsBuckets-entry_push arena h o index k held (rw other at n))
      ]

  -- The index after an insertion contains what it did, and the new domain.
  pub contains_in-entry_push :
      (arena more : Bytes) (index : Index) (o : ℕ) (d d' : Bytes)
      → IsIndex domain_hash arena index
      → domain_at (arena ++ more) o ≡ d
      → contains_in (arena ++ more) (entry_push (domain_hash d) o index) d' (domain_hash d')
        ≡ (contains_in arena index d' (domain_hash d') || bytes_eq d d')
  unfolding domain_eq
  contains_in-entry_push arena more index o d d' ok e =
      rw
        (
          ← contains_in-append domain_hash arena more index d' ok,
          contains_in-bucket (arena ++ more) index d' (domain_hash d'),
          contains_in-bucket (arena ++ more) (entry_push (domain_hash d) o index) d'
              (domain_hash d'),
          bucket-entry_push (domain_hash d) (domain_hash d') o index,
        )
        (elim (Bool-cases (domain_hash d == domain_hash d')) [
          | inl same ↦
              rw
                (
                  same,
                  (==_iff _ _).0 same,
                  any-append (λ p. bytes_eq (domain_at (arena ++ more) p) d')
                      (bucket (domain_hash d') index) (o ∷ []),
                  e,
                )
                (ground arith)
          | inr other ↦ rw (other, differ other) (ground arith)
        ])
    where
      differ : (domain_hash d == domain_hash d') ≡ false → bytes_eq d d' ≡ false
      differ other = elim (Bool-cases (bytes_eq d d')) [
        | inl eq ↦ absurd (ground (arith, other, ap domain_hash (bytes_eq_sound d d' eq)))
        | inr ne ↦ ne
      ]
