-- ===== src/Store/Laws/Rebuild.antt =====
-- The loop of `merge` and `compact` of src/lists.rs: inserting all domains of an index into a store.
use rustblocker.Base.{
  ℕ, ◌+◌, ◌≤◌, ◌<◌, ◌^◌, ◌≡◌, refl, ap, subst, ◌∙◌, Bool, false, ◌||◌, ◌&&◌, List, [], ◌∷◌, ◌++◌,
  Bytes, arith, any, any-append, length, All, All-append, is_empty, bytes_eq, bytes_eq_sound,
  bytes_eq_iff, if◌then◌else◌, ◌==◌, ==_iff, Bool-cases, inl, inr,
}
use rustblocker.Store.{
  Index, DomainStore, domain_at, domain_eq, contains_in, insert_normalized, insert_offsets,
}
use rustblocker.Store.Buckets.{offsets_of}
use rustblocker.Store.Laws.Index.{bucket, bucket-eq-nil, contains_in-bucket, NoKey, sum_by}
use rustblocker.Store.Laws.Invariant.{Distinct, size_at, IsHeld, IsBucket, IsIndex, Inv}
use rustblocker.Store.Laws.Insert.{
  holds, same_kind, insert_normalized-Inv, insert_normalized-holds, insert_normalized-length_le,
  insert_normalized_counts,
}

-- A domain that can be inserted.
abbrev pub Fits : Bytes → ℕ → Type 0
Fits arena o = (is_empty (domain_at arena o) ≡ false) × (length (domain_at arena o) ≤ 65535)

module _ (domain_hash : Bytes → ℕ) (arena : Bytes) where
  no_other_hash :
      (k : ℕ) (d : Bytes) (os : List ℕ)
      → All (IsHeld domain_hash arena k) os
      → (k == domain_hash d) ≡ false
      → any (λ o. domain_eq arena o d) os ≡ false
  unfolding domain_eq
  no_other_hash k d [] h e = refl
  no_other_hash k d (o ∷ os) (p, h) e = elim (Bool-cases (bytes_eq (domain_at arena o) d)) [
    | inl eq ↦
        absurd (ground (arith, p.1, e, ap domain_hash (bytes_eq_sound (domain_at arena o) d eq)))
    | inr ne ↦ rw ne (no_other_hash k d os h e)
  ]

  -- Walking all offsets finds what the bucket of the hash holds.
  pub any-offsets_of :
      (index : Index) (d : Bytes)
      → IsIndex domain_hash arena index
      → any (λ o. domain_eq arena o d) (offsets_of index)
        ≡ contains_in arena index d (domain_hash d)
  unfolding offsets_of bucket
  any-offsets_of [] d ok = rw (contains_in-bucket arena [] d (domain_hash d))
  any-offsets_of ((k, os) ∷ index) d ((n, keys), (b, k')) =
      rw
        (
          contains_in-bucket arena ((k, os) ∷ index) d (domain_hash d),
          any-append (λ o. domain_eq arena o d) os (offsets_of index),
          any-offsets_of index d (keys, k'),
          contains_in-bucket arena index d (domain_hash d),
        )
        (elim (Bool-cases (k == domain_hash d)) [
          | inl same ↦
              rw
                (
                  same,
                  bucket-eq-nil (domain_hash d) index
                      (subst (λ x. NoKey x index) ((==_iff k (domain_hash d)).0 same) n),
                )
                (ground arith)
          | inr other ↦ rw (other, no_other_hash k d os b.0 other)
        ])

  pub All-Fits :
      (index : Index)
      → All (λ b. IsBucket domain_hash arena b.0 b.1) index
      → All (Fits arena) (offsets_of index)
  unfolding offsets_of
  All-Fits [] k = tt
  All-Fits ((h, os) ∷ index) (b, k) =
      All-append (Fits arena) os (offsets_of index) (fits os b.0) (All-Fits index k)
    where
      fits : (ps : List ℕ) → All (IsHeld domain_hash arena h) ps → All (Fits arena) ps
      fits [] q = tt
      fits (p ∷ ps) (q, r) = ((q.0, q.2), fits ps r)

  Distinct-append_apart :
      (os ps : List ℕ)
      → Distinct arena os
      → Distinct arena ps
      → All (λ o. any (λ p. domain_eq arena p (domain_at arena o)) ps ≡ false) os
      → Distinct arena (os ++ ps)
  Distinct-append_apart [] ps d e a = e
  Distinct-append_apart (o ∷ os) ps (n, d) e (q, a) = (
    rw (any-append (λ p. domain_eq arena p (domain_at arena o)) os ps, n) q,
    Distinct-append_apart os ps d e a,
  )

  -- No domain stands twice in a well-formed index.
  pub Distinct-offsets_of :
      (index : Index) → IsIndex domain_hash arena index → Distinct arena (offsets_of index)
  unfolding offsets_of
  Distinct-offsets_of [] ok = tt
  Distinct-offsets_of ((k, os) ∷ index) ((n, keys), (b, rest)) =
      Distinct-append_apart os (offsets_of index) b.1 (Distinct-offsets_of index (keys, rest))
        (apart os b.0)
    where
      apart :
          (ps : List ℕ)
          → All (IsHeld domain_hash arena k) ps
          → All
              (λ o. any (λ p. domain_eq arena p (domain_at arena o)) (offsets_of index) ≡ false)
              ps
      apart [] h = tt
      apart (p ∷ ps) (q, h) = (
        rw (
          any-offsets_of index (domain_at arena p) (keys, rest),
          contains_in-bucket arena index (domain_at arena p) (domain_hash (domain_at arena p)),
          q.1,
          bucket-eq-nil k index n,
        ),
        apart ps h,
      )

  -- The store after the loop, if no domain of the list stood in it or stands twice in the list.
  module _ (w : Bool) where
    one : DomainStore → ℕ → DomainStore
    one t o = (insert_normalized domain_hash t (domain_at arena o) w).0

    one_room :
        (o : ℕ) (os : List ℕ) (t : DomainStore)
        → Inv domain_hash t
        → length t.arena + sum_by (size_at arena) (o ∷ os) ≤ 2 ^ 32
        → length (one t o).arena + sum_by (size_at arena) os ≤ 2 ^ 32
    unfolding one
    one_room o os t inv room = omega (
      arith,
      (insert_normalized-length_le domain_hash t inv (domain_at arena o) w (omega arith)).0,
    )

    -- The loop keeps the invariant and makes no byte dead.
    pub insert_offsets-Inv :
        (os : List ℕ) (t : DomainStore)
        → Inv domain_hash t
        → length t.arena + sum_by (size_at arena) os ≤ 2 ^ 32
        → Inv domain_hash (insert_offsets domain_hash arena w os t)
          × ((insert_offsets domain_hash arena w os t).dead_bytes ≡ t.dead_bytes)
    unfolding insert_offsets one
    insert_offsets-Inv [] t inv room = (inv, refl)
    insert_offsets-Inv (o ∷ os) t inv room =
        let kept = insert_normalized-Inv domain_hash t inv (domain_at arena o) w (omega arith) in
        let ih = insert_offsets-Inv os (one t o) kept (one_room o os t inv room) in
        (
          ih.0,
          ih.1
              ∙ (insert_normalized-length_le domain_hash t inv (domain_at arena o) w
                  (omega arith)).1,
        )

    -- The arena grows by the entries of the list at most.
    pub insert_offsets-length_le :
        (os : List ℕ) (t : DomainStore)
        → Inv domain_hash t
        → length t.arena + sum_by (size_at arena) os ≤ 2 ^ 32
        → length (insert_offsets domain_hash arena w os t).arena
          ≤ length t.arena + sum_by (size_at arena) os
    unfolding insert_offsets one
    insert_offsets-length_le [] t inv room = omega arith
    insert_offsets-length_le (o ∷ os) t inv room =
        let kept = insert_normalized-Inv domain_hash t inv (domain_at arena o) w (omega arith) in
        omega (
          arith,
          insert_offsets-length_le os (one t o) kept (one_room o os t inv room),
          (insert_normalized-length_le domain_hash t inv (domain_at arena o) w (omega arith)).0,
        )

    -- Afterwards the store holds what it did, and each domain of the list.
    pub holds-insert_offsets :
        (os : List ℕ) (t : DomainStore)
        → Inv domain_hash t
        → All (Fits arena) os
        → length t.arena + sum_by (size_at arena) os ≤ 2 ^ 32
        → (w' : Bool) (d : Bytes)
        → holds domain_hash (insert_offsets domain_hash arena w os t) w' d
          ≡ (holds domain_hash t w' d || (same_kind w w' && any (λ o. domain_eq arena o d) os))
    unfolding insert_offsets one
    holds-insert_offsets [] t inv fits room w' d = ground arith
    holds-insert_offsets (o ∷ os) t inv (f, fits) room w' d =
        let kept = insert_normalized-Inv domain_hash t inv (domain_at arena o) w (omega arith) in
        rw
          (
            holds-insert_offsets os (one t o) kept fits (one_room o os t inv room) w' d,
            (insert_normalized-holds domain_hash t inv (domain_at arena o) w (omega arith) f.0
                  f.1).0
                w' d,
          )
          (regroup (holds domain_hash t w' d) (same_kind w w'))
      where
        regroup :
            (h k : Bool)
            → ((h || (k && bytes_eq (domain_at arena o) d))
                || (k && any (λ p. domain_eq arena p d) os))
              ≡ (h || (k && any (λ p. domain_eq arena p d) (o ∷ os)))
        regroup h k = unfold domain_eq in ground arith

    -- Nothing of the list stands in the store yet.
    abbrev pub IsNew : DomainStore → List ℕ → Type 0
    IsNew t os = All (λ o. holds domain_hash t w (domain_at arena o) ≡ false) os

    IsNew-one :
        (o : ℕ) (os ps : List ℕ) (t : DomainStore)
        → Inv domain_hash t
        → Fits arena o
        → length t.arena < 2 ^ 32
        → any (λ p. domain_eq arena p (domain_at arena o)) ps ≡ false
        → IsNew t ps
        → IsNew (one t o) ps
    unfolding one domain_eq
    IsNew-one o os [] t inv f room d n = tt
    IsNew-one o os (p ∷ ps) t inv f room d (q, n) = (
      rw
          (
            (insert_normalized-holds domain_hash t inv (domain_at arena o) w room f.0 f.1).0 w
                (domain_at arena p),
            q,
          )
          (ground (
            arith,
            bytes_eq_iff (domain_at arena o) (domain_at arena p),
            bytes_eq_iff (domain_at arena p) (domain_at arena o),
          )),
      IsNew-one o os ps t inv f room (ground arith) n,
    )

    -- If no domain of the list stands in the store or twice in the list, each takes its entry.
    pub insert_offsets_counts :
        (os : List ℕ) (t : DomainStore)
        → Inv domain_hash t
        → All (Fits arena) os
        → length t.arena + sum_by (size_at arena) os ≤ 2 ^ 32
        → Distinct arena os
        → IsNew t os
        → (length (insert_offsets domain_hash arena w os t).arena
            ≡ length t.arena + sum_by (size_at arena) os)
          × ((insert_offsets domain_hash arena w os t).exact_count
              ≡ t.exact_count + (if w then 0 else length os))
          × ((insert_offsets domain_hash arena w os t).wildcard_count
              ≡ t.wildcard_count + (if w then length os else 0))
    unfolding insert_offsets one
    insert_offsets_counts [] t inv fits room d n = ground arith
    insert_offsets_counts (o ∷ os) t inv (f, fits) room (e, d) (q, n) =
        let kept = insert_normalized-Inv domain_hash t inv (domain_at arena o) w (omega arith) in
        let step =
          insert_normalized_counts domain_hash t inv (domain_at arena o) w (omega arith) f.0 f.1
            q in
        let ih =
          insert_offsets_counts os (one t o) kept fits (one_room o os t inv room) d
            (IsNew-one o os os t inv f (omega arith) e n) in
        ground (arith, step, ih)
