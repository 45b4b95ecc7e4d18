-- ===== src/Store/Laws/Removed.antt =====
-- `remove_from_index` of src/lists.rs, whole: the index that it leaves, its count and its bytes.
use rustblocker.Base.{
  ℕ, ◌+◌, ◌-◌, ◌≤◌, ◌≡◌, sym, ap, subst, true, false, not, ◌&&◌, none, some, List, [], ◌∷◌, Bytes,
  arith, any, length, All, All-retain, is_empty, bytes_eq, bytes_eq_sound, if◌then◌else◌, ◌==◌,
  ==_iff, Bool-cases, Option-cases, inl, inr,
}
use rustblocker.Store.{
  Index, domain_at, domain_eq, contains_in, kept_offsets, freed_bytes, remove_from_index,
}
use rustblocker.Store.Buckets.{get, put, remove}
use rustblocker.Store.Laws.Index.{
  bucket, contains_in-bucket, bucket_of_get, bucket_of_get-none, sum_by, weight-put, weight-remove,
}
use rustblocker.Store.Laws.Invariant.{size_at, entries, IsHeld, IsBucket, IsIndex}
use rustblocker.Store.Laws.Remove.{
  any-kept_offsets, Distinct-kept, one_if, none_left, kept_entries, kept_sizes, freed-eq_size,
  sum_by-one, is_empty-eq, Rebucketed, put-Rebucketed, remove-Rebucketed, IsBuckets-put,
  IsBuckets-remove, Removes,
}
use rustblocker.Store.Laws.Frame.{bucket-IsBucket}

module _ (domain_hash : Bytes → ℕ) (arena : Bytes) (index : Index) (d : Bytes) where
  module _ (ok : IsIndex domain_hash arena index) where
    -- A name of another hash is looked for in a bucket that stays.
    differ : (d' : Bytes) → (domain_hash d == domain_hash d') ≡ false → bytes_eq d d' ≡ false
    differ d' other = elim (Bool-cases (bytes_eq d d')) [
      | inl eq ↦ absurd (ground (arith, other, ap domain_hash (bytes_eq_sound d d' eq)))
      | inr ne ↦ ne
    ]

    contains-Rebucketed :
        (os : List ℕ) (index' : Index)
        → bucket (domain_hash d) index ≡ os
        → Rebucketed index (domain_hash d) os (kept_offsets arena d os) index'
        → (d' : Bytes)
        → contains_in arena index' d' (domain_hash d')
          ≡ (contains_in arena index d' (domain_hash d') && not (bytes_eq d d'))
    contains-Rebucketed os index' e b d' =
        rw
          (
            contains_in-bucket arena index' d' (domain_hash d'),
            contains_in-bucket arena index d' (domain_hash d'),
            b.at (domain_hash d'),
          )
          (elim (Bool-cases (domain_hash d == domain_hash d')) [
            | inl same ↦ rw (same, ← (==_iff _ _).0 same, e) (any-kept_offsets arena d d' os)
            | inr other ↦ rw (other, differ d' other) (ground arith)
          ])

    held_short :
        (h : ℕ) (os : List ℕ)
        → All (IsHeld domain_hash arena h) os
        → All (λ o. length (domain_at arena o) ≤ 65535) os
    held_short h [] k = tt
    held_short h (o ∷ os) (p, k) = (p.2, held_short h os k)

    module _ (os : List ℕ) (found : get (domain_hash d) index ≡ some os) where
      here : bucket (domain_hash d) index ≡ os
      here = bucket_of_get (domain_hash d) index os found

      healthy : IsBucket domain_hash arena (domain_hash d) os
      healthy =
          subst (IsBucket domain_hash arena (domain_hash d)) here
            (bucket-IsBucket domain_hash arena [] (domain_hash d) index ok.1)

      kept_healthy : IsBucket domain_hash arena (domain_hash d) (kept_offsets arena d os)
      kept_healthy = (
        unfold kept_offsets in
            All-retain (IsHeld domain_hash arena (domain_hash d))
              (λ offset. not (domain_eq arena offset d)) os healthy.0,
        Distinct-kept arena d os healthy.1,
      )

      short : All (λ o. length (domain_at arena o) ≤ 65535) os
      short = held_short (domain_hash d) os healthy.0

      any_here : contains_in arena index d (domain_hash d) ≡ any (λ o. domain_eq arena o d) os
      any_here = rw (contains_in-bucket arena index d (domain_hash d), here)

      drops :
          length (kept_offsets arena d os) + one_if (contains_in arena index d (domain_hash d))
          ≡ length os
      drops = rw any_here (kept_entries arena d os healthy.1)

      -- Whichever way the bucket changes, the sums follow.
      Removes-of :
          (index' : Index)
          → Rebucketed index (domain_hash d) os (kept_offsets arena d os) index'
          → All (λ b. IsBucket domain_hash arena b.0 b.1) index'
          → (count : ℕ) → count ≡ entries index'
          → Removes domain_hash arena index d
              (record { index = index'; count = count; freed = freed_bytes arena d os })
      Removes-of index' b k count c = record {
        ok = (b.keys, k);
        counted = c;
        space = omega (arith, b.weighs (size_at arena), kept_sizes arena d os healthy.1 short);
        freed = rw any_here (freed-eq_size arena d os healthy.1 short);
        contains = contains-Rebucketed os index' here b;
      }

      -- `removed == 0`: nothing was dropped, and the bucket is written back.
      none_gone :
          (count : ℕ)
          → count ≡ entries index
          → (length os - length (kept_offsets arena d os) == 0) ≡ true
          → Removes domain_hash arena index d (record {
            index = put (domain_hash d) (kept_offsets arena d os) index;
            count = count;
            freed = 0;
          })
      none_gone count c h =
          let none : any (λ o. domain_eq arena o d) os ≡ false = missing in
          let same = none_left arena d os none in
          subst
            (λ f. Removes domain_hash arena index d (record {
              index = put (domain_hash d) (kept_offsets arena d os) index;
              count = count;
              freed = f;
            }))
            same.1
            (Removes-of (put (domain_hash d) (kept_offsets arena d os) index)
              (put-Rebucketed index (domain_hash d) os (kept_offsets arena d os) ok.0 found)
              (IsBuckets-put domain_hash arena (domain_hash d) (kept_offsets arena d os) index ok.1
                kept_healthy)
              count
              (omega (
                arith,
                c,
                weight-put (λ o. 1) (domain_hash d) (kept_offsets arena d os) index os found,
                ap (sum_by (λ o. 1)) same.0,
              )))
        where
          missing : any (λ o. domain_eq arena o d) os ≡ false
          missing = ground (arith, kept_entries arena d os healthy.1)

      -- Something was dropped: the count falls by as much, and an empty bucket goes.
      some_gone :
          (count : ℕ)
          → count ≡ entries index
          → Removes domain_hash arena index d (record {
            index =
                if is_empty (kept_offsets arena d os)
                then remove (domain_hash d) index
                else put (domain_hash d) (kept_offsets arena d os) index;
            count = count - (length os - length (kept_offsets arena d os));
            freed = freed_bytes arena d os;
          })
      some_gone count c = elim (Bool-cases (is_empty (kept_offsets arena d os))) [
        | inl all ↦ rw all (
            Removes-of (remove (domain_hash d) index)
              (subst (λ ks. Rebucketed index (domain_hash d) os ks (remove (domain_hash d) index))
                (sym (is_empty-eq (kept_offsets arena d os) all))
                (remove-Rebucketed index (domain_hash d) os ok.0 found))
              (IsBuckets-remove domain_hash arena (domain_hash d) index ok.1)
              (count - (length os - length (kept_offsets arena d os)))
              (omega (
                arith,
                c,
                drops,
                weight-remove (λ o. 1) (domain_hash d) index os found,
                sum_by-one os,
                ap length (is_empty-eq (kept_offsets arena d os) all),
              )))
        | inr more ↦ rw more (
            Removes-of (put (domain_hash d) (kept_offsets arena d os) index)
              (put-Rebucketed index (domain_hash d) os (kept_offsets arena d os) ok.0 found)
              (IsBuckets-put domain_hash arena (domain_hash d) (kept_offsets arena d os) index ok.1
                kept_healthy)
              (count - (length os - length (kept_offsets arena d os)))
              (omega (
                arith,
                c,
                drops,
                weight-put (λ o. 1) (domain_hash d) (kept_offsets arena d os) index os found,
                sum_by-one os,
                sum_by-one (kept_offsets arena d os),
              )))
      ]

    absent :
        (count : ℕ)
        → count ≡ entries index
        → get (domain_hash d) index ≡ none
        → Removes domain_hash arena index d (record { index = index; count = count; freed = 0 })
    absent count c e = record {
      ok = ok;
      counted = c;
      space = omega arith;
      freed = rw nothing;
      contains = others;
    }
      where
        nothing : contains_in arena index d (domain_hash d) ≡ false
        nothing = rw (
          contains_in-bucket arena index d (domain_hash d),
          bucket_of_get-none (domain_hash d) index e,
        )

        others :
            (d' : Bytes)
            → contains_in arena index d' (domain_hash d')
              ≡ (contains_in arena index d' (domain_hash d') && not (bytes_eq d d'))
        others d' = elim (Bool-cases (bytes_eq d d')) [
          | inl eq ↦ rw (eq, ← bytes_eq_sound d d' eq, nothing)
          | inr ne ↦ rw ne (ground arith)
        ]

    -- Removing a domain from a well-formed index takes it out and nothing else, keeps the index
    -- well formed, and gives back as many entries and bytes as it held.
    pub remove_from_index-Removes :
        (count : ℕ)
        → count ≡ entries index
        → Removes domain_hash arena index d (remove_from_index domain_hash arena index count d)
    unfolding remove_from_index
    remove_from_index-Removes count c = elim (Option-cases (get (domain_hash d) index)) [
      | inl e ↦ rw (e, remove_from_index) (absent count c e)
      | inr (os, e) ↦ elim (Bool-cases (length os - length (kept_offsets arena d os) == 0)) [
        | inl same ↦ rw (e, same, remove_from_index) (none_gone os e count c same)
        | inr fewer ↦ rw (e, fewer, remove_from_index) (some_gone os e count c)
      ]
    ]
