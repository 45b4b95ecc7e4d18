-- ===== src/Store/Laws/Insert.antt =====
-- `insert_normalized` of src/lists.rs: the invariant, and what the store contains afterwards.
use rustblocker.Base.{
  ℕ, ◌+◌, ◌≤◌, ◌<◌, ◌^◌, ◌%◌, ◌≡◌, refl, subst, Bool, true, false, not, ◌||◌, ◌&&◌, ◌++◌, Bytes,
  arith, any, length, length-append, is_empty, bytes_eq, bytes_eq_sound, if◌then◌else◌, ltb,
  Bool-cases, inl, inr,
}
use rustblocker.Store.{
  Index, DomainStore, domain_at, domain_eq, contains_in, encoded, index_of, insert_normalized,
}
use rustblocker.Store.Buckets.{entry_push}
use rustblocker.Store.Laws.Arena.{domain_at-encoded, length-encoded}
use rustblocker.Store.Laws.Index.{
  bucket, contains_in-bucket, DistinctKeys-entry_push, weight-entry_push,
}
use rustblocker.Store.Laws.Invariant.{size_at, live, IsHeld, IsIndex, Inv}
use rustblocker.Store.Laws.Entry.{IsBuckets-entry_push, contains_in-entry_push}
use rustblocker.Store.Laws.Frame.{IsBuckets-append, live-append, contains_in-append}

-- Two flags agree.
abbrev pub same_kind : Bool → Bool → Bool
same_kind true w = w
same_kind false w = not w

kinds : (w w' : Bool) → same_kind w w' ≡ true → w ≡ w'
kinds true true h = refl
kinds true false h = cc
kinds false true h = cc
kinds false false h = refl

or_true : (b : Bool) → b ≡ true → b ≡ (b || true)
or_true b h = ground arith

or_false : (b : Bool) → b ≡ (b || false)
or_false b = ground arith

module _ (domain_hash : Bytes → ℕ) where
  -- Whether the store holds a domain as an exact name or as a wildcard.
  abbrev pub holds : DomainStore → Bool → Bytes → Bool
  holds s wildcard d = contains_in s.arena (index_of s wildcard) d (domain_hash d)

  -- The store after a domain that is new went to the end of the arena.
  added : DomainStore → Bytes → Bool → DomainStore
  added s d true = record s {
    arena = s.arena ++ encoded d;
    wildcards = entry_push (domain_hash d) (length s.arena) s.wildcards;
    wildcard_count = s.wildcard_count + 1;
  }
  added s d false = record s {
    arena = s.arena ++ encoded d;
    exact = entry_push (domain_hash d) (length s.arena) s.exact;
    exact_count = s.exact_count + 1;
  }

  insert_normalized_new :
      (s : DomainStore) (d : Bytes) (w : Bool)
      → length s.arena < 2 ^ 32
      → is_empty d ≡ false
      → length d ≤ 65535
      → holds s w d ≡ false
      → insert_normalized domain_hash s d w ≡ (added s d w, true)
  unfolding insert_normalized added index_of
  insert_normalized_new s d true room e h n = rw (e, n, fits, whole)
    where
      fits : ltb 65535 (length d) ≡ false
      fits = ground arith

      whole : length s.arena % 2 ^ 32 ≡ length s.arena
      whole = omega arith
  insert_normalized_new s d false room e h n = rw (e, n, fits, whole)
    where
      fits : ltb 65535 (length d) ≡ false
      fits = ground arith

      whole : length s.arena % 2 ^ 32 ≡ length s.arena
      whole = omega arith

  -- A domain that is empty, too long or held already leaves the store as it is.
  pub insert_normalized_kept :
      (s : DomainStore) (d : Bytes) (w : Bool)
      → (is_empty d || (ltb 65535 (length d) || holds s w d)) ≡ true
      → insert_normalized domain_hash s d w ≡ (s, false)
  unfolding insert_normalized
  insert_normalized_kept s d w h = ground arith

  module _ (s : DomainStore) (inv : Inv domain_hash s) (d : Bytes) where
    new_IsHeld :
        is_empty d ≡ false
        → length d ≤ 65535
        → IsHeld domain_hash (s.arena ++ encoded d) (domain_hash d) (length s.arena)
    new_IsHeld e h = rw (domain_at-encoded s.arena d h) (e, refl, h)

    new-Distinct :
        (index : Index)
        → IsIndex domain_hash s.arena index
        → length d ≤ 65535
        → contains_in s.arena index d (domain_hash d) ≡ false
        → any
            (λ p.
              domain_eq
                (s.arena ++ encoded d)
                p
                (domain_at (s.arena ++ encoded d) (length s.arena)))
            (bucket (domain_hash d) index)
          ≡ false
    new-Distinct index ok h n =
        rw
          (
            domain_at-encoded s.arena d h,
            ← contains_in-bucket (s.arena ++ encoded d) index d (domain_hash d),
            contains_in-append domain_hash s.arena (encoded d) index d ok,
          )
          n

    new_index :
        (index : Index)
        → IsIndex domain_hash s.arena index
        → is_empty d ≡ false
        → length d ≤ 65535
        → contains_in s.arena index d (domain_hash d) ≡ false
        → IsIndex domain_hash
            (s.arena ++ encoded d)
            (entry_push (domain_hash d) (length s.arena) index)
    new_index index ok e h n = (
      DistinctKeys-entry_push (domain_hash d) (length s.arena) index ok.0,
      IsBuckets-entry_push domain_hash (s.arena ++ encoded d) (domain_hash d) (length s.arena) index
          (IsBuckets-append domain_hash s.arena (encoded d) index ok.1) (new_IsHeld e h)
          (new-Distinct index ok h n),
    )

    old_index :
        (index : Index)
        → IsIndex domain_hash s.arena index
        → IsIndex domain_hash (s.arena ++ encoded d) index
    old_index index ok = (ok.0, IsBuckets-append domain_hash s.arena (encoded d) index ok.1)

    new_space :
        (index : Index)
        → IsIndex domain_hash s.arena index
        → length d ≤ 65535
        → live (s.arena ++ encoded d) (entry_push (domain_hash d) (length s.arena) index)
          ≡ live s.arena index + 2 + length d
    new_space index ok h =
        rw
          (
            weight-entry_push (size_at (s.arena ++ encoded d)) (domain_hash d) (length s.arena)
                index,
            live-append domain_hash s.arena (encoded d) index ok.1,
            domain_at-encoded s.arena d h,
          )
          (omega arith)

    added-Inv :
        (w : Bool)
        → is_empty d ≡ false
        → length d ≤ 65535
        → holds s w d ≡ false
        → Inv domain_hash (added s d w)
    unfolding added index_of
    added-Inv true e h n = record {
      exact_ok = old_index s.exact inv.exact_ok;
      wildcards_ok = new_index s.wildcards inv.wildcards_ok e h n;
      exact_counted = inv.exact_counted;
      wildcards_counted = omega (
        arith,
        inv.wildcards_counted,
        weight-entry_push (λ o. 1) (domain_hash d) (length s.arena) s.wildcards,
      );
      space = omega (
        arith,
        inv.space,
        length-append s.arena (encoded d),
        length-encoded d,
        new_space s.wildcards inv.wildcards_ok h,
        live-append domain_hash s.arena (encoded d) s.exact inv.exact_ok.1,
      );
    }
    added-Inv false e h n = record {
      exact_ok = new_index s.exact inv.exact_ok e h n;
      wildcards_ok = old_index s.wildcards inv.wildcards_ok;
      exact_counted = omega (
        arith,
        inv.exact_counted,
        weight-entry_push (λ o. 1) (domain_hash d) (length s.arena) s.exact,
      );
      wildcards_counted = inv.wildcards_counted;
      space = omega (
        arith,
        inv.space,
        length-append s.arena (encoded d),
        length-encoded d,
        new_space s.exact inv.exact_ok h,
        live-append domain_hash s.arena (encoded d) s.wildcards inv.wildcards_ok.1,
      );
    }

    holds-added :
        (w w' : Bool) (d' : Bytes)
        → length d ≤ 65535
        → holds (added s d w) w' d' ≡ (holds s w' d' || (same_kind w w' && bytes_eq d d'))
    unfolding added index_of
    holds-added true true d' h =
        contains_in-entry_push domain_hash s.arena (encoded d) s.wildcards (length s.arena) d d'
          inv.wildcards_ok (domain_at-encoded s.arena d h)
    holds-added true false d' h =
        rw (contains_in-append domain_hash s.arena (encoded d) s.exact d' inv.exact_ok)
          (ground arith)
    holds-added false true d' h =
        rw (contains_in-append domain_hash s.arena (encoded d) s.wildcards d' inv.wildcards_ok)
          (ground arith)
    holds-added false false d' h =
        contains_in-entry_push domain_hash s.arena (encoded d) s.exact (length s.arena) d d'
          inv.exact_ok (domain_at-encoded s.arena d h)

    -- With room below 2^32 bytes, inserting keeps the invariant, whatever the domain.
    pub insert_normalized-Inv :
        (w : Bool)
        → length s.arena < 2 ^ 32
        → Inv domain_hash (insert_normalized domain_hash s d w).0
    insert_normalized-Inv w room =
        elim (Bool-cases (is_empty d || (ltb 65535 (length d) || holds s w d))) [
          | inl kept ↦ rw (insert_normalized_kept s d w kept) inv
          | inr new ↦
              rw (insert_normalized_new s d w room (ground arith) (ground arith) (ground arith))
                (added-Inv w (ground arith) (ground arith) (ground arith))
        ]

    -- Inserting a domain that fits adds it to the names of its kind and changes nothing else; the
    -- result says whether it was new.
    pub insert_normalized-holds :
        (w : Bool)
        → length s.arena < 2 ^ 32
        → is_empty d ≡ false
        → length d ≤ 65535
        → ((w' : Bool) (d' : Bytes)
            → holds (insert_normalized domain_hash s d w).0 w' d'
              ≡ (holds s w' d' || (same_kind w w' && bytes_eq d d')))
          × ((insert_normalized domain_hash s d w).1 ≡ not (holds s w d))
    insert_normalized-holds w room e h = elim (Bool-cases (holds s w d)) [
      | inl old ↦
          rw (insert_normalized_kept s d w (ground arith)) (λ w' d'. already w' d' old, rw old)
      | inr new ↦
          rw (insert_normalized_new s d w room e h new) (λ w' d'. holds-added w w' d' h, rw new)
    ]
      where
        already :
            (w' : Bool) (d' : Bytes)
            → holds s w d ≡ true
            → holds s w' d' ≡ (holds s w' d' || (same_kind w w' && bytes_eq d d'))
        already w' d' old = elim (Bool-cases (same_kind w w' && bytes_eq d d')) [
          | inl both ↦ rw both (
              or_true (holds s w' d') (
                subst (λ x. holds s w' x ≡ true) (bytes_eq_sound d d' (ground arith))
                  (subst (λ x. holds s x d ≡ true) (kinds w w' (ground arith)) old)))
          | inr other ↦ rw other (or_false (holds s w' d'))
        ]

    -- The arena grows, by the entry at most, and no byte becomes dead.
    pub insert_normalized-length_le :
        (w : Bool)
        → length s.arena < 2 ^ 32
        → (length (insert_normalized domain_hash s d w).0.arena ≤ length s.arena + (2 + length d))
          × ((insert_normalized domain_hash s d w).0.dead_bytes ≡ s.dead_bytes)
          × (length s.arena ≤ length (insert_normalized domain_hash s d w).0.arena)
    insert_normalized-length_le w room =
        elim (Bool-cases (is_empty d || (ltb 65535 (length d) || holds s w d))) [
          | inl kept ↦ rw (insert_normalized_kept s d w kept) (omega arith, refl, omega arith)
          | inr new ↦
              rw (insert_normalized_new s d w room (ground arith) (ground arith) (ground arith))
                (grown w)
        ]
      where
        grown :
            (x : Bool)
            → (length (added s d x).arena ≤ length s.arena + (2 + length d))
              × ((added s d x).dead_bytes ≡ s.dead_bytes)
              × (length s.arena ≤ length (added s d x).arena)
        grown true =
            unfold added in
            (
              omega (arith, length-append s.arena (encoded d), length-encoded d),
              refl,
              omega (arith, length-append s.arena (encoded d)),
            )
        grown false =
            unfold added in
            (
              omega (arith, length-append s.arena (encoded d), length-encoded d),
              refl,
              omega (arith, length-append s.arena (encoded d)),
            )

    -- A new domain that fits makes the arena longer by its entry and raises the count of its kind.
    pub insert_normalized_counts :
        (w : Bool)
        → length s.arena < 2 ^ 32
        → is_empty d ≡ false
        → length d ≤ 65535
        → holds s w d ≡ false
        → (length (insert_normalized domain_hash s d w).0.arena ≡ length s.arena + (2 + length d))
          × ((insert_normalized domain_hash s d w).0.exact_count
              ≡ s.exact_count + (if w then 0 else 1))
          × ((insert_normalized domain_hash s d w).0.wildcard_count
              ≡ s.wildcard_count + (if w then 1 else 0))
    insert_normalized_counts w room e h n = rw (insert_normalized_new s d w room e h n) (grown w)
      where
        grown :
            (x : Bool)
            → (length (added s d x).arena ≡ length s.arena + (2 + length d))
              × ((added s d x).exact_count ≡ s.exact_count + (if x then 0 else 1))
              × ((added s d x).wildcard_count ≡ s.wildcard_count + (if x then 1 else 0))
        grown true =
            unfold added in
            (
              omega (arith, length-append s.arena (encoded d), length-encoded d),
              omega arith,
              omega arith,
            )
        grown false =
            unfold added in
            (
              omega (arith, length-append s.arena (encoded d), length-encoded d),
              omega arith,
              omega arith,
            )
