-- ===== src/Store/Laws/Compact.antt =====
-- `compact` and `maybe_compact` of src/lists.rs: the arena without its holes, the same names.
use rustblocker.Base.{
  ℕ, ◌+◌, ◌≤◌, ◌^◌, ◌≡◌, refl, sym, ap, ◌∙◌, Bool, true, false, ◌||◌, ◌&&◌, List, [], ◌∷◌, Bytes,
  arith, any, length, All, ◌==◌, ltb, Bool-cases, inl, inr, u64_mul,
}
use rustblocker.Store.{
  Index, DomainStore, empty_store, domain_at, domain_eq, contains_in, index_of, len, insert_offsets,
  compact, maybe_compact,
}
use rustblocker.Store.Buckets.{offsets_of}
use rustblocker.Store.Laws.Index.{bucket, sum_by, weight-offsets_of}
use rustblocker.Store.Laws.Invariant.{size_at, live, entries, IsIndex, Inv, IsTidy, empty_store-Inv}
use rustblocker.Store.Laws.Insert.{holds, same_kind}
use rustblocker.Store.Laws.Remove.{sum_by-one}
use rustblocker.Store.Laws.Rebuild.{
  Fits, IsNew, any-offsets_of, All-Fits, Distinct-offsets_of, insert_offsets-Inv,
  holds-insert_offsets, insert_offsets_counts,
}

module _ (domain_hash : Bytes → ℕ) where
  -- `t` holds the names of `s` with as many entries, and its arena has no dead bytes.
  pub record Compacted (s t : DomainStore) : Type 0 where
    pub inv : Inv domain_hash t
    pub same : (w : Bool) (d : Bytes) → holds domain_hash t w d ≡ holds domain_hash s w d
    pub exact_same : t.exact_count ≡ s.exact_count
    pub wildcards_same : t.wildcard_count ≡ s.wildcard_count
    pub clean : t.dead_bytes ≡ 0
    pub tight : length t.arena ≡ live s.arena s.exact + live s.arena s.wildcards

  length-offsets_of : (index : Index) → length (offsets_of index) ≡ entries index
  length-offsets_of index = sym (sum_by-one (offsets_of index)) ∙ weight-offsets_of (λ o. 1) index

  length-eq-zero : (os : List ℕ) → length os ≡ 0 → os ≡ []
  length-eq-zero [] h = refl
  length-eq-zero (o ∷ os) h = absurd (omega arith)

  module _ (s : DomainStore) (inv : Inv domain_hash s) where
    no_entries :
        (index : Index)
        → IsIndex domain_hash s.arena index
        → entries index ≡ 0
        → (d : Bytes) → contains_in s.arena index d (domain_hash d) ≡ false
    no_entries index ok e d =
        sym (any-offsets_of domain_hash s.arena index d ok)
        ∙ ap (any (λ o. domain_eq s.arena o d)) none
      where
        none : offsets_of index ≡ []
        none = length-eq-zero (offsets_of index) (length-offsets_of index ∙ e)

    weightless : (index : Index) → entries index ≡ 0 → live s.arena index ≡ 0
    weightless index e =
        sym (weight-offsets_of (size_at s.arena) index) ∙ ap (sum_by (size_at s.arena)) none
      where
        none : offsets_of index ≡ []
        none = length-eq-zero (offsets_of index) (length-offsets_of index ∙ e)

    empty-Compacted :
        len s ≡ 0
        → Compacted s (record s { arena = []; exact = []; wildcards = []; dead_bytes = 0 })
    unfolding len contains_in bucket
    empty-Compacted e = record {
      inv = record {
        exact_ok = (tt, tt);
        wildcards_ok = (tt, tt);
        exact_counted = omega arith;
        wildcards_counted = omega arith;
        space = omega arith;
      };
      same = gone;
      exact_same = refl;
      wildcards_same = refl;
      clean = refl;
      tight = omega (
        arith,
        weightless s.exact (omega (arith, inv.exact_counted)),
        weightless s.wildcards (omega (arith, inv.wildcards_counted)),
      );
    }
      where
        gone :
            (w : Bool) (d : Bytes)
            → holds domain_hash
                (record s { arena = []; exact = []; wildcards = []; dead_bytes = 0 })
                w
                d
              ≡ holds domain_hash s w d
        gone true d =
            unfold index_of in
            sym (no_entries s.wildcards inv.wildcards_ok (omega (arith, inv.wildcards_counted)) d)
        gone false d =
            unfold index_of in
            sym (no_entries s.exact inv.exact_ok (omega (arith, inv.exact_counted)) d)

    -- The fresh store after the exact domains, and after the wildcards.
    half : DomainStore
    half = insert_offsets domain_hash s.arena false (offsets_of s.exact) empty_store

    whole : DomainStore
    whole = insert_offsets domain_hash s.arena true (offsets_of s.wildcards) half

    module _ (room : length s.arena ≤ 2 ^ 32) where
      exact_sum : sum_by (size_at s.arena) (offsets_of s.exact) ≡ live s.arena s.exact
      exact_sum = weight-offsets_of (size_at s.arena) s.exact

      wildcards_sum : sum_by (size_at s.arena) (offsets_of s.wildcards) ≡ live s.arena s.wildcards
      wildcards_sum = weight-offsets_of (size_at s.arena) s.wildcards

      half_room : length empty_store.arena + sum_by (size_at s.arena) (offsets_of s.exact) ≤ 2 ^ 32
      half_room = omega (arith, exact_sum, inv.space)

      half-Inv : Inv domain_hash half × (half.dead_bytes ≡ 0)
      half-Inv =
          unfold half in
          (insert_offsets-Inv domain_hash s.arena false (offsets_of s.exact) empty_store
            (empty_store-Inv domain_hash) half_room)

      nothing_yet : (w : Bool) (d : Bytes) → holds domain_hash empty_store w d ≡ false
      nothing_yet true d = unfold index_of contains_in in refl
      nothing_yet false d = unfold index_of contains_in in refl

      half-holds :
          (w : Bool) (d : Bytes)
          → holds domain_hash half w d ≡ (same_kind false w && holds domain_hash s false d)
      half-holds w d =
          unfold half index_of in
          (rw
            (
              holds-insert_offsets domain_hash s.arena false (offsets_of s.exact) empty_store
                  (empty_store-Inv domain_hash)
                  (All-Fits domain_hash s.arena s.exact inv.exact_ok.1) half_room w d,
              any-offsets_of domain_hash s.arena s.exact d inv.exact_ok,
            )
            (rw (nothing_yet w d)))

      all-IsNew :
          (w : Bool) (t : DomainStore) (os : List ℕ)
          → ((d : Bytes) → holds domain_hash t w d ≡ false)
          → IsNew domain_hash s.arena w t os
      all-IsNew w t [] h = tt
      all-IsNew w t (o ∷ os) h = (h (domain_at s.arena o), all-IsNew w t os h)

      half_counts :
          (length half.arena ≡ live s.arena s.exact)
          × (half.exact_count ≡ s.exact_count)
          × (half.wildcard_count ≡ 0)
      half_counts =
          unfold half in
          (let c =
              insert_offsets_counts domain_hash s.arena false (offsets_of s.exact) empty_store
                (empty_store-Inv domain_hash) (All-Fits domain_hash s.arena s.exact inv.exact_ok.1)
                half_room (Distinct-offsets_of domain_hash s.arena s.exact inv.exact_ok)
                (all-IsNew false empty_store (offsets_of s.exact) (nothing_yet false)) in
            (
              omega (arith, c.0, exact_sum),
              omega (arith, c.1, inv.exact_counted, length-offsets_of s.exact),
              omega (arith, c.2),
            ))

      whole_room : length half.arena + sum_by (size_at s.arena) (offsets_of s.wildcards) ≤ 2 ^ 32
      whole_room = omega (arith, half_counts.0, wildcards_sum, inv.space)

      whole-Compacted : Compacted s whole
      unfolding whole
      whole-Compacted =
          let fits = All-Fits domain_hash s.arena s.wildcards inv.wildcards_ok.1 in
          let kept =
            insert_offsets-Inv domain_hash s.arena true (offsets_of s.wildcards) half half-Inv.0
              whole_room in
          let c =
            insert_offsets_counts domain_hash s.arena true (offsets_of s.wildcards) half half-Inv.0
              fits whole_room (Distinct-offsets_of domain_hash s.arena s.wildcards inv.wildcards_ok)
              (all-IsNew true half (offsets_of s.wildcards) (λ d. half-holds true d)) in
          record {
            inv = kept.0;
            same = names fits;
            exact_same = omega (arith, c.1, half_counts.1);
            wildcards_same =
                omega
                  (arith, c.2, half_counts.2, inv.wildcards_counted, length-offsets_of s.wildcards);
            clean = kept.1 ∙ half-Inv.1;
            tight = omega (arith, c.0, half_counts.0, wildcards_sum);
          }
        where
          names :
              All (Fits s.arena) (offsets_of s.wildcards)
              → (w : Bool) (d : Bytes) → holds domain_hash whole w d ≡ holds domain_hash s w d
          names fits w d =
              holds-insert_offsets domain_hash s.arena true (offsets_of s.wildcards) half half-Inv.0
                fits whole_room w d
              ∙ rw
                  (
                    half-holds w d,
                    any-offsets_of domain_hash s.arena s.wildcards d inv.wildcards_ok,
                  )
                  (both w d)
            where
              both :
                  (x : Bool) (e : Bytes)
                  → ((same_kind false x && holds domain_hash s false e)
                      || (same_kind true x && contains_in s.arena s.wildcards e (domain_hash e)))
                    ≡ holds domain_hash s x e
              both true e = unfold index_of in refl
              both false e = ground arith

      -- Compaction keeps the names and the counts, and leaves no dead byte.
      pub compact-Compacted : Compacted s (compact domain_hash s)
      unfolding compact half whole
      compact-Compacted = elim (Bool-cases (len s == 0)) [
        | inl none ↦ rw none (empty-Compacted (ground arith))
        | inr more ↦ rw more whole-Compacted
      ]

  -- `maybe_compact` keeps the names, leaves a tidy arena whatever it was given, and never a longer
  -- one.
  pub maybe_compact_lem :
      (s : DomainStore)
      → Inv domain_hash s
      → length s.arena ≤ 2 ^ 32
      → Inv domain_hash (maybe_compact domain_hash s)
        × ((w : Bool) (d : Bytes)
            → holds domain_hash (maybe_compact domain_hash s) w d ≡ holds domain_hash s w d)
        × IsTidy (maybe_compact domain_hash s)
        × (length (maybe_compact domain_hash s).arena ≤ length s.arena)
  unfolding maybe_compact
  maybe_compact_lem s inv room = elim (Bool-cases (len s == 0)) [
    | inl none ↦ rw none compacted
    | inr more ↦
        elim (Bool-cases (ltb 0 s.dead_bytes && ltb (length s.arena) (u64_mul s.dead_bytes 4))) [
          | inl wasted ↦ rw (more, wasted) compacted
          | inr fine ↦ rw (more, fine) (inv, (λ w d. refl), tidy fine, omega arith)
        ]
  ]
    where
      compacted :
          Inv domain_hash (compact domain_hash s)
          × ((w : Bool) (d : Bytes)
              → holds domain_hash (compact domain_hash s) w d ≡ holds domain_hash s w d)
          × IsTidy (compact domain_hash s)
          × (length (compact domain_hash s).arena ≤ length s.arena)
      compacted =
          let c = compact-Compacted s inv room in
          (c.inv, c.same, omega (arith, c.clean), omega (arith, c.tight, inv.space))

      tidy :
          (ltb 0 s.dead_bytes && ltb (length s.arena) (u64_mul s.dead_bytes 4)) ≡ false → IsTidy s
      tidy h = ground (arith, inv.space)
