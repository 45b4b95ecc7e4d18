-- ===== src/Store/Laws/Merge.antt =====
-- `merge` of src/lists.rs: the union of two stores.
use rustblocker.Base.{
  ℕ, ◌+◌, ◌≤◌, ◌^◌, ◌≡◌, ◌∙◌, Bool, true, false, ◌||◌, ◌&&◌, Bytes, arith, length,
}
use rustblocker.Store.{DomainStore, contains_in, index_of, insert_offsets, merge}
use rustblocker.Store.Buckets.{offsets_of}
use rustblocker.Store.Laws.Index.{sum_by, weight-offsets_of}
use rustblocker.Store.Laws.Invariant.{size_at, Inv}
use rustblocker.Store.Laws.Insert.{holds, same_kind}
use rustblocker.Store.Laws.Rebuild.{
  any-offsets_of, All-Fits, insert_offsets-Inv, holds-insert_offsets, insert_offsets-length_le,
}

module _ (domain_hash : Bytes → ℕ) (s other : DomainStore) (inv : Inv domain_hash s)
    (well : Inv domain_hash other) where
  half : DomainStore
  half = insert_offsets domain_hash other.arena false (offsets_of other.exact) s

  module _ (room : length s.arena + length other.arena ≤ 2 ^ 32) where
    exact_room : length s.arena + sum_by (size_at other.arena) (offsets_of other.exact) ≤ 2 ^ 32
    exact_room = omega (arith, weight-offsets_of (size_at other.arena) other.exact, well.space)

    half_room :
        length half.arena + sum_by (size_at other.arena) (offsets_of other.wildcards) ≤ 2 ^ 32
    unfolding half
    half_room = omega (
      arith,
      weight-offsets_of (size_at other.arena) other.exact,
      weight-offsets_of (size_at other.arena) other.wildcards,
      well.space,
      insert_offsets-length_le domain_hash other.arena false (offsets_of other.exact) s inv
          exact_room,
    )

    half-Inv : Inv domain_hash half
    unfolding half
    half-Inv =
        (insert_offsets-Inv domain_hash other.arena false (offsets_of other.exact) s inv
          exact_room).0

    -- When both arenas fit in 2^32 bytes together, the merged store keeps the invariant and holds
    -- exactly what one of the two held, for exact names and for wildcards.
    pub merge-holds :
        Inv domain_hash (merge domain_hash s other)
        × ((w : Bool) (d : Bytes)
            → holds domain_hash (merge domain_hash s other) w d
              ≡ (holds domain_hash s w d || holds domain_hash other w d))
    unfolding merge half
    merge-holds = (
      (insert_offsets-Inv domain_hash other.arena true (offsets_of other.wildcards) half half-Inv
          half_room).0,
      names,
    )
      where
        gather :
            (w : Bool) (d : Bytes)
            → ((holds domain_hash s w d
                  || (same_kind false w && contains_in other.arena other.exact d (domain_hash d)))
                || (same_kind true w && contains_in other.arena other.wildcards d (domain_hash d)))
              ≡ (holds domain_hash s w d || holds domain_hash other w d)
        gather true d = unfold index_of in ground arith
        gather false d = unfold index_of in ground arith

        names :
            (w : Bool) (d : Bytes)
            → holds domain_hash (merge domain_hash s other) w d
              ≡ (holds domain_hash s w d || holds domain_hash other w d)
        names w d =
            holds-insert_offsets domain_hash other.arena true (offsets_of other.wildcards) half
              half-Inv (All-Fits domain_hash other.arena other.wildcards well.wildcards_ok.1)
              half_room w d
            ∙ rw
                (
                  holds-insert_offsets domain_hash other.arena false (offsets_of other.exact) s inv
                      (All-Fits domain_hash other.arena other.exact well.exact_ok.1) exact_room w d,
                  any-offsets_of domain_hash other.arena other.exact d well.exact_ok,
                  any-offsets_of domain_hash other.arena other.wildcards d well.wildcards_ok,
                )
                (gather w d)
