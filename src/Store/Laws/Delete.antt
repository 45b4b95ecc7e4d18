-- ===== src/Store/Laws/Delete.antt =====
-- `remove` of src/lists.rs: which names leave the store.
use rustblocker.Base.{
  ℕ, ◌+◌, ◌≤◌, ◌^◌, ◌≡◌, subst, ◌∙◌, Bool, true, false, not, ◌&&◌, Option, none, some, Bytes, codes,
  arith, length, if◌then◌else◌, ltb, bytes_eq, strip_prefix, Bool-cases, Option-cases, inl, inr,
  u64_add,
}
use rustblocker.Domain.{normalize_domain}
use rustblocker.Store.{
  Index, DomainStore, contains_in, index_of, remove_from_index, remove_wildcard, remove_exact,
  maybe_compact, remove_domain,
}
use rustblocker.Store.Laws.Invariant.{live, entries, IsIndex, IsTidy, Inv}
use rustblocker.Store.Laws.Insert.{holds}
use rustblocker.Store.Laws.Remove.{Removes}
use rustblocker.Store.Laws.Removed.{remove_from_index-Removes}
use rustblocker.Store.Laws.Compact.{maybe_compact_lem}

abbrev pub is_this : Option Bytes → Bytes → Bool
is_this none d = false
is_this (some x) d = bytes_eq x d

-- The entry that removing the normalised name takes out: the name itself among the exact names, and
-- what follows "*." among the wildcards.
abbrev pub is_target : Bytes → Bool → Bytes → Bool
is_target normalized false d = bytes_eq normalized d
is_target normalized true d = is_this (strip_prefix (codes "*.") normalized) d

module _ (domain_hash : Bytes → ℕ) where
  -- The wildcards of a store with the target taken out, and the bytes freed.
  record Taken (s : DomainStore) (n : Bytes) (index : Index) (count freed : ℕ) : Type 0 where
    ok : IsIndex domain_hash s.arena index
    counted : count ≡ entries index
    space : live s.arena index + freed ≡ live s.arena s.wildcards
    contains :
        (d : Bytes)
        → contains_in s.arena index d (domain_hash d)
          ≡ (contains_in s.arena s.wildcards d (domain_hash d) && not (is_target n true d))

  module _ (s : DomainStore) (inv : Inv domain_hash s) (n : Bytes) where
    Taken-none : strip_prefix (codes "*.") n ≡ none → Taken s n s.wildcards s.wildcard_count 0
    Taken-none e = record {
      ok = inv.wildcards_ok;
      counted = inv.wildcards_counted;
      space = omega arith;
      contains = λ d. rw e (ground arith);
    }

    Taken-some :
        (x : Bytes)
        → strip_prefix (codes "*.") n ≡ some x
        → let r = remove_from_index domain_hash s.arena s.wildcards s.wildcard_count x in
          length s.arena ≤ 2 ^ 32 → Taken s n r.index r.count (u64_add 0 r.freed)
    Taken-some x e room =
        let r =
          remove_from_index-Removes domain_hash s.arena s.wildcards x inv.wildcards_ok
            s.wildcard_count inv.wildcards_counted in
        record {
          ok = r.ok;
          counted = r.counted;
          space = omega (arith, r.space, inv.space);
          contains = λ d. rw e (r.contains d);
        }

    abbrev pub Deleted : DomainStore → Type 0
    Deleted t =
        Inv domain_hash t
        × ((w : Bool) (d : Bytes)
            → holds domain_hash t w d ≡ (holds domain_hash s w d && not (is_target n w d)))
        × (IsTidy s → IsTidy t)
        × (length t.arena ≤ length s.arena)

    wild-Taken :
        length s.arena ≤ 2 ^ 32
        → (index : Index) × (count : ℕ) × (freed : ℕ) × (remove_wildcard domain_hash s n
            ≡ (record s { wildcards = index; wildcard_count = count }, freed))
          × Taken s n index count freed
    unfolding remove_wildcard
    wild-Taken room = elim (Option-cases (strip_prefix (codes "*.") n)) [
      | inl e ↦ (s.wildcards, s.wildcard_count, 0, rw (e, remove_wildcard), Taken-none e)
      | inr (x, e) ↦
          let r = remove_from_index domain_hash s.arena s.wildcards s.wildcard_count x in
          (r.index, r.count, u64_add 0 r.freed, rw (e, remove_wildcard), Taken-some x e room)
    ]

    module _ (index : Index) (count freed : ℕ) (k : Taken s n index count freed) where
      -- The store without both targets, with its count of dead bytes.
      without : ℕ → DomainStore
      without dead =
          let r = remove_from_index domain_hash s.arena s.exact s.exact_count n in
          record s {
            exact = r.index;
            wildcards = index;
            exact_count = r.count;
            wildcard_count = count;
            dead_bytes = dead;
          }

      gone :
          Removes domain_hash s.arena s.exact n
            (remove_from_index domain_hash s.arena s.exact s.exact_count n)
      gone =
          remove_from_index-Removes domain_hash s.arena s.exact n inv.exact_ok s.exact_count
            inv.exact_counted

      exact_freed : ℕ
      exact_freed = (remove_from_index domain_hash s.arena s.exact s.exact_count n).freed

      without-Inv : Inv domain_hash (without (s.dead_bytes + freed + exact_freed))
      unfolding without exact_freed
      without-Inv = record {
        exact_ok = gone.ok;
        wildcards_ok = k.ok;
        exact_counted = gone.counted;
        wildcards_counted = k.counted;
        space = omega (arith, inv.space, k.space, gone.space);
      }

      holds-without :
          (dead : ℕ) (w : Bool) (d : Bytes)
          → holds domain_hash (without dead) w d
            ≡ (holds domain_hash s w d && not (is_target n w d))
      unfolding without index_of
      holds-without dead true d = k.contains d
      holds-without dead false d = gone.contains d

      fits : s.dead_bytes + freed + exact_freed ≤ length s.arena
      unfolding exact_freed
      fits = omega (arith, inv.space, k.space, gone.space)

      settle :
          length s.arena ≤ 2 ^ 32
          → Deleted (
              if ltb 0 (u64_add freed exact_freed)
              then maybe_compact domain_hash
                  (without (u64_add s.dead_bytes (u64_add freed exact_freed)))
              else without s.dead_bytes)
      settle room = elim (Bool-cases (ltb 0 (u64_add freed exact_freed))) [
        | inl more ↦
            rw (more, total)
              (let c =
                  maybe_compact_lem domain_hash (without (s.dead_bytes + freed + exact_freed))
                    without-Inv (unfold without in room) in
                (
                  c.0,
                  (λ w d. c.1 w d ∙ holds-without (s.dead_bytes + freed + exact_freed) w d),
                  λ t. c.2,
                  unfold without in c.3,
                ))
        | inr less ↦ rw (less) (
          subst (λ x. Inv domain_hash (without x)) (unchanged less) without-Inv,
          holds-without s.dead_bytes,
          λ t. unfold without in t,
          unfold without in omega arith,
        )
      ]
        where
          total :
              u64_add s.dead_bytes (u64_add freed exact_freed) ≡ s.dead_bytes + freed + exact_freed
          total = omega (arith, fits)

          unchanged :
              ltb 0 (u64_add freed exact_freed) ≡ false
              → s.dead_bytes + freed + exact_freed ≡ s.dead_bytes
          unchanged h = ground (arith, fits)

  -- Removing a name keeps the invariant, takes out exactly the entries that the normalised name is
  -- the target of, leaves a tidy arena tidy, and the arena no longer than it was.
  pub remove_domain-Deleted :
      (s : DomainStore) (inv : Inv domain_hash s) (domain : Bytes)
      → length s.arena ≤ 2 ^ 32
      → Deleted s inv (normalize_domain domain) (remove_domain domain_hash s domain)
  unfolding remove_domain remove_exact without exact_freed
  remove_domain-Deleted s inv domain room =
      let (index, count, freed, e, k) = wild-Taken s inv (normalize_domain domain) room in
      rw (e, remove_domain) (settle s inv (normalize_domain domain) index count freed k room)
