-- ===== src/Store/Laws/Checks.antt =====
-- Runs of the store on the inputs of the unit tests of src/lists.rs, and the theorems at concrete
-- stores. The hash is the length of the text, so that names of one length collide.
use rustblocker.Base.{
  ℕ, ◌≡◌, ◌≤◌, ◌^◌, refl, ◌↔◌, ◌⊎◌, Bool, true, false, not, ◌||◌, ◌&&◌, List, [], ◌∷◌, Bytes, codes,
  arith, length, bytes_eq, strip_prefix,
}
use rustblocker.Domain.{normalize_domain, ends_with_dot, drop_last}
use rustblocker.Store.{
  DomainStore, empty_store, insert_normalized, matches, remove_domain, merge, maybe_compact,
}
use rustblocker.Store.Laws.Model.{
  Call, inserts, removes, run, abstract_run, Represents, empty_store-Represents, run_le,
  run-Represents,
}
use rustblocker.Store.Laws.Match.{UnderWildcard, matches_iff}
use rustblocker.Store.Laws.Insert.{holds, same_kind, insert_normalized-holds}
use rustblocker.Store.Laws.Invariant.{Inv, IsTidy}
use rustblocker.Store.Laws.Delete.{Deleted, remove_domain-Deleted}
use rustblocker.Store.Laws.Merge.{merge-holds}
use rustblocker.Store.Laws.Compact.{maybe_compact_lem}

abbrev by_length : Bytes → ℕ
by_length d = length d

abbrev history : List Call
history =
    inserts (codes "Ads.test.")
    ∷ inserts (codes "*.Bad.test")
    ∷ inserts (codes "cat.test")
    ∷ removes (codes "ads.test")
    ∷ []

run-Represents_example :
    Represents by_length (run by_length empty_store history) (abstract_run (λ w d. false) history)
unfolding normalize_domain ends_with_dot drop_last strip_prefix
run-Represents_example = run-Represents by_length history (omega arith)

abbrev store : DomainStore
store = run by_length empty_store history

store-Represents : Represents by_length store (abstract_run (λ w d. false) history)
unfolding normalize_domain ends_with_dot drop_last strip_prefix
store-Represents = run-Represents by_length history (omega arith)

store_small : length store.arena ≤ 2 ^ 16
unfolding normalize_domain ends_with_dot drop_last strip_prefix
store_small = omega (
  arith,
  run_le by_length history empty_store (λ w d. false) (empty_store-Represents by_length)
      (omega arith),
)

matches_iff_example : (matches by_length store (codes "ads.bad.test") ≡ true) ↔ (
    (holds by_length store false (codes "ads.bad.test") ≡ true)
    ⊎ UnderWildcard by_length store (codes "ads.bad.test"))
matches_iff_example = matches_iff by_length store (codes "ads.bad.test")

insert_normalized-holds_example :
    ((w' : Bool) (d' : Bytes)
      → holds by_length (insert_normalized by_length store (codes "dog.test") false).0 w' d'
        ≡ (holds by_length store w' d' || (same_kind false w' && bytes_eq (codes "dog.test") d')))
    × ((insert_normalized by_length store (codes "dog.test") false).1
        ≡ not (holds by_length store false (codes "dog.test")))
insert_normalized-holds_example =
    insert_normalized-holds by_length store store-Represents.inv (codes "dog.test") false
      (omega (arith, store_small)) refl (omega arith)

remove_domain-Deleted_example :
    Deleted by_length store store-Represents.inv
      (normalize_domain (codes "*.bad.test"))
      (remove_domain by_length store (codes "*.bad.test"))
remove_domain-Deleted_example =
    remove_domain-Deleted by_length store store-Represents.inv (codes "*.bad.test")
      (omega (arith, store_small))

merge-holds_example :
    Inv by_length (merge by_length store store)
    × ((w : Bool) (d : Bytes)
        → holds by_length (merge by_length store store) w d
          ≡ (holds by_length store w d || holds by_length store w d))
merge-holds_example =
    merge-holds by_length store store store-Represents.inv store-Represents.inv
      (omega (arith, store_small))

maybe_compact_lem_example :
    Inv by_length (maybe_compact by_length store)
    × ((w : Bool) (d : Bytes)
        → holds by_length (maybe_compact by_length store) w d ≡ holds by_length store w d)
    × IsTidy (maybe_compact by_length store)
    × (length (maybe_compact by_length store).arena ≤ length store.arena)
maybe_compact_lem_example =
    maybe_compact_lem by_length store store-Represents.inv (omega (arith, store_small))
