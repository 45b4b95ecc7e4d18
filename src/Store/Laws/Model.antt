-- ===== src/Store/Laws/Model.antt =====
-- `DomainStore` (src/lists.rs) against an abstract store: a set of exact names and a set of
-- wildcards. A history of calls on the empty store, and what it holds afterwards.
use rustblocker.Base.{
  ℕ, ◌+◌, ◌≤◌, ◌<◌, ◌^◌, ◌≡◌, refl, sym, ap, ◌∙◌, Bool, true, false, not, ◌||◌, ◌&&◌, Option, none,
  some, List, [], ◌∷◌, Bytes, codes, arith, is_empty, length, leb, bytes_eq, strip_prefix,
  Bool-cases, Option-cases, inl, inr,
}
use rustblocker.Domain.{normalize_domain}
use rustblocker.Store.{
  DomainStore, empty_store, contains_in, index_of, insert_normalized, insert, remove_domain, clear,
}
use rustblocker.Store.Laws.Invariant.{IsTidy, Inv, empty_store-Inv}
use rustblocker.Store.Laws.Insert.{
  holds, same_kind, insert_normalized-Inv, insert_normalized-holds, insert_normalized-length_le,
  insert_normalized_kept,
}
use rustblocker.Store.Laws.Delete.{is_target, remove_domain-Deleted}

-- What a domain names once it is normalised: the kind of entry, and its text.
abbrev entry_of : Option Bytes → Bytes → Bool × Bytes
entry_of none n = (false, n)
entry_of (some x) n = (true, x)

abbrev pub named : Bytes → Bool × Bytes
named domain =
    entry_of (strip_prefix (codes "*.") (normalize_domain domain)) (normalize_domain domain)

-- Only a text of 1 to 65535 bytes can be listed.
abbrev pub is_listable : Bytes → Bool
is_listable d = not (is_empty d) && leb (length d) 65535

-- The abstract store: which names it holds, of each kind.
abbrev pub Names : Type 0
Names = Bool → Bytes → Bool

pub data Call : Type 0 where
  inserts : Bytes → Call
  removes : Bytes → Call
  clears : Call

abbrev pub abstract_step : Names → Call → Names
abstract_step v (inserts domain) w d =
    v w d
    || (is_listable (named domain).1
        && (same_kind (named domain).0 w && bytes_eq (named domain).1 d))
abstract_step v (removes domain) w d = v w d && not (is_target (normalize_domain domain) w d)
abstract_step v clears w d = false

abbrev pub abstract_run : Names → List Call → Names
abstract_run v [] = v
abstract_run v (c ∷ cs) = abstract_run (abstract_step v c) cs

-- The bytes that a call may add to the arena.
abbrev pub cost : Call → ℕ
cost (inserts domain) = 2 + length (named domain).1
cost (removes domain) = 0
cost clears = 0

abbrev pub total_cost : List Call → ℕ
total_cost [] = 0
total_cost (c ∷ cs) = cost c + total_cost cs

module _ (domain_hash : Bytes → ℕ) where
  unfoldable pub step : DomainStore → Call → DomainStore
  step s (inserts domain) = (insert domain_hash s domain).0
  step s (removes domain) = remove_domain domain_hash s domain
  step s clears = clear s

  unfoldable pub run : DomainStore → List Call → DomainStore
  run s [] = s
  run s (c ∷ cs) = run (step s c) cs

  -- A store stands for the names that it holds.
  pub record Represents (s : DomainStore) (v : Names) : Type 0 where
    pub inv : Inv domain_hash s
    pub tidy : IsTidy s
    pub agrees : (w : Bool) (d : Bytes) → holds domain_hash s w d ≡ v w d

  empty_kept :
      (s : DomainStore) (x : Bytes) (w : Bool)
      → is_empty x ≡ true
      → insert_normalized domain_hash s x w ≡ (s, false)
  empty_kept s x w h = insert_normalized_kept domain_hash s x w (ground arith)

  blank_kept :
      (s : DomainStore) (n : Bytes)
      → is_empty n ≡ true
      → (let e = entry_of (strip_prefix (codes "*.") n) n in
          insert_normalized domain_hash s e.1 e.0 ≡ (s, false))
  blank_kept s [] h = unfold strip_prefix in empty_kept s [] false refl
  blank_kept s (c ∷ n) h = cc

  -- `insert` is `insert_normalized` of the entry that the domain names.
  insert-eq :
      (s : DomainStore) (domain : Bytes)
      → insert domain_hash s domain
        ≡ insert_normalized domain_hash s (named domain).1 (named domain).0
  unfolding insert
  insert-eq s domain = elim (Bool-cases (is_empty (normalize_domain domain))) [
    | inl blank ↦ rw blank (sym (blank_kept s (normalize_domain domain) blank))
    | inr text ↦ elim (Option-cases (strip_prefix (codes "*.") (normalize_domain domain))) [
      | inl e ↦ rw (text, e, insert)
      | inr (x, e) ↦ elim (Bool-cases (is_empty x)) [
        | inl bare ↦ rw (text, e, bare, insert) (sym (empty_kept s x true bare))
        | inr more ↦ rw (text, e, more, insert)
      ]
    ]
  ]

  abbrev Inserted : DomainStore → Bool × Bytes → DomainStore → Type 0
  Inserted s e t =
      Inv domain_hash t
      × ((w : Bool) (d : Bytes)
          → holds domain_hash t w d
            ≡ (holds domain_hash s w d || (is_listable e.1 && (same_kind e.0 w && bytes_eq e.1 d))))
      × (t.dead_bytes ≡ s.dead_bytes)
      × (length t.arena ≤ length s.arena + (2 + length e.1))
      × (length s.arena ≤ length t.arena)

  insert-Inserted :
      (s : DomainStore)
      → Inv domain_hash s
      → (w : Bool) (x : Bytes) → length s.arena < 2 ^ 32
      → Inserted s (w, x) (insert_normalized domain_hash s x w).0
  insert-Inserted s inv w x room =
      let size = insert_normalized-length_le domain_hash s inv x w room in
      (insert_normalized-Inv domain_hash s inv x w room, names, size.1, size.0, size.2)
    where
      names :
          (w' : Bool) (d : Bytes)
          → holds domain_hash (insert_normalized domain_hash s x w).0 w' d
            ≡ (holds domain_hash s w' d || (is_listable x && (same_kind w w' && bytes_eq x d)))
      names w' d = elim (Bool-cases (is_listable x)) [
        | inl good ↦ rw good (
            (insert_normalized-holds domain_hash s inv x w room (ground arith) (ground arith)).0 w'
              d)
        | inr bad ↦ rw (bad, insert_normalized_kept domain_hash s x w (ground arith)) (ground arith)
      ]

  nothing_held : (w : Bool) (d : Bytes) → holds domain_hash empty_store w d ≡ false
  nothing_held true d = unfold index_of contains_in in refl
  nothing_held false d = unfold index_of contains_in in refl

  pub empty_store-Represents : Represents empty_store (λ w d. false)
  empty_store-Represents = record {
    inv = empty_store-Inv domain_hash;
    tidy = omega arith;
    agrees = nothing_held;
  }

  -- One call keeps a store in step with its names.
  step-Represents :
      (s : DomainStore) (v : Names) (c : Call)
      → Represents s v
      → length s.arena + cost c ≤ 2 ^ 32
      → Represents (step s c) (abstract_step v c)
        × (length (step s c).arena ≤ length s.arena + cost c)
  unfolding step clear
  step-Represents s v (inserts domain) r room =
      rw (insert-eq s domain, step)
        (let i = insert-Inserted s r.inv (named domain).0 (named domain).1 (omega arith) in
          (
            record {
              inv = i.0;
              tidy = omega (arith, r.tidy, i.2, i.4);
              agrees = λ w d.
                  i.1 w d
                  ∙ ap
                      (λ h.
                        h
                        || (is_listable (named domain).1
                            && (same_kind (named domain).0 w && bytes_eq (named domain).1 d)))
                      (r.agrees w d);
            },
            i.3,
          ))
  step-Represents s v (removes domain) r room =
      let k = remove_domain-Deleted domain_hash s r.inv domain (omega arith) in
      (
        record {
          inv = k.0;
          tidy = k.2 r.tidy;
          agrees = λ w d.
              k.1 w d ∙ ap (λ h. h && not (is_target (normalize_domain domain) w d)) (r.agrees w d);
        },
        omega (arith, k.3),
      )
  step-Represents s v clears r room = (empty_store-Represents, omega arith)

  run-Represents_from :
      (cs : List Call) (s : DomainStore) (v : Names)
      → Represents s v
      → length s.arena + total_cost cs ≤ 2 ^ 32
      → Represents (run s cs) (abstract_run v cs)
  unfolding run
  run-Represents_from [] s v r room = r
  run-Represents_from (c ∷ cs) s v r room =
      let (next, size) = step-Represents s v c r (omega arith) in
      run-Represents_from cs (step s c) (abstract_step v c) next (omega (arith, size))

  -- The arena is no longer than what the calls may add to it.
  pub run_le :
      (cs : List Call) (s : DomainStore) (v : Names)
      → Represents s v
      → length s.arena + total_cost cs ≤ 2 ^ 32
      → length (run s cs).arena ≤ length s.arena + total_cost cs
  unfolding run
  run_le [] s v r room = omega arith
  run_le (c ∷ cs) s v r room =
      let (next, size) = step-Represents s v c r (omega arith) in
      omega (arith, size, run_le cs (step s c) (abstract_step v c) next (omega (arith, size)))

  -- After any history of inserts, removes and clears on the empty store whose inserted entries take
  -- at most 2^32 bytes together, the store holds exactly the names that the abstract sets hold, its
  -- invariant holds, and its holes take a quarter of the arena at most.
  pub run-Represents :
      (cs : List Call)
      → total_cost cs ≤ 2 ^ 32
      → Represents (run empty_store cs) (abstract_run (λ w d. false) cs)
  run-Represents cs room =
      run-Represents_from cs empty_store (λ w d. false) empty_store-Represents (omega (arith, room))
