-- ===== src/Database/Laws/Rows.antt =====
-- What the statements of src/db.rs do to the tests that other statements make.
use rustblocker.Base.{
  ℕ, ◌≡◌, refl, ap, subst, ◌∙◌, Bool, true, false, not, ◌&&◌, ◌||◌, List, [], ◌∷◌, Bytes, arith,
  bytes_eq, bytes_eq_sound, any-append, retain, ◌==◌, ==_iff, Bool-cases, inl, inr,
}
use rustblocker.Database.Tables.{
  ListType, blocklist, allowlist, DbDomain, DomainTable, Database, table, with_table, has_domain,
  has_text, owns, has_owner, is_manual, insert_domain, insert_owned,
}
use rustblocker.Database.Sources.{disown, own_all, insert_all, prune}

has_domain_same :
    (d e : Bytes) (rows : List DbDomain)
    → has_domain e rows ≡ true
    → bytes_eq e d ≡ true
    → has_domain d rows ≡ true
has_domain_same d e rows h k = subst (λ x. has_domain x rows ≡ true) (bytes_eq_sound e d k) h

pub has_domain-insert_domain :
    (d e : Bytes) (t : DomainTable)
    → has_domain d (insert_domain t e).0.rows ≡ (has_domain d t.rows || bytes_eq e d)
unfolding insert_domain
has_domain-insert_domain d e t = elim (Bool-cases (has_domain e t.rows)) [
  | inl old ↦ elim (Bool-cases (bytes_eq e d)) [
    | inl same ↦ rw (old, same, has_domain_same d e t.rows old same) refl
    | inr other ↦ rw (old, other) (ground arith)
  ]
  | inr new ↦ rw new (any-append (λ r. bytes_eq r.domain d) t.rows _ ∙ ground arith)
]

pub has_domain-insert_all :
    (d : Bytes) (ds : List Bytes) (t : DomainTable)
    → has_domain d (insert_all ds t).rows ≡ (has_domain d t.rows || has_text d ds)
unfolding insert_all
has_domain-insert_all d [] t = ground arith
has_domain-insert_all d (e ∷ ds) t =
    has_domain-insert_all d ds (insert_domain t e).0
    ∙ rw (has_domain-insert_domain d e t) (ground arith)

-- A row stays by a test on its domain.
pub has_domain-retain :
    (d : Bytes) (keep : Bytes → Bool) (rows : List DbDomain)
    → has_domain d (retain (λ r. keep r.domain) rows) ≡ (has_domain d rows && keep d)
has_domain-retain d keep [] = refl
has_domain-retain d keep (r ∷ rows) = elim (Bool-cases (bytes_eq r.domain d)) [
  | inl same ↦
      let e : keep r.domain ≡ keep d = ap keep (bytes_eq_sound r.domain d same) in
      ground (arith, same, e, has_domain-retain d keep rows)
  | inr other ↦ ground (arith, other, has_domain-retain d keep rows)
]

both_true : (b c : Bool) → (b && c) ≡ true → (b ≡ true) × (c ≡ true)
both_true true c h = (refl, h)
both_true false c h = cc

owns_same :
    (i id : ℕ) (d e : Bytes) (owned : List (ℕ × Bytes))
    → owns id e owned ≡ true
    → (id == i && bytes_eq e d) ≡ true
    → owns i d owned ≡ true
owns_same i id d e owned old same =
    let (p, q) = both_true (id == i) (bytes_eq e d) same in
    subst (λ x. owns x d owned ≡ true) ((==_iff id i).0 p)
      (subst (λ x. owns id x owned ≡ true) (bytes_eq_sound e d q) old)

pub owns-insert_owned :
    (i id : ℕ) (d e : Bytes) (owned : List (ℕ × Bytes))
    → owns i d (insert_owned owned id e) ≡ (owns i d owned || (id == i && bytes_eq e d))
unfolding insert_owned
owns-insert_owned i id d e owned = elim (Bool-cases (owns id e owned)) [
  | inl old ↦ elim (Bool-cases (id == i && bytes_eq e d)) [
    | inl same ↦ rw (old, same, owns_same i id d e owned old same) refl
    | inr other ↦ rw (old, other) (ground arith)
  ]
  | inr new ↦ rw new (ground arith)
]

pub owns-own_all :
    (i id : ℕ) (d : Bytes) (ds : List Bytes) (owned : List (ℕ × Bytes))
    → owns i d (own_all id ds owned) ≡ (owns i d owned || (id == i && has_text d ds))
unfolding own_all
owns-own_all i id d [] owned = ground arith
owns-own_all i id d (e ∷ ds) owned =
    owns-own_all i id d ds (insert_owned owned id e)
    ∙ rw (owns-insert_owned i id d e owned) (ground arith)

has_owner_same :
    (id : ℕ) (d e : Bytes) (owned : List (ℕ × Bytes))
    → owns id e owned ≡ true
    → bytes_eq e d ≡ true
    → has_owner d owned ≡ true
has_owner_same id d e [] h k = cc
has_owner_same id d e (p ∷ owned) h k = elim (Bool-cases (p.0 == id && bytes_eq p.1 e)) [
  | inl here ↦
      let q = (both_true (p.0 == id) (bytes_eq p.1 e) here).1 in
      rw (subst (λ x. bytes_eq p.1 x ≡ true) (bytes_eq_sound e d k) q) refl
  | inr later ↦ ground (arith, later, h, has_owner_same id d e owned (rw later at h) k)
]

pub has_owner-insert_owned :
    (id : ℕ) (d e : Bytes) (owned : List (ℕ × Bytes))
    → has_owner d (insert_owned owned id e) ≡ (has_owner d owned || bytes_eq e d)
unfolding insert_owned
has_owner-insert_owned id d e owned = elim (Bool-cases (owns id e owned)) [
  | inl old ↦ elim (Bool-cases (bytes_eq e d)) [
    | inl same ↦ rw (old, same, has_owner_same id d e owned old same) refl
    | inr other ↦ rw (old, other) (ground arith)
  ]
  | inr new ↦ rw new (ground arith)
]

pub has_owner-own_all :
    (id : ℕ) (d : Bytes) (ds : List Bytes) (owned : List (ℕ × Bytes))
    → has_owner d (own_all id ds owned) ≡ (has_owner d owned || has_text d ds)
unfolding own_all
has_owner-own_all id d [] owned = ground arith
has_owner-own_all id d (e ∷ ds) owned =
    has_owner-own_all id d ds (insert_owned owned id e)
    ∙ rw (has_owner-insert_owned id d e owned) (ground arith)

pub owns-disown :
    (i id : ℕ) (d : Bytes) (owned : List (ℕ × Bytes))
    → owns i d (disown id owned) ≡ (owns i d owned && not (id == i))
owns-disown i id d [] = refl
owns-disown i id d (p ∷ owned) = ground (arith, owns-disown i id d owned)

pub has_domain-prune :
    (t : ListType) (listed : Bytes → Bool) (owned : List (ℕ × Bytes))
    (manual : List (ListType × Bytes)) (rows : DomainTable) (d : Bytes)
    → has_domain d (prune t listed owned manual rows).rows ≡ (
        has_domain d rows.rows
        && not (listed d && (not (has_owner d owned) && not (is_manual t d manual))))
unfolding prune
has_domain-prune t listed owned manual rows d =
    has_domain-retain d
      (λ x. not (listed x && (not (has_owner x owned) && not (is_manual t x manual)))) rows.rows

-- Writing one table leaves the other.
abbrev pub other : ListType → ListType
other blocklist = allowlist
other allowlist = blocklist

pub table-with_table :
    (t : ListType) (x : DomainTable) (db : Database) → table t (with_table t x db) ≡ x
table-with_table blocklist x db = refl
table-with_table allowlist x db = refl

pub table-with_table-other :
    (t : ListType) (x : DomainTable) (db : Database)
    → table (other t) (with_table t x db) ≡ table (other t) db
table-with_table-other blocklist x db = refl
table-with_table-other allowlist x db = refl
