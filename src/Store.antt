-- ===== src/Store.antt =====
-- `DomainStore` of src/lists.rs: the byte arena, its two hash indexes, and the operations. The hash
-- function (`DefaultHasher`) is a parameter, so every theorem holds of any hash, collisions
-- included. `usize` is 64 bits wide.
pub mod Buckets
pub mod Laws
pub use Buckets.{Index}
use rustblocker.Base.{
  ℕ, ◌+◌, ◌-◌, ◌*◌, ◌/◌, ◌%◌, ◌^◌, Bool, true, false, not, ◌&&◌, ◌||◌, Option, none, some, List, [],
  ◌∷◌, ◌++◌, Bytes, codes, is_empty, bytes_eq, strip_prefix, length, take, drop, any, retain, ltb,
  leb, ◌==◌, if◌then◌else◌, u64_add, u64_mul,
}
use rustblocker.Domain.{normalize_domain, lines, list_line}
use Buckets.{get, entry_push, put, remove, offsets_of}

pub record DomainStore : Type 0 where
  pub arena : Bytes
  pub exact : Index
  pub wildcards : Index
  pub exact_count : ℕ
  pub wildcard_count : ℕ
  pub dead_bytes : ℕ

abbrev pub empty_store : DomainStore
empty_store = record {
  arena = [];
  exact = [];
  wildcards = [];
  exact_count = 0;
  wildcard_count = 0;
  dead_bytes = 0;
}

-- The entry at the head of a slice: two length bytes, then the domain; "" when out of bounds.
unfoldable pub entry : Bytes → Bytes
entry [] = []
entry (lo ∷ []) = []
entry (lo ∷ hi ∷ rest) = if leb (lo + 256 * hi) (length rest) then take (lo + 256 * hi) rest else []

unfoldable pub domain_at : Bytes → ℕ → Bytes
domain_at arena offset = entry (drop offset arena)

unfoldable pub domain_eq : Bytes → ℕ → Bytes → Bool
domain_eq arena offset domain = bytes_eq (domain_at arena offset) domain

-- `len.to_le_bytes()` behind `domain.len() as u16`, and the bytes of the domain.
abbrev pub encoded : Bytes → Bytes
encoded domain = length domain % 2 ^ 16 % 256 ∷ (length domain % 2 ^ 16 / 256) ∷ domain

unfoldable pub contains_in : Bytes → Index → Bytes → ℕ → Bool
unfolding get
contains_in arena index domain hash = elim (get hash index) [
  | none ↦ false
  | some offsets ↦ any (λ offset. domain_eq arena offset domain) offsets
]

-- The new store and the offset at which the domain stands.
unfoldable pub push_domain : DomainStore → Bytes → DomainStore × ℕ
push_domain s domain = (record s { arena = s.arena ++ encoded domain }, length s.arena % 2 ^ 32)

-- The bytes that the entries which `retain` drops give back.
unfoldable pub freed_bytes : Bytes → Bytes → List ℕ → ℕ
freed_bytes arena domain [] = 0
freed_bytes arena domain (offset ∷ offsets) =
    let rest = freed_bytes arena domain offsets in
    if domain_eq arena offset domain
    then u64_add rest (2 + length (domain_at arena offset))
    else rest

unfoldable pub kept_offsets : Bytes → Bytes → List ℕ → List ℕ
kept_offsets arena domain = retain (λ offset. not (domain_eq arena offset domain))

pub record Removal : Type 0 where
  pub index : Index
  pub count : ℕ
  pub freed : ℕ

unfoldable pub index_of : DomainStore → Bool → Index
index_of s true = s.wildcards
index_of s false = s.exact

unfoldable pub len : DomainStore → ℕ
len s = s.exact_count + s.wildcard_count

unfoldable pub clear : DomainStore → DomainStore
clear s = empty_store

unfoldable pub replace_with : DomainStore → DomainStore → DomainStore
replace_with s other = other

module _ (domain_hash : Bytes → ℕ) where
  unfoldable pub remove_from_index : Bytes → Index → ℕ → Bytes → Removal
  unfolding kept_offsets
  remove_from_index arena index count domain = elim (get (domain_hash domain) index) [
    | none ↦ record { index = index; count = count; freed = 0 }
    | some offsets ↦
        let hash = domain_hash domain in
        let kept = kept_offsets arena domain offsets in
        let removed = length offsets - length kept in
        if removed == 0
        then record { index = put hash kept index; count = count; freed = 0 }
        else record {
          index = if is_empty kept then remove hash index else put hash kept index;
          count = count - removed;
          freed = freed_bytes arena domain offsets;
        }
  ]

  -- The new store and whether the domain is new.
  unfoldable pub insert_normalized : DomainStore → Bytes → Bool → DomainStore × Bool
  unfolding push_domain index_of contains_in
  insert_normalized s domain wildcard =
      let hash = domain_hash domain in
      let (t, offset) = push_domain s domain in
      let added =
        if wildcard
        then record t {
          wildcards = entry_push hash offset t.wildcards;
          wildcard_count = t.wildcard_count + 1;
        }
        else record t { exact = entry_push hash offset t.exact; exact_count = t.exact_count + 1 } in
      if is_empty domain
      then (s, false)
      else if ltb 65535 (length domain)
      then (s, false)
      else if contains_in s.arena (index_of s wildcard) domain hash
      then (s, false)
      else (added, true)

  -- The loop that `merge` and `compact` make over the offsets of one index.
  unfoldable pub insert_offsets : Bytes → Bool → List ℕ → DomainStore → DomainStore
  insert_offsets arena wildcard [] s = s
  insert_offsets arena wildcard (offset ∷ offsets) s =
      insert_offsets arena wildcard offsets
        (insert_normalized s (domain_at arena offset) wildcard).0

  -- `self`, then the store that is merged into it.
  unfoldable pub merge : DomainStore → DomainStore → DomainStore
  merge s other =
      insert_offsets other.arena true (offsets_of other.wildcards)
        (insert_offsets other.arena false (offsets_of other.exact) s)

  unfoldable pub compact : DomainStore → DomainStore
  compact s =
      if len s == 0
      then record s { arena = []; exact = []; wildcards = []; dead_bytes = 0 }
      else insert_offsets s.arena true (offsets_of s.wildcards)
          (insert_offsets s.arena false (offsets_of s.exact) empty_store)

  unfoldable pub maybe_compact : DomainStore → DomainStore
  maybe_compact s =
      if len s == 0
      then compact s
      else if ltb 0 s.dead_bytes && ltb (length s.arena) (u64_mul s.dead_bytes 4)
      then compact s
      else s

  unfoldable pub insert : DomainStore → Bytes → DomainStore × Bool
  insert s domain =
      let normalized = normalize_domain domain in
      if is_empty normalized then (s, false) else elim (strip_prefix (codes "*.") normalized) [
        | some stripped ↦
            if is_empty stripped then (s, false) else insert_normalized s stripped true
        | none ↦ insert_normalized s normalized false
      ]

  -- The first half of `remove`: a wildcard leaves its index. The store and the bytes freed.
  unfoldable pub remove_wildcard : DomainStore → Bytes → DomainStore × ℕ
  remove_wildcard s normalized = elim (strip_prefix (codes "*.") normalized) [
    | none ↦ (s, 0)
    | some stripped ↦
        let r = remove_from_index s.arena s.wildcards s.wildcard_count stripped in
        (record s { wildcards = r.index; wildcard_count = r.count }, u64_add 0 r.freed)
  ]

  unfoldable pub remove_exact : DomainStore → Bytes → DomainStore × ℕ
  remove_exact s normalized =
      let r = remove_from_index s.arena s.exact s.exact_count normalized in
      (record s { exact = r.index; exact_count = r.count }, r.freed)

  unfoldable pub remove_domain : DomainStore → Bytes → DomainStore
  remove_domain s domain =
      let normalized = normalize_domain domain in
      let (t, freed_wildcard) = remove_wildcard s normalized in
      let (u, freed_exact) = remove_exact t normalized in
      let freed = u64_add freed_wildcard freed_exact in
      if ltb 0 freed
      then maybe_compact (record u { dead_bytes = u64_add u.dead_bytes freed })
      else u

  -- The walk over the parent suffixes of a queried name.
  unfoldable pub matches_suffix : Bytes → Index → Bytes → Bool
  matches_suffix arena wildcards [] = false
  matches_suffix arena wildcards (byte ∷ suffix) =
      (byte == b'.' && contains_in arena wildcards suffix (domain_hash suffix))
      || matches_suffix arena wildcards suffix

  unfoldable pub matches : DomainStore → Bytes → Bool
  matches s domain =
      contains_in s.arena s.exact domain (domain_hash domain)
      || matches_suffix s.arena s.wildcards domain

  -- The loop of `parse_lines`: the store and how many domains were new.
  unfoldable pub parse_each : List Bytes → DomainStore → ℕ → DomainStore × ℕ
  parse_each [] s count = (s, count)
  parse_each (line ∷ rest) s count =
      let (t, more) : DomainStore × ℕ = elim (list_line line) [
        | none ↦ (s, count)
        | some part ↦ let (u, new) = insert s part in (u, if new then count + 1 else count)
      ] in
      parse_each rest t more

  unfoldable pub parse_lines : DomainStore → Bytes → DomainStore × ℕ
  parse_lines s content = parse_each (lines content) s 0
