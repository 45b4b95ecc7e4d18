-- ===== src/Database/Laws/Parse.antt =====
-- `parse_source_domains` of src/db.rs: the usable domains of a list, sorted, each once.
use rustblocker.Base.{
  ◌≤◌, ◌≡◌, refl, sym, subst, ◌∙◌, Bool, true, false, ◌||◌, Option, none, some, List, [], ◌∷◌,
  Bytes, arith, bytes_eq, bytes_eq_sound, any, length, ltb, Bool-cases, Option-cases, inl, inr,
}
use rustblocker.Domain.{lines, parse_domain_line}
use rustblocker.Database.Tables.{too_few, has_text}
use rustblocker.Database.Sources.{
  bytes_le, insert_sorted, sort, dedup_after, dedup, parsed_lines, Parsed, domains, suspicious,
  parse_source_domains,
}

has_text-insert_sorted :
    (d e : Bytes) (ds : List Bytes)
    → has_text d (insert_sorted e ds) ≡ (bytes_eq e d || has_text d ds)
unfolding insert_sorted
has_text-insert_sorted d e [] = refl
has_text-insert_sorted d e (x ∷ ds) = ground (arith, has_text-insert_sorted d e ds)

has_text-sort : (d : Bytes) (ds : List Bytes) → has_text d (sort ds) ≡ has_text d ds
unfolding sort
has_text-sort d [] = refl
has_text-sort d (e ∷ ds) = has_text-insert_sorted d e (sort ds) ∙ rw (has_text-sort d ds) refl

has_text-dedup_after :
    (d e : Bytes) (ds : List Bytes)
    → (bytes_eq e d || has_text d (dedup_after e ds)) ≡ (bytes_eq e d || has_text d ds)
unfolding dedup_after
has_text-dedup_after d e [] = refl
has_text-dedup_after d e (x ∷ ds) = elim (Bool-cases (bytes_eq e x)) [
  | inl same ↦
      rw (same, sym (bytes_eq_sound e x same)) (ground (arith, has_text-dedup_after d e ds))
  | inr differs ↦ rw differs (ground (arith, has_text-dedup_after d x ds))
]

has_text-dedup : (d : Bytes) (ds : List Bytes) → has_text d (dedup ds) ≡ has_text d ds
unfolding dedup
has_text-dedup d [] = refl
has_text-dedup d (e ∷ ds) = has_text-dedup_after d e ds

-- Each text is at most the following one; each is less.
abbrev IsRisingFrom : Bytes → List Bytes → Type 0
IsRisingFrom d [] = Unit
IsRisingFrom d (e ∷ ds) = (bytes_le d e ≡ true) × IsRisingFrom e ds

abbrev IsRising : List Bytes → Type 0
IsRising [] = Unit
IsRising (d ∷ ds) = IsRisingFrom d ds

abbrev pub IsAscendingFrom : Bytes → List Bytes → Type 0
IsAscendingFrom d [] = Unit
IsAscendingFrom d (e ∷ ds) = (bytes_le d e ≡ true) × (bytes_eq d e ≡ false) × IsAscendingFrom e ds

abbrev pub IsAscending : List Bytes → Type 0
IsAscending [] = Unit
IsAscending (d ∷ ds) = IsAscendingFrom d ds

bytes_le_total : (s t : Bytes) → bytes_le s t ≡ false → bytes_le t s ≡ true
unfolding bytes_le
bytes_le_total [] t h = cc
bytes_le_total (a ∷ s) [] h = refl
bytes_le_total (a ∷ s) (b ∷ t) h = ground (arith, bytes_le_total s t)

insert_sorted-IsRisingFrom :
    (c d : Bytes) (ds : List Bytes)
    → bytes_le c d ≡ true
    → IsRisingFrom c ds
    → IsRisingFrom c (insert_sorted d ds)
unfolding insert_sorted
insert_sorted-IsRisingFrom c d [] h k = (h, tt)
insert_sorted-IsRisingFrom c d (e ∷ ds) h (p, k) = elim (Bool-cases (bytes_le d e)) [
  | inl before ↦ rw before (h, (before, k))
  | inr after ↦ rw after (p, insert_sorted-IsRisingFrom e d ds (bytes_le_total d e after) k)
]

insert_sorted-IsRising : (d : Bytes) (ds : List Bytes) → IsRising ds → IsRising (insert_sorted d ds)
unfolding insert_sorted
insert_sorted-IsRising d [] k = tt
insert_sorted-IsRising d (e ∷ ds) k = elim (Bool-cases (bytes_le d e)) [
  | inl before ↦ rw before (before, k)
  | inr after ↦ rw after (insert_sorted-IsRisingFrom e d ds (bytes_le_total d e after) k)
]

sort-IsRising : (ds : List Bytes) → IsRising (sort ds)
unfolding sort
sort-IsRising [] = tt
sort-IsRising (d ∷ ds) = insert_sorted-IsRising d (sort ds) (sort-IsRising ds)

dedup_after-IsAscendingFrom :
    (d : Bytes) (ds : List Bytes) → IsRisingFrom d ds → IsAscendingFrom d (dedup_after d ds)
unfolding dedup_after
dedup_after-IsAscendingFrom d [] k = tt
dedup_after-IsAscendingFrom d (e ∷ ds) (p, k) = elim (Bool-cases (bytes_eq d e)) [
  | inl same ↦ rw same (
      dedup_after-IsAscendingFrom d ds
        (subst (λ x. IsRisingFrom x ds) (sym (bytes_eq_sound d e same)) k))
  | inr differs ↦ rw differs (p, differs, dedup_after-IsAscendingFrom e ds k)
]

dedup-IsAscending : (ds : List Bytes) → IsRising ds → IsAscending (dedup ds)
unfolding dedup
dedup-IsAscending [] k = tt
dedup-IsAscending (d ∷ ds) k = dedup_after-IsAscendingFrom d ds k

abbrev pub is_text : Option Bytes → Bytes → Bool
is_text none d = false
is_text (some e) d = bytes_eq e d

-- Some line has this usable domain.
abbrev pub is_usable : Bytes → Bytes → Bool
is_usable content d = any (λ line. is_text (parse_domain_line line) d) (lines content)

has_text-parsed_lines :
    (d : Bytes) (ls : List Bytes)
    → has_text d (parsed_lines ls) ≡ any (λ line. is_text (parse_domain_line line) d) ls
unfolding parsed_lines
has_text-parsed_lines d [] = refl
has_text-parsed_lines d (l ∷ ls) = elim (Option-cases (parse_domain_line l)) [
  | inl e ↦ rw (e, parsed_lines) (has_text-parsed_lines d ls)
  | inr (x, e) ↦ rw (e, parsed_lines) (rw (has_text-parsed_lines d ls) refl)
]

-- The list that a content comes to: rising, each domain once, and exactly the usable domains of its
-- lines.
abbrev pub IsListOf : Bytes → List Bytes → Type 0
IsListOf content ds = IsAscending ds × ((d : Bytes) → has_text d ds ≡ is_usable content d)

abbrev pub IsParse : Bytes → Parsed → Type 0
IsParse content (domains ds) = IsListOf content ds × (10 ≤ length ds)
IsParse content (suspicious error) =
    (ds : List Bytes) × IsListOf content ds × (length ds ≤ 9) × (error ≡ too_few (length ds))

found-IsListOf : (content : Bytes) → IsListOf content (dedup (sort (parsed_lines (lines content))))
found-IsListOf content = (
  dedup-IsAscending (sort (parsed_lines (lines content)))
      (sort-IsRising (parsed_lines (lines content))),
  λ d.
      has_text-dedup d (sort (parsed_lines (lines content)))
      ∙ has_text-sort d (parsed_lines (lines content))
      ∙ has_text-parsed_lines d (lines content),
)

-- A content is parsed to the usable domains of its lines in rising order, each once; it is suspicious
-- exactly when these are fewer than ten, and their number is reported.
pub parse_source_domains-IsParse :
    (content : Bytes) → IsParse content (parse_source_domains content)
unfolding parse_source_domains
parse_source_domains-IsParse content =
    elim (Bool-cases (ltb (length (dedup (sort (parsed_lines (lines content))))) 10)) [
      | inl few ↦ rw few (_, found-IsListOf content, ground (arith, few), refl)
      | inr many ↦ rw many (found-IsListOf content, ground (arith, many))
    ]
