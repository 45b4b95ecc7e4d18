-- ===== src/Domain.antt =====
-- Domain names as text: `normalize_domain` and the line grammar of lists (src/lists.rs), the
-- stricter grammar of sources (`parse_domain_line`, src/db.rs).
pub mod Laws
mod Checks
use rustblocker.Base.{
  ℕ, ◌≤◌, Bool, true, false, not, ◌&&◌, ◌||◌, Option, none, some, List, [], ◌∷◌, ◌++◌, Bytes, codes,
  is_empty, starts_with, strip_prefix, is_whitespace, trim, to_lowercase, length, ltb, leb, ◌==◌,
  if◌then◌else◌,
}

-- `ends_with('.')` and `d[..d.len() - 1]`.
unfoldable pub ends_with_dot : Bytes → Bool
ends_with_dot [] = false
ends_with_dot (c ∷ []) = c == b'.'
ends_with_dot (c ∷ d ∷ s) = ends_with_dot (d ∷ s)

unfoldable pub drop_last : Bytes → Bytes
drop_last [] = []
drop_last (c ∷ []) = []
drop_last (c ∷ d ∷ s) = c ∷ drop_last (d ∷ s)

unfoldable pub normalize_domain : Bytes → Bytes
normalize_domain domain = let d = to_lowercase domain in if ends_with_dot d then drop_last d else d

-- `str::lines`: the text up to each line feed, less one carriage return before it.
strip_cr : Bytes → Bytes
strip_cr [] = []
strip_cr (c ∷ []) = if c == 13 then [] else c ∷ []
strip_cr (c ∷ d ∷ s) = c ∷ strip_cr (d ∷ s)

lines_from : Bytes → Bytes → List Bytes
lines_from cur [] = if is_empty cur then [] else cur ∷ []
lines_from cur (c ∷ s) =
    let closed = strip_cr cur ∷ lines_from [] s in
    let longer = lines_from (cur ++ c ∷ []) s in if c == 10 then closed else longer

unfoldable pub lines : Bytes → List Bytes
unfolding lines_from strip_cr
lines content = lines_from [] content

-- `split_whitespace().nth(1).unwrap_or("")`: skip the first word and the space behind it.
skip_word : Bytes → Bytes
skip_word [] = []
skip_word (c ∷ s) = if is_whitespace c then c ∷ s else skip_word s

skip_space : Bytes → Bytes
skip_space [] = []
skip_space (c ∷ s) = if is_whitespace c then skip_space s else c ∷ s

first_word : Bytes → Bytes
first_word [] = []
first_word (c ∷ s) = if is_whitespace c then [] else c ∷ first_word s

unfoldable pub second_word : Bytes → Bytes
unfolding skip_word skip_space first_word
second_word s = first_word (skip_space (skip_word (skip_space s)))

-- The domain of a line in hosts format, else the whole line.
unfoldable pub domain_part : Bytes → Bytes
unfolding starts_with second_word
domain_part line =
    if starts_with (codes "0.0.0.0") line || starts_with (codes "127.0.0.1") line
    then second_word line
    else line

-- One round of the loop of `parse_lines`: what it hands to `insert`.
unfoldable pub list_line : Bytes → Option Bytes
unfolding domain_part trim
list_line raw =
    let line = trim raw in
    let part = trim (domain_part line) in
    if is_empty line || starts_with (codes "#") line
    then none
    else if is_empty part
    then none
    else some part

-- `trim_end_matches('.')`.
unfoldable pub trim_dots : Bytes → Bytes
trim_dots [] = []
trim_dots (c ∷ s) = let rest = trim_dots s in if is_empty rest && c == b'.' then [] else c ∷ rest

-- `split('.')`.
unfoldable pub split_dots : Bytes → Bytes → List Bytes
split_dots cur [] = cur ∷ []
split_dots cur (c ∷ s) =
    let closed = cur ∷ split_dots [] s in
    let longer = split_dots (cur ++ c ∷ []) s in if c == b'.' then closed else longer

abbrev pub is_label_byte : ℕ → Bool
is_label_byte c =
    (leb b'a' c && leb c b'z')
    || (leb b'A' c && leb c b'Z')
    || (leb b'0' c && leb c b'9')
    || c == b'-'
    || c == b'_'

unfoldable pub all_bytes : (ℕ → Bool) → Bytes → Bool
all_bytes p [] = true
all_bytes p (c ∷ s) = p c && all_bytes p s

unfoldable pub is_label : Bytes → Bool
unfolding all_bytes
is_label label = not (is_empty label) && leb (length label) 63 && all_bytes is_label_byte label

unfoldable pub all_labels : List Bytes → Bool
unfolding is_label
all_labels [] = true
all_labels (l ∷ ls) = is_label l && all_labels ls

abbrev or_whole : Option Bytes → Bytes → Bytes
or_whole none s = s
or_whole (some t) s = t

-- `normalized.strip_prefix("*.").unwrap_or(&normalized)`.
unfoldable pub wildcard_base : Bytes → Bytes
unfolding strip_prefix
wildcard_base s = or_whole (strip_prefix (codes "*.") s) s

unfoldable pub valid_name : Bytes → Bool
unfolding all_labels split_dots
valid_name name =
    not (is_empty name) && not (ltb 253 (length name)) && all_labels (split_dots [] name)

unfoldable pub parse_domain_line : Bytes → Option Bytes
unfolding domain_part trim trim_dots wildcard_base valid_name
parse_domain_line raw =
    let line = trim raw in
    let normalized = to_lowercase (trim_dots (trim (domain_part line))) in
    if is_empty line || starts_with (codes "#") line
    then none
    else if valid_name (wildcard_base normalized)
    then some normalized
    else none
