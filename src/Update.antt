-- ===== src/Update.antt =====
-- `update_from_feed` of src/update.rs: which release of the feed is offered. Versions, their parsing and
-- their order belong to the crate `semver` and are parameters.
pub mod Laws
use rustblocker.Base.{
  ℕ, zero, suc, ◌-◌, Bool, true, false, Option, none, some, List, [], ◌∷◌, ◌++◌, Bytes, codes,
  length, starts_with, strip_prefix, trim, ◌==◌, if◌then◌else◌,
}

-- `str::find`: what stands before the first occurrence of the pattern, and what follows it.
unfoldable pub find_text : Bytes → Bytes → Option (Bytes × Bytes)
find_text pattern [] = elim (strip_prefix pattern []) [ none ↦ none | some rest ↦ some ([], rest) ]
find_text pattern (c ∷ s) = elim (strip_prefix pattern (c ∷ s)) [
  | some rest ↦ some ([], rest)
  | none ↦ elim (find_text pattern s) [ none ↦ none | some found ↦ some (c ∷ found.0, found.1) ]
]

-- `str::split`: the number of characters of the pattern that are still to be passed, and the piece
-- read so far.
unfoldable pub split_text : Bytes → ℕ → Bytes → Bytes → List Bytes
split_text pattern skip piece [] = piece ∷ []
split_text pattern (suc skip) piece (c ∷ s) = split_text pattern skip piece s
split_text pattern zero piece (c ∷ s) =
    let next = piece ∷ split_text pattern (length pattern - 1) [] s in
    let longer = split_text pattern zero (piece ++ c ∷ []) s in
    if starts_with pattern (c ∷ s) then next else longer

abbrev drop_first : List Bytes → List Bytes
drop_first [] = []
drop_first (piece ∷ rest) = rest

-- The pieces behind the first `<entry>`.
unfoldable pub entries : Bytes → List Bytes
entries feed = drop_first (split_text (codes "<entry>") 0 [] feed)

unfoldable pub xml_text : Bytes → Bytes → Option Bytes
xml_text input tag = elim (find_text (codes "<" ++ (tag ++ codes ">")) input) [
  | none ↦ none
  | some opened ↦ elim (find_text (codes "</" ++ (tag ++ codes ">")) opened.1) [
    | none ↦ none
    | some closed ↦ some (trim closed.0)
  ]
]

-- `trim_start_matches('v')`.
unfoldable pub trim_v : Bytes → Bytes
trim_v [] = []
trim_v (c ∷ s) = let rest = trim_v s in if c == b'v' then rest else c ∷ s

pub record UpdateInfo : Type 0 where
  pub version : Bytes
  pub notes : Bytes
  pub download_url : Bytes
  pub current_version : Bytes

pub data Feed : Type 0 where
  bad_current no_releases up_to_date : Feed
  update : UpdateInfo → Feed

abbrev pub download_url_of : Bytes → Bytes → Bytes
download_url_of version target =
    codes "https://github.com/shabilullah/rustblocker/releases/download/"
    ++ (version
        ++ (codes "/rustblocker-" ++ (version ++ (codes "-" ++ (target ++ codes ".tar.gz")))))

module _ (Version : Type 0) (parse_version : Bytes → Option Version) (is_stable : Version → Bool)
    (version_le : Version → Version → Bool) where
  -- The tag and the version of an entry, if it is a stable release.
  unfoldable pub stable_release : Bytes → Option (Bytes × Version)
  stable_release entry = elim (xml_text entry (codes "title")) [
    | none ↦ none
    | some tag ↦ elim (parse_version (trim_v tag)) [
      | none ↦ none
      | some version ↦ if is_stable version then some (tag, version) else none
    ]
  ]

  unfoldable pub stable_releases : List Bytes → List (Bytes × Version)
  stable_releases [] = []
  stable_releases (entry ∷ rest) = elim (stable_release entry) [
    | none ↦ stable_releases rest
    | some release ↦ release ∷ stable_releases rest
  ]

  -- `max_by`: of equal ones the last.
  unfoldable pub newest : List (Bytes × Version) → Option (Bytes × Version)
  newest [] = none
  newest (release ∷ rest) = elim (newest rest) [
    | none ↦ some release
    | some later ↦ some (if version_le release.1 later.1 then later else release)
  ]

  unfoldable pub offer : Version → Bytes → Bytes → Option (Bytes × Version) → Feed
  offer current_semver current target none = no_releases
  offer current_semver current target (some latest) =
      if version_le latest.1 current_semver
      then up_to_date
      else update (record {
        version = latest.0;
        notes = [];
        download_url = download_url_of latest.0 target;
        current_version = current;
      })

  unfoldable pub update_from_feed : Bytes → Bytes → Bytes → Feed
  update_from_feed feed current target = elim (parse_version current) [
    | none ↦ bad_current
    | some current_semver ↦
        offer current_semver current target (newest (stable_releases (entries feed)))
  ]
