-- ===== src/Update/Laws.antt =====
-- Which release src/update.rs offers.
pub mod Newest
mod Checks
use rustblocker.Base.{
  ℕ, ◌≡◌, ◌⊎◌, refl, sym, ap, subst, ◌∙◌, Bool, true, false, Option, none, some, List, [], ◌∷◌,
  Bytes, codes, not, ◌||◌, All, All-mono, if◌then◌else◌, Bool-cases, Option-cases, inl, inr,
}
use rustblocker.Update.{
  entries, xml_text, trim_v, stable_release, stable_releases, newest, Feed, bad_current,
  no_releases, up_to_date, update, UpdateInfo, download_url_of, offer, update_from_feed,
}
use rustblocker.Update.Laws.Newest.{IsOrder, Occurs, AtMost, AtMost-mono, IsNewest, newest-IsNewest}

module _ (Version : Type 0) (parse_version : Bytes → Option Version) (is_stable : Version → Bool)
    (version_le : Version → Version → Bool) where
  -- Whether an entry is a stable release: it has a title, which is the tag, the tag is a version, and
  -- the version is stable.
  abbrev pub IsRelease : Bytes → Bytes × Version → Type 0
  IsRelease entry r =
      (xml_text entry (codes "title") ≡ some r.0)
      × (parse_version (trim_v r.0) ≡ some r.1)
      × (is_stable r.1 ≡ true)

  unfoldable pub has_release : Bytes → Bool
  has_release entry = elim (xml_text entry (codes "title")) [
    | none ↦ false
    | some tag ↦ elim (parse_version (trim_v tag)) [
      | none ↦ false
      | some version ↦ is_stable version
    ]
  ]

  -- Whether an entry is a stable release of at most the version, or none.
  unfoldable pub release_le : Version → Bytes → Bool
  release_le bound entry = elim (xml_text entry (codes "title")) [
    | none ↦ true
    | some tag ↦ elim (parse_version (trim_v tag)) [
      | none ↦ true
      | some version ↦ not (is_stable version) || version_le version bound
    ]
  ]

  its_release : Bytes → Option (Bytes × Version)
  its_release = stable_release Version parse_version is_stable version_le

  its_releases : List Bytes → List (Bytes × Version)
  its_releases = stable_releases Version parse_version is_stable version_le

  -- What an entry comes to.
  verdict_of_entry :
      (entry : Bytes)
      → ((its_release entry ≡ none)
          × (has_release entry ≡ false)
          × ((bound : Version) → release_le bound entry ≡ true))
        ⊎ ((r : Bytes × Version) × (its_release entry ≡ some r)
            × IsRelease entry r
            × (has_release entry ≡ true)
            × ((bound : Version) → release_le bound entry ≡ version_le r.1 bound))
  unfolding its_release stable_release has_release release_le
  verdict_of_entry entry = elim (Option-cases (xml_text entry (codes "title"))) [
    | inl e ↦
        inl
          (rw (e, stable_release) refl, rw (e, has_release) refl, λ bound. rw (e, release_le) refl)
    | inr (tag, e) ↦ elim (Option-cases (parse_version (trim_v tag))) [
      | inl f ↦ inl (
        rw (e, stable_release) (rw f refl),
        rw (e, has_release) (rw f refl),
        λ bound. rw (e, release_le) (rw f refl),
      )
      | inr (v, f) ↦ elim (Bool-cases (is_stable v)) [
        | inl stable ↦ inr (
          (tag, v),
          rw (e, stable_release) (rw f (rw stable refl)),
          (e, f, stable),
          rw (e, has_release) (rw f stable),
          λ bound. rw (e, release_le) (rw f (rw stable refl)),
        )
        | inr unstable ↦ inl (
          rw (e, stable_release) (rw f (rw unstable refl)),
          rw (e, has_release) (rw f unstable),
          λ bound. rw (e, release_le) (rw f (rw unstable refl)),
        )
      ]
    ]
  ]

  Occurs-its_releases :
      (es : List Bytes) (r : Bytes × Version)
      → Occurs r (its_releases es)
      → (entry : Bytes) × Occurs entry es × IsRelease entry r
  unfolding its_releases its_release stable_releases
  Occurs-its_releases [] r at = absurd at
  Occurs-its_releases (entry ∷ es) r at = elim (verdict_of_entry entry) [
    | inl (e, _, _) ↦
        let (x, there, is) = Occurs-its_releases es r (rw (e, stable_releases) at at) in
        (x, inr there, is)
    | inr (q, e, is, _, _) ↦ elim (rw (e, stable_releases) at at) [
      | inl same ↦ (entry, inl refl, subst (IsRelease entry) same is)
      | inr later ↦
          let (x, there, released) = Occurs-its_releases es r later in (x, inr there, released)
    ]
  ]

  AtMost-its_releases :
      (bound : Version) (es : List Bytes)
      → AtMost version_le bound (its_releases es)
      → All (λ e. release_le bound e ≡ true) es
  unfolding its_releases its_release stable_releases
  AtMost-its_releases bound [] top = tt
  AtMost-its_releases bound (entry ∷ es) top = elim (verdict_of_entry entry) [
    | inl (e, _, below) ↦
        (below bound, AtMost-its_releases bound es (rw (e, stable_releases) at top))
    | inr (q, e, _, _, below) ↦
        let (first, later) = rw (e, stable_releases) at top in
        (below bound ∙ first, AtMost-its_releases bound es later)
  ]

  no_release : (es : List Bytes) → its_releases es ≡ [] → All (λ e. has_release e ≡ false) es
  unfolding its_releases its_release stable_releases
  no_release [] h = tt
  no_release (entry ∷ es) h = elim (verdict_of_entry entry) [
    | inl (e, lacks, _) ↦ (lacks, no_release es (rw (e, stable_releases) at h))
    | inr (q, e, _, _, _) ↦ cc (rw (e, stable_releases) at h)
  ]

  module _ (feed current target : Bytes) where
    abbrev pub IsOffer : Feed → Type 0
    IsOffer bad_current = parse_version current ≡ none
    IsOffer no_releases =
        (v : Version) × (parse_version current ≡ some v)
        × All (λ e. has_release e ≡ false) (entries feed)
    IsOffer up_to_date =
        (v : Version) × (entry : Bytes) × (r : Bytes × Version) × (parse_version current ≡ some v)
        × Occurs entry (entries feed)
        × IsRelease entry r
        × All (λ e. release_le v e ≡ true) (entries feed)
    IsOffer (update info) =
        (v : Version) × (entry : Bytes) × (r : Bytes × Version) × (parse_version current ≡ some v)
        × Occurs entry (entries feed)
        × IsRelease entry r
        × All (λ e. release_le r.1 e ≡ true) (entries feed)
        × (version_le r.1 v ≡ false)
        × (info ≡ record {
          version = r.0;
          notes = [];
          download_url = download_url_of r.0 target;
          current_version = current;
        })

    module _ (order : IsOrder Version version_le) where
      offer-IsOffer :
          (v : Version) (o : Option (Bytes × Version))
          → parse_version current ≡ some v
          → IsNewest version_le (its_releases (entries feed)) o
          → IsOffer (offer Version parse_version is_stable version_le v current target o)
      unfolding offer
      offer-IsOffer v none e h = (v, e, no_release (entries feed) h)
      offer-IsOffer v (some r) e (at, top) =
          let (entry, there, is) = Occurs-its_releases (entries feed) r at in
          elim (Bool-cases (version_le r.1 v)) [
            | inl old ↦ rw old (
              v,
              entry,
              r,
              e,
              there,
              is,
              AtMost-its_releases v (entries feed)
                  (AtMost-mono version_le order r.1 v (its_releases (entries feed)) old top),
            )
            | inr new ↦
                rw new
                  (v, entry, r, e, there, is, AtMost-its_releases r.1 (entries feed) top, new, refl)
          ]

      -- The order of versions is total and transitive. An update is offered only of an entry of the
      -- feed whose title is a tag with a stable version, above the current one and at least that of
      -- every other such entry, with the address of its archive. The program is up to date only if
      -- there are such entries, none of them above the current version; else there is none, or the
      -- current version does not parse.
      pub update_from_feed-IsOffer :
          IsOffer (update_from_feed Version parse_version is_stable version_le feed current target)
      unfolding update_from_feed its_releases
      update_from_feed-IsOffer = elim (Option-cases (parse_version current)) [
        | inl e ↦ rw (e, update_from_feed) e
        | inr (v, e) ↦
            rw (e, update_from_feed)
              (offer-IsOffer v
                (newest Version parse_version is_stable version_le (its_releases (entries feed))) e
                (newest-IsNewest version_le order parse_version is_stable
                  (its_releases (entries feed))))
      ]
