-- ===== src/Update/Laws/Newest.antt =====
-- The newest release of a list, as `max_by` of src/update.rs finds it.
use rustblocker.Base.{
  ◌≡◌, ◌⊎◌, refl, sym, subst, Bool, true, false, Option, none, some, List, [], ◌∷◌, Bytes, All,
  All-mono, if◌then◌else◌, inl, inr,
}
use rustblocker.Update.{newest}

-- The order of `semver::Version`.
pub record IsOrder (Version : Type 0) (version_le : Version → Version → Bool) : Type 0 where
  pub reflexive : (v : Version) → version_le v v ≡ true
  pub transitive :
      (u v w : Version) → version_le u v ≡ true → version_le v w ≡ true → version_le u w ≡ true
  pub total : (u v : Version) → version_le u v ≡ false → version_le v u ≡ true

abbrev pub Occurs : {A : Type 0} → A → List A → Type 0
Occurs a [] = ⊥
Occurs a (x ∷ xs) = (x ≡ a) ⊎ Occurs a xs

module _ {Version : Type 0} (version_le : Version → Version → Bool) where
  abbrev pub AtMost : Version → List (Bytes × Version) → Type 0
  AtMost v releases = All (λ r. version_le r.1 v ≡ true) releases

  -- A release of the list that is at least every other one; none if the list is empty.
  abbrev pub IsNewest : List (Bytes × Version) → Option (Bytes × Version) → Type 0
  IsNewest releases none = releases ≡ []
  IsNewest releases (some r) = Occurs r releases × AtMost r.1 releases

  module _ (order : IsOrder Version version_le) where
    pub AtMost-mono :
        (u v : Version) (rs : List (Bytes × Version))
        → version_le u v ≡ true
        → AtMost u rs
        → AtMost v rs
    AtMost-mono u v rs h =
        All-mono (λ r. version_le r.1 u ≡ true) (λ r. version_le r.1 v ≡ true)
          (λ r k. order.transitive r.1 u v k h) rs

    chosen-IsNewest :
        (r later : Bytes × Version) (rest : List (Bytes × Version)) (b : Bool)
        → version_le r.1 later.1 ≡ b
        → Occurs later rest
        → AtMost later.1 rest
        → IsNewest (r ∷ rest) (some (if b then later else r))
    chosen-IsNewest r later rest true older at top = (inr at, (older, top))
    chosen-IsNewest r later rest false newer at top = (
      inl refl,
      (order.reflexive r.1, AtMost-mono later.1 r.1 rest (order.total r.1 later.1 newer) top),
    )

    newer-IsNewest :
        (r : Bytes × Version) (rest : List (Bytes × Version)) (o : Option (Bytes × Version))
        → IsNewest rest o
        → IsNewest (r ∷ rest) (elim o [
          | none ↦ some r
          | some later ↦ some (if version_le r.1 later.1 then later else r)
        ])
    newer-IsNewest r rest none e = (inl refl, (order.reflexive r.1, subst (AtMost r.1) (sym e) tt))
    newer-IsNewest r rest (some later) (at, top) =
        chosen-IsNewest r later rest (version_le r.1 later.1) refl at top

    pub newest-IsNewest :
        (parse_version : Bytes → Option Version) (is_stable : Version → Bool)
        (rs : List (Bytes × Version))
        → IsNewest rs (newest Version parse_version is_stable version_le rs)
    unfolding newest
    newest-IsNewest parse_version is_stable [] = refl
    newest-IsNewest parse_version is_stable (r ∷ rest) =
        newer-IsNewest r rest (newest Version parse_version is_stable version_le rest)
          (newest-IsNewest parse_version is_stable rest)
