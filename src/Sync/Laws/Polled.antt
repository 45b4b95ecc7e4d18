-- ===== src/Sync/Laws/Polled.antt =====
-- What a poll of src/sync.rs remembers of the manifest, and that it settles.
use rustblocker.Base.{
  ◌≡◌, refl, ap, subst, ◌∙◌, Bool, true, false, Option, none, some, List, [], ◌∷◌, Bytes, bytes_eq,
  bytes_eq_sound, bytes_eq_refl, any, if◌then◌else◌, All, Bool-cases, inl, inr,
}
use rustblocker.Database.Settings.{setting, put_setting}
use rustblocker.Database.Laws.Settings.{setting-put_setting, setting-absent, IsKeyed}
use rustblocker.Sync.Apply.{World, ApplyWeather}
use rustblocker.Sync.Poll.{
  known_hash, put_hash, is_hash, Answers, Syncing, take_snapshot, sync_category, sync_categories,
}

known_hash-setting :
    (c : Bytes) (known : List (Bytes × Bytes)) → known_hash c known ≡ setting c known
unfolding known_hash setting
known_hash-setting c [] = refl
known_hash-setting c ((k, hash) ∷ rest) = rw (known_hash-setting c rest) refl

known_hash-put_hash :
    (category hash c : Bytes) (known : List (Bytes × Bytes))
    → known_hash c (put_hash category hash known)
      ≡ (if bytes_eq category c then some hash else known_hash c known)
unfolding put_hash put_setting
known_hash-put_hash category hash c known =
    known_hash-setting c (put_setting category hash known)
    ∙ setting-put_setting category hash c known
    ∙ rw (known_hash-setting c known) refl

is_hash-eq : (hash : Bytes) (o : Option Bytes) → is_hash hash o ≡ true → o ≡ some hash
is_hash-eq hash none h = cc
is_hash-eq hash (some x) h = ap some (bytes_eq_sound x hash h)

abbrev pub arrives {ℓ} : {A : Type ℓ} → Option A → Bool
arrives none = false
arrives (some _) = true

-- The hash known after a poll: that of the manifest if the snapshot arrived, and the former one if it
-- did not or the manifest has no such category.
abbrev pub polled_hash : Option Bytes → Bool → Option Bytes → Option Bytes
polled_hash none arrived before = before
polled_hash (some hash) true before = some hash
polled_hash (some hash) false before = before

module _ (world : World) where
  take_snapshot-known :
      (category hash c : Bytes) (w : ApplyWeather) (o : Option world.Json) (y : Syncing world)
      → known_hash c (take_snapshot world category hash w o y).known_hashes ≡ (
          if bytes_eq category c
          then polled_hash (some hash) (arrives o) (known_hash c y.known_hashes)
          else known_hash c y.known_hashes)
  unfolding take_snapshot
  take_snapshot-known category hash c w none y = elim (Bool-cases (bytes_eq category c)) [
    | inl same ↦ rw same refl
    | inr differs ↦ rw differs refl
  ]
  take_snapshot-known category hash c w (some value) y =
      known_hash-put_hash category hash c y.known_hashes

  module _ (answers : Answers world) where
    sync_category-known :
        (category hash c : Bytes) (y : Syncing world)
        → known_hash c (sync_category world answers category hash y).known_hashes ≡ (
            if bytes_eq category c
            then polled_hash
                (some hash)
                (arrives (answers.snapshot category))
                (known_hash c y.known_hashes)
            else known_hash c y.known_hashes)
    unfolding sync_category
    sync_category-known category hash c y =
        elim (Bool-cases (is_hash hash (known_hash category y.known_hashes))) [
          | inl same ↦ rw same (elim (Bool-cases (bytes_eq category c)) [
            | inl here ↦
                let e : known_hash c y.known_hashes ≡ some hash =
                  subst (λ x. known_hash x y.known_hashes ≡ some hash)
                    (bytes_eq_sound category c here)
                    (is_hash-eq hash (known_hash category y.known_hashes) same) in
                rw (here, e) (settled (arrives (answers.snapshot category)))
            | inr differs ↦ rw differs refl
          ])
          | inr new ↦ rw new (
              take_snapshot-known category hash c (answers.weather category)
                (answers.snapshot category) y)
        ]
      where
        settled : (b : Bool) → some hash ≡ polled_hash (some hash) b (some hash)
        settled true = refl
        settled false = refl

    -- After a poll of a manifest that has each category once, a category of which the snapshot arrived
    -- is known with the hash of the manifest; one of which it did not arrive, or that the manifest does
    -- not have, is known as before, so that it is fetched again at the following poll.
    pub sync_categories-known_hash :
        (hashes : List (Bytes × Bytes)) (y : Syncing world) (c : Bytes)
        → IsKeyed hashes
        → known_hash c (sync_categories world answers hashes y).known_hashes
          ≡ polled_hash
              (known_hash c hashes)
              (arrives (answers.snapshot c))
              (known_hash c y.known_hashes)
    unfolding sync_categories known_hash
    sync_categories-known_hash [] y c keyed = refl
    sync_categories-known_hash ((category, hash) ∷ rest) y c (alone, keyed) =
        let ih =
          sync_categories-known_hash rest (sync_category world answers category hash y) c keyed in
        let k = sync_category-known category hash c y in
        elim (Bool-cases (bytes_eq category c)) [
          | inl here ↦
              let e = bytes_eq_sound category c here in
              let gone : known_hash c rest ≡ none =
                known_hash-setting c rest
                ∙ setting-absent c rest
                    (subst (λ x. any (λ p. bytes_eq p.0 x) rest ≡ false) e alone) in
              ih ∙ rw gone (k ∙ rw (here, e) refl)
          | inr differs ↦ ih ∙ rw (k, differs) refl
        ]

    known_after :
        (hashes : List (Bytes × Bytes)) (y : Syncing world)
        → IsKeyed hashes
        → All (λ p. arrives (answers.snapshot p.0) ≡ true) hashes
        → All
            (λ p. known_hash p.0 (sync_categories world answers hashes y).known_hashes ≡ some p.1)
            hashes
    unfolding sync_categories known_hash
    known_after [] y keyed arrived = tt
    known_after ((category, hash) ∷ rest) y (alone, keyed) (here, arrived) = (
      sync_categories-known_hash ((category, hash) ∷ rest) y category (alone, keyed)
          ∙ rw (bytes_eq_refl category, here) refl,
      known_after rest (sync_category world answers category hash y) keyed arrived,
    )

  sync_categories-settled :
      (answers : Answers world) (hashes : List (Bytes × Bytes)) (y : Syncing world)
      → All (λ p. known_hash p.0 y.known_hashes ≡ some p.1) hashes
      → sync_categories world answers hashes y ≡ y
  unfolding sync_categories sync_category
  sync_categories-settled answers [] y h = refl
  sync_categories-settled answers ((category, hash) ∷ rest) y (here, h) =
      rw (here, bytes_eq_refl hash) (sync_categories-settled answers rest y h)

  -- Once all snapshots of a manifest with each category once have arrived, another poll of the same
  -- manifest changes nothing, whatever the primary would answer.
  pub sync_categories-again :
      (answers later : Answers world) (hashes : List (Bytes × Bytes)) (y : Syncing world)
      → IsKeyed hashes
      → All (λ p. arrives (answers.snapshot p.0) ≡ true) hashes
      → sync_categories world later hashes (sync_categories world answers hashes y)
        ≡ sync_categories world answers hashes y
  sync_categories-again answers later hashes y keyed arrived =
      sync_categories-settled later hashes (sync_categories world answers hashes y)
        (known_after answers hashes y keyed arrived)
