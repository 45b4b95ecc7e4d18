-- ===== src/Database/Laws/Settings.antt =====
-- Settings of src/db.rs: what one statement changes, and what the API shows.
use rustblocker.Base.{
  ℕ, ◌≡◌, ◌≢◌, refl, sym, ap, subst, Bool, true, false, ◌&&◌, Option, none, some, List, [], ◌∷◌,
  Bytes, codes, arith, bytes_eq, bytes_eq_sound, any, if◌then◌else◌, Bool-cases, inl, inr,
}
use rustblocker.Database.Tables.{Database}
use rustblocker.Database.Settings.{
  setting, drop_setting, put_setting, is_secret, shown, get_settings, exchange_setting,
}

setting-drop_setting :
    (key k : Bytes) (settings : List (Bytes × Bytes))
    → setting k (drop_setting key settings) ≡ (if bytes_eq key k then none else setting k settings)
unfolding setting
setting-drop_setting key k [] = ground arith
setting-drop_setting key k ((j, value) ∷ rest) = elim (Bool-cases (bytes_eq j key)) [
  | inl same ↦
      let e : bytes_eq j k ≡ bytes_eq key k = ap (λ x. bytes_eq x k) (bytes_eq_sound j key same) in
      rw same (ground (arith, e, setting-drop_setting key k rest))
  | inr differs ↦ elim (Bool-cases (bytes_eq j k)) [
    | inl here ↦ rw (differs, here, differ key j k differs here) refl
    | inr later ↦ rw (differs, later) (setting-drop_setting key k rest)
  ]
]
  where
    differ :
        (key j k : Bytes) → bytes_eq j key ≡ false → bytes_eq j k ≡ true → bytes_eq key k ≡ false
    differ key j k h e = elim (Bool-cases (bytes_eq key k)) [
      | inl same ↦
          let f : bytes_eq j key ≡ true =
            subst (λ x. bytes_eq j x ≡ true) (sym (bytes_eq_sound key k same)) e in
          ground arith
      | inr differs ↦ differs
    ]

-- After a write a key has the value written, and all other keys have theirs.
pub setting-put_setting :
    (key value k : Bytes) (settings : List (Bytes × Bytes))
    → setting k (put_setting key value settings)
      ≡ (if bytes_eq key k then some value else setting k settings)
unfolding setting put_setting
setting-put_setting key value k settings = rw (setting-drop_setting key k settings) (ground arith)

-- No key twice.
abbrev pub IsKeyed : List (Bytes × Bytes) → Type 0
IsKeyed [] = Unit
IsKeyed ((key, value) ∷ rest) = (any (λ p. bytes_eq p.0 key) rest ≡ false) × IsKeyed rest

-- What the API shows of a setting.
abbrev pub shown_setting : Bytes → Option Bytes → Option Bytes
shown_setting key none = none
shown_setting key (some value) = if is_secret key then none else some (shown key value)

-- The settings that the API shows are all but the password hash, the session secret and the
-- password of the primary, with the Cloudflare token masked.
pub setting-get_settings :
    (k : Bytes) (settings : List (Bytes × Bytes))
    → setting k (get_settings settings) ≡ shown_setting k (setting k settings)
unfolding setting get_settings
setting-get_settings k [] = refl
setting-get_settings k ((key, value) ∷ rest) = elim (Bool-cases (bytes_eq key k)) [
  | inl here ↦
      let e = bytes_eq_sound key k here in
      elim (Bool-cases (is_secret key)) [
        | inl secret ↦
            let f : is_secret k ≡ true = subst (λ x. is_secret x ≡ true) e secret in
            rw (here, secret, f, setting-get_settings k rest) (hidden k (setting k rest) f)
        | inr plain ↦
            let f : is_secret k ≡ false = subst (λ x. is_secret x ≡ false) e plain in
            rw (here, plain, f) (rw here (ap (λ x. some (shown x value)) e))
      ]
  | inr other ↦ elim (Bool-cases (is_secret key)) [
    | inl secret ↦ rw (other, secret) (setting-get_settings k rest)
    | inr plain ↦ rw (other, plain) (rw other (setting-get_settings k rest))
  ]
]
  where
    hidden : (k : Bytes) (o : Option Bytes) → is_secret k ≡ true → shown_setting k o ≡ none
    hidden k none h = refl
    hidden k (some v) h = rw h refl

pub setting-absent :
    (key : Bytes) (rest : List (Bytes × Bytes))
    → any (λ p. bytes_eq p.0 key) rest ≡ false
    → setting key rest ≡ none
unfolding setting
setting-absent key [] h = refl
setting-absent key ((k, value) ∷ rest) h = ground (arith, setting-absent key rest)

abbrev one_if_is : Bytes → Option Bytes → ℕ
one_if_is old none = 0
one_if_is old (some value) = if bytes_eq value old then 1 else 0

abbrev exchanged : Bytes → Bytes → Bytes → Bytes → Option Bytes → Option Bytes
exchanged key old new k none = none
exchanged key old new k (some value) =
    if bytes_eq k key && bytes_eq value old then some new else some value

abbrev text_or : Bytes → Option Bytes → Bytes
text_or d none = d
text_or d (some v) = v

module _ (db : Database) (current new secret : Bytes) where
  -- How a change of the password may end.
  abbrev pub IsExchange : Bool → Bool → Database × Option Bool → Type 0
  IsExchange connects commits (next, none) = (next ≡ db) × ((connects && commits) ≡ false)
  IsExchange connects commits (next, some false) =
      (next ≡ db) × (setting (codes "admin_password_hash") db.settings ≢ some current)
  IsExchange connects commits (next, some true) =
      (setting (codes "admin_password_hash") db.settings ≡ some current)
      × (setting (codes "admin_password_hash") next.settings ≡ some new)
      × (setting (codes "session_secret") next.settings ≡ some secret)
      × ((k : Bytes)
          → bytes_eq k (codes "admin_password_hash") ≡ false
          → bytes_eq (codes "session_secret") k ≡ false
          → setting k next.settings ≡ setting k db.settings)
      × (next ≡ record db { settings = next.settings })

  -- The settings that the transaction writes.
  written : List (Bytes × Bytes)
  written =
      put_setting (codes "session_secret") secret
        (exchange_setting (codes "admin_password_hash") current new db.settings).0
