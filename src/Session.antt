-- ===== src/Session.antt =====
-- Sessions of src/auth.rs: the signed cookie, and which requests the middleware lets through. The
-- keyed hash (hmac, sha2), base64 and the decimal text of numbers belong to other code: an interface
-- with what the sessions rely on.
pub mod Laws
use rustblocker.Base.{
  ℕ, ◌+◌, ◌%◌, ◌^◌, ◌≡◌, Bool, true, false, not, ◌&&◌, ◌||◌, Option, none, some, List, [], ◌∷◌,
  ◌++◌, Bytes, codes, bytes_eq, starts_with, any, ltb, ◌==◌, if◌then◌else◌,
}

pub record Signing : Type 0 where
  pub sign : Bytes → Bytes → Bytes
  pub verify_signature : Bytes → Bytes → Bytes → Bool
  pub base64_encode : Bytes → Bytes
  pub base64_decode : Bytes → Option Bytes
  -- `Display` and `FromStr` of `u64`.
  pub print_u64 : ℕ → Bytes
  pub parse_u64 : Bytes → Option ℕ
  -- A signature verifies under its own secret and payload.
  pub verify-sign :
      (secret payload : Bytes) → verify_signature secret payload (sign secret payload) ≡ true
  pub decode-encode : (b : Bytes) → base64_decode (base64_encode b) ≡ some b
  pub parse-print : (n : ℕ) → parse_u64 (print_u64 n) ≡ some n
  -- Decimal text has no bar.
  pub print_plain : (n : ℕ) → any (λ c. c == b'|') (print_u64 n) ≡ false

abbrev pub session_max_age_secs : ℕ
session_max_age_secs = 604_800

-- `split_once('|')`.
unfoldable pub split_once : Bytes → Option (Bytes × Bytes)
split_once [] = none
split_once (c ∷ s) = let rest = split_once s in if c == b'|' then some ([], s) else before c rest
  where
    before : ℕ → Option (Bytes × Bytes) → Option (Bytes × Bytes)
    before c none = none
    before c (some (front, back)) = some (c ∷ front, back)

-- `AuthState`: the signing key.
pub record AuthState : Type 0 where
  pub session_secret : Bytes

unfoldable pub replace_secret : AuthState → Bytes → AuthState
replace_secret auth new_secret = record { session_secret = new_secret }

-- `Path`s that need no session.
unfoldable pub is_public_path : Bytes → Bool
is_public_path path =
    bytes_eq path (codes "/")
    || starts_with (codes "/tailwind.min.css") path
    || bytes_eq path (codes "/app.js")
    || bytes_eq path (codes "/icon.png")
    || bytes_eq path (codes "/favicon.png")
    || bytes_eq path (codes "/favicon.ico")
    || bytes_eq path (codes "/api/health")
    || bytes_eq path (codes "/api/version")
    || bytes_eq path (codes "/api/dns/concurrency")
    || bytes_eq path (codes "/api/auth/login")
    || bytes_eq path (codes "/api/auth/logout")
    || bytes_eq path (codes "/api/auth/check")

module _ (signing : Signing) where
  open signing use {sign, verify_signature, base64_encode, base64_decode, print_u64, parse_u64}

  unfoldable pub payload_of : ℕ → Bytes
  payload_of expires = codes "admin|" ++ print_u64 expires

  -- `unix_now()` is an argument.
  unfoldable pub create_session : AuthState → ℕ → ℕ → Bytes
  create_session auth unix_now max_age_secs =
      let expires = (unix_now + max_age_secs) % 2 ^ 64 in
      print_u64 expires ++ b'|' ∷ base64_encode (sign auth.session_secret (payload_of expires))

  unfoldable pub check_parts : AuthState → ℕ → Option ℕ → Option Bytes → Bool
  check_parts auth unix_now none signature = false
  check_parts auth unix_now (some expires) none = false
  check_parts auth unix_now (some expires) (some signature) =
      if ltb expires unix_now
      then false
      else verify_signature auth.session_secret (payload_of expires) signature

  unfoldable pub validate_session : AuthState → ℕ → Bytes → Bool
  validate_session auth unix_now cookie_value = elim (split_once cookie_value) [
    | none ↦ false
    | some parts ↦ check_parts auth unix_now (parse_u64 parts.0) (base64_decode parts.1)
  ]

  -- Whether the middleware calls the service; else the answer is 401.
  unfoldable pub lets_through : AuthState → ℕ → Bytes → Option Bytes → Bool
  lets_through auth unix_now path cookie =
      if is_public_path path
      then true
      else elim cookie [ none ↦ false | some value ↦ validate_session auth unix_now value ]
