-- ===== src/Session/Laws.antt =====
-- Laws of the sessions of src/auth.rs.
pub mod Split
use mathlib.Core.Bool.{true≢false}
use rustblocker.Base.{
  ℕ, ◌+◌, ◌%◌, ◌^◌, ◌≤◌, ◌<◌, ◌≡◌, refl, sym, ap, subst, ◌∙◌, ==_iff, Option-cases, ◌⊎◌, ◌↔◌, inl,
  inr, Bool, true, false, Option, none, some, [], ◌∷◌, ◌++◌, Bytes, arith, any, ltb, ◌==◌,
  if◌then◌else◌, Bool-cases,
}
use rustblocker.Session.{
  Signing, AuthState, split_once, is_public_path, payload_of, create_session, check_parts,
  validate_session, lets_through,
}
use rustblocker.Session.Laws.Split.{from_some, split_once-append, split_once-parts}

module _ (signing : Signing) where
  open signing use {
    sign, verify_signature, base64_encode, base64_decode, print_u64, parse_u64, verify-sign,
    decode-encode, parse-print, print_plain,
  }

  -- The signature that stands behind a cookie until it expires.
  issued_cookie :
      (auth : AuthState) (expires unix_now : ℕ)
      → validate_session signing auth unix_now (
          print_u64 expires
          ++ b'|' ∷ base64_encode (sign auth.session_secret (payload_of signing expires)))
        ≡ (if ltb expires unix_now then false else true)
  unfolding validate_session check_parts
  issued_cookie auth expires unix_now =
      rw
        (
          split_once-append (print_u64 expires)
              (base64_encode (sign auth.session_secret (payload_of signing expires)))
              (print_plain expires),
          validate_session,
        )
        (rw
          (
            parse-print expires,
            decode-encode (sign auth.session_secret (payload_of signing expires)),
            verify-sign auth.session_secret (payload_of signing expires),
          )
          refl)

  -- A cookie that was issued at one time is valid at another, under the same secret, exactly until its
  -- expiry, the time of issue plus the maximal age, when that is below 2^64.
  pub validate_session-create_session :
      (auth : AuthState) (issued max_age_secs unix_now : ℕ)
      → issued + max_age_secs < 2 ^ 64
      → (validate_session signing auth unix_now (create_session signing auth issued max_age_secs)
          ≡ true)
        ↔ (unix_now ≤ issued + max_age_secs)
  unfolding create_session
  validate_session-create_session auth issued max_age_secs unix_now small =
      rw (wrapped, issued_cookie auth (issued + max_age_secs) unix_now) (ground arith, ground arith)
    where
      wrapped : (issued + max_age_secs) % 2 ^ 64 ≡ issued + max_age_secs
      wrapped = omega (arith, small)

  -- What a request that needs a session must show: a cookie whose text up to the first bar is an
  -- expiry that has not passed, and whose text behind the bar is the base64 of a signature that
  -- verifies for this expiry under the secret that is set.
  pub record IsSession (auth : AuthState) (unix_now : ℕ) (cookie : Option Bytes) : Type 0 where
    pub value : Bytes
    pub front : Bytes
    pub back : Bytes
    pub expires : ℕ
    pub signature : Bytes
    pub shown : cookie ≡ some value
    pub parts : value ≡ front ++ b'|' ∷ back
    pub plain : any (λ c. c == b'|') front ≡ false
    pub parsed : parse_u64 front ≡ some expires
    pub decoded : base64_decode back ≡ some signature
    pub unexpired : unix_now ≤ expires
    pub signed : verify_signature auth.session_secret (payload_of signing expires) signature ≡ true

  check_parts-IsSession :
      (auth : AuthState) (unix_now : ℕ) (value front back : Bytes) (expires : Option ℕ)
      (signature : Option Bytes)
      → value ≡ front ++ b'|' ∷ back
      → any (λ c. c == b'|') front ≡ false
      → parse_u64 front ≡ expires
      → base64_decode back ≡ signature
      → check_parts signing auth unix_now expires signature ≡ true
      → IsSession auth unix_now (some value)
  unfolding check_parts
  check_parts-IsSession auth unix_now value front back none signature e p f g h = cc
  check_parts-IsSession auth unix_now value front back (some expires) none e p f g h = cc
  check_parts-IsSession auth unix_now value front back (some expires) (some signature) e p f g h =
      elim (Bool-cases (ltb expires unix_now)) [
        | inl late ↦ absurd (true≢false (sym (rw late at h)))
        | inr fine ↦ record {
          value = value;
          front = front;
          back = back;
          expires = expires;
          signature = signature;
          shown = refl;
          parts = e;
          plain = p;
          parsed = f;
          decoded = g;
          unexpired = ground arith;
          signed = rw fine at h;
        }
      ]

  validate_session-IsSession :
      (auth : AuthState) (unix_now : ℕ) (value : Bytes)
      → validate_session signing auth unix_now value ≡ true
      → IsSession auth unix_now (some value)
  unfolding validate_session
  validate_session-IsSession auth unix_now value h = by_parts (split_once value) refl h
    where
      by_parts :
          (parts : Option (Bytes × Bytes))
          → split_once value ≡ parts
          → ◌≡◌ {A = Bool}
              (elim parts [
                | none ↦ false
                | some p ↦ check_parts signing auth unix_now (parse_u64 p.0) (base64_decode p.1)
              ])
              true
          → IsSession auth unix_now (some value)
      by_parts none e h' = cc
      by_parts (some (front, back)) e h' =
          let (whole, plain) = split_once-parts value front back e in
          check_parts-IsSession auth unix_now value front back (parse_u64 front)
            (base64_decode back) whole plain refl refl h'

  accepted :
      (auth : AuthState) (unix_now expires : ℕ) (signature : Bytes)
      → unix_now ≤ expires
      → verify_signature auth.session_secret (payload_of signing expires) signature ≡ true
      → check_parts signing auth unix_now (some expires) (some signature) ≡ true
  unfolding check_parts
  accepted auth unix_now expires signature h k = elim (Bool-cases (ltb expires unix_now)) [
    | inl late ↦ ground (arith, late, h)
    | inr fine ↦ rw fine k
  ]

  IsSession-validate_session :
      (auth : AuthState) (unix_now : ℕ) (value : Bytes)
      → IsSession auth unix_now (some value)
      → validate_session signing auth unix_now value ≡ true
  unfolding validate_session
  IsSession-validate_session auth unix_now value s =
      let same : value ≡ s.front ++ b'|' ∷ s.back = ap (from_some value) s.shown ∙ s.parts in
      subst (λ v. validate_session signing auth unix_now v ≡ true) (sym same)
        (rw (split_once-append s.front s.back s.plain, validate_session)
          (rw (s.parsed, s.decoded)
            (accepted auth unix_now s.expires s.signature s.unexpired s.signed)))

  IsSession-lets_through :
      (auth : AuthState) (unix_now : ℕ) (path : Bytes) (cookie : Option Bytes)
      → (is_public_path path ≡ true) ⊎ IsSession auth unix_now cookie
      → lets_through signing auth unix_now path cookie ≡ true
  unfolding lets_through
  IsSession-lets_through auth unix_now path cookie (inl public) = rw public refl
  IsSession-lets_through auth unix_now path none (inr s) = cc (s.shown)
  IsSession-lets_through auth unix_now path (some value) (inr s) =
      elim (Bool-cases (is_public_path path)) [
        | inl public ↦ rw public refl
        | inr closed ↦ rw closed (IsSession-validate_session auth unix_now value s)
      ]

  cookie_needed :
      (auth : AuthState) (unix_now : ℕ) (path : Bytes) (cookie : Option Bytes)
      → lets_through signing auth unix_now path cookie ≡ true
      → (is_public_path path ≡ true) ⊎ IsSession auth unix_now cookie
  unfolding lets_through
  cookie_needed auth unix_now path none h = elim (Bool-cases (is_public_path path)) [
    | inl public ↦ inl public
    | inr closed ↦ absurd (true≢false (sym (rw closed at h)))
  ]
  cookie_needed auth unix_now path (some value) h = elim (Bool-cases (is_public_path path)) [
    | inl public ↦ inl public
    | inr closed ↦ inr (validate_session-IsSession auth unix_now value (rw closed at h))
  ]

  -- The middleware calls the service exactly for a public path, or for a cookie whose text up to its
  -- first bar is an expiry that has not passed, and whose text behind the bar is the base64 of a
  -- signature that verifies for this very expiry under the secret that is set.
  pub lets_through-IsSession :
      (auth : AuthState) (unix_now : ℕ) (path : Bytes) (cookie : Option Bytes)
      → (lets_through signing auth unix_now path cookie ≡ true)
        ↔ ((is_public_path path ≡ true) ⊎ IsSession auth unix_now cookie)
  lets_through-IsSession auth unix_now path cookie =
      (cookie_needed auth unix_now path cookie, IsSession-lets_through auth unix_now path cookie)
