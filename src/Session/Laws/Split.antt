-- ===== src/Session/Laws/Split.antt =====
-- `split_once` of src/auth.rs, at the first bar.
use rustblocker.Base.{
  ◌≡◌, refl, ap, subst, ==_iff, Option-cases, inl, inr, false, Option, none, some, [], ◌∷◌, ◌++◌,
  Bytes, arith, any, ◌==◌, Bool-cases,
}
use rustblocker.Session.{split_once}

-- The value of an option, or another.
abbrev pub from_some {ℓ} : {A : Type ℓ} → A → Option A → A
from_some a none = a
from_some a (some x) = x

-- A text with a bar is split at the first one.
pub split_once-append :
    (front back : Bytes)
    → any (λ c. c == b'|') front ≡ false
    → split_once (front ++ b'|' ∷ back) ≡ some (front, back)
unfolding split_once
split_once-append [] back plain = refl
split_once-append (c ∷ front) back plain = elim (Bool-cases (c == b'|')) [
  | inl bar ↦ ground (arith, bar)
  | inr other ↦ rw (other, split_once-append front back (rw other at plain)) refl
]

part_of :
    (s f b front back : Bytes)
    → ◌≡◌ {A = Option (Bytes × Bytes)} (some (f, b)) (some (front, back))
    → (s ≡ f ++ b'|' ∷ b) × (any (λ c. c == b'|') f ≡ false)
    → (s ≡ front ++ b'|' ∷ back) × (any (λ c. c == b'|') front ≡ false)
part_of s f b front back e h =
    subst
      (λ (o : Option (Bytes × Bytes)).
        (s ≡ (from_some (f, b) o).0 ++ b'|' ∷ (from_some (f, b) o).1)
        × (any (λ c. c == b'|') (from_some (f, b) o).0 ≡ false))
      e h

-- The parts of a text that has a bar: what stands before the first one, and all behind it.
pub split_once-parts :
    (s front back : Bytes)
    → split_once s ≡ some (front, back)
    → (s ≡ front ++ b'|' ∷ back) × (any (λ c. c == b'|') front ≡ false)
unfolding split_once
split_once-parts [] front back h = cc
split_once-parts (c ∷ s) front back h = elim (Bool-cases (c == b'|')) [
  | inl bar ↦
      let k : ◌≡◌ {A = Option (Bytes × Bytes)} (some ([], s)) (some (front, back)) = rw bar at h in
      part_of (c ∷ s) [] s front back k (rw ((==_iff c b'|').0 bar) refl, refl)
  | inr other ↦ elim (Option-cases (split_once s)) [
    | inl e ↦ cc (rw (other, e) at h)
    | inr ((f, b), e) ↦
        let k : ◌≡◌ {A = Option (Bytes × Bytes)} (some (c ∷ f, b)) (some (front, back)) =
          rw (other, e) at h in
        let (whole, plain) = split_once-parts s f b e in
        part_of (c ∷ s) (c ∷ f) b front back k (ap (λ x. c ∷ x) whole, rw (other, plain) refl)
  ]
]
