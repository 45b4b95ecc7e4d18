-- ===== src/Store/Laws/Arena.antt =====
-- Reading the byte arena of src/lists.rs: what was pushed is read back, and stays readable.
use rustblocker.Base.{
  ℕ, zero, suc, ◌+◌, ◌*◌, ◌/◌, ◌%◌, ◌^◌, ◌≤◌, ◌≡◌, refl, ap, true, false, List, [], ◌∷◌, ◌++◌,
  Bytes, arith, is_empty, length, length-append, take, drop, drop-append, drop-append_le,
  take-append_le, leb, Bool-cases, inl, inr,
}
use rustblocker.Store.{entry, domain_at, encoded}

drop_past {ℓ} : {A : Type ℓ} (n : ℕ) (xs : List A) → length xs ≤ n → drop n xs ≡ []
drop_past zero [] h = refl
drop_past zero (x ∷ xs) h = absurd (omega arith)
drop_past (suc n) [] h = refl
drop_past (suc n) (x ∷ xs) h = drop_past n xs (omega arith)

-- An entry that is there stays when bytes are written behind it.
entry-append : (xs ys : Bytes) → is_empty (entry xs) ≡ false → entry (xs ++ ys) ≡ entry xs
unfolding entry
entry-append [] ys h = cc
entry-append (lo ∷ []) ys h = cc
entry-append (lo ∷ hi ∷ rest) ys h =
    ground (arith, length-append rest ys, take-append_le (lo + 256 * hi) rest ys)

absurd_of : true ≡ false → ⊥
absurd_of e = ground arith

pub domain_at-append :
    (arena more : Bytes) (o : ℕ)
    → is_empty (domain_at arena o) ≡ false
    → domain_at (arena ++ more) o ≡ domain_at arena o
unfolding domain_at entry
domain_at-append arena more o h = elim (Bool-cases (leb o (length arena))) [
  | inl within ↦
      rw (drop-append_le o arena more (ground arith)) (entry-append (drop o arena) more h)
  | inr past ↦ absurd (nothing (ground arith))
]
  where
    nothing : length arena ≤ o → ⊥
    nothing q = absurd_of (rw (drop_past o arena q) at h)

take_all {ℓ} : {A : Type ℓ} (xs : List A) → take (length xs) xs ≡ xs
take_all [] = refl
take_all (x ∷ xs) = ap (◌∷◌ x) (take_all xs)

-- What is pushed at the end of the arena is read back at its offset.
pub domain_at-encoded :
    (arena d : Bytes) → length d ≤ 65535 → domain_at (arena ++ encoded d) (length arena) ≡ d
unfolding domain_at entry
domain_at-encoded arena d h =
    rw (drop-append arena (encoded d)) (ground (arith, take_all d, ap (λ n. take n d) whole))
  where
    whole : length d % 2 ^ 16 % 256 + 256 * (length d % 2 ^ 16 / 256) ≡ length d
    whole = omega arith

pub length-encoded : (d : Bytes) → length (encoded d) ≡ 2 + length d
length-encoded d = omega arith
