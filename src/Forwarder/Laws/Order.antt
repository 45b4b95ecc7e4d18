-- ===== src/Forwarder/Laws/Order.antt =====
-- `adaptive_order` of src/forwarder.rs: every upstream once, the best score first.
use mathlib.Core.List.{Perm}
use mathlib.Core.List.Perm
use rustblocker.Base.{
  ℕ, zero, suc, ◌+◌, ◌≤◌, ◌≡◌, List, [], ◌∷◌, arith, length, All, leb, Bool-cases, inl, inr,
}
use rustblocker.Forwarder.{
  Forwarder, score_at, range_from, insert_by_key, sort_by_key, adaptive_order,
}

insert_by_key-Perm : (key : ℕ → ℕ) (x : ℕ) (xs : List ℕ) → Perm (insert_by_key key x xs) (x ∷ xs)
unfolding insert_by_key
insert_by_key-Perm key x [] = Perm.refl (x ∷ [])
insert_by_key-Perm key x (y ∷ ys) = elim (Bool-cases (leb (key x) (key y))) [
  | inl before ↦ rw before (Perm.refl (x ∷ y ∷ ys))
  | inr behind ↦
      rw behind (Perm.trans (Perm.cons y (insert_by_key-Perm key x ys)) (Perm.swap x y ys))
]

sort_by_key-Perm : (key : ℕ → ℕ) (xs : List ℕ) → Perm (sort_by_key key xs) xs
unfolding sort_by_key
sort_by_key-Perm key [] = Perm.refl []
sort_by_key-Perm key (x ∷ xs) =
    Perm.trans (insert_by_key-Perm key x (sort_by_key key xs))
      (Perm.cons x (sort_by_key-Perm key xs))

-- Each key is at most those behind it; of two equal keys the smaller index stands first.
abbrev pub Before : (ℕ → ℕ) → ℕ → ℕ → Type 0
Before key x y = (key x ≤ key y) × (key x ≡ key y → x ≤ y)

abbrev pub IsOrdered : (ℕ → ℕ) → List ℕ → Type 0
IsOrdered key [] = Unit
IsOrdered key (x ∷ xs) = All (Before key x) xs × IsOrdered key xs

abbrev AllAbove : ℕ → List ℕ → Type 0
AllAbove n = All (λ x. n ≤ x)

All-Before_trans :
    (key : ℕ → ℕ) (x y : ℕ) (xs : List ℕ)
    → Before key x y
    → All (Before key y) xs
    → All (Before key x) xs
All-Before_trans key x y [] h k = tt
All-Before_trans key x y (z ∷ zs) (p, q) ((r, s), k) = (
  (omega arith, λ e. omega (arith, q (omega arith), s (omega arith))),
  All-Before_trans key x y zs (p, q) k,
)

insert_by_key-All {ℓ} :
    (P : ℕ → Type ℓ) (key : ℕ → ℕ) (x : ℕ) (xs : List ℕ)
    → P x
    → All P xs
    → All P (insert_by_key key x xs)
unfolding insert_by_key
insert_by_key-All P key x [] p h = (p, tt)
insert_by_key-All P key x (y ∷ ys) p (q, h) = elim (Bool-cases (leb (key x) (key y))) [
  | inl before ↦ rw before (p, (q, h))
  | inr behind ↦ rw behind (q, insert_by_key-All P key x ys p h)
]

insert_by_key-IsOrdered :
    (key : ℕ → ℕ) (x : ℕ) (xs : List ℕ)
    → AllAbove x xs
    → IsOrdered key xs
    → IsOrdered key (insert_by_key key x xs)
unfolding insert_by_key
insert_by_key-IsOrdered key x [] a h = (tt, tt)
insert_by_key-IsOrdered key x (y ∷ ys) (a, as') (k, h) = elim (Bool-cases (leb (key x) (key y))) [
  | inl before ↦
      rw before
        (((ground arith, λ e. a), All-Before_trans key x y ys (ground arith, λ e. a) k), (k, h))
  | inr behind ↦ rw behind (
    insert_by_key-All (Before key y) key x ys (ground arith, λ e. absurd (ground arith)) k,
    insert_by_key-IsOrdered key x ys as' h,
  )
]

sort_by_key-AllAbove :
    (key : ℕ → ℕ) (n : ℕ) (xs : List ℕ) → AllAbove n xs → AllAbove n (sort_by_key key xs)
unfolding sort_by_key
sort_by_key-AllAbove key n [] h = tt
sort_by_key-AllAbove key n (x ∷ xs) (p, h) =
    insert_by_key-All (λ y. n ≤ y) key x (sort_by_key key xs) p (sort_by_key-AllAbove key n xs h)

range_from-AllAbove : (m start n : ℕ) → m ≤ start → AllAbove m (range_from start n)
unfolding range_from
range_from-AllAbove m start zero h = tt
range_from-AllAbove m start (suc n) h = (h, range_from-AllAbove m (start + 1) n (omega arith))

sort_range-IsOrdered :
    (key : ℕ → ℕ) (start n : ℕ) → IsOrdered key (sort_by_key key (range_from start n))
unfolding sort_by_key range_from
sort_range-IsOrdered key start zero = tt
sort_range-IsOrdered key start (suc n) =
    insert_by_key-IsOrdered key start (sort_by_key key (range_from (start + 1) n))
      (sort_by_key-AllAbove key start (range_from (start + 1) n)
        (range_from-AllAbove start (start + 1) n (omega arith)))
      (sort_range-IsOrdered key (start + 1) n)

-- The adaptive order is the indexes of all upstreams, each once, by rising score, and by position
-- where scores are equal.
pub adaptive_order-IsOrdered :
    (f : Forwarder)
    → Perm (adaptive_order f) (range_from 0 (length f.clients))
      × IsOrdered (score_at f.health) (adaptive_order f)
unfolding adaptive_order
adaptive_order-IsOrdered f = (
  sort_by_key-Perm (score_at f.health) (range_from 0 (length f.clients)),
  sort_range-IsOrdered (score_at f.health) 0 (length f.clients),
)
