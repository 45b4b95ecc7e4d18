-- ===== src/Store/Laws/Index.antt =====
-- The hash index of src/lists.rs: buckets under `entry_push`, `put` and `remove`, and sums over all
-- offsets.
use rustblocker.Base.{
  ℕ, ◌+◌, ◌≡◌, ◌≢◌, refl, none, some, List, [], ◌∷◌, ◌++◌, Bytes, arith, any, All, ◌==◌,
  if◌then◌else◌,
}
use rustblocker.Store.{Index, contains_in, domain_eq}
use rustblocker.Store.Buckets.{get, entry_push, put, remove, offsets_of}

-- The bucket of a hash, empty when there is none.
unfoldable pub bucket : ℕ → Index → List ℕ
bucket h [] = []
bucket h ((k, os) ∷ index) = if k == h then os else bucket h index

pub contains_in-bucket :
    (arena : Bytes) (index : Index) (d : Bytes) (h : ℕ)
    → contains_in arena index d h ≡ any (λ o. domain_eq arena o d) (bucket h index)
unfolding contains_in bucket get
contains_in-bucket arena [] d h = refl
contains_in-bucket arena ((k, os) ∷ index) d h = ground (arith, contains_in-bucket arena index d h)

abbrev pub NoKey : ℕ → Index → Type 0
NoKey h index = All (λ b. b.0 ≢ h) index

abbrev pub DistinctKeys : Index → Type 0
DistinctKeys [] = Unit
DistinctKeys ((k, os) ∷ index) = NoKey k index × DistinctKeys index

pub bucket-eq-nil : (h : ℕ) (index : Index) → NoKey h index → bucket h index ≡ []
unfolding bucket
bucket-eq-nil h [] n = refl
bucket-eq-nil h ((k, os) ∷ index) (p, n) = ground (arith, bucket-eq-nil h index n, p)

pub bucket-entry_push :
    (h h' o : ℕ) (index : Index)
    → bucket h' (entry_push h o index)
      ≡ (if h == h' then bucket h index ++ o ∷ [] else bucket h' index)
unfolding bucket entry_push
bucket-entry_push h h' o [] = refl
bucket-entry_push h h' o ((k, os) ∷ index) = ground (arith, bucket-entry_push h h' o index)

pub bucket-put :
    (h h' : ℕ) (new : List ℕ) (index : Index) (os : List ℕ)
    → get h index ≡ some os
    → bucket h' (put h new index) ≡ (if h == h' then new else bucket h' index)
unfolding bucket put get
bucket-put h h' new [] os e = cc
bucket-put h h' new ((k, ps) ∷ index) os e = ground (arith, bucket-put h h' new index os)

pub bucket-remove :
    (h h' : ℕ) (index : Index)
    → DistinctKeys index
    → bucket h' (remove h index) ≡ (if h == h' then [] else bucket h' index)
unfolding bucket remove
bucket-remove h h' [] d = ground arith
bucket-remove h h' ((k, os) ∷ index) (n, d) =
    ground (arith, bucket-remove h h' index d, bucket-eq-nil k index n)

pub bucket_of_get :
    (h : ℕ) (index : Index) (os : List ℕ) → get h index ≡ some os → bucket h index ≡ os
unfolding bucket get
bucket_of_get h [] os e = cc
bucket_of_get h ((k, ps) ∷ index) os e = ground (arith, bucket_of_get h index os)

pub bucket_of_get-none : (h : ℕ) (index : Index) → get h index ≡ none → bucket h index ≡ []
unfolding bucket get
bucket_of_get-none h [] e = refl
bucket_of_get-none h ((k, os) ∷ index) e = ground (arith, bucket_of_get-none h index)

-- Keys stay distinct.
NoKey-entry_push :
    (k h o : ℕ) (index : Index) → h ≢ k → NoKey k index → NoKey k (entry_push h o index)
unfolding entry_push
NoKey-entry_push k h o [] q n = (q, tt)
NoKey-entry_push k h o ((j, os) ∷ index) q (p, n) = ground (arith, NoKey-entry_push k h o index q n)

pub DistinctKeys-entry_push :
    (h o : ℕ) (index : Index) → DistinctKeys index → DistinctKeys (entry_push h o index)
unfolding entry_push
DistinctKeys-entry_push h o [] d = (tt, tt)
DistinctKeys-entry_push h o ((k, os) ∷ index) (n, d) =
    ground (arith, DistinctKeys-entry_push h o index d, NoKey-entry_push k h o index)

NoKey-put : (k h : ℕ) (new : List ℕ) (index : Index) → NoKey k index → NoKey k (put h new index)
unfolding put
NoKey-put k h new [] n = tt
NoKey-put k h new ((j, os) ∷ index) (p, n) = ground (arith, NoKey-put k h new index n)

pub DistinctKeys-put :
    (h : ℕ) (new : List ℕ) (index : Index) → DistinctKeys index → DistinctKeys (put h new index)
unfolding put
DistinctKeys-put h new [] d = tt
DistinctKeys-put h new ((k, os) ∷ index) (n, d) =
    ground (arith, DistinctKeys-put h new index d, NoKey-put k h new index n)

NoKey-remove : (k h : ℕ) (index : Index) → NoKey k index → NoKey k (remove h index)
unfolding remove
NoKey-remove k h [] n = tt
NoKey-remove k h ((j, os) ∷ index) (p, n) = ground (arith, NoKey-remove k h index n)

pub DistinctKeys-remove :
    (h : ℕ) (index : Index) → DistinctKeys index → DistinctKeys (remove h index)
unfolding remove
DistinctKeys-remove h [] d = tt
DistinctKeys-remove h ((k, os) ∷ index) (n, d) =
    ground (arith, DistinctKeys-remove h index d, NoKey-remove k h index n)

-- Sums over the offsets of a bucket and of an index.
abbrev pub sum_by : (ℕ → ℕ) → List ℕ → ℕ
sum_by f [] = 0
sum_by f (o ∷ os) = f o + sum_by f os

abbrev pub weight : (ℕ → ℕ) → Index → ℕ
weight f [] = 0
weight f ((k, os) ∷ index) = sum_by f os + weight f index

pub sum_by-append : (f : ℕ → ℕ) (xs ys : List ℕ) → sum_by f (xs ++ ys) ≡ sum_by f xs + sum_by f ys
sum_by-append f [] ys = omega arith
sum_by-append f (x ∷ xs) ys = omega (arith, sum_by-append f xs ys)

pub weight-entry_push :
    (f : ℕ → ℕ) (h o : ℕ) (index : Index) → weight f (entry_push h o index) ≡ weight f index + f o
unfolding entry_push
weight-entry_push f h o [] = omega arith
weight-entry_push f h o ((k, os) ∷ index) =
    ground (arith, weight-entry_push f h o index, sum_by-append f os (o ∷ []))

pub weight-put :
    (f : ℕ → ℕ) (h : ℕ) (new : List ℕ) (index : Index) (os : List ℕ)
    → get h index ≡ some os
    → weight f (put h new index) + sum_by f os ≡ weight f index + sum_by f new
unfolding put get
weight-put f h new [] os e = cc
weight-put f h new ((k, ps) ∷ index) os e = ground (arith, weight-put f h new index os)

pub weight-remove :
    (f : ℕ → ℕ) (h : ℕ) (index : Index) (os : List ℕ)
    → get h index ≡ some os
    → weight f (remove h index) + sum_by f os ≡ weight f index
unfolding remove get
weight-remove f h [] os e = cc
weight-remove f h ((k, ps) ∷ index) os e = ground (arith, weight-remove f h index os)

pub weight-offsets_of : (f : ℕ → ℕ) (index : Index) → sum_by f (offsets_of index) ≡ weight f index
unfolding offsets_of
weight-offsets_of f [] = refl
weight-offsets_of f ((k, os) ∷ index) =
    omega (arith, sum_by-append f os (offsets_of index), weight-offsets_of f index)
