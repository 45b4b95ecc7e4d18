-- ===== src/Store/Buckets.antt =====
-- `HashMap<u64, Vec<u32>>` of src/lists.rs, as an association list of buckets. The order in which
-- the map is walked is that of the list: nothing proved here depends on it.
use rustblocker.Base.{ℕ, Option, none, some, List, [], ◌∷◌, ◌++◌, ◌==◌, if◌then◌else◌}

abbrev pub Index : Type 0
Index = List (ℕ × List ℕ)

-- `index.get(&hash)`.
unfoldable pub get : ℕ → Index → Option (List ℕ)
get h [] = none
get h ((k, offsets) ∷ index) = if k == h then some offsets else get h index

-- `index.entry(hash).or_default().push(offset)`.
unfoldable pub entry_push : ℕ → ℕ → Index → Index
entry_push h offset [] = (h, offset ∷ []) ∷ []
entry_push h offset ((k, offsets) ∷ index) =
    if k == h then (k, offsets ++ offset ∷ []) ∷ index else (k, offsets) ∷ entry_push h offset index

-- What `get_mut` leaves behind when the bucket is overwritten.
unfoldable pub put : ℕ → List ℕ → Index → Index
put h new [] = []
put h new ((k, offsets) ∷ index) =
    if k == h then (k, new) ∷ index else (k, offsets) ∷ put h new index

-- `index.remove(&hash)`.
unfoldable pub remove : ℕ → Index → Index
remove h [] = []
remove h ((k, offsets) ∷ index) = if k == h then index else (k, offsets) ∷ remove h index

-- `index.values()`, flattened.
unfoldable pub offsets_of : Index → List ℕ
offsets_of [] = []
offsets_of ((k, offsets) ∷ index) = offsets ++ offsets_of index
