-- ===== src/Base/Keys.antt =====
-- Lists of distinct keys: taking one out at a place, and putting one behind.
use irc_eew.Base.{
  ℕ, zero, suc, ◌≡◌, refl, ap, false, ◌||◌, some, List, [], ◌∷◌, ◌++◌, arith, length, get_elem?,
  take, drop,
}
use irc_eew.Base.Bytes.{Bytes, equal, equal_comm, contains, contains-append, Distinct}

pub split_at_elem {ℓ} :
    {A : Type ℓ} (xs : List A) (i : ℕ) {x : A}
    → get_elem? xs i ≡ some x
    → xs ≡ take i xs ++ x ∷ drop (suc i) xs
split_at_elem [] i h = absurd (cc)
split_at_elem (y ∷ xs) zero h = ground arith
split_at_elem (y ∷ xs) (suc i) h = ap (◌∷◌ y) (split_at_elem xs i h)

pub contains-middle :
    (j k : Bytes) (xs ys : List Bytes)
    → contains j (xs ++ k ∷ ys) ≡ (equal k j || contains j (xs ++ ys))
contains-middle j k [] ys = refl
contains-middle j k (x ∷ xs) ys = ground (arith, contains-middle j k xs ys)

pub Distinct-middle :
    (k : Bytes) (xs ys : List Bytes) → Distinct (xs ++ k ∷ ys) → Distinct (xs ++ ys)
Distinct-middle k [] ys h = h.1
Distinct-middle k (x ∷ xs) ys h =
    (ground (arith, contains-middle x k xs ys, h.0), Distinct-middle k xs ys h.1)

-- The key taken out is listed no more.
pub not-contains-middle :
    (k : Bytes) (xs ys : List Bytes) → Distinct (xs ++ k ∷ ys) → contains k (xs ++ ys) ≡ false
not-contains-middle k [] ys h = h.0
not-contains-middle k (x ∷ xs) ys h =
    ground (arith, not-contains-middle k xs ys h.1, h.0, contains-middle x k xs ys, equal_comm k x)

pub Distinct-concat :
    (xs : List Bytes) (k : Bytes) → Distinct xs → contains k xs ≡ false → Distinct (xs ++ k ∷ [])
Distinct-concat [] k h c = (refl, tt)
Distinct-concat (x ∷ xs) k h c = (
  ground (arith, contains-append x xs (k ∷ []), equal_comm k x, h.0),
  Distinct-concat xs k h.1 (ground arith),
)

pub length-middle {ℓ} :
    {A : Type ℓ} (x : A) (xs ys : List A) → length (xs ++ x ∷ ys) ≡ suc (length (xs ++ ys))
length-middle x [] ys = refl
length-middle x (y ∷ xs) ys = ap suc (length-middle x xs ys)
