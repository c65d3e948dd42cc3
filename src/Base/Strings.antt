-- ===== src/Base/Strings.antt =====
-- `<` on strings, and `sort.Strings`.
pub mod Order
pub mod Insertion
pub mod Unique
use irc_eew.Base.{Bool, true, false, ◌&&◌, ◌||◌, List, [], ◌∷◌, ltb, ◌==◌, if◌then◌else◌}
use irc_eew.Base.Bytes.{Bytes}

-- `a < b`, byte by byte.
abbrev pub less : Bytes → Bytes → Bool
less a [] = false
less [] (y ∷ b) = true
less (x ∷ a) (y ∷ b) = ltb x y || (x == y && less a b)

-- Insertion sort by a test.
abbrev pub insert_by : (Bytes → Bytes → Bool) → Bytes → List Bytes → List Bytes
insert_by lt s [] = s ∷ []
insert_by lt s (t ∷ ts) = let rest = insert_by lt s ts in if lt t s then t ∷ rest else s ∷ t ∷ ts

abbrev pub sort_by : (Bytes → Bytes → Bool) → List Bytes → List Bytes
sort_by lt [] = []
sort_by lt (s ∷ ss) = insert_by lt s (sort_by lt ss)

-- The strings in order; which algorithm sorts does not matter, as equal strings are the same.
abbrev pub sort_strings : List Bytes → List Bytes
sort_strings ss = sort_by less ss
