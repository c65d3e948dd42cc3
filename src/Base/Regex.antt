-- ===== src/Base/Regex.antt =====
-- `regexp` for the patterns of the program: bytes of a class, a greedy `+`, and groups. The first
-- match is the leftmost, and backtracking prefers the longest run of each `+`. A class holds ASCII
-- bytes only, so that a match over bytes is a match over runes.
pub mod Match
pub mod Rows
pub mod Missing
pub mod Matches
use irc_eew.Base.{
  ℕ, zero, suc, ◌-◌, ◌≡◌, Bool, true, false, ◌&&◌, ◌||◌, Option, none, some, List, [], ◌∷◌, ◌++◌,
  leb, ◌==◌, if◌then◌else◌, length, get_elem?, get_or,
}
use irc_eew.Base.Bytes.{Bytes}

pub data Item : Type 0 where
  -- one byte of a class
  one : (ℕ → Bool) → Item
  -- `+`
  many : (ℕ → Bool) → Item
  opens : Item
  closes : Item

abbrev pub Pattern : Type 0
Pattern = List Item

-- The groups of a match, and the text behind it.
abbrev pub Found : Type 0
Found = List Bytes × Bytes

abbrev first_found : Option Found → Option Found → Option Found
first_found (some f) later = some f
first_found none later = later

-- The runs of a class, longest first; `rest` matches behind a run.
many_of : (ℕ → Bool) → (Bytes → Bytes → Option Found) → Bytes → Bytes → Option Found
many_of class rest [] cur = none
many_of class rest (c ∷ s) cur =
    if class c
    then first_found (many_of class rest s (cur ++ c ∷ [])) (rest s (cur ++ c ∷ []))
    else none

-- At the head of the text; `cur` is what the open group holds.
unfoldable pub match_here : Pattern → Bytes → Bytes → List Bytes → Option Found
unfolding many_of
match_here [] s cur groups = some (groups, s)
match_here (one class ∷ p) [] cur groups = none
match_here (one class ∷ p) (c ∷ s) cur groups =
    if class c then match_here p s (cur ++ c ∷ []) groups else none
match_here (many class ∷ p) s cur groups =
    many_of class (λ s' cur'. match_here p s' cur' groups) s cur
match_here (opens ∷ p) s cur groups = match_here p s [] groups
match_here (closes ∷ p) s cur groups = match_here p s cur (groups ++ cur ∷ [])

abbrev pub groups_of : Option Found → Option (List Bytes)
groups_of none = none
groups_of (some (groups, rest)) = some groups

-- `^` at the front of the pattern.
unfoldable pub find_at_start : Pattern → Bytes → Option (List Bytes)
unfolding match_here
find_at_start p s = groups_of (match_here p s [] [])

-- `FindStringSubmatch`, without the whole match at its head.
unfoldable pub find : Pattern → Bytes → Option (List Bytes)
unfolding match_here
find p [] = groups_of (match_here p [] [] [])
find p (c ∷ s) = elim (match_here p (c ∷ s) [] []) [
  | some (groups, rest) ↦ some groups
  | none ↦ find p s
]

-- `FindAllStringSubmatch(line, -1)`, for patterns that match no empty text; the number counts the
-- bytes of the last match still to pass.
find_from : Pattern → ℕ → Bytes → List (List Bytes)
find_from p k [] = []
find_from p (suc k) (c ∷ s) = find_from p k s
find_from p zero (c ∷ s) = elim (match_here p (c ∷ s) [] []) [
  | some (groups, rest) ↦ groups ∷ find_from p (length s - length rest) s
  | none ↦ find_from p 0 s
]

unfoldable pub find_all : Pattern → Bytes → List (List Bytes)
unfolding find_from match_here
find_all p s = find_from p 0 s

-- `m[i]`, from the first group on.
abbrev pub group : List Bytes → ℕ → Bytes
group groups i = get_or (get_elem? groups i) []

abbrev pub repeat : ℕ → (ℕ → Bool) → Pattern
repeat zero class = []
repeat (suc n) class = one class ∷ repeat n class

abbrev pub grouped : Pattern → Pattern
grouped p = opens ∷ (p ++ closes ∷ [])

-- Literal text.
abbrev pub literal : Bytes → Pattern
literal [] = []
literal (c ∷ s) = one (λ x. x == c) ∷ literal s

-- The patterns of the program are rows of literal texts and groups.
pub data Piece : Type 0 where
  text : Bytes → Piece
  -- `([class]{n})`
  exactly : ℕ → (ℕ → Bool) → Piece
  -- `([class]+)`
  run : (ℕ → Bool) → Piece

abbrev pub compile : List Piece → Pattern
compile [] = []
compile (text l ∷ ps) = literal l ++ compile ps
compile (exactly n class ∷ ps) = grouped (repeat n class) ++ compile ps
compile (run class ∷ ps) = grouped (many class ∷ []) ++ compile ps
