-- ===== src/Base/Path.antt =====
-- `path/filepath` on Unix: `Join`, `Clean`, `Dir`, `IsAbs` and `Abs`.
pub mod Plain
pub mod Under
use irc_eew.Base.{ℕ, Bool, true, false, ◌&&◌, ◌||◌, List, [], ◌∷◌, ◌++◌, ◌==◌, if◌then◌else◌}
use irc_eew.Base.Bytes.{Bytes, codes, equal}

-- One more byte in front: a slash ends an element.
abbrev pub put_first : Bool → ℕ → List Bytes → List Bytes
put_first true c segs = [] ∷ segs
put_first false c [] = (c ∷ []) ∷ []
put_first false c (seg ∷ segs) = (c ∷ seg) ∷ segs

-- The elements between the slashes; there is one at least.
unfoldable pub segments : Bytes → List Bytes
segments [] = [] ∷ []
segments (c ∷ s) = put_first (c == b'/') c (segments s)

-- The elements with slashes between them.
abbrev pub joined : List Bytes → Bytes
joined [] = []
joined (seg ∷ []) = seg
joined (seg ∷ next ∷ segs) = seg ++ b'/' ∷ joined (next ∷ segs)

abbrev pub is_abs : Bytes → Bool
is_abs [] = false
is_abs (c ∷ s) = c == b'/'

-- `..` behind some elements: it takes back the last one, stays behind another `..`, and goes away
-- at the root.
abbrev pub up : Bool → List Bytes → List Bytes
up true [] = []
up false [] = codes ".." ∷ []
up rooted (seg ∷ []) = if equal seg (codes "..") then seg ∷ codes ".." ∷ [] else []
up rooted (seg ∷ next ∷ segs) = seg ∷ up rooted (next ∷ segs)

-- One more element behind those that are clean.
abbrev pub enter : Bool → List Bytes → Bytes → List Bytes
enter rooted out seg =
    if equal seg [] || equal seg (codes ".")
    then out
    else if equal seg (codes "..")
    then up rooted out
    else out ++ seg ∷ []

abbrev pub walk : Bool → List Bytes → List Bytes → List Bytes
walk rooted out [] = out
walk rooted out (seg ∷ segs) = walk rooted (enter rooted out seg) segs

abbrev pub render : Bool → List Bytes → Bytes
render true segs = b'/' ∷ joined segs
render false [] = codes "."
render false (seg ∷ segs) = joined (seg ∷ segs)

-- `Clean`
unfoldable pub clean : Bytes → Bytes
unfolding segments
clean path = render (is_abs path) (walk (is_abs path) [] (segments path))

-- `Join`, behind the empty elements at the head.
unfoldable pub join : List Bytes → Bytes
unfolding clean
join [] = []
join ([] ∷ segs) = join segs
join ((c ∷ seg) ∷ segs) = clean (joined ((c ∷ seg) ∷ segs))

-- The path up to the last slash, which it keeps.
to_last_slash : Bytes → Bytes
to_last_slash [] = []
to_last_slash (c ∷ s) = elim (to_last_slash s) [
  | [] ↦ if c == b'/' then c ∷ [] else []
  | d ∷ rest ↦ c ∷ d ∷ rest
]

-- `Dir`
unfoldable pub dir : Bytes → Bytes
unfolding to_last_slash clean
dir path = clean (to_last_slash path)

-- `Abs`, in the working directory `cwd`.
unfoldable pub abs : Bytes → Bytes → Bytes
unfolding clean join
abs cwd path = if is_abs path then clean path else join (cwd ∷ path ∷ [])
