-- ===== src/Decoder/Generator/Patterns.antt =====
-- internal/decoder/gen/main.go: its two patterns, as scans: no two parts of a pattern can begin with the same byte.
use mathlib.Core.Option
use irc_eew.Base.{
  ℕ, Bool, true, false, ◌&&◌, ◌||◌, Option, none, some, [], ◌∷◌, leb, ◌==◌, if◌then◌else◌, is_some,
  ◌>>=◌,
}
use irc_eew.Base.Bytes.{Bytes, codes}
use irc_eew.Base.Decimal.{is_digit}
use irc_eew.Base.Trim.{cut}

-- `\s`
abbrev pub is_blank : ℕ → Bool
is_blank c = c == b' ' || c == 9 || c == 10 || c == 12 || c == 13

-- `[A-Za-z0-9_/]`
abbrev pub is_word : ℕ → Bool
is_word c =
    (leb b'A' c && leb c b'Z') || (leb b'a' c && leb c b'z') || is_digit c || c == b'_' || c == b'/'

-- `\s*`
unfoldable pub skip_blanks : Bytes → Bytes
skip_blanks [] = []
skip_blanks (c ∷ s) = elim (is_blank c) [ true ↦ skip_blanks s | false ↦ c ∷ s ]

-- `\s+`
unfoldable pub skip_gap : Bytes → Option Bytes
skip_gap [] = none
skip_gap (c ∷ s) = if is_blank c then some (skip_blanks s) else none

-- Literal text.
unfoldable pub expect : Bytes → Bytes → Option Bytes
expect [] s = some s
expect (c ∷ l) [] = none
expect (c ∷ l) (x ∷ s) = elim (x == c) [ true ↦ expect l s | false ↦ none ]

-- `$`
abbrev pub is_end : Bytes → Bool
is_end [] = true
is_end (c ∷ s) = false

abbrev pub ended {ℓ} : {A : Type ℓ} → Bytes → A → Option A
ended s a = if is_end s then some a else none

-- `openRE` of a name: `^\s*my\s+%name\s*=\s*\(\s*$`.
unfoldable pub open_match : Bytes → Bytes → Option Bytes
unfolding skip_blanks skip_gap expect
open_match name l = do
  s ← expect (codes "my") (skip_blanks l)
  s ← skip_gap s
  s ← expect (b'%' ∷ name) s
  s ← expect (codes "=") (skip_blanks s)
  s ← expect (codes "(") (skip_blanks s)
  ended (skip_blanks s) l

-- `openRE.MatchString`
unfoldable pub matches_open : Bytes → Bytes → Bool
unfolding open_match
matches_open name l = is_some (open_match name l)

-- A run of word bytes, and the text behind it.
unfoldable pub span_word : Bytes → Bytes × Bytes
span_word [] = ([], [])
span_word (c ∷ s) = elim (is_word c) [
  | true ↦ let (word, rest) = span_word s in (c ∷ word, rest)
  | false ↦ ([], c ∷ s)
]

-- `'([^']*)'`
abbrev pub quoted_text : Bytes → Option (Bytes × Bytes)
quoted_text s = do s ← expect (codes "'") s; cut b'\'' s

-- The groups of a quoted key and of a bare one, which is not empty.
abbrev pub bare_key : Bytes × Bytes → Option (Bytes × Bytes × Bytes)
bare_key ([], rest) = none
bare_key (c ∷ word, rest) = some ([], c ∷ word, rest)

-- `(?:'([^']*)'|([A-Za-z0-9_/]+))`: both groups, and the text behind.
unfoldable pub scan_key : Bytes → Option (Bytes × Bytes × Bytes)
unfolding span_word
scan_key [] = none
scan_key (c ∷ s) = elim (c == b'\'') [
  | true ↦ Option.map (λ found. (found.0, [], found.1)) (cut b'\'' s)
  | false ↦ bare_key (span_word (c ∷ s))
]

-- `,?`
abbrev pub skip_comma : Bytes → Bytes
skip_comma [] = []
skip_comma (c ∷ s) = if c == b',' then s else c ∷ s

-- `entryRE.FindStringSubmatch`: the three groups.
unfoldable pub entry_match : Bytes → Option (Bytes × Bytes × Bytes)
unfolding scan_key skip_blanks expect
entry_match l = do
  (quoted, bare, s) ← scan_key (skip_blanks l)
  s ← expect (codes "=>") (skip_blanks s)
  (value, s) ← quoted_text (skip_blanks s)
  ended (skip_blanks (skip_comma (skip_blanks s))) (quoted, bare, value)
