-- ===== src/Base/Regex/Missing.antt =====
-- Lines in which a row of pieces is not found: they hold a byte of its texts too seldom, or one of
-- its texts nowhere, or a group at their head is too short.
use irc_eew.Base.{
  ℕ, zero, suc, ◌+◌, ◌≤◌, ◌<◌, ◌≡◌, ◌≢◌, refl, ◌∙◌, ap, Bool, true, false, none, List, [], ◌∷◌,
  ◌++◌, arith, ◌==◌, ==_iff, ◌⊎◌, if◌then◌else◌, length, All, Bool-cases, Option-cases, inl, inr,
  append_assoc,
}
use irc_eew.Base.Bytes.{Bytes}
use irc_eew.Base.Regex.{
  Piece, Pattern, text, exactly, run, compile, match_here, find, find_at_start, repeat, closes,
  groups_of,
}
use irc_eew.Base.Regex.Rows.{Fits, spell, find-Spelled}
use irc_eew.Base.Trim.{has_prefix, has_infix}

-- How often a byte stands in a text.
abbrev pub occurrences : ℕ → Bytes → ℕ
occurrences c [] = 0
occurrences c (x ∷ s) = (if x == c then 1 else 0) + occurrences c s

pub occurrences-append :
    (c : ℕ) (s t : Bytes) → occurrences c (s ++ t) ≡ occurrences c s + occurrences c t
occurrences-append c [] t = omega arith
occurrences-append c (x ∷ s) t = ground (arith, occurrences-append c s t)

pub occurrences_ne : (c : ℕ) (s : Bytes) → All (λ x. x ≢ c) s → occurrences c s ≡ 0
occurrences_ne c [] h = refl
occurrences_ne c (x ∷ s) h = ground (arith, occurrences_ne c s h.1)

-- How often it stands in the texts of a row.
abbrev pub spelled_by : ℕ → List Piece → ℕ
spelled_by c [] = 0
spelled_by c (text l ∷ ps) = occurrences c l + spelled_by c ps
spelled_by c (exactly n class ∷ ps) = spelled_by c ps
spelled_by c (run class ∷ ps) = spelled_by c ps

spelled_by-spell :
    (c : ℕ) (ps : List Piece) (gs : List Bytes)
    → Fits ps gs
    → spelled_by c ps ≤ occurrences c (spell ps gs)
spelled_by-spell c [] gs f = omega arith
spelled_by-spell c (text l ∷ ps) gs f =
    omega (arith, occurrences-append c l (spell ps gs), spelled_by-spell c ps gs f)
spelled_by-spell c (exactly n class ∷ ps) [] f = elim f [ ]
spelled_by-spell c (exactly n class ∷ ps) (g ∷ gs) f =
    omega (arith, occurrences-append c g (spell ps gs), spelled_by-spell c ps gs f.1)
spelled_by-spell c (run class ∷ ps) [] f = elim f [ ]
spelled_by-spell c (run class ∷ ps) (g ∷ gs) f =
    omega (arith, occurrences-append c g (spell ps gs), spelled_by-spell c ps gs f.1)

-- A line with too few of a byte.
pub find-few :
    (c : ℕ) (ps : List Piece) (s : Bytes)
    → occurrences c s < spelled_by c ps
    → find (compile ps) s ≡ none
find-few c ps s h = elim (Option-cases (find (compile ps) s)) [
  | inl e ↦ e
  | inr (m, e) ↦
      let w = find-Spelled ps s e in
      absurd (
        omega (
          arith,
          ap (occurrences c) w.spelled,
          occurrences-append c w.before (spell ps m ++ w.behind),
          occurrences-append c (spell ps m) w.behind,
          spelled_by-spell c ps m w.fits,
          h,
        ))
]

-- One of the texts of a row.
abbrev pub IsTextOf : Bytes → List Piece → Type 0
IsTextOf t [] = ⊥
IsTextOf t (text l ∷ ps) = (l ≡ t) ⊎ IsTextOf t ps
IsTextOf t (exactly n class ∷ ps) = IsTextOf t ps
IsTextOf t (run class ∷ ps) = IsTextOf t ps

has_prefix-append : (t s : Bytes) → has_prefix (t ++ s) t ≡ true
unfolding has_prefix
has_prefix-append [] [] = refl
has_prefix-append [] (x ∷ s) = refl
has_prefix-append (c ∷ t) s = rw ((==_iff c c).1 refl, has_prefix-append t s) refl

has_infix-prefix : (t s : Bytes) → has_infix (t ++ s) t ≡ true
unfolding has_infix has_prefix
has_infix-prefix [] [] = refl
has_infix-prefix [] (x ∷ s) = refl
has_infix-prefix (c ∷ t) s = rw (has_prefix-append (c ∷ t) s) refl

has_infix-behind : (b s t : Bytes) → has_infix s t ≡ true → has_infix (b ++ s) t ≡ true
unfolding has_infix
has_infix-behind [] s t h = h
has_infix-behind (x ∷ b) s t h = ground (arith, has_infix-behind b s t h)

-- A text does not begin where its first byte is not.
pub has_infix-skip :
    (a : ℕ) (g s t : Bytes) → All (λ x. x ≢ a) g → has_infix (g ++ s) (a ∷ t) ≡ has_infix s (a ∷ t)
unfolding has_infix has_prefix
has_infix-skip a [] s t h = refl
has_infix-skip a (x ∷ g) s t h = ground (arith, has_infix-skip a g s t h.1)

spell-has_infix :
    (t : Bytes) (ps : List Piece) (gs : List Bytes) (rest : Bytes)
    → IsTextOf t ps
    → Fits ps gs
    → has_infix (spell ps gs ++ rest) t ≡ true
spell-has_infix t [] gs rest i f = elim i [ ]
spell-has_infix t (text l ∷ ps) gs rest i f =
    ap (λ s. has_infix s t) (append_assoc l (spell ps gs) rest) ∙ elim i [
      | inl e ↦ rw e (has_infix-prefix t (spell ps gs ++ rest))
      | inr j ↦ has_infix-behind l (spell ps gs ++ rest) t (spell-has_infix t ps gs rest j f)
    ]
spell-has_infix t (exactly n class ∷ ps) [] rest i f = elim f [ ]
spell-has_infix t (exactly n class ∷ ps) (g ∷ gs) rest i f =
    ap (λ s. has_infix s t) (append_assoc g (spell ps gs) rest)
    ∙ has_infix-behind g (spell ps gs ++ rest) t (spell-has_infix t ps gs rest i f.1)
spell-has_infix t (run class ∷ ps) [] rest i f = elim f [ ]
spell-has_infix t (run class ∷ ps) (g ∷ gs) rest i f =
    ap (λ s. has_infix s t) (append_assoc g (spell ps gs) rest)
    ∙ has_infix-behind g (spell ps gs ++ rest) t (spell-has_infix t ps gs rest i f.1)

-- A line that does not hold a text of the row.
pub find-missing :
    (t : Bytes) (ps : List Piece) (s : Bytes)
    → IsTextOf t ps
    → has_infix s t ≡ false
    → find (compile ps) s ≡ none
find-missing t ps s i h = elim (Option-cases (find (compile ps) s)) [
  | inl e ↦ e
  | inr (m, e) ↦
      let w = find-Spelled ps s e in
      absurd (
        cc (
          h,
          ap (λ x. has_infix x t) w.spelled,
          has_infix-behind w.before (spell ps m ++ w.behind) t
              (spell-has_infix t ps m w.behind i w.fits),
        ))
]

match_repeat-short :
    (n : ℕ) (class : ℕ → Bool) (p : Pattern) (g : Bytes) (c : ℕ) (s cur : Bytes)
    (groups : List Bytes)
    → length g < n
    → class c ≡ false
    → match_here (repeat n class ++ p) (g ++ c ∷ s) cur groups ≡ none
unfolding match_here
match_repeat-short zero class p g c s cur groups h e = absurd (omega arith)
match_repeat-short (suc n) class p [] c s cur groups h e = rw e refl
match_repeat-short (suc n) class p (x ∷ g) c s cur groups h e = elim (Bool-cases (class x)) [
  | inl f ↦ rw f (match_repeat-short n class p g c s (cur ++ x ∷ []) groups (omega arith) e)
  | inr f ↦ rw f refl
]

-- A line whose first group would be too short.
pub match_here-short :
    (n : ℕ) (class : ℕ → Bool) (ps : List Piece) (g : Bytes) (c : ℕ) (s : Bytes)
    → length g < n
    → class c ≡ false
    → match_here (compile (exactly n class ∷ ps)) (g ++ c ∷ s) [] [] ≡ none
unfolding match_here
match_here-short n class ps g c s h e =
    ap (λ p. match_here p (g ++ c ∷ s) [] [])
      (append_assoc (repeat n class) (closes ∷ []) (compile ps))
    ∙ match_repeat-short n class (closes ∷ compile ps) g c s [] [] h e

pub find_at_start-short :
    (n : ℕ) (class : ℕ → Bool) (ps : List Piece) (g : Bytes) (c : ℕ) (s : Bytes)
    → length g < n
    → class c ≡ false
    → find_at_start (compile (exactly n class ∷ ps)) (g ++ c ∷ s) ≡ none
unfolding find_at_start
find_at_start-short n class ps g c s h e = ap groups_of (match_here-short n class ps g c s h e)
