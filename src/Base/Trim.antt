-- ===== src/Base/Trim.antt =====
-- `bytes.TrimRight(s, "\r")`, `strings.TrimSpace` and searches in a line.
pub mod Framed
use irc_eew.Base.{
  ℕ, zero, suc, ◌<◌, ◌≡◌, ◌≢◌, refl, ◌∙◌, ap, Bool, true, false, ◌&&◌, ◌||◌, Option, none, some, [],
  ◌∷◌, ◌++◌, arith, leb, ◌==◌, if◌then◌else◌, All, All-append, Option-cases, inl, inr,
}
use irc_eew.Base.Bytes.{Bytes}

abbrev pub rev : Bytes → Bytes
rev [] = []
rev (x ∷ xs) = rev xs ++ x ∷ []

pub rev-concat : (xs : Bytes) (x : ℕ) → rev (xs ++ x ∷ []) ≡ x ∷ rev xs
rev-concat [] x = refl
rev-concat (y ∷ xs) x = rw (rev-concat xs x)

pub rev-rev : (xs : Bytes) → rev (rev xs) ≡ xs
rev-rev [] = refl
rev-rev (x ∷ xs) = rev-concat (rev xs) x ∙ ap (◌∷◌ x) (rev-rev xs)

pub All-rev {κ} : (P : ℕ → Type κ) (xs : Bytes) → All P xs → All P (rev xs)
All-rev P [] h = tt
All-rev P (x ∷ xs) h = All-append P (rev xs) (x ∷ []) (All-rev P xs h.1) (h.0, tt)

-- The text without its first bytes `c`.
abbrev skip_byte : ℕ → Bytes → Bytes
skip_byte c [] = []
skip_byte c (x ∷ s) = let rest = skip_byte c s in if x == c then rest else x ∷ s

-- `bytes.TrimRight(line, "\r")`
unfoldable pub trim_cr : Bytes → Bytes
trim_cr s = rev (skip_byte b'\r' (rev s))

abbrev is_ascii_space : ℕ → Bool
is_ascii_space c = (leb 9 c && leb c 13) || c == b' '

-- U+0085 and U+00A0.
abbrev is_space2 : ℕ → ℕ → Bool
is_space2 a b = a == 0xC2 && (b == 0x85 || b == 0xA0)

-- U+1680, U+2000 to U+200A, U+2028, U+2029, U+202F, U+205F, U+3000.
abbrev is_space3 : ℕ → ℕ → ℕ → Bool
is_space3 a b c =
    (a == 0xE1 && b == 0x9A && c == 0x80)
    || (a == 0xE2
        && b == 0x80
        && ((leb 0x80 c && leb c 0x8A) || c == 0xA8 || c == 0xA9 || c == 0xAF))
    || (a == 0xE2 && b == 0x81 && c == 0x9F)
    || (a == 0xE3 && b == 0x80 && c == 0x80)

-- How many bytes of white space stand first: those of one `unicode.IsSpace` rune, or none.
space_first : Bytes → ℕ
space_first [] = 0
space_first (a ∷ []) = if is_ascii_space a then 1 else 0
space_first (a ∷ b ∷ []) = if is_ascii_space a then 1 else if is_space2 a b then 2 else 0
space_first (a ∷ b ∷ c ∷ s) =
    if is_ascii_space a then 1 else if is_space2 a b then 2 else if is_space3 a b c then 3 else 0

-- The same on the reversed text.
space_last : Bytes → ℕ
space_last [] = 0
space_last (a ∷ []) = if is_ascii_space a then 1 else 0
space_last (a ∷ b ∷ []) = if is_ascii_space a then 1 else if is_space2 b a then 2 else 0
space_last (a ∷ b ∷ c ∷ s) =
    if is_ascii_space a then 1 else if is_space2 b a then 2 else if is_space3 c b a then 3 else 0

-- Drops white space as `space` finds it; the number counts the bytes of a rune still to drop.
skip_space : (Bytes → ℕ) → ℕ → Bytes → Bytes
skip_space space k [] = []
skip_space space (suc k) (x ∷ s) = skip_space space k s
skip_space space zero (x ∷ s) = elim (space (x ∷ s)) [ zero ↦ x ∷ s | suc k ↦ skip_space space k s ]

-- `strings.TrimSpace`
unfoldable pub trim_space : Bytes → Bytes
unfolding skip_space space_first space_last
trim_space s = rev (skip_space space_last 0 (rev (skip_space space_first 0 s)))

-- Does `s` begin with `t`?
unfoldable pub has_prefix : Bytes → Bytes → Bool
has_prefix s [] = true
has_prefix [] (c ∷ t) = false
has_prefix (x ∷ s) (c ∷ t) = x == c && has_prefix s t

-- `bytes.Contains`
unfoldable pub has_infix : Bytes → Bytes → Bool
unfolding has_prefix
has_infix [] t = has_prefix [] t
has_infix (x ∷ s) t = has_prefix (x ∷ s) t || has_infix s t

-- The text before and behind the first byte `c`.
unfoldable pub cut : ℕ → Bytes → Option (Bytes × Bytes)
cut c [] = none
cut c (x ∷ s) =
    if x == c
    then some ([], s)
    else elim (cut c s) [ none ↦ none | some (before, after) ↦ some (x ∷ before, after) ]

-- A visible ASCII byte.
abbrev pub IsVisible : ℕ → Type 0
IsVisible c = (32 < c) × (c < 127)

skip_space-IsVisible :
    (s : Bytes)
    → All IsVisible s
    → (skip_space space_first 0 s ≡ s) × (skip_space space_last 0 s ≡ s)
unfolding skip_space space_first space_last
skip_space-IsVisible [] h = (refl, refl)
skip_space-IsVisible (a ∷ []) h = ground arith
skip_space-IsVisible (a ∷ b ∷ []) h = ground arith
skip_space-IsVisible (a ∷ b ∷ c ∷ s) h = ground arith

pub trim_space-IsVisible : (s : Bytes) → All IsVisible s → trim_space s ≡ s
unfolding trim_space
trim_space-IsVisible s h =
    rw ((skip_space-IsVisible s h).0, (skip_space-IsVisible (rev s) (All-rev IsVisible s h)).1)
      (rev-rev s)

-- The blank behind the colon of a header.
pub trim_space-blank : (s : Bytes) → trim_space (b' ' ∷ s) ≡ trim_space s
unfolding trim_space
trim_space-blank [] = refl
trim_space-blank (a ∷ []) = refl
trim_space-blank (a ∷ b ∷ s) = refl

skip_byte-ne : (c : ℕ) (s : Bytes) → All (λ x. x ≢ c) s → skip_byte c s ≡ s
skip_byte-ne c [] h = refl
skip_byte-ne c (x ∷ s) h = ground arith

pub trim_cr-ne : (s : Bytes) → All (λ x. x ≢ b'\r') s → trim_cr s ≡ s
unfolding trim_cr
trim_cr-ne s h = rw (skip_byte-ne b'\r' (rev s) (All-rev _ s h)) (rev-rev s)

pub cut-append : (c : ℕ) (s t : Bytes) → All (λ x. x ≢ c) s → cut c (s ++ c ∷ t) ≡ some (s, t)
unfolding cut
cut-append c [] t h = ground arith
cut-append c (x ∷ s) t h = ground (arith, cut-append c s t h.1)

-- More text behind what is cut stays behind it.
pub cut-more :
    (c : ℕ) (s t : Bytes) {before after : Bytes}
    → cut c s ≡ some (before, after)
    → cut c (s ++ t) ≡ some (before, after ++ t)
unfolding cut
cut-more c [] t h = absurd (cc)
cut-more c (x ∷ s) t {before} {after} h = elim (Option-cases (cut c s)) [
  | inl e ↦ ground arith
  | inr ((b, a), e) ↦ ground (arith, cut-more c s t {before = b} {after = a} e)
]

-- A text without the first byte of `t` does not hold `t`.
pub not-has_infix : (c : ℕ) (s t : Bytes) → All (λ x. x ≢ c) s → has_infix s (c ∷ t) ≡ false
unfolding has_infix
not-has_infix c [] t h = refl
not-has_infix c (x ∷ s) t h = ground (arith, not-has_infix c s t h.1)
