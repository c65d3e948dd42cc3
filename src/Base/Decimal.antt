-- ===== src/Base/Decimal.antt =====
-- `%d` and `strconv.Atoi`.
pub mod Padded
use mathlib.Core.List.{cons-ne-nil, concat-ne-nil}
use irc_eew.Base.{
  ℕ, zero, suc, ◌+◌, ◌-◌, ◌*◌, ◌/◌, ◌%◌, ◌^◌, ◌≤◌, ◌<◌, ◌≡◌, ◌≢◌, refl, ap, Bool, true, false, ◌&&◌,
  Option, none, some, [], ◌∷◌, ◌++◌, arith, ltb, leb, ◌==◌, if◌then◌else◌, ◌>>=◌, Bool-cases, ◌⊎◌,
  inl, inr, All, All-append, length,
}
use irc_eew.Base.Bytes.{Bytes}
use irc_eew.Base.Int.{ℤ, pos, negsuc, neg}

abbrev pub is_digit : ℕ → Bool
is_digit c = leb b'0' c && leb c b'9'

abbrev pub IsDigit : ℕ → Type 0
IsDigit c = (b'0' ≤ c) × (c ≤ b'9')

-- The decimal digits of `n`, with fuel; `n` rounds are more than enough.
digits : ℕ → ℕ → Bytes
digits zero n = []
digits (suc fuel) n = elim (ltb n 10) [
  | true ↦ (b'0' + n) ∷ []
  | false ↦ digits fuel (n / 10) ++ (b'0' + n % 10) ∷ []
]

-- `strconv.Itoa` on an integer that is not negative.
unfoldable pub dec : ℕ → Bytes
unfolding digits
dec n = digits (suc n) n

-- `%d`
unfoldable pub show : ℤ → Bytes
show (pos n) = dec n
show (negsuc n) = b'-' ∷ dec (suc n)

-- The number that digits spell behind `n`.
unfoldable pub scan : ℕ → Bytes → Option ℕ
scan n [] = some n
scan n (c ∷ s) = if is_digit c then scan (n * 10 + (c - b'0')) s else none

unfoldable pub unsigned : Bytes → Option ℕ
unfolding scan
unsigned [] = none
unsigned (c ∷ s) = scan 0 (c ∷ s)

abbrev fits : ℕ → ℤ → ℕ → Option ℤ
fits limit z n = if ltb n limit then some z else none

-- `strconv.Atoi` on a 64-bit platform; `none` is its error, of syntax or of range.
unfoldable pub atoi : Bytes → Option ℤ
unfolding unsigned
atoi [] = none
atoi (c ∷ s) =
    if c == b'-'
    then unsigned s >>= (λ n. fits (2 ^ 63 + 1) (neg n) n)
    else if c == b'+'
    then unsigned s >>= (λ n. fits (2 ^ 63) (pos n) n)
    else unsigned (c ∷ s) >>= (λ n. fits (2 ^ 63) (pos n) n)

pub scan-append : (n : ℕ) (s t : Bytes) → scan n (s ++ t) ≡ scan n s >>= (λ m. scan m t)
unfolding scan
scan-append n [] t = refl
scan-append n (c ∷ s) t = ground (arith, scan-append (n * 10 + (c - b'0')) s t)

scan-digits : (fuel n : ℕ) → n < fuel → scan 0 (digits fuel n) ≡ some n
unfolding digits scan
scan-digits zero n h = absurd (omega arith)
scan-digits (suc fuel) n h = elim (Bool-cases (ltb n 10)) [
  | inl e ↦ rw (e, digits) (ground arith)
  | inr e ↦
      rw (e, digits) (rw (scan-append, scan-digits fuel (n / 10) (ground arith)) (ground arith))
]

digits-IsDigit : (fuel n : ℕ) → All IsDigit (digits fuel n)
unfolding digits
digits-IsDigit zero n = tt
digits-IsDigit (suc fuel) n = elim (Bool-cases (ltb n 10)) [
  | inl e ↦ rw (e, digits) (ground arith)
  | inr e ↦
      rw (e, digits)
        (All-append _ (digits fuel (n / 10)) _ (digits-IsDigit fuel (n / 10)) (omega arith))
]

pub dec-IsDigit : (n : ℕ) → All IsDigit (dec n)
unfolding dec
dec-IsDigit n = digits-IsDigit (suc n) n

pub scan-dec : (n : ℕ) → scan 0 (dec n) ≡ some n
unfolding dec
scan-dec n = scan-digits (suc n) n (omega arith)

pub dec-ne-nil : (n : ℕ) → dec n ≢ []
unfolding dec digits
dec-ne-nil n = elim (Bool-cases (ltb n 10)) [
  | inl e ↦ rw (e, digits) (cons-ne-nil _ _)
  | inr e ↦ rw (e, digits) (concat-ne-nil _ _)
]

pub atoi-IsDigit :
    (s : Bytes) (n : ℕ)
    → s ≢ []
    → All IsDigit s
    → scan 0 s ≡ some n
    → n < 2 ^ 63
    → atoi s ≡ some (pos n)
atoi-IsDigit [] n ne d e h = absurd (ne refl)
atoi-IsDigit (c ∷ s) n ne d e h = unfold atoi in ground arith

-- The decimal text of a number that fits an `int` is read back.
pub atoi-dec : (n : ℕ) → n < 2 ^ 63 → atoi (dec n) ≡ some (pos n)
atoi-dec n h = atoi-IsDigit (dec n) n (dec-ne-nil n) (dec-IsDigit n) (scan-dec n) h

-- So is the text of a negative one.
pub atoi-negative : (n : ℕ) → n < 2 ^ 63 → atoi (b'-' ∷ dec (suc n)) ≡ some (negsuc n)
unfolding atoi
atoi-negative n h = by_text (dec (suc n)) (dec-ne-nil (suc n)) (scan-dec (suc n))
  where
    by_text :
        (s : Bytes)
        → s ≢ []
        → scan 0 s ≡ some (suc n)
        → unsigned s >>= (λ m. fits (2 ^ 63 + 1) (neg m) m) ≡ some (negsuc n)
    by_text [] ne e = absurd (ne refl)
    by_text (c ∷ s) ne e = unfold unsigned in ground arith

pub dec_digit : (n : ℕ) → n < 10 → dec n ≡ (b'0' + n) ∷ []
unfolding dec digits
dec_digit n h = rw (if_below n 10 h, digits) refl
  where
    if_below : (n m : ℕ) → n < m → ltb n m ≡ true
    if_below n m h = ground arith

-- A number below 100 has one digit or two.
pub length-dec : (n : ℕ) → n < 100 → (length (dec n) ≡ 1) ⊎ (length (dec n) ≡ 2)
unfolding dec digits
length-dec n h = elim (Bool-cases (ltb n 10)) [
  | inl e ↦ inl (ap length (dec_digit n (ground arith)))
  | inr e ↦ inr (by_fuel n e h)
]
  where
    below : (m : ℕ) → m < 10 → ltb m 10 ≡ true
    below m h = ground arith

    by_fuel : (n : ℕ) → ltb n 10 ≡ false → n < 100 → length (digits (suc n) n) ≡ 2
    by_fuel zero e h = absurd (cc)
    by_fuel (suc k) e h = rw (e, digits) (rw (below (suc k / 10) (ground arith)) refl)
