-- ===== src/Viewer/Listing/Names.antt =====
-- Which names are those of telegrams.
use irc_eew.Base.Bytes.{Bytes}
use irc_eew.Base.Decimal.{is_digit, atoi}
use irc_eew.Base.Int.{ℤ}
use irc_eew.Base.{
  ℕ, ◌≡◌, refl, ◌∙◌, Bool, false, ◌&&◌, Option, none, some, is_some, [], ◌∷◌, ◌==◌, if◌then◌else◌,
  Bool-cases, inl, inr,
}
use irc_eew.Viewer.Detail.{all_digits}
use irc_eew.Viewer.Listing.{digits_run, number_of, with_id, name_parts, split_eew_name}

-- Digits that fit an `int`, at least one.
abbrev is_number : Bytes → Bool
is_number [] = false
is_number (c ∷ s) = all_digits (c ∷ s) && is_some (atoi (c ∷ s))

-- More digits, a dot and a number.
abbrev is_rest_of_name : Bytes → Bool
is_rest_of_name [] = false
is_rest_of_name (c ∷ s) = if is_digit c then is_rest_of_name s else c == b'.' && is_number s

-- Digits, at least one, a dot and a number.
abbrev pub is_telegram_name : Bytes → Bool
is_telegram_name [] = false
is_telegram_name (c ∷ s) = is_digit c && is_rest_of_name s

number_of-is_number : (s : Bytes) → is_some (number_of s) ≡ is_number s
number_of-is_number [] = refl
number_of-is_number (c ∷ s) = elim (Bool-cases (all_digits (c ∷ s))) [
  | inl e ↦ rw e refl
  | inr e ↦ rw e refl
]

with_id-is_some : (x : ℕ) (id : Bytes) (n : Option ℤ) → is_some (with_id (x ∷ id) n) ≡ is_some n
with_id-is_some x id none = refl
with_id-is_some x id (some n) = refl

-- Behind an id that has begun.
name_parts-is_some :
    (x : ℕ) (id s : Bytes) → is_some (name_parts (x ∷ id, (digits_run s).1)) ≡ is_rest_of_name s
name_parts-is_some x id [] = refl
name_parts-is_some x id (c ∷ s) = elim (Bool-cases (is_digit c)) [
  | inl e ↦ rw e (name_parts-is_some x id s)
  | inr e ↦ rw e (elim (Bool-cases (c == b'.')) [
    | inl dot ↦ rw dot (with_id-is_some x id (number_of s) ∙ number_of-is_number s)
    | inr other ↦ rw other refl
  ])
]

headless : (c : ℕ) (s : Bytes) → is_some (name_parts ([], c ∷ s)) ≡ false
headless c s = elim (Bool-cases (c == b'.')) [ inl e ↦ rw e refl | inr e ↦ rw e refl ]

pub split_eew_name-is_telegram_name :
    (name : Bytes) → is_some (split_eew_name name) ≡ is_telegram_name name
unfolding split_eew_name
split_eew_name-is_telegram_name [] = refl
split_eew_name-is_telegram_name (c ∷ s) = elim (Bool-cases (is_digit c)) [
  | inl e ↦ rw e (name_parts-is_some c (digits_run s).0 s)
  | inr e ↦ rw e (headless c s)
]
