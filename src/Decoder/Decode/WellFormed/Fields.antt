-- ===== src/Decoder/Decode/WellFormed/Fields.antt =====
-- What the fields of a decoded telegram are, and the numbers that digits spell.
use irc_eew.Base.{
  ℕ, zero, suc, ◌+◌, ◌*◌, ◌-◌, ◌≤◌, ◌≡◌, ◌⊎◌, inl, inr, refl, true, All-map, Option-cases, some, [],
  ◌∷◌, arith, length, get_or,
}
use irc_eew.Base.Bytes.{Bytes}
use irc_eew.Base.Decimal.{is_digit, scan, atoi}
use irc_eew.Base.Int.{ℤ, pos, negsuc}
use irc_eew.Base.Regex.Match.{Of}
use irc_eew.Base.Trim.{trim_space-IsVisible, IsVisible}
use irc_eew.Decoder.Decode.{parse_int_or_zero, digit_or_slash}
use irc_eew.Decoder.Telegram.{Telegram, empty_telegram}

-- An integer from 0 to `n`.
abbrev pub Within : ℕ → ℤ → Type 0
Within n (pos m) = m ≤ n
Within n (negsuc m) = ⊥

-- One digit more.
abbrev pub widen : ℕ → ℕ → ℕ
widen n zero = n
widen n (suc k) = widen (n * 10 + 9) k

widen-ge : (n k : ℕ) → n ≤ widen n k
widen-ge n zero = omega arith
widen-ge n (suc k) = ground (arith, widen-ge (n * 10 + 9) k)

scan-le :
    (s : Bytes) (n bound k : ℕ) {m : ℕ}
    → n ≤ bound
    → length s ≤ k
    → scan n s ≡ some m
    → m ≤ widen bound k
unfolding scan
scan-le [] n bound k h l e = ground (arith, widen-ge bound k)
scan-le (c ∷ s) n bound zero h l e = omega arith
scan-le (c ∷ s) n bound (suc k) {m} h l e =
    ground (arith, scan-le s (n * 10 + (c - b'0')) (bound * 10 + 9) k {m = m})

atoi-Within :
    (s : Bytes) (k : ℕ)
    → Of digit_or_slash s
    → length s ≤ k
    → Within (widen 0 k) (get_or (atoi s) (pos 0))
unfolding atoi
atoi-Within [] k h l = omega arith
atoi-Within (c ∷ s) k h l = elim (Option-cases (scan 0 (c ∷ s))) [
  | inl e ↦ ground arith
  | inr (m, e) ↦ ground (arith, scan-le (c ∷ s) 0 0 k {m = m} (omega arith) l e)
]

digit_or_slash-IsVisible : (c : ℕ) → digit_or_slash c ≡ true → IsVisible c
digit_or_slash-IsVisible c h = ground arith

-- A field of at most `n` digits and slashes is read as a number of `n` digits at most.
pub field-Within :
    (n : ℕ) (s : Bytes)
    → length s ≤ n
    → Of digit_or_slash s
    → Within (widen 0 n) (parse_int_or_zero s)
unfolding parse_int_or_zero
field-Within n s l h =
    rw (trim_space-IsVisible s (All-map digit_or_slash-IsVisible s h)) (atoi-Within s n h l)

pub slash_too : (s : Bytes) → Of is_digit s → Of digit_or_slash s
slash_too s h = All-map (λ c e. ground arith) s h

-- A time stamp of `n` digits, or none.
abbrev pub IsStamp : ℕ → Bytes → Type 0
IsStamp n s = (s ≡ []) ⊎ ((length s ≡ n) × Of is_digit s)

-- The ranges of a telegram's numbers, and the shape of its three times.
pub record WellFormed (t : Telegram) : Type 0 where
  pub msg_type_code : Within 99 t.msg_type_code
  pub ncn_type : Within 9 t.ncn_type
  pub warn_num : Within 99 t.warn_num
  pub center_lat : Within 999 t.center_lat
  pub center_lng : Within 9999 t.center_lng
  pub center_depth : Within 999 t.center_depth
  pub magnitude : Within 99 t.magnitude
  pub warn_time : IsStamp 12 t.warn_time
  pub eq_time : IsStamp 12 t.eq_time
  pub eq_id : IsStamp 14 t.eq_id

pub empty_telegram-WellFormed : WellFormed empty_telegram
empty_telegram-WellFormed = record {
  msg_type_code = omega arith;
  ncn_type = omega arith;
  warn_num = omega arith;
  center_lat = omega arith;
  center_lng = omega arith;
  center_depth = omega arith;
  magnitude = omega arith;
  warn_time = inl refl;
  eq_time = inl refl;
  eq_id = inl refl;
}
