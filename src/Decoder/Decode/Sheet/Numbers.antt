-- ===== src/Decoder/Decode/Sheet/Numbers.antt =====
-- The numbers of a written telegram are read back.
use irc_eew.Base.{
  ℕ, zero, suc, ◌≤◌, ◌^◌, ◌≡◌, refl, ap, some, none, Option, arith, length, All, All-map, get_or,
}
use irc_eew.Base.Decimal.{atoi, scan, unsigned}
use irc_eew.Base.Decimal.Padded.{padded, limit, length-padded, padded-IsDigit}
use irc_eew.Base.Int.{pos}
use irc_eew.Base.Regex.Match.{Of}
use irc_eew.Base.Trim.{IsVisible, trim_space-IsVisible}
use irc_eew.Decoder.Decode.Report.{parse_int_or_zero-padded}
use irc_eew.Decoder.Decode.{parse_int_or_zero, digit_or_slash}
use irc_eew.Decoder.Decode.Sheet.{field, slashes, Below}

slashes-IsVisible : (k : ℕ) → All IsVisible (slashes k)
slashes-IsVisible zero = tt
slashes-IsVisible (suc k) = (omega arith, slashes-IsVisible k)

parse_int_or_zero-slashes : (k : ℕ) → parse_int_or_zero (slashes (suc k)) ≡ pos 0
unfolding parse_int_or_zero atoi unsigned scan
parse_int_or_zero-slashes k =
    rw (trim_space-IsVisible (slashes (suc k)) (slashes-IsVisible (suc k))) refl

pub parse_int_or_zero-field :
    (k : ℕ) (o : Option ℕ)
    → Below (limit (suc k)) o
    → limit (suc k) ≤ 2 ^ 63
    → parse_int_or_zero (field (suc k) o) ≡ pos (get_or o 0)
parse_int_or_zero-field k none h b = parse_int_or_zero-slashes k
parse_int_or_zero-field k (some n) h b = parse_int_or_zero-padded k n h (omega arith)

pub length-field : (k : ℕ) (o : Option ℕ) → length (field k o) ≡ k
length-field zero none = refl
length-field (suc k) none = ap suc (length-field k none)
length-field k (some n) = length-padded k n

pub field-Of : (k : ℕ) (o : Option ℕ) → Of digit_or_slash (field k o)
field-Of zero none = tt
field-Of (suc k) none = (refl, field-Of k none)
field-Of k (some n) = All-map (λ c d. ground arith) (padded k n) (padded-IsDigit k n)
