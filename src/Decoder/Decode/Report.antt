-- ===== src/Decoder/Decode/Report.antt =====
-- The line of a report's event id, kind, revision digit and number.
use mathlib.Core.Option
use irc_eew.Base.{
  ℕ, zero, suc, ◌+◌, ◌<◌, ◌^◌, ◌≡◌, ◌≢◌, refl, sym, ◌∙◌, ap, ap₂, some, [], ◌∷◌, ◌++◌, arith,
  length, All-map, take,
}
use irc_eew.Base.Bytes.{Bytes}
use irc_eew.Base.Decimal.{is_digit, atoi-dec, dec, dec-IsDigit, dec_digit}
use irc_eew.Base.Decimal.Padded.{padded, limit, length-padded, padded-IsDigit, atoi-padded}
use irc_eew.Base.Int.{ℤ, pos}
use irc_eew.Base.Regex.Match.Fitting.{Leaves}
use irc_eew.Base.Regex.Match.{Of}
use irc_eew.Base.Regex.Rows.{spell, find-spell}
use irc_eew.Base.Trim.{trim_space-IsVisible}
use irc_eew.Decoder.Decode.{nd_re, upper, try_nd, set_nd, parse_int_or_zero, look_up, warn_num_of}
use irc_eew.Decoder.Tables
use irc_eew.Decoder.Telegram.{Telegram}

parse_int_or_zero-dec : (n : ℕ) → n < 2 ^ 63 → parse_int_or_zero (dec n) ≡ pos n
unfolding parse_int_or_zero
parse_int_or_zero-dec n h =
    rw
      (
        trim_space-IsVisible (dec n) (All-map (λ c d. omega arith) (dec n) (dec-IsDigit n)),
        atoi-dec n h,
      )
      refl

pub parse_int_or_zero-padded :
    (k n : ℕ) → n < limit (suc k) → n < 2 ^ 63 → parse_int_or_zero (padded (suc k) n) ≡ pos n
unfolding parse_int_or_zero
parse_int_or_zero-padded k n h b =
    rw
      (
        trim_space-IsVisible (padded (suc k) n)
            (All-map (λ c d. omega arith) (padded (suc k) n) (padded-IsDigit (suc k) n)),
        atoi-padded k n h b,
      )
      refl

pub padded-Of : (k n : ℕ) → Of is_digit (padded k n)
padded-Of k n = All-map (λ c d. ground arith) (padded k n) (padded-IsDigit k n)

take_whole : (k : ℕ) (s : Bytes) → length s ≡ k → take k s ≡ s
take_whole zero [] l = refl
take_whole zero (c ∷ s) l = absurd (omega arith)
take_whole (suc k) [] l = refl
take_whole (suc k) (c ∷ s) l = ap (◌∷◌ c) (take_whole k s (omega arith))

abbrev tail : ℕ → ℕ → Bytes
tail r n = (b'0' + r) ∷ padded 2 n

-- The line as the relay writes it: `ND`, the id, a blank, the kind, the digit, and the number
-- in two digits.
abbrev pub nd_line : Bytes → Bytes → ℕ → ℕ → Bytes
nd_line id kind r n = spell nd_re (id ∷ kind ∷ tail r n ∷ [])

warn_num_of-tail : (r n : ℕ) (old : ℤ) → n < 100 → warn_num_of (tail r n) old ≡ pos n
warn_num_of-tail r n old h = ground (
  arith,
  length-padded 2 n,
  take_whole 2 (padded 2 n) (length-padded 2 n),
  parse_int_or_zero-padded 1 n h (omega arith),
)

ncn_type-tail : (r n : ℕ) → r < 10 → parse_int_or_zero (take 1 (tail r n)) ≡ pos r
ncn_type-tail r n h =
    ap parse_int_or_zero (sym (dec_digit r h)) ∙ parse_int_or_zero-dec r (omega arith)

-- A report line, with any text behind it that begins with no digit, sets the id, the kind, the
-- revision digit and the number that it was written with, when the id is 14 digits, the kind is
-- upper case letters, at least one, the revision is below 10 and the number, in two digits, below
-- 100; the fields of other lines keep their values.
pub try_nd-nd_line :
    (t : Telegram) (id kind rest : Bytes) (r n : ℕ)
    → length id ≡ 14
    → Of is_digit id
    → kind ≢ []
    → Of upper kind
    → r < 10
    → n < 100
    → Leaves is_digit rest
    → try_nd t (nd_line id kind r n ++ rest)
      ≡ some (record t {
        eq_id = id;
        warn_code = kind;
        warn_type = look_up Tables.warn_type kind;
        ncn_type = pos r;
        warn_num = pos n;
      })
unfolding try_nd
try_nd-nd_line t id kind rest r n l d k u hr hn free =
    ap (Option.map (set_nd t))
      (find-spell nd_re (id ∷ kind ∷ tail r n ∷ []) rest
        ((l, d), ((k, u), ((λ e. absurd (cc), (ground arith, padded-Of 2 n)), tt)))
        (ground arith, (free, tt))).0
    ∙ ap₂
        (λ revision number. some (record t {
          eq_id = id;
          warn_code = kind;
          warn_type = look_up Tables.warn_type kind;
          ncn_type = revision;
          warn_num = number;
        }))
        (ncn_type-tail r n hr) (warn_num_of-tail r n t.warn_num hn)
