-- ===== src/Decoder/Decode/Sheet.antt =====
-- A telegram as the relay writes it: the lines before the header, the header, the time of the quake, the report, the hypocenter
-- and lines of areas.
pub mod Record
pub mod Numbers
pub mod Steps
pub mod Center
pub mod Areas
pub mod RoundTrip
pub mod Sample
mod Tests
use irc_eew.Base.{
  ℕ, suc, zero, ◌<◌, ◌≤◌, ◌≡◌, ◌≢◌, Bool, true, false, Option, none, some, List, [], ◌∷◌, ◌++◌,
  length, All, get_or, map,
}
use irc_eew.Base.Bytes.{Bytes, codes}
use irc_eew.Base.Decimal.{is_digit, dec}
use irc_eew.Base.Decimal.Padded.{padded, limit}
use irc_eew.Base.Dict.{put}
use irc_eew.Base.Int.{pos}
use irc_eew.Base.Regex.Match.Fitting.{Leaves}
use irc_eew.Base.Regex.Match.{Of}
use irc_eew.Base.Regex.Missing.{occurrences}
use irc_eew.Base.Regex.Rows.{spell}
use irc_eew.Base.Trim.{has_infix}
use irc_eew.Decoder.Decode.Report.{nd_line}
use irc_eew.Decoder.Decode.{
  digit_or_slash, shindo_byte, shindo_or_slash, upper, binary, is_line_end, header_re, eq_time_re,
  hypocenter_re, ebi_re, look_up,
}
use irc_eew.Decoder.Tables
use irc_eew.Decoder.Telegram.{Telegram, EbiEntry, empty_telegram}

-- The forecast of one area.
pub record Area : Type 0 where
  pub area : Bytes
  pub shindo1 : Bytes
  pub shindo2 : Bytes
  pub time : Bytes
  pub warned : ℕ
  pub arrived : ℕ

-- The areas of one line; the first line begins with `EBI `.
pub record AreaLine : Type 0 where
  pub labelled : Bool
  pub first : Area
  pub more : List Area

pub record Hypocenter : Type 0 where
  pub center : Bytes
  -- tenths; `none` is a row of slashes, here and below
  pub lat : Option ℕ
  -- tenths
  pub lng : Option ℕ
  pub depth : Option ℕ
  -- tenths
  pub magnitude : Option ℕ
  pub shindo : Bytes
  -- the first three digits behind RK, and the others
  pub accuracy : ℕ × ℕ × ℕ
  pub accuracy_more : Bytes
  -- the first two digits behind RT, and the others
  pub place : ℕ × ℕ
  pub place_more : Bytes
  -- the digits behind RC
  pub changes : Bytes

pub record Sheet : Type 0 where
  -- the lines before the header
  pub preamble : List Bytes
  pub code : Bytes
  pub section : Bytes
  pub msg_type : ℕ
  pub warn_time : Bytes
  pub command : Bytes
  pub eq_time : Bytes
  pub id : Bytes
  pub kind : Bytes
  pub revision : ℕ
  pub number : ℕ
  -- what stands behind the number of the report
  pub beside : Bytes
  -- `none` is struck out
  pub hypocenter : Option Hypocenter
  pub areas : List AreaLine
  -- what stands behind the last line feed
  pub trailer : Bytes

abbrev slashes : ℕ → Bytes
slashes zero = []
slashes (suc k) = b'/' ∷ slashes k

abbrev pub field : ℕ → Option ℕ → Bytes
field k none = slashes k
field k (some n) = padded k n

abbrev pub header_groups : Sheet → List Bytes
header_groups s = s.code ∷ s.section ∷ padded 2 s.msg_type ∷ s.warn_time ∷ s.command ∷ []

abbrev pub hypocenter_groups : Hypocenter → List Bytes
hypocenter_groups s =
    s.center
    ∷ field 3 s.lat
    ∷ field 4 s.lng
    ∷ field 3 s.depth
    ∷ field 2 s.magnitude
    ∷ s.shindo
    ∷ (s.accuracy.0 ∷ s.accuracy.1 ∷ s.accuracy.2 ∷ s.accuracy_more)
    ∷ (s.place.0 ∷ s.place.1 ∷ s.place_more)
    ∷ s.changes
    ∷ []

abbrev pub area_groups : Area → List Bytes
area_groups a = a.area ∷ a.shindo1 ∷ a.shindo2 ∷ a.time ∷ (a.warned ∷ a.arrived ∷ []) ∷ []

-- The line of the hypocenter; a cancellation has it struck out.
abbrev pub hypocenter_line : Option Hypocenter → Bytes
hypocenter_line none = codes "/// //// ///// /// // // RK///// RT///// RC/////"
hypocenter_line (some h) = spell hypocenter_re (hypocenter_groups h)

-- The areas behind the first one, each behind a blank.
abbrev pub more_areas : List Area → Bytes
more_areas [] = []
more_areas (a ∷ rest) = b' ' ∷ (spell ebi_re (area_groups a) ++ more_areas rest)

abbrev label : Bool → Bytes
label true = codes "EBI "
label false = []

abbrev pub area_line : AreaLine → Bytes
area_line l = label l.labelled ++ (spell ebi_re (area_groups l.first) ++ more_areas l.more)

abbrev pub area_lines : List AreaLine → List Bytes
area_lines [] = []
area_lines (l ∷ ls) = area_line l ∷ area_lines ls

-- The lines from the header on.
abbrev pub body_lines : Sheet → List Bytes
body_lines s =
    spell header_re (header_groups s)
    ∷ spell eq_time_re (s.eq_time ∷ [])
    ∷ (nd_line s.id s.kind s.revision s.number ++ s.beside)
    ∷ hypocenter_line s.hypocenter
    ∷ (area_lines s.areas ++ codes "9999=" ∷ [])

abbrev pub sheet_lines : Sheet → List Bytes
sheet_lines s = s.preamble ++ body_lines s

-- The lines, each with a line feed, and what stands behind the last one.
abbrev pub text_with : List Bytes → Bytes → Bytes
text_with [] trailer = trailer
text_with (l ∷ ls) trailer = l ++ b'\n' ∷ text_with ls trailer

abbrev pub text_of : Sheet → Bytes
text_of s = text_with (sheet_lines s) s.trailer

abbrev IsText : ℕ → (ℕ → Bool) → Bytes → Type 0
IsText n class s = (length s ≡ n) × Of class s

-- A number below the limit of its digits, or none.
abbrev pub Below : ℕ → Option ℕ → Type 0
Below m none = Unit
Below m (some n) = n < m

pub record IsArea (a : Area) : Type 0 where
  pub area_ok : IsText 3 is_digit a.area
  pub shindo1_ok : IsText 2 shindo_byte a.shindo1
  pub shindo2_ok : IsText 2 shindo_or_slash a.shindo2
  pub time_ok : IsText 6 digit_or_slash a.time
  pub warned_ok : binary a.warned ≡ true
  pub arrived_ok : binary a.arrived ≡ true

abbrev pub IsAreaLine : AreaLine → Type 0
IsAreaLine l = IsArea l.first × All IsArea l.more

pub record IsHypocenter (s : Hypocenter) : Type 0 where
  pub center_ok : IsText 3 digit_or_slash s.center
  pub lat_ok : Below 1000 s.lat
  pub lng_ok : Below 10000 s.lng
  pub depth_ok : Below 1000 s.depth
  pub magnitude_ok : Below 100 s.magnitude
  pub shindo_ok : IsText 2 shindo_or_slash s.shindo
  pub accuracy_ok :
      (digit_or_slash s.accuracy.0 ≡ true)
      × (digit_or_slash s.accuracy.1 ≡ true)
      × (digit_or_slash s.accuracy.2 ≡ true)
  pub accuracy_more_ok : IsText 2 digit_or_slash s.accuracy_more
  pub place_ok : (digit_or_slash s.place.0 ≡ true) × (digit_or_slash s.place.1 ≡ true)
  pub place_more_ok : IsText 3 digit_or_slash s.place_more
  pub changes_ok : IsText 5 digit_or_slash s.changes

abbrev pub IsHypocenterOrNone : Option Hypocenter → Type 0
IsHypocenterOrNone none = Unit
IsHypocenterOrNone (some s) = IsHypocenter s

-- A line before the header or behind the last one may be empty. It begins with no digit, holds no line end, and none of
-- the texts by which the other lines are known.
pub record IsPreamble (line : Bytes) : Type 0 where
  pub in_line : All (λ c. is_line_end c ≡ false) line
  pub no_time : Leaves is_digit line
  pub no_header : has_infix line (codes " C") ≡ false
  pub no_report : has_infix line (codes "ND") ≡ false
  pub no_hypocenter : has_infix line (codes " N") ≡ false
  pub no_area : has_infix line (codes " S") ≡ false

-- Each field has the count and the kind of bytes that the relay writes; what stands behind the
-- number of the report is no digit, holds at most two blanks, and no line end.
pub record IsSheet (s : Sheet) : Type 0 where
  pub preamble_ok : All IsPreamble s.preamble
  pub code_ok : IsText 2 is_digit s.code
  pub section_ok : IsText 2 is_digit s.section
  pub msg_type_ok : s.msg_type < 100
  pub warn_time_ok : IsText 12 is_digit s.warn_time
  pub command_ok : IsText 2 is_digit s.command
  pub eq_time_ok : IsText 12 is_digit s.eq_time
  pub id_ok : IsText 14 is_digit s.id
  pub kind_ok : (s.kind ≢ []) × Of upper s.kind
  pub revision_ok : s.revision < 10
  pub number_ok : s.number < 100
  pub beside_free : Leaves is_digit s.beside
  pub beside_blanks : occurrences b' ' s.beside ≤ 2
  pub beside_in_line : All (λ c. is_line_end c ≡ false) s.beside
  pub hypocenter_ok : IsHypocenterOrNone s.hypocenter
  pub areas_ok : All IsAreaLine s.areas
  pub trailer_ok : IsPreamble s.trailer
