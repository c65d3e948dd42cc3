-- ===== src/Decoder/Decode.antt =====
-- internal/decoder/decoder.go: `Decode` and its five line parsers. A `try` function returns `none`
-- where the source's returns false, and leaves the telegram alone there.
pub mod WellFormed
pub mod Report
pub mod Lines
pub mod Sheet
use mathlib.Core.Option
use irc_eew.Base.{
  ℕ, zero, suc, ◌≡◌, refl, Bool, true, false, ◌&&◌, ◌||◌, Option, none, some, List, [], ◌∷◌, ◌++◌,
  ltb, leb, ◌==◌, if◌then◌else◌, length, get_elem?, get_or, take, drop,
}
use irc_eew.Base.Bytes.{Bytes, codes}
use irc_eew.Base.Decimal.{atoi, is_digit}
use irc_eew.Base.Dict.{get, put}
use irc_eew.Base.Int.{ℤ, pos}
use irc_eew.Base.Regex.{Piece, text, exactly, run, compile, find, find_at_start, find_all, group}
use irc_eew.Base.Trim.{trim_space}
use irc_eew.Decoder.Tables
use irc_eew.Decoder.Telegram.{Telegram, EbiEntry, empty_telegram}

-- `[0-9/]`
abbrev digit_or_slash : ℕ → Bool
digit_or_slash c = is_digit c || c == b'/'

-- `[0-7\-+]`
abbrev pub shindo_byte : ℕ → Bool
shindo_byte c = (leb b'0' c && leb c b'7') || c == b'-' || c == b'+'

-- `[0-7\-+/]`
abbrev shindo_or_slash : ℕ → Bool
shindo_or_slash c = shindo_byte c || c == b'/'

-- `[A-Z]`
abbrev pub upper : ℕ → Bool
upper c = leb b'A' c && leb c b'Z'

-- `[01]`
abbrev binary : ℕ → Bool
binary c = c == b'0' || c == b'1'

abbrev pub header_re : List Piece
header_re =
    exactly 2 is_digit
    ∷ text (codes " ")
    ∷ exactly 2 is_digit
    ∷ text (codes " ")
    ∷ exactly 2 is_digit
    ∷ text (codes " ")
    ∷ exactly 12 is_digit
    ∷ text (codes " C")
    ∷ exactly 2 is_digit
    ∷ []

abbrev pub eq_time_re : List Piece
eq_time_re = exactly 12 is_digit ∷ []

abbrev pub nd_re : List Piece
nd_re = text (codes "ND") ∷ exactly 14 is_digit ∷ text (codes " ") ∷ run upper ∷ run is_digit ∷ []

abbrev pub hypocenter_re : List Piece
hypocenter_re =
    exactly 3 digit_or_slash
    ∷ text (codes " N")
    ∷ exactly 3 digit_or_slash
    ∷ text (codes " E")
    ∷ exactly 4 digit_or_slash
    ∷ text (codes " ")
    ∷ exactly 3 digit_or_slash
    ∷ text (codes " ")
    ∷ exactly 2 digit_or_slash
    ∷ text (codes " ")
    ∷ exactly 2 shindo_or_slash
    ∷ text (codes " RK")
    ∷ exactly 5 digit_or_slash
    ∷ text (codes " RT")
    ∷ exactly 5 digit_or_slash
    ∷ text (codes " RC")
    ∷ exactly 5 digit_or_slash
    ∷ []

abbrev pub ebi_re : List Piece
ebi_re =
    exactly 3 is_digit
    ∷ text (codes " S")
    ∷ exactly 2 shindo_byte
    ∷ exactly 2 shindo_or_slash
    ∷ text (codes " ")
    ∷ exactly 6 digit_or_slash
    ∷ text (codes " ")
    ∷ exactly 2 binary
    ∷ []

abbrev pub is_line_end : ℕ → Bool
is_line_end c = c == b'\r' || c == b'\n'

-- A finished line before the next ones, unless it is empty.
abbrev pub close_line : Bytes → List Bytes → List Bytes
close_line [] lines = lines
close_line (c ∷ line) lines = (c ∷ line) ∷ lines

-- `strings.FieldsFunc`, with the line read so far.
pub fields : Bytes → Bytes → List Bytes
fields line [] = close_line line []
fields line (c ∷ s) = elim (is_line_end c) [
  | true ↦ close_line line (fields [] s)
  | false ↦ fields (line ++ c ∷ []) s
]

-- Splits at each CR and each LF; no line is empty.
unfoldable pub split_lines : Bytes → List Bytes
unfolding fields
split_lines s = fields [] s

-- `parseIntOrZero`
unfoldable pub parse_int_or_zero : Bytes → ℤ
parse_int_or_zero s = get_or (atoi (trim_space s)) (pos 0)

-- `charAt` at a place that is not negative.
unfoldable pub char_at : Bytes → ℕ → Bytes
char_at s i = take 1 (drop i s)

-- A lookup in a table; a missing key gives the empty string.
unfoldable pub look_up : List (Bytes × Bytes) → Bytes → Bytes
look_up table k = get_or (get k table) []

-- The fields it sets.
abbrev pub set_header : Telegram → List Bytes → Telegram
set_header t m = record t {
  code = group m 0;
  code_type = look_up Tables.code_type (group m 0);
  section_code = group m 1;
  section = look_up Tables.section (group m 1);
  msg_type_code = parse_int_or_zero (group m 2);
  msg_type = look_up Tables.msg_type (group m 2);
  warn_time = group m 3;
  command_code = group m 4;
}

unfoldable pub try_header : Telegram → Bytes → Option Telegram
try_header t line = Option.map (set_header t) (find (compile header_re) line)

-- The fields it sets.
abbrev pub set_eq_time : Telegram → List Bytes → Telegram
set_eq_time t m = record t { eq_time = group m 0 }

unfoldable pub try_eq_time : Telegram → Bytes → Option Telegram
try_eq_time t line = Option.map (set_eq_time t) (find_at_start (compile eq_time_re) line)

-- The report number behind the first digit: two digits of it, one if there is but one, or the old
-- number.
abbrev pub warn_num_of : Bytes → ℤ → ℤ
warn_num_of trailing old =
    if leb 3 (length trailing)
    then parse_int_or_zero (take 2 (drop 1 trailing))
    else if ltb 1 (length trailing)
    then parse_int_or_zero (drop 1 trailing)
    else old

-- The fields it sets.
abbrev pub set_nd : Telegram → List Bytes → Telegram
set_nd t m = record t {
  eq_id = group m 0;
  warn_code = group m 1;
  warn_type = look_up Tables.warn_type (group m 1);
  ncn_type = parse_int_or_zero (take 1 (group m 2));
  warn_num = warn_num_of (group m 2) t.warn_num;
}

unfoldable pub try_nd : Telegram → Bytes → Option Telegram
try_nd t line = Option.map (set_nd t) (find (compile nd_re) line)

-- The fields it sets.
abbrev pub set_hypocenter : Telegram → List Bytes → Telegram
set_hypocenter t m = record t {
  center_code = group m 0;
  center_name = look_up Tables.epicenter_code (group m 0);
  center_lat = parse_int_or_zero (group m 1);
  center_lng = parse_int_or_zero (group m 2);
  center_depth = parse_int_or_zero (group m 3);
  magnitude = parse_int_or_zero (group m 4);
  shindo_code = group m 5;
  shindo = look_up Tables.shindo (group m 5);
  center_accurate_code = char_at (group m 6) 0;
  center_accurate = look_up Tables.rk1 (char_at (group m 6) 0);
  depth_accurate_code = char_at (group m 6) 1;
  depth_accurate = look_up Tables.rk2 (char_at (group m 6) 1);
  magnitude_accurate_code = char_at (group m 6) 2;
  magnitude_accurate = look_up Tables.rk3 (char_at (group m 6) 2);
  is_sea_code = char_at (group m 7) 0;
  is_sea = look_up Tables.rt1 (char_at (group m 7) 0);
  is_warnded = char_at (group m 7) 1;
}

unfoldable pub try_hypocenter : Telegram → Bytes → Option Telegram
try_hypocenter t line = Option.map (set_hypocenter t) (find (compile hypocenter_re) line)

unfoldable pub ebi_entry : List Bytes → EbiEntry
ebi_entry m = record {
  name = look_up Tables.area_code (group m 0);
  shindo1_code = group m 1;
  shindo1 = look_up Tables.shindo (group m 1);
  shindo2_code = group m 2;
  shindo2 = look_up Tables.shindo (group m 2);
  time = group m 3;
  is_warnded_code = char_at (group m 4) 0;
  is_warnded = look_up Tables.ebiy1 (char_at (group m 4) 0);
  arrive_code = char_at (group m 4) 1;
  arrive = look_up Tables.ebiy2 (char_at (group m 4) 1);
}

-- The loop over the matches.
unfoldable pub put_areas : List (Bytes × EbiEntry) → List (List Bytes) → List (Bytes × EbiEntry)
unfolding ebi_entry
put_areas areas [] = areas
put_areas areas (m ∷ ms) = put_areas (put (group m 0) (ebi_entry m) areas) ms

-- No match leaves the telegram alone.
abbrev pub ebi_of : Telegram → List (List Bytes) → Option Telegram
ebi_of t [] = none
ebi_of t (m ∷ ms) = some (record t { ebi = put_areas t.ebi (m ∷ ms) })

unfoldable pub try_ebi : Telegram → Bytes → Option Telegram
try_ebi t line = ebi_of t (find_all (compile ebi_re) line)

-- The cases of the `switch`, in order.
abbrev pub or_else : Option Telegram → Option Telegram → Option Telegram
or_else (some t) later = some t
or_else none later = later

unfoldable pub decode_line : Telegram → Bytes → Telegram
decode_line t line =
    get_or
      (or_else (try_header t line) (
        or_else (try_eq_time t line)
          (or_else (try_nd t line) (or_else (try_hypocenter t line) (try_ebi t line)))))
      t

unfoldable pub decode_lines : Telegram → List Bytes → Telegram
decode_lines t [] = t
decode_lines t (line ∷ lines) = decode_lines (decode_line t line) lines

-- `Decode`
unfoldable pub decode : Bytes → Telegram
decode raw = decode_lines empty_telegram (split_lines raw)
