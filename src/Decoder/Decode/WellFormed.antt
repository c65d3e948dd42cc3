-- ===== src/Decoder/Decode/WellFormed.antt =====
-- What every decoded telegram satisfies, whatever the bytes were.
pub mod Fields
mod Parsers
use irc_eew.Base.{
  ℕ, zero, suc, ◌+◌, ◌*◌, ◌-◌, ◌≤◌, ◌≡◌, ◌⊎◌, inl, inr, refl, ◌∙◌, ap, true, All-map, ◌≢◌,
  length-drop, Option-cases, Bool-cases, map-some, subst, length-take_le, All-take, All-drop,
  Option, none, some, List, [], ◌∷◌, arith, length, get_or, leb, take, drop, ltb,
}
use irc_eew.Base.Bytes.{Bytes}
use irc_eew.Base.Decimal.{is_digit, scan, atoi}
use irc_eew.Base.Int.{ℤ, pos, negsuc}
use irc_eew.Base.Regex.Match.{Of}
use irc_eew.Base.Regex.Rows.{Fits, group-Sized, find-Fits, find_at_start-Fits}
use irc_eew.Base.Regex.{compile, find, find_at_start, find_all, group}
use irc_eew.Base.Trim.{trim_space-IsVisible, IsVisible}
use irc_eew.Decoder.Decode.{
  parse_int_or_zero, digit_or_slash, header_re, eq_time_re, nd_re, hypocenter_re, ebi_re,
  set_header, set_eq_time, set_nd, set_hypocenter, try_header, try_eq_time, try_nd, warn_num_of,
  try_hypocenter, try_ebi, ebi_of, or_else, decode_line, decode_lines, decode, split_lines,
}
use irc_eew.Decoder.Telegram.{Telegram, empty_telegram}
use irc_eew.Decoder.Decode.WellFormed.Fields.{WellFormed, empty_telegram-WellFormed}
use irc_eew.Decoder.Decode.WellFormed.Parsers.{
  Keeps, try_header-Keeps, try_eq_time-Keeps, try_nd-Keeps, try_hypocenter-Keeps, try_ebi-Keeps,
}

or_else-Keeps :
    (a b : Telegram → Bytes → Option Telegram)
    → Keeps a
    → Keeps b
    → Keeps (λ t line. or_else (a t line) (b t line))
or_else-Keeps a b ka kb t line t' w = by_first (a t line) refl
  where
    by_first : (o : Option Telegram) → a t line ≡ o → or_else o (b t line) ≡ some t' → WellFormed t'
    by_first none at e = kb t line t' w e
    by_first (some t1) at e = ka t line t' w (at ∙ e)

abbrev by_parsers : Telegram → Bytes → Option Telegram
by_parsers t line = or_else (try_header t line) (
    or_else (try_eq_time t line)
      (or_else (try_nd t line) (or_else (try_hypocenter t line) (try_ebi t line))))

by_parsers-Keeps : Keeps by_parsers
by_parsers-Keeps = or_else-Keeps _ _ try_header-Keeps (
    or_else-Keeps _ _ try_eq_time-Keeps
      (or_else-Keeps _ _ try_nd-Keeps (or_else-Keeps _ _ try_hypocenter-Keeps try_ebi-Keeps)))

decode_line-WellFormed :
    (t : Telegram) (line : Bytes) → WellFormed t → WellFormed (decode_line t line)
unfolding decode_line
decode_line-WellFormed t line w = by_result (by_parsers t line) refl
  where
    by_result : (o : Option Telegram) → by_parsers t line ≡ o → WellFormed (get_or o t)
    by_result none at = w
    by_result (some t1) at = by_parsers-Keeps t line t1 w at

decode_lines-WellFormed :
    (t : Telegram) (lines : List Bytes) → WellFormed t → WellFormed (decode_lines t lines)
unfolding decode_lines
decode_lines-WellFormed t [] w = w
decode_lines-WellFormed t (line ∷ lines) w =
    decode_lines-WellFormed (decode_line t line) lines (decode_line-WellFormed t line w)

-- Whatever the bytes, a decoded telegram's numbers are within the digits of their fields (message
-- type, report number and magnitude in tenths up to 99, revision up to 9, latitude and depth up
-- to 999, longitude up to 9999), its times of warning and of the quake are 12 digits or empty, and
-- its event id is 14 digits or empty.
pub decode-WellFormed : (raw : Bytes) → WellFormed (decode raw)
unfolding decode
decode-WellFormed raw =
    decode_lines-WellFormed empty_telegram (split_lines raw) empty_telegram-WellFormed
