-- ===== src/Decoder/Tests.antt =====
-- Telegrams of the archive, as internal/decoder/decoder_test.go reads them.
use mathlib.Core.List.{cons-ne-nil}
use irc_eew.Base.{inl, inr, ◌≡◌, refl, ◌++◌, ◌∷◌, some, arith}
use irc_eew.Base.Bytes.{Bytes, codes, utf8}
use irc_eew.Base.Decimal.{atoi}
use irc_eew.Base.Dict.{get}
use irc_eew.Base.Int.{pos}
use irc_eew.Base.Regex.{find, find_at_start, find_all}
use irc_eew.Base.Trim.{trim_space}
use irc_eew.Decoder.Decode.{
  split_lines, parse_int_or_zero, char_at, look_up, try_header, try_eq_time, try_nd, try_hypocenter,
  try_ebi, decode_line, decode_lines, decode,
}
use irc_eew.Decoder.Tables
use irc_eew.Decoder.Decode.Lines.{decode-append}
use irc_eew.Decoder.Decode.Report.{nd_line, try_nd-nd_line}
use irc_eew.Decoder.Decode.WellFormed.{decode-WellFormed}
use irc_eew.Decoder.Decode.WellFormed.Fields.{WellFormed}
use irc_eew.Decoder.Telegram.{empty_telegram}

-- The four last lines of testdata/2011_final_report.txt, less its areas.
abbrev final_report : Bytes
final_report =
    codes "37 03 00 110312042614 C11\n110312042348\n"
    ++ (codes "ND20110312042346 NCN981 JD////////////// JN///\n"
        ++ codes
            "220 N385 E1408 010 67 6+ RK44554 RT00/// RC0////\nEBI 220 S6+6- ////// 01 222 S6+5+ ////// 01\n9999=\n")

final_report_nd :
    ((decode final_report).eq_id ≡ codes "20110312042346")
    × ((decode final_report).ncn_type ≡ pos 9)
    × ((decode final_report).warn_num ≡ pos 81)
unfolding decode decode_lines decode_line try_header try_eq_time try_nd try_hypocenter try_ebi
    look_up char_at parse_int_or_zero split_lines find find_at_start find_all atoi trim_space
final_report_nd = (refl, refl, refl)

final_report_center :
    ((decode final_report).center_name ≡ utf8 "宮城県北部")
    × ((decode final_report).center_lng ≡ pos 1408)
    × ((decode final_report).shindo ≡ utf8 "6強")
unfolding decode decode_lines decode_line try_header try_eq_time try_nd try_hypocenter try_ebi
    look_up char_at parse_int_or_zero split_lines find find_at_start find_all atoi trim_space
    Tables.epicenter_code Tables.shindo get
final_report_center = (refl, refl, refl)

decode-WellFormed_example : WellFormed (decode final_report)
decode-WellFormed_example = decode-WellFormed final_report

decode-append_example :
    decode
      (codes "37 03 00 110312042614 C11" ++ 13 ∷ (codes "110312042348" ++ 10 ∷ codes "9999=\r\n"))
    ≡ decode_lines
        (decode_line (decode (codes "37 03 00 110312042614 C11")) (codes "110312042348"))
        (split_lines (codes "9999=\r\n"))
decode-append_example =
    decode-append (codes "37 03 00 110312042614 C11") (codes "10312042348") (codes "9999=\r\n") b'1'
      13 10 (inl refl) (inr refl) (ground arith)

try_nd-nd_line_example :
    try_nd empty_telegram (nd_line (codes "20110312042346") (codes "NCN") 9 81 ++ codes " JD")
    ≡ some (record empty_telegram {
      eq_id = codes "20110312042346";
      warn_code = codes "NCN";
      warn_type = look_up Tables.warn_type (codes "NCN");
      ncn_type = pos 9;
      warn_num = pos 81;
    })
try_nd-nd_line_example =
    try_nd-nd_line empty_telegram (codes "20110312042346") (codes "NCN") (codes " JD") 9 81 refl
      (ground arith) (cons-ne-nil _ _) (ground arith) (omega arith) (omega arith) refl
