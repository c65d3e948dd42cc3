-- ===== src/Decoder/Decode/Sheet/Steps.antt =====
-- What each line of a written telegram does to the record.
use irc_eew.Base.{ℕ, ◌+◌, ◌<◌, ◌≡◌, ◌≢◌, refl, [], ◌∷◌, ◌++◌, arith, All-map}
use irc_eew.Base.Bytes.{Bytes, codes}
use irc_eew.Base.Decimal.{is_digit}
use irc_eew.Base.Decimal.Padded.{padded, length-padded}
use irc_eew.Base.Int.{pos}
use irc_eew.Base.Regex.Match.{Of}
use irc_eew.Base.Regex.Missing.{
  occurrences, occurrences-append, occurrences_ne, find-few, find_at_start-short,
}
use irc_eew.Base.Regex.Rows.{Fits, spell, find-row, spell-All}
use irc_eew.Decoder.Decode.Report.{parse_int_or_zero-padded, padded-Of, nd_line, try_nd-nd_line}
use irc_eew.Decoder.Decode.Sheet.Numbers.{length-field, field-Of}
use irc_eew.Decoder.Decode.Sheet.{
  Sheet, IsSheet, Hypocenter, IsHypocenter, header_groups, hypocenter_groups,
}
use irc_eew.Decoder.Decode.{
  header_re, eq_time_re, hypocenter_re, try_header, try_eq_time, upper, decode_line, look_up,
}
use irc_eew.Decoder.Tables
use irc_eew.Decoder.Telegram.{Telegram}

pub header_fits : (s : Sheet) → IsSheet s → Fits header_re (header_groups s)
header_fits s h = (
  h.code_ok,
  (
    h.section_ok,
    ((length-padded 2 s.msg_type, padded-Of 2 s.msg_type), (h.warn_time_ok, (h.command_ok, tt))),
  ),
)

pub hypocenter_fits : (s : Hypocenter) → IsHypocenter s → Fits hypocenter_re (hypocenter_groups s)
hypocenter_fits s h = (
  h.center_ok,
  (
    (length-field 3 s.lat, field-Of 3 s.lat),
    (
      (length-field 4 s.lng, field-Of 4 s.lng),
      (
        (length-field 3 s.depth, field-Of 3 s.depth),
        (
          (length-field 2 s.magnitude, field-Of 2 s.magnitude),
          (
            h.shindo_ok,
            (
              (
                omega (arith, h.accuracy_more_ok.0),
                (h.accuracy_ok.0, (h.accuracy_ok.1, (h.accuracy_ok.2, h.accuracy_more_ok.1))),
              ),
              (
                (
                  omega (arith, h.place_more_ok.0),
                  (h.place_ok.0, (h.place_ok.1, h.place_more_ok.1)),
                ),
                (h.changes_ok, tt),
              ),
            ),
          ),
        ),
      ),
    ),
  ),
)

pub decode_line-header :
    (t : Telegram) (s : Sheet)
    → IsSheet s
    → decode_line t (spell header_re (header_groups s)) ≡ record t {
      code = s.code;
      code_type = look_up Tables.code_type s.code;
      section_code = s.section;
      section = look_up Tables.section s.section;
      msg_type_code = pos s.msg_type;
      msg_type = look_up Tables.msg_type (padded 2 s.msg_type);
      warn_time = s.warn_time;
      command_code = s.command;
    }
unfolding decode_line try_header
decode_line-header t s h =
    rw
      (
        (find-row header_re (header_groups s) (header_fits s h) tt).0,
        parse_int_or_zero-padded 1 s.msg_type h.msg_type_ok (omega (arith, h.msg_type_ok)),
      )
      refl

pub decode_line-eq_time :
    (t : Telegram) (e : Bytes)
    → Fits eq_time_re (e ∷ [])
    → decode_line t (spell eq_time_re (e ∷ [])) ≡ record t { eq_time = e }
unfolding decode_line try_header try_eq_time
decode_line-eq_time t e f =
    rw
      (
        find-few b' ' header_re (spell eq_time_re (e ∷ [])) (
            omega (
              arith,
              occurrences_ne b' ' (spell eq_time_re (e ∷ []))
                  (spell-All (λ c. c ≢ b' ') eq_time_re (e ∷ []) ((λ c d. ground arith), tt) f),
            )),
        (find-row eq_time_re (e ∷ []) f tt).1,
      )
      refl

blanks_nd_line :
    (id kind : Bytes) (r n : ℕ)
    → Of is_digit id
    → Of upper kind
    → r < 10
    → occurrences b' ' (nd_line id kind r n) ≡ 1
blanks_nd_line id kind r n hi hk hr = omega (
  arith,
  occurrences-append b' ' id (b' ' ∷ (kind ++ (((b'0' + r) ∷ padded 2 n) ++ []))),
  occurrences-append b' ' kind (((b'0' + r) ∷ padded 2 n) ++ []),
  occurrences-append b' ' ((b'0' + r) ∷ padded 2 n) [],
  occurrences_ne b' ' id (All-map (λ c d. ground arith) id hi),
  occurrences_ne b' ' kind (All-map (λ c d. ground arith) kind hk),
  occurrences_ne b' ' ((b'0' + r) ∷ padded 2 n) (omega arith, (omega arith, (omega arith, tt))),
)

-- A report line behind its first two bytes.
abbrev after_nd : Sheet → Bytes
after_nd s = s.id ++ (codes " " ++ (s.kind ++ (((b'0' + s.revision) ∷ padded 2 s.number) ++ [])))

pub decode_line-nd :
    (t : Telegram) (s : Sheet)
    → IsSheet s
    → decode_line t (nd_line s.id s.kind s.revision s.number ++ s.beside) ≡ record t {
      eq_id = s.id;
      warn_code = s.kind;
      warn_type = look_up Tables.warn_type s.kind;
      ncn_type = pos s.revision;
      warn_num = pos s.number;
    }
unfolding decode_line try_header try_eq_time
decode_line-nd t s h =
    rw
      (
        find-few b' ' header_re (nd_line s.id s.kind s.revision s.number ++ s.beside) (
            omega (
              arith,
              occurrences-append b' ' (nd_line s.id s.kind s.revision s.number) s.beside,
              blanks_nd_line s.id s.kind s.revision s.number h.id_ok.1 h.kind_ok.1 h.revision_ok,
              h.beside_blanks,
            )),
        find_at_start-short 12 is_digit [] [] b'N' (b'D' ∷ (after_nd s ++ s.beside)) (omega arith)
            refl,
        try_nd-nd_line t s.id s.kind s.beside s.revision s.number h.id_ok.0 h.id_ok.1 h.kind_ok.0
            h.kind_ok.1 h.revision_ok h.number_ok h.beside_free,
      )
      refl
