-- ===== src/Decoder/Decode/Sheet/RoundTrip.antt =====
-- A written telegram, decoded.
use mathlib.Core.List.{cons-ne-nil}
use irc_eew.Base.{
  ℕ, ◌+◌, ◌≡◌, refl, ◌∙◌, ap, inl, inr, true, Option, none, some, List, [], ◌∷◌, ◌++◌, arith, All,
  All-append, All-map,
}
use irc_eew.Base.Bytes.{Bytes, codes}
use irc_eew.Base.Decimal.{is_digit}
use irc_eew.Base.Decimal.Padded.{padded}
use irc_eew.Base.Regex.Rows.{spell, spell-All}
use irc_eew.Base.Regex.{compile, find, find_at_start, find_all, match_here}
use irc_eew.Base.Regex.Match.Fitting.{Leaves}
use irc_eew.Base.Regex.Matches.{find_all-none}
use irc_eew.Base.Regex.Missing.{find-missing, find_at_start-short}
use irc_eew.Decoder.Decode.Lines.{InLine, fields_line, fields-append, decode_lines-append}
use irc_eew.Decoder.Decode.Report.{nd_line}
use irc_eew.Decoder.Decode.Sheet.Areas.{area_line-All, decode_line-area_line}
use irc_eew.Decoder.Decode.Sheet.Center.{hypocenter_re-Throughout, decode_line-hypocenter_line}
use irc_eew.Decoder.Decode.Sheet.Steps.{
  header_fits, hypocenter_fits, decode_line-header, decode_line-eq_time, decode_line-nd,
}
use irc_eew.Decoder.Decode.Sheet.Record.{with_hypocenter, put_area_line, put_lines, telegram_of}
use irc_eew.Decoder.Decode.Sheet.{
  AreaLine, IsAreaLine, Hypocenter, IsHypocenterOrNone, IsPreamble, body_lines, hypocenter_line,
  Sheet, IsSheet, header_groups, hypocenter_groups, area_lines, sheet_lines, text_with, text_of,
}
use irc_eew.Decoder.Decode.{
  close_line, fields, split_lines, header_re, eq_time_re, nd_re, hypocenter_re, ebi_re, try_header,
  try_eq_time, try_nd, try_hypocenter, try_ebi, decode_line, decode_lines, decode,
}
use irc_eew.Decoder.Telegram.{Telegram, empty_telegram}

-- A line with no line end, which may be empty.
abbrev IsLine : Bytes → Type 0
IsLine l = All InLine l

decode_lines-close_line :
    (t : Telegram) (l : Bytes) → decode_lines t (close_line l []) ≡ decode_line t l
unfolding decode_lines decode_line try_header try_eq_time try_nd try_hypocenter try_ebi find
    find_at_start find_all match_here
decode_lines-close_line t [] = refl
decode_lines-close_line t (c ∷ l) = refl

-- Empty lines are lost, but say nothing.
decode_lines-text_of :
    (t : Telegram) (ls : List Bytes) (last : Bytes)
    → All IsLine ls
    → IsLine last
    → decode_lines t (split_lines (text_with ls last)) ≡ decode_line (decode_lines t ls) last
unfolding split_lines fields decode_lines
decode_lines-text_of t [] last h k =
    ap (decode_lines t) (fields_line [] last k) ∙ decode_lines-close_line t last
decode_lines-text_of t (l ∷ ls) last h k =
    ap (decode_lines t) (
      fields-append [] l (text_with ls last) b'\n' refl
      ∙ ap (λ x. x ++ fields [] (text_with ls last)) (fields_line [] l h.0))
    ∙ decode_lines-append t (close_line l []) (fields [] (text_with ls last))
    ∙ ap (λ u. decode_lines u (fields [] (text_with ls last))) (decode_lines-close_line t l)
    ∙ decode_lines-text_of (decode_line t l) ls last h.1 k

untimed : (l : Bytes) → Leaves is_digit l → find_at_start (compile eq_time_re) l ≡ none
unfolding find_at_start match_here
untimed [] h = refl
untimed (c ∷ l) h = find_at_start-short 12 is_digit [] [] c l (omega arith) h

decode_line-preamble : (t : Telegram) (l : Bytes) → IsPreamble l → decode_line t l ≡ t
unfolding decode_line try_header try_eq_time try_nd try_hypocenter try_ebi
decode_line-preamble t l h =
    rw
      (
        find-missing (codes " C") header_re l (inr (inr (inr (inl refl)))) h.no_header,
        untimed l h.no_time,
        find-missing (codes "ND") nd_re l (inl refl) h.no_report,
        find-missing (codes " N") hypocenter_re l (inl refl) h.no_hypocenter,
        find_all-none (compile ebi_re) l (find-missing (codes " S") ebi_re l (inl refl) h.no_area),
      )
      refl

decode_lines-preamble : (t : Telegram) (ls : List Bytes) → All IsPreamble ls → decode_lines t ls ≡ t
unfolding decode_lines
decode_lines-preamble t [] h = refl
decode_lines-preamble t (l ∷ ls) h =
    ap (λ u. decode_lines u ls) (decode_line-preamble t l h.0) ∙ decode_lines-preamble t ls h.1

area_lines-IsLine : (ls : List AreaLine) → All IsAreaLine ls → All IsLine (area_lines ls)
area_lines-IsLine [] h = tt
area_lines-IsLine (l ∷ ls) h = (
  area_line-All InLine (λ c d. ground arith) (λ c d. ground arith) (refl, refl, refl, refl, refl) l
      h.0,
  area_lines-IsLine ls h.1,
)

hypocenter_line-IsLine : (o : Option Hypocenter) → IsHypocenterOrNone o → IsLine (hypocenter_line o)
hypocenter_line-IsLine none h = ground arith
hypocenter_line-IsLine (some s) h =
    spell-All InLine hypocenter_re (hypocenter_groups s)
      (hypocenter_re-Throughout InLine (λ c d. ground arith) (λ c d. ground arith)
        (refl, refl, refl, refl, refl, refl, refl))
      (hypocenter_fits s h)

nd_line-All :
    (s : Sheet) → IsSheet s → All InLine (nd_line s.id s.kind s.revision s.number ++ s.beside)
nd_line-All s h =
    All-append InLine (nd_line s.id s.kind s.revision s.number) s.beside
      (spell-All InLine nd_re (s.id ∷ s.kind ∷ ((b'0' + s.revision) ∷ padded 2 s.number) ∷ [])
        (
          (refl, (refl, tt)),
          (λ c d. ground arith, ((refl, tt), (λ c d. ground arith, (λ c d. ground arith, tt)))),
        )
        (
          h.id_ok,
          (
            h.kind_ok,
            (
              (
                cons-ne-nil _ _,
                (ground (arith, h.revision_ok), (ground arith, (ground arith, tt))),
              ),
              tt,
            ),
          ),
        ))
      h.beside_in_line

body_lines-IsLine : (s : Sheet) → IsSheet s → All IsLine (body_lines s)
body_lines-IsLine s h =
    let d : (c : ℕ) → is_digit c ≡ true → InLine c = λ c e. ground arith in
    (
      spell-All InLine header_re (header_groups s)
          (
            d,
            ((refl, tt), (d, ((refl, tt), (d, ((refl, tt), (d, ((refl, (refl, tt)), (d, tt)))))))),
          )
          (header_fits s h),
      (
        spell-All InLine eq_time_re (s.eq_time ∷ []) (d, tt) (h.eq_time_ok, tt),
        (
          nd_line-All s h,
          (
            hypocenter_line-IsLine s.hypocenter h.hypocenter_ok,
            All-append IsLine (area_lines s.areas) (codes "9999=" ∷ [])
                (area_lines-IsLine s.areas h.areas_ok) (ground arith, tt),
          ),
        ),
      ),
    )

sheet_lines-IsLine : (s : Sheet) → IsSheet s → All IsLine (sheet_lines s)
sheet_lines-IsLine s h =
    All-append IsLine s.preamble (body_lines s)
      (All-map (λ l p. p.in_line) s.preamble h.preamble_ok) (body_lines-IsLine s h)

decode_lines-areas :
    (t : Telegram) (ls : List AreaLine)
    → All IsAreaLine ls
    → decode_lines t (area_lines ls) ≡ record t { ebi = put_lines t.ebi ls }
unfolding decode_lines
decode_lines-areas t [] h = refl
decode_lines-areas t (l ∷ ls) h =
    ap (λ u. decode_lines u (area_lines ls)) (decode_line-area_line t l h.0)
    ∙ decode_lines-areas (record t { ebi = put_area_line t.ebi l }) ls h.1

decode_line-end : (t : Telegram) → decode_line t (codes "9999=") ≡ t
unfolding decode_line try_header try_eq_time try_nd try_hypocenter try_ebi find find_at_start
    find_all match_here
decode_line-end t = refl

put_lines-with_hypocenter :
    (o : Option Hypocenter) (t : Telegram) (ls : List AreaLine)
    → record (with_hypocenter o t) { ebi = put_lines (with_hypocenter o t).ebi ls }
      ≡ with_hypocenter o (record t { ebi = put_lines t.ebi ls })
put_lines-with_hypocenter none t ls = refl
put_lines-with_hypocenter (some s) t ls = refl

decode_lines-body_lines :
    (s : Sheet) → IsSheet s → decode_lines empty_telegram (body_lines s) ≡ telegram_of s
unfolding decode_lines
decode_lines-body_lines s h =
    let report = nd_line s.id s.kind s.revision s.number ++ s.beside in
    let center = hypocenter_line s.hypocenter in
    let behind = area_lines s.areas ++ codes "9999=" ∷ [] in
    ap
      (λ t.
        decode_lines
          (decode_line (decode_line (decode_line t (spell eq_time_re (s.eq_time ∷ []))) report)
            center)
          behind)
      (decode_line-header empty_telegram s h)
    ∙ ap (λ t. decode_lines (decode_line (decode_line t report) center) behind)
        (decode_line-eq_time _ s.eq_time (h.eq_time_ok, tt))
    ∙ ap (λ t. decode_lines (decode_line t center) behind) (decode_line-nd _ s h)
    ∙ ap (λ t. decode_lines t behind) (decode_line-hypocenter_line _ s.hypocenter h.hypocenter_ok)
    ∙ decode_lines-append _ (area_lines s.areas) (codes "9999=" ∷ [])
    ∙ ap (λ t. decode_lines t (codes "9999=" ∷ [])) (decode_lines-areas _ s.areas h.areas_ok)
    ∙ decode_line-end _
    ∙ put_lines-with_hypocenter s.hypocenter _ s.areas

-- The telegram that the relay writes, line by line, is decoded to the record that stands for it:
-- the codes as written with their names from the tables, the numbers, 0 where there are slashes,
-- and one entry for each area, the last one where an area is written twice; the line of a
-- hypocenter that is struck out leaves its fields empty, and the lines before the header and
-- what stands behind the last line feed say nothing. It holds for a telegram whose fields have the count and the kind of bytes of their
-- places, whose report line has, behind its number, no digit next, at most two blanks and no line
-- end, and whose lines before the header, and the text behind the last line, begin with no
-- digit and hold neither ND nor a blank before C, N or S.
pub decode-text_of : (s : Sheet) → IsSheet s → decode (text_of s) ≡ telegram_of s
unfolding decode
decode-text_of s h =
    decode_lines-text_of empty_telegram (sheet_lines s) s.trailer (sheet_lines-IsLine s h)
      h.trailer_ok.in_line
    ∙ decode_line-preamble _ s.trailer h.trailer_ok
    ∙ decode_lines-append empty_telegram s.preamble (body_lines s)
    ∙ ap (λ t. decode_lines t (body_lines s))
        (decode_lines-preamble empty_telegram s.preamble h.preamble_ok)
    ∙ decode_lines-body_lines s h
