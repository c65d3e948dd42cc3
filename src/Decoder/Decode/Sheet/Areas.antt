-- ===== src/Decoder/Decode/Sheet/Areas.antt =====
-- What a line of areas does to the record.
use irc_eew.Base.{
  ℕ, ◌≡◌, ◌≢◌, refl, ◌∙◌, ap, inl, inr, ◌⊎◌, length-append, true, false, none, Bool, List, [], ◌∷◌,
  ◌++◌, arith, length, All, All-append, append_assoc,
}
use irc_eew.Base.Bytes.{Bytes}
use irc_eew.Base.Decimal.{is_digit}
use irc_eew.Base.Dict.{put}
use irc_eew.Base.Regex.Matches.{find_all-miss, find_all-nil, find_all-spell}
use irc_eew.Base.Regex.Missing.{occurrences, occurrences_ne, find-few, find_at_start-short}
use irc_eew.Base.Regex.Rows.{Fits, spell, spell-All, Throughout}
use irc_eew.Base.Regex.{compile, find_all, find_at_start, match_here}
use irc_eew.Decoder.Decode.Sheet.Record.{entry_of, put_entries, put_area_line}
use irc_eew.Decoder.Decode.Sheet.{
  Area, AreaLine, IsArea, IsAreaLine, area_groups, area_line, more_areas, label,
}
use irc_eew.Decoder.Decode.{
  header_re, eq_time_re, nd_re, hypocenter_re, ebi_re, shindo_or_slash, digit_or_slash, try_header,
  try_eq_time, try_nd, try_hypocenter, try_ebi, put_areas, ebi_entry, char_at, decode_line,
}
use irc_eew.Decoder.Telegram.{Telegram, EbiEntry}

pub area_fits : (a : Area) → IsArea a → Fits ebi_re (area_groups a)
area_fits a h = (
  h.area_ok,
  (h.shindo1_ok, (h.shindo2_ok, (h.time_ok, ((refl, (h.warned_ok, (h.arrived_ok, tt))), tt)))),
)

module _ (P : ℕ → Type 0) (digit : (c : ℕ) → digit_or_slash c ≡ true → P c)
    (force : (c : ℕ) → shindo_or_slash c ≡ true → P c)
    (letters : P b' ' × P b'S' × P b'E' × P b'B' × P b'I') where
  ebi_re-Throughout : Throughout P ebi_re
  ebi_re-Throughout = (
    λ c d. digit c (ground arith),
    (
      (letters.0, (letters.1, tt)),
      (
        λ c d. force c (ground arith),
        (force, ((letters.0, tt), (digit, ((letters.0, tt), (λ c d. digit c (ground arith), tt))))),
      ),
    ),
  )

  more_areas-All : (rest : List Area) → All IsArea rest → All P (more_areas rest)
  more_areas-All [] h = tt
  more_areas-All (a ∷ rest) h = (
    letters.0,
    All-append P (spell ebi_re (area_groups a)) (more_areas rest)
        (spell-All P ebi_re (area_groups a) ebi_re-Throughout (area_fits a h.0))
        (more_areas-All rest h.1),
  )

  label-All : (labelled : Bool) → All P (label labelled)
  label-All true = (letters.2, (letters.3, (letters.4, (letters.0, tt))))
  label-All false = tt

  pub area_line-All : (l : AreaLine) → IsAreaLine l → All P (area_line l)
  area_line-All l h = All-append P (label l.labelled) _ (label-All l.labelled) (
      All-append P (spell ebi_re (area_groups l.first)) (more_areas l.more)
        (spell-All P ebi_re (area_groups l.first) ebi_re-Throughout (area_fits l.first h.0))
        (more_areas-All l.more h.1))

area_line-lacks :
    (x : ℕ) (l : AreaLine)
    → IsAreaLine l
    → (x ≡ b'C') ⊎ ((x ≡ b'N') ⊎ (x ≡ b'R'))
    → occurrences x (area_line l) ≡ 0
area_line-lacks x l h e = occurrences_ne x (area_line l) (
    area_line-All (λ c. c ≢ x) (λ c d. ground arith) (λ c d. ground arith)
      (ground arith, ground arith, ground arith, ground arith, ground arith) l h)

untimed :
    (labelled : Bool) (a : Area) (s : Bytes)
    → IsArea a
    → find_at_start (compile eq_time_re) (label labelled ++ (spell ebi_re (area_groups a) ++ s))
      ≡ none
untimed true a s h = find_at_start-short 12 is_digit [] [] b'E' _ (omega arith) refl
untimed false a s h =
    ap (find_at_start (compile eq_time_re)) (append_assoc a.area _ s)
    ∙ find_at_start-short 12 is_digit [] a.area b' ' _ (omega (arith, h.area_ok.0)) refl

all_groups : List Area → List (List Bytes)
all_groups [] = []
all_groups (a ∷ rest) = area_groups a ∷ all_groups rest

spell-ne-nil : (a : Area) → IsArea a → spell ebi_re (area_groups a) ≢ []
spell-ne-nil a h e = absurd (omega (arith, ap length e, length-append a.area _, h.area_ok.0))

find_all-more_areas :
    (rest : List Area)
    → All IsArea rest
    → find_all (compile ebi_re) (more_areas rest) ≡ all_groups rest
unfolding all_groups match_here
find_all-more_areas [] h = find_all-nil (compile ebi_re)
find_all-more_areas (a ∷ rest) h =
    find_all-miss (compile ebi_re) b' ' (spell ebi_re (area_groups a) ++ more_areas rest) refl
    ∙ find_all-spell ebi_re (area_groups a) (more_areas rest) (spell-ne-nil a h.0) (area_fits a h.0)
        tt
    ∙ ap (◌∷◌ (area_groups a)) (find_all-more_areas rest h.1)

find_all-areas :
    (a : Area) (rest : List Area)
    → IsArea a
    → All IsArea rest
    → find_all (compile ebi_re) (spell ebi_re (area_groups a) ++ more_areas rest)
      ≡ all_groups (a ∷ rest)
unfolding all_groups
find_all-areas a rest ha hr =
    find_all-spell ebi_re (area_groups a) (more_areas rest) (spell-ne-nil a ha) (area_fits a ha) tt
    ∙ ap (◌∷◌ (area_groups a)) (find_all-more_areas rest hr)

find_all-label :
    (labelled : Bool) (s : Bytes)
    → find_all (compile ebi_re) (label labelled ++ s) ≡ find_all (compile ebi_re) s
unfolding match_here
find_all-label false s = refl
find_all-label true s =
    find_all-miss (compile ebi_re) b'E' (b'B' ∷ b'I' ∷ b' ' ∷ s) refl
    ∙ find_all-miss (compile ebi_re) b'B' (b'I' ∷ b' ' ∷ s) refl
    ∙ find_all-miss (compile ebi_re) b'I' (b' ' ∷ s) refl
    ∙ find_all-miss (compile ebi_re) b' ' s refl

find_all-area_line :
    (l : AreaLine)
    → IsAreaLine l
    → find_all (compile ebi_re) (area_line l) ≡ all_groups (l.first ∷ l.more)
find_all-area_line l h =
    find_all-label l.labelled (spell ebi_re (area_groups l.first) ++ more_areas l.more)
    ∙ find_all-areas l.first l.more h.0 h.1

put_areas-all_groups :
    (areas : List Area) (m : List (Bytes × EbiEntry))
    → put_areas m (all_groups areas) ≡ put_entries m areas
unfolding put_areas all_groups ebi_entry char_at
put_areas-all_groups [] m = refl
put_areas-all_groups (a ∷ rest) m = put_areas-all_groups rest (put a.area (entry_of a) m)

pub decode_line-area_line :
    (t : Telegram) (l : AreaLine)
    → IsAreaLine l
    → decode_line t (area_line l) ≡ record t { ebi = put_area_line t.ebi l }
unfolding decode_line try_header try_eq_time try_nd try_hypocenter try_ebi all_groups
decode_line-area_line t l h =
    rw
      (
        find-few b'C' header_re (area_line l) (omega (arith, area_line-lacks b'C' l h (inl refl))),
        untimed l.labelled l.first (more_areas l.more) h.0,
        find-few b'N' nd_re (area_line l)
            (omega (arith, area_line-lacks b'N' l h (inr (inl refl)))),
        find-few b'R' hypocenter_re (area_line l)
            (omega (arith, area_line-lacks b'R' l h (inr (inr refl)))),
        find_all-area_line l h,
      )
      (ap (λ areas. record t { ebi = areas }) (put_areas-all_groups (l.first ∷ l.more) t.ebi))
