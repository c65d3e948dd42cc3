-- ===== src/Decoder/Decode/Sheet/Center.antt =====
-- The line of the hypocenter.
use irc_eew.Base.{
  ℕ, suc, ◌≤◌, ◌≡◌, ◌≢◌, refl, ◌∙◌, inl, inr, true, false, Option, none, some, [], ◌∷◌, ◌++◌, arith,
  length, All, All-map, get_or,
}
use irc_eew.Decoder.Decode.Sheet.Steps.{hypocenter_fits}
use irc_eew.Base.Bytes.{Bytes, codes}
use irc_eew.Base.Decimal.{is_digit}
use irc_eew.Base.Int.{pos}
use irc_eew.Base.Regex.Match.{Of}
use irc_eew.Base.Regex.Missing.{
  occurrences, occurrences_ne, find-few, find-missing, find_at_start-short, has_infix-skip,
}
use irc_eew.Base.Regex.{find, find_at_start, find_all, match_here}
use irc_eew.Base.Regex.Rows.{spell, find-row, spell-All, Throughout}
use irc_eew.Base.Trim.{has_infix, has_prefix}
use irc_eew.Decoder.Decode.Sheet.Numbers.{parse_int_or_zero-field, length-field, field-Of}
use irc_eew.Decoder.Decode.Sheet.Record.{with_hypocenter}
use irc_eew.Decoder.Decode.Sheet.{
  Hypocenter, IsHypocenter, IsHypocenterOrNone, hypocenter_groups, hypocenter_line, field,
}
use irc_eew.Decoder.Decode.{
  header_re, nd_re, hypocenter_re, digit_or_slash, try_header, try_eq_time, try_nd, try_hypocenter,
  shindo_or_slash, decode_line, look_up, char_at, try_ebi,
}
use irc_eew.Decoder.Tables
use irc_eew.Decoder.Telegram.{Telegram}

has_prefix-ne :
    (c : ℕ) (g s t : Bytes)
    → 1 ≤ length g
    → All (λ x. x ≢ c) g
    → has_prefix (g ++ s) (c ∷ t) ≡ false
unfolding has_prefix
has_prefix-ne c [] s t l h = absurd (omega arith)
has_prefix-ne c (x ∷ g) s t l h = ground arith

-- Of a group and the text of the line behind it.
no_header-group :
    (g s : Bytes) → Of digit_or_slash g → has_infix (g ++ s) (codes " C") ≡ has_infix s (codes " C")
no_header-group g s h = has_infix-skip b' ' g s (codes "C") (All-map (λ c d. ground arith) g h)

no_c :
    (n : ℕ) (g s : Bytes)
    → length g ≡ suc n
    → All (λ c. c ≢ b'C') g
    → has_prefix (g ++ s) (codes "C") ≡ false
no_c n g s l h = has_prefix-ne b'C' g s [] (omega arith) h

hypocenter-no_header :
    (s : Hypocenter)
    → IsHypocenter s
    → has_infix (spell hypocenter_re (hypocenter_groups s)) (codes " C") ≡ false
unfolding has_infix has_prefix
hypocenter-no_header s h =
    let f = hypocenter_fits s h in
    rw
      (
        no_header-group s.center _ h.center_ok.1,
        no_header-group (field 3 s.lat) _ (field-Of 3 s.lat),
        no_header-group (field 4 s.lng) _ (field-Of 4 s.lng),
        no_c 2 (field 3 s.depth) _ (length-field 3 s.depth)
            (All-map (λ c d. ground arith) _ (field-Of 3 s.depth)),
        no_header-group (field 3 s.depth) _ (field-Of 3 s.depth),
        no_c 1 (field 2 s.magnitude) _ (length-field 2 s.magnitude)
            (All-map (λ c d. ground arith) _ (field-Of 2 s.magnitude)),
        no_header-group (field 2 s.magnitude) _ (field-Of 2 s.magnitude),
        no_c 1 s.shindo _ h.shindo_ok.0 (All-map (λ c d. ground arith) s.shindo h.shindo_ok.1),
        has_infix-skip b' ' s.shindo _ (codes "C")
            (All-map (λ c d. ground arith) s.shindo h.shindo_ok.1),
      )
      (no_header-group (s.accuracy.0 ∷ s.accuracy.1 ∷ s.accuracy.2 ∷ s.accuracy_more) _
          f.1.1.1.1.1.1.0.1
        ∙ no_header-group (s.place.0 ∷ s.place.1 ∷ s.place_more) _ f.1.1.1.1.1.1.1.0.1
        ∙ no_header-group s.changes [] h.changes_ok.1)

-- A predicate of all bytes of the row's texts and classes.
pub hypocenter_re-Throughout :
    (P : ℕ → Type 0)
    → ((c : ℕ) → digit_or_slash c ≡ true → P c)
    → ((c : ℕ) → shindo_or_slash c ≡ true → P c)
    → P b' ' × P b'N' × P b'E' × P b'R' × P b'K' × P b'T' × P b'C'
    → Throughout P hypocenter_re
hypocenter_re-Throughout P d x (blank, n, e, r, k, t, c) = (
  d,
  (
    (blank, (n, tt)),
    (
      d,
      (
        (blank, (e, tt)),
        (
          d,
          (
            (blank, tt),
            (
              d,
              (
                (blank, tt),
                (
                  d,
                  (
                    (blank, tt),
                    (
                      x,
                      (
                        (blank, (r, (k, tt))),
                        (d, ((blank, (r, (t, tt))), (d, ((blank, (r, (c, tt))), (d, tt))))),
                      ),
                    ),
                  ),
                ),
              ),
            ),
          ),
        ),
      ),
    ),
  ),
)

hypocenter-no_d :
    (s : Hypocenter)
    → IsHypocenter s
    → occurrences b'D' (spell hypocenter_re (hypocenter_groups s)) ≡ 0
hypocenter-no_d s h = occurrences_ne b'D' (spell hypocenter_re (hypocenter_groups s)) (
    spell-All (λ c. c ≢ b'D') hypocenter_re (hypocenter_groups s)
      (hypocenter_re-Throughout (λ c. c ≢ b'D') (λ c d. ground arith) (λ c d. ground arith)
        (omega arith, omega arith, omega arith, omega arith, omega arith, omega arith, omega arith))
      (hypocenter_fits s h))

decode_line-hypocenter :
    (t : Telegram) (s : Hypocenter)
    → IsHypocenter s
    → decode_line t (spell hypocenter_re (hypocenter_groups s)) ≡ record t {
      center_code = s.center;
      center_name = look_up Tables.epicenter_code s.center;
      center_lat = pos (get_or s.lat 0);
      center_lng = pos (get_or s.lng 0);
      center_depth = pos (get_or s.depth 0);
      magnitude = pos (get_or s.magnitude 0);
      shindo_code = s.shindo;
      shindo = look_up Tables.shindo s.shindo;
      center_accurate_code = s.accuracy.0 ∷ [];
      center_accurate = look_up Tables.rk1 (s.accuracy.0 ∷ []);
      depth_accurate_code = s.accuracy.1 ∷ [];
      depth_accurate = look_up Tables.rk2 (s.accuracy.1 ∷ []);
      magnitude_accurate_code = s.accuracy.2 ∷ [];
      magnitude_accurate = look_up Tables.rk3 (s.accuracy.2 ∷ []);
      is_sea_code = s.place.0 ∷ [];
      is_sea = look_up Tables.rt1 (s.place.0 ∷ []);
      is_warnded = s.place.1 ∷ [];
    }
unfolding decode_line try_header try_eq_time try_nd try_hypocenter char_at
decode_line-hypocenter t s h =
    rw
      (
        find-missing (codes " C") header_re (spell hypocenter_re (hypocenter_groups s))
            (inr (inr (inr (inl refl)))) (hypocenter-no_header s h),
        find_at_start-short 12 is_digit [] s.center b' ' _ (omega (arith, h.center_ok.0)) refl,
        find-few b'D' nd_re (spell hypocenter_re (hypocenter_groups s))
            (omega (arith, hypocenter-no_d s h)),
        (find-row hypocenter_re (hypocenter_groups s) (hypocenter_fits s h) tt).0,
        parse_int_or_zero-field 2 s.lat h.lat_ok (omega arith),
        parse_int_or_zero-field 3 s.lng h.lng_ok (omega arith),
        parse_int_or_zero-field 2 s.depth h.depth_ok (omega arith),
        parse_int_or_zero-field 1 s.magnitude h.magnitude_ok (omega arith),
      )
      refl

decode_line-struck_out : (t : Telegram) → decode_line t (hypocenter_line none) ≡ t
unfolding decode_line try_header try_eq_time try_nd try_hypocenter try_ebi find find_at_start
    find_all match_here
decode_line-struck_out t = refl

pub decode_line-hypocenter_line :
    (t : Telegram) (o : Option Hypocenter)
    → IsHypocenterOrNone o
    → decode_line t (hypocenter_line o) ≡ with_hypocenter o t
decode_line-hypocenter_line t none h = decode_line-struck_out t
decode_line-hypocenter_line t (some s) h = decode_line-hypocenter t s h
