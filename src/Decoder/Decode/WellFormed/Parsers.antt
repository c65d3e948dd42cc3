-- ===== src/Decoder/Decode/WellFormed/Parsers.antt =====
-- Each line parser keeps the telegram well-formed.
use irc_eew.Base.{
  ℕ, ◌≡◌, inl, inr, ap, ◌≢◌, length-drop, Bool-cases, map-some, subst, length-take_le, All-take,
  All-drop, Option, none, some, List, [], ◌∷◌, arith, length, get_or, leb, take, drop, ltb,
}
use irc_eew.Base.Bytes.{Bytes}
use irc_eew.Base.Decimal.{is_digit}
use irc_eew.Base.Int.{ℤ}
use irc_eew.Base.Regex.Match.{Of}
use irc_eew.Base.Regex.Rows.{Fits, group-Sized, find-Fits, find_at_start-Fits}
use irc_eew.Base.Regex.{compile, find, find_at_start, find_all, group}
use irc_eew.Decoder.Decode.{
  parse_int_or_zero, digit_or_slash, header_re, eq_time_re, nd_re, hypocenter_re, ebi_re,
  set_header, set_eq_time, set_nd, set_hypocenter, try_header, try_eq_time, try_nd, warn_num_of,
  try_hypocenter, try_ebi, ebi_of,
}
use irc_eew.Decoder.Telegram.{Telegram}
use irc_eew.Decoder.Decode.WellFormed.Fields.{Within, widen, field-Within, slash_too, WellFormed}

-- A line parser keeps it.
abbrev pub Keeps : (Telegram → Bytes → Option Telegram) → Type 0
Keeps try_it =
    (t : Telegram) (line : Bytes) (t' : Telegram)
    → WellFormed t
    → try_it t line ≡ some t'
    → WellFormed t'

-- The number and the stamp read from a field.
number :
    (n : ℕ) (s : Bytes)
    → (length s ≡ n) × Of digit_or_slash s
    → Within (widen 0 n) (parse_int_or_zero s)
number n s sized = field-Within n s (rw (sized.0) (omega arith)) sized.1

digits :
    (n : ℕ) (s : Bytes) → (length s ≡ n) × Of is_digit s → Within (widen 0 n) (parse_int_or_zero s)
digits n s sized = number n s (sized.0, slash_too s sized.1)

set_header-WellFormed :
    (t : Telegram) (m : List Bytes) → WellFormed t → Fits header_re m → WellFormed (set_header t m)
set_header-WellFormed t m w f = record {
  msg_type_code = digits 2 (group m 2) (group-Sized header_re m 2 f);
  ncn_type = w.ncn_type;
  warn_num = w.warn_num;
  center_lat = w.center_lat;
  center_lng = w.center_lng;
  center_depth = w.center_depth;
  magnitude = w.magnitude;
  warn_time = inr (group-Sized header_re m 3 f);
  eq_time = w.eq_time;
  eq_id = w.eq_id;
}

pub try_header-Keeps : Keeps try_header
unfolding try_header
try_header-Keeps t line t' w e =
    let (m, found, is) = map-some (set_header t) (find (compile header_re) line) e in
    subst WellFormed is (set_header-WellFormed t m w (find-Fits header_re line found))

set_eq_time-WellFormed :
    (t : Telegram) (m : List Bytes)
    → WellFormed t
    → Fits eq_time_re m
    → WellFormed (set_eq_time t m)
set_eq_time-WellFormed t m w f = record {
  msg_type_code = w.msg_type_code;
  ncn_type = w.ncn_type;
  warn_num = w.warn_num;
  center_lat = w.center_lat;
  center_lng = w.center_lng;
  center_depth = w.center_depth;
  magnitude = w.magnitude;
  warn_time = w.warn_time;
  eq_time = inr (group-Sized eq_time_re m 0 f);
  eq_id = w.eq_id;
}

pub try_eq_time-Keeps : Keeps try_eq_time
unfolding try_eq_time
try_eq_time-Keeps t line t' w e =
    let (m, found, is) = map-some (set_eq_time t) (find_at_start (compile eq_time_re) line) e in
    subst WellFormed is (set_eq_time-WellFormed t m w (find_at_start-Fits eq_time_re line found))

-- One or two digits of a run of digits.
piece-Within :
    (k i : ℕ) (s : Bytes)
    → Of is_digit s
    → Within (widen 0 k) (parse_int_or_zero (take k (drop i s)))
piece-Within k i s h =
    field-Within k (take k (drop i s)) (length-take_le k (drop i s))
      (slash_too (take k (drop i s)) (All-take _ k (drop i s) (All-drop _ i s h)))

warn_num_of-Within :
    (s : Bytes) (old : ℤ) → Of is_digit s → Within 99 old → Within 99 (warn_num_of s old)
warn_num_of-Within s old h w = elim (Bool-cases (leb 3 (length s))) [
  | inl three ↦ rw (three) (piece-Within 2 1 s h)
  | inr short ↦ elim (Bool-cases (ltb 1 (length s))) [
    | inl two ↦
        rw (short, two)
          (field-Within 2 (drop 1 s) (rw (length-drop 1 s) (ground arith))
            (slash_too (drop 1 s) (All-drop _ 1 s h)))
    | inr few ↦ rw (short, few) w
  ]
]

set_nd-WellFormed :
    (t : Telegram) (m : List Bytes) → WellFormed t → Fits nd_re m → WellFormed (set_nd t m)
set_nd-WellFormed t m w f =
    let (long, all) = group-Sized nd_re m 2 f in
    record {
      msg_type_code = w.msg_type_code;
      ncn_type = piece-Within 1 0 (group m 2) all;
      warn_num = warn_num_of-Within (group m 2) t.warn_num all w.warn_num;
      center_lat = w.center_lat;
      center_lng = w.center_lng;
      center_depth = w.center_depth;
      magnitude = w.magnitude;
      warn_time = w.warn_time;
      eq_time = w.eq_time;
      eq_id = inr (group-Sized nd_re m 0 f);
    }

pub try_nd-Keeps : Keeps try_nd
unfolding try_nd
try_nd-Keeps t line t' w e =
    let (m, found, is) = map-some (set_nd t) (find (compile nd_re) line) e in
    subst WellFormed is (set_nd-WellFormed t m w (find-Fits nd_re line found))

set_hypocenter-WellFormed :
    (t : Telegram) (m : List Bytes)
    → WellFormed t
    → Fits hypocenter_re m
    → WellFormed (set_hypocenter t m)
set_hypocenter-WellFormed t m w f = record {
  msg_type_code = w.msg_type_code;
  ncn_type = w.ncn_type;
  warn_num = w.warn_num;
  center_lat = number 3 (group m 1) (group-Sized hypocenter_re m 1 f);
  center_lng = number 4 (group m 2) (group-Sized hypocenter_re m 2 f);
  center_depth = number 3 (group m 3) (group-Sized hypocenter_re m 3 f);
  magnitude = number 2 (group m 4) (group-Sized hypocenter_re m 4 f);
  warn_time = w.warn_time;
  eq_time = w.eq_time;
  eq_id = w.eq_id;
}

pub try_hypocenter-Keeps : Keeps try_hypocenter
unfolding try_hypocenter
try_hypocenter-Keeps t line t' w e =
    let (m, found, is) = map-some (set_hypocenter t) (find (compile hypocenter_re) line) e in
    subst WellFormed is (set_hypocenter-WellFormed t m w (find-Fits hypocenter_re line found))

none_is_not_some : (t : Telegram) → none ≢ some t
none_is_not_some t e = absurd (cc)

pub try_ebi-Keeps : Keeps try_ebi
unfolding try_ebi
try_ebi-Keeps t line t' w = by_found (find_all (compile ebi_re) line)
  where
    by_found : (ms : List (List Bytes)) → ebi_of t ms ≡ some t' → WellFormed t'
    by_found [] e = elim (none_is_not_some t' e) [ ]
    by_found (m ∷ ms) e = subst WellFormed (ap (λ o. get_or o t) e) (record {
      msg_type_code = w.msg_type_code;
      ncn_type = w.ncn_type;
      warn_num = w.warn_num;
      center_lat = w.center_lat;
      center_lng = w.center_lng;
      center_depth = w.center_depth;
      magnitude = w.magnitude;
      warn_time = w.warn_time;
      eq_time = w.eq_time;
      eq_id = w.eq_id;
    })
