-- ===== src/Decoder/Decode/Sheet/Sample.antt =====
-- The report of testdata/2011_final_report.txt, with two of its lines of areas, and the retraction of
-- testdata/2011_cancellation.txt.
use mathlib.Core.List.{cons-ne-nil}
use irc_eew.Base.Trim.{has_infix, has_prefix}
use irc_eew.Base.{All, ℕ, ◌<◌, refl, true, false, some, none, List, [], ◌∷◌, arith}
use irc_eew.Base.Bytes.{Bytes, codes}
use irc_eew.Decoder.Decode.Sheet.{
  Area, AreaLine, Sheet, IsSheet, Hypocenter, IsHypocenter, IsPreamble,
}

abbrev area_of : Bytes → Bytes → Bytes → Area
area_of code shindo1 shindo2 = record {
  area = code;
  shindo1 = shindo1;
  shindo2 = shindo2;
  time = codes "//////";
  warned = b'0';
  arrived = b'1';
}

abbrev area_lines_2011 : List AreaLine
area_lines_2011 =
    record {
      labelled = true;
      first = area_of (codes "220") (codes "6+") (codes "6-");
      more = area_of (codes "222") (codes "6+") (codes "5+") ∷ [];
    }
    ∷ record {
      labelled = false;
      first = area_of (codes "251") (codes "5-") (codes "04");
      more = [];
    }
    ∷ []

-- The name of the service, in Shift JIS.
abbrev service : Bytes
service = 197 ∷ 179 ∷ 183 ∷ 212 ∷ 189 ∷ 196 ∷ 51 ∷ 32 ∷ 183 ∷ 188 ∷ 214 ∷ 179 ∷ []

-- The lines before the header; the number of the relay's message is in the second one.
abbrev preamble_of : Bytes → List Bytes
preamble_of number = (1 ∷ []) ∷ number ∷ [] ∷ service ∷ (2 ∷ []) ∷ (2 ∷ []) ∷ []

abbrev center_2011 : Hypocenter
center_2011 = record {
  center = codes "220";
  lat = some 385;
  lng = some 1408;
  depth = some 10;
  magnitude = some 67;
  shindo = codes "6+";
  accuracy = (b'4', b'4', b'5');
  accuracy_more = codes "54";
  place = (b'0', b'0');
  place_more = codes "///";
  changes = codes "0////";
}

abbrev pub sheet_2011 : Sheet
sheet_2011 = record {
  preamble = preamble_of (codes "TKCC 62495  ADTK 11192614");
  code = codes "37";
  section = codes "03";
  msg_type = 0;
  warn_time = codes "110312042614";
  command = codes "11";
  eq_time = codes "110312042348";
  id = codes "20110312042346";
  kind = codes "NCN";
  revision = 9;
  number = 81;
  beside = codes " JD////////////// JN///";
  hypocenter = some center_2011;
  areas = area_lines_2011;
  trailer = 3 ∷ [];
}

-- A line of one control character.
control-IsPreamble : (c : ℕ) → c < 10 → IsPreamble (c ∷ [])
unfolding has_infix has_prefix
control-IsPreamble c h = record {
  in_line = ground arith;
  no_time = ground arith;
  no_header = ground arith;
  no_report = ground arith;
  no_hypocenter = ground arith;
  no_area = ground arith;
}

empty-IsPreamble : IsPreamble []
unfolding has_infix
empty-IsPreamble = record {
  in_line = ground arith;
  no_time = tt;
  no_header = refl;
  no_report = refl;
  no_hypocenter = refl;
  no_area = refl;
}

service-IsPreamble : IsPreamble service
unfolding has_infix has_prefix
service-IsPreamble = record {
  in_line = ground arith;
  no_time = refl;
  no_header = refl;
  no_report = refl;
  no_hypocenter = refl;
  no_area = refl;
}

preamble_of-IsPreamble : (number : Bytes) → IsPreamble number → All IsPreamble (preamble_of number)
preamble_of-IsPreamble number h = (
  control-IsPreamble 1 (omega arith),
  (
    h,
    (
      empty-IsPreamble,
      (
        service-IsPreamble,
        (control-IsPreamble 2 (omega arith), (control-IsPreamble 2 (omega arith), tt)),
      ),
    ),
  ),
)

number_2011-IsPreamble : IsPreamble (codes "TKCC 62495  ADTK 11192614")
unfolding has_infix has_prefix
number_2011-IsPreamble = record {
  in_line = ground arith;
  no_time = refl;
  no_header = refl;
  no_report = refl;
  no_hypocenter = refl;
  no_area = refl;
}

center_2011-IsHypocenter : IsHypocenter center_2011
center_2011-IsHypocenter = record {
  center_ok = (refl, ground arith);
  lat_ok = omega arith;
  lng_ok = omega arith;
  depth_ok = omega arith;
  magnitude_ok = omega arith;
  shindo_ok = (refl, ground arith);
  accuracy_ok = (refl, refl, refl);
  accuracy_more_ok = (refl, ground arith);
  place_ok = (refl, refl);
  place_more_ok = (refl, ground arith);
  changes_ok = (refl, ground arith);
}

pub sheet_2011-IsSheet : IsSheet sheet_2011
sheet_2011-IsSheet = record {
  preamble_ok = preamble_of-IsPreamble (codes "TKCC 62495  ADTK 11192614") number_2011-IsPreamble;
  code_ok = (refl, ground arith);
  section_ok = (refl, ground arith);
  msg_type_ok = omega arith;
  warn_time_ok = (refl, ground arith);
  command_ok = (refl, ground arith);
  eq_time_ok = (refl, ground arith);
  id_ok = (refl, ground arith);
  kind_ok = (cons-ne-nil _ _, ground arith);
  revision_ok = omega arith;
  number_ok = omega arith;
  beside_free = refl;
  beside_blanks = omega arith;
  beside_in_line = ground arith;
  hypocenter_ok = center_2011-IsHypocenter;
  areas_ok = (
    (
      record {
        area_ok = (refl, ground arith);
        shindo1_ok = (refl, ground arith);
        shindo2_ok = (refl, ground arith);
        time_ok = (refl, ground arith);
        warned_ok = refl;
        arrived_ok = refl;
      },
      (
        record {
          area_ok = (refl, ground arith);
          shindo1_ok = (refl, ground arith);
          shindo2_ok = (refl, ground arith);
          time_ok = (refl, ground arith);
          warned_ok = refl;
          arrived_ok = refl;
        },
        tt,
      ),
    ),
    (
      (
        record {
          area_ok = (refl, ground arith);
          shindo1_ok = (refl, ground arith);
          shindo2_ok = (refl, ground arith);
          time_ok = (refl, ground arith);
          warned_ok = refl;
          arrived_ok = refl;
        },
        tt,
      ),
      tt,
    ),
  );
  trailer_ok = control-IsPreamble 3 (omega arith);
}

-- The retraction of testdata/2011_cancellation.txt.
abbrev pub retraction_2011 : Sheet
retraction_2011 = record {
  preamble = preamble_of (codes "TKCC 86242  ADTK 12044753");
  code = codes "39";
  section = codes "03";
  msg_type = 10;
  warn_time = codes "110312134752";
  command = codes "11";
  eq_time = codes "110312134702";
  id = codes "20110312134730";
  kind = codes "NCN";
  revision = 0;
  number = 3;
  beside = codes " JD////////////// JN///";
  hypocenter = none;
  areas = [];
  trailer = 3 ∷ [];
}

number_retracted-IsPreamble : IsPreamble (codes "TKCC 86242  ADTK 12044753")
unfolding has_infix has_prefix
number_retracted-IsPreamble = record {
  in_line = ground arith;
  no_time = refl;
  no_header = refl;
  no_report = refl;
  no_hypocenter = refl;
  no_area = refl;
}

pub retraction_2011-IsSheet : IsSheet retraction_2011
retraction_2011-IsSheet = record {
  preamble_ok =
      preamble_of-IsPreamble (codes "TKCC 86242  ADTK 12044753") number_retracted-IsPreamble;
  code_ok = (refl, ground arith);
  section_ok = (refl, ground arith);
  msg_type_ok = omega arith;
  warn_time_ok = (refl, ground arith);
  command_ok = (refl, ground arith);
  eq_time_ok = (refl, ground arith);
  id_ok = (refl, ground arith);
  kind_ok = (cons-ne-nil _ _, ground arith);
  revision_ok = omega arith;
  number_ok = omega arith;
  beside_free = refl;
  beside_blanks = omega arith;
  beside_in_line = ground arith;
  hypocenter_ok = tt;
  areas_ok = tt;
  trailer_ok = control-IsPreamble 3 (omega arith);
}
