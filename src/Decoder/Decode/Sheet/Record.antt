-- ===== src/Decoder/Decode/Sheet/Record.antt =====
-- The record that stands for a telegram that is written.
use irc_eew.Base.{Option, none, some, List, [], ◌∷◌, get_or}
use irc_eew.Base.Bytes.{Bytes}
use irc_eew.Base.Decimal.Padded.{padded}
use irc_eew.Base.Dict.{put}
use irc_eew.Base.Int.{pos}
use irc_eew.Decoder.Decode.{look_up}
use irc_eew.Decoder.Tables
use irc_eew.Decoder.Telegram.{Telegram, EbiEntry, empty_telegram}
use irc_eew.Decoder.Decode.Sheet.{Area, AreaLine, Hypocenter, Sheet}

abbrev pub entry_of : Area → EbiEntry
entry_of a = record {
  name = look_up Tables.area_code a.area;
  shindo1_code = a.shindo1;
  shindo1 = look_up Tables.shindo a.shindo1;
  shindo2_code = a.shindo2;
  shindo2 = look_up Tables.shindo a.shindo2;
  time = a.time;
  is_warnded_code = a.warned ∷ [];
  is_warnded = look_up Tables.ebiy1 (a.warned ∷ []);
  arrive_code = a.arrived ∷ [];
  arrive = look_up Tables.ebiy2 (a.arrived ∷ []);
}

abbrev pub put_entries : List (Bytes × EbiEntry) → List Area → List (Bytes × EbiEntry)
put_entries m [] = m
put_entries m (a ∷ rest) = put_entries (put a.area (entry_of a) m) rest

abbrev pub put_area_line : List (Bytes × EbiEntry) → AreaLine → List (Bytes × EbiEntry)
put_area_line m l = put_entries m (l.first ∷ l.more)

abbrev pub put_lines : List (Bytes × EbiEntry) → List AreaLine → List (Bytes × EbiEntry)
put_lines m [] = m
put_lines m (l ∷ ls) = put_lines (put_area_line m l) ls

abbrev pub with_hypocenter : Option Hypocenter → Telegram → Telegram
with_hypocenter none t = t
with_hypocenter (some s) t = record t {
  center_code = s.center;
  center_name = look_up Tables.epicenter_code s.center;
  center_lat = pos (get_or s.lat 0);
  center_lng = pos (get_or s.lng 0);
  center_depth = pos (get_or s.depth 0);
  magnitude = pos (get_or s.magnitude 0);
  shindo_code = s.shindo;
  shindo = look_up Tables.shindo s.shindo;
  center_accurate_code = s.accuracy.0 ∷ [];
  center_accurate = look_up Tables.rk1 (s.accuracy.0 ∷ []);
  depth_accurate_code = s.accuracy.1 ∷ [];
  depth_accurate = look_up Tables.rk2 (s.accuracy.1 ∷ []);
  magnitude_accurate_code = s.accuracy.2 ∷ [];
  magnitude_accurate = look_up Tables.rk3 (s.accuracy.2 ∷ []);
  is_sea_code = s.place.0 ∷ [];
  is_sea = look_up Tables.rt1 (s.place.0 ∷ []);
  is_warnded = s.place.1 ∷ [];
}

-- What the other lines say.
abbrev pub reported : Sheet → Telegram
reported s = record empty_telegram {
  code = s.code;
  code_type = look_up Tables.code_type s.code;
  section_code = s.section;
  section = look_up Tables.section s.section;
  msg_type_code = pos s.msg_type;
  msg_type = look_up Tables.msg_type (padded 2 s.msg_type);
  warn_time = s.warn_time;
  command_code = s.command;
  eq_time = s.eq_time;
  eq_id = s.id;
  warn_code = s.kind;
  warn_type = look_up Tables.warn_type s.kind;
  ncn_type = pos s.revision;
  warn_num = pos s.number;
  ebi = put_lines [] s.areas;
}

-- The telegram that is written; a row of slashes stands for 0 in a number, and a hypocenter that is
-- struck out leaves all its fields as they are in an empty telegram.
abbrev pub telegram_of : Sheet → Telegram
telegram_of s = with_hypocenter s.hypocenter (reported s)
