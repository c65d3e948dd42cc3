-- ===== src/Decoder/Telegram.antt =====
-- internal/decoder/decoder.go: the decoded telegram. The source's `float64` fields are n / 10 for
-- an integer n; here they hold that n, in tenths.
use irc_eew.Base.{Bool, List, []}
use irc_eew.Base.Bytes.{Bytes}
use irc_eew.Base.Int.{ℤ, pos, is_positive, is_nat}

-- One area's forecast.
pub record EbiEntry : Type 0 where
  pub name : Bytes
  pub shindo1 : Bytes
  pub shindo1_code : Bytes
  pub shindo2 : Bytes
  pub shindo2_code : Bytes
  pub time : Bytes
  pub is_warnded : Bytes
  pub is_warnded_code : Bytes
  pub arrive : Bytes
  pub arrive_code : Bytes

pub record Telegram : Type 0 where
  pub code_type : Bytes
  pub code : Bytes
  pub section : Bytes
  pub section_code : Bytes
  pub msg_type : Bytes
  pub msg_type_code : ℤ
  pub warn_time : Bytes
  pub command_code : Bytes
  pub eq_time : Bytes
  pub eq_id : Bytes
  pub warn_type : Bytes
  pub warn_code : Bytes
  pub ncn_type : ℤ
  pub warn_num : ℤ
  pub center_code : Bytes
  pub center_name : Bytes
  -- tenths
  pub center_lat : ℤ
  -- tenths
  pub center_lng : ℤ
  pub center_depth : ℤ
  -- tenths
  pub magnitude : ℤ
  pub shindo : Bytes
  pub shindo_code : Bytes
  pub center_accurate_code : Bytes
  pub center_accurate : Bytes
  pub depth_accurate_code : Bytes
  pub depth_accurate : Bytes
  pub magnitude_accurate_code : Bytes
  pub magnitude_accurate : Bytes
  pub is_sea_code : Bytes
  pub is_sea : Bytes
  pub is_warnded : Bytes
  pub ebi : List (Bytes × EbiEntry)

-- `&Telegram{}`
abbrev pub empty_telegram : Telegram
empty_telegram = record {
  code_type = [];
  code = [];
  section = [];
  section_code = [];
  msg_type = [];
  msg_type_code = pos 0;
  warn_time = [];
  command_code = [];
  eq_time = [];
  eq_id = [];
  warn_type = [];
  warn_code = [];
  ncn_type = pos 0;
  warn_num = pos 0;
  center_code = [];
  center_name = [];
  center_lat = pos 0;
  center_lng = pos 0;
  center_depth = pos 0;
  magnitude = pos 0;
  shindo = [];
  shindo_code = [];
  center_accurate_code = [];
  center_accurate = [];
  depth_accurate_code = [];
  depth_accurate = [];
  magnitude_accurate_code = [];
  magnitude_accurate = [];
  is_sea_code = [];
  is_sea = [];
  is_warnded = [];
  ebi = [];
}

-- `IsFinal`: `NCNType > 0`.
unfoldable pub is_final : Telegram → Bool
is_final t = is_positive t.ncn_type

-- `IsCancellation`: `MsgTypeCode == 10`.
unfoldable pub is_cancellation : Telegram → Bool
is_cancellation t = is_nat t.msg_type_code 10
