-- ===== src/Message/Tests.antt =====
-- The text of one telegram.
use irc_eew.Base.{◌≡◌, refl, arith}
use irc_eew.Base.Bytes.{codes, utf8}
use irc_eew.Base.Decimal.{dec, show}
use irc_eew.Base.Int.{pos}
use irc_eew.Decoder.Telegram.{Telegram, empty_telegram, is_final, is_cancellation}
use irc_eew.Message.Plain.{irc_text, strip_links-format_text}
use irc_eew.Message.{format_text, strip_links}

abbrev report : Telegram
report = record empty_telegram {
  warn_time = codes "110312042614";
  eq_time = codes "110312042348";
  warn_num = pos 81;
  ncn_type = pos 9;
  center_lat = pos 385;
  center_lng = pos 1408;
  center_depth = pos 10;
  magnitude = pos 67;
  shindo = codes "6+";
}

strip_links-format_text_example : strip_links (format_text report) ≡ irc_text report
strip_links-format_text_example =
    strip_links-format_text report (omega arith) (omega arith) tt (omega arith)

report_text :
    format_text report
    ≡ utf8
        "2011/03/12 04:26:14 第81報(最終) (2011/03/12 04:23:48発生)震央:<http://maps.google.com/maps?q=38.5,140.8|N38.5/E140.8>()深さ10km 最大:M6.7 震度6+"
unfolding format_text utf8 show dec is_final is_cancellation
report_text = refl
