-- ===== src/Viewer/Summary.antt =====
-- internal/eewview/summary.go: the summaries of a telegram. A float is held in tenths.
use irc_eew.Base.{Bool, [], ◌∷◌, ◌++◌, ltb, if◌then◌else◌, length}
use irc_eew.Base.Bytes.{Bytes, codes, utf8}
use irc_eew.Base.Decimal.{show}
use irc_eew.Base.Int.{ℤ, pos, negsuc, at_least}
use irc_eew.Decoder.Telegram.{Telegram, is_cancellation}
use irc_eew.Message.{split_pairs, at, stamp, show_tenths}

-- `timeOnly`
pub time_only : Bytes → Bytes
time_only raw =
    let p = split_pairs raw in at p 3 ++ (codes ":" ++ (at p 4 ++ (codes ":" ++ at p 5)))

-- `fullDateTime`, which is what `eewmsg.Format` prints of a time.
abbrev pub full_date_time : Bytes → Bytes
full_date_time raw = stamp raw

-- `isFinalForViewer`
unfoldable pub is_final_for_viewer : Telegram → Bool
is_final_for_viewer t = at_least 8 t.ncn_type

-- `%02d`
pub show_2 : ℤ → Bytes
show_2 (pos n) = if ltb n 10 then b'0' ∷ show (pos n) else show (pos n)
show_2 (negsuc n) = show (negsuc n)

pub center : Telegram → Bytes
center t =
    utf8 "震央:N"
    ++ (show_tenths t.center_lat
        ++ (codes "/E"
            ++ (show_tenths t.center_lng
                ++ (codes "("
                    ++ (t.center_name ++ (utf8 ")深さ" ++ (show t.center_depth ++ codes "km")))))))

pub magnitude : Telegram → Bytes
magnitude t = utf8 " 最大:M" ++ (show_tenths t.magnitude ++ (utf8 " 震度" ++ t.shindo))

-- U+3000, four times.
abbrev ideographic_spaces : Bytes
ideographic_spaces =
    0xE3 ∷ 0x80 ∷ 0x80 ∷ 0xE3 ∷ 0x80 ∷ 0x80 ∷ 0xE3 ∷ 0x80 ∷ 0x80 ∷ 0xE3 ∷ 0x80 ∷ 0x80 ∷ []

-- The report number in the list.
pub list_times : Telegram → Bytes
unfolding show_2
list_times t =
    utf8 "第"
    ++ (show_2 t.warn_num
        ++ (utf8 "報" ++ (if is_final_for_viewer t then utf8 "(最終)" else ideographic_spaces)))

-- `ListSummaryText`
unfoldable pub list_summary_text : Telegram → Bytes
unfolding time_only center magnitude list_times
list_summary_text t =
    let head =
      time_only t.warn_time
      ++ (list_times t ++ (codes " (" ++ (time_only t.eq_time ++ utf8 "発生)"))) in
    let msg =
      if is_cancellation t then head ++ utf8 " 取り消し" else head ++ (center t ++ magnitude t) in
    if ltb 0 (length t.ebi) then msg ++ utf8 " (地域予想震度情報あり)" else msg

-- `DetailSummaryText`
unfoldable pub detail_summary_text : Telegram → Bytes
unfolding center magnitude
detail_summary_text t =
    let times =
      utf8 " 第"
      ++ (show t.warn_num ++ (utf8 "報" ++ (if is_final_for_viewer t then utf8 "(最終)" else []))) in
    let head =
      full_date_time t.warn_time
      ++ (times ++ (codes " (" ++ (full_date_time t.eq_time ++ utf8 "発生)"))) in
    if is_cancellation t then head ++ utf8 " 取り消し" else head ++ (center t ++ magnitude t)
