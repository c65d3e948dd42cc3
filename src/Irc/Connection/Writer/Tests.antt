-- ===== src/Irc/Connection/Writer/Tests.antt =====
-- The writer on small inputs.
use irc_eew.Base.{◌≡◌, refl, Option, none, [], ◌∷◌, length}
use irc_eew.Base.Bytes.{Bytes, codes}
use irc_eew.Decoder.Telegram.{Telegram, empty_telegram}
use irc_eew.Irc.Connection.Writer.Drain.{passes, Drained, passes-Drained}
use irc_eew.Irc.Connection.Writer.Invariant.{WellFormed, Steps-WellFormed}
use irc_eew.Irc.Connection.Writer.Safety.{disconnected_silent}
use irc_eew.Irc.Connection.Writer.{
  waiting, Link, new_link, on_connected, write, on_disconnected, connects, disconnects, notifies,
  writes, here, next,
}
use irc_eew.Irc.Connection.{notice, new_connection, notify}
use irc_eew.Irc.Queue.Invariant.{new_queue-Inv}
use irc_eew.Irc.Queue.Preserve.{enqueue-Inv}
use irc_eew.Irc.Queue.{Notice, normal, new_queue, enqueue, pending}

abbrev no_encoder : Bytes → Option Bytes
no_encoder s = none

abbrev utf_8 : Bytes
utf_8 = codes "utf-8"

abbrev report : Telegram
report = record empty_telegram { eq_id = codes "20110311144616" }

-- The writer waits for the first CONNECTED.
abbrev waits_first : Link
waits_first = record (new_link (codes "#a" ∷ []) []) { phase = waiting 0 }

-- The link is lost before that, and comes up then.
abbrev reconnected : Link
reconnected = on_connected no_encoder utf_8 notice (on_disconnected waits_first)

abbrev lost_report : Link
lost_report =
    write no_encoder utf_8 notice
      (record reconnected { conn = notify reconnected.conn report (codes "text") })

disconnected_silent_example : lost_report.sent ≡ waits_first.sent
unfolding on_disconnected
disconnected_silent_example =
    disconnected_silent no_encoder utf_8 notice waits_first lost_report refl refl
      (next (next (next here (connects refl)) (notifies report (codes "text"))) writes)

Steps-WellFormed_example : WellFormed lost_report
unfolding on_disconnected write
Steps-WellFormed_example = Steps-WellFormed no_encoder utf_8 notice (codes "#a" ∷ []) [] (
    next
      (next (next (next (next here writes) disconnects) (connects refl))
        (notifies report (codes "text")))
      writes)

abbrev text_notice : Notice
text_notice = record {
  eq_id = codes "20110311144616";
  channels = codes "#a" ∷ [];
  text = codes "text";
  priority = normal;
}

-- A link that is up and has a notice.
abbrev ready_link : Link
ready_link = record (new_link (codes "#a" ∷ []) []) {
  conn = record (new_connection (codes "#a" ∷ []) []) {
    queue = enqueue (new_queue 32) text_notice;
  };
  closed = 0 ∷ [];
}

passes-Drained_example :
    Drained no_encoder utf_8 notice ready_link.sent
      (pending ready_link.conn.queue)
      (passes no_encoder utf_8 notice (length (pending ready_link.conn.queue)) ready_link)
passes-Drained_example = passes-Drained no_encoder utf_8 notice ready_link (record {
  at_head = refl;
  ready = refl;
  valid = enqueue-Inv (new_queue 32) text_notice (new_queue-Inv 32);
})
