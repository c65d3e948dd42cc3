-- ===== src/App/Written.antt =====
-- internal/app/app.go: what `Process` makes of a telegram that the relay has written.
mod Tests
use irc_eew.App.{Processor, process}
use irc_eew.Archive.{Files}
use irc_eew.Base.{
  ℕ, ◌/◌, ◌%◌, ◌≡◌, refl, ◌∙◌, ap, Option, none, some, [], ◌∷◌, ◌++◌, ltb, ◌==◌, get_or,
  if◌then◌else◌,
}
use irc_eew.Base.Bytes.{Bytes, codes, utf8}
use irc_eew.Base.Decimal.{dec, show}
use irc_eew.Base.Decimal.Padded.{padded}
use irc_eew.Base.Int.{ℤ}
use irc_eew.Decoder.Decode.Sheet.RoundTrip.{decode-text_of}
use irc_eew.Decoder.Decode.Sheet.Record.{with_hypocenter, reported, telegram_of}
use irc_eew.Decoder.Decode.Sheet.{Sheet, Hypocenter, IsSheet, text_of}
use irc_eew.Decoder.Decode.{look_up}
use irc_eew.Decoder.Tables
use irc_eew.Decoder.Telegram.{Telegram, is_final, is_cancellation}
use irc_eew.Message.{
  format_text, format_title, titled, stamp, split_pairs, opening, closing, report, map_uri, place,
  show_tenths,
}

-- A time of this century.
pub record Moment : Type 0 where
  pub year : ℕ
  pub month : ℕ
  pub day : ℕ
  pub hour : ℕ
  pub minute : ℕ
  pub second : ℕ

-- The twelve digits of a telegram.
abbrev pub twelve_digits : Moment → Bytes
twelve_digits m =
    padded 2 m.year
    ++ (padded 2 m.month
        ++ (padded 2 m.day ++ (padded 2 m.hour ++ (padded 2 m.minute ++ padded 2 m.second))))

-- The time as the message has it.
abbrev pub spoken : Moment → Bytes
spoken m =
    codes "20"
    ++ (padded 2 m.year
        ++ (codes "/"
            ++ (padded 2 m.month
                ++ (codes "/"
                    ++ (padded 2 m.day
                        ++ (codes " "
                            ++ (padded 2 m.hour
                                ++ (codes ":"
                                    ++ (padded 2 m.minute
                                        ++ (codes ":" ++ padded 2 m.second))))))))))

abbrev tenths : ℕ → Bytes
tenths n = dec (n / 10) ++ (codes "." ++ dec (n % 10))

-- The times and the number of the report; a revision digit that is not 0 marks the final one.
abbrev heading : Moment → Moment → Sheet → Bytes
heading warned shaken s =
    spoken warned
    ++ ((utf8 " 第"
          ++ (dec s.number ++ (utf8 "報" ++ (if ltb 0 s.revision then utf8 "(最終)" else []))))
        ++ (codes " (" ++ spoken shaken))

-- The link to the map, and its label, before the rest of the message.
abbrev link : ℕ → ℕ → Bytes → Bytes
link lat lng rest =
    b'<'
    ∷ ((codes "http://maps.google.com/maps?q=" ++ (tenths lat ++ (codes "," ++ tenths lng)))
        ++ (b'|' ∷ ((codes "N" ++ (tenths lat ++ (codes "/E" ++ tenths lng))) ++ (b'>' ∷ rest))))

-- The place, the depth, the magnitude and the force.
abbrev quake : Bytes → ℕ → ℕ → Bytes → Bytes
quake name depth magnitude shindo =
    codes "("
    ++ (name
        ++ (utf8 ")深さ"
            ++ (dec depth ++ (utf8 "km 最大:M" ++ (tenths magnitude ++ (utf8 " 震度" ++ shindo))))))

-- What is said of the hypocenter; one that is struck out has no names, and its numbers are 0.
abbrev where_of : Option Hypocenter → Bytes
where_of none = link 0 0 (quake [] 0 0 [])
where_of (some s) = link (get_or s.lat 0) (get_or s.lng 0) (
    quake (look_up Tables.epicenter_code s.center) (get_or s.depth 0) (get_or s.magnitude 0)
      (look_up Tables.shindo s.shindo))

-- The message; the type 10 is a cancellation.
abbrev pub message_of : Moment → Moment → Sheet → Bytes
message_of warned shaken s =
    if s.msg_type == 10
    then heading warned shaken s ++ utf8 "発生) 取り消されました"
    else (heading warned shaken s ++ utf8 "発生)震央:") ++ where_of s.hypocenter

-- The title: the kind of the telegram, by its name in the table, before the name of the service.
abbrev pub title_of : Sheet → Bytes
title_of s = look_up Tables.warn_type s.kind ++ utf8 "緊急地震速報"

stamp-twelve_digits : (m : Moment) → stamp (twelve_digits m) ≡ spoken m
unfolding stamp split_pairs
stamp-twelve_digits m = refl

titled_lem : (warn_type : Bytes) → titled warn_type ≡ warn_type ++ utf8 "緊急地震速報"
unfolding titled
titled_lem [] = refl
titled_lem (c ∷ warn_type) = refl

opening-reported :
    (s : Sheet) (warned shaken : Moment)
    → s.warn_time ≡ twelve_digits warned
    → s.eq_time ≡ twelve_digits shaken
    → opening (reported s) ≡ heading warned shaken s
unfolding opening report is_final show
opening-reported s warned shaken hw hs =
    let t = reported s in
    ap (λ b. b ++ (report t ++ (codes " (" ++ stamp s.eq_time)))
      (ap stamp hw ∙ stamp-twelve_digits warned)
    ∙ ap (λ b. spoken warned ++ (report t ++ (codes " (" ++ b)))
        (ap stamp hs ∙ stamp-twelve_digits shaken)

opening-with_hypocenter :
    (t : Telegram) (o : Option Hypocenter) → opening (with_hypocenter o t) ≡ opening t
unfolding opening report is_final
opening-with_hypocenter t none = refl
opening-with_hypocenter t (some c) = refl

format_text-with_hypocenter :
    (s : Sheet) (o : Option Hypocenter)
    → format_text (with_hypocenter o (reported s)) ≡ (
        if s.msg_type == 10
        then opening (with_hypocenter o (reported s)) ++ utf8 "発生) 取り消されました"
        else (opening (with_hypocenter o (reported s)) ++ utf8 "発生)震央:") ++ where_of o)
unfolding format_text closing map_uri place show_tenths is_cancellation show
format_text-with_hypocenter s none = refl
format_text-with_hypocenter s (some c) = refl

format_text-telegram_of :
    (s : Sheet) (warned shaken : Moment)
    → s.warn_time ≡ twelve_digits warned
    → s.eq_time ≡ twelve_digits shaken
    → format_text (telegram_of s) ≡ message_of warned shaken s
format_text-telegram_of s warned shaken hw hs =
    format_text-with_hypocenter s s.hypocenter
    ∙ ap
        (λ b.
          if s.msg_type == 10
          then b ++ utf8 "発生) 取り消されました"
          else (b ++ utf8 "発生)震央:") ++ where_of s.hypocenter)
        (opening-with_hypocenter (reported s) s.hypocenter ∙ opening-reported s warned shaken hw hs)

format_title-with_hypocenter :
    (s : Sheet) (o : Option Hypocenter) → format_title (with_hypocenter o (reported s)) ≡ title_of s
unfolding format_title
format_title-with_hypocenter s none = titled_lem (look_up Tables.warn_type s.kind)
format_title-with_hypocenter s (some c) = titled_lem (look_up Tables.warn_type s.kind)

-- What `Process` makes of a telegram that the relay writes with the two times: the text has both
-- times with the century, the number of the report, the mark of a final one where the revision
-- digit is not 0, and then, for the type 10, the retraction, and for every other one the link to
-- the map, the place, the depth, the magnitude and the force; the title is the name of the kind
-- before that of the service. It holds for the same telegrams as `decode-text_of`: the fields have
-- the count and the kind of bytes of their places, the report line has, behind its number, no digit
-- next, at most two blanks and no line end, and the lines before the header, and the text behind
-- the last line, begin with no digit and hold neither ND nor a blank before C, N or S. A number
-- that is struck out counts as 0.
pub process-text_of :
    {S : Type 0} (files : Files S) (now : ℤ) (p : Processor) (start : S) (md5 : Bytes) (s : Sheet)
    (warned shaken : Moment)
    → IsSheet s
    → s.warn_time ≡ twelve_digits warned
    → s.eq_time ≡ twelve_digits shaken
    → let result = (process files now p start md5 (text_of s)).0 in
      (result.text ≡ message_of warned shaken s) × (result.title ≡ title_of s)
unfolding process
process-text_of files now p start md5 s warned shaken h hw hs = (
  ap format_text (decode-text_of s h) ∙ format_text-telegram_of s warned shaken hw hs,
  ap format_title (decode-text_of s h) ∙ format_title-with_hypocenter s s.hypocenter,
)
