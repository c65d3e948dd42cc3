-- ===== src/App/Written/Tests.antt =====
-- The message of the sample.
use irc_eew.App.Written.{Moment, message_of, title_of, process-text_of}
use irc_eew.App.{Processor, process}
use irc_eew.Archive.Memory.{memory}
use irc_eew.Base.Bytes.{codes, utf8}
use irc_eew.Base.Decimal.{dec}
use irc_eew.Base.Dict.{get}
use irc_eew.Base.Int.{pos}
use irc_eew.Base.{◌≡◌, refl, none, [], ◌++◌}
use irc_eew.Decoder.Decode.Sheet.Sample.{sheet_2011, retraction_2011, retraction_2011-IsSheet}
use irc_eew.Decoder.Decode.Sheet.{text_of}
use irc_eew.Decoder.Decode.{look_up}
use irc_eew.Decoder.Tables
use irc_eew.Notify.{new_dispatcher}

abbrev warned_2011 : Moment
warned_2011 = record { year = 11; month = 3; day = 12; hour = 4; minute = 26; second = 14 }

abbrev shaken_2011 : Moment
shaken_2011 = record { year = 11; month = 3; day = 12; hour = 4; minute = 23; second = 48 }

message_2011 :
    message_of warned_2011 shaken_2011 sheet_2011
    ≡ utf8 "2011/03/12 04:26:14 第81報(最終) (2011/03/12 04:23:48発生)震央:"
      ++ (codes "<http://maps.google.com/maps?q=38.5,140.8|N38.5/E140.8>"
          ++ utf8 "(宮城県北部)深さ10km 最大:M6.7 震度6強")
unfolding dec look_up get Tables.epicenter_code Tables.shindo
message_2011 = refl

abbrev warned_retraction : Moment
warned_retraction = record { year = 11; month = 3; day = 12; hour = 13; minute = 47; second = 52 }

abbrev shaken_retraction : Moment
shaken_retraction = record { year = 11; month = 3; day = 12; hour = 13; minute = 47; second = 2 }

message_retraction :
    message_of warned_retraction shaken_retraction retraction_2011
    ≡ utf8 "2011/03/12 13:47:52 第3報 (2011/03/12 13:47:02発生) 取り消されました"
unfolding dec utf8
message_retraction = refl

abbrev unarchived : Processor
unarchived = record { store = none; dispatcher = new_dispatcher [] [] }

process-text_of_example :
    let result =
      (process memory
        (pos 1299871600)
        unarchived
        []
        (codes "d41d8cd9")
        (text_of retraction_2011)).0 in
    (result.text ≡ message_of warned_retraction shaken_retraction retraction_2011)
    × (result.title ≡ title_of retraction_2011)
unfolding dec
process-text_of_example =
    process-text_of memory (pos 1299871600) unarchived [] (codes "d41d8cd9") retraction_2011
      warned_retraction shaken_retraction retraction_2011-IsSheet refl refl
