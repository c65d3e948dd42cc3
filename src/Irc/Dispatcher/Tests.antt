-- ===== src/Irc/Dispatcher/Tests.antt =====
-- Runs of the dispatcher of an IRC connection on small inputs.
use irc_eew.Base.{◌≡◌, List, [], ◌∷◌}
use irc_eew.Base.Bytes.{Bytes, codes, contains, Distinct}
use irc_eew.Base.Int.{pos}
use irc_eew.Decoder.Telegram.{Telegram, empty_telegram}
use irc_eew.Irc.Dispatcher.Channels.{listed, dedup-Distinct}
use irc_eew.Irc.Dispatcher.News.{channels_for_each, channels_by_news, channels_for_each-by_news}
use irc_eew.Irc.Dispatcher.{dedup, new_dispatcher}

abbrev all : List Bytes
all = codes "#a" ∷ codes "#b" ∷ []

abbrev limited : List Bytes
limited = codes "#b" ∷ codes "#c" ∷ []

-- Two reports of one earthquake, the second a final one, and a report of another.
abbrev reports : List Telegram
reports =
    record empty_telegram { eq_id = codes "20110311144616" }
    ∷ record empty_telegram { eq_id = codes "20110311144616"; ncn_type = pos 9 }
    ∷ record empty_telegram { eq_id = codes "20110312042346" }
    ∷ []

channels_for_each-by_news_example :
    channels_for_each (new_dispatcher all limited) reports ≡ channels_by_news all limited [] reports
channels_for_each-by_news_example = channels_for_each-by_news all limited reports

dedup-Distinct_example :
    Distinct (dedup (all ∷ limited ∷ []))
    × ((k : Bytes) → contains k (dedup (all ∷ limited ∷ [])) ≡ listed k (all ∷ limited ∷ []))
dedup-Distinct_example = dedup-Distinct (all ∷ limited ∷ [])
