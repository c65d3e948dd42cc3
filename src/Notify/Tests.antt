-- ===== src/Notify/Tests.antt =====
-- A run of the dispatcher of the Slack hooks.
use irc_eew.Base.{◌≡◌, List, [], ◌∷◌}
use irc_eew.Base.Bytes.{codes}
use irc_eew.Base.Int.{pos}
use irc_eew.Decoder.Telegram.{Telegram, empty_telegram}
use irc_eew.Notify.News.{hooks_for_each, hooks_by_news, hooks_for_each-by_news}
use irc_eew.Notify.{Hook, new_dispatcher}

abbrev hooks : List Hook
hooks = record { name = codes "test"; url = codes "https://example.com" } ∷ []

abbrev reports : List Telegram
reports =
    record empty_telegram { eq_id = codes "20110311144616" }
    ∷ record empty_telegram { eq_id = codes "20110311144616" }
    ∷ record empty_telegram { eq_id = codes "20110311144616"; msg_type_code = pos 10 }
    ∷ []

hooks_for_each-by_news_example :
    hooks_for_each (new_dispatcher [] hooks) reports ≡ hooks_by_news [] hooks [] reports
hooks_for_each-by_news_example = hooks_for_each-by_news [] hooks reports
