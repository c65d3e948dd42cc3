-- ===== src/Irc/Connection/Tests.antt =====
-- The connection on small inputs.
use irc_eew.Base.{true, ◌≡◌, List, [], ◌∷◌, All, length}
use irc_eew.Base.Bytes.{Bytes, codes}
use irc_eew.Base.Int.{pos}
use irc_eew.Decoder.Telegram.{Telegram, empty_telegram}
use irc_eew.Irc.Connection.Backoff.{
  IsDelay, failures, doubled, setbacks, run_sleeps-IsDelay, run_sleeps-failures,
}
use irc_eew.Irc.Connection.Notices.{notify_each, posted, notify_each-pending}
use irc_eew.Irc.Connection.{
  Pass, canceled, unconnected, dropped, run_sleeps, new_connection, second,
}
use irc_eew.Irc.Queue.{pending}

-- Two failed connects, a short connection, a long one, and the end.
abbrev passes : List Pass
passes =
    unconnected true
    ∷ unconnected true
    ∷ dropped (pos 1000000) true
    ∷ dropped (pos 90000000000) true
    ∷ unconnected true
    ∷ canceled
    ∷ []

run_sleeps-IsDelay_example :
    (length (run_sleeps passes) ≡ setbacks passes) × All IsDelay (run_sleeps passes)
run_sleeps-IsDelay_example = run_sleeps-IsDelay passes

run_sleeps-failures_example : run_sleeps (failures 8) ≡ doubled second 8
run_sleeps-failures_example = run_sleeps-failures 8

abbrev reports : List (Telegram × Bytes)
reports =
    (record empty_telegram { eq_id = codes "20110311144616" }, codes "first")
    ∷ (record empty_telegram { eq_id = codes "20110311144616"; ncn_type = pos 9 }, codes "last")
    ∷ []

notify_each-pending_example :
    pending (notify_each (new_connection (codes "#a" ∷ []) []) reports).queue
    ≡ posted (codes "#a" ∷ []) [] [] reports []
notify_each-pending_example = notify_each-pending (codes "#a" ∷ []) [] reports
