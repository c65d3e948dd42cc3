-- ===== src/Irc/Connection.antt =====
-- internal/irc/connection.go: the connect loop of `Connection.Run` with its back-off, and `Notify`.
-- Durations are nanoseconds in an `int64`.
pub mod Backoff
pub mod Notices
pub mod Writer
mod Tests
use irc_eew.Base.{ℕ, suc, ◌*◌, Bool, true, false, List, [], ◌∷◌, if◌then◌else◌}
use irc_eew.Base.Bytes.{Bytes, equal, codes}
use irc_eew.Base.Int.{ℤ, pos, negsuc, int64, times, at_least}
use irc_eew.Decoder.Telegram.{Telegram}
use irc_eew.Message.{strip_links}
use irc_eew.Irc.Dispatcher.{Dispatcher, new_dispatcher, channels_for}
use irc_eew.Irc.Queue.{Priority, Queue, new_queue, enqueue}

abbrev pub second : ℕ
second = 1000000000

abbrev pub initial_backoff : ℤ
initial_backoff = pos (1 * second)

abbrev pub max_backoff : ℕ
max_backoff = 60 * second

abbrev pub stable_connection_threshold : ℕ
stable_connection_threshold = 30 * second

abbrev pub default_queue_capacity : ℕ
default_queue_capacity = 32

pub data MessageType : Type 0 where
  notice privmsg : MessageType

-- `parseMessageType`, with its `ok`.
unfoldable pub parse_message_type : Bytes → MessageType × Bool
parse_message_type s =
    if equal s []
    then (notice, true)
    else if equal s (codes "notice")
    then (notice, true)
    else if equal s (codes "privmsg")
    then (privmsg, true)
    else (notice, false)

-- `nextBackoff`, against a limit that is not negative.
unfoldable pub next_backoff : ℤ → ℕ → ℤ
next_backoff cur limit =
    let next = int64 (times cur 2) in if at_least (suc limit) next then pos limit else next

unfoldable pub backoff_after_disconnect : ℤ → ℤ → ℤ
backoff_after_disconnect cur connected_for =
    if at_least stable_connection_threshold connected_for
    then initial_backoff
    else next_backoff cur max_backoff

-- One pass of the loop of `Run`. The Boolean is what `sleepCtx` returns, if it is called.
pub data Pass : Type 0 where
  -- the context is done before the connect, in it, or while connected
  canceled : Pass
  unconnected : Bool → Pass
  -- the connection was up for a duration
  dropped : ℤ → Bool → Pass

-- The delays that the loop sleeps for, from a back-off on.
pub sleeps : ℤ → List Pass → List ℤ
sleeps backoff [] = []
sleeps backoff (canceled ∷ ps) = []
sleeps backoff (unconnected false ∷ ps) = backoff ∷ []
sleeps backoff (unconnected true ∷ ps) = backoff ∷ sleeps (next_backoff backoff max_backoff) ps
sleeps backoff (dropped up slept ∷ ps) =
    let next = backoff_after_disconnect backoff up in
    let later = sleeps next ps in
    if at_least stable_connection_threshold up then later else next ∷ (if slept then later else [])

-- `Run`
unfoldable pub run_sleeps : List Pass → List ℤ
unfolding sleeps
run_sleeps ps = sleeps initial_backoff ps

-- What `Notify` uses of a connection.
pub record Connection : Type 0 where
  pub dispatcher : Dispatcher
  pub queue : Queue

-- `NewConnection`, as far as `Notify` goes.
abbrev pub new_connection : List Bytes → List Bytes → Connection
new_connection all limited = record {
  dispatcher = new_dispatcher all limited;
  queue = new_queue default_queue_capacity;
}

-- Without channels there is nothing to enqueue.
pub enqueue_for : Telegram → Bytes → List Bytes → Priority → Queue → Queue
enqueue_for t text [] priority q = q
enqueue_for t text (ch ∷ channels) priority q = enqueue q (record {
  eq_id = t.eq_id;
  channels = ch ∷ channels;
  text = strip_links text;
  priority = priority;
})

-- `Notify`
unfoldable pub notify : Connection → Telegram → Bytes → Connection
unfolding enqueue_for
notify c t text =
    let chosen = channels_for c.dispatcher t in
    record { dispatcher = chosen.1; queue = enqueue_for t text chosen.0.0 chosen.0.1 c.queue }
