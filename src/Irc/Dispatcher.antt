-- ===== src/Irc/Dispatcher.antt =====
-- internal/irc/dispatcher.go: which channels of one IRC connection get a telegram. `ChannelsFor`
-- returns the channels, the priority and the dispatcher with its new `lastEqID`.
pub mod Channels
pub mod News
mod Tests
use irc_eew.Base.{Bool, true, false, not, ◌||◌, List, [], ◌∷◌, ◌++◌, if◌then◌else◌, get_or}
use irc_eew.Base.Bytes.{Bytes, equal}
use irc_eew.Base.Dict.{get, put}
use irc_eew.Decoder.Telegram.{Telegram, is_final, is_cancellation}
use irc_eew.Irc.Queue.{Priority, normal, final, cancellation}

pub record Dispatcher : Type 0 where
  pub all : List Bytes
  pub limited : List Bytes
  pub last_eq_id : Bytes

abbrev pub new_dispatcher : List Bytes → List Bytes → Dispatcher
new_dispatcher all limited = record { all = all; limited = limited; last_eq_id = [] }

-- The map `seen` and the slice `out` of `dedup`.
pub record Dedup : Type 0 where
  pub seen : List (Bytes × Bool)
  pub out : List Bytes

-- `seen[ch]`
abbrev pub is_seen : Dedup → Bytes → Bool
is_seen d ch = get_or (get ch d.seen) false

pub note : Dedup → Bytes → Dedup
note d ch = if is_seen d ch then d else record { seen = put ch true d.seen; out = d.out ++ ch ∷ [] }

-- The inner loop.
pub note_list : Dedup → List Bytes → Dedup
unfolding note
note_list d [] = d
note_list d (ch ∷ l) = note_list (note d ch) l

-- The outer loop.
pub note_lists : Dedup → List (List Bytes) → Dedup
unfolding note_list
note_lists d [] = d
note_lists d (l ∷ ls) = note_lists (note_list d l) ls

unfoldable pub dedup : List (List Bytes) → List Bytes
unfolding note_lists
dedup lists = (note_lists (record { seen = []; out = [] }) lists).out

unfoldable pub priority_for : Telegram → Priority
priority_for t = if is_cancellation t then cancellation else if is_final t then final else normal

-- `JoinChannels`
unfoldable pub join_channels : Dispatcher → List Bytes
join_channels d = dedup (d.all ∷ d.limited ∷ [])

abbrev pub limited_fires : Dispatcher → Telegram → Bool
limited_fires d t = not (equal t.eq_id d.last_eq_id) || is_cancellation t || is_final t

unfoldable pub channels_for : Dispatcher → Telegram → (List Bytes × Priority) × Dispatcher
unfolding priority_for
channels_for d t =
    if limited_fires d t
    then ((dedup (d.all ∷ d.limited ∷ []), priority_for t), record d { last_eq_id = t.eq_id })
    else ((dedup (d.all ∷ []), priority_for t), d)
