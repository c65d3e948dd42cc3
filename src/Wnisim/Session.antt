-- ===== src/Wnisim/Session.antt =====
-- internal/wnisim/server.go: what the fake server reads. The choice of a `select` among what is
-- ready is the order of a list.
pub mod Login
use irc_eew.Base.Bytes.{Bytes, codes}
use irc_eew.Base.Dict.{get, put}
use irc_eew.Base.Trim.{rev, trim_space, has_infix, cut}
use irc_eew.Base.{
  ℕ, Bool, true, false, ◌||◌, Option, none, some, List, [], ◌∷◌, ◌++◌, map, ◌==◌, if◌then◌else◌,
}

abbrev skip_ends : Bytes → Bytes
skip_ends [] = []
skip_ends (c ∷ s) = let rest = skip_ends s in if c == b'\r' || c == b'\n' then rest else c ∷ s

-- `strings.TrimRight(line, "\r\n")`
unfoldable pub trim_ends : Bytes → Bytes
trim_ends s = rev (skip_ends (rev s))

-- The last piece of the stream, if it is not empty.
abbrev last_line : Bytes → List Bytes
last_line [] = []
last_line (c ∷ line) = trim_ends (c ∷ line) ∷ []

-- `readLoop`: the lines of all that the client sends, with the line read so far.
unfoldable pub read_from : Bytes → Bytes → List Bytes
read_from line [] = last_line line
read_from line (c ∷ s) = elim (c == b'\n') [
  | true ↦ trim_ends line ∷ read_from [] s
  | false ↦ read_from (line ++ c ∷ []) s
]

-- What a `select` of a waiting call takes.
pub data Incoming : Type 0 where
  line : Bytes → Incoming
  -- the channel of the lines is closed
  no_more : Incoming
  deadline : Incoming
  failed : Incoming

-- Lines alone.
abbrev pub arrivals : List Bytes → List Incoming
arrivals [] = []
arrivals (l ∷ ls) = line l ∷ arrivals ls

pub data Awaited : Type 0 where
  logged_in eof timed_out broken waiting : Awaited

-- `headers[name] = val`, on a line with a colon.
abbrev pub set_header : List (Bytes × Bytes) → Option (Bytes × Bytes) → List (Bytes × Bytes)
set_header headers none = headers
set_header headers (some (name, val)) = put (trim_space name) (trim_space val) headers

-- `AwaitLogin`, with the headers read so far.
unfoldable pub await_from : List (Bytes × Bytes) → List Incoming → List (Bytes × Bytes) × Awaited
await_from headers [] = (headers, waiting)
await_from headers (no_more ∷ ins) = (headers, eof)
await_from headers (deadline ∷ ins) = (headers, timed_out)
await_from headers (failed ∷ ins) = (headers, broken)
await_from headers (line [] ∷ ins) = (headers, logged_in)
await_from headers (line (c ∷ s) ∷ ins) = await_from (set_header headers (cut b':' (c ∷ s))) ins

unfoldable pub await_login : List Incoming → List (Bytes × Bytes) × Awaited
await_login ins = await_from [] ins

-- `AwaitAck`, which does not look at errors; `none` is a call that still waits.
unfoldable pub await_ack : List Incoming → Option Bool
await_ack [] = none
await_ack (no_more ∷ ins) = some false
await_ack (deadline ∷ ins) = some false
await_ack (failed ∷ ins) = await_ack ins
await_ack (line s ∷ ins) =
    let later = await_ack ins in if has_infix s (codes "200 OK") then some true else later
