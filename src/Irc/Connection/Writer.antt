-- ===== src/Irc/Connection/Writer.antt =====
-- internal/irc/connection.go: the handlers of CONNECTED and DISCONNECTED, and the write loop. The
-- goroutines share the channel `ready` and the queue; each step below is one access to these.
-- A channel is a number, and `closed` holds the closed ones.
pub mod Safety
pub mod Drain
pub mod Invariant
mod Tests
use irc_eew.Base.{
  ℕ, suc, Bool, true, false, ◌||◌, Option, none, some, List, [], ◌∷◌, ◌++◌, ◌≡◌, ◌==◌,
  if◌then◌else◌,
}
use irc_eew.Base.Bytes.{Bytes}
use irc_eew.Decoder.Telegram.{Telegram}
use irc_eew.Irc.Connection.{Connection, MessageType, new_connection, notify}
use irc_eew.Irc.Charset.{encode_text}
use irc_eew.Irc.Dispatcher.{join_channels}
use irc_eew.Irc.Queue.{Notice, Queue, Dequeued, got, ended, waits, dequeue, close}

-- Where the goroutine of `writeLoop` is.
pub data Phase : Type 0 where
  -- before it reads `c.ready`
  entering : Phase
  -- in the `select` of `waitReady`, on a channel
  waiting : ℕ → Phase
  -- in `Dequeue`
  taking : Phase
  returned : Phase

-- A command to a channel: the type, the channel and the text, as encoded.
pub record Message : Type 0 where
  pub command : MessageType
  pub channel : Bytes
  pub text : Bytes

pub record Link : Type 0 where
  pub conn : Connection
  -- `c.ready`
  pub current : ℕ
  pub closed : List ℕ
  -- the buffer of `c.reconnect`
  pub reconnect : Bool
  pub phase : Phase
  -- the JOINs and the messages so far
  pub joined : List Bytes
  pub sent : List Message

abbrev pub new_link : List Bytes → List Bytes → Link
new_link all limited = record {
  conn = new_connection all limited;
  current = 0;
  closed = [];
  reconnect = false;
  phase = entering;
  joined = [];
  sent = [];
}

abbrev pub has : ℕ → List ℕ → Bool
has c [] = false
has c (x ∷ xs) = x == c || has c xs

abbrev pub with_queue : Link → Queue → Link
with_queue l q = record l { conn = record l.conn { queue = q } }

-- The encoded texts, less those that the charset refuses.
pub encoded : (Bytes → Option Bytes) → List Bytes → List Bytes
encoded encode [] = []
encoded encode (ch ∷ chs) = elim (encode ch) [
  | none ↦ encoded encode chs
  | some ch' ↦ ch' ∷ encoded encode chs
]

-- The loop over the channels of a notice.
pub messages_to : MessageType → Bytes → List Bytes → List Message
messages_to mt text [] = []
messages_to mt text (ch ∷ chs) =
    record { command = mt; channel = ch; text = text } ∷ messages_to mt text chs

module _ (iso : Bytes → Option Bytes) (charset : Bytes) (mt : MessageType) where
  -- What the writer sends for a notice: nothing, if its text cannot be encoded.
  pub messages : Notice → List Message
  unfolding encoded messages_to
  messages n = elim (encode_text iso charset n.text) [
    | none ↦ []
    | some text ↦ messages_to mt text (encoded (encode_text iso charset) n.channels)
  ]

  -- `handleConnected`, on a channel that is not closed yet.
  pub on_connected : Link → Link
  unfolding encoded
  on_connected l = record l {
    joined = l.joined ++ encoded (encode_text iso charset) (join_channels l.conn.dispatcher);
    closed = l.current ∷ l.closed;
  }

  -- What `Dequeue` gave.
  pub took : Link → Dequeued → Link
  unfolding messages
  took l (got n) = record l { phase = entering; sent = l.sent ++ messages n }
  took l ended = record l { phase = returned }
  took l waits = l

  -- One step of the goroutine of `writeLoop`, from a phase.
  pub write_from : Link → Phase → Link
  unfolding took
  write_from l entering = record l { phase = waiting l.current }
  write_from l (waiting c) = if has c l.closed then record l { phase = taking } else l
  write_from l taking = let d = dequeue l.conn.queue in took (with_queue l d.0) d.1
  write_from l returned = l

  pub write : Link → Link
  unfolding write_from
  write l = write_from l l.phase

-- `handleDisconnected`: a new channel, and the signal unless one is there.
pub on_disconnected : Link → Link
on_disconnected l = record l { current = suc l.current; reconnect = true }

module _ (iso : Bytes → Option Bytes) (charset : Bytes) (mt : MessageType) where
  -- The steps of the goroutines in any order. A second CONNECTED on a closed channel panics in
  -- the handler, and is no step.
  pub data Step (l : Link) : Link → Type 0 where
    connects : has l.current l.closed ≡ false → Step l (on_connected iso charset mt l)
    disconnects : Step l (on_disconnected l)
    -- `Run` takes the signal
    resumes : Step l (record l { reconnect = false })
    notifies : (t : Telegram) (text : Bytes) → Step l (record l { conn = notify l.conn t text })
    writes : Step l (write iso charset mt l)
    -- the context is done while `waitReady` waits
    cancels : (c : ℕ) → l.phase ≡ waiting c → Step l (record l { phase = returned })
    -- `Run` returns
    shuts : Step l (with_queue l (close l.conn.queue))

  pub data Steps (l : Link) : Link → Type 0 where
    here : Steps l l
    next : {m n : Link} → Steps l m → Step m n → Steps l n
