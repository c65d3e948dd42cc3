-- ===== src/Wni/Frame.antt =====
-- internal/wni/protocol.go: the incremental parser of the WNI framing. The ack writer and the
-- clock are a `World`: what the n-th ack carries as its time, and whether its write succeeds.
pub mod Termination
pub mod Chunks
pub mod Blocks
pub mod Negative
pub mod Response
mod Tests
use irc_eew.Base.{
  ℕ, zero, suc, ◌+◌, ◌*◌, ◌≡◌, Bool, true, false, Option, none, some, List, [], ◌∷◌, ◌++◌, ltb,
  if◌then◌else◌, is_some, get_or, length, take, drop,
}
use irc_eew.Base.Bytes.{Bytes, codes, equal}
use irc_eew.Base.Decimal.{atoi}
use irc_eew.Base.Dict.{get, put}
use irc_eew.Base.Int.{ℤ, pos, negsuc}
use irc_eew.Base.Trim.{trim_cr, trim_space, has_infix, cut}

pub data FrameKind : Type 0 where
  response keep_alive telegram unknown : FrameKind

pub record Frame : Type 0 where
  pub kind : FrameKind
  pub id : Bytes
  pub header : List (Bytes × Bytes)
  pub md5 : Bytes
  pub body : Bytes

pub record World : Type 0 where
  pub now : ℕ → Bytes
  pub write_ok : ℕ → Bool

-- `sent` is what the ack writer was given so far.
pub record Parser : Type 0 where
  pub buf : Bytes
  pub header : List (Bytes × Bytes)
  pub size : ℤ
  pub has_size : Bool
  pub sent : List Bytes

abbrev pub new_parser : Parser
new_parser = record { buf = []; header = []; size = pos 0; has_size = false; sent = [] }

unfoldable pub ack_message : Bytes → Bytes
ack_message now =
    codes "HTTP/1.0 200 OK\n"
    ++ (codes "Content-Type: application/fast-cast\n"
        ++ (codes "Server: FastCaster/1.0.0 (Unix)\n"
            ++ (codes "X-WNI-ID: Response\n"
                ++ (codes "X-WNI-Result: OK\n"
                    ++ (codes "X-WNI-Protocol-Version: 2.1\n"
                        ++ (codes "X-WNI-Time: " ++ (now ++ codes "\n\n")))))))

abbrev pub ping_line : Bytes
ping_line = codes "GET / HTTP/1.1"

abbrev pub id_key : Bytes
id_key = codes "X-WNI-ID"

abbrev pub length_key : Bytes
length_key = codes "Content-Length"

abbrev pub md5_key : Bytes
md5_key = codes "X-WNI-Data-MD5"

-- `p.header[key]`
abbrev pub header_of : Parser → Bytes → Bytes
header_of p key = get_or (get key p.header) []

-- One round of the loop of `Feed`.
pub data Round : Type 0 where
  -- `break`
  stops : Round
  goes : Parser → List Frame → Round
  -- the write of an ack failed
  fails : Parser → Round
  -- a slice expression out of range
  panics : Round

-- `p.header = map[string]string{}`
abbrev reset : Parser → Parser
reset p = record p { header = [] }

on_ping : World → Parser → Round
on_ping w p =
    let n = length p.sent in
    let asked = record p { sent = p.sent ++ ack_message (w.now n) ∷ [] } in
    if w.write_ok n then goes (record asked { header = []; buf = [] }) [] else fails asked

-- The blank line under a block with `X-WNI-ID: Data`.
on_data : Parser → Option Bytes → Round
on_data p none = goes (reset p) []
on_data p (some text) = elim (atoi (trim_space text)) [
  | none ↦ goes (reset p) []
  | some n ↦ goes (record p { size = n; has_size = true }) []
]

on_blank : Parser → Round
on_blank p =
    let id = header_of p id_key in
    if equal id (codes "Data")
    then on_data p (get length_key p.header)
    else if equal id (codes "Response")
    then goes (reset p)
        (record { kind = response; id = []; header = p.header; md5 = []; body = [] } ∷ [])
    else if equal id (codes "Keep-Alive")
    then goes (reset p)
        (record { kind = keep_alive; id = []; header = []; md5 = []; body = [] } ∷ [])
    else goes (reset p)
        (record { kind = unknown; id = id; header = p.header; md5 = []; body = [] } ∷ [])

-- What the loop does with a line, in the order of its tests.
pub data Line : Type 0 where
  ping : Line
  field : Bytes → Bytes → Line
  blank : Line
  other : Line

pub classify : Bytes → Line
classify line = if has_infix line ping_line then ping else elim (cut b':' line) [
  | some (name, val) ↦ field (trim_space name) (trim_space val)
  | none ↦ elim line [ [] ↦ blank | c ∷ rest ↦ other ]
]

pub on_line : World → Parser → Line → Round
on_line w p ping = on_ping w p
on_line w p (field name val) = goes (record p { header = put name val p.header }) []
on_line w p blank = on_blank p
on_line w p other = goes p []

-- On the parts of the buffer before and behind its first line feed.
take_line : World → Parser → Option (Bytes × Bytes) → Round
take_line w p none = stops
take_line w p (some (line, rest)) = on_line w (record p { buf = rest }) (classify (trim_cr line))

line_round : World → Parser → Round
line_round w p = take_line w p (cut b'\n' p.buf)

-- `p.buf[:p.size]` panics on a negative size, which the comparison before it lets through.
body_round : Parser → ℤ → Round
body_round p (negsuc _) = panics
body_round p (pos n) =
    if ltb (length p.buf) n
    then stops
    else goes (record p { buf = drop n p.buf; has_size = false; header = [] })
        (record {
          kind = telegram;
          id = [];
          header = p.header;
          md5 = header_of p md5_key;
          body = take n p.buf;
        }
          ∷ [])

pub round : World → Parser → Round
unfolding line_round take_line on_line on_ping on_blank on_data body_round classify
round w p = if p.has_size then body_round p p.size else line_round w p

-- How `Feed` ends: it returns its frames, or an error behind them, with the parser that it leaves
-- behind; or it panics, and returns nothing.
pub data Fed : Type 0 where
  fed : Parser → List Frame → Fed
  failed : Parser → List Frame → Fed
  crashed : Fed

-- What a round leads to; `again` is the loop from the next round on.
pub proceed : (Parser → List Frame → Option Fed) → Parser → List Frame → Round → Option Fed
proceed again p frames stops = some (fed p frames)
proceed again p frames (goes q new) = again q (frames ++ new)
proceed again p frames (fails q) = some (failed q frames)
proceed again p frames panics = some crashed

-- The loop on fuel; `none` is a loop that did not end.
pub loop : World → ℕ → Parser → List Frame → Option Fed
unfolding proceed
loop w zero p frames = none
loop w (suc fuel) p frames = proceed (loop w fuel) p frames (round w p)

-- Each round that goes on takes a line, or leaves the body mode.
abbrev pub measure : Parser → ℕ
measure p = 2 * length p.buf + (if p.has_size then 1 else 0)

abbrev pub filled : Parser → Bytes → Parser
filled p chunk = record p { buf = p.buf ++ chunk }

-- The loop with the fuel of its measure.
pub drain : World → Parser → List Frame → Option Fed
unfolding loop
drain w p frames = loop w (suc (measure p)) p frames

unfoldable pub feed : World → Parser → Bytes → Option Fed
unfolding drain
feed w p chunk = drain w (filled p chunk) []
