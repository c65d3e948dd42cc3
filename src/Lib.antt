-- ===== src/Lib.antt =====
-- irc-eew, the notifier of Earthquake Early Warnings: it receives telegrams from a relay server
-- of Weathernews (WNI), decodes them, and posts them to IRC channels and Slack hooks.
--
-- How the parts interact. internal/wni keeps one TCP connection to the relay: `Client.Run` reads
-- chunks and gives them to `FrameParser.Feed`, which cuts blocks out of them, answers pings, and
-- returns frames; each Data frame is a telegram. internal/decoder turns a telegram into a
-- record. internal/notify chooses the Slack hooks of a telegram and internal/irc its channels;
-- internal/eewmsg writes the text, with a link that internal/irc takes out again; one `Queue`
-- for each IRC connection holds the notices that its writer has not sent yet. internal/wnisim is
-- a server that speaks the relay's side of the protocol, and cmd/wnisim runs it. internal/app
-- wires these: `Process` decodes, formats, chooses the hooks and keeps the bytes in the store of
-- internal/eewlog, and `runConnectionLoop` connects again with a back-off. internal/eewview
-- shows the stored telegrams.
--
-- The files. Base holds what all parts share: bytes for Go strings, association lists for Go
-- maps, integers with the wrap-around of `int64` (Base.Int), `strconv.Atoi` and `%d`
-- (Base.Decimal), `strings` and `bytes` functions (Base.Trim), and `regexp` for the patterns
-- that the program uses (Base.Regex: `Regex` is the matcher, `Match` and `Rows` what its matches
-- hold, `Missing` when it finds none, `Matches` all of its matches). Wni.Frame is `Feed` of
-- internal/wni/protocol.go: `round` is one pass of its loop, `loop` the loop on fuel, `feed` the
-- call. Its children are about its end (Termination), the joining of chunks (Chunks), whole
-- blocks (Blocks), and a negative length (Negative). Wni.Client is internal/wni/client.go: `run`
-- is `Client.Run` over a list of what each pass of its loop meets. Wnisim is what the `Send`
-- methods of internal/wnisim/server.go write. Decoder is internal/decoder: Tables holds
-- tables_gen.go, Telegram the records of decoder.go, and Decode its line parsers; WellFormed,
-- Report, Lines and Sheet hold proofs about them, of which Sheet describes a whole telegram as
-- the relay writes it. Decoder.Generator is the generator of the tables,
-- internal/decoder/gen/main.go: `entry_match` and `open_match` of Patterns are its two patterns,
-- `extract_table` is `extractTable`, and `generate` the text that `main` prints. Irc.Queue is
-- internal/irc/queue.go: a method is a function from a queue to the queue after it. Spec is the
-- list of pending notices that the queue stands for; Schedule puts calls in any order.
-- Irc.Dispatcher is internal/irc/dispatcher.go. Irc.Connection is `Notify`, and the connect loop
-- of `Run` by the delays that it sleeps for, of internal/irc/connection.go;
-- Irc.Connection.Writer is the handlers of CONNECTED and DISCONNECTED and `writeLoop`, as a step
-- relation on what their goroutines share; Irc.Charset is internal/irc/charset.go. Slack is
-- internal/slack/notifier.go, with the retries of `Send`. Servers is internal/wni/serverlist.go
-- with the `serverResolver` of internal/app/app.go. Message is internal/eewmsg/format.go with
-- internal/irc/link.go. Notify is internal/notify/dispatcher.go with `Hook` of
-- internal/slack/notifier.go. App is internal/app/app.go: `receive` is the `onData` of `Run`,
-- and App.Loop is `runConnectionLoop` over a list of what each pass meets; App.Written says in
-- its own terms what the daemon makes of a telegram that the relay has written. Archive is
-- internal/eewlog/store.go over the interface `Files`, of which Archive.Memory is an instance;
-- Base.Path is what it uses of `path/filepath`. Config is internal/config/config.go. Viewer is
-- internal/eewview: Summary is summary.go, Detail detail.go, Listing list.go, and Viewer itself
-- config.go, html.go, sjis.go and the route of server.go. Wnisim.Session is what the fake server
-- reads, and Wnisim.Command what cmd/wnisim/main.go sends; where the ticks of its Keep-Alive
-- goroutine fall among the writes of the loop is an argument. Commands is the replay of
-- cmd/eew-replay/main.go and the log level of cmd/eew-notifier/main.go; Irc.Setup is
-- internal/irc/config.go.
--
-- Bounds. `loop` has 2 * (bytes in the buffer) + 2 rounds of fuel: a round that goes on takes a
-- line or leaves the body mode. `dec` has n + 1 rounds for the digits of n. An `int` is an
-- integer, and `atoi` refuses what 64 bits cannot hold; durations wrap in `int64`. `Send` has
-- the three attempts of the source.
--
-- The environment is a parameter: the clock and the success of the ack writes (`World`), the
-- reads of a connection (`Event`), the passes of the connect loop (`Pass`), the answers of a
-- Slack hook (`Reply`), the fetch of the server list (`Fetched`), `rand.Intn`, the dates of HTTP
-- headers, the hex text of an MD5 sum, the file system (`Files` with the laws `Keeps`, and
-- `Dirs`), `sort.Slice` (with the law `Sorts`), the order of a walk over a map, `%q`, the
-- encoders of golang.org/x/text, the host that `url.Parse` finds, and what the YAML package
-- decodes.
--
-- Not modelled: sockets and their deadlines, logging, the IRC library, the HTTP calls and the
-- HTTP server, the YAML package, the templates of the viewer, and the rest of the commands:
-- flags and signals. `Abs` fails only where the working
-- directory cannot be found, which the model leaves out too.
pub mod App
pub mod Archive
pub mod Commands
pub mod Config
pub mod Viewer
pub mod Base
pub mod Irc
pub mod Notify
pub mod Slack
pub mod Message
pub mod Servers
pub mod Wni
pub mod Wnisim
pub mod Decoder
