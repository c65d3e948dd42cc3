-- ===== src/Wnisim/Tests.antt =====
-- The simulated server and the client on small inputs.
use irc_eew.Wnisim.Session.Login.{InLine, IsField, login_headers, await_login-login_request}
use irc_eew.Wnisim.Session.{arrivals, read_from, logged_in, await_login}
use irc_eew.Wnisim.Command.Pinged.{run-handle_conn_pings}
use irc_eew.Wnisim.Command.Writes.{reads_of, Gives}
use irc_eew.Wnisim.Command.Received.{run-handle_conn}
use irc_eew.Wnisim.Command.{before, file_writes, handle_conn, with_ticks, telegrams_in}
use irc_eew.Wni.Frame.Response.{response_header}
use irc_eew.Base.Trim.{trim_space}
use mathlib.Core.List.{flatten}
use irc_eew.Base.{
  ℕ, All, append-nil, true, ◌≡◌, refl, Option, none, some, List, [], ◌∷◌, arith, map,
}
use irc_eew.Base.Bytes.{Bytes, codes}
use irc_eew.Base.Decimal.{dec}
use irc_eew.Base.Int.{ℤ, pos}
use irc_eew.Wni.Client.{Handlers, login_request, on_response, received, waiting, run}
use irc_eew.Wni.Frame.Blocks.{reading}
use irc_eew.Wni.Frame.{World, new_parser, fed, feed, ack_message}
use irc_eew.Wnisim.Delivery.{
  stream, calls_of, data_frame_of, run-stream, feed-send_data_then_get_ping,
}
use irc_eew.Wnisim.{send_data, send_data_then_get_ping}

abbrev world : World
world = record { now = λ n. codes "2011/03/11 05:46:16.000000"; write_ok = λ n. true }

abbrev handlers : Handlers
handlers = record { has_data = true; has_keep_alive = true; has_response = true }

abbrev telegrams : List (Bytes × Bytes)
telegrams = (codes "0cc175b9", codes "37 03") ∷ (codes "92eb5ffe", codes "9999=\n") ∷ []

run-stream_example :
    run world handlers new_parser (map received (stream telegrams ∷ []))
    ≡ (calls_of telegrams, waiting)
unfolding flatten
run-stream_example =
    run-stream world handlers telegrams (stream telegrams ∷ []) refl (omega arith)
      (append-nil (stream telegrams))

feed-send_data_then_get_ping_example :
    feed world
      (reading (pos 0) [] [] [])
      (send_data_then_get_ping (codes "0cc175b9") (codes "37 03"))
    ≡ some (
        fed
          (reading (pos 5) (ack_message (codes "2011/03/11 05:46:16.000000") ∷ []) [] [])
          (data_frame_of (codes "0cc175b9") (codes "37 03") ∷ []))
feed-send_data_then_get_ping_example =
    feed-send_data_then_get_ping world (pos 0) [] (codes "0cc175b9") (codes "37 03") (omega arith)

abbrev stamp : Bytes
stamp = codes "2011/03/11 14:46:51.000000"

text-IsField : (s : Bytes) → All InLine s → trim_space s ≡ s → IsField s
text-IsField s h e = record { in_line = h; trimmed = e }

await_login-login_request_example :
    await_login (arrivals (read_from [] (login_request (codes "user") (codes "d41d8cd9") stamp)))
    ≡ (login_headers (codes "user") (codes "d41d8cd9") stamp, logged_in)
unfolding trim_space
await_login-login_request_example =
    await_login-login_request (codes "user") (codes "d41d8cd9") stamp
      (text-IsField (codes "user") (omega arith) refl)
      (text-IsField (codes "d41d8cd9") (omega arith) refl) (text-IsField stamp (omega arith) refl)

-- A file that cannot be read, one of three bytes, and an empty one.
abbrev files : List (Option Bytes)
files = none ∷ some (codes "abc") ∷ some [] ∷ []

abbrev md5_of : Bytes → Bytes
md5_of s = codes "d41d8cd9"

run-handle_conn_example :
    run world handlers new_parser
      (map received (flatten (handle_conn md5_of (λ k. true) before 0 (pos 0) [] files) ∷ []))
    ≡ (on_response response_header ∷ calls_of (telegrams_in md5_of files), waiting)
unfolding flatten telegrams_in
run-handle_conn_example =
    run-handle_conn world handlers md5_of before (pos 0) [] files
      (flatten (handle_conn md5_of (λ k. true) before 0 (pos 0) [] files) ∷ []) refl refl refl
      ((omega arith, omega arith), tt) (append-nil _)

-- Two reads for the answer, and one for each other write.
abbrev cuts : List (List Bytes)
cuts =
    (codes "HTTP/1.0 200 OK\nX-WNI-ID: Res"
      ∷ codes "ponse\nX-WNI-Result: OK\nX-WNI-Protocol-Version: 2.1\n\n"
      ∷ [])
    ∷ (codes "GET / H" ∷ codes "TTP/1.1\n" ∷ [])
    ∷ (codes "X-WNI-ID: Keep" ∷ codes "-Alive\n\n" ∷ [])
    ∷ (send_data (codes "d41d8cd9") (codes "abc") ∷ [])
    ∷ []

-- Keep-Alive every 30 seconds, with one tick between the ping and the telegram.
abbrev every_30_seconds : ℤ
every_30_seconds = pos 30000000000

abbrev ticks : List ℕ
ticks = 0 ∷ 1 ∷ []

run-handle_conn_pings_example :
    Gives
      (on_response response_header ∷ calls_of (telegrams_in md5_of files))
      (run world handlers new_parser (reads_of cuts))
unfolding flatten telegrams_in handle_conn file_writes with_ticks send_data dec
run-handle_conn_pings_example =
    run-handle_conn_pings world handlers md5_of before 1 every_30_seconds ticks files cuts
      (λ n. refl) refl refl ((omega arith, omega arith), tt) (refl, (refl, (refl, (refl, tt))))
