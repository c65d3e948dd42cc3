-- ===== src/Wnisim/Command/Received.antt =====
-- What the client makes of a session with the command.
use mathlib.Core.List.{flatten}
use irc_eew.Base.Bytes.{Bytes}
use irc_eew.Base.Int.{ℤ, pos, is_positive}
use irc_eew.Base.{
  ℕ, false, ◌≡◌, refl, ◌∙◌, ap, true, Option, some, List, [], ◌∷◌, ◌++◌, map, All, if◌then◌else◌,
}
use irc_eew.Wni.Client.Delivery.{run-chunks}
use irc_eew.Wni.Client.{received, Handlers, on_response, waiting, dispatch, run}
use irc_eew.Wni.Frame.Blocks.{reading}
use irc_eew.Wni.Frame.Response.{response_header, response_frame, response_fed}
use irc_eew.Wni.Frame.Chunks.{map_fed, behind, feed-append}
use irc_eew.Wni.Frame.{World, new_parser, fed, feed}
use irc_eew.Wnisim.Command.{
  PingMode, handle_conn, with_ticks, file_writes, telegrams_in, file_writes-stream,
}
use irc_eew.Wnisim.Delivery.{
  stream, frames_of, last_size, calls_of, IsSendable, feed-stream, dispatch-frames_of,
}
use irc_eew.Wnisim.{send_response_ok}

-- The bytes of a session without pings.
handle_conn-stream :
    (md5_hex : Bytes → Bytes) (mode : PingMode) (keep_alive : ℤ) (ticks : List ℕ)
    (files : List (Option Bytes))
    → is_positive keep_alive ≡ false
    → flatten (handle_conn md5_hex (λ k. true) mode 0 keep_alive ticks files)
      ≡ send_response_ok ++ stream (telegrams_in md5_hex files)
unfolding handle_conn with_ticks flatten
handle_conn-stream md5_hex mode keep_alive ticks files off =
    ap
      (λ on.
        send_response_ok
        ++ flatten (
            with_ticks (if on then ticks else [])
              (file_writes md5_hex (λ k. true) mode 0 0 1 files)))
      off
    ∙ ap (λ s. send_response_ok ++ s) (file_writes-stream md5_hex mode 0 1 files)

feed-session :
    (w : World) (ts : List (Bytes × Bytes))
    → All IsSendable ts
    → feed w new_parser (send_response_ok ++ stream ts)
      ≡ some (fed (reading (last_size (pos 0) ts) [] [] []) (response_frame ∷ frames_of ts))
feed-session w ts sendable =
    feed-append w new_parser new_parser send_response_ok (stream ts) (response_fed w) refl
    ∙ ap (map_fed (behind (response_frame ∷ []))) (feed-stream w ts sendable)

-- A session of the command without pings and with the Keep-Alive blocks turned off, whose writes
-- succeed: however the reads of the client cut the bytes, `Run` calls `OnResponse` once and then `OnData` once for each file that can be read and
-- is not empty, in order, with its bytes and its sum, and waits for more, if both handlers are set,
-- each sum is visible text without a `G`, and each length is an `int`.
pub run-handle_conn :
    (w : World) (h : Handlers) (md5_hex : Bytes → Bytes) (mode : PingMode) (keep_alive : ℤ)
    (ticks : List ℕ) (files : List (Option Bytes)) (chunks : List Bytes)
    → is_positive keep_alive ≡ false
    → h.has_response ≡ true
    → h.has_data ≡ true
    → All IsSendable (telegrams_in md5_hex files)
    → flatten chunks ≡ flatten (handle_conn md5_hex (λ k. true) mode 0 keep_alive ticks files)
    → run w h new_parser (map received chunks)
      ≡ (on_response response_header ∷ calls_of (telegrams_in md5_hex files), waiting)
unfolding dispatch
run-handle_conn w h md5_hex mode keep_alive ticks files chunks off has_response has_data sendable
      cut_up =
    let ts = telegrams_in md5_hex files in
    run-chunks w h new_parser (reading (last_size (pos 0) ts) [] [] []) chunks (feed-stream w [] tt)
      (ap (feed w new_parser) (cut_up ∙ handle_conn-stream md5_hex mode keep_alive ticks files off)
        ∙ feed-session w ts sendable)
      refl
    ∙ ap
        (λ b. (
          (if b then on_response response_header ∷ [] else []) ++ dispatch h (frames_of ts),
          waiting,
        ))
        has_response
    ∙ ap (λ cs. (on_response response_header ∷ cs, waiting)) (dispatch-frames_of h ts has_data)
