-- ===== src/Wnisim/Delivery.antt =====
-- What the fake server sends is what the client's parser reports.
use mathlib.Core.List.{flatten}
use irc_eew.Base.{
  ◌<◌, ◌^◌, ◌≡◌, refl, sym, ◌∙◌, ap, true, some, List, [], ◌∷◌, ◌++◌, arith, length, All,
  append_assoc, append-nil, map, if◌then◌else◌,
}
use irc_eew.Base.Bytes.{Bytes, codes}
use irc_eew.Base.Decimal.{dec}
use irc_eew.Base.Dict.{get, put}
use irc_eew.Base.Int.{ℤ, pos}
use irc_eew.Wni.Frame.{
  Frame, telegram, World, new_parser, fed, failed, drain, feed, id_key, length_key, md5_key,
  ack_message,
}
use irc_eew.Wni.Frame.Blocks.{
  IsToken, reading, header_line, drain-header_line, drain_blank_data, drain_body, dec-IsToken,
  drain-nil, drain_ping,
}
use irc_eew.Wni.Client.{received, Handlers, Call, on_data, waiting, dispatch, run}
use irc_eew.Wni.Client.Delivery.{run-chunks}
use irc_eew.Wnisim.{send_data, send_data_then_get_ping, send_get_ping}

-- The headers of a Data block.
abbrev pub data_header : Bytes → Bytes → List (Bytes × Bytes)
data_header md5 body =
    (id_key, codes "Data") ∷ (length_key, dec (length body)) ∷ (md5_key, md5) ∷ []

-- The frame that the client makes of it.
abbrev pub data_frame_of : Bytes → Bytes → Frame
data_frame_of md5 body = record {
  kind = telegram;
  id = [];
  header = data_header md5 body;
  md5 = md5;
  body = body;
}

-- The bytes of a Data block, line by line.
data_lines :
    (md5 body rest : Bytes)
    → send_data md5 body ++ rest
      ≡ header_line id_key (codes "Data")
        ++ b'\n'
          ∷ (header_line length_key (dec (length body))
              ++ b'\n' ∷ (header_line md5_key md5 ++ b'\n' ∷ b'\n' ∷ (body ++ rest)))
unfolding send_data
data_lines md5 body rest = simp append_assoc

module _ (w : World) (size : ℤ) (sent : List Bytes) where
  -- A Data block at the head of the buffer.
  pub drain-send_data :
      (md5 body rest : Bytes) (frames : List Frame)
      → All IsToken md5
      → length body < 2 ^ 63
      → drain w (reading size sent [] (send_data md5 body ++ rest)) frames
        ≡ drain w (reading (pos (length body)) sent [] rest) (frames ++ data_frame_of md5 body ∷ [])
  unfolding get put
  drain-send_data md5 body rest frames m h =
      ap (λ b. drain w (reading size sent [] b) frames) (data_lines md5 body rest)
      ∙ drain-header_line w size sent [] id_key (codes "Data") _ frames (omega arith) (omega arith)
          (omega arith)
      ∙ drain-header_line w size sent _ length_key (dec (length body)) _ frames (omega arith)
          (omega arith) (dec-IsToken _)
      ∙ drain-header_line w size sent _ md5_key md5 _ frames (omega arith) (omega arith) m
      ∙ drain_blank_data w size sent (data_header md5 body) (length body) _ frames refl refl h
      ∙ drain_body w sent (data_header md5 body) body rest frames

-- What the server sends for some telegrams, each with the hex text of its MD5 sum.
abbrev pub stream : List (Bytes × Bytes) → Bytes
stream [] = []
stream ((md5, body) ∷ ts) = send_data md5 body ++ stream ts

abbrev pub frames_of : List (Bytes × Bytes) → List Frame
frames_of [] = []
frames_of ((md5, body) ∷ ts) = data_frame_of md5 body ∷ frames_of ts

-- The size that the last telegram leaves in the parser.
abbrev pub last_size : ℤ → List (Bytes × Bytes) → ℤ
last_size size [] = size
last_size size ((md5, body) ∷ ts) = last_size (pos (length body)) ts

-- The calls that the telegrams deserve.
abbrev pub calls_of : List (Bytes × Bytes) → List Call
calls_of [] = []
calls_of ((md5, body) ∷ ts) = on_data md5 body ∷ calls_of ts

-- A telegram that the server can announce: its sum is visible text with no `G` in it, as hex
-- digits are, and its length is an `int`.
abbrev pub IsSendable : Bytes × Bytes → Type 0
IsSendable (md5, body) = All IsToken md5 × (length body < 2 ^ 63)

module _ (w : World) (sent : List Bytes) where
  drain-stream :
      (size : ℤ) (ts : List (Bytes × Bytes)) (frames : List Frame)
      → All IsSendable ts
      → drain w (reading size sent [] (stream ts)) frames
        ≡ some (fed (reading (last_size size ts) sent [] []) (frames ++ frames_of ts))
  drain-stream size [] frames h =
      drain-nil w sent size frames ∙ ap (λ fs. some (fed _ fs)) (sym (append-nil frames))
  drain-stream size ((md5, body) ∷ ts) frames h =
      drain-send_data w size sent md5 body (stream ts) frames h.0.0 h.0.1
      ∙ drain-stream (pos (length body)) ts (frames ++ data_frame_of md5 body ∷ []) h.1
      ∙ ap (λ fs. some (fed (reading (last_size (pos (length body)) ts) sent [] []) fs))
          (append_assoc frames (data_frame_of md5 body ∷ []) (frames_of ts))

pub feed-stream :
    (w : World) (ts : List (Bytes × Bytes))
    → All IsSendable ts
    → feed w new_parser (stream ts)
      ≡ some (fed (reading (last_size (pos 0) ts) [] [] []) (frames_of ts))
unfolding feed
feed-stream w ts h = drain-stream w [] (pos 0) ts [] h

pub dispatch-frames_of :
    (h : Handlers) (ts : List (Bytes × Bytes))
    → h.has_data ≡ true
    → dispatch h (frames_of ts) ≡ calls_of ts
unfolding dispatch
dispatch-frames_of h [] e = refl
dispatch-frames_of h ((md5, body) ∷ ts) e =
    rw e (ap (◌∷◌ (on_data md5 body)) (dispatch-frames_of h ts e))

-- Whatever telegrams the server sends in Data blocks, and however the reads of the client cut that
-- stream into chunks, `Run` calls `OnData` once for each telegram, in order, with its bytes and its
-- sum, makes no other call, and then waits for more, if `OnData` is set, each sum is visible text
-- without a `G`, and each length is an `int`.
pub run-stream :
    (w : World) (h : Handlers) (ts : List (Bytes × Bytes)) (chunks : List Bytes)
    → h.has_data ≡ true
    → All IsSendable ts
    → flatten chunks ≡ stream ts
    → run w h new_parser (map received chunks) ≡ (calls_of ts, waiting)
run-stream w h ts chunks e sendable cut_up =
    run-chunks w h new_parser (reading (last_size (pos 0) ts) [] [] []) chunks (feed-stream w [] tt)
      (ap (feed w new_parser) cut_up ∙ feed-stream w ts sendable) refl
    ∙ ap (λ cs. (cs, waiting)) (dispatch-frames_of h ts e)

-- A Data block of a sum without a `G`, and a ping, in one read: the telegram is reported, whether or not the ack can be
-- written; the parser has tried one ack, and holds no header and no byte.
pub feed-send_data_then_get_ping :
    (w : World) (size : ℤ) (sent : List Bytes) (md5 body : Bytes)
    → IsSendable (md5, body)
    → feed w (reading size sent [] []) (send_data_then_get_ping md5 body)
      ≡ some (
          if w.write_ok (length sent)
          then fed
              (reading (pos (length body)) (sent ++ ack_message (w.now (length sent)) ∷ []) [] [])
              (data_frame_of md5 body ∷ [])
          else failed
              (reading (pos (length body)) (sent ++ ack_message (w.now (length sent)) ∷ []) [] [])
              (data_frame_of md5 body ∷ []))
unfolding feed send_data_then_get_ping
feed-send_data_then_get_ping w size sent md5 body h =
    unfold send_data in
    drain-send_data w size sent md5 body send_get_ping [] h.0 h.1
    ∙ drain_ping w (pos (length body)) sent (data_frame_of md5 body ∷ [])
