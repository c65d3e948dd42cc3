-- ===== src/Wnisim/Command/Pinged.antt =====
-- What the client makes of a session with pings and Keep-Alive blocks.
use irc_eew.Base.Bytes.{Bytes}
use irc_eew.Base.Int.{ℤ, pos, is_positive}
use irc_eew.Base.{
  ℕ, suc, ◌≡◌, refl, ap, Bool, true, false, Option, none, some, List, [], ◌∷◌, All, if◌then◌else◌,
}
use irc_eew.Wni.Client.Cuts.{Takes, after_calls, quiet-Takes}
use irc_eew.Wni.Client.{Handlers, Call, on_data, on_response, Ending, dispatch, run}
use irc_eew.Wni.Frame.Blocks.{reading}
use irc_eew.Wni.Frame.Response.{response_header, response_frame, response_fed}
use irc_eew.Wni.Frame.{World, new_parser}
use irc_eew.Wnisim.Command.{
  PingMode, before, coalesced, is_ping_due, telegram_writes, then_writes, file_writes, handle_conn,
  with_ticks, telegrams_in,
}
use irc_eew.Wnisim.Delivery.{calls_of, IsSendable, feed-stream}
use irc_eew.Wnisim.{send_data, send_response_ok}
use irc_eew.Wnisim.Command.Writes.{
  CutUp, reads_of, others, Gives, acked, data-Takes, ping-Takes, coalesced-Takes, data-Gives,
  reads-Gives, beats-Gives, write-Gives,
}

module _ (w : World) (h : Handlers) (acks_pass : (n : ℕ) → w.write_ok n ≡ true)
    (has_data : h.has_data ≡ true) where
  -- From the writes of one telegram to those of the others.
  telegram-Gives :
      (md5_hex : Bytes → Bytes) (mode : PingMode) (due : Bool) (n : ℕ) (body : Bytes)
      (later : ℕ → List Bytes) (calls : List Call) (size : ℤ) (sent : List Bytes) (ticks : List ℕ)
      (css : List (List Bytes))
      → IsSendable (md5_hex body, body)
      → ((size' : ℤ) (sent' : List Bytes) (m : ℕ) (ticks' : List ℕ) (css' : List (List Bytes))
          → CutUp (with_ticks ticks' (later m)) css'
          → Gives calls (run w h (reading size' sent' [] []) (reads_of css')))
      → CutUp (with_ticks ticks (telegram_writes md5_hex (λ k. true) mode due n body later)) css
      → Gives
          (on_data (md5_hex body) body ∷ calls)
          (run w h (reading size sent [] []) (reads_of css))
  unfolding telegram_writes then_writes
  telegram-Gives md5_hex before false n body later calls size sent ticks css s rest c =
      write-Gives w h acks_pass has_data ticks size sent _ _ _ (later (suc n)) _ calls css
        (data-Takes w h acks_pass has_data size sent (md5_hex body) body s)
        (data-Gives w h acks_pass has_data (md5_hex body) body calls) (rest _ _ (suc n)) c
  telegram-Gives md5_hex coalesced false n body later calls size sent ticks css s rest c =
      write-Gives w h acks_pass has_data ticks size sent _ _ _ (later (suc n)) _ calls css
        (data-Takes w h acks_pass has_data size sent (md5_hex body) body s)
        (data-Gives w h acks_pass has_data (md5_hex body) body calls) (rest _ _ (suc n)) c
  telegram-Gives md5_hex coalesced true n body later calls size sent ticks css s rest c =
      write-Gives w h acks_pass has_data ticks size sent _ _ _ (later (suc n)) _ calls css
        (coalesced-Takes w h acks_pass has_data size sent (md5_hex body) body s)
        (data-Gives w h acks_pass has_data (md5_hex body) body calls) (rest _ _ (suc n)) c
  telegram-Gives md5_hex before true n body later calls size sent ticks css s rest c =
      let told = on_data (md5_hex body) body ∷ calls in
      write-Gives w h acks_pass has_data ticks size sent _ _ _
        (send_data (md5_hex body) body ∷ later (suc (suc n))) told told css
        (ping-Takes w h acks_pass has_data size sent) (λ r g. unfold dispatch in g)
        (λ ticks' css' c'.
          write-Gives w h acks_pass has_data ticks' size (acked w h acks_pass has_data sent) _ _ _
            (later (suc (suc n))) told calls css'
            (data-Takes w h acks_pass has_data size (acked w h acks_pass has_data sent)
              (md5_hex body) body s)
            (data-Gives w h acks_pass has_data (md5_hex body) body calls) (rest _ _ (suc (suc n)))
            c')
        c

  module _ (md5_hex : Bytes → Bytes) (mode : PingMode) (every : ℕ) where
    session : ℕ → ℕ → List (Option Bytes) → List Bytes
    session i n files = file_writes md5_hex (λ k. true) mode every i n files

    nothing-Gives :
        (size : ℤ) (sent : List Bytes) (css : List (List Bytes))
        → CutUp [] css
        → Gives [] (run w h (reading size sent [] []) (reads_of css))
    unfolding run others
    nothing-Gives size sent [] c = (refl, refl)
    nothing-Gives size sent (cs ∷ css) c = elim c [ ]

    session-Gives :
        (i n : ℕ) (files : List (Option Bytes)) (size : ℤ) (sent : List Bytes) (ticks : List ℕ)
        (css : List (List Bytes))
        → All IsSendable (telegrams_in md5_hex files)
        → CutUp (with_ticks ticks (session i n files)) css
        → Gives
            (calls_of (telegrams_in md5_hex files))
            (run w h (reading size sent [] []) (reads_of css))
    unfolding session file_writes telegrams_in with_ticks
    session-Gives i n [] size sent [] css s c = nothing-Gives size sent css c
    session-Gives i n [] size sent (k ∷ ticks) css s c =
        beats-Gives w h acks_pass has_data k [] [] size sent css (nothing-Gives size sent) c
    session-Gives i n (none ∷ files) size sent ticks css s c =
        session-Gives (suc i) n files size sent ticks css s c
    session-Gives i n (some [] ∷ files) size sent ticks css s c =
        session-Gives (suc i) n files size sent ticks css s c
    session-Gives i n (some (x ∷ body) ∷ files) size sent ticks css s c =
        telegram-Gives md5_hex mode (is_ping_due every i) n (x ∷ body)
          (λ m. session (suc i) m files) (calls_of (telegrams_in md5_hex files)) size sent ticks css
          s.0
          (λ size' sent' m ticks' css' c'.
            session-Gives (suc i) m files size' sent' ticks' css' s.1 c')
          c

response-Takes :
    (w : World) (h : Handlers)
    → Takes w h new_parser send_response_ok new_parser (response_frame ∷ [])
response-Takes w h =
    quiet-Takes w h new_parser new_parser send_response_ok (feed-stream w [] tt) (response_fed w)
      refl

response-Gives :
    (h : Handlers) (calls : List Call) (later : List Call × Ending)
    → h.has_response ≡ true
    → Gives calls later
    → Gives
        (on_response response_header ∷ calls)
        (after_calls (dispatch h (response_frame ∷ [])) later)
unfolding dispatch others
response-Gives h calls later e g = rw e (ap (◌∷◌ (on_response response_header)) g.0, g.1)

-- A session of the command whose writes succeed, with pings of either mode before or behind any of
-- the telegrams, and with any number of Keep-Alive blocks between any two writes: however the reads
-- of the client cut each write, what `Run` calls, apart from `OnKeepAlive`, is `OnResponse` once and
-- then `OnData` once for each file that can be read and is not empty, in order, with its bytes and
-- its sum, and it waits for more, if no read holds bytes of two writes, the acks are written
-- without an error, both handlers are set, each sum is visible text without a `G`, and each length
-- is an `int`.
pub run-handle_conn_pings :
    (w : World) (h : Handlers) (md5_hex : Bytes → Bytes) (mode : PingMode) (every : ℕ)
    (keep_alive : ℤ) (ticks : List ℕ) (files : List (Option Bytes)) (css : List (List Bytes))
    → ((n : ℕ) → w.write_ok n ≡ true)
    → h.has_response ≡ true
    → h.has_data ≡ true
    → All IsSendable (telegrams_in md5_hex files)
    → CutUp (handle_conn md5_hex (λ k. true) mode every keep_alive ticks files) css
    → Gives
        (on_response response_header ∷ calls_of (telegrams_in md5_hex files))
        (run w h new_parser (reads_of css))
unfolding handle_conn then_writes session
run-handle_conn_pings w h md5_hex mode every keep_alive ticks files css acks has_response has_data s
      c =
    let calls = calls_of (telegrams_in md5_hex files) in
    let told = if is_positive keep_alive then ticks else [] in
    reads-Gives w h acks has_data new_parser new_parser send_response_ok (response_frame ∷ [])
      (with_ticks told (file_writes md5_hex (λ k. true) mode every 0 1 files))
      (on_response response_header ∷ calls) calls css (response-Takes w h)
      (λ r g. response-Gives h calls r has_response g)
      (λ css' c'.
        session-Gives w h acks has_data md5_hex mode every 0 1 files (pos 0) [] told css' s c')
      c
