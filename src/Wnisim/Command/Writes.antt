-- ===== src/Wnisim/Command/Writes.antt =====
-- What the client makes of the writes of a session, one by one, with the Keep-Alive blocks between
-- them.
use mathlib.Core.List.{flatten}
use irc_eew.Base.Bytes.{Bytes}
use irc_eew.Base.Int.{ℤ, pos}
use irc_eew.Base.{
  ℕ, zero, suc, subst, ◌≡◌, refl, ◌∙◌, ap, Bool, true, false, some, List, [], ◌∷◌, ◌++◌, length,
  append-nil, append_assoc, sym, map, if◌then◌else◌,
}
use irc_eew.Wni.Client.Cuts.{Takes, after_calls, quiet-Takes, pinged-Takes}
use irc_eew.Wni.Client.{
  received, Event, Handlers, Call, on_data, on_keep_alive, on_response, Ending, waiting, dispatch,
  run,
}
use irc_eew.Wni.Frame.Blocks.{reading, drain-nil, drain_ping, drain-ping_line}
use irc_eew.Wni.Frame.Response.{alive_frame, keep_alive_fed}
use irc_eew.Wni.Frame.{Frame, Parser, World, fed, feed, drain, ping_line, ack_message}
use irc_eew.Wnisim.Command.{beats, with_ticks}
use irc_eew.Wnisim.Delivery.{
  data_frame_of, IsSendable, drain-send_data, feed-send_data_then_get_ping,
}
use irc_eew.Wnisim.{send_keep_alive, send_data, send_get_ping, send_data_then_get_ping}

-- The reads of each write: they cut it anywhere, and no read holds bytes of two writes.
abbrev pub CutUp : List Bytes → List (List Bytes) → Type 0
CutUp [] [] = Unit
CutUp [] (cs ∷ css) = ⊥
CutUp (b ∷ bs) [] = ⊥
CutUp (b ∷ bs) (cs ∷ css) = (flatten cs ≡ b) × CutUp bs css

abbrev pub reads_of : List (List Bytes) → List Event
reads_of [] = []
reads_of (cs ∷ css) = map received cs ++ reads_of css

-- The calls but for those of `OnKeepAlive`.
unfoldable pub others : List Call → List Call
others [] = []
others (on_keep_alive ∷ calls) = others calls
others (on_data md5 body ∷ calls) = on_data md5 body ∷ others calls
others (on_response header ∷ calls) = on_response header ∷ others calls

-- What a run calls apart from `OnKeepAlive`; it waits then.
abbrev pub Gives : List Call → List Call × Ending → Type 0
Gives calls r = (others r.0 ≡ calls) × (r.1 ≡ waiting)

module _ (w : World) (h : Handlers) (acks_pass : (n : ℕ) → w.write_ok n ≡ true)
    (has_data : h.has_data ≡ true) where
  settled :
      (size : ℤ) (sent : List Bytes)
      → feed w (reading size sent [] []) [] ≡ some (fed (reading size sent [] []) [])
  unfolding feed
  settled size sent = drain-nil w sent size []

  unfoldable pub acked : List Bytes → List Bytes
  acked sent = sent ++ ack_message (w.now (length sent)) ∷ []

  pub data-Takes :
      (size : ℤ) (sent : List Bytes) (md5 body : Bytes)
      → IsSendable (md5, body)
      → Takes w h
          (reading size sent [] [])
          (send_data md5 body)
          (reading (pos (length body)) sent [] [])
          (data_frame_of md5 body ∷ [])
  unfolding feed
  data-Takes size sent md5 body s =
      quiet-Takes w h (reading size sent [] []) (reading (pos (length body)) sent [] [])
        (send_data md5 body) (settled size sent)
        (ap (λ b. drain w (reading size sent [] b) []) (sym (append-nil (send_data md5 body)))
          ∙ drain-send_data w size sent md5 body [] [] s.0 s.1
          ∙ drain-nil w sent (pos (length body)) (data_frame_of md5 body ∷ []))
        refl

  pub ping-Takes :
      (size : ℤ) (sent : List Bytes)
      → Takes w h (reading size sent [] []) send_get_ping (reading size (acked sent) [] []) []
  unfolding feed acked
  ping-Takes size sent =
      pinged-Takes w h (reading size sent [] []) (reading size (acked sent) [] []) ping_line b'\n'
        (reading size sent [] ping_line) (settled size sent) (drain-ping_line w size sent []) refl
        (drain_ping w size sent [] ∙ rw (acks_pass (length sent)) refl)

  pub coalesced-Takes :
      (size : ℤ) (sent : List Bytes) (md5 body : Bytes)
      → IsSendable (md5, body)
      → Takes w h
          (reading size sent [] [])
          (send_data_then_get_ping md5 body)
          (reading (pos (length body)) (acked sent) [] [])
          (data_frame_of md5 body ∷ [])
  unfolding feed acked send_data_then_get_ping send_data
  coalesced-Takes size sent md5 body s chunks events cut_up =
      pinged-Takes w h (reading size sent [] []) (reading (pos (length body)) (acked sent) [] [])
        (send_data md5 body ++ ping_line) b'\n' (reading (pos (length body)) sent [] ping_line)
        (settled size sent)
        (drain-send_data w size sent md5 body ping_line [] s.0 s.1
          ∙ drain-ping_line w (pos (length body)) sent (data_frame_of md5 body ∷ []))
        refl
        (ap (feed w (reading size sent [] []))
            (append_assoc (send_data md5 body) ping_line (b'\n' ∷ []))
          ∙ feed-send_data_then_get_ping w size sent md5 body s
          ∙ rw (acks_pass (length sent)) refl)
        chunks events (cut_up ∙ sym (append_assoc (send_data md5 body) ping_line (b'\n' ∷ [])))

  alive-Takes :
      (size : ℤ) (sent : List Bytes)
      → Takes w h
          (reading size sent [] [])
          send_keep_alive
          (reading size sent [] [])
          (alive_frame ∷ [])
  alive-Takes size sent =
      quiet-Takes w h (reading size sent [] []) (reading size sent [] []) send_keep_alive
        (settled size sent) (keep_alive_fed w size sent) refl

  alive-Gives :
      (calls : List Call) (later : List Call × Ending)
      → Gives calls later
      → Gives calls (after_calls (dispatch h (alive_frame ∷ [])) later)
  unfolding dispatch others
  alive-Gives calls later g = by_handler h.has_keep_alive
    where
      by_handler :
          (b : Bool)
          → Gives calls (after_calls ((if b then on_keep_alive ∷ [] else []) ++ []) later)
      by_handler true = g
      by_handler false = g

  pub data-Gives :
      (md5 body : Bytes) (calls : List Call) (later : List Call × Ending)
      → Gives calls later
      → Gives
          (on_data md5 body ∷ calls)
          (after_calls (dispatch h (data_frame_of md5 body ∷ [])) later)
  unfolding dispatch others
  data-Gives md5 body calls later g = rw has_data (ap (◌∷◌ (on_data md5 body)) g.0, g.1)

  -- The reads of one write, before those of the other writes.
  pub reads-Gives :
      (p q : Parser) (b : Bytes) (frames : List Frame) (bs : List Bytes) (calls later : List Call)
      (css : List (List Bytes))
      → Takes w h p b q frames
      → ((r : List Call × Ending) → Gives later r → Gives calls (after_calls (dispatch h frames) r))
      → ((css' : List (List Bytes)) → CutUp bs css' → Gives later (run w h q (reads_of css')))
      → CutUp (b ∷ bs) css
      → Gives calls (run w h p (reads_of css))
  reads-Gives p q b frames bs calls later [] takes more rest c = elim c [ ]
  reads-Gives p q b frames bs calls later (cs ∷ css) takes more rest c =
      subst (Gives calls) (sym (takes cs (reads_of css) c.0)) (more _ (rest css c.1))

  pub beats-Gives :
      (k : ℕ) (bs : List Bytes) (calls : List Call) (size : ℤ) (sent : List Bytes)
      (css : List (List Bytes))
      → ((css' : List (List Bytes))
          → CutUp bs css'
          → Gives calls (run w h (reading size sent [] []) (reads_of css')))
      → CutUp (beats k bs) css
      → Gives calls (run w h (reading size sent [] []) (reads_of css))
  unfolding beats
  beats-Gives zero bs calls size sent css rest c = rest css c
  beats-Gives (suc k) bs calls size sent css rest c =
      reads-Gives (reading size sent [] []) (reading size sent [] []) send_keep_alive
        (alive_frame ∷ []) (beats k bs) calls calls css (alive-Takes size sent)
        (λ r g. alive-Gives calls r g) (λ css' c'. beats-Gives k bs calls size sent css' rest c') c

  -- A write of the loop, with the ticks before it.
  pub write-Gives :
      (ticks : List ℕ) (size : ℤ) (sent : List Bytes) (q : Parser) (b : Bytes) (frames : List Frame)
      (bs : List Bytes) (calls later : List Call) (css : List (List Bytes))
      → Takes w h (reading size sent [] []) b q frames
      → ((r : List Call × Ending) → Gives later r → Gives calls (after_calls (dispatch h frames) r))
      → ((ticks' : List ℕ) (css' : List (List Bytes))
          → CutUp (with_ticks ticks' bs) css'
          → Gives later (run w h q (reads_of css')))
      → CutUp (with_ticks ticks (b ∷ bs)) css
      → Gives calls (run w h (reading size sent [] []) (reads_of css))
  unfolding with_ticks
  write-Gives [] size sent q b frames bs calls later css takes more rest c =
      reads-Gives (reading size sent [] []) q b frames bs calls later css takes more (rest []) c
  write-Gives (k ∷ ticks) size sent q b frames bs calls later css takes more rest c =
      beats-Gives k (b ∷ with_ticks ticks bs) calls size sent css
        (λ css' c'.
          reads-Gives (reading size sent [] []) q b frames (with_ticks ticks bs) calls later css'
            takes more (rest ticks) c')
        c
