-- ===== src/Wni/Client/Delivery.antt =====
-- From the bytes on the wire to the calls of the handlers.
use irc_eew.Base.{
  ◌≡◌, refl, sym, ◌∙◌, ap, some, List, [], ◌∷◌, ◌++◌, arith, length, append_assoc, map,
}
use mathlib.Core.List.{flatten}
use irc_eew.Base.Bytes.{Bytes}
use irc_eew.Wni.Client.{received, Handlers, Call, Ending, waiting, dispatch, after_feed, run}
use irc_eew.Wni.Frame.Chunks.{feed-append, feed-prefix, feed-settled, behind-fed}
use irc_eew.Wni.Frame.{Frame, World, Parser, fed, feed}

pub dispatch-append :
    (h : Handlers) (fs gs : List Frame) → dispatch h (fs ++ gs) ≡ dispatch h fs ++ dispatch h gs
unfolding dispatch
dispatch-append h [] gs = refl
dispatch-append h (f ∷ fs) gs = rw (dispatch-append h fs gs, append_assoc)

-- Reading in chunks, from a parser that does nothing without new bytes: if `Feed` takes all the bytes
-- at once and answers no ping, then `Run` makes the calls for its frames however the reads cut
-- the bytes, and waits for more.
pub run-chunks :
    (w : World) (h : Handlers) (p q : Parser) (chunks : List Bytes) {frames : List Frame}
    → feed w p [] ≡ some (fed p [])
    → feed w p (flatten chunks) ≡ some (fed q frames)
    → length q.sent ≡ length p.sent
    → run w h p (map received chunks) ≡ (dispatch h frames, waiting)
unfolding run flatten dispatch
run-chunks w h p q [] {frames} rest e quiet = ap (λ fs. (dispatch h fs, waiting)) none_found
  where
    none_found : [] ≡ frames
    none_found = ground arith
run-chunks w h p q (c ∷ chunks) {frames} rest e quiet =
    let (r, fs, first, calm) = feed-prefix w p q c (flatten chunks) e quiet in
    let both = feed-append w p r c (flatten chunks) first calm in
    let (gs, later, parted) = behind-fed fs frames q _ (sym both ∙ e) in
    let calls = run-chunks w h r q chunks (feed-settled w p r c first) later (quiet ∙ sym calm) in
    ap (after_feed h (λ x. run w h x (map received chunks))) first
    ∙ ap (λ (x : List Call × Ending). (dispatch h fs ++ x.0, x.1)) calls
    ∙ ap (λ cs. (cs, waiting)) (sym (ap (dispatch h) parted ∙ dispatch-append h fs gs))
