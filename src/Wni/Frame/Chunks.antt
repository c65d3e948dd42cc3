-- ===== src/Wni/Frame/Chunks.antt =====
-- How the bytes are cut into chunks does not matter to `Feed`, as long as no ping is answered on
-- the way: a ping drops what the buffer holds.
mod Filled
use irc_eew.Base.{
  ℕ, zero, suc, ◌≤◌, ◌<◌, ◌≡◌, refl, sym, ◌∙◌, ap, Bool, true, false, Option, none, some, List, [],
  ◌∷◌, ◌++◌, arith, if◌then◌else◌, length, length-append, ◌⊎◌, inl, inr, take-append_of_le,
  drop-append_of_le, append_assoc, append-nil, subst,
}
use irc_eew.Base.Bytes.{Bytes}
use irc_eew.Base.Dict.{get}
use irc_eew.Base.Int.{ℤ, pos, negsuc}
use irc_eew.Base.Trim.{cut, cut-more, trim_cr}
use irc_eew.Wni.Frame.{
  Frame, World, Parser, Round, stops, goes, fails, panics, Line, ping, field, blank, other,
  classify, length_key, on_ping, on_data, on_blank, on_line, take_line, ack_message, line_round,
  body_round, round, Fed, fed, failed, crashed, proceed, loop, measure, filled, drain, feed,
}
use irc_eew.Wni.Frame.Termination.{drain_step, Falls, round-Falls}
use irc_eew.Wni.Frame.Chunks.Filled.{loop_sent, loop-filled, round-Extends, Extends}

-- A result with frames that were found before it.
abbrev pub behind : List Frame → Fed → Fed
behind before (fed p frames) = fed p (before ++ frames)
behind before (failed p frames) = failed p (before ++ frames)
behind before crashed = crashed

abbrev pub map_fed : (Fed → Fed) → Option Fed → Option Fed
map_fed f none = none
map_fed f (some r) = some (f r)

loop-behind :
    (w : World) (before : List Frame) (fuel : ℕ) (p : Parser) (frames : List Frame)
    → loop w fuel p (before ++ frames) ≡ map_fed (behind before) (loop w fuel p frames)
unfolding loop
loop-behind w before zero p frames = refl
loop-behind w before (suc fuel) p frames =
    by_round (round w p) λ q fs. loop-behind w before fuel q fs
  where
    by_round :
        (r : Round)
        → ((q : Parser) (fs : List Frame)
            → loop w fuel q (before ++ fs) ≡ map_fed (behind before) (loop w fuel q fs))
        → proceed (loop w fuel) p (before ++ frames) r
          ≡ map_fed (behind before) (proceed (loop w fuel) p frames r)
    by_round stops later = refl
    by_round (goes q new) later =
        ap (loop w fuel q) (append_assoc before frames new) ∙ later q (frames ++ new)
    by_round (fails q) later = refl
    by_round panics later = refl

drain-behind :
    (w : World) (p : Parser) (frames : List Frame)
    → drain w p frames ≡ map_fed (behind frames) (drain w p [])
unfolding drain
drain-behind w p frames =
    let fuel = suc (measure p) in
    ap (loop w fuel p) (sym (append-nil frames)) ∙ loop-behind w frames fuel p []

-- If `Feed` takes a first chunk and answers no ping on the way, then feeding it the two chunks at
-- once gives what feeding them one after the other gives: the same frames in the same order, the
-- same parser, the same error or crash.
pub feed-append :
    (w : World) (p q : Parser) (first more : Bytes) {frames : List Frame}
    → feed w p first ≡ some (fed q frames)
    → length q.sent ≡ length p.sent
    → feed w p (first ++ more) ≡ map_fed (behind frames) (feed w q more)
unfolding feed
feed-append w p q first more {frames} e quiet =
    ap (λ b. drain w (record p { buf = b }) []) (sym (append_assoc p.buf first more))
    ∙ unfold drain in
      loop-filled w more (suc (measure (filled p first))) (filled p first) [] e quiet
      ∙ drain-behind w (filled q more) frames

-- If the longer buffer is taken with no ping on the way, then so is the shorter one.
loop-prefix :
    (w : World) (more : Bytes) (m n : ℕ) (p : Parser) (frames from : List Frame) {q : Parser}
    {out : List Frame}
    → measure p < m
    → loop w n (filled p more) frames ≡ some (fed q out)
    → length q.sent ≡ length p.sent
    → (r : Parser) × (fs : List Frame) × (loop w m p from ≡ some (fed r fs))
      × (length r.sent ≡ length p.sent)
unfolding loop
loop-prefix w more zero n p frames from lt e quiet = absurd (omega arith)
loop-prefix w more (suc m) zero p frames from lt e quiet = absurd (cc)
loop-prefix w more (suc m) (suc n) p frames from {q} {out} lt e quiet =
    by_round (round w p) (round-Extends w p more) (round-Falls w p)
      λ r fs gs. loop-prefix w more m n r fs gs {q = q} {out = out}
  where
    long : Round → Option Fed
    long = proceed (loop w n) (filled p more) frames

    Quiet : Option Fed → Type 0
    Quiet o =
        (r : Parser) × (fs : List Frame) × (o ≡ some (fed r fs)) × (length r.sent ≡ length p.sent)

    by_round :
        (r : Round)
        → Extends p more r (round w (filled p more))
        → Falls (measure p) r
        → ((r : Parser) (fs gs : List Frame)
            → measure r < m
            → loop w n (filled r more) fs ≡ some (fed q out)
            → length q.sent ≡ length r.sent
            → (x : Parser) × (xs : List Frame) × (loop w m r gs ≡ some (fed x xs))
              × (length x.sent ≡ length r.sent))
        → Quiet (proceed (loop w m) p from r)
    by_round stops x f later = (p, from, refl, refl)
    by_round (goes r new) (inl x) f later =
        let same = ap length x.1 in
        let (y, ys, found, calm) =
          later r (frames ++ new) (from ++ new) (omega arith) (sym (ap long x.0) ∙ e)
            (quiet ∙ sym same) in
        (y, ys, found, calm ∙ same)
    by_round (goes r new) (inr x) f later =
        absurd (omega (arith, loop_sent w n r (frames ++ new) (sym (ap long x.0) ∙ e), x.1))
    by_round (fails r) x f later = absurd (cc (ap long x.1))
    by_round panics x f later = absurd (cc)

pub feed-prefix :
    (w : World) (p q : Parser) (first more : Bytes) {out : List Frame}
    → feed w p (first ++ more) ≡ some (fed q out)
    → length q.sent ≡ length p.sent
    → (r : Parser) × (fs : List Frame) × (feed w p first ≡ some (fed r fs))
      × (length r.sent ≡ length p.sent)
unfolding feed drain
feed-prefix w p q first more {out} e quiet =
    let long = record p { buf = p.buf ++ (first ++ more) } in
    loop-prefix w more (suc (measure (filled p first))) (suc (measure long)) (filled p first) [] []
      (omega arith)
      (subst (λ b. loop w (suc (measure long)) (record p { buf = b }) [] ≡ some (fed q out))
        (sym (append_assoc p.buf first more)) e)
      quiet

loop_stops :
    (w : World) (n : ℕ) (p : Parser) (frames : List Frame) {q : Parser} {out : List Frame}
    → loop w n p frames ≡ some (fed q out)
    → round w q ≡ stops
unfolding loop
loop_stops w zero p frames e = absurd (cc)
loop_stops w (suc n) p frames {q} {out} e =
    by_round (round w p) refl e λ r fs. loop_stops w n r fs {q = q} {out = out}
  where
    by_round :
        (r : Round)
        → round w p ≡ r
        → proceed (loop w n) p frames r ≡ some (fed q out)
        → ((r : Parser) (fs : List Frame) → loop w n r fs ≡ some (fed q out) → round w q ≡ stops)
        → round w q ≡ stops
    by_round stops x e later = cc
    by_round (goes r new) x e later = later r (frames ++ new) e
    by_round (fails r) x e later = absurd (cc)
    by_round panics x e later = absurd (cc)

-- `Feed` leaves nothing undone: fed no bytes, the parser that it returns does nothing.
pub feed-settled :
    (w : World) (p q : Parser) (chunk : Bytes) {frames : List Frame}
    → feed w p chunk ≡ some (fed q frames)
    → feed w q [] ≡ some (fed q [])
unfolding feed proceed
feed-settled w p q chunk e =
    ap (λ b. drain w (record q { buf = b }) []) (append-nil q.buf)
    ∙ drain_step w q []
    ∙ ap (proceed (drain w) q [])
        (unfold drain in loop_stops w (suc (measure (filled p chunk))) (filled p chunk) [] e)

-- What was found behind some frames.
pub behind-fed :
    (before frames : List Frame) (q : Parser) (o : Option Fed)
    → map_fed (behind before) o ≡ some (fed q frames)
    → (gs : List Frame) × (o ≡ some (fed q gs)) × (frames ≡ before ++ gs)
behind-fed before frames q none e = absurd (cc)
behind-fed before frames q (some (fed r gs)) e = (gs, ground arith, ground arith)
behind-fed before frames q (some (failed r gs)) e = absurd (ground arith)
behind-fed before frames q (some crashed) e = absurd (ground arith)
