-- ===== src/Wni/Frame/Chunks/Filled.antt =====
-- A round and the loop over a buffer with more bytes behind it.
use irc_eew.Base.{
  ℕ, zero, suc, ◌≤◌, ◌≡◌, refl, sym, ◌∙◌, ap, Bool, true, false, Option, none, some, List, [], ◌∷◌,
  ◌++◌, arith, if◌then◌else◌, length, length-append, ◌⊎◌, inl, inr, take-append_of_le,
  drop-append_of_le,
}
use irc_eew.Base.Bytes.{Bytes}
use irc_eew.Base.Dict.{get}
use irc_eew.Base.Int.{ℤ, pos, negsuc}
use irc_eew.Base.Trim.{cut, cut-more, trim_cr}
use irc_eew.Wni.Frame.{
  Frame, World, Parser, Round, stops, goes, fails, panics, Line, ping, field, blank, other,
  classify, length_key, on_ping, on_data, on_blank, on_line, take_line, ack_message, line_round,
  body_round, round, fed, proceed, loop, filled, drain,
}
use irc_eew.Wni.Frame.Termination.{drain_step}

-- `r` and `s` are rounds of `p` without and with `more` bytes behind its buffer: if the first goes
-- on, the second does the same, and keeps the bytes unless it answered a ping.
abbrev pub Extends : Parser → Bytes → Round → Round → Type 0
Extends p more stops s = Unit
Extends p more (goes q new) s =
    ((s ≡ goes (filled q more) new) × (q.sent ≡ p.sent))
    ⊎ ((s ≡ goes q new) × (length q.sent ≡ suc (length p.sent)))
Extends p more (fails q) s = (r : Parser) × (s ≡ fails r)
Extends p more panics s = s ≡ panics

on_ping-Extends :
    (w : World) (p : Parser) (more : Bytes)
    → Extends p more (on_ping w p) (on_ping w (filled p more))
unfolding on_ping
on_ping-Extends w p more = by_write (w.write_ok (length p.sent)) refl
  where
    asked : Parser → Parser
    asked r = record r { sent = p.sent ++ ack_message (w.now (length p.sent)) ∷ [] }

    sent : length (p.sent ++ ack_message (w.now (length p.sent)) ∷ []) ≡ suc (length p.sent)
    sent = omega (arith, length-append p.sent (ack_message (w.now (length p.sent)) ∷ []))

    by_write :
        (b : Bool)
        → w.write_ok (length p.sent) ≡ b
        → Extends p more (on_ping w p) (on_ping w (filled p more))
    by_write true e = rw (e, on_ping) (inr (refl, sent))
    by_write false e = rw (e, on_ping) (asked (filled p more), refl)

on_data-Extends :
    (p : Parser) (more : Bytes) (o : Option Bytes)
    → Extends p more (on_data p o) (on_data (filled p more) o)
unfolding on_data
on_data-Extends p more o = ground arith

on_line-Extends :
    (w : World) (p : Parser) (more : Bytes) (line : Line)
    → Extends p more (on_line w p line) (on_line w (filled p more) line)
unfolding on_line on_blank
on_line-Extends w p more ping = on_ping-Extends w p more
on_line-Extends w p more (field name val) = inl (refl, refl)
on_line-Extends w p more blank = ground (arith, on_data-Extends p more (get length_key p.header))
on_line-Extends w p more other = inl (refl, refl)

take_line-Extends :
    (w : World) (p : Parser) (more : Bytes) (o : Option (Bytes × Bytes))
    → cut b'\n' p.buf ≡ o
    → Extends p more (take_line w p o) (line_round w (filled p more))
unfolding take_line line_round
take_line-Extends w p more none e = tt
take_line-Extends w p more (some (line, rest)) e =
    rw (cut-more b'\n' p.buf more e)
      (on_line-Extends w (record p { buf = rest }) more (classify (trim_cr line)))

body_round-Extends :
    (p : Parser) (more : Bytes) (n : ℤ)
    → Extends p more (body_round p n) (body_round (filled p more) n)
unfolding body_round
body_round-Extends p more (negsuc n) = refl
body_round-Extends p more (pos n) = ground (
  arith,
  length-append p.buf more,
  take-append_of_le n p.buf more,
  drop-append_of_le n p.buf more,
)

pub round-Extends :
    (w : World) (p : Parser) (more : Bytes) → Extends p more (round w p) (round w (filled p more))
unfolding round
round-Extends w p more = by_mode p.has_size
  where
    by_mode :
        (b : Bool)
        → Extends p more
            (if b then body_round p p.size else line_round w p)
            (if b then body_round (filled p more) p.size else line_round w (filled p more))
    by_mode true = body_round-Extends p more p.size
    by_mode false = unfold line_round in take_line-Extends w p more (cut b'\n' p.buf) refl

-- Acks are only added.
pub loop_sent :
    (w : World) (fuel : ℕ) (p : Parser) (frames : List Frame) {q : Parser} {out : List Frame}
    → loop w fuel p frames ≡ some (fed q out)
    → length p.sent ≤ length q.sent
unfolding loop
loop_sent w zero p frames e = absurd (cc)
loop_sent w (suc fuel) p frames {q} {out} e =
    by_round (round w p) (round-Extends w p []) e λ r fs. loop_sent w fuel r fs
  where
    by_round :
        (r : Round)
        → Extends p [] r (round w (filled p []))
        → proceed (loop w fuel) p frames r ≡ some (fed q out)
        → ((r : Parser) (fs : List Frame)
            → loop w fuel r fs ≡ some (fed q out)
            → length r.sent ≤ length q.sent)
        → length p.sent ≤ length q.sent
    by_round stops x e later = ground arith
    by_round (goes r new) (inl x) e later = omega (arith, later r (frames ++ new) e, ap length x.1)
    by_round (goes r new) (inr x) e later = omega (arith, later r (frames ++ new) e, x.1)
    by_round (fails r) x e later = absurd (cc)
    by_round panics x e later = absurd (cc)

-- The loop over a longer buffer does all that it does over the shorter one, and then goes on.
pub loop-filled :
    (w : World) (more : Bytes) (fuel : ℕ) (p : Parser) (frames : List Frame) {q : Parser}
    {out : List Frame}
    → loop w fuel p frames ≡ some (fed q out)
    → length q.sent ≡ length p.sent
    → drain w (filled p more) frames ≡ drain w (filled q more) out
unfolding loop
loop-filled w more zero p frames e quiet = absurd (cc)
loop-filled w more (suc fuel) p frames {q} {out} e quiet =
    by_round (round w p) (round-Extends w p more) e λ r fs. loop-filled w more fuel r fs
  where
    by_round :
        (r : Round)
        → Extends p more r (round w (filled p more))
        → proceed (loop w fuel) p frames r ≡ some (fed q out)
        → ((r : Parser) (fs : List Frame)
            → loop w fuel r fs ≡ some (fed q out)
            → length q.sent ≡ length r.sent
            → drain w (filled r more) fs ≡ drain w (filled q more) out)
        → drain w (filled p more) frames ≡ drain w (filled q more) out
    by_round stops x e later = cc
    by_round (goes r new) (inl x) e later =
        drain_step w (filled p more) frames
        ∙ ap (proceed (drain w) (filled p more) frames) x.0
        ∙ later r (frames ++ new) e (quiet ∙ sym (ap length x.1))
    by_round (goes r new) (inr x) e later =
        absurd (omega (arith, loop_sent w fuel r (frames ++ new) e, x.1))
    by_round (fails r) x e later = absurd (cc)
    by_round panics x e later = absurd (cc)
