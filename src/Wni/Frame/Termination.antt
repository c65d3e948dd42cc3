-- ===== src/Wni/Frame/Termination.antt =====
-- The loop of `Feed` ends, and how much fuel it has does not matter.
use irc_eew.Base.{
  ℕ, zero, suc, ◌+◌, ◌*◌, ◌≤◌, ◌<◌, ◌≡◌, refl, Bool, true, false, Option, none, some, List, [], ◌∷◌,
  ◌++◌, arith, if◌then◌else◌, length, length-drop, Option-cases, inl, inr, subst,
}
use irc_eew.Base.Bytes.{Bytes}
use irc_eew.Base.Int.{ℤ, pos, negsuc}
use irc_eew.Base.Trim.{cut, trim_cr}
use irc_eew.Base.Dict.{get}
use irc_eew.Wni.Frame.{
  Frame, World, Parser, Round, stops, goes, fails, panics, on_ping, on_data, on_blank, ping, field,
  blank, other, Line, classify, length_key, on_line, take_line, line_round, body_round, round, Fed,
  fed, failed, crashed, proceed, loop, filled, measure, drain, feed,
}

length-cut :
    (c : ℕ) (s : Bytes) {before after : Bytes}
    → cut c s ≡ some (before, after)
    → length s ≡ suc (length before + length after)
unfolding cut
length-cut c [] h = absurd (cc)
length-cut c (x ∷ s) {before} {after} h = elim (Option-cases (cut c s)) [
  | inl e ↦ ground arith
  | inr ((b, a), e) ↦ ground (arith, length-cut c s {before = b} {after = a} e)
]

-- The next parser is below `n` in the measure.
abbrev pub Falls : ℕ → Round → Type 0
Falls n (goes q _) = measure q < n
Falls n _ = Unit

on_data-Falls :
    (p : Parser) (o : Option Bytes)
    → p.has_size ≡ false
    → Falls (2 * length p.buf + 2) (on_data p o)
unfolding on_data
on_data-Falls p o h = ground arith

on_line-Falls :
    (w : World) (p : Parser) (line : Line)
    → p.has_size ≡ false
    → Falls (2 * length p.buf + 2) (on_line w p line)
unfolding on_line on_ping on_blank
on_line-Falls w p ping h = ground arith
on_line-Falls w p (field name val) h = ground arith
on_line-Falls w p blank h = ground (arith, on_data-Falls p (get length_key p.header) h)
on_line-Falls w p other h = ground arith

body_round-Falls : (p : Parser) (n : ℤ) → Falls (2 * length p.buf + 1) (body_round p n)
unfolding body_round
body_round-Falls p (negsuc n) = tt
body_round-Falls p (pos n) = ground (arith, length-drop n p.buf)

Falls-le : {m n : ℕ} → m ≤ n → (r : Round) → Falls m r → Falls n r
Falls-le le stops f = tt
Falls-le le (goes q new) f = omega arith
Falls-le le (fails q) f = tt
Falls-le le panics f = tt

take_line-Falls :
    (w : World) (p : Parser) (o : Option (Bytes × Bytes))
    → cut b'\n' p.buf ≡ o
    → p.has_size ≡ false
    → Falls (2 * length p.buf) (take_line w p o)
unfolding take_line
take_line-Falls w p none e h = tt
take_line-Falls w p (some (line, rest)) e h =
    Falls-le (omega (arith, length-cut b'\n' p.buf e)) _
      (on_line-Falls w (record p { buf = rest }) (classify (trim_cr line)) h)

line_round-Falls :
    (w : World) (p : Parser) → p.has_size ≡ false → Falls (2 * length p.buf) (line_round w p)
unfolding line_round
line_round-Falls w p h = take_line-Falls w p (cut b'\n' p.buf) refl h

pub round-Falls : (w : World) (p : Parser) → Falls (measure p) (round w p)
unfolding round
round-Falls w p = by_mode p.has_size refl
  where
    by_mode :
        (b : Bool)
        → p.has_size ≡ b
        → Falls
            (2 * length p.buf + (if b then 1 else 0))
            (if b then body_round p p.size else line_round w p)
    by_mode true h = body_round-Falls p p.size
    by_mode false h = subst (λ n. Falls n (line_round w p)) (omega arith) (line_round-Falls w p h)

proceed_congr :
    (again again' : Parser → List Frame → Option Fed) (p : Parser) (frames : List Frame) (r : Round)
    → Falls (measure p) r
    → ((q : Parser) (fs : List Frame) → measure q < measure p → again q fs ≡ again' q fs)
    → proceed again p frames r ≡ proceed again' p frames r
unfolding proceed
proceed_congr again again' p frames stops f same = refl
proceed_congr again again' p frames (goes q new) f same = same q (frames ++ new) f
proceed_congr again again' p frames (fails q) f same = refl
proceed_congr again again' p frames panics f same = refl

-- Fuel above the measure is enough, and more of it changes nothing.
loop-fuel :
    (w : World) (m n : ℕ) (p : Parser) (frames : List Frame)
    → measure p < m
    → measure p < n
    → loop w m p frames ≡ loop w n p frames
unfolding loop
loop-fuel w zero n p frames h k = absurd (omega arith)
loop-fuel w (suc m) zero p frames h k = absurd (omega arith)
loop-fuel w (suc m) (suc n) p frames h k =
    proceed_congr (loop w m) (loop w n) p frames (round w p) (round-Falls w p)
      λ q fs lt. loop-fuel w m n q fs (omega arith) (omega arith)

-- The equation of the loop, with no fuel in it.
pub drain_step :
    (w : World) (p : Parser) (frames : List Frame)
    → drain w p frames ≡ proceed (drain w) p frames (round w p)
unfolding drain
drain_step w p frames =
    unfold loop in
    proceed_congr (loop w (measure p)) (drain w) p frames (round w p) (round-Falls w p)
      λ q fs lt. loop-fuel w (measure p) (suc (measure q)) q fs lt (omega arith)

loop_total :
    (w : World) (fuel : ℕ) (p : Parser) (frames : List Frame)
    → measure p < fuel
    → (r : Fed) × (loop w fuel p frames ≡ some r)
unfolding loop
loop_total w zero p frames h = absurd (omega arith)
loop_total w (suc fuel) p frames h =
    by_round (round w p) (round-Falls w p) λ q fs lt. loop_total w fuel q fs (omega arith)
  where
    by_round :
        (r : Round)
        → Falls (measure p) r
        → ((q : Parser) (fs : List Frame)
            → measure q < measure p
            → (x : Fed) × (loop w fuel q fs ≡ some x))
        → (x : Fed) × (proceed (loop w fuel) p frames r ≡ some x)
    by_round stops f later = (fed p frames, unfold proceed in refl)
    by_round (goes q new) f later = unfold proceed in later q (frames ++ new) f
    by_round (fails q) f later = (failed q frames, unfold proceed in refl)
    by_round panics f later = (crashed, unfold proceed in refl)

-- The loop of `Feed` ends, for every parser, every chunk and every behaviour of the ack writer,
-- within the fuel that the model gives it: `Feed` returns its frames, returns an error, or panics.
pub feed_total : (w : World) (p : Parser) (chunk : Bytes) → (r : Fed) × (feed w p chunk ≡ some r)
unfolding feed
feed_total w p chunk =
    loop_total w (suc (measure (filled p chunk))) (filled p chunk) [] (omega arith)
