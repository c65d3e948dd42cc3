-- ===== src/Irc/Connection/Writer/Safety.antt =====
-- What no order of the steps can do.
use irc_eew.Base.{ℕ, ◌<◌, ◌≡◌, refl, ◌∙◌, ap, false, Option, arith, if◌then◌else◌, inl, inr, ◌⊎◌}
use irc_eew.Base.Bytes.{Bytes}
use irc_eew.Irc.Connection.Writer.{
  waiting, taking, returned, Link, has, on_connected, write_from, write, on_disconnected, Step,
  connects, disconnects, resumes, notifies, writes, cancels, shuts, Steps, here, next,
}
use irc_eew.Irc.Connection.{MessageType}

-- The writer has returned, or waits on an open channel that `c.ready` names no more.
abbrev IsStuck : Link → Type 0
IsStuck l =
    (l.phase ≡ returned)
    ⊎ ((c : ℕ) × (l.phase ≡ waiting c) × (c < l.current) × (has c l.closed ≡ false))

module _ (iso : Bytes → Option Bytes) (charset : Bytes) (mt : MessageType) where
  write_stuck : (l : Link) → IsStuck l → write iso charset mt l ≡ l
  unfolding write write_from
  write_stuck l (inl e) = ap (write_from iso charset mt l) e
  write_stuck l (inr (c, e, before, open_still)) =
      ap (write_from iso charset mt l) e
      ∙ ap (λ b. if b then record l { phase = taking } else l) open_still

  Step-IsStuck : {l m : Link} → Step iso charset mt l m → IsStuck l → IsStuck m × (m.sent ≡ l.sent)
  unfolding on_connected on_disconnected
  Step-IsStuck (connects open_now) (inl e) = (inl e, refl)
  Step-IsStuck (connects open_now) (inr (c, e, before, open_still)) =
      (inr (c, e, before, ground arith), refl)
  Step-IsStuck disconnects (inl e) = (inl e, refl)
  Step-IsStuck disconnects (inr (c, e, before, open_still)) =
      (inr (c, e, omega (arith, before), open_still), refl)
  Step-IsStuck resumes s = (s, refl)
  Step-IsStuck (notifies t text) s = (s, refl)
  Step-IsStuck {l} writes s = rw (write_stuck l s) (s, refl)
  Step-IsStuck (cancels c e) s = (inl refl, refl)
  Step-IsStuck shuts s = (s, refl)

  Steps-IsStuck :
      {l m : Link} → Steps iso charset mt l m → IsStuck l → IsStuck m × (m.sent ≡ l.sent)
  Steps-IsStuck here s = (s, refl)
  Steps-IsStuck (next r st) s =
      let before = Steps-IsStuck r s in
      let after = Step-IsStuck st before.0 in (after.0, after.1 ∙ before.1)

  -- If the link is disconnected while the writer waits for a CONNECTED that has not come, then the
  -- writer sends nothing any more, whatever happens after that, also when the link connects again.
  pub disconnected_silent :
      (l : Link) (m : Link)
      → l.phase ≡ waiting l.current
      → has l.current l.closed ≡ false
      → Steps iso charset mt (on_disconnected l) m
      → m.sent ≡ l.sent
  unfolding on_disconnected
  disconnected_silent l m waits_now open_now steps =
      (Steps-IsStuck steps (inr (l.current, waits_now, omega arith, open_now))).1
