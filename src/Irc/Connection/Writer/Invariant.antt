-- ===== src/Irc/Connection/Writer/Invariant.antt =====
-- What holds of a link after any steps.
use irc_eew.Base.{
  ℕ, subst, ◌≤◌, ◌≡◌, ◌≢◌, refl, sym, ◌∙◌, ap, Bool, true, false, Option, List, [], ◌∷◌, arith, All,
  All-map, if◌then◌else◌,
}
use irc_eew.Base.Bytes.{Bytes}
use irc_eew.Decoder.Telegram.{Telegram}
use irc_eew.Irc.Connection.Writer.{
  Phase, entering, waiting, taking, returned, Link, new_link, has, on_connected, took, with_queue,
  write_from, write, on_disconnected, Step, connects, disconnects, resumes, notifies, writes,
  cancels, shuts, Steps, here, next,
}
use irc_eew.Irc.Connection.{Connection, MessageType, default_queue_capacity, enqueue_for, notify}
use irc_eew.Irc.Queue.Invariant.{Inv, new_queue-Inv}
use irc_eew.Irc.Queue.Preserve.{enqueue-Inv, dequeue-Inv, close-Inv}
use irc_eew.Irc.Queue.{Priority, Queue, Dequeued, got, ended, waits, dequeue}

enqueue_for-Inv :
    (t : Telegram) (text : Bytes) (chs : List Bytes) (p : Priority) (q : Queue)
    → Inv q
    → Inv (enqueue_for t text chs p q)
unfolding enqueue_for
enqueue_for-Inv t text [] p q v = v
enqueue_for-Inv t text (ch ∷ chs) p q v = enqueue-Inv q _ v

notify-Inv :
    (c : Connection) (t : Telegram) (text : Bytes) → Inv c.queue → Inv (notify c t text).queue
unfolding notify
notify-Inv c t text v = enqueue_for-Inv t text _ _ c.queue v

-- The writer has not got past its first wait.
abbrev pub IsHeld : Phase → Type 0
IsHeld taking = ⊥
IsHeld _ = Unit

pub record WellFormed (l : Link) : Type 0 where
  -- the queue is valid
  pub valid : Inv l.conn.queue
  -- only channels that `c.ready` named are closed
  pub named : All (λ c. c ≤ l.current) l.closed
  -- before the first CONNECTED nothing is sent and nothing is taken
  pub quiet : l.closed ≡ [] → (l.sent ≡ []) × (l.joined ≡ []) × IsHeld l.phase

true-ne-false : true ≢ false
true-ne-false e = absurd (cc)

module _ (iso : Bytes → Option Bytes) (charset : Bytes) (mt : MessageType) where
  took-WellFormed :
      (l : Link) (q : Queue) (d : Dequeued)
      → WellFormed l
      → l.closed ≢ []
      → Inv q
      → WellFormed (took iso charset mt (with_queue l q) d)
  unfolding took
  took-WellFormed l q (got n) w busy v = record {
    valid = v;
    named = w.named;
    quiet = λ h. absurd (busy h);
  }
  took-WellFormed l q ended w busy v = record {
    valid = v;
    named = w.named;
    quiet = λ h. absurd (busy h);
  }
  took-WellFormed l q waits w busy v = record {
    valid = v;
    named = w.named;
    quiet = λ h. absurd (busy h);
  }

  passed-WellFormed :
      (l : Link) (c : ℕ) (b : Bool)
      → has c l.closed ≡ b
      → WellFormed l
      → WellFormed (if b then record l { phase = taking } else l)
  passed-WellFormed l c true e w = record {
    valid = w.valid;
    named = w.named;
    quiet = λ h. absurd (true-ne-false (sym e ∙ ap (has c) h));
  }
  passed-WellFormed l c false e w = w

  write-WellFormed :
      (l : Link) (ph : Phase)
      → l.phase ≡ ph
      → WellFormed l
      → WellFormed (write_from iso charset mt l ph)
  unfolding write_from
  write-WellFormed l entering e w = record {
    valid = w.valid;
    named = w.named;
    quiet = λ h. ((w.quiet h).0, (w.quiet h).1, tt);
  }
  write-WellFormed l (waiting c) e w = passed-WellFormed l c (has c l.closed) refl w
  write-WellFormed l taking e w =
      took-WellFormed l (dequeue l.conn.queue).0 (dequeue l.conn.queue).1 w
        (λ h. subst IsHeld e (w.quiet h).2) (dequeue-Inv l.conn.queue w.valid)
  write-WellFormed l returned e w = w

  Step-WellFormed : {l m : Link} → Step iso charset mt l m → WellFormed l → WellFormed m
  unfolding on_connected on_disconnected write
  Step-WellFormed (connects open_now) w = record {
    valid = w.valid;
    named = (omega arith, w.named);
    quiet = λ h. absurd (cc);
  }
  Step-WellFormed {l} disconnects w = record {
    valid = w.valid;
    named = All-map (λ c h. omega arith) l.closed w.named;
    quiet = w.quiet;
  }
  Step-WellFormed resumes w = record { valid = w.valid; named = w.named; quiet = w.quiet }
  Step-WellFormed {l} (notifies t text) w = record {
    valid = notify-Inv l.conn t text w.valid;
    named = w.named;
    quiet = w.quiet;
  }
  Step-WellFormed {l} writes w = write-WellFormed l l.phase refl w
  Step-WellFormed (cancels c e) w = record {
    valid = w.valid;
    named = w.named;
    quiet = λ h. ((w.quiet h).0, (w.quiet h).1, tt);
  }
  Step-WellFormed {l} shuts w = record {
    valid = close-Inv l.conn.queue w.valid;
    named = w.named;
    quiet = w.quiet;
  }

  -- After any steps from a new link its queue is valid, only channels that `c.ready` has named are
  -- closed, and before the first CONNECTED nothing has been joined or sent, and the writer has
  -- taken nothing from the queue.
  pub Steps-WellFormed :
      (all limited : List Bytes) {m : Link}
      → Steps iso charset mt (new_link all limited) m
      → WellFormed m
  Steps-WellFormed all limited here = record {
    valid = new_queue-Inv default_queue_capacity;
    named = tt;
    quiet = λ h. (refl, refl, tt);
  }
  Steps-WellFormed all limited (next r st) = Step-WellFormed st (Steps-WellFormed all limited r)
