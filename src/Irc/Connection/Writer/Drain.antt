-- ===== src/Irc/Connection/Writer/Drain.antt =====
-- What the writer does with the pending notices once it may send.
use irc_eew.Base.{
  ℕ, zero, suc, ◌≡◌, refl, sym, ◌∙◌, ap, Bool, true, false, Option, none, some, List, [], ◌∷◌, ◌++◌,
  if◌then◌else◌, append_assoc, append-nil, length, subst,
}
use irc_eew.Base.Bytes.{Bytes}
use irc_eew.Irc.Connection.Writer.{
  entering, waiting, taking, Message, Link, has, encoded, messages_to, messages, took, with_queue,
  write_from, write,
}
use irc_eew.Irc.Charset.{encode_text}
use irc_eew.Irc.Connection.{MessageType}
use irc_eew.Irc.Queue.Invariant.{Inv}
use irc_eew.Irc.Queue.Preserve.{dequeue-Inv}
use irc_eew.Irc.Queue.Refinement.{pending-dequeue}
use irc_eew.Irc.Queue.Spec.{poll}
use irc_eew.Irc.Queue.{Notice, got, dequeue, pending}

module _ (iso : Bytes → Option Bytes) (charset : Bytes) (mt : MessageType) where
  -- Some steps of the writer alone.
  pub write_times : ℕ → Link → Link
  write_times zero l = l
  write_times (suc n) l = write_times n (write iso charset mt l)

  -- The message for each channel that the charset can spell.
  pub told : Bytes → List Bytes → List Message
  told text [] = []
  told text (ch ∷ chs) = elim (encode_text iso charset ch) [
    | none ↦ told text chs
    | some name ↦ record { command = mt; channel = name; text = text } ∷ told text chs
  ]

  -- What notices call for: a text that the charset cannot spell is not sent.
  pub messages_of : List Notice → List Message
  messages_of [] = []
  messages_of (n ∷ ns) = elim (encode_text iso charset n.text) [
    | none ↦ messages_of ns
    | some text ↦ told text n.channels ++ messages_of ns
  ]

  messages_to-told :
      (text : Bytes) (chs : List Bytes)
      → messages_to mt text (encoded (encode_text iso charset) chs) ≡ told text chs
  unfolding messages_to encoded told
  messages_to-told text [] = refl
  messages_to-told text (ch ∷ chs) =
      by_name (encode_text iso charset ch) (messages_to-told text chs)
    where
      rest : List Bytes
      rest = encoded (encode_text iso charset) chs

      by_name :
          (o : Option Bytes)
          → messages_to mt text rest ≡ told text chs
          → messages_to mt text (elim o [ none ↦ rest | some name ↦ name ∷ rest ]) ≡ elim o [
            | none ↦ told text chs
            | some name ↦ record { command = mt; channel = name; text = text } ∷ told text chs
          ]
      by_name none e = e
      by_name (some name) e = ap (◌∷◌ (record { command = mt; channel = name; text = text })) e

  messages_of-cons :
      (n : Notice) (ns : List Notice)
      → messages iso charset mt n ++ messages_of ns ≡ messages_of (n ∷ ns)
  unfolding messages messages_of
  messages_of-cons n ns = by_text (encode_text iso charset n.text)
    where
      by_text :
          (o : Option Bytes)
          → (elim o [
            | none ↦ []
            | some text ↦ messages_to mt text (encoded (encode_text iso charset) n.channels)
          ])
              ++ messages_of ns
            ≡ elim o [ none ↦ messages_of ns | some text ↦ told text n.channels ++ messages_of ns ]
      by_text none = refl
      by_text (some text) = ap (λ ms. ms ++ messages_of ns) (messages_to-told text n.channels)

  poll-cons : (closed : Bool) (n : Notice) (ns : List Notice) → poll closed (n ∷ ns) ≡ (ns, got n)
  poll-cons true n ns = refl
  poll-cons false n ns = refl

  -- The writer is at the head of its loop, and the channel `ready` is closed.
  pub record Sending (l : Link) : Type 0 where
    pub at_head : l.phase ≡ entering
    pub ready : has l.current l.closed ≡ true
    pub valid : Inv l.conn.queue

  -- One pass of the loop, with a notice at hand.
  round : Link → Link
  round l =
      took iso charset mt (with_queue (record l { phase = taking }) (dequeue l.conn.queue).0)
        (dequeue l.conn.queue).1

  three_writes : (l : Link) → Sending l → write_times 3 l ≡ round l
  unfolding write_times write write_from round
  three_writes l s =
      ap (λ m. write iso charset mt (write iso charset mt m))
        (ap (write_from iso charset mt l) s.at_head)
      ∙ ap (λ b. write iso charset mt (if b then taking_now else waiting_now)) s.ready
    where
      waiting_now : Link
      waiting_now = record l { phase = waiting l.current }

      taking_now : Link
      taking_now = record l { phase = taking }

  -- The link after the notice `n`.
  after : Link → Notice → Link
  after l n = record l {
    conn = record l.conn { queue = (dequeue l.conn.queue).0 };
    phase = entering;
    sent = l.sent ++ messages iso charset mt n;
  }

  round-cons :
      (l : Link) (n : Notice) (ns : List Notice)
      → Inv l.conn.queue
      → pending l.conn.queue ≡ n ∷ ns
      → (round l ≡ after l n) × (pending (after l n).conn.queue ≡ ns)
  unfolding round took after
  round-cons l n ns v e =
      let d = pending-dequeue l.conn.queue v in
      let polled = ap (poll l.conn.queue.closed) e ∙ poll-cons l.conn.queue.closed n ns in
      (
        ap (took iso charset mt (with_queue (record l { phase = taking }) (dequeue l.conn.queue).0))
            (d.1 ∙ ap (λ p. p.1) polled),
        d.0 ∙ ap (λ p. p.0) polled,
      )

  -- Some passes of the loop, of three steps each.
  pub passes : ℕ → Link → Link
  unfolding write_times
  passes zero l = l
  passes (suc n) l = passes n (write_times 3 l)

  -- What a link has sent, and has pending, when it has drained its queue.
  pub record Drained (before : List Message) (ns : List Notice) (l : Link) : Type 0 where
    pub all_sent : l.sent ≡ before ++ messages_of ns
    pub none_pending : pending l.conn.queue ≡ []
    pub still_sending : Sending l

  drains :
      (ns : List Notice) (l : Link)
      → Sending l
      → pending l.conn.queue ≡ ns
      → Drained l.sent ns (passes (length ns) l)
  unfolding passes after messages_of
  drains [] l s e = record {
    all_sent = sym (append-nil l.sent);
    none_pending = e;
    still_sending = s;
  }
  drains (n ∷ ns) l s e =
      let r = round-cons l n ns s.valid e in
      let step = three_writes l s ∙ r.0 in
      let later =
        drains ns (after l n)
          (record { at_head = refl; ready = s.ready; valid = dequeue-Inv l.conn.queue s.valid })
          r.1 in
      subst (λ m. Drained l.sent (n ∷ ns) (passes (length ns) m)) (sym step)
        (record {
          all_sent =
              later.all_sent
              ∙ append_assoc l.sent (messages iso charset mt n) (messages_of ns)
              ∙ ap (λ ms. l.sent ++ ms) (messages_of-cons n ns);
          none_pending = later.none_pending;
          still_sending = later.still_sending;
        })

  -- When the channel that `c.ready` names is closed and the writer is at the head of its loop, it
  -- sends each pending notice, in the order of delivery, as one message to each of its channels, in as
  -- many passes of its loop as there are notices, if nothing happens meanwhile; a notice whose text,
  -- or a channel whose name, the charset cannot spell is left out; the queue is empty then, and the writer is
  -- at the head of its loop again.
  pub passes-Drained :
      (l : Link)
      → Sending l
      → Drained l.sent (pending l.conn.queue) (passes (length (pending l.conn.queue)) l)
  passes-Drained l s = drains (pending l.conn.queue) l s refl
