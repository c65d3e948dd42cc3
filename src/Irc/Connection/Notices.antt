-- ===== src/Irc/Connection/Notices.antt =====
-- What a connection that cannot send yet has pending after some telegrams.
use irc_eew.Base.{◌≡◌, refl, ◌∙◌, ap, ap₂, false, List, [], ◌∷◌, if◌then◌else◌}
use irc_eew.Base.Bytes.{Bytes}
use irc_eew.Decoder.Telegram.{Telegram}
use irc_eew.Irc.Connection.{Connection, new_connection, default_queue_capacity, enqueue_for, notify}
use irc_eew.Irc.Dispatcher.News.{channels_for-step}
use irc_eew.Irc.Dispatcher.{dedup, priority_for}
use irc_eew.Irc.Queue.Invariant.{Inv, new_queue-Inv}
use irc_eew.Irc.Queue.Preserve.{enqueue-Inv}
use irc_eew.Irc.Queue.Refinement.{pending-enqueue}
use irc_eew.Irc.Queue.Schedule.{enqueue-Alike}
use irc_eew.Irc.Queue.Spec.{offer}
use irc_eew.Irc.Queue.{Notice, Queue, pending}
use irc_eew.Message.{strip_links}
use irc_eew.Notify.News.{is_news}

-- `Notify` for each telegram and its text.
unfoldable pub notify_each : Connection → List (Telegram × Bytes) → Connection
notify_each c [] = c
notify_each c ((t, text) ∷ ts) = notify_each (notify c t text) ts

-- The notice of a telegram joins the pending ones, if it has a channel.
abbrev pub post : Telegram → Bytes → List Bytes → List Notice → List Notice
post t text [] ns = ns
post t text (ch ∷ chs) ns =
    offer default_queue_capacity false
      (record {
        eq_id = t.eq_id;
        channels = ch ∷ chs;
        text = strip_links text;
        priority = priority_for t;
      })
      ns

-- The same from telegram to telegram; the channels are by the id of the telegram before.
pub posted : List Bytes → List Bytes → Bytes → List (Telegram × Bytes) → List Notice → List Notice
posted all limited last [] ns = ns
posted all limited last ((t, text) ∷ ts) ns =
    posted all limited t.eq_id ts
      (post t text (dedup (if is_news last t then all ∷ limited ∷ [] else all ∷ [])) ns)

-- A queue that is open, of the default capacity, and valid.
record Ready (q : Queue) : Type 0 where
  valid : Inv q
  accepts : q.closed ≡ false
  room : q.capacity ≡ default_queue_capacity

enqueue_for-Ready :
    (t : Telegram) (text : Bytes) (chs : List Bytes) (q : Queue)
    → Ready q
    → Ready (enqueue_for t text chs (priority_for t) q)
      × (pending (enqueue_for t text chs (priority_for t) q) ≡ post t text chs (pending q))
unfolding enqueue_for
enqueue_for-Ready t text [] q r = (r, refl)
enqueue_for-Ready t text (ch ∷ chs) q r = (
  record {
    valid = enqueue-Inv q n r.valid;
    accepts = (enqueue-Alike q n).1 ∙ r.accepts;
    room = (enqueue-Alike q n).0 ∙ r.room;
  },
  pending-enqueue q n r.valid
      ∙ ap₂ (λ capacity closed. offer capacity closed n (pending q)) r.room r.accepts,
)
  where
    n : Notice
    n = record {
      eq_id = t.eq_id;
      channels = ch ∷ chs;
      text = strip_links text;
      priority = priority_for t;
    }

module _ (all limited : List Bytes) where
  abbrev at_id : Bytes → Queue → Connection
  at_id last q = record {
    dispatcher = record { all = all; limited = limited; last_eq_id = last };
    queue = q;
  }

  abbrev chosen : Bytes → Telegram → List Bytes
  chosen last t = dedup (if is_news last t then all ∷ limited ∷ [] else all ∷ [])

  notify-step :
      (last : Bytes) (q : Queue) (t : Telegram) (text : Bytes)
      → notify (at_id last q) t text
        ≡ at_id t.eq_id (enqueue_for t text (chosen last t) (priority_for t) q)
  unfolding notify
  notify-step last q t text =
      ap (λ c. record { dispatcher = c.1; queue = enqueue_for t text c.0.0 c.0.1 q })
        (channels_for-step all limited last t)

  notify_each-posted :
      (last : Bytes) (q : Queue) (ts : List (Telegram × Bytes))
      → Ready q
      → pending (notify_each (at_id last q) ts).queue ≡ posted all limited last ts (pending q)
  unfolding notify_each posted
  notify_each-posted last q [] r = refl
  notify_each-posted last q ((t, text) ∷ ts) r =
      let e = enqueue_for-Ready t text (chosen last t) q r in
      ap (λ c. pending (notify_each c ts).queue) (notify-step last q t text)
      ∙ notify_each-posted t.eq_id _ ts e.0
      ∙ ap (posted all limited t.eq_id ts) e.1

-- On a new connection that sends nothing yet, whatever telegrams `Notify` is given with their
-- texts, the pending notices are those that the queue's promise makes of them: each telegram
-- with a channel is offered once, with its stripped text and its priority, to the channels that
-- its event id, beside that of the telegram before, and its kind call for.
pub notify_each-pending :
    (all limited : List Bytes) (ts : List (Telegram × Bytes))
    → pending (notify_each (new_connection all limited) ts).queue ≡ posted all limited [] ts []
notify_each-pending all limited ts =
    notify_each-posted all limited [] _ ts
      (record { valid = new_queue-Inv default_queue_capacity; accepts = refl; room = refl })
