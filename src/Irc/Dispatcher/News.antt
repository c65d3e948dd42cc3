-- ===== src/Irc/Dispatcher/News.antt =====
-- Which telegrams of a run reach the limited channels.
use irc_eew.Base.{◌≡◌, refl, sym, ◌∙◌, ap, ap₂, List, [], ◌∷◌, if◌then◌else◌, Bool-cases, inl, inr}
use irc_eew.Base.Bytes.{Bytes}
use irc_eew.Base.Int.{is_nat, is_positive}
use irc_eew.Decoder.Telegram.{Telegram, is_final, is_cancellation}
use irc_eew.Irc.Dispatcher.{Dispatcher, new_dispatcher, dedup, priority_for, channels_for}
use irc_eew.Irc.Queue.{Priority, normal, final, cancellation}
use irc_eew.Notify.News.{is_news, not_news}

-- The channels and the priority of each telegram, one after the other.
pub channels_for_each : Dispatcher → List Telegram → List (List Bytes × Priority)
channels_for_each d [] = []
channels_for_each d (t ∷ ts) = (channels_for d t).0 ∷ channels_for_each (channels_for d t).1 ts

-- The type 10 is a cancellation, and a revision digit above 0 marks a final report.
abbrev pub urgency : Telegram → Priority
urgency t =
    if is_nat t.msg_type_code 10
    then cancellation
    else if is_positive t.ncn_type
    then final
    else normal

priority_for-urgency : (t : Telegram) → priority_for t ≡ urgency t
unfolding priority_for is_final is_cancellation
priority_for-urgency t = refl

-- What each telegram deserves, by the one before it.
pub channels_by_news :
    List Bytes → List Bytes → Bytes → List Telegram → List (List Bytes × Priority)
channels_by_news all limited last [] = []
channels_by_news all limited last (t ∷ ts) =
    (dedup (if is_news last t then all ∷ limited ∷ [] else all ∷ []), urgency t)
    ∷ channels_by_news all limited t.eq_id ts

pub channels_for-step :
    (all limited : List Bytes) (last : Bytes) (t : Telegram)
    → channels_for (record { all = all; limited = limited; last_eq_id = last }) t ≡ (
      (dedup (if is_news last t then all ∷ limited ∷ [] else all ∷ []), priority_for t),
      record { all = all; limited = limited; last_eq_id = t.eq_id },
    )
unfolding channels_for
channels_for-step all limited last t = elim (Bool-cases (is_news last t)) [
  | inl e ↦ rw e refl
  | inr e ↦ rw e (
      ap
        (λ id. (
          (dedup (all ∷ []), priority_for t),
          record { all = all; limited = limited; last_eq_id = id },
        ))
        (sym (not_news last t e)))
]

channels_for_each-news :
    (all limited : List Bytes) (last : Bytes) (ts : List Telegram)
    → channels_for_each (record { all = all; limited = limited; last_eq_id = last }) ts
      ≡ channels_by_news all limited last ts
unfolding channels_for_each channels_by_news
channels_for_each-news all limited last [] = refl
channels_for_each-news all limited last (t ∷ ts) =
    ap (λ r. r.0 ∷ channels_for_each r.1 ts) (channels_for-step all limited last t)
    ∙ ap₂
        (λ priority rest.
          (dedup (if is_news last t then all ∷ limited ∷ [] else all ∷ []), priority) ∷ rest)
        (priority_for-urgency t) (channels_for_each-news all limited t.eq_id ts)

-- Over any sequence of telegrams, a new dispatcher gives each telegram the deduplicated channels of
-- both lists exactly when the telegram's event id is not that of the telegram before it (the
-- empty id before the first), or it is a cancellation or a final report, and those of the "all"
-- list otherwise; the priority is that of a cancellation for the type 10, that of a final report for
-- any other telegram whose revision digit is above 0, and the normal one otherwise.
pub channels_for_each-by_news :
    (all limited : List Bytes) (ts : List Telegram)
    → channels_for_each (new_dispatcher all limited) ts ≡ channels_by_news all limited [] ts
channels_for_each-by_news all limited ts = channels_for_each-news all limited [] ts
