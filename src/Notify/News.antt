-- ===== src/Notify/News.antt =====
-- Which telegrams of a run reach the limited hooks.
use irc_eew.Base.{
  ◌≡◌, refl, sym, ◌∙◌, ap, Bool, true, false, not, ◌||◌, List, [], ◌∷◌, ◌++◌, if◌then◌else◌,
  Bool-cases, inl, inr, arith,
}
use irc_eew.Base.Bytes.{Bytes, equal, equal_iff}
use irc_eew.Decoder.Telegram.{Telegram, is_final, is_cancellation}
use irc_eew.Notify.{Hook, Dispatcher, new_dispatcher, hooks_for}

-- Is a telegram of interest after one with the id `last`?
abbrev pub is_news : Bytes → Telegram → Bool
is_news last t = not (equal t.eq_id last) || is_cancellation t || is_final t

same_of : (same cancelled final : Bool) → (not same || cancelled || final) ≡ false → same ≡ true
same_of true cancelled final e = refl
same_of false cancelled final e = ground arith

pub not_news : (last : Bytes) (t : Telegram) → is_news last t ≡ false → t.eq_id ≡ last
not_news last t e =
    (equal_iff t.eq_id last).0 (same_of (equal t.eq_id last) (is_cancellation t) (is_final t) e)

-- The hooks for each telegram, one after the other.
pub hooks_for_each : Dispatcher → List Telegram → List (List Hook)
hooks_for_each d [] = []
hooks_for_each d (t ∷ ts) = (hooks_for d t).0 ∷ hooks_for_each (hooks_for d t).1 ts

-- The hooks that each telegram deserves, by the one before it.
pub hooks_by_news : List Hook → List Hook → Bytes → List Telegram → List (List Hook)
hooks_by_news all limited last [] = []
hooks_by_news all limited last (t ∷ ts) =
    (if is_news last t then all ++ limited else all) ∷ hooks_by_news all limited t.eq_id ts

pub hooks_for-step :
    (all limited : List Hook) (last : Bytes) (t : Telegram)
    → hooks_for (record { all = all; limited = limited; last_eq_id = last }) t ≡ (
      if is_news last t then all ++ limited else all,
      record { all = all; limited = limited; last_eq_id = t.eq_id },
    )
unfolding hooks_for
hooks_for-step all limited last t = elim (Bool-cases (is_news last t)) [
  | inl e ↦ rw e refl
  | inr e ↦ rw e (
      ap (λ id. (all, record { all = all; limited = limited; last_eq_id = id }))
        (sym (not_news last t e)))
]

hooks_for_each-news :
    (all limited : List Hook) (last : Bytes) (ts : List Telegram)
    → hooks_for_each (record { all = all; limited = limited; last_eq_id = last }) ts
      ≡ hooks_by_news all limited last ts
unfolding hooks_for_each hooks_by_news
hooks_for_each-news all limited last [] = refl
hooks_for_each-news all limited last (t ∷ ts) =
    ap (λ r. r.0 ∷ hooks_for_each r.1 ts) (hooks_for-step all limited last t)
    ∙ ap (λ rest. (if is_news last t then all ++ limited else all) ∷ rest)
        (hooks_for_each-news all limited t.eq_id ts)

-- Over any sequence of telegrams, a new dispatcher gives each telegram all its "all" hooks, in
-- order, and behind them all its "limited" hooks exactly when the telegram's event id is not that
-- of the telegram before it (the empty id before the first), or it is a cancellation or a final
-- report.
pub hooks_for_each-by_news :
    (all limited : List Hook) (ts : List Telegram)
    → hooks_for_each (new_dispatcher all limited) ts ≡ hooks_by_news all limited [] ts
hooks_for_each-by_news all limited ts = hooks_for_each-news all limited [] ts
