-- ===== src/Irc/Queue/Refinement.antt =====
-- The queue implements its promise: the map of entries and the slice of keys behave as one list
-- of pending notices.
use irc_eew.Base.{
  ◌≡◌, refl, Bool, true, false, Option, none, some, List, [], ◌∷◌, ◌++◌, arith, leb, if◌then◌else◌,
  is_some, length, ◌∙◌, ap, subst,
}
use irc_eew.Base.Bytes.{Bytes, Distinct}
use irc_eew.Base.Dict.{get, put}
use irc_eew.Irc.Queue.{
  Notice, Queue, evict_one, append_new, enqueue, take_first, dequeue, notices, pending,
}
use irc_eew.Irc.Queue.Eviction.{evict_one-nil}
use irc_eew.Irc.Queue.Invariant.{Inv}
use irc_eew.Irc.Queue.Pending.{
  length-notices, has_id-notices, notices-replace, notices-delete, Inv-Named, pending-append_new,
  pending-evict_one,
}
use irc_eew.Irc.Queue.Preserve.{make_room, make_room-Room}
use irc_eew.Irc.Queue.Spec.{replace, lowest, drop_rank, offer, poll}

pending-make_room :
    (q : Queue)
    → Inv q
    → pending (make_room q) ≡ (
        if leb q.capacity (length (pending q))
        then drop_rank (lowest (pending q)) (pending q)
        else pending q)
pending-make_room q v = rw (length-notices q.entries q.order) (by_order q.order refl)
  where
    by_order :
        (ks : List Bytes)
        → q.order ≡ ks
        → pending (if leb q.capacity (length q.order) then evict_one q else q) ≡ (
            if leb q.capacity (length q.order)
            then drop_rank (lowest (pending q)) (pending q)
            else pending q)
    by_order [] e = ground (arith, evict_one-nil q e)
    by_order (k ∷ ks) e = ground (arith, pending-evict_one q v (ground arith))

-- `Enqueue` does to the pending notices what `offer` does.
pub pending-enqueue :
    (q : Queue) (n : Notice)
    → Inv q
    → pending (enqueue q n) ≡ offer q.capacity q.closed n (pending q)
unfolding enqueue
pending-enqueue q n v =
    rw (has_id-notices q.entries n.eq_id q.order (Inv-Named q v), v.keyed n.eq_id)
      (by_closed q.closed (get n.eq_id q.entries) refl)
  where
    by_closed :
        (c : Bool) (o : Option Notice)
        → get n.eq_id q.entries ≡ o
        → pending (
            if c
            then q
            else if is_some o
            then record q { entries = put n.eq_id n q.entries }
            else append_new (make_room q) n)
          ≡ (if c
              then pending q
              else if is_some o
              then replace n (pending q)
              else (if leb q.capacity (length (pending q))
                  then drop_rank (lowest (pending q)) (pending q)
                  else pending q)
                ++ n ∷ [])
    by_closed true o e = refl
    by_closed false (some m) e = notices-replace q.entries n q.order (Inv-Named q v)
    by_closed false none e =
        let r = make_room-Room q n.eq_id v e in
        pending-append_new (make_room q) n (r.valid.keyed n.eq_id ∙ ap is_some r.fresh)
        ∙ ap (λ ns. ns ++ n ∷ []) (pending-make_room q v)

-- `Dequeue` does what `poll` does, and keeps the capacity and the flag.
pub pending-dequeue :
    (q : Queue)
    → Inv q
    → (pending (dequeue q).0 ≡ (poll q.closed (pending q)).0)
      × ((dequeue q).1 ≡ (poll q.closed (pending q)).1)
unfolding dequeue
pending-dequeue q v = by_order q.order q.closed refl
  where
    by_order :
        (ks : List Bytes) (c : Bool)
        → q.order ≡ ks
        → (pending (take_first q ks c).0 ≡ (poll c (notices q.entries ks)).0)
          × ((take_first q ks c).1 ≡ (poll c (notices q.entries ks)).1)
    by_order [] true e = (rw e, refl)
    by_order [] false e = (rw e, refl)
    by_order (k ∷ ks) c e = (taken c, by_flag c)
      where
        taken :
            (c : Bool)
            → pending (take_first q (k ∷ ks) c).0 ≡ (poll c (notices q.entries (k ∷ ks))).0
        taken true = notices-delete k q.entries ks (subst Distinct e v.distinct).0
        taken false = notices-delete k q.entries ks (subst Distinct e v.distinct).0

        by_flag : (c : Bool) → (take_first q (k ∷ ks) c).1 ≡ (poll c (notices q.entries (k ∷ ks))).1
        by_flag true = refl
        by_flag false = refl
