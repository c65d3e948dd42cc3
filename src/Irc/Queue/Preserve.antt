-- ===== src/Irc/Queue/Preserve.antt =====
-- Every method keeps the invariant of the queue.
use Prim.Native.Nat.{max}
use irc_eew.Base.{
  ◌<◌, ◌≡◌, ◌≢◌, refl, Bool, true, false, Option, none, some, List, [], ◌∷◌, arith, leb,
  if◌then◌else◌, is_some, length, Bool-cases, length-append, inl, inr, ap, subst,
}
use irc_eew.Base.Bytes.{Bytes, equal_iff, contains, contains-append, Distinct}
use irc_eew.Base.Dict.{get, put, get-put, get-delete}
use irc_eew.Base.Keys.{Distinct-concat}
use irc_eew.Irc.Queue.{Notice, Queue, evict_one, append_new, enqueue, take_first, dequeue, close}
use irc_eew.Irc.Queue.Eviction.{evict_one-Evicts, evict_one-nil}
use irc_eew.Irc.Queue.Invariant.{
  Inv, remove_at-Inv, remove_at_entries, remove_at_rest, length-remove_at,
}

append_new-Inv :
    (q : Queue) (n : Notice)
    → Inv q
    → get n.eq_id q.entries ≡ none
    → length q.order < max q.capacity 1
    → Inv (append_new q n)
append_new-Inv q n v fresh room = record {
  distinct = Distinct-concat q.order n.eq_id v.distinct (rw (v.keyed n.eq_id, fresh));
  keyed = λ k. rw (contains-append, get-put) (ground (arith, v.keyed k));
  named = λ k m h. ground (arith, get-put k n.eq_id n q.entries, equal_iff n.eq_id k, v.named k m);
  bounded = omega (arith, length-append q.order (n.eq_id ∷ []));
}

-- `q` after the test of its capacity: it has room, and still no notice under the new key.
pub record Room (q r : Queue) (k : Bytes) : Type 0 where
  pub valid : Inv r
  pub fresh : get k r.entries ≡ none
  pub room : length r.order < max r.capacity 1

evict_one-Room :
    (q : Queue) (k : Bytes) → Inv q → get k q.entries ≡ none → q.order ≢ [] → Room q (evict_one q) k
evict_one-Room q k v fresh ne =
    let e = evict_one-Evicts q ne in
    rw e.result (record {
      valid = remove_at-Inv q e.place e.found v;
      fresh = rw (remove_at_entries q e.place e.found, get-delete) (ground (arith, fresh));
      room =
          omega (
            arith,
            length-remove_at q e.place e.found,
            v.bounded,
            remove_at_rest q e.place e.found,
          );
    })

-- The queue that a new notice is appended to.
abbrev pub make_room : Queue → Queue
make_room q = if leb q.capacity (length q.order) then evict_one q else q

pub make_room-Room :
    (q : Queue) (k : Bytes) → Inv q → get k q.entries ≡ none → Room q (make_room q) k
make_room-Room q k v fresh = elim (Bool-cases (leb q.capacity (length q.order))) [
  | inr space ↦ rw space (record { valid = v; fresh = fresh; room = ground arith })
  | inl full ↦ rw full (by_order q.order refl)
]
  where
    by_order : (ks : List Bytes) → q.order ≡ ks → Room q (evict_one q) k
    by_order [] e =
        rw (evict_one-nil q e)
          (record { valid = v; fresh = fresh; room = ground (arith, ap length e) })
    by_order (j ∷ ks) e = evict_one-Room q k v fresh (ground arith)

pub enqueue-Inv : (q : Queue) (n : Notice) → Inv q → Inv (enqueue q n)
unfolding enqueue
enqueue-Inv q n v = by_closed q.closed (get n.eq_id q.entries) refl
  where
    by_closed :
        (c : Bool) (o : Option Notice)
        → get n.eq_id q.entries ≡ o
        → Inv (
            if c
            then q
            else if is_some o
            then record q { entries = put n.eq_id n q.entries }
            else append_new (make_room q) n)
    by_closed true o e = v
    by_closed false (some m) e = record {
      distinct = v.distinct;
      keyed = λ k. rw get-put (ground (arith, v.keyed k, equal_iff n.eq_id k));
      named =
          λ k l h. ground (arith, get-put k n.eq_id n q.entries, equal_iff n.eq_id k, v.named k l);
      bounded = v.bounded;
    }
    by_closed false none e =
        let r = make_room-Room q n.eq_id v e in append_new-Inv _ n r.valid r.fresh r.room

pub dequeue-Inv : (q : Queue) → Inv q → Inv (dequeue q).0
unfolding dequeue
dequeue-Inv q v = by_order q.order q.closed refl
  where
    by_order : (ks : List Bytes) (c : Bool) → q.order ≡ ks → Inv (take_first q ks c).0
    by_order [] true e = v
    by_order [] false e = v
    by_order (k ∷ ks) c e =
        let apart : Distinct (k ∷ ks) = subst Distinct e v.distinct in
        record {
          distinct = apart.1;
          keyed = λ j.
              rw get-delete (ground (arith, v.keyed j, ap (contains j) e, equal_iff k j, apart.0));
          named = λ j n h. v.named j n (ground (arith, get-delete j k q.entries));
          bounded = omega (arith, v.bounded, ap length e);
        }

pub close-Inv : (q : Queue) → Inv q → Inv (close q)
unfolding close
close-Inv q v = record {
  distinct = v.distinct;
  keyed = v.keyed;
  named = v.named;
  bounded = v.bounded;
}
