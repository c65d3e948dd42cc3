-- ===== src/Irc/Queue/Schedule.antt =====
-- The calls of the receive goroutine (`Enqueue`), of the writer (`Dequeue`) and of the shutdown
-- (`Close`) in any interleaving, as the mutex orders them.
use irc_eew.Base.{
  ℕ, ◌≡◌, refl, Bool, true, false, Option, none, some, List, [], ◌∷◌, arith, ◌∙◌, ap, ap₂,
}
use irc_eew.Base.Bytes.{Bytes}
use irc_eew.Irc.Queue.{
  Priority, normal, final, cancellation, Notice, Queue, new_queue, evict_one, evict_loop,
  first_with, remove_at, enqueue, take_first, dequeue, close, Dequeued, pending,
}
use irc_eew.Irc.Queue.Invariant.{Inv, new_queue-Inv}
use irc_eew.Irc.Queue.Preserve.{enqueue-Inv, dequeue-Inv, close-Inv}
use irc_eew.Irc.Queue.Refinement.{pending-enqueue, pending-dequeue}
use irc_eew.Irc.Queue.Spec.{offer, poll}

pub data Call : Type 0 where
  offering : Notice → Call
  polling : Call
  closing : Call

-- One call, and what a `Dequeue` returned.
pub apply : Queue → Call → Queue × Option Dequeued
apply q (offering n) = (enqueue q n, none)
apply q polling = ((dequeue q).0, some (dequeue q).1)
apply q closing = (close q, none)

-- The same on the list of pending notices.
pub record Model : Type 0 where
  pub capacity : ℕ
  pub closed : Bool
  pub items : List Notice

abbrev pub model : Queue → Model
model q = record { capacity = q.capacity; closed = q.closed; items = pending q }

abbrev pub promised : Model → Call → Model × Option Dequeued
promised m (offering n) = (record m { items = offer m.capacity m.closed n m.items }, none)
promised m polling =
    (record m { items = (poll m.closed m.items).0 }, some (poll m.closed m.items).1)
promised m closing = (record m { closed = true }, none)

pub run : Queue → List Call → List (Option Dequeued)
run q [] = []
run q (c ∷ cs) = (apply q c).1 ∷ run (apply q c).0 cs

abbrev pub promised_run : Model → List Call → List (Option Dequeued)
promised_run m [] = []
promised_run m (c ∷ cs) = (promised m c).1 ∷ promised_run (promised m c).0 cs

-- The queue after some calls.
pub data Reaches (q : Queue) : Queue → Type 0 where
  here : Reaches q q
  next : {r : Queue} → Reaches q r → (c : Call) → Reaches q (apply r c).0

apply-Inv : (q : Queue) (c : Call) → Inv q → Inv (apply q c).0
unfolding apply
apply-Inv q (offering n) v = enqueue-Inv q n v
apply-Inv q polling v = dequeue-Inv q v
apply-Inv q closing v = close-Inv q v

-- Whatever the calls and their order, the keys of `order` are distinct, `entries` has exactly
-- these keys, each notice stands under its own earthquake, and at most `capacity` are pending (one
-- if the capacity is 0).
pub Reaches-Inv : {capacity : ℕ} {q : Queue} → Reaches (new_queue capacity) q → Inv q
Reaches-Inv {capacity} here = new_queue-Inv capacity
Reaches-Inv (next {r} s c) = apply-Inv r c (Reaches-Inv s)

-- `r` has the capacity and the flag of `q`.
abbrev pub Alike : Queue → Queue → Type 0
Alike q r = (r.capacity ≡ q.capacity) × (r.closed ≡ q.closed)

remove_at-Alike : (q : Queue) (i : ℕ) → Alike q (remove_at q i)
unfolding remove_at
remove_at-Alike q i = ground arith

evict_loop-Alike : (q : Queue) (ps : List Priority) → Alike q (evict_loop q ps)
unfolding evict_loop
evict_loop-Alike q [] = (refl, refl)
evict_loop-Alike q (p ∷ ps) = by_scan (first_with q.entries p q.order) (evict_loop-Alike q ps)
  where
    by_scan :
        (o : Option ℕ)
        → Alike q (evict_loop q ps)
        → Alike q (elim o [ none ↦ evict_loop q ps | some i ↦ remove_at q i ])
    by_scan none h = h
    by_scan (some i) h = remove_at-Alike q i

pub enqueue-Alike : (q : Queue) (n : Notice) → Alike q (enqueue q n)
unfolding enqueue evict_one
enqueue-Alike q n = ground (arith, evict_loop-Alike q (normal ∷ final ∷ cancellation ∷ []))

dequeue-Alike : (q : Queue) → Alike q (dequeue q).0
unfolding dequeue
dequeue-Alike q = by_order q.order q.closed
  where
    by_order : (ks : List Bytes) (c : Bool) → Alike q (take_first q ks c).0
    by_order [] true = (refl, refl)
    by_order [] false = (refl, refl)
    by_order (k ∷ ks) c = (refl, refl)

Model-path :
    {a b : Model} → a.capacity ≡ b.capacity → a.closed ≡ b.closed → a.items ≡ b.items → a ≡ b
Model-path p q r = λ i. record { capacity = p i; closed = q i; items = r i }

-- One call of the queue is one call of the model, with the same result.
pub model-apply :
    (q : Queue) (c : Call)
    → Inv q
    → (model (apply q c).0 ≡ (promised (model q) c).0) × ((apply q c).1 ≡ (promised (model q) c).1)
unfolding apply close
model-apply q (offering n) v =
    let a = enqueue-Alike q n in (Model-path a.0 a.1 (pending-enqueue q n v), refl)
model-apply q polling v =
    let a = dequeue-Alike q in let e = pending-dequeue q v in (Model-path a.0 a.1 e.0, ap some e.1)
model-apply q closing v = (refl, refl)

run-refines_from : (q : Queue) (cs : List Call) → Inv q → run q cs ≡ promised_run (model q) cs
unfolding run
run-refines_from q [] v = refl
run-refines_from q (c ∷ cs) v =
    let e = model-apply q c v in
    ap₂ ◌∷◌ e.1
      (run-refines_from (apply q c).0 cs (apply-Inv q c v) ∙ ap (λ m. promised_run m cs) e.0)

-- From a new queue, every sequence of calls returns what the model returns: coalescing in the slot,
-- eviction of the oldest lowest priority, delivery in the order of the slots, silence when closed.
pub run-refines :
    (capacity : ℕ) (cs : List Call)
    → run (new_queue capacity) cs
      ≡ promised_run (record { capacity = capacity; closed = false; items = [] }) cs
run-refines capacity cs = run-refines_from (new_queue capacity) cs (new_queue-Inv capacity)
