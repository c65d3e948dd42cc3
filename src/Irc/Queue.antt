-- ===== src/Irc/Queue.antt =====
-- internal/irc/queue.go: the coalescing send queue of one IRC connection. A method on `*Queue`
-- returns the new queue; the mutex makes each method one step, and a `Dequeue` that waits on the
-- condition variable is the result `waits`, which leaves the queue as it is.
pub mod Invariant
pub mod Preserve
pub mod Spec
mod Pending
pub mod Refinement
pub mod Schedule
pub mod Eviction
mod Tests
use irc_eew.Base.{
  ℕ, suc, zero, ◌+◌, ◌≡◌, Bool, true, false, Option, none, some, List, [], ◌∷◌, ◌++◌, leb, ◌==◌,
  if◌then◌else◌, is_some, get_or, length, get_elem?, take, drop,
}
use irc_eew.Base.Bytes.{Bytes}
use irc_eew.Base.Dict.{get, put, delete}

pub data Priority : Type 0 where
  normal final cancellation : Priority

-- The order of the `iota` constants.
abbrev pub rank : Priority → ℕ
rank normal = 0
rank final = 1
rank cancellation = 2

pub record Notice : Type 0 where
  pub eq_id : Bytes
  pub channels : List Bytes
  pub text : Bytes
  pub priority : Priority

-- `Notice{}`, which a read of a missing key returns.
abbrev pub zero_notice : Notice
zero_notice = record { eq_id = []; channels = []; text = []; priority = normal }

pub record Queue : Type 0 where
  pub capacity : ℕ
  pub order : List Bytes
  pub entries : List (Bytes × Notice)
  pub closed : Bool

abbrev pub new_queue : ℕ → Queue
new_queue capacity = record { capacity = capacity; order = []; entries = []; closed = false }

-- `q.entries[eqID]`
abbrev pub entry : List (Bytes × Notice) → Bytes → Notice
entry entries k = get_or (get k entries) zero_notice

-- `delete(q.entries, q.order[i])` and the slice without its place `i`.
pub remove_at : Queue → ℕ → Queue
remove_at q i = elim (get_elem? q.order i) [
  | none ↦ q
  | some eq_id ↦ record q {
    entries = delete eq_id q.entries;
    order = take i q.order ++ drop (suc i) q.order;
  }
]

-- The inner loop of `evictOne`: the first place that holds a notice of priority `want`.
pub first_with : List (Bytes × Notice) → Priority → List Bytes → Option ℕ
first_with entries want [] = none
first_with entries want (k ∷ ks) =
    if rank (entry entries k).priority == rank want
    then some 0
    else elim (first_with entries want ks) [ none ↦ none | some i ↦ some (suc i) ]

-- The outer loop, over the priorities in turn.
pub evict_loop : Queue → List Priority → Queue
evict_loop q [] = q
evict_loop q (want ∷ wants) = elim (first_with q.entries want q.order) [
  | none ↦ evict_loop q wants
  | some i ↦ remove_at q i
]

unfoldable pub evict_one : Queue → Queue
unfolding evict_loop
evict_one q = evict_loop q (normal ∷ final ∷ cancellation ∷ [])

-- The two writes that give a new earthquake its slot.
abbrev pub append_new : Queue → Notice → Queue
append_new q n = record q { order = q.order ++ n.eq_id ∷ []; entries = put n.eq_id n q.entries }

pub enqueue : Queue → Notice → Queue
enqueue q n =
    if q.closed
    then q
    else if is_some (get n.eq_id q.entries)
    then record q { entries = put n.eq_id n q.entries }
    else append_new (if leb q.capacity (length q.order) then evict_one q else q) n

pub data Dequeued : Type 0 where
  got : Notice → Dequeued
  -- `Notice{}, false`: closed and empty.
  ended : Dequeued
  -- the caller stays in `cond.Wait`
  waits : Dequeued

-- On the queue's order and its `closed` flag.
take_first : Queue → List Bytes → Bool → Queue × Dequeued
take_first q [] true = (q, ended)
take_first q [] false = (q, waits)
take_first q (k ∷ ks) _ =
    (record q { order = ks; entries = delete k q.entries }, got (entry q.entries k))

pub dequeue : Queue → Queue × Dequeued
unfolding take_first
dequeue q = take_first q q.order q.closed

pub close : Queue → Queue
close q = record q { closed = true }

abbrev pub len : Queue → ℕ
len q = length q.order

abbrev pub notices : List (Bytes × Notice) → List Bytes → List Notice
notices entries [] = []
notices entries (k ∷ ks) = entry entries k ∷ notices entries ks

-- The pending notices in the order of delivery.
abbrev pub pending : Queue → List Notice
pending q = notices q.entries q.order
