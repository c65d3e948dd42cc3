-- ===== src/Irc/Queue/Spec.antt =====
-- What the queue promises, on one list of notices in the order of delivery.
use Prim.Native.Nat.{min}
use irc_eew.Base.{ℕ, Bool, true, false, ◌||◌, List, [], ◌∷◌, ◌++◌, leb, ◌==◌, if◌then◌else◌, length}
use irc_eew.Base.Bytes.{Bytes, equal}
use irc_eew.Irc.Queue.{rank, Notice, Dequeued, got, ended, waits}

-- Is a notice of this earthquake pending?
abbrev pub has_id : Bytes → List Notice → Bool
has_id k [] = false
has_id k (n ∷ ns) = equal n.eq_id k || has_id k ns

-- A later report takes the slot of the pending one.
abbrev pub replace : Notice → List Notice → List Notice
replace n [] = []
replace n (m ∷ ms) = (if equal m.eq_id n.eq_id then n else m) ∷ replace n ms

abbrev pub lowest : List Notice → ℕ
lowest [] = 2
lowest (n ∷ ns) = min (rank n.priority) (lowest ns)

-- The list without its first notice of rank `r`.
abbrev pub drop_rank : ℕ → List Notice → List Notice
drop_rank r [] = []
drop_rank r (n ∷ ns) = if rank n.priority == r then ns else n ∷ drop_rank r ns

-- What `Enqueue` promises, on the list of pending notices.
abbrev pub offer : ℕ → Bool → Notice → List Notice → List Notice
offer capacity closed n ns =
    if closed
    then ns
    else if has_id n.eq_id ns
    then replace n ns
    else (if leb capacity (length ns) then drop_rank (lowest ns) ns else ns) ++ n ∷ []

-- What `Dequeue` promises.
abbrev pub poll : Bool → List Notice → List Notice × Dequeued
poll true [] = ([], ended)
poll false [] = ([], waits)
poll _ (n ∷ ns) = (ns, got n)
