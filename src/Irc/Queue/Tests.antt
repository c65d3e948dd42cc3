-- ===== src/Irc/Queue/Tests.antt =====
-- Runs of the queue on small inputs.
use mathlib.Core.List.{cons-ne-nil}
use irc_eew.Base.{Bool, ◌≡◌, refl, List, [], ◌∷◌}
use irc_eew.Base.Bytes.{Bytes, codes}
use irc_eew.Base.Dict.{get, put, delete}
use irc_eew.Irc.Queue.Eviction.{Evicts, evict_one-Evicts}
use irc_eew.Irc.Queue.Invariant.{Inv}
use irc_eew.Irc.Queue.Refinement.{pending-enqueue}
use irc_eew.Irc.Queue.Schedule.{
  Call, offering, polling, closing, apply, run, promised_run, Reaches, here, next, Reaches-Inv,
  run-refines,
}
use irc_eew.Irc.Queue.Spec.{offer}
use irc_eew.Irc.Queue.{
  Priority, normal, final, Notice, Queue, new_queue, enqueue, pending, evict_one, remove_at,
  first_with,
}

abbrev notice : Bytes → Priority → Notice
notice k p = record { eq_id = k; channels = []; text = k; priority = p }

abbrev full : Queue
full = record {
  capacity = 2;
  order = codes "a" ∷ codes "b" ∷ [];
  entries = (codes "a", notice (codes "a") final) ∷ (codes "b", notice (codes "b") normal) ∷ [];
  closed = Bool.false;
}

evicts_normal :
    pending (enqueue full (notice (codes "c") normal))
    ≡ notice (codes "a") final ∷ notice (codes "c") normal ∷ []
unfolding enqueue evict_one remove_at first_with get put delete
evicts_normal = refl

abbrev calls : List Call
calls =
    offering (notice (codes "a") final)
    ∷ offering (notice (codes "b") normal)
    ∷ polling
    ∷ closing
    ∷ polling
    ∷ polling
    ∷ []

run-refines_example :
    run (new_queue 1) calls
    ≡ promised_run (record { capacity = 1; closed = Bool.false; items = [] }) calls
run-refines_example = run-refines 1 calls

-- A queue of two notices.
abbrev two : Queue
two =
    (apply (apply (new_queue 2) (offering (notice (codes "a") final))).0
      (offering (notice (codes "b") normal))).0

abbrev two_reached : Reaches (new_queue 2) two
two_reached =
    next (next here (offering (notice (codes "a") final))) (offering (notice (codes "b") normal))

Reaches-Inv_example : Inv two
Reaches-Inv_example = Reaches-Inv two_reached

two-Inv : Inv two
two-Inv = Reaches-Inv two_reached

evict_one-Evicts_example : Evicts full (evict_one full)
evict_one-Evicts_example = evict_one-Evicts full (cons-ne-nil _ _)

pending-enqueue_example :
    pending (enqueue two (notice (codes "c") normal))
    ≡ offer two.capacity two.closed (notice (codes "c") normal) (pending two)
pending-enqueue_example = pending-enqueue two (notice (codes "c") normal) two-Inv
