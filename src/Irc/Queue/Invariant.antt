-- ===== src/Irc/Queue/Invariant.antt =====
-- What holds of the queue between two calls: `order` and `entries` name the same earthquakes,
-- each once, and their number is bounded.
use Prim.Native.Nat.{max}
use irc_eew.Base.{
  ℕ, suc, ◌≤◌, ◌≡◌, refl, sym, some, ◌∷◌, ◌++◌, arith, is_some, length, get_elem?, take, drop, ◌∙◌,
  ap,
}
use irc_eew.Base.Bytes.{Bytes, equal_iff, contains, Distinct}
use irc_eew.Base.Dict.{get, delete, get-delete}
use irc_eew.Base.Keys.{
  split_at_elem, contains-middle, Distinct-middle, not-contains-middle, length-middle,
}
use irc_eew.Irc.Queue.{Notice, Queue, new_queue, remove_at}

pub record Inv (q : Queue) : Type 0 where
  pub distinct : Distinct q.order
  pub keyed : (k : Bytes) → contains k q.order ≡ is_some (get k q.entries)
  pub named : (k : Bytes) (n : Notice) → get k q.entries ≡ some n → n.eq_id ≡ k
  -- `Enqueue` on a queue of capacity 0 still keeps the one notice.
  pub bounded : length q.order ≤ max q.capacity 1

pub new_queue-Inv : (capacity : ℕ) → Inv (new_queue capacity)
unfolding get
new_queue-Inv capacity = record {
  distinct = tt;
  keyed = λ k. refl;
  named = λ k n h. absurd (cc);
  bounded = omega arith;
}

module _ (q : Queue) (i : ℕ) {k : Bytes} (found : get_elem? q.order i ≡ some k) where
  pub remove_at_order : (remove_at q i).order ≡ take i q.order ++ drop (suc i) q.order
  unfolding remove_at
  remove_at_order = rw (found, remove_at)

  pub remove_at_entries : (remove_at q i).entries ≡ delete k q.entries
  unfolding remove_at
  remove_at_entries = rw (found, remove_at)

  pub remove_at_rest : ((remove_at q i).capacity ≡ q.capacity) × ((remove_at q i).closed ≡ q.closed)
  unfolding remove_at
  remove_at_rest = (rw (found, remove_at), rw (found, remove_at))

  pub length-remove_at : suc (length (remove_at q i).order) ≡ length q.order
  length-remove_at =
      rw remove_at_order
        (sym (ap length (split_at_elem q.order i found) ∙ length-middle k (take i q.order) _))

  pub remove_at-Inv : Inv q → Inv (remove_at q i)
  remove_at-Inv v =
      let before = take i q.order in
      let after = drop (suc i) q.order in
      let parted = split_at_elem q.order i found in
      let apart : Distinct (before ++ k ∷ after) = rw (← parted) v.distinct in
      record {
        distinct = rw remove_at_order (Distinct-middle k before after apart);
        keyed = λ j.
            rw (remove_at_order, remove_at_entries, get-delete)
              (ground (
                arith,
                v.keyed j,
                ap (contains j) parted,
                contains-middle j k before after,
                not-contains-middle k before after apart,
                equal_iff k j,
              ));
        named = λ j n h.
            v.named j n (ground (arith, get-delete j k q.entries, ap (get j) remove_at_entries));
        bounded = omega (arith, length-remove_at, v.bounded, remove_at_rest.0);
      }
