-- ===== src/Irc/Queue/Pending.antt =====
-- The pending notices, as the map of entries and the slice of keys give them, under the writes
-- of the methods.
use irc_eew.Base.{
  ℕ, zero, suc, ◌≤◌, ◌<◌, ◌≡◌, ◌≢◌, refl, sym, true, false, ◌||◌, some, List, [], ◌∷◌, ◌++◌, arith,
  is_some, length, get_elem?, take, drop, Option-cases, inl, inr, ◌∙◌, ap, ap₂, subst, All,
}
use irc_eew.Base.Bytes.{Bytes, equal, equal_iff, equal_refl, contains, Distinct}
use irc_eew.Base.Dict.{get, put, delete, get-put, get-delete}
use irc_eew.Base.Keys.{split_at_elem, not-contains-middle}
use irc_eew.Irc.Queue.{
  Priority, rank, Notice, Queue, entry, evict_one, append_new, notices, pending,
}
use irc_eew.Irc.Queue.Eviction.{evict_one-Evicts}
use irc_eew.Irc.Queue.Invariant.{Inv, remove_at_entries, remove_at_order}
use irc_eew.Irc.Queue.Spec.{has_id, replace, lowest, drop_rank}

notices-append :
    (es : List (Bytes × Notice)) (xs ys : List Bytes)
    → notices es (xs ++ ys) ≡ notices es xs ++ notices es ys
notices-append es [] ys = refl
notices-append es (x ∷ xs) ys = ap (◌∷◌ (entry es x)) (notices-append es xs ys)

pub length-notices :
    (es : List (Bytes × Notice)) (ks : List Bytes) → length (notices es ks) ≡ length ks
length-notices es [] = refl
length-notices es (k ∷ ks) = ap suc (length-notices es ks)

-- A write under a key that is not listed does not show.
notices-put :
    (k : Bytes) (n : Notice) (es : List (Bytes × Notice)) (ks : List Bytes)
    → contains k ks ≡ false
    → notices (put k n es) ks ≡ notices es ks
notices-put k n es [] h = refl
notices-put k n es (j ∷ ks) h =
    ap₂ ◌∷◌ (ground (arith, get-put j k n es, equal_iff k j, equal_iff j k))
      (notices-put k n es ks (ground arith))

pub notices-delete :
    (k : Bytes) (es : List (Bytes × Notice)) (ks : List Bytes)
    → contains k ks ≡ false
    → notices (delete k es) ks ≡ notices es ks
notices-delete k es [] h = refl
notices-delete k es (j ∷ ks) h =
    ap₂ ◌∷◌ (ground (arith, get-delete j k es, equal_iff k j, equal_iff j k))
      (notices-delete k es ks (ground arith))

module _ (es : List (Bytes × Notice)) where
  -- Each listed notice is stored under its own name.
  abbrev pub Named : List Bytes → Type 0
  Named = All (λ k. (entry es k).eq_id ≡ k)

  pub has_id-notices :
      (k : Bytes) (ks : List Bytes) → Named ks → has_id k (notices es ks) ≡ contains k ks
  has_id-notices k [] h = refl
  has_id-notices k (j ∷ ks) h = rw h.0 (ap (◌||◌ (equal j k)) (has_id-notices k ks h.1))

  pub notices-replace :
      (n : Notice) (ks : List Bytes)
      → Named ks
      → notices (put n.eq_id n es) ks ≡ replace n (notices es ks)
  notices-replace n [] h = refl
  notices-replace n (j ∷ ks) h =
      ap₂ ◌∷◌
        (ground (
          arith,
          get-put j n.eq_id n es,
          equal_iff n.eq_id j,
          equal_iff (entry es j).eq_id n.eq_id,
          h.0,
        ))
        (notices-replace n ks h.1)

  abbrev rank_at : Bytes → ℕ
  rank_at k = rank (entry es k).priority

  module _ (key : Bytes) where
    lowest-notices :
        (ks : List Bytes) (i : ℕ)
        → get_elem? ks i ≡ some key
        → rank_at key ≤ 2
        → All (λ k. rank_at key ≤ rank_at k) ks
        → lowest (notices es ks) ≡ rank_at key
    lowest-notices [] i f b a = absurd (cc)
    lowest-notices (k ∷ ks) zero f b a =
        let e : rank_at k ≡ rank_at key = ground arith in omega (arith, above-lowest ks b a.1)
      where
        above-lowest :
            (ls : List Bytes)
            → rank_at key ≤ 2
            → All (λ k. rank_at key ≤ rank_at k) ls
            → rank_at key ≤ lowest (notices es ls)
        above-lowest [] b a = b
        above-lowest (l ∷ ls) b a = omega (arith, above-lowest ls b a.1)
    lowest-notices (k ∷ ks) (suc i) f b a = omega (arith, lowest-notices ks i f b a.1)

    drop_rank-notices :
        (ks : List Bytes) (i : ℕ)
        → get_elem? ks i ≡ some key
        → All (λ k. rank_at key < rank_at k) (take i ks)
        → drop_rank (rank_at key) (notices es ks) ≡ notices es (take i ks ++ drop (suc i) ks)
    drop_rank-notices [] i f a = absurd (cc)
    drop_rank-notices (k ∷ ks) zero f a = ground arith
    drop_rank-notices (k ∷ ks) (suc i) f a = ground (arith, drop_rank-notices ks i f a.1)

pub Inv-Named : (q : Queue) → Inv q → Named q.entries q.order
Inv-Named q v = listed q.order (λ k h. sym (v.keyed k) ∙ h)
  where
    named : (k : Bytes) → is_some (get k q.entries) ≡ true → (entry q.entries k).eq_id ≡ k
    named k h = elim (Option-cases (get k q.entries)) [
      | inl e ↦ ground arith
      | inr (n, e) ↦ rw e (v.named k n e)
    ]

    listed :
        (ks : List Bytes)
        → ((k : Bytes) → contains k ks ≡ true → is_some (get k q.entries) ≡ true)
        → Named q.entries ks
    listed [] h = tt
    listed (k ∷ ks) h = (named k (h k (rw equal_refl)), listed ks (λ j c. h j (ground arith)))

pub pending-append_new :
    (q : Queue) (n : Notice)
    → contains n.eq_id q.order ≡ false
    → pending (append_new q n) ≡ pending q ++ n ∷ []
pending-append_new q n h =
    notices-append (put n.eq_id n q.entries) q.order (n.eq_id ∷ [])
    ∙ ap₂ ◌++◌ (notices-put n.eq_id n q.entries q.order h) (
        ap (λ (m : Notice). m ∷ [])
          (ground (arith, get-put n.eq_id n.eq_id n q.entries, equal_refl n.eq_id)))

rank_le : (p : Priority) → rank p ≤ 2
rank_le Priority.normal = omega arith
rank_le Priority.final = omega arith
rank_le Priority.cancellation = omega arith

pub pending-evict_one :
    (q : Queue)
    → Inv q
    → q.order ≢ []
    → pending (evict_one q) ≡ drop_rank (lowest (pending q)) (pending q)
pending-evict_one q v ne =
    let e = evict_one-Evicts q ne in
    let es = q.entries in
    let before = take e.place q.order in
    let after = drop (suc e.place) q.order in
    let apart = subst Distinct (split_at_elem q.order e.place e.found) v.distinct in
    rw
      (
        e.result,
        remove_at_order q e.place e.found,
        remove_at_entries q e.place e.found,
        notices-delete e.key es _ (not-contains-middle e.key before after apart),
        lowest-notices es e.key q.order e.place e.found (rank_le _) e.least,
      )
      (sym (drop_rank-notices es e.key q.order e.place e.found e.oldest))
