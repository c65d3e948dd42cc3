-- ===== src/Irc/Queue/Eviction.antt =====
-- Which notice `evictOne` takes out.
use irc_eew.Base.{
  ℕ, zero, suc, ◌≤◌, ◌<◌, ◌≡◌, ◌≢◌, refl, Bool, true, false, Option, none, some, List, [], ◌∷◌,
  arith, ◌==◌, if◌then◌else◌, get_elem?, take, All,
}
use irc_eew.Base.Bytes.{Bytes}
use irc_eew.Irc.Queue.{
  Priority, normal, final, cancellation, rank, Notice, Queue, entry, remove_at, first_with,
  evict_loop, evict_one,
}

abbrev pub rank_of : Queue → Bytes → ℕ
rank_of q k = rank (entry q.entries k).priority

module _ (entries : List (Bytes × Notice)) (want : Priority) where
  abbrev Other : Bytes → Type 0
  Other k = rank (entry entries k).priority ≢ rank want

  record Finds (ks : List Bytes) (i : ℕ) : Type 0 where
    key : Bytes
    found : get_elem? ks i ≡ some key
    wanted : rank (entry entries key).priority ≡ rank want
    skipped : All Other (take i ks)

  abbrev Scanned : List Bytes → Option ℕ → Type 0
  Scanned ks none = All Other ks
  Scanned ks (some i) = Finds ks i

  -- One round of the inner loop, on its test and on what the later rounds return.
  scan_round :
      (k : Bytes) (ks : List Bytes) (hit : Bool) (later : Option ℕ)
      → (rank (entry entries k).priority == rank want) ≡ hit
      → Scanned ks later
      → Scanned
          (k ∷ ks)
          (if hit then some 0 else elim later [ none ↦ none | some i ↦ some (suc i) ])
  scan_round k ks true later e s = record {
    key = k;
    found = refl;
    wanted = ground arith;
    skipped = tt;
  }
  scan_round k ks false none e s = (ground arith, s)
  scan_round k ks false (some i) e s = record {
    key = s.key;
    found = s.found;
    wanted = s.wanted;
    skipped = (ground arith, s.skipped);
  }

  first_with-Scanned : (ks : List Bytes) → Scanned ks (first_with entries want ks)
  unfolding first_with
  first_with-Scanned [] = tt
  first_with-Scanned (k ∷ ks) = scan_round k ks _ _ refl (first_with-Scanned ks)

-- `r` is `q` without the notice at `place`, whose priority is the lowest there is, and lower than
-- that of all older notices.
pub record Evicts (q r : Queue) : Type 0 where
  pub place : ℕ
  pub key : Bytes
  pub found : get_elem? q.order place ≡ some key
  pub result : r ≡ remove_at q place
  pub least : All (λ k. rank_of q key ≤ rank_of q k) q.order
  pub oldest : All (λ k. rank_of q key < rank_of q k) (take place q.order)

rank_le : (p : Priority) → rank p ≤ 2
rank_le normal = omega arith
rank_le final = omega arith
rank_le cancellation = omega arith

module _ (q : Queue) where
  -- No notice of a rank below `r`.
  abbrev Above : ℕ → List Bytes → Type 0
  Above r = All (λ k. r ≤ rank_of q k)

  Above-suc :
      (want : Priority) (ks : List Bytes)
      → Above (rank want) ks
      → All (Other q.entries want) ks
      → Above (suc (rank want)) ks
  Above-suc want [] a o = tt
  Above-suc want (k ∷ ks) a o = (omega arith, Above-suc want ks a.1 o.1)

  Above-take : (r i : ℕ) (ks : List Bytes) → Above r ks → Above r (take i ks)
  Above-take r zero ks a = tt
  Above-take r (suc i) [] a = tt
  Above-take r (suc i) (k ∷ ks) a = (a.0, Above-take r i ks a.1)

  Evicts-at :
      (want : Priority) (i : ℕ)
      → Above (rank want) q.order
      → Finds q.entries want q.order i
      → Evicts q (remove_at q i)
  Evicts-at want i a f = record {
    place = i;
    key = f.key;
    found = f.found;
    result = refl;
    least = rw f.wanted a;
    oldest = rw f.wanted (Above-suc want _ (Above-take _ i q.order a) f.skipped);
  }

  -- The loop from priority `want` on, if none lower is left.
  evict_round :
      (want : Priority) (wants : List Priority) (scanned : Option ℕ)
      → Above (rank want) q.order
      → Scanned q.entries want q.order scanned
      → (Above (suc (rank want)) q.order → Evicts q (evict_loop q wants))
      → Evicts q (elim scanned [ none ↦ evict_loop q wants | some i ↦ remove_at q i ])
  evict_round want wants none a s later = later (Above-suc want q.order a s)
  evict_round want wants (some i) a s later = Evicts-at want i a s

  Above-zero : (ks : List Bytes) → Above 0 ks
  Above-zero [] = tt
  Above-zero (k ∷ ks) = (omega arith, Above-zero ks)

  Above-three : (ks : List Bytes) → ks ≢ [] → ¬ Above 3 ks
  Above-three [] h a = h refl
  Above-three (k ∷ ks) h a = omega (arith, rank_le (entry q.entries k).priority, a.0)

  -- On a queue that is not empty `evictOne` takes out the oldest notice of the lowest priority.
  pub evict_one-Evicts : q.order ≢ [] → Evicts q (evict_one q)
  unfolding evict_one
  evict_one-Evicts ne =
      let scan = λ (want : Priority). first_with-Scanned q.entries want q.order in
      evict_round normal (final ∷ cancellation ∷ []) _ (Above-zero q.order) (scan normal) λ a.
        evict_round final (cancellation ∷ []) _ a (scan final) λ b.
          evict_round cancellation [] _ b (scan cancellation) λ c. absurd (Above-three q.order ne c)

-- On an empty queue it does nothing.
pub evict_one-nil : (q : Queue) → q.order ≡ [] → evict_one q ≡ q
unfolding evict_one first_with
evict_one-nil q h = ground arith
