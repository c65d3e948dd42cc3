-- ===== src/Base/Strings/Insertion.antt =====
-- Insertion sort sorts.
use mathlib.Core.List.{Perm}
use mathlib.Core.List.Perm
use irc_eew.Base.Bytes.{Bytes}
use irc_eew.Base.Strings.Order.{IsOrdering, Ordered, Sorts}
use irc_eew.Base.Strings.{insert_by, sort_by}
use irc_eew.Base.{◌≡◌, Bool, true, false, List, [], ◌∷◌, All, Bool-cases, inl, inr}

insert_by-perm :
    (lt : Bytes → Bytes → Bool) (s : Bytes) (ts : List Bytes) → Perm (insert_by lt s ts) (s ∷ ts)
insert_by-perm lt s [] = Perm.rfl
insert_by-perm lt s (t ∷ ts) = elim (Bool-cases (lt t s)) [
  | inl e ↦ rw e (Perm.trans (Perm.cons t (insert_by-perm lt s ts)) (Perm.swap s t ts))
  | inr e ↦ rw e Perm.rfl
]

sort_by-perm : (lt : Bytes → Bytes → Bool) (ss : List Bytes) → Perm (sort_by lt ss) ss
sort_by-perm lt [] = Perm.rfl
sort_by-perm lt (s ∷ ss) =
    Perm.trans (insert_by-perm lt s (sort_by lt ss)) (Perm.cons s (sort_by-perm lt ss))

module _ {κ} (Q : Bytes → Type κ) (lt : Bytes → Bytes → Bool) where
  insert_by-All : (s : Bytes) (ts : List Bytes) → Q s → All Q ts → All Q (insert_by lt s ts)
  insert_by-All s [] q h = (q, tt)
  insert_by-All s (t ∷ ts) q h = elim (Bool-cases (lt t s)) [
    | inl e ↦ rw e (h.0, insert_by-All s ts q h.1)
    | inr e ↦ rw e (q, (h.0, h.1))
  ]

  pub sort_by-All : (ss : List Bytes) → All Q ss → All Q (sort_by lt ss)
  sort_by-All [] h = tt
  sort_by-All (s ∷ ss) h = insert_by-All s (sort_by lt ss) h.0 (sort_by-All ss h.1)

module _ (P : Bytes → Type 0) (lt : Bytes → Bytes → Bool) (o : IsOrdering P lt) where
  asym : (a b : Bytes) → P a → P b → lt a b ≡ true → lt b a ≡ false
  asym a b p q e = elim (Bool-cases (lt b a)) [
    | inl f ↦ absurd (cc (o.trans a b a p q p e f, o.irrefl a p))
    | inr f ↦ f
  ]

  after_head :
      (s t : Bytes) (ts : List Bytes)
      → P s
      → P t
      → All P ts
      → lt t s ≡ false
      → All (λ u. lt u t ≡ false) ts
      → All (λ u. lt u s ≡ false) ts
  after_head s t [] p q h e k = tt
  after_head s t (u ∷ ts) p q h e k =
      (o.neg_trans u t s h.0 q p k.0 e, after_head s t ts p q h.1 e k.1)

  insert_by-Ordered :
      (s : Bytes) (ts : List Bytes)
      → P s
      → All P ts
      → Ordered lt ts
      → Ordered lt (insert_by lt s ts)
  insert_by-Ordered s [] p h k = (tt, tt)
  insert_by-Ordered s (t ∷ ts) p h k = elim (Bool-cases (lt t s)) [
    | inl e ↦ rw e (
      insert_by-All (λ u. lt u t ≡ false) lt s ts (asym t s h.0 p e) k.0,
      insert_by-Ordered s ts p h.1 k.1,
    )
    | inr e ↦ rw e ((e, after_head s t ts p h.0 h.1 e k.0), (k.0, k.1))
  ]

  sort_by-Ordered : (ss : List Bytes) → All P ss → Ordered lt (sort_by lt ss)
  sort_by-Ordered [] h = tt
  sort_by-Ordered (s ∷ ss) h =
      insert_by-Ordered s (sort_by lt ss) h.0 (sort_by-All P lt ss h.1) (sort_by-Ordered ss h.1)

pub sort_by-Sorts : Sorts sort_by
sort_by-Sorts = record {
  permutes = sort_by-perm;
  ordered = λ P lt ss o h. sort_by-Ordered P lt o ss h;
}
