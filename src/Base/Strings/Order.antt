-- ===== src/Base/Strings/Order.antt =====
-- `<` on strings is a strict order, and a sort by a test.
use mathlib.Core.List.{Perm}
use irc_eew.Base.Bytes.{Bytes, equal}
use irc_eew.Base.Strings.{less}
use irc_eew.Base.{◌≡◌, refl, Bool, true, false, List, [], ◌∷◌, All, arith}

pub less_irrefl : (a : Bytes) → less a a ≡ false
less_irrefl [] = refl
less_irrefl (x ∷ a) = ground (arith, less_irrefl a)

pub less_trans : (a b c : Bytes) → less a b ≡ true → less b c ≡ true → less a c ≡ true
less_trans [] (y ∷ b) (z ∷ c) h k = refl
less_trans (x ∷ a) (y ∷ b) (z ∷ c) h k = ground (arith, less_trans a b c)
less_trans a [] c h k = absurd (cc)
less_trans a (y ∷ b) [] h k = absurd (cc)

pub less_total : (a b : Bytes) → equal a b ≡ false → less a b ≡ false → less b a ≡ true
less_total [] [] h k = absurd (cc)
less_total [] (y ∷ b) h k = absurd (cc)
less_total (x ∷ a) [] h k = refl
less_total (x ∷ a) (y ∷ b) h k = ground (arith, less_total a b)

-- What `sort` asks of a test: it is irreflexive, and it is transitive where it holds and where it
-- does not.
pub record IsOrdering (P : Bytes → Type 0) (lt : Bytes → Bytes → Bool) : Type 0 where
  pub irrefl : (a : Bytes) → P a → lt a a ≡ false
  pub trans : (a b c : Bytes) → P a → P b → P c → lt a b ≡ true → lt b c ≡ true → lt a c ≡ true
  pub neg_trans :
      (a b c : Bytes) → P a → P b → P c → lt a b ≡ false → lt b c ≡ false → lt a c ≡ false

-- Nothing is less than what stands before it.
abbrev pub Ordered : (Bytes → Bytes → Bool) → List Bytes → Type 0
Ordered lt [] = Unit
Ordered lt (s ∷ ss) = All (λ t. lt t s ≡ false) ss × Ordered lt ss

-- What `sort.Slice` promises.
pub record Sorts (sort_slice : (Bytes → Bytes → Bool) → List Bytes → List Bytes) : Type 1 where
  pub permutes : (lt : Bytes → Bytes → Bool) (ss : List Bytes) → Perm (sort_slice lt ss) ss
  pub ordered :
      (P : Bytes → Type 0) (lt : Bytes → Bytes → Bool) (ss : List Bytes)
      → IsOrdering P lt
      → All P ss
      → Ordered lt (sort_slice lt ss)

less_neg_trans : (a b c : Bytes) → less a b ≡ false → less b c ≡ false → less a c ≡ false
less_neg_trans a b [] h k = refl
less_neg_trans (x ∷ a) (y ∷ b) (z ∷ c) h k = ground (arith, less_neg_trans a b c)
less_neg_trans [] (y ∷ b) c h k = absurd (cc)
less_neg_trans a [] (z ∷ c) h k = absurd (cc)

pub less-IsOrdering : IsOrdering (λ s. Unit) less
less-IsOrdering = record {
  irrefl = λ a p. less_irrefl a;
  trans = λ a b c p q r. less_trans a b c;
  neg_trans = λ a b c p q r. less_neg_trans a b c;
}
