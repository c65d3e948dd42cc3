-- ===== src/Base/Strings/Unique.antt =====
-- Sorting strings gives one list for all orders of the same strings.
use mathlib.Core.Logic.{∥∥₁_elim}
use mathlib.Core.List.{Permᴰ}
use mathlib.Core.List.{Perm}
use irc_eew.Base.Bytes.{Bytes, equal, equal_iff}
use irc_eew.Base.Strings.Order.{less_irrefl, less_trans, less_total}
use irc_eew.Base.Strings.{less, insert_by, sort_strings}
use irc_eew.Base.{◌≡◌, refl, ◌∙◌, ap, ap₂, true, false, List, [], ◌∷◌, Bool-cases, inl, inr, arith}

-- Of two strings one is less, or they are one.
less_asym : (a b : Bytes) → less a b ≡ true → less b a ≡ true → a ≡ b
less_asym a b h k = absurd (cc (less_trans a b a h k, less_irrefl a))

less_antisym : (a b : Bytes) → less a b ≡ false → less b a ≡ false → a ≡ b
less_antisym a b h k = elim (Bool-cases (equal a b)) [
  | inl e ↦ (equal_iff a b).0 e
  | inr e ↦ absurd (cc (less_total a b e h))
]

insert_by_comm :
    (a b : Bytes) (ts : List Bytes)
    → insert_by less a (insert_by less b ts) ≡ insert_by less b (insert_by less a ts)
insert_by_comm a b [] = grind (arith, less_antisym a b, less_asym a b)
insert_by_comm a b (t ∷ ts) = grind (
  arith,
  less_antisym a b,
  less_asym a b,
  insert_by_comm a b ts,
  less_trans a b t,
  less_trans t a b,
  less_trans b a t,
  less_trans t b a,
  less_antisym a t,
  less_antisym b t,
)

sort_strings-permuted : {xs ys : List Bytes} → Permᴰ xs ys → sort_strings xs ≡ sort_strings ys
sort_strings-permuted Permᴰ.nil = refl
sort_strings-permuted (Permᴰ.cons {b = b} {l₁ = l₁} e d) =
    ap (λ x. insert_by less x (sort_strings l₁)) e ∙ ap (insert_by less b) (sort_strings-permuted d)
sort_strings-permuted (Permᴰ.swap {a = a} {b = b} {l = l} e f) =
    insert_by_comm a b (sort_strings l)
    ∙ ap₂ (λ x y. insert_by less x (insert_by less y (sort_strings l))) f e
sort_strings-permuted (Permᴰ.trans d e) = sort_strings-permuted d ∙ sort_strings-permuted e

pub sort_strings-Perm : {xs ys : List Bytes} → Perm xs ys → sort_strings xs ≡ sort_strings ys
sort_strings-Perm {xs} {ys} p = ∥∥₁_elim p (hlevel) sort_strings-permuted
