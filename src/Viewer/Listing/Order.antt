-- ===== src/Viewer/Listing/Order.antt =====
-- The order of the telegrams on the page of a day.
use irc_eew.Base.Bytes.{Bytes, equal, equal_iff, equal_refl, equal_comm}
use irc_eew.Base.Decimal.{is_digit}
use irc_eew.Base.Int.{ℤ, pos, negsuc}
use irc_eew.Base.Regex.Match.{Of}
use irc_eew.Base.Strings.Order.{less_irrefl, less_trans, less_total, IsOrdering}
use irc_eew.Base.Strings.{less}
use irc_eew.Base.{
  ◌≡◌, refl, sym, ◌∙◌, ap, ap₂, subst, Bool, true, false, Option, none, some, [], ◌∷◌, ◌++◌, ◌==◌,
  if◌then◌else◌, arith, ◌⊎◌, Bool-cases, ==_iff, get_or, inl, inr,
}
use irc_eew.Viewer.Listing.{
  digits_run, number_of, with_id, name_parts, split_eew_name, less_int, less_parts, less_eew_file,
}

digits_run-append : (s : Bytes) → (digits_run s).0 ++ (digits_run s).1 ≡ s
digits_run-append [] = refl
digits_run-append (c ∷ s) = elim (Bool-cases (is_digit c)) [
  | inl e ↦ rw e (ap (◌∷◌ c) (digits_run-append s))
  | inr e ↦ rw e refl
]

digits_run-digits : (s : Bytes) → Of is_digit (digits_run s).0
digits_run-digits [] = tt
digits_run-digits (c ∷ s) = elim (Bool-cases (is_digit c)) [
  | inl e ↦ rw e (e, digits_run-digits s)
  | inr e ↦ rw e tt
]

-- An id, a dot, and more.
name_parts-shape :
    (id rest : Bytes) (p : Bytes × ℤ)
    → name_parts (id, rest) ≡ some p
    → (s : Bytes) × (rest ≡ b'.' ∷ s) × (p.0 ≡ id)
name_parts-shape id [] p e = absurd (cc)
name_parts-shape id (c ∷ s) p e = elim (Bool-cases (c == b'.')) [
  | inl dot ↦ (
    s,
    ap (λ x. x ∷ s) ((==_iff c b'.').0 dot),
    of_id id (number_of s) (sym (ap (λ b. if b then with_id id (number_of s) else none) dot) ∙ e),
  )
  | inr other ↦ absurd (cc (e, other))
]
  where
    of_id : (id : Bytes) (n : Option ℤ) → with_id id n ≡ some p → p.0 ≡ id
    of_id [] n e = absurd (cc)
    of_id (c ∷ id) none e = absurd (cc)
    of_id (c ∷ id) (some n) e = sym (ap (λ o. (get_or o p).0) e)

split_eew_name-shape :
    (a : Bytes) (p : Bytes × ℤ)
    → split_eew_name a ≡ some p
    → (s : Bytes) × (a ≡ p.0 ++ b'.' ∷ s) × Of is_digit p.0
unfolding split_eew_name
split_eew_name-shape a p e =
    let (s, rest, id) = name_parts-shape (digits_run a).0 (digits_run a).1 p e in
    (
      s,
      sym (digits_run-append a) ∙ ap₂ (λ x y. x ++ y) (sym id) rest,
      subst (Of is_digit) (sym id) (digits_run-digits a),
    )

-- Different ids order the names, whatever stands behind their dots.
less-names :
    (id_a s id_b t : Bytes)
    → Of is_digit id_a
    → Of is_digit id_b
    → equal id_a id_b ≡ false
    → less (id_a ++ b'.' ∷ s) (id_b ++ b'.' ∷ t) ≡ less id_a id_b
less-names [] s [] t h k e = absurd (cc)
less-names [] s (y ∷ b) t h k e = ground arith
less-names (x ∷ a) s [] t h k e = ground arith
less-names (x ∷ a) s (y ∷ b) t h k e = ground (arith, less-names a s b t)

-- By the id, and by the number where the ids agree.
abbrev pub earlier : Bytes × ℤ → Bytes × ℤ → Bool
earlier a b = if equal a.0 b.0 then less_int a.1 b.1 else less a.0 b.0

pub less_eew_file-earlier :
    (a b : Bytes) (p q : Bytes × ℤ)
    → split_eew_name a ≡ some p
    → split_eew_name b ≡ some q
    → less_eew_file a b ≡ earlier p q
unfolding less_eew_file
less_eew_file-earlier a b p q e f = ap₂ (less_parts a b) e f ∙ by_equal (equal p.0 q.0) refl
  where
    by_equal :
        (same : Bool)
        → equal p.0 q.0 ≡ same
        → (if same then less_int p.1 q.1 else less a b)
          ≡ (if same then less_int p.1 q.1 else less p.0 q.0)
    by_equal true g = refl
    by_equal false g =
        let (s, at, digits) = split_eew_name-shape a p e in
        let (t, at', digits') = split_eew_name-shape b q f in
        ap₂ less at at' ∙ less-names p.0 s q.0 t digits digits' g

less_int_irrefl : (m : ℤ) → less_int m m ≡ false
less_int_irrefl (pos m) = ground arith
less_int_irrefl (negsuc m) = ground arith

less_int_trans : (m n k : ℤ) → less_int m n ≡ true → less_int n k ≡ true → less_int m k ≡ true
less_int_trans (pos m) (pos n) (pos k) h l = ground arith
less_int_trans (negsuc m) (negsuc n) (negsuc k) h l = ground arith
less_int_trans (negsuc m) n (pos k) h l = refl
less_int_trans (pos m) (pos n) (negsuc k) h l = absurd (cc)
less_int_trans (pos m) (negsuc n) k h l = absurd (cc)
less_int_trans (negsuc m) (pos n) (negsuc k) h l = absurd (cc)

less_int_neg_trans :
    (m n k : ℤ) → less_int m n ≡ false → less_int n k ≡ false → less_int m k ≡ false
less_int_neg_trans (pos m) (pos n) (pos k) h l = ground arith
less_int_neg_trans (negsuc m) (negsuc n) (negsuc k) h l = ground arith
less_int_neg_trans (pos m) n (negsuc k) h l = refl
less_int_neg_trans (negsuc m) (negsuc n) (pos k) h l = absurd (cc)
less_int_neg_trans (negsuc m) (pos n) k h l = absurd (cc)
less_int_neg_trans (pos m) (negsuc n) (pos k) h l = absurd (cc)

-- Two ids are the same, or the first is less, or the second is.
less-cases :
    (a b : Bytes)
    → (a ≡ b)
      ⊎ ((equal a b ≡ false) × (less a b ≡ true) × (less b a ≡ false))
      ⊎ ((equal a b ≡ false) × (less a b ≡ false) × (less b a ≡ true))
less-cases a b = elim (Bool-cases (equal a b)) [
  | inl e ↦ inl ((equal_iff a b).0 e)
  | inr e ↦ elim (Bool-cases (less a b)) [
    | inl l ↦ inr (inl (e, l, one_way a b l))
    | inr l ↦ inr (inr (e, l, less_total a b e l))
  ]
]
  where
    one_way : (a b : Bytes) → less a b ≡ true → less b a ≡ false
    one_way a b l = elim (Bool-cases (less b a)) [
      | inl k ↦ absurd (cc (less_trans a b a l k, less_irrefl a))
      | inr k ↦ k
    ]

less-earlier :
    (i k : Bytes) (m o : ℤ)
    → less i k ≡ true
    → (earlier (i, m) (k, o) ≡ true) × (earlier (k, o) (i, m) ≡ false)
less-earlier i k m o l = elim (less-cases i k) [
  | inl e ↦ absurd (cc (e, l, less_irrefl i))
  | inr (inl (e, f, g)) ↦ (
    ap (λ b. if b then less_int m o else less i k) e ∙ f,
    ap (λ b. if b then less_int o m else less k i) (equal_comm k i ∙ e) ∙ g,
  )
  | inr (inr (e, f, g)) ↦ absurd (cc (f, l))
]

same-earlier : (i : Bytes) (m n : ℤ) → earlier (i, m) (i, n) ≡ less_int m n
same-earlier i m n = ap (λ b. if b then less_int m n else less i i) (equal_refl i)

abbrev Compared : Bytes → Bytes → Type 0
Compared a b = (a ≡ b) ⊎ ((less a b ≡ true) ⊎ (less b a ≡ true))

compared : (a b : Bytes) → Compared a b
compared a b = elim (less-cases a b) [
  | inl e ↦ inl e
  | inr (inl (e, f, g)) ↦ inr (inl f)
  | inr (inr (e, f, g)) ↦ inr (inr g)
]

-- The same for ids that are known to be equal.
earlier_at : (i j : Bytes) (m n : ℤ) → i ≡ j → earlier (i, m) (j, n) ≡ less_int m n
earlier_at i j m n e = ap (λ x. earlier (x, m) (j, n)) e ∙ same-earlier j m n

earlier_trans : (p q r : Bytes × ℤ) → earlier p q ≡ true → earlier q r ≡ true → earlier p r ≡ true
earlier_trans (i, m) (j, n) (k, o) h l = by_ids (compared i j) (compared j k)
  where
    by_ids : Compared i j → Compared j k → earlier (i, m) (k, o) ≡ true
    by_ids (inl e) (inl f) =
        earlier_at i k m o (e ∙ f)
        ∙ less_int_trans m n o (sym (earlier_at i j m n e) ∙ h) (sym (earlier_at j k n o f) ∙ l)
    by_ids (inl e) (inr (inl f)) = (less-earlier i k m o (ap (λ x. less x k) e ∙ f)).0
    by_ids (inr (inl e)) (inl f) = (less-earlier i k m o (ap (less i) (sym f) ∙ e)).0
    by_ids (inr (inl e)) (inr (inl f)) = (less-earlier i k m o (less_trans i j k e f)).0
    by_ids (inr (inr e)) b = absurd (cc (h, (less-earlier j i n m e).1))
    by_ids a (inr (inr f)) = absurd (cc (l, (less-earlier k j o n f).1))

earlier_neg_trans :
    (p q r : Bytes × ℤ) → earlier p q ≡ false → earlier q r ≡ false → earlier p r ≡ false
earlier_neg_trans (i, m) (j, n) (k, o) h l = by_ids (compared i j) (compared j k)
  where
    by_ids : Compared i j → Compared j k → earlier (i, m) (k, o) ≡ false
    by_ids (inl e) (inl f) =
        earlier_at i k m o (e ∙ f)
        ∙ less_int_neg_trans m n o (sym (earlier_at i j m n e) ∙ h) (sym (earlier_at j k n o f) ∙ l)
    by_ids (inl e) (inr (inr f)) = (less-earlier k i o m (ap (less k) e ∙ f)).1
    by_ids (inr (inr e)) (inl f) = (less-earlier k i o m (ap (λ x. less x i) (sym f) ∙ e)).1
    by_ids (inr (inr e)) (inr (inr f)) = (less-earlier k i o m (less_trans k j i f e)).1
    by_ids (inr (inl e)) b = absurd (cc (h, (less-earlier i j m n e).0))
    by_ids a (inr (inl f)) = absurd (cc (l, (less-earlier j k n o f).0))

-- A name of a telegram, by its parts.
abbrev pub IsName : Bytes → Type 0
IsName a = (p : Bytes × ℤ) × (split_eew_name a ≡ some p)

-- On names of telegrams, the test of the sort is irreflexive, and it is transitive where it
-- holds and where it does not, as `sort.Slice` asks.
pub less_eew_file-IsOrdering : IsOrdering IsName less_eew_file
less_eew_file-IsOrdering = record {
  irrefl = λ a (p, e).
      less_eew_file-earlier a a p p e e ∙ same-earlier p.0 p.1 p.1 ∙ less_int_irrefl p.1;
  trans = λ a b c (p, e) (q, f) (r, g) h l.
      less_eew_file-earlier a c p r e g
      ∙ earlier_trans p q r (sym (less_eew_file-earlier a b p q e f) ∙ h)
          (sym (less_eew_file-earlier b c q r f g) ∙ l);
  neg_trans = λ a b c (p, e) (q, f) (r, g) h l.
      less_eew_file-earlier a c p r e g
      ∙ earlier_neg_trans p q r (sym (less_eew_file-earlier a b p q e f) ∙ h)
          (sym (less_eew_file-earlier b c q r f g) ∙ l);
}
