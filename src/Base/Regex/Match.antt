-- ===== src/Base/Regex/Match.antt =====
-- What a match says of the text, and texts that match: for the groups of a fixed length, the
-- literals and the runs of which the patterns are made.
pub mod Fitting
use irc_eew.Base.{
  ℕ, zero, suc, ◌-◌, ==_iff, ◌≡◌, ◌≢◌, refl, ◌∙◌, ap, ap₂, Bool-cases, inl, inr, All-map, Bool,
  true, false, Option, none, some, List, [], ◌∷◌, ◌++◌, arith, ◌==◌, if◌then◌else◌, length, All,
  append_assoc, append-nil,
}
use irc_eew.Base.Bytes.{Bytes}
use irc_eew.Base.Regex.{
  many, closes, Pattern, Found, first_found, many_of, match_here, groups_of, find, find_at_start,
  find_from, find_all, repeat, grouped, literal,
}

-- Every byte is in the class.
abbrev pub Of : (ℕ → Bool) → Bytes → Type 0
Of class = All (λ c. class c ≡ true)

-- A match of `n` bytes of a class, taken apart.
record Repeats (n : ℕ) (class : ℕ → Bool) (p : Pattern) (s cur : Bytes) (groups : List Bytes)
    (r : Found) : Type 0 where
  run : Bytes
  rest : Bytes
  spelled : s ≡ run ++ rest
  long : length run ≡ n
  of_class : Of class run
  later : match_here p rest (cur ++ run) groups ≡ some r

match_repeat :
    (n : ℕ) (class : ℕ → Bool) (p : Pattern) (s cur : Bytes) (groups : List Bytes) {r : Found}
    → match_here (repeat n class ++ p) s cur groups ≡ some r
    → Repeats n class p s cur groups r
unfolding match_here
match_repeat zero class p s cur groups e = record {
  run = [];
  rest = s;
  spelled = refl;
  long = refl;
  of_class = tt;
  later = rw append-nil e;
}
match_repeat (suc n) class p [] cur groups e = absurd (cc)
match_repeat (suc n) class p (c ∷ s) cur groups {r} e =
    by_class (class c) refl e λ x. match_repeat n class p s (cur ++ c ∷ []) groups x
  where
    by_class :
        (b : Bool)
        → class c ≡ b
        → (if b then match_here (repeat n class ++ p) s (cur ++ c ∷ []) groups else none) ≡ some r
        → (match_here (repeat n class ++ p) s (cur ++ c ∷ []) groups ≡ some r
            → Repeats n class p s (cur ++ c ∷ []) groups r)
        → Repeats (suc n) class p (c ∷ s) cur groups r
    by_class false h e later = absurd (cc)
    by_class true h e later =
        let m = later e in
        record {
          run = c ∷ m.run;
          rest = m.rest;
          spelled = ap (◌∷◌ c) m.spelled;
          long = ap suc m.long;
          of_class = (h, m.of_class);
          later = rw (← append_assoc cur (c ∷ []) m.run) m.later;
        }

-- The next group of a match: its text, and the match of what follows.
pub record Group (class : ℕ → Bool) (p : Pattern) (s : Bytes) (groups : List Bytes) (r : Found)
    : Type 0 where
  pub text : Bytes
  pub rest : Bytes
  pub spelled : s ≡ text ++ rest
  pub of_class : Of class text
  pub later : match_here p rest text (groups ++ text ∷ []) ≡ some r

pub match_grouped :
    (n : ℕ) (class : ℕ → Bool) (p : Pattern) (s cur : Bytes) (groups : List Bytes) {r : Found}
    → match_here (grouped (repeat n class) ++ p) s cur groups ≡ some r
    → (g : Group class p s groups r) × (length g.text ≡ n)
unfolding match_here
match_grouped n class p s cur groups {r} e =
    let m =
      match_repeat n class (closes ∷ p) s [] groups
        (rw (append_assoc (repeat n class) (closes ∷ []) p) at e) in
    (
      record {
        text = m.run;
        rest = m.rest;
        spelled = m.spelled;
        of_class = m.of_class;
        later = m.later;
      },
      m.long,
    )

many_of_run :
    (class : ℕ → Bool) (k : Bytes → Bytes → Option Found) (s cur : Bytes) {r : Found}
    → many_of class k s cur ≡ some r
    → (run : Bytes) × (rest : Bytes) × (s ≡ run ++ rest)
      × (run ≢ [])
      × Of class run
      × (k rest (cur ++ run) ≡ some r)
unfolding many_of
many_of_run class k [] cur e = absurd (cc)
many_of_run class k (c ∷ s) cur {r} e =
    by_class (class c) (many_of class k s (cur ++ c ∷ [])) refl e
      λ x. many_of_run class k s (cur ++ c ∷ []) x
  where
    by_class :
        (b : Bool) (longer : Option Found)
        → class c ≡ b
        → (if b then first_found longer (k s (cur ++ c ∷ [])) else none) ≡ some r
        → (longer ≡ some r
            → (run : Bytes) × (rest : Bytes) × (s ≡ run ++ rest)
              × (run ≢ [])
              × Of class run
              × (k rest ((cur ++ c ∷ []) ++ run) ≡ some r))
        → (run : Bytes) × (rest : Bytes) × (c ∷ s ≡ run ++ rest)
          × (run ≢ [])
          × Of class run
          × (k rest (cur ++ run) ≡ some r)
    by_class false longer h e later = absurd (cc)
    by_class true none h e later = (c ∷ [], s, refl, cc, (h, tt), e)
    by_class true (some f) h e later =
        let (run, rest, spelled, ne, of_class, found) = later e in
        (
          c ∷ run,
          rest,
          ap (◌∷◌ c) spelled,
          cc,
          (h, of_class),
          rw (← append_assoc cur (c ∷ []) run) found,
        )

pub match_grouped_many :
    (class : ℕ → Bool) (p : Pattern) (s cur : Bytes) (groups : List Bytes) {r : Found}
    → match_here (grouped (many class ∷ []) ++ p) s cur groups ≡ some r
    → (g : Group class p s groups r) × (g.text ≢ [])
unfolding match_here
match_grouped_many class p s cur groups e =
    let (run, rest, spelled, ne, of_class, found) =
      many_of_run class (λ s' cur'. match_here (closes ∷ p) s' cur' groups) s [] e in
    (record { text = run; rest = rest; spelled = spelled; of_class = of_class; later = found }, ne)

pub match_literal :
    (l : Bytes) (p : Pattern) (s cur : Bytes) (groups : List Bytes) {r : Found}
    → match_here (literal l ++ p) s cur groups ≡ some r
    → (rest : Bytes) × (cur' : Bytes) × (s ≡ l ++ rest) × (match_here p rest cur' groups ≡ some r)
unfolding match_here
match_literal [] p s cur groups e = (s, cur, refl, e)
match_literal (c ∷ l) p [] cur groups e = absurd (cc)
match_literal (c ∷ l) p (x ∷ s) cur groups {r} e = elim (Bool-cases (x == c)) [
  | inl h ↦
      let (rest, cur', spelled, found) =
        match_literal l p s (cur ++ x ∷ []) groups (rw (h, match_here) at e) in
      (rest, cur', ap₂ (◌∷◌) ((==_iff x c).0 h) spelled, found)
  | inr h ↦ absurd (cc (rw (h, match_here) at e))
]

-- `p` matches at some place of `s`, with the groups `m`.
pub record Somewhere (p : Pattern) (s : Bytes) (m : List Bytes) : Type 0 where
  pub before : Bytes
  pub place : Bytes
  pub rest : Bytes
  pub spelled : s ≡ before ++ place
  pub matches : match_here p place [] [] ≡ some (m, rest)

Somewhere-cons :
    (p : Pattern) (c : ℕ) (s : Bytes) {m : List Bytes} → Somewhere p s m → Somewhere p (c ∷ s) m
Somewhere-cons p c s w = record {
  before = c ∷ w.before;
  place = w.place;
  rest = w.rest;
  spelled = ap (◌∷◌ c) w.spelled;
  matches = w.matches;
}

groups_of-Somewhere :
    (p : Pattern) (s : Bytes) (o : Option Found) {m : List Bytes}
    → match_here p s [] [] ≡ o
    → groups_of o ≡ some m
    → Somewhere p s m
groups_of-Somewhere p s none h e = absurd (cc)
groups_of-Somewhere p s (some (groups, rest)) h e = record {
  before = [];
  place = s;
  rest = rest;
  spelled = refl;
  matches = h ∙ ground arith;
}

pub find-Somewhere :
    (p : Pattern) (s : Bytes) {m : List Bytes} → find p s ≡ some m → Somewhere p s m
unfolding find
find-Somewhere p [] e = groups_of-Somewhere p [] (match_here p [] [] []) refl e
find-Somewhere p (c ∷ s) {m} e =
    by_match (match_here p (c ∷ s) [] []) refl e λ x. find-Somewhere p s x
  where
    by_match :
        (o : Option Found)
        → match_here p (c ∷ s) [] [] ≡ o
        → ◌≡◌ {A = Option (List Bytes)}
            (elim o [ some (groups, rest) ↦ some groups | none ↦ find p s ])
            (some m)
        → (find p s ≡ some m → Somewhere p s m)
        → Somewhere p (c ∷ s) m
    by_match none h e later = Somewhere-cons p c s (later e)
    by_match (some (groups, rest)) h e later =
        groups_of-Somewhere p (c ∷ s) (some (groups, rest)) h e

pub find_at_start-Somewhere :
    (p : Pattern) (s : Bytes) {m : List Bytes} → find_at_start p s ≡ some m → Somewhere p s m
unfolding find_at_start
find_at_start-Somewhere p s e = groups_of-Somewhere p s (match_here p s [] []) refl e

find_from-Somewhere : (p : Pattern) (k : ℕ) (s : Bytes) → All (Somewhere p s) (find_from p k s)
unfolding find_from
find_from-Somewhere p k [] = tt
find_from-Somewhere p (suc k) (c ∷ s) =
    All-map (λ m. Somewhere-cons p c s) _ (find_from-Somewhere p k s)
find_from-Somewhere p zero (c ∷ s) =
    by_match (match_here p (c ∷ s) [] []) refl
      λ k. All-map (λ m. Somewhere-cons p c s) _ (find_from-Somewhere p k s)
  where
    by_match :
        (o : Option Found)
        → match_here p (c ∷ s) [] [] ≡ o
        → ((k : ℕ) → All (Somewhere p (c ∷ s)) (find_from p k s))
        → All (Somewhere p (c ∷ s)) (elim o [
          | some (groups, rest) ↦ groups ∷ find_from p (length s - length rest) s
          | none ↦ find_from p 0 s
        ])
    by_match none h later = later 0
    by_match (some (groups, rest)) h later = (
      record { before = []; place = c ∷ s; rest = rest; spelled = refl; matches = h },
      later (length s - length rest),
    )

-- Every match that `FindAll` returns is one.
pub find_all-Somewhere : (p : Pattern) (s : Bytes) → All (Somewhere p s) (find_all p s)
unfolding find_all
find_all-Somewhere p s = find_from-Somewhere p 0 s
