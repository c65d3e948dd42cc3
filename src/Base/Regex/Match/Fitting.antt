-- ===== src/Base/Regex/Match/Fitting.antt =====
-- Texts that match: groups of a fixed length, literals and runs that fit.
use irc_eew.Base.{
  ℕ, ==_iff, ◌≡◌, ◌≢◌, refl, ◌∙◌, ap, Bool, false, Option, none, some, List, [], ◌∷◌, ◌++◌, length,
  append_assoc, append-nil,
}
use irc_eew.Base.Regex.Match.{Of}
use irc_eew.Base.Bytes.{Bytes}
use irc_eew.Base.Regex.{
  many, closes, Pattern, Found, many_of, match_here, find, find_at_start, repeat, grouped, literal,
}

-- Text that fits is matched.
pub grouped_matches :
    (class : ℕ → Bool) (p : Pattern) (text rest cur : Bytes) (groups : List Bytes)
    → Of class text
    → match_here (grouped (repeat (length text) class) ++ p) (text ++ rest) cur groups
      ≡ match_here p rest text (groups ++ text ∷ [])
unfolding match_here
grouped_matches class p text rest cur groups h =
    ap (λ q. match_here q (text ++ rest) [] groups)
      (append_assoc (repeat (length text) class) (closes ∷ []) p)
    ∙ repeat_matches text [] h
  where
    repeat_matches :
        (t done : Bytes)
        → Of class t
        → match_here (repeat (length t) class ++ closes ∷ p) (t ++ rest) done groups
          ≡ match_here p rest (done ++ t) (groups ++ (done ++ t) ∷ [])
    repeat_matches [] done h = rw append-nil
    repeat_matches (c ∷ t) done h =
        rw h.0 (repeat_matches t (done ++ c ∷ []) h.1 ∙ rw (append_assoc done (c ∷ []) t))

pub literal_matches :
    (l : Bytes) (p : Pattern) (rest cur : Bytes) (groups : List Bytes)
    → match_here (literal l ++ p) (l ++ rest) cur groups ≡ match_here p rest (cur ++ l) groups
unfolding match_here
literal_matches [] p rest cur groups = rw append-nil
literal_matches (c ∷ l) p rest cur groups = rw (
  (==_iff c c).1 refl,
  literal_matches l p rest (cur ++ c ∷ []) groups,
  append_assoc cur (c ∷ []) l,
)

-- A text that does not go on with a byte of the class.
abbrev pub Leaves : (ℕ → Bool) → Bytes → Type 0
Leaves class [] = Unit
Leaves class (c ∷ s) = class c ≡ false

many_of-nil :
    (class : ℕ → Bool) (k : Bytes → Bytes → Option Found) (rest cur : Bytes)
    → Leaves class rest
    → many_of class k rest cur ≡ none
unfolding many_of
many_of-nil class k [] cur h = refl
many_of-nil class k (c ∷ rest) cur h = rw h

-- A run is taken whole, if what follows matches behind it.
many_of_whole :
    (class : ℕ → Bool) (k : Bytes → Bytes → Option Found) (run rest cur : Bytes) {r : Found}
    → run ≢ []
    → Of class run
    → Leaves class rest
    → k rest (cur ++ run) ≡ some r
    → many_of class k (run ++ rest) cur ≡ some r
unfolding many_of
many_of_whole class k [] rest cur ne h l e = absurd (ne refl)
many_of_whole class k (c ∷ []) rest cur ne h l e =
    rw (h.0, many_of-nil class k rest (cur ++ c ∷ []) l) e
many_of_whole class k (c ∷ d ∷ run) rest cur {r} ne h l e = rw (
  h.0,
  many_of_whole class k (d ∷ run) rest (cur ++ c ∷ []) {r = r} (cc) h.1 l
      (rw (append_assoc cur (c ∷ []) (d ∷ run)) e),
)

pub grouped_many_matches :
    (class : ℕ → Bool) (p : Pattern) (run rest cur : Bytes) (groups : List Bytes) {r : Found}
    → run ≢ []
    → Of class run
    → Leaves class rest
    → match_here p rest run (groups ++ run ∷ []) ≡ some r
    → match_here (grouped (many class ∷ []) ++ p) (run ++ rest) cur groups ≡ some r
unfolding match_here
grouped_many_matches class p run rest cur groups ne h l e =
    many_of_whole class (λ s' cur'. match_here (closes ∷ p) s' cur' groups) run rest [] ne h l e

-- A match at the head of the text is what the search finds.
pub find_head :
    (p : Pattern) (s : Bytes) {m : List Bytes} {rest : Bytes}
    → match_here p s [] [] ≡ some (m, rest)
    → (find p s ≡ some m) × (find_at_start p s ≡ some m)
unfolding find find_at_start
find_head p [] e = (rw e, rw e)
find_head p (c ∷ s) e = (rw (e, find), rw e)
