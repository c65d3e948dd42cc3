-- ===== src/Base/Regex/Matches.antt =====
-- All matches of a row in a line that rows make up.
use irc_eew.Base.{
  ℕ, ◌-◌, Option, ◌≡◌, ◌≢◌, refl, ◌∙◌, ap, none, some, List, [], ◌∷◌, ◌++◌, arith, length,
  length-append,
}
use irc_eew.Base.Bytes.{Bytes}
use irc_eew.Base.Regex.{find, Found, Piece, Pattern, compile, match_here, find_from, find_all}
use irc_eew.Base.Regex.Rows.{Fits, Bounded, spell, compile_matches}

find_from-skip : (p : Pattern) (w s : Bytes) → find_from p (length w) (w ++ s) ≡ find_from p 0 s
unfolding find_from
find_from-skip p [] s = refl
find_from-skip p (c ∷ w) s = find_from-skip p w s

-- Where no match begins, the search goes on behind the byte.
pub find_all-miss :
    (p : Pattern) (c : ℕ) (s : Bytes)
    → match_here p (c ∷ s) [] [] ≡ none
    → find_all p (c ∷ s) ≡ find_all p s
unfolding find_all
find_all-miss p c s h = rw (h, find_from) refl

-- A row's text at the head of a line is the first match, and the search goes on behind it.
pub find_all-spell :
    (ps : List Piece) (gs : List Bytes) (rest : Bytes)
    → spell ps gs ≢ []
    → Fits ps gs
    → Bounded ps gs rest
    → find_all (compile ps) (spell ps gs ++ rest) ≡ gs ∷ find_all (compile ps) rest
unfolding find_all
find_all-spell ps gs rest n f b = by_text (spell ps gs) n (compile_matches ps gs [] rest [] f b)
  where
    by_text :
        (w : Bytes)
        → w ≢ []
        → match_here (compile ps) (w ++ rest) [] [] ≡ some (gs, rest)
        → find_from (compile ps) 0 (w ++ rest) ≡ gs ∷ find_from (compile ps) 0 rest
    by_text [] n e = absurd (n refl)
    by_text (c ∷ w) n e =
        rw (e, find_from)
          (ap (◌∷◌ gs) (
            ap (λ k. find_from (compile ps) k (w ++ rest)) (omega (arith, length-append w rest))
            ∙ find_from-skip (compile ps) w rest))

find_from-none : (p : Pattern) (s : Bytes) → find p s ≡ none → find_from p 0 s ≡ []
unfolding find find_from
find_from-none p [] h = refl
find_from-none p (c ∷ s) h = by_match (match_here p (c ∷ s) [] []) h (find_from-none p s)
  where
    by_match :
        (o : Option Found)
        → (elim o [ some (groups, rest) ↦ some groups | none ↦ find p s ]) ≡ none
        → (find p s ≡ none → find_from p 0 s ≡ [])
        → (elim o [
          | some (groups, rest) ↦ groups ∷ find_from p (length s - length rest) s
          | none ↦ find_from p 0 s
        ])
          ≡ []
    by_match none e later = later e
    by_match (some (groups, rest)) e later = absurd (cc (e))

-- A line in which nothing is found first has no match at all.
pub find_all-none : (p : Pattern) (s : Bytes) → find p s ≡ none → find_all p s ≡ []
unfolding find_all
find_all-none p s h = find_from-none p s h

pub find_all-nil : (p : Pattern) → find_all p [] ≡ []
unfolding find_all find_from
find_all-nil p = refl
