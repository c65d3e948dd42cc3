-- ===== src/Base/Regex/Rows.antt =====
-- Matches of a row of pieces: the groups are as the pieces say, and text spelled by a row matches.
use irc_eew.Base.{
  ℕ, zero, suc, ◌≡◌, ◌≢◌, sym, ◌∙◌, ap, some, List, [], ◌∷◌, ◌++◌, arith, length, All, All-map,
  All-append, true, append_assoc, append-nil, subst,
}
use irc_eew.Base.Bytes.{Bytes}
use irc_eew.Base.Regex.{
  Piece, text, exactly, run, compile, match_here, find, find_at_start, find_all, group, literal,
}
use irc_eew.Base.Regex.Match.Fitting.{
  Leaves, grouped_matches, grouped_many_matches, literal_matches, find_head,
}
use irc_eew.Base.Regex.Match.{
  Of, Somewhere, match_grouped, match_grouped_many, match_literal, find-Somewhere,
  find_at_start-Somewhere, find_all-Somewhere,
}

-- The groups are those of the pieces, in order.
abbrev pub Fits : List Piece → List Bytes → Type 0
Fits [] [] = Unit
Fits [] (g ∷ gs) = ⊥
Fits (text l ∷ ps) gs = Fits ps gs
Fits (exactly n class ∷ ps) [] = ⊥
Fits (exactly n class ∷ ps) (g ∷ gs) = ((length g ≡ n) × Of class g) × Fits ps gs
Fits (run class ∷ ps) [] = ⊥
Fits (run class ∷ ps) (g ∷ gs) = ((g ≢ []) × Of class g) × Fits ps gs

-- The text of a row with given groups.
abbrev pub spell : List Piece → List Bytes → Bytes
spell [] gs = []
spell (text l ∷ ps) gs = l ++ spell ps gs
spell (exactly n class ∷ ps) [] = []
spell (exactly n class ∷ ps) (g ∷ gs) = g ++ spell ps gs
spell (run class ∷ ps) [] = []
spell (run class ∷ ps) (g ∷ gs) = g ++ spell ps gs

record Added (ps : List Piece) (s : Bytes) (groups out : List Bytes) (rest : Bytes) : Type 0 where
  new : List Bytes
  spelled : s ≡ spell ps new ++ rest
  appended : out ≡ groups ++ new
  fits : Fits ps new

match_compile :
    (ps : List Piece) (s cur : Bytes) (groups : List Bytes) {out : List Bytes} {rest : Bytes}
    → match_here (compile ps) s cur groups ≡ some (out, rest)
    → Added ps s groups out rest
match_compile [] s cur groups e = record {
  new = [];
  spelled = unfold match_here in ground arith;
  appended = unfold match_here in ground (arith, append-nil groups);
  fits = tt;
}
match_compile (text l ∷ ps) s cur groups {rest} e =
    let (at, cur', spelled, later) = match_literal l (compile ps) s cur groups e in
    let a = match_compile ps at cur' groups later in
    record {
      new = a.new;
      spelled = spelled ∙ ap (λ t. l ++ t) a.spelled ∙ sym (append_assoc l (spell ps a.new) rest);
      appended = a.appended;
      fits = a.fits;
    }
match_compile (exactly n class ∷ ps) s cur groups {rest} e =
    let (g, long) = match_grouped n class (compile ps) s cur groups e in
    let a = match_compile ps g.rest g.text (groups ++ g.text ∷ []) g.later in
    record {
      new = g.text ∷ a.new;
      spelled =
          g.spelled
          ∙ ap (λ t. g.text ++ t) a.spelled
          ∙ sym (append_assoc g.text (spell ps a.new) rest);
      appended = a.appended ∙ append_assoc groups (g.text ∷ []) a.new;
      fits = ((long, g.of_class), a.fits);
    }
match_compile (run class ∷ ps) s cur groups {rest} e =
    let (g, ne) = match_grouped_many class (compile ps) s cur groups e in
    let a = match_compile ps g.rest g.text (groups ++ g.text ∷ []) g.later in
    record {
      new = g.text ∷ a.new;
      spelled =
          g.spelled
          ∙ ap (λ t. g.text ++ t) a.spelled
          ∙ sym (append_assoc g.text (spell ps a.new) rest);
      appended = a.appended ∙ append_assoc groups (g.text ∷ []) a.new;
      fits = ((ne, g.of_class), a.fits);
    }

-- A match of a row is the row's text, with the groups of the match, somewhere in the line.
pub record Spelled (ps : List Piece) (s : Bytes) (m : List Bytes) : Type 0 where
  pub before : Bytes
  pub behind : Bytes
  pub spelled : s ≡ before ++ (spell ps m ++ behind)
  pub fits : Fits ps m

Somewhere-Spelled :
    (ps : List Piece) (s : Bytes) (m : List Bytes) → Somewhere (compile ps) s m → Spelled ps s m
Somewhere-Spelled ps s m w =
    let a = match_compile ps w.place [] [] w.matches in
    record {
      before = w.before;
      behind = w.rest;
      spelled =
          w.spelled
          ∙ ap (λ t. w.before ++ t) (a.spelled ∙ ap (λ n. spell ps n ++ w.rest) (sym a.appended));
      fits = subst (Fits ps) (sym a.appended) a.fits;
    }

pub find-Spelled :
    (ps : List Piece) (s : Bytes) {m : List Bytes} → find (compile ps) s ≡ some m → Spelled ps s m
find-Spelled ps s {m} e = Somewhere-Spelled ps s m (find-Somewhere (compile ps) s e)

pub find-Fits :
    (ps : List Piece) (s : Bytes) {m : List Bytes} → find (compile ps) s ≡ some m → Fits ps m
find-Fits ps s e = (find-Spelled ps s e).fits

pub find_at_start-Fits :
    (ps : List Piece) (s : Bytes) {m : List Bytes}
    → find_at_start (compile ps) s ≡ some m
    → Fits ps m
find_at_start-Fits ps s {m} e =
    (Somewhere-Spelled ps s m (find_at_start-Somewhere (compile ps) s e)).fits

pub find_all-Fits : (ps : List Piece) (s : Bytes) → All (Fits ps) (find_all (compile ps) s)
find_all-Fits ps s =
    All-map (λ m w. (Somewhere-Spelled ps s m w).fits) _ (find_all-Somewhere (compile ps) s)

-- What the piece of the group with number `i` says of it.
abbrev pub Sized : List Piece → ℕ → Bytes → Type 0
Sized [] i g = Unit
Sized (text l ∷ ps) i g = Sized ps i g
Sized (exactly n class ∷ ps) zero g = (length g ≡ n) × Of class g
Sized (exactly n class ∷ ps) (suc i) g = Sized ps i g
Sized (run class ∷ ps) zero g = (g ≢ []) × Of class g
Sized (run class ∷ ps) (suc i) g = Sized ps i g

pub group-Sized : (ps : List Piece) (m : List Bytes) (i : ℕ) → Fits ps m → Sized ps i (group m i)
group-Sized [] m i f = tt
group-Sized (text l ∷ ps) m i f = group-Sized ps m i f
group-Sized (exactly n class ∷ ps) [] i f = elim f [ ]
group-Sized (exactly n class ∷ ps) (g ∷ m) zero f = f.0
group-Sized (exactly n class ∷ ps) (g ∷ m) (suc i) f = group-Sized ps m i f.1
group-Sized (run class ∷ ps) [] i f = elim f [ ]
group-Sized (run class ∷ ps) (g ∷ m) zero f = f.0
group-Sized (run class ∷ ps) (g ∷ m) (suc i) f = group-Sized ps m i f.1

-- No run could be longer, in the text of the row and the rest behind it.
abbrev pub Bounded : List Piece → List Bytes → Bytes → Type 0
Bounded [] gs rest = Unit
Bounded (text l ∷ ps) gs rest = Bounded ps gs rest
Bounded (exactly n class ∷ ps) [] rest = Unit
Bounded (exactly n class ∷ ps) (g ∷ gs) rest = Bounded ps gs rest
Bounded (run class ∷ ps) [] rest = Unit
Bounded (run class ∷ ps) (g ∷ gs) rest = Leaves class (spell ps gs ++ rest) × Bounded ps gs rest

pub compile_matches :
    (ps : List Piece) (gs groups : List Bytes) (rest cur : Bytes)
    → Fits ps gs
    → Bounded ps gs rest
    → match_here (compile ps) (spell ps gs ++ rest) cur groups ≡ some (groups ++ gs, rest)
compile_matches [] [] groups rest cur f b = unfold match_here in rw append-nil
compile_matches [] (g ∷ gs) groups rest cur f b = elim f [ ]
compile_matches (text l ∷ ps) gs groups rest cur f b =
    ap (λ s. match_here (literal l ++ compile ps) s cur groups) (append_assoc l (spell ps gs) rest)
    ∙ literal_matches l (compile ps) (spell ps gs ++ rest) cur groups
    ∙ compile_matches ps gs groups rest (cur ++ l) f b
compile_matches (exactly n class ∷ ps) [] groups rest cur f b = elim f [ ]
compile_matches (exactly n class ∷ ps) (g ∷ gs) groups rest cur f b =
    rw (← f.0.0, append_assoc g (spell ps gs) rest)
      (grouped_matches class (compile ps) g (spell ps gs ++ rest) cur groups f.0.1
        ∙ compile_matches ps gs (groups ++ g ∷ []) rest g f.1 b
        ∙ ap (λ x. some (x, rest)) (append_assoc groups (g ∷ []) gs))
compile_matches (run class ∷ ps) [] groups rest cur f b = elim f [ ]
compile_matches (run class ∷ ps) (g ∷ gs) groups rest cur f b =
    rw (append_assoc g (spell ps gs) rest) (
      grouped_many_matches class (compile ps) g (spell ps gs ++ rest) cur groups f.0.0 f.0.1 b.0 (
        compile_matches ps gs (groups ++ g ∷ []) rest g f.1 b.1
        ∙ ap (λ x. some (x, rest)) (append_assoc groups (g ∷ []) gs)))

-- The row's text at the head of a line is found, with its groups.
pub find-spell :
    (ps : List Piece) (gs : List Bytes) (rest : Bytes)
    → Fits ps gs
    → Bounded ps gs rest
    → (find (compile ps) (spell ps gs ++ rest) ≡ some gs)
      × (find_at_start (compile ps) (spell ps gs ++ rest) ≡ some gs)
find-spell ps gs rest f b =
    find_head (compile ps) (spell ps gs ++ rest) (compile_matches ps gs [] rest [] f b)

-- So it is when it is the whole line.
pub find-row :
    (ps : List Piece) (gs : List Bytes)
    → Fits ps gs
    → Bounded ps gs []
    → (find (compile ps) (spell ps gs) ≡ some gs)
      × (find_at_start (compile ps) (spell ps gs) ≡ some gs)
find-row ps gs f b = rw (append-nil (spell ps gs)) at (find-spell ps gs [] f b)

-- A predicate of all bytes of the texts of a row, and of its classes.
abbrev pub Throughout : (ℕ → Type 0) → List Piece → Type 0
Throughout P [] = Unit
Throughout P (text l ∷ ps) = All P l × Throughout P ps
Throughout P (exactly n class ∷ ps) = ((c : ℕ) → class c ≡ true → P c) × Throughout P ps
Throughout P (run class ∷ ps) = ((c : ℕ) → class c ≡ true → P c) × Throughout P ps

pub spell-All :
    (P : ℕ → Type 0) (ps : List Piece) (gs : List Bytes)
    → Throughout P ps
    → Fits ps gs
    → All P (spell ps gs)
spell-All P [] gs t f = tt
spell-All P (text l ∷ ps) gs t f = All-append P l (spell ps gs) t.0 (spell-All P ps gs t.1 f)
spell-All P (exactly n class ∷ ps) [] t f = elim f [ ]
spell-All P (exactly n class ∷ ps) (g ∷ gs) t f =
    All-append P g (spell ps gs) (All-map t.0 g f.0.1) (spell-All P ps gs t.1 f.1)
spell-All P (run class ∷ ps) [] t f = elim f [ ]
spell-All P (run class ∷ ps) (g ∷ gs) t f =
    All-append P g (spell ps gs) (All-map t.0 g f.0.1) (spell-All P ps gs t.1 f.1)
