-- ===== src/Base/Path/Under.antt =====
-- Plain elements joined to a path stay under it, also when both are made absolute.
pub mod Prefix
use irc_eew.Base.Bytes.{Bytes, codes, equal}
use irc_eew.Base.Path.Plain.{
  NoSlash, Plain, Kept, segments-append, segments-joined, enter-Plain, walk-append, walk-Plain,
  walk-Kept, segments-NoSlash, Kept-Plain,
}
use irc_eew.Base.Path.{segments, joined, is_abs, up, enter, walk, render, clean, join, abs}
use irc_eew.Base.{
  ℕ, ◌≡◌, ◌≢◌, refl, sym, ◌∙◌, ap, subst, Bool, true, false, ◌&&◌, inl, inr, List, [], ◌∷◌, ◌++◌,
  ◌==◌, if◌then◌else◌, All, All-append, All-map, append-nil, Bool-cases, ==_iff,
}

up-concat :
    (rooted : Bool) (out : List Bytes) (seg : Bytes)
    → equal seg (codes "..") ≡ false
    → up rooted (out ++ seg ∷ []) ≡ out
up-concat rooted [] seg e = rw e refl
up-concat rooted (x ∷ []) seg e = ap (◌∷◌ x) (up-concat rooted [] seg e)
up-concat rooted (x ∷ y ∷ out) seg e = ap (◌∷◌ x) (up-concat rooted (y ∷ out) seg e)

walk-up :
    (from out : List Bytes)
    → All (Kept false) out
    → walk true from (up false out) ≡ up true (walk true from out)
walk-up from [] h = refl
walk-up from (seg ∷ []) (inl p, h) =
    ap (walk true from) (ap (λ b. if b then seg ∷ codes ".." ∷ [] else []) p.not_dots)
    ∙ sym (ap (up true) (enter-Plain true from seg p) ∙ up-concat true from seg p.not_dots)
walk-up from (seg ∷ []) (inr (r, e), h) = rw e refl
walk-up from (seg ∷ next ∷ segs) h = walk-up (enter true from seg) (next ∷ segs) h.1

walk-enter :
    (from out : List Bytes) (seg : Bytes)
    → NoSlash seg
    → All (Kept false) out
    → walk true from (enter false out seg) ≡ enter true (walk true from out) seg
walk-enter from out seg n h = elim (Bool-cases (equal seg [])) [
  | inl e ↦ rw e refl
  | inr e ↦ elim (Bool-cases (equal seg (codes "."))) [
    | inl f ↦ rw (e, f) refl
    | inr f ↦ elim (Bool-cases (equal seg (codes ".."))) [
      | inl g ↦ rw (e, f, g) (walk-up from out h)
      | inr g ↦
          let p : Plain seg = record { no_slash = n; not_empty = e; not_dot = f; not_dots = g } in
          ap (walk true from) (enter-Plain false out seg p) ∙ walk-append true from out (seg ∷ [])
    ]
  ]
]

-- To clean a relative path first makes no difference.
walk-walk :
    (from out segs : List Bytes)
    → All NoSlash segs
    → All (Kept false) out
    → walk true from (walk false out segs) ≡ walk true (walk true from out) segs
walk-walk from out [] n h = refl
walk-walk from out (seg ∷ segs) n h =
    walk-walk from (enter false out seg) segs n.1 (walk-Kept false out (seg ∷ []) (n.0, tt) h)
    ∙ ap (λ o. walk true o segs) (walk-enter from out seg n.0 h)

Kept-NoSlash : (rooted : Bool) (segs : List Bytes) → All (Kept rooted) segs → All NoSlash segs
Kept-NoSlash rooted segs h = All-map of_kept segs h
  where
    of_kept : (seg : Bytes) → Kept rooted seg → NoSlash seg
    of_kept seg (inl p) = p.no_slash
    of_kept seg (inr (r, e)) = subst NoSlash (sym e) (refl, (refl, tt))

segments-of_joined :
    (segs : List Bytes) → segs ≢ [] → All NoSlash segs → segments (joined segs) ≡ segs
segments-of_joined [] ne h = absurd (ne refl)
segments-of_joined (seg ∷ segs) ne h = segments-joined seg segs h

append-ne : (xs : List Bytes) (y : Bytes) (ys : List Bytes) → xs ++ y ∷ ys ≢ []
append-ne [] y ys e = absurd (cc)
append-ne (x ∷ xs) y ys e = absurd (cc)

-- A path of kept elements is not absolute.
is_abs_kept : (seg : Bytes) → Kept false seg → (rest : Bytes) → is_abs (seg ++ rest) ≡ false
is_abs_kept [] (inl p) rest = absurd (cc (p.not_empty))
is_abs_kept (c ∷ seg) (inl p) rest = p.no_slash.0
is_abs_kept seg (inr (r, e)) rest = rw e refl

joined-relative : (segs : List Bytes) → All (Kept false) segs → is_abs (joined segs) ≡ false
joined-relative [] h = refl
joined-relative (seg ∷ []) h = ap is_abs (sym (append-nil seg)) ∙ is_abs_kept seg h.0 []
joined-relative (seg ∷ next ∷ segs) h = is_abs_kept seg h.0 _

render-ne : (segs : List Bytes) → segs ≢ [] → render false segs ≡ joined segs
render-ne [] ne = absurd (ne refl)
render-ne (seg ∷ segs) ne = refl

-- What `Clean` keeps of a path.
abbrev pub kept : Bytes → List Bytes
kept path = walk (is_abs path) [] (segments path)

kept-Kept : (path : Bytes) → All (Kept (is_abs path)) (kept path)
kept-Kept path = walk-Kept (is_abs path) [] (segments path) (segments-NoSlash path) tt

module _ (seg : Bytes) (segs : List Bytes) (h : All Plain (seg ∷ segs)) where
  no_slashes : All NoSlash (seg ∷ segs)
  no_slashes = All-map (λ s p. p.no_slash) (seg ∷ segs) h

  -- `Join` of a path and plain elements.
  join-plain :
      (c : ℕ) (path : Bytes)
      → join ((c ∷ path) ∷ seg ∷ segs) ≡ render (c == b'/') (kept (c ∷ path) ++ seg ∷ segs)
  unfolding join clean
  join-plain c path =
      ap (λ xs. render (c == b'/') (walk (c == b'/') [] xs))
        (segments-append (c ∷ path) (joined (seg ∷ segs))
          ∙ ap (λ xs. segments (c ∷ path) ++ xs) (segments-joined seg segs no_slashes))
      ∙ ap (render (c == b'/')) (
          walk-append (c == b'/') [] (segments (c ∷ path)) (seg ∷ segs)
          ∙ walk-Plain (c == b'/') (kept (c ∷ path)) (seg ∷ segs) h)

  -- The same elements behind those of the path made absolute.
  pub Under : Bytes → Bytes → Type 0
  Under base full =
      (out : List Bytes) × (base ≡ render true out) × (full ≡ render true (out ++ seg ∷ segs))

  abs-Under_absolute :
      (cwd path : Bytes)
      → Under (abs cwd (b'/' ∷ path)) (abs cwd (join ((b'/' ∷ path) ∷ seg ∷ segs)))
  unfolding Under abs clean segments
  abs-Under_absolute cwd path =
      let plain =
        All-append Plain (kept (b'/' ∷ path)) (seg ∷ segs)
          (Kept-Plain (kept (b'/' ∷ path)) (kept-Kept (b'/' ∷ path))) h in
      (
        kept (b'/' ∷ path),
        refl,
        ap (abs cwd) (join-plain b'/' path)
            ∙ ap (λ xs. render true (walk true [] xs))
                (segments-of_joined _ (append-ne (kept (b'/' ∷ path)) seg segs)
                  (All-map (λ s p. p.no_slash) _ plain))
            ∙ ap (render true) (walk-Plain true [] _ plain),
      )

  -- `Join` of the working directory and a path.
  join-cwd :
      (cwd path : Bytes)
      → join ((b'/' ∷ cwd) ∷ path ∷ [])
        ≡ render true (walk true (kept (b'/' ∷ cwd)) (segments path))
  unfolding join clean
  join-cwd cwd path =
      ap (λ xs. render true (walk true [] xs)) (segments-append (b'/' ∷ cwd) path)
      ∙ ap (render true) (walk-append true [] (segments (b'/' ∷ cwd)) (segments path))

  abs_relative : (cwd path : Bytes) → is_abs path ≡ false → abs cwd path ≡ join (cwd ∷ path ∷ [])
  unfolding abs
  abs_relative cwd path e = rw e refl

  abs-Under_relative :
      (cwd : Bytes) (c : ℕ) (path : Bytes)
      → (c == b'/') ≡ false
      → Under (abs (b'/' ∷ cwd) (c ∷ path)) (abs (b'/' ∷ cwd) (join ((c ∷ path) ∷ seg ∷ segs)))
  unfolding Under
  abs-Under_relative cwd c path e = (
    walk true from parts,
    abs_relative (b'/' ∷ cwd) (c ∷ path) e ∙ join-cwd cwd (c ∷ path),
    ap (abs (b'/' ∷ cwd)) full
        ∙ abs_relative (b'/' ∷ cwd) _ (joined-relative _ all_kept)
        ∙ join-cwd cwd _
        ∙ ap (λ xs. render true (walk true from xs))
            (segments-of_joined _ (append-ne out seg segs) (Kept-NoSlash false _ all_kept))
        ∙ ap (render true) (
            walk-append true from out (seg ∷ segs)
            ∙ ap (λ o. walk true o (seg ∷ segs)) (walk-walk from [] parts (segments-NoSlash _) tt)
            ∙ walk-Plain true (walk true from parts) (seg ∷ segs) h),
  )
    where
      from : List Bytes
      from = kept (b'/' ∷ cwd)

      parts : List Bytes
      parts = segments (c ∷ path)

      out : List Bytes
      out = walk false [] parts

      all_kept : All (Kept false) (out ++ seg ∷ segs)
      all_kept =
          All-append (Kept false) out (seg ∷ segs)
            (walk-Kept false [] parts (segments-NoSlash (c ∷ path)) tt)
            (All-map (λ s p. inl p) (seg ∷ segs) h)

      full : join ((c ∷ path) ∷ seg ∷ segs) ≡ joined (out ++ seg ∷ segs)
      full =
          join-plain c path
          ∙ ap (λ b. render b (walk b [] parts ++ seg ∷ segs)) e
          ∙ render-ne (out ++ seg ∷ segs) (append-ne out seg segs)

  -- In an absolute working directory, a path that is not empty.
  pub abs-Under :
      (cwd : Bytes) (c : ℕ) (path : Bytes)
      → Under (abs (b'/' ∷ cwd) (c ∷ path)) (abs (b'/' ∷ cwd) (join ((c ∷ path) ∷ seg ∷ segs)))
  abs-Under cwd c path = elim (Bool-cases (c == b'/')) [
    | inl e ↦
        subst
          (λ x.
            Under (abs (b'/' ∷ cwd) (x ∷ path)) (abs (b'/' ∷ cwd) (join ((x ∷ path) ∷ seg ∷ segs))))
          (sym ((==_iff c b'/').0 e)) (abs-Under_absolute (b'/' ∷ cwd) path)
    | inr e ↦ abs-Under_relative cwd c path e
  ]
