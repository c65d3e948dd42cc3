-- ===== src/Base/Path/Plain.antt =====
-- Paths of plain elements: none is empty, `.` or `..`, and none has a slash in it.
use irc_eew.Base.Bytes.{Bytes, codes, equal}
use irc_eew.Base.Path.{put_first, segments, joined, up, enter, walk}
use irc_eew.Base.{
  ℕ, ◌≡◌, ◌≢◌, refl, sym, ◌∙◌, ap, ap₂, Bool, true, false, ◌⊎◌, inl, inr, List, [], ◌∷◌, ◌++◌, ◌==◌,
  All, All-append, All-map, append_assoc, append-nil, Bool-cases,
}

abbrev pub NoSlash : Bytes → Type 0
NoSlash seg = All (λ c. (c == b'/') ≡ false) seg

pub record Plain (seg : Bytes) : Type 0 where
  pub no_slash : NoSlash seg
  pub not_empty : equal seg [] ≡ false
  pub not_dot : equal seg (codes ".") ≡ false
  pub not_dots : equal seg (codes "..") ≡ false

put_first-ne : (b : Bool) (c : ℕ) (xs : List Bytes) → put_first b c xs ≢ []
put_first-ne true c xs e = absurd (cc)
put_first-ne false c [] e = absurd (cc)
put_first-ne false c (x ∷ xs) e = absurd (cc)

segments-ne : (s : Bytes) → segments s ≢ []
unfolding segments
segments-ne [] e = absurd (cc)
segments-ne (c ∷ s) e = put_first-ne (c == b'/') c (segments s) e

put_first-append :
    (b : Bool) (c : ℕ) (xs ys : List Bytes)
    → xs ≢ []
    → put_first b c (xs ++ ys) ≡ put_first b c xs ++ ys
put_first-append true c xs ys h = refl
put_first-append false c [] ys h = absurd (h refl)
put_first-append false c (x ∷ xs) ys h = refl

pub segments-append : (a b : Bytes) → segments (a ++ b'/' ∷ b) ≡ segments a ++ segments b
unfolding segments
segments-append [] b = refl
segments-append (c ∷ a) b =
    ap (put_first (c == b'/') c) (segments-append a b)
    ∙ put_first-append (c == b'/') c (segments a) (segments b) (segments-ne a)

segments_plain : (seg : Bytes) → NoSlash seg → segments seg ≡ seg ∷ []
unfolding segments
segments_plain [] h = refl
segments_plain (c ∷ seg) h =
    ap (λ b. put_first b c (segments seg)) h.0 ∙ ap (put_first false c) (segments_plain seg h.1)

pub segments-joined :
    (seg : Bytes) (segs : List Bytes)
    → All NoSlash (seg ∷ segs)
    → segments (joined (seg ∷ segs)) ≡ seg ∷ segs
segments-joined seg [] h = segments_plain seg h.0
segments-joined seg (next ∷ segs) h =
    segments-append seg (joined (next ∷ segs))
    ∙ ap₂ (λ xs ys. xs ++ ys) (segments_plain seg h.0) (segments-joined next segs h.1)

pub enter-Plain :
    (rooted : Bool) (out : List Bytes) (seg : Bytes)
    → Plain seg
    → enter rooted out seg ≡ out ++ seg ∷ []
enter-Plain rooted out seg p = rw (p.not_empty, p.not_dot, p.not_dots) refl

pub walk-append :
    (rooted : Bool) (out xs ys : List Bytes)
    → walk rooted out (xs ++ ys) ≡ walk rooted (walk rooted out xs) ys
walk-append rooted out [] ys = refl
walk-append rooted out (x ∷ xs) ys = walk-append rooted (enter rooted out x) xs ys

pub walk-Plain :
    (rooted : Bool) (out segs : List Bytes) → All Plain segs → walk rooted out segs ≡ out ++ segs
walk-Plain rooted out [] h = sym (append-nil out)
walk-Plain rooted out (seg ∷ segs) h =
    ap (λ o. walk rooted o segs) (enter-Plain rooted out seg h.0)
    ∙ walk-Plain rooted (out ++ seg ∷ []) segs h.1
    ∙ append_assoc out (seg ∷ []) segs

-- The elements that `Clean` leaves.
abbrev pub Kept : Bool → Bytes → Type 0
Kept rooted seg = Plain seg ⊎ ((rooted ≡ false) × (seg ≡ codes ".."))

again :
    {rooted : Bool} {seg : Bytes}
    → Kept rooted seg
    → equal seg (codes "..") ≡ true
    → Kept rooted (codes "..")
again (inl p) e = absurd (cc (e, p.not_dots))
again (inr (r, f)) e = inr (r, refl)

up-Kept :
    (rooted : Bool) (out : List Bytes) → All (Kept rooted) out → All (Kept rooted) (up rooted out)
up-Kept true [] h = tt
up-Kept false [] h = (inr (refl, refl), tt)
up-Kept rooted (seg ∷ []) h = elim (Bool-cases (equal seg (codes ".."))) [
  | inl e ↦ rw e (h.0, (again h.0 e, tt))
  | inr e ↦ rw e tt
]
up-Kept rooted (seg ∷ next ∷ segs) h = (h.0, up-Kept rooted (next ∷ segs) h.1)

enter-Kept :
    (rooted : Bool) (out : List Bytes) (seg : Bytes)
    → NoSlash seg
    → All (Kept rooted) out
    → All (Kept rooted) (enter rooted out seg)
enter-Kept rooted out seg n h = elim (Bool-cases (equal seg [])) [
  | inl e ↦ rw e h
  | inr e ↦ elim (Bool-cases (equal seg (codes "."))) [
    | inl f ↦ rw (e, f) h
    | inr f ↦ elim (Bool-cases (equal seg (codes ".."))) [
      | inl g ↦ rw (e, f, g) (up-Kept rooted out h)
      | inr g ↦
          rw (e, f, g)
            (All-append (Kept rooted) out (seg ∷ []) h
              (inl (record { no_slash = n; not_empty = e; not_dot = f; not_dots = g }), tt))
    ]
  ]
]

pub walk-Kept :
    (rooted : Bool) (out segs : List Bytes)
    → All NoSlash segs
    → All (Kept rooted) out
    → All (Kept rooted) (walk rooted out segs)
walk-Kept rooted out [] n h = h
walk-Kept rooted out (seg ∷ segs) n h =
    walk-Kept rooted (enter rooted out seg) segs n.1 (enter-Kept rooted out seg n.0 h)

put_first-NoSlash :
    (b : Bool) (c : ℕ) (xs : List Bytes)
    → (c == b'/') ≡ b
    → All NoSlash xs
    → All NoSlash (put_first b c xs)
put_first-NoSlash true c xs e h = (tt, h)
put_first-NoSlash false c [] e h = ((e, tt), tt)
put_first-NoSlash false c (x ∷ xs) e h = ((e, h.0), h.1)

pub segments-NoSlash : (s : Bytes) → All NoSlash (segments s)
unfolding segments
segments-NoSlash [] = (tt, tt)
segments-NoSlash (c ∷ s) = put_first-NoSlash (c == b'/') c (segments s) refl (segments-NoSlash s)

-- What is kept at the root is plain.
pub Kept-Plain : (segs : List Bytes) → All (Kept true) segs → All Plain segs
Kept-Plain segs h = All-map at_root segs h
  where
    at_root : (seg : Bytes) → Kept true seg → Plain seg
    at_root seg (inl p) = p
    at_root seg (inr (e, f)) = absurd (cc)
