-- ===== src/Base/Path/Under/Prefix.antt =====
-- A path made absolute begins the paths under it.
use irc_eew.Base.Bytes.{Bytes}
use irc_eew.Base.Path.Plain.{Plain}
use irc_eew.Base.Path.Under.{Under}
use irc_eew.Base.Path.{joined}
use irc_eew.Base.Trim.{has_prefix}
use irc_eew.Base.{◌≡◌, refl, true, List, [], ◌∷◌, ◌++◌, ==_iff, All}

has_prefix-append : (prefix s : Bytes) → has_prefix (prefix ++ s) prefix ≡ true
unfolding has_prefix
has_prefix-append [] s = refl
has_prefix-append (p ∷ prefix) s = rw ((==_iff p p).1 refl, has_prefix-append prefix s) refl

has_prefix-longer :
    (x s prefix : Bytes)
    → has_prefix s prefix ≡ true
    → has_prefix (x ++ b'/' ∷ s) (x ++ b'/' ∷ prefix) ≡ true
unfolding has_prefix
has_prefix-longer [] s prefix h = rw ((==_iff b'/' b'/').1 refl, h) refl
has_prefix-longer (c ∷ x) s prefix h = rw ((==_iff c c).1 refl, has_prefix-longer x s prefix h) refl

has_prefix-joined :
    (out : List Bytes) (seg : Bytes) (segs : List Bytes)
    → has_prefix (joined (out ++ seg ∷ segs)) (joined out) ≡ true
unfolding has_prefix
has_prefix-joined [] seg segs = refl
has_prefix-joined (x ∷ []) seg segs = has_prefix-append x (b'/' ∷ joined (seg ∷ segs))
has_prefix-joined (x ∷ y ∷ out) seg segs =
    has_prefix-longer x _ _ (has_prefix-joined (y ∷ out) seg segs)

pub has_prefix-Under :
    (seg : Bytes) (segs : List Bytes) (h : All Plain (seg ∷ segs)) (base full : Bytes)
    → Under seg segs h base full
    → has_prefix full base ≡ true
unfolding Under has_prefix
has_prefix-Under seg segs h base full (out, e, f) = rw (e, f) (has_prefix-joined out seg segs)
