-- ===== src/Base/Trim/Framed.antt =====
-- `strings.TrimSpace` of a text with ASCII blanks around it.
use irc_eew.Base.{
  ℕ, ◌≡◌, refl, sym, ◌∙◌, ap, true, [], ◌∷◌, ◌++◌, append_assoc, append-nil, arith, All, All-map,
}
use irc_eew.Base.Bytes.{Bytes}
use irc_eew.Base.Trim.{
  rev, rev-rev, rev-concat, All-rev, is_ascii_space, space_first, space_last, skip_space,
  trim_space, IsVisible,
}

abbrev pub IsSpace : ℕ → Type 0
IsSpace c = is_ascii_space c ≡ true

space-ascii : (c : ℕ) (s : Bytes) → IsSpace c → (space_first (c ∷ s) ≡ 1) × (space_last (c ∷ s) ≡ 1)
unfolding space_first space_last
space-ascii c [] h = (rw h refl, rw h refl)
space-ascii c (a ∷ []) h = (rw h refl, rw h refl)
space-ascii c (a ∷ b ∷ s) h = (rw h refl, rw h refl)

space-visible :
    (c : ℕ) (s : Bytes) → IsVisible c → (space_first (c ∷ s) ≡ 0) × (space_last (c ∷ s) ≡ 0)
unfolding space_first space_last
space-visible c [] h = ground arith
space-visible c (a ∷ []) h = ground arith
space-visible c (a ∷ b ∷ s) h = ground arith

module _ (space : Bytes → ℕ) where
  skip_space-visible :
      (lead s : Bytes) (c : ℕ)
      → All (λ x. (t : Bytes) → space (x ∷ t) ≡ 1) lead
      → space (c ∷ s) ≡ 0
      → skip_space space 0 (lead ++ c ∷ s) ≡ c ∷ s
  unfolding skip_space
  skip_space-visible [] s c h v = rw (v, skip_space) refl
  skip_space-visible (x ∷ lead) s c h v =
      rw (h.0 (lead ++ c ∷ s), skip_space) (skip_space-visible lead s c h.1 v)

  skip_space-All :
      (lead : Bytes)
      → All (λ x. (t : Bytes) → space (x ∷ t) ≡ 1) lead
      → skip_space space 0 lead ≡ []
  unfolding skip_space
  skip_space-All [] h = refl
  skip_space-All (x ∷ lead) h = rw (h.0 lead, skip_space) (skip_space-All lead h.1)

rev-append : (a b : Bytes) → rev (a ++ b) ≡ rev b ++ rev a
rev-append [] b = sym (append-nil (rev b))
rev-append (x ∷ a) b =
    ap (λ t. t ++ x ∷ []) (rev-append a b) ∙ append_assoc (rev b) (rev a) (x ∷ [])

rev-framed : (s trail : Bytes) (z : ℕ) → rev (s ++ z ∷ trail) ≡ rev trail ++ z ∷ rev s
rev-framed s trail z = rev-append s (z ∷ trail) ∙ append_assoc (rev trail) (z ∷ []) (rev s)

firsts : (lead : Bytes) → All IsSpace lead → All (λ x. (t : Bytes) → space_first (x ∷ t) ≡ 1) lead
firsts lead h = All-map (λ x p t. (space-ascii x t p).0) lead h

lasts : (lead : Bytes) → All IsSpace lead → All (λ x. (t : Bytes) → space_last (x ∷ t) ≡ 1) lead
lasts lead h = All-map (λ x p t. (space-ascii x t p).1) lead h

-- What stands between the blanks, when it begins and ends with visible bytes.
pub trim_space-framed :
    (lead mid trail : Bytes) (a z : ℕ)
    → All IsSpace lead
    → IsVisible a
    → IsVisible z
    → All IsSpace trail
    → trim_space (lead ++ a ∷ (mid ++ z ∷ trail)) ≡ a ∷ (mid ++ z ∷ [])
unfolding trim_space
trim_space-framed lead mid trail a z hl ha hz ht =
    ap (λ s. rev (skip_space space_last 0 (rev s)))
      (skip_space-visible space_first lead (mid ++ z ∷ trail) a (firsts lead hl)
        (space-visible a (mid ++ z ∷ trail) ha).0)
    ∙ ap (λ s. rev (skip_space space_last 0 s)) (rev-framed (a ∷ mid) trail z)
    ∙ ap rev (
        skip_space-visible space_last (rev trail) (rev (a ∷ mid)) z
          (lasts (rev trail) (All-rev IsSpace trail ht)) (space-visible z (rev (a ∷ mid)) hz).1)
    ∙ ap rev (sym (rev-concat (a ∷ mid) z))
    ∙ rev-rev (a ∷ (mid ++ z ∷ []))

pub trim_space-blanks : (s : Bytes) → All IsSpace s → trim_space s ≡ []
unfolding trim_space
trim_space-blanks s h =
    ap (λ t. rev (skip_space space_last 0 (rev t))) (skip_space-All space_first s (firsts s h))
