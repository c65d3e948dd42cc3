-- ===== src/Wni/Client/Cuts.antt =====
-- The reads of one write of the server, however they cut it, before other events.
use mathlib.Core.List.{flatten}
use irc_eew.Base.{
  ℕ, ◌≡◌, ◌⊎◌, inl, inr, refl, sym, ◌∙◌, ap, ap₂, Option, some, List, [], ◌∷◌, ◌++◌, arith, length,
  length-append, append_assoc, append-nil, map,
}
use irc_eew.Base.Bytes.{Bytes}
use irc_eew.Wni.Client.Delivery.{dispatch-append}
use irc_eew.Wni.Client.{received, Event, Handlers, Call, Ending, dispatch, after_feed, run}
use irc_eew.Wni.Frame.Chunks.{feed-append, feed-prefix, feed-settled, behind-fed}
use irc_eew.Wni.Frame.{Frame, World, Parser, Fed, fed, feed}

-- Calls before those of the rest of a run.
abbrev pub after_calls : List Call → List Call × Ending → List Call × Ending
after_calls calls later = (calls ++ later.0, later.1)

-- However the reads cut the bytes, `Run` makes the calls for the frames and goes on with the parser
-- `q`.
abbrev pub Takes : World → Handlers → Parser → Bytes → Parser → List Frame → Type 0
Takes w h p bytes q frames =
    (chunks : List Bytes) (events : List Event)
    → flatten chunks ≡ bytes
    → run w h p (map received chunks ++ events) ≡ after_calls (dispatch h frames) (run w h q events)

after_calls-append :
    (h : Handlers) (fs gs frames : List Frame) (later : List Call × Ending)
    → frames ≡ fs ++ gs
    → after_calls (dispatch h fs) (after_calls (dispatch h gs) later)
      ≡ after_calls (dispatch h frames) later
after_calls-append h fs gs frames later e =
    ap (λ cs. (cs, later.1))
      (sym (append_assoc (dispatch h fs) (dispatch h gs) later.0)
        ∙ ap (λ cs. cs ++ later.0) (sym (ap (dispatch h) e ∙ dispatch-append h fs gs)))

fed_inj :
    (p q : Parser) (fs gs : List Frame)
    → ◌≡◌ {A = Option Fed} (some (fed p fs)) (some (fed q gs))
    → (p ≡ q) × (fs ≡ gs)
fed_inj p q fs gs e = (cc, cc)

concat_inj : (a b : Bytes) (x y : ℕ) → a ++ x ∷ [] ≡ b ++ y ∷ [] → (a ≡ b) × (x ≡ y)
concat_inj [] [] x y e = (refl, cc)
concat_inj [] (d ∷ b) x y e = absurd (omega (arith, ap length e, length-append b (y ∷ [])))
concat_inj (c ∷ a) [] x y e = absurd (omega (arith, ap length e, length-append a (x ∷ [])))
concat_inj (c ∷ a) (d ∷ b) x y e = let (i, j) = concat_inj a b x y (cc e) in (ap₂ (◌∷◌) (cc e) i, j)

last_view : (s : Bytes) → (s ≡ []) ⊎ ((t : Bytes) × (c : ℕ) × (s ≡ t ++ c ∷ []))
last_view [] = inl refl
last_view (c ∷ s) = elim (last_view s) [
  | inl e ↦ inr ([], c, ap (◌∷◌ c) e)
  | inr (t, d, e) ↦ inr (c ∷ t, d, ap (◌∷◌ c) e)
]

module _ (w : World) (h : Handlers) where
  -- Bytes that answer no ping.
  pub quiet-Takes :
      (p q : Parser) (bytes : Bytes) {frames : List Frame}
      → feed w p [] ≡ some (fed p [])
      → feed w p bytes ≡ some (fed q frames)
      → length q.sent ≡ length p.sent
      → Takes w h p bytes q frames
  unfolding run flatten dispatch
  quiet-Takes p q bytes {frames} rest e quiet [] events cut_up =
      let (same, none_found) = fed_inj p q [] frames (sym rest ∙ ap (feed w p) cut_up ∙ e) in
      ap₂ (λ x fs. after_calls (dispatch h fs) (run w h x events)) same none_found
  quiet-Takes p q bytes {frames} rest e quiet (c ∷ chunks) events cut_up =
      let whole = ap (feed w p) cut_up ∙ e in
      let (r, fs, first, calm) = feed-prefix w p q c (flatten chunks) whole quiet in
      let both = feed-append w p r c (flatten chunks) first calm in
      let (gs, later, parted) = behind-fed fs frames q _ (sym both ∙ whole) in
      let calls =
        quiet-Takes r q (flatten chunks) (feed-settled w p r c first) later (quiet ∙ sym calm)
          chunks events refl in
      ap (after_feed h (λ x. run w h x (map received chunks ++ events))) first
      ∙ ap (after_calls (dispatch h fs)) calls
      ∙ after_calls-append h fs gs frames (run w h q events) parted

  -- Bytes that answer a ping with their last byte, and none before it.
  pub pinged-Takes :
      (p q : Parser) (s : Bytes) (c : ℕ) {fs frames : List Frame} (r : Parser)
      → feed w p [] ≡ some (fed p [])
      → feed w p s ≡ some (fed r fs)
      → length r.sent ≡ length p.sent
      → feed w p (s ++ c ∷ []) ≡ some (fed q frames)
      → Takes w h p (s ++ c ∷ []) q frames
  unfolding run flatten dispatch
  pinged-Takes p q s c r rest before quiet e [] events cut_up =
      absurd (omega (arith, ap length cut_up, length-append s (c ∷ [])))
  pinged-Takes p q s c {fs} {frames} r rest before quiet e (d ∷ chunks) events cut_up =
      elim (last_view (flatten chunks)) [
        | inl none_left ↦
            let first : feed w p d ≡ some (fed q frames) =
              ap (feed w p) (sym (append-nil d) ∙ ap (λ y. d ++ y) (sym none_left) ∙ cut_up) ∙ e in
            let settled = feed-settled w p q d first in
            ap (after_feed h (λ y. run w h y (map received chunks ++ events))) first
            ∙ ap (after_calls (dispatch h frames))
                (quiet-Takes q q [] settled settled refl chunks events none_left)
        | inr (t, x, left) ↦
            let (head, last) =
              concat_inj (d ++ t) s x c
                (append_assoc d t (x ∷ []) ∙ ap (λ y. d ++ y) (sym left) ∙ cut_up) in
            let early = ap (feed w p) head ∙ before in
            let (r', fs', first, calm) = feed-prefix w p r d t early quiet in
            let (_, later, _) =
              behind-fed fs' fs r _ (sym (feed-append w p r' d t first calm) ∙ early) in
            let whole : feed w p (d ++ (t ++ c ∷ [])) ≡ some (fed q frames) =
              ap (feed w p) (sym (append_assoc d t (c ∷ [])) ∙ ap (λ y. y ++ c ∷ []) head) ∙ e in
            let (gs, answered, parted) =
              behind-fed fs' frames q _
                (sym (feed-append w p r' d (t ++ c ∷ []) first calm) ∙ whole) in
            let calls =
              pinged-Takes r' q t c r (feed-settled w p r' d first) later (quiet ∙ sym calm)
                answered chunks events (left ∙ ap (λ y. t ++ y ∷ []) last) in
            ap (after_feed h (λ y. run w h y (map received chunks ++ events))) first
            ∙ ap (after_calls (dispatch h fs')) calls
            ∙ after_calls-append h fs' gs frames (run w h q events) parted
      ]
