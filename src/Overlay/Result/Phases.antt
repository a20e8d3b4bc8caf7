-- ===== src/Overlay/Result/Phases.antt =====
-- The phases of the card that celebrates the end of a match
-- (web/src/features/overlay/renderer/elements/MatchResult.tsx).
use court_command.Prelude.{
  ◌≡◌, refl, sym, ap, ◌∙◌, subst, ◌⊎◌, inl, inr, Bool, true, false, not, ◌&&◌, false≢true, List, [],
  ◌∷◌, arith, if◌then◌else◌, if_both, all,
}
use court_command.Overlay.Result.{
  Phase, idle, shown, Deps, Card, cleanup, effect, start, same_deps, rendered, enter, frame,
  dismiss, leave, Event, render, entered, framed, dismissed, left, unmounted, step, run,
}

abbrev card : Deps → Phase → Bool → Bool → Bool → Bool → Bool → Card
card deps phase e f d l mounted = record {
  deps = deps;
  phase = phase;
  enter_waits = e;
  frame_waits = f;
  dismiss_waits = d;
  leave_waits = l;
  mounted = mounted;
}

-- Nothing waits that could show the card.
abbrev pub IsCalm : Card → Type 0
IsCalm c =
    (c.deps.is_active ≡ true)
    ⊎ ((c.phase ≡ idle)
        × ((c.enter_waits ≡ false)
            × ((c.frame_waits ≡ false) × ((c.dismiss_waits ≡ false) × (c.leave_waits ≡ false)))))

effect-IsCalm : (b : Bool) (d : Deps) (c : Card) → d.is_active ≡ b → IsCalm (effect b d (cleanup c))
unfolding effect cleanup
effect-IsCalm true d c h = inl h
effect-IsCalm false d c h = inr (refl, (refl, (refl, (refl, refl))))

waiting_only : (b : Bool) (c n : Card) → b ≡ false → (if b then n else c) ≡ c
waiting_only b c n h = rw h refl

step-IsCalm : (e : Event) (c : Card) → IsCalm c → IsCalm (step e c)
unfolding step rendered enter frame dismiss leave cleanup
step-IsCalm (render d) c k =
    if_both {A = Card} IsCalm c.mounted
      (if_both {A = Card} IsCalm (same_deps d c.deps) k (effect-IsCalm d.is_active d c refl)) k
step-IsCalm entered c (inl h) = if_both {A = Card} IsCalm c.enter_waits (inl h) (inl h)
step-IsCalm framed c (inl h) = if_both {A = Card} IsCalm c.frame_waits (inl h) (inl h)
step-IsCalm dismissed c (inl h) =
    if_both {A = Card} IsCalm (c.dismiss_waits && not c.enter_waits) (inl h) (inl h)
step-IsCalm left c (inl h) = if_both {A = Card} IsCalm c.leave_waits (inl h) (inl h)
step-IsCalm unmounted c (inl h) = inl h
step-IsCalm entered c (inr (p, (e, k))) =
    subst IsCalm (sym (waiting_only c.enter_waits c (enter c) e)) (inr (p, (e, k)))
step-IsCalm framed c (inr (p, (e, (f, k)))) =
    subst IsCalm (sym (waiting_only c.frame_waits c (frame c) f)) (inr (p, (e, (f, k))))
step-IsCalm dismissed c (inr (p, (e, (f, (d, l))))) =
    subst IsCalm
      (sym (waiting_only (c.dismiss_waits && not c.enter_waits) c (dismiss c) (ground (arith, d))))
      (inr (p, (e, (f, (d, l)))))
step-IsCalm left c (inr (p, (e, (f, (d, l))))) =
    subst IsCalm (sym (waiting_only c.leave_waits c (leave c) l)) (inr (p, (e, (f, (d, l)))))
step-IsCalm unmounted c (inr (p, k)) = inr (p, (refl, (refl, (refl, refl))))

start-IsCalm :
    (b : Bool) (d : Deps) (c : Card)
    → d.is_active ≡ b
    → c ≡ card d idle false false false false true
    → IsCalm (effect b d c)
unfolding effect
start-IsCalm true d c h e = inl h
start-IsCalm false d c h e = inr (rw e (refl, (refl, (refl, (refl, refl)))))

steps-IsCalm : (es : List Event) (c : Card) → IsCalm c → IsCalm (run es c)
unfolding run
steps-IsCalm [] c k = k
steps-IsCalm (e ∷ es) c k = steps-IsCalm es (step e c) (step-IsCalm e c k)

-- Whatever is rendered and whichever callbacks run: while the card is not active, it is idle and
-- waits for nothing, so that nothing is drawn until it is active again.
pub run-IsCalm : (d : Deps) (es : List Event) → IsCalm (run es (start d))
unfolding start
run-IsCalm d es =
    steps-IsCalm es (start d)
      (start-IsCalm d.is_active d (card d idle false false false false true) refl refl)

-- The callbacks alone, without a render or an unmount.
abbrev pub is_callback : Event → Bool
is_callback (render d) = false
is_callback unmounted = false
is_callback _ = true

-- A card that waits for nothing stays as it is.
rest-steps :
    (es : List Event) (d : Deps) (p : Phase) (m : Bool)
    → all is_callback es ≡ true
    → run es (card d p false false false false m) ≡ card d p false false false false m
unfolding run step
rest-steps [] d p m h = refl
rest-steps (entered ∷ es) d p m h = rest-steps es d p m h
rest-steps (framed ∷ es) d p m h = rest-steps es d p m h
rest-steps (dismissed ∷ es) d p m h = rest-steps es d p m h
rest-steps (left ∷ es) d p m h = rest-steps es d p m h
rest-steps (render x ∷ es) d p m h = absurd (false≢true h)
rest-steps (unmounted ∷ es) d p m h = absurd (false≢true h)

-- A card of which only the timer that dismisses waits, and perhaps the frame.
abbrev pub IsUp : Bool → Card → Type 0
IsUp f c =
    (c.enter_waits ≡ false)
    × ((c.frame_waits ≡ f) × ((c.dismiss_waits ≡ true) × (c.leave_waits ≡ false)))

up-card : (f : Bool) (c : Card) → IsUp f c → c ≡ card c.deps c.phase false f true false c.mounted
up-card f c (e, (w, (d, l))) =
    ap (λ b. card c.deps c.phase b c.frame_waits c.dismiss_waits c.leave_waits c.mounted) e
    ∙ ap (λ b. card c.deps c.phase false b c.dismiss_waits c.leave_waits c.mounted) w
    ∙ ap (λ b. card c.deps c.phase false f b c.leave_waits c.mounted) d
    ∙ ap (λ b. card c.deps c.phase false f true b c.mounted) l

-- The card has been entered and its frame has run: once it was dismissed and its last timer has run,
-- it is idle, and no callback shows it again.
pub dismissed_for_good :
    (c : Card) (es : List Event)
    → IsUp false c
    → all is_callback es ≡ true
    → (run (dismissed ∷ left ∷ es) c).phase ≡ idle
unfolding run step dismiss leave
dismissed_for_good c es k h =
    ap (λ s. (run (dismissed ∷ left ∷ es) s).phase) (up-card false c k)
    ∙ ap Card.phase (rest-steps es c.deps idle c.mounted h)

-- The card has been entered, but its frame waits, as it does in a window that is not drawn: it is
-- dismissed, its last timer runs, and then the frame does. The card is shown, and no callback takes
-- it away again.
pub late_frame_stays :
    (c : Card) (es : List Event)
    → IsUp true c
    → all is_callback es ≡ true
    → (run (dismissed ∷ left ∷ framed ∷ es) c).phase ≡ shown
unfolding run step dismiss leave frame
late_frame_stays c es k h =
    ap (λ s. (run (dismissed ∷ left ∷ framed ∷ es) s).phase) (up-card true c k)
    ∙ ap Card.phase (rest-steps es c.deps shown c.mounted h)
