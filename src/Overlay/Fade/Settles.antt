-- ===== src/Overlay/Fade/Settles.antt =====
-- That a fade comes to rest at what its prop asks for
-- (web/src/features/overlay/renderer/FadeMount.tsx).
use court_command.Prelude.{and_left, and_right}
use court_command.Prelude.{
  ◌≡◌, refl, ap, ◌∙◌, subst, Bool, true, false, false≢true, List, [], ◌∷◌, ◌++◌, if◌then◌else◌, all,
}
use court_command.Overlay.Fade.{start, Event, render, framed, timed_out, unmounted, run}
use court_command.Overlay.Fade.Phases.{
  Phase, appearing, settling, shown, hidden, leaving, gone, phase_mounted, phase_opacity,
  phase_frames, phase_timeouts, phase_render, phase_step, phase_run, phase_start, view, phase_view,
  fade_refines,
}

-- The prop that was rendered last.
abbrev pub last_visible : List Event → Bool → Bool
last_visible [] visible = visible
last_visible (render v ∷ es) visible = last_visible es v
last_visible (_ ∷ es) visible = last_visible es visible

abbrev pub no_unmount : Event → Bool
no_unmount unmounted = false
no_unmount _ = true

-- The phases that a rendered prop leads to.
abbrev IsFor : Bool → Phase → Type 0
IsFor true appearing = Unit
IsFor true settling = Unit
IsFor true shown = Unit
IsFor false hidden = Unit
IsFor false (leaving m) = Unit
IsFor _ _ = ⊥

step-IsFor :
    (v : Bool) (e : Event) (p : Phase)
    → no_unmount e ≡ true
    → IsFor v p
    → IsFor (last_visible (e ∷ []) v) (phase_step e p)
unfolding phase_step phase_render
step-IsFor v (render true) appearing h k = tt
step-IsFor v (render true) settling h k = tt
step-IsFor v (render true) shown h k = tt
step-IsFor v (render true) hidden h k = tt
step-IsFor v (render true) (leaving m) h k = tt
step-IsFor v (render false) appearing h k = tt
step-IsFor v (render false) settling h k = tt
step-IsFor v (render false) shown h k = tt
step-IsFor v (render false) hidden h k = tt
step-IsFor v (render false) (leaving m) h k = tt
step-IsFor true (render w) (gone m o) h k = absurd k
step-IsFor false (render w) (gone m o) h k = absurd k
step-IsFor true framed appearing h k = tt
step-IsFor true framed settling h k = tt
step-IsFor true framed shown h k = tt
step-IsFor v framed hidden h k = k
step-IsFor v framed (leaving m) h k = k
step-IsFor v framed (gone m o) h k = k
step-IsFor v timed_out appearing h k = k
step-IsFor v timed_out settling h k = k
step-IsFor v timed_out shown h k = k
step-IsFor v timed_out hidden h k = k
step-IsFor false timed_out (leaving m) h k = tt
step-IsFor v timed_out (gone m o) h k = k
step-IsFor v unmounted p h k = absurd (false≢true h)
step-IsFor false framed appearing h k = absurd k
step-IsFor false framed settling h k = absurd k
step-IsFor false framed shown h k = absurd k
step-IsFor true timed_out (leaving m) h k = absurd k

last-cons :
    (e : Event) (es : List Event) (v : Bool)
    → last_visible es (last_visible (e ∷ []) v) ≡ last_visible (e ∷ es) v
last-cons (render w) es v = refl
last-cons framed es v = refl
last-cons timed_out es v = refl
last-cons unmounted es v = refl

run-IsFor :
    (es : List Event) (v : Bool) (p : Phase)
    → all no_unmount es ≡ true
    → IsFor v p
    → IsFor (last_visible es v) (phase_run es p)
unfolding phase_run
run-IsFor [] v p h k = k
run-IsFor (e ∷ es) v p h k =
    subst (λ w. IsFor w (phase_run es (phase_step e p))) (last-cons e es v)
      (run-IsFor es (last_visible (e ∷ []) v) (phase_step e p)
        (and_right (no_unmount e) (all no_unmount es) h)
        (step-IsFor v e p (and_left (no_unmount e) (all no_unmount es) h) k))

start-IsFor : (v : Bool) → IsFor v (phase_start v)
unfolding phase_start
start-IsFor true = tt
start-IsFor false = tt

-- Two frames, and the time of a timer.
abbrev pub rest : List Event
rest = framed ∷ framed ∷ timed_out ∷ []

phase_run-append :
    (es fs : List Event) (p : Phase) → phase_run (es ++ fs) p ≡ phase_run fs (phase_run es p)
unfolding phase_run
phase_run-append [] fs p = refl
phase_run-append (e ∷ es) fs p = phase_run-append es fs (phase_step e p)

phase_run-rest :
    (v : Bool) (p : Phase)
    → IsFor v p
    → phase_view (phase_run rest p) ≡ (v, (if v then 1 else 0, (0, 0)))
unfolding phase_run phase_step phase_mounted phase_opacity phase_frames phase_timeouts
phase_run-rest true appearing k = refl
phase_run-rest true settling k = refl
phase_run-rest true shown k = refl
phase_run-rest false hidden k = refl
phase_run-rest false (leaving m) k = refl
phase_run-rest false appearing k = absurd k
phase_run-rest false settling k = absurd k
phase_run-rest false shown k = absurd k
phase_run-rest true hidden k = absurd k
phase_run-rest true (leaving m) k = absurd k
phase_run-rest true (gone m o) k = absurd k
phase_run-rest false (gone m o) k = absurd k

-- However often and however fast the prop was toggled, once two animation frames and the time of a
-- timer have passed, the element is drawn exactly if the prop of the last render is true, its
-- opacity is 1 then and 0 otherwise, and nothing waits; as long as it is not unmounted.
pub fade_settles :
    (es : List Event) (visible : Bool)
    → all no_unmount es ≡ true
    → view (run (es ++ rest) (start visible))
      ≡ (last_visible es visible, (if last_visible es visible then 1 else 0, (0, 0)))
fade_settles es visible h =
    fade_refines (es ++ rest) visible
    ∙ ap phase_view (phase_run-append es rest (phase_start visible))
    ∙ phase_run-rest (last_visible es visible) (phase_run es (phase_start visible))
        (run-IsFor es visible (phase_start visible) h (start-IsFor visible))
