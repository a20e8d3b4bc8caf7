-- ===== src/Overlay/Fade/Phases.antt =====
-- The phases of a fade (web/src/features/overlay/renderer/FadeMount.tsx), without handles, and that
-- the hook goes through them.
use court_command.Prelude.{
  ℕ, ◌+◌, ◌≡◌, refl, ap, inl, inr, Bool, true, false, Option, none, some, List, [], ◌∷◌, arith,
  ◌==◌, ==_refl, Bool-cases, length,
}
use court_command.Overlay.Fade.{
  Frame, outer, inner, Fade, cancel_frame, clear_timeout, cancel_pending, show, hide, effect, start,
  rendered, run_frame, run_frames, run_timeout, unmount, Event, render, framed, timed_out,
  unmounted, step, run,
}

-- An element that appears waits for two frames, one that leaves for its timer; `mounted` tells
-- whether its tree is drawn.
pub data Phase : Type 0 where
  appearing settling shown hidden : Phase
  leaving : (mounted : Bool) → Phase
  gone : (mounted : Bool) (opacity : ℕ) → Phase

unfoldable pub phase_mounted : Phase → Bool
phase_mounted hidden = false
phase_mounted (leaving mounted) = mounted
phase_mounted (gone mounted opacity) = mounted
phase_mounted _ = true

unfoldable pub phase_opacity : Phase → ℕ
phase_opacity shown = 1
phase_opacity (gone mounted opacity) = opacity
phase_opacity _ = 0

unfoldable pub phase_frames : Phase → ℕ
phase_frames appearing = 1
phase_frames settling = 1
phase_frames _ = 0

unfoldable pub phase_timeouts : Phase → ℕ
phase_timeouts (leaving mounted) = 1
phase_timeouts _ = 0

unfoldable pub phase_render : Bool → Phase → Phase
phase_render visible (gone mounted opacity) = gone mounted opacity
phase_render true (leaving mounted) = appearing
phase_render true hidden = appearing
phase_render true p = p
phase_render false (leaving mounted) = leaving mounted
phase_render false hidden = hidden
phase_render false p = leaving true

unfoldable pub phase_step : Event → Phase → Phase
unfolding phase_render phase_mounted phase_opacity
phase_step (render visible) p = phase_render visible p
phase_step framed appearing = settling
phase_step framed settling = shown
phase_step timed_out (leaving mounted) = hidden
phase_step unmounted p = gone (phase_mounted p) (phase_opacity p)
phase_step _ p = p

unfoldable pub phase_run : List Event → Phase → Phase
unfolding phase_step
phase_run [] p = p
phase_run (e ∷ es) p = phase_run es (phase_step e p)

unfoldable pub phase_start : Bool → Phase
phase_start true = appearing
phase_start false = leaving false

abbrev state :
    Bool
    → Bool
    → ℕ
    → Option ℕ
    → Option ℕ
    → Option ℕ
    → List (ℕ × Frame)
    → List ℕ
    → ℕ
    → ℕ
    → Bool
    → Fade
state visible mounted opacity hide a b frames timeouts n t attached = record {
  visible = visible;
  mounted = mounted;
  opacity = opacity;
  hide_timer = hide;
  show_raf_a = a;
  show_raf_b = b;
  frames = frames;
  timeouts = timeouts;
  next_frame = n;
  next_timer = t;
  attached = attached;
}

-- The state of the hook in each phase, up to its handles.
abbrev IsIn : Phase → Fade → Type 0
IsIn appearing f =
    (a : ℕ) × ((n : ℕ) × ((t : ℕ) × (f
          ≡ state true true 0 none (some a) none ((a, outer) ∷ []) [] n t true)))
IsIn settling f =
    (a : ℕ) × ((b : ℕ) × ((n : ℕ) × ((t : ℕ) × (f
            ≡ state true true 0 none (some a) (some b) ((b, inner) ∷ []) [] n t true))))
IsIn shown f = (n : ℕ) × ((t : ℕ) × (f ≡ state true true 1 none none none [] [] n t true))
IsIn hidden f = (n : ℕ) × ((t : ℕ) × (f ≡ state false false 0 none none none [] [] n t true))
IsIn (leaving m) f =
    (h : ℕ) × ((n : ℕ) × ((t : ℕ) × (f ≡ state false m 0 (some h) none none [] (h ∷ []) n t true)))
IsIn (gone m o) f =
    (v : Bool) × ((h : Option ℕ) × ((a : Option ℕ) × ((b : Option ℕ) × ((n : ℕ) × ((t : ℕ) × (f
                ≡ state v m o h a b [] [] n t false))))))

cancel-one : (a : ℕ) (k : Frame) → cancel_frame (some a) ((a, k) ∷ []) ≡ []
unfolding cancel_frame
cancel-one a k = ground (arith, ==_refl a)

cancel-two :
    (a b : ℕ) (k : Frame) → cancel_frame (some b) (cancel_frame (some a) ((b, k) ∷ [])) ≡ []
unfolding cancel_frame
cancel-two a b k = elim (Bool-cases (b == a)) [
  | inl e ↦ rw e refl
  | inr e ↦ rw e (rw (==_refl b) refl)
]

clear-one : (h : ℕ) → clear_timeout (some h) (h ∷ []) ≡ []
unfolding clear_timeout
clear-one h = rw (==_refl h) refl

step-IsIn : (e : Event) (p : Phase) (f : Fade) → IsIn p f → IsIn (phase_step e p) (step e f)
unfolding phase_step step cancel_pending show hide effect rendered run_frame run_frames run_timeout
    unmount phase_render
step-IsIn (render true) appearing f (a, (n, (t, e))) = rw e (a, (n, (t, refl)))
step-IsIn (render true) settling f (a, (b, (n, (t, e)))) = rw e (a, (b, (n, (t, refl))))
step-IsIn (render true) shown f (n, (t, e)) = rw e (n, (t, refl))
step-IsIn (render true) hidden f (n, (t, e)) = rw e (n, (n + 1, (t, refl)))
step-IsIn (render true) (leaving m) f (h, (n, (t, e))) = rw (e, clear-one h) (n, (n + 1, (t, refl)))
step-IsIn (render true) (gone m o) f (v, (h, (a, (b, (n, (t, e)))))) =
    rw e (v, (h, (a, (b, (n, (t, refl))))))
step-IsIn (render false) appearing f (a, (n, (t, e))) =
    rw (e, cancel-one a outer) (t, (n, (t + 1, refl)))
step-IsIn (render false) settling f (a, (b, (n, (t, e)))) =
    rw (e, cancel-two a b inner) (t, (n, (t + 1, refl)))
step-IsIn (render false) shown f (n, (t, e)) = rw e (t, (n, (t + 1, refl)))
step-IsIn (render false) hidden f (n, (t, e)) = rw e (n, (t, refl))
step-IsIn (render false) (leaving m) f (h, (n, (t, e))) = rw e (h, (n, (t, refl)))
step-IsIn (render false) (gone m o) f (v, (h, (a, (b, (n, (t, e)))))) =
    rw e (v, (h, (a, (b, (n, (t, refl))))))
step-IsIn framed appearing f (a, (n, (t, e))) = rw e (a, (n, (n + 1, (t, refl))))
step-IsIn framed settling f (a, (b, (n, (t, e)))) = rw e (n, (t, refl))
step-IsIn framed shown f (n, (t, e)) = rw e (n, (t, refl))
step-IsIn framed hidden f (n, (t, e)) = rw e (n, (t, refl))
step-IsIn framed (leaving m) f (h, (n, (t, e))) = rw e (h, (n, (t, refl)))
step-IsIn framed (gone m o) f (v, (h, (a, (b, (n, (t, e)))))) =
    rw e (v, (h, (a, (b, (n, (t, refl))))))
step-IsIn timed_out appearing f (a, (n, (t, e))) = rw e (a, (n, (t, refl)))
step-IsIn timed_out settling f (a, (b, (n, (t, e)))) = rw e (a, (b, (n, (t, refl))))
step-IsIn timed_out shown f (n, (t, e)) = rw e (n, (t, refl))
step-IsIn timed_out hidden f (n, (t, e)) = rw e (n, (t, refl))
step-IsIn timed_out (leaving m) f (h, (n, (t, e))) = rw e (n, (t, refl))
step-IsIn timed_out (gone m o) f (v, (h, (a, (b, (n, (t, e)))))) =
    rw e (v, (h, (a, (b, (n, (t, refl))))))
step-IsIn unmounted appearing f (a, (n, (t, e))) =
    rw (e, cancel-one a outer) (true, (none, (some a, (none, (n, (t, refl))))))
step-IsIn unmounted settling f (a, (b, (n, (t, e)))) =
    rw (e, cancel-two a b inner) (true, (none, (some a, (some b, (n, (t, refl))))))
step-IsIn unmounted shown f (n, (t, e)) = rw e (true, (none, (none, (none, (n, (t, refl))))))
step-IsIn unmounted hidden f (n, (t, e)) = rw e (false, (none, (none, (none, (n, (t, refl))))))
step-IsIn unmounted (leaving m) f (h, (n, (t, e))) =
    rw (e, clear-one h) (false, (some h, (none, (none, (n, (t, refl))))))
step-IsIn unmounted (gone m o) f (v, (h, (a, (b, (n, (t, e)))))) =
    rw e (v, (h, (a, (b, (n, (t, refl))))))

run-IsIn : (es : List Event) (p : Phase) (f : Fade) → IsIn p f → IsIn (phase_run es p) (run es f)
unfolding phase_run run
run-IsIn [] p f r = r
run-IsIn (e ∷ es) p f r = run-IsIn es (phase_step e p) (step e f) (step-IsIn e p f r)

start-IsIn : (visible : Bool) → IsIn (phase_start visible) (start visible)
unfolding phase_start start cancel_pending show hide effect cancel_frame clear_timeout
start-IsIn true = (1, (2, (1, refl)))
start-IsIn false = (1, (1, (2, refl)))

-- What is rendered, and how many callbacks wait for a frame and for a timer.
abbrev pub view : Fade → Bool × (ℕ × (ℕ × ℕ))
view f = (f.mounted, (f.opacity, (length f.frames, length f.timeouts)))

abbrev pub phase_view : Phase → Bool × (ℕ × (ℕ × ℕ))
phase_view p = (phase_mounted p, (phase_opacity p, (phase_frames p, phase_timeouts p)))

view-IsIn : (p : Phase) (f : Fade) → IsIn p f → view f ≡ phase_view p
unfolding phase_mounted phase_opacity phase_frames phase_timeouts
view-IsIn appearing f (a, (n, (t, e))) = ap view e
view-IsIn settling f (a, (b, (n, (t, e)))) = ap view e
view-IsIn shown f (n, (t, e)) = ap view e
view-IsIn hidden f (n, (t, e)) = ap view e
view-IsIn (leaving m) f (h, (n, (t, e))) = ap view e
view-IsIn (gone m o) f (v, (h, (a, (b, (n, (t, e)))))) = ap view e

-- From the first render on, through any renders, animation frames, timers and an unmount in any
-- order, what the hook renders and how many callbacks it has waiting are those of the phase: an
-- element that appears is drawn at opacity 0 for two frames and at 1 from then on, one that leaves
-- stays drawn at opacity 0 until its timer has run, a change of the prop drops what waited, and
-- after the unmount nothing waits.
pub fade_refines :
    (es : List Event) (visible : Bool)
    → view (run es (start visible)) ≡ phase_view (phase_run es (phase_start visible))
fade_refines es visible =
    view-IsIn (phase_run es (phase_start visible)) (run es (start visible))
      (run-IsIn es (phase_start visible) (start visible) (start-IsIn visible))
