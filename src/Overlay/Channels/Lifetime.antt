-- ===== src/Overlay/Channels/Lifetime.antt =====
-- The life of one run of the effect, from the first render to the unmount
-- (web/src/features/overlay/useOverlayWebSocket.ts).
use Prim.Native.String.{String}
use court_command.Prelude.{
  ℕ, suc, ◌≡◌, refl, sym, ap, ◌∙◌, subst, ◌≢◌, inl, inr, true, false, not, false≢true, Option, none,
  some, List, [], ◌∷◌, arith, ◌==◌, if◌then◌else◌, Bool-cases, Option-cases, if_both, All,
  All-filter,
}
use court_command.Overlay.Channels.{
  WsState, Label, overlay, court, match_, label_eq, truthy, labels, Subscription, Socket, Timeout,
  Hook, find_socket, find_timeout, connect, connect_each, on_close, deliver_open, deliver_message,
  deliver_close, deliver_fire, Event, render, unmount, opened, message, errored, closed, fired,
  step, run, aggregate_state, cleanup, cleanup_if_active, clear_timeout, close_socket, initial,
}
use court_command.Overlay.Channels.Slots.{
  has_label, SlotAt, connect-SlotAt_self, connect-SlotAt_ne, Slot,
}
use court_command.Overlay.Channels.Connected.{Connected, IsQuiet, Stays, run-Connected}

abbrev pub subscription : ℕ → Option String → Subscription
subscription n public_id = record { court_id = suc n; match_public_id = public_id }

connect_each-shown :
    (sub : Subscription) (ls : List Label) (h : Hook)
    → h.state ≡ aggregate_state h.state_ref (labels sub)
    → (connect_each sub ls h).state ≡ aggregate_state (connect_each sub ls h).state_ref (labels sub)
unfolding connect_each
connect_each-shown sub [] h e = e
connect_each-shown sub (l ∷ ls) h e =
    connect_each-shown sub ls (connect sub l h) (unfold connect in refl)

module _ (sub : Subscription) (h : Hook) (q : (l : Label) → IsQuiet h l) where
  h₁ : Hook
  h₁ = connect sub overlay h

  h₂ : Hook
  unfolding h₁
  h₂ = connect sub court h₁

  slots_two : (k : Label) → k ≢ match_ → SlotAt sub h₂ k
  unfolding h₂
  slots_two overlay ne =
      connect-SlotAt_ne sub h₁ court overlay refl
        (connect-SlotAt_self sub h overlay (q overlay).0 (q overlay).1)
  slots_two court ne =
      connect-SlotAt_self sub h₁ court (unfold connect in (q court).0)
        (unfold connect in (q court).1)
  slots_two match_ ne = absurd (ne refl)

  slots_three : (k : Label) → SlotAt sub (connect sub match_ h₂) k
  unfolding h₂
  slots_three overlay = connect-SlotAt_ne sub h₂ match_ overlay refl (slots_two overlay (λ e. cc))
  slots_three court = connect-SlotAt_ne sub h₂ match_ court refl (slots_two court (λ e. cc))
  slots_three match_ =
      connect-SlotAt_self sub h₂ match_ (unfold connect in (q match_).0)
        (unfold connect in (q match_).1)

  slots_each : (k : Label) → has_label sub k ≡ true → SlotAt sub (connect_each sub (labels sub) h) k
  unfolding connect_each h₂
  slots_each k has = elim (Bool-cases (truthy sub.match_public_id)) [
    | inl e ↦ rw e (slots_three k)
    | inr e ↦ rw e (slots_two k (λ same. false≢true (sym e ∙ ap (has_label sub) (sym same) ∙ has)))
  ]

  IsQuiet-each : (k : Label) → has_label sub k ≡ false → IsQuiet (connect_each sub (labels sub) h) k
  unfolding connect_each connect
  IsQuiet-each overlay has = absurd (false≢true (sym has))
  IsQuiet-each court has = absurd (false≢true (sym has))
  IsQuiet-each match_ has = rw has (q match_)

  shown_each :
      (connect_each sub (labels sub) h).state
      ≡ aggregate_state (connect_each sub (labels sub) h).state_ref (labels sub)
  unfolding connect_each h₁
  shown_each =
      connect_each-shown sub (court ∷ (if truthy sub.match_public_id then match_ ∷ [] else [])) h₁
        (unfold connect in refl)

  kept_each :
      ((connect_each sub (labels sub) h).closed_by_unmount ≡ h.closed_by_unmount)
      × ((connect_each sub (labels sub) h).active ≡ h.active)
  unfolding connect_each connect
  kept_each = elim (Bool-cases (truthy sub.match_public_id)) [
    | inl e ↦ rw e (refl, refl)
    | inr e ↦ rw e (refl, refl)
  ]

  connect_each-Connected :
      h.closed_by_unmount ≡ false
      → h.active ≡ some sub
      → Connected sub (connect_each sub (labels sub) h)
  connect_each-Connected mounted current = record {
    mounted = kept_each.0 ∙ mounted;
    current = kept_each.1 ∙ current;
    slots = slots_each;
    quiet = IsQuiet-each;
    shown = shown_each;
  }

-- The first effect, with a court: every channel is connected.
pub mount-Connected :
    (n : ℕ) (public_id : Option String)
    → Connected (subscription n public_id) (step initial (render true (some (suc n)) public_id))
unfolding step initial
mount-Connected n public_id =
    connect_each-Connected (subscription n public_id)
      (record initial { closed_by_unmount = false; active = some (subscription n public_id) })
      (λ l. (refl, refl)) refl refl

-- From the first effect on, as long as the dependencies stay and the component is mounted, whatever
-- the browser delivers in whatever order: each channel of the subscription has exactly one socket,
-- which the hook has not closed, or exactly one timeout that will open the next, never both; no other channel
-- has any; and the state that the hook returns is the aggregate of the channels' states.
pub run-Connected_from_mount :
    (n : ℕ) (public_id : Option String) (es : List Event)
    → All Stays es
    → Connected
        (subscription n public_id)
        (run (step initial (render true (some (suc n)) public_id)) es)
run-Connected_from_mount n public_id es st =
    run-Connected (subscription n public_id) _ es st (mount-Connected n public_id)

-- No timeout is left, and every socket that the browser still holds has been closed.
pub record Finished (h : Hook) : Type 0 where
  pub stopped : h.closed_by_unmount ≡ true
  pub inactive : h.active ≡ none
  pub no_timeout : (k : Label) → h.pending k ≡ []
  pub no_socket : (k : Label) → All (λ s. s.closing ≡ true) (h.live k)

-- The component is not rendered again with other dependencies.
abbrev pub NoRender : Event → Type 0
NoRender (render enabled court_id public_id) = ⊥
NoRender _ = Unit

Slot-cleared :
    (sub : Subscription) (ss : List Socket) (ts : List Timeout) (sr tr : Option ℕ) (st : WsState)
    → Slot sub ss ts sr tr st
    → (clear_timeout tr ts ≡ []) × All (λ s. s.closing ≡ true) (close_socket sr ss)
Slot-cleared sub ss ts sr tr st slot = ground arith

quiet_cleared :
    (ss : List Socket) (ts : List Timeout) (sr tr : Option ℕ)
    → ss ≡ []
    → ts ≡ []
    → (clear_timeout tr ts ≡ []) × All (λ s. s.closing ≡ true) (close_socket sr ss)
quiet_cleared ss ts sr tr e p = ground arith

cleared :
    (sub : Subscription) (h : Hook) (k : Label)
    → Connected sub h
    → (clear_timeout (h.timers_ref k) (h.pending k) ≡ [])
      × All (λ s. s.closing ≡ true) (close_socket (h.sockets_ref k) (h.live k))
cleared sub h k c = elim (Bool-cases (has_label sub k)) [
  | inl has ↦ Slot-cleared sub _ _ _ _ (h.state_ref k) (c.slots k has)
  | inr ne ↦ let (e, p) = c.quiet k ne in quiet_cleared (h.live k) (h.pending k) _ _ e p
]

cleanup-Finished : (sub : Subscription) (h : Hook) → Connected sub h → Finished (cleanup h)
unfolding cleanup
cleanup-Finished sub h c = record {
  stopped = refl;
  inactive = refl;
  no_timeout = λ k. (cleared sub h k c).0;
  no_socket = λ k. (cleared sub h k c).1;
}

unmount-Finished : (sub : Subscription) (h : Hook) → Connected sub h → Finished (step h unmount)
unfolding step cleanup_if_active
unmount-Finished sub h c =
    subst (λ a. Finished (cleanup_if_active a h)) (sym c.current) (cleanup-Finished sub h c)

All-find_closing :
    (id : ℕ) (ss : List Socket) (s : Socket)
    → All (λ x. x.closing ≡ true) ss
    → find_socket id ss ≡ some s
    → s.closing ≡ true
unfolding find_socket
All-find_closing id [] s a e = cc
All-find_closing id (x ∷ ss) s a e = ground (arith, All-find_closing id ss s)

closed-Finished :
    (sub : Subscription) (h : Hook) (l : Label) (id : ℕ)
    → Finished h
    → Finished (on_close sub l id h)
unfolding on_close
closed-Finished sub h l id f = rw (f.stopped) (record {
  stopped = refl;
  inactive = f.inactive;
  no_timeout = f.no_timeout;
  no_socket = λ k.
      if_both (All (λ s. s.closing ≡ true)) (label_eq l k)
        (All-filter (λ s. s.closing ≡ true) (λ s. not (s.id == id)) (h.live l) (f.no_socket l))
        (f.no_socket k);
})

step-Finished : (h : Hook) (e : Event) → NoRender e → Finished h → Finished (step h e)
unfolding step
step-Finished h (render enabled court_id public_id) nr f = absurd nr
step-Finished h unmount nr f =
    subst (λ a. Finished (cleanup_if_active a h)) (sym f.inactive) (unfold cleanup_if_active in f)
step-Finished h (opened l id) nr f = elim (Option-cases (find_socket id (h.live l))) [
  | inl e ↦ rw e (unfold deliver_open in f)
  | inr (s, e) ↦
      rw e (unfold deliver_open in rw (All-find_closing id (h.live l) s (f.no_socket l) e) f)
]
step-Finished h (message l id now msg) nr f = elim (Option-cases (find_socket id (h.live l))) [
  | inl e ↦ rw e (unfold deliver_message in f)
  | inr (s, e) ↦
      rw e (unfold deliver_message in rw (All-find_closing id (h.live l) s (f.no_socket l) e) f)
]
step-Finished h (errored l id) nr f = f
step-Finished h (closed l id) nr f = elim (Option-cases (find_socket id (h.live l))) [
  | inl e ↦ rw e (unfold deliver_close in f)
  | inr (s, e) ↦ rw e (unfold deliver_close in closed-Finished s.sub h l s.id f)
]
step-Finished h (fired l id) nr f = rw (f.no_timeout l) (unfold find_timeout deliver_fire in f)

run-Finished : (h : Hook) (es : List Event) → All NoRender es → Finished h → Finished (run h es)
unfolding run
run-Finished h [] nr f = f
run-Finished h (e ∷ es) (n, nr) f = run-Finished (step h e) es nr (step-Finished h e n f)

-- The hook is rendered for a court, nothing changes what it subscribes to until the component
-- unmounts, and it is not rendered again. After the unmount, whatever the browser still delivers: no
-- timeout is left, every socket that is left has been closed, and no new one is opened.
pub unmount_quiesces :
    (n : ℕ) (public_id : Option String) (es rest : List Event)
    → All Stays es
    → All NoRender rest
    → Finished
        (run (step (run (step initial (render true (some (suc n)) public_id)) es) unmount) rest)
unmount_quiesces n public_id es rest st nr =
    run-Finished _ rest nr
      (unmount-Finished (subscription n public_id) _ (run-Connected_from_mount n public_id es st))
