-- ===== src/Overlay/Channels/Connected.antt =====
-- What holds of the subscription from one run of the effect to the next
-- (web/src/features/overlay/useOverlayWebSocket.ts).
use court_command.Prelude.{
  ℕ, ◌≡◌, refl, subst, inl, inr, true, false, false≢true, Option, none, some, List, [], ◌∷◌, arith,
  ==_refl, Bool-cases, Option-cases, if_both, All,
}
use court_command.Overlay.Channels.{
  Label, label_eq, labels, Subscription, Socket, Timeout, Hook, find_socket, find_timeout,
  drop_timeout, connect, on_open, on_close, deliver_open, deliver_message, deliver_close,
  deliver_fire, on_message, Event, render, unmount, opened, message, errored, closed, fired, step,
  run, aggregate_state, Message, update,
}
use court_command.Overlay.Channels.Slots.{
  has_label, SlotAt, Slot-no_timeout, Slot-no_socket, find_socket-Slot, find_timeout-Slot,
  on_open-SlotAt, on_close-SlotAt_self, on_close-SlotAt_ne, connect-SlotAt_self, connect-SlotAt_ne,
  label_eq-eq, label_eq_refl,
}

abbrev pub IsQuiet : Hook → Label → Type 0
IsQuiet h k = (h.live k ≡ []) × (h.pending k ≡ [])

-- Every channel of the subscription has one socket or one timeout, no other channel has any, and
-- the hook's state is the aggregate of the channels' states.
pub record Connected (sub : Subscription) (h : Hook) : Type 0 where
  pub mounted : h.closed_by_unmount ≡ false
  pub current : h.active ≡ some sub
  pub slots : (k : Label) → has_label sub k ≡ true → SlotAt sub h k
  pub quiet : (k : Label) → has_label sub k ≡ false → IsQuiet h k
  pub shown : h.state ≡ aggregate_state h.state_ref (labels sub)

on_close-mounted :
    (sub : Subscription) (h : Hook) (l : Label) (id : ℕ)
    → h.closed_by_unmount ≡ false
    → (on_close sub l id h).closed_by_unmount ≡ false
unfolding on_close
on_close-mounted sub h l id e = ground arith

module _ (sub : Subscription) where
  -- What an operation on channel `l` has to show.
  Connected-at :
      (h h' : Hook) (l : Label)
      → Connected sub h
      → has_label sub l ≡ true
      → h'.closed_by_unmount ≡ false
      → h'.active ≡ h.active
      → h'.state ≡ aggregate_state h'.state_ref (labels sub)
      → SlotAt sub h' l
      → ((k : Label) → label_eq l k ≡ false → SlotAt sub h k → SlotAt sub h' k)
      → ((k : Label) → label_eq l k ≡ false → IsQuiet h k → IsQuiet h' k)
      → Connected sub h'
  Connected-at h h' l c has mounted same shown slot slots quiet = record {
    mounted = mounted;
    current = cc (c.current);
    slots = λ k has_k. elim (Bool-cases (label_eq l k)) [
      | inl e ↦ subst (SlotAt sub h') (label_eq-eq l k e) slot
      | inr ne ↦ slots k ne (c.slots k has_k)
    ];
    quiet = λ k has_k. elim (Bool-cases (label_eq l k)) [
      | inl e ↦ absurd (false≢true (cc (label_eq-eq l k e)))
      | inr ne ↦ quiet k ne (c.quiet k has_k)
    ];
    shown = shown;
  }

  on_open-Connected :
      (h : Hook) (l : Label) (s : Socket)
      → Connected sub h
      → has_label sub l ≡ true
      → h.live l ≡ s ∷ []
      → Connected sub (on_open sub l h)
  unfolding on_open
  on_open-Connected h l s c has e =
      Connected-at h (on_open sub l h) l c has c.mounted refl refl
        (on_open-SlotAt sub h l l s e (c.slots l has))
        (λ k ne slot. on_open-SlotAt sub h l k s e slot) (λ k ne q. q)

  on_close-Connected :
      (h : Hook) (l : Label) (s : Socket)
      → Connected sub h
      → has_label sub l ≡ true
      → h.live l ≡ s ∷ []
      → h.pending l ≡ []
      → Connected sub (on_close sub l s.id h)
  on_close-Connected h l s c has e p =
      Connected-at h (on_close sub l s.id h) l c has (on_close-mounted sub h l s.id c.mounted)
        (unfold on_close in rw (c.mounted) refl) (unfold on_close in rw (c.mounted) refl)
        (on_close-SlotAt_self sub h l s c.mounted e p)
        (λ k ne slot. on_close-SlotAt_ne sub h l k s c.mounted ne slot)
        (λ k ne q. unfold on_close in rw (c.mounted, ne) q)

  connect-Connected :
      (h h₀ : Hook) (l : Label)
      → Connected sub h₀
      → has_label sub l ≡ true
      → h.closed_by_unmount ≡ false
      → h.active ≡ h₀.active
      → h.live l ≡ []
      → h.pending l ≡ []
      → ((k : Label) → label_eq l k ≡ false → SlotAt sub h₀ k → SlotAt sub h k)
      → ((k : Label) → label_eq l k ≡ false → IsQuiet h₀ k → IsQuiet h k)
      → Connected sub (connect sub l h)
  connect-Connected h h₀ l c has m a e p slots quiet =
      Connected-at h₀ (connect sub l h) l c has (unfold connect in m) (unfold connect in a)
        (unfold connect in refl) (connect-SlotAt_self sub h l e p)
        (λ k ne slot. connect-SlotAt_ne sub h l k ne (slots k ne slot))
        (λ k ne q. unfold connect in rw ne (quiet k ne q))

  -- A socket of a channel without a slot is not there.
  find_socket-has :
      (h : Hook) (l : Label) (id : ℕ) (s : Socket)
      → Connected sub h
      → find_socket id (h.live l) ≡ some s
      → has_label sub l ≡ true
  unfolding find_socket
  find_socket-has h l id s c e = elim (Bool-cases (has_label sub l)) [
    | inl has ↦ has
    | inr ne ↦ ground (arith, c.quiet l ne)
  ]

  find_timeout-has :
      (h : Hook) (l : Label) (id : ℕ) (t : Timeout)
      → Connected sub h
      → find_timeout id (h.pending l) ≡ some t
      → has_label sub l ≡ true
  unfolding find_timeout
  find_timeout-has h l id t c e = elim (Bool-cases (has_label sub l)) [
    | inl has ↦ has
    | inr ne ↦ ground (arith, c.quiet l ne)
  ]

  pub slot_socket :
      (h : Hook) (l : Label) (id : ℕ) (s : Socket)
      → Connected sub h
      → find_socket id (h.live l) ≡ some s
      → (h.live l ≡ s ∷ []) × (s.sub ≡ sub) × (s.closing ≡ false)
  slot_socket h l id s c e =
      find_socket-Slot sub (h.live l) (h.pending l) (h.sockets_ref l) (h.timers_ref l)
        (h.state_ref l) id s (c.slots l (find_socket-has h l id s c e)) e

  opened-Connected :
      (h : Hook) (l : Label) (id : ℕ)
      → Connected sub h
      → Connected sub (deliver_open l (find_socket id (h.live l)) h)
  opened-Connected h l id c = elim (Option-cases (find_socket id (h.live l))) [
    | inl e ↦ rw e (unfold deliver_open in c)
    | inr (s, e) ↦
        let (alone, same, open_socket) = slot_socket h l id s c e in
        rw e (
          unfold deliver_open in
          rw (open_socket, same) (on_open-Connected h l s c (find_socket-has h l id s c e) alone))
  ]

  on_message-Connected :
      (h : Hook) (from : Subscription) (now : ℕ) (msg : Option Message)
      → Connected sub h
      → Connected sub (on_message from now msg h)
  unfolding on_message
  on_message-Connected h from now none c = c
  on_message-Connected h from now (some msg) c = record {
    mounted = c.mounted;
    current = c.current;
    slots = c.slots;
    quiet = c.quiet;
    shown = c.shown;
  }

  message-Connected :
      (h : Hook) (l : Label) (id now : ℕ) (msg : Option Message)
      → Connected sub h
      → Connected sub (deliver_message now msg (find_socket id (h.live l)) h)
  message-Connected h l id now msg c = elim (Option-cases (find_socket id (h.live l))) [
    | inl e ↦ rw e (unfold deliver_message in c)
    | inr (s, e) ↦ rw e (
        unfold deliver_message in
        if_both (Connected sub) s.closing c (on_message-Connected h s.sub now msg c))
  ]

  closed-Connected :
      (h : Hook) (l : Label) (id : ℕ)
      → Connected sub h
      → Connected sub (deliver_close l (find_socket id (h.live l)) h)
  closed-Connected h l id c = elim (Option-cases (find_socket id (h.live l))) [
    | inl e ↦ rw e (unfold deliver_close in c)
    | inr (s, e) ↦
        let (alone, same, open_socket) = slot_socket h l id s c e in
        let has = find_socket-has h l id s c e in
        rw e (
          unfold deliver_close in
          rw same (
            on_close-Connected h l s c has alone (
              Slot-no_timeout sub (h.live l) (h.pending l) (h.sockets_ref l) (h.timers_ref l)
                (h.state_ref l) s alone (c.slots l has))))
  ]

  fired-Connected :
      (h : Hook) (l : Label) (id : ℕ)
      → Connected sub h
      → Connected sub (deliver_fire l (find_timeout id (h.pending l)) h)
  fired-Connected h l id c = elim (Option-cases (find_timeout id (h.pending l))) [
    | inl e ↦ rw e (unfold deliver_fire in c)
    | inr (t, e) ↦
        let has = find_timeout-has h l id t c e in
        let (alone, same) =
          find_timeout-Slot sub (h.live l) (h.pending l) (h.sockets_ref l) (h.timers_ref l)
            (h.state_ref l) id t (c.slots l has) e in
        let none_live =
          Slot-no_socket sub (h.live l) (h.pending l) (h.sockets_ref l) (h.timers_ref l)
            (h.state_ref l) t alone (c.slots l has) in
        rw e (
          unfold deliver_fire in
          rw same (
            connect-Connected
              (record h { pending = update l (drop_timeout t.id (h.pending l)) h.pending }) h l c
              has c.mounted refl none_live (rw (label_eq_refl l, alone, ==_refl t.id) refl)
              (λ k ne slot. rw ne slot) (λ k ne q. rw ne q)))
  ]

-- Neither the dependencies change nor the component unmounts.
abbrev pub Stays : Event → Type 0
Stays (render enabled court_id public_id) = ⊥
Stays unmount = ⊥
Stays _ = Unit

module _ (sub : Subscription) where
  pub step-Connected : (h : Hook) (e : Event) → Stays e → Connected sub h → Connected sub (step h e)
  unfolding step
  step-Connected h (render enabled court_id public_id) st c = absurd st
  step-Connected h unmount st c = absurd st
  step-Connected h (opened l id) st c = opened-Connected sub h l id c
  step-Connected h (message l id now msg) st c = message-Connected sub h l id now msg c
  step-Connected h (errored l id) st c = c
  step-Connected h (closed l id) st c = closed-Connected sub h l id c
  step-Connected h (fired l id) st c = fired-Connected sub h l id c

  pub run-Connected :
      (h : Hook) (es : List Event) → All Stays es → Connected sub h → Connected sub (run h es)
  unfolding run
  run-Connected h [] st c = c
  run-Connected h (e ∷ es) (st, sts) c = run-Connected (step h e) es sts (step-Connected h e st c)
