-- ===== src/Overlay/Channels/Handover.antt =====
-- A change of the court or of the match while the channels are up
-- (web/src/features/overlay/useOverlayWebSocket.ts): the close events of the old sockets come after
-- the new run of the effect has reset closedByUnmountRef.
use Prim.Native.String.{String}
use court_command.Prelude.{
  ℕ, suc, ◌<◌, ◌≡◌, refl, sym, ap, ◌∙◌, subst, ◌≢◌, inl, inr, true, false, Option, none, some, List,
  [], ◌∷◌, arith, ◌==◌, ==_refl, Bool-cases,
}
use court_command.Backoff.{backoff_delay}
use court_command.Overlay.Channels.{
  WsState, overlay, truthy, labels, Subscription, Socket, Timeout, Hook, find_socket, drop_socket,
  connect, connect_each, on_close, deliver_close, render, unmount, closed, step, run_effect,
  cleanup, cleanup_if_active, clear_timeout, close_socket,
}
use court_command.Overlay.Channels.Slots.{Slot}
use court_command.Overlay.Channels.Connected.{Connected}
use court_command.Overlay.Channels.Lifetime.{subscription}

-- What the overlay channel looks like once every channel has been connected.
record Reconnected (sub : Subscription) (h h' : Hook) : Type 0 where
  live : h'.live overlay ≡ record { id = h.next_id; sub = sub; closing = false } ∷ h.live overlay
  pending : h'.pending overlay ≡ h.pending overlay
  attempts : h'.attempts_ref overlay ≡ h.attempts_ref overlay
  mounted : h'.closed_by_unmount ≡ h.closed_by_unmount
  current : h'.active ≡ h.active

connect_each-Reconnected :
    (sub : Subscription) (h : Hook) → Reconnected sub h (connect_each sub (labels sub) h)
unfolding connect_each connect
connect_each-Reconnected sub h = elim (Bool-cases (truthy sub.match_public_id)) [
  | inl e ↦
      rw e (record { live = refl; pending = refl; attempts = refl; mounted = refl; current = refl })
  | inr e ↦
      rw e (record { live = refl; pending = refl; attempts = refl; mounted = refl; current = refl })
]

Slot-closed :
    (sub : Subscription) (s : Socket) (ss : List Socket) (ts : List Timeout) (sr tr : Option ℕ)
    (st : WsState)
    → ss ≡ s ∷ []
    → Slot sub ss ts sr tr st
    → (close_socket sr ss ≡ record s { closing = true } ∷ [])
      × (clear_timeout tr ts ≡ [])
      × (s.sub ≡ sub)
Slot-closed sub s ss ts sr tr st e slot = ground arith

-- The hook after a close event of the old socket of the overlay channel.
pub record Leaking (sub sub' : Subscription) (delay : ℕ) (h : Hook) : Type 0 where
  pub unregistered : h.sockets_ref overlay ≡ none
  pub new_socket :
      (id : ℕ) × (h.live overlay ≡ record { id = id; sub = sub'; closing = false } ∷ [])
  pub old_timeout :
      (id : ℕ) × (h.pending overlay ≡ record { id = id; sub = sub; delay = delay } ∷ [])
  pub current : h.active ≡ some sub'

eq_false : (a b : ℕ) → a ≢ b → (b == a) ≡ false
eq_false a b ne = ground arith

find_second : (x s : Socket) → s.id ≢ x.id → find_socket s.id (x ∷ s ∷ []) ≡ some s
unfolding find_socket
find_second x s ne = rw (eq_false s.id x.id ne, ==_refl s.id)

drop_second : (x s : Socket) → s.id ≢ x.id → drop_socket s.id (x ∷ s ∷ []) ≡ x ∷ []
drop_second x s ne = rw (eq_false s.id x.id ne, ==_refl s.id)

on_close-Leaking_at :
    (sub sub' : Subscription) (s x : Socket) (h : Hook)
    → h.live overlay ≡ x ∷ s ∷ []
    → x ≡ record { id = x.id; sub = sub'; closing = false }
    → h.pending overlay ≡ []
    → h.closed_by_unmount ≡ false
    → h.active ≡ some sub'
    → s.id ≢ x.id
    → Leaking sub sub' (backoff_delay (h.attempts_ref overlay)) (on_close sub overlay s.id h)
unfolding on_close
on_close-Leaking_at sub sub' s x h live fresh pending mounted current ne = rw (mounted) (record {
  unregistered = refl;
  new_socket = (x.id, rw live (drop_second x s ne ∙ ap (λ y. y ∷ []) fresh));
  old_timeout = (h.next_id, rw pending refl);
  current = current;
})

on_close-Leaking :
    (sub sub' : Subscription) (s : Socket) (h : Hook) (id : ℕ)
    → h.live overlay
      ≡ record { id = id; sub = sub'; closing = false } ∷ record s { closing = true } ∷ []
    → h.pending overlay ≡ []
    → h.closed_by_unmount ≡ false
    → h.active ≡ some sub'
    → s.sub ≡ sub
    → s.id ≢ id
    → Leaking sub sub' (backoff_delay (h.attempts_ref overlay)) (step h (closed overlay s.id))
unfolding step
on_close-Leaking sub sub' s h id live pending mounted current same ne =
    let x : Socket = record { id = id; sub = sub'; closing = false } in
    let old : Socket = record s { closing = true } in
    let found : find_socket s.id (h.live overlay) ≡ some old = rw live (find_second x old ne) in
    rw found (
      unfold deliver_close in
      rw same (on_close-Leaking_at sub sub' old x h live refl pending mounted current ne))

-- The hook as the effect starts to connect again.
abbrev restarted : Subscription → Hook → Hook
restarted sub h = record (cleanup h) { closed_by_unmount = false; active = some sub }

step-render :
    (sub : Subscription) (h : Hook) (n : ℕ) (public_id : Option String)
    → h.active ≡ some sub
    → step h (render true (some (suc n)) public_id)
      ≡ connect_each
          (subscription n public_id)
          (labels (subscription n public_id))
          (restarted (subscription n public_id) h)
unfolding step run_effect cleanup_if_active
step-render sub h n public_id e =
    ap (λ a. run_effect true (some (suc n)) public_id (cleanup_if_active a h)) e

unmount-Leaking :
    (sub sub' : Subscription) (delay : ℕ) (h : Hook)
    → Leaking sub sub' delay h
    → (id : ℕ) × ((step h unmount).live overlay
        ≡ record { id = id; sub = sub'; closing = false } ∷ [])
unfolding step cleanup_if_active cleanup
unmount-Leaking sub sub' delay h leak =
    let (id, e) = leak.new_socket in
    (
      id,
      subst
          (λ a.
            (cleanup_if_active a h).live overlay
            ≡ record { id = id; sub = sub'; closing = false } ∷ [])
          (sym (leak.current))
          (subst
            (λ r.
              close_socket r (h.live overlay)
              ≡ record { id = id; sub = sub'; closing = false } ∷ [])
            (sym (leak.unregistered)) e),
    )

restarted_overlay :
    (sub sub' : Subscription) (h : Hook) (s : Socket)
    → Connected sub h
    → h.live overlay ≡ s ∷ []
    → ((restarted sub' h).live overlay ≡ record s { closing = true } ∷ [])
      × ((restarted sub' h).pending overlay ≡ [])
      × (s.sub ≡ sub)
unfolding cleanup
restarted_overlay sub sub' h s c alone =
    Slot-closed sub s (h.live overlay) (h.pending overlay) (h.sockets_ref overlay)
      (h.timers_ref overlay) (h.state_ref overlay) alone (c.slots overlay refl)

-- A change of the dependencies while the overlay channel has a socket, then the close event of that
-- socket: a timeout is left that connects to the old court again, and the new socket is no longer
-- registered, so that an unmount does not close it.
pub handover_leaks :
    (sub : Subscription) (h : Hook) (s : Socket) (n : ℕ) (public_id : Option String)
    → Connected sub h
    → h.live overlay ≡ s ∷ []
    → s.id < h.next_id
    → let h' = step (step h (render true (some (suc n)) public_id)) (closed overlay s.id) in
      Leaking sub (subscription n public_id) (backoff_delay (h.attempts_ref overlay)) h'
      × ((id : ℕ) × ((step h' unmount).live overlay
            ≡ record { id = id; sub = subscription n public_id; closing = false } ∷ []))
unfolding cleanup
handover_leaks sub h s n public_id c alone older =
    let sub' = subscription n public_id in
    let h₀ = restarted sub' h in
    let r = connect_each-Reconnected sub' h₀ in
    let (old, cleared, same) = restarted_overlay sub sub' h s c alone in
    let leak =
      on_close-Leaking sub sub' s (connect_each sub' (labels sub') h₀) h₀.next_id
        (r.live ∙ ap (λ ss. record { id = h₀.next_id; sub = sub'; closing = false } ∷ ss) old)
        (r.pending ∙ cleared) r.mounted r.current same (λ e. absurd (omega arith)) in
    rw (step-render sub h n public_id c.current) (
      subst
          (λ a.
            Leaking sub sub' (backoff_delay a)
              (step (connect_each sub' (labels sub') h₀) (closed overlay s.id)))
          (r.attempts) leak,
      unmount-Leaking sub sub' _ _ leak,
    )
