-- ===== src/Overlay/Channels/Slots.antt =====
-- One channel of the subscription: at any time it has either one socket or one timeout that will
-- open the next (web/src/features/overlay/useOverlayWebSocket.ts).
use court_command.Prelude.{
  ℕ, ◌≡◌, refl, ◌≢◌, inl, inr, Bool, true, false, Option, some, List, [], ◌∷◌, arith, ==_refl,
  Bool-cases,
}
use court_command.Overlay.Channels.{
  connect, on_close, on_open, WsState, open_, disconnected, Label, overlay, court, match_, label_eq,
  truthy, Subscription, Socket, Timeout, Hook, find_socket, find_timeout, connect, on_open,
  on_close,
}

abbrev pub has_label : Subscription → Label → Bool
has_label sub overlay = true
has_label sub court = true
has_label sub match_ = truthy sub.match_public_id

-- A socket that has not been closed, registered in socketsRef, or a timeout registered in
-- timersRef; the state is `disconnected` exactly while the timeout runs.
abbrev pub Slot : Subscription → List Socket → List Timeout → Option ℕ → Option ℕ → WsState → Type 0
Slot sub (s ∷ []) [] (some id) timer state =
    (s.id ≡ id) × (s.sub ≡ sub) × (s.closing ≡ false) × (state ≢ disconnected)
Slot sub [] (t ∷ []) socket (some id) state = (t.id ≡ id) × (t.sub ≡ sub) × (state ≡ disconnected)
Slot _ _ _ _ _ _ = ⊥

abbrev pub SlotAt : Subscription → Hook → Label → Type 0
SlotAt sub h k =
    Slot sub (h.live k) (h.pending k) (h.sockets_ref k) (h.timers_ref k) (h.state_ref k)

pub label_eq-eq : (l k : Label) → label_eq l k ≡ true → l ≡ k
label_eq-eq l k h = ground arith

pub label_eq_refl : (l : Label) → label_eq l l ≡ true
label_eq_refl l = ground arith

module _ (sub : Subscription) where
  pub Slot-opened :
      (ss : List Socket) (ts : List Timeout) (sr tr : Option ℕ) (st : WsState) (s : Socket)
      → ss ≡ s ∷ []
      → Slot sub ss ts sr tr st
      → Slot sub ss ts sr tr open_
  Slot-opened ss ts sr tr st s e slot = ground arith

  pub Slot-no_timeout :
      (ss : List Socket) (ts : List Timeout) (sr tr : Option ℕ) (st : WsState) (s : Socket)
      → ss ≡ s ∷ []
      → Slot sub ss ts sr tr st
      → ts ≡ []
  Slot-no_timeout ss ts sr tr st s e slot = ground arith

  pub Slot-no_socket :
      (ss : List Socket) (ts : List Timeout) (sr tr : Option ℕ) (st : WsState) (t : Timeout)
      → ts ≡ t ∷ []
      → Slot sub ss ts sr tr st
      → ss ≡ []
  Slot-no_socket ss ts sr tr st t e slot = ground arith

  pub find_socket-Slot :
      (ss : List Socket) (ts : List Timeout) (sr tr : Option ℕ) (st : WsState) (id : ℕ) (s : Socket)
      → Slot sub ss ts sr tr st
      → find_socket id ss ≡ some s
      → (ss ≡ s ∷ []) × (s.sub ≡ sub) × (s.closing ≡ false)
  unfolding find_socket
  find_socket-Slot ss ts sr tr st id s slot e = ground arith

  pub find_timeout-Slot :
      (ss : List Socket) (ts : List Timeout) (sr tr : Option ℕ) (st : WsState) (id : ℕ)
      (t : Timeout)
      → Slot sub ss ts sr tr st
      → find_timeout id ts ≡ some t
      → (ts ≡ t ∷ []) × (t.sub ≡ sub)
  unfolding find_timeout
  find_timeout-Slot ss ts sr tr st id t slot e = ground arith

  pub on_open-SlotAt :
      (h : Hook) (l k : Label) (s : Socket)
      → h.live l ≡ s ∷ []
      → SlotAt sub h k
      → SlotAt sub (on_open sub l h) k
  unfolding on_open
  on_open-SlotAt h l k s e slot = elim (Bool-cases (label_eq l k)) [
    | inl same ↦ rw same (
        Slot-opened (h.live k) (h.pending k) (h.sockets_ref k) (h.timers_ref k) (h.state_ref k) s
          (rw (label_eq-eq l k same) at e) slot)
    | inr other ↦ rw other slot
  ]

  pub on_close-SlotAt_self :
      (h : Hook) (l : Label) (s : Socket)
      → h.closed_by_unmount ≡ false
      → h.live l ≡ s ∷ []
      → h.pending l ≡ []
      → SlotAt sub (on_close sub l s.id h) l
  unfolding on_close
  on_close-SlotAt_self h l s c e p = rw (c, label_eq_refl l, e, p, ==_refl s.id) (refl, refl, refl)

  pub on_close-SlotAt_ne :
      (h : Hook) (l k : Label) (s : Socket)
      → h.closed_by_unmount ≡ false
      → label_eq l k ≡ false
      → SlotAt sub h k
      → SlotAt sub (on_close sub l s.id h) k
  unfolding on_close
  on_close-SlotAt_ne h l k s c other slot = rw (c, other) slot

  pub connect-SlotAt_self :
      (h : Hook) (l : Label) → h.live l ≡ [] → h.pending l ≡ [] → SlotAt sub (connect sub l h) l
  unfolding connect
  connect-SlotAt_self h l e p = rw (label_eq_refl l, e, p) (refl, refl, refl, (λ c. cc))

  pub connect-SlotAt_ne :
      (h : Hook) (l k : Label)
      → label_eq l k ≡ false
      → SlotAt sub h k
      → SlotAt sub (connect sub l h) k
  unfolding connect
  connect-SlotAt_ne h l k other slot = rw other slot
