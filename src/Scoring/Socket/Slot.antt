-- ===== src/Scoring/Socket/Slot.antt =====
-- The life of the live channel of a match, from the first effect on
-- (web/src/features/scoring/useMatchWebSocket.ts).
use court_command.Prelude.{
  ℕ, ◌+◌, ◌≡◌, refl, sym, ap, ◌∙◌, subst, inl, inr, false, not, Option, none, some, List, [], ◌∷◌,
  arith, ◌==◌, if◌then◌else◌, ==_refl, Option-cases, if_both, filter, All,
}
use Prim.Native.String.{String}
use court_command.Backoff.{backoff_delay}
use court_command.Scoring.Match.{Match}
use court_command.Scoring.Socket.{
  WebSocketState, connecting, open_, disconnected, Socket, Timeout, Hook, connect, on_open,
  on_message, on_close, run_effect, Event, render, unmount, opened, message, closed, fired,
  find_socket, find_timeout, deliver_open, deliver_message, deliver_close, deliver_fire, step, run,
  initial,
}

-- Either one socket that the hook knows and has not closed, or one timeout that the hook knows.
abbrev pub Slot : String → Option ℕ → Option ℕ → List Socket → List Timeout → Type 0
Slot p (some i) timer (s ∷ []) [] = s ≡ record { id = i; public_id = p; closing = false }
Slot p none (some j) [] (t ∷ []) = (t.id ≡ j) × (t.public_id ≡ p)
Slot p _ _ _ _ = ⊥

-- The state is disconnected exactly while there is no socket.
abbrev pub Phase : WebSocketState → Option ℕ → Type 0
Phase disconnected none = Unit
Phase connecting (some i) = Unit
Phase open_ (some i) = Unit
Phase _ _ = ⊥

pub record Alive (p : String) (h : Hook) : Type 0 where
  pub slot : Slot p h.ws_ref h.reconnect_timer_ref h.live h.timeouts
  pub phase : Phase h.state h.ws_ref
  pub counted : h.attempt ≡ h.attempts_ref
  pub running : h.closed_by_unmount ≡ false
  pub current : h.active ≡ some p

-- What a slot is when a socket is found in it, and when a timeout is.
pub record Up (p : String) (s : Socket) (ws : Option ℕ) (live : List Socket) (ts : List Timeout)
    : Type 0 where
  pub registered : ws ≡ some s.id
  pub alone : live ≡ s ∷ []
  pub idle : ts ≡ []
  pub usable : s.closing ≡ false
  pub own : s.public_id ≡ p

record Down (p : String) (t : Timeout) (live : List Socket) (ts : List Timeout) : Type 0 where
  silent : live ≡ []
  alone : ts ≡ t ∷ []
  own : t.public_id ≡ p

pub found_socket :
    (p : String) (ws timer : Option ℕ) (live : List Socket) (ts : List Timeout) (id : ℕ)
    (s : Socket)
    → Slot p ws timer live ts
    → find_socket id live ≡ some s
    → Up p s ws live ts
unfolding find_socket
found_socket p (some i) timer (r ∷ []) [] id s c f =
    let same : r ≡ s = ground arith in
    record {
      registered = ap some (sym (ap (λ x. x.id) c) ∙ ap (λ x. x.id) same);
      alone = ap (λ x. x ∷ []) same;
      idle = refl;
      usable = sym (ap (λ x. x.closing) same) ∙ ap (λ x. x.closing) c;
      own = sym (ap (λ x. x.public_id) same) ∙ ap (λ x. x.public_id) c;
    }
found_socket p none (some j) [] (t ∷ []) id s c f = absurd cc
found_socket p _ _ _ _ id s c f = absurd c

found_timeout :
    (p : String) (ws timer : Option ℕ) (live : List Socket) (ts : List Timeout) (id : ℕ)
    (t : Timeout)
    → Slot p ws timer live ts
    → find_timeout id ts ≡ some t
    → Down p t live ts
unfolding find_timeout
found_timeout p (some i) timer (r ∷ []) [] id t c f = absurd cc
found_timeout p none (some j) [] (u ∷ []) id t c f =
    let same : u ≡ t = ground arith in
    record {
      silent = refl;
      alone = ap (λ x. x ∷ []) same;
      own = sym (ap (λ x. x.public_id) same) ∙ c.1;
    }
found_timeout p _ _ _ _ id t c f = absurd c

open-Alive :
    (p : String) (h : Hook) (s : Socket)
    → Up p s h.ws_ref h.live h.timeouts
    → Alive p h
    → Alive p (on_open s.public_id h)
unfolding on_open
open-Alive p h s u a = record {
  slot = a.slot;
  phase = subst (Phase open_) (sym u.registered) tt;
  counted = refl;
  running = a.running;
  current = a.current;
}

message-Alive :
    (p q : String) (m : Option Match) (h : Hook) → Alive p h → Alive p (on_message q m h)
unfolding on_message
message-Alive p q none h a = a
message-Alive p q (some m) h a = record {
  slot = a.slot;
  phase = a.phase;
  counted = a.counted;
  running = a.running;
  current = a.current;
}

close-Alive :
    (p : String) (h : Hook) (s : Socket)
    → Up p s h.ws_ref h.live h.timeouts
    → Alive p h
    → Alive p (deliver_close (some s) h)
unfolding deliver_close on_close
close-Alive p h s u a =
    subst (λ b. Alive p (if b then gone else waiting)) (sym a.running)
      record {
        slot =
            subst
              (λ ts.
                Slot p none (some h.next_id) (filter (λ t. not (t.id == s.id)) h.live) (next ∷ ts))
              (sym u.idle)
              (subst
                (λ l. Slot p none (some h.next_id) (filter (λ t. not (t.id == s.id)) l) (next ∷ []))
                (sym u.alone) (rw (==_refl s.id) (refl, u.own)));
        phase = tt;
        counted = refl;
        running = a.running;
        current = a.current;
      }
  where
    next : Timeout
    next = record { id = h.next_id; public_id = s.public_id; delay = backoff_delay h.attempts_ref }

    gone : Hook
    gone = record h { live = filter (λ t. not (t.id == s.id)) h.live; ws_ref = none }

    waiting : Hook
    waiting = record h {
      live = filter (λ t. not (t.id == s.id)) h.live;
      ws_ref = none;
      state = disconnected;
      attempts_ref = h.attempts_ref + 1;
      attempt = h.attempts_ref + 1;
      reconnect_timer_ref = some h.next_id;
      timeouts = next ∷ h.timeouts;
      next_id = h.next_id + 1;
    }

fire-Alive :
    (p : String) (h : Hook) (t : Timeout)
    → Down p t h.live h.timeouts
    → Alive p h
    → Alive p (deliver_fire (some t) h)
unfolding deliver_fire connect
fire-Alive p h t d a = record {
  slot = rw d.silent (
      rw d.alone (
        rw (==_refl t.id)
          (ap (λ q. record { id = h.next_id; public_id = q; closing = false }) d.own)));
  phase = tt;
  counted = a.counted;
  running = a.running;
  current = a.current;
}

-- The public id stays, and the component is mounted.
abbrev pub Stays : Event → Type 0
Stays (render p) = ⊥
Stays unmount = ⊥
Stays _ = Unit

close_none : (p : String) (h : Hook) → Alive p h → Alive p (deliver_close none h)
unfolding deliver_close
close_none p h a = a

fire_none : (p : String) (h : Hook) → Alive p h → Alive p (deliver_fire none h)
unfolding deliver_fire
fire_none p h a = a

step-Alive : (p : String) (h : Hook) (e : Event) → Stays e → Alive p h → Alive p (step h e)
unfolding step deliver_open deliver_message
step-Alive p h (opened id) s a = elim (Option-cases (find_socket id h.live)) [
  | inl none_ ↦ rw none_ a
  | inr (r, e) ↦ rw e (
      if_both {A = Hook} (Alive p) r.closing a (
        open-Alive p h r
          (found_socket p h.ws_ref h.reconnect_timer_ref h.live h.timeouts id r a.slot e) a))
]
step-Alive p h (message id m) s a = elim (Option-cases (find_socket id h.live)) [
  | inl none_ ↦ rw none_ a
  | inr (r, e) ↦ rw e (if_both {A = Hook} (Alive p) r.closing a (message-Alive p r.public_id m h a))
]
step-Alive p h (closed id) s a = elim (Option-cases (find_socket id h.live)) [
  | inl none_ ↦ subst (λ o. Alive p (deliver_close o h)) (sym none_) (close_none p h a)
  | inr (r, e) ↦
      subst (λ o. Alive p (deliver_close o h)) (sym e)
        (close-Alive p h r
          (found_socket p h.ws_ref h.reconnect_timer_ref h.live h.timeouts id r a.slot e) a)
]
step-Alive p h (fired id) s a = elim (Option-cases (find_timeout id h.timeouts)) [
  | inl none_ ↦ subst (λ o. Alive p (deliver_fire o h)) (sym none_) (fire_none p h a)
  | inr (t, e) ↦
      subst (λ o. Alive p (deliver_fire o h)) (sym e)
        (fire-Alive p h t
          (found_timeout p h.ws_ref h.reconnect_timer_ref h.live h.timeouts id t a.slot e) a)
]
step-Alive p h e s a = absurd s

pub run-Alive :
    (p : String) (h : Hook) (es : List Event) → All Stays es → Alive p h → Alive p (run h es)
unfolding run
run-Alive p h [] s a = a
run-Alive p h (e ∷ es) s a = run-Alive p (step h e) es s.1 (step-Alive p h e s.0 a)

-- From the first effect on, while the match stays and the component is mounted, whatever the
-- browser delivers in whatever order: the hook has one socket of the match that it knows and has
-- not closed, or one timeout that will open the next and that it can cancel, never both; the state
-- is disconnected exactly while there is no socket; and the attempts shown are those counted.
pub run-Alive_from_mount :
    (p : String) (es : List Event)
    → All Stays es
    → Alive p (run (step initial (render (some p))) es)
unfolding step run_effect connect initial
run-Alive_from_mount p es s =
    run-Alive p (step initial (render (some p))) es s
      record { slot = refl; phase = tt; counted = refl; running = refl; current = refl }
