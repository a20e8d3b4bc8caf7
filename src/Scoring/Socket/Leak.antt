-- ===== src/Scoring/Socket/Leak.antt =====
-- The end of a run of the effect of useMatchWebSocket (web/src/features/scoring/useMatchWebSocket.ts):
-- at the unmount, and at a change of the match.
use court_command.Prelude.{
  ℕ, ◌+◌, ◌<◌, ◌≡◌, refl, sym, ap, ◌∙◌, subst, inl, inr, true, false, not, Option, none, some, List,
  [], ◌∷◌, arith, ◌==◌, ==_refl, Bool-cases, Option-cases, All, All-filter,
}
use Prim.Native.String.{String}
use court_command.Backoff.{backoff_delay}
use court_command.Scoring.Socket.{
  connecting, Socket, Timeout, Hook, connect, on_close, clear_timeout, close_socket, cleanup,
  run_effect, cleanup_if_active, Event, render, unmount, opened, message, closed, fired,
  find_socket, find_timeout, deliver_open, deliver_message, deliver_close, deliver_fire, step, run,
  initial,
}
use court_command.Scoring.Socket.Slot.{found_socket, Slot, Alive, Stays, run-Alive_from_mount}

-- No timeout is left, and every socket that the browser still holds has been closed.
pub record Finished (h : Hook) : Type 0 where
  pub stopped : h.closed_by_unmount ≡ true
  pub inactive : h.active ≡ none
  pub no_timeout : h.timeouts ≡ []
  pub no_socket : All (λ s. s.closing ≡ true) h.live

abbrev pub NoRender : Event → Type 0
NoRender (render p) = ⊥
NoRender _ = Unit

clear_nil : (o : Option ℕ) → clear_timeout o [] ≡ []
clear_nil none = refl
clear_nil (some i) = refl

close_socket-closing :
    (p : String) (ws timer : Option ℕ) (live : List Socket) (ts : List Timeout)
    → Slot p ws timer live ts
    → All (λ s. s.closing ≡ true) (close_socket ws live) × (clear_timeout timer ts ≡ [])
close_socket-closing p (some i) timer (s ∷ []) [] c =
    rw c (rw (==_refl i) ((refl, tt), clear_nil timer))
close_socket-closing p none (some j) [] (t ∷ []) c = (tt, rw c.0 (rw (==_refl j) refl))
close_socket-closing p _ _ _ _ c = absurd c

unmount-Finished : (p : String) (h : Hook) → Alive p h → Finished (step h unmount)
unfolding step cleanup
unmount-Finished p h a =
    let ends = close_socket-closing p h.ws_ref h.reconnect_timer_ref h.live h.timeouts a.slot in
    subst (λ o. Finished (cleanup_if_active o h)) (sym a.current)
      record { stopped = refl; inactive = refl; no_timeout = ends.1; no_socket = ends.0 }

find_socket-closing :
    (id : ℕ) (live : List Socket) (s : Socket)
    → All (λ r. r.closing ≡ true) live
    → find_socket id live ≡ some s
    → s.closing ≡ true
unfolding find_socket
find_socket-closing id [] s a f = absurd cc
find_socket-closing id (r ∷ live) s a f = elim (Bool-cases (r.id == id)) [
  | inl e ↦ let same : r ≡ s = ground arith in sym (ap (λ x. x.closing) same) ∙ a.0
  | inr e ↦ find_socket-closing id live s a.1 (rw e at f)
]

step-Finished : (h : Hook) (e : Event) → NoRender e → Finished h → Finished (step h e)
unfolding step deliver_open deliver_message deliver_close deliver_fire on_close find_timeout
step-Finished h unmount n f = subst (λ o. Finished (cleanup_if_active o h)) (sym f.inactive) f
step-Finished h (opened id) n f = elim (Option-cases (find_socket id h.live)) [
  | inl none_ ↦ rw none_ f
  | inr (r, e) ↦ rw e (rw (find_socket-closing id h.live r f.no_socket e) f)
]
step-Finished h (message id m) n f = elim (Option-cases (find_socket id h.live)) [
  | inl none_ ↦ rw none_ f
  | inr (r, e) ↦ rw e (rw (find_socket-closing id h.live r f.no_socket e) f)
]
step-Finished h (closed id) n f = elim (Option-cases (find_socket id h.live)) [
  | inl none_ ↦ rw none_ f
  | inr (r, e) ↦ rw e (
      rw f.stopped record {
        stopped = refl;
        inactive = f.inactive;
        no_timeout = f.no_timeout;
        no_socket = All-filter (λ s. s.closing ≡ true) (λ t. not (t.id == r.id)) h.live f.no_socket;
      })
]
step-Finished h (fired id) n f =
    subst (λ ts. Finished (deliver_fire (find_timeout id ts) h)) (sym f.no_timeout) f
step-Finished h e n f = absurd n

run-Finished : (h : Hook) (es : List Event) → All NoRender es → Finished h → Finished (run h es)
unfolding run
run-Finished h [] n f = f
run-Finished h (e ∷ es) n f = run-Finished (step h e) es n.1 (step-Finished h e n.0 f)

-- The hook is rendered for a match, the match does not change until the component unmounts, and it is
-- not rendered again. After the unmount, whatever the browser still delivers: no timeout is left,
-- every socket that is left has been closed, and no new one is opened.
pub unmount_ends :
    (p : String) (es rest : List Event)
    → All Stays es
    → All NoRender rest
    → Finished (run (step (run (step initial (render (some p))) es) unmount) rest)
unmount_ends p es rest s n =
    let h = run (step initial (render (some p))) es in
    run-Finished (step h unmount) rest n (unmount-Finished p h (run-Alive_from_mount p es s))

-- The hook after a change of the match and the close event of the old socket.
pub record Leaking (p q : String) (delay : ℕ) (h : Hook) : Type 0 where
  pub unregistered : h.ws_ref ≡ none
  pub new_socket : (id : ℕ) × (h.live ≡ record { id = id; public_id = q; closing = false } ∷ [])
  pub old_timeout : (id : ℕ) × (h.timeouts ≡ record { id = id; public_id = p; delay = delay } ∷ [])
  pub current : h.active ≡ some q

-- The hook as the effect has connected again, with what the cleanup left.
abbrev restarted : String → List Socket → List Timeout → Hook → Hook
restarted q old ts h = record h {
  state = connecting;
  closed_by_unmount = false;
  timeouts = ts;
  reconnect_timer_ref = none;
  live = record { id = h.next_id; public_id = q; closing = false } ∷ old;
  ws_ref = some h.next_id;
  active = some q;
  next_id = h.next_id + 1;
}

render-restarted :
    (p q : String) (h : Hook)
    → h.active ≡ some p
    → step h (render (some q))
      ≡ restarted q
          (close_socket h.ws_ref h.live)
          (clear_timeout h.reconnect_timer_ref h.timeouts)
          h
unfolding step run_effect connect cleanup
render-restarted p q h e =
    subst
      (λ o.
        run_effect (some q) (cleanup_if_active o h)
        ≡ restarted q (close_socket h.ws_ref h.live)
            (clear_timeout h.reconnect_timer_ref h.timeouts) h)
      (sym e) refl

closed-Leaking :
    (q : String) (s : Socket) (h : Hook)
    → s.id < h.next_id
    → let u = step (restarted q (s ∷ []) [] h) (closed s.id) in
      Leaking s.public_id q (backoff_delay h.attempts_ref) u
      × ((id : ℕ) × ((step u unmount).live
            ≡ record { id = id; public_id = q; closing = false } ∷ []))
unfolding step find_socket deliver_close on_close cleanup
closed-Leaking q s h fresh =
    let other : (h.next_id == s.id) ≡ false = ground arith in
    rw other (
      rw (==_refl s.id) (
        rw other (
          rw (==_refl s.id) (
            record {
              unregistered = refl;
              new_socket = (h.next_id, refl);
              old_timeout = (h.next_id + 1, refl);
              current = refl;
            },
            (h.next_id, refl),
          ))))

-- A change of the match while its socket is up, then the close event of that socket: a timeout is
-- left that connects to the old match again, and the new socket is no longer registered, so that an
-- unmount does not close it.
pub match_change_leaks :
    (p q : String) (h : Hook) (s : Socket)
    → Alive p h
    → h.live ≡ s ∷ []
    → s.id < h.next_id
    → let u = step (step h (render (some q))) (closed s.id) in
      Leaking p q (backoff_delay h.attempts_ref) u
      × ((id : ℕ) × ((step u unmount).live
            ≡ record { id = id; public_id = q; closing = false } ∷ []))
unfolding find_socket
match_change_leaks p q h s a up fresh =
    let found : find_socket s.id h.live ≡ some s = rw up (rw (==_refl s.id) refl) in
    let u = found_socket p h.ws_ref h.reconnect_timer_ref h.live h.timeouts s.id s a.slot found in
    let old : close_socket h.ws_ref h.live ≡ record s { closing = true } ∷ [] =
      rw u.registered (rw up (rw (==_refl s.id) refl)) in
    let cleared : clear_timeout h.reconnect_timer_ref h.timeouts ≡ [] =
      rw u.idle (clear_nil h.reconnect_timer_ref) in
    let again =
      render-restarted p q h a.current
      ∙ (ap (λ l. restarted q l (clear_timeout h.reconnect_timer_ref h.timeouts) h) old
          ∙ ap (λ ts. restarted q (record s { closing = true } ∷ []) ts h) cleared) in
    subst
      (λ k.
        Leaking p q (backoff_delay h.attempts_ref) (step k (closed s.id))
        × ((id : ℕ) × ((step (step k (closed s.id)) unmount).live
              ≡ record { id = id; public_id = q; closing = false } ∷ [])))
      (sym again)
      (subst
        (λ n.
          Leaking n q (backoff_delay h.attempts_ref)
            (step (restarted q (record s { closing = true } ∷ []) [] h) (closed s.id))
          × ((id : ℕ) × ((step
                  (step (restarted q (record s { closing = true } ∷ []) [] h) (closed s.id))
                  unmount).live
                ≡ record { id = id; public_id = q; closing = false } ∷ [])))
        u.own (closed-Leaking q (record s { closing = true }) h fresh))
