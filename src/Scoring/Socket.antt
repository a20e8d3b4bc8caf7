-- ===== src/Scoring/Socket.antt =====
-- The live channel of a match (web/src/features/scoring/useMatchWebSocket.ts).
-- A hook holds its refs and state, and the sockets and timeouts that the browser holds for it. The
-- public id of a socket or a timeout is that of the run of the effect that made it. An empty public
-- id is none, as it is falsy.
pub mod Slot
pub mod Leak
mod Examples
use Prim.Native.String.{String}
use court_command.Prelude.{
  ℕ, zero, suc, ◌+◌, ◌-◌, ◌*◌, ◌/◌, ◌%◌, ◌^◌, ◌≤◌, ◌<◌, min, max, ◌≡◌, refl, sym, ap, ◌∙◌, subst,
  ◌≢◌, ◌↔◌, ◌⊎◌, inl, inr, Bool, true, false, not, ◌&&◌, ◌||◌, false≢true, Option, none, some, List,
  [], ◌∷◌, ◌++◌, map, arith, ltb, leb, ◌==◌, if◌then◌else◌, ltb→lt, lt→ltb, leb→le, ==_iff, ==_refl,
  Bool-cases, Option-cases, or_else, if_both, length, get_elem?, filter, any, all, length-append,
  length-filter-le, filter-filter, any-filter, filter-eq_of_length, filter-all, filter-true,
  filter-false, filter-append, All, In, Ordered, All-filter, Ordered-filter, In-filter,
  In-of_filter, In-map, All-map, All-In, All-append, Ordered-map,
}
use court_command.Backoff.{backoff_delay}
use court_command.Scoring.Match.{Match}

pub data WebSocketState : Type 0 where
  connecting open_ disconnected : WebSocketState

pub record Socket : Type 0 where
  pub id : ℕ
  pub public_id : String
  pub closing : Bool

pub record Timeout : Type 0 where
  pub id : ℕ
  pub public_id : String
  pub delay : ℕ

pub data CacheOp : Type 0 where
  set_match : String → Match → CacheOp
  invalidate_match invalidate_events : String → CacheOp

pub record Hook : Type 0 where
  pub state : WebSocketState
  pub last_update : Option Match
  pub attempt : ℕ
  pub attempts_ref : ℕ
  pub ws_ref : Option ℕ
  pub reconnect_timer_ref : Option ℕ
  pub closed_by_unmount : Bool
  pub active : Option String
  pub live : List Socket
  pub timeouts : List Timeout
  pub next_id : ℕ
  pub log : List CacheOp

pub connect : String → Hook → Hook
connect public_id h = record h {
  state = connecting;
  ws_ref = some h.next_id;
  live = record { id = h.next_id; public_id = public_id; closing = false } ∷ h.live;
  next_id = h.next_id + 1;
}

pub on_open : String → Hook → Hook
on_open public_id h = record h {
  attempts_ref = 0;
  attempt = 0;
  state = open_;
  log = h.log ++ invalidate_match public_id ∷ invalidate_events public_id ∷ [];
}

-- `none` is a frame that JSON.parse refuses, of another type, or without data.
pub on_message : String → Option Match → Hook → Hook
on_message public_id none h = h
on_message public_id (some m) h = record h {
  last_update = some m;
  log = h.log ++ set_match public_id m ∷ invalidate_events public_id ∷ [];
}

pub on_close : String → Hook → Hook
on_close public_id h = if h.closed_by_unmount then record h { ws_ref = none } else record h {
  ws_ref = none;
  state = disconnected;
  attempts_ref = h.attempts_ref + 1;
  attempt = h.attempts_ref + 1;
  reconnect_timer_ref = some h.next_id;
  timeouts =
      record { id = h.next_id; public_id = public_id; delay = backoff_delay h.attempts_ref }
      ∷ h.timeouts;
  next_id = h.next_id + 1;
}

abbrev pub clear_timeout : Option ℕ → List Timeout → List Timeout
clear_timeout none ts = ts
clear_timeout (some id) ts = filter (λ t. not (t.id == id)) ts

abbrev pub close_in : ℕ → List Socket → List Socket
close_in id [] = []
close_in id (s ∷ ss) = (if s.id == id then record s { closing = true } else s) ∷ close_in id ss

abbrev pub close_socket : Option ℕ → List Socket → List Socket
close_socket none ss = ss
close_socket (some id) ss = close_in id ss

-- A handle that is there is truthy: the browser counts them from one.
pub cleanup : Hook → Hook
cleanup h = record h {
  closed_by_unmount = true;
  timeouts = clear_timeout h.reconnect_timer_ref h.timeouts;
  reconnect_timer_ref = none;
  live = close_socket h.ws_ref h.live;
  ws_ref = none;
  active = none;
}

pub run_effect : Option String → Hook → Hook
unfolding connect
run_effect none h = h
run_effect (some public_id) h =
    connect public_id (record h { closed_by_unmount = false; active = some public_id })

-- React calls the cleanup of the last run, if that returned one.
abbrev pub cleanup_if_active : Option String → Hook → Hook
cleanup_if_active none h = h
cleanup_if_active (some public_id) h = cleanup h

-- `render` is a render with another public id than the last.
pub data Event : Type 0 where
  render : Option String → Event
  unmount : Event
  opened : (id : ℕ) → Event
  message : (id : ℕ) → Option Match → Event
  closed : (id : ℕ) → Event
  fired : (id : ℕ) → Event

pub find_socket : ℕ → List Socket → Option Socket
find_socket id [] = none
find_socket id (s ∷ ss) = if s.id == id then some s else find_socket id ss

pub find_timeout : ℕ → List Timeout → Option Timeout
find_timeout id [] = none
find_timeout id (t ∷ ts) = if t.id == id then some t else find_timeout id ts

pub deliver_open : Option Socket → Hook → Hook
unfolding on_open
deliver_open none h = h
deliver_open (some s) h = if s.closing then h else on_open s.public_id h

pub deliver_message : Option Match → Option Socket → Hook → Hook
unfolding on_message
deliver_message m none h = h
deliver_message m (some s) h = if s.closing then h else on_message s.public_id m h

pub deliver_close : Option Socket → Hook → Hook
unfolding on_close
deliver_close none h = h
deliver_close (some s) h =
    on_close s.public_id (record h { live = filter (λ t. not (t.id == s.id)) h.live })

pub deliver_fire : Option Timeout → Hook → Hook
unfolding connect
deliver_fire none h = h
deliver_fire (some t) h =
    connect t.public_id (record h { timeouts = filter (λ u. not (u.id == t.id)) h.timeouts })

pub step : Hook → Event → Hook
unfolding run_effect cleanup deliver_open deliver_message deliver_close deliver_fire find_socket
    find_timeout
step h (render public_id) = run_effect public_id (cleanup_if_active h.active h)
step h unmount = cleanup_if_active h.active h
step h (opened id) = deliver_open (find_socket id h.live) h
step h (message id m) = deliver_message m (find_socket id h.live) h
step h (closed id) = deliver_close (find_socket id h.live) h
step h (fired id) = deliver_fire (find_timeout id h.timeouts) h

pub run : Hook → List Event → Hook
run h [] = h
run h (e ∷ es) = run (step h e) es

pub initial : Hook
initial = record {
  state = connecting;
  last_update = none;
  attempt = 0;
  attempts_ref = 0;
  ws_ref = none;
  reconnect_timer_ref = none;
  closed_by_unmount = false;
  active = none;
  live = [];
  timeouts = [];
  next_id = 1;
  log = [];
}
