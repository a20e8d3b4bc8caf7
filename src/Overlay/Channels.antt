-- ===== src/Overlay/Channels.antt =====
-- The overlay's live subscription (web/src/features/overlay/useOverlayWebSocket.ts): up to three
-- WebSocket channels under one hook.
-- The hook's refs, its React state and what the browser holds for it (the sockets whose close event
-- is still to come, the timeouts that are still to fire) are one record; what the browser and React
-- do is a list of events. The browser's sockets and timeouts are kept by the channel that they were
-- made for. Each closure keeps the court and the match of the run of the effect that made it.
-- An absent entry of stateRef and attemptsRef reads as `connecting` and 0 wherever it is read.
pub mod Slots
pub mod Connected
pub mod Lifetime
pub mod Handover
pub mod Cache
mod Examples
use Prim.Native.String.{String}
use text.Mathlib.Text.{◌==◌ as str_eq}
use court_command.Prelude.{
  ℕ, zero, suc, ◌+◌, ◌==◌, max, Bool, true, false, not, Option, none, some, List, [], ◌∷◌, ◌++◌,
  any, filter, if◌then◌else◌,
}
use court_command.Backoff.{backoff_delay}

pub data WsState : Type 0 where
  connecting open_ disconnected : WsState

pub data Label : Type 0 where
  overlay court match_ : Label

abbrev pub label_eq : Label → Label → Bool
label_eq overlay overlay = true
label_eq court court = true
label_eq match_ match_ = true
label_eq _ _ = false

abbrev pub update {ℓ} : {A : Type ℓ} → Label → A → (Label → A) → Label → A
update l v f k = if label_eq l k then v else f k

-- What a run of the effect closes over: a positive court, and the match if it is given.
pub record Subscription : Type 0 where
  pub court_id : ℕ
  pub match_public_id : Option String

-- `if (matchPublicID)`: null and the empty text are falsy.
abbrev pub truthy : Option String → Bool
truthy none = false
truthy (some s) = not (str_eq s "")

-- The labels of `specs`.
abbrev pub labels : Subscription → List Label
labels sub = overlay ∷ court ∷ (if truthy sub.match_public_id then match_ ∷ [] else [])

pub record Socket : Type 0 where
  pub id : ℕ
  pub sub : Subscription
  pub closing : Bool

pub record Timeout : Type 0 where
  pub id : ℕ
  pub sub : Subscription
  pub delay : ℕ

-- The query keys that the hook writes and invalidates.
pub data QueryKey : Type 0 where
  overlay_config : ℕ → QueryKey
  overlay_data : ℕ → QueryKey
  overlay_data_plain : ℕ → QueryKey
  matches : String → QueryKey
  match_events : String → QueryKey

-- A parsed frame: its type, the text of its data, and the truthy public_id in it if there is one.
pub data MessageType : Type 0 where
  overlay_data_message config_update match_update : MessageType
  other : String → MessageType

pub record Message : Type 0 where
  pub type : MessageType
  pub body : String
  pub public_id : Option String

pub data CacheOp : Type 0 where
  set_query_data : QueryKey → String → CacheOp
  invalidate : QueryKey → CacheOp
  notify : Message → CacheOp

pub record Hook : Type 0 where
  pub state : WsState
  pub attempt : ℕ
  pub last_message_at : Option ℕ
  pub state_ref : Label → WsState
  pub sockets_ref : Label → Option ℕ
  pub attempts_ref : Label → ℕ
  pub timers_ref : Label → Option ℕ
  pub closed_by_unmount : Bool
  pub active : Option Subscription
  pub live : Label → List Socket
  pub pending : Label → List Timeout
  pub next_id : ℕ
  pub log : List CacheOp

abbrev pub is_disconnected : WsState → Bool
is_disconnected disconnected = true
is_disconnected _ = false

abbrev pub is_connecting : WsState → Bool
is_connecting connecting = true
is_connecting _ = false

pub aggregate_state : (Label → WsState) → List Label → WsState
aggregate_state states ls =
    if any (λ l. is_disconnected (states l)) ls
    then disconnected
    else if any (λ l. is_connecting (states l)) ls
    then connecting
    else open_

pub max_attempts : (Label → ℕ) → List Label → ℕ
max_attempts attempts [] = 0
max_attempts attempts (l ∷ ls) = max (attempts l) (max_attempts attempts ls)

pub compute_aggregate : Subscription → Hook → Hook
compute_aggregate sub h = record h {
  state = aggregate_state h.state_ref (labels sub);
  attempt = max_attempts h.attempts_ref (labels sub);
}

pub connect : Subscription → Label → Hook → Hook
unfolding compute_aggregate
connect sub l h =
    let h' = compute_aggregate sub (record h { state_ref = update l connecting h.state_ref }) in
    record h' {
      sockets_ref = update l (some h.next_id) h.sockets_ref;
      live = update l (record { id = h.next_id; sub = sub; closing = false } ∷ h.live l) h.live;
      next_id = h.next_id + 1;
    }

-- `specs.forEach(connect)`.
pub connect_each : Subscription → List Label → Hook → Hook
connect_each sub [] h = h
connect_each sub (l ∷ ls) h = connect_each sub ls (connect sub l h)

pub find_socket : ℕ → List Socket → Option Socket
find_socket id [] = none
find_socket id (s ∷ ss) = if s.id == id then some s else find_socket id ss

pub find_timeout : ℕ → List Timeout → Option Timeout
find_timeout id [] = none
find_timeout id (t ∷ ts) = if t.id == id then some t else find_timeout id ts

abbrev pub drop_socket : ℕ → List Socket → List Socket
drop_socket id = filter (λ s. not (s.id == id))

abbrev pub drop_timeout : ℕ → List Timeout → List Timeout
drop_timeout id = filter (λ t. not (t.id == id))

-- `clearTimeout` of a handle that may be absent.
abbrev pub clear_timeout : Option ℕ → List Timeout → List Timeout
clear_timeout none ts = ts
clear_timeout (some id) ts = drop_timeout id ts

-- `ws.close()`: the close event comes later; until then the socket delivers nothing.
abbrev pub close_in : ℕ → List Socket → List Socket
close_in id [] = []
close_in id (s ∷ ss) = (if s.id == id then record s { closing = true } else s) ∷ close_in id ss

abbrev pub close_socket : Option ℕ → List Socket → List Socket
close_socket none ss = ss
close_socket (some id) ss = close_in id ss

pub cleanup : Hook → Hook
cleanup h = record h {
  closed_by_unmount = true;
  pending = λ l. clear_timeout (h.timers_ref l) (h.pending l);
  timers_ref = λ _. none;
  live = λ l. close_socket (h.sockets_ref l) (h.live l);
  sockets_ref = λ _. none;
  active = none;
}

-- Only the overlay channel fetches again what it may have missed.
abbrev pub refetch : Label → ℕ → List CacheOp
refetch overlay court_id =
    invalidate (overlay_config court_id) ∷ invalidate (overlay_data court_id) ∷ []
refetch _ court_id = []

pub on_open : Subscription → Label → Hook → Hook
unfolding compute_aggregate
on_open sub l h =
    let h' = compute_aggregate sub (record h {
      attempts_ref = update l 0 h.attempts_ref;
      state_ref = update l open_ h.state_ref;
    }) in
    record h' { log = h.log ++ refetch l sub.court_id }

pub match_ops : Option String → String → List CacheOp
match_ops none body = []
match_ops (some public_id) body =
    set_query_data (matches public_id) body ∷ invalidate (match_events public_id) ∷ []

pub apply_message : ℕ → MessageType → String → Option String → List CacheOp
unfolding match_ops
apply_message court_id overlay_data_message body public_id =
    set_query_data (overlay_data_plain court_id) body ∷ invalidate (overlay_data court_id) ∷ []
apply_message court_id config_update body public_id =
    set_query_data (overlay_config court_id) body ∷ invalidate (overlay_data court_id) ∷ []
apply_message court_id match_update body public_id =
    match_ops public_id body ++ invalidate (overlay_data court_id) ∷ []
apply_message court_id (other type) body public_id = []

-- `none` is a frame that JSON.parse refuses.
pub on_message : Subscription → ℕ → Option Message → Hook → Hook
unfolding apply_message
on_message sub now none h = h
on_message sub now (some msg) h = record h {
  last_message_at = some now;
  log = (h.log ++ apply_message sub.court_id msg.type msg.body msg.public_id) ++ notify msg ∷ [];
}

pub on_close : Subscription → Label → ℕ → Hook → Hook
unfolding compute_aggregate
on_close sub l id h =
    let h₁ = record h {
      sockets_ref = update l none h.sockets_ref;
      live = update l (drop_socket id (h.live l)) h.live;
    } in
    let h₂ = compute_aggregate sub (record h₁ { state_ref = update l disconnected h.state_ref }) in
    if h.closed_by_unmount then h₁ else record h₂ {
      attempts_ref = update l (h.attempts_ref l + 1) h.attempts_ref;
      timers_ref = update l (some h.next_id) h.timers_ref;
      pending =
          update l
            (record { id = h.next_id; sub = sub; delay = backoff_delay (h.attempts_ref l) }
              ∷ h.pending l)
            h.pending;
      next_id = h.next_id + 1;
    }

-- `courtID == null || courtID <= 0` and `!enabled` end the effect with no cleanup.
pub run_effect : Bool → Option ℕ → Option String → Hook → Hook
unfolding connect_each
run_effect enabled none public_id h = record h { state = disconnected }
run_effect enabled (some zero) public_id h = record h { state = disconnected }
run_effect false (some (suc n)) public_id h = record h { state = disconnected }
run_effect true (some (suc n)) public_id h =
    let sub : Subscription = record { court_id = suc n; match_public_id = public_id } in
    connect_each sub (labels sub) (record h { closed_by_unmount = false; active = some sub })

-- React calls the cleanup of the last run, if that returned one.
pub cleanup_if_active : Option Subscription → Hook → Hook
unfolding cleanup
cleanup_if_active none h = h
cleanup_if_active (some sub) h = cleanup h

-- `render` is a render whose dependencies differ from those of the last one.
pub data Event : Type 0 where
  render : (enabled : Bool) → Option ℕ → Option String → Event
  unmount : Event
  opened : Label → ℕ → Event
  message : Label → ℕ → (now : ℕ) → Option Message → Event
  errored : Label → ℕ → Event
  closed : Label → ℕ → Event
  fired : Label → ℕ → Event

-- An event of a socket or timeout that the browser no longer holds does not come.
pub deliver_open : Label → Option Socket → Hook → Hook
unfolding on_open
deliver_open l none h = h
deliver_open l (some s) h = if s.closing then h else on_open s.sub l h

pub deliver_message : ℕ → Option Message → Option Socket → Hook → Hook
unfolding on_message
deliver_message now msg none h = h
deliver_message now msg (some s) h = if s.closing then h else on_message s.sub now msg h

pub deliver_close : Label → Option Socket → Hook → Hook
unfolding on_close
deliver_close l none h = h
deliver_close l (some s) h = on_close s.sub l s.id h

pub deliver_fire : Label → Option Timeout → Hook → Hook
unfolding connect
deliver_fire l none h = h
deliver_fire l (some t) h =
    connect t.sub l (record h { pending = update l (drop_timeout t.id (h.pending l)) h.pending })

pub step : Hook → Event → Hook
unfolding deliver_open deliver_message deliver_close deliver_fire run_effect cleanup_if_active
step h (render enabled court_id public_id) =
    run_effect enabled court_id public_id (cleanup_if_active h.active h)
step h unmount = cleanup_if_active h.active h
step h (opened l id) = deliver_open l (find_socket id (h.live l)) h
step h (message l id now msg) = deliver_message now msg (find_socket id (h.live l)) h
step h (errored l id) = h
step h (closed l id) = deliver_close l (find_socket id (h.live l)) h
step h (fired l id) = deliver_fire l (find_timeout id (h.pending l)) h

pub run : Hook → List Event → Hook
run h [] = h
run h (e ∷ es) = run (step h e) es

-- The hook before its first effect.
pub initial : Hook
initial = record {
  state = connecting;
  attempt = 0;
  last_message_at = none;
  state_ref = λ _. connecting;
  sockets_ref = λ _. none;
  attempts_ref = λ _. 0;
  timers_ref = λ _. none;
  closed_by_unmount = false;
  active = none;
  live = λ _. [];
  pending = λ _. [];
  next_id = 0;
  log = [];
}
