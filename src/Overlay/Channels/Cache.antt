-- ===== src/Overlay/Channels/Cache.antt =====
-- What the messages do to the query cache (web/src/features/overlay/useOverlayWebSocket.ts).
use Prim.Native.String.{String}
use court_command.Prelude.{
  ℕ, suc, ◌≡◌, refl, inl, inr, true, Option, none, some, List, [], ◌∷◌, ◌++◌, Option-cases, if_both,
  All, In, All-append,
}
use court_command.Overlay.Channels.{
  Label, overlay, court, match_, Subscription, Hook, find_socket, find_timeout, connect, on_open,
  on_close, on_message, deliver_open, deliver_message, deliver_close, deliver_fire, Event, render,
  unmount, opened, message, errored, closed, fired, step, run, Message, MessageType,
  overlay_data_message, config_update, match_update, other, QueryKey, overlay_config, overlay_data,
  overlay_data_plain, matches, match_events, CacheOp, set_query_data, invalidate, notify,
  apply_message, match_ops, refetch, initial, connect_each, labels,
}
use court_command.Overlay.Channels.Connected.{Connected, Stays, slot_socket, step-Connected}
use court_command.Overlay.Channels.Lifetime.{subscription, mount-Connected}

-- The overlay entries among the keys belong to the court.
abbrev pub KeyOf : ℕ → QueryKey → Type 0
KeyOf n (overlay_config m) = m ≡ n
KeyOf n (overlay_data m) = m ≡ n
KeyOf n (overlay_data_plain m) = m ≡ n
KeyOf n (matches public_id) = Unit
KeyOf n (match_events public_id) = Unit

abbrev pub InScope : ℕ → CacheOp → Type 0
InScope n (set_query_data key body) = KeyOf n key
InScope n (invalidate key) = KeyOf n key
InScope n (notify msg) = Unit

match_ops-InScope :
    (n : ℕ) (public_id : Option String) (body : String) → All (InScope n) (match_ops public_id body)
unfolding match_ops
match_ops-InScope n none body = tt
match_ops-InScope n (some public_id) body = (tt, (tt, tt))

apply_message-InScope :
    (n : ℕ) (type : MessageType) (body : String) (public_id : Option String)
    → All (InScope n) (apply_message n type body public_id)
unfolding apply_message
apply_message-InScope n overlay_data_message body public_id = (refl, (refl, tt))
apply_message-InScope n config_update body public_id = (refl, (refl, tt))
apply_message-InScope n match_update body public_id =
    All-append (InScope n) (match_ops public_id body) _ (match_ops-InScope n public_id body)
      (refl, tt)
apply_message-InScope n (other type) body public_id = tt

refetch-InScope : (l : Label) (n : ℕ) → All (InScope n) (refetch l n)
refetch-InScope overlay n = (refl, (refl, tt))
refetch-InScope court n = tt
refetch-InScope match_ n = tt

-- The message types that the hook knows.
abbrev pub IsKnown : MessageType → Type 0
IsKnown (other type) = ⊥
IsKnown _ = Unit

-- A message of a known type has the overlay data of the subscribed court fetched again; a message
-- of any other type does nothing to the cache.
pub apply_message_refreshes :
    (n : ℕ) (type : MessageType) (body : String) (public_id : Option String)
    → (IsKnown type → In (invalidate (overlay_data n)) (apply_message n type body public_id))
      × ((IsKnown type → ⊥) → apply_message n type body public_id ≡ [])
unfolding apply_message match_ops
apply_message_refreshes n overlay_data_message body public_id =
    (λ k. inr (inl refl), λ k. absurd (k tt))
apply_message_refreshes n config_update body public_id = (λ k. inr (inl refl), λ k. absurd (k tt))
apply_message_refreshes n match_update body none = (λ k. inl refl, λ k. absurd (k tt))
apply_message_refreshes n match_update body (some id) =
    (λ k. inr (inr (inl refl)), λ k. absurd (k tt))
apply_message_refreshes n (other type) body public_id = (λ k. absurd k, λ k. refl)

abbrev LogInScope : Subscription → Hook → Type 0
LogInScope sub h = All (InScope sub.court_id) h.log

on_open-log :
    (sub : Subscription) (l : Label) (h : Hook)
    → LogInScope sub h
    → LogInScope sub (on_open sub l h)
unfolding on_open
on_open-log sub l h a = All-append (InScope sub.court_id) h.log _ a (refetch-InScope l sub.court_id)

on_message-log :
    (sub : Subscription) (now : ℕ) (msg : Option Message) (h : Hook)
    → LogInScope sub h
    → LogInScope sub (on_message sub now msg h)
unfolding on_message
on_message-log sub now none h a = a
on_message-log sub now (some msg) h a =
    All-append (InScope sub.court_id) (h.log ++ _) _
      (All-append (InScope sub.court_id) h.log _ a
        (apply_message-InScope sub.court_id msg.type msg.body msg.public_id))
      (tt, tt)

on_close-log :
    (sub from : Subscription) (l : Label) (id : ℕ) (h : Hook)
    → LogInScope sub h
    → LogInScope sub (on_close from l id h)
unfolding on_close
on_close-log sub from l id h a = if_both (LogInScope sub) h.closed_by_unmount a a

step-log :
    (sub : Subscription) (h : Hook) (e : Event)
    → Stays e
    → Connected sub h
    → LogInScope sub h
    → LogInScope sub (step h e)
unfolding step
step-log sub h (render enabled court_id public_id) st c a = absurd st
step-log sub h unmount st c a = absurd st
step-log sub h (opened l id) st c a = elim (Option-cases (find_socket id (h.live l))) [
  | inl e ↦ rw e (unfold deliver_open in a)
  | inr (s, e) ↦ rw e (
      unfold deliver_open in
      if_both (LogInScope sub) s.closing a
        (rw ((slot_socket sub h l id s c e).1) (on_open-log sub l h a)))
]
step-log sub h (message l id now msg) st c a = elim (Option-cases (find_socket id (h.live l))) [
  | inl e ↦ rw e (unfold deliver_message in a)
  | inr (s, e) ↦ rw e (
      unfold deliver_message in
      if_both (LogInScope sub) s.closing a
        (rw ((slot_socket sub h l id s c e).1) (on_message-log sub now msg h a)))
]
step-log sub h (errored l id) st c a = a
step-log sub h (closed l id) st c a = elim (Option-cases (find_socket id (h.live l))) [
  | inl e ↦ rw e (unfold deliver_close in a)
  | inr (s, e) ↦ rw e (unfold deliver_close in on_close-log sub s.sub l s.id h a)
]
step-log sub h (fired l id) st c a = elim (Option-cases (find_timeout id (h.pending l))) [
  | inl e ↦ rw e (unfold deliver_fire in a)
  | inr (t, e) ↦ rw e (unfold deliver_fire connect in a)
]

run-log :
    (sub : Subscription) (h : Hook) (es : List Event)
    → All Stays es
    → Connected sub h
    → LogInScope sub h
    → LogInScope sub (run h es)
unfolding run
run-log sub h [] st c a = a
run-log sub h (e ∷ es) (s, st) c a =
    run-log sub (step h e) es st (step-Connected sub h e s c) (step-log sub h e s c a)

connect_each-log :
    (sub from : Subscription) (ls : List Label) (h : Hook)
    → LogInScope sub h
    → LogInScope sub (connect_each from ls h)
unfolding connect_each
connect_each-log sub from [] h a = a
connect_each-log sub from (l ∷ ls) h a =
    connect_each-log sub from ls (connect from l h) (unfold connect in a)

mount-log :
    (n : ℕ) (public_id : Option String)
    → LogInScope (subscription n public_id) (step initial (render true (some (suc n)) public_id))
unfolding step initial
mount-log n public_id =
    let sub = subscription n public_id in
    connect_each-log sub sub (labels sub) (record initial { active = some sub }) tt

-- While the hook stays on one court, it writes and invalidates the overlay entries of that court
-- only.
pub run_scope :
    (n : ℕ) (public_id : Option String) (es : List Event)
    → All Stays es
    → All (InScope (suc n)) (run (step initial (render true (some (suc n)) public_id)) es).log
run_scope n public_id es st =
    run-log (subscription n public_id) _ es st (mount-Connected n public_id) (mount-log n public_id)
