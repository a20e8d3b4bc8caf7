-- ===== src/Overlay/Debounce.antt =====
-- A timer that each edit sets anew, as ElementsTab.tsx and ThemeTab.tsx
-- (web/src/features/overlay/controls) delay what they send.
use court_command.Prelude.{
  ℕ, ◌+◌, ◌≡◌, refl, ap, ◌⊎◌, inl, inr, not, Option, none, some, List, [], ◌∷◌, ◌++◌, ◌==◌, ==_refl,
  filter,
}

-- The ref, and the timers that the browser holds, oldest first; every one is set for the same time.
pub record Timers : Type 0 where
  pub flush_timer : Option ℕ
  pub timeouts : List ℕ
  pub next_id : ℕ

unfoldable pub no_timers : Timers
no_timers = record { flush_timer = none; timeouts = []; next_id = 1 }

-- `if (flushTimer.current) clearTimeout(flushTimer.current)`: a handle is never zero.
unfoldable pub cleared : Option ℕ → List ℕ → List ℕ
cleared none ts = ts
cleared (some id) ts = filter (λ t. not (t == id)) ts

-- The same, and the ref set to the handle of a new timer; or to null; or left.
unfoldable pub rearm : Timers → Timers
unfolding cleared
rearm t = record {
  flush_timer = some t.next_id;
  timeouts = cleared t.flush_timer t.timeouts ++ t.next_id ∷ [];
  next_id = t.next_id + 1;
}

unfoldable pub cancel : Timers → Timers
unfolding cleared
cancel t = record t { flush_timer = none; timeouts = cleared t.flush_timer t.timeouts }

unfoldable pub drop_timer : Timers → Timers
unfolding cleared
drop_timer t = record t { timeouts = cleared t.flush_timer t.timeouts }

-- The oldest timer has run.
unfoldable pub expired : Timers → Timers
expired t = record t { timeouts = elim (t.timeouts) [ [] ↦ [] | id ∷ ts ↦ ts ] }

-- No timer, or the one of the ref.
abbrev pub IsSingle : Timers → Type 0
IsSingle t = (t.timeouts ≡ []) ⊎ ((id : ℕ) × ((t.flush_timer ≡ some id) × (t.timeouts ≡ id ∷ [])))

cleared-nil : (o : Option ℕ) → cleared o [] ≡ []
unfolding cleared
cleared-nil none = refl
cleared-nil (some id) = refl

cleared-one : (id : ℕ) → cleared (some id) (id ∷ []) ≡ []
unfolding cleared
cleared-one id = rw (==_refl id) refl

pub cleared-IsSingle : (t : Timers) → IsSingle t → cleared t.flush_timer t.timeouts ≡ []
cleared-IsSingle t (inl e) = rw e (cleared-nil t.flush_timer)
cleared-IsSingle t (inr (id, (e, h))) = rw (e, h) (cleared-one id)

-- A timer that is set anew is the only one.
pub rearm-single : (t : Timers) → IsSingle t → (rearm t).timeouts ≡ t.next_id ∷ []
unfolding rearm
rearm-single t k = ap (λ ts. ts ++ t.next_id ∷ []) (cleared-IsSingle t k)

pub rearm-IsSingle : (t : Timers) → IsSingle t → IsSingle (rearm t)
unfolding rearm
rearm-IsSingle t k = inr (t.next_id, (refl, rearm-single t k))

pub cancel-IsSingle : (t : Timers) → IsSingle t → IsSingle (cancel t)
unfolding cancel
cancel-IsSingle t k = inl (cleared-IsSingle t k)

pub drop_timer-IsSingle : (t : Timers) → IsSingle t → IsSingle (drop_timer t)
unfolding drop_timer
drop_timer-IsSingle t k = inl (cleared-IsSingle t k)

pub expired-IsSingle : (t : Timers) → IsSingle t → IsSingle (expired t)
unfolding expired
expired-IsSingle t (inl e) = inl (rw e refl)
expired-IsSingle t (inr (id, (e, h))) = inl (rw h refl)
