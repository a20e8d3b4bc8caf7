-- ===== src/Overlay/Overrides/Commit.antt =====
-- The delayed commit of the overrides tab (web/src/features/overlay/controls/OverridesTab.tsx).
use court_command.Prelude.{
  ℕ, ◌≡◌, refl, sym, ap, ◌∙◌, subst, inl, inr, Bool, true, false, not, ◌&&◌, false≢true, Option,
  none, some, List, [], ◌∷◌, arith, ◌==◌, if◌then◌else◌, ==_refl, Bool-cases, Option-cases, if_both,
  filter,
}
use court_command.Overlay.Contract.{OverrideKey}
use court_command.Overlay.Overrides.{
  Value, DataOverrides, edited, Tab, Event, edit, config, fired, open_confirm, close_confirm,
  confirm_clear, update_failed, clear_succeeded, clear_failed, unmount, step, run, mount,
  set_override, flush, handle_clear_all, refresh, clear_flush, holds,
}

-- A commit waits exactly while one timeout runs, the one whose handle the tab keeps.
abbrev pub Coupled : Option DataOverrides → Option ℕ → List ℕ → Type 0
Coupled none none ts = ts ≡ []
Coupled (some d) (some id) ts = ts ≡ id ∷ []
Coupled _ _ ts = ⊥

abbrev pub WaitsIf : Bool → Option DataOverrides → Option ℕ → List ℕ → Type 0
WaitsIf true d f ts = Coupled d f ts
WaitsIf false d f ts = ts ≡ []

-- After the unmount no timeout runs.
abbrev pub Waits : Tab → Type 0
Waits t = WaitsIf t.mounted t.pending t.flush_timer t.timeouts

pub clear-Coupled :
    (d : Option DataOverrides) (f : Option ℕ) (ts : List ℕ) → Coupled d f ts → clear_flush f ts ≡ []
clear-Coupled none none ts c = c
clear-Coupled (some d) (some id) ts c = rw c (rw (==_refl id) refl)
clear-Coupled none (some id) ts c = absurd c
clear-Coupled (some d) none ts c = absurd c

-- An event that does nothing after the unmount, and keeps the invariant before.
if_mounted :
    (t u : Tab) → (t.mounted ≡ true → Waits u) → Waits t → Waits (if t.mounted then u else t)
if_mounted t u f h = elim (Bool-cases t.mounted) [
  | inl e ↦ subst (λ b. Waits (if b then u else t)) (sym e) (f e)
  | inr e ↦ subst (λ b. Waits (if b then u else t)) (sym e) h
]

pub Coupled-of : (t : Tab) → t.mounted ≡ true → Waits t → Coupled t.pending t.flush_timer t.timeouts
Coupled-of t e h = subst (λ b. WaitsIf b t.pending t.flush_timer t.timeouts) e h

edit-Waits :
    (t : Tab) (key : OverrideKey) (value : Option Value)
    → t.mounted ≡ true
    → Waits t
    → Waits (set_override key value t)
unfolding set_override
edit-Waits t key value e h =
    subst
      (λ b.
        WaitsIf b (some (edited key value t.draft)) (some t.next_id)
          (t.next_id ∷ clear_flush t.flush_timer t.timeouts))
      (sym e)
      (ap (λ ts. t.next_id ∷ ts)
        (clear-Coupled t.pending t.flush_timer t.timeouts (Coupled-of t e h)))

clear_all-Waits : (t : Tab) → t.mounted ≡ true → Waits t → Waits (handle_clear_all t)
unfolding handle_clear_all
clear_all-Waits t e h =
    subst (λ b. WaitsIf b none none (clear_flush t.flush_timer t.timeouts)) (sym e)
      (clear-Coupled t.pending t.flush_timer t.timeouts (Coupled-of t e h))

pub unmount-Waits :
    (t : Tab) → t.mounted ≡ true → Waits t → clear_flush t.flush_timer t.timeouts ≡ []
unmount-Waits t e h = clear-Coupled t.pending t.flush_timer t.timeouts (Coupled-of t e h)

-- The only timeout that may fire is the one that the tab waits for.
fired-Coupled :
    (d : Option DataOverrides) (f : Option ℕ) (ts : List ℕ) (id : ℕ)
    → Coupled d f ts
    → holds id ts ≡ true
    → filter (λ i. not (i == id)) ts ≡ []
fired-Coupled none none ts id c h = absurd (false≢true (rw c at h))
fired-Coupled (some d) (some i) ts id c h = rw c (ground (arith, rw c at h))
fired-Coupled none (some i) ts id c h = absurd c
fired-Coupled (some d) none ts id c h = absurd c

flush-Waits :
    (t : Tab) (ts : List ℕ)
    → t.mounted ≡ true
    → ts ≡ []
    → Waits (flush (record t { timeouts = ts }))
unfolding flush
flush-Waits t ts e n = elim (Option-cases t.pending) [
  | inl p ↦ rw p (rw e n)
  | inr (d, p) ↦ rw p (rw e n)
]

refresh-Waits :
    (t : Tab) (server : Option DataOverrides)
    → t.mounted ≡ true
    → Waits t
    → Waits (refresh server t)
unfolding refresh
refresh-Waits t none e h = h
refresh-Waits t (some server) e h = by_pending t.pending
  where
    by_pending :
        (d : Option DataOverrides)
        → Waits (elim d [ none ↦ record t { draft = server } | some waiting ↦ t ])
    by_pending none = h
    by_pending (some waiting) = h

-- The timeouts but the one with the id.
abbrev pub others : ℕ → List ℕ → List ℕ
others id = filter (λ i. not (i == id))

fired-Waits : (t : Tab) (id : ℕ) → Waits t → Waits (step t (fired id))
unfolding step
fired-Waits t id h = elim (Bool-cases (holds id t.timeouts)) [
  | inl there ↦
      subst (λ b. Waits (if b then flush (record t { timeouts = others id t.timeouts }) else t))
        (sym there)
        (elim (Bool-cases t.mounted) [
          | inl e ↦
              flush-Waits t (others id t.timeouts) e
                (fired-Coupled t.pending t.flush_timer t.timeouts id (Coupled-of t e h) there)
          | inr e ↦ absurd (
              false≢true (
                ap (holds id) (sym (subst (λ b. WaitsIf b t.pending t.flush_timer t.timeouts) e h))
                ∙ there))
        ])
  | inr gone ↦
      subst (λ b. Waits (if b then flush (record t { timeouts = others id t.timeouts }) else t))
        (sym gone) h
]

pub step-Waits : (t : Tab) (e : Event) → Waits t → Waits (step t e)
unfolding step
step-Waits t (edit key value) h =
    if_mounted t (set_override key value t) (λ e. edit-Waits t key value e h) h
step-Waits t (config server) h = if_mounted t (refresh server t) (λ e. refresh-Waits t server e h) h
step-Waits t (fired id) h = fired-Waits t id h
step-Waits t open_confirm h = if_both {A = Tab} Waits _ h h
step-Waits t close_confirm h = if_mounted t _ (λ e. h) h
step-Waits t confirm_clear h = elim (Bool-cases t.mounted) [
  | inl e ↦ if_both {A = Tab} Waits _ (clear_all-Waits t e h) h
  | inr e ↦
      subst
        (λ b.
          Waits
            (if b && (t.confirm_clear_open && not t.clear_pending) then handle_clear_all t else t))
        (sym e) h
]
step-Waits t (update_failed m) h = if_mounted t _ (λ e. h) h
step-Waits t clear_succeeded h = if_mounted t _ (λ e. h) h
step-Waits t (clear_failed m) h = if_mounted t _ (λ e. h) h
step-Waits t unmount h = if_mounted t _ (λ e. unmount-Waits t e h) h

run-Waits : (t : Tab) (es : List Event) → Waits t → Waits (run t es)
unfolding run
run-Waits t [] h = h
run-Waits t (e ∷ es) h = run-Waits (step t e) es (step-Waits t e h)

-- Whatever happens from the first render on: while the tab is mounted, exactly one timeout runs if
-- a commit waits, the one that the tab would cancel, and none if no commit waits; after the unmount
-- none runs.
pub run-Waits_from_mount :
    (server : Option DataOverrides) (es : List Event) → Waits (run (mount server) es)
unfolding mount
run-Waits_from_mount server es = run-Waits (mount server) es refl
