-- ===== src/Overlay/Overrides/Burst.antt =====
-- Bursts of edits and the unmount of the overrides tab
-- (web/src/features/overlay/controls/OverridesTab.tsx).
use court_command.Prelude.{
  ℕ, ◌≡◌, refl, sym, ap, subst, true, false, Option, some, List, [], ◌∷◌, ◌++◌, if◌then◌else◌,
  ==_refl,
}
use court_command.Overlay.Contract.{OverrideKey}
use court_command.Overlay.Overrides.{
  Value, DataOverrides, Request, edited, update, Tab, Event, edit, fired, unmount, step, run,
  set_override, flush, clear_flush, holds,
}
use court_command.Overlay.Overrides.Commit.{
  Waits, clear-Coupled, Coupled-of, unmount-Waits, others, step-Waits,
}

-- The edits of a burst, and what they make of a draft.
abbrev pub edits : List (OverrideKey × Option Value) → List Event
edits [] = []
edits ((key, value) ∷ kvs) = edit key value ∷ edits kvs

abbrev pub edited_by : List (OverrideKey × Option Value) → DataOverrides → DataOverrides
edited_by [] d = d
edited_by ((key, value) ∷ kvs) d = edited_by kvs (edited key value d)

-- What a burst of edits leaves: nothing sent, and one timeout for the last draft.
pub record Armed (before : List Request) (d : DataOverrides) (t : Tab) : Type 0 where
  pub mounted : t.mounted ≡ true
  pub draft : t.draft ≡ d
  pub waiting : t.pending ≡ some d
  pub timer : (id : ℕ) × (t.timeouts ≡ id ∷ [])
  pub unsent : t.sent ≡ before

edit-Armed :
    (t : Tab) (key : OverrideKey) (value : Option Value)
    → t.mounted ≡ true
    → Waits t
    → Armed t.sent (edited key value t.draft) (step t (edit key value))
unfolding step set_override
edit-Armed t key value e h = rw e record {
  mounted = refl;
  draft = refl;
  waiting = refl;
  timer = (
    t.next_id,
    ap (λ ts. t.next_id ∷ ts) (clear-Coupled t.pending t.flush_timer t.timeouts (Coupled-of t e h)),
  );
  unsent = refl;
}

edits-Armed :
    (t : Tab) (key : OverrideKey) (value : Option Value) (kvs : List (OverrideKey × Option Value))
    → t.mounted ≡ true
    → Waits t
    → Armed t.sent (edited_by kvs (edited key value t.draft)) (run t (edit key value ∷ edits kvs))
unfolding run
edits-Armed t key value [] e h = edit-Armed t key value e h
edits-Armed t key value ((k, v) ∷ kvs) e h =
    let first = edit-Armed t key value e h in
    let u = step t (edit key value) in
    subst (λ d. Armed t.sent (edited_by kvs (edited k v d)) (run u (edit k v ∷ edits kvs)))
      first.draft
      (subst (λ b. Armed b (edited_by kvs (edited k v u.draft)) (run u (edit k v ∷ edits kvs)))
        first.unsent (edits-Armed u k v kvs first.mounted (step-Waits t (edit key value) h)))

-- The timeout of an armed tab sends the draft, and nothing else is sent.
Armed-fired :
    (before : List Request) (d : DataOverrides) (t : Tab) (id : ℕ)
    → Armed before d t
    → t.timeouts ≡ id ∷ []
    → (step t (fired id)).sent ≡ before ++ update d ∷ []
unfolding step flush
Armed-fired before d t id a only =
    rw only (rw (==_refl id) (rw a.waiting (ap (λ s. s ++ update d ∷ []) a.unsent)))

-- A burst of edits of a mounted tab, without a pause that lets the timeout fire, shows all of them
-- and sends nothing; one timeout runs then, and when it fires, one request goes out, with the draft
-- that holds all the edits.
pub burst_commits_once :
    (t : Tab) (key : OverrideKey) (value : Option Value) (kvs : List (OverrideKey × Option Value))
    → t.mounted ≡ true
    → Waits t
    → let u = run t (edit key value ∷ edits kvs) in
      let d = edited_by kvs (edited key value t.draft) in
      (u.draft ≡ d)
      × (u.sent ≡ t.sent)
      × ((id : ℕ) × (u.timeouts ≡ id ∷ []) × ((step u (fired id)).sent ≡ t.sent ++ update d ∷ []))
burst_commits_once t key value kvs e h =
    let a = edits-Armed t key value kvs e h in
    (
      a.draft,
      a.unsent,
      (
        a.timer.0,
        a.timer.1,
        Armed-fired t.sent (edited_by kvs (edited key value t.draft))
            (run t (edit key value ∷ edits kvs)) (a.timer.0) a (a.timer.1),
      ),
    )

abbrev Dead : List Request → Tab → Type 0
Dead before t = (t.mounted ≡ false) × (t.timeouts ≡ []) × (t.sent ≡ before)

step-Dead : (before : List Request) (t : Tab) (e : Event) → Dead before t → Dead before (step t e)
unfolding step
step-Dead before t (fired id) d =
    subst
      (λ ts.
        Dead before
          (if holds id ts then flush (record t { timeouts = others id t.timeouts }) else t))
      (sym d.1) d
step-Dead before t e d = rw d.0 (refl, d.1, d.2)

run-Dead :
    (before : List Request) (t : Tab) (es : List Event) → Dead before t → Dead before (run t es)
unfolding run
run-Dead before t [] d = d
run-Dead before t (e ∷ es) d = run-Dead before (step t e) es (step-Dead before t e d)

-- An unmount of the tab drops the commit that waits: nothing is sent after it, whatever happens.
pub unmount_sends_nothing :
    (t : Tab) (es : List Event)
    → t.mounted ≡ true
    → Waits t
    → (run (step t unmount) es).sent ≡ t.sent
unfolding step
unmount_sends_nothing t es e h =
    rw e
      (run-Dead t.sent
        (record t { mounted = false; timeouts = clear_flush t.flush_timer t.timeouts }) es
        (refl, unmount-Waits t e h, refl)).2
