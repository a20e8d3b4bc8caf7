-- ===== src/Overlay/Elements/Edits.antt =====
-- What the elements tab sends (web/src/features/overlay/controls/ElementsTab.tsx).
use Prim.Native.String.{String}
use court_command.Prelude.{and_left, and_right}
use court_command.Prelude.{
  ℕ, ◌≡◌, refl, ap, ◌∙◌, subst, inl, Bool, true, false, false≢true, Option, none, some, List, [],
  ◌∷◌, ◌++◌, if_both, all,
}
use court_command.Prelude.Maps.{TextMap}
use court_command.Overlay.Debounce.{
  Timers, no_timers, rearm, drop_timer, expired, IsSingle, rearm-single, rearm-IsSingle,
  expired-IsSingle, cleared-IsSingle,
}
use court_command.Overlay.Elements.{
  ElementsConfig, patched, Tab, Event, edited, config_came, fired, unmounted, start, commit,
  patch_draft, flush, fire, hydrate, step, run,
}

module _ {V : Type 0} where
  -- The draft alone: the configs that come in replace it, and the edits patch it.
  unfoldable pub draft_after :
      List (Event V) → Option (ElementsConfig V) → Option (ElementsConfig V)
  draft_after [] draft = draft
  draft_after (edited key patch ∷ es) none = draft_after es none
  draft_after (edited key patch ∷ es) (some d) = draft_after es (some (patched key patch d))
  draft_after (config_came none ∷ es) draft = draft_after es draft
  draft_after (config_came (some elements) ∷ es) draft = draft_after es (some elements)
  draft_after (fired ∷ es) draft = draft_after es draft
  draft_after (unmounted ∷ es) draft = draft_after es draft

  -- Edits and configs, in less time than the delay.
  abbrev pub is_quiet : Event V → Bool
  is_quiet (edited key patch) = true
  is_quiet (config_came elements) = true
  is_quiet fired = false
  is_quiet unmounted = false

  abbrev pub stays_mounted : Event V → Bool
  stays_mounted unmounted = false
  stays_mounted _ = true

  abbrev IsOpen : Tab V → Type 0
  IsOpen t = (t.mounted ≡ true) × IsSingle t.timers

  patch_draft-IsOpen :
      (o : Option (ElementsConfig V)) (key : String) (patch : TextMap V) (t : Tab V)
      → IsOpen t
      → IsOpen (patch_draft o key patch t)
  unfolding patch_draft commit
  patch_draft-IsOpen none key patch t k = k
  patch_draft-IsOpen (some d) key patch t k = (k.0, rearm-IsSingle t.timers k.1)

  flush-IsOpen : (o : Option (ElementsConfig V)) (t : Tab V) → IsOpen t → IsOpen (flush o t)
  unfolding flush
  flush-IsOpen none t k = k
  flush-IsOpen (some p) t k = k

  fire-IsOpen : (ids : List ℕ) (t : Tab V) → IsOpen t → IsOpen (fire ids t)
  unfolding fire
  fire-IsOpen [] t k = k
  fire-IsOpen (id ∷ ids) t k =
      flush-IsOpen t.pending (record t { timers = expired t.timers })
        (k.0, expired-IsSingle t.timers k.1)

  hydrate-IsOpen : (o : Option (ElementsConfig V)) (t : Tab V) → IsOpen t → IsOpen (hydrate o t)
  unfolding hydrate
  hydrate-IsOpen none t k = k
  hydrate-IsOpen (some d) t k = k

  step-IsOpen : (e : Event V) (t : Tab V) → stays_mounted e ≡ true → IsOpen t → IsOpen (step e t)
  unfolding step
  step-IsOpen (edited key patch) t h k =
      if_both {A = Tab V} IsOpen t.mounted (patch_draft-IsOpen t.draft key patch t k) k
  step-IsOpen (config_came o) t h k = if_both {A = Tab V} IsOpen t.mounted (hydrate-IsOpen o t k) k
  step-IsOpen fired t h k = fire-IsOpen t.timers.timeouts t k
  step-IsOpen unmounted t h k = absurd (false≢true h)

  run-IsOpen :
      (es : List (Event V)) (t : Tab V) → all stays_mounted es ≡ true → IsOpen t → IsOpen (run es t)
  unfolding run
  run-IsOpen [] t h k = k
  run-IsOpen (e ∷ es) t h k =
      run-IsOpen es (step e t) (and_right (stays_mounted e) (all stays_mounted es) h)
        (step-IsOpen e t (and_left (stays_mounted e) (all stays_mounted es) h) k)

  run-append : (es fs : List (Event V)) (t : Tab V) → run (es ++ fs) t ≡ run fs (run es t)
  unfolding run
  run-append [] fs t = refl
  run-append (e ∷ es) fs t = run-append es fs (step e t)

  abbrev state :
      Option (ElementsConfig V)
      → Option (ElementsConfig V)
      → Timers
      → Bool
      → List (ElementsConfig V)
      → Tab V
  state draft pending timers mounted sent = record {
    draft = draft;
    pending = pending;
    timers = timers;
    mounted = mounted;
    sent = sent;
  }

  -- What quiet events leave: an open tab with the draft of draft_after, that has sent no more.
  abbrev Left : Option (ElementsConfig V) → List (ElementsConfig V) → Tab V → Type 0
  Left draft sent t =
      (p : Option (ElementsConfig V)) × ((s : Timers) × ((t ≡ state draft p s true sent)
          × IsSingle s))

  run-Left :
      (es : List (Event V)) (t : Tab V) (draft : Option (ElementsConfig V))
      (sent : List (ElementsConfig V))
      → all is_quiet es ≡ true
      → Left draft sent t
      → Left (draft_after es draft) sent (run es t)
  unfolding run step draft_after patch_draft commit hydrate
  run-Left [] t draft sent h k = k
  run-Left (edited key patch ∷ es) t none sent h (p, (s, (e, i))) =
      rw e (run-Left es (state none p s true sent) none sent h (p, (s, (refl, i))))
  run-Left (edited key patch ∷ es) t (some d) sent h (p, (s, (e, i))) =
      let next = patched key patch d in
      rw e (
        run-Left es (state (some next) (some next) (rearm s) true sent) (some next) sent h
          (some next, (rearm s, (refl, rearm-IsSingle s i))))
  run-Left (config_came none ∷ es) t draft sent h (p, (s, (e, i))) =
      rw e (run-Left es (state draft p s true sent) draft sent h (p, (s, (refl, i))))
  run-Left (config_came (some elements) ∷ es) t draft sent h (p, (s, (e, i))) =
      rw e (
        run-Left es (state (some elements) p s true sent) (some elements) sent h
          (p, (s, (refl, i))))
  run-Left (fired ∷ es) t draft sent h k = absurd (false≢true h)
  run-Left (unmounted ∷ es) t draft sent h k = absurd (false≢true h)

  -- An edit, and the timer that it set.
  edit-sent :
      (t : Tab V) (draft : ElementsConfig V) (sent : List (ElementsConfig V)) (key : String)
      (patch : TextMap V)
      → Left (some draft) sent t
      → (run (edited key patch ∷ fired ∷ []) t).sent ≡ sent ++ patched key patch draft ∷ []
  unfolding run step patch_draft commit fire flush
  edit-sent t draft sent key patch (p, (s, (e, i))) = rw e (rw (rearm-single s i) refl)

  -- After anything but an unmount, let edits be made and configs come in, each before the timer of
  -- the edit before it has run out, and then a last edit, whose timer runs. One request is sent for
  -- all of them, with the last config that came in and the edits after it, each of which patched the
  -- settings of its element.
  pub elements_sent :
      (before es : List (Event V)) (key : String) (patch : TextMap V) (draft : ElementsConfig V)
      → all stays_mounted before ≡ true
      → all is_quiet es ≡ true
      → draft_after es (run before start).draft ≡ some draft
      → (run (es ++ edited key patch ∷ fired ∷ []) (run before start)).sent
        ≡ (run before start).sent ++ patched key patch draft ∷ []
  unfolding start no_timers
  elements_sent before es key patch draft h q d =
      let t : Tab V = run before start in
      let (m, i) = run-IsOpen before start h (refl, inl refl) in
      let left =
        run-Left es t t.draft t.sent q
          (t.pending, (t.timers, (ap (λ b. state t.draft t.pending t.timers b t.sent) m, i))) in
      ap Tab.sent (run-append es (edited key patch ∷ fired ∷ []) t)
      ∙ edit-sent (run es t) draft t.sent key patch (subst (λ o. Left o t.sent (run es t)) d left)

  -- What is unmounted with no timer sends nothing.
  abbrev IsShut : List (ElementsConfig V) → Tab V → Type 0
  IsShut sent t =
      (d : Option (ElementsConfig V)) × ((p : Option (ElementsConfig V)) × ((s : Timers) × ((t
              ≡ state d p s false sent)
            × (s.timeouts ≡ []))))

  fire-none : (ids : List ℕ) (t : Tab V) → ids ≡ [] → fire ids t ≡ t
  unfolding fire
  fire-none ids t e = rw e refl

  step-IsShut :
      (e : Event V) (sent : List (ElementsConfig V)) (t : Tab V)
      → IsShut sent t
      → IsShut sent (step e t)
  unfolding step drop_timer
  step-IsShut (edited key patch) sent t (d, (p, (s, (e, i)))) = rw e (d, (p, (s, (refl, i))))
  step-IsShut (config_came o) sent t (d, (p, (s, (e, i)))) = rw e (d, (p, (s, (refl, i))))
  step-IsShut fired sent t (d, (p, (s, (e, i)))) =
      rw e (d, (p, (s, (fire-none s.timeouts (state d p s false sent) i, i))))
  step-IsShut unmounted sent t (d, (p, (s, (e, i)))) =
      rw e (d, (p, (drop_timer s, (refl, cleared-IsSingle s (inl i)))))

  run-IsShut :
      (es : List (Event V)) (sent : List (ElementsConfig V)) (t : Tab V)
      → IsShut sent t
      → IsShut sent (run es t)
  unfolding run
  run-IsShut [] sent t k = k
  run-IsShut (e ∷ es) sent t k = run-IsShut es sent (step e t) (step-IsShut e sent t k)

  -- Once the tab is unmounted it sends nothing, not even the edits whose timer had not run out.
  pub unmount_sends_nothing :
      (before after : List (Event V))
      → all stays_mounted before ≡ true
      → (run (unmounted ∷ after) (run before start)).sent ≡ (run before start).sent
  unfolding run step start no_timers drop_timer
  unmount_sends_nothing before after h =
      let t : Tab V = run before start in
      let opened = run-IsOpen before start h (refl, inl refl) in
      let shut : IsShut t.sent (step unmounted t) =
        (t.draft, (t.pending, (drop_timer t.timers, (refl, cleared-IsSingle t.timers opened.1)))) in
      let (d, (p, (s, (e, i)))) = run-IsShut after t.sent (step unmounted t) shut in ap Tab.sent e
