-- ===== src/Overlay/Overrides/Refresh.antt =====
-- What the draft of the overrides tab holds (web/src/features/overlay/controls/OverridesTab.tsx): after
-- an edit, and where an answer of the server crosses one.
use court_command.Prelude.{
  ℕ, ◌≡◌, refl, true, false, Option, none, some, [], ◌∷◌, ◌++◌, arith, if◌then◌else◌, ==_refl,
}
use court_command.Overlay.Contract.{OverrideKey, key_eq, key_eq_iff}
use court_command.Overlay.Overrides.{
  Value, DataOverrides, put, delete, get, edited, update, clear, Tab, edit, config, fired,
  close_confirm, confirm_clear, clear_succeeded, step, run, set_override, flush, handle_clear_all,
  refresh,
}

get-put :
    (k key : OverrideKey) (value : Value) (d : DataOverrides)
    → get k (put key value d) ≡ (if key_eq key k then some value else get k d)
unfolding get put
get-put k key value [] = refl
get-put k key value ((j, v) ∷ d) =
    ground (arith, get-put k key value d, key_eq_iff j key, key_eq_iff j k, key_eq_iff key k)

get-delete :
    (k key : OverrideKey) (d : DataOverrides)
    → get k (delete key d) ≡ (if key_eq key k then none else get k d)
unfolding get
get-delete k key [] = ground arith
get-delete k key ((j, v) ∷ d) =
    ground (arith, get-delete k key d, key_eq_iff j key, key_eq_iff j k, key_eq_iff key k)

-- An edit gives its key the value typed, or takes its override away, and leaves the overrides of
-- all other keys.
pub edit_get :
    (t : Tab) (key k : OverrideKey) (value : Option Value)
    → t.mounted ≡ true
    → get k (step t (edit key value)).draft ≡ (if key_eq key k then value else get k t.draft)
unfolding step set_override
edit_get t key k none e = rw e (get-delete k key t.draft)
edit_get t key k (some v) e = rw e (get-put k key v t.draft)

-- A config that comes in between the request of a commit and its answer, and does not hold it yet,
-- takes the edits out of the draft.
pub in_flight_lost :
    (t : Tab) (id : ℕ) (d server : DataOverrides)
    → t.mounted ≡ true
    → t.pending ≡ some d
    → t.timeouts ≡ id ∷ []
    → let u = step (step t (fired id)) (config (some server)) in
      (u.sent ≡ t.sent ++ update d ∷ []) × (u.draft ≡ server)
unfolding step flush refresh
in_flight_lost t id d server e w only = rw only (rw (==_refl id) (rw w (rw e (refl, refl))))

-- An edit after the overrides are cleared and before the answer, the dialog closed meanwhile, sends
-- all the cleared overrides again, while the draft shown is empty.
pub clear_undone :
    (t : Tab) (key : OverrideKey) (value : Option Value)
    → t.mounted ≡ true
    → t.confirm_clear_open ≡ true
    → t.clear_pending ≡ false
    → let u =
        run t (
          confirm_clear
          ∷ close_confirm
          ∷ edit key value
          ∷ clear_succeeded
          ∷ fired t.next_id
          ∷ []) in
      (u.sent ≡ (t.sent ++ clear ∷ []) ++ update (edited key value t.draft) ∷ []) × (u.draft ≡ [])
unfolding run step set_override flush handle_clear_all
clear_undone t key value e o p = rw e (rw o (rw p (rw (==_refl t.next_id) (refl, refl))))
