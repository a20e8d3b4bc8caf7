-- ===== src/Overlay/Sources/Mapper.antt =====
-- The mapping of the overlay's fields to paths of the source: FieldMapper of
-- web/src/features/overlay/profiles/SourceProfileEditor.tsx.
use Prim.Native.String.{String}
use court_command.Prelude.{
  ◌≡◌, refl, sym, ap, ◌∙◌, inl, inr, Bool, true, false, not, ◌&&◌, Option, none, some, List, [],
  ◌∷◌, if◌then◌else◌, Bool-cases, any,
}
use court_command.Prelude.Text.{is_empty, or_empty, same_text, same_text→eq}
use court_command.Prelude.Maps.{
  TextMap, set_key, delete_key, get_key, get-set, get-set_other, get-delete, get-delete_other,
}

-- `mapping[f.key] ?? ''`.
unfoldable pub value_at : String → TextMap String → String
unfolding get_key
value_at key mapping = or_empty (get_key key mapping)

-- Whether a value is in the list of paths, or typed by hand; and which of the two inputs is drawn.
unfoldable pub is_custom : List String → String → Bool
is_custom paths value = not (is_empty value) && not (any (same_text value) paths)

unfoldable pub shows_select : List String → String → Bool
unfolding is_custom
shows_select [] value = false
shows_select (p ∷ ps) value = not (is_custom (p ∷ ps) value)

-- `if (v) next[key] = v; else delete next[key]`.
unfoldable pub map_text : String → String → TextMap String → TextMap String
unfolding set_key delete_key
map_text key text mapping =
    if is_empty text then delete_key key mapping else set_key key text mapping

-- `value || ' '`.
unfoldable pub or_blank : String → String
or_blank text = if is_empty text then " " else text

-- An option of the select, where the empty text is "Not mapped"; its last option; a text typed.
pub data MapperEdit : Type 0 where
  picked : (key path : String) → MapperEdit
  custom_picked : (key : String) → MapperEdit
  typed : (key text : String) → MapperEdit

unfoldable pub map_edit : MapperEdit → TextMap String → TextMap String
unfolding map_text or_blank value_at
map_edit (picked key path) mapping = map_text key path mapping
map_edit (custom_picked key) mapping = set_key key (or_blank (value_at key mapping)) mapping
map_edit (typed key text) mapping = map_text key text mapping

unfoldable pub map_edits : List MapperEdit → TextMap String → TextMap String
unfolding map_edit
map_edits [] mapping = mapping
map_edits (e ∷ es) mapping = map_edits es (map_edit e mapping)

-- One field alone: what an edit of it makes of its value, none if it is not mapped.
abbrev pub text_or_none : String → Option String
text_or_none text = if is_empty text then none else some text

abbrev pub field_edit : MapperEdit → Option String → Option String
unfolding or_blank
field_edit (picked key path) value = text_or_none path
field_edit (custom_picked key) value = some (or_blank (or_empty value))
field_edit (typed key text) value = text_or_none text

abbrev pub edited_key : MapperEdit → String
edited_key (picked key path) = key
edited_key (custom_picked key) = key
edited_key (typed key text) = key

pub field_edits : String → List MapperEdit → Option String → Option String
field_edits key [] value = value
field_edits key (e ∷ es) value =
    field_edits key es (if same_text (edited_key e) key then field_edit e value else value)

get-map_text :
    (key text : String) (m : TextMap String) → get_key key (map_text key text m) ≡ text_or_none text
unfolding map_text
get-map_text key text m = elim (Bool-cases (is_empty text)) [
  | inl e ↦ rw e (get-delete key m)
  | inr e ↦ rw e (get-set key text m)
]

get-map_text_other :
    (key other text : String) (m : TextMap String)
    → same_text key other ≡ false
    → get_key other (map_text key text m) ≡ get_key other m
unfolding map_text
get-map_text_other key other text m h = elim (Bool-cases (is_empty text)) [
  | inl e ↦ rw e (get-delete_other key other m h)
  | inr e ↦ rw e (get-set_other key other text m h)
]

get-map_edit :
    (e : MapperEdit) (m : TextMap String)
    → get_key (edited_key e) (map_edit e m) ≡ field_edit e (get_key (edited_key e) m)
unfolding map_edit value_at
get-map_edit (picked key path) m = get-map_text key path m
get-map_edit (custom_picked key) m = get-set key (or_blank (value_at key m)) m
get-map_edit (typed key text) m = get-map_text key text m

get-map_edit_other :
    (e : MapperEdit) (key : String) (m : TextMap String)
    → same_text (edited_key e) key ≡ false
    → get_key key (map_edit e m) ≡ get_key key m
unfolding map_edit
get-map_edit_other (picked k path) key m h = get-map_text_other k key path m h
get-map_edit_other (custom_picked k) key m h = get-set_other k key (or_blank (value_at k m)) m h
get-map_edit_other (typed k text) key m h = get-map_text_other k key text m h

get-step :
    (e : MapperEdit) (key : String) (m : TextMap String)
    → get_key key (map_edit e m)
      ≡ (if same_text (edited_key e) key then field_edit e (get_key key m) else get_key key m)
get-step e key m = elim (Bool-cases (same_text (edited_key e) key)) [
  | inl h ↦ rw (h, sym (same_text→eq (edited_key e) key h)) (get-map_edit e m)
  | inr h ↦ rw h (get-map_edit_other e key m h)
]

-- The mapping after any edits holds for each field what the edits of that field alone have made of
-- its value: the last text or path it was given, nothing if that was empty, and its value or else one
-- blank when "Custom" is picked. No edit of another field counts.
pub edits_by_field :
    (es : List MapperEdit) (key : String) (m : TextMap String)
    → get_key key (map_edits es m) ≡ field_edits key es (get_key key m)
unfolding map_edits field_edits
edits_by_field [] key m = refl
edits_by_field (e ∷ es) key m =
    edits_by_field es key (map_edit e m) ∙ ap (field_edits key es) (get-step e key m)

or_blank-given : (text : String) → is_empty text ≡ false → or_blank text ≡ text
unfolding or_blank
or_blank-given text h = rw h refl

-- A path that is among those offered stays what it is when "Custom" is picked, and the select stays
-- drawn: there is no way from it to a text of one's own.
pub custom_ignored :
    (paths : List String) (key : String) (m : TextMap String)
    → shows_select paths (value_at key m) ≡ true
    → is_empty (value_at key m) ≡ false
    → shows_select paths (value_at key (map_edit (custom_picked key) m)) ≡ true
unfolding map_edit value_at or_blank
custom_ignored paths key m h k =
    rw (get-set key (or_blank (value_at key m)) m, or_blank-given (value_at key m) k) h
