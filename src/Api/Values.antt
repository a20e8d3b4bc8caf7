-- ===== src/Api/Values.antt =====
-- The values of JSON as the client reads them (web/src/lib/api.ts): truthiness and fields.
use Prim.Native.String.{String}
use court_command.Prelude.{
  ℕ, Bool, true, false, not, ◌&&◌, Option, none, some, List, [], ◌∷◌, ◌==◌, if◌then◌else◌,
}
use court_command.Prelude.Text.{is_empty, codes}

mutual
  pub data Json : Type 0 where
    null : Json
    boolean : Bool → Json
    number : ℕ → Json
    text : String → Json
    array : JsonArray → Json
    object : JsonObject → Json

  pub data JsonArray : Type 0 where
    nil : JsonArray
    cons : Json → JsonArray → JsonArray

  pub data JsonObject : Type 0 where
    end : JsonObject
    entry : String → Json → JsonObject → JsonObject

abbrev pub Value : Type 0
Value = Option Json

abbrev pub is_truthy : Value → Bool
is_truthy none = false
is_truthy (some null) = false
is_truthy (some (boolean b)) = b
is_truthy (some (number n)) = not (n == 0)
is_truthy (some (text s)) = not (is_empty s)
is_truthy (some (array xs)) = true
is_truthy (some (object fields)) = true

abbrev pub same_codes : List ℕ → List ℕ → Bool
same_codes [] [] = true
same_codes (x ∷ xs) (y ∷ ys) = x == y && same_codes xs ys
same_codes _ _ = false

unfoldable pub lookup : String → JsonObject → Value
lookup key end = none
lookup key (entry k v fields) =
    let rest = lookup key fields in if same_codes (codes k) (codes key) then some v else rest

-- `value.key`: none where reading a field throws, which null and undefined do.
unfoldable pub field : String → Value → Option Value
unfolding lookup
field key none = none
field key (some null) = none
field key (some (object fields)) = some (lookup key fields)
field key _ = some none
