-- ===== src/Prelude/Text.antt =====
-- Texts by their code points: emptiness, blanks as String.prototype.trim sees them, and `<`.
use Prim.Native.Nat.{ℕ}
use Prim.Native.String.{String}
use Prim.Native.Char.{Char, code}
use mathlib.Core.Bool.{Bool, true, false, ◌&&◌, ◌||◌}
use mathlib.Core.List.{List, [], ◌∷◌}
use mathlib.Core.Path.{◌≡◌, refl, ap, ◌∙◌}
use mathlib.Core.Logic.{inl, inr}
use mathlib.Core.Option.{Option, none, some}
use native.Mathlib.Omega.{arith}
use text.Mathlib.TextEquality.{eq_iff}
use text.Mathlib.Text.{◌==◌ as str_eq}
use court_command.Prelude.Tests.{Bool-cases, ltb, leb, ◌==◌, if◌then◌else◌}

abbrev pub codes : String → List ℕ
codes String.[] = []
codes (String.◌∷◌ c s) = code c ∷ codes s

-- `!text` on a text.
abbrev pub is_empty : String → Bool
is_empty String.[] = true
is_empty (String.◌∷◌ c s) = false

-- White space and line terminators.
unfoldable pub is_space : ℕ → Bool
is_space c =
    (leb 9 c && leb c 13)
    || (c == 32
        || (c == 160
            || (c == 5760
                || ((leb 8192 c && leb c 8202)
                    || (c == 8232
                        || (c == 8233
                            || (c == 8239 || (c == 8287 || (c == 12288 || c == 65279)))))))))

-- `!text.trim()`.
unfoldable pub is_blank : String → Bool
unfolding is_space
is_blank String.[] = true
is_blank (String.◌∷◌ c s) = let rest = is_blank s in is_space (code c) && rest

-- `text.trim()`.
abbrev pub trim_start : String → String
trim_start String.[] = String.[]
trim_start (String.◌∷◌ c s) =
    let rest = trim_start s in if is_space (code c) then rest else String.◌∷◌ c s

abbrev pub kept : Bool → String → String → String
kept true String.[] s = String.[]
kept true (String.◌∷◌ d r) s = s
kept false r s = s

abbrev pub trim_end : String → String
trim_end String.[] = String.[]
trim_end (String.◌∷◌ c s) =
    let rest = trim_end s in kept (is_space (code c)) rest (String.◌∷◌ c rest)

abbrev pub trim : String → String
trim s = trim_end (trim_start s)

-- `a < b` on the code points; the texts compared have none above 65535.
unfoldable pub codes_lt : List ℕ → List ℕ → Bool
codes_lt xs [] = false
codes_lt [] (y ∷ ys) = true
codes_lt (x ∷ xs) (y ∷ ys) =
    let rest = codes_lt xs ys in if ltb x y then true else if x == y then rest else false

-- `text.trim() || null`, and `value ?? ''`.
abbrev pub or_null : String → Option String
or_null text = if is_empty text then none else some text

abbrev pub or_empty : Option String → String
or_empty none = ""
or_empty (some text) = text

-- `a === b`.
abbrev pub same_text : String → String → Bool
same_text a b = str_eq a b

pub same_text→eq : (a b : String) → same_text a b ≡ true → a ≡ b
same_text→eq a b h = ground (arith, eq_iff a b)

pub same_text_refl : (a : String) → same_text a a ≡ true
same_text_refl a = ground (arith, eq_iff a a)

trim_end-kept :
    (b : Bool) (c : Char) (r : String)
    → is_space (code c) ≡ b
    → trim_end r ≡ r
    → trim_end (kept b r (String.◌∷◌ c r)) ≡ kept b r (String.◌∷◌ c r)
trim_end-kept true c String.[] e h = refl
trim_end-kept true c (String.◌∷◌ d r) e h = rw (e, h) refl
trim_end-kept false c r e h = rw (e, h) refl

trim_end-idempotent : (s : String) → trim_end (trim_end s) ≡ trim_end s
trim_end-idempotent String.[] = refl
trim_end-idempotent (String.◌∷◌ c s) =
    trim_end-kept (is_space (code c)) c (trim_end s) refl (trim_end-idempotent s)

-- The front that was trimmed stays so when the end is.
trim_start-trim : (s : String) → trim_start (trim s) ≡ trim s
trim_start-trim String.[] = refl
trim_start-trim (String.◌∷◌ c s) = elim (Bool-cases (is_space (code c))) [
  | inl e ↦ rw e (trim_start-trim s)
  | inr e ↦ rw e (rw e (rw e refl))
]

pub trim-idempotent : (s : String) → trim (trim s) ≡ trim s
trim-idempotent s = ap trim_end (trim_start-trim s) ∙ trim_end-idempotent (trim_start s)
