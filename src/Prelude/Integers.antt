-- ===== src/Prelude/Integers.antt =====
-- Whole numbers with a sign, and how a text is read as one.
use Prim.Native.Nat.{ℕ, zero, suc, ◌+◌, ◌-◌, ◌*◌}
use Prim.Native.String.{String}
use mathlib.Core.Bool.{Bool, true, false, ◌&&◌}
use mathlib.Core.Option.{Option, none, some}
use mathlib.Core.List.{List, [], ◌∷◌}
use court_command.Prelude.Tests.{leb, ◌==◌, if◌then◌else◌}
use court_command.Prelude.Text.{codes, trim}

-- `negsuc n` is -1 - n.
pub data ℤ : Type 0 where
  pos : ℕ → ℤ
  negsuc : ℕ → ℤ

unfoldable pub negate : ℕ → ℤ
negate zero = pos zero
negate (suc n) = negsuc n

-- `z < 1`.
unfoldable pub below_one : ℤ → Bool
below_one (pos zero) = true
below_one (pos (suc n)) = false
below_one (negsuc n) = true

abbrev is_digit : ℕ → Bool
is_digit c = leb 48 c && leb c 57

-- The value of the leading digits, if there is one.
abbrev digits : List ℕ → Option ℕ → Option ℕ
digits [] acc = acc
digits (c ∷ cs) none = if is_digit c then digits cs (some (c - 48)) else none
digits (c ∷ cs) (some n) = if is_digit c then digits cs (some (10 * n + (c - 48))) else some n

abbrev signed : (ℕ → ℤ) → Option ℕ → Option ℤ
signed f none = none
signed f (some n) = some (f n)

abbrev parse_codes : List ℕ → Option ℤ
parse_codes [] = none
parse_codes (c ∷ cs) =
    if c == 45
    then signed negate (digits cs none)
    else if c == 43
    then signed pos (digits cs none)
    else signed pos (digits (c ∷ cs) none)

-- `parseInt(text, 10)`; none is NaN.
abbrev pub parse_int : String → Option ℤ
parse_int text = parse_codes (codes (trim text))
