-- ===== src/Prelude/Turns.antt =====
-- Turns around a ring of places.
use Prim.Native.Nat.{ℕ, ◌+◌, ◌-◌, ◌%◌, ◌<◌}
use mathlib.Core.Path.{◌≡◌, ap, ◌∙◌}
use native.Mathlib.Omega.{arith}
use native.Mathlib.Nat.{add-mod-mod, add-mod_right, mod-eq_of_lt}

-- The turns until a place comes.
abbrev pub turns_until : ℕ → ℕ → ℕ → ℕ
turns_until count index slide = (slide + count - index) % count

around : (index count slide : ℕ) → index < count → index + (slide + count - index) ≡ slide + count
around index count slide l = omega arith

pub turns-reach :
    (count index slide : ℕ)
    → index < count
    → slide < count
    → (index + turns_until count index slide) % count ≡ slide
turns-reach count index slide l h =
    add-mod-mod index (slide + count - index) count
    ∙ ap (λ n. n % count) (around index count slide l)
    ∙ add-mod_right slide count
    ∙ mod-eq_of_lt h
