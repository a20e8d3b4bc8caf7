-- ===== src/Tournaments/Bracket/Connectors.antt =====
-- The lines between the columns of a bracket (web/src/features/tournaments/DivisionBracket.tsx).
use native.Mathlib.Nat.{suc-mul, mul-le-mul_right}
use court_command.Prelude.{
  ℕ, zero, suc, ◌+◌, ◌-◌, ◌*◌, ◌/◌, ◌≤◌, ◌<◌, max, ◌≡◌, refl, inl, inr, false, arith, leb,
  Bool-cases, length, All,
}
use court_command.Tournaments.Bracket.{
  Connector, connector, connectors_from, bracket_connectors, total_height,
}

connectors_from-length :
    (n step h i turns : ℕ)
    → turns + i ≡ (n + 1) / 2
    → length (connectors_from n step h i turns) + i ≡ max i (n / 2)
unfolding connectors_from
connectors_from-length n step h i zero e = omega arith
connectors_from-length n step h i (suc turns) e =
    ground (arith, connectors_from-length n step h (i + 1) turns)

-- The heights are those of a connector, doubled (the middle's four times), inside a column.
abbrev pub IsInside : ℕ → Connector → Type 0
IsInside height c =
    (c.top < c.bottom)
    × ((c.bottom ≤ 2 * height) × ((2 * c.top < c.middle) × (c.middle < 2 * c.bottom)))

next_row : (x step : ℕ) → (x + 1) * step ≡ x * step + step
next_row x step = omega (arith, suc-mul x step)

rows-le : (x n step : ℕ) → x + 1 + 1 ≤ n → x * step + step + step ≤ n * step
rows-le x n step h = omega (arith, mul-le-mul_right step h, next_row (x + 1) step, next_row x step)

room : (n i : ℕ) → leb n (i * 2 + 1) ≡ false → i * 2 + 1 + 1 ≤ n
room n i l = ground arith

inside :
    (n step h gap i : ℕ)
    → leb n (i * 2 + 1) ≡ false
    → 0 < h
    → step ≡ h + gap
    → IsInside (n * step - gap) (connector step h i)
inside n step h gap i l p e =
    let below = rows-le (i * 2) n step (room n i l) in
    let row = next_row (i * 2) step in
    (
      omega (arith, row, p, e),
      (omega (arith, row, below, e), (omega (arith, row, p, e), omega (arith, row, p, e))),
    )

connectors_from-IsInside :
    (n step h gap i turns : ℕ)
    → 0 < h
    → step ≡ h + gap
    → All (IsInside (n * step - gap)) (connectors_from n step h i turns)
unfolding connectors_from
connectors_from-IsInside n step h gap i zero p e = tt
connectors_from-IsInside n step h gap i (suc turns) p e = elim (Bool-cases (leb n (i * 2 + 1))) [
  | inl l ↦ rw l tt
  | inr l ↦
      rw l (inside n step h gap i l p e, connectors_from-IsInside n step h gap (i + 1) turns p e)
]

add_zero : (n : ℕ) → n + 0 ≡ n
add_zero n = omega arith

-- Where matches have a height, the loop draws half as many connectors as there are matches, a last
-- one without a second aside; each goes down from its first match to its second inside the column's
-- height, and its middle is between them.
pub connectors_lem :
    (n h gap : ℕ)
    → 0 < h
    → (length (bracket_connectors n h gap) ≡ n / 2)
      × All (IsInside (total_height n h gap)) (bracket_connectors n h gap)
unfolding bracket_connectors total_height
connectors_lem n h gap p = (
  omega (arith, connectors_from-length n (h + gap) h 0 ((n + 1) / 2) (add_zero ((n + 1) / 2))),
  connectors_from-IsInside n (h + gap) h gap 0 ((n + 1) / 2) p refl,
)
