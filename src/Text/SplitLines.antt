-- ===== src/Text/SplitLines.antt =====
-- The lines of a text that is written line by line.
use proxysplit.Base.{
  ℕ, ◌≡◌, refl, ap, ◌∙◌, inl, inr, false, List, [], ◌∷◌, ◌++◌, Bool-cases, ◌==◌, nat_eq, All,
}
use proxysplit.Text.{Text, starts_with, starts_line, split_lines, breaks_line}

abbrev pub IsLine : Text → Type 0
IsLine s = All (λ c. (breaks_line c ≡ false) × ((c == 13) ≡ false)) s

-- A line, its line break, and the rest.
pub split_lines-append :
    (line rest : Text)
    → IsLine line
    → split_lines (line ++ 13 ∷ 10 ∷ rest) ≡ line ∷ split_lines rest
unfolding split_lines starts_with
split_lines-append [] rest h = refl
split_lines-append (c ∷ line) rest h =
    rw (split_lines-append line rest h.1) (rw (h.0.0, h.0.1) refl)

-- `"".join(line + "\r\n" for line in lines)`
abbrev pub join_lines : List Text → Text
join_lines [] = []
join_lines (line ∷ lines) = line ++ 13 ∷ 10 ∷ join_lines lines

pub split_lines-join_lines :
    (lines : List Text) → All IsLine lines → split_lines (join_lines lines) ≡ lines
unfolding split_lines
split_lines-join_lines [] h = refl
split_lines-join_lines (line ∷ lines) h =
    split_lines-append line (join_lines lines) h.0
    ∙ ap (λ ls. line ∷ ls) (split_lines-join_lines lines h.1)

starts_line-All :
    (c : ℕ) (lines : List Text)
    → breaks_line c ≡ false
    → (c == 13) ≡ false
    → All IsLine lines
    → All IsLine (starts_line c lines)
starts_line-All c [] n r h = (((n, r), tt), tt)
starts_line-All c (line ∷ lines) n r h = (((n, r), h.0), h.1)

pub split_lines-All : (s : Text) → All IsLine (split_lines s)
unfolding split_lines
split_lines-All [] = tt
split_lines-All (c ∷ s) = elim (Bool-cases (breaks_line c)) [
  | inl feed ↦ rw feed (tt, split_lines-All s)
  | inr n ↦ elim (Bool-cases (c == 13)) [
    | inl return ↦ elim (Bool-cases (starts_with (10 ∷ []) s)) [
      | inl both ↦ rw (n, return, both) (split_lines-All s)
      | inr alone ↦ rw (n, return, alone) (tt, split_lines-All s)
    ]
    | inr r ↦ rw (n, r) (starts_line-All c (split_lines s) n r (split_lines-All s))
  ]
]
