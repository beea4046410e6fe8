-- ===== src/Text.antt =====
-- The methods of Python's `str` that the program walks texts with, over lists of code points. A text
-- here is a header's value or a line of a file; `lower` is that of ASCII letters.
pub mod Strip
pub mod Words
pub mod SplitLines
pub mod Parts
use proxysplit.Base.{
  ℕ, ◌+◌, ◌-◌, Bool, true, false, ◌&&◌, ◌||◌, Option, none, some, List, [], ◌∷◌, map, leb,
  if◌then◌else◌, ◌==◌, nat_eq,
}

abbrev pub Text : Type 0
Text = List ℕ

unfoldable pub lower_char : ℕ → ℕ
lower_char c = if leb b'A' c && leb c b'Z' then c + 32 else c

-- `s.lower()`
abbrev pub lower : Text → Text
lower s = map lower_char s

-- `s.startswith(p)`
unfoldable pub starts_with : Text → Text → Bool
starts_with [] s = true
starts_with (c ∷ p) [] = false
starts_with (c ∷ p) (d ∷ s) = c == d && starts_with p s

-- `p in s`
unfoldable pub is_in : Text → Text → Bool
unfolding starts_with
is_in p [] = starts_with p []
is_in p (c ∷ s) = starts_with p (c ∷ s) || is_in p s

-- `s.split(c)`: the part up to the first separator, and the other parts.
unfoldable pub split : ℕ → Text → Text × List Text
split c [] = ([], [])
split c (d ∷ s) =
    let (first, rest) = split c s in if d == c then ([], first ∷ rest) else (d ∷ first, rest)

-- `s.upper()`
unfoldable pub upper_char : ℕ → ℕ
upper_char c = if leb b'a' c && leb c b'z' then c - 32 else c

abbrev pub upper : Text → Text
upper s = map upper_char s

-- The spaces that `bytes.split()` splits at.
abbrev pub is_blank : ℕ → Bool
is_blank c = (leb 9 c && leb c 13) || c == 32

abbrev pub add_word : Text → List Text → List Text
add_word [] ws = ws
add_word (c ∷ w) ws = (c ∷ w) ∷ ws

-- The word that a text begins with, empty if it begins with a space, and the later ones.
unfoldable pub words_from : Text → Text × List Text
words_from [] = ([], [])
words_from (c ∷ s) =
    let (w, ws) = words_from s in if is_blank c then ([], add_word w ws) else (c ∷ w, ws)

-- `s.split()`
unfoldable pub words : Text → List Text
unfolding words_from
words s = let (w, ws) = words_from s in add_word w ws

-- What stands before and behind the last `c`.
unfoldable pub rsplit : ℕ → Text → Option (Text × Text)
rsplit c [] = none
rsplit c (d ∷ s) = elim (rsplit c s) [
  | some (front, back) ↦ some (d ∷ front, back)
  | none ↦ if d == c then some ([], s) else none
]

-- `s.rpartition(c)` without the separator
unfoldable pub rpartition : ℕ → Text → Text × Text
unfolding rsplit
rpartition c s = elim (rsplit c s) [ none ↦ ([], s) | some (front, back) ↦ (front, back) ]

abbrev pub starts_line : ℕ → List Text → List Text
starts_line c [] = (c ∷ []) ∷ []
starts_line c (line ∷ lines) = (c ∷ line) ∷ lines

-- The line breaks of `str.splitlines` below 256, besides the carriage return.
abbrev pub breaks_line : ℕ → Bool
breaks_line c = (leb 10 c && leb c 12) || (leb 28 c && leb c 30) || c == 0x85

-- `s.splitlines()`; a carriage return with a line feed is one break.
unfoldable pub split_lines : Text → List Text
unfolding starts_with
split_lines [] = []
split_lines (c ∷ s) =
    let lines = split_lines s in
    if breaks_line c
    then [] ∷ lines
    else if c == 13
    then (if starts_with (10 ∷ []) s then lines else [] ∷ lines)
    else starts_line c lines

unfoldable pub is_space : ℕ → Bool
is_space c = (leb 9 c && leb c 13) || (leb 28 c && leb c 32) || c == 0x85 || c == 0xa0

unfoldable pub lstrip : Text → Text
unfolding is_space
lstrip [] = []
lstrip (c ∷ s) = let rest = lstrip s in if is_space c then rest else c ∷ s

-- A character before a stripped text: dropped if it is a space and nothing follows.
keep_char : ℕ → Text → Text
keep_char c [] = if is_space c then [] else c ∷ []
keep_char c (d ∷ rest) = c ∷ d ∷ rest

unfoldable pub rstrip : Text → Text
unfolding is_space keep_char
rstrip [] = []
rstrip (c ∷ s) = keep_char c (rstrip s)

-- `s.strip()`
unfoldable pub strip : Text → Text
unfolding lstrip rstrip
strip s = rstrip (lstrip s)
