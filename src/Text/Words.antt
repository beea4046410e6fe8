-- ===== src/Text/Words.antt =====
-- The words of a text, and its parts before and behind the last separator.
use proxysplit.Base.{ℕ, ◌≡◌, refl, true, false, none, some, [], ◌∷◌, ◌++◌, arith, ◌==◌, nat_eq, All}
use proxysplit.Text.{Text, is_blank, add_word, words_from, words, rsplit, rpartition}

words_from-blank :
    (w rest : Text) (c : ℕ)
    → All (λ d. is_blank d ≡ false) w
    → is_blank c ≡ true
    → words_from (w ++ c ∷ rest) ≡ (w, words rest)
unfolding words_from words
words_from-blank [] rest c plain blank = rw blank refl
words_from-blank (d ∷ w) rest c plain blank =
    rw (words_from-blank w rest c plain.1 blank) (rw plain.0 refl)

-- A word, up to a space.
pub words-append :
    (w rest : Text) (c : ℕ)
    → All (λ d. is_blank d ≡ false) w
    → is_blank c ≡ true
    → words (w ++ c ∷ rest) ≡ add_word w (words rest)
words-append w rest c plain blank = unfold words in rw (words_from-blank w rest c plain blank) refl

rsplit-All : (c : ℕ) (s : Text) → All (λ d. (d == c) ≡ false) s → rsplit c s ≡ none
unfolding rsplit
rsplit-All c [] h = refl
rsplit-All c (d ∷ s) h = rw (rsplit-All c s h.1, rsplit) (rw h.0 refl)

rsplit-append :
    (c : ℕ) (front back : Text)
    → All (λ d. (d == c) ≡ false) back
    → rsplit c (front ++ c ∷ back) ≡ some (front, back)
unfolding rsplit
rsplit-append c [] back h =
    let self : (c == c) ≡ true = ground arith in rw (rsplit-All c back h, rsplit) (rw self refl)
rsplit-append c (d ∷ front) back h = rw (rsplit-append c front back h, rsplit) refl

pub rpartition-append :
    (c : ℕ) (front back : Text)
    → All (λ d. (d == c) ≡ false) back
    → rpartition c (front ++ c ∷ back) ≡ (front, back)
unfolding rpartition
rpartition-append c front back h = rw (rsplit-append c front back h, rpartition) refl

-- Without a separator the front is empty.
pub rpartition-All : (c : ℕ) (s : Text) → All (λ d. (d == c) ≡ false) s → rpartition c s ≡ ([], s)
unfolding rpartition
rpartition-All c s h = rw (rsplit-All c s h, rpartition) refl
