-- ===== src/Transfer/Decimal.antt =====
-- The decimal digits of a number, as Python's `str` and f-strings print it.
use proxysplit.Base.{
  ℕ, zero, suc, ◌+◌, ◌-◌, ◌*◌, ◌/◌, ◌%◌, ◌<◌, ◌≡◌, refl, ◌∙◌, inl, inr, true, [], ◌∷◌, ◌++◌, arith,
  ltb, if◌then◌else◌, Bool-cases, length, All, length-append, All-append,
}
use proxysplit.Text.{Text}
use proxysplit.Transfer.{is_digit, number_from, number}

-- One round for each digit; the fuel is the number and one more.
unfoldable pub print_digits : ℕ → ℕ → Text
print_digits zero n = []
print_digits (suc fuel) n =
    let front = print_digits fuel (n / 10) in
    if ltb n 10 then (n + b'0') ∷ [] else front ++ (n % 10 + b'0') ∷ []

-- `str(n)`
unfoldable pub decimal : ℕ → Text
unfolding print_digits
decimal n = print_digits (suc n) n

number_from-snoc :
    (acc : ℕ) (ds : Text) (c : ℕ)
    → number_from acc (ds ++ c ∷ []) ≡ number_from acc ds * 10 + (c - b'0')
unfolding number_from
number_from-snoc acc [] c = refl
number_from-snoc acc (d ∷ ds) c = number_from-snoc (acc * 10 + (d - b'0')) ds c

number-print_digits : (fuel n : ℕ) → n < fuel → number_from 0 (print_digits fuel n) ≡ n
unfolding print_digits number_from
number-print_digits zero n h = absurd (omega arith)
number-print_digits (suc fuel) n h = elim (Bool-cases (ltb n 10)) [
  | inl small ↦ rw small (omega arith)
  | inr large ↦
      let rest = number-print_digits fuel (n / 10) (ground arith) in
      rw large
        (number_from-snoc 0 (print_digits fuel (n / 10)) (n % 10 + b'0') ∙ omega (arith, rest))
]

print_digits-All : (fuel n : ℕ) → All (λ c. is_digit c ≡ true) (print_digits fuel n)
unfolding print_digits
print_digits-All zero n = tt
print_digits-All (suc fuel) n = elim (Bool-cases (ltb n 10)) [
  | inl small ↦ rw small (ground arith, tt)
  | inr large ↦ rw large (
      All-append (λ c. is_digit c ≡ true) (print_digits fuel (n / 10)) ((n % 10 + b'0') ∷ [])
        (print_digits-All fuel (n / 10)) (ground arith, tt))
]

-- What is printed has digits only, at least one, and reads as the number.
pub decimal_lem :
    (n : ℕ)
    → (number (decimal n) ≡ n) × All (λ c. is_digit c ≡ true) (decimal n) × (0 < length (decimal n))
unfolding decimal print_digits
decimal_lem n = (
  number-print_digits (suc n) n (omega arith),
  print_digits-All (suc n) n,
  elim (Bool-cases (ltb n 10)) [
    | inl small ↦ rw small (omega arith)
    | inr large ↦
        rw large (omega (arith, length-append (print_digits n (n / 10)) ((n % 10 + b'0') ∷ [])))
  ],
)
