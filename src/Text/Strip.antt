-- ===== src/Text/Strip.antt =====
-- Texts without spaces are left as they are by `strip`.
use proxysplit.Base.{◌≡◌, refl, ap, false, [], ◌∷◌, All}
use proxysplit.Text.{Text, is_space, lstrip, rstrip, strip, keep_char}

rstrip-All : (s : Text) → All (λ c. is_space c ≡ false) s → rstrip s ≡ s
unfolding rstrip keep_char
rstrip-All [] h = refl
rstrip-All (c ∷ []) h = rw h.0 refl
rstrip-All (c ∷ d ∷ s) h = ap (keep_char c) (rstrip-All (d ∷ s) h.1)

pub strip-All : (s : Text) → All (λ c. is_space c ≡ false) s → strip s ≡ s
unfolding strip lstrip rstrip
strip-All [] h = refl
strip-All (c ∷ s) h = rw (h.0, lstrip) (rstrip-All (c ∷ s) h)
