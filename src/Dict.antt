-- ===== src/Dict.antt =====
-- Python's `dict` and `OrderedDict`: the entries in insertion order. The key type is a parameter,
-- since the program has dictionaries over texts and over pairs of a text and an optional text.
use proxysplit.Base.{
  suc, ◌+◌, ◌≤◌, ◌≡◌, refl, Bool, false, Option, none, some, List, [], ◌∷◌, ◌++◌, arith,
  if◌then◌else◌, Eq, ◌==◌, length, filter_by, contains,
}

abbrev pub Dict {ℓ κ} : Type ℓ → Type κ → Type (ℓ ⊔ κ)
Dict K V = List (K × V)

module _ {ℓ κ} {K : Type ℓ} {V : Type κ} ⦃e : Eq K⦄ where
  -- `d.get(k)`
  unfoldable pub lookup : K → Dict K V → Option V
  lookup k [] = none
  lookup k ((j, v) ∷ d) = if j == k then some v else lookup k d

  -- `d[k] = v`: a new key goes to the end, a known one keeps its place.
  unfoldable pub insert : K → V → Dict K V → Dict K V
  insert k v [] = (k, v) ∷ []
  insert k v ((j, w) ∷ d) = let rest = insert k v d in if j == k then (j, v) ∷ d else (j, w) ∷ rest

  -- `d.pop(k, None)`, `del d[k]`
  unfoldable pub remove : K → Dict K V → Dict K V
  remove k [] = []
  remove k ((j, w) ∷ d) = let rest = remove k d in if j == k then rest else (j, w) ∷ rest

  -- A dict holds a key once.
  abbrev pub Unique : Dict K V → Type κ
  Unique [] = Unit
  Unique ((j, v) ∷ d) = (lookup j d ≡ none) × Unique d

  pub lookup-insert :
      (k j : K) (v : V) (d : Dict K V)
      → lookup j (insert k v d) ≡ (if k == j then some v else lookup j d)
  unfolding lookup insert
  lookup-insert k j v [] = refl
  lookup-insert k j v ((i, w) ∷ d) =
      ground (arith, e.beq_iff k j, e.beq_iff i k, e.beq_iff i j, lookup-insert k j v d)

  pub lookup-remove :
      (k j : K) (d : Dict K V) → lookup j (remove k d) ≡ (if k == j then none else lookup j d)
  unfolding lookup remove
  lookup-remove k j [] = ground arith
  lookup-remove k j ((i, w) ∷ d) =
      ground (arith, e.beq_iff k j, e.beq_iff i k, e.beq_iff i j, lookup-remove k j d)

  pub lookup-append :
      (k : K) (c d : Dict K V)
      → lookup k (c ++ d) ≡ elim (lookup k c) [ none ↦ lookup k d | some v ↦ some v ]
  unfolding lookup
  lookup-append k [] d = refl
  lookup-append k ((i, w) ∷ c) d = ground (arith, lookup-append k c d)

  pub remove_absent : (k : K) (d : Dict K V) → lookup k d ≡ none → remove k d ≡ d
  unfolding lookup remove
  remove_absent k [] h = refl
  remove_absent k ((i, w) ∷ d) h = ground (arith, remove_absent k d)

  pub insert_absent :
      (k : K) (v : V) (d : Dict K V) → lookup k d ≡ none → insert k v d ≡ d ++ (k, v) ∷ []
  unfolding lookup insert
  insert_absent k v [] h = refl
  insert_absent k v ((i, w) ∷ d) h = ground (arith, insert_absent k v d)

  pub length-remove-le : (k : K) (d : Dict K V) → length (remove k d) ≤ length d
  unfolding remove
  length-remove-le k [] = omega arith
  length-remove-le k ((i, w) ∷ d) = ground (arith, length-remove-le k d)

  pub length-remove :
      (k : K) (d : Dict K V) {v : V}
      → Unique d
      → lookup k d ≡ some v
      → suc (length (remove k d)) ≡ length d
  unfolding lookup remove
  length-remove k [] u h = cc
  length-remove k ((i, w) ∷ d) {v} u h =
      ground (arith, e.beq_iff i k, length-remove k d {v = v} u.1, remove_absent k d)

  pub remove-Unique : (k : K) (d : Dict K V) → Unique d → Unique (remove k d)
  unfolding remove
  remove-Unique k [] u = tt
  remove-Unique k ((i, w) ∷ d) u = ground (arith, remove-Unique k d u.1, lookup-remove k i d)

  pub insert-Unique : (k : K) (v : V) (d : Dict K V) → Unique d → Unique (insert k v d)
  unfolding insert lookup
  insert-Unique k v [] u = (refl, tt)
  insert-Unique k v ((i, w) ∷ d) u =
      ground (arith, e.beq_iff i k, e.beq_iff k i, insert-Unique k v d u.1, lookup-insert k i v d)

  pub length-insert-le : (k : K) (v : V) (d : Dict K V) → length (insert k v d) ≤ length d + 1
  unfolding insert
  length-insert-le k v [] = omega arith
  length-insert-le k v ((i, w) ∷ d) = ground (arith, length-insert-le k v d)

  pub snoc-Unique :
      (k : K) (v : V) (d : Dict K V) → Unique d → lookup k d ≡ none → Unique (d ++ (k, v) ∷ [])
  snoc-Unique k v d u h = rw (insert_absent k v d h) at (insert-Unique k v d u)

  pub lookup-filter_by_absent :
      (p : K × V → Bool) (k : K) (d : Dict K V)
      → lookup k d ≡ none
      → lookup k (filter_by p d) ≡ none
  unfolding lookup
  lookup-filter_by_absent p k [] h = refl
  lookup-filter_by_absent p k ((i, w) ∷ d) h = ground (arith, lookup-filter_by_absent p k d)

  pub filter_by-Unique : (p : K × V → Bool) (d : Dict K V) → Unique d → Unique (filter_by p d)
  filter_by-Unique p [] u = tt
  filter_by-Unique p ((i, w) ∷ d) u =
      ground (arith, filter_by-Unique p d u.1, lookup-filter_by_absent p i d)

  -- `[k for k, v in d.items() if p(v)]`
  unfoldable pub keys_where : (V → Bool) → Dict K V → List K
  keys_where p [] = []
  keys_where p ((j, v) ∷ d) = let rest = keys_where p d in if p v then j ∷ rest else rest

  contains-keys_where_absent :
      (p : V → Bool) (k : K) (d : Dict K V)
      → lookup k d ≡ none
      → contains (keys_where p d) k ≡ false
  unfolding lookup keys_where
  contains-keys_where_absent p k [] h = refl
  contains-keys_where_absent p k ((i, w) ∷ d) h = ground (arith, contains-keys_where_absent p k d)

  pub contains-keys_where :
      (p : V → Bool) (k : K) (d : Dict K V)
      → Unique d
      → contains (keys_where p d) k ≡ elim (lookup k d) [ none ↦ false | some v ↦ p v ]
  unfolding lookup keys_where
  contains-keys_where p k [] u = refl
  contains-keys_where p k ((i, w) ∷ d) u =
      ground
        (arith, e.beq_iff i k, contains-keys_where p k d u.1, contains-keys_where_absent p i d u.0)

pub ruleset dict_laws = (lookup-insert, lookup-remove)
