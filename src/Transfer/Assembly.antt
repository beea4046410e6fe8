-- ===== src/Transfer/Assembly.antt =====
-- proxy/handlers/inner.py: the chunks of the ranges are put together to the bytes of the window.
use proxysplit.Base.{
  ℕ, zero, suc, ◌+◌, ◌-◌, ◌≤◌, ◌<◌, ◌≡◌, refl, sym, ap, ◌∙◌, true, none, some, List, [], ◌∷◌, ◌++◌,
  arith, if◌then◌else◌, nat_eq, length, take, drop, All, length-take, length-drop,
}
use proxysplit.Chunk.{Result, fetched, raised}
use proxysplit.Dict.{Dict, lookup, insert, lookup-insert}
use proxysplit.Ranges.{Range}
use proxysplit.Ranges.Tiling.{Tiles}
use proxysplit.Transfer.{Window, collect, size_of, all_sized, join_from, assemble}

-- The bytes of a content from `start` up to `stop`.
abbrev pub slice : ℕ → ℕ → List ℕ → List ℕ
slice start stop content = take (stop - start) (drop start content)

abbrev pub bytes_of : Range → List ℕ → List ℕ
bytes_of r content = slice r.first (r.last + 1) content

-- Each range got its bytes of the content, under its index.
abbrev pub AllFetched : List ℕ → List Range → List Result → Type 0
AllFetched content [] [] = Unit
AllFetched content (r ∷ ranges) (fetched i bytes status proxy ∷ results) =
    (i ≡ r.index) × (bytes ≡ bytes_of r content) × AllFetched content ranges results
AllFetched content _ _ = ⊥

pub length-slice :
    (start stop : ℕ) (content : List ℕ)
    → start ≤ stop
    → stop ≤ length content
    → length (slice start stop content) ≡ stop - start
length-slice start stop content le inside =
    omega (arith, length-take (stop - start) (drop start content), length-drop start content)

abbrev nil : List ℕ
nil = []

take-nil : (n : ℕ) → take n nil ≡ nil
take-nil zero = refl
take-nil (suc n) = refl

pub take-append-drop : (n m : ℕ) (xs : List ℕ) → take n xs ++ take m (drop n xs) ≡ take (n + m) xs
take-append-drop zero m xs = let e : 0 + m ≡ m = omega arith in rw e refl
take-append-drop (suc n) m [] = take-nil m ∙ sym (take-nil (suc n + m))
take-append-drop (suc n) m (x ∷ xs) =
    let e : suc n + m ≡ suc (n + m) = omega arith in
    rw e (ap (λ ys. x ∷ ys) (take-append-drop n m xs))

drop-nil : (n : ℕ) → drop n nil ≡ nil
drop-nil zero = refl
drop-nil (suc n) = refl

drop-drop : (n m : ℕ) (xs : List ℕ) → drop n (drop m xs) ≡ drop (m + n) xs
drop-drop n zero xs = let e : 0 + n ≡ n = omega arith in rw e refl
drop-drop n (suc m) [] = drop-nil n ∙ sym (drop-nil (suc m + n))
drop-drop n (suc m) (x ∷ xs) =
    let e : suc m + n ≡ suc (m + n) = omega arith in rw e (drop-drop n m xs)

pub slice-append :
    (a b c : ℕ) (content : List ℕ)
    → a ≤ b
    → b ≤ c
    → slice a b content ++ slice b c content ≡ slice a c content
slice-append a b c content le le' =
    let e : a + (b - a) ≡ b = omega arith in
    let f : (b - a) + (c - b) ≡ c - a = omega arith in
    let g = take-append-drop (b - a) (c - b) (drop a content) in
    rw (drop-drop (b - a) a content, e, f) at g

-- The bytes of each range stand under its index.
record Holds (content : List ℕ) (i : ℕ) (ranges : List Range) (d d' : Dict ℕ (List ℕ))
    : Type 0 where
  kept : (j : ℕ) → j < i → lookup j d' ≡ lookup j d
  held : All (λ (r : Range). lookup r.index d' ≡ some (bytes_of r content)) ranges

collect-Holds :
    (content : List ℕ) (start stop i : ℕ) (ranges : List Range) (results : List Result)
    (d : Dict ℕ (List ℕ))
    → Tiles start stop i ranges
    → AllFetched content ranges results
    → (d' : Dict ℕ (List ℕ)) × (collect results d ≡ some d') × Holds content i ranges d d'
unfolding collect
collect-Holds content start stop i [] [] d t f = (d, refl, record { kept = λ j h. refl; held = tt })
collect-Holds content start stop i [] (x ∷ results) d t f = absurd f
collect-Holds content start stop i (r ∷ ranges) [] d t f = absurd f
collect-Holds content start stop i (r ∷ ranges) (raised exc ∷ results) d t f = absurd f
collect-Holds content start stop i (r ∷ ranges) (fetched k bytes status proxy ∷ results) d t f =
    let (d', e, h) =
      collect-Holds content (r.last + 1) stop (i + 1) ranges results (insert k bytes d) t.4 f.2 in
    (
      d',
      e,
      record {
        kept = λ j below.
            h.kept j (omega arith) ∙ lookup-insert k j bytes d ∙ ground (arith, f.0, t.3);
        held = (
          h.kept r.index (omega (arith, t.3))
              ∙ lookup-insert k r.index bytes d
              ∙ ground (arith, f.0, f.1),
          h.held,
        );
      },
    )

all_sized-Holds :
    (content : List ℕ) (start stop i : ℕ) (ranges : List Range) (d : Dict ℕ (List ℕ))
    → Tiles start stop i ranges
    → stop ≤ length content
    → All (λ (r : Range). lookup r.index d ≡ some (bytes_of r content)) ranges
    → all_sized ranges d ≡ true
unfolding all_sized
all_sized-Holds content start stop i [] d t inside h = refl
all_sized-Holds content start stop i (r ∷ ranges) d t inside h =
    let rest = all_sized-Holds content (r.last + 1) stop (i + 1) ranges d t.4 inside h.1 in
    let size =
      length-slice r.first (r.last + 1) content (omega (arith, t.1)) (omega (arith, t.2)) in
    let same : length (bytes_of r content) ≡ r.last - r.first + 1 = omega (arith, size, t.1) in
    let found : size_of (lookup r.index d) ≡ r.last - r.first + 1 = ap size_of h.0 ∙ same in
    rw (found, all_sized) (rw rest (ground arith))

pub Tiles-le : (start stop i : ℕ) (ranges : List Range) → Tiles start stop i ranges → start ≤ stop
Tiles-le start stop i [] t = omega (arith, t)
Tiles-le start stop i (r ∷ ranges) t = omega (arith, t.0, t.1, t.2)

join_from-slice :
    (content : List ℕ) (start stop i : ℕ) (ranges : List Range) (d : Dict ℕ (List ℕ))
    → Tiles start stop i ranges
    → All (λ (r : Range). lookup r.index d ≡ some (bytes_of r content)) ranges
    → join_from i (length ranges) d ≡ some (slice start stop content)
unfolding join_from
join_from-slice content start stop i [] d t h =
    let e : start ≡ stop = t in let f : stop - stop ≡ 0 = omega arith in rw (e, f) refl
join_from-slice content start stop i (r ∷ ranges) d t h =
    let rest = join_from-slice content (r.last + 1) stop (i + 1) ranges d t.4 h.1 in
    let whole : bytes_of r content ++ slice (r.last + 1) stop content ≡ slice start stop content =
      slice-append r.first (r.last + 1) stop content (omega (arith, t.1)) (omega (arith, t.2))
      ∙ ap (λ a. slice a stop content) t.0 in
    let here : lookup i d ≡ some (bytes_of r content) = rw t.3 at h.0 in
    rw (here, join_from) (rw rest (ap some whole))

-- If every range of a tiling of the window got its bytes of the content, the response has exactly the
-- bytes of the window, with the status 206 and the window in `Content-Range` for a part, and the
-- status 200 for the whole.
pub assemble-slice :
    (content : List ℕ) (w : Window) (ranges : List Range) (results : List Result)
    → Tiles w.start w.stop 0 ranges
    → w.stop ≤ length content
    → AllFetched content ranges results
    → assemble (length content) w ranges results
      ≡ some (record {
        status = if w.is_partial then 206 else 200;
        body = slice w.start w.stop content;
        content_range = if w.is_partial then some (w.start, w.stop - 1, length content) else none;
      })
unfolding assemble
assemble-slice content w ranges results t inside f =
    let (d, e, h) = collect-Holds content w.start w.stop 0 ranges results [] t f in
    let sized = all_sized-Holds content w.start w.stop 0 ranges d t inside h.held in
    let joined = join_from-slice content w.start w.stop 0 ranges d t h.held in
    let size = length-slice w.start w.stop content (Tiles-le w.start w.stop 0 ranges t) inside in
    rw (e, assemble) (rw sized (rw joined (rw size (ground arith))))
