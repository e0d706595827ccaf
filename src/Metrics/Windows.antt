-- ===== src/Metrics/Windows.antt =====
-- The window of latencies holds the latest samples, and a percentile is one of them.
use iddo_harness.Prelude.{
  append_assoc, append_nil, length-drop, ℕ, zero, suc, ◌-◌, ◌≤◌, ◌<◌, min, ◌≡◌, refl, true, false,
  inl, inr, List, [], ◌∷◌, ◌++◌, arith, leb, ltb, length, length-append, drop, get_or, Has, All-Has,
  Bool-cases,
}
use iddo_harness.Prelude.Sorting.{insert, sorted, sorted-Has, sorted-IsSorted, IsSorted}
use iddo_harness.Metrics.{latency_window, percentile, push}

-- The samples one after the other, put into a window.
abbrev pub push_all : List ℕ → List ℕ → List ℕ
push_all window [] = window
push_all window (x ∷ xs) = push_all (push x window) xs

-- The latest n of all samples.
abbrev pub latest : ℕ → List ℕ → List ℕ
latest n xs = drop (length xs - n) xs

drop-append : (n : ℕ) (xs ys : List ℕ) → n ≤ length xs → drop n (xs ++ ys) ≡ drop n xs ++ ys
drop-append zero xs ys h = refl
drop-append (suc n) [] ys h = absurd (omega arith)
drop-append (suc n) (x ∷ xs) ys h = drop-append n xs ys (omega arith)

drop-one : (n : ℕ) (xs : List ℕ) → drop 1 (drop n xs) ≡ drop (suc n) xs
drop-one zero xs = refl
drop-one (suc n) [] = refl
drop-one (suc n) (x ∷ xs) = drop-one n xs

push-latest :
    (x : ℕ) (xs : List ℕ) → push x (latest latency_window xs) ≡ latest latency_window (xs ++ x ∷ [])
unfolding push
push-latest x xs =
    let k = length xs - 1024 in
    let len = length-append (drop k xs) (x ∷ []) in
    let cut = length-drop k xs in
    let all_len = length-append xs (x ∷ []) in
    elim (Bool-cases (ltb 1024 (length (drop k xs ++ x ∷ [])))) [
      | inl full ↦
          let enough : 1024 ≤ length xs = ground (arith, len, cut) in
          let next : length (xs ++ x ∷ []) - 1024 ≡ suc k = omega (arith, all_len) in
          rw
            (push, full, next, ← drop-append k xs (x ∷ []) (omega arith), drop-one k (xs ++ x ∷ []))
            refl
      | inr room ↦
          let few : length xs < 1024 = ground (arith, len, cut) in
          let none_cut : k ≡ 0 = omega arith in
          let none_next : length (xs ++ x ∷ []) - 1024 ≡ 0 = omega (arith, all_len) in
          rw (push, room, none_next, none_cut) refl
    ]

push_all-append :
    (seen xs : List ℕ)
    → push_all (latest latency_window seen) xs ≡ latest latency_window (seen ++ xs)
push_all-append seen [] = rw (append_nil seen) refl
push_all-append seen (x ∷ xs) =
    rw (push-latest x seen, push_all-append (seen ++ x ∷ []) xs, append_assoc seen (x ∷ []) xs) refl

-- However many samples are put into a window, it holds the latest 1024 of them, in their order.
pub push_all-latest : (xs : List ℕ) → push_all [] xs ≡ latest latency_window xs
push_all-latest xs = push_all-append [] xs

length-insert : (x : ℕ) (xs : List ℕ) → length (insert leb x xs) ≡ suc (length xs)
unfolding insert
length-insert x [] = omega arith
length-insert x (y ∷ ys) = ground (arith, length-insert x ys)

get_or-Has : (xs : List ℕ) (i : ℕ) → i < length xs → Has (get_or xs i 0) xs
get_or-Has [] i h = absurd (omega arith)
get_or-Has (x ∷ xs) zero h = inl refl
get_or-Has (x ∷ xs) (suc i) h = inr (get_or-Has xs i (omega arith))

-- A percentile of a list of samples that is not empty is one of the samples, however the rank is
-- rounded.
pub percentile-Has :
    (round_rank : ℕ → ℕ) (samples : List ℕ)
    → 1 ≤ length samples
    → Has (percentile round_rank samples) samples
unfolding percentile sorted
percentile-Has round_rank [] h = absurd (omega arith)
percentile-Has round_rank (x ∷ xs) h =
    let ordered = sorted leb (x ∷ xs) in
    sorted-Has leb (percentile round_rank (x ∷ xs)) (x ∷ xs) (
      get_or-Has ordered (min (length ordered - 1) (round_rank (length ordered)))
        (omega (arith, length-insert x (sorted leb xs))))

get_or-sorted_le :
    (xs : List ℕ) (i j : ℕ)
    → IsSorted leb xs
    → i ≤ j
    → j < length xs
    → get_or xs i 0 ≤ get_or xs j 0
get_or-sorted_le [] i j s h k = omega arith
get_or-sorted_le (x ∷ xs) zero zero s h k = omega arith
get_or-sorted_le (x ∷ xs) zero (suc j) s h k =
    let below = All-Has (λ y. leb x y ≡ true) xs s.0 (get_or-Has xs j (omega arith)) in ground arith
get_or-sorted_le (x ∷ xs) (suc i) zero s h k = absurd (omega arith)
get_or-sorted_le (x ∷ xs) (suc i) (suc j) s h k =
    get_or-sorted_le xs i j s.1 (omega arith) (omega arith)

get_or-none : (xs : List ℕ) → length xs ≡ 0 → (i j : ℕ) → get_or xs i 0 ≤ get_or xs j 0
get_or-none [] h i j = omega arith
get_or-none (x ∷ xs) h i j = absurd (omega arith)

leb_total : (a b : ℕ) → leb a b ≡ false → leb b a ≡ true
leb_total a b h = ground arith

leb_trans : (a b c : ℕ) → leb a b ≡ true → leb b c ≡ true → leb a c ≡ true
leb_trans a b c h k = ground arith

-- A percentile with a higher rank is not smaller: p50 is at most p95, and p95 at most p99.
pub percentile-monotone :
    (low high : ℕ → ℕ) (samples : List ℕ)
    → ((n : ℕ) → low n ≤ high n)
    → percentile low samples ≤ percentile high samples
unfolding percentile
percentile-monotone low high samples h =
    let ordered = sorted leb samples in
    let n = length ordered in
    elim (Bool-cases (ltb 0 n)) [
      | inl some_samples ↦
          let nonzero : 0 < n = ground arith in
          let ranks = h n in
          get_or-sorted_le ordered (min (n - 1) (low n)) (min (n - 1) (high n))
            (sorted-IsSorted leb leb_total leb_trans samples) (omega arith) (omega arith)
      | inr no_samples ↦
          get_or-none ordered (ground arith) (min (n - 1) (low n)) (min (n - 1) (high n))
    ]
