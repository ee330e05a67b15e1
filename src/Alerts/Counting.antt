-- ===== src/Alerts/Counting.antt =====
-- cognitod/src/alerts.rs: the count over a trimmed queue is the count over all that ever happened.
use mathlib.Core.List.{reverse, reverse-cons}
use linnix.Prelude.{
  ℕ, ◌+◌, ◌-◌, ◌≤◌, ◌<◌, ◌≡◌, refl, ◌∙◌, ap, inl, inr, Bool, Bool-cases, List, [], ◌∷◌, ◌++◌,
  length, keep_if, ltb, leb, arith,
}
use linnix.Alerts.Queues.{trim_instant_queue, take_while, count_recent}

abbrev pub recent : ℕ → ℕ → ℕ → Bool
recent window now ts = leb (now - ts) window

-- How many of the moments lie within the window before now.
abbrev pub within : ℕ → ℕ → List ℕ → ℕ
within window now history = length (keep_if (recent window now) history)

abbrev pub Above : ℕ → List ℕ → Type 0
Above x [] = Unit
Above x (y ∷ ys) = (x ≤ y) × Above x ys

abbrev pub Below : ℕ → List ℕ → Type 0
Below x [] = Unit
Below x (y ∷ ys) = (y ≤ x) × Below x ys

abbrev pub Ascending : List ℕ → Type 0
Ascending [] = Unit
Ascending (x ∷ xs) = Above x xs × Ascending xs

abbrev Descending : List ℕ → Type 0
Descending [] = Unit
Descending (x ∷ xs) = Below x xs × Descending xs

-- Trimming once more, later and with one moment more, is trimming everything then.
pub trim-trim :
    (keep last now : ℕ)
    → last ≤ now
    → (history : List ℕ)
    → trim_instant_queue (trim_instant_queue history keep last ++ now ∷ []) keep now
      ≡ trim_instant_queue (history ++ now ∷ []) keep now
unfolding trim_instant_queue
trim-trim keep last now later [] = refl
trim-trim keep last now later (x ∷ history) = ground (arith, trim-trim keep last now later history)

pub within-trim :
    (window keep now : ℕ)
    → window ≤ keep
    → (history : List ℕ)
    → within window now (trim_instant_queue history keep now) ≡ within window now history
unfolding trim_instant_queue
within-trim window keep now fits [] = refl
within-trim window keep now fits (x ∷ history) =
    ground (arith, within-trim window keep now fits history)

Below-none :
    (window now x : ℕ)
    → window < now - x
    → (older : List ℕ) → Below x older
    → keep_if (recent window now) older ≡ []
Below-none window now x out [] below = refl
Below-none window now x out (y ∷ older) below =
    ground (arith, Below-none window now x out older below.1)

take_while-keep_if :
    (window now : ℕ) (queue : List ℕ)
    → Descending queue
    → take_while (recent window now) queue ≡ keep_if (recent window now) queue
unfolding take_while
take_while-keep_if window now [] d = refl
take_while-keep_if window now (x ∷ older) d = ground (
  arith,
  take_while-keep_if window now older d.1,
  λ (h : window < now - x). Below-none window now x h older d.0,
)

within-append :
    (window now : ℕ) (xs ys : List ℕ)
    → within window now (xs ++ ys) ≡ within window now xs + within window now ys
within-append window now [] ys = omega arith
within-append window now (x ∷ xs) ys = ground (arith, within-append window now xs ys)

within-reverse :
    (window now : ℕ) (xs : List ℕ) → within window now (reverse xs) ≡ within window now xs
within-reverse window now [] = refl
within-reverse window now (x ∷ xs) =
    rw (reverse-cons x xs, within-append window now (reverse xs) (x ∷ []))
      (ground (arith, within-reverse window now xs))

pub Above-snoc : (x : ℕ) (ys : List ℕ) (y : ℕ) → Above x ys → x ≤ y → Above x (ys ++ y ∷ [])
Above-snoc x [] y above h = (h, tt)
Above-snoc x (z ∷ ys) y above h = (above.0, Above-snoc x ys y above.1 h)

Above-reverse : (x : ℕ) (ys : List ℕ) → Above x ys → Above x (reverse ys)
Above-reverse x [] above = tt
Above-reverse x (y ∷ ys) above =
    rw (reverse-cons y ys) (Above-snoc x (reverse ys) y (Above-reverse x ys above.1) above.0)

Below-snoc : (x : ℕ) (ys : List ℕ) (y : ℕ) → Below x ys → y ≤ x → Below x (ys ++ y ∷ [])
Below-snoc x [] y below h = (h, tt)
Below-snoc x (z ∷ ys) y below h = (below.0, Below-snoc x ys y below.1 h)

Descending-snoc : (ys : List ℕ) (x : ℕ) → Descending ys → Above x ys → Descending (ys ++ x ∷ [])
Descending-snoc [] x d above = (tt, tt)
Descending-snoc (y ∷ ys) x d above =
    (Below-snoc y ys x d.0 above.0, Descending-snoc ys x d.1 above.1)

Descending-reverse : (xs : List ℕ) → Ascending xs → Descending (reverse xs)
Descending-reverse [] a = tt
Descending-reverse (x ∷ xs) a =
    rw (reverse-cons x xs)
      (Descending-snoc (reverse xs) x (Descending-reverse xs a.1) (Above-reverse x xs a.0))

Above-trim : (x keep now : ℕ) (ys : List ℕ) → Above x ys → Above x (trim_instant_queue ys keep now)
unfolding trim_instant_queue
Above-trim x keep now [] above = tt
Above-trim x keep now (y ∷ ys) above = elim (Bool-cases (ltb keep (now - y))) [
  | inl e ↦ rw e (Above-trim x keep now ys above.1)
  | inr e ↦ rw e above
]

Ascending-trim :
    (keep now : ℕ) (xs : List ℕ) → Ascending xs → Ascending (trim_instant_queue xs keep now)
unfolding trim_instant_queue
Ascending-trim keep now [] a = tt
Ascending-trim keep now (x ∷ xs) a = elim (Bool-cases (ltb keep (now - x))) [
  | inl e ↦ rw e (Ascending-trim keep now xs a.1)
  | inr e ↦ rw e a
]

pub Ascending-snoc :
    (xs : List ℕ) (now : ℕ) → Ascending xs → Below now xs → Ascending (xs ++ now ∷ [])
Ascending-snoc [] now a below = (tt, tt)
Ascending-snoc (x ∷ xs) now a below =
    (Above-snoc x xs now a.0 below.0, Ascending-snoc xs now a.1 below.1)

pub Below-later : (last now : ℕ) → last ≤ now → (xs : List ℕ) → Below last xs → Below now xs
Below-later last now later [] below = tt
Below-later last now later (x ∷ xs) below =
    (omega (arith, below.0), Below-later last now later xs below.1)

pub Below-now : (now : ℕ) (xs : List ℕ) → Below now xs → Below now (xs ++ now ∷ [])
Below-now now xs below = Below-snoc now xs now below (omega arith)

-- What is counted from the back of the trimmed queue.
pub count_recent-trim :
    (window keep now : ℕ)
    → window ≤ keep
    → (history : List ℕ) → Ascending history
    → count_recent (trim_instant_queue history keep now) window now ≡ within window now history
unfolding count_recent
count_recent-trim window keep now fits history a =
    let queue = trim_instant_queue history keep now in
    ap length (
      take_while-keep_if window now (reverse queue)
        (Descending-reverse queue (Ascending-trim keep now history a)))
    ∙ within-reverse window now queue
    ∙ within-trim window keep now fits history
