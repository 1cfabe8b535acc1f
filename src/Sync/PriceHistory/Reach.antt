-- ===== src/Sync/PriceHistory/Reach.antt =====
-- What is fetched next, against the test for missing data.
use quantoxide.Prelude.{
  Bool, Bool-cases, List, Option, Result, [], ap, arith, err_no_value, false, head?, if◌then◌else◌,
  inl, inr, last?, ltb, none, not, ok, ok_inj, refl, some, subst, sym, true, ◌==◌, ◌||◌, ◌∙◌, ◌∷◌,
  ◌≡◌,
}
use quantoxide.Sync.PriceHistory.{
  DownloadRange, PriceHistoryState, SyncPriceHistoryFatalError, before_reach, check_reach,
  close_gap, extend_bounds, gap, has_gaps, is_empty, latest, lower_bound, next_download_range,
  next_in, upper_bound,
}
use quantoxide.Time.{DateTime}

abbrev pub is_upper : DownloadRange → Bool
is_upper latest = false
is_upper (upper_bound from) = true
is_upper (lower_bound to) = false
is_upper (gap from to) = false

check_reach-gap :
    (from to : DateTime) (o : Option DateTime) (x : DownloadRange)
    → check_reach from o (ok (gap from to)) ≡ ok x
    → is_upper x ≡ false
unfolding check_reach
check_reach-gap from to none x h = ap is_upper (sym (ok_inj h))
check_reach-gap from to (some r) x h = ap is_upper (sym (err_no_value (gap from to) h))

pub check_reach-ok {ℓ} :
    {A : Type ℓ} (time : DateTime) (o : Option DateTime) (r : Result A SyncPriceHistoryFatalError)
    (x : A)
    → check_reach time o r ≡ ok x
    → r ≡ ok x
unfolding check_reach
check_reach-ok time none r x h = h
check_reach-ok time (some reach) r x h = cc

pub last-cons {ℓ} : {A : Type ℓ} (x : A) (xs : List A) → (y : A) × (last? (x ∷ xs) ≡ some y)
last-cons x [] = (x, refl)
last-cons x (y ∷ ys) = last-cons y ys

abbrev state_of :
    Option DateTime → Option (DateTime × DateTime) → List (DateTime × DateTime) → PriceHistoryState
state_of reach bounds gaps = record { reach_time = reach; bounds = bounds; gaps = gaps }

abbrev reached :
    DateTime → Option (DateTime × DateTime) → List (DateTime × DateTime) → PriceHistoryState
reached reach bounds gaps = state_of (some reach) bounds gaps

extend_bounds-is_upper :
    (reach start end : DateTime)
    → is_upper (extend_bounds (some reach) (start, end)) ≡ not (ltb reach start)
unfolding extend_bounds
extend_bounds-is_upper reach start end = ground arith

close_gap-is_upper :
    (reach start end : DateTime) (gs : List (DateTime × DateTime)) (backfilling : Bool)
    (x : DownloadRange)
    → close_gap (some reach) (start, end) (if backfilling then head? gs else last? gs) ≡ ok x
    → is_upper x ≡ not (not (is_empty gs) || ltb reach start)
unfolding close_gap is_empty
close_gap-is_upper reach start end [] true x h =
    ap is_upper (sym (ok_inj h)) ∙ extend_bounds-is_upper reach start end
close_gap-is_upper reach start end [] false x h =
    ap is_upper (sym (ok_inj h)) ∙ extend_bounds-is_upper reach start end
close_gap-is_upper reach start end (g ∷ gs) true x h =
    check_reach-gap g.0 g.1 (before_reach (some reach) g.0) x h
close_gap-is_upper reach start end (g ∷ gs) false x h =
    let l = last-cons g gs in
    check_reach-gap l.0.0 l.0.1 (before_reach (some reach) l.0.0) x (rw l.1 at h)

next_in-close_gap :
    (s : PriceHistoryState) (backfilling : Bool) (start end : DateTime) (x : DownloadRange)
    → next_in s backfilling (some (start, end)) ≡ ok x
    → close_gap s.reach_time (start, end) (if backfilling then head? s.gaps else last? s.gaps)
      ≡ ok x
unfolding next_in
next_in-close_gap s bf start end x h = elim (Bool-cases (start == end)) [
  | inl e ↦ check_reach-ok start (before_reach s.reach_time start) _ x (rw e at h)
  | inr e ↦ (rw e at h)
]

not-not : (b : Bool) → not (not b) ≡ b
not-not true = refl
not-not false = refl

next_in-is_upper :
    (reach : DateTime) (bounds o : Option (DateTime × DateTime)) (gs : List (DateTime × DateTime))
    (backfilling : Bool) (x : DownloadRange)
    → next_in (reached reach bounds gs) backfilling o ≡ ok x
    → has_gaps (reached reach o gs) ≡ ok (not (is_upper x))
unfolding has_gaps next_in
next_in-is_upper reach bounds none gs bf x h = ap (λ y. ok (not (is_upper y))) (ok_inj h)
next_in-is_upper reach bounds (some (start, end)) gs bf x h =
    let c = next_in-close_gap (reached reach bounds gs) bf start end x h in
    sym (ap (λ y. ok (not y)) (close_gap-is_upper reach start end gs bf x c) ∙ ap ok (not-not _))

-- With a reach time, where `next_download_range` gives a range, the range extends the history up to
-- the present exactly where `has_gaps` is false; else it is one that fills missing data.
pub next_download_range-has_gaps :
    (s : PriceHistoryState) (reach : DateTime) (backfilling : Bool) (x : DownloadRange)
    → s.reach_time ≡ some reach
    → next_download_range s backfilling ≡ ok x
    → has_gaps s ≡ ok (not (is_upper x))
unfolding next_download_range
next_download_range-has_gaps s reach bf x e h =
    let same : s ≡ reached reach s.bounds s.gaps = ap (λ o. state_of o s.bounds s.gaps) e in
    subst (λ y. has_gaps y ≡ ok (not (is_upper x))) (sym same)
      (next_in-is_upper reach s.bounds s.bounds s.gaps bf x
        (subst (λ y. next_in y bf s.bounds ≡ ok x) same h))
