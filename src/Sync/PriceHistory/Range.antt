-- ===== src/Sync/PriceHistory/Range.antt =====
-- When a range of time is available.
use quantoxide.Prelude.{
  All, List, Option, [], ap, arith, false, leb, none, ok, ok_inj, refl, some, some_inj, true, ◌<◌,
  ◌↔◌, ◌∷◌, ◌≡◌, ◌≤◌,
}
use quantoxide.Sync.PriceHistory.{
  PriceHistoryState, any_overlap, is_range_available, overlaps, range_in,
}
use quantoxide.Time.{DateTime}

-- A time of the range that is inside a gap.
abbrev pub HitBy : DateTime → DateTime → DateTime → DateTime × DateTime → Type 0
HitBy from to t (gap_from, gap_to) = (from ≤ t) × (t < to) × (gap_from ≤ t) × (t < gap_to)

any_overlap-misses :
    (from to t : DateTime) (gs : List (DateTime × DateTime))
    → any_overlap from to gs ≡ false
    → All (λ g. ¬ HitBy from to t g) gs
unfolding any_overlap overlaps
any_overlap-misses from to t [] h = tt
any_overlap-misses from to t ((a, b) ∷ gs) h =
    (λ k. ground arith, any_overlap-misses from to t gs (ground arith))

any_overlap_complete :
    (from to : DateTime) (gs : List (DateTime × DateTime))
    → from < to
    → All (λ g. g.0 < g.1) gs
    → ((t : DateTime) → All (λ g. ¬ HitBy from to t g) gs)
    → any_overlap from to gs ≡ false
unfolding any_overlap overlaps
any_overlap_complete from to [] lt p h = refl
any_overlap_complete from to ((a, b) ∷ gs) lt p h =
    let rest = any_overlap_complete from to gs lt p.1 (λ t. (h t).1) in
    let at_from = (h from).0 in let at_gap = (h a).0 in ground (arith, rest, at_from, at_gap)

-- All of a range is stored: it lies within the bounds, and no time of it is inside a gap.
abbrev pub IsStored : PriceHistoryState → DateTime → DateTime → Type 0
IsStored s from to =
    ((b : DateTime × DateTime) × (s.bounds ≡ some b) × (b.0 ≤ from) × (to ≤ b.1))
    × ((t : DateTime) → All (λ g. ¬ HitBy from to t g) s.gaps)

range_in_sound :
    (from to : DateTime) (gs : List (DateTime × DateTime)) (o : Option (DateTime × DateTime))
    → range_in from to gs o ≡ true
    → ((b : DateTime × DateTime) × (o ≡ some b) × (b.0 ≤ from) × (to ≤ b.1))
      × (any_overlap from to gs ≡ false)
unfolding range_in
range_in_sound from to gs none h = ground arith
range_in_sound from to gs (some (start, end)) h =
    (((start, end), refl, ground arith, ground arith), ground arith)

range_in_complete :
    (from to : DateTime) (gs : List (DateTime × DateTime)) (o : Option (DateTime × DateTime))
    (b : DateTime × DateTime)
    → o ≡ some b
    → b.0 ≤ from
    → to ≤ b.1
    → any_overlap from to gs ≡ false
    → range_in from to gs o ≡ true
unfolding range_in
range_in_complete from to gs none b e h k m = cc
range_in_complete from to gs (some c) b e h k m =
    let e0 = ap (λ x. x.0) (some_inj e) in let e1 = ap (λ x. x.1) (some_inj e) in ground arith

-- For a range that is not empty, `is_range_available` is true exactly where all of it is stored, if
-- every gap ends after it begins.
pub is_range_available-exact :
    (s : PriceHistoryState) (from to : DateTime)
    → from < to
    → All (λ g. g.0 < g.1) s.gaps
    → (is_range_available s from to ≡ ok true) ↔ IsStored s from to
unfolding is_range_available
is_range_available-exact s from to lt p =
    let e : leb to from ≡ false = ground arith in
    (
      λ h.
          let r = range_in_sound from to s.gaps s.bounds (ok_inj (rw e at h)) in
          (r.0, λ t. any_overlap-misses from to t s.gaps r.1),
      λ k. rw e (
          ap ok (
            range_in_complete from to s.gaps s.bounds k.0.0 k.0.1 k.0.2 k.0.3
              (any_overlap_complete from to s.gaps lt p k.1))),
    )
