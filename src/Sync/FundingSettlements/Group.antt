-- ===== src/Sync/FundingSettlements/Group.antt =====
-- The group of missing settlements that is fetched first.
use quantoxide.Prelude.{
  Bool-cases, List, Option-cases, [], ap, arith, drop, inl, inr, ltb, none, refl, some, some_inj,
  subst, suc, sym, ℕ, ◌*◌, ◌++◌, ◌+◌, ◌-◌, ◌<◌, ◌∷◌, ◌≡◌, ◌≤◌, ◌⊎◌,
}
use quantoxide.Sync.FundingSettlements.{last_gap, latest_missing_group}
use quantoxide.Time.{DateTime, hour}

-- Each time is at most 8 hours after the one before.
pub IsContiguous : List DateTime → Type 0
IsContiguous [] = Unit
IsContiguous (a ∷ []) = Unit
IsContiguous (a ∷ b ∷ ts) = (b ≤ a + 8 * hour) × IsContiguous (b ∷ ts)

-- What comes before a group ends more than 8 hours earlier.
pub record IsCutBefore (times group : List DateTime) : Type 0 where
  pub earlier : List DateTime
  pub last : DateTime
  pub first : DateTime
  pub others : List DateTime
  pub split : times ≡ earlier ++ (last ∷ group)
  pub begins : group ≡ first ∷ others
  pub apart : last + 8 * hour < first

last_gap-IsContiguous : (ts : List DateTime) → last_gap ts ≡ none → IsContiguous ts
unfolding last_gap IsContiguous
last_gap-IsContiguous [] h = tt
last_gap-IsContiguous (a ∷ []) h = tt
last_gap-IsContiguous (a ∷ b ∷ ts) h = elim (Option-cases (last_gap (b ∷ ts))) [
  | inl e ↦ let close = rw e at h in (ground (arith, close), last_gap-IsContiguous (b ∷ ts) e)
  | inr e ↦ ground (arith, e.1)
]

cons-IsCutBefore :
    (a : DateTime) (ts group : List DateTime) → IsCutBefore ts group → IsCutBefore (a ∷ ts) group
cons-IsCutBefore a ts group c = record {
  earlier = a ∷ c.earlier;
  last = c.last;
  first = c.first;
  others = c.others;
  split = ap (λ xs. a ∷ xs) c.split;
  begins = c.begins;
  apart = c.apart;
}

-- The part of a list from a gap on.
abbrev IsCutAt : List DateTime → List DateTime → Type 0
IsCutAt ts group = IsCutBefore ts group × IsContiguous group

last_gap-IsCutAt :
    (ts : List DateTime) (i : ℕ) → last_gap ts ≡ some i → IsCutAt ts (drop (suc i) ts)
unfolding last_gap
last_gap-IsCutAt [] i h = cc
last_gap-IsCutAt (a ∷ []) i h = cc
last_gap-IsCutAt (a ∷ b ∷ ts) i h = elim (Option-cases (last_gap (b ∷ ts))) [
  | inr (j, e) ↦
      let same : suc j ≡ i = some_inj (rw e at h) in
      let later = last_gap-IsCutAt (b ∷ ts) j e in
      subst (λ k. IsCutAt (a ∷ b ∷ ts) (drop k (b ∷ ts))) same
        (cons-IsCutBefore a (b ∷ ts) (drop (suc j) (b ∷ ts)) later.0, later.1)
  | inl e ↦ elim (Bool-cases (ltb (8 * hour) (b - a))) [
    | inl far ↦
        let same : 0 ≡ i = some_inj (rw (e, far) at h) in
        subst (λ k. IsCutAt (a ∷ b ∷ ts) (drop k (b ∷ ts))) same
          (
            record {
              earlier = [];
              last = a;
              first = b;
              others = ts;
              split = refl;
              begins = refl;
              apart = ground arith;
            },
            last_gap-IsContiguous (b ∷ ts) e,
          )
    | inr near ↦ let none_left = rw (e, near) at h in cc
  ]
]

-- The latest group of missing times is the longest end of their list in which no two neighbours are
-- more than 8 hours apart: it is such an end, and it is all of the list or the time before it is more
-- than 8 hours earlier.
pub latest_missing_group_longest :
    (ts group : List DateTime)
    → latest_missing_group ts ≡ some group
    → IsContiguous group × ((group ≡ ts) ⊎ IsCutBefore ts group)
unfolding latest_missing_group
latest_missing_group_longest [] group h = cc
latest_missing_group_longest (t ∷ ts) group h = elim (Option-cases (last_gap (t ∷ ts))) [
  | inl e ↦
      let same = some_inj (rw e at h) in
      (subst IsContiguous same (last_gap-IsContiguous (t ∷ ts) e), inl (sym same))
  | inr (i, e) ↦
      let cut = last_gap-IsCutAt (t ∷ ts) i e in
      let at_end = subst (IsCutAt (t ∷ ts)) (some_inj (rw e at h)) cut in (at_end.1, inr at_end.0)
]
