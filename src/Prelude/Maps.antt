-- ===== src/Prelude/Maps.antt =====
-- `BTreeMap` with keys (time, id) as a list in the order of its keys, and `HashMap` with number
-- keys as an association list.
use Prim.Native.Nat.{ℕ}
use mathlib.Core.Bool.{Bool, true, ◌&&◌, ◌||◌}
use mathlib.Core.List.{List, [], ◌∷◌}
use mathlib.Core.Logic.{inl, inr}
use mathlib.Core.Option.{Option, none, some}
use mathlib.Core.Path.{refl, ◌≡◌}
use native.Mathlib.Omega.{arith}
use quantoxide.Prelude.Lists.{All}
use quantoxide.Prelude.Tests.{Bool-cases, if◌then◌else◌, ltb, ◌==◌}

-- (creation time, id)
abbrev pub Key : Type 0
Key = ℕ × ℕ

abbrev pub key_eq : Key → Key → Bool
key_eq (a, i) (b, j) = a == b && i == j

abbrev pub key_lt : Key → Key → Bool
key_lt (a, i) (b, j) = ltb a b || (a == b && ltb i j)

module _ {ℓ} {V : Type ℓ} where
  unfoldable pub btree_insert : Key → V → List (Key × V) → List (Key × V)
  btree_insert k v [] = (k, v) ∷ []
  btree_insert k v ((j, w) ∷ m) =
      if key_eq k j
      then (k, v) ∷ m
      else if key_lt k j
      then (k, v) ∷ (j, w) ∷ m
      else (j, w) ∷ btree_insert k v m

  pub btree_get : Key → List (Key × V) → Option V
  btree_get k [] = none
  btree_get k ((j, w) ∷ m) = if key_eq k j then some w else btree_get k m

  -- The write through `get_mut`: nothing where the key is missing.
  pub btree_set : Key → V → List (Key × V) → List (Key × V)
  btree_set k v [] = []
  btree_set k v ((j, w) ∷ m) = if key_eq k j then (j, v) ∷ m else (j, w) ∷ btree_set k v m

  unfoldable pub hash_insert : ℕ → V → List (ℕ × V) → List (ℕ × V)
  hash_insert k v [] = (k, v) ∷ []
  hash_insert k v ((j, w) ∷ m) = if k == j then (j, v) ∷ m else (j, w) ∷ hash_insert k v m

  unfoldable pub hash_get : ℕ → List (ℕ × V) → Option V
  hash_get k [] = none
  hash_get k ((j, w) ∷ m) = if k == j then some w else hash_get k m

  -- `remove`; `hash_get` says what it gives back.
  unfoldable pub hash_remove : ℕ → List (ℕ × V) → List (ℕ × V)
  hash_remove k [] = []
  hash_remove k ((j, w) ∷ m) = let rest = hash_remove k m in if k == j then rest else (j, w) ∷ rest

  pub hash_get-remove :
      (j k : ℕ) (m : List (ℕ × V))
      → hash_get j (hash_remove k m) ≡ (if j == k then none else hash_get j m)
  unfolding hash_get hash_remove
  hash_get-remove j k [] = ground arith
  hash_get-remove j k ((i, w) ∷ m) = ground (arith, hash_get-remove j k m)

  pub btree_get-insert :
      (j k : Key) (v : V) (m : List (Key × V))
      → btree_get j (btree_insert k v m) ≡ (if key_eq j k then some v else btree_get j m)
  unfolding btree_insert btree_get
  btree_get-insert (a, i) (b, k) v [] = refl
  btree_get-insert (a, i) (b, k) v (((c, j), w) ∷ m) =
      ground (arith, btree_get-insert (a, i) (b, k) v m)

  pub btree_get-set :
      (j k : Key) (v : V) (m : List (Key × V))
      → btree_get j (btree_set k v m) ≡ (
          if key_eq j k
          then (elim (btree_get k m) [ none ↦ none | some _ ↦ some v ])
          else btree_get j m)
  unfolding btree_set btree_get
  btree_get-set (a, i) (b, k) v [] = ground arith
  btree_get-set (a, i) (b, k) v (((c, j), w) ∷ m) = ground (arith, btree_get-set (a, i) (b, k) v m)

  pub hash_get-insert :
      (j k : ℕ) (v : V) (m : List (ℕ × V))
      → hash_get j (hash_insert k v m) ≡ (if j == k then some v else hash_get j m)
  unfolding hash_insert hash_get
  hash_get-insert j k v [] = refl
  hash_get-insert j k v ((i, w) ∷ m) = ground (arith, hash_get-insert j k v m)

  pub hash_get-insert_same :
      (k : ℕ) (v : V) (m : List (ℕ × V)) → hash_get k (hash_insert k v m) ≡ some v
  hash_get-insert_same k v m = ground (arith, hash_get-insert k k v m)

  -- The keys rise strictly, from a lower bound on.
  abbrev pub IsSortedFrom : Option Key → List (Key × V) → Type 0
  IsSortedFrom b [] = Unit
  IsSortedFrom none ((k, v) ∷ m) = IsSortedFrom (some k) m
  IsSortedFrom (some b) ((k, v) ∷ m) = (key_lt b k ≡ true) × IsSortedFrom (some k) m

  btree_insert-IsSortedFrom :
      (b k : Key) (v : V) (m : List (Key × V))
      → key_lt b k ≡ true
      → IsSortedFrom (some b) m
      → IsSortedFrom (some b) (btree_insert k v m)
  unfolding btree_insert
  btree_insert-IsSortedFrom (c, j) (a, i) v [] lt h = (lt, tt)
  btree_insert-IsSortedFrom (c, j) (a, i) v (((d, l), w) ∷ []) lt h = ground arith
  btree_insert-IsSortedFrom (c, j) (a, i) v (((d, l), w) ∷ ((e, n), x) ∷ m) lt h =
      ground (arith, btree_insert-IsSortedFrom (d, l) (a, i) v (((e, n), x) ∷ m))

  abbrev pub IsSorted : List (Key × V) → Type 0
  IsSorted m = IsSortedFrom none m

  pub btree_insert-IsSorted :
      (k : Key) (v : V) (m : List (Key × V)) → IsSorted m → IsSorted (btree_insert k v m)
  unfolding btree_insert
  btree_insert-IsSorted (a, i) v [] h = tt
  btree_insert-IsSorted (a, i) v (((d, l), w) ∷ []) h = ground arith
  btree_insert-IsSorted (a, i) v (((d, l), w) ∷ ((e, n), x) ∷ m) h =
      ground (arith, btree_insert-IsSortedFrom (d, l) (a, i) v (((e, n), x) ∷ m))

  pub All-btree_insert {κ} :
      (P : Key × V → Type κ) (k : Key) (v : V) (m : List (Key × V))
      → P (k, v)
      → All P m
      → All P (btree_insert k v m)
  unfolding btree_insert
  All-btree_insert P k v [] p h = (p, tt)
  All-btree_insert P k v ((j, w) ∷ m) p h = elim (Bool-cases (key_eq k j)) [
    | inl e ↦ rw e (p, h.1)
    | inr e ↦ elim (Bool-cases (key_lt k j)) [
      | inl lt ↦ rw (e, lt) (p, h)
      | inr ge ↦ rw (e, ge) (h.0, All-btree_insert P k v m p h.1)
    ]
  ]
