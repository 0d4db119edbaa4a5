-- ===== src/Platform/Assoc.antt =====
-- An association list in the order of insertion: what an `IndexMap` holds.
use steam_controller_daemon.Prelude.Eq.{Eq}
use steam_controller_daemon.Prelude.{
  ◌≡◌, refl, Option, some, none, List, [], ◌∷◌, suc, length, ◌==◌, if◌then◌else◌, arith,
}

module _ {K V : Type 0} ⦃e : Eq K⦄ where
  unfoldable pub get : List (K × V) → K → Option V
  get [] k = none
  get ((j, v) ∷ m) k = if j == k then some v else get m k

  unfoldable pub insert : List (K × V) → K → V → List (K × V)
  insert [] k v = (k, v) ∷ []
  insert ((j, w) ∷ m) k v = if j == k then (j, v) ∷ m else (j, w) ∷ insert m k v

  -- The keys of an `IndexMap` are distinct, so that it is the same to drop every entry of the key.
  unfoldable pub shift_remove : List (K × V) → K → List (K × V)
  shift_remove [] k = []
  shift_remove ((j, w) ∷ m) k =
      let rest = shift_remove m k in if j == k then rest else (j, w) ∷ rest

  pub get-insert :
      (m : List (K × V)) (k j : K) (v : V)
      → get (insert m k v) j ≡ (if k == j then some v else get m j)
  unfolding get insert
  get-insert [] k j v = refl
  get-insert ((i, w) ∷ m) k j v =
      ground (arith, e.beq_iff k j, e.beq_iff i k, e.beq_iff i j, get-insert m k j v)

  pub get-shift_remove :
      (m : List (K × V)) (k j : K) → get (shift_remove m k) j ≡ (if k == j then none else get m j)
  unfolding get shift_remove
  get-shift_remove [] k j = ground arith
  get-shift_remove ((i, w) ∷ m) k j =
      ground (arith, e.beq_iff k j, e.beq_iff i k, e.beq_iff i j, get-shift_remove m k j)

  pub length-insert :
      (m : List (K × V)) (k : K) (v : V) → get m k ≡ none → length (insert m k v) ≡ suc (length m)
  unfolding get insert
  length-insert [] k v h = refl
  length-insert ((j, w) ∷ m) k v h = ground (arith, length-insert m k v)
