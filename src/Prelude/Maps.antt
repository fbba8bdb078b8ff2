-- ===== src/Prelude/Maps.antt =====
-- Association lists keyed by numbers: the program's std::unordered_map. `put` is `m[k] = v`,
-- `adjust` a write through an iterator or a reference to the entry at `k`.
use Prim.Native.Nat.{ℕ, ◌+◌, ◌≤◌}
use mathlib.Core.Path.{◌≡◌, refl, sym, ◌∙◌}
use mathlib.Core.Logic.{◌≢◌, inl, inr}
use mathlib.Core.List.{List, [], ◌∷◌}
use mathlib.Core.Option
use mathlib.Core.Option.{Option, none, some}
use native.Mathlib.Omega.{arith}
use dx12track.Prelude.Tests.{◌==◌, if◌then◌else◌, Bool-cases}

abbrev pub Map {ℓ} : Type ℓ → Type ℓ
Map V = List (ℕ × V)

module _ {ℓ} {V : Type ℓ} where
  unfoldable pub find : ℕ → Map V → Option V
  find k [] = none
  find k ((j, v) ∷ m) = if j == k then some v else find k m

  unfoldable pub put : ℕ → V → Map V → Map V
  put k v [] = (k, v) ∷ []
  put k v ((j, w) ∷ m) = if j == k then (j, v) ∷ m else (j, w) ∷ put k v m

  unfoldable pub adjust : ℕ → (V → V) → Map V → Map V
  adjust k f [] = []
  adjust k f ((j, w) ∷ m) = if j == k then (j, f w) ∷ m else (j, w) ∷ adjust k f m

  unfoldable pub erase : ℕ → Map V → Map V
  erase k [] = []
  erase k ((j, w) ∷ m) = if j == k then m else (j, w) ∷ erase k m

  -- No key twice.
  abbrev pub Distinct : Map V → Type ℓ
  Distinct [] = Unit
  Distinct ((k, v) ∷ m) = (find k m ≡ none) × Distinct m

  -- The sum of a weight over the values.
  unfoldable pub sum_by : (V → ℕ) → Map V → ℕ
  sum_by w [] = 0
  sum_by w ((k, v) ∷ m) = w v + sum_by w m

module _ {ℓ} {V : Type ℓ} where
  pub find-put :
      (k j : ℕ) (v : V) (m : Map V) → find j (put k v m) ≡ (if k == j then some v else find j m)
  unfolding find put
  find-put k j v [] = refl
  find-put k j v ((i, w) ∷ m) = ground (arith, find-put k j v m)

  -- What holds of the entry put and of every entry before holds of every entry.
  pub find-put-all {κ} :
      (P : V → Type κ) (k : ℕ) (v : V) (m : Map V)
      → P v
      → ((j : ℕ) (w : V) → find j m ≡ some w → P w)
      → (j : ℕ) (w : V) → find j (put k v m) ≡ some w
      → P w
  find-put-all P k v m p all j w e = elim (Bool-cases (k == j)) [
    | inl t ↦ let same : v ≡ w = ground (arith, find-put k j v m) in rw⁻¹ same p
    | inr t ↦ all j w (ground (arith, find-put k j v m))
  ]

  pub find-adjust :
      (k j : ℕ) (f : V → V) (m : Map V)
      → find j (adjust k f m) ≡ (if k == j then Option.map f (find j m) else find j m)
  unfolding find adjust
  find-adjust k j f [] = ground arith
  find-adjust k j f ((i, w) ∷ m) = ground (arith, find-adjust k j f m)

  pub find-erase_ne : (k j : ℕ) (m : Map V) → k ≢ j → find j (erase k m) ≡ find j m
  unfolding find erase
  find-erase_ne k j [] h = refl
  find-erase_ne k j ((i, w) ∷ m) h = ground (arith, find-erase_ne k j m h)

  pub find-erase_self : (k : ℕ) (m : Map V) → Distinct m → find k (erase k m) ≡ none
  unfolding find erase
  find-erase_self k [] d = refl
  find-erase_self k ((i, w) ∷ m) d = ground (arith, find-erase_self k m d.1)

  pub find-erase-some :
      (k j : ℕ) (v : V) (m : Map V)
      → Distinct m
      → find j (erase k m) ≡ some v
      → (k ≢ j) × (find j m ≡ some v)
  find-erase-some k j v m d e = elim (Bool-cases (k == j)) [
    | inl t ↦ ground (arith, find-erase_self k m d)
    | inr t ↦ let ne : k ≢ j = ground arith in (ne, sym (find-erase_ne k j m ne) ∙ e)
  ]

  pub put-Distinct : (k : ℕ) (v : V) (m : Map V) → Distinct m → Distinct (put k v m)
  unfolding put find
  put-Distinct k v [] d = (refl, tt)
  put-Distinct k v ((i, w) ∷ m) d = ground (arith, find-put k i v m, put-Distinct k v m d.1)

  pub adjust-Distinct : (k : ℕ) (f : V → V) (m : Map V) → Distinct m → Distinct (adjust k f m)
  unfolding adjust find
  adjust-Distinct k f [] d = tt
  adjust-Distinct k f ((i, w) ∷ m) d =
      ground (arith, find-adjust k i f m, adjust-Distinct k f m d.1)

  pub sum_by-put :
      (w : V → ℕ) (k : ℕ) (v : V) (m : Map V)
      → find k m ≡ none
      → sum_by w (put k v m) ≡ sum_by w m + w v
  unfolding find put sum_by
  sum_by-put w k v [] h = omega arith
  sum_by-put w k v ((i, u) ∷ m) h = ground (arith, sum_by-put w k v m)

  pub sum_by-adjust :
      (w : V → ℕ) (k : ℕ) (f : V → V) (m : Map V) (v : V)
      → find k m ≡ some v
      → sum_by w (adjust k f m) + w v ≡ sum_by w m + w (f v)
  unfolding find adjust sum_by
  sum_by-adjust w k f [] v h = cc
  sum_by-adjust w k f ((i, u) ∷ m) v h = ground (arith, sum_by-adjust w k f m v)

  pub sum_by-erase :
      (w : V → ℕ) (k : ℕ) (m : Map V) (v : V)
      → find k m ≡ some v
      → sum_by w (erase k m) + w v ≡ sum_by w m
  unfolding find erase sum_by
  sum_by-erase w k [] v h = cc
  sum_by-erase w k ((i, u) ∷ m) v h = ground (arith, sum_by-erase w k m v)

  pub sum_by-le_of_find :
      (w : V → ℕ) (k : ℕ) (m : Map V) (v : V) → find k m ≡ some v → w v ≤ sum_by w m
  sum_by-le_of_find w k m v h = omega (arith, sum_by-erase w k m v h)

module _ {ℓ} {V : Type ℓ} where
  pub erase-Distinct : (k : ℕ) (m : Map V) → Distinct m → Distinct (erase k m)
  unfolding erase find
  erase-Distinct k [] d = tt
  erase-Distinct k ((i, w) ∷ m) d = elim (Bool-cases (i == k)) [
    | inl e ↦ rw e d.1
    | inr e ↦ rw e (find-erase_ne k i m (ground arith) ∙ d.0, erase-Distinct k m d.1)
  ]

  pub sum_by_mono : (v w : V → ℕ) (m : Map V) → ((x : V) → v x ≤ w x) → sum_by v m ≤ sum_by w m
  unfolding sum_by
  sum_by_mono v w [] h = omega arith
  sum_by_mono v w ((i, x) ∷ m) h = omega (arith, h x, sum_by_mono v w m h)

  -- An edit that leaves the weight alone leaves the sum alone.
  pub sum_by-adjust_same :
      (w : V → ℕ) (k : ℕ) (f : V → V) (m : Map V)
      → ((x : V) → w (f x) ≡ w x)
      → sum_by w (adjust k f m) ≡ sum_by w m
  unfolding sum_by adjust
  sum_by-adjust_same w k f [] h = refl
  sum_by-adjust_same w k f ((i, x) ∷ m) h = ground (arith, h x, sum_by-adjust_same w k f m h)

  pub erase-adjust_self : (k : ℕ) (f : V → V) (m : Map V) → erase k (adjust k f m) ≡ erase k m
  unfolding erase adjust
  erase-adjust_self k f [] = refl
  erase-adjust_self k f ((i, x) ∷ m) = ground (arith, erase-adjust_self k f m)

  pub erase-adjust_ne :
      (k j : ℕ) (f : V → V) (m : Map V) → k ≢ j → erase j (adjust k f m) ≡ adjust k f (erase j m)
  unfolding erase adjust
  erase-adjust_ne k j f [] h = refl
  erase-adjust_ne k j f ((i, x) ∷ m) h = ground (arith, erase-adjust_ne k j f m h)

  pub erase-put : (k : ℕ) (v : V) (m : Map V) → find k m ≡ none → erase k (put k v m) ≡ m
  unfolding erase put find
  erase-put k v [] h = ground arith
  erase-put k v ((i, x) ∷ m) h = ground (arith, erase-put k v m)
