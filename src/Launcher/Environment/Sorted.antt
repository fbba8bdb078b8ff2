-- ===== src/Launcher/Environment/Sorted.antt =====
-- What the target's environment holds, and in which order (BuildEnvironment of
-- src/launcher/Elevation.cpp).
use Prim.Native.Nat.{Ordering}
use mathlib.Core.List.{append-nil}
use dx12track.Prelude.{
  ℕ, ◌+◌, ◌≡◌, refl, ◌∙◌, ap, Bool, true, false, List, [], ◌∷◌, ◌++◌, Option, arith, lists_eq,
  lists_eq→≡, if◌then◌else◌, if_both, if_cases,
}
use dx12track.Wide.{Wide, count}
use dx12track.Launcher.Environment.{
  split_env_block, block_of, is_ours, erase_ours, less, insert_sorted, stable_sort, texts,
  build_environment,
}
use dx12track.Launcher.Environment.Blocks.{
  IsText, IsEntry, AreEntries, split_env_block-block_of, split_env_block-AreEntries,
}

count-append : (x : Wide) (es fs : List Wide) → count x (es ++ fs) ≡ count x es + count x fs
count-append x [] fs = omega arith
count-append x (e ∷ es) fs = omega (arith, count-append x es fs)

AreEntries-append : (es fs : List Wide) → AreEntries es → AreEntries fs → AreEntries (es ++ fs)
AreEntries-append [] fs p q = q
AreEntries-append (e ∷ es) fs p q = (p.0, AreEntries-append es fs p.1 q)

-- The variables have names, and no NULs.
abbrev pub AreVariables : List (Wide × Wide) → Type 0
AreVariables [] = Unit
AreVariables ((name, value) ∷ vars) = (IsEntry name × IsText value) × AreVariables vars

IsText-join : (s t : Wide) → IsText s → IsText t → IsText (s ++ 61 ∷ t)
IsText-join [] t p q = (omega arith, q)
IsText-join (c ∷ s) t p q = (p.0, IsText-join s t p.1 q)

texts-AreEntries : (vars : List (Wide × Wide)) → AreVariables vars → AreEntries (texts vars)
unfolding texts
texts-AreEntries [] h = tt
texts-AreEntries (([], value) ∷ vars) h = absurd h.0.0
texts-AreEntries ((c ∷ name, value) ∷ vars) h =
    ((h.0.0.0, IsText-join name value h.0.0.1 h.0.1), texts-AreEntries vars h.1)

count_unless :
    (x e : Wide) (rest : List Wide) (b g : Bool) (m : ℕ)
    → count x rest ≡ (if g then 0 else m)
    → (lists_eq e x ≡ true → b ≡ g)
    → count x (if b then rest else e ∷ rest)
      ≡ (if g then 0 else (if lists_eq e x then 1 else 0) + m)
count_unless x e rest b g m ih same = ground arith

module _ (cmp : Wide → Wide → Ordering) where
  -- No entry is before the one in front of it.
  abbrev pub IsSorted : List Wide → Type 0
  IsSorted [] = Unit
  IsSorted (e ∷ []) = Unit
  IsSorted (e ∷ f ∷ fs) = (less cmp f e ≡ false) × IsSorted (f ∷ fs)

  erase_ours-AreEntries : (es : List Wide) → AreEntries es → AreEntries (erase_ours cmp es)
  unfolding erase_ours
  erase_ours-AreEntries [] h = tt
  erase_ours-AreEntries (e ∷ es) h =
      if_both AreEntries (is_ours cmp e) (erase_ours-AreEntries es h.1)
        (h.0, erase_ours-AreEntries es h.1)

  insert_sorted-AreEntries :
      (e : Wide) (es : List Wide) → IsEntry e → AreEntries es → AreEntries (insert_sorted cmp e es)
  unfolding insert_sorted
  insert_sorted-AreEntries e [] p q = (p, tt)
  insert_sorted-AreEntries e (f ∷ fs) p q =
      if_both AreEntries (less cmp f e) (q.0, insert_sorted-AreEntries e fs p q.1) (p, q)

  stable_sort-AreEntries : (es : List Wide) → AreEntries es → AreEntries (stable_sort cmp es)
  unfolding stable_sort
  stable_sort-AreEntries [] h = tt
  stable_sort-AreEntries (e ∷ es) h =
      insert_sorted-AreEntries e (stable_sort cmp es) h.0 (stable_sort-AreEntries es h.1)

  count-insert_sorted :
      (x e : Wide) (es : List Wide) → count x (insert_sorted cmp e es) ≡ count x (e ∷ es)
  unfolding insert_sorted
  count-insert_sorted x e [] = refl
  count-insert_sorted x e (f ∷ fs) = ground (arith, count-insert_sorted x e fs)

  count-stable_sort : (x : Wide) (es : List Wide) → count x (stable_sort cmp es) ≡ count x es
  unfolding stable_sort
  count-stable_sort x [] = refl
  count-stable_sort x (e ∷ es) =
      omega (arith, count-insert_sorted x e (stable_sort cmp es), count-stable_sort x es)

  count-erase_ours :
      (x : Wide) (es : List Wide)
      → count x (erase_ours cmp es) ≡ (if is_ours cmp x then 0 else count x es)
  unfolding erase_ours
  count-erase_ours x [] = ground arith
  count-erase_ours x (e ∷ es) =
      count_unless x e (erase_ours cmp es) (is_ours cmp e) (is_ours cmp x) (count x es)
        (count-erase_ours x es) (λ t. ap (is_ours cmp) (lists_eq→≡ e x t))

  IsSorted-cons :
      (e f g : Wide) (xs ys : List Wide) (b : Bool)
      → less cmp g f ≡ false
      → less cmp e f ≡ false
      → IsSorted (if b then g ∷ xs else e ∷ ys)
      → IsSorted (f ∷ (if b then g ∷ xs else e ∷ ys))
  IsSorted-cons e f g xs ys true p q h = (p, h)
  IsSorted-cons e f g xs ys false p q h = (q, h)

  module _ (asym : (a b : Wide) → less cmp a b ≡ true → less cmp b a ≡ false) where
    insert_sorted-IsSorted :
        (e : Wide) (es : List Wide) → IsSorted es → IsSorted (insert_sorted cmp e es)
    unfolding insert_sorted
    insert_sorted-IsSorted e [] h = tt
    insert_sorted-IsSorted e (f ∷ []) h =
        if_cases IsSorted (less cmp f e) (λ t. (asym f e t, tt)) (λ t. (t, tt))
    insert_sorted-IsSorted e (f ∷ g ∷ fs) h =
        if_cases IsSorted (less cmp f e)
          (λ t.
            IsSorted-cons e f g (insert_sorted cmp e fs) (g ∷ fs) (less cmp g e) h.0 (asym f e t)
              (insert_sorted-IsSorted e (g ∷ fs) h.1))
          (λ t. (t, h))

    stable_sort-IsSorted : (es : List Wide) → IsSorted (stable_sort cmp es)
    unfolding stable_sort
    stable_sort-IsSorted [] = tt
    stable_sort-IsSorted (e ∷ es) =
        insert_sorted-IsSorted e (stable_sort cmp es) (stable_sort-IsSorted es)

module _ (cmp : Wide → Wide → Ordering) (vars : List (Wide × Wide)) (es : List Wide) where
  -- A block's entries are those of `es` that the launcher does not set, and the variables, in order.
  abbrev pub IsFor : Wide → Type 0
  IsFor block =
      ((x : Wide)
        → count x (split_env_block block)
          ≡ (if is_ours cmp x then 0 else count x es) + count x (texts vars))
      × IsSorted cmp (split_env_block block)

module _ (cmp : Wide → Wide → Ordering) (vars : List (Wide × Wide))
    (named : AreVariables vars) where
  split-built :
      (entries : List Wide) (rest : Wide)
      → AreEntries entries
      → split_env_block (block_of (stable_sort cmp (erase_ours cmp entries ++ texts vars)) ++ rest)
        ≡ stable_sort cmp (erase_ours cmp entries ++ texts vars)
  split-built entries rest h = split_env_block-block_of _ rest (
      stable_sort-AreEntries cmp _ (
        AreEntries-append (erase_ours cmp entries) (texts vars)
          (erase_ours-AreEntries cmp entries h) (texts-AreEntries vars named)))

  count-built :
      (x : Wide) (entries : List Wide)
      → count x (stable_sort cmp (erase_ours cmp entries ++ texts vars))
        ≡ (if is_ours cmp x then 0 else count x entries) + count x (texts vars)
  count-built x entries =
      count-stable_sort cmp x _
      ∙ (count-append x (erase_ours cmp entries) (texts vars)
          ∙ ap (λ n. n + count x (texts vars)) (count-erase_ours cmp x entries))

-- The variables that a process which is started with the block finds, in a block of an original: each of
-- the original's entries but those that the launcher sets, each of the launcher's variables, and no
-- other, as often as there and here; where the comparison is asymmetric, no entry is before the one in
-- front of it. The original is not the empty block, the variables have names, and none holds a NUL.
pub build_environment-Replaces :
    (cmp : Wide → Wide → Ordering) (c : ℕ) (block : Wide) (own : Option Wide)
    (vars : List (Wide × Wide))
    → AreVariables vars
    → ((a b : Wide) → less cmp a b ≡ true → less cmp b a ≡ false)
    → IsFor cmp vars (split_env_block (c ∷ block)) (build_environment cmp (c ∷ block) own vars)
unfolding build_environment
build_environment-Replaces cmp c block own vars named asym =
    let original = split_env_block (c ∷ block) in
    let reads = split-built cmp vars named original [] (split_env_block-AreEntries (c ∷ block)) in
    rw (rw append-nil at reads) (
      λ x. count-built cmp vars named x original,
      stable_sort-IsSorted cmp asym (erase_ours cmp original ++ texts vars),
    )
