-- ===== src/Launcher/Environment.antt =====
-- The environment of the target (ElevatedSession::BuildEnvironment of src/launcher/Elevation.cpp). An
-- environment block is the units of its strings, each closed by a NUL, and one NUL more. What
-- CompareStringOrdinal answers, ignoring case, is an argument.
pub mod Blocks
pub mod Sorted
use Prim.Native.Nat.{Ordering}
use dx12track.Prelude.{
  ℕ, zero, suc, ◌+◌, Bool, true, false, not, ◌&&◌, List, [], ◌∷◌, ◌++◌, Option, none, some, length,
  take, leb, ◌==◌, if◌then◌else◌,
}
use dx12track.Json.{codes}
use dx12track.Wide.{Wide}

-- SplitEnvBlock, with the units of the entry at hand. The end of the block is the first empty entry.
unfoldable pub split_from : Wide → Wide → List Wide
split_from entry [] = []
split_from [] (c ∷ s) = if c == 0 then [] else split_from (c ∷ []) s
split_from (d ∷ entry) (c ∷ s) =
    let next = split_from [] s in
    let more = split_from (d ∷ (entry ++ c ∷ [])) s in if c == 0 then (d ∷ entry) ∷ next else more

unfoldable pub split_env_block : Wide → List Wide
unfolding split_from
split_env_block block = split_from [] block

-- The index of the first '=' behind the start, or the size.
unfoldable pub find_equals : Wide → ℕ
find_equals [] = 0
find_equals (c ∷ s) = if c == 61 then 0 else 1 + find_equals s

unfoldable pub env_name_len : Wide → ℕ
unfolding find_equals
env_name_len [] = 0
env_name_len (c ∷ s) = 1 + find_equals s

unfoldable pub close_each : List Wide → Wide
close_each [] = []
close_each (e ∷ es) = e ++ 0 ∷ close_each es

-- A block has two NULs at least.
unfoldable pub block_of : List Wide → Wide
unfolding close_each
block_of [] = 0 ∷ 0 ∷ []
block_of (e ∷ es) = close_each (e ∷ es) ++ 0 ∷ []

abbrev pub env_prefix : Wide
unfolding codes
env_prefix = codes "DX12TRACK_"

abbrev pub is_equal : Ordering → Bool
is_equal Ordering.eq = true
is_equal _ = false

abbrev pub is_less : Ordering → Bool
is_less Ordering.lt = true
is_less _ = false

-- name=value
unfoldable pub texts : List (Wide × Wide) → List Wide
texts [] = []
texts ((name, value) ∷ vars) = (name ++ 61 ∷ value) ∷ texts vars

module _ (compare_ordinal : Wide → Wide → Ordering) where
  -- An entry that the launcher's own variables replace.
  unfoldable pub is_ours : Wide → Bool
  is_ours e =
      leb (length env_prefix) (env_name_len e)
      && is_equal (compare_ordinal (take (length env_prefix) e) env_prefix)

  unfoldable pub erase_ours : List Wide → List Wide
  erase_ours [] = []
  erase_ours (e ∷ es) = let rest = erase_ours es in if is_ours e then rest else e ∷ rest

  unfoldable pub less : Wide → Wide → Bool
  less a b = is_less (compare_ordinal (take (env_name_len a) a) (take (env_name_len b) b))

  -- std::stable_sort by `less`.
  unfoldable pub insert_sorted : Wide → List Wide → List Wide
  insert_sorted e [] = e ∷ []
  insert_sorted e (f ∷ fs) =
      let rest = insert_sorted e fs in if less f e then f ∷ rest else e ∷ f ∷ fs

  unfoldable pub stable_sort : List Wide → List Wide
  stable_sort [] = []
  stable_sort (e ∷ es) = insert_sorted e (stable_sort es)

  -- `original` is the handed-over block, empty where there is none; `own` what GetEnvironmentStrings
  -- answers.
  unfoldable pub build_environment : Wide → Option Wide → List (Wide × Wide) → Wide
  build_environment [] none vars = block_of (stable_sort (texts vars))
  build_environment [] (some own) vars =
      block_of (stable_sort (erase_ours (split_env_block own) ++ texts vars))
  build_environment (c ∷ s) own vars =
      block_of (stable_sort (erase_ours (split_env_block (c ∷ s)) ++ texts vars))
