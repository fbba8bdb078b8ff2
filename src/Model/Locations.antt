-- ===== src/Model/Locations.antt =====
-- The bytes by location (`s_.etw.loc_bytes` of src/launcher/Model.cpp) against the live objects:
-- AddLoc is always called in pairs that follow an object's `eff_loc`.
pub mod Moves
pub mod Children
pub mod Enter
pub mod Leave
pub mod Events
pub mod Calls
pub mod Main
use dx12track.Prelude.{
  ℕ, ◌+◌, ◌≤◌, ◌<◌, ◌≡◌, refl, true, false, Option, some, Map, find, adjust, sum_by, arith, ◌==◌,
  if◌then◌else◌, u64_mod, add64_exact, sub_clamped, sum_by-adjust, sum_by-adjust_same, sum_by_mono,
  find-adjust, sum_by-le_of_find, Option-cases, inl, inr,
}
use mathlib.Core.Option
use dx12track.Events.{alloc_index}
use dx12track.Model.State.{MemLoc, LiveObject, Model, heap_bucket, loc_index}
use dx12track.Model.Join.{add_loc, relocate, edit_live}

-- What an object adds to the cell of a heap type and a location.
abbrev pub loc_share : ℕ → ℕ → LiveObject → ℕ
loc_share h l o =
    if alloc_index o.alloc == 0
    then 0
    else if heap_bucket o.heap_type == h
    then (if loc_index o.eff_loc == l then o.size_bytes else 0)
    else 0

abbrev pub bytes_of : LiveObject → ℕ
bytes_of o = o.size_bytes

pub record IsLocated (live : Map LiveObject) (loc : ℕ → ℕ → ℕ) : Type 0 where
  pub shares : (h l : ℕ) → loc h l ≡ sum_by (loc_share h l) live
  pub fits : sum_by bytes_of live < u64_mod
  pub keyed : (k : ℕ) (o : LiveObject) → find k live ≡ some o → o.id ≡ k

-- Each cell is the sum over the live objects of that heap type and location.
abbrev pub HasLocs : Model → Type 0
HasLocs m = IsLocated m.live m.s.etw.loc_bytes

pub loc_share-le :
    (h l : ℕ) (live : Map LiveObject) → sum_by (loc_share h l) live ≤ sum_by bytes_of live
loc_share-le h l live = sum_by_mono (loc_share h l) bytes_of live (λ o. ground arith)

-- Edits of an object that leave its share alone.
abbrev pub SameShare : (LiveObject → LiveObject) → Type 0
SameShare f =
    (o : LiveObject)
    → (alloc_index (f o).alloc ≡ alloc_index o.alloc)
      × ((f o).heap_type ≡ o.heap_type)
      × ((f o).size_bytes ≡ o.size_bytes)
      × (loc_index (f o).eff_loc ≡ loc_index o.eff_loc)
      × ((f o).id ≡ o.id)

pub keyed-adjust :
    (id : ℕ) (f : LiveObject → LiveObject) (live : Map LiveObject)
    → ((o : LiveObject) → (f o).id ≡ o.id)
    → ((k : ℕ) (o : LiveObject) → find k live ≡ some o → o.id ≡ k)
    → (k : ℕ) (o : LiveObject) → find k (adjust id f live) ≡ some o
    → o.id ≡ k
keyed-adjust id f live same keyed k o e = elim (Option-cases (find k live)) [
  | inl p ↦ ground (arith, find-adjust id k f live)
  | inr (y, p) ↦ ground (arith, find-adjust id k f live, same y, keyed k y)
]

pub edit_live-HasLocs :
    (id : ℕ) (f : LiveObject → LiveObject) (m : Model)
    → SameShare f
    → HasLocs m
    → HasLocs (edit_live id f m)
edit_live-HasLocs id f m same v = record {
  shares = λ h l.
      rw (sum_by-adjust_same (loc_share h l) id f m.live (λ o. ground (arith, same o)))
        (v.shares h l);
  fits = rw (sum_by-adjust_same bytes_of id f m.live (λ o. (same o).2)) v.fits;
  keyed = keyed-adjust id f m.live (λ o. (same o).4) v.keyed;
}

-- AddLoc takes an object's share out of a table that holds it, and puts it in where it fits.
module _ (o : LiveObject) (m : Model) (total : ℕ → ℕ → ℕ) where
  pub add_loc_leaves :
      ((h l : ℕ) → m.s.etw.loc_bytes h l ≡ total h l)
      → ((h l : ℕ) → loc_share h l o ≤ total h l)
      → (h l : ℕ) → (add_loc o false m).s.etw.loc_bytes h l + loc_share h l o ≡ total h l
  unfolding add_loc sub_clamped
  add_loc_leaves before held h l = ground (
    arith,
    before h l,
    held h l,
    before (heap_bucket o.heap_type) (loc_index o.eff_loc),
    held (heap_bucket o.heap_type) (loc_index o.eff_loc),
  )

  pub add_loc_enters :
      ((h l : ℕ) → m.s.etw.loc_bytes h l + loc_share h l o ≡ total h l)
      → ((h l : ℕ) → total h l < u64_mod)
      → (h l : ℕ) → (add_loc o true m).s.etw.loc_bytes h l ≡ total h l
  unfolding add_loc
  add_loc_enters before room h l = ground (
    arith,
    before h l,
    before (heap_bucket o.heap_type) (loc_index o.eff_loc),
    room (heap_bucket o.heap_type) (loc_index o.eff_loc),
    add64_exact (m.s.etw.loc_bytes (heap_bucket o.heap_type) (loc_index o.eff_loc)) o.size_bytes,
  )

module _ (o : LiveObject) (l : MemLoc) (m : Model) where
  relocate_live : (relocate o l m).live ≡ adjust o.id (λ x. record x { eff_loc = l }) m.live
  unfolding relocate add_loc
  relocate_live = refl

  module _ (v : HasLocs m) (held : find o.id m.live ≡ some o) where
    moved_sum :
        (w : LiveObject → ℕ)
        → sum_by w (relocate o l m).live + w o ≡ sum_by w m.live + w (record o { eff_loc = l })
    moved_sum w = rw relocate_live (sum_by-adjust w o.id _ m.live o held)

    moved_fits : sum_by bytes_of (relocate o l m).live < u64_mod
    moved_fits = omega (arith, moved_sum bytes_of, v.fits)

    pub relocate-HasLocs : HasLocs (relocate o l m)
    unfolding relocate
    relocate-HasLocs =
        let o' = record o { eff_loc = l } in
        let left = add_loc o false m in
        let without =
          add_loc_leaves o m (λ h k. sum_by (loc_share h k) m.live) v.shares
            (λ h k. sum_by-le_of_find (loc_share h k) o.id m.live o held) in
        record {
          shares =
              add_loc_enters o' (edit_live o.id (λ x. record x { eff_loc = l }) left)
                (λ h k. sum_by (loc_share h k) (relocate o l m).live)
                (λ h k. omega (arith, without h k, moved_sum (loc_share h k)))
                (λ h k. omega (arith, loc_share-le h k (relocate o l m).live, moved_fits));
          fits = moved_fits;
          keyed =
              rw relocate_live
                (keyed-adjust o.id (λ x. record x { eff_loc = l }) m.live (λ x. refl) v.keyed);
        }
