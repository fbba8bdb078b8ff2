-- ===== src/Model/Locations/Enter.antt =====
-- The bytes by location when an object is created (EtwOnCreated of src/launcher/Model.cpp): until
-- its bytes go in, the table fits the live objects without it.
use dx12track.Prelude.{
  ℕ, ◌<◌, ◌≡◌, refl, sym, ap, ◌∙◌, true, some, Map, find, adjust, erase, sum_by, arith, if_both,
  option_both, nonzero, u64_mod, sum_by-erase, sum_by-adjust_same, erase-adjust_self, find-adjust,
  ==_refl,
}
use mathlib.Core.Path.{subst}
use mathlib.Core.Option
use dx12track.Events.{alloc_index}
use dx12track.Model.State.{MemLoc, is_loc, LiveObject, Model}
use dx12track.Model.Join.{edit_live, add_loc, eff_loc_of, can_bind}
use dx12track.Model.Attach.{enter_maps, enter_loc, adopt_found, adopt, etw_on_created}
use dx12track.Model.Locations.{
  IsLocated, HasLocs, loc_share, bytes_of, loc_share-le, add_loc_enters, keyed-adjust,
}
use dx12track.Model.Locations.Moves.{recompute_loc-HasLocs, bind-HasLocs}

-- `o` is stored, with its location not yet counted.
pub record IsEntering (o : LiveObject) (live : Map LiveObject) (loc : ℕ → ℕ → ℕ) : Type 0 where
  pub rest : IsLocated (erase o.id live) loc
  pub stored : LiveObject
  pub found : find o.id live ≡ some stored
  pub same_alloc : alloc_index stored.alloc ≡ alloc_index o.alloc
  pub same_heap : stored.heap_type ≡ o.heap_type
  pub same_size : stored.size_bytes ≡ o.size_bytes
  pub fits : sum_by bytes_of live < u64_mod
  pub keyed : (k : ℕ) (x : LiveObject) → find k live ≡ some x → x.id ≡ k

abbrev pub Enters : LiveObject → Model → Type 0
Enters o m = IsEntering o m.live m.s.etw.loc_bytes

-- Edits of the stored object that leave what was announced alone.
abbrev SameKind : (LiveObject → LiveObject) → Type 0
SameKind f =
    (x : LiveObject)
    → ((f x).alloc ≡ x.alloc)
      × ((f x).heap_type ≡ x.heap_type)
      × ((f x).size_bytes ≡ x.size_bytes)
      × ((f x).id ≡ x.id)

IsEntering-adjust :
    (o : LiveObject) (f : LiveObject → LiveObject) (live : Map LiveObject) (loc : ℕ → ℕ → ℕ)
    → SameKind f
    → IsEntering o live loc
    → IsEntering o (adjust o.id f live) loc
IsEntering-adjust o f live loc same v = record {
  rest = subst (λ x. IsLocated x loc) (sym (erase-adjust_self o.id f live)) v.rest;
  stored = f v.stored;
  found = find-adjust o.id o.id f live ∙ rw (==_refl o.id) (ap (Option.map f) v.found);
  same_alloc = ap alloc_index (same v.stored).0 ∙ v.same_alloc;
  same_heap = (same v.stored).1 ∙ v.same_heap;
  same_size = (same v.stored).2 ∙ v.same_size;
  fits = rw (sum_by-adjust_same bytes_of o.id f live (λ x. (same x).2)) v.fits;
  keyed = keyed-adjust o.id f live (λ x. (same x).3) v.keyed;
}

enter_maps-Enters : (o : LiveObject) (m : Model) → Enters o m → Enters o (enter_maps o m)
unfolding enter_maps
enter_maps-Enters o m v =
    if_both (λ live. IsEntering o live m.s.etw.loc_bytes) (nonzero o.object_ptr)
      (IsEntering-adjust o _ m.live _ (λ x. (refl, refl, refl, refl)) v) v

-- AddLoc with the sign +1 puts its bytes in.
module _ (o : LiveObject) (l : MemLoc) (m : Model) (v : Enters o m) where
  placed : LiveObject → LiveObject
  placed x = record x { eff_loc = l }

  after : IsEntering o (adjust o.id (λ x. record x { eff_loc = l }) m.live) m.s.etw.loc_bytes
  after =
      IsEntering-adjust o (λ x. record x { eff_loc = l }) m.live _ (λ x. (refl, refl, refl, refl)) v

  same_share :
      (h k : ℕ)
      → loc_share h k (record (v.stored) { eff_loc = l }) ≡ loc_share h k (record o { eff_loc = l })
  same_share h k = rw (v.same_alloc, v.same_heap, v.same_size)

  counted-HasLocs :
      HasLocs
        (add_loc (record o { eff_loc = l }) true (edit_live o.id (λ x. record x { eff_loc = l }) m))
  unfolding add_loc
  counted-HasLocs =
      let live = adjust o.id (λ x. record x { eff_loc = l }) m.live in
      record {
        shares =
            add_loc_enters (record o { eff_loc = l })
              (edit_live o.id (λ x. record x { eff_loc = l }) m)
              (λ h k. sum_by (loc_share h k) live)
              (λ h k. omega (
                arith,
                after.rest.shares h k,
                same_share h k,
                sum_by-erase (loc_share h k) o.id live (record (v.stored) { eff_loc = l })
                    (find-adjust o.id o.id _ m.live
                      ∙ rw (==_refl o.id)
                          (ap (Option.map (λ (x : LiveObject). record x { eff_loc = l })) v.found)),
              ))
              (λ h k. omega (arith, loc_share-le h k live, after.fits));
        fits = after.fits;
        keyed = after.keyed;
      }

enter_loc-HasLocs : (o : LiveObject) (ts : ℕ) (m : Model) → Enters o m → HasLocs (enter_loc o ts m)
unfolding enter_loc
enter_loc-HasLocs o ts m v =
    let l = (eff_loc_of o m).0 in
    if_both HasLocs (is_loc l MemLoc.unknown) (counted-HasLocs o l m v)
      (recompute_loc-HasLocs o.id ts true _ (counted-HasLocs o l m v))

adopt_found-HasLocs : (key id ts : ℕ) (m : Model) → HasLocs m → HasLocs (adopt_found key id ts m)
unfolding adopt_found
adopt_found-HasLocs key id ts m v = option_both HasLocs (find key m.etw_objs) v (λ e _.
    option_both HasLocs (find id m.live) v
      (λ o _. if_both HasLocs (can_bind e o) (bind-HasLocs key id ts m v) v))

adopt-HasLocs : (o : LiveObject) (ts : ℕ) (m : Model) → HasLocs m → HasLocs (adopt o ts m)
unfolding adopt
adopt-HasLocs o ts m v =
    if_both HasLocs (nonzero o.object_ptr)
      (option_both HasLocs (find o.object_ptr m.etw_by_addr) v
        (λ key _. adopt_found-HasLocs key o.id ts m v))
      v

-- EtwOnCreated counts the object that was stored.
pub etw_on_created-HasLocs :
    (o : LiveObject) (ts : ℕ) (m : Model) → Enters o m → HasLocs (etw_on_created o ts m)
unfolding etw_on_created
etw_on_created-HasLocs o ts m v =
    adopt-HasLocs o ts _ (enter_loc-HasLocs o ts _ (enter_maps-Enters o m v))
