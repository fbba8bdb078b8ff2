-- ===== src/Model/Locations/Leave.antt =====
-- The bytes by location when an object is destroyed (EtwOnDestroyed of src/launcher/Model.cpp):
-- once its bytes are out, the table fits the live objects without it.
use dx12track.Prelude.{
  ℕ, ◌≡◌, ◌≢◌, sym, ap, ◌∙◌, false, List, [], ◌∷◌, some, find, erase, sum_by, arith, inl, inr,
  Bool-cases, if_both, option_both, nonzero, contains, sum_by-le_of_find, sum_by-erase,
  erase-adjust_self, erase-adjust_ne, find-erase_ne, find-erase_self, Distinct,
}
use mathlib.Core.Path.{subst}
use dx12track.Events.{ObjectType, is_object_type}
use dx12track.Model.State.{MemLoc, is_loc, LiveObject, Model}
use dx12track.Model.Join.{side_line, add_loc, relocate}
use dx12track.Model.Attach.{
  leave_address, leave_partner, leave_parent, children_of, fall_back, fall_back_each,
  leave_children, etw_on_destroyed,
}
use dx12track.Model.Locations.{
  IsLocated, HasLocs, loc_share, bytes_of, add_loc_leaves, relocate-HasLocs,
}
use dx12track.Model.Locations.Children.{NoSelf, children_of-NoSelf, leave_parent-NoSelf}

-- `m` with the object gone.
abbrev pub without : ℕ → Model → Model
without id m = record m { live = erase id m.live }

keyed-erase :
    (id : ℕ) (m : Model)
    → HasLocs m
    → Distinct m.live
    → (k : ℕ) (o : LiveObject) → find k (erase id m.live) ≡ some o
    → o.id ≡ k
keyed-erase id m v d k o e =
    ground (arith, find-erase_ne id k m.live, find-erase_self id m.live d, v.keyed k o)

-- AddLoc with the sign -1, of an object that is about to leave.
add_loc-leaves-HasLocs :
    (o : LiveObject) (m : Model)
    → HasLocs m
    → Distinct m.live
    → find o.id m.live ≡ some o
    → HasLocs (without o.id (add_loc o false m))
unfolding add_loc
add_loc-leaves-HasLocs o m v d held = record {
  shares = λ h l. omega (
    arith,
    sum_by-erase (loc_share h l) o.id m.live o held,
    add_loc_leaves o m (λ h k. sum_by (loc_share h k) m.live) v.shares
        (λ h k. sum_by-le_of_find (loc_share h k) o.id m.live o held) h l,
  );
  fits = omega (arith, sum_by-erase bytes_of o.id m.live o held, v.fits);
  keyed = keyed-erase o.id m v d;
}

relocate-without :
    (id : ℕ) (o : LiveObject) (l : MemLoc) (m : Model)
    → id ≢ o.id
    → find o.id m.live ≡ some o
    → HasLocs (without id m)
    → HasLocs (without id (relocate o l m))
unfolding relocate add_loc
relocate-without id o l m ne held v =
    subst (λ live. IsLocated live (relocate o l m).s.etw.loc_bytes)
      (sym (erase-adjust_ne o.id id (λ x. record x { eff_loc = l }) m.live (λ e. ne (sym e))))
      (relocate-HasLocs o l (without id m) v (find-erase_ne id o.id m.live ne ∙ held))

-- A child of the dying heap falls back to its own location.
fall_back-without :
    (id cid ts : ℕ) (m : Model)
    → id ≢ cid
    → HasLocs (without id m)
    → HasLocs (without id (fall_back cid ts m))
unfolding fall_back side_line
fall_back-without id cid ts m ne v =
    option_both (λ x. HasLocs (without id x)) (find cid m.live) v
      (λ o e.
        let here : o.id ≡ cid = v.keyed cid o (find-erase_ne id cid m.live ne ∙ e) in
        if_both (λ x. HasLocs (without id x)) (is_loc o.eff_loc o.own_loc) v
          (relocate-without id o o.own_loc m (λ p. ne (p ∙ here)) (ap (λ k. find k m.live) here ∙ e)
            v))

fall_back_each-without :
    (id : ℕ) (ids : List ℕ) (ts : ℕ) (m : Model)
    → contains id ids ≡ false
    → HasLocs (without id m)
    → HasLocs (without id (fall_back_each ids ts m))
unfolding fall_back_each contains
fall_back_each-without id [] ts m out v = v
fall_back_each-without id (cid ∷ ids) ts m out v =
    fall_back_each-without id ids ts _ (ground arith)
      (fall_back-without id cid ts m (λ e. ground arith) v)

leave_partner-without :
    (o : LiveObject) (ts : ℕ) (m : Model)
    → HasLocs (without o.id m)
    → HasLocs (without o.id (leave_partner o ts m))
unfolding leave_partner
leave_partner-without o ts m v = elim (Bool-cases (nonzero o.etw_key)) [
  | inl e ↦ rw e (
      subst (λ live. IsLocated live m.s.etw.loc_bytes)
        (sym (erase-adjust_self o.id (λ x. record x { etw_key = 0 }) m.live)) v)
  | inr e ↦ rw e v
]

leave_maps-without :
    (o : LiveObject) (ts : ℕ) (m : Model)
    → HasLocs (without o.id m)
    → HasLocs (without o.id (leave_address o ts m))
unfolding leave_address
leave_maps-without o ts m v = v

leave_parent-without :
    (o : LiveObject) (m : Model)
    → HasLocs (without o.id m)
    → HasLocs (without o.id (leave_parent o m))
unfolding leave_parent
leave_parent-without o m v = v

leave_children-without :
    (o : LiveObject) (ts : ℕ) (m : Model)
    → NoSelf m.children
    → HasLocs (without o.id m)
    → HasLocs (without o.id (leave_children o ts m))
unfolding leave_children
leave_children-without o ts m n v =
    if_both (λ x. HasLocs (without o.id x)) (is_object_type o.type ObjectType.heap)
      (fall_back_each-without o.id (children_of o.id m) ts _ (children_of-NoSelf o.id m n) v) v

left_children :
    (o : LiveObject) (ts : ℕ) (m : Model)
    → NoSelf m.children
    → NoSelf (leave_partner o ts (leave_address o ts (add_loc o false m))).children
unfolding leave_partner leave_address add_loc
left_children o ts m n = n

-- EtwOnDestroyed leaves a table that fits the live objects without the one that dies.
pub etw_on_destroyed-HasLocs :
    (o : LiveObject) (ts : ℕ) (m : Model)
    → HasLocs m
    → NoSelf m.children
    → Distinct m.live
    → find o.id m.live ≡ some o
    → HasLocs (without o.id (etw_on_destroyed o ts m))
unfolding etw_on_destroyed
etw_on_destroyed-HasLocs o ts m v n d held =
    leave_children-without o ts _ (leave_parent-NoSelf o _ (left_children o ts m n)) (
      leave_parent-without o _ (
        leave_partner-without o ts _
          (leave_maps-without o ts _ (add_loc-leaves-HasLocs o m v d held))))
