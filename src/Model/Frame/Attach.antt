-- ===== src/Model/Frame/Attach.antt =====
-- The same for EtwOnCreated, EtwOnDestroyed and what the ETW callbacks use.
use dx12track.Prelude.{
  ℕ, refl, true, false, List, [], ◌∷◌, find, arith, inl, inr, Option-cases, Bool-cases, nonzero,
  if_both, Map, erase,
}
use dx12track.Events.{ObjectType, is_object_type}
use dx12track.Model.State.{MemLoc, LiveObject, Model, is_loc}
use dx12track.Model.Join.{add_loc, eff_loc_of}
use dx12track.Model.Attach.{
  enter_maps, enter_loc, adopt_found, adopt, children_of, etw_on_created, leave_address,
  leave_partner, leave_parent, fall_back, fall_back_each, leave_children, etw_on_destroyed,
}
use dx12track.Model.Core.{
  cores-adjust, Keeps, Keeps-refl, Keeps-trans, Keeps-edit, Retains, Retains-refl, Retains-trans,
}
use dx12track.Model.Stays.{Stays, Stays-refl, Stays-trans, Stays-rest}
use dx12track.Model.Frame.{
  edit_live-Stays, side_line-Stays, add_loc-Stays, relocate-Stays, recompute_loc-Stays, bind-Keeps,
}

pub enter_maps-Retains : (o : LiveObject) (m : Model) → Retains m (enter_maps o m)
unfolding enter_maps
enter_maps-Retains o m = elim (Bool-cases (nonzero o.object_ptr)) [
  | inl e ↦ record {
    same_cores = rw e (cores-adjust o.id _ m.live (λ x. refl));
    same_counts = refl;
    same_enabled = refl;
  }
  | inr e ↦ record { same_cores = rw e refl; same_counts = refl; same_enabled = refl }
]

pub enter_loc-Stays : (o : LiveObject) (ts : ℕ) (m : Model) → Stays m (enter_loc o ts m)
unfolding enter_loc
enter_loc-Stays o ts m =
    let l = (eff_loc_of o m).0 in
    let entered =
      Stays-trans (edit_live-Stays o.id (λ x. record x { eff_loc = l }) m (λ x. (refl, refl)))
        (add_loc-Stays (record o { eff_loc = l }) true _) in
    if_both (Stays m) (is_loc l MemLoc.unknown) entered
      (Stays-trans entered (recompute_loc-Stays o.id ts true _))

adopt_found-Keeps : (key id ts : ℕ) (m : Model) → Keeps m (adopt_found key id ts m)
unfolding adopt_found
adopt_found-Keeps key id ts m = ground (arith, Keeps-refl m, bind-Keeps key id ts m)

adopt-Keeps : (o : LiveObject) (ts : ℕ) (m : Model) → Keeps m (adopt o ts m)
unfolding adopt
adopt-Keeps o ts m = elim (Option-cases (find o.object_ptr m.etw_by_addr)) [
  | inl e ↦ ground (arith, Keeps-refl m)
  | inr (key, e) ↦ ground (arith, Keeps-refl m, adopt_found-Keeps key o.id ts m)
]

pub settle-Keeps : (o : LiveObject) (ts : ℕ) (m : Model) → Keeps m (adopt o ts (enter_loc o ts m))
settle-Keeps o ts m = Keeps-trans ((enter_loc-Stays o ts m).keeps) (adopt-Keeps o ts _)

pub etw_on_created-Retains :
    (o : LiveObject) (ts : ℕ) (m : Model) → Retains m (etw_on_created o ts m)
unfolding etw_on_created
etw_on_created-Retains o ts m = Retains-trans (enter_maps-Retains o m) (settle-Keeps o ts _).retains

pub leave_partner-Keeps : (o : LiveObject) (ts : ℕ) (m : Model) → Keeps m (leave_partner o ts m)
unfolding leave_partner
leave_partner-Keeps o ts m = elim (Bool-cases (nonzero o.etw_key)) [
  | inl e ↦ Keeps-edit (rw e (cores-adjust o.id _ m.live (λ x. refl))) refl refl refl
  | inr e ↦ Keeps-edit (rw e refl) refl refl refl
]

fall_back-Stays : (id ts : ℕ) (m : Model) → Stays m (fall_back id ts m)
unfolding fall_back
fall_back-Stays id ts m = elim (Option-cases (find id m.live)) [
  | inl e ↦ rw (e, fall_back) (Stays-refl m)
  | inr (o, e) ↦
      rw (e, fall_back)
        (if_both (Stays m) (is_loc o.eff_loc o.own_loc) (Stays-refl m)
          (Stays-trans (relocate-Stays o o.own_loc m) (side_line-Stays _ _)))
]

pub fall_back_each-Stays : (ids : List ℕ) (ts : ℕ) (m : Model) → Stays m (fall_back_each ids ts m)
unfolding fall_back_each
fall_back_each-Stays [] ts m = Stays-refl m
fall_back_each-Stays (id ∷ ids) ts m =
    Stays-trans (fall_back-Stays id ts m) (fall_back_each-Stays ids ts _)

leave_parent-Retains : (o : LiveObject) (m : Model) → Retains m (leave_parent o m)
unfolding leave_parent
leave_parent-Retains o m = record { same_cores = refl; same_counts = refl; same_enabled = refl }

pub leave_address-Stays : (o : LiveObject) (ts : ℕ) (m : Model) → Stays m (leave_address o ts m)
unfolding leave_address
leave_address-Stays o ts m = Stays-rest refl refl refl refl refl refl

children-Retains : (c : Map (List ℕ)) (m : Model) → Retains m (record m { children = c })
children-Retains c m = record { same_cores = refl; same_counts = refl; same_enabled = refl }

leave_children-Retains : (o : LiveObject) (ts : ℕ) (m : Model) → Retains m (leave_children o ts m)
unfolding leave_children
leave_children-Retains o ts m =
    if_both (Retains m) (is_object_type o.type ObjectType.heap)
      (Retains-trans (children-Retains (erase o.id m.children) m)
        (fall_back_each-Stays (children_of o.id m) ts _).keeps.retains)
      (Retains-refl m)

pub leave_partner_address-Keeps :
    (o : LiveObject) (ts : ℕ) (m : Model)
    → Keeps m (leave_partner o ts (leave_address o ts (add_loc o false m)))
leave_partner_address-Keeps o ts m =
    Keeps-trans ((add_loc-Stays o false m).keeps)
      (Keeps-trans ((leave_address-Stays o ts _).keeps) (leave_partner-Keeps o ts _))

pub etw_on_destroyed-Retains :
    (o : LiveObject) (ts : ℕ) (m : Model) → Retains m (etw_on_destroyed o ts m)
unfolding etw_on_destroyed
etw_on_destroyed-Retains o ts m =
    Retains-trans (leave_partner_address-Keeps o ts m).retains
      (Retains-trans (leave_parent-Retains o _) (leave_children-Retains o ts _))
