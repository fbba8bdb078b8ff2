-- ===== src/Model/Frame.antt =====
-- The join changes neither the objects' own fields nor the totals: one lemma for each helper of
-- Model/Join.antt and Model/Attach.antt.
pub mod Attach
pub mod Sink
pub mod Calls
pub mod Main
use dx12track.Prelude.{
  ℕ, ◌≡◌, refl, Bool, true, false, List, [], ◌∷◌, Option, find, arith, inl, inr, Option-cases,
  if_both, nonzero,
}
use dx12track.Json.{Text}
use dx12track.Model.State.{MemLoc, LiveObject, EtwObj, Model, is_driver_type}
use dx12track.Model.Join.{
  edit_live, side_line, add_loc, relocate, report_loc, recompute_at, recompute_loc, recompute_each,
  recompute_children, release_partner, link, note_driver_size, recompute_if_heap, bind_pair, bind,
}
use dx12track.Model.Core.{core, cores-adjust, Keeps, Keeps-refl, Keeps-edit, Keeps-trans}
use dx12track.Model.Stays.{Stays, Stays-refl, Stays-trans, Stays-rest, Stays-live, Stays-objs}

pub edit_live-Stays :
    (id : ℕ) (f : LiveObject → LiveObject) (m : Model)
    → ((o : LiveObject) → (core (f o) ≡ core o) × ((f o).etw_key ≡ o.etw_key))
    → Stays m (edit_live id f m)
edit_live-Stays id f m h = Stays-live id f m h

pub side_line-Stays : (line : Text) (m : Model) → Stays m (side_line line m)
unfolding side_line
side_line-Stays line m = Stays-rest refl refl refl refl refl refl

pub add_loc-Stays : (o : LiveObject) (positive : Bool) (m : Model) → Stays m (add_loc o positive m)
unfolding add_loc
add_loc-Stays o positive m = Stays-rest refl refl refl refl refl refl

pub relocate-Stays : (o : LiveObject) (l : MemLoc) (m : Model) → Stays m (relocate o l m)
unfolding relocate
relocate-Stays o l m =
    Stays-trans (add_loc-Stays o false m)
      (Stays-trans (edit_live-Stays o.id _ _ (λ x. (refl, refl))) (add_loc-Stays _ true _))

report_loc-Stays :
    (o : LiveObject) (l : MemLoc) (via : Bool) (ts : ℕ) (m : Model)
    → Stays m (report_loc o l via ts m)
unfolding report_loc
report_loc-Stays o l via ts m =
    Stays-trans (edit_live-Stays o.id _ m (λ x. (refl, refl))) (side_line-Stays _ _)

recompute_at-Stays :
    (o : LiveObject) (e : MemLoc × Bool) (ts : ℕ) (force : Bool) (m : Model)
    → Stays m (recompute_at o e ts force m)
unfolding recompute_at
recompute_at-Stays o (l, via) ts force m = ground (
  arith,
  Stays-refl m,
  relocate-Stays o l m,
  report_loc-Stays o l via ts m,
  Stays-trans (relocate-Stays o l m) (report_loc-Stays o l via ts (relocate o l m)),
)

pub recompute_loc-Stays :
    (id ts : ℕ) (force : Bool) (m : Model) → Stays m (recompute_loc id ts force m)
unfolding recompute_loc
recompute_loc-Stays id ts force m = elim (Option-cases (find id m.live)) [
  | inl e ↦ rw (e, recompute_loc) (Stays-refl m)
  | inr (o, e) ↦ rw (e, recompute_loc) (recompute_at-Stays o _ ts force m)
]

recompute_each-Stays : (ids : List ℕ) (ts : ℕ) (m : Model) → Stays m (recompute_each ids ts m)
unfolding recompute_each
recompute_each-Stays [] ts m = Stays-refl m
recompute_each-Stays (id ∷ ids) ts m =
    Stays-trans (recompute_loc-Stays id ts false m) (recompute_each-Stays ids ts _)

pub recompute_if_heap-Stays :
    (o : LiveObject) (ts : ℕ) (m : Model) → Stays m (recompute_if_heap o ts m)
unfolding recompute_if_heap recompute_children
recompute_if_heap-Stays o ts m = elim (Option-cases (find o.id m.children)) [
  | inl e ↦ ground (arith, Stays-refl m)
  | inr (ids, e) ↦ ground (arith, Stays-refl m, recompute_each-Stays ids ts m)
]

pub release_partner-Keeps :
    (key : ℕ) (o : LiveObject) (m : Model) → Keeps m (release_partner key o m)
unfolding release_partner
release_partner-Keeps key o m = Keeps-edit refl refl refl refl

pub link-Keeps :
    (key : ℕ) (e : EtwObj) (o : LiveObject) (ts : ℕ) (m : Model) → Keeps m (link key e o ts m)
unfolding link side_line
link-Keeps key e o ts m = Keeps-edit (cores-adjust o.id _ m.live (λ x. refl)) refl refl refl

pub note_driver_size-Stays :
    (e : EtwObj) (o : LiveObject) (ts : ℕ) (m : Model) → Stays m (note_driver_size e o ts m)
unfolding note_driver_size
note_driver_size-Stays e o ts m =
    let noted : Stays m (edit_live o.id (λ x. record x { driver_size = e.size }) m) =
      edit_live-Stays o.id _ m (λ x. (refl, refl)) in
    if_both (Stays m) (is_driver_type e.type)
      (if_both (Stays m) (nonzero e.size) (Stays-trans noted (side_line-Stays _ _)) noted)
      (Stays-refl m)

bind_pair-Keeps :
    (key : ℕ) (e : EtwObj) (o : LiveObject) (ts : ℕ) (m : Model) → Keeps m (bind_pair key e o ts m)
unfolding bind_pair
bind_pair-Keeps key e o ts m = Keeps-trans (release_partner-Keeps key o m) (
    Keeps-trans (link-Keeps key e o ts _) (
      (Stays-trans (recompute_loc-Stays o.id ts _ _)
        (Stays-trans (recompute_if_heap-Stays o ts _) (note_driver_size-Stays e o ts _))).keeps))

pub bind-Keeps : (key id ts : ℕ) (m : Model) → Keeps m (bind key id ts m)
unfolding bind
bind-Keeps key id ts m = elim (Option-cases (find key m.etw_objs)) [
  | inl e ↦ rw (e, bind) (Keeps-refl m)
  | inr (x, e) ↦ elim (Option-cases (find id m.live)) [
    | inl f ↦ rw (e, bind) (rw (f, bind) (Keeps-refl m))
    | inr (o, f) ↦ rw (e, bind) (rw (f, bind) (bind_pair-Keeps key x o ts m))
  ]
]
