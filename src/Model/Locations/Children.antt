-- ===== src/Model/Locations/Children.antt =====
-- `children_` of src/launcher/Model.cpp: no object is in the set of its own children.
use dx12track.Prelude.{
  ℕ, ◌≡◌, ◌≢◌, refl, false, List, [], ◌∷◌, some, Map, find, put, erase, arith, contains, insert,
  remove, option_both, if_both,
}
use dx12track.Model.State.{LiveObject, Model}
use dx12track.Model.Join.{is_placed}
use dx12track.Model.Attach.{enter_maps, children_of, leave_parent}

-- No object stands among its own children.
abbrev pub NoSelf : Map (List ℕ) → Type 0
NoSelf [] = Unit
NoSelf ((k, ids) ∷ m) = (contains k ids ≡ false) × NoSelf m

pub NoSelf-find :
    (k : ℕ) (ids : List ℕ) (m : Map (List ℕ))
    → NoSelf m
    → find k m ≡ some ids
    → contains k ids ≡ false
unfolding find
NoSelf-find k ids [] n e = cc
NoSelf-find k ids ((i, xs) ∷ m) n e = ground (arith, NoSelf-find k ids m n.1)

pub NoSelf-put :
    (k : ℕ) (ids : List ℕ) (m : Map (List ℕ))
    → NoSelf m
    → contains k ids ≡ false
    → NoSelf (put k ids m)
unfolding put
NoSelf-put k ids [] n h = (h, tt)
NoSelf-put k ids ((i, xs) ∷ m) n h = ground (arith, NoSelf-put k ids m n.1 h)

pub NoSelf-erase : (k : ℕ) (m : Map (List ℕ)) → NoSelf m → NoSelf (erase k m)
unfolding erase
NoSelf-erase k [] n = tt
NoSelf-erase k ((i, xs) ∷ m) n = ground (arith, NoSelf-erase k m n.1)

contains-remove :
    (k a : ℕ) (ids : List ℕ) → contains k ids ≡ false → contains k (remove a ids) ≡ false
unfolding contains remove
contains-remove k a [] h = refl
contains-remove k a (x ∷ ids) h = ground (arith, contains-remove k a ids)

contains-insert :
    (k a : ℕ) (ids : List ℕ) → a ≢ k → contains k ids ≡ false → contains k (insert a ids) ≡ false
unfolding contains insert
contains-insert k a ids ne h = ground arith

pub children_of-NoSelf :
    (id : ℕ) (m : Model) → NoSelf m.children → contains id (children_of id m) ≡ false
unfolding children_of contains
children_of-NoSelf id m n =
    option_both (λ ids. contains id ids ≡ false) (find id m.children) refl
      (λ ids e. NoSelf-find id ids m.children n e)

-- A new placed object enters the set of its heap, which is another object.
pub enter_maps-NoSelf :
    (o : LiveObject) (m : Model)
    → o.id ≢ o.parent_heap_id
    → NoSelf m.children
    → NoSelf (enter_maps o m).children
unfolding enter_maps
enter_maps-NoSelf o m ne n =
    if_both NoSelf (is_placed o)
      (NoSelf-put o.parent_heap_id _ m.children n
        (contains-insert o.parent_heap_id o.id _ ne (children_of-NoSelf o.parent_heap_id m n)))
      n

pub leave_parent-NoSelf :
    (o : LiveObject) (m : Model) → NoSelf m.children → NoSelf (leave_parent o m).children
unfolding leave_parent
leave_parent-NoSelf o m n =
    if_both NoSelf (is_placed o)
      (option_both NoSelf (find o.parent_heap_id m.children) n (λ ids e. rest (remove o.id ids) (
        contains-remove o.parent_heap_id o.id ids
          (NoSelf-find o.parent_heap_id ids m.children n e))))
      n
  where
    rest :
        (ids : List ℕ)
        → contains o.parent_heap_id ids ≡ false
        → NoSelf (elim ids [
          | [] ↦ erase o.parent_heap_id m.children
          | x ∷ xs ↦ put o.parent_heap_id (x ∷ xs) m.children
        ])
    rest [] h = NoSelf-erase o.parent_heap_id m.children n
    rest (x ∷ xs) h = NoSelf-put o.parent_heap_id (x ∷ xs) m.children n h
