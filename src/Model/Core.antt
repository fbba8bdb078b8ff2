-- ===== src/Model/Core.antt =====
-- The fields of a live object that the totals read. Everything that the ETW join does to a live
-- object leaves them alone.
use mathlib.Core.Option
use dx12track.Prelude.{
  ℕ, ◌≡◌, refl, ◌∙◌, List, [], ◌∷◌, Option, none, some, Map, find, put, adjust, erase, length,
  arith, Distinct,
}
use dx12track.Events.{ObjectType, AllocationKind}
use dx12track.Model.State.{LiveObject, Model, Snapshot, MemoryTotals, ActivityLine}

pub record Core : Type 0 where
  pub id : ℕ
  pub type : ObjectType
  pub alloc : AllocationKind
  pub heap_type : ℕ
  pub size_bytes : ℕ

abbrev pub core : LiveObject → Core
core o = record {
  id = o.id;
  type = o.type;
  alloc = o.alloc;
  heap_type = o.heap_type;
  size_bytes = o.size_bytes;
}

abbrev pub cores : Map LiveObject → Map Core
cores [] = []
cores ((k, o) ∷ m) = (k, core o) ∷ cores m

pub cores-adjust :
    (k : ℕ) (f : LiveObject → LiveObject) (m : Map LiveObject)
    → ((o : LiveObject) → core (f o) ≡ core o)
    → cores (adjust k f m) ≡ cores m
unfolding adjust
cores-adjust k f [] h = refl
cores-adjust k f ((i, o) ∷ m) h = ground (arith, h o, cores-adjust k f m h)

pub cores-put :
    (k : ℕ) (o : LiveObject) (m : Map LiveObject) → cores (put k o m) ≡ put k (core o) (cores m)
unfolding put
cores-put k o [] = refl
cores-put k o ((i, x) ∷ m) = ground (arith, cores-put k o m)

pub cores-erase : (k : ℕ) (m : Map LiveObject) → cores (erase k m) ≡ erase k (cores m)
unfolding erase
cores-erase k [] = refl
cores-erase k ((i, x) ∷ m) = ground (arith, cores-erase k m)

pub find-cores : (k : ℕ) (m : Map LiveObject) → find k (cores m) ≡ Option.map core (find k m)
unfolding find
find-cores k [] = refl
find-cores k ((i, x) ∷ m) = ground (arith, find-cores k m)

pub cores-Distinct : (live : Map LiveObject) → Distinct (cores live) → Distinct live
cores-Distinct [] d = tt
cores-Distinct ((k, o) ∷ live) d = (absent (find k live) refl, cores-Distinct live d.1)
  where
    absent : (x : Option LiveObject) → find k live ≡ x → find k live ≡ none
    absent none e = e
    absent (some y) e = cc (find-cores k live, e, d.0)

pub length-cores : (m : Map LiveObject) → length (cores m) ≡ length m
length-cores [] = refl
length-cores (e ∷ m) = omega (arith, length-cores m)

-- The part of the snapshot that the join leaves alone.
abbrev pub Counted : Type 0
Counted = MemoryTotals × ℕ × ℕ × (ℕ → ℕ) × List ActivityLine

abbrev pub counted : Snapshot → Counted
counted s = (s.totals, s.live_count, s.live_bytes, s.per_type_counts, s.recent)

-- `m'` has the same objects and totals as `m`, and the join is on as before.
pub record Retains (m m' : Model) : Type 0 where
  pub same_cores : cores m'.live ≡ cores m.live
  pub same_counts : counted m'.s ≡ counted m.s
  pub same_enabled : m'.etw_enabled ≡ m.etw_enabled

pub Retains-refl : (m : Model) → Retains m m
Retains-refl m = record { same_cores = refl; same_counts = refl; same_enabled = refl }

pub Retains-trans : {a b c : Model} → Retains a b → Retains b c → Retains a c
Retains-trans p q = record {
  same_cores = q.same_cores ∙ p.same_cores;
  same_counts = q.same_counts ∙ p.same_counts;
  same_enabled = q.same_enabled ∙ p.same_enabled;
}

-- And the same sets of placed resources.
pub record Keeps (m m' : Model) : Type 0 where
  pub retains : Retains m m'
  pub same_children : m'.children ≡ m.children

pub Keeps-refl : (m : Model) → Keeps m m
Keeps-refl m = record { retains = Retains-refl m; same_children = refl }

pub Keeps-trans : {a b c : Model} → Keeps a b → Keeps b c → Keeps a c
Keeps-trans p q = record {
  retains = Retains-trans p.retains q.retains;
  same_children = q.same_children ∙ p.same_children;
}

-- For an edit of the live objects alone.
pub Keeps-edit :
    {m m' : Model}
    → cores m'.live ≡ cores m.live
    → counted m'.s ≡ counted m.s
    → m'.etw_enabled ≡ m.etw_enabled
    → m'.children ≡ m.children
    → Keeps m m'
Keeps-edit a b c d = record {
  retains = record { same_cores = a; same_counts = b; same_enabled = c };
  same_children = d;
}
