-- ===== src/Model/Totals.antt =====
-- The memory totals against the live objects: what Model::OnEvent keeps true of
-- src/launcher/Model.cpp's `s_.totals`, `s_.live_bytes`, `s_.live_count` and `s_.per_type_counts`.
pub mod Events
use dx12track.Prelude.{
  ℕ, ◌+◌, ◌-◌, ◌≤◌, ◌<◌, ◌≡◌, refl, sym, Bool, false, [], ◌∷◌, none, some, Map, find, put, erase,
  sum_by, Distinct, length, arith, ◌==◌, if◌then◌else◌, u64_mod, add64_exact, sub_guarded_exact,
  sum_by-put, sum_by-erase, sum_by_mono, put-Distinct, erase-Distinct, find-put, find-erase_ne,
  find-erase_self,
}
use mathlib.Core.Path.{subst₂}
use dx12track.Events.{alloc_index, object_type_index}
use dx12track.Model.State.{LiveObject, Model, heap_bucket}
use dx12track.Model.Core.{
  Core, core, cores, Retains, Counted, counted, cores-put, cores-erase, length-cores, find-cores,
}
use dx12track.Model.Ingest.{count_in, count_out}

-- The weight of an object in a cell of the table: 1 or its bytes if it belongs there.
abbrev pub in_cell : ℕ → ℕ → Core → Bool
in_cell h a c = if heap_bucket c.heap_type == h then alloc_index c.alloc == a else false

abbrev pub cell_bytes : ℕ → ℕ → Core → ℕ
cell_bytes h a c = if in_cell h a c then c.size_bytes else 0

abbrev pub cell_count : ℕ → ℕ → Core → ℕ
cell_count h a c = if in_cell h a c then 1 else 0

abbrev pub of_type : ℕ → Core → ℕ
of_type t c = if object_type_index c.type == t then 1 else 0

abbrev pub size_of : Core → ℕ
size_of c = c.size_bytes

-- The totals are the sums over the live objects, and fit their words.
pub record IsTotal (objs : Map Core) (c : Counted) : Type 0 where
  pub bytes : (h a : ℕ) → c.0.bytes h a ≡ sum_by (cell_bytes h a) objs
  pub counts : (h a : ℕ) → c.0.counts h a ≡ sum_by (cell_count h a) objs
  pub per_type : (t : ℕ) → c.3 t ≡ sum_by (of_type t) objs
  pub live_bytes : c.2 ≡ sum_by size_of objs
  pub live_count : c.1 ≡ length objs
  pub fits : sum_by size_of objs < u64_mod
  pub few : length objs < u64_mod
  pub distinct : Distinct objs
  pub keyed : (k : ℕ) (o : Core) → find k objs ≡ some o → o.id ≡ k

abbrev pub HasTotals : Model → Type 0
HasTotals m = IsTotal (cores m.live) (counted m.s)

sum_by-le-length :
    (w : Core → ℕ) (objs : Map Core) → ((c : Core) → w c ≤ 1) → sum_by w objs ≤ length objs
unfolding sum_by
sum_by-le-length w [] h = omega arith
sum_by-le-length w ((k, c) ∷ objs) h = omega (arith, h c, sum_by-le-length w objs h)

-- No cell holds more than the whole.
cell_bytes-le : (h a : ℕ) (objs : Map Core) → sum_by (cell_bytes h a) objs ≤ sum_by size_of objs
cell_bytes-le h a objs = sum_by_mono (cell_bytes h a) size_of objs (λ c. ground arith)

cell_count-le : (h a : ℕ) (objs : Map Core) → sum_by (cell_count h a) objs ≤ length objs
cell_count-le h a objs = sum_by-le-length (cell_count h a) objs (λ c. ground arith)

of_type-le : (t : ℕ) (objs : Map Core) → sum_by (of_type t) objs ≤ length objs
of_type-le t objs = sum_by-le-length (of_type t) objs (λ c. ground arith)

length-put :
    (k : ℕ) (c : Core) (objs : Map Core)
    → find k objs ≡ none
    → length (put k c objs) ≡ length objs + 1
unfolding find put
length-put k c [] h = omega arith
length-put k c ((i, x) ∷ objs) h = ground (arith, length-put k c objs)

length-erase :
    (k : ℕ) (c : Core) (objs : Map Core)
    → find k objs ≡ some c
    → length (erase k objs) + 1 ≡ length objs
unfolding find erase
length-erase k c [] h = cc
length-erase k c ((i, x) ∷ objs) h = ground (arith, length-erase k c objs)

-- A new object: its bytes and its count go into its cell.
module _ (o : LiveObject) (m : Model) (v : HasTotals m) (fresh : find o.id m.live ≡ none) where
  fresh_core : find o.id (cores m.live) ≡ none
  fresh_core = rw (find-cores o.id m.live, fresh) refl

  stored_sum :
      (w : Core → ℕ) → sum_by w (cores (put o.id o m.live)) ≡ sum_by w (cores m.live) + w (core o)
  stored_sum w = rw (cores-put o.id o m.live) (sum_by-put w o.id (core o) (cores m.live) fresh_core)

  stored_length : length (cores (put o.id o m.live)) ≡ length (cores m.live) + 1
  stored_length = rw (cores-put o.id o m.live) (length-put o.id (core o) (cores m.live) fresh_core)

  stored_keyed : (k : ℕ) (c : Core) → find k (cores (put o.id o m.live)) ≡ some c → c.id ≡ k
  stored_keyed k c e =
      ground (arith, cores-put o.id o m.live, find-put o.id k (core o) (cores m.live), v.keyed k c)

  module _ (room : sum_by size_of (cores m.live) + o.size_bytes < u64_mod)
      (few : length m.live + 1 < u64_mod) where
    pub count_in-HasTotals : HasTotals (count_in o m)
    unfolding count_in
    count_in-HasTotals = record {
      bytes = λ h a. ground (
        arith,
        v.bytes h a,
        stored_sum (cell_bytes h a),
        add64_exact (m.s.totals.bytes h a) o.size_bytes,
        cell_bytes-le h a (cores m.live),
      );
      counts = λ h a. ground (
        arith,
        v.counts h a,
        stored_sum (cell_count h a),
        add64_exact (m.s.totals.counts h a) 1,
        cell_count-le h a (cores m.live),
        length-cores m.live,
      );
      per_type = λ t. ground (
        arith,
        v.per_type t,
        stored_sum (of_type t),
        add64_exact (m.s.per_type_counts t) 1,
        of_type-le t (cores m.live),
        length-cores m.live,
      );
      live_bytes = ground (arith, stored_sum size_of, add64_exact m.s.live_bytes o.size_bytes);
      live_count = sym (length-cores (put o.id o m.live));
      fits = rw (stored_sum size_of) room;
      few = omega (arith, stored_length, length-cores m.live);
      distinct =
          rw (cores-put o.id o m.live) (put-Distinct o.id (core o) (cores m.live) v.distinct);
      keyed = stored_keyed;
    }

-- An object that dies: none of the guarded subtractions is skipped.
module _ (o : LiveObject) (m : Model) (v : HasTotals m)
    (held : find o.id (cores m.live) ≡ some (core o)) where
  rest_sum :
      (w : Core → ℕ) → sum_by w (cores (erase o.id m.live)) + w (core o) ≡ sum_by w (cores m.live)
  rest_sum w = rw (cores-erase o.id m.live) (sum_by-erase w o.id (cores m.live) (core o) held)

  rest_length : length (cores (erase o.id m.live)) + 1 ≡ length (cores m.live)
  rest_length = rw (cores-erase o.id m.live) (length-erase o.id (core o) (cores m.live) held)

  rest_keyed : (k : ℕ) (c : Core) → find k (cores (erase o.id m.live)) ≡ some c → c.id ≡ k
  rest_keyed k c e = ground (
    arith,
    cores-erase o.id m.live,
    find-erase_ne o.id k (cores m.live),
    find-erase_self o.id (cores m.live) v.distinct,
    v.keyed k c,
  )

  pub count_out-HasTotals : HasTotals (count_out o m)
  unfolding count_out
  count_out-HasTotals = record {
    bytes = λ h a. ground (
      arith,
      v.bytes h a,
      rest_sum (cell_bytes h a),
      sub_guarded_exact (m.s.totals.bytes h a) o.size_bytes,
    );
    counts = λ h a. ground (
      arith,
      v.counts h a,
      rest_sum (cell_count h a),
      sub_guarded_exact (m.s.totals.counts h a) 1,
    );
    per_type = λ t.
        ground
          (arith, v.per_type t, rest_sum (of_type t), sub_guarded_exact (m.s.per_type_counts t) 1);
    live_bytes = ground (arith, rest_sum size_of, sub_guarded_exact m.s.live_bytes o.size_bytes);
    live_count = sym (length-cores (erase o.id m.live));
    fits = omega (arith, rest_sum size_of);
    few = omega (arith, rest_length);
    distinct = rw (cores-erase o.id m.live) (erase-Distinct o.id (cores m.live) v.distinct);
    keyed = rest_keyed;
  }

pub Retains-HasTotals : {m m' : Model} → Retains m m' → HasTotals m → HasTotals m'
Retains-HasTotals k v = subst₂ IsTotal (sym k.same_cores) (sym k.same_counts) v
