-- ===== src/Model/Pairs.antt =====
-- The binding of tracked objects to ETW objects (`LiveObject::etw_key` and `EtwObj::bound_id` of
-- src/launcher/Model.h) as a relation between the two sides.
pub mod Bind
pub mod Leave
pub mod Events
pub mod Calls
pub mod Drop
use dx12track.Prelude.{
  ℕ, ◌≡◌, ◌≢◌, refl, ◌∙◌, ap, Bool, true, false, not, ◌&&◌, none, some, Map, find, put, erase,
  arith, nonzero, ◌==◌, if◌then◌else◌, Distinct, find-put, find-erase_ne, put-Distinct,
}
use dx12track.Model.State.{LiveObject, EtwObj, Model}
use dx12track.Model.Core.{Core, cores}
use dx12track.Model.Stays.{key_at, bound_at, address_at, Stays}

-- `keys` gives an object's partner, `bounds` and `addresses` what an ETW object is bound to and its address,
-- and `by_addr` the ETW object at an address. A partner points back, so no two objects share one; an ETW
-- object without an address is not bound; and one found by an address has it.
pub record IsPaired (keys bounds addresses : ℕ → ℕ) (by_addr : Map ℕ) : Type 0 where
  pub agrees : (id : ℕ) → keys id ≢ 0 → bounds (keys id) ≡ id
  pub zero_key : keys 0 ≡ 0
  pub unaddressed : (k : ℕ) → addresses k ≡ 0 → bounds k ≡ 0
  pub addressed : (a k : ℕ) → find a by_addr ≡ some k → (addresses k ≡ a) × (a ≢ 0)
  pub distinct : Distinct by_addr

-- Each object stands once, at its own id.
abbrev pub IsKeyed : Map Core → Type 0
IsKeyed objs = Distinct objs × ((k : ℕ) (c : Core) → find k objs ≡ some c → c.id ≡ k)

pub record HasPairs (m : Model) : Type 0 where
  pub paired : IsPaired (key_at m.live) (bound_at m.etw_objs) (address_at m.etw_objs) m.etw_by_addr
  pub absent : find 0 m.live ≡ none
  pub distinct : Distinct m.etw_objs
  pub keyed : IsKeyed (cores m.live)

-- The object `id` comes without a partner, or goes.
pub IsPaired-forget :
    {keys bounds addresses : ℕ → ℕ} {by_addr : Map ℕ} (keys' : ℕ → ℕ) (id : ℕ)
    → IsPaired keys bounds addresses by_addr
    → ((j : ℕ) → keys' j ≡ (if id == j then 0 else keys j))
    → IsPaired keys' bounds addresses by_addr
IsPaired-forget {bounds = bounds} keys' id v a = record {
  agrees = λ j h. ground (arith, a j, v.agrees j, ap bounds (a j));
  zero_key = ground (arith, a 0, v.zero_key);
  unaddressed = v.unaddressed;
  addressed = v.addressed;
  distinct = v.distinct;
}

module _ {keys bounds addresses : ℕ → ℕ} {by_addr : Map ℕ}
    (v : IsPaired keys bounds addresses by_addr) (keys' bounds' addresses' : ℕ → ℕ) where
  pub IsPaired-same :
      ((id : ℕ) → keys' id ≡ keys id)
      → ((k : ℕ) → bounds' k ≡ bounds k)
      → ((k : ℕ) → addresses' k ≡ addresses k)
      → IsPaired keys' bounds' addresses' by_addr
  IsPaired-same a b c = record {
    agrees = λ id h. ap bounds' (a id) ∙ b (keys id) ∙ v.agrees id (λ e. h (a id ∙ e));
    zero_key = a 0 ∙ v.zero_key;
    unaddressed = λ k e. ground (arith, b k, c k, v.unaddressed k);
    addressed = λ x k e. ground (arith, c k, v.addressed x k);
    distinct = v.distinct;
  }

  -- Bind of `key` to `id`, once the old partner is let go.
  pub IsPaired-bind :
      (key id : ℕ)
      → bounds key ≡ 0
      → addresses key ≢ 0
      → ((j : ℕ) → keys' j ≡ (if id == j then key else keys j))
      → ((k : ℕ)
          → bounds' k ≡ (
              if key == k
              then id
              else if nonzero (keys id) && not (keys id == key) && (keys id == k)
              then 0
              else bounds k))
      → ((k : ℕ) → addresses' k ≡ addresses k)
      → id ≢ 0
      → IsPaired keys' bounds' addresses' by_addr
  IsPaired-bind key id free known a b c ne = record {
    agrees = λ j h. ground (
      arith,
      a j,
      b key,
      b (keys j),
      v.agrees j,
      v.agrees id,
      v.zero_key,
      free,
      ap bounds' (a j),
    );
    zero_key = ground (arith, a 0, v.zero_key);
    unaddressed = λ k e. ground (arith, b k, c k, v.unaddressed k);
    addressed = λ x k e. ground (arith, c k, v.addressed x k);
    distinct = v.distinct;
  }

  -- The death of the object `id`.
  pub IsPaired-leave :
      (id : ℕ)
      → ((j : ℕ) → keys' j ≡ (if id == j then 0 else keys j))
      → ((k : ℕ) → bounds' k ≡ (if nonzero (keys id) && (keys id == k) then 0 else bounds k))
      → ((k : ℕ) → addresses' k ≡ addresses k)
      → IsPaired keys' bounds' addresses' by_addr
  IsPaired-leave id a b c = record {
    agrees = λ j h. ground (arith, a j, b (keys j), v.agrees j, v.agrees id, ap bounds' (a j));
    zero_key = ground (arith, a 0, v.zero_key);
    unaddressed = λ k e. ground (arith, b k, c k, v.unaddressed k);
    addressed = λ x k e. ground (arith, c k, v.addressed x k);
    distinct = v.distinct;
  }

  -- The end of the ETW object `key`, and of its entry among the addresses.
  pub IsPaired-drop :
      (key : ℕ) (by_addr' : Map ℕ)
      → ((j : ℕ) → keys' j ≡ (if (bounds key == j) && (keys j == key) then 0 else keys j))
      → ((k : ℕ) → bounds' k ≡ (if key == k then 0 else bounds k))
      → ((k : ℕ) → addresses' k ≡ (if key == k then 0 else addresses k))
      → ((a k : ℕ) → find a by_addr' ≡ some k → (find a by_addr ≡ some k) × (k ≢ key))
      → Distinct by_addr'
      → IsPaired keys' bounds' addresses' by_addr'
  IsPaired-drop key by_addr' a b c d apart = record {
    agrees = λ j h. ground (arith, a j, b (keys j), v.agrees j, ap bounds' (a j));
    zero_key = ground (arith, a 0, v.zero_key);
    unaddressed = λ k e. ground (arith, b k, c k, v.unaddressed k);
    addressed = λ x k e. ground (arith, c k, d x k e, v.addressed x k);
    distinct = apart;
  }

  -- The ETW object `key` gets its address.
  pub IsPaired-address :
      (key address : ℕ)
      → address ≢ 0
      → addresses key ≡ 0
      → ((j : ℕ) → keys' j ≡ keys j)
      → ((k : ℕ) → bounds' k ≡ bounds k)
      → ((k : ℕ) → addresses' k ≡ (if key == k then address else addresses k))
      → IsPaired keys' bounds' addresses' (put address key by_addr)
  IsPaired-address key address ne none_yet a b c = record {
    agrees = λ j h. ap bounds' (a j) ∙ b (keys j) ∙ v.agrees j (λ e. h (a j ∙ e));
    zero_key = a 0 ∙ v.zero_key;
    unaddressed = λ k e. ground (arith, b k, c k, v.unaddressed k);
    addressed = λ x k e. ground (arith, c k, find-put address x key by_addr, v.addressed x k);
    distinct = put-Distinct address key by_addr v.distinct;
  }

pub Stays-HasPairs : {m m' : Model} → Stays m m' → HasPairs m → HasPairs m'
Stays-HasPairs {m' = m'} s v = record {
  paired = rw (s.by_addr) (
      IsPaired-same v.paired (key_at m'.live) (bound_at m'.etw_objs) (address_at m'.etw_objs)
        s.live.keys s.objs.bounds s.objs.addresses);
  absent = s.live.absent v.absent;
  distinct = s.objs.distinct v.distinct;
  keyed = rw (s.keeps.retains.same_cores) (v.keyed);
}

pub HasPairs-move :
    {m m' : Model}
    → m'.live ≡ m.live
    → m'.etw_objs ≡ m.etw_objs
    → m'.etw_by_addr ≡ m.etw_by_addr
    → HasPairs m
    → HasPairs m'
HasPairs-move a b c v = record {
  paired = rw (a, b, c) v.paired;
  absent = rw a v.absent;
  distinct = rw b v.distinct;
  keyed = rw a v.keyed;
}
