-- ===== src/Model/Stays.antt =====
-- The binding of tracked objects to ETW objects (`LiveObject::etw_key` and `EtwObj::bound_id` of
-- src/launcher/Model.h) as three functions: most of the helpers leave them alone.
use dx12track.Prelude.{
  Bool-cases, find-erase_ne, find-erase_self, erase, ℕ, ◌≡◌, refl, ◌∙◌, none, some, Map, find,
  adjust, arith, ◌==◌, if◌then◌else◌, find-adjust, Option-cases, Distinct, adjust-Distinct, inl,
  inr, ◌==◌, if◌then◌else◌,
}
use dx12track.Model.State.{LiveObject, EtwObj, Model}
use dx12track.Model.Core.{counted, core, cores-adjust, Keeps, Keeps-refl, Keeps-trans, Keeps-edit}

-- The partner of a live object, and what an ETW object is bound to and its address; 0 where there is none.
abbrev pub key_at : Map LiveObject → ℕ → ℕ
key_at live id = elim (find id live) [ none ↦ 0 | some o ↦ o.etw_key ]

abbrev pub bound_at : Map EtwObj → ℕ → ℕ
bound_at objs k = elim (find k objs) [ none ↦ 0 | some e ↦ e.bound_id ]

abbrev pub address_at : Map EtwObj → ℕ → ℕ
address_at objs k = elim (find k objs) [ none ↦ 0 | some e ↦ e.address ]

pub record SameObjs (objs objs' : Map EtwObj) : Type 0 where
  pub bounds : (k : ℕ) → bound_at objs' k ≡ bound_at objs k
  pub addresses : (k : ℕ) → address_at objs' k ≡ address_at objs k
  pub distinct : Distinct objs → Distinct objs'

pub record SameKeys (live live' : Map LiveObject) : Type 0 where
  pub keys : (id : ℕ) → key_at live' id ≡ key_at live id
  pub absent : find 0 live ≡ none → find 0 live' ≡ none

pub SameObjs-refl : (objs : Map EtwObj) → SameObjs objs objs
SameObjs-refl objs = record { bounds = λ k. refl; addresses = λ k. refl; distinct = λ d. d }

pub SameKeys-refl : (live : Map LiveObject) → SameKeys live live
SameKeys-refl live = record { keys = λ id. refl; absent = λ e. e }

pub adjust-SameKeys :
    (id : ℕ) (f : LiveObject → LiveObject) (live : Map LiveObject)
    → ((o : LiveObject) → (f o).etw_key ≡ o.etw_key)
    → SameKeys live (adjust id f live)
adjust-SameKeys id f live h = record {
  keys = λ k. elim (Option-cases (find k live)) [
    | inl e ↦ ground (arith, find-adjust id k f live)
    | inr (o, e) ↦ ground (arith, find-adjust id k f live, h o)
  ];
  absent = λ e. ground (arith, find-adjust id 0 f live);
}

module _ (key : ℕ) (f : EtwObj → EtwObj) (objs : Map EtwObj) where
  pub address_at-adjust :
      ((e : EtwObj) → (f e).address ≡ e.address)
      → (k : ℕ) → address_at (adjust key f objs) k ≡ address_at objs k
  address_at-adjust h k = elim (Option-cases (find k objs)) [
    | inl e ↦ ground (arith, find-adjust key k f objs)
    | inr (x, e) ↦ ground (arith, find-adjust key k f objs, h x)
  ]

  pub bound_at-adjust :
      ((e : EtwObj) → (f e).bound_id ≡ e.bound_id)
      → (k : ℕ) → bound_at (adjust key f objs) k ≡ bound_at objs k
  bound_at-adjust h k = elim (Option-cases (find k objs)) [
    | inl e ↦ ground (arith, find-adjust key k f objs)
    | inr (x, e) ↦ ground (arith, find-adjust key k f objs, h x)
  ]

  pub address_at-set :
      (x : EtwObj) (address : ℕ)
      → find key objs ≡ some x
      → ((e : EtwObj) → (f e).address ≡ address)
      → (k : ℕ)
      → address_at (adjust key f objs) k ≡ (if key == k then address else address_at objs k)
  address_at-set x address found h k = elim (Option-cases (find k objs)) [
    | inl e ↦ ground (arith, find-adjust key k f objs)
    | inr (y, e) ↦ ground (arith, find-adjust key k f objs, h y)
  ]

  -- The object `key` is let go, or bound.
  pub bound_at-clear :
      ((e : EtwObj) → (f e).bound_id ≡ 0)
      → (k : ℕ) → bound_at (adjust key f objs) k ≡ (if key == k then 0 else bound_at objs k)
  bound_at-clear h k = elim (Option-cases (find k objs)) [
    | inl e ↦ ground (arith, find-adjust key k f objs)
    | inr (x, e) ↦ ground (arith, find-adjust key k f objs, h x)
  ]

  pub bound_at-set :
      (x : EtwObj) (id : ℕ)
      → find key objs ≡ some x
      → ((e : EtwObj) → (f e).bound_id ≡ id)
      → (k : ℕ) → bound_at (adjust key f objs) k ≡ (if key == k then id else bound_at objs k)
  bound_at-set x id found h k = elim (Option-cases (find k objs)) [
    | inl e ↦ ground (arith, find-adjust key k f objs)
    | inr (y, e) ↦ ground (arith, find-adjust key k f objs, h y)
  ]

-- The object `key` goes.
pub bound_at-erase :
    (key k : ℕ) (objs : Map EtwObj)
    → Distinct objs
    → (bound_at (erase key objs) k ≡ (if key == k then 0 else bound_at objs k))
      × (address_at (erase key objs) k ≡ (if key == k then 0 else address_at objs k))
bound_at-erase key k objs d = elim (Bool-cases (key == k)) [
  | inl e ↦ ground (arith, find-erase_self key objs d)
  | inr e ↦ ground (arith, find-erase_ne key k objs)
]

pub adjust-SameObjs :
    (key : ℕ) (f : EtwObj → EtwObj) (objs : Map EtwObj)
    → ((e : EtwObj) → ((f e).bound_id ≡ e.bound_id) × ((f e).address ≡ e.address))
    → SameObjs objs (adjust key f objs)
adjust-SameObjs key f objs h = record {
  bounds = bound_at-adjust key f objs (λ e. (h e).0);
  addresses = address_at-adjust key f objs (λ e. (h e).1);
  distinct = adjust-Distinct key f objs;
}

-- `m'` differs from `m` neither in what `Keeps` reads nor in the bindings.
pub record Stays (m m' : Model) : Type 0 where
  pub keeps : Keeps m m'
  pub live : SameKeys m.live m'.live
  pub objs : SameObjs m.etw_objs m'.etw_objs
  pub by_addr : m'.etw_by_addr ≡ m.etw_by_addr

pub Stays-refl : (m : Model) → Stays m m
Stays-refl m = record {
  keeps = Keeps-refl m;
  live = SameKeys-refl m.live;
  objs = SameObjs-refl m.etw_objs;
  by_addr = refl;
}

pub Stays-trans : {a b c : Model} → Stays a b → Stays b c → Stays a c
Stays-trans p q = record {
  keeps = Keeps-trans p.keeps q.keeps;
  live = record {
    keys = λ id. q.live.keys id ∙ p.live.keys id;
    absent = λ e. q.live.absent (p.live.absent e);
  };
  objs = record {
    bounds = λ k. q.objs.bounds k ∙ p.objs.bounds k;
    addresses = λ k. q.objs.addresses k ∙ p.objs.addresses k;
    distinct = λ d. q.objs.distinct (p.objs.distinct d);
  };
  by_addr = q.by_addr ∙ p.by_addr;
}

-- An edit of neither the live objects nor the ETW objects, and one of a live object or an ETW object.
pub Stays-rest :
    {m m' : Model}
    → m'.live ≡ m.live
    → counted m'.s ≡ counted m.s
    → m'.etw_enabled ≡ m.etw_enabled
    → m'.children ≡ m.children
    → m'.etw_objs ≡ m.etw_objs
    → m'.etw_by_addr ≡ m.etw_by_addr
    → Stays m m'
Stays-rest {m = m} {m' = m'} a b c d e f = record {
  keeps = Keeps-edit (rw a refl) b c d;
  live = record { keys = λ id. rw a refl; absent = λ z. rw a z };
  objs = record { bounds = λ k. rw e refl; addresses = λ k. rw e refl; distinct = λ d. rw e d };
  by_addr = f;
}

pub Stays-live :
    (id : ℕ) (f : LiveObject → LiveObject) (m : Model)
    → ((o : LiveObject) → (core (f o) ≡ core o) × ((f o).etw_key ≡ o.etw_key))
    → Stays m (record m { live = adjust id f m.live })
Stays-live id f m h = record {
  keeps = Keeps-edit (cores-adjust id f m.live (λ o. (h o).0)) refl refl refl;
  live = adjust-SameKeys id f m.live (λ o. (h o).1);
  objs = SameObjs-refl m.etw_objs;
  by_addr = refl;
}

pub Stays-objs :
    {m m' : Model} (key : ℕ) (f : EtwObj → EtwObj)
    → ((e : EtwObj) → ((f e).bound_id ≡ e.bound_id) × ((f e).address ≡ e.address))
    → m'.live ≡ m.live
    → counted m'.s ≡ counted m.s
    → m'.etw_enabled ≡ m.etw_enabled
    → m'.children ≡ m.children
    → m'.etw_objs ≡ adjust key f m.etw_objs
    → m'.etw_by_addr ≡ m.etw_by_addr
    → Stays m m'
Stays-objs {m = m} {m' = m'} key f h a b c d e g =
    let same = adjust-SameObjs key f m.etw_objs h in
    record {
      keeps = Keeps-edit (rw a refl) b c d;
      live = record { keys = λ id. rw a refl; absent = λ z. rw a z };
      objs = record {
        bounds = λ k. rw e (same.bounds k);
        addresses = λ k. rw e (same.addresses k);
        distinct = λ d. rw e (same.distinct d);
      };
      by_addr = g;
    }
