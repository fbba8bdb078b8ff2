-- ===== src/Monitor/Counters.antt =====
-- The counters that src/etw/EtwMonitor.cpp passes on are those of the traced process.
use Prim.Native.String.{String}
use dx12track.Prelude.{
  ℕ, ℤ, ◌≡◌, refl, List, [], ◌∷◌, ◌++◌, Option, none, some, Map, find, put, find-put, ◌==◌,
  if_cases, option_both, Bool-cases, inl, inr, ◌⊎◌, arith, ==_iff,
}
use dx12track.Etw.{CounterKind}
use dx12track.Monitor.{
  Notification, SinkCall, counter_kind_from_name, created, points, note_counter, notify, notify_all,
}

-- A counter was announced for the traced process, under a name of that kind.
abbrev pub Announced : ℕ → ℕ → CounterKind → List Notification → Type 0
Announced traced id kind [] = ⊥
Announced traced id kind (Notification.counter_info pid name id' ∷ ns) =
    ((pid ≡ traced) × (id' ≡ id) × (counter_kind_from_name name ≡ some kind))
    ⊎ Announced traced id kind ns
Announced traced id kind (_ ∷ ns) = Announced traced id kind ns

-- The counters that the Sink hears of satisfy a predicate.
abbrev pub AllCounters : (ℕ → CounterKind → Type 0) → List SinkCall → Type 0
AllCounters K [] = Unit
AllCounters K (SinkCall.counter ts id kind value ∷ cs) = K id kind × AllCounters K cs
AllCounters K (_ ∷ cs) = AllCounters K cs

module _ (K : ℕ → CounterKind → Type 0) where
  abbrev AreKnown : Map CounterKind → Type 0
  AreKnown counters = (id : ℕ) (kind : CounterKind) → find id counters ≡ some kind → K id kind

  AllCounters-append :
      (cs ds : List SinkCall) → AllCounters K cs → AllCounters K ds → AllCounters K (cs ++ ds)
  AllCounters-append [] ds p q = q
  AllCounters-append (SinkCall.counter ts id kind value ∷ cs) ds p q =
      (p.0, AllCounters-append cs ds p.1 q)
  AllCounters-append (c ∷ cs) ds p q = AllCounters-append cs ds p q

  points-AllCounters :
      (counters : Map CounterKind) (ps : List (ℤ × ℕ × ℕ))
      → AreKnown counters
      → AllCounters K (points counters ps)
  unfolding points
  points-AllCounters counters [] known = tt
  points-AllCounters counters ((ts, id, value) ∷ ps) known =
      option_both (AllCounters K) (find id counters) (points-AllCounters counters ps known)
        (λ kind e. (known id kind e, points-AllCounters counters ps known))

  put-AreKnown :
      (id : ℕ) (kind : CounterKind) (counters : Map CounterKind)
      → K id kind
      → AreKnown counters
      → AreKnown (put id kind counters)
  put-AreKnown id kind counters here known j k f = elim (Bool-cases (id == j)) [
    | inl g ↦
        let same : kind ≡ k = ground (arith, find-put id j kind counters) in
        let at : id ≡ j = ground arith in rw (← same, ← at) here
    | inr g ↦ known j k (ground (arith, find-put id j kind counters))
  ]

  note_counter-AreKnown :
      (traced pid : ℕ) (name : Option String) (id : ℕ) (counters : Map CounterKind)
      → ((kind : CounterKind) → pid ≡ traced → counter_kind_from_name name ≡ some kind → K id kind)
      → AreKnown counters
      → AreKnown (note_counter traced pid name id counters)
  unfolding note_counter
  note_counter-AreKnown traced pid name id counters new known =
      option_both AreKnown (counter_kind_from_name name) known (λ kind e.
        if_cases AreKnown (pid == traced)
          (λ t. put-AreKnown id kind counters (new kind ((==_iff pid traced).0 t) e) known)
          (λ _. known))

  notify_all-AllCounters :
      (traced : ℕ) (ns : List Notification) (counters : Map CounterKind)
      → ((id : ℕ) (kind : CounterKind) → Announced traced id kind ns → K id kind)
      → AreKnown counters
      → AllCounters K (notify_all traced ns counters).1
  unfolding notify_all notify created
  notify_all-AllCounters traced [] counters new known = tt
  notify_all-AllCounters traced (Notification.counter_info pid name id ∷ ns) counters new known =
      notify_all-AllCounters traced ns (note_counter traced pid name id counters)
        (λ j k a. new j k (inr a))
        (note_counter-AreKnown traced pid name id counters
          (λ kind p e. new id kind (inl (p, refl, e))) known)
  notify_all-AllCounters traced (Notification.counter_data ps ∷ ns) counters new known =
      AllCounters-append (points counters ps) (notify_all traced ns counters).1
        (points-AllCounters counters ps known) (notify_all-AllCounters traced ns counters new known)
  notify_all-AllCounters traced (Notification.placed_creation type ts id none ∷ ns) counters new
        known =
      notify_all-AllCounters traced ns counters new known
  notify_all-AllCounters traced (Notification.placed_creation type ts id (some pl) ∷ ns) counters
        new known =
      notify_all-AllCounters traced ns counters new known
  notify_all-AllCounters traced (Notification.segment_group_changes [] ∷ ns) counters new known =
      notify_all-AllCounters traced ns counters new known
  notify_all-AllCounters traced (Notification.segment_group_changes (c ∷ cs) ∷ ns) counters new
        known =
      notify_all-AllCounters traced ns counters new known
  notify_all-AllCounters traced (n ∷ ns) counters new known =
      notify_all-AllCounters traced ns counters new known

-- Whatever the library calls back, from no known counters on: each counter that the Sink hears of has
-- been announced for the traced process, under a name of the kind that the Sink is told.
pub notify_all-Announced :
    (traced : ℕ) (ns : List Notification)
    → AllCounters (λ id kind. Announced traced id kind ns) (notify_all traced ns []).1
unfolding find
notify_all-Announced traced ns =
    notify_all-AllCounters (λ id kind. Announced traced id kind ns) traced ns [] (λ id kind a. a)
      (λ id kind e. cc)
