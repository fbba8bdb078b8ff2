-- ===== src/System/Shared.antt =====
-- The tracker's events (src/dll/Tracker.cpp) among the calls of the other threads of the launcher
-- (src/launcher/Model.h).
use dx12track.Prelude.{
  ℕ, ◌+◌, ◌≤◌, ◌<◌, ◌≡◌, refl, sym, ap, ◌∙◌, List, [], ◌∷◌, length, find, sum_by, arith, u64_mod,
}
use dx12track.Events.{EventKind, CreatedPayload, sizeof_created, sizeof_renamed, sizeof_destroyed}
use dx12track.Tracker.{Hooks, Call, Emitted, created, renamed, destroyed, run, empty_tracker}
use dx12track.Tracker.Ids.{count_created, created_now, run-IsOnce}
use dx12track.Model.State.{Model, Env}
use dx12track.Model.Core.{cores}
use dx12track.Model.Ingest.{Payload}
use dx12track.Model.Tick.{Double}
use dx12track.Model.Totals.{HasTotals}
use dx12track.Model.Turns.{Other, Turn, call, turn, turns}
use dx12track.Model.Turns.Totals.{Admits, AdmitsAll, call-cores, turn-HasTotals, turns-HasTotals}
use dx12track.Model.Totals.Events.{IsNew}
use dx12track.System.{header, receive}
use dx12track.System.Totals.{
  bytes_now, created_bytes, Follows, receive-Follows, unseen, Follows-IsNew, run-sent,
}

module _ (d : Double) where
  -- An event of the tracker arrives, or another thread has its turn.
  pub data Step : Type 0 where
    arrives : Env × ℕ × Payload → Emitted → Step
    passes : Other d → Step

  unfoldable pub share : List Step → Model → Model
  share [] m = m
  share (Step.arrives a e ∷ cs) m = share cs (receive a e m)
  share (Step.passes c ∷ cs) m = share cs (call d c m)

  abbrev pub arrived : List Step → List Emitted
  arrived [] = []
  arrived (Step.arrives a e ∷ cs) = e ∷ arrived cs
  arrived (Step.passes c ∷ cs) = arrived cs

  -- The call of a step.
  abbrev pub arrival_turn : Env × ℕ × Payload → Emitted → Turn d
  arrival_turn (env, ts, p) (created c) =
      Turn.event env (header EventKind.created sizeof_created ts) (record p { as_created = c })
        sizeof_created
  arrival_turn (env, ts, p) (renamed r) =
      Turn.event env (header EventKind.renamed sizeof_renamed ts) (record p { as_renamed = r })
        sizeof_renamed
  arrival_turn (env, ts, p) (destroyed x) =
      Turn.event env (header EventKind.destroyed sizeof_destroyed ts)
        (record p { as_destroyed = x }) sizeof_destroyed

  abbrev pub turns_of : List Step → List (Turn d)
  turns_of [] = []
  turns_of (Step.arrives a e ∷ cs) = arrival_turn a e ∷ turns_of cs
  turns_of (Step.passes c ∷ cs) = Turn.other c ∷ turns_of cs

  turn-arrival_turn :
      (a : Env × ℕ × Payload) (e : Emitted) (m : Model)
      → turn d (arrival_turn a e) m ≡ receive a e m
  unfolding turn receive
  turn-arrival_turn a (created c) m = refl
  turn-arrival_turn a (renamed r) m = refl
  turn-arrival_turn a (destroyed x) m = refl

  pub share-eq-turns : (cs : List Step) (m : Model) → share cs m ≡ turns d (turns_of cs) m
  unfolding share turns turn
  share-eq-turns [] m = refl
  share-eq-turns (Step.arrives a e ∷ cs) m =
      share-eq-turns cs (receive a e m) ∙ ap (turns d (turns_of cs)) (sym (turn-arrival_turn a e m))
  share-eq-turns (Step.passes c ∷ cs) m = share-eq-turns cs (call d c m)

  arrival_turn-Admits :
      (a : Env × ℕ × Payload) (e : Emitted) (m : Model)
      → ((p : CreatedPayload) → e ≡ created p → IsNew p.id p.size_bytes m)
      → Admits d (arrival_turn a e) m
  arrival_turn-Admits a (created c) m new = λ _ _. new c refl
  arrival_turn-Admits a (renamed r) m new = λ k _. absurd (ground arith)
  arrival_turn-Admits a (destroyed x) m new = λ k _. absurd (ground arith)

  turns_of-AdmitsAll :
      (cs : List Step) (seen : ℕ → ℕ) (b n : ℕ) (m : Model)
      → Follows seen b n (cores m.live)
      → HasTotals m
      → ((id : ℕ) → seen id + count_created id (arrived cs) ≤ 1)
      → b + created_bytes (arrived cs) < u64_mod
      → n + length (arrived cs) < u64_mod
      → AdmitsAll d (turns_of cs) m
  unfolding turn
  turns_of-AdmitsAll [] seen b n m f v once p q = tt
  turns_of-AdmitsAll (Step.passes c ∷ cs) seen b n m f v once p q = (
    tt,
    turns_of-AdmitsAll cs seen b n (call d c m) (rw (call-cores d c m) f)
        (turn-HasTotals d (Turn.other c) m tt v) once p q,
  )
  turns_of-AdmitsAll (Step.arrives a e ∷ cs) seen b n m f v once p q =
      let fresh : (c : CreatedPayload) → e ≡ created c → seen c.id ≡ 0 =
        λ c h. ground (arith, once c.id, ap (created_now c.id) h) in
      let admitted = arrival_turn-Admits a e m (λ c h.
        Follows-IsNew seen b n m f c.id c.size_bytes (fresh c h) (omega (arith, ap bytes_now h))
          (omega arith)) in
      (
        admitted,
        turns_of-AdmitsAll cs (λ id. seen id + created_now id e) (b + bytes_now e) (n + 1)
            (turn d (arrival_turn a e) m)
            (rw (turn-arrival_turn a e m)
              (receive-Follows a e m (λ c h. unseen seen b n m f c.id (fresh c h)) v.distinct f))
            (turn-HasTotals d (arrival_turn a e) m admitted v) (λ id. omega (arith, once id))
            (omega arith) (omega arith),
      )

  -- The events of a tracker meet a launcher without objects.
  module _ (hooks : Hooks) (slots : ℕ → ℕ → ℕ) (calls : List Call) (cs : List Step) (m : Model)
      (order : arrived cs ≡ (run hooks calls (empty_tracker slots)).sent)
      (few : 1 + length calls < u64_mod)
      (room : created_bytes (run hooks calls (empty_tracker slots)).sent < u64_mod)
      (empty : m.live ≡ []) (v : HasTotals m) where
    pub shared-AdmitsAll : AdmitsAll d (turns_of cs) m
    unfolding sum_by find
    shared-AdmitsAll =
        turns_of-AdmitsAll cs (λ _. 0) 0 0 m
          (rw empty (record { known = λ id c e. cc; bytes = omega arith; few = omega arith })) v
          (λ id. rw order (omega (arith, ((run-IsOnce hooks slots calls few).0 id).1)))
          (rw order (omega arith))
          (rw order (omega (arith, run-sent hooks calls (empty_tracker slots))))

  -- The events that the tracker emits over fewer than 2^64 - 1 calls from its empty state arrive in order,
  -- at any times, and between them the ETW consumer and the main loop make any calls: a launcher that
  -- holds no object and whose totals are right ends with totals that are the sums over its live objects,
  -- if the bytes created stay below 2^64 altogether.
  pub share-HasTotals :
      (hooks : Hooks) (slots : ℕ → ℕ → ℕ) (calls : List Call) (cs : List Step) (m : Model)
      → arrived cs ≡ (run hooks calls (empty_tracker slots)).sent
      → 1 + length calls < u64_mod
      → created_bytes (run hooks calls (empty_tracker slots)).sent < u64_mod
      → m.live ≡ []
      → HasTotals m
      → HasTotals (share cs m)
  share-HasTotals hooks slots calls cs m order few room empty v = rw (share-eq-turns cs m) (
      turns-HasTotals d (turns_of cs) m
        (shared-AdmitsAll hooks slots calls cs m order few room empty v) v)
