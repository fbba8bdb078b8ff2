-- ===== src/Pipe/Server/Stops.antt =====
-- PipeServer::Stop of src/launcher/PipeServer.cpp against the reader's thread.
use dx12track.Prelude.{
  ℕ, zero, suc, ◌+◌, ◌≤◌, ◌≡◌, ◌≢◌, refl, ap, ◌&&◌, not, none, Bool-cases, Bool, true, false, some,
  arith, ◌⊎◌, inl, inr,
}
use mathlib.Core.Path.{subst}
use dx12track.Pipe.Server.{
  Reader, Stopper, Server, cancel_io, reader_over, connect_and_start, Step, Run,
}

-- `stop_` is set from the first line of Stop on, and Stop returns once the reader has ended.
pub record IsOrdered (s : Server) : Type 0 where
  pub flag : s.stopper ≢ Stopper.serving → s.stop ≡ true
  pub over : s.stopper ≡ Stopper.returned → reader_over s.reader ≡ true

Step-IsOrdered : {s t : Server} → Step s t → IsOrdered s → IsOrdered t
unfolding cancel_io reader_over
Step-IsOrdered (Step.tests_on s r e) h = record {
  flag = h.flag;
  over = λ p. ground (arith, h.over p);
}
Step-IsOrdered (Step.tests_off s r e) h = record { flag = h.flag; over = λ p. refl }
Step-IsOrdered (Step.calls s r) h = record { flag = h.flag; over = λ p. ground (arith, h.over p) }
Step-IsOrdered (Step.reads s n r q) h = record {
  flag = h.flag;
  over = λ p. ground (arith, h.over p);
}
Step-IsOrdered (Step.rejects s n r q) h = record { flag = h.flag; over = λ p. refl }
Step-IsOrdered (Step.sees_end s r q e) h = record { flag = h.flag; over = λ p. refl }
Step-IsOrdered (Step.sets_stop s p) h = record { flag = λ _. refl; over = λ e. cc }
Step-IsOrdered (Step.cancels s p) h = record { flag = λ _. h.flag (λ e. cc); over = λ e. cc }
Step-IsOrdered (Step.joins s p o) h = record { flag = λ _. h.flag (λ e. cc); over = λ e. o }
Step-IsOrdered (Step.sends s p) h = record { flag = h.flag; over = h.over }
Step-IsOrdered (Step.leaves s p) h = record { flag = h.flag; over = h.over }

Run-IsOrdered : {n : ℕ} {s t : Server} → Run n s t → IsOrdered s → IsOrdered t
Run-IsOrdered Run.here h = h
Run-IsOrdered (Run.next st r) h = Run-IsOrdered r (Step-IsOrdered st h)

started-IsOrdered :
    (connected pending : Bool) (s t : Server)
    → s.stopper ≡ Stopper.serving
    → connect_and_start connected pending s ≡ some t
    → IsOrdered t
unfolding connect_and_start
started-IsOrdered connected pending s t h e = elim (Bool-cases (not connected && not pending)) [
  | inl failed ↦ absurd (cc (e, failed))
  | inr go ↦
      let first : record s { stop = false; reader = Reader.testing } ≡ t =
        ap (λ x. elim x [ none ↦ s | some y ↦ y ]) (rw go at e) in
      subst IsOrdered first (record { flag = λ p. absurd (p h); over = λ p. absurd (cc (p, h)) })
]

-- How far the two threads are from their ends.
abbrev rank : Reader → ℕ
rank Reader.unstarted = 0
rank Reader.ended = 0
rank Reader.testing = 1
rank Reader.waiting = 2
rank Reader.calling = 3

abbrev stage : Stopper → ℕ
stage Stopper.returned = 0
stage Stopper.joining = 1
stage Stopper.cancelling = 2
stage Stopper.serving = 3

abbrev measure : Server → ℕ
measure s = rank s.reader + stage s.stopper

rank-cancel_io : (r : Reader) → rank (cancel_io r) ≤ rank r
unfolding cancel_io
rank-cancel_io Reader.unstarted = omega arith
rank-cancel_io Reader.testing = omega arith
rank-cancel_io Reader.calling = omega arith
rank-cancel_io Reader.waiting = omega arith
rank-cancel_io Reader.ended = omega arith

rank-le : (r : Reader) → rank r ≤ 3
rank-le Reader.unstarted = omega arith
rank-le Reader.testing = omega arith
rank-le Reader.calling = omega arith
rank-le Reader.waiting = omega arith
rank-le Reader.ended = omega arith

stage-le : (p : Stopper) → stage p ≤ 3
stage-le Stopper.serving = omega arith
stage-le Stopper.cancelling = omega arith
stage-le Stopper.joining = omega arith
stage-le Stopper.returned = omega arith

-- Is the flag set, and the other end closed?
abbrev IsLeft : Server → Type 0
IsLeft s = (s.stop ≡ true) × (s.peer ≡ false)

Step-measure : {s t : Server} → Step s t → IsLeft s → (measure t + 1 ≤ measure s) × IsLeft t
Step-measure (Step.tests_on s r e) h = absurd (cc (e, h.0))
Step-measure (Step.tests_off s r e) h = (ground arith, h)
Step-measure (Step.calls s r) h = (ground arith, h)
Step-measure (Step.reads s n r q) h = (ground arith, h)
Step-measure (Step.rejects s n r q) h = (ground arith, h)
Step-measure (Step.sees_end s r q e) h = (ground arith, h)
Step-measure (Step.sets_stop s p) h = (ground arith, (refl, h.1))
Step-measure (Step.cancels s p) h = (ground (arith, rank-cancel_io s.reader), h)
Step-measure (Step.joins s p o) h = (ground arith, h)
Step-measure (Step.sends s p) h = absurd (cc (p, h.1))
Step-measure (Step.leaves s p) h = absurd (cc (p, h.1))

Run-measure : {n : ℕ} {s t : Server} → Run n s t → IsLeft s → (n + measure t ≤ measure s) × IsLeft t
Run-measure Run.here h = (omega arith, h)
Run-measure (Run.next st r) h =
    let (a, b) = Step-measure st h in let (c, d) = Run-measure r b in (omega arith, d)

-- The thread that is not at its end has a next step.
reader_step :
    (s : Server) (r : Reader)
    → s.reader ≡ r
    → IsLeft s
    → s.stopper ≡ Stopper.joining
    → (t : Server) × Step s t
unfolding reader_over
reader_step s Reader.unstarted e h p = (_, Step.joins s p (rw e refl))
reader_step s Reader.ended e h p = (_, Step.joins s p (rw e refl))
reader_step s Reader.testing e h p = (_, Step.tests_off s e h.0)
reader_step s Reader.calling e h p = (_, Step.calls s e)
reader_step s Reader.waiting e h p = waits s.queued refl
  where
    waits : (n : ℕ) → s.queued ≡ n → (t : Server) × Step s t
    waits zero q = (_, Step.sees_end s e q h.1)
    waits (suc n) q = (_, Step.reads s n e q)

next_step :
    (s : Server) (p : Stopper)
    → s.stopper ≡ p
    → IsLeft s
    → (s.stopper ≡ Stopper.returned) ⊎ ((t : Server) × Step s t)
next_step s Stopper.serving e h = inr (_, Step.sets_stop s e)
next_step s Stopper.cancelling e h = inr (_, Step.cancels s e)
next_step s Stopper.joining e h = inr (reader_step s s.reader refl h e)
next_step s Stopper.returned e h = inl e

-- From a server that ConnectAndStart started, however the threads and the DLL took turns so far: once
-- `stop_` is set and the DLL's end is closed, at most six steps are left, and where none is possible
-- any more, Stop has returned and the reader's thread has ended.
pub stop-Returns :
    (connected pending : Bool) (s₀ s : Server) {k n : ℕ} {t u : Server}
    → s₀.stopper ≡ Stopper.serving
    → connect_and_start connected pending s₀ ≡ some s
    → Run k s t
    → t.stop ≡ true
    → t.peer ≡ false
    → Run n t u
    → (n ≤ 6)
      × (((u.stopper ≡ Stopper.returned) × (reader_over u.reader ≡ true))
          ⊎ ((v : Server) × Step u v))
stop-Returns connected pending s₀ s {t = t} {u = u} fresh started before flag gone after =
    let (count, left) = Run-measure after (flag, gone) in
    let ordered =
      Run-IsOrdered after
        (Run-IsOrdered before (started-IsOrdered connected pending s₀ s fresh started)) in
    (
      omega (arith, rank-le t.reader, stage-le t.stopper),
      elim (next_step u u.stopper refl left) [ inl e ↦ inl (e, ordered.over e) | inr v ↦ inr v ],
    )

-- The only steps of a server whose reader is in ReadFile on an empty pipe while Stop waits for it.
stuck :
    {s t : Server}
    → Step s t
    → s.reader ≡ Reader.waiting
    → s.stopper ≡ Stopper.joining
    → s.queued ≡ 0
    → (t.queued ≡ 1) ⊎ (t.peer ≡ false)
unfolding reader_over
stuck (Step.sees_end s r q e) w j z = inr e
stuck (Step.sends s p) w j z = inl (omega arith)
stuck (Step.leaves s p) w j z = inr refl
stuck (Step.tests_on s r e) w j z = absurd (cc (r, w))
stuck (Step.tests_off s r e) w j z = absurd (cc (r, w))
stuck (Step.calls s r) w j z = absurd (cc (r, w))
stuck (Step.reads s n r q) w j z = absurd (omega arith)
stuck (Step.rejects s n r q) w j z = absurd (omega arith)
stuck (Step.sets_stop s p) w j z = absurd (cc (p, j))
stuck (Step.cancels s p) w j z = absurd (cc (p, j))
stuck (Step.joins s p o) w j z = absurd (ground arith)

-- Where the reader has found `stop_` unset and has not called ReadFile yet as Stop cancels the I/O, on an
-- empty pipe, the cancellation is lost: two steps later the reader can be in ReadFile and Stop in its
-- join, and every step from there is one of the DLL's, a message or the end of the pipe.
pub cancel_io-misses :
    (s : Server)
    → s.reader ≡ Reader.calling
    → s.stopper ≡ Stopper.cancelling
    → s.queued ≡ 0
    → (t : Server) × Run 2 s t
      × (t.reader ≡ Reader.waiting)
      × (t.stopper ≡ Stopper.joining)
      × ((u : Server) → Step t u → (u.queued ≡ 1) ⊎ (u.peer ≡ false))
unfolding cancel_io
cancel_io-misses s r p q =
    let joined = record s { stopper = Stopper.joining; reader = cancel_io s.reader } in
    let reading : joined.reader ≡ Reader.calling = rw r refl in
    (
      record joined { reader = Reader.waiting },
      Run.next (Step.cancels s p) (Run.next (Step.calls joined reading) Run.here),
      refl,
      refl,
      λ u st. stuck st refl refl q,
    )
