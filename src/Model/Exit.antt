-- ===== src/Model/Exit.antt =====
-- The filter for teardown events (src/launcher/Model.cpp, PollChildLocked and AfterChildExitLocked):
-- what a sequence of polls of the target process finds.
use dx12track.Prelude.{
  ℕ, ◌≡◌, refl, sym, ap, ◌∙◌, Bool, true, false, List, [], ◌∷◌, none, some, arith, ◌==◌,
  if◌then◌else◌, ◌⊎◌, inl, inr,
}
use dx12track.Model.State.{Model, Env}
use dx12track.Model.Join.{side_line}
use dx12track.Model.Session.{now_ts, note_exit, poll_child, still_active}

abbrev pub poll_all : List Env → Model → Model
poll_all [] m = m
poll_all (e ∷ es) m = poll_all es (poll_child e m)

-- What a sample says of the process: it runs, it has ended, or nothing.
pub data Verdict : Type 0 where
  running ended unclear : Verdict

abbrev pub verdict : Env → Verdict
verdict e = if e.signaled then ended else elim e.exit_code [
  | none ↦ unclear
  | some code ↦ if code == still_active then running else ended
]

-- Has any sample seen the end?
abbrev pub any_ended : List Env → Bool
any_ended [] = false
any_ended (e ∷ es) = elim (verdict e) [ ended ↦ true | _ ↦ any_ended es ]

-- The time of the last sample that saw it running before one saw its end; `alive` where there is none.
abbrev pub last_alive : (Env → ℕ) → List Env → ℕ → ℕ
last_alive clock [] alive = alive
last_alive clock (e ∷ es) alive = elim (verdict e) [
  | running ↦ last_alive clock es (clock e)
  | ended ↦ alive
  | unclear ↦ last_alive clock es alive
]

-- The part of the state that the filter reads.
abbrev pub Filter : Type 0
Filter = Bool × ℕ × ℕ

abbrev pub filter_of : Model → Filter
filter_of m = (m.child_exiting, m.child_alive_ts, m.exit_cutoff_ts)

poll-exiting : (es : List Env) (m : Model) → m.child_exiting ≡ true → poll_all es m ≡ m
unfolding poll_child
poll-exiting [] m x = refl
poll-exiting (e ∷ es) m x =
    let same : poll_child e m ≡ m = rw (x, poll_child) refl in
    ap (poll_all es) same ∙ poll-exiting es m x

poll-ended :
    (e : Env) (m : Model)
    → m.child_exiting ≡ false
    → m.child_process ≡ true
    → verdict e ≡ ended
    → poll_child e m ≡ note_exit (now_ts e m) e.exit_code m
unfolding poll_child
poll-ended e m x p h = ground arith

poll-running :
    (e : Env) (m : Model)
    → m.child_exiting ≡ false
    → m.child_process ≡ true
    → verdict e ≡ running
    → poll_child e m ≡ record m { child_alive_ts = now_ts e m }
unfolding poll_child
poll-running e m x p h = ground arith

poll-unclear :
    (e : Env) (m : Model)
    → m.child_exiting ≡ false
    → m.child_process ≡ true
    → verdict e ≡ unclear
    → poll_child e m ≡ m
unfolding poll_child
poll-unclear e m x p h = ground arith

-- What the samples say the filter holds at the end.
abbrev pub found : (Env → ℕ) → List Env → ℕ → ℕ → Filter
found clock es alive cutoff = (
  any_ended es,
  last_alive clock es alive,
  if any_ended es then last_alive clock es alive else cutoff,
)

module _ (clock : Env → ℕ) (e : Env) (es : List Env) (alive cutoff : ℕ) where
  found-ended : verdict e ≡ ended → found clock (e ∷ es) alive cutoff ≡ (true, alive, alive)
  found-ended h = ground arith

  found-running :
      verdict e ≡ running → found clock (e ∷ es) alive cutoff ≡ found clock es (clock e) cutoff
  found-running h = ground arith

  found-unclear :
      verdict e ≡ unclear → found clock (e ∷ es) alive cutoff ≡ found clock es alive cutoff
  found-unclear h = ground arith

verdict-cases : (v : Verdict) → (v ≡ running) ⊎ ((v ≡ ended) ⊎ (v ≡ unclear))
verdict-cases running = inl refl
verdict-cases ended = inr (inl refl)
verdict-cases unclear = inr (inr refl)

-- Polls of a process that is set and not yet known to end: the end is known if and only if a sample saw
-- it, and then the cutoff is, whatever later samples say, the time of the last sample before it that
-- saw the process running.
pub poll_all-filter :
    (es : List Env) (m : Model)
    → m.child_exiting ≡ false
    → m.child_process ≡ true
    → filter_of (poll_all es m) ≡ found (λ e. now_ts e m) es m.child_alive_ts m.exit_cutoff_ts
unfolding now_ts note_exit side_line
poll_all-filter [] m x p = rw x refl
poll_all-filter (e ∷ es) m x p =
    let clock : Env → ℕ = λ e'. now_ts e' m in
    elim (verdict-cases (verdict e)) [
      | inl h ↦
          ap (λ n. filter_of (poll_all es n)) (poll-running e m x p h)
          ∙ (poll_all-filter es _ x p
              ∙ sym (found-running clock e es m.child_alive_ts m.exit_cutoff_ts h))
      | inr (inl h) ↦
          ap (λ n. filter_of (poll_all es n)) (poll-ended e m x p h)
          ∙ (ap filter_of (poll-exiting es _ refl)
              ∙ sym (found-ended clock e es m.child_alive_ts m.exit_cutoff_ts h))
      | inr (inr h) ↦
          ap (λ n. filter_of (poll_all es n)) (poll-unclear e m x p h)
          ∙ (poll_all-filter es m x p
              ∙ sym (found-unclear clock e es m.child_alive_ts m.exit_cutoff_ts h))
    ]
