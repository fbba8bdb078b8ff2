-- ===== src/Launcher/Wait.antt =====
-- The original launcher waits for the elevated one (ElevationRequest::Wait of src/launcher/Elevation.cpp).
-- What the system answers is an argument; what is printed is recorded.
use dx12track.Prelude.{
  ℕ, ◌<◌, ◌^◌, ◌≢◌, take, ◌≡◌, refl, sym, ap, ◌∙◌, Bool, true, false, not, ◌&&◌, ◌||◌, List, [],
  ◌∷◌, ◌++◌, Option, none, some, ◌==◌, if◌then◌else◌,
}
use dx12track.Wide.{Wide}
use dx12track.Launcher.Handoff.{
  Mapping, Session, console_own, console_attached, forwarded, forward_all, switch_console,
}
use dx12track.Launcher.Handoff.Forwarding.{concat, forward_all-own, printed-forward_all}

-- What WaitForSingleObject answers: the instance has ended, it runs still, or the wait fails.
pub data WaitResult : Type 0 where
  object_0 timeout failed : WaitResult

-- One turn of the loop: the wait's result, and console_state as it is read then.
pub record Poll : Type 0 where
  pub state : ℕ
  pub wait : WaitResult

-- w != WAIT_TIMEOUT
abbrev pub is_last : WaitResult → Bool
is_last WaitResult.object_0 = true
is_last WaitResult.timeout = false
is_last WaitResult.failed = true

pub data Print : Type 0 where
  announce : Print
  output : Wide → Print
  exited : ℕ → Print

abbrev announces : Bool → Poll → Bool
announces announced p = not announced && (p.state == console_own)

-- Whether the loop ends within the turns, and what it prints.
unfoldable pub wait_loop : Bool → List Poll → Bool × List Print
wait_loop announced [] = (false, [])
wait_loop announced (p ∷ ps) =
    let now = announces announced p in
    let (ends, rest) = wait_loop (announced || now) ps in
    let calls = if now then announce ∷ [] else [] in
    if is_last p.wait then (true, calls) else (ends, calls ++ rest)

abbrev print_output : Wide → List Print
print_output [] = []
print_output (c ∷ s) = output (c ∷ s) ∷ []

abbrev report_text : Bool → Wide → ℕ → List Print
report_text true text code = []
report_text false text code = print_output text ++ exited code ∷ []

-- From the end of the loop on; `exit` is what GetExitCodeProcess tells, if it succeeds.
unfoldable pub report : Mapping → Option ℕ → List Print
report m exit =
    report_text (m.hdr.console_state == console_attached) (forwarded m)
      (elim exit [ none ↦ 1 | some code ↦ code ])

-- `m` is the mapping when the loop has ended.
unfoldable pub wait : List Poll → Mapping → Option ℕ → Option ℕ × List Print
unfolding wait_loop report
wait ps m exit =
    let (ends, calls) = wait_loop false ps in
    if ends
    then (some (elim exit [ none ↦ 1 | some code ↦ code ]), calls ++ report m exit)
    else (none, calls)

abbrev AllTimeOut : List Poll → Type 0
AllTimeOut [] = Unit
AllTimeOut (p ∷ ps) = (p.wait ≡ WaitResult.timeout) × AllTimeOut ps

-- Does the elevated instance have a console of its own in one of the turns?
abbrev pub owns : List Poll → Bool
owns [] = false
owns (p ∷ ps) = (p.state == console_own) || owns ps

abbrev announce_if : Bool → List Print
announce_if b = if b then announce ∷ [] else []

last_of : (w : WaitResult) → w ≢ WaitResult.timeout → is_last w ≡ true
last_of WaitResult.object_0 h = refl
last_of WaitResult.timeout h = absurd (h refl)
last_of WaitResult.failed h = refl

-- A turn's announcement, and what the loop prints behind it.
turn_prints :
    (announced own later : Bool)
    → announce_if (not announced && own)
        ++ announce_if (not (announced || (not announced && own)) && later)
      ≡ announce_if (not announced && (own || later))
turn_prints true own later = refl
turn_prints false true later = refl
turn_prints false false later = refl

wait_loop-prints :
    (announced : Bool) (before : List Poll) (p : Poll) (after : List Poll)
    → AllTimeOut before
    → p.wait ≢ WaitResult.timeout
    → wait_loop announced (before ++ p ∷ after)
      ≡ (true, announce_if (not announced && owns (before ++ p ∷ [])))
unfolding wait_loop
wait_loop-prints announced [] p after out ends =
    rw (wait_loop, last_of p.wait ends)
      (ap (λ b. (true, announce_if (not announced && b))) (sym (or_false (p.state == console_own))))
  where
    or_false : (b : Bool) → (b || false) ≡ b
    or_false true = refl
    or_false false = refl
wait_loop-prints announced (q ∷ before) p after (e, out) ends =
    rw (wait_loop, e, wait_loop-prints (announced || announces announced q) before p after out ends)
      (ap (λ calls. (true, calls))
        (turn_prints announced (q.state == console_own) (owns (before ++ p ∷ []))))

wait_loop-goes_on :
    (announced : Bool) (ps : List Poll) → AllTimeOut ps → (wait_loop announced ps).0 ≡ false
unfolding wait_loop
wait_loop-goes_on announced [] out = refl
wait_loop-goes_on announced (p ∷ ps) (e, out) =
    rw (wait_loop, e) (wait_loop-goes_on (announced || announces announced p) ps out)

abbrev code_of : Option ℕ → ℕ
code_of exit = elim exit [ none ↦ 1 | some code ↦ code ]

-- The elevated instance has taken over the handoff with a console of its own and a buffer of less than
-- 2^31 units, and has forwarded some texts, when the waits of the original launcher, which have timed
-- out so far, end otherwise, with that instance ended or with a failure. Then the original has announced
-- the console once if it has seen it, and not otherwise; it prints the texts, one after another and cut
-- off where the buffer is full, and the exit code that the system tells, or 1, which is the result. As
-- long as all its waits time out, it has no result.
pub wait-forward_all :
    (before : List Poll) (p : Poll) (after : List Poll) (ts : List Wide) (s : Session)
    (m₀ m : Mapping) (exit : Option ℕ)
    → AllTimeOut before
    → p.wait ≢ WaitResult.timeout
    → m₀.hdr.out_cap < 2 ^ 31
    → m₀.hdr.out_chars ≡ 0
    → s.mapping ≡ some m₀
    → (forward_all ts (switch_console false s)).mapping ≡ some m
    → (wait (before ++ p ∷ after) m exit ≡ (
      some (code_of exit),
      announce_if (owns (before ++ p ∷ []))
          ++ (print_output (take m₀.hdr.out_cap (concat ts)) ++ exited (code_of exit) ∷ []),
    ))
      × ((wait before m exit).0 ≡ none)
unfolding wait report
wait-forward_all before p after ts s m₀ m exit out ends small empty here there =
    let text : forwarded m ≡ take m₀.hdr.out_cap (concat ts) =
      ap (λ o. elim o [ none ↦ [] | some x ↦ forwarded x ]) (sym there)
      ∙ printed-forward_all ts s m₀ small empty here in
    let own : m.hdr.console_state ≡ console_own =
      forward_all-own ts s m₀ small empty here m there in
    (
      rw (wait, wait_loop-prints false before p after out ends, report, text, own) refl,
      rw (wait, wait_loop-goes_on false before out) refl,
    )
