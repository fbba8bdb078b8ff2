-- ===== src/Monitor/Stale.antt =====
-- The sessions that a killed instance left behind (StopStaleSessions of src/etw/EtwMonitor.cpp). What
-- QueryAllTraces lists and what OpenProcess answers is an argument.
use dx12track.Prelude.{
  ℕ, ◌≤◌, ◌≡◌, ◌≢◌, refl, ◌∙◌, ap, ◌⊎◌, inl, inr, Bool-cases, Bool, true, false, not, ◌&&◌, ◌||◌,
  List, [], ◌∷◌, ◌++◌, Option, none, some, take, drop, length, lists_eq→≡, nonzero, drop-prefix,
  take-short, arith, ◌==◌, if◌then◌else◌,
}
use mathlib.Core.Path.{subst}
use dx12track.Json.{codes, decimal}
use dx12track.Wide.{
  count, count_if, Wide, ulong_max, wcstoul, has_prefix, has_prefix-append, wcstoul-decimal,
}

-- kSessionPrefix
abbrev pub session_prefix : Wide
unfolding codes
session_prefix = codes "dx12track-etw-"

unfoldable pub own_session_name : ℕ → Wide
own_session_name pid = session_prefix ++ decimal pid

-- OpenProcess: a handle whose wait times out or not, or an error.
pub data OpenAnswer : Type 0 where
  opened : Bool → OpenAnswer
  refused : ℕ → OpenAnswer

abbrev pub error_access_denied : ℕ
error_access_denied = 5

unfoldable pub process_is_alive : OpenAnswer → Bool
process_is_alive (OpenAnswer.opened times_out) = times_out
process_is_alive (OpenAnswer.refused error) = error == error_access_denied

-- The test of the loop's body on a session's name.
unfoldable pub is_stale : ℕ → (ℕ → OpenAnswer) → Wide → Bool
is_stale own open_process name =
    let pid = (wcstoul (drop (length session_prefix) name)).0 in
    if not (has_prefix session_prefix name)
    then false
    else not (pid == own || (nonzero pid && process_is_alive (open_process pid)))

unfoldable pub stop_each : ℕ → (ℕ → OpenAnswer) → List Wide → List Wide
stop_each own open_process [] = []
stop_each own open_process (name ∷ names) =
    let rest = stop_each own open_process names in
    if is_stale own open_process name then name ∷ rest else rest

abbrev pub max_sessions : ℕ
max_sessions = 128

-- The names of the sessions that ControlTrace is asked to stop.
unfoldable pub stop_stale_sessions : ℕ → (ℕ → OpenAnswer) → Option (List Wide) → List Wide
stop_stale_sessions own open_process none = []
stop_stale_sessions own open_process (some names) =
    stop_each own open_process (take max_sessions names)

abbrev pub AllOurs : List Wide → Type 0
AllOurs [] = Unit
AllOurs (n ∷ ns) = (has_prefix session_prefix n ≡ true) × AllOurs ns

-- An instance that is this one or runs still: its process is opened and its wait times out, or it may not be
-- opened. Nothing runs under the id 0.
abbrev pub Runs : ℕ → (ℕ → OpenAnswer) → ℕ → Type 0
Runs own open_process pid =
    (pid ≡ own)
    ⊎ ((pid ≢ 0)
        × ((open_process pid ≡ OpenAnswer.opened true) ⊎ (open_process pid ≡ OpenAnswer.refused 5)))

-- A session of the names is left alone if its instance runs, and stopped as often as it is listed if not.
abbrev pub IsHandled : ℕ → (ℕ → OpenAnswer) → List Wide → Wide → ℕ → Type 0
IsHandled own open_process names name pid =
    (Runs own open_process pid → count name (stop_stale_sessions own open_process (some names)) ≡ 0)
    × (¬ (Runs own open_process pid)
        → count name (stop_stale_sessions own open_process (some names)) ≡ count name names)

is_stale-Runs :
    (own : ℕ) (open_process : ℕ → OpenAnswer) (tail : Wide)
    → Runs own open_process (wcstoul tail).0
    → is_stale own open_process (session_prefix ++ tail) ≡ false
unfolding is_stale process_is_alive
is_stale-Runs own open_process tail h =
    rw (has_prefix-append session_prefix tail, drop-prefix session_prefix tail)
      (elim h [
        | inl e ↦ ground (arith, e)
        | inr (ne, inl e) ↦ rw e (ground (arith, ne))
        | inr (ne, inr e) ↦ rw e (ground (arith, ne))
      ])

alive-cases :
    (a : OpenAnswer)
    → process_is_alive a ≡ true
    → (a ≡ OpenAnswer.opened true) ⊎ (a ≡ OpenAnswer.refused 5)
unfolding process_is_alive
alive-cases (OpenAnswer.opened b) h = inl (ap OpenAnswer.opened h)
alive-cases (OpenAnswer.refused n) h = let e : n ≡ 5 = ground arith in inr (ap OpenAnswer.refused e)

is_stale-gone :
    (own : ℕ) (open_process : ℕ → OpenAnswer) (tail : Wide)
    → ¬ (Runs own open_process (wcstoul tail).0)
    → is_stale own open_process (session_prefix ++ tail) ≡ true
unfolding is_stale
is_stale-gone own open_process tail h =
    let pid = (wcstoul tail).0 in
    rw (has_prefix-append session_prefix tail, drop-prefix session_prefix tail)
      (elim (Bool-cases (pid == own)) [
        | inl e ↦ absurd (h (inl (ground arith)))
        | inr other ↦ elim (Bool-cases (nonzero pid && process_is_alive (open_process pid))) [
          | inl e ↦
              let ne : pid ≢ 0 = ground arith in
              let alive : process_is_alive (open_process pid) ≡ true = ground arith in
              absurd (h (inr (ne, alive-cases (open_process pid) alive)))
          | inr e ↦ rw (other, e) refl
        ]
      ])

stop_each-count :
    (own : ℕ) (open_process : ℕ → OpenAnswer) (name : Wide) (stale : Bool) (names : List Wide)
    → is_stale own open_process name ≡ stale
    → count name (stop_each own open_process names) ≡ (if stale then count name names else 0)
unfolding stop_each
stop_each-count own open_process name stale [] h = ground arith
stop_each-count own open_process name stale (n ∷ ns) h =
    count_if name n (stop_each own open_process ns) (is_stale own open_process n) stale
      (count name ns) (stop_each-count own open_process name stale ns h)
      (λ e. ap (is_stale own open_process) (lists_eq→≡ n name e) ∙ h)

stop_each-AllOurs :
    (own : ℕ) (open_process : ℕ → OpenAnswer) (names : List Wide)
    → AllOurs (stop_each own open_process names)
unfolding stop_each is_stale
stop_each-AllOurs own open_process [] = tt
stop_each-AllOurs own open_process (n ∷ ns) = ground (arith, stop_each-AllOurs own open_process ns)

stopped-AllOurs :
    (own : ℕ) (open_process : ℕ → OpenAnswer) (names : List Wide)
    → AllOurs (stop_stale_sessions own open_process (some names))
unfolding stop_stale_sessions
stopped-AllOurs own open_process names = stop_each-AllOurs own open_process _

prefixed-IsHandled :
    (own : ℕ) (open_process : ℕ → OpenAnswer) (names : List Wide) (tail : Wide)
    → length names ≤ max_sessions
    → IsHandled own open_process names (session_prefix ++ tail) (wcstoul tail).0
unfolding stop_stale_sessions
prefixed-IsHandled own open_process names tail few = rw (take-short max_sessions names few) (
  λ runs.
      stop_each-count own open_process (session_prefix ++ tail) false names
        (is_stale-Runs own open_process tail runs),
  λ gone.
      stop_each-count own open_process (session_prefix ++ tail) true names
        (is_stale-gone own open_process tail gone),
)

-- Of at most 128 sessions that the system lists, none without the prefix is stopped. One whose name is
-- the prefix and any text is left alone, if the number that wcstoul reads from the text (0 where there
-- is none) is the id of this process, or is not 0 and OpenProcess gives a handle whose wait times out or
-- denies the access; otherwise it is stopped, as often as it is listed. For the name that an instance
-- gives its session this number is the instance's process id.
pub stop_stale_sessions-count :
    (own : ℕ) (open_process : ℕ → OpenAnswer) (names : List Wide)
    → length names ≤ max_sessions
    → AllOurs (stop_stale_sessions own open_process (some names))
      × ((tail : Wide) → IsHandled own open_process names (session_prefix ++ tail) (wcstoul tail).0)
      × ((pid : ℕ) → pid ≤ ulong_max → IsHandled own open_process names (own_session_name pid) pid)
unfolding own_session_name
stop_stale_sessions-count own open_process names few = (
  stopped-AllOurs own open_process names,
  λ tail. prefixed-IsHandled own open_process names tail few,
  λ pid h.
      subst (IsHandled own open_process names (session_prefix ++ decimal pid))
        (ap (λ r. r.0) (wcstoul-decimal pid h))
        (prefixed-IsHandled own open_process names (decimal pid) few),
)
