-- ===== src/Monitor/Session/Life.antt =====
-- What Monitor of src/etw/EtwMonitor.cpp starts, it ends.
use dx12track.Prelude.{
  ℕ, ◌≡◌, refl, ap, ◌∙◌, Bool, true, false, not, List, [], ◌∷◌, Option, none, some, ◌==◌, if_both,
  option_both,
}
use dx12track.Wide.{Wide}
use dx12track.Monitor.Session.{
  Act, Impl, StartAnswers, Provider, Started, act, enable_provider, give_up, enable_error,
  open_and_consume, enable_both, clear_names, start, stop, request_rundown, on_record, on_buffer,
  new,
}
use dx12track.Monitor.Session.Accounts.{
  Holds, replay, account, act_neutral, enable_provider-Holds, stop_names-Holds, stop_settles,
}

abbrev pub has_error : Option Wide → Bool
has_error none = false
has_error (some text) = true

-- A success with all three, or an error and none.
abbrev pub IsSettled : Impl → Bool → Option Wide → Type 0
IsSettled d ok error = Holds d ok ok ok × (has_error error ≡ not ok)

-- Start returns, and so.
abbrev pub IsAllOrNothing : Started → Type 0
IsAllOrNothing x =
    (d : Impl) × (ok : Bool) × (error : Option Wide) × (x ≡ some (d, ok, error))
    × IsSettled d ok error

give_up-IsAllOrNothing :
    (a : StartAnswers) (error : Wide) (d : Impl) (s t : Bool)
    → Holds d s t false
    → IsAllOrNothing (give_up a error d)
unfolding give_up
give_up-IsAllOrNothing a error d s t h =
    let (d', stopped, held) = stop_settles a.stopped a.consumer_ends d s t false h (λ e. cc) in
    (d', false, some error, rw (give_up, stopped) refl, (held, refl))

open_and_consume-IsAllOrNothing :
    (a : StartAnswers) (d : Impl) → Holds d true false false → IsAllOrNothing (open_and_consume a d)
unfolding open_and_consume
open_and_consume-IsAllOrNothing a d h =
    let opened : Holds (record (act Act.open_trace d) { trace = true }) true true false =
      account Act.open_trace d _ true false false h refl h.session_is refl h.consumer_is refl refl
        refl refl in
    option_both IsAllOrNothing a.open_error
      (
        _,
        true,
        none,
        refl,
        (
          account Act.start_consumer _ _ true true false opened refl h.session_is refl refl refl
              refl refl refl,
          refl,
        ),
      )
      (λ e _. give_up-IsAllOrNothing a _ d true false h)

enable_both-IsAllOrNothing :
    (a : StartAnswers) (d : Impl) → Holds d true false false → IsAllOrNothing (enable_both a d)
unfolding enable_both
enable_both-IsAllOrNothing a d h =
    let one = enable_provider Provider.dxgkrnl a.dxgkrnl d in
    let two = enable_provider Provider.direct3d12 a.direct3d12 one.0 in
    let first = enable_provider-Holds Provider.dxgkrnl a.dxgkrnl d true false false h in
    let second =
      enable_provider-Holds Provider.direct3d12 a.direct3d12
        (enable_provider Provider.dxgkrnl a.dxgkrnl d).0 true false false first in
    if_both IsAllOrNothing (not (one.1 == 0))
      (give_up-IsAllOrNothing a (enable_error Provider.dxgkrnl one.1) one.0 true false first)
      (if_both IsAllOrNothing (not (two.1 == 0))
        (give_up-IsAllOrNothing a (enable_error Provider.direct3d12 two.1) two.0 true false second)
        (open_and_consume-IsAllOrNothing a two.0 second))

clear_names-Holds :
    (a : StartAnswers) (d : Impl) (s t c : Bool) → Holds d s t c → Holds (clear_names a d) s t c
unfolding clear_names
clear_names-Holds a d s t c h = stop_names-Holds _ d s t c h

-- Start on a monitor that runs or is stopped returns. It succeeds, with no error's text, and then the
-- session, the trace and the consumer's thread are there; or it fails with an error's text, and then the
-- monitor has none of them, and each that was begun has been ended, but for sessions that ControlTrace
-- refused to stop, which go on in the system. Of a monitor that runs it is a success.
pub start-IsAllOrNothing :
    (a : StartAnswers) (d : Impl) (on : Bool)
    → Holds d on on on
    → IsAllOrNothing (start a d) × (on ≡ true → start a d ≡ some (d, true, none))
unfolding start
start-IsAllOrNothing a d true h = simp h.session_is ((d, true, none, refl, (h, refl)), λ _. refl)
start-IsAllOrNothing a d false h =
    let cleared = clear_names-Holds a d false false false h in
    simp h.session_is (
      if_both IsAllOrNothing (not a.created) (d, false, _, refl, (h, refl))
          (if_both IsAllOrNothing (not (a.start_status == 0))
            (
              record (clear_names a d) { session = false },
              false,
              _,
              refl,
              (
                record {
                  session_is = refl;
                  trace_is = cleared.trace_is;
                  consumer_is = cleared.consumer_is;
                  sessions = cleared.sessions;
                  traces = cleared.traces;
                  consumers = cleared.consumers;
                  order = cleared.order;
                },
                refl,
              ),
            )
            (enable_both-IsAllOrNothing a _ (
              account Act.start_trace _ _ false false false cleared refl refl cleared.trace_is
                cleared.consumer_is refl refl refl refl))),
      λ e. cc,
    )

-- A call of a method, or of the library's thread; Stop is told whether the consumer's thread ends.
pub data Call : Type 0 where
  starts : StartAnswers → Call
  stops : Option (ℕ × ℕ) → Bool → Call
  rundown : ℕ → Call
  records buffers : Bool → Call

abbrev pub started : Started → Option Impl
started none = none
started (some (d, ok, error)) = some d

abbrev pub step : Call → Impl → Option Impl
step (starts a) d = started (start a d)
step (stops answer ends) d = stop answer ends d
step (rundown status) d = some (request_rundown status d).0
step (records throws) d = some (on_record throws d)
step (buffers throws) d = some (on_buffer throws d)

-- The monitor behind the calls, if each returns.
unfoldable pub drive : List Call → Impl → Option Impl
drive [] d = some d
drive (c ∷ cs) d = elim (step c d) [ none ↦ none | some d' ↦ drive cs d' ]

-- Each Stop finds that the consumer's thread ends.
abbrev pub AllEnd : List Call → Type 0
AllEnd [] = Unit
AllEnd (stops answer ends ∷ cs) = (ends ≡ true) × AllEnd cs
AllEnd (c ∷ cs) = AllEnd cs

same-Holds :
    (d d' : Impl) (on : Bool)
    → Holds d on on on
    → d'.acts ≡ d.acts
    → d'.session ≡ d.session
    → d'.trace ≡ d.trace
    → d'.consumer ≡ d.consumer
    → Holds d' on on on
same-Holds d d' on h e p q r = record {
  session_is = p ∙ h.session_is;
  trace_is = q ∙ h.trace_is;
  consumer_is = r ∙ h.consumer_is;
  sessions = rw e h.sessions;
  traces = rw e h.traces;
  consumers = rw e h.consumers;
  order = rw e h.order;
}

request_rundown-Holds :
    (status : ℕ) (d : Impl) (on : Bool)
    → Holds d on on on
    → Holds (request_rundown status d).0 on on on
unfolding request_rundown
request_rundown-Holds status d on h =
    let asked =
      act_neutral (Act.capture_state Provider.direct3d12) d on on on refl refl refl refl h in
    if_both (λ (x : Impl × Bool). Holds x.0 on on on) (not d.session) h
      (if_both (λ (x : Impl × Bool). Holds x.0 on on on) (status == 0)
        (same-Holds _ _ on asked refl refl refl refl) (same-Holds _ _ on asked refl refl refl refl))

abbrev Continues : Option Impl → Type 0
Continues o = (d : Impl) × (on : Bool) × (o ≡ some d) × Holds d on on on

starts-Continues :
    (a : StartAnswers) (d : Impl) (on : Bool) → Holds d on on on → Continues (step (starts a) d)
starts-Continues a d on h =
    let (d', ok, error, e, (held, _)) = (start-IsAllOrNothing a d on h).0 in
    (d', ok, ap started e, held)

stops-Continues :
    (answer : Option (ℕ × ℕ)) (d : Impl) (on : Bool)
    → Holds d on on on
    → Continues (stop answer true d)
stops-Continues answer d on h =
    let (d', e, held) = stop_settles answer true d on on on h (λ _. refl) in (d', false, e, held)

follow :
    (o : Option Impl) (cs : List Call)
    → Continues o
    → ((d : Impl) (on : Bool) → Holds d on on on → Continues (drive cs d))
    → Continues (elim o [ none ↦ none | some d' ↦ drive cs d' ])
follow o cs (d, on, e, h) more = rw e (more d on h)

drive-Continues :
    (cs : List Call) (d : Impl) (on : Bool) → AllEnd cs → Holds d on on on → Continues (drive cs d)
unfolding drive on_record on_buffer
drive-Continues [] d on ends h = (d, on, refl, h)
drive-Continues (starts a ∷ cs) d on ends h =
    follow _ cs (starts-Continues a d on h) (λ d' on'. drive-Continues cs d' on' ends)
drive-Continues (stops answer b ∷ cs) d on (e, ends) h =
    follow (stop answer b d) cs (rw e (stops-Continues answer d on h))
      (λ d' on'. drive-Continues cs d' on' ends)
drive-Continues (rundown status ∷ cs) d on ends h =
    drive-Continues cs _ on ends (request_rundown-Holds status d on h)
drive-Continues (records throws ∷ cs) d on ends h = drive-Continues cs _ on ends (
    if_both (λ (x : Impl). Holds x on on on) throws (same-Holds d _ on h refl refl refl refl)
      (same-Holds d _ on h refl refl refl refl))
drive-Continues (buffers throws ∷ cs) d on ends h =
    drive-Continues cs _ on ends
      (if_both (λ (x : Impl). Holds x on on on) throws (same-Holds d _ on h refl refl refl refl) h)

-- Any calls on a new monitor return, whatever the system answers, if the consumer's thread ends wherever
-- Stop joins it, and so does the destructor's Stop then. Behind them session, trace and thread are all
-- there or none is, behind the destructor none; what is there is what has been begun and not ended, but
-- for sessions that ControlTrace refused to stop; and everything was in order: in particular the thread
-- was joined only behind the session's end, and the trace closed behind that.
pub drive-IsSettled :
    (cs : List Call) (answer : Option (ℕ × ℕ))
    → AllEnd cs
    → (d : Impl) × (on : Bool) × (drive cs new ≡ some d)
      × Holds d on on on
      × ((d' : Impl) × (stop answer true d ≡ some d') × Holds d' false false false)
unfolding replay
drive-IsSettled cs answer ends =
    let (d, on, e, h) = drive-Continues cs new false ends (record {
      session_is = refl;
      trace_is = refl;
      consumer_is = refl;
      sessions = refl;
      traces = refl;
      consumers = refl;
      order = refl;
    }) in
    (d, on, e, h, stop_settles answer true d on on on h (λ _. refl))
