-- ===== src/Monitor/Session.antt =====
-- The ETW session's life (Monitor::Start, Stop, RequestRundown and GetStats of src/etw/EtwMonitor.cpp).
-- What the system answers to each call is an argument, and `acts` is what it was asked to do. The
-- library's event handler is a part that Create gives or fails to give.
pub mod Accounts
pub mod Life
use dx12track.Prelude.{
  ℕ, Bool, true, false, not, List, [], ◌∷◌, ◌++◌, Option, none, some, add64, ◌==◌, if◌then◌else◌,
}
use dx12track.Json.{codes, decimal}
use dx12track.Wide.{Wide}
use dx12track.Etw.{Stats}
use dx12track.Monitor.Stale.{OpenAnswer, own_session_name, stop_stale_sessions}

pub data Provider : Type 0 where
  dxgkrnl direct3d12 : Provider

-- StartTrace (that succeeds), EnableTraceEx2 with its two control codes, OpenTrace (that succeeds), the
-- start of the consumer's thread, and the ends of trace and thread; ControlTrace that stops the session,
-- or is refused, so that the session goes on in the system; ControlTrace on a session that has a name.
pub data Act : Type 0 where
  start_trace open_trace close_trace start_consumer join_consumer : Act
  stop_trace : Bool → Act
  enable capture_state : Provider → Act
  stop_named : Wide → Act

-- `session` is d.session != 0, `trace` d.trace != INVALID_PROCESSTRACE_HANDLE, `consumer` joinable().
pub record Impl : Type 0 where
  pub session : Bool
  pub trace : Bool
  pub consumer : Bool
  pub events : ℕ
  pub exceptions : ℕ
  pub rundowns : ℕ
  pub rundown_failures : ℕ
  pub final_events_lost : ℕ
  pub final_buffers_lost : ℕ
  pub acts : List Act

-- The answers of EnableTraceEx2 to the first attempt and to the second.
pub record EnableAnswer : Type 0 where
  pub first : ℕ
  pub second : ℕ

-- `created`: Create does not throw; `stopped`: the statistics, where ControlTrace succeeds; `own`,
-- `open_process` and `listed`: what StopStaleSessions is told.
pub record StartAnswers : Type 0 where
  pub own : ℕ
  pub open_process : ℕ → OpenAnswer
  pub listed : Option (List Wide)
  pub created : Bool
  pub start_status : ℕ
  pub dxgkrnl : EnableAnswer
  pub direct3d12 : EnableAnswer
  pub open_error : Option ℕ
  pub stopped : Option (ℕ × ℕ)
  pub consumer_ends : Bool

abbrev pub error_access_denied : ℕ
error_access_denied = 5

abbrev pub error_timeout : ℕ
error_timeout = 1460

abbrev pub error_no_system_resources : ℕ
error_no_system_resources = 1450

unfoldable pub provider_name : Provider → Wide
provider_name Provider.dxgkrnl = codes "DxgKrnl"
provider_name Provider.direct3d12 = codes "Direct3D12"

unfoldable pub enable_error : Provider → ℕ → Wide
enable_error provider status =
    if status == error_timeout
    then codes "EnableTraceEx2("
      ++ (provider_name provider
          ++ codes
              ") timed out (error 1460): a process using that provider did not answer in time. Retry, or close other D3D12 apps (browsers, streaming/overlay tools) and retry.")
    else if status == error_access_denied
    then codes "EnableTraceEx2("
      ++ (provider_name provider
          ++ codes
              "): access denied (error 5). Run as administrator or add your account to the 'Performance Log Users' group (then sign out and in).")
    else codes "EnableTraceEx2("
      ++ (provider_name provider ++ (codes ") failed: error " ++ decimal status))

unfoldable pub start_error : ℕ → Wide
start_error status =
    if status == error_access_denied
    then codes
        "StartTrace: access denied (error 5). Run as administrator, or add your account to the 'Performance Log Users' group (then sign out and in)."
    else if status == error_no_system_resources
    then codes
        "StartTrace failed: too many ETW sessions (error 1450). Stop unused ones (logman query -ets)."
    else codes "StartTrace failed: error " ++ decimal status

abbrev pub act : Act → Impl → Impl
act a d = record d { acts = d.acts ++ a ∷ [] }

-- EnableProvider: one more attempt on a time-out, and a rundown where an attempt succeeds.
unfoldable pub enable_provider : Provider → EnableAnswer → Impl → Impl × ℕ
enable_provider provider a d =
    let d₁ = act (Act.enable provider) d in
    let d₂ = if a.first == error_timeout then act (Act.enable provider) d₁ else d₁ in
    let status = if a.first == error_timeout then a.second else a.first in
    if status == 0 then (act (Act.capture_state provider) d₂, 0) else (d₂, status)

unfoldable pub close_session : Option (ℕ × ℕ) → Impl → Impl
close_session answer d = elim answer [
  | none ↦ record (act (Act.stop_trace false) d) { session = false }
  | some (events_lost, buffers_lost) ↦ record (act (Act.stop_trace true) d) {
    session = false;
    final_events_lost = events_lost;
    final_buffers_lost = buffers_lost;
  }
]

-- The three parts of Stop.
unfoldable pub end_session : Option (ℕ × ℕ) → Impl → Impl
unfolding close_session
end_session answer d = if d.session then close_session answer d else d

-- The join of the consumer's thread waits for ProcessTrace, which returns once the session stops.
unfoldable pub end_consumer : Bool → Impl → Option Impl
end_consumer ends d =
    if not d.consumer
    then some d
    else if ends
    then some (record (act Act.join_consumer d) { consumer = false })
    else none

unfoldable pub end_trace : Impl → Impl
end_trace d = if d.trace then record (act Act.close_trace d) { trace = false } else d

-- The monitor behind Stop, or none where Stop does not return; `ends`: whether the consumer's thread ends.
unfoldable pub stop : Option (ℕ × ℕ) → Bool → Impl → Option Impl
stop answer ends d = elim (end_consumer ends (end_session answer d)) [
  | none ↦ none
  | some d' ↦ some (end_trace d')
]

-- What Start leaves, where it returns.
abbrev pub Started : Type 0
Started = Option (Impl × Bool × Option Wide)

-- The end of Start behind a failure, whose text is `error`.
unfoldable pub give_up : StartAnswers → Wide → Impl → Started
give_up a error d = elim (stop a.stopped a.consumer_ends d) [
  | none ↦ none
  | some d' ↦ some (d', false, some error)
]

-- The part behind both providers: the trace and the thread that consumes it.
unfoldable pub open_and_consume : StartAnswers → Impl → Started
open_and_consume a d = elim a.open_error [
  | some e ↦ give_up a (codes "OpenTrace failed: error " ++ decimal e) d
  | none ↦ some (
    record (act Act.start_consumer (act Act.open_trace d)) { trace = true; consumer = true },
    true,
    none,
  )
]

unfoldable pub enable_both : StartAnswers → Impl → Started
enable_both a d =
    let (d₁, status₁) = enable_provider Provider.dxgkrnl a.dxgkrnl d in
    let (d₂, status₂) = enable_provider Provider.direct3d12 a.direct3d12 d₁ in
    if not (status₁ == 0)
    then give_up a (enable_error Provider.dxgkrnl status₁) d₁
    else if not (status₂ == 0)
    then give_up a (enable_error Provider.direct3d12 status₂) d₂
    else open_and_consume a d₂

unfoldable pub stop_names : List Wide → Impl → Impl
stop_names [] d = d
stop_names (name ∷ names) d = stop_names names (act (Act.stop_named name) d)

-- The sessions of dead instances, and one of this name from an earlier process.
unfoldable pub clear_names : StartAnswers → Impl → Impl
clear_names a d =
    stop_names (stop_stale_sessions a.own a.open_process a.listed ++ own_session_name a.own ∷ []) d

unfoldable pub start : StartAnswers → Impl → Started
start a d =
    let d₁ = clear_names a d in
    if d.session
    then some (d, true, none)
    else if not a.created
    then some (d, false, some (codes "DxTimingCaptureEventHandler::Create threw"))
    else if not (a.start_status == 0)
    then some (record d₁ { session = false }, false, some (start_error a.start_status))
    else enable_both a (record (act Act.start_trace d₁) { session = true })

unfoldable pub request_rundown : ℕ → Impl → Impl × Bool
request_rundown status d =
    let d₁ = act (Act.capture_state Provider.direct3d12) d in
    if not d.session
    then (d, false)
    else if status == 0
    then (record d₁ { rundowns = add64 d₁.rundowns 1 }, true)
    else (record d₁ { rundown_failures = add64 d₁.rundown_failures 1 }, false)

-- OnEvent on the consumer's thread: whether the handler throws.
unfoldable pub on_record : Bool → Impl → Impl
on_record throws d =
    let d₁ = record d { events = add64 d.events 1 } in
    if throws then record d₁ { exceptions = add64 d₁.exceptions 1 } else d₁

-- OnBuffer, and the end of the consumer's thread.
unfoldable pub on_buffer : Bool → Impl → Impl
on_buffer throws d = if throws then record d { exceptions = add64 d.exceptions 1 } else d

unfoldable pub get_stats : Option (ℕ × ℕ) → Impl → Stats
get_stats answer d =
    let s : Stats = record {
      events = d.events;
      events_lost = d.final_events_lost;
      buffers_lost = d.final_buffers_lost;
      exceptions = d.exceptions;
      rundowns = d.rundowns;
      rundown_failures = d.rundown_failures;
    } in
    if d.session
    then elim answer [
      | none ↦ s
      | some (events_lost, buffers_lost) ↦ record s {
        events_lost = events_lost;
        buffers_lost = buffers_lost;
      }
    ]
    else s

abbrev pub new : Impl
new = record {
  session = false;
  trace = false;
  consumer = false;
  events = 0;
  exceptions = 0;
  rundowns = 0;
  rundown_failures = 0;
  final_events_lost = 0;
  final_buffers_lost = 0;
  acts = [];
}
