-- ===== src/Tests/Monitor.antt =====
-- The ETW monitor at concrete inputs.
use dx12track.Prelude.{
  ℕ, Bool, ◌≡◌, ◌≤◌, refl, true, false, List, [], ◌∷◌, ◌++◌, some, none, arith, pos, find, put,
}
use dx12track.Wide.{Wide, ulong_max, wcstoul}
use dx12track.Etw.{CounterKind}
use dx12track.Monitor.{
  Notification, SinkCall, notify_all, notify, note_counter, counter_kind_from_name, named, points,
}
use dx12track.Monitor.Counters.{AllCounters, Announced, notify_all-Announced}
use dx12track.Monitor.Session.{Impl, StartAnswers, start, stop, new}
use dx12track.Monitor.Session.Accounts.{Holds, replay}
use dx12track.Monitor.Session.Life.{
  IsAllOrNothing, start-IsAllOrNothing, Call, starts, stops, rundown, records, drive,
  drive-IsSettled,
}
use dx12track.Monitor.Stale.{
  OpenAnswer, stop_stale_sessions, own_session_name, session_prefix, IsHandled, AllOurs,
  stop_stale_sessions-count,
}

-- The second provider stays slow.
abbrev slow : StartAnswers
slow = record {
  own = 7;
  open_process = λ pid. OpenAnswer.refused 87;
  listed = some (own_session_name 6 ∷ own_session_name 7 ∷ []);
  created = true;
  start_status = 0;
  dxgkrnl = record { first = 0; second = 0 };
  direct3d12 = record { first = 1460; second = 1460 };
  open_error = none;
  stopped = none;
  consumer_ends = true;
}

start-IsAllOrNothing_example :
    IsAllOrNothing (start slow new) × (false ≡ true → start slow new ≡ some (new, true, none))
unfolding replay
start-IsAllOrNothing_example = start-IsAllOrNothing slow new false (record {
  session_is = refl;
  trace_is = refl;
  consumer_is = refl;
  sessions = refl;
  traces = refl;
  consumers = refl;
  order = refl;
})

abbrev sessions : List Wide
sessions = own_session_name 6 ∷ own_session_name 7 ∷ (100 ∷ []) ∷ []

stop_stale_sessions-count_example :
    AllOurs (stop_stale_sessions 7 slow.open_process (some sessions))
    × ((tail : Wide)
        → IsHandled 7 slow.open_process sessions (session_prefix ++ tail) (wcstoul tail).0)
    × ((pid : ℕ)
        → pid ≤ ulong_max
        → IsHandled 7 slow.open_process sessions (own_session_name pid) pid)
stop_stale_sessions-count_example =
    stop_stale_sessions-count 7 slow.open_process sessions (omega arith)

-- Started, asked for a rundown, stopped, and started again to no avail.
abbrev life : List Call
life =
    starts (record slow { direct3d12 = record { first = 1460; second = 0 } })
    ∷ rundown 0
    ∷ records true
    ∷ stops (some (3, 4)) true
    ∷ starts slow
    ∷ []

drive-IsSettled_example :
    (d : Impl) × (on : Bool) × (drive life new ≡ some d)
    × Holds d on on on
    × ((d' : Impl) × (stop none true d ≡ some d') × Holds d' false false false)
drive-IsSettled_example = drive-IsSettled life none (refl, tt)

-- The counter 5 is of another process.
abbrev notifications : List Notification
notifications =
    Notification.counter_info 40 (some "Local Budget") 3
    ∷ Notification.counter_info 41 (some "Local Usage") 5
    ∷ Notification.counter_data ((pos 1, 3, 10) ∷ (pos 2, 5, 20) ∷ [])
    ∷ []

counter_passed :
    (notify_all 40 notifications []).1 ≡ SinkCall.counter (pos 1) 3 CounterKind.local_budget 10 ∷ []
unfolding notify_all notify note_counter counter_kind_from_name named points find put
counter_passed = refl

notify_all-Announced_example :
    AllCounters (λ id kind. Announced 40 id kind notifications) (notify_all 40 notifications []).1
notify_all-Announced_example = notify_all-Announced 40 notifications
