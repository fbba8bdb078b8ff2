-- ===== src/Pipe/Server.antt =====
-- The life of the pipe: Create, ConnectAndStart and Stop of src/launcher/PipeServer.cpp, and Connect of
-- src/dll/PipeClient.cpp. The main thread and the reader's thread take turns:
-- `Step` has one constructor for each thing that one of them, or the DLL at the other end, does next.
-- A message is read whole.
pub mod Create
pub mod Stops
use dx12track.Prelude.{
  ℕ, suc, ◌+◌, ◌≡◌, Bool, true, false, not, ◌&&◌, ◌||◌, List, [], ◌∷◌, ◌++◌, Option, none, some,
  ltb, if◌then◌else◌,
}
use dx12track.Json.{codes, decimal}
use dx12track.Wide.{Wide}

-- What the system answers to Create: the process id, GetTickCount, CurrentUserSid (empty where it fails),
-- _wcsicmp, whether the text is converted to a descriptor, and whether CreateNamedPipeW succeeds
-- with the descriptor of a text, or with the default one.
pub record CreateAnswers : Type 0 where
  pub pid : ℕ
  pub ticks : ℕ
  pub me : Wide
  pub same_sid : Wide → Wide → Bool
  pub converts : Wide → Bool
  pub creates : Option Wide → Bool

abbrev pub is_nonempty : Wide → Bool
is_nonempty [] = false
is_nonempty (c ∷ s) = true

unfoldable pub pipe_name : CreateAnswers → Wide
unfolding codes
pipe_name w = codes "\\\\.\\pipe\\dx12track-" ++ (decimal w.pid ++ (codes "-" ++ decimal w.ticks))

unfoldable pub grant : Wide → Wide
unfolding codes
grant sid = codes "(A;;GA;;;" ++ (sid ++ codes ")")

unfoldable pub sddl : CreateAnswers → Wide → Wide
unfolding codes grant
sddl w extra =
    codes "D:P(A;;GA;;;SY)(A;;GA;;;BA)"
    ++ ((if is_nonempty w.me then grant w.me else [])
        ++ ((if is_nonempty extra && not (w.same_sid extra w.me) then grant extra else [])
            ++ codes "S:(ML;;NW;;;ME)"))

unfoldable pub descriptor : CreateAnswers → Wide → Option Wide
descriptor w extra =
    if is_nonempty w.me && w.converts (sddl w extra) then some (sddl w extra) else none

-- Create: the descriptor and the name of the pipe, or none where it returns false.
unfoldable pub create : CreateAnswers → Wide → Option (Option Wide × Wide)
create w extra =
    let sd = descriptor w extra in
    if w.creates sd then some (sd, pipe_name w) else elim sd [
      | none ↦ none
      | some text ↦ if w.creates none then some (none, pipe_name w) else none
    ]

-- What CreateFileW answers to Connect, with the time after a failure.
pub data Opened : Type 0 where
  opens busy : Opened
  refused : ℕ → Opened

-- PipeClient::Connect over the answers so far: none while it goes on trying.
unfoldable pub connect : ℕ → List Opened → Option Bool
connect deadline [] = none
connect deadline (Opened.opens ∷ answers) = some true
connect deadline (Opened.busy ∷ answers) = connect deadline answers
connect deadline (Opened.refused now ∷ answers) =
    if ltb deadline now then some false else connect deadline answers

-- The reader's thread: before the test of `stop_`, between it and ReadFile, in ReadFile, or at its end.
pub data Reader : Type 0 where
  unstarted testing calling waiting ended : Reader

-- The thread that calls Stop: before it, after `stop_ = true`, after CancelIoEx, and at its return.
pub data Stopper : Type 0 where
  serving cancelling joining returned : Stopper

-- `peer` says whether the DLL has its end open, `queued` how many messages are in the pipe.
pub record Server : Type 0 where
  pub reader : Reader
  pub stopper : Stopper
  pub stop : Bool
  pub peer : Bool
  pub queued : ℕ
  pub handled : ℕ

-- ConnectAndStart; `pending` says whether the error of ConnectNamedPipe is ERROR_PIPE_CONNECTED.
unfoldable pub connect_and_start : Bool → Bool → Server → Option Server
connect_and_start connected pending s =
    if not connected && not pending
    then none
    else some (record s { stop = false; reader = Reader.testing })

-- CancelIoEx ends a ReadFile that is under way, and nothing else.
unfoldable pub cancel_io : Reader → Reader
cancel_io Reader.waiting = Reader.ended
cancel_io Reader.unstarted = Reader.unstarted
cancel_io Reader.testing = Reader.testing
cancel_io Reader.calling = Reader.calling
cancel_io Reader.ended = Reader.ended

-- Has the thread ended, or was there none to join?
unfoldable pub reader_over : Reader → Bool
reader_over Reader.unstarted = true
reader_over Reader.ended = true
reader_over Reader.testing = false
reader_over Reader.calling = false
reader_over Reader.waiting = false

-- What happens next.
pub data Step : Server → Server → Type 0 where
  -- while (!stop_)
  tests_on :
      (s : Server)
      → s.reader ≡ Reader.testing
      → s.stop ≡ false
      → Step s (record s { reader = Reader.calling })
  tests_off :
      (s : Server)
      → s.reader ≡ Reader.testing
      → s.stop ≡ true
      → Step s (record s { reader = Reader.ended })
  -- ReadFile is called, and answers with a message, or fails at the end of the pipe.
  calls : (s : Server) → s.reader ≡ Reader.calling → Step s (record s { reader = Reader.waiting })
  reads :
      (s : Server) (n : ℕ)
      → s.reader ≡ Reader.waiting
      → s.queued ≡ suc n
      → Step s (record s { reader = Reader.testing; queued = n; handled = s.handled + 1 })
  -- A message with a wrong magic ends the loop.
  rejects :
      (s : Server) (n : ℕ)
      → s.reader ≡ Reader.waiting
      → s.queued ≡ suc n
      → Step s (record s { reader = Reader.ended; queued = n })
  sees_end :
      (s : Server)
      → s.reader ≡ Reader.waiting
      → s.queued ≡ 0
      → s.peer ≡ false
      → Step s (record s { reader = Reader.ended })
  -- Stop
  sets_stop :
      (s : Server)
      → s.stopper ≡ Stopper.serving
      → Step s (record s { stopper = Stopper.cancelling; stop = true })
  cancels :
      (s : Server)
      → s.stopper ≡ Stopper.cancelling
      → Step s (record s { stopper = Stopper.joining; reader = cancel_io s.reader })
  joins :
      (s : Server)
      → s.stopper ≡ Stopper.joining
      → reader_over s.reader ≡ true
      → Step s (record s { stopper = Stopper.returned })
  -- The DLL sends a message, or its end is closed, as when its process ends.
  sends : (s : Server) → s.peer ≡ true → Step s (record s { queued = s.queued + 1 })
  leaves : (s : Server) → s.peer ≡ true → Step s (record s { peer = false })

-- `n` steps.
pub data Run : ℕ → Server → Server → Type 0 where
  here : {s : Server} → Run 0 s s
  next : {n : ℕ} {s t u : Server} → Step s t → Run n t u → Run (suc n) s u
