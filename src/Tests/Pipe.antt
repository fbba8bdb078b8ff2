-- ===== src/Tests/Pipe.antt =====
-- The life of the pipe at concrete inputs (src/launcher/PipeServer.cpp).
use dx12track.Prelude.{◌≤◌, ◌≡◌, refl, true, false, ◌⊎◌}
use dx12track.Pipe.Server.{
  Reader, Stopper, Server, connect_and_start, reader_over, cancel_io, Step, Run,
}
use dx12track.Pipe.Server.Stops.{stop-Returns, cancel_io-misses}

abbrev fresh_server : Server
fresh_server = record {
  reader = Reader.unstarted;
  stopper = Stopper.serving;
  stop = false;
  peer = true;
  queued = 0;
  handled = 0;
}

abbrev started : Server
started = record fresh_server { reader = Reader.testing }

abbrev reading : Server
reading = record started { reader = Reader.calling }

-- The reader is about to call ReadFile, the target ends, and the main thread calls Stop.
abbrev leaving : Server
leaving = record reading { peer = false }

abbrev stopping : Server
stopping = record leaving { stopper = Stopper.cancelling; stop = true }

before_stop : Run 3 started stopping
before_stop =
    Run.next (Step.tests_on started refl refl)
      (Run.next (Step.leaves reading refl) (Run.next (Step.sets_stop leaving refl) Run.here))

-- The cancellation comes too early, but the pipe is at its end.
abbrev joined : Server
joined = record stopping { stopper = Stopper.joining }

abbrev done_reading : Server
done_reading = record joined { reader = Reader.ended }

after_stop : Run 3 stopping done_reading
unfolding cancel_io
after_stop = Run.next (Step.cancels stopping refl) (
    Run.next (Step.calls joined refl) (
      Run.next (Step.sees_end (record joined { reader = Reader.waiting }) refl refl refl) Run.here))

stop-Returns_example :
    (3 ≤ 6)
    × (((Stopper.joining ≡ Stopper.returned) × (reader_over Reader.ended ≡ true))
        ⊎ ((v : Server) × Step done_reading v))
unfolding connect_and_start
stop-Returns_example =
    stop-Returns true false fresh_server started refl refl before_stop refl refl after_stop

-- As long as the target lives, the reader stays in ReadFile.
cancel_io-misses_example :
    (t : Server) × Run 2 (record reading { stopper = Stopper.cancelling; stop = true }) t
    × (t.reader ≡ Reader.waiting)
    × (t.stopper ≡ Stopper.joining)
    × ((u : Server) → Step t u → (u.queued ≡ 1) ⊎ (u.peer ≡ false))
cancel_io-misses_example =
    cancel_io-misses (record reading { stopper = Stopper.cancelling; stop = true }) refl refl refl
