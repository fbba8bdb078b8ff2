-- ===== src/Lib.antt =====
-- dx12track: an injected DLL tracks the D3D12 objects of a process and reports them over a named pipe
-- to the launcher, which keeps the memory totals it shows. With --etw the launcher joins the objects
-- with those of an ETW session, to know in which memory each one lives.
--
-- How the parts interact, and where they are modelled:
--   src/dll/Tracker.cpp, Tracker.h       Tracker.antt: a hook calls `register`, `on_release_to_zero` or
--       `on_set_name` (Register, OnReleaseToZero, OnSetName); each emits the payload of an event.
--       Tracker/Ids.antt is about the ids of the events, Tracker/Patches.antt about the vtables.
--   src/dll/PipeClient.cpp, src/launcher/PipeServer.cpp   Pipe.antt: `send` (Send) writes a header and
--       a payload as bytes; `reader_loop` (ReaderLoop, with `read_exact` for ReadExact) reads them and
--       calls the handler. Pipe/Server.antt has Create, Connect, and Stop against the reader's thread as a step
--       relation. Pipe/Bytes, Pipe/RoundTrip, Pipe/Server/Create and Pipe/Server/Stops hold the proofs.
--   src/dll/JsonLog.cpp                  Log.antt: `append` (Append) writes the same event as a line of
--       JSON. Json.antt has the escaping and the numbers, and the builder J of src/launcher/Model.cpp;
--       Json/Strings.antt reads the strings back.
--   src/launcher/Model.h, Model.cpp      Model/*.antt: `Model/State` the records and the pure helpers,
--       `Model/Initial` the empty model, `Model/Join` and `Model/Attach` the join with ETW (EffLoc,
--       AddLoc, RecomputeLoc, Bind, TryBindEtw, ApplyGroup, EtwOnCreated, EtwOnDestroyed),
--       `Model/Ingest` OnEvent, `Model/Sink` the callbacks of the ETW thread, `Model/Session` the setup,
--       the clock, the poll of the child and FinishEtw, `Model/Tick` EtwTick and GetSnapshot.
--       `Model/Core`, `Model/Stays` and `Model/Frame` say which part of the state a helper leaves alone;
--       `Model/Totals`, `Model/Locations`, `Model/Pairs` (which ETW object belongs to which tracked
--       one), `Model/Split`, `Model/Exit`, `Model/Recent` and `Model/Clock` hold the proofs.
--   src/common/EventTypes.h              Events.antt: the enumerations, payloads and names.
--   src/etw/EtwMonitor.h                 Etw.antt: the plain types of the ETW monitor.
--   src/dll/ObjectHooks.cpp              ObjectHooks.antt: the hooks of Release, SetName and
--       SetPrivateData. src/dll/DeviceHooks.cpp: DeviceHooks.antt and DeviceHooks/Create, DeviceHooks/Calls
--       the hooks of the device's methods, with what each reports. src/dll/Hooks.cpp: Install.antt, the
--       patching of vtable slots; the other modules below these hold the proofs.
--   src/dll/DllMain.cpp, PublicApi.cpp, Modules.cpp   Dll.antt: attach, detach, the exported functions and
--       module tracking as the calls that they make; Dll/Pdb.antt the PDB record of a module.
--   src/etw/EtwMonitor.cpp               Monitor.antt: the counters and the callbacks of the ETW library;
--       Monitor/Session the session, the trace and the consumer (Start, Stop), Monitor/Stale the sessions
--       that earlier launchers left.
--   src/launcher/Main.cpp                Launcher/Args.antt the options, Launcher/Main.antt wmain as the
--       calls that it makes; Launcher/Inject.antt InjectDll of src/launcher/Injector.cpp.
--   src/launcher/Elevation.cpp           Launcher/Handoff.antt the mapping between the original launcher and
--       its elevated copy, Launcher/Environment.antt the target's environment block, Launcher/Relaunch.antt
--       the relaunch, Launcher/Wait.antt the wait for the copy. Wide.antt has the wide strings and wcstoul.
--   src/launcher/Renderer.cpp            Renderer.antt the memory table, Renderer/Screen.antt the cells.
--   Model/Turns.antt lets the calls of the launcher's threads follow each other in any order.
--   System.antt joins both sides: `receive` hands an event of the tracker to OnEvent. System/Shared.antt
--       puts the other threads' calls between the events, System/Screen.antt follows them to the console's
--       table (Renderer/Turns.antt); Tracker/Heaps.antt and System/Totals.antt show that the tracker's
--       events meet what the launcher's tables need.
--   Prelude.antt has the maps (std::unordered_map as an association list), lists and machine words that
--   the parts share; Tests.antt runs the definitions at concrete inputs.
--
-- Conventions. A method of the model runs under its mutex and is a function from state to state. A call of
-- the tracker is one step together with the event that it emits; the source emits it outside of the
-- tracker's mutex, so that hooks on several threads can also send their events in another order, which
-- is not modelled.
-- A reference to a map's entry is the entry's key. An uint64_t is a native number with `% 2 ^ 64`
-- written out where the source adds or subtracts; a std::wstring is its list of UTF-16 units, a text its
-- list of bytes. A payload is the buffer seen through each of the handler's casts, with its size beside
-- it; an enumerator read from the buffer is taken to be one of the enumeration. What the system
-- answers is an argument: clocks, the child's exit code, the size of a write, the pieces of a read, the
-- bytes of WideCharToMultiByte, the memory of a vtable. The arithmetic on double of OnEtwCounter is a
-- parameter too. The side file is the list of its lines, without the FILE's buffer.
--
-- Bounds. print_onto runs on fuel, 20 digits in decimal and 16 in hexadecimal, which a 64-bit number
-- does not exceed. reader_loop's count is the number of turns before the loop sees `stop_`. All else is
-- structural recursion on lists. The order in which std::unordered_map is walked is that of the list.
--
-- The launcher's render loop runs over a list of turns, which may end before the target does: then the
-- loop has no exit code yet. wmain also waits for the elevated instance, for LoadLibraryW under --debugger
-- and for the connection of the target; PipeServer::Stop and Monitor::Stop, which it calls behind the
-- target's end, are taken to return there.
--
-- Not modelled: the texts that are printed on the console and made of numbers by swprintf, and the order
-- of the sections on the screen; the tokens, privileges and console handles of src/launcher/Elevation.cpp;
-- the absolute paths and the exit time of src/launcher/Main.cpp; the headers of a module in memory and the
-- floating-point clock of the DLL; the ETW library, whose source is a submodule; MinHook and the Agility
-- SDK, which are third-party code.
pub mod Prelude
pub mod Events
pub mod Etw
pub mod Json
pub mod Wide
pub mod Model
pub mod Tracker
pub mod ObjectHooks
pub mod DeviceHooks
pub mod Install
pub mod Dll
pub mod Monitor
pub mod Launcher
pub mod Pipe
pub mod Renderer
pub mod Log
pub mod System
mod Tests
