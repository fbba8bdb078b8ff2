-- ===== src/Model.antt =====
-- The launcher's live model (src/launcher/Model.h): the state that Model.cpp's operations change.
-- The mutex serialises the operations, so each is a function from state to state. Maps are
-- association lists, arrays are functions of their index.
pub mod State
pub mod Initial
pub mod Core
pub mod Stays
pub mod Pairs
pub mod Frame
pub mod Join
pub mod Attach
pub mod Ingest
pub mod Session
pub mod Sink
pub mod Tick
pub mod Totals
pub mod Locations
pub mod Split
pub mod Clock
pub mod Recent
pub mod Exit
pub mod Turns
