-- ===== src/Launcher.antt =====
-- The launcher's process (src/launcher/Main.cpp, Elevation.cpp, Injector.cpp and Renderer.cpp).
pub mod Environment
pub mod Args
pub mod Handoff
pub mod Inject
pub mod Main
pub mod Relaunch
pub mod Wait
