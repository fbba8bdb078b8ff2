-- ===== src/Launcher/Handoff/Target.antt =====
-- The target's environment is the original launcher's (src/launcher/Elevation.cpp): from its environment,
-- over the handoff, to the block that the elevated launcher builds.
use dx12track.Wide.{Wide}
