-- ===== src/Launcher/Handoff.antt =====
-- What the original launcher leaves for the elevated one (ElevationRequest and ElevatedSession of
-- src/launcher/Elevation.cpp): a file mapping with a header and texts behind it. The mapping's memory is
-- the UTF-16 unit at each even byte offset; an uint32_t keeps its wrap-around, and a LONG is its bit
-- pattern. What the system answers is an argument.
pub mod Memory
pub mod RoundTrip
pub mod Target
pub mod Forwarding
use Prim.Native.Nat.{min}
use dx12track.Prelude.{
  ℕ, zero, suc, ◌+◌, ◌-◌, ◌*◌, ◌%◌, ◌^◌, Bool, true, false, not, ◌||◌, List, [], ◌∷◌, ◌++◌, Option,
  none, some, length, take, ltb, leb, nonzero, ◌==◌, if◌then◌else◌,
}
use dx12track.Json.{codes, decimal}
use dx12track.Wide.{Wide}
use dx12track.Launcher.Environment.{block_of}

pub record HandoffHeader : Type 0 where
  pub magic : ℕ
  pub version : ℕ
  pub total_bytes : ℕ
  pub cwd_off : ℕ
  pub cwd_chars : ℕ
  pub sid_off : ℕ
  pub sid_chars : ℕ
  pub env_off : ℕ
  pub env_chars : ℕ
  pub out_off : ℕ
  pub out_cap : ℕ
  pub console_state : ℕ
  pub out_chars : ℕ

abbrev pub handoff_magic : ℕ
handoff_magic = 0x48584432

abbrev pub handoff_version : ℕ
handoff_version = 1

abbrev pub forward_chars : ℕ
forward_chars = 65_536

abbrev pub sizeof_handoff_header : ℕ
sizeof_handoff_header = 52

abbrev pub console_pending : ℕ
console_pending = 0

abbrev pub console_attached : ℕ
console_attached = 1

abbrev pub console_own : ℕ
console_own = 2

abbrev pub Memory : Type 0
Memory = ℕ → ℕ

pub record Mapping : Type 0 where
  pub hdr : HandoffHeader
  pub memory : Memory

abbrev pub put_unit : ℕ → ℕ → Memory → Memory
put_unit at c memory o = if o == at then c else memory o

-- memcpy of a text to a byte offset.
unfoldable pub copy_to : ℕ → Wide → Memory → Memory
copy_to at [] memory = memory
copy_to at (c ∷ s) memory = copy_to (at + 2) s (put_unit at c memory)

-- std::wstring::assign from a byte offset.
unfoldable pub text_at : ℕ → ℕ → Memory → Wide
text_at at zero memory = []
text_at at (suc n) memory = memory at ∷ text_at (at + 2) n memory

-- The offset behind `chars` units.
unfoldable pub reserve : ℕ → ℕ → ℕ
reserve off chars = (off + chars * 2 % 2 ^ 32) % 2 ^ 32

-- The original's directory, user SID and environment; no environment where GetEnvironmentStrings fails.
pub record Original : Type 0 where
  pub cwd : Wide
  pub sid : Wide
  pub env : Option (List Wide)

abbrev pub env_units : Option (List Wide) → Wide
env_units none = block_of []
env_units (some entries) = block_of entries

unfoldable pub layout : Original → HandoffHeader
layout o =
    let cwd_off : ℕ = 56 in
    let sid_off : ℕ = reserve cwd_off (length o.cwd + 1) in
    let env_off : ℕ = reserve sid_off (length o.sid + 1) in
    let out_off : ℕ = reserve env_off (length (env_units o.env)) in
    let total : ℕ = reserve out_off forward_chars in
    record {
      magic = handoff_magic;
      version = handoff_version;
      total_bytes = total;
      cwd_off = cwd_off;
      cwd_chars = length o.cwd % 2 ^ 32;
      sid_off = sid_off;
      sid_chars = length o.sid % 2 ^ 32;
      env_off = env_off;
      env_chars = length (env_units o.env) % 2 ^ 32;
      out_off = out_off;
      out_cap = forward_chars;
      console_state = console_pending;
      out_chars = 0;
    }

-- The mapping that Launch fills, from the memory that the system gives.
unfoldable pub hand_over : Original → Memory → Mapping
hand_over o memory =
    let h = layout o in
    record {
      hdr = h;
      memory =
          copy_to h.env_off (env_units o.env)
            (copy_to h.sid_off (o.sid ++ 0 ∷ []) (copy_to h.cwd_off (o.cwd ++ 0 ∷ []) memory));
    }

-- ElevatedSession, as far as the mapping goes.
pub record Session : Type 0 where
  pub mapping : Option Mapping
  pub own_console : Bool
  pub original_sid : Wide
  pub original_env : Wide

abbrev pub no_session : Session
no_session = record { mapping = none; own_console = false; original_sid = []; original_env = [] }

abbrev fits : HandoffHeader → ℕ → ℕ → Bool
fits h off_bytes chars = leb (off_bytes + chars * 2) h.total_bytes

unfoldable pub is_sound : ℕ → HandoffHeader → Bool
is_sound region_size h = not (
    ltb region_size sizeof_handoff_header
    || not (h.magic == handoff_magic)
    || not (h.version == handoff_version)
    || ltb region_size h.total_bytes
    || not (fits h h.cwd_off h.cwd_chars)
    || not (fits h h.sid_off h.sid_chars)
    || not (fits h h.env_off h.env_chars)
    || not (fits h h.out_off h.out_cap))

-- OpenHandoff, with the mapping that the system opens and the size of its region.
unfoldable pub open_handoff : Option (ℕ × Mapping) → Session → Session
open_handoff none s = s
open_handoff (some (region_size, m)) s =
    if is_sound region_size m.hdr
    then record s {
      mapping = some m;
      original_sid = text_at m.hdr.sid_off m.hdr.sid_chars m.memory;
      original_env = text_at m.hdr.env_off m.hdr.env_chars m.memory ++ 0 ∷ 0 ∷ [];
    }
    else s

-- The directory that Begin changes to.
unfoldable pub original_cwd : Session → Option Wide
original_cwd s = elim s.mapping [
  | none ↦ none
  | some m ↦
      if nonzero m.hdr.cwd_chars
      then some (text_at m.hdr.cwd_off m.hdr.cwd_chars m.memory)
      else none
]

-- Begin opens the handoff unless the original is this process. SwitchConsole then tells the original
-- whether AttachConsole failed.
unfoldable pub switch_console : Bool → Session → Session
switch_console attached s = record s {
  own_console = not attached;
  mapping = elim s.mapping [
    | none ↦ none
    | some m ↦ some (record m {
      hdr = record m.hdr { console_state = if attached then console_attached else console_own };
    })
  ];
}

unfoldable pub append_out : Wide → Mapping → Mapping
append_out text m =
    let used = m.hdr.out_chars in
    let n = min (length text) (m.hdr.out_cap - used) in
    if leb (2 ^ 31) used || leb m.hdr.out_cap used then m else record {
      hdr = record m.hdr { out_chars = (used + n) % 2 ^ 32 };
      memory = copy_to (m.hdr.out_off + 2 * used) (take n text) m.memory;
    }

unfoldable pub forward : Wide → Session → Session
unfolding append_out
forward [] s = s
forward (c ∷ text) s = if not s.own_console then s else record s {
  mapping = elim s.mapping [ none ↦ none | some m ↦ some (append_out (c ∷ text) m) ];
}

unfoldable pub forward_all : List Wide → Session → Session
forward_all [] s = s
forward_all (t ∷ ts) s = forward_all ts (forward t s)

-- The text that Wait prints behind its loop: none where the elevated instance was attached, or where
-- either number is negative as a LONG, since the smaller one is then, too.
unfoldable pub forwarded : Mapping → Wide
forwarded m =
    if m.hdr.console_state == console_attached
    then []
    else if leb (2 ^ 31) m.hdr.out_chars || leb (2 ^ 31) m.hdr.out_cap
    then []
    else text_at m.hdr.out_off (min m.hdr.out_chars m.hdr.out_cap) m.memory
