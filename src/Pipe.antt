-- ===== src/Pipe.antt =====
-- The event pipe: PipeClient::Send of src/dll/PipeClient.cpp, and ReadExact and ReaderLoop of
-- src/launcher/PipeServer.cpp. A byte is a number below 256. What the system answers is an
-- argument: for a WriteFile how much it wrote, for the reader the pieces in which the pipe hands
-- over its bytes, and how many turns the loop makes before it sees `stop_`.
pub mod Bytes
pub mod RoundTrip
pub mod Server
use dx12track.Prelude.{
  ℕ, zero, suc, ◌+◌, ◌-◌, ◌*◌, ◌/◌, ◌%◌, ◌^◌, Bool, false, not, List, [], ◌∷◌, ◌++◌, Option, none,
  some, length, take, drop, replicate, ltb, nonzero, ◌==◌, if◌then◌else◌,
}
use dx12track.Events.{protocol_magic}

-- An EventHeader as it travels: the kind is any byte.
pub record WireHeader : Type 0 where
  pub magic : ℕ
  pub payload_bytes : ℕ
  pub ts_ns : ℕ
  pub kind : ℕ

-- The low bytes of a number, lowest first, and back.
unfoldable pub le : ℕ → ℕ → List ℕ
le zero n = []
le (suc w) n = n % 256 ∷ le w (n / 256)

unfoldable pub of_le : List ℕ → ℕ
of_le [] = 0
of_le (b ∷ bs) = b + 256 * of_le bs

abbrev pub sizeof_header : ℕ
sizeof_header = 24

-- The packed structure in memory.
unfoldable pub header_bytes : WireHeader → List ℕ
header_bytes h =
    le 4 h.magic ++ le 4 h.payload_bytes ++ le 8 h.ts_ns ++ le 1 h.kind ++ replicate 7 0

unfoldable pub read_header : List ℕ → WireHeader
read_header bs = record {
  magic = of_le (take 4 bs);
  payload_bytes = of_le (take 4 (drop 4 bs));
  ts_ns = of_le (take 8 (drop 8 bs));
  kind = of_le (take 1 (drop 16 bs));
}

-- `is_open` is `pipe_ != INVALID_HANDLE_VALUE`, `written` what has gone into the pipe.
pub record Client : Type 0 where
  pub is_open : Bool
  pub written : List ℕ

abbrev pub close : Client → Client
close c = record c { is_open = false }

-- Close
unfoldable pub close_client : Client → Client
close_client c = if c.is_open then close c else c

-- WriteFile: `none` where it fails. Whoever wrote less than the whole closes the pipe.
unfoldable pub write_file : Option ℕ → List ℕ → Client → Client
write_file answer bs c = elim answer [
  | none ↦ close c
  | some n ↦
      let c' = record c { written = c.written ++ take n bs } in
      if n == length bs then c' else close c'
]

abbrev pub sent_header : ℕ → ℕ → List ℕ → WireHeader
sent_header ts_ns kind payload = record {
  magic = protocol_magic;
  payload_bytes = length payload % 2 ^ 32;
  ts_ns = ts_ns;
  kind = kind;
}

unfoldable pub send : Option ℕ → Option ℕ → ℕ → ℕ → List ℕ → Client → Client
send header_answer payload_answer ts_ns kind payload c =
    let c' = write_file header_answer (header_bytes (sent_header ts_ns kind payload)) c in
    if not c.is_open
    then c
    else if not c'.is_open
    then c'
    else if nonzero (length payload)
    then write_file payload_answer payload c'
    else c'

-- ReadExact: a ReadFile takes what it wants from the piece at hand; it fails at the end of the pipe,
-- and an empty piece is a read of 0 bytes.
unfoldable pub read_exact : ℕ → List (List ℕ) → Option (List ℕ × List (List ℕ))
read_exact bytes [] = if bytes == 0 then some ([], []) else none
read_exact bytes (piece ∷ pieces) =
    let more = read_exact (bytes - length piece) pieces in
    if bytes == 0
    then some ([], piece ∷ pieces)
    else if length piece == 0
    then none
    else if ltb bytes (length piece)
    then some (take bytes piece, drop bytes piece ∷ pieces)
    else elim more [ none ↦ none | some (bs, rest) ↦ some (piece ++ bs, rest) ]

unfoldable pub read_payload : ℕ → List (List ℕ) → Option (List ℕ × List (List ℕ))
read_payload bytes pieces = if nonzero bytes then read_exact bytes pieces else some ([], pieces)

module _ {ℓ} {S : Type ℓ} (on_event : WireHeader → List ℕ → S → S) where
  unfoldable pub reader_loop : ℕ → List (List ℕ) → S → S
  reader_loop zero pieces s = s
  reader_loop (suc turns) pieces s = elim (read_exact sizeof_header pieces) [
    | none ↦ s
    | some (hdr, pieces₁) ↦
        if not ((read_header hdr).magic == protocol_magic)
        then s
        else elim (read_payload (read_header hdr).payload_bytes pieces₁) [
          | none ↦ s
          | some (payload, pieces₂) ↦
              reader_loop turns pieces₂ (on_event (read_header hdr) payload s)
        ]
  ]
