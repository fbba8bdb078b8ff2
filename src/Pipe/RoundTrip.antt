-- ===== src/Pipe/RoundTrip.antt =====
-- What PipeClient::Send (src/dll/PipeClient.cpp) writes, ReaderLoop (src/launcher/PipeServer.cpp)
-- hands over.
use dx12track.Prelude.{
  ℕ, zero, suc, ◌≤◌, ◌<◌, ◌^◌, ◌≡◌, refl, sym, ap, ◌∙◌, true, false, List, [], ◌∷◌, ◌++◌, some,
  length, take, drop, arith, nonzero, take-prefix, drop-prefix, take-all, length-append, ==_refl,
  if_cases,
}
use mathlib.Core.List.{append_assoc, append-nil}
use dx12track.Pipe.{
  WireHeader, Client, header_bytes, le, sizeof_header, sent_header, send, write_file, read_exact,
  read_payload, reader_loop,
}
use dx12track.Pipe.Bytes.{Fits, read_header-header_bytes, concat, ArePieces, read_exact-Reads}

-- A call of Send.
pub record Message : Type 0 where
  pub ts_ns : ℕ
  pub kind : ℕ
  pub payload : List ℕ

-- Its arguments fit the fields of the header.
pub record CanSend (msg : Message) : Type 0 where
  pub payload : length msg.payload < 2 ^ 32
  pub ts_ns : msg.ts_ns < 2 ^ 64
  pub kind : msg.kind < 256

abbrev pub CanSendAll : List Message → Type 0
CanSendAll [] = Unit
CanSendAll (msg ∷ msgs) = CanSend msg × CanSendAll msgs

abbrev pub header_of : Message → WireHeader
header_of msg = sent_header msg.ts_ns msg.kind msg.payload

-- Calls of Send for which each WriteFile writes all it is given.
abbrev pub send_all : List Message → Client → Client
send_all [] c = c
send_all (msg ∷ msgs) c =
    send_all msgs
      (send (some sizeof_header) (some (length msg.payload)) msg.ts_ns msg.kind msg.payload c)

abbrev pub deliver_all {ℓ} : {S : Type ℓ} → (WireHeader → List ℕ → S → S) → List Message → S → S
deliver_all on_event [] s = s
deliver_all on_event (msg ∷ msgs) s =
    deliver_all on_event msgs (on_event (header_of msg) msg.payload s)

abbrev message_bytes : Message → List ℕ
message_bytes msg = header_bytes (header_of msg) ++ msg.payload

abbrev all_bytes : List Message → List ℕ
all_bytes [] = []
all_bytes (msg ∷ msgs) = message_bytes msg ++ all_bytes msgs

length-header_bytes : (h : WireHeader) → length (header_bytes h) ≡ sizeof_header
unfolding header_bytes le
length-header_bytes h = refl

header-Fits : (msg : Message) → CanSend msg → Fits (header_of msg)
header-Fits msg c = record {
  magic = omega arith;
  payload_bytes = omega arith;
  ts_ns = c.ts_ns;
  kind = c.kind;
}

-- A read of exactly the first part.
read_part :
    (xs ys : List ℕ) (n : ℕ) (ps : List (List ℕ))
    → n ≡ length xs
    → ArePieces ps
    → concat ps ≡ xs ++ ys
    → (rest : List (List ℕ)) × (read_exact n ps ≡ some (xs, rest))
      × (concat rest ≡ ys)
      × ArePieces rest
read_part xs ys n ps e a c =
    let (rest, e₁, e₂, e₃) = read_exact-Reads n ps a (rw c (omega (arith, length-append xs ys))) in
    (
      rest,
      e₁
          ∙ ap (λ x. some (x, rest))
              (ap (take n) c ∙ ap (λ k. take k (xs ++ ys)) e ∙ take-prefix xs ys),
      e₂ ∙ ap (drop n) c ∙ ap (λ k. drop k (xs ++ ys)) e ∙ drop-prefix xs ys,
      e₃,
    )

read_payload_part :
    (xs ys : List ℕ) (n : ℕ) (ps : List (List ℕ))
    → n ≡ length xs
    → ArePieces ps
    → concat ps ≡ xs ++ ys
    → (rest : List (List ℕ)) × (read_payload n ps ≡ some (xs, rest))
      × (concat rest ≡ ys)
      × ArePieces rest
unfolding read_payload
read_payload_part [] ys n ps e a c = (ps, ground arith, c, a)
read_payload_part (x ∷ xs) ys n ps e a c =
    let (rest, e₁, e₂, e₃) = read_part (x ∷ xs) ys n ps e a c in (rest, ground arith, e₂, e₃)

module _ {ℓ} {S : Type ℓ} (on_event : WireHeader → List ℕ → S → S) where
  turn-step :
      (msg : Message) (ps ps₁ ps₂ : List (List ℕ)) (turns : ℕ) (s : S)
      → CanSend msg
      → read_exact sizeof_header ps ≡ some (header_bytes (header_of msg), ps₁)
      → read_payload (header_of msg).payload_bytes ps₁ ≡ some (msg.payload, ps₂)
      → reader_loop on_event (suc turns) ps s
        ≡ reader_loop on_event turns ps₂ (on_event (header_of msg) msg.payload s)
  unfolding reader_loop
  turn-step msg ps ps₁ ps₂ turns s can e₁ e₂ =
      let same = read_header-header_bytes (header_of msg) (header-Fits msg can) in
      rw (e₁, reader_loop)
        (rw same (rw e₂ (ap (λ h. reader_loop on_event turns ps₂ (on_event h msg.payload s)) same)))

  one_turn :
      (msg : Message) (ys : List ℕ) (ps : List (List ℕ)) (turns : ℕ) (s : S)
      → CanSend msg
      → ArePieces ps
      → concat ps ≡ message_bytes msg ++ ys
      → (rest : List (List ℕ)) × (reader_loop on_event (suc turns) ps s
          ≡ reader_loop on_event turns rest (on_event (header_of msg) msg.payload s))
        × (concat rest ≡ ys)
        × ArePieces rest
  one_turn msg ys ps turns s can a c =
      let (ps₁, e₁, c₁, a₁) =
        read_part (header_bytes (header_of msg)) (msg.payload ++ ys) sizeof_header ps
          (sym (length-header_bytes (header_of msg))) a
          (c ∙ append_assoc (header_bytes (header_of msg)) msg.payload ys) in
      let (ps₂, e₂, c₂, a₂) =
        read_payload_part msg.payload ys (header_of msg).payload_bytes ps₁
          (ground (arith, can.payload)) a₁ c₁ in
      (ps₂, turn-step msg ps ps₁ ps₂ turns s can e₁ e₂, c₂, a₂)

  deliver :
      (msgs : List Message) (turns : ℕ) (ps : List (List ℕ)) (s : S)
      → CanSendAll msgs
      → length msgs ≤ turns
      → ArePieces ps
      → concat ps ≡ all_bytes msgs
      → reader_loop on_event turns ps s ≡ deliver_all on_event msgs s
  unfolding reader_loop read_exact
  deliver [] zero ps s can l a c = refl
  deliver [] (suc turns) [] s can l a c = refl
  deliver [] (suc turns) (p ∷ ps) s can l a c =
      absurd (omega (arith, a.0, length-append p (concat ps), ap length c))
  deliver (msg ∷ msgs) zero ps s can l a c = absurd (omega arith)
  deliver (msg ∷ msgs) (suc turns) ps s can l a c =
      let (rest, e, c', a') = one_turn msg (all_bytes msgs) ps turns s can.0 a c in
      e ∙ deliver msgs turns rest _ can.1 (omega arith) a' c'

no_units : (bs : List ℕ) → nonzero (length bs) ≡ false → bs ≡ []
no_units [] z = refl
no_units (b ∷ bs) z = absurd (ground arith)

write_file-all :
    (bs : List ℕ) (c : Client)
    → write_file (some (length bs)) bs c ≡ record c { written = c.written ++ bs }
unfolding write_file
write_file-all bs c = rw (==_refl (length bs), take-all bs) refl

abbrev opened : List ℕ → Client
opened written = record { is_open = true; written = written }

send-all-written :
    (msg : Message) (w : List ℕ)
    → send
        (some sizeof_header)
        (some (length msg.payload))
        msg.ts_ns
        msg.kind
        msg.payload
        (opened w)
      ≡ opened (w ++ message_bytes msg)
unfolding send
send-all-written msg w =
    let hdr = header_bytes (header_of msg) in
    let e : write_file (some sizeof_header) hdr (opened w) ≡ opened (w ++ hdr) =
      ap (λ n. write_file (some n) hdr (opened w)) (sym (length-header_bytes (header_of msg)))
      ∙ write_file-all hdr (opened w) in
    rw e (
      if_cases (λ x. x ≡ opened (w ++ message_bytes msg)) (nonzero (length msg.payload))
        (λ _.
          write_file-all msg.payload (opened (w ++ hdr))
          ∙ ap opened (append_assoc w hdr msg.payload))
        (λ z.
          ap (λ p. opened (w ++ p))
            (sym (append-nil hdr) ∙ ap (λ p. hdr ++ p) (sym (no_units msg.payload z)))))

send_all-written :
    (msgs : List Message) (w : List ℕ) → send_all msgs (opened w) ≡ opened (w ++ all_bytes msgs)
send_all-written [] w = ap opened (sym (append-nil w))
send_all-written (msg ∷ msgs) w =
    ap (send_all msgs) (send-all-written msg w)
    ∙ (send_all-written msgs _ ∙ ap opened (append_assoc w (message_bytes msg) (all_bytes msgs)))

-- Messages whose sizes fit the header, sent on an empty open pipe with every WriteFile complete and
-- read back in any non-empty pieces by a loop that is not stopped before it has made as many turns,
-- reach the handler one by one, in order, with the header and the payload that were sent.
pub reader_loop-send_all {ℓ} :
    {S : Type ℓ} (on_event : WireHeader → List ℕ → S → S) (msgs : List Message) (turns : ℕ)
    (ps : List (List ℕ)) (s : S)
    → CanSendAll msgs
    → length msgs ≤ turns
    → ArePieces ps
    → concat ps ≡ (send_all msgs (record { is_open = true; written = [] })).written
    → reader_loop on_event turns ps s ≡ deliver_all on_event msgs s
reader_loop-send_all on_event msgs turns ps s can l a c =
    deliver on_event msgs turns ps s can l a (c ∙ ap (λ x. x.written) (send_all-written msgs []))
