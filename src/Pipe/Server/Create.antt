-- ===== src/Pipe/Server/Create.antt =====
-- What PipeServer::Create of src/launcher/PipeServer.cpp and PipeClient::Connect of src/dll/PipeClient.cpp
-- answer.
use dx12track.Prelude.{
  ℕ, zero, suc, List, ◌++◌, replicate, ◌≡◌, refl, true, false, Option, none, some, arith, inl, inr,
  ◌&&◌, Bool-cases,
}
use dx12track.Wide.{Wide}
use dx12track.Pipe.Server.{
  CreateAnswers, Opened, connect, create, descriptor, pipe_name, sddl, is_nonempty,
}

-- A pipe has the name of this process and a descriptor with which the system made it, the default one or
-- the text that grants this user; no pipe means that the system refuses the default descriptor too.
abbrev pub IsServed : CreateAnswers → Wide → Option (Option Wide × Wide) → Type 0
IsServed w extra none = w.creates none ≡ false
IsServed w extra (some (none, name)) = (w.creates none ≡ true) × (name ≡ pipe_name w)
IsServed w extra (some (some text, name)) =
    (w.creates (some text) ≡ true)
    × (name ≡ pipe_name w)
    × (text ≡ sddl w extra)
    × (is_nonempty w.me ≡ true)
    × (w.converts text ≡ true)

-- Create makes a pipe with the descriptor that it wrote, if the system takes that, otherwise with the
-- default one, if the system takes that; and it fails only where the system takes neither.
pub create-IsServed : (w : CreateAnswers) (extra : Wide) → IsServed w extra (create w extra)
unfolding create descriptor
create-IsServed w extra = elim (Bool-cases (is_nonempty w.me && w.converts (sddl w extra))) [
  | inl some_sd ↦ elim (Bool-cases (w.creates (some (sddl w extra)))) [
    | inl made ↦ rw (some_sd, made) (made, refl, refl, ground arith, ground arith)
    | inr refused ↦ elim (Bool-cases (w.creates none)) [
      | inl made ↦ rw (some_sd, refused, made) (made, refl)
      | inr again ↦ rw (some_sd, refused, again) again
    ]
  ]
  | inr no_sd ↦ elim (Bool-cases (w.creates none)) [
    | inl made ↦ rw (no_sd, made) (made, refl)
    | inr refused ↦ rw (no_sd, refused) refused
  ]
]

-- CreateAnswers of ERROR_PIPE_BUSY never bring Connect to its deadline.
connect-busy :
    (deadline n : ℕ) (answers : List Opened)
    → connect deadline (replicate n Opened.busy ++ answers) ≡ connect deadline answers
unfolding connect
connect-busy deadline zero answers = refl
connect-busy deadline (suc n) answers = connect-busy deadline n answers
