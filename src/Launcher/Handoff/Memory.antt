-- ===== src/Launcher/Handoff/Memory.antt =====
-- Writing texts into the mapping of src/launcher/Elevation.cpp, and reading them back.
use mathlib.Core.List.{append-nil}
use dx12track.Prelude.{
  sym, ℕ, zero, suc, ◌+◌, ◌*◌, ◌≤◌, ◌<◌, ◌≡◌, refl, ◌∙◌, ap, [], ◌∷◌, ◌++◌, ◌⊎◌, inl, length, arith,
  ==_refl,
}
use dx12track.Wide.{Wide}
use dx12track.Launcher.Handoff.{Memory, put_unit, copy_to, text_at}

-- Two stretches of units that do not meet.
abbrev pub Apart : ℕ → ℕ → ℕ → ℕ → Type 0
Apart at n to m = (at + 2 * n ≤ to) ⊎ (to + 2 * m ≤ at)

copy_to-outside :
    (to : ℕ) (s : Wide) (memory : Memory) (o : ℕ)
    → (o < to) ⊎ (to + 2 * length s ≤ o)
    → copy_to to s memory o ≡ memory o
unfolding copy_to
copy_to-outside to [] memory o h = refl
copy_to-outside to (c ∷ s) memory o h =
    copy_to-outside (to + 2) s (put_unit to c memory) o (omega arith) ∙ ground arith

-- A text that is written elsewhere is not read.
pub text_at-Apart :
    (at n to : ℕ) (s : Wide) (memory : Memory)
    → Apart at n to (length s)
    → text_at at n (copy_to to s memory) ≡ text_at at n memory
unfolding text_at
text_at-Apart at zero to s memory h = refl
text_at-Apart at (suc n) to s memory h =
    rw
      (
        copy_to-outside to s memory at (omega arith),
        text_at-Apart (at + 2) n to s memory (omega arith),
      )
      refl

-- What is written is read.
pub text_at-copy_to :
    (at : ℕ) (s t : Wide) (memory : Memory) → text_at at (length s) (copy_to at (s ++ t) memory) ≡ s
unfolding text_at copy_to
text_at-copy_to at [] t memory = refl
text_at-copy_to at (c ∷ s) t memory =
    rw
      (
        copy_to-outside (at + 2) (s ++ t) (put_unit at c memory) at (inl (omega arith)),
        text_at-copy_to (at + 2) s t (put_unit at c memory),
        ==_refl at,
      )
      refl

pub text_at-copy_to_all :
    (at : ℕ) (s : Wide) (memory : Memory) → text_at at (length s) (copy_to at s memory) ≡ s
text_at-copy_to_all at s memory =
    ap (λ t. text_at at (length s) (copy_to at t memory)) (sym (append-nil s))
    ∙ text_at-copy_to at s [] memory

pub text_at-add :
    (at n m : ℕ) (memory : Memory)
    → text_at at (n + m) memory ≡ text_at at n memory ++ text_at (at + 2 * n) m memory
unfolding text_at
text_at-add at zero m memory =
    ap (λ k. text_at at k memory) (omega arith) ∙ ap (λ k. text_at k m memory) (omega arith)
text_at-add at (suc n) m memory =
    let count : suc n + m ≡ suc (n + m) = omega arith in
    let next : at + 2 + 2 * n ≡ at + 2 * suc n = omega arith in
    rw (count, text_at) (rw (text_at-add (at + 2) n m memory, next) refl)
