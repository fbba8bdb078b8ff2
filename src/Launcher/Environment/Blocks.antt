-- ===== src/Launcher/Environment/Blocks.antt =====
-- Splitting the block of some entries (src/launcher/Elevation.cpp) gives the entries.
use mathlib.Core.List.{append_assoc, append-nil}
use dx12track.Prelude.{
  ℕ, ◌≡◌, ◌≢◌, refl, sym, ◌∙◌, ap, false, List, [], ◌∷◌, ◌++◌, arith, ◌==◌, if_cases,
}
use dx12track.Wide.{Wide}
use dx12track.Launcher.Environment.{split_from, split_env_block, close_each, block_of}

abbrev pub IsText : Wide → Type 0
IsText [] = Unit
IsText (c ∷ s) = (c ≢ 0) × IsText s

-- At least one unit, and no NUL.
abbrev pub IsEntry : Wide → Type 0
IsEntry [] = ⊥
IsEntry (c ∷ s) = (c ≢ 0) × IsText s

abbrev pub AreEntries : List Wide → Type 0
AreEntries [] = Unit
AreEntries (e ∷ es) = IsEntry e × AreEntries es

split_from-text :
    (d : ℕ) (entry e s : Wide)
    → IsText e
    → split_from (d ∷ entry) (e ++ s) ≡ split_from (d ∷ (entry ++ e)) s
unfolding split_from
split_from-text d entry [] s h = ap (λ t. split_from (d ∷ t) s) (sym (append-nil entry))
split_from-text d entry (c ∷ e) s h =
    let other : (c == 0) ≡ false = ground arith in
    rw (other, split_from-text d (entry ++ c ∷ []) e s h.1, append_assoc) refl

split_from-entry : (e s : Wide) → IsEntry e → split_from [] (e ++ 0 ∷ s) ≡ e ∷ split_from [] s
unfolding split_from
split_from-entry [] s h = absurd h
split_from-entry (c ∷ e) s h =
    let other : (c == 0) ≡ false = ground arith in rw other (split_from-text c [] e (0 ∷ s) h.1)

split_from-close_each :
    (es : List Wide) (s : Wide) → AreEntries es → split_from [] (close_each es ++ 0 ∷ s) ≡ es
unfolding split_from close_each
split_from-close_each [] s h = refl
split_from-close_each (e ∷ es) s h =
    rw append_assoc (
      split_from-entry e (close_each es ++ 0 ∷ s) h.0 ∙ ap (◌∷◌ e) (split_from-close_each es s h.1))

-- The block may stand in front of anything.
pub split_env_block-block_of :
    (es : List Wide) (s : Wide) → AreEntries es → split_env_block (block_of es ++ s) ≡ es
unfolding split_env_block block_of split_from
split_env_block-block_of [] s h = refl
split_env_block-block_of (e ∷ es) s h = rw append_assoc (split_from-close_each (e ∷ es) s h)

IsText-snoc : (s : Wide) (c : ℕ) → IsText s → c ≢ 0 → IsText (s ++ c ∷ [])
IsText-snoc [] c h n = (n, tt)
IsText-snoc (d ∷ s) c h n = (h.0, IsText-snoc s c h.1 n)

split_from-AreEntries :
    (d : ℕ) (entry s : Wide)
    → d ≢ 0
    → IsText entry
    → AreEntries (split_from [] s) × AreEntries (split_from (d ∷ entry) s)
unfolding split_from
split_from-AreEntries d entry [] n h = (tt, tt)
split_from-AreEntries d entry (c ∷ s) n h = (
  if_cases AreEntries (c == 0) (λ t. tt) (λ t. (split_from-AreEntries c [] s (ground arith) tt).1),
  if_cases AreEntries (c == 0) (λ t. ((n, h), (split_from-AreEntries d [] s n tt).0))
      (λ t.
        (split_from-AreEntries d (entry ++ c ∷ []) s n (IsText-snoc entry c h (ground arith))).1),
)

pub split_env_block-AreEntries : (s : Wide) → AreEntries (split_env_block s)
unfolding split_env_block
split_env_block-AreEntries s = (split_from-AreEntries 1 [] s (omega arith) tt).0
