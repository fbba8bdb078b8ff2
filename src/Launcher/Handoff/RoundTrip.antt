-- ===== src/Launcher/Handoff/RoundTrip.antt =====
-- What the original launcher hands over reaches the elevated one (src/launcher/Elevation.cpp).
use dx12track.Prelude.{
  ℕ, ◌+◌, ◌*◌, ◌^◌, ◌≤◌, ◌<◌, ◌≡◌, refl, ◌∙◌, ap, nonzero, true, [], ◌∷◌, ◌++◌, inl, length, none,
  some, arith, if◌then◌else◌, if_taken,
}
use dx12track.Launcher.Handoff.{
  Original, Memory, layout, reserve, hand_over, env_units, forward_chars, no_session, handoff_magic,
  handoff_version, open_handoff, original_cwd, Session, is_sound, text_at,
}
use dx12track.Launcher.Handoff.Memory.{text_at-Apart, text_at-copy_to, text_at-copy_to_all}

-- The texts fit a mapping of less than 4 GB.
abbrev pub IsSmall : Original → Type 0
IsSmall o =
    56 + 2 * (length o.cwd + 1 + (length o.sid + 1) + length (env_units o.env) + forward_chars)
    < 2 ^ 32

pub record IsLaidOut (o : Original) : Type 0 where
  pub magic : (layout o).magic ≡ handoff_magic
  pub version : (layout o).version ≡ handoff_version
  pub out_cap : (layout o).out_cap ≡ forward_chars
  pub cwd_off : (layout o).cwd_off ≡ 56
  pub cwd_chars : (layout o).cwd_chars ≡ length o.cwd
  pub sid_off : (layout o).sid_off ≡ 56 + 2 * (length o.cwd + 1)
  pub sid_chars : (layout o).sid_chars ≡ length o.sid
  pub env_off : (layout o).env_off ≡ 56 + 2 * (length o.cwd + 1) + 2 * (length o.sid + 1)
  pub env_chars : (layout o).env_chars ≡ length (env_units o.env)
  pub out_off : (layout o).out_off ≡ (layout o).env_off + 2 * length (env_units o.env)
  pub total : (layout o).total_bytes ≡ (layout o).out_off + 2 * forward_chars

reserve_exact : (off chars : ℕ) → off + 2 * chars < 2 ^ 32 → reserve off chars ≡ off + 2 * chars
unfolding reserve
reserve_exact off chars h = omega arith

pub layout-IsLaidOut : (o : Original) → IsSmall o → IsLaidOut o
unfolding layout
layout-IsLaidOut o h =
    let l = layout o in
    let sid : l.sid_off ≡ 56 + 2 * (length o.cwd + 1) =
      reserve_exact 56 (length o.cwd + 1) (omega arith) in
    let env : l.env_off ≡ l.sid_off + 2 * (length o.sid + 1) =
      reserve_exact l.sid_off (length o.sid + 1) (omega arith) in
    let out : l.out_off ≡ l.env_off + 2 * length (env_units o.env) =
      reserve_exact l.env_off (length (env_units o.env)) (omega arith) in
    record {
      magic = refl;
      version = refl;
      out_cap = refl;
      cwd_off = refl;
      cwd_chars = omega arith;
      sid_off = sid;
      sid_chars = omega arith;
      env_off = omega (arith, sid, env);
      env_chars = omega arith;
      out_off = out;
      total = reserve_exact l.out_off forward_chars (omega arith);
    }

-- The elevated launcher finds what the original had.
pub record Receives (o : Original) (s : Session) : Type 0 where
  pub sid : s.original_sid ≡ o.sid
  pub env : s.original_env ≡ env_units o.env ++ 0 ∷ 0 ∷ []
  pub cwd : original_cwd s ≡ (if nonzero (length o.cwd) then some o.cwd else none)

module _ (o : Original) (memory : Memory) (small : IsSmall o) where
  sid_read : text_at (layout o).sid_off (layout o).sid_chars (hand_over o memory).memory ≡ o.sid
  unfolding hand_over
  sid_read =
      let l = layout-IsLaidOut o small in
      rw l.sid_chars (
        text_at-Apart (layout o).sid_off (length o.sid) (layout o).env_off (env_units o.env) _
          (inl (omega (arith, l.sid_off, l.env_off)))
        ∙ text_at-copy_to (layout o).sid_off o.sid (0 ∷ []) _)

  env_read :
      text_at (layout o).env_off (layout o).env_chars (hand_over o memory).memory ≡ env_units o.env
  unfolding hand_over
  env_read =
      let l = layout-IsLaidOut o small in
      rw l.env_chars (text_at-copy_to_all (layout o).env_off (env_units o.env) _)

  cwd_read : text_at (layout o).cwd_off (layout o).cwd_chars (hand_over o memory).memory ≡ o.cwd
  unfolding hand_over
  cwd_read =
      let l = layout-IsLaidOut o small in
      rw l.cwd_chars (
        text_at-Apart (layout o).cwd_off (length o.cwd) (layout o).env_off (env_units o.env) _
          (inl (omega (arith, l.cwd_off, l.env_off)))
        ∙ (text_at-Apart (layout o).cwd_off (length o.cwd) (layout o).sid_off (o.sid ++ 0 ∷ []) _
              (inl (omega (arith, l.cwd_off, l.sid_off)))
            ∙ text_at-copy_to (layout o).cwd_off o.cwd (0 ∷ []) memory))

  layout-is_sound :
      (region : ℕ) → (layout o).total_bytes ≤ region → is_sound region (layout o) ≡ true
  unfolding is_sound
  layout-is_sound region h =
      let l = layout-IsLaidOut o small in
      ground (
        arith, l.cwd_off, l.cwd_chars, l.sid_off, l.sid_chars, l.env_off, l.env_chars, l.out_off,
        l.total, l.magic, l.version, l.out_cap,
      )

-- Of texts that fit a mapping of less than 4 GB, whatever its memory held before, the elevated launcher
-- finds the original's SID, its environment's block with two more NULs, and its directory, if that is
-- not empty; the region that the system tells is as large as the mapping.
pub open_handoff-hand_over :
    (o : Original) (memory : Memory) (region : ℕ)
    → IsSmall o
    → (layout o).total_bytes ≤ region
    → Receives o (open_handoff (some (region, hand_over o memory)) no_session)
unfolding open_handoff original_cwd hand_over
open_handoff-hand_over o memory region small h =
    let l = layout-IsLaidOut o small in
    if_taken (Receives o) (is_sound region (layout o)) no_session
      (layout-is_sound o memory small region h)
      (record {
        sid = sid_read o memory small;
        env = ap (λ t. t ++ 0 ∷ 0 ∷ []) (env_read o memory small);
        cwd = rw (cwd_read o memory small, l.cwd_chars) refl;
      })
