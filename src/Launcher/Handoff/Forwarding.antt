-- ===== src/Launcher/Handoff/Forwarding.antt =====
-- The text that the elevated launcher forwards to the original one (Forward and Wait of
-- src/launcher/Elevation.cpp).
use Prim.Native.Nat.{min}
use dx12track.Prelude.{
  ℕ, zero, suc, ◌+◌, ◌-◌, ◌*◌, ◌%◌, ◌^◌, ◌≤◌, ◌<◌, ◌≡◌, refl, sym, ◌∙◌, ap, true, false, ◌||◌, List,
  [], ◌∷◌, ◌++◌, inl, length, length-append, take, take-append_le, take-append_ge, take-short, none,
  some, arith, leb, if_cases,
}
use mathlib.Core.List.{append-nil, append_assoc}
use dx12track.Wide.{Wide}
use dx12track.Launcher.Handoff.{
  Memory, Mapping, Session, append_out, forward, forward_all, forwarded, text_at, copy_to,
  console_own, switch_console,
}
use dx12track.Launcher.Handoff.Memory.{text_at-Apart, text_at-copy_to_all, text_at-add}

-- The mapping holds the first `cap` units of a log.
pub record IsLog (cap : ℕ) (m : Mapping) (log : Wide) : Type 0 where
  pub cap_is : m.hdr.out_cap ≡ cap
  pub state : m.hdr.console_state ≡ console_own
  pub used : m.hdr.out_chars ≡ min (length log) cap
  pub text : text_at m.hdr.out_off m.hdr.out_chars m.memory ≡ take cap log

length-take {ℓ} : {A : Type ℓ} (n : ℕ) (xs : List A) → length (take n xs) ≡ min n (length xs)
length-take zero xs = omega arith
length-take (suc n) [] = omega arith
length-take (suc n) (x ∷ xs) = omega (arith, length-take n xs)

take-min {ℓ} : {A : Type ℓ} (n : ℕ) (xs : List A) → take (min (length xs) n) xs ≡ take n xs
take-min zero xs = let e : min (length xs) 0 ≡ 0 = omega arith in rw e refl
take-min {A} (suc n) [] = let e : min (length {A = A} []) (suc n) ≡ 0 = omega arith in rw e refl
take-min (suc n) (x ∷ xs) =
    let e : min (length (x ∷ xs)) (suc n) ≡ suc (min (length xs) n) = omega arith in
    rw e (ap (◌∷◌ x) (take-min n xs))

-- A log's text, and what is written behind it.
appended_text :
    (off u n cap : ℕ) (memory : Memory) (log t : Wide)
    → u ≡ length log
    → length log ≤ cap
    → n ≡ min (length t) (cap - u)
    → text_at off u memory ≡ take cap log
    → text_at off (u + n) (copy_to (off + 2 * u) (take n t) memory) ≡ take cap (log ++ t)
appended_text off u n cap memory log t at le count h =
    let after = copy_to (off + 2 * u) (take n t) memory in
    let taken : length (take n t) ≡ n = omega (arith, length-take n t) in
    let old : text_at off u after ≡ log =
      text_at-Apart off u (off + 2 * u) (take n t) memory (inl (omega arith))
      ∙ (h ∙ take-short cap log le) in
    let rest : take n t ≡ take (cap - length log) t =
      ap (λ k. take k t) count ∙ (take-min (cap - u) t ∙ ap (λ k. take (cap - k) t) at) in
    let new : text_at (off + 2 * u) n after ≡ take (cap - length log) t =
      ap (λ k. text_at (off + 2 * u) k after) (sym taken)
      ∙ (text_at-copy_to_all (off + 2 * u) (take n t) memory ∙ rest) in
    text_at-add off u n after ∙ (rw (old, new) refl ∙ sym (take-append_ge cap log t le))

module _ (cap : ℕ) (small : cap < 2 ^ 31) (m : Mapping) (log t : Wide) (h : IsLog cap m log) where
  -- The buffer is full.
  full : cap ≤ length log → IsLog cap m (log ++ t)
  full le = record {
    cap_is = h.cap_is;
    state = h.state;
    used = omega (arith, h.used, length-append log t);
    text = h.text ∙ sym (take-append_le cap log t le);
  }

  appended : Mapping
  appended = record {
    hdr = record m.hdr {
      out_chars = (m.hdr.out_chars + min (length t) (m.hdr.out_cap - m.hdr.out_chars)) % 2 ^ 32;
    };
    memory =
        copy_to (m.hdr.out_off + 2 * m.hdr.out_chars)
          (take (min (length t) (m.hdr.out_cap - m.hdr.out_chars)) t) m.memory;
  }

  room : length log < cap → IsLog cap appended (log ++ t)
  unfolding appended
  room lt =
      let n = min (length t) (m.hdr.out_cap - m.hdr.out_chars) in
      let at : m.hdr.out_chars ≡ length log = omega (arith, h.used) in
      let wrap : (m.hdr.out_chars + n) % 2 ^ 32 ≡ m.hdr.out_chars + n =
        omega (arith, h.used, h.cap_is) in
      record {
        cap_is = h.cap_is;
        state = h.state;
        used = omega (arith, h.used, h.cap_is, length-append log t);
        text =
            ap (λ k. text_at m.hdr.out_off k appended.memory) wrap
            ∙ appended_text m.hdr.out_off m.hdr.out_chars n cap m.memory log t at (omega arith)
                (omega (arith, h.cap_is)) h.text;
      }

append_out-IsLog :
    (cap : ℕ) (m : Mapping) (log t : Wide)
    → cap < 2 ^ 31
    → IsLog cap m log
    → IsLog cap (append_out t m) (log ++ t)
unfolding append_out appended
append_out-IsLog cap m log t small h =
    if_cases (λ (x : Mapping). IsLog cap x (log ++ t))
      (leb (2 ^ 31) m.hdr.out_chars || leb m.hdr.out_cap m.hdr.out_chars)
      (λ b. full cap small m log t h (ground arith)) (λ b. room cap small m log t h (ground arith))

abbrev pub concat : List Wide → Wide
concat [] = []
concat (t ∷ ts) = t ++ concat ts

forward_own :
    (t : Wide) (s : Session) (m : Mapping)
    → s.own_console ≡ true
    → s.mapping ≡ some m
    → (forward t s).own_console ≡ true
unfolding forward
forward_own [] s m own here = own
forward_own (c ∷ t) s m own here = ground arith

forward-IsLog :
    (cap : ℕ) (t : Wide) (s : Session) (m : Mapping) (log : Wide)
    → cap < 2 ^ 31
    → s.own_console ≡ true
    → s.mapping ≡ some m
    → IsLog cap m log
    → (m' : Mapping) × ((forward t s).mapping ≡ some m') × IsLog cap m' (log ++ t)
unfolding forward
forward-IsLog cap [] s m log small own here h = (m, here, rw append-nil h)
forward-IsLog cap (c ∷ t) s m log small own here h =
    (append_out (c ∷ t) m, ground arith, append_out-IsLog cap m log (c ∷ t) small h)

forward_all-IsLog :
    (cap : ℕ) (ts : List Wide) (s : Session) (m : Mapping) (log : Wide)
    → cap < 2 ^ 31
    → s.own_console ≡ true
    → s.mapping ≡ some m
    → IsLog cap m log
    → (m' : Mapping) × ((forward_all ts s).mapping ≡ some m') × IsLog cap m' (log ++ concat ts)
unfolding forward_all
forward_all-IsLog cap [] s m log small own here h = (m, here, rw append-nil h)
forward_all-IsLog cap (t ∷ ts) s m log small own here h =
    let (m', there, h') = forward-IsLog cap t s m log small own here h in
    rw⁻¹ (append_assoc log t (concat ts)) (
      forward_all-IsLog cap ts (forward t s) m' (log ++ t) small (forward_own t s m own here) there
        h')

forwarded-IsLog :
    (cap : ℕ) (m : Mapping) (log : Wide)
    → cap < 2 ^ 31
    → IsLog cap m log
    → forwarded m ≡ take cap log
unfolding forwarded
forwarded-IsLog cap m log small h =
    let all : min m.hdr.out_chars m.hdr.out_cap ≡ m.hdr.out_chars =
      omega (arith, h.used, h.cap_is) in
    let same = ap (λ k. text_at m.hdr.out_off k m.memory) all ∙ h.text in
    ground (arith, same, h.state, h.used)

-- What the original launcher prints.
abbrev pub printed : Session → Wide
printed s = elim s.mapping [ none ↦ [] | some m ↦ forwarded m ]

module _ (ts : List Wide) (s : Session) (m : Mapping) (small : m.hdr.out_cap < 2 ^ 31)
    (empty : m.hdr.out_chars ≡ 0) (here : s.mapping ≡ some m) where
  taken_over :
      (m' : Mapping) × ((forward_all ts (switch_console false s)).mapping ≡ some m')
      × IsLog m.hdr.out_cap m' (concat ts)
  unfolding switch_console text_at
  taken_over =
      let cap = m.hdr.out_cap in
      let m₀ : Mapping = record m { hdr = record m.hdr { console_state = console_own } } in
      let start : IsLog cap m₀ [] = record {
        cap_is = refl;
        state = refl;
        used = omega arith;
        text =
            ap (λ k. text_at m.hdr.out_off k m.memory) empty
            ∙ sym (take-short cap [] (omega arith));
      } in
      forward_all-IsLog cap ts (switch_console false s) m₀ [] small refl (rw here refl) start

  pub forward_all-own :
      (m' : Mapping)
      → (forward_all ts (switch_console false s)).mapping ≡ some m'
      → m'.hdr.console_state ≡ console_own
  forward_all-own m' e =
      let (x, there, h) = taken_over in
      let same : x ≡ m' = ap (λ o. elim o [ none ↦ x | some y ↦ y ]) (sym there ∙ e) in
      rw (sym same) h.state

-- Of a session that has taken over the handoff, with a console of its own and a buffer of less than 2^31
-- units: whatever texts it forwards, the original prints them one after another, cut off where the
-- buffer is full.
pub printed-forward_all :
    (ts : List Wide) (s : Session) (m : Mapping)
    → m.hdr.out_cap < 2 ^ 31
    → m.hdr.out_chars ≡ 0
    → s.mapping ≡ some m
    → printed (forward_all ts (switch_console false s)) ≡ take m.hdr.out_cap (concat ts)
printed-forward_all ts s m small empty here =
    let (m', there, h) = taken_over ts s m small empty here in
    rw there (forwarded-IsLog m.hdr.out_cap m' (concat ts) small h)
