-- ===== src/Pipe/Bytes.antt =====
-- The bytes of a header, and reads of the pipe in pieces (src/launcher/PipeServer.cpp, ReadExact).
use dx12track.Prelude.{
  ℕ, zero, suc, ◌-◌, ◌/◌, ◌^◌, ◌≤◌, ◌<◌, ◌≡◌, refl, sym, ap, ◌∙◌, List, [], ◌∷◌, ◌++◌, Option, some,
  length, take, drop, ltb, ◌==◌, if_cases, arith, take-append_le, drop-append_le, take-append_ge,
  drop-append_ge, length-drop, length-append,
}
use dx12track.Pipe.{WireHeader, le, of_le, header_bytes, read_header, read_exact}

of_le-le : (w n : ℕ) → n < 256 ^ w → of_le (le w n) ≡ n
unfolding of_le le
of_le-le zero n h = omega arith
of_le-le (suc w) n h = omega (arith, of_le-le w (n / 256) (omega arith))

-- The fields fit their words.
pub record Fits (h : WireHeader) : Type 0 where
  pub magic : h.magic < 2 ^ 32
  pub payload_bytes : h.payload_bytes < 2 ^ 32
  pub ts_ns : h.ts_ns < 2 ^ 64
  pub kind : h.kind < 256

pub read_header-header_bytes : (h : WireHeader) → Fits h → read_header (header_bytes h) ≡ h
unfolding read_header header_bytes of_le le
read_header-header_bytes h f = λ i. record {
  magic = of_le-le 4 h.magic f.magic i;
  payload_bytes = of_le-le 4 h.payload_bytes f.payload_bytes i;
  ts_ns = of_le-le 8 h.ts_ns f.ts_ns i;
  kind = of_le-le 1 h.kind f.kind i;
}

-- The pieces one after the other.
abbrev pub concat : List (List ℕ) → List ℕ
concat [] = []
concat (p ∷ ps) = p ++ concat ps

-- No piece is empty.
abbrev pub ArePieces : List (List ℕ) → Type 0
ArePieces [] = Unit
ArePieces (p ∷ ps) = (1 ≤ length p) × ArePieces ps

-- A read of n bytes: the first n bytes come out, and the rest remains.
abbrev pub Reads : ℕ → List ℕ → Option (List ℕ × List (List ℕ)) → Type 0
Reads n bs o =
    (rest : List (List ℕ)) × (o ≡ some (take n bs, rest))
    × (concat rest ≡ drop n bs)
    × ArePieces rest

-- However the bytes are cut into pieces, ReadExact reads the first n of them where there are n.
pub read_exact-Reads :
    (n : ℕ) (ps : List (List ℕ))
    → ArePieces ps
    → n ≤ length (concat ps)
    → Reads n (concat ps) (read_exact n ps)
unfolding read_exact
read_exact-Reads n [] a h = let none_left : n ≡ 0 = omega arith in rw none_left ([], refl, refl, tt)
read_exact-Reads n (p ∷ ps) a h =
    if_cases (Reads n (p ++ concat ps)) (n == 0)
      (λ e. let z : n ≡ 0 = ground arith in rw z (p ∷ ps, refl, refl, a))
      (λ e.
        if_cases (Reads n (p ++ concat ps)) (length p == 0) (λ f. absurd (ground (arith, a.0)))
          (λ f.
            if_cases (Reads n (p ++ concat ps)) (ltb n (length p))
              (λ g.
                let le : n ≤ length p = ground arith in
                (
                  drop n p ∷ ps,
                  ap (λ x. some (x, drop n p ∷ ps)) (sym (take-append_le n p (concat ps) le)),
                  sym (drop-append_le n p (concat ps) le),
                  (ground (arith, length-drop n p), a.1),
                ))
              (λ g.
                let ge : length p ≤ n = ground arith in
                let (rest, e₁, e₂, e₃) =
                  read_exact-Reads (n - length p) ps a.1
                    (omega (arith, length-append p (concat ps))) in
                (
                  rest,
                  rw (e₁, take-append_ge n p (concat ps) ge) refl,
                  e₂ ∙ sym (drop-append_ge n p (concat ps) ge),
                  e₃,
                ))))
