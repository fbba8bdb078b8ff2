-- ===== src/Wide.antt =====
-- Wide strings as the launcher uses them: std::to_wstring, wcstoul in base 10 with an unsigned long of
-- 32 bits, and wcsncmp with a prefix. A std::wstring is the list of its UTF-16 units; white space and
-- digits are those of ASCII.
use dx12track.Prelude.{
  lists_eq, ℕ, zero, suc, ◌+◌, ◌-◌, ◌*◌, ◌/◌, ◌%◌, ◌^◌, ◌≤◌, ◌<◌, ◌≡◌, refl, ◌∙◌, ap, Bool, true,
  false, ◌&&◌, ◌||◌, List, [], ◌∷◌, ◌++◌, arith, leb, ltb, ◌==◌, if◌then◌else◌, Bool-cases, inl,
  inr,
}
use native.Mathlib.Nat.{pow-suc}
use dx12track.Json.{print_onto, digit, decimal}

abbrev pub Wide : Type 0
Wide = List ℕ

abbrev pub ulong_max : ℕ
ulong_max = 4_294_967_295

abbrev pub is_digit : ℕ → Bool
is_digit c = leb 48 c && leb c 57

abbrev is_space : ℕ → Bool
is_space c = c == 32 || (leb 9 c && leb c 13)

unfoldable pub skip_spaces : Wide → Wide
skip_spaces [] = []
skip_spaces (c ∷ s) = if is_space c then skip_spaces s else c ∷ s

-- The number that the leading digits spell behind `v`, without a bound, and what follows them.
unfoldable pub scan_digits : ℕ → Wide → ℕ × Wide
scan_digits v [] = (v, [])
scan_digits v (c ∷ s) = if is_digit c then scan_digits (v * 10 + (c - 48)) s else (v, c ∷ s)

abbrev pub starts_digit : Wide → Bool
starts_digit [] = false
starts_digit (c ∷ s) = is_digit c

unfoldable pub to_ulong : Bool → ℕ → ℕ
to_ulong minus v = if ltb ulong_max v then ulong_max else if minus then (2 ^ 32 - v) % 2 ^ 32 else v

-- Behind the sign; `all` is the whole text, which is left unread where there is no number.
unfoldable pub read_number : Wide → Bool → Wide → ℕ × Wide
unfolding to_ulong
read_number all minus s =
    if starts_digit s then (to_ulong minus (scan_digits 0 s).0, (scan_digits 0 s).1) else (0, all)

unfoldable pub read_signed : Wide → Wide → ℕ × Wide
unfolding read_number
read_signed all [] = (0, all)
read_signed all (c ∷ s) =
    if c == 45
    then read_number all true s
    else if c == 43
    then read_number all false s
    else read_number all false (c ∷ s)

-- wcstoul(s, &end, 10), with the text from `end` on.
unfoldable pub wcstoul : Wide → ℕ × Wide
unfolding read_signed skip_spaces
wcstoul s = read_signed s (skip_spaces s)

-- wcsncmp(s, prefix, wcslen(prefix)) == 0
unfoldable pub has_prefix : Wide → Wide → Bool
has_prefix [] s = true
has_prefix (c ∷ p) [] = false
has_prefix (c ∷ p) (d ∷ s) = if c == d then has_prefix p s else false

pub has_prefix-append : (p s : Wide) → has_prefix p (p ++ s) ≡ true
unfolding has_prefix
has_prefix-append [] s = refl
has_prefix-append (c ∷ p) s = ground (arith, has_prefix-append p s)

scan_digits-digit :
    (v d r : ℕ) (s : Wide) → d < 10 → v * 10 + d ≡ r → scan_digits v (digit d ∷ s) ≡ scan_digits r s
unfolding digit scan_digits
scan_digits-digit v d r s h e = ground (arith, ap (λ k. scan_digits k s) e)

-- Reading the digits of a number that are put before a text gives the number.
scan_digits-print :
    (fuel n : ℕ) (s : Wide)
    → n < 10 ^ fuel
    → scan_digits 0 (print_onto 10 fuel n s) ≡ scan_digits n s
unfolding print_onto
scan_digits-print zero n s h = ap (λ k. scan_digits k s) (omega arith)
scan_digits-print (suc fuel) n s h = elim (Bool-cases (ltb n 10)) [
  | inl t ↦ rw t (scan_digits-digit 0 n n s (ground arith) (omega arith))
  | inr t ↦ rw t (
      scan_digits-print fuel (n / 10) (digit (n % 10) ∷ s) (omega (arith, pow-suc 10 fuel))
      ∙ scan_digits-digit (n / 10) (n % 10) n s (omega arith) (omega arith))
]

starts_digit-print :
    (fuel n : ℕ) (s : Wide) → starts_digit s ≡ true → starts_digit (print_onto 10 fuel n s) ≡ true
unfolding print_onto digit
starts_digit-print zero n s h = h
starts_digit-print (suc fuel) n s h =
    ground (arith, starts_digit-print fuel (n / 10) (digit (n % 10) ∷ s))

starts_digit-print_suc :
    (fuel n : ℕ) (s : Wide) → starts_digit (print_onto 10 (suc fuel) n s) ≡ true
unfolding print_onto digit
starts_digit-print_suc fuel n s =
    ground (arith, starts_digit-print fuel (n / 10) (digit (n % 10) ∷ s))

-- A text that starts with a digit has no space and no sign before its number.
wcstoul_unsigned :
    (s : Wide)
    → starts_digit s ≡ true
    → wcstoul s ≡ (to_ulong false (scan_digits 0 s).0, (scan_digits 0 s).1)
unfolding wcstoul
wcstoul_unsigned [] h = cc
wcstoul_unsigned (c ∷ s) h = ground arith

to_ulong_exact : (n : ℕ) → n ≤ ulong_max → to_ulong false n ≡ n
unfolding to_ulong
to_ulong_exact n h = ground arith

scan_digits-decimal : (n : ℕ) → n ≤ ulong_max → scan_digits 0 (decimal n) ≡ (n, [])
unfolding decimal scan_digits
scan_digits-decimal n h = scan_digits-print 20 n [] (omega arith)

pub starts_digit-decimal : (n : ℕ) → starts_digit (decimal n) ≡ true
unfolding decimal
starts_digit-decimal n = starts_digit-print_suc 19 n []

-- wcstoul reads back what std::to_wstring prints.
pub wcstoul-decimal : (n : ℕ) → n ≤ ulong_max → wcstoul (decimal n) ≡ (n, [])
wcstoul-decimal n h =
    wcstoul_unsigned (decimal n) (starts_digit-decimal n)
    ∙ rw (scan_digits-decimal n h, to_ulong_exact n h) refl

-- How often a name is in a list.
abbrev pub count : Wide → List Wide → ℕ
count name [] = 0
count name (n ∷ ns) = (if lists_eq n name then 1 else 0) + count name ns

-- A name put in front if `b`, counted as if `g`, where the two agree on the name that is counted.
pub count_if :
    (name n : Wide) (rest : List Wide) (b g : Bool) (m : ℕ)
    → count name rest ≡ (if g then m else 0)
    → (lists_eq n name ≡ true → b ≡ g)
    → count name (if b then n ∷ rest else rest)
      ≡ (if g then (if lists_eq n name then 1 else 0) + m else 0)
count_if name n rest b g m ih same = ground arith
