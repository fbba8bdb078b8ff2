-- ===== src/Json/Strings.antt =====
-- The strings of the JSON lines (src/dll/JsonLog.cpp, AppendJsonString; src/launcher/Model.cpp,
-- J::wstr) against a reader of JSON strings.
use dx12track.Prelude.{
  leb, ◌&&◌, ◌||◌, ℕ, zero, suc, ◌/◌, ◌%◌, ◌≤◌, ◌<◌, ◌≡◌, ◌≢◌, refl, ap, ◌∙◌, Bool, true, List, [],
  ◌∷◌, ◌++◌, Option, none, some, arith, ltb, ◌==◌, if◌then◌else◌, if_cases,
}
use mathlib.Core.List.{append_assoc}
use dx12track.Json.{
  Text, codes, digit, escape_control, escape_unit, escape_array, append_json_string,
}

-- Where the reader of a string is: between characters, behind a backslash, or before so many hex digits.
pub data Place : Type 0 where
  between escaped : Place
  hex : ℕ → Place

-- 0-9, A-F, a-f
abbrev is_hex : ℕ → Bool
is_hex c = (leb 48 c && leb c 57) || ((leb 65 c && leb c 70) || (leb 97 c && leb c 102))

-- The bytes that make an escape with a backslash alone: " \ / b f n r t
abbrev is_short_escape : ℕ → Bool
is_short_escape c =
    (c == 34)
    || ((c == 92)
        || ((c == 47) || ((c == 98) || ((c == 102) || ((c == 110) || ((c == 114) || (c == 116)))))))

-- What follows a JSON string's closing quote; none where the text is no JSON string: behind a backslash
-- stands one of eight bytes, or a u and four hex digits; a control byte is not allowed.
unfoldable pub string_end : Place → Text → Option Text
string_end place [] = none
string_end (Place.hex n) (c ∷ s) =
    let next =
      string_end
        (elim n [
          | zero ↦ Place.between
          | suc zero ↦ Place.between
          | suc (suc k) ↦ Place.hex (suc k)
        ])
        s in
    if is_hex c then next else none
string_end Place.escaped (c ∷ s) =
    let next = string_end Place.between s in
    let digits = string_end (Place.hex 4) s in
    if is_short_escape c then next else if c == 117 then digits else none
string_end Place.between (c ∷ s) =
    let after = string_end Place.escaped s in
    let next = string_end Place.between s in
    if c == 34 then some s else if c == 92 then after else if ltb c 32 then none else next

-- A byte that stands for itself in a JSON string.
abbrev pub IsPlain : ℕ → Type 0
IsPlain c = (32 ≤ c) × (c ≢ 34) × (c ≢ 92)

abbrev pub ArePlain : Text → Type 0
ArePlain [] = Unit
ArePlain (c ∷ s) = IsPlain c × ArePlain s

-- UTF-8 has an ASCII byte only for that ASCII character.
abbrev pub IsUtf8 : (ℕ → Text) → Type 0
IsUtf8 utf8 = (c : ℕ) → IsPlain c → ArePlain (utf8 c)

string_end-plain :
    (xs rest : Text)
    → ArePlain xs
    → string_end Place.between (xs ++ rest) ≡ string_end Place.between rest
unfolding string_end
string_end-plain [] rest p = refl
string_end-plain (c ∷ xs) rest p =
    let (ge, quote, backslash) = p.0 in ground (arith, string_end-plain xs rest p.1)

digit-is_hex : (d : ℕ) → d < 16 → is_hex (digit d) ≡ true
unfolding digit
digit-is_hex d h = ground arith

string_end-escape_control :
    (c : ℕ) (rest : Text)
    → c < 32
    → string_end Place.between (escape_control c ++ rest) ≡ string_end Place.between rest
unfolding escape_control codes string_end
string_end-escape_control c rest h =
    rw (digit-is_hex (c / 16) (omega arith), digit-is_hex (c % 16) (omega arith)) refl

string_end-escape_unit :
    (utf8 : ℕ → Text) (c : ℕ) (rest : Text)
    → IsUtf8 utf8
    → string_end Place.between (escape_unit utf8 c ++ rest) ≡ string_end Place.between rest
unfolding escape_unit string_end
string_end-escape_unit utf8 c rest u =
    let Skips : Text → Type 0 =
      λ x. string_end Place.between (x ++ rest) ≡ string_end Place.between rest in
    if_cases Skips (c == 92) (λ _. refl)
      (λ backslash.
        if_cases Skips (c == 34) (λ _. refl)
          (λ quote.
            if_cases Skips (c == 10) (λ _. refl)
              (λ _.
                if_cases Skips (c == 13) (λ _. refl)
                  (λ _.
                    if_cases Skips (c == 9) (λ _. refl)
                      (λ _.
                        if_cases Skips (ltb c 0x20)
                          (λ control. string_end-escape_control c rest (ground arith))
                          (λ printable.
                            string_end-plain (utf8 c) rest
                              (u c (ground arith, ground arith, ground arith))))))))

string_end-escape_array :
    (utf8 : ℕ → Text) (n : ℕ) (s : List ℕ) (rest : Text)
    → IsUtf8 utf8
    → string_end Place.between (escape_array utf8 n s ++ 34 ∷ rest) ≡ some rest
unfolding escape_array string_end
string_end-escape_array utf8 zero s rest u = refl
string_end-escape_array utf8 (suc n) [] rest u = refl
string_end-escape_array utf8 (suc n) (c ∷ s) rest u =
    if_cases (λ x. string_end Place.between (x ++ 34 ∷ rest) ≡ some rest) (c == 0) (λ _. refl)
      (λ _.
        ap (string_end Place.between)
          (append_assoc (escape_unit utf8 c) (escape_array utf8 n s) (34 ∷ rest))
        ∙ (string_end-escape_unit utf8 c _ u ∙ string_end-escape_array utf8 n s rest u))

-- Whatever the units and the limit, where UTF-8 has the bytes below 128 for ASCII only: what
-- AppendJsonString appends is a quote and then a string that a JSON reader ends exactly at the
-- closing quote, so that anything appended later lies outside it.
pub append_json_string-closes :
    (utf8 : ℕ → Text) (out : Text) (max_chars : ℕ) (s : List ℕ) (rest : Text)
    → IsUtf8 utf8
    → (string : Text) × (append_json_string utf8 out max_chars s ++ rest ≡ out ++ 34 ∷ string)
      × (string_end Place.between string ≡ some rest)
unfolding append_json_string
append_json_string-closes utf8 out max_chars s rest u =
    let inner = escape_array utf8 max_chars s in
    (
      inner ++ 34 ∷ rest,
      append_assoc out (34 ∷ (inner ++ 34 ∷ [])) rest
          ∙ ap (λ x. out ++ 34 ∷ x) (append_assoc inner (34 ∷ []) rest),
      string_end-escape_array utf8 max_chars s rest u,
    )
