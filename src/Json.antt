-- ===== src/Json.antt =====
-- The text of the JSON lines: the escaping and number formatting of src/dll/JsonLog.cpp, and the
-- line builder `J` of src/launcher/Model.cpp. Text is a list of bytes, a std::wstring a list of
-- UTF-16 code units. `utf8` is WideCharToMultiByte(CP_UTF8) on one code unit, with no bytes where
-- the call fails.
pub mod Strings
use Prim.Native.Char.{code}
use Prim.Native.String.{String}
use dx12track.Prelude.{
  ℕ, ℤ, pos, negsuc, zero, suc, ◌+◌, ◌/◌, ◌%◌, Bool, true, false, List, [], ◌∷◌, ◌++◌, ltb, ◌==◌,
  if◌then◌else◌,
}

-- A built line, as bytes.
abbrev pub Text : Type 0
Text = List ℕ

-- The code points of an ASCII literal.
unfoldable pub codes : String → Text
codes String.[] = []
codes (String.◌∷◌ c s) = code c ∷ codes s

-- One digit, in lower case.
unfoldable pub digit : ℕ → ℕ
digit d = if ltb d 10 then 48 + d else 87 + d

-- printf of an unsigned number in a base, onto the front of `acc`; `fuel` bounds the digits.
unfoldable pub print_onto : ℕ → ℕ → ℕ → Text → Text
print_onto base zero n acc = acc
print_onto base (suc fuel) n acc =
    let more = print_onto base fuel (n / base) (digit (n % base) ∷ acc) in
    if ltb n base then digit n ∷ acc else more

-- std::to_string and "%llu": a uint64_t has at most 20 decimal digits.
unfoldable pub decimal : ℕ → Text
decimal n = print_onto 10 20 n []

-- std::to_string of an int64_t.
unfoldable pub signed : ℤ → Text
signed (pos n) = decimal n
signed (negsuc n) = 45 ∷ decimal (suc n)

-- "0x%llx": at most 16 digits.
unfoldable pub hex : ℕ → Text
hex n = codes "0x" ++ print_onto 16 16 n []

-- "\\u%04x" of a control character.
unfoldable pub escape_control : ℕ → Text
escape_control c = codes "\\u00" ++ digit (c / 16) ∷ digit (c % 16) ∷ []

-- One code unit of AppendJsonString's loop.
unfoldable pub escape_unit : (ℕ → Text) → ℕ → Text
escape_unit utf8 c =
    if c == 92
    then 92 ∷ 92 ∷ []
    else if c == 34
    then 92 ∷ 34 ∷ []
    else if c == 10
    then 92 ∷ 110 ∷ []
    else if c == 13
    then 92 ∷ 114 ∷ []
    else if c == 9
    then 92 ∷ 116 ∷ []
    else if ltb c 0x20
    then escape_control c
    else utf8 c

-- The loop, without the array's bound: over the units of a std::wstring.
unfoldable pub escape : (ℕ → Text) → List ℕ → Text
escape utf8 [] = []
escape utf8 (c ∷ s) = escape_unit utf8 c ++ escape utf8 s

-- AppendJsonString's text for an array of `max_chars` units: it stops at a NUL.
unfoldable pub escape_array : (ℕ → Text) → ℕ → List ℕ → Text
escape_array utf8 zero s = []
escape_array utf8 (suc n) [] = []
escape_array utf8 (suc n) (c ∷ s) =
    if c == 0 then [] else escape_unit utf8 c ++ escape_array utf8 n s

unfoldable pub append_json_string : (ℕ → Text) → Text → ℕ → List ℕ → Text
append_json_string utf8 out max_chars s = out ++ 34 ∷ (escape_array utf8 max_chars s ++ 34 ∷ [])

-- The builder `J`: its text so far.
pub record J : Type 0 where
  pub s : Text

-- ,"k":
unfoldable pub key_text : String → Text
key_text k = 44 ∷ 34 ∷ (codes k ++ 34 ∷ 58 ∷ [])

unfoldable pub start : String → ℕ → J
start event ts = record {
  s = codes "{\"event\":\"" ++ codes event ++ codes "\",\"ts_ns\":" ++ decimal ts;
}

unfoldable pub u : String → ℕ → J → J
u k v j = record { s = j.s ++ key_text k ++ decimal v }

unfoldable pub i : String → ℤ → J → J
i k v j = record { s = j.s ++ key_text k ++ signed v }

unfoldable pub b : String → Bool → J → J
b k v j = record { s = j.s ++ key_text k ++ (if v then codes "true" else codes "false") }

unfoldable pub str : String → String → J → J
str k v j = record { s = j.s ++ key_text k ++ 34 ∷ (codes v ++ 34 ∷ []) }

unfoldable pub hex_field : String → ℕ → J → J
hex_field k v j = record { s = j.s ++ key_text k ++ 34 ∷ (hex v ++ 34 ∷ []) }

unfoldable pub wstr : (ℕ → Text) → String → List ℕ → J → J
wstr utf8 k v j = record { s = j.s ++ key_text k ++ 34 ∷ (escape utf8 v ++ 34 ∷ []) }

unfoldable pub done : J → Text
done j = j.s ++ codes "}\n"
