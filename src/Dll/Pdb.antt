-- ===== src/Dll/Pdb.antt =====
-- The PDB that a module names (ExtractPdbInfo of src/dll/Modules.cpp). The debug directory is the list of
-- its entries, and the module's memory is the byte at each offset from its base.
use dx12track.Prelude.{
  ℕ, ◌+◌, ◌-◌, ◌%◌, ◌^◌, ◌≤◌, ◌<◌, ◌≡◌, refl, ap, ◌⊎◌, Bool, true, not, ◌||◌, List, [], ◌∷◌, Option,
  none, some, arith, ltb, nonzero, ◌==◌, if◌then◌else◌, Bool-cases, inl, inr,
}

pub record DebugEntry : Type 0 where
  pub type : ℕ
  pub address : ℕ
  pub size_of_data : ℕ

abbrev pub codeview : ℕ
codeview = 2

abbrev pub rsds : ℕ
rsds = 0x53445352

abbrev pub name_offset : ℕ
name_offset = 24

abbrev pub name_cap : ℕ
name_cap = 259

-- The name's bytes, from an address on; they may hold NULs.
pub record PdbInfo : Type 0 where
  pub guid_at : ℕ
  pub age_at : ℕ
  pub name_at : ℕ
  pub name_len : ℕ

-- size_t arithmetic.
unfoldable pub name_max : ℕ → ℕ
name_max size =
    let room = (size + 2 ^ 64 - name_offset) % 2 ^ 64 in
    if ltb name_cap room then name_cap else room

abbrev pub record_of : DebugEntry → PdbInfo
record_of e = record {
  guid_at = e.address + 4;
  age_at = e.address + 20;
  name_at = e.address + name_offset;
  name_len = name_max e.size_of_data;
}

-- `signature` reads the four bytes at an offset.
unfoldable pub is_record : (ℕ → ℕ) → DebugEntry → Bool
is_record signature e = not (
    not (e.type == codeview)
    || (not (nonzero e.address) || not (nonzero e.size_of_data))
    || not (signature e.address == rsds))

unfoldable pub extract_pdb_info : (ℕ → ℕ) → List DebugEntry → Option PdbInfo
unfolding is_record
extract_pdb_info signature [] = none
extract_pdb_info signature (e ∷ es) =
    let rest = extract_pdb_info signature es in
    if is_record signature e then some (record_of e) else rest

-- Each record is as large as its fixed part.
abbrev pub AreWhole : (ℕ → ℕ) → List DebugEntry → Type 0
AreWhole signature [] = Unit
AreWhole signature (e ∷ es) =
    (is_record signature e ≡ true → (name_offset ≤ e.size_of_data) × (e.size_of_data < 2 ^ 32))
    × AreWhole signature es

-- An entry that the name lies in.
abbrev pub HoldsName : (ℕ → ℕ) → PdbInfo → List DebugEntry → Type 0
HoldsName signature i [] = ⊥
HoldsName signature i (e ∷ es) =
    ((is_record signature e ≡ true)
      × (e.address + name_offset ≡ i.name_at)
      × (i.name_at + i.name_len ≤ e.address + e.size_of_data))
    ⊎ HoldsName signature i es

abbrev pub IsWithin : (ℕ → ℕ) → List DebugEntry → Option PdbInfo → Type 0
IsWithin signature es none = Unit
IsWithin signature es (some i) = (i.name_len ≤ name_cap) × HoldsName signature i es

name_max_within :
    (size : ℕ) → name_offset ≤ size → size < 2 ^ 32 → name_offset + name_max size ≤ size
unfolding name_max
name_max_within size lo hi = ground arith

name_max_cap : (size : ℕ) → name_max size ≤ name_cap
unfolding name_max
name_max_cap size = ground arith

name_max_short : (size : ℕ) → size < name_offset → name_max size ≡ name_cap
unfolding name_max
name_max_short size h = ground arith

IsWithin-cons :
    (signature : ℕ → ℕ) (e : DebugEntry) (es : List DebugEntry) (r : Option PdbInfo)
    → IsWithin signature es r
    → IsWithin signature (e ∷ es) r
IsWithin-cons signature e es none h = tt
IsWithin-cons signature e es (some i) (cap, h) = (cap, inr h)

-- Where each record is as large as its fixed part, the name that is copied fits the buffer with its NUL,
-- and lies in a record of the directory.
pub extract_pdb_info-IsWithin :
    (signature : ℕ → ℕ) (es : List DebugEntry)
    → AreWhole signature es
    → IsWithin signature es (extract_pdb_info signature es)
unfolding extract_pdb_info
extract_pdb_info-IsWithin signature [] h = tt
extract_pdb_info-IsWithin signature (e ∷ es) (whole, h) =
    elim (Bool-cases (is_record signature e)) [
      | inl here ↦
          let (lo, hi) = whole here in
          rw here (
            name_max_cap e.size_of_data,
            inl (here, refl, omega (arith, name_max_within e.size_of_data lo hi)),
          )
      | inr other ↦ rw other (
          IsWithin-cons signature e es (extract_pdb_info signature es)
            (extract_pdb_info-IsWithin signature es h))
    ]

-- Of a record that is shorter than its fixed part, the name that is copied is 259 bytes long, all of them
-- behind the record's end.
pub extract_pdb_info-short :
    (signature : ℕ → ℕ) (e : DebugEntry) (es : List DebugEntry)
    → is_record signature e ≡ true
    → e.size_of_data < name_offset
    → extract_pdb_info signature (e ∷ es) ≡ some (record (record_of e) { name_len = name_cap })
unfolding extract_pdb_info name_max
extract_pdb_info-short signature e es here short =
    rw here
      (ap (λ n. some (record (record_of e) { name_len = n })) (name_max_short e.size_of_data short))
