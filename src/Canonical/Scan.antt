-- ===== src/Canonical/Scan.antt =====
-- A scanner for JSON strings, and the proof that it reads back what `json_string` writes.
use proofchain.Prelude.{
  ltb, ◌==◌, if◌then◌else◌, All, Text, ℕ, zero, suc, ◌+◌, ◌-◌, ◌*◌, ◌/◌, ◌%◌, ◌≤◌, ◌<◌, ◌≡◌, refl,
  sym, ap, ◌∙◌, ◌≢◌, Bool, true, false, not, ◌&&◌, ◌||◌, Option, none, some, [], ◌∷◌, ◌++◌,
  append_assoc, arith,
}
use proofchain.Canonical.{
  hex_unit, escape_unit, unicode_escape, is_high, json_units, starts_low, json_string,
}

-- Where the scanner stands: between units, behind a backslash, or within `\uXXXX`.
data Mode : Type 0 where
  plain : Mode
  escape : Mode
  code : ℕ → ℕ → Mode

unhex : ℕ → ℕ
unhex d = if ltb d 58 then d - 48 else d - 87

-- The unit that a letter behind a backslash stands for.
unescape : ℕ → ℕ
unescape d =
    if d == b'b'
    then 8
    else if d == b'f'
    then 12
    else if d == b'n'
    then 10
    else if d == b'r'
    then 13
    else if d == b't'
    then 9
    else d

abbrev push : ℕ → Option (Text × Text) → Option (Text × Text)
push c none = none
push c (some (s, rest)) = some (c ∷ s, rest)

-- The units up to the closing quote, and what follows it.
scan : Mode → Text → Option (Text × Text)
unfolding unhex unescape
scan m [] = none
scan plain (d ∷ t) = elim (d == 34) [
  | true ↦ some ([], t)
  | false ↦ elim (d == 92) [ true ↦ scan escape t | false ↦ push d (scan plain t) ]
]
scan escape (d ∷ t) = elim (d == b'u') [
  | true ↦ scan (code 3 0) t
  | false ↦ push (unescape d) (scan plain t)
]
scan (code zero acc) (d ∷ t) = push (acc * 16 + unhex d) (scan plain t)
scan (code (suc n) acc) (d ∷ t) = scan (code n (acc * 16 + unhex d)) t

unhex-hex_unit : (n : ℕ) → n < 16 → unhex (hex_unit n) ≡ n
unfolding unhex hex_unit
unhex-hex_unit n h = ground arith

scan-unicode_escape :
    (c : ℕ) (t : Text) → c < 65536 → scan plain (unicode_escape c ++ t) ≡ push c (scan plain t)
unfolding scan unicode_escape
scan-unicode_escape c t h =
    rw
      (
        unhex-hex_unit (c / 4096) (omega arith),
        unhex-hex_unit (c / 256 % 16) (omega arith),
        unhex-hex_unit (c / 16 % 16) (omega arith),
        unhex-hex_unit (c % 16) (omega arith),
      )
      (ap (λ (d : ℕ). push d (scan plain t)) (omega arith))

scan-raw : (c : ℕ) (t : Text) → c ≢ 34 → c ≢ 92 → scan plain (c ∷ t) ≡ push c (scan plain t)
unfolding scan
scan-raw c t h k = ground arith

scan-escape_unit :
    (c : ℕ) (t : Text) → c < 65536 → scan plain (escape_unit c ++ t) ≡ push c (scan plain t)
unfolding escape_unit scan unescape
scan-escape_unit c t h = ground (arith, scan-unicode_escape c t)

-- The two halves of a pair stand as they are.
scan-piece :
    (c : ℕ) (raw : Bool) (t : Text)
    → c < 65536
    → (raw ≡ true → 55296 ≤ c)
    → scan plain ((if raw then c ∷ [] else escape_unit c) ++ t) ≡ push c (scan plain t)
scan-piece c true t h p = scan-raw c t (λ e. omega (arith, p refl)) (λ e. omega (arith, p refl))
scan-piece c false t h p = scan-escape_unit c t h

-- A unit of UTF-16.
abbrev pub AreUnits : Text → Type 0
AreUnits = All (λ c. c < 65536)

opens_low : (c : ℕ) (s : Text) → starts_low (c ∷ s) ≡ true → 55296 ≤ c
unfolding starts_low
opens_low c s h = ground arith

opens_high :
    (paired : Bool) (c : ℕ) (s : Text)
    → (not paired && (is_high c && starts_low s)) ≡ true
    → (55296 ≤ c) × (starts_low s ≡ true)
unfolding is_high
opens_high paired c s h = (ground arith, ground arith)

raw_above :
    (paired : Bool) (c : ℕ) (s : Text)
    → (paired ≡ true → starts_low (c ∷ s) ≡ true)
    → (paired || (not paired && (is_high c && starts_low s))) ≡ true
    → 55296 ≤ c
raw_above true c s p h = opens_low c s (p refl)
raw_above false c s p h = (opens_high false c s h).0

scan-json_units :
    (paired : Bool) (s rest : Text)
    → AreUnits s
    → (paired ≡ true → starts_low s ≡ true)
    → scan plain (json_units paired s ++ 34 ∷ rest) ≡ some (s, rest)
unfolding json_units
scan-json_units paired [] rest u p = unfold scan in refl
scan-json_units paired (c ∷ s) rest u p =
    let opens = not paired && (is_high c && starts_low s) in
    rw append_assoc (
      scan-piece c (paired || opens) (json_units opens s ++ 34 ∷ rest) u.0 (raw_above paired c s p)
      ∙ ap (push c) (scan-json_units opens s rest u.1 (λ e. (opens_high paired c s e).1)))

-- The string behind an opening quote.
scan_quoted : Text → Option (Text × Text)
scan_quoted [] = none
scan_quoted (c ∷ t) = scan plain t

-- What is scanned is what was printed, whatever follows.
scan_quoted-json_string :
    (s rest : Text) → AreUnits s → scan_quoted (json_string s ++ rest) ≡ some (s, rest)
unfolding scan_quoted json_string
scan_quoted-json_string s rest u = rw append_assoc (scan-json_units false s rest u (λ e. cc))

-- Two strings that are printed alike, whatever follows, are the same, and so is what follows.
pub json_string_injective :
    (s t rest rest' : Text)
    → AreUnits s
    → AreUnits t
    → json_string s ++ rest ≡ json_string t ++ rest'
    → (s ≡ t) × (rest ≡ rest')
json_string_injective s t rest rest' u v e =
    let same =
      sym (scan_quoted-json_string s rest u)
      ∙ ap scan_quoted e
      ∙ scan_quoted-json_string t rest' v in
    (cc, cc)
