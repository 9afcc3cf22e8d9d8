-- ===== src/Keymap.antt =====
-- Key chords and how they are written: `parse_chord` and `chord_spelling` of src/common/keymap.cpp.
pub mod Spelling
pub mod Tests
use ckmux.Prelude.{
  ℕ, ◌+◌, ◌-◌, Bool, true, false, not, ◌&&◌, ◌||◌, Option, none, some, List, [], ◌∷◌, ◌++◌, leb,
  ltb, ◌==◌, if◌then◌else◌, same_text,
}

-- ckVision's keys and their names (cvision/core/key.hpp).
pub record KeyLib : Type 1 where
  pub Key : Type 0
  pub char_key : Key
  pub is_none : Key → Bool
  pub is_char : Key → Bool
  pub key_from_name : List ℕ → Option Key
  pub key_name : Key → List ℕ

-- The flags of `ckv::Modifier` that are set and tested.
pub record Modifiers : Type 0 where
  pub ctrl : Bool
  pub alt : Bool
  pub shift : Bool

pub record KeyChord (K : KeyLib) : Type 0 where
  pub key : K.Key
  pub text : List ℕ
  pub modifiers : Modifiers

abbrev pub no_modifiers : Modifiers
no_modifiers = record { ctrl = false; alt = false; shift = false }

abbrev pub only_ctrl : Modifiers → Bool
only_ctrl m = m.ctrl && not m.alt && not m.shift

abbrev pub any_modifier : Modifiers → Bool
any_modifier m = m.ctrl || m.alt || m.shift

abbrev pub is_printable_ascii : ℕ → Bool
is_printable_ascii c = ltb 0x20 c && ltb c 0x7f

-- 'A' … 'Z' and 'a' … 'z'
abbrev pub lower_ascii : ℕ → ℕ
lower_ascii c = if leb 65 c && leb c 90 then c - 65 + 97 else c

abbrev pub upper_ascii : ℕ → ℕ
upper_ascii c = if leb 97 c && leb c 122 then c - 97 + 65 else c

-- "Space"
abbrev pub space_name : List ℕ
space_name = 83 ∷ 112 ∷ 97 ∷ 99 ∷ 101 ∷ []

-- " "
abbrev pub blank : List ℕ
blank = 32 ∷ []

-- The modifiers with that of a letter, or none where it is set already; nothing where the letter is
-- of no modifier. 'C', 'S', and 'A' or 'M'.
abbrev pub join : ℕ → Modifiers → Option (Option Modifiers)
join c m =
    if c == 67
    then some (if m.ctrl then none else some (record m { ctrl = true }))
    else if c == 83
    then some (if m.shift then none else some (record m { shift = true }))
    else if c == 65 || c == 77
    then some (if m.alt then none else some (record m { alt = true }))
    else none

-- The loop over the prefixes: nothing for a repeated modifier, otherwise the modifiers and what is
-- left of the text.
unfoldable pub prefixes : List ℕ → Modifiers → Option (Modifiers × List ℕ)
prefixes [] m = some (m, [])
prefixes (c ∷ []) m = some (m, c ∷ [])
prefixes (c ∷ dash ∷ text) m =
    if not (dash == 45) then some (m, c ∷ dash ∷ text) else elim (join c m) [
      | none ↦ some (m, c ∷ dash ∷ text)
      | some none ↦ none
      | some (some m') ↦ prefixes text m'
    ]

module _ (K : KeyLib) where
  -- A caret and a printable character.
  unfoldable pub caret : List ℕ → Option ℕ
  caret (front ∷ c ∷ []) = if front == 94 && is_printable_ascii c then some c else none
  caret _ = none

  -- One printable character that stands for itself.
  unfoldable pub single : Modifiers → List ℕ → Option (KeyChord K)
  single m (c ∷ []) =
      if not (is_printable_ascii c)
      then none
      else if m.shift
      then none
      else some (record {
        key = K.char_key;
        text = (if m.ctrl then lower_ascii c else c) ∷ [];
        modifiers = m;
      })
  single m _ = none

  -- What follows the prefixes.
  unfoldable pub parse_key : Modifiers → List ℕ → Option (KeyChord K)
  parse_key m [] = none
  parse_key m (c ∷ text) = elim (caret (c ∷ text)) [
    | some d ↦
        if any_modifier m
        then none
        else some (record {
          key = K.char_key;
          text = lower_ascii d ∷ [];
          modifiers = record no_modifiers { ctrl = true };
        })
    | none ↦
        if same_text (c ∷ text) space_name
        then some (record { key = K.char_key; text = blank; modifiers = m })
        else elim (K.key_from_name (c ∷ text)) [
          | some named ↦ some (record { key = named; text = []; modifiers = m })
          | none ↦ single m (c ∷ text)
        ]
  ]

  unfoldable pub parse_chord : List ℕ → Option (KeyChord K)
  parse_chord text = elim (prefixes text no_modifiers) [ none ↦ none | some p ↦ parse_key p.0 p.1 ]

  -- chord.text.size() == 1 && chord.text != " "
  abbrev pub is_single : List ℕ → Bool
  is_single (c ∷ []) = not (c == 32)
  is_single _ = false

  abbrev pub upper_text : List ℕ → List ℕ
  upper_text [] = []
  upper_text (c ∷ text) = upper_ascii c ∷ []

  unfoldable pub chord_spelling : KeyChord K → List ℕ
  chord_spelling chord =
      let m = chord.modifiers in
      let ctrl = if m.ctrl then 67 ∷ 45 ∷ [] else [] in
      let alt = if m.alt then 65 ∷ 45 ∷ [] else [] in
      let shift = if m.shift then 83 ∷ 45 ∷ [] else [] in
      if K.is_none chord.key
      then []
      else if K.is_char chord.key && only_ctrl m && is_single chord.text
      then 94 ∷ upper_text chord.text
      else if K.is_char chord.key
      then ctrl ++ (alt ++ (if same_text chord.text blank then space_name else chord.text))
      else ctrl ++ (alt ++ (shift ++ K.key_name chord.key))
