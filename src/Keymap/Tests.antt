-- ===== src/Keymap/Tests.antt =====
-- The theorems on src/common/keymap.cpp at concrete chords.
use ckmux.Prelude.{
  arith, ℕ, ◌≡◌, refl, Bool, true, false, none, some, List, [], ◌∷◌, same_text, if◌then◌else◌,
}
use ckmux.Keymap.{KeyLib, KeyChord, blank, space_name, prefixes, caret, parse_chord, chord_spelling}
use ckmux.Keymap.Spelling.{
  KeyLaws, IsNamed, Press, chord_of, parse_chord-chord_spelling, parse_chord-shifted_space,
}

-- Two keys besides that of a character: no key, and the first function key.
data Key : Type 0 where
  no_key char function_one : Key

-- "F1"
abbrev function_name : List ℕ
function_name = 70 ∷ 49 ∷ []

abbrev is_none : Key → Bool
is_none Key.no_key = true
is_none _ = false

abbrev is_char : Key → Bool
is_char Key.char = true
is_char _ = false

abbrev key_name : Key → List ℕ
key_name Key.function_one = function_name
key_name _ = []

abbrev keys : KeyLib
keys = record {
  Key = Key;
  char_key = Key.char;
  is_none = is_none;
  is_char = is_char;
  key_from_name = λ text. if same_text text function_name then some Key.function_one else none;
  key_name = key_name;
}

no_short_name : (c : ℕ) → keys.key_from_name (c ∷ []) ≡ none
no_short_name c = ground arith

keys-KeyLaws : KeyLaws keys
keys-KeyLaws = record { char_is_char = refl; char_is_some = refl; no_short_name = no_short_name }

function_one-IsNamed : IsNamed keys Key.function_one
unfolding caret prefixes
function_one-IsNamed = record {
  some_key = refl;
  other_key = refl;
  first = 70;
  others = 49 ∷ [];
  named = refl;
  found = refl;
  not_space = refl;
  not_caret = refl;
  not_prefixed = λ m. refl;
}

-- Control, shift and the first function key.
abbrev pressed : Press keys
pressed = Press.named (record { ctrl = true; alt = false; shift = true }) Key.function_one

parse_chord-chord_spelling_example :
    parse_chord keys (chord_spelling keys (chord_of keys pressed)) ≡ some (chord_of keys pressed)
parse_chord-chord_spelling_example =
    parse_chord-chord_spelling keys keys-KeyLaws pressed function_one-IsNamed

parse_chord-shifted_space_example :
    (let chord : KeyChord keys = record {
      key = Key.char;
      text = blank;
      modifiers = record { ctrl = false; alt = true; shift = true };
    } in
      (parse_chord keys (65 ∷ 45 ∷ 83 ∷ 45 ∷ space_name) ≡ some chord)
      × (chord_spelling keys chord ≡ 65 ∷ 45 ∷ space_name)
      × (parse_chord keys (chord_spelling keys chord)
          ≡ some (chord_of keys (Press.space false true))))
parse_chord-shifted_space_example = parse_chord-shifted_space keys keys-KeyLaws false true
