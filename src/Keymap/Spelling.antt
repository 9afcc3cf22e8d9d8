-- ===== src/Keymap/Spelling.antt =====
-- What `chord_spelling` of src/common/keymap.cpp writes, `parse_chord` reads as the same chord.
use ckmux.Prelude.{
  ℕ, ◌≡◌, refl, ap, ◌∙◌, Bool, true, false, not, ◌&&◌, none, some, List, [], ◌∷◌, ◌++◌,
  if◌then◌else◌, same_text, ◌==◌, arith, Bool-cases, inl, inr,
}
use ckmux.Keymap.{
  KeyLib, Modifiers, KeyChord, no_modifiers, is_printable_ascii, lower_ascii, upper_ascii,
  space_name, blank, prefixes, caret, single, parse_key, parse_chord, chord_spelling,
}

-- What the keys with and without a name are to ckVision: a printable character's key is one of them
-- and has no name, and no name is one character.
pub record KeyLaws (K : KeyLib) : Type 0 where
  pub char_is_char : K.is_char K.char_key ≡ true
  pub char_is_some : K.is_none K.char_key ≡ false
  pub no_short_name : (c : ℕ) → K.key_from_name (c ∷ []) ≡ none

-- A key with a name that is not read as anything else.
pub record IsNamed (K : KeyLib) (key : K.Key) : Type 0 where
  pub some_key : K.is_none key ≡ false
  pub other_key : K.is_char key ≡ false
  pub first : ℕ
  pub others : List ℕ
  pub named : K.key_name key ≡ first ∷ others
  pub found : K.key_from_name (first ∷ others) ≡ some key
  pub not_space : same_text (first ∷ others) space_name ≡ false
  pub not_caret : caret K (first ∷ others) ≡ none
  pub not_prefixed : (m : Modifiers) → prefixes (first ∷ others) m ≡ some (m, first ∷ others)

-- What is pressed: a printable character, the space bar, or a key with a name.
pub data Press (K : KeyLib) : Type 0 where
  letter : Bool → Bool → ℕ → Press K
  space : Bool → Bool → Press K
  named : Modifiers → K.Key → Press K

-- The chord of it. On a character the case is the shift.
abbrev pub chord_of : (K : KeyLib) → Press K → KeyChord K
chord_of K (Press.letter ctrl alt c) = record {
  key = K.char_key;
  text = c ∷ [];
  modifiers = record { ctrl = ctrl; alt = alt; shift = false };
}
chord_of K (Press.space ctrl alt) = record {
  key = K.char_key;
  text = blank;
  modifiers = record { ctrl = ctrl; alt = alt; shift = false };
}
chord_of K (Press.named m key) = record { key = key; text = []; modifiers = m }

-- A character is printable, and of no case under the control key; a named key has its name.
abbrev pub IsPressable : (K : KeyLib) → Press K → Type 0
IsPressable K (Press.letter ctrl alt c) =
    (is_printable_ascii c ≡ true) × ((if ctrl then lower_ascii c else c) ≡ c)
IsPressable K (Press.space ctrl alt) = Unit
IsPressable K (Press.named m key) = IsNamed K key

-- The prefixes of the modifiers are taken off again.
prefixes-written :
    (ctrl alt shift : Bool) (name : List ℕ)
    → (let m : Modifiers = record { ctrl = ctrl; alt = alt; shift = shift } in
        prefixes name m ≡ some (m, name)
        → prefixes
            ((if ctrl then 67 ∷ 45 ∷ [] else [])
              ++ ((if alt then 65 ∷ 45 ∷ [] else [])
                  ++ ((if shift then 83 ∷ 45 ∷ [] else []) ++ name)))
            no_modifiers
          ≡ some (m, name))
unfolding prefixes
prefixes-written true true true name h = h
prefixes-written true true false name h = h
prefixes-written true false true name h = h
prefixes-written true false false name h = h
prefixes-written false true true name h = h
prefixes-written false true false name h = h
prefixes-written false false true name h = h
prefixes-written false false false name h = h

-- The case that a control character is written in is put back.
lower-upper : (c : ℕ) → lower_ascii c ≡ c → lower_ascii (upper_ascii c) ≡ c
lower-upper c h = ground arith

printable-upper : (c : ℕ) → is_printable_ascii c ≡ true → is_printable_ascii (upper_ascii c) ≡ true
printable-upper c h = ground arith

module _ (K : KeyLib) (laws : KeyLaws K) where
  -- What the prefixes leave is what is parsed.
  parse-prefixes :
      (text name : List ℕ) (m : Modifiers)
      → prefixes text no_modifiers ≡ some (m, name)
      → parse_chord K text ≡ parse_key K m name
  unfolding parse_chord
  parse-prefixes text name m e = rw (e, parse_chord) refl

  caret_key :
      (u : ℕ)
      → is_printable_ascii u ≡ true
      → parse_key K no_modifiers (94 ∷ u ∷ [])
        ≡ some (record {
          key = K.char_key;
          text = lower_ascii u ∷ [];
          modifiers = record { ctrl = true; alt = false; shift = false };
        })
  unfolding parse_key caret
  caret_key u h = rw (h, parse_key, caret) refl

  caret_plain : (u : ℕ) → prefixes (94 ∷ u ∷ []) no_modifiers ≡ some (no_modifiers, 94 ∷ u ∷ [])
  unfolding prefixes
  caret_plain u = elim (Bool-cases (u == 45)) [ inl e ↦ rw e refl | inr e ↦ rw e refl ]

  caret-reads :
      (c : ℕ)
      → is_printable_ascii c ≡ true
      → lower_ascii c ≡ c
      → parse_chord K (94 ∷ upper_ascii c ∷ [])
        ≡ some (record {
          key = K.char_key;
          text = c ∷ [];
          modifiers = record { ctrl = true; alt = false; shift = false };
        })
  caret-reads c printable low =
      parse-prefixes _ _ _ (caret_plain (upper_ascii c))
      ∙ caret_key (upper_ascii c) (printable-upper c printable)
      ∙ ap
          (λ (d : ℕ).
            let chord : KeyChord K = record {
              key = K.char_key;
              text = d ∷ [];
              modifiers = record { ctrl = true; alt = false; shift = false };
            } in
            some chord)
          (lower-upper c low)

  letter-reads :
      (m : Modifiers) (c : ℕ)
      → is_printable_ascii c ≡ true
      → m.shift ≡ false
      → (if m.ctrl then lower_ascii c else c) ≡ c
      → parse_key K m (c ∷ []) ≡ some (record { key = K.char_key; text = c ∷ []; modifiers = m })
  unfolding parse_key caret single
  letter-reads m c printable shift low = elim (Bool-cases (c == 83)) [
    | inl e ↦ rw (e, laws.no_short_name c) (rw (printable, shift) (rw low refl))
    | inr e ↦ rw (e, laws.no_short_name c) (rw (printable, shift) (rw low refl))
  ]

  named_key :
      (m : Modifiers) (key : K.Key) (h : IsNamed K key)
      → parse_key K m (h.first ∷ h.others) ≡ some (record { key = key; text = []; modifiers = m })
  unfolding parse_key
  named_key m key h = rw (h.not_caret, parse_key) (rw h.not_space (rw h.found refl))

  named_spelling :
      (m : Modifiers) (key : K.Key) (h : IsNamed K key)
      → chord_spelling K (record { key = key; text = []; modifiers = m })
        ≡ (if m.ctrl then 67 ∷ 45 ∷ [] else [])
          ++ ((if m.alt then 65 ∷ 45 ∷ [] else [])
              ++ ((if m.shift then 83 ∷ 45 ∷ [] else []) ++ (h.first ∷ h.others)))
  unfolding chord_spelling
  named_spelling m key h = rw (h.some_key, h.other_key, h.named) refl

  named-reads :
      (m : Modifiers) (key : K.Key)
      → IsNamed K key
      → parse_chord K (chord_spelling K (record { key = key; text = []; modifiers = m }))
        ≡ some (record { key = key; text = []; modifiers = m })
  named-reads m key h =
      ap (parse_chord K) (named_spelling m key h)
      ∙ parse-prefixes _ _ _
          (prefixes-written m.ctrl m.alt m.shift (h.first ∷ h.others) (h.not_prefixed m))
      ∙ named_key m key h

  not_blank : (c : ℕ) → is_printable_ascii c ≡ true → (c == 32) ≡ false
  not_blank c h = ground arith

  caret_spelling :
      (c : ℕ)
      → is_printable_ascii c ≡ true
      → chord_spelling K (chord_of K (Press.letter true false c)) ≡ 94 ∷ upper_ascii c ∷ []
  unfolding chord_spelling
  caret_spelling c h = rw (laws.char_is_some, laws.char_is_char) (rw (not_blank c h) refl)

  letter_spelling :
      (ctrl alt : Bool) (c : ℕ)
      → is_printable_ascii c ≡ true
      → (ctrl && not alt) ≡ false
      → chord_spelling K (chord_of K (Press.letter ctrl alt c))
        ≡ (if ctrl then 67 ∷ 45 ∷ [] else []) ++ ((if alt then 65 ∷ 45 ∷ [] else []) ++ (c ∷ []))
  unfolding chord_spelling
  letter_spelling true true c h other =
      rw (laws.char_is_some, laws.char_is_char) (rw (not_blank c h) refl)
  letter_spelling true false c h other = cc
  letter_spelling false true c h other =
      rw (laws.char_is_some, laws.char_is_char) (rw (not_blank c h) refl)
  letter_spelling false false c h other =
      rw (laws.char_is_some, laws.char_is_char) (rw (not_blank c h) refl)

  space_spelling :
      (ctrl alt : Bool)
      → chord_spelling K (chord_of K (Press.space ctrl alt))
        ≡ (if ctrl then 67 ∷ 45 ∷ [] else []) ++ ((if alt then 65 ∷ 45 ∷ [] else []) ++ space_name)
  unfolding chord_spelling
  space_spelling true true = rw (laws.char_is_some, laws.char_is_char) refl
  space_spelling true false = rw (laws.char_is_some, laws.char_is_char) refl
  space_spelling false true = rw (laws.char_is_some, laws.char_is_char) refl
  space_spelling false false = rw (laws.char_is_some, laws.char_is_char) refl

  single_plain : (m : Modifiers) (c : ℕ) → prefixes (c ∷ []) m ≡ some (m, c ∷ [])
  unfolding prefixes
  single_plain m c = refl

  space_plain : (m : Modifiers) → prefixes space_name m ≡ some (m, space_name)
  unfolding prefixes
  space_plain m = refl

  space_key :
      (m : Modifiers)
      → parse_key K m space_name ≡ some (record { key = K.char_key; text = blank; modifiers = m })
  unfolding parse_key caret
  space_key m = refl

  letter_written-reads :
      (ctrl alt : Bool) (c : ℕ)
      → is_printable_ascii c ≡ true
      → (if ctrl then lower_ascii c else c) ≡ c
      → (ctrl && not alt) ≡ false
      → parse_chord K (chord_spelling K (chord_of K (Press.letter ctrl alt c)))
        ≡ some (chord_of K (Press.letter ctrl alt c))
  letter_written-reads ctrl alt c printable low other =
      let m : Modifiers = record { ctrl = ctrl; alt = alt; shift = false } in
      ap (parse_chord K) (letter_spelling ctrl alt c printable other)
      ∙ parse-prefixes _ _ _ (prefixes-written ctrl alt false (c ∷ []) (single_plain m c))
      ∙ letter-reads m c printable refl low

  -- The spelling of a chord that can be pressed, a printable ASCII character, the space bar without
  -- shift, or a key with a name, with its modifiers, is read as that chord.
  pub parse_chord-chord_spelling :
      (press : Press K)
      → IsPressable K press
      → parse_chord K (chord_spelling K (chord_of K press)) ≡ some (chord_of K press)
  parse_chord-chord_spelling (Press.letter true false c) (printable, low) =
      ap (parse_chord K) (caret_spelling c printable) ∙ caret-reads c printable low
  parse_chord-chord_spelling (Press.letter true true c) (printable, low) =
      letter_written-reads true true c printable low refl
  parse_chord-chord_spelling (Press.letter false true c) (printable, low) =
      letter_written-reads false true c printable low refl
  parse_chord-chord_spelling (Press.letter false false c) (printable, low) =
      letter_written-reads false false c printable low refl
  parse_chord-chord_spelling (Press.space ctrl alt) h =
      let m : Modifiers = record { ctrl = ctrl; alt = alt; shift = false } in
      ap (parse_chord K) (space_spelling ctrl alt)
      ∙ parse-prefixes _ _ _ (prefixes-written ctrl alt false space_name (space_plain m))
      ∙ space_key m
  parse_chord-chord_spelling (Press.named m key) h = named-reads m key h

  -- The exception: the space bar with the shift key is parsed as a chord of its own, but its spelling
  -- is that of the space bar without, with any other modifiers, and is read as the chord without.
  pub parse_chord-shifted_space :
      (ctrl alt : Bool)
      → (let prefix : List ℕ =
            (if ctrl then 67 ∷ 45 ∷ [] else []) ++ (if alt then 65 ∷ 45 ∷ [] else []) in
          let chord : KeyChord K = record {
            key = K.char_key;
            text = blank;
            modifiers = record { ctrl = ctrl; alt = alt; shift = true };
          } in
          (parse_chord K (prefix ++ (83 ∷ 45 ∷ space_name)) ≡ some chord)
          × (chord_spelling K chord ≡ prefix ++ space_name)
          × (parse_chord K (chord_spelling K chord) ≡ some (chord_of K (Press.space ctrl alt))))
  unfolding parse_chord prefixes parse_key caret chord_spelling
  parse_chord-shifted_space true true = rw (laws.char_is_some, laws.char_is_char) (refl, refl, refl)
  parse_chord-shifted_space true false =
      rw (laws.char_is_some, laws.char_is_char) (refl, refl, refl)
  parse_chord-shifted_space false true =
      rw (laws.char_is_some, laws.char_is_char) (refl, refl, refl)
  parse_chord-shifted_space false false =
      rw (laws.char_is_some, laws.char_is_char) (refl, refl, refl)
