-- ===== src/Proto/Wire.antt =====
-- The states of the `Writer` and the `Reader` of src/common/proto.cpp, and how their methods are put
-- in sequence. A byte is a number below 256 and a string a list of bytes. The reader's `bytes_` and
-- `position_` are the one list `rest` of what is not read yet.
use ckmux.Prelude.{ℕ, Bool, true, List}

pub record Writer : Type 0 where
  pub out : List ℕ
  pub ok : Bool

-- A method of the writer.
abbrev pub Put : Type 0
Put = Writer → Writer

infixr 6 ◌▸◌
unfoldable pub ◌▸◌ : Put → Put → Put
◌▸◌ p q w = q (p w)

-- A body that writes nothing.
unfoldable pub nothing : Put
nothing w = w

pub record Reader : Type 0 where
  pub rest : List ℕ
  pub ok : Bool

-- A method of the reader, with what it returns.
abbrev pub Get : Type 0 → Type 0
Get A = Reader → A × Reader

infixl 5 ◌>>=◌ ◌>>◌
unfoldable pub ◌>>=◌ : {A B : Type 0} → Get A → (A → Get B) → Get B
◌>>=◌ g f r = let (a, r') = g r in f a r'

abbrev pub ◌>>◌ : {A B : Type 0} → Get A → Get B → Get B
g >> h = g >>= λ _. h

unfoldable pub pure : {A : Type 0} → A → Get A
pure a r = (a, r)

-- A reader that has not failed, before `rest`.
abbrev pub ready : List ℕ → Reader
ready rest = record { rest = rest; ok = true }
