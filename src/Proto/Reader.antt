-- ===== src/Proto/Reader.antt =====
-- The methods of the sticky-failing `Reader` of src/common/proto.cpp, over numbers and strings.
pub mod Counts
use ckmux.Prelude.{
  ℕ, zero, suc, ◌+◌, ◌*◌, ◌/◌, ◌^◌, Bool, true, false, ◌||◌, not, List, [], ◌∷◌, length, head_or,
  ltb, ◌==◌, if◌then◌else◌,
}
use ckmux.Prelude.Lists
use ckmux.Prelude.Int.{ℤ, of_word}
use ckmux.Proto.Wire.{Reader, Get, ◌>>=◌, pure}

-- ok_ ? bytes_.size() - position_ : 0
unfoldable pub remaining : Reader → ℕ
remaining r = if r.ok then length r.rest else 0

unfoldable pub exhausted : Reader → Bool
unfolding remaining
exhausted r = remaining r == 0

unfoldable pub fail : Get Unit
fail r = (tt, record r { ok = false })

-- `if (test) fail();`
unfoldable pub fail_if : Bool → Get Unit
fail_if test r = (tt, record r { ok = if test then false else r.ok })

unfoldable pub take : ℕ → Get Bool
take bytes r =
    if not r.ok || ltb (length r.rest) bytes
    then (false, record r { ok = false })
    else (true, record r { rest = Lists.drop bytes r.rest })

unfoldable pub bytes_of : ℕ → Get (List ℕ)
unfolding take
bytes_of count r = let (got, r') = take count r in (if got then Lists.take count r.rest else [], r')

unfoldable pub u8 : Get ℕ
unfolding take
u8 r = let (got, r') = take 1 r in (if got then head_or 0 r.rest else 0, r')

unfoldable pub u16 : Get ℕ
u16 = do low ← u8; high ← u8; pure (low + high * 2 ^ 8)

unfoldable pub u32 : Get ℕ
u32 = do low ← u16; high ← u16; pure (low + high * 2 ^ 16)

unfoldable pub u64 : Get ℕ
u64 = do low ← u32; high ← u32; pure (low + high * 2 ^ 32)

unfoldable pub i16 : Get ℤ
i16 = do value ← u16; pure (of_word (2 ^ 15) value)

unfoldable pub i32 : Get ℤ
i32 = do value ← u32; pure (of_word (2 ^ 31) value)

unfoldable pub i64 : Get ℤ
i64 = do value ← u64; pure (of_word (2 ^ 63) value)

unfoldable pub str : Get (List ℕ)
str = do count ← u16; bytes_of count

-- The limit is tested before anything is taken.
unfoldable pub blob_body : ℕ → ℕ → Get (List ℕ)
blob_body limit count r =
    if ltb limit count then ([], record r { ok = false }) else bytes_of count r

unfoldable pub blob : ℕ → Get (List ℕ)
blob limit = do count ← u32; blob_body limit count

unfoldable pub count_body : ℕ → ℕ → Get ℕ
unfolding remaining
count_body entry_bytes value r =
    if not r.ok || entry_bytes == 0 || ltb (remaining r / entry_bytes) value
    then (0, record r { ok = false })
    else (value, r)

unfoldable pub count : ℕ → Get ℕ
count entry_bytes = do value ← u32; count_body entry_bytes value

-- `for (i = 0; i < entries && r.ok(); ++i) { auto e = get(); if (r.ok()) push_back(e); }`
unfoldable pub repeat : {A : Type 0} → ℕ → Get A → Get (List A)
repeat zero get r = ([], r)
repeat (suc n) get r =
    let (x, r') = get r in
    let (xs, r'') = repeat n get r' in
    if r.ok then (if r'.ok then (x ∷ xs, r'') else (xs, r'')) else ([], r)

-- The same loop, where the body pushes what it read without asking.
unfoldable pub repeat_all : {A : Type 0} → ℕ → Get A → Get (List A)
repeat_all zero get r = ([], r)
repeat_all (suc n) get r =
    let (x, r') = get r in
    let (xs, r'') = repeat_all n get r' in if r.ok then (x ∷ xs, r'') else ([], r)

-- A value past the enum's last one fails; `of_code` is the `static_cast`.
unfoldable pub enum_of : {E : Type 0} → (ℕ → E) → ℕ → ℕ → Get E
enum_of of_code highest value r =
    if ltb highest value then (of_code 0, record r { ok = false }) else (of_code value, r)

-- r.enum_of<E>(r.u8(), highest)
unfoldable pub enum_u8 : {E : Type 0} → (ℕ → E) → ℕ → Get E
enum_u8 of_code highest = do value ← u8; enum_of of_code highest value
