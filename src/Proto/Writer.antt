-- ===== src/Proto/Writer.antt =====
-- The methods of the sticky-failing `Writer` of src/common/proto.cpp, over numbers and strings.
use ckmux.Prelude.{ℕ, ◌/◌, ◌%◌, ◌^◌, false, List, [], ◌∷◌, ◌++◌, length, ltb, if◌then◌else◌}
use ckmux.Prelude.Int.{ℤ, to_word}
use ckmux.Proto.Wire.{Put, ◌▸◌, nothing}

unfoldable pub fail : Put
fail w = record w { ok = false }

unfoldable pub u8 : ℕ → Put
u8 value w = record w { out = w.out ++ value % 256 ∷ [] }

unfoldable pub u16 : ℕ → Put
u16 value = u8 (value % 256) ▸ u8 (value / 2 ^ 8 % 256)

unfoldable pub u32 : ℕ → Put
u32 value = u16 (value % 2 ^ 16) ▸ u16 (value / 2 ^ 16 % 2 ^ 16)

unfoldable pub u64 : ℕ → Put
u64 value = u32 (value % 2 ^ 32) ▸ u32 (value / 2 ^ 32 % 2 ^ 32)

unfoldable pub i16 : ℤ → Put
i16 value = u16 (to_word (2 ^ 15) value)

unfoldable pub i32 : ℤ → Put
i32 value = u32 (to_word (2 ^ 31) value)

unfoldable pub i64 : ℤ → Put
i64 value = u64 (to_word (2 ^ 63) value)

-- out_.append(text)
unfoldable pub append : List ℕ → Put
append text w = record w { out = w.out ++ text }

unfoldable pub str : List ℕ → Put
str text = if ltb 0xffff (length text) then fail else (u16 (length text % 2 ^ 16) ▸ append text)

unfoldable pub blob : List ℕ → Put
blob bytes =
    if ltb 0xffff_ffff (length bytes) then fail else (u32 (length bytes % 2 ^ 32) ▸ append bytes)

-- `for (const auto& entry : entries) put(entry);`
unfoldable pub each : {A : Type 0} → (A → Put) → List A → Put
each put [] = nothing
each put (x ∷ xs) = put x ▸ each put xs

-- A count as `u32`, then the entries.
unfoldable pub counted : {A : Type 0} → (A → Put) → List A → Put
counted put xs = u32 (length xs % 2 ^ 32) ▸ each put xs
