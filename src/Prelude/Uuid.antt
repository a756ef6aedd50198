-- ===== src/Prelude/Uuid.antt =====
-- `str(uuid)`: a UUID is its number below 2 ^ 128.
pub mod Laws
pub mod Read
use Prim.Native.Nat.{ℕ, zero, suc, ◌+◌, ◌/◌, ◌%◌, ◌^◌}
use mathlib.Core.List.{[], ◌∷◌, ◌++◌}
use rag_document_processor.Prelude.Tests.{ltb, if◌then◌else◌}
use rag_document_processor.Prelude.Text.{Text}

-- The number of UUIDs
abbrev pub uuid_count : ℕ
uuid_count = 16 ^ 32

-- The last `width` hexadecimal digits of a number
unfoldable pub hex_digits : ℕ → ℕ → Text
hex_digits zero n = []
hex_digits (suc width) n =
    let d = n % 16 in hex_digits width (n / 16) ++ (if ltb d 10 then d + 48 else d + 87) ∷ []

unfoldable pub uuid_text : ℕ → Text
unfolding hex_digits
uuid_text id =
    hex_digits 8 (id / 16 ^ 24)
    ++ 45
      ∷ (hex_digits 4 (id / 16 ^ 20)
          ++ 45
            ∷ (hex_digits 4 (id / 16 ^ 16)
                ++ 45 ∷ (hex_digits 4 (id / 16 ^ 12) ++ 45 ∷ hex_digits 12 id)))
