-- ===== src/Base/Ascii.antt =====
-- The string literals of the source as texts.
use Prim.Native.Char.{code}
use Prim.Native.String.{String, [], ◌∷◌}
use mathlib.Core.List.{[] as []ᴸ, ◌∷◌ as ◌∷ᴸ◌}
use bitfs.Base.Text.{Text}

-- The bytes of a text in ASCII.
unfoldable pub codes : String → Text
codes [] = []ᴸ
codes (c ∷ s) = code c ∷ᴸ codes s
