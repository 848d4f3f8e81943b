-- ===== src/Text.antt =====
-- Texts of the source as lists of bytes.
use Prim.Native.Char.{code}
use Prim.Native.String.{String}
use hz_platform.Prelude.{ℕ, List, [], ◌∷◌, Bool, true, false, ◌==◌, ◌&&◌, if◌then◌else◌}

-- The bytes of an ASCII text.
abbrev pub codes : String → List ℕ
codes String.[] = []
codes (String.◌∷◌ c s) = code c ∷ codes s

-- `strcmp(a, b) == 0`
abbrev pub str_eq : List ℕ → List ℕ → Bool
str_eq [] [] = true
str_eq (a ∷ as') (b ∷ bs) = a == b && str_eq as' bs
str_eq _ _ = false

-- A text that is passed with a length: `terminated` when that is -1, and then without a 0 in it.
pub record Text : Type 0 where
  pub bytes : List ℕ
  pub terminated : Bool

abbrev pub counted : List ℕ → Text
counted s = record { bytes = s; terminated = false }

abbrev pub c_string : List ℕ → Text
c_string s = record { bytes = s; terminated = true }

-- What the C string functions read: the bytes in front of the first 0.
abbrev pub up_to_nul : List ℕ → List ℕ
up_to_nul [] = []
up_to_nul (b ∷ bs) = if b == 0 then [] else b ∷ up_to_nul bs
