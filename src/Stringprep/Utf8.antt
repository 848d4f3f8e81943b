-- ===== src/Stringprep/Utf8.antt =====
-- The UTF-8 decoder of exmpp_stringprep_control, and the encoder ADD_UCHAR with its buffer.
-- A mask of low bits is `%`, a shift `/` or `*`, and an `|` of separate bits `+`.
pub mod RoundTrip
pub mod Buffer
use hz_platform.Prelude.{
  ℕ, zero, suc, ◌+◌, ◌-◌, ◌*◌, ◌/◌, ◌%◌, ◌^◌, Bool, true, false, ◌&&◌, List, [], ◌∷◌, ◌++◌, Option,
  none, some, ltb, leb, ◌==◌, if◌then◌else◌, length,
}

-- `(b & 0xC0) == 0x80`, for a byte.
abbrev pub is_tail : ℕ → Bool
is_tail b = b / 64 == 2

-- The bytes behind the first one, as far as the decoder looks: the code point and how many of them
-- it takes, or `none` for `bad`.
unfoldable pub two_bytes : ℕ → List ℕ → Option (ℕ × ℕ)
two_bytes c (b₁ ∷ _) = if is_tail b₁ then some (c % 32 * 64 + b₁ % 64, 1) else none
two_bytes c [] = none

unfoldable pub three_bytes : ℕ → List ℕ → Option (ℕ × ℕ)
three_bytes c (b₁ ∷ b₂ ∷ _) =
    if is_tail b₁ && is_tail b₂ then some (c % 16 * 4096 + b₁ % 64 * 64 + b₂ % 64, 2) else none
three_bytes c _ = none

unfoldable pub four_bytes : ℕ → List ℕ → Option (ℕ × ℕ)
four_bytes c (b₁ ∷ b₂ ∷ b₃ ∷ _) =
    if is_tail b₁ && is_tail b₂ && is_tail b₃
    then (let uc = c % 8 * 262144 + b₁ % 64 * 4096 + b₂ % 64 * 64 + b₃ % 64 in
        if ltb 0x10FFFF uc then none else some (uc, 3))
    else none
four_bytes c _ = none

-- One round of the loop, at the byte `c`.
unfoldable pub next_char : ℕ → List ℕ → Option (ℕ × ℕ)
next_char c bs =
    if ltb c 0x80
    then some (c, 0)
    else (if ltb c 0xC0
        then none
        else (if ltb c 0xE0
            then two_bytes c bs
            else (if ltb c 0xF0
                then three_bytes c bs
                else (if ltb c 0xF8 then four_bytes c bs else none))))

infixl 5 ◌>>=◌
abbrev pub ◌>>=◌ {ℓ κ} : {A : Type ℓ} {B : Type κ} → Option A → (A → Option B) → Option B
none >>= f = none
some a >>= f = f a

-- The loop, `i` being the front of the list; the first argument counts the bytes that `i` still
-- skips. Each code point is passed to `use`, which gives what is appended to str32.
unfoldable pub decode : (ℕ → List ℕ) → ℕ → List ℕ → Option (List ℕ)
decode use_char skip [] = some []
decode use_char (suc skip) (c ∷ bs) = decode use_char skip bs
decode use_char zero (c ∷ bs) = do
  (uc, taken) ← next_char c bs
  out ← decode use_char taken bs
  some (use_char uc ++ out)

-- The bytes that ADD_UCHAR writes for an `int`, of which from 2^31 on are the negative ones: such an
-- `int` passes the first test.
unfoldable pub encode_char : ℕ → List ℕ
encode_char ruc =
    if leb ruc 0x7F
    then ruc ∷ []
    else (if leb ruc 0x7FF
        then (ruc / 64 + 0xC0) ∷ (ruc % 64 + 0x80) ∷ []
        else (if leb ruc 0xFFFF
            then (ruc / 4096 + 0xE0) ∷ (ruc / 64 % 64 + 0x80) ∷ (ruc % 64 + 0x80) ∷ []
            else (if leb ruc 0x1FFFFF
                then (ruc / 262144 + 0xF0)
                  ∷ (ruc / 4096 % 64 + 0x80)
                  ∷ (ruc / 64 % 64 + 0x80)
                  ∷ (ruc % 64 + 0x80)
                  ∷ []
                else (if leb (2 ^ 31) ruc then ruc % 256 ∷ [] else []))))

unfoldable pub encode : List ℕ → List ℕ
encode [] = []
encode (c ∷ cs) = encode_char c ++ encode cs
