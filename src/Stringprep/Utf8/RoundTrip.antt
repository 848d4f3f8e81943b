-- ===== src/Stringprep/Utf8/RoundTrip.antt =====
-- The decoder reads back what the encoder writes.
use hz_platform.Prelude.{
  ℕ, zero, suc, ◌+◌, ◌/◌, ◌%◌, ◌<◌, ◌≤◌, ◌≡◌, refl, ap, ◌∙◌, List, [], ◌∷◌, ◌++◌, Option, none,
  some, leb, arith, leb→le, on_both,
}
use mathlib.Core.Path.{subst}
use hz_platform.Stringprep.Utf8.{
  decode, encode, encode_char, next_char, two_bytes, three_bytes, four_bytes, ◌>>=◌,
}

abbrev pub IsUnicode : ℕ → Type 0
IsUnicode c = c ≤ 0x10FFFF

abbrev pub AllUnicode : List ℕ → Type 0
AllUnicode [] = Unit
AllUnicode (c ∷ cs) = IsUnicode c × AllUnicode cs

module _ (f : ℕ → List ℕ) (rest : List ℕ) where
  abbrev Reads : ℕ → List ℕ → Type 0
  Reads c bytes = decode f 0 (bytes ++ rest) ≡ (decode f 0 rest >>= λ out. some (f c ++ out))

  read_two : (c : ℕ) → 0x80 ≤ c → c ≤ 0x7FF → Reads c ((c / 64 + 0xC0) ∷ (c % 64 + 0x80) ∷ [])
  unfolding decode next_char two_bytes
  read_two c lo hi = ground arith

  read_three :
      (c : ℕ)
      → 0x800 ≤ c
      → c ≤ 0xFFFF
      → Reads c ((c / 4096 + 0xE0) ∷ (c / 64 % 64 + 0x80) ∷ (c % 64 + 0x80) ∷ [])
  unfolding decode next_char three_bytes
  read_three c lo hi = ground arith

  read_four :
      (c : ℕ)
      → 0x10000 ≤ c
      → IsUnicode c
      → Reads c (
          (c / 262144 + 0xF0)
          ∷ (c / 4096 % 64 + 0x80)
          ∷ (c / 64 % 64 + 0x80)
          ∷ (c % 64 + 0x80)
          ∷ [])
  unfolding decode next_char four_bytes
  read_four c lo hi = ground arith

  read_one : (c : ℕ) → c ≤ 0x7F → Reads c (c ∷ [])
  unfolding decode next_char
  read_one c hi = ground arith

  read_char : (c : ℕ) → IsUnicode c → Reads c (encode_char c)
  unfolding encode_char
  read_char c h =
      on_both (Reads c) (leb c 0x7F) (λ a. read_one c (leb→le c 0x7F a))
        λ a.
          on_both (Reads c) (leb c 0x7FF) (λ b. read_two c (ground arith) (leb→le c 0x7FF b))
            λ b.
              on_both (Reads c) (leb c 0xFFFF)
                (λ d. read_three c (ground arith) (leb→le c 0xFFFF d))
                λ d.
                  on_both (Reads c) (leb c 0x1FFFFF) (λ _. read_four c (ground arith) h)
                    (λ e. absurd (ground arith))

-- What is appended for a sequence of code points.
abbrev pub spread : (ℕ → List ℕ) → List ℕ → List ℕ
spread f [] = []
spread f (c ∷ cs) = f c ++ spread f cs

-- The decoder accepts the encoding of every sequence of numbers up to 0x10FFFF, and hands on just these, in
-- their order.
pub decode-encode :
    (f : ℕ → List ℕ) (cs : List ℕ) → AllUnicode cs → decode f 0 (encode cs) ≡ some (spread f cs)
unfolding encode decode
decode-encode f [] h = refl
decode-encode f (c ∷ cs) h =
    read_char f (encode cs) c h.0
    ∙ ap (λ r. r >>= λ out. some (f c ++ out)) (decode-encode f cs h.1)

-- Whatever the decoder accepts is within Unicode.
pub next_char-IsUnicode :
    (c : ℕ) (bs : List ℕ) (uc n : ℕ) → next_char c bs ≡ some (uc, n) → IsUnicode uc
unfolding next_char two_bytes three_bytes four_bytes
next_char-IsUnicode c [] uc n h = ground arith
next_char-IsUnicode c (b₁ ∷ []) uc n h = ground arith
next_char-IsUnicode c (b₁ ∷ b₂ ∷ []) uc n h = ground arith
next_char-IsUnicode c (b₁ ∷ b₂ ∷ b₃ ∷ bs) uc n h = ground arith

bind-eq-some :
    {A B : Type 0} (m : Option A) (f : A → Option B) {b : B}
    → (m >>= f) ≡ some b
    → (a : A) × (m ≡ some a) × (f a ≡ some b)
bind-eq-some none f h = cc
bind-eq-some (some a) f h = (a, refl, h)

-- Every number that the decoder hands on, from any position, is at most 0x10FFFF.
pub decode-AllUnicode :
    (skip : ℕ) (bs out : List ℕ) → decode (λ c. c ∷ []) skip bs ≡ some out → AllUnicode out
unfolding decode
decode-AllUnicode skip [] [] h = tt
decode-AllUnicode skip [] (c ∷ out) h = absurd (ground arith)
decode-AllUnicode (suc skip) (c ∷ bs) out h = decode-AllUnicode skip bs out h
decode-AllUnicode zero (c ∷ bs) out h =
    let ((uc, taken), first, h₁) = bind-eq-some (next_char c bs) _ h in
    let (rest, others, h₂) = bind-eq-some (decode (λ c. c ∷ []) taken bs) _ h₁ in
    let e : uc ∷ rest ≡ out = cc in
    subst AllUnicode e
      (next_char-IsUnicode c bs uc taken first, decode-AllUnicode taken bs rest others)

-- The decoder does not insist on the shortest form: an ASCII character is also read from two bytes.
pub decode_overlong :
    (f : ℕ → List ℕ) (c : ℕ) (rest : List ℕ)
    → c < 0x80
    → decode f 0 ((c / 64 + 0xC0) ∷ (c % 64 + 0x80) ∷ rest) ≡ decode f 0 (c ∷ rest)
unfolding decode next_char two_bytes
decode_overlong f c rest h = ground arith
