-- ===== src/Stringprep/Utf8/Buffer.antt =====
-- The buffers that ADD_UCHAR and ADD_UCHAR32 write to and enlarge. An allocation succeeds.
use hz_platform.Prelude.{
  ℕ, ◌+◌, ◌-◌, ◌*◌, ◌≤◌, ◌≡◌, refl, sym, ap, ◌∙◌, true, List, [], ◌∷◌, ◌++◌, leb, ◌==◌,
  if◌then◌else◌, length, length-append, append-nil, arith, on_both,
}
use hz_platform.Run.{Run, ok, fault, heap_overflow, Returns}
use hz_platform.Stringprep.Utf8.{encode_char}

-- What has been written, `pos` being its length, and the number of elements allocated.
pub record Buffer : Type 0 where
  pub written : List ℕ
  pub size : ℕ

-- `if (pos + k - 1 >= size) size = 2 * size + k;` with the reallocation, for the k elements to come.
unfoldable pub reserve : ℕ → Buffer → Buffer
reserve k b =
    if leb b.size (length b.written + (k - 1)) then record b { size = 2 * b.size + k } else b

-- Stores to `rstring[pos]` and on, which must lie within the allocation.
unfoldable pub write : List ℕ → Buffer → Run Buffer
write items b =
    if leb (length b.written + length items) b.size
    then ok (record b { written = b.written ++ items })
    else fault heap_overflow

unfoldable pub add_uchar : ℕ → Buffer → Run Buffer
add_uchar ruc b =
    let bytes = encode_char ruc in
    if length bytes == 0 then ok b else write bytes (reserve (length bytes) b)

unfoldable pub add_uchar32 : ℕ → Buffer → Run Buffer
add_uchar32 ch b = write (ch ∷ []) (reserve 1 b)

abbrev pub Fits : Buffer → Type 0
Fits b = length b.written ≤ b.size

abbrev pub Appends : List ℕ → Buffer → Buffer → Type 0
Appends items b b' = (b'.written ≡ b.written ++ items) × Fits b'

reserve_room :
    (k : ℕ) (b : Buffer)
    → Fits b
    → (length b.written + k ≤ (reserve k b).size) × ((reserve k b).written ≡ b.written)
unfolding reserve
reserve_room k b h = ground arith

le→leb : (a b : ℕ) → a ≤ b → leb a b ≡ true
le→leb a b h = ground arith

no_items : (l : List ℕ) → (length l == 0) ≡ true → l ≡ []
no_items [] h = refl
no_items (x ∷ l) h = absurd (ground arith)

write_fits :
    (items : List ℕ) (b : Buffer)
    → length b.written + length items ≤ b.size
    → Returns (write items b) (Appends items b)
unfolding write
write_fits items b h = (
  record b { written = b.written ++ items },
  rw (le→leb (length b.written + length items) b.size h),
  (refl, omega (arith, length-append b.written items)),
)

-- Enlarged for k elements, the buffer takes k elements: the write stays within the allocation.
reserve-write :
    (items : List ℕ) (b : Buffer)
    → Fits b
    → Returns (write items (reserve (length items) b)) (Appends items b)
reserve-write items b h =
    let (room, same) = reserve_room (length items) b h in
    let (b', run, (appended, fits)) = write_fits items (reserve (length items) b) (rw same room) in
    (b', run, (appended ∙ ap (λ w. w ++ items) same, fits))

-- In a buffer that holds no more than its allocation, ADD_UCHAR appends the UTF-8 of the character,
-- never writes behind the allocation, which it enlarges first, and leaves such a buffer.
pub add_uchar-Fits :
    (ruc : ℕ) (b : Buffer) → Fits b → Returns (add_uchar ruc b) (Appends (encode_char ruc) b)
unfolding add_uchar
add_uchar-Fits ruc b h =
    on_both (λ r. Returns r (Appends (encode_char ruc) b)) (length (encode_char ruc) == 0)
      (λ none. (
        b,
        refl,
        (
          sym (ap (λ e. b.written ++ e) (no_items (encode_char ruc) none) ∙ append-nil b.written),
          h,
        ),
      ))
      (λ _. reserve-write (encode_char ruc) b h)

pub add_uchar32-Fits :
    (ch : ℕ) (b : Buffer) → Fits b → Returns (add_uchar32 ch b) (Appends (ch ∷ []) b)
unfolding add_uchar32
add_uchar32-Fits ch b h = reserve-write (ch ∷ []) b h
