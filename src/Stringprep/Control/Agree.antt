-- ===== src/Stringprep/Control/Agree.antt =====
-- The driver on two sets of tables that agree for the characters of Unicode.
use hz_platform.Prelude.{
  ℕ, zero, suc, ◌+◌, ◌≤◌, ◌≡◌, refl, ap, ◌∙◌, Bool, ◌&&◌, ◌||◌, List, [], ◌∷◌, ◌++◌, Option, none,
  some, ltb, leb, ◌==◌, not, if◌then◌else◌, length, arith, Bool-cases, Option-cases, inl, inr,
}
use mathlib.Core.Path.{subst}
use mathlib.Core.List.{reverse, reverse-append}
use hz_platform.Run.{Run, ok, fault, ◌>>=◌}
use hz_platform.Stringprep.Utf8.{decode, next_char}
use hz_platform.Stringprep.Utf8
use hz_platform.Stringprep.Utf8.Buffer.{Buffer, add_uchar}
use hz_platform.Stringprep.Utf8.RoundTrip.{IsUnicode, AllUnicode, next_char-IsUnicode}
use hz_platform.Stringprep.Tables.{Tables, has_bit, get_uni_char_info, get_uni_char_cclass}
use hz_platform.Stringprep.Order.{sink, order_loop, canonical_ordering}
use hz_platform.Stringprep.Compose.{compose, compose_loop, compose_all}
use hz_platform.Stringprep.Control.Refines.{fill-Fits}
use hz_platform.Stringprep.Control.{
  has_any, Command, map_char, Scan, scan, finish, answer, after_decode, convert, control,
  port_revision, lowercase, nameprep, nodeprep, resourceprep, unknown, head_or, conclude, prohibit,
  tolower,
}

pub AllUnicode-append : (xs ys : List ℕ) → AllUnicode xs → AllUnicode ys → AllUnicode (xs ++ ys)
AllUnicode-append [] ys hx hy = hy
AllUnicode-append (x ∷ xs) ys hx hy = (hx.0, AllUnicode-append xs ys hx.1 hy)

AllUnicode-reverse : (xs : List ℕ) → AllUnicode xs → AllUnicode (reverse xs)
AllUnicode-reverse [] h = tt
AllUnicode-reverse (x ∷ xs) h =
    rw (reverse-append (x ∷ []) xs)
      (AllUnicode-append (reverse xs) (x ∷ []) (AllUnicode-reverse xs h.1) (h.0, tt))

-- For characters of Unicode the tables say the same, and lead to such characters only.
pub record Agrees (t u : Tables) : Type 0 where
  pub info : (c : ℕ) → IsUnicode c → get_uni_char_info t c ≡ get_uni_char_info u c
  pub cclass : (c : ℕ) → IsUnicode c → get_uni_char_cclass t c ≡ get_uni_char_cclass u c
  pub mapped : (lower : Bool) (c : ℕ) → IsUnicode c → map_char t lower c ≡ map_char u lower c
  pub mapped_within : (lower : Bool) (c : ℕ) → IsUnicode c → AllUnicode (map_char t lower c)
  pub composed : (c d : ℕ) → IsUnicode c → IsUnicode d → compose t c d ≡ compose u c d
  pub composed_within : (c d : ℕ) → IsUnicode c → IsUnicode d → IsUnicode (compose t c d)

abbrev pub Decoded : Option (List ℕ) → Option (List ℕ) → Type 0
Decoded none d = none ≡ d
Decoded (some out) d = AllUnicode out × (some out ≡ d)

module _ (cclass dclass : ℕ → ℕ) (same : (c : ℕ) → IsUnicode c → cclass c ≡ dclass c) where
  sink-Agrees :
      (x : ℕ) (ys : List ℕ)
      → IsUnicode x
      → AllUnicode ys
      → (sink cclass x ys ≡ sink dclass x ys) × AllUnicode (sink cclass x ys)
  unfolding sink
  sink-Agrees x [] hx h = (refl, (hx, tt))
  sink-Agrees x (y ∷ ys) hx h =
      let (e, within) = sink-Agrees x ys hx h.1 in
      elim (Bool-cases (leb (dclass y) (dclass x))) [
        | inl low ↦ rw (same x hx, same y h.0, low) (refl, (hx, h))
        | inr high ↦ rw (same x hx, same y h.0, high) (ap (λ l. y ∷ l) e, (h.0, within))
      ]

  order_loop-Agrees :
      (done : List ℕ) (last : ℕ) (xs : List ℕ)
      → AllUnicode done
      → AllUnicode xs
      → (order_loop cclass done last xs ≡ order_loop dclass done last xs)
        × AllUnicode (order_loop cclass done last xs)
  unfolding order_loop
  order_loop-Agrees done last [] hd h = (refl, hd)
  order_loop-Agrees done last (x ∷ xs) hd h =
      let (e, within) = sink-Agrees x done h.0 hd in
      elim (Bool-cases (not (dclass x == 0) && ltb (dclass x) last)) [
        | inl out ↦
            rw (same x h.0, out, ← e) (order_loop-Agrees (sink cclass x done) last xs within h.1)
        | inr keep ↦
            rw (same x h.0, keep) (order_loop-Agrees (x ∷ done) (dclass x) xs (h.0, hd) h.1)
      ]

  pub canonical_ordering-Agrees :
      (xs : List ℕ)
      → AllUnicode xs
      → (canonical_ordering cclass xs ≡ canonical_ordering dclass xs)
        × AllUnicode (canonical_ordering cclass xs)
  unfolding canonical_ordering
  canonical_ordering-Agrees [] h = (refl, tt)
  canonical_ordering-Agrees (x ∷ xs) h =
      let (e, within) = order_loop-Agrees (x ∷ []) (dclass x) xs (h.0, tt) h.1 in
      rw (same x h.0) (ap reverse e, AllUnicode-reverse _ within)

appended :
    (f g : ℕ → List ℕ) (uc : ℕ)
    → f uc ≡ g uc
    → AllUnicode (f uc)
    → (r d : Option (List ℕ)) → Decoded r d
    → Decoded (Utf8.◌>>=◌ r (λ out. some (f uc ++ out))) (Utf8.◌>>=◌ d (λ out. some (g uc ++ out)))
appended f g uc e within none d h = ap (λ o. Utf8.◌>>=◌ o (λ out. some (g uc ++ out))) h
appended f g uc e within (some out) d h = (
  AllUnicode-append (f uc) out within h.0,
  ap (λ l. some (l ++ out)) e ∙ ap (λ o. Utf8.◌>>=◌ o (λ l. some (g uc ++ l))) h.1,
)

pub decode-Agrees :
    (f g : ℕ → List ℕ)
    → ((c : ℕ) → IsUnicode c → (f c ≡ g c) × AllUnicode (f c))
    → (skip : ℕ) (bs : List ℕ) → Decoded (decode f skip bs) (decode g skip bs)
unfolding decode
decode-Agrees f g same skip [] = (tt, refl)
decode-Agrees f g same (suc skip) (c ∷ bs) = decode-Agrees f g same skip bs
decode-Agrees f g same zero (c ∷ bs) = elim (Option-cases (next_char c bs)) [
  | inl bad ↦ rw bad refl
  | inr ((uc, taken), good) ↦
      let (e, within) = same uc (next_char-IsUnicode c bs uc taken good) in
      rw good (appended f g uc e within _ _ (decode-Agrees f g same taken bs))
]

bind_same :
    {A B : Type 0} (m : Run A) (f g : A → Run B) → ((a : A) → f a ≡ g a) → (m >>= f) ≡ (m >>= g)
bind_same (ok a) f g h = h a
bind_same (fault r) f g h = refl

module _ (t u : Tables) (agrees : Agrees t u) where
  compose_loop-Agrees :
      (done : List ℕ) (ch1 : ℕ) (behind : List ℕ) (prev : ℕ) (rest : List ℕ)
      → AllUnicode done
      → IsUnicode ch1
      → AllUnicode behind
      → AllUnicode rest
      → (compose_loop t done ch1 behind prev rest ≡ compose_loop u done ch1 behind prev rest)
        × AllUnicode (compose_loop t done ch1 behind prev rest)
  unfolding compose_loop
  compose_loop-Agrees done ch1 behind prev [] hd h1 hb hr =
      (refl, AllUnicode-append done (ch1 ∷ behind) hd (h1, hb))
  compose_loop-Agrees done ch1 behind prev (ch2 ∷ rest) hd h1 hb hr =
      let c = get_uni_char_cclass u ch2 in
      let ruc = compose u ch1 ch2 in
      let within = agrees.composed_within ch1 ch2 h1 hr.0 in
      rw (agrees.cclass ch2 hr.0, agrees.composed ch1 ch2 h1 hr.0)
        (elim (Bool-cases ((prev == 0 || ltb prev c) && not (ruc == 0))) [
          | inl joins ↦
              let in_u : IsUnicode ruc = subst IsUnicode (agrees.composed ch1 ch2 h1 hr.0) within in
              rw joins (compose_loop-Agrees done ruc behind prev rest hd in_u hb hr.1)
          | inr stays ↦ elim (Bool-cases (c == 0)) [
            | inl starts ↦
                rw (stays, starts)
                  (compose_loop-Agrees (done ++ ch1 ∷ behind) ch2 [] 0 rest
                    (AllUnicode-append done (ch1 ∷ behind) hd (h1, hb)) hr.0 tt hr.1)
            | inr marks ↦
                rw (stays, marks)
                  (compose_loop-Agrees done ch1 (behind ++ ch2 ∷ []) c rest hd h1
                    (AllUnicode-append behind (ch2 ∷ []) hb (hr.0, tt)) hr.1)
          ]
        ])

  pub compose_all-Agrees :
      (str : List ℕ)
      → AllUnicode str
      → (compose_all t str ≡ compose_all u str) × AllUnicode (compose_all t str)
  unfolding compose_all
  compose_all-Agrees [] h = (refl, tt)
  compose_all-Agrees (ch ∷ rest) h =
      rw (agrees.cclass ch h.0)
        (compose_loop-Agrees [] ch [] (get_uni_char_cclass u ch) rest tt h.0 tt h.1)

  scan-Agrees :
      (bits str : List ℕ) (s : Scan) → AllUnicode str → scan t bits str s ≡ scan u bits str s
  unfolding scan
  scan-Agrees bits [] s h = refl
  scan-Agrees bits (ruc ∷ rucs) s h = rw (agrees.info ruc h.0) (
      ap (λ rest. if has_any bits (get_uni_char_info u ruc) then ok none else rest)
        (bind_same (add_uchar ruc s.out) _ _ (λ out. scan-Agrees bits rucs _ h.1)))

  head_or-IsUnicode : (str : List ℕ) → AllUnicode str → IsUnicode (head_or str)
  head_or-IsUnicode [] h = omega arith
  head_or-IsUnicode (c ∷ cs) h = h.0

  finish-Agrees :
      (bits str : List ℕ) (b : Buffer) → AllUnicode str → finish t bits str b ≡ finish u bits str b
  unfolding finish
  finish-Agrees bits str b h = rw (agrees.info (head_or str) (head_or-IsUnicode str h)) (
      ap (λ r. r >>= conclude (has_bit 4 (get_uni_char_info u (head_or str))))
        (scan-Agrees bits str _ h))

  answer-Agrees :
      (command : Command) (size : ℕ) (str : List ℕ)
      → AllUnicode str
      → answer t command size str ≡ answer u command size str
  unfolding answer
  answer-Agrees command size str h =
      let (sorted, within) =
        canonical_ordering-Agrees (get_uni_char_cclass t) (get_uni_char_cclass u) agrees.cclass str
          h in
      let (joined, still) =
        compose_all-Agrees (canonical_ordering (get_uni_char_cclass t) str) within in
      let buffer : Buffer = record { written = 0 ∷ []; size = size } in
      ap (λ rest. if length str == 0 then ok (1 ∷ []) else rest)
        (finish-Agrees (prohibit command) _ buffer still
          ∙ ap (λ s. finish u (prohibit command) s buffer) (joined ∙ ap (compose_all u) sorted))

  after_decode-Agrees :
      (command : Command) (size : ℕ) (r d : Option (List ℕ))
      → 1 ≤ size
      → Decoded r d
      → after_decode t command size r ≡ after_decode u command size d
  unfolding after_decode
  after_decode-Agrees command size none d room h = ap (after_decode u command size) h
  after_decode-Agrees command size (some chars) d room h =
      let (out, run, (wrote, fits)) =
        fill-Fits chars (record { written = []; size = size }) (omega arith) in
      rw (← h.1, run, wrote) (answer-Agrees command size chars h.0)

  convert-Agrees :
      (command : Command) (buf : List ℕ) → convert t command buf ≡ convert u command buf
  unfolding convert
  convert-Agrees command buf = after_decode-Agrees command (length buf + 1) _ _ (omega arith) (
      decode-Agrees (map_char t (tolower command)) (map_char u (tolower command))
        (λ c h. (agrees.mapped (tolower command) c h, agrees.mapped_within (tolower command) c h)) 0
        buf)

  -- If two sets of tables agree for the characters of Unicode, then every command answers the same
  -- with either.
  pub control-Agrees :
      (command : Command) (buf : List ℕ) → control t command buf ≡ control u command buf
  unfolding control
  control-Agrees lowercase buf = convert-Agrees lowercase buf
  control-Agrees nameprep buf = convert-Agrees nameprep buf
  control-Agrees nodeprep buf = convert-Agrees nodeprep buf
  control-Agrees resourceprep buf = convert-Agrees resourceprep buf
  control-Agrees port_revision buf = refl
  control-Agrees (unknown n) buf = convert-Agrees (unknown n) buf
