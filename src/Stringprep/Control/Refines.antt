-- ===== src/Stringprep/Control/Refines.antt =====
-- The driver's answer is that of the profile's definition, and no write leaves its buffer.
use hz_platform.Prelude.{
  ℕ, ◌+◌, ◌≤◌, ◌≡◌, ◌≢◌, refl, sym, ap, ◌∙◌, Bool, true, false, ◌&&◌, ◌||◌, List, [], ◌∷◌, ◌++◌,
  Option, none, some, ltb, leb, ◌==◌, not, if◌then◌else◌, length, arith, append_assoc, append-nil,
  Bool-cases, inl, inr,
}
use hz_platform.Run.{ok, fault, heap_overflow, Returns}
use hz_platform.Text.{codes}
use hz_platform.Stringprep.Utf8.{decode, encode, encode_char}
use hz_platform.Stringprep.Utf8.Buffer.{
  Buffer, write, Fits, Appends, add_uchar-Fits, add_uchar32-Fits,
}
use hz_platform.Stringprep.Tables.{Tables, has_bit, get_uni_char_info, get_uni_char_cclass}
use hz_platform.Stringprep.Order.{canonical_ordering}
use hz_platform.Stringprep.Compose.{compose_all}
use hz_platform.Stringprep.Control.{
  Command, prohibit, tolower, has_any, map_char, fill, Scan, scan, finish, answer, after_decode,
  convert, control, revision, lowercase, nameprep, nodeprep, resourceprep, port_revision, unknown,
  head_or, set_status, conclude,
}

or_assoc : (a b c : Bool) → ((a || b) || c) ≡ (a || (b || c))
or_assoc true b c = refl
or_assoc false b c = refl

verdict :
    (e f l x : Bool) (w : List ℕ)
    → (if e && (not f || not l || x) then ok (0 ∷ []) else ok (1 ∷ w))
      ≡ ok (if not e || f && l && not x then 1 ∷ w else 0 ∷ [])
verdict false f l x w = refl
verdict true false l x w = refl
verdict true true false x w = refl
verdict true true true false w = refl
verdict true true true true w = refl

-- All of str32 is written, and inside its buffer.
pub fill-Fits : (chs : List ℕ) (b : Buffer) → Fits b → Returns (fill chs b) (Appends chs b)
unfolding fill
fill-Fits [] b h = (b, refl, (sym (append-nil b.written), h))
fill-Fits (ch ∷ chs) b h =
    let (b₁, run₁, (w₁, fits₁)) = add_uchar32-Fits ch b h in
    let (b₂, run₂, (w₂, fits₂)) = fill-Fits chs b₁ fits₁ in
    (b₂, rw run₁ run₂, (w₂ ∙ ap (λ w. w ++ chs) w₁ ∙ append_assoc b.written (ch ∷ []) chs, fits₂))

revision_lem :
    (buf : List ℕ)
    → revision buf
      ≡ (if ltb (length buf) 11 then fault heap_overflow else ok (1 ∷ codes "$Revision$"))
unfolding revision write
revision_lem buf = elim (Bool-cases (ltb (length buf) 11)) [
  | inl short ↦ let over : leb 12 (length buf + 1) ≡ false = ground arith in rw (short, over) refl
  | inr long ↦ let fits : leb 12 (length buf + 1) ≡ true = ground arith in rw (long, fits) refl
]

module _ (t : Tables) where
  -- What a profile asks of the composed string: no prohibited character; and where there is a
  -- right-to-left character, the first and the last are such, and none is left-to-right.
  unfoldable pub no_prohibited : List ℕ → List ℕ → Bool
  no_prohibited bits [] = true
  no_prohibited bits (c ∷ cs) = not (has_any bits (get_uni_char_info t c)) && no_prohibited bits cs

  unfoldable pub exists_bit : ℕ → List ℕ → Bool
  exists_bit k [] = false
  exists_bit k (c ∷ cs) = has_bit k (get_uni_char_info t c) || exists_bit k cs

  -- The bit of the last character; `b` if there is none.
  unfoldable pub last_bit : ℕ → Bool → List ℕ → Bool
  last_bit k b [] = b
  last_bit k b (c ∷ cs) = last_bit k (has_bit k (get_uni_char_info t c)) cs

  unfoldable pub bidi_allowed : List ℕ → Bool
  bidi_allowed z =
      not (exists_bit 4 z)
      || has_bit 4 (get_uni_char_info t (head_or z)) && last_bit 4 false z && not (exists_bit 5 z)

  unfoldable pub spec_answer : List ℕ → List ℕ → List ℕ
  spec_answer bits z = if no_prohibited bits z && bidi_allowed z then 1 ∷ encode z else 0 ∷ []

  -- What follows the decoding, from the characters on.
  abbrev answered : Command → List ℕ → List ℕ
  answered command [] = 1 ∷ []
  answered command (c ∷ cs) =
      spec_answer (prohibit command)
        (compose_all t (canonical_ordering (get_uni_char_cclass t) (c ∷ cs)))

  unfoldable pub decoded : Command → Option (List ℕ) → List ℕ
  decoded command none = 0 ∷ []
  decoded command (some chars) = answered command chars

  -- stringprep: map, normalise, then check.
  unfoldable pub stringprep : Command → List ℕ → List ℕ
  stringprep command buf = decoded command (decode (map_char t (tolower command)) 0 buf)

  abbrev Scanned : List ℕ → List ℕ → Scan → Option Scan → Type 0
  Scanned bits z s none = no_prohibited bits z ≡ false
  Scanned bits z s (some r) =
      (no_prohibited bits z ≡ true)
      × (r.out.written ≡ s.out.written ++ encode z)
      × (r.last_ral ≡ last_bit 4 s.last_ral z)
      × (r.have_ral ≡ (s.have_ral || exists_bit 4 z))
      × (r.have_l ≡ (s.have_l || exists_bit 5 z))

  abbrev advance : Scan → ℕ → Buffer → Scan
  advance s c out = record {
    out = out;
    last_ral = has_bit 4 (get_uni_char_info t c);
    have_ral = s.have_ral || has_bit 4 (get_uni_char_info t c);
    have_l = s.have_l || has_bit 5 (get_uni_char_info t c);
  }

  abbrev from_start : Buffer → Scan
  from_start rstring = record { out = rstring; last_ral = false; have_ral = false; have_l = false }

  Scanned-step :
      (bits : List ℕ) (c : ℕ) (cs : List ℕ) (s : Scan) (out : Buffer) (r : Option Scan)
      → has_any bits (get_uni_char_info t c) ≡ false
      → out.written ≡ s.out.written ++ encode_char c
      → Scanned bits cs (advance s c out) r
      → Scanned bits (c ∷ cs) s r
  unfolding no_prohibited last_bit exists_bit encode
  Scanned-step bits c cs s out none fine wrote holds = rw fine holds
  Scanned-step bits c cs s out (some r) fine wrote (a, b, d, e, f) = (
    rw fine a,
    b ∙ ap (λ w. w ++ encode cs) wrote ∙ append_assoc s.out.written (encode_char c) (encode cs),
    d,
    e ∙ or_assoc s.have_ral _ _,
    f ∙ or_assoc s.have_l _ _,
  )

  scan_lem :
      (bits z : List ℕ) (s : Scan) → Fits s.out → Returns (scan t bits z s) (Scanned bits z s)
  unfolding scan no_prohibited last_bit exists_bit encode
  scan_lem bits [] s h =
      (some s, refl, (refl, sym (append-nil s.out.written), refl, ground arith, ground arith))
  scan_lem bits (c ∷ cs) s h = elim (Bool-cases (has_any bits (get_uni_char_info t c))) [
    | inl bad ↦ (none, rw bad, rw bad)
    | inr fine ↦
        let (out, run, (wrote, fits)) = add_uchar-Fits c s.out h in
        let (r, more, holds) = scan_lem bits cs (advance s c out) fits in
        (r, rw (fine, run) more, Scanned-step bits c cs s out r fine wrote holds)
  ]

  judged :
      (bits z : List ℕ) (rstring : Buffer) (r : Option Scan)
      → rstring.written ≡ 0 ∷ []
      → Scanned bits z (from_start rstring) r
      → conclude (has_bit 4 (get_uni_char_info t (head_or z))) r ≡ ok (spec_answer bits z)
  unfolding spec_answer bidi_allowed conclude
  judged bits z rstring none start holds = rw holds
  judged bits z rstring (some r) start (a, b, d, e, f) =
      let wrote = ap set_status (b ∙ ap (λ w. w ++ encode z) start) in
      rw (wrote, a, d, e, f)
        (verdict (exists_bit 4 z) _ (last_bit 4 false z) (exists_bit 5 z) (encode z))

  -- The answer of the last loop and of the test behind it.
  finish_lem :
      (bits z : List ℕ) (size : ℕ)
      → 1 ≤ size
      → finish t bits z (record { written = 0 ∷ []; size = size }) ≡ ok (spec_answer bits z)
  unfolding finish
  finish_lem bits z size room =
      let rstring : Buffer = record { written = 0 ∷ []; size = size } in
      let (r, run, holds) = scan_lem bits z (from_start rstring) room in
      rw run (judged bits z rstring r refl holds)

  answer_lem :
      (command : Command) (size : ℕ) (chars : List ℕ)
      → 1 ≤ size
      → answer t command size chars ≡ ok (answered command chars)
  unfolding answer
  answer_lem command size [] room = refl
  answer_lem command size (c ∷ cs) room =
      let some_char : (length (c ∷ cs) == 0) ≡ false = ground arith in
      rw some_char (finish_lem (prohibit command) _ size room)

  after_decode_lem :
      (command : Command) (size : ℕ) (result : Option (List ℕ))
      → 1 ≤ size
      → after_decode t command size result ≡ ok (decoded command result)
  unfolding after_decode decoded
  after_decode_lem command size none room = refl
  after_decode_lem command size (some chars) room =
      let str32 : Buffer = record { written = []; size = size } in
      let (out, run, (wrote, fits)) = fill-Fits chars str32 (omega arith) in
      rw (run, wrote) (answer_lem command size chars room)

  convert_lem :
      (command : Command) (buf : List ℕ) → convert t command buf ≡ ok (stringprep command buf)
  unfolding convert stringprep
  convert_lem command buf = after_decode_lem command (length buf + 1) _ (omega arith)

pub control_refines :
    (t : Tables) (command : Command) (buf : List ℕ)
    → command ≢ port_revision
    → control t command buf ≡ ok (stringprep t command buf)
unfolding control
control_refines t lowercase buf h = convert_lem t lowercase buf
control_refines t nameprep buf h = convert_lem t nameprep buf
control_refines t nodeprep buf h = convert_lem t nodeprep buf
control_refines t resourceprep buf h = convert_lem t resourceprep buf
control_refines t port_revision buf h = absurd (h refl)
control_refines t (unknown n) buf h = convert_lem t (unknown n) buf

-- PORT_REVISION writes behind its buffer, whatever the tables, if the input has fewer than 11
-- bytes; otherwise it answers 1 and the revision.
pub revision_overflows :
    (t : Tables) (buf : List ℕ)
    → control t port_revision buf
      ≡ (if ltb (length buf) 11 then fault heap_overflow else ok (1 ∷ codes "$Revision$"))
unfolding control
revision_overflows t buf = revision_lem buf
