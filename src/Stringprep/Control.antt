-- ===== src/Stringprep/Control.antt =====
-- exmpp_stringprep_control of exmpp_stringprep.c. What it returns is the list of the bytes that go
-- to Erlang, 0 in front for a refusal and 1 for success.
pub mod Refines
pub mod Agree
use hz_platform.Prelude.{
  ℕ, zero, suc, ◌+◌, ◌-◌, ◌*◌, ◌/◌, ◌%◌, ◌^◌, Bool, true, false, ◌&&◌, ◌||◌, List, [], ◌∷◌, ◌++◌,
  Option, none, some, ltb, leb, ◌==◌, not, if◌then◌else◌, ℤ, pos, negsuc, length,
}
use hz_platform.Run.{Run, ok, fault, heap_overflow, ◌>>=◌}
use hz_platform.Text.{codes}
use hz_platform.Stringprep.Utf8.{decode}
use hz_platform.Stringprep.Utf8.Buffer.{Buffer, write, add_uchar, add_uchar32}
use hz_platform.Stringprep.Tables.{
  Tables, has_bit, low_16, get_delta, add_delta, get_uni_char_info, get_uni_char_cclass,
  get_uni_char_decomp_info, get_mc,
}
use hz_platform.Stringprep.Order.{canonical_ordering}
use hz_platform.Stringprep.Compose.{compose_all}

pub data Command : Type 0 where
  lowercase nameprep nodeprep resourceprep port_revision : Command
  unknown : ℕ → Command

-- The bits of `prohibit`: ACMask is bit 0, C11Mask 1, C21Mask 2, XNPMask 6.
unfoldable pub prohibit : Command → List ℕ
prohibit lowercase = 0 ∷ []
prohibit nameprep = 0 ∷ []
prohibit nodeprep = 0 ∷ 1 ∷ 2 ∷ 6 ∷ []
prohibit resourceprep = 0 ∷ 2 ∷ []
prohibit port_revision = []
prohibit (unknown n) = []

unfoldable pub tolower : Command → Bool
tolower lowercase = true
tolower nameprep = true
tolower nodeprep = true
tolower resourceprep = false
tolower port_revision = false
tolower (unknown n) = false

-- `info & mask`
unfoldable pub has_any : List ℕ → ℤ → Bool
has_any [] info = false
has_any (k ∷ ks) info = has_bit k info || has_any ks info

-- `rstring[0] = 1`
abbrev pub set_status : List ℕ → List ℕ
set_status [] = []
set_status (b ∷ bs) = 1 ∷ bs

abbrev pub head_or : List ℕ → ℕ
head_or [] = 0
head_or (c ∷ cs) = c

pub record Scan : Type 0 where
  pub out : Buffer
  pub last_ral : Bool
  pub have_ral : Bool
  pub have_l : Bool

-- The revision with its final 0 is written behind rstring[0], in a buffer of `len + 1` bytes;
-- `strlen` does not count that 0.
unfoldable pub revision : List ℕ → Run (List ℕ)
revision buf = do
  let text = codes "$Revision$"
  _ ← write (text ++ 0 ∷ []) (record { written = 1 ∷ []; size = length buf + 1 })
  ok (1 ∷ text)

-- `for ...: ADD_UCHAR32(...)`
unfoldable pub fill : List ℕ → Buffer → Run Buffer
fill [] b = ok b
fill (ch ∷ chs) b = add_uchar32 ch b >>= fill chs

-- The tests behind the last loop.
unfoldable pub conclude : Bool → Option Scan → Run (List ℕ)
conclude first_ral none = ok (0 ∷ [])
conclude first_ral (some s) =
    if s.have_ral && (not first_ral || not s.last_ral || s.have_l)
    then ok (0 ∷ [])
    else ok (set_status s.out.written)

module _ (t : Tables) where
  unfoldable pub decomp_from : ℕ → ℕ → List ℕ
  decomp_from zero at = []
  decomp_from (suc n) at = t.decomp_list at ∷ decomp_from n (at + 1)

  -- What ADD_DECOMP appends to str32.
  unfoldable pub add_decomp : ℕ → List ℕ
  add_decomp ruc = elim (get_uni_char_decomp_info t ruc) [
    | pos info ↦ decomp_from (info / 2 ^ 16) (info % 2 ^ 16)
    | negsuc n ↦ ruc ∷ []
  ]

  unfoldable pub add_decomps : List ℕ → List ℕ
  add_decomps [] = []
  add_decomps (ruc ∷ rucs) = add_decomp ruc ++ add_decomps rucs

  -- What one character of the input appends: B1Mask is bit 3, MCMask bit 7.
  unfoldable pub map_char : Bool → ℕ → List ℕ
  map_char lower uc =
      let info = get_uni_char_info t uc in
      if has_bit 3 info
      then []
      else (if lower
          then (if not (has_bit 7 info)
              then add_decomp (add_delta uc (get_delta info))
              else add_decomps (get_mc t info))
          else add_decomp uc)

  -- The last loop: D1Mask is bit 4, D2Mask bit 5. `none` is the return for a prohibited character.
  unfoldable pub scan : List ℕ → List ℕ → Scan → Run (Option Scan)
  scan bits [] s = ok (some s)
  scan bits (ruc ∷ rucs) s =
      let info = get_uni_char_info t ruc in
      let rest = add_uchar ruc s.out >>= λ out. scan bits rucs (record {
        out = out;
        last_ral = has_bit 4 info;
        have_ral = s.have_ral || has_bit 4 info;
        have_l = s.have_l || has_bit 5 info;
      }) in
      if has_any bits info then ok none else rest

  -- From the composed string to the answer.
  unfoldable pub finish : List ℕ → List ℕ → Buffer → Run (List ℕ)
  finish bits str rstring = do
    let first_ral = has_bit 4 (get_uni_char_info t (head_or str))
    let start : Scan = record { out = rstring; last_ral = false; have_ral = false; have_l = false }
    result ← scan bits str start
    conclude first_ral result

  unfoldable pub answer : Command → ℕ → List ℕ → Run (List ℕ)
  answer command size str =
      if length str == 0
      then ok (1 ∷ [])
      else finish (prohibit command)
          (compose_all t (canonical_ordering (get_uni_char_cclass t) str))
          (record { written = 0 ∷ []; size = size })

  -- What follows the first loop, whose result is `none` for malformed UTF-8.
  unfoldable pub after_decode : Command → ℕ → Option (List ℕ) → Run (List ℕ)
  after_decode command size none = ok (0 ∷ [])
  after_decode command size (some chars) = do
    str32 ← fill chars (record { written = []; size = size })
    answer command size str32.written

  unfoldable pub convert : Command → List ℕ → Run (List ℕ)
  convert command buf =
      after_decode command (length buf + 1) (decode (map_char (tolower command)) 0 buf)

  unfoldable pub control : Command → List ℕ → Run (List ℕ)
  control port_revision buf = revision buf
  control command buf = convert command buf
