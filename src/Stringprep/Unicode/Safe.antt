-- ===== src/Stringprep/Unicode/Safe.antt =====
-- The driver on the arrays of the headers.
use hz_platform.Prelude.{
  ℕ, ◌≡◌, ◌≢◌, ◌⊎◌, inl, inr, refl, List, [], ◌∷◌, Option, none, some, ◌&&◌, on_both,
}
use hz_platform.Run.{Returns}
use hz_platform.Stringprep.Utf8.{encode, decode}
use hz_platform.Stringprep.Utf8.RoundTrip.{AllUnicode}
use hz_platform.Stringprep.Tables.{get_uni_char_cclass}
use hz_platform.Stringprep.Unicode.{Beyond, unicode}
use hz_platform.Stringprep.Unicode.Lookups.{info_same, cclass_same}
use hz_platform.Stringprep.Unicode.Mapped.{map_char-SameUnicode}
use hz_platform.Stringprep.Unicode.Composed.{compose-SameChar}
use hz_platform.Stringprep.Control.{Command, control, port_revision, map_char, tolower, prohibit}
use hz_platform.Stringprep.Control.Refines.{
  stringprep, spec_answer, decoded, no_prohibited, bidi_allowed, control_refines,
}
use hz_platform.Stringprep.Control.Agree.{
  Agrees, control-Agrees, Decoded, decode-Agrees, canonical_ordering-Agrees, compose_all-Agrees,
}

pub unicode-Agrees : (out out' : Beyond) → Agrees (unicode out) (unicode out')
unicode-Agrees out out' = record {
  info = info_same out out';
  cclass = cclass_same out out';
  mapped = λ lower c h. (map_char-SameUnicode out out' c h lower).0;
  mapped_within = λ lower c h. (map_char-SameUnicode out out' c h lower).1;
  composed = λ c d hc hd. (compose-SameChar out out' c d hc hd).0;
  composed_within = λ c d hc hd. (compose-SameChar out out' c d hc hd).1;
}

-- Whatever stands in memory behind the arrays of the two headers, the driver answers the same to
-- every command and every input: no index that it forms for one of them leaves it with an effect.
pub control-unicode :
    (out out' : Beyond) (command : Command) (buf : List ℕ)
    → control (unicode out) command buf ≡ control (unicode out') command buf
control-unicode out out' = control-Agrees (unicode out) (unicode out') (unicode-Agrees out out')

-- A refusal, or success with the UTF-8 of characters of Unicode.
abbrev pub Answers : List ℕ → Type 0
Answers bytes = (bytes ≡ 0 ∷ []) ⊎ ((cs : List ℕ) × AllUnicode cs × (bytes ≡ 1 ∷ encode cs))

module _ (out : Beyond) where
  spec_answer-Answers :
      (bits z : List ℕ) → AllUnicode z → Answers (spec_answer (unicode out) bits z)
  unfolding spec_answer
  spec_answer-Answers bits z h =
      on_both Answers (no_prohibited (unicode out) bits z && bidi_allowed (unicode out) z)
        (λ _. inr (z, h, refl)) (λ _. inl refl)

  decoded-Answers :
      (command : Command) (r : Option (List ℕ))
      → Decoded r r
      → Answers (decoded (unicode out) command r)
  unfolding decoded encode
  decoded-Answers command none h = inl refl
  decoded-Answers command (some []) h = inr ([], tt, refl)
  decoded-Answers command (some (c ∷ cs)) h =
      let agrees = unicode-Agrees out out in
      let cclass = get_uni_char_cclass (unicode out) in
      let sorted = canonical_ordering-Agrees cclass cclass agrees.cclass (c ∷ cs) h.0 in
      spec_answer-Answers (prohibit command) _
        (compose_all-Agrees (unicode out) (unicode out) agrees _ sorted.1).1

  -- Every command but PORT_REVISION returns, whatever the input and the memory behind the arrays:
  -- with a refusal, or with 1 and the UTF-8 of characters up to 0x10FFFF.
  pub control-Answers :
      (command : Command) (buf : List ℕ)
      → command ≢ port_revision
      → Returns (control (unicode out) command buf) Answers
  unfolding stringprep
  control-Answers command buf h =
      let f = map_char (unicode out) (tolower command) in
      (
        stringprep (unicode out) command buf,
        control_refines (unicode out) command buf h,
        decoded-Answers command (decode f 0 buf) (
            decode-Agrees f f
              (λ c hc. (refl, (unicode-Agrees out out).mapped_within (tolower command) c hc)) 0
              buf),
      )
