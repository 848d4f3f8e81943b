-- ===== src/Answer.antt =====
-- What the control function of a port driver answers: a status byte, and behind it either an encoded
-- term or plain bytes.
use hz_platform.Prelude.{ℕ, List, [], ◌∷◌}
use hz_platform.Ei.{Buff, version}

pub data Answer : Type 0 where
  term : ℕ → Buff → Answer
  bytes : ℕ → List ℕ → Answer

-- exmpp_new_xbuf with what is encoded into it, and COPY_AND_FREE_BUF.
abbrev pub reply : ℕ → Buff → Answer
reply ret items = term ret (version ∷ items)

-- The answer where a command leaves no buffer: RET_OK alone.
abbrev pub done : Answer
done = bytes 0 []
