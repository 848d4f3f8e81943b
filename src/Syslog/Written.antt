-- ===== src/Syslog/Written.antt =====
-- What reaches the system log.
use hz_platform.Prelude.{to_int, ℕ, ◌≡◌, refl, ap, List, [], ◌∷◌, some, ℤ, get_elem?, length}
use hz_platform.Run.{ok, ◌>>=◌, Returns}
use hz_platform.Ei.{version, atom, string, long}
use hz_platform.Text.{codes, up_to_nul}
use hz_platform.Syslog.{
  Heap, Driver, openlog, syslog, read, done, open_with, open_ident, open_log, read_ident, write_log,
  operate, syslogdrv_output,
}
use hz_platform.Syslog.Lifetime.{
  IsLive, get_elem?-last, free_ident_lem, logged, open_freed, request,
}

read_new :
    (block : ℕ) (heap : Heap) (s : List ℕ)
    → get_elem? heap block ≡ some (some s)
    → read_ident (some block) heap ≡ ok (some (up_to_nul s))
unfolding read_ident read
read_new block heap s h = rw h refl

-- From a live ident, "open" with a string and two integers answers ok, and a "log" of a string behind
-- it reaches the system log with that ident, those options as C ints, and the message up to its
-- first 0.
pub open-log :
    (ident message : List ℕ) (logopt facility priority : ℤ) (d : Driver) (heap : Heap)
    → IsLive d heap
    → Returns
        (syslogdrv_output
          (request (codes "open") (string ident ∷ long logopt ∷ long facility ∷ []))
          d
          heap)
        (λ r.
          (r.answer ≡ version ∷ atom (codes "ok") ∷ [])
          × (syslogdrv_output
                (request (codes "log") (long priority ∷ string message ∷ []))
                r.driver
                r.heap
              ≡ ok (
                  done r.driver r.heap (
                    openlog (to_int logopt) (to_int facility)
                    ∷ syslog (some (up_to_nul ident)) (to_int priority) (up_to_nul message)
                    ∷ []))))
unfolding syslogdrv_output operate open_log open_ident open_with write_log
open-log ident message logopt facility priority d heap live =
    let (heap', freed) = free_ident_lem d.ident heap live in
    let here = get_elem?-last heap' (some ident) in
    let arguments = string ident ∷ long logopt ∷ long facility ∷ [] in
    let opened = open_ident arguments d heap' in
    (
      opened,
      open_freed arguments d heap heap' freed,
      (
        refl,
        ap (λ r. r >>= λ t. ok (logged priority message opened.driver opened.heap t))
            (read_new (length heap') opened.heap ident here),
      ),
    )
