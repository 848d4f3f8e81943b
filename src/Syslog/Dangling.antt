-- ===== src/Syslog/Dangling.antt =====
-- What an "open" that is refused leaves of the ident.
use hz_platform.Prelude.{
  ℕ, ◌≡◌, refl, ap, ◌∙◌, true, false, List, [], ◌∷◌, none, some, ℤ, if◌then◌else◌, get_elem?, set,
  get_elem?-set_self, arith,
}
use hz_platform.Run.{ok, fault, use_after_free, ◌>>=◌, Returns}
use hz_platform.Ei.{Buff, string, long}
use hz_platform.Text.{codes}
use hz_platform.Syslog.{
  Heap, Driver, free, read, refused, free_ident, open_ident, open_log, read_ident, write_log,
  operate, syslogdrv_output,
}
use hz_platform.Syslog.Lifetime.{starts_with_string, in_heap, free_lem, logged, open_freed, request}

freed_twice :
    (block : ℕ) (heap : Heap) (s : List ℕ)
    → get_elem? heap block ≡ some (some s)
    → free block (set heap block none) ≡ fault use_after_free
unfolding free
freed_twice block heap s h =
    rw (get_elem?-set_self heap block none (in_heap heap block (some s) h)) refl

open_ident-bad :
    (buf : Buff) (d : Driver) (heap : Heap)
    → starts_with_string buf ≡ false
    → open_ident buf d heap ≡ refused (codes "badarg") d heap
unfolding open_ident
open_ident-bad (string s ∷ buf) d heap h = absurd (ground arith)
open_ident-bad _ d heap h = refl

read_freed :
    (block : ℕ) (heap : Heap) (s : List ℕ)
    → get_elem? heap block ≡ some (some s)
    → read_ident (some block) (set heap block none) ≡ fault use_after_free
unfolding read_ident read
read_freed block heap s h =
    rw (get_elem?-set_self heap block none (in_heap heap block (some s) h)) refl

-- With an ident that is not freed, an "open" whose ident is not a string is refused with badarg and
-- keeps the pointer to the block it has freed: the next "open" frees it again, and the next "log" of
-- a string, if the log was open, reads it.
pub bad_open_dangles :
    (arguments next : Buff) (priority : ℤ) (message : List ℕ) (d : Driver) (heap : Heap) (block : ℕ)
    (s : List ℕ)
    → d.ident ≡ some block
    → get_elem? heap block ≡ some (some s)
    → starts_with_string arguments ≡ false
    → Returns (syslogdrv_output (request (codes "open") arguments) d heap) (λ r.
      (r ≡ refused (codes "badarg") d r.heap)
      × (syslogdrv_output (request (codes "open") next) r.driver r.heap ≡ fault use_after_free)
      × (d.is_open ≡ true
          → syslogdrv_output
              (request (codes "log") (long priority ∷ string message ∷ []))
              r.driver
              r.heap
            ≡ fault use_after_free))
unfolding syslogdrv_output operate open_log write_log free_ident
bad_open_dangles arguments next priority message d heap block s ident live bad =
    let heap' = set heap block none in
    (
      refused (codes "badarg") d heap',
      open_freed arguments d heap heap'
            (ap (λ i. free_ident i heap) ident ∙ free_lem block heap s live)
          ∙ ap ok (open_ident-bad arguments d heap' bad),
      (
        refl,
        ap (λ r. r >>= λ h. ok (open_ident next d h))
            (ap (λ i. free_ident i heap') ident ∙ freed_twice block heap s live),
        λ opened.
            ap
              (λ b.
                if b
                then write_log (long priority ∷ string message ∷ []) d heap'
                else ok (refused (codes "notopen") d heap'))
              opened
            ∙ ap (λ r. r >>= λ t. ok (logged priority message d heap' t))
                (ap (λ i. read_ident i heap') ident ∙ read_freed block heap s live),
      ),
    )
