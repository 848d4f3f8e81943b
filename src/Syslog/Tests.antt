-- ===== src/Syslog/Tests.antt =====
-- Runs of the driver of the system log.
use hz_platform.Prelude.{List, ◌≡◌, refl, true, false, [], ◌∷◌, none, some, pos}
use hz_platform.Run.{ok, fault, use_after_free, Returns}
use hz_platform.Ei.{Buff, version, atom, string, long, empty_list}
use hz_platform.Text.{codes}
use hz_platform.Syslog.{
  Driver, Heap, openlog, syslog, refused, done, syslogdrv_start, syslogdrv_output,
}
use hz_platform.Syslog.Lifetime.{request}
use hz_platform.Syslog.Requests.{run_all, Kept, requests}
use hz_platform.Syslog.Dangling.{bad_open_dangles}
use hz_platform.Syslog.Written.{open-log}

abbrev idle : Driver
idle = record { is_open = false; ident = none; logopt = pos 0; facility = pos 0 }

abbrev running : Driver
running = record { is_open = true; ident = some 0; logopt = pos 1; facility = pos 8 }

abbrev one_block : Heap
one_block = some (codes "ecallmgr") ∷ []

abbrev open_arguments : Buff
open_arguments = string (codes "whistle") ∷ long (pos 1) ∷ long (pos 8) ∷ []

starts_idle : syslogdrv_start (pos 0) (pos 0) ≡ idle
unfolding syslogdrv_start
starts_idle = refl

abbrev some_requests : List Buff
some_requests =
    request (codes "open") open_arguments
    ∷ request (codes "log") (long (pos 6) ∷ string (codes "hi") ∷ [])
    ∷ request (codes "open") open_arguments
    ∷ []

requests_example :
    Returns (run_all some_requests (syslogdrv_start (pos 0) (pos 0)) []) (Kept some_requests)
requests_example = requests (pos 0) (pos 0) some_requests (refl, (refl, (refl, tt)))

bad_open_dangles_example :
    Returns (syslogdrv_output (request (codes "open") (empty_list ∷ [])) running one_block) (λ r.
      (r ≡ refused (codes "badarg") running r.heap)
      × (syslogdrv_output (request (codes "open") open_arguments) r.driver r.heap
          ≡ fault use_after_free)
      × (true ≡ true
          → syslogdrv_output
              (request (codes "log") (long (pos 6) ∷ string (codes "hi") ∷ []))
              r.driver
              r.heap
            ≡ fault use_after_free))
bad_open_dangles_example =
    bad_open_dangles (empty_list ∷ []) open_arguments (pos 6) (codes "hi") running one_block 0
      (codes "ecallmgr") refl refl refl

open-log_example : Returns (syslogdrv_output (request (codes "open") open_arguments) idle []) (λ r.
    (r.answer ≡ version ∷ atom (codes "ok") ∷ [])
    × (syslogdrv_output
          (request (codes "log") (long (pos 6) ∷ string (codes "hi") ∷ []))
          r.driver
          r.heap
        ≡ ok (
            done r.driver r.heap (
              openlog (pos 1) (pos 8)
              ∷ syslog (some (codes "whistle")) (pos 6) (codes "hi")
              ∷ []))))
open-log_example = open-log (codes "whistle") (codes "hi") (pos 1) (pos 8) (pos 6) idle [] tt
