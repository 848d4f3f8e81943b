-- ===== src/Syslog/Requests.antt =====
-- Sequences of requests to the system log's driver, and the memory that they keep.
use hz_platform.Prelude.{
  ℕ, ◌+◌, ◌≡◌, refl, sym, ap, true, false, not, ◌&&◌, List, [], ◌∷◌, ◌++◌, Option, none, some, ℤ,
  get_elem?, set, length, arith, on_both, suc,
}
use mathlib.Core.Path.{subst}
use hz_platform.Run.{Run, ok, fault, ◌>>=◌, Post, Post-bind, Returns}
use hz_platform.Ei.{Buff, version, tuple_header, atom, string, long}
use hz_platform.Text.{codes, str_eq, up_to_nul}
use hz_platform.Syslog.{
  Heap, Driver, Result, free_ident, open_with, open_ident, open_log, read_ident, write_log, operate,
  syslogdrv_start, syslogdrv_output,
}
use hz_platform.Syslog.Lifetime.{
  HoldsText, IsLive, is_bad_open, free_lem, output-IsLive, starts_with_string, a_string, logged,
}

-- How many texts are not freed.
abbrev pub live : Heap → ℕ
live [] = 0
live (none ∷ heap) = live heap
live (some s ∷ heap) = 1 + live heap

abbrev pub held : Option ℕ → ℕ
held none = 0
held (some block) = 1

-- The only text that is not freed is the ident, if there is one.
abbrev pub IsTidy : Driver → Heap → Type 0
IsTidy d heap = live heap ≡ held d.ident

live-set :
    (heap : Heap) (block : ℕ) (s : List ℕ)
    → get_elem? heap block ≡ some (some s)
    → 1 + live (set heap block none) ≡ live heap
live-set [] block s h = absurd (ground arith)
live-set (none ∷ heap) ℕ.zero s h = absurd (cc)
live-set (some t ∷ heap) ℕ.zero s h = refl
live-set (none ∷ heap) (suc block) s h = live-set heap block s h
live-set (some t ∷ heap) (suc block) s h = omega (arith, live-set heap block s h)

live-malloc : (heap : Heap) (s : List ℕ) → live (heap ++ some s ∷ []) ≡ 1 + live heap
live-malloc [] s = refl
live-malloc (none ∷ heap) s = live-malloc heap s
live-malloc (some t ∷ heap) s = omega (arith, live-malloc heap s)

abbrev Tidy : Result → Type 0
Tidy r = IsTidy r.driver r.heap

freed_lem :
    (ident : Option ℕ) (heap : Heap)
    → HoldsText ident heap
    → live heap ≡ held ident
    → Post (λ heap'. live heap' ≡ 0) (free_ident ident heap)
unfolding free_ident
freed_lem none heap holds count = count
freed_lem (some block) heap (s, h) count =
    subst (Post (λ heap'. live heap' ≡ 0)) (sym (free_lem block heap s h))
      (omega (arith, live-set heap block s h, count))

open_with-IsTidy :
    (buf : Buff) (d : Driver) (heap : Heap) → IsTidy d heap → Tidy (open_with buf d heap)
unfolding open_with
open_with-IsTidy (long a ∷ long b ∷ buf) d heap h = h
open_with-IsTidy _ d heap h = h

open_ident-IsTidy :
    (buf : Buff) (d : Driver) (heap : Heap)
    → starts_with_string buf ≡ true
    → live heap ≡ 0
    → Tidy (open_ident buf d heap)
unfolding open_ident
open_ident-IsTidy (string s ∷ buf) d heap named none_left =
    open_with-IsTidy buf (record d { ident = some (length heap) }) (heap ++ some s ∷ [])
      (omega (arith, live-malloc heap s, none_left))
open_ident-IsTidy _ d heap named none_left = absurd (ground arith)

open_log-IsTidy :
    (buf : Buff) (d : Driver) (heap : Heap)
    → IsLive d heap
    → IsTidy d heap
    → starts_with_string buf ≡ true
    → Post Tidy (open_log buf d heap)
unfolding open_log
open_log-IsTidy buf d heap holds tidy named =
    Post-bind (λ heap'. live heap' ≡ 0) Tidy (free_ident d.ident heap) _
      (freed_lem d.ident heap holds tidy)
      (λ heap' none_left. open_ident-IsTidy buf d heap' named none_left)

write_log-IsTidy :
    (buf : Buff) (d : Driver) (heap : Heap) → IsTidy d heap → Post Tidy (write_log buf d heap)
unfolding write_log
write_log-IsTidy (long priority ∷ string message ∷ buf) d heap tidy =
    reads (read_ident d.ident heap)
  where
    reads :
        (text : Run (Option (List ℕ)))
        → Post Tidy (text >>= λ t. ok (logged priority message d heap t))
    reads (fault e) = tt
    reads (ok text) = tidy
write_log-IsTidy _ d heap tidy = tidy

operate-IsTidy :
    (operation : List ℕ) (buf : Buff) (d : Driver) (heap : Heap)
    → IsLive d heap
    → IsTidy d heap
    → (str_eq (codes "open") (up_to_nul operation) && not (starts_with_string buf)) ≡ false
    → Post Tidy (operate operation buf d heap)
unfolding operate
operate-IsTidy operation buf d heap holds tidy h =
    on_both (Post Tidy) (str_eq (codes "open") (up_to_nul operation))
      (λ opens. open_log-IsTidy buf d heap holds tidy (a_string _ _ opens h))
      (λ _.
        on_both (Post Tidy) (str_eq (codes "log") (up_to_nul operation) && d.is_open)
          (λ _. write_log-IsTidy buf d heap tidy)
          (λ _.
            on_both (Post Tidy) (str_eq (codes "log") (up_to_nul operation)) (λ _. tidy)
              (λ _. tidy)))

output-IsTidy :
    (buf : Buff) (d : Driver) (heap : Heap)
    → IsLive d heap
    → IsTidy d heap
    → is_bad_open buf ≡ false
    → Post Tidy (syslogdrv_output buf d heap)
unfolding syslogdrv_output
output-IsTidy (version ∷ tuple_header n ∷ atom operation ∷ buf) d heap holds tidy h =
    operate-IsTidy operation buf d heap holds tidy h
output-IsTidy _ d heap holds tidy h = tidy

-- The inputs in their order, each on what the one before it leaves, and their results.
abbrev pub run_all : List Buff → Driver → Heap → Run (Driver × Heap × List Result)
run_all [] d heap = ok (d, heap, [])
run_all (buf ∷ bufs) d heap = syslogdrv_output buf d heap >>= λ r.
    run_all bufs r.driver r.heap >>= λ last. ok (last.0, last.1, r ∷ last.2)

-- No input is an "open" whose ident is not a string.
abbrev pub NoneBad : List Buff → Type 0
NoneBad [] = Unit
NoneBad (buf ∷ bufs) = (is_bad_open buf ≡ false) × NoneBad bufs

-- Every input has its result, and the ident is the only text that is not freed.
abbrev pub Kept : List Buff → Driver × Heap × List Result → Type 0
Kept bufs (d, heap, results) = IsLive d heap × IsTidy d heap × (length results ≡ length bufs)

kept_all :
    (bufs : List Buff) (d : Driver) (heap : Heap)
    → IsLive d heap
    → IsTidy d heap
    → NoneBad bufs
    → Returns (run_all bufs d heap) (Kept bufs)
kept_all [] d heap holds tidy good = ((d, heap, []), refl, (holds, tidy, refl))
kept_all (buf ∷ bufs) d heap holds tidy (good, later) =
    let (r, e, still) = output-IsLive buf d heap holds good in
    let tidy' = subst (Post Tidy) e (output-IsTidy buf d heap holds tidy good) in
    let (last, e', (kept, clean, count)) = kept_all bufs r.driver r.heap still tidy' later in
    ((last.0, last.1, r ∷ last.2), rw (e, e') refl, (kept, clean, ap suc count))

-- From the start of the driver, every sequence of inputs, of which none is an "open" whose ident is
-- not a string, is handled without a fault, with one result for each input. At its end, the ident is
-- NULL or a text that is not freed, and no other text is left in memory: each "open" frees the ident
-- of the one before it.
pub requests :
    (logopt facility : ℤ) (bufs : List Buff)
    → NoneBad bufs
    → Returns (run_all bufs (syslogdrv_start logopt facility) []) (Kept bufs)
unfolding syslogdrv_start
requests logopt facility bufs good = kept_all bufs (syslogdrv_start logopt facility) [] tt refl good
