-- ===== src/Syslog/Lifetime.antt =====
-- The lifetime of the ident string of the system log's driver.
use hz_platform.Prelude.{
  to_int, ℕ, suc, ◌<◌, ◌≡◌, refl, ap, Bool, true, false, not, ◌&&◌, List, [], ◌∷◌, ◌++◌, Option,
  none, some, ℤ, get_elem?, set, length, arith, on_both,
}
use hz_platform.Run.{ok, ◌>>=◌, Returns}
use hz_platform.Ei.{Buff, version, tuple_header, atom, string, long}
use hz_platform.Text.{codes, str_eq, up_to_nul}
use hz_platform.Syslog.{
  Heap, Driver, Result, openlog, syslog, free, read, done, free_ident, open_with, open_ident,
  open_log, read_ident, write_log, operate, syslogdrv_output,
}

abbrev pub HoldsText : Option ℕ → Heap → Type 0
HoldsText none heap = Unit
HoldsText (some block) heap = (s : List ℕ) × (get_elem? heap block ≡ some (some s))

-- The ident is NULL or a block that is not freed, and not NULL once the log is open.
abbrev pub IsLive : Driver → Heap → Type 0
IsLive d heap = HoldsText d.ident heap

abbrev pub starts_with_string : Buff → Bool
starts_with_string (string s ∷ buf) = true
starts_with_string _ = false

-- An "open" whose ident is not a string, as the empty list is not.
abbrev pub is_bad_open : Buff → Bool
is_bad_open (version ∷ tuple_header n ∷ atom operation ∷ buf) =
    str_eq (codes "open") (up_to_nul operation) && not (starts_with_string buf)
is_bad_open _ = false

pub get_elem?-last {ℓ} :
    {A : Type ℓ} (xs : List A) (x : A) → get_elem? (xs ++ x ∷ []) (length xs) ≡ some x
get_elem?-last [] x = refl
get_elem?-last (y ∷ xs) x = get_elem?-last xs x

pub in_heap {ℓ} :
    {A : Type ℓ} (xs : List A) (i : ℕ) (x : A) → get_elem? xs i ≡ some x → i < length xs
in_heap [] i x h = absurd (ground arith)
in_heap (y ∷ xs) ℕ.zero x h = omega arith
in_heap (y ∷ xs) (suc i) x h = omega (arith, in_heap xs i x h)

pub free_lem :
    (block : ℕ) (heap : Heap) (s : List ℕ)
    → get_elem? heap block ≡ some (some s)
    → free block heap ≡ ok (set heap block none)
unfolding free
free_lem block heap s h = rw h refl

pub free_ident_lem :
    (ident : Option ℕ) (heap : Heap)
    → HoldsText ident heap
    → (heap' : Heap) × (free_ident ident heap ≡ ok heap')
unfolding free_ident
free_ident_lem none heap live = (heap, refl)
free_ident_lem (some block) heap (s, h) = (set heap block none, free_lem block heap s h)

read_ident_lem :
    (ident : Option ℕ) (heap : Heap)
    → HoldsText ident heap
    → (text : Option (List ℕ)) × (read_ident ident heap ≡ ok text)
unfolding read_ident read
read_ident_lem none heap live = (none, refl)
read_ident_lem (some block) heap (s, h) = (some (up_to_nul s), rw h refl)

open_with-IsLive :
    (buf : Buff) (d : Driver) (heap : Heap)
    → IsLive d heap
    → IsLive (open_with buf d heap).driver (open_with buf d heap).heap
unfolding open_with
open_with-IsLive (long a ∷ long b ∷ buf) d heap h = h
open_with-IsLive _ d heap h = h

open_ident-IsLive :
    (buf : Buff) (d : Driver) (heap : Heap)
    → starts_with_string buf ≡ true
    → IsLive (open_ident buf d heap).driver (open_ident buf d heap).heap
unfolding open_ident
open_ident-IsLive (string s ∷ buf) d heap h =
    open_with-IsLive buf (record d { ident = some (length heap) }) (heap ++ some s ∷ [])
      (s, get_elem?-last heap (some s))
open_ident-IsLive _ d heap h = absurd (ground arith)

pub a_string : (b c : Bool) → b ≡ true → (b && not c) ≡ false → c ≡ true
a_string true true h k = refl
a_string true false h k = absurd (ground arith)
a_string false c h k = absurd (ground arith)

abbrev IsKept : Result → Type 0
IsKept r = IsLive r.driver r.heap

open_log-IsLive :
    (buf : Buff) (d : Driver) (heap : Heap)
    → IsLive d heap
    → starts_with_string buf ≡ true
    → Returns (open_log buf d heap) IsKept
unfolding open_log
open_log-IsLive buf d heap live named =
    let (heap', freed) = free_ident_lem d.ident heap live in
    (open_ident buf d heap', rw freed refl, open_ident-IsLive buf d heap' named)

abbrev pub logged : ℤ → List ℕ → Driver → Heap → Option (List ℕ) → Result
logged priority message d heap ident =
    done d heap
      (openlog d.logopt d.facility ∷ syslog ident (to_int priority) (up_to_nul message) ∷ [])

pub open_freed :
    (buf : Buff) (d : Driver) (heap heap' : Heap)
    → free_ident d.ident heap ≡ ok heap'
    → open_log buf d heap ≡ ok (open_ident buf d heap')
unfolding open_log
open_freed buf d heap heap' freed = ap (λ r. r >>= λ h. ok (open_ident buf d h)) freed

abbrev pub request : List ℕ → Buff → Buff
request operation arguments = version ∷ tuple_header 4 ∷ atom operation ∷ arguments

write_log-IsLive :
    (buf : Buff) (d : Driver) (heap : Heap) → IsLive d heap → Returns (write_log buf d heap) IsKept
unfolding write_log
write_log-IsLive (long priority ∷ string message ∷ buf) d heap live =
    let (text, reads) = read_ident_lem d.ident heap live in
    (
      logged priority message d heap text,
      ap (λ r. r >>= λ t. ok (logged priority message d heap t)) reads,
      live,
    )
write_log-IsLive _ d heap live = (_, refl, live)

operate-IsLive :
    (operation : List ℕ) (buf : Buff) (d : Driver) (heap : Heap)
    → IsLive d heap
    → (str_eq (codes "open") (up_to_nul operation) && not (starts_with_string buf)) ≡ false
    → Returns (operate operation buf d heap) IsKept
unfolding operate
operate-IsLive operation buf d heap live h =
    on_both (λ r. Returns r IsKept) (str_eq (codes "open") (up_to_nul operation))
      (λ opens. open_log-IsLive buf d heap live (a_string _ _ opens h))
      (λ _.
        on_both (λ r. Returns r IsKept) (str_eq (codes "log") (up_to_nul operation) && d.is_open)
          (λ _. write_log-IsLive buf d heap live)
          (λ _.
            on_both (λ r. Returns r IsKept) (str_eq (codes "log") (up_to_nul operation))
              (λ _. (_, refl, live)) (λ _. (_, refl, live))))

-- As long as the ident is NULL or a block that is not freed, every input but an "open" whose ident
-- is not a string is handled without a fault, and leaves the ident so.
pub output-IsLive :
    (buf : Buff) (d : Driver) (heap : Heap)
    → IsLive d heap
    → is_bad_open buf ≡ false
    → Returns (syslogdrv_output buf d heap) (λ r. IsLive r.driver r.heap)
unfolding syslogdrv_output
output-IsLive (version ∷ tuple_header n ∷ atom operation ∷ buf) d heap live h =
    operate-IsLive operation buf d heap live h
output-IsLive _ d heap live h = (_, refl, live)
