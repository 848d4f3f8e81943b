-- ===== src/Syslog.antt =====
-- lib/erlang-syslog/c_src/syslog_drv.c, the port driver for the system log. The heap holds the ident
-- strings: a block is its content, or `none` once it is freed. An input is the items that ei decodes
-- from it; an integer of it fits a C `long`.
pub mod Lifetime
pub mod Dangling
pub mod Written
pub mod Requests
mod Tests
use hz_platform.Prelude.{
  ℕ, ◌+◌, ◌-◌, ◌%◌, ◌^◌, Bool, true, false, List, [], ◌∷◌, ◌++◌, Option, none, some, ℤ, pos, negsuc,
  to_int, if◌then◌else◌, ◌&&◌, get_elem?, set, length,
}
use hz_platform.Run.{Run, ok, fault, use_after_free, ◌>>=◌}
use hz_platform.Ei.{Item, Buff, version, tuple_header, atom, string, long}
use hz_platform.Text.{codes, str_eq, up_to_nul}

abbrev pub Heap : Type 0
Heap = List (Option (List ℕ))

-- struct syslogdrv; `none` is a NULL ident.
pub record Driver : Type 0 where
  pub is_open : Bool
  pub ident : Option ℕ
  pub logopt : ℤ
  pub facility : ℤ

-- What the driver asks the system for, with the texts that it then reads.
pub data Call : Type 0 where
  openlog : ℤ → ℤ → Call
  syslog : Option (List ℕ) → ℤ → List ℕ → Call

pub record Result : Type 0 where
  pub driver : Driver
  pub heap : Heap
  pub calls : List Call
  pub answer : Buff

-- `malloc` and the decoding of a string into the new block; `free`; a read of a string.
abbrev pub malloc : List ℕ → Heap → ℕ × Heap
malloc s heap = (length heap, heap ++ some s ∷ [])

-- The content of a block that is not freed.
abbrev pub content : Option (Option (List ℕ)) → Run (List ℕ)
content none = fault use_after_free
content (some none) = fault use_after_free
content (some (some s)) = ok s

unfoldable pub free : ℕ → Heap → Run Heap
free block heap = content (get_elem? heap block) >>= λ s. ok (set heap block none)

unfoldable pub read : ℕ → Heap → Run (List ℕ)
read block heap = content (get_elem? heap block) >>= λ s. ok (up_to_nul s)

unfoldable pub encode_error : List ℕ → Buff
encode_error error = tuple_header 2 ∷ atom (codes "error") ∷ atom error ∷ []

-- The fields that are not set hold what they held.
unfoldable pub syslogdrv_start : (logopt facility : ℤ) → Driver
syslogdrv_start logopt facility = record {
  is_open = false;
  ident = none;
  logopt = logopt;
  facility = facility;
}

abbrev pub refused : List ℕ → Driver → Heap → Result
refused error d heap = record {
  driver = d;
  heap = heap;
  calls = [];
  answer = version ∷ encode_error error;
}

abbrev pub done : Driver → Heap → List Call → Result
done d heap calls = record {
  driver = d;
  heap = heap;
  calls = calls;
  answer = version ∷ atom (codes "ok") ∷ [];
}

-- `if (d->ident) free(d->ident);`, which leaves the pointer as it is.
unfoldable pub free_ident : Option ℕ → Heap → Run Heap
free_ident none heap = ok heap
free_ident (some block) heap = free block heap

-- The two integers of "open", behind the new ident.
unfoldable pub open_with : Buff → Driver → Heap → Result
open_with (long logopt ∷ long facility ∷ buf) d heap =
    done (record d { is_open = true; logopt = to_int logopt; facility = to_int facility }) heap
      (openlog (to_int logopt) (to_int facility) ∷ [])
open_with _ d heap = refused (codes "badarg") d heap

-- "open" behind `free`: a string gives the ident.
unfoldable pub open_ident : Buff → Driver → Heap → Result
open_ident (string s ∷ buf) d heap =
    let (block, heap') = malloc s heap in open_with buf (record d { ident = some block }) heap'
open_ident _ d heap = refused (codes "badarg") d heap

unfoldable pub open_log : Buff → Driver → Heap → Run Result
open_log buf d heap = free_ident d.ident heap >>= λ heap'. ok (open_ident buf d heap')

-- What syslog reads behind the ident that openlog was given.
unfoldable pub read_ident : Option ℕ → Heap → Run (Option (List ℕ))
read_ident none heap = ok none
read_ident (some block) heap = read block heap >>= λ s. ok (some s)

unfoldable pub write_log : Buff → Driver → Heap → Run Result
write_log (long priority ∷ string message ∷ buf) d heap = do
  ident ← read_ident d.ident heap
  ok (
      done d heap
        (openlog d.logopt d.facility ∷ syslog ident (to_int priority) (up_to_nul message) ∷ []))
write_log _ d heap = ok (refused (codes "badarg") d heap)

-- The operations, by their name.
unfoldable pub operate : List ℕ → Buff → Driver → Heap → Run Result
operate operation buf d heap =
    if str_eq (codes "open") (up_to_nul operation)
    then open_log buf d heap
    else (if str_eq (codes "log") (up_to_nul operation) && d.is_open
        then write_log buf d heap
        else (if str_eq (codes "log") (up_to_nul operation)
            then ok (refused (codes "notopen") d heap)
            else ok (refused (codes "badarg") d heap)))

unfoldable pub syslogdrv_output : Buff → Driver → Heap → Run Result
syslogdrv_output (version ∷ tuple_header n ∷ atom operation ∷ buf) d heap =
    operate operation buf d heap
syslogdrv_output (version ∷ buf) d heap = ok (refused (codes "badarg") d heap)
syslogdrv_output _ d heap = ok (refused (codes "badver") d heap)

-- The driver is freed; the heap of the ident strings is left as it is.
unfoldable pub syslogdrv_stop : Driver → Heap → Heap
syslogdrv_stop d heap = heap
