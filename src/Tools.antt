-- ===== src/Tools.antt =====
-- utils/monitor.c and utils/kill.c: the tools that show and stop the threads of an emulator. What is
-- read from /proc is an argument; strings are lists of bytes.
pub mod Filter
pub mod Processors
pub mod Screen
mod Tests
use coremu.Common.{
  ℕ, zero, suc, ◌+◌, ◌-◌, ◌*◌, ◌/◌, ◌%◌, Bool, true, false, ◌&&◌, not, Option, none, some, List, [],
  ◌∷◌, ◌++◌, leb, ◌==◌, if◌then◌else◌,
}
use coremu.Common.Int.{ℤ, pos, ◌-ℤ◌}

-- The string starts with the other one.
abbrev pub is_prefix : List ℕ → List ℕ → Bool
is_prefix [] s = true
is_prefix (c ∷ cs) [] = false
is_prefix (c ∷ cs) (d ∷ ds) = c == d && is_prefix cs ds

-- `strstr`: where the first occurrence of `needle` starts, counted from `i`.
unfoldable pub strstr : ℕ → List ℕ → List ℕ → Option ℕ
strstr i [] needle = if is_prefix needle [] then some i else none
strstr i (c ∷ cs) needle = if is_prefix needle (c ∷ cs) then some i else strstr (suc i) cs needle

-- The test of the loop in `count_processor`.
abbrev pub is_cpu : List ℕ → Bool
is_cpu (c ∷ d ∷ e ∷ rest) = c == 99 && d == 112 && e == 117
is_cpu _ = false

-- `fgets`: the next line, or at the end of the file the buffer as it was, and the lines after it.
abbrev pub fgets : List ℕ → List (List ℕ) → List ℕ × List (List ℕ)
fgets buffer [] = (buffer, [])
fgets buffer (line ∷ lines) = (line, lines)

-- The loop, with `procs` as it is after the increment; `none` if the fuel is used up.
unfoldable pub count_loop : ℕ → ℕ → List ℕ → List (List ℕ) → Option ℕ
count_loop zero procs buffer lines = none
count_loop (suc fuel) procs buffer lines =
    let (buffer', lines') = fgets buffer lines in
    let rest = count_loop fuel (suc procs) buffer' lines' in
    if is_cpu buffer' then rest else some procs

abbrev less_one : Option ℕ → Option ℤ
less_one none = none
less_one (some n) = some (pos n -ℤ pos 1)

-- `count_processor` on the lines of /proc/stat; `junk` is what the buffer holds before.
unfoldable pub count_processor : ℕ → List ℕ → List (List ℕ) → Option ℤ
unfolding count_loop
count_processor fuel junk lines = less_one (count_loop fuel 0 junk lines)

-- `struct process_t`; `none` is the processor -1.
pub record Process : Type 0 where
  pub pid : ℕ
  pub comm : List ℕ
  pub state : ℕ
  pub processor : Option ℕ

-- A directory of /proc with what `open_process` reads of it and of its tasks.
pub record Entry : Type 0 where
  pub name : List ℕ
  pub process : Process
  pub tasks : List Process

abbrev pub is_number : List ℕ → Bool
is_number [] = false
is_number (c ∷ cs) = leb 48 c && leb c 57

abbrev pub tail : List ℕ → List ℕ
tail [] = []
tail (c ∷ cs) = cs

-- `strstr(pp.comm + 1, pfilter) == pp.comm + 1`.
unfoldable pub matches : List ℕ → Process → Bool
matches pfilter p = elim (strstr 0 (tail p.comm) pfilter) as (λ _. Bool) [
  | none ↦ false
  | some i ↦ i == 0
]

-- One character of `print_processor` for processor `i`.
abbrev pub mark : Process → ℕ → ℕ
mark p i = elim p.processor as (λ _. ℕ) [ none ↦ 124 | some n ↦ if i == n then p.state else 124 ]

-- The loop of `print_processor` from processor `i` on.
unfoldable pub marks : Process → ℕ → ℕ → List ℕ
marks p i zero = []
marks p i (suc n) = mark p i ∷ marks p (suc i) n

unfoldable pub print_processor : ℕ → Process → List ℕ
print_processor proc_cnt p = 91 ∷ (marks p 0 proc_cnt ++ 93 ∷ [])

-- Where `refresh_list` writes thread number `th`.
abbrev pub place : ℕ → ℕ × ℕ
place th = (th % 48 + 1, th / 48 * 32)

-- The loop over the tasks from thread number `th` on: what is written where, and the next number.
unfoldable pub draw_tasks : ℕ → List Process → List ((ℕ × ℕ) × Process) × ℕ
draw_tasks th [] = ([], th)
draw_tasks th (p ∷ ps) = elim p.processor as (λ _. List ((ℕ × ℕ) × Process) × ℕ) [
  | none ↦ draw_tasks th ps
  | some n ↦ ((place th, p) ∷ (draw_tasks (suc th) ps).0, (draw_tasks (suc th) ps).1)
]

-- The loop of `refresh_list` over /proc.
unfoldable pub refresh_list : List ℕ → ℕ → List Entry → List ((ℕ × ℕ) × Process)
refresh_list pfilter th [] = []
refresh_list pfilter th (e ∷ es) =
    let rest = refresh_list pfilter th es in
    let (drawn, th') = draw_tasks th e.tasks in
    let after = refresh_list pfilter th' es in
    if is_number e.name && matches pfilter e.process then drawn ++ after else rest

-- `doit` of utils/kill.c: the processes that are killed, in order.
unfoldable pub doit : List ℕ → List Entry → List ℕ
doit pfilter [] = []
doit pfilter (e ∷ es) =
    let rest = doit pfilter es in
    if is_number e.name && matches pfilter e.process
    then (e.process.pid - 1) ∷ e.process.pid ∷ rest
    else rest
