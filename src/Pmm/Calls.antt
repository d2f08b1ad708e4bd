-- ===== src/Pmm/Calls.antt =====
-- bios/seabios/src/pmm.c: the calls of the post memory manager.
use coremu.Common.{
  ℕ, zero, suc, ◌+◌, ◌*◌, ◌/◌, ◌%◌, ◌^◌, ◌||◌, List, ltb, leb, ◌==◌, if◌then◌else◌, bit_and,
}
use coremu.Pmm.{ZoneName, zone_tmp_low, zone_low, zone_tmp_high, zone_high, Pmm, malloc_min_align}
use coremu.Pmm.Alloc.{pmm_malloc, pmm_free, pmm_getspace, pmm_find}

abbrev pub pmm_function_not_supported : ℕ
pmm_function_not_supported = 0xffffffff

abbrev pub pmm_default_handle : ℕ
pmm_default_handle = 0xffffffff

-- `*(u32*)&args[i]` of an array of u16.
abbrev pub arg32 : (ℕ → ℕ) → ℕ → ℕ
arg32 args i = args i + args (suc i) * 2 ^ 16

-- `1 << __ffs(x)`: the lowest bit of `x` that is set, for an `x` below 2 to the power of the first number.
abbrev pub lowest_bit : ℕ → ℕ → ℕ
lowest_bit zero x = 1
lowest_bit (suc n) x = let rest = lowest_bit n (x / 2) in if x % 2 == 1 then 1 else 2 * rest

abbrev pub low_zone : ℕ → ZoneName
low_zone flags = if bit_and flags 8 == 0 then zone_tmp_low else zone_low

abbrev pub high_zone : ℕ → ZoneName
high_zone flags = if bit_and flags 8 == 0 then zone_tmp_high else zone_high

-- A request for the size of the free space.
unfoldable pub space_request : ℕ → Pmm → ℕ
unfolding pmm_getspace
space_request flags s =
    let spacelow = pmm_getspace (low_zone flags) s in
    let spacehigh = pmm_getspace (high_zone flags) s in
    if bit_and flags 3 == 1
    then spacelow
    else if bit_and flags 3 == 2
    then spacehigh
    else if bit_and flags 3 == 3
    then (if ltb spacehigh spacelow then spacelow else spacehigh)
    else 0

abbrev pub request_align : ℕ → ℕ → ℕ
request_align flags size =
    if bit_and flags 4 == 0
    then malloc_min_align
    else if ltb (lowest_bit 32 size) malloc_min_align
    then malloc_min_align
    else lowest_bit 32 size

-- The second attempt of a request for any memory.
abbrev pub or_high : List (Pmm → Pmm) → ZoneName → ℕ → ℕ → ℕ → ℕ × Pmm → ℕ × Pmm
or_high waits highzone handle size align (p, s) =
    if p == 0 then pmm_malloc waits highzone handle size align s else (p, s)

-- A request for memory.
unfoldable pub block_request : List (Pmm → Pmm) → ℕ → ℕ → ℕ → Pmm → ℕ × Pmm
unfolding pmm_malloc
block_request waits flags handle size s =
    let align = request_align flags size in
    if bit_and flags 3 == 1
    then pmm_malloc waits (low_zone flags) handle size align s
    else if bit_and flags 3 == 2
    then pmm_malloc waits (high_zone flags) handle size align s
    else if bit_and flags 3 == 3
    then or_high waits (high_zone flags) handle size align
        (pmm_malloc waits (low_zone flags) handle size align s)
    else (0, s)

unfoldable pub handle_pmm00 : List (Pmm → Pmm) → (ℕ → ℕ) → Pmm → ℕ × Pmm
unfolding space_request block_request
handle_pmm00 waits args s =
    let length = arg32 args 1 in
    let size = length * 16 % 2 ^ 32 in
    if length == 0
    then (space_request (args 5) s, s)
    else if size == 0 || leb (2 ^ 31) size
    then (0, s)
    else block_request waits (args 5) (arg32 args 3) size s

unfoldable pub handle_pmm01 : (ℕ → ℕ) → Pmm → ℕ
unfolding pmm_find
handle_pmm01 args s = if arg32 args 1 == pmm_default_handle then 0 else pmm_find (arg32 args 1) s

unfoldable pub handle_pmm02 : (ℕ → ℕ) → Pmm → ℕ × Pmm
unfolding pmm_free
handle_pmm02 args s = let (ok, s') = pmm_free (arg32 args 1) s in (if ok then 0 else 1, s')

unfoldable pub handle_pmm : List (Pmm → Pmm) → (ℕ → ℕ) → Pmm → ℕ × Pmm
unfolding handle_pmm00 handle_pmm01 handle_pmm02
handle_pmm waits args s =
    if args 0 == 0
    then handle_pmm00 waits args s
    else if args 0 == 1
    then (handle_pmm01 args s, s)
    else if args 0 == 2
    then handle_pmm02 args s
    else (pmm_function_not_supported, s)
