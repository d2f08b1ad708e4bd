-- ===== src/Pmm/Ebda.antt =====
-- bios/seabios/src/pmm.c: how the low zone grows, by a move of the extended BIOS data area.
use coremu.Common.{
  ℕ, ◌+◌, ◌-◌, ◌*◌, ◌/◌, ◌%◌, ◌^◌, not, ◌&&◌, Option, none, some, List, [], ◌∷◌, ltb, leb, ◌==◌,
  if◌then◌else◌,
}
use coremu.Pmm.{zone_low, set_zone, Pmm, sub32, align_down, newpos}

abbrev pub build_ebda_minimum : ℕ
build_ebda_minimum = 0x90000

-- `memmove` of `n` bytes.
abbrev pub moved : ℕ → ℕ → ℕ → (ℕ → ℕ) → ℕ → ℕ
moved to from n bytes x = if leb to x && ltb x (to + n) then bytes (from + (x - to)) else bytes x

-- Nothing when it gives up.
unfoldable pub relocate_ebda : ℕ → ℕ → ℕ → Pmm → Option Pmm
relocate_ebda newebda oldebda ebda_size s =
    if not (oldebda == s.mem_size_kb * 1024)
    then none
    else some (record s {
      bytes = moved newebda oldebda (ebda_size * 1024) s.bytes;
      mem_size_kb = newebda / 1024 % 2 ^ 16;
      ebda_seg = newebda / 16 % 2 ^ 16;
    })

abbrev pub grow : ℕ → ℕ → Option Pmm → Pmm → Pmm
grow oldpos newbottom none s = s
grow oldpos newbottom (some s') s =
    set_zone zone_low (record (s'.zones zone_low) { cur = oldpos; bottom = newbottom }) s'

-- The move itself, with the positions that the block is to go between.
unfoldable pub move_to : ℕ → ℕ → ℕ → ℕ → Pmm → Pmm
unfolding relocate_ebda
move_to ebda_pos ebda_size oldpos newpos' s =
    let newbottom = align_down newpos' 1024 in
    let newebda = align_down (sub32 newbottom (ebda_size * 1024)) 1024 in
    if ltb newebda build_ebda_minimum
    then s
    else grow oldpos newbottom (relocate_ebda newebda ebda_pos ebda_size s) s

-- The part behind the loop, with the positions that the loop found.
unfoldable pub move_ebda : ℕ → ℕ → ℕ → ℕ → Pmm → Pmm
unfolding move_to
move_ebda size align oldpos newpos' s =
    let ebda_pos = s.ebda_seg * 16 in
    let ebda_size = s.bytes ebda_pos in
    let ebda_end = ebda_pos + ebda_size * 1024 in
    if ebda_end == (s.zones zone_low).bottom
    then move_to ebda_pos ebda_size oldpos newpos' s
    else move_to ebda_pos ebda_size ebda_end (align_down (sub32 ebda_end size) align) s

-- `waits` is what other threads do each time that `wait_preempt` waits for an option ROM.
unfoldable pub zonelow_expand : List (Pmm → Pmm) → ℕ → ℕ → Pmm → Pmm
unfolding move_ebda
zonelow_expand [] size align s =
    if leb (s.zones zone_low).bottom (newpos (s.zones zone_low) size align)
      && leb (newpos (s.zones zone_low) size align) (s.zones zone_low).cur
    then s
    else move_ebda size align (s.zones zone_low).cur (newpos (s.zones zone_low) size align) s
zonelow_expand (wait ∷ waits) size align s =
    let rest = zonelow_expand waits size align (wait s) in
    if leb (s.zones zone_low).bottom (newpos (s.zones zone_low) size align)
      && leb (newpos (s.zones zone_low) size align) (s.zones zone_low).cur
    then s
    else rest
