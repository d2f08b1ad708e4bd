-- ===== src/Pmm/Setup.antt =====
-- bios/seabios/src/pmm.c: the zones at the start and at the end of the BIOS.
use coremu.Common.{
  ℕ, ◌+◌, ◌-◌, ◌*◌, ◌%◌, ◌^◌, ◌&&◌, Option, none, some, List, [], ltb, leb, if◌then◌else◌,
}
use coremu.MemMap.{Area, e820_ram, add_e820, find_high_area}
use coremu.Pmm.{
  Zone, zone_tmp_low, zone_low, zone_fseg, zone_tmp_high, zone_high, Pmm, set_zone, sub32,
  align_down, align_up, malloc_min_align,
}
use coremu.Pmm.Ebda.{build_ebda_minimum}

abbrev pub config_max_biostable : ℕ
config_max_biostable = 4 * 2048

abbrev pub config_max_hightable : ℕ
config_max_hightable = 64 * 1024

abbrev pub build_bios_addr : ℕ
build_bios_addr = 0xf0000

abbrev pub build_stack_addr : ℕ
build_stack_addr = 0x7000

abbrev pub build_lowram_end : ℕ
build_lowram_end = 0xa0000

abbrev pub e820_reserved : ℕ
e820_reserved = 2

abbrev pub page_size : ℕ
page_size = 4096

-- `memset` of `n` bytes to zero.
abbrev pub zeroed : ℕ → ℕ → (ℕ → ℕ) → ℕ → ℕ
zeroed to n bytes x = if leb to x && ltb x (to + n) then 0 else bytes x

abbrev pub fresh : ℕ → ℕ → Zone
fresh bottom top = record { top = top; bottom = bottom; cur = top }

-- The zones in low memory; the two addresses are those of the linker.
unfoldable pub setup_low : ℕ → ℕ → Pmm → Pmm
setup_low bios_table_space code32flat_start s =
    set_zone zone_low (fresh build_lowram_end build_lowram_end) (
      set_zone zone_tmp_low (fresh build_stack_addr build_ebda_minimum) (
        set_zone zone_fseg
          (fresh bios_table_space ((bios_table_space + config_max_biostable) % 2 ^ 32))
          (record s {
            pmm_allocs = [];
            bytes = zeroed bios_table_space config_max_biostable (
                if ltb build_bios_addr code32flat_start
                then zeroed build_bios_addr (code32flat_start - build_bios_addr) s.bytes
                else s.bytes);
          })))

-- The zones at the top of the area `e`, and the map of memory.
unfoldable pub setup_high : Area → List Area → Pmm → Pmm × List Area
setup_high e e820 s =
    let top = (e.start + e.size) % 2 ^ 32 in
    let high_bottom = align_up (sub32 top config_max_hightable) malloc_min_align in
    (
      set_zone zone_tmp_high (fresh (align_up (e.start % 2 ^ 32) malloc_min_align) high_bottom) (
          set_zone zone_high (fresh high_bottom ((high_bottom + config_max_hightable) % 2 ^ 32)) s),
      add_e820 high_bottom config_max_hightable e820_reserved e820,
    )

abbrev pub high_zones : List Area → Pmm → Option Area → Pmm × List Area
high_zones e820 s none =
    (set_zone zone_tmp_high (fresh 0 0) (set_zone zone_high (fresh 0 0) s), e820)
high_zones e820 s (some e) = setup_high e e820 s

unfoldable pub malloc_setup : ℕ → ℕ → List Area → Pmm → Pmm × List Area
unfolding setup_low setup_high find_high_area add_e820
malloc_setup bios_table_space code32flat_start e820 s =
    high_zones e820 (setup_low bios_table_space code32flat_start s)
      (find_high_area (config_max_hightable + malloc_min_align) e820)

unfoldable pub malloc_finalize : List Area → Pmm → Pmm × List Area
unfolding add_e820
malloc_finalize e820 s =
    let endlow = s.mem_size_kb * 1024 in
    let high = s.zones zone_high in
    let giveback = align_down (sub32 high.cur high.bottom) page_size in
    let tmp = s.zones zone_tmp_low in
    (
      record s { bytes = zeroed tmp.bottom (sub32 tmp.top tmp.bottom) s.bytes },
      add_e820 high.bottom giveback e820_ram
          (add_e820 endlow (sub32 build_lowram_end endlow) e820_reserved e820),
    )
