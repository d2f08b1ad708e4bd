-- ===== src/MemMap/Tests.antt =====
-- bios/seabios/src/memmap.c: areas that split, shorten, join and remove each other.
use coremu.Common.{some, ◌≡◌, refl, List, [], ◌∷◌, arith, if◌then◌else◌}
use coremu.MemMap.{
  find_high_area, scan_high, Area, area, insert_e820, insert_new, overlap, find, add_e820,
}
use coremu.MemMap.Types.{is_in, type_at}
use coremu.MemMap.Add.{add_e820-type_at}

abbrev ram : List Area
ram = area 0 100 1 ∷ area 200 100 1 ∷ []

areas_test :
    (add_e820 40 20 2 ram ≡ area 0 40 1 ∷ area 40 20 2 ∷ area 60 40 1 ∷ area 200 100 1 ∷ [])
    × (add_e820 80 150 1 ram ≡ area 0 300 1 ∷ [])
    × (add_e820 50 200 4294967295 ram ≡ area 0 50 1 ∷ area 250 50 1 ∷ [])
unfolding add_e820 find overlap insert_new insert_e820
areas_test = (refl, refl, refl)

add_e820-type_at_example :
    type_at (add_e820 80 150 2 ram) 210 ≡ (if is_in 210 (area 80 150 2) then 2 else type_at ram 210)
add_e820-type_at_example =
    add_e820-type_at 80 150 2 0 210 ram (omega arith, omega arith, (omega arith, omega arith, tt))
      (omega arith) (omega arith)

-- The highest area that is large enough and lies below 4 GB.
high_test :
    find_high_area 4096 (
      area 0 655360 1
      ∷ area 1048576 133169152 1
      ∷ area 134217728 65536 2
      ∷ area 4294967296 1073741824 1
      ∷ [])
    ≡ some (area 1048576 133169152 1)
unfolding find_high_area scan_high
high_test = refl
