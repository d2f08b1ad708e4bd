-- ===== src/MemMap.antt =====
-- bios/seabios/src/memmap.c: the map of physical memory, a sorted list of areas.
pub mod Add
pub mod Types
pub mod High
mod Tests
use coremu.Common.{
  not, ◌||◌, ◌*◌, ℕ, zero, suc, ◌+◌, ◌-◌, ◌%◌, ◌^◌, Bool, true, false, ◌&&◌, Option, none, some,
  List, [], ◌∷◌, leb, ltb, ◌==◌, length, if◌then◌else◌,
}

-- `struct e820entry`.
pub record Area : Type 0 where
  pub start : ℕ  -- u64
  pub size : ℕ  -- u64
  pub type : ℕ  -- u32

abbrev pub area : ℕ → ℕ → ℕ → Area
area a n t = record { start = a; size = n; type = t }

abbrev pub max_e820 : ℕ
max_e820 = 32

abbrev pub e820_ram : ℕ
e820_ram = 1

-- -1 as u32.
abbrev pub e820_hole : ℕ
e820_hole = 4294967295

abbrev pub end_of : Area → ℕ
end_of e = (e.start + e.size) % 2 ^ 64

-- `insert_e820` in front of `rest`, with `k` areas before; a full list stays as it is.
unfoldable pub insert_e820 : ℕ → Area → List Area → List Area
insert_e820 k a rest = if leb max_e820 (k + length rest) then rest else a ∷ rest

-- The end of `add_e820`.
unfoldable pub insert_new : ℕ → Area → List Area → List Area
unfolding insert_e820
insert_new k a rest = if a.type == e820_hole then rest else insert_e820 k a rest

-- The second loop of `add_e820`, from the position behind `k` areas on, and the insertion.
unfoldable pub overlap : ℕ → Area → ℕ → List Area → List Area
overlap k a end [] = insert_new k a []
overlap k a end (e ∷ es) =
    let rest = overlap k a end es in
    if ltb end e.start
    then insert_new k a (e ∷ es)
    else if leb (end_of e) end
    then rest
    else if a.type == e.type
    then insert_new k (record a { size = (a.size + (end_of e - end)) % 2 ^ 64 }) es
    else insert_new k a (area end (end_of e - end) e.type ∷ es)

-- The first loop of `add_e820`, which finds the position and splits the area there.
unfoldable pub find : ℕ → Area → ℕ → List Area → List Area
find k a end [] = overlap k a end []
find k a end (e ∷ es) =
    let rest = find (suc k) a end es in
    if ltb (end_of e) a.start
    then e ∷ rest
    else if ltb e.start a.start
    then (if a.type == e.type
        then overlap k (area e.start ((a.size + (a.start - e.start)) % 2 ^ 64) a.type) end (e ∷ es)
        else area e.start (a.start - e.start) e.type
          ∷ (if ltb end (end_of e)
              then overlap (suc k) a end (insert_e820 (suc k) (area end (end_of e - end) e.type) es)
              else overlap (suc k) a end es))
    else overlap k a end (e ∷ es)

unfoldable pub add_e820 : ℕ → ℕ → ℕ → List Area → List Area
add_e820 start size type list =
    if size == 0 then list else find 0 (area start size type) ((start + size) % 2 ^ 64) list

-- The loop of `find_high_area` over the areas from the last one on.
unfoldable pub scan_high : ℕ → List Area → Option Area
scan_high size [] = none
scan_high size (e ∷ es) =
    let rest = scan_high size es in
    if not (e.type == e820_ram) || ltb 4294967295 (end_of e) || ltb e.size size
    then rest
    else if ltb (end_of e) ((1024 * 1024 + size) % 2 ^ 32)
    then none
    else some e

abbrev backwards : List Area → List Area → List Area
backwards [] bs = bs
backwards (e ∷ es) bs = backwards es (e ∷ bs)

unfoldable pub find_high_area : ℕ → List Area → Option Area
unfolding scan_high
find_high_area size list = scan_high size (backwards list [])
