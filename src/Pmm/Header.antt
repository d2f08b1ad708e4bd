-- ===== src/Pmm/Header.antt =====
-- bios/seabios/src/pmm.c: the header of the post memory manager.
use coremu.Common.{ℕ, ◌+◌, ◌-◌, ◌/◌, ◌%◌, ◌^◌, ◌≡◌, List, [], ◌∷◌, arith}
use coremu.Checksum.{checksum_of, total, sum_bytes-total, balanced}
use coremu.Pmm.Setup.{build_bios_addr}

-- `struct pmmheader`, with the five reserved bytes, which are zero.
pub record PmmHeader : Type 0 where
  pub signature : ℕ  -- u32
  pub version : ℕ  -- u8
  pub length : ℕ  -- u8
  pub checksum : ℕ  -- u8
  pub entry_offset : ℕ  -- u16
  pub entry_seg : ℕ  -- u16

-- The bytes of the packed structure, low bytes first.
abbrev pub header_bytes : PmmHeader → List ℕ
header_bytes h =
    h.signature % 256
    ∷ h.signature / 256 % 256
    ∷ h.signature / 65536 % 256
    ∷ h.signature / 16777216 % 256
    ∷ h.version
    ∷ h.length
    ∷ h.checksum
    ∷ h.entry_offset % 256
    ∷ h.entry_offset / 256 % 256
    ∷ h.entry_seg % 256
    ∷ h.entry_seg / 256 % 256
    ∷ 0
    ∷ 0
    ∷ 0
    ∷ 0
    ∷ 0
    ∷ []

-- The initial value of `PMMHEADER`.
abbrev pub initial_header : PmmHeader
initial_header = record {
  signature = 0;
  version = 1;
  length = 16;
  checksum = 0;
  entry_offset = 0;
  entry_seg = 0xf000;
}

abbrev pub pmm_signature : ℕ
pmm_signature = 0x4d4d5024

-- `entry_pmm` is the address of the entry point.
abbrev pub with_entry : ℕ → PmmHeader → PmmHeader
with_entry entry_pmm h = record h {
  signature = pmm_signature;
  entry_offset = (entry_pmm + (2 ^ 32 - build_bios_addr)) % 2 ^ 32 % 2 ^ 16;
}

-- `PMMHEADER.checksum -= checksum(…)`.
abbrev pub with_checksum : PmmHeader → PmmHeader
with_checksum h = record h { checksum = (h.checksum + (256 - checksum_of (header_bytes h))) % 256 }

unfoldable pub pmm_setup : ℕ → PmmHeader → PmmHeader
unfolding checksum_of
pmm_setup entry_pmm h = with_checksum (with_entry entry_pmm h)

unfoldable pub pmm_finalize : PmmHeader → PmmHeader
pmm_finalize h = record h { signature = 0; entry_offset = 0 }

-- The byte that the checksum adds.
total-checksum :
    (h : PmmHeader) (x : ℕ)
    → total (header_bytes (record h { checksum = x }))
      ≡ x + total (header_bytes (record h { checksum = 0 }))
unfolding total
total-checksum h x = omega arith

-- A header whose checksum is reduced by the sum of its bytes adds up to 0.
corrected : (h : PmmHeader) → checksum_of (header_bytes (with_checksum h)) ≡ 0
unfolding checksum_of
corrected h =
    let rest = total (header_bytes (record h { checksum = 0 })) in
    omega (
      arith,
      sum_bytes-total 0 (header_bytes h) (omega arith),
      sum_bytes-total 0 (header_bytes (with_checksum h)) (omega arith),
      total-checksum h h.checksum,
      total-checksum h ((h.checksum + (256 - checksum_of (header_bytes h))) % 256),
      balanced h.checksum rest,
    )

-- After pmm_setup the sixteen bytes of the header add up to 0 modulo 256, as those who look for the
-- header check, whatever was in its other fields.
pmm_setup-checksum :
    (entry_pmm : ℕ) (h : PmmHeader) → checksum_of (header_bytes (pmm_setup entry_pmm h)) ≡ 0
unfolding pmm_setup
pmm_setup-checksum entry_pmm h = corrected (with_entry entry_pmm h)
