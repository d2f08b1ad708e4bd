-- ===== src/Disk/Tables.antt =====
-- bios/seabios/src/disk.h, bios/seabios/src/biosvar.h, bios/seabios/src/ata.h: the tables that service
-- 48h of interrupt 13h fills in. Bytes are below 256.
use coremu.Common.{
  ℕ, zero, suc, ◌+◌, ◌-◌, ◌*◌, ◌/◌, ◌%◌, ◌^◌, Bool, ◌||◌, Option, none, some, List, [], ◌∷◌, ◌++◌,
  ltb, ◌==◌, if◌then◌else◌,
}
use coremu.Checksum.{checksum_of}
use coremu.Drives.{
  Drive, dtype_ata, dtype_atapi, translation_none, translation_lba, translation_rechs,
}

-- `struct int13dpt_s`.
pub record Dpt : Type 0 where
  pub size : ℕ  -- u16
  pub infos : ℕ  -- u16
  pub cylinders : ℕ  -- u32
  pub heads : ℕ  -- u32
  pub spt : ℕ  -- u32
  pub sector_count : ℕ  -- u64
  pub blksize : ℕ  -- u16
  pub dpte_offset : ℕ  -- u16
  pub dpte_segment : ℕ  -- u16
  pub key : ℕ  -- u16
  pub dpi_length : ℕ
  pub reserved1 : ℕ
  pub reserved2 : ℕ  -- u16
  pub host_bus : List ℕ
  pub iface_type : List ℕ
  pub iface_path : ℕ  -- u64
  pub device_path : ℕ  -- u64
  pub reserved3 : ℕ
  pub checksum : ℕ

-- `struct dpte_s`.
pub record Dpte : Type 0 where
  pub iobase1 : ℕ  -- u16
  pub iobase2 : ℕ  -- u16
  pub prefix : ℕ
  pub unused : ℕ
  pub irq : ℕ
  pub blkcount : ℕ
  pub dma : ℕ
  pub pio : ℕ
  pub options : ℕ  -- u16
  pub reserved : ℕ  -- u16
  pub revision : ℕ
  pub checksum : ℕ

-- The fields of `struct atadrive_s` and of its channel; a `pci_bdf` of -1 is `none`.
pub record AtaDrive : Type 0 where
  pub iobase1 : ℕ  -- u16
  pub iobase2 : ℕ  -- u16
  pub irq : ℕ
  pub pci_bdf : Option ℕ
  pub slave : ℕ

-- The bytes of a field, low bytes first.
unfoldable pub bytes_of : ℕ → ℕ → List ℕ
bytes_of zero x = []
bytes_of (suc n) x = x % 256 ∷ bytes_of n (x / 256)

-- The bytes of a table without the checksum behind them.
abbrev pub dpte_body : Dpte → List ℕ
dpte_body t =
    bytes_of 2 t.iobase1
    ++ (bytes_of 2 t.iobase2
        ++ (t.prefix
            ∷ t.unused
            ∷ t.irq
            ∷ t.blkcount
            ∷ t.dma
            ∷ t.pio
            ∷ (bytes_of 2 t.options ++ (bytes_of 2 t.reserved ++ (t.revision ∷ [])))))

-- The same from the field `key` on.
abbrev pub dpi_body : Dpt → List ℕ
dpi_body t =
    bytes_of 2 t.key
    ++ (t.dpi_length
        ∷ t.reserved1
        ∷ (bytes_of 2 t.reserved2
            ++ (t.host_bus
                ++ (t.iface_type
                    ++ (bytes_of 8 t.iface_path
                        ++ (bytes_of 8 t.device_path ++ (t.reserved3 ∷ [])))))))

abbrev pub lacking : List ℕ → ℕ
lacking bytes = (256 - checksum_of bytes) % 256

-- EDD 1.
abbrev pub edd_1 : Drive → Dpt → Dpt
edd_1 drive dpt =
    if drive.type == dtype_atapi
    then record dpt {
      size = 26;
      infos = 0x74;
      cylinders = 2 ^ 32 - 1;
      heads = 2 ^ 32 - 1;
      spt = 2 ^ 32 - 1;
      sector_count = 2 ^ 64 - 1;
      blksize = drive.blksize;
    }
    else let invalid = ltb (drive.pchs.spt * drive.pchs.heads * 0x3fff) drive.sectors in
      record dpt {
        size = 26;
        infos = if invalid then 0 else 2;
        cylinders = if invalid then 0x3fff else drive.pchs.cylinders;
        heads = drive.pchs.heads;
        spt = drive.pchs.spt;
        sector_count = drive.sectors;
        blksize = drive.blksize;
      }

-- The bits stand apart, so that their sum is what the code computes by `|=`.
abbrev pub dpte_options : Drive → ℕ
dpte_options drive =
    (if drive.type == dtype_ata
      then (if drive.translation == translation_none
          then 0
          else 2 ^ 3
            + (if drive.translation == translation_lba then 2 ^ 9 else 0)
            + (if drive.translation == translation_rechs then 3 * 2 ^ 9 else 0))
      else 2 ^ 5 + 2 ^ 6)
    + 2 ^ 4

-- EDD 2: the table in the EBDA, at `dpte_offset` of the segment `ebda_seg`, and the pointer to it.
abbrev pub edd_2 : ℕ → ℕ → Dpt → Dpt
edd_2 ebda_seg offset dpt = record dpt { size = 30; dpte_segment = ebda_seg; dpte_offset = offset }

abbrev pub dpte_fields : AtaDrive → Drive → Dpte → Dpte
dpte_fields ata drive dpte = record dpte {
  iobase1 = ata.iobase1;
  iobase2 = (ata.iobase2 + 2) % 2 ^ 16;
  prefix = (if ata.slave == 0 then 0xa0 else 0xb0) + 0x40;
  unused = 0xcb;
  irq = ata.irq;
  blkcount = 1;
  dma = 0;
  pio = 0;
  options = dpte_options drive;
  reserved = 0;
  revision = 0x11;
}

abbrev pub fill_dpte : AtaDrive → Drive → Dpte → Dpte
fill_dpte ata drive dpte =
    let t = dpte_fields ata drive dpte in record t { checksum = lacking (dpte_body t) }

abbrev pub pci_path : ℕ → ℕ
pci_path bdf = bdf / 256 % 256 + bdf / 8 % 32 * 2 ^ 8 + bdf % 8 * 2 ^ 16

-- EDD 3; the letters are PCI, ISA and ATA.
abbrev pub host_bus_of : Option ℕ → List ℕ
host_bus_of none = 0x49 ∷ 0x53 ∷ 0x41 ∷ 0 ∷ []
host_bus_of (some bdf) = 0x50 ∷ 0x43 ∷ 0x49 ∷ 0 ∷ []

abbrev pub path_of : AtaDrive → Option ℕ → ℕ
path_of ata none = ata.iobase1
path_of ata (some bdf) = pci_path bdf

abbrev pub edd_3_fields : AtaDrive → Dpt → Dpt
edd_3_fields ata dpt = record dpt {
  key = 0xbedd;
  dpi_length = 36;
  reserved1 = 0;
  reserved2 = 0;
  host_bus = host_bus_of ata.pci_bdf;
  iface_path = path_of ata ata.pci_bdf;
  iface_type = 0x41 ∷ 0x54 ∷ 0x41 ∷ 0 ∷ 0 ∷ 0 ∷ 0 ∷ 0 ∷ [];
  device_path = ata.slave;
}

abbrev pub edd_3 : AtaDrive → Dpt → Dpt
edd_3 ata dpt = let t = edd_3_fields ata dpt in record t { checksum = lacking (dpi_body t) }

abbrev pub is_ata : Drive → Bool
is_ata drive = drive.type == dtype_ata || drive.type == dtype_atapi
