-- ===== src/Kbd/Letters.antt =====
-- bios/seabios/src/kbd.c: what the letter keys put into the buffer.
use coremu.Common.{
  ℕ, ◌+◌, ◌-◌, ◌*◌, ◌<◌, ◌≡◌, Bool, true, false, not, ◌&&◌, ◌||◌, List, [], ◌∷◌, leb, ltb,
  get_elem?, ◌==◌, if◌then◌else◌, Option, none, some,
}
use coremu.Kbd.Keys.{ScanInfo, scan_to_scanascii, KeyFlags, any_of}

-- The letters of the keyboard: the scan codes of their keys and the small letters in ASCII.
abbrev pub letters : List (ℕ × ℕ)
letters =
    (0x10, 0x71)
    ∷ (0x11, 0x77)
    ∷ (0x12, 0x65)
    ∷ (0x13, 0x72)
    ∷ (0x14, 0x74)
    ∷ (0x15, 0x79)
    ∷ (0x16, 0x75)
    ∷ (0x17, 0x69)
    ∷ (0x18, 0x6f)
    ∷ (0x19, 0x70)
    ∷ (0x1e, 0x61)
    ∷ (0x1f, 0x73)
    ∷ (0x20, 0x64)
    ∷ (0x21, 0x66)
    ∷ (0x22, 0x67)
    ∷ (0x23, 0x68)
    ∷ (0x24, 0x6a)
    ∷ (0x25, 0x6b)
    ∷ (0x26, 0x6c)
    ∷ (0x2c, 0x7a)
    ∷ (0x2d, 0x78)
    ∷ (0x2e, 0x63)
    ∷ (0x2f, 0x76)
    ∷ (0x30, 0x62)
    ∷ (0x31, 0x6e)
    ∷ (0x32, 0x6d)
    ∷ []

-- The entry of a letter key in the table.
abbrev letter_info : ℕ → ℕ → ScanInfo
letter_info k c = record {
  normal = k * 256 + c;
  shift = k * 256 + (c - 32);
  control = k * 256 + (c - 96);
  alt = k * 256;
  lock_flags = 0x40;
}

-- The scan codes that only change flags.
is_flag_key : ℕ → Bool
is_flag_key k =
    k == 0x3a
    || (k == 0xba
        || (k == 0x2a
            || (k == 0xaa
                || (k == 0x36
                    || (k == 0xb6
                        || (k == 0x1d
                            || (k == 0x9d
                                || (k == 0x38
                                    || (k == 0xb8
                                        || (k == 0x45
                                            || (k == 0xc5 || (k == 0x46 || k == 0xc6))))))))))))

is_entry : ℕ → ℕ → Option ScanInfo → Bool
is_entry k c none = false
is_entry k c (some i) =
    i.normal == k * 256 + c && (i.shift == k * 256 + (c - 32) && i.lock_flags == 0x40)

-- What the proof needs of a letter key, as a test.
is_letter : ℕ → ℕ → Bool
unfolding is_flag_key is_entry
is_letter k c =
    is_entry k c (get_elem? scan_to_scanascii k)
    && (not (is_flag_key k)
        && (not (any_of k 0x80)
            && (not (k == 0)
                && (not (k == 0x53)
                    && (not (k == 0xe0) && (not (k == 0xe1) && (not (leb 0x47 k) && ltb c 128)))))))

abbrev pub xor_bool : Bool → Bool → Bool
xor_bool true b = not b
xor_bool false b = b

-- A capital letter when either Shift or Caps Lock is on, but not both.
abbrev pub letter : ℕ → KeyFlags → ℕ
letter c f = if xor_bool (any_of f.flags0 3) (any_of f.flags0 0x40) then c - 32 else c

record LetterFacts (k c : ℕ) : Type 0 where
  entry : is_entry k c (get_elem? scan_to_scanascii k) ≡ true
  no_flag : is_flag_key k ≡ false
  low : any_of k 0x80 ≡ false
  not_0 : (k == 0) ≡ false
  not_53 : (k == 0x53) ≡ false
  not_e0 : (k == 0xe0) ≡ false
  not_e1 : (k == 0xe1) ≡ false
  no_pad : leb 0x47 k ≡ false
  small : c < 128
