-- ===== src/Clock/Times.antt =====
-- bios/seabios/src/clock.c: what is set is read back.
use coremu.Common.{
  ℕ, ◌%◌, ◌<◌, ◌≡◌, ◌⊎◌, inl, inr, Bool-cases, ==_iff, refl, sym, ◌∙◌, subst, false, ◌==◌, bit_and,
  bit_or, arith,
}
use coremu.Common.Bytes.{byte_eq}
use coremu.Clock.{Clock, cmos_status_b}
use coremu.Clock.Services.{
  Registers, handle_1a00, handle_1a01, handle_1a02, handle_1a03, handle_1a04, handle_1a05,
}

bit_cases : (b : ℕ) → b < 2 → (b ≡ 0) ⊎ (b ≡ 1)
bit_cases b h = elim (Bool-cases (b == 0)) [
  | inl e ↦ inl ((==_iff b 0).0 e)
  | inr e ↦ inr (ground (arith, e, h))
]

-- The bit for daylight saving that handle_1a03 stores, from the old register and the wanted one.
stored_dse :
    (b d : ℕ)
    → b < 256
    → d < 256
    → bit_and (bit_or (bit_or (bit_and b 0x60) 2) (bit_and d 1)) 1 ≡ bit_and d 1
stored_dse b d hb hd =
    let low_bit = byte_eq (λ x. bit_and x 1) (λ x. x % 2) d refl hd in
    elim (bit_cases (d % 2) (omega arith)) [
      | inl e ↦
          subst (λ w. bit_and (bit_or (bit_or (bit_and b 0x60) 2) w) 1 ≡ w) (sym (low_bit ∙ e))
            (byte_eq (λ x. bit_and (bit_or (bit_or (bit_and x 0x60) 2) 0) 1) (λ x. 0) b refl hb)
      | inr e ↦
          subst (λ w. bit_and (bit_or (bit_or (bit_and b 0x60) 2) w) 1 ≡ w) (sym (low_bit ∙ e))
            (byte_eq (λ x. bit_and (bit_or (bit_or (bit_and x 0x60) 2) 1) 1) (λ x. 1) b refl hb)
    ]

-- The registers are bytes.
pub record IsBytes (regs : Registers) : Type 0 where
  pub ch_byte : regs.ch < 256
  pub cl_byte : regs.cl < 256
  pub dh_byte : regs.dh < 256
  pub dl_byte : regs.dl < 256

-- What is set is read back: the time of service 3 by service 2 with the bit for daylight saving, the
-- date of service 5 by service 4, and the count of ticks of service 1 by service 0, when no update of
-- the clock goes on and the registers, status register B among them, hold bytes.
pub set_read :
    (regs other : Registers) (s : Clock)
    → IsBytes regs
    → s.cmos cmos_status_b < 256
    → (let t = (handle_1a02 false other (handle_1a03 false regs s).1) in
        (t.ch ≡ regs.ch) × (t.cl ≡ regs.cl) × (t.dh ≡ regs.dh) × (t.dl ≡ bit_and regs.dl 1))
      × (let d = (handle_1a04 false other (handle_1a05 false regs s).1) in
          (d.ch ≡ regs.ch) × (d.cl ≡ regs.cl) × (d.dh ≡ regs.dh) × (d.dl ≡ regs.dl))
      × (let c = (handle_1a00 other (handle_1a01 regs s).1).0 in
          (c.ch ≡ regs.ch) × (c.cl ≡ regs.cl) × (c.dh ≡ regs.dh) × (c.dl ≡ regs.dl))
unfolding handle_1a00 handle_1a01 handle_1a02 handle_1a03 handle_1a04 handle_1a05
set_read regs other s v hb = (
  (refl, refl, refl, stored_dse (s.cmos cmos_status_b) regs.dl hb v.dl_byte),
  (refl, refl, refl, refl),
  (
    omega (arith, v.cl_byte, v.dh_byte, v.dl_byte, v.ch_byte),
    omega (arith, v.cl_byte, v.dh_byte, v.dl_byte),
    omega (arith, v.dh_byte, v.dl_byte),
    omega (arith, v.dl_byte),
  ),
)
