-- ===== src/Mmu/Segment.antt =====
-- inc/mmu.h: segment descriptors, as the macros build them in C and in assembly.
use Prim.Native.Nat.{bit_and, bit_or}
use mit_jos_cse.Prelude.{
  ℕ, ◌+◌, ◌*◌, ◌/◌, ◌%◌, ◌^◌, ◌<◌, ◌≡◌, refl, ◌∙◌, List, [], ◌∷◌, arith, bit_and_mask, bit_or_add,
}

pub record Segdesc : Type 0 where
  pub sd_lim_15_0 : ℕ
  pub sd_base_15_0 : ℕ
  pub sd_base_23_16 : ℕ
  pub sd_type : ℕ
  pub sd_s : ℕ
  pub sd_dpl : ℕ
  pub sd_p : ℕ
  pub sd_lim_19_16 : ℕ
  pub sd_avl : ℕ
  pub sd_l : ℕ
  pub sd_db : ℕ
  pub sd_g : ℕ
  pub sd_base_31_24 : ℕ

-- `SEG_NULL`
abbrev pub seg_null : Segdesc
seg_null = record {
  sd_lim_15_0 = 0;
  sd_base_15_0 = 0;
  sd_base_23_16 = 0;
  sd_type = 0;
  sd_s = 0;
  sd_dpl = 0;
  sd_p = 0;
  sd_lim_19_16 = 0;
  sd_avl = 0;
  sd_l = 0;
  sd_db = 0;
  sd_g = 0;
  sd_base_31_24 = 0;
}

-- `SEG_FAULT`
abbrev pub seg_fault : Segdesc
seg_fault = record seg_null { sd_s = 1; sd_p = 1; sd_db = 1 }

-- A bit field of `w` bits takes the low bits of what it is given.
abbrev pub seg_with : (type base dpl l db g : ℕ) → (lim_low lim_high : ℕ) → Segdesc
seg_with type base dpl l db g lim_low lim_high = record {
  sd_lim_15_0 = bit_and lim_low 0xffff;
  sd_base_15_0 = bit_and base 0xffff;
  sd_base_23_16 = bit_and (base / 2 ^ 16) 0xff;
  sd_type = type % 2 ^ 4;
  sd_s = 1;
  sd_dpl = dpl % 2 ^ 2;
  sd_p = 1;
  sd_lim_19_16 = lim_high % 2 ^ 4;
  sd_avl = 0;
  sd_l = l;
  sd_db = db;
  sd_g = g;
  sd_base_31_24 = base % 2 ^ 32 / 2 ^ 24 % 2 ^ 8;
}

-- `SEG`, `SEG64` and `SEG16`, in C
unfoldable pub seg : ℕ → ℕ → ℕ → ℕ → Segdesc
seg type base lim dpl = seg_with type base dpl 0 1 1 (lim / 2 ^ 12) (lim % 2 ^ 32 / 2 ^ 28)

unfoldable pub seg64 : ℕ → ℕ → ℕ → ℕ → Segdesc
seg64 type base lim dpl = seg_with type base dpl 1 0 1 (lim / 2 ^ 12) (lim % 2 ^ 32 / 2 ^ 28)

unfoldable pub seg16 : ℕ → ℕ → ℕ → ℕ → Segdesc
seg16 type base lim dpl = seg_with type base dpl 0 1 0 lim (lim % 2 ^ 32 / 2 ^ 16)

-- The `.word` and `.byte` directives of the macros for assembly: two bytes, the low one first, and
-- one byte.
abbrev word : ℕ → List ℕ → List ℕ
word w rest = w % 2 ^ 8 ∷ w / 2 ^ 8 % 2 ^ 8 ∷ rest

abbrev byte : ℕ → List ℕ → List ℕ
byte b rest = b % 2 ^ 8 ∷ rest

abbrev asm_with : (access size type base lim : ℕ) → List ℕ
asm_with access size type base lim = word (bit_and (lim / 2 ^ 12) 0xffff) (
    word (bit_and base 0xffff) (
      byte (bit_and (base / 2 ^ 16) 0xff) (
        byte (bit_or access type) (
          byte (bit_or size (bit_and (lim / 2 ^ 28) 0xf))
            (byte (bit_and (base / 2 ^ 24) 0xff) [])))))

-- `SEG`, `SEG64` and `SEG64USER`, in assembly
unfoldable pub asm_seg : ℕ → ℕ → ℕ → List ℕ
asm_seg type base lim = asm_with 0x90 0xC0 type base lim

unfoldable pub asm_seg64 : ℕ → ℕ → ℕ → List ℕ
asm_seg64 type base lim = asm_with 0x90 0xA0 type base lim

unfoldable pub asm_seg64user : ℕ → ℕ → ℕ → List ℕ
asm_seg64user type base lim = asm_with 0xF0 0xA0 type base lim

-- The bit fields in memory: from the lowest bit of the lowest byte upwards.
abbrev pub layout : Segdesc → List ℕ
layout d = word d.sd_lim_15_0 (
    word d.sd_base_15_0 (
      byte d.sd_base_23_16 (
        byte (d.sd_type + d.sd_s * 2 ^ 4 + d.sd_dpl * 2 ^ 5 + d.sd_p * 2 ^ 7) (
          byte
            (d.sd_lim_19_16 + d.sd_avl * 2 ^ 4 + d.sd_l * 2 ^ 5 + d.sd_db * 2 ^ 6 + d.sd_g * 2 ^ 7)
            (byte d.sd_base_31_24 [])))))

-- For a segment type of 4 bits, a 32-bit base and a 32-bit limit, the macros for assembly emit the
-- bytes of the C descriptors of the same name, at the privilege level 0, and `SEG64USER` those of
-- `SEG64` at level 3.
pub asm_seg_lem :
    (type base lim : ℕ)
    → type < 2 ^ 4
    → base < 2 ^ 32
    → lim < 2 ^ 32
    → (asm_seg type base lim ≡ layout (seg type base lim 0))
      × (asm_seg64 type base lim ≡ layout (seg64 type base lim 0))
      × (asm_seg64user type base lim ≡ layout (seg64 type base lim 3))
unfolding asm_seg asm_seg64 asm_seg64user seg seg64
asm_seg_lem type base lim t b l =
    let high : bit_and (lim / 2 ^ 28) 0xf ≡ lim / 2 ^ 28 =
      bit_and_mask 4 (lim / 2 ^ 28) ∙ omega arith in
    let top : bit_and (base / 2 ^ 24) 0xff ≡ base / 2 ^ 24 =
      bit_and_mask 8 (base / 2 ^ 24) ∙ omega arith in
    let small : lim / 2 ^ 28 < 2 ^ 4 = omega arith in
    ground (
      arith,
      high,
      top,
      bit_or_add 4 0x90 type refl t,
      bit_or_add 4 0xF0 type refl t,
      bit_or_add 4 0xC0 (lim / 2 ^ 28) refl small,
      bit_or_add 4 0xA0 (lim / 2 ^ 28) refl small,
    )

-- The base and the limit that the processor reads.
unfoldable pub seg_base : Segdesc → ℕ
seg_base d = d.sd_base_31_24 * 2 ^ 24 + d.sd_base_23_16 * 2 ^ 16 + d.sd_base_15_0

unfoldable pub seg_limit : Segdesc → ℕ
seg_limit d =
    let lim = d.sd_lim_19_16 * 2 ^ 16 + d.sd_lim_15_0 in lim * (1 + 4095 * d.sd_g) + 4095 * d.sd_g

-- A descriptor of `SEG` or `SEG64` with a 32-bit base and limit has that base, and that limit
-- rounded up to the last byte of its page; one of `SEG16` with a limit below 2 ^ 20 has that limit.
pub seg_fields :
    (type base lim dpl : ℕ)
    → base < 2 ^ 32
    → lim < 2 ^ 32
    → (seg_base (seg type base lim dpl) ≡ base)
      × (seg_limit (seg type base lim dpl) ≡ lim / 4096 * 4096 + 4095)
      × (seg_base (seg64 type base lim dpl) ≡ base)
      × (seg_limit (seg64 type base lim dpl) ≡ lim / 4096 * 4096 + 4095)
      × (seg_base (seg16 type base lim dpl) ≡ base)
      × (seg_limit (seg16 type base (lim % 2 ^ 20) dpl) ≡ lim % 2 ^ 20)
unfolding seg seg64 seg16 seg_base seg_limit
seg_fields type base lim dpl b l = omega (
  arith,
  bit_and_mask 16 base,
  bit_and_mask 8 (base / 2 ^ 16),
  bit_and_mask 16 (lim / 2 ^ 12),
  bit_and_mask 16 (lim % 2 ^ 20),
)
