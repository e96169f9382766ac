-- ===== src/Mmu/Gate.antt =====
-- inc/mmu.h: gate descriptors of interrupts, traps and calls, and the descriptor of a task state
-- segment. The macros assign every field, so each is a function of its arguments.
use Prim.Native.Nat.{bit_and}
use mit_jos_cse.Prelude.{
  ℕ, ◌+◌, ◌*◌, ◌/◌, ◌%◌, ◌^◌, ◌<◌, ◌≡◌, Bool, if◌then◌else◌, arith, bit_and_mask,
}

abbrev pub sts_t64a : ℕ
sts_t64a = 0x9

abbrev pub sts_cg64 : ℕ
sts_cg64 = 0xC

abbrev pub sts_ig64 : ℕ
sts_ig64 = 0xE

abbrev pub sts_tg64 : ℕ
sts_tg64 = 0xF

pub record Gatedesc : Type 0 where
  pub gd_off_15_0 : ℕ
  pub gd_ss : ℕ
  pub gd_ist : ℕ
  pub gd_rsv1 : ℕ
  pub gd_type : ℕ
  pub gd_s : ℕ
  pub gd_dpl : ℕ
  pub gd_p : ℕ
  pub gd_off_31_16 : ℕ
  pub gd_off_32_63 : ℕ
  pub gd_rsv2 : ℕ

-- `SETGATE`; a bit field takes the low bits of what it is given.
unfoldable pub setgate : Bool → ℕ → ℕ → ℕ → Gatedesc
setgate istrap sel off dpl = record {
  gd_off_15_0 = bit_and off 0xffff;
  gd_ss = sel % 2 ^ 16;
  gd_ist = 0;
  gd_rsv1 = 0;
  gd_type = if istrap then sts_tg64 else sts_ig64;
  gd_s = 0;
  gd_dpl = dpl % 2 ^ 2;
  gd_p = 1;
  gd_off_31_16 = bit_and (off / 2 ^ 16) 0xffff;
  gd_off_32_63 = bit_and (off / 2 ^ 32) 0xffffffff;
  gd_rsv2 = 0;
}

-- `SETCALLGATE`
unfoldable pub setcallgate : ℕ → ℕ → ℕ → Gatedesc
setcallgate ss off dpl = record {
  gd_off_15_0 = bit_and (off % 2 ^ 32) 0xffff;
  gd_ss = ss % 2 ^ 16;
  gd_ist = 0;
  gd_rsv1 = 0;
  gd_type = sts_cg64;
  gd_s = 0;
  gd_dpl = dpl % 2 ^ 2;
  gd_p = 1;
  gd_off_31_16 = bit_and (off % 2 ^ 32 / 2 ^ 16) 0xffff;
  gd_off_32_63 = bit_and (off / 2 ^ 32) 0xffffffff;
  gd_rsv2 = 0;
}

pub record SystemSegdesc64 : Type 0 where
  pub sd_lim_15_0 : ℕ
  pub sd_base_15_0 : ℕ
  pub sd_base_23_16 : ℕ
  pub sd_type : ℕ
  pub sd_s : ℕ
  pub sd_dpl : ℕ
  pub sd_p : ℕ
  pub sd_lim_19_16 : ℕ
  pub sd_avl : ℕ
  pub sd_rsv1 : ℕ
  pub sd_g : ℕ
  pub sd_base_31_24 : ℕ
  pub sd_base_63_32 : ℕ
  pub sd_res1 : ℕ
  pub sd_clear : ℕ
  pub sd_res2 : ℕ

-- `SETTSS`; it does not use its argument `dpl`.
unfoldable pub settss : ℕ → ℕ → ℕ → ℕ → SystemSegdesc64
settss type base lim dpl = record {
  sd_lim_15_0 = bit_and lim 0xffff;
  sd_base_15_0 = bit_and base 0xffff;
  sd_base_23_16 = bit_and (base / 2 ^ 16) 0xff;
  sd_type = type % 2 ^ 4;
  sd_s = 0;
  sd_dpl = 0;
  sd_p = 1;
  sd_lim_19_16 = bit_and (lim / 2 ^ 16) 0xf;
  sd_avl = 0;
  sd_rsv1 = 0;
  sd_g = 0;
  sd_base_31_24 = bit_and (base / 2 ^ 24) 0xff;
  sd_base_63_32 = bit_and (base / 2 ^ 32) 0xffffffff;
  sd_res1 = 0;
  sd_clear = 0;
  sd_res2 = 0;
}

-- What the processor reads: the handler's address, and the base and the limit of a task state
-- segment, whose granularity is the byte.
unfoldable pub gate_offset : Gatedesc → ℕ
gate_offset g = g.gd_off_32_63 * 2 ^ 32 + g.gd_off_31_16 * 2 ^ 16 + g.gd_off_15_0

unfoldable pub tss_base : SystemSegdesc64 → ℕ
tss_base d =
    d.sd_base_63_32 * 2 ^ 32 + d.sd_base_31_24 * 2 ^ 24 + d.sd_base_23_16 * 2 ^ 16 + d.sd_base_15_0

unfoldable pub tss_limit : SystemSegdesc64 → ℕ
tss_limit d = d.sd_lim_19_16 * 2 ^ 16 + d.sd_lim_15_0

-- For a 64-bit address, the gates of `SETGATE` and of `SETCALLGATE` lead to that address.
pub gate_offset_lem :
    (istrap : Bool) (sel off dpl : ℕ)
    → off < 2 ^ 64
    → (gate_offset (setgate istrap sel off dpl) ≡ off)
      × (gate_offset (setcallgate sel off dpl) ≡ off)
unfolding gate_offset setgate setcallgate
gate_offset_lem istrap sel off dpl h = omega (
  arith,
  bit_and_mask 16 off,
  bit_and_mask 16 (off / 2 ^ 16),
  bit_and_mask 32 (off / 2 ^ 32),
  bit_and_mask 16 (off % 2 ^ 32),
  bit_and_mask 16 (off % 2 ^ 32 / 2 ^ 16),
)

-- For a 64-bit base and a limit below 2 ^ 20, the descriptor of `SETTSS` has that base and that
-- limit, and the privilege level 0 whatever level is asked for.
pub settss_fields :
    (type base lim dpl : ℕ)
    → base < 2 ^ 64
    → lim < 2 ^ 20
    → (tss_base (settss type base lim dpl) ≡ base)
      × (tss_limit (settss type base lim dpl) ≡ lim)
      × ((settss type base lim dpl).sd_dpl ≡ 0)
unfolding settss tss_base tss_limit
settss_fields type base lim dpl b l = omega (
  arith,
  bit_and_mask 16 lim,
  bit_and_mask 4 (lim / 2 ^ 16),
  bit_and_mask 16 base,
  bit_and_mask 8 (base / 2 ^ 16),
  bit_and_mask 8 (base / 2 ^ 24),
  bit_and_mask 32 (base / 2 ^ 32),
)
