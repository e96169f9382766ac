-- ===== src/Disk/Patch.antt =====
-- Memory with a block of the disk put in it.
use mit_jos_cse.Prelude.{
  ℕ, zero, suc, ◌*◌, ◌+◌, ◌-◌, ◌≤◌, ◌≡◌, refl, ap, ◌∙◌, fun_ext, ◌&&◌, leb, ltb, if◌then◌else◌,
  arith, Memory, store, blit, bytes, Outside, ap₂, ◌∷◌,
}

-- `n` bytes of `image` from `s` on, put at `d`.
abbrev pub patch : Memory → ℕ → ℕ → (ℕ → ℕ) → ℕ → Memory
patch m d n image s a = if leb d a && ltb a (d + n) then image (s + (a - d)) else m a

pub blit-bytes :
    (m : Memory) (d n : ℕ) (image : ℕ → ℕ) (s : ℕ)
    → blit m d (bytes image s n) ≡ patch m d n image s
blit-bytes m d zero image s = fun_ext λ a. ground arith
blit-bytes m d (suc n) image s =
    blit-bytes (store m d (image s)) (d + 1) n image (s + 1) ∙ fun_ext (λ a. ground arith)

pub patch-patch :
    (m : Memory) (d n k : ℕ) (image : ℕ → ℕ) (s : ℕ)
    → patch (patch m d n image s) (d + n) k image (s + n) ≡ patch m d (n + k) image s
patch-patch m d n k image s = fun_ext λ a. ground arith

pub patch_none : (m : Memory) (d : ℕ) (image : ℕ → ℕ) (s : ℕ) → patch m d 0 image s ≡ m
patch_none m d image s = fun_ext λ a. ground arith

-- Inside the block stand the bytes of the disk.
pub bytes-patch :
    (m : Memory) (d n : ℕ) (image : ℕ → ℕ) (s i k : ℕ)
    → i + k ≤ n
    → bytes (patch m d n image s) (d + i) k ≡ bytes image (s + i) k
bytes-patch m d n image s i zero h = refl
bytes-patch m d n image s i (suc k) h = ap₂ ◌∷◌ (ground arith) (
    ap (λ a. bytes (patch m d n image s) a k) (omega arith)
    ∙ bytes-patch m d n image s (i + 1) k (omega arith)
    ∙ ap (λ a. bytes image a k) (omega arith))

-- Outside of it nothing changes.
pub patch-Outside :
    (m : Memory) (d n : ℕ) (image : ℕ → ℕ) (s a : ℕ) → Outside d n a → patch m d n image s a ≡ m a
patch-Outside m d n image s a h = ground arith

-- A sector and then the ones behind it.
pub patch_sector :
    (m : Memory) (pa n : ℕ) (image : ℕ → ℕ) (offset : ℕ)
    → patch (patch m pa 512 image (offset * 512)) (pa + 512) (n * 512) image ((offset + 1) * 512)
      ≡ patch m pa (suc n * 512) image (offset * 512)
patch_sector m pa n image offset =
    ap (patch (patch m pa 512 image (offset * 512)) (pa + 512) (n * 512) image) (omega arith)
    ∙ patch-patch m pa 512 (n * 512) image (offset * 512)
    ∙ ap (λ k. patch m pa k image (offset * 512)) (omega arith)
