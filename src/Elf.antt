-- ===== src/Elf.antt =====
-- inc/elf.h and kern/dwarf_elf.h: the structures of an ELF file in memory. A field is a
-- little-endian number at its offset from the structure's address.
use mit_jos_cse.Prelude.{ℕ, zero, suc, ◌+◌, ◌*◌, ◌<◌, ◌≡◌, refl, ap, ap₂, ◌∙◌, Memory, arith}

abbrev pub elf_magic : ℕ
elf_magic = 0x464C457F

unfoldable pub read_le : ℕ → Memory → ℕ → ℕ
read_le zero m a = 0
read_le (suc n) m a = m a + 256 * read_le n m (a + 1)

shifted : (m : Memory) {a b : ℕ} → a ≡ b → m a ≡ m b
shifted m e = ap m e

-- Memories that agree on a field's bytes agree on the field.
pub read_le_ext :
    (n : ℕ) (m m' : Memory) (a b : ℕ)
    → ((i : ℕ) → i < n → m (a + i) ≡ m' (b + i))
    → read_le n m a ≡ read_le n m' b
unfolding read_le
read_le_ext zero m m' a b h = refl
read_le_ext (suc n) m m' a b h =
    let first : m a ≡ m' b = ap m (omega arith) ∙ h 0 (omega arith) ∙ ap m' (omega arith) in
    let next : (i : ℕ) → i < n → m (a + 1 + i) ≡ m' (b + 1 + i) =
      λ i p. shifted m (omega arith) ∙ h (suc i) (omega arith) ∙ shifted m' (omega arith) in
    ap₂ (λ x y. x + 256 * y) first (read_le_ext n m m' (a + 1) (b + 1) next)

-- struct Elf
abbrev pub e_magic : Memory → ℕ → ℕ
e_magic m a = read_le 4 m (a + 0)

abbrev pub e_entry : Memory → ℕ → ℕ
e_entry m a = read_le 8 m (a + 24)

abbrev pub e_phoff : Memory → ℕ → ℕ
e_phoff m a = read_le 8 m (a + 32)

abbrev pub e_shoff : Memory → ℕ → ℕ
e_shoff m a = read_le 8 m (a + 40)

abbrev pub e_phnum : Memory → ℕ → ℕ
e_phnum m a = read_le 2 m (a + 56)

abbrev pub e_shentsize : Memory → ℕ → ℕ
e_shentsize m a = read_le 2 m (a + 58)

abbrev pub e_shnum : Memory → ℕ → ℕ
e_shnum m a = read_le 2 m (a + 60)

abbrev pub e_shstrndx : Memory → ℕ → ℕ
e_shstrndx m a = read_le 2 m (a + 62)

-- struct Proghdr
abbrev pub proghdr_size : ℕ
proghdr_size = 56

abbrev pub p_offset : Memory → ℕ → ℕ
p_offset m a = read_le 8 m (a + 8)

abbrev pub p_pa : Memory → ℕ → ℕ
p_pa m a = read_le 8 m (a + 24)

abbrev pub p_memsz : Memory → ℕ → ℕ
p_memsz m a = read_le 8 m (a + 40)

-- struct Secthdr
abbrev pub secthdr_size : ℕ
secthdr_size = 64

abbrev pub sh_name : Memory → ℕ → ℕ
sh_name m a = read_le 4 m (a + 0)

abbrev pub sh_addr : Memory → ℕ → ℕ
sh_addr m a = read_le 8 m (a + 16)

abbrev pub sh_offset : Memory → ℕ → ℕ
sh_offset m a = read_le 8 m (a + 24)

abbrev pub sh_size : Memory → ℕ → ℕ
sh_size m a = read_le 8 m (a + 32)
