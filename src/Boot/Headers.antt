-- ===== src/Boot/Headers.antt =====
-- boot/main.c: the program headers of an ELF file on the disk and in memory.
use mit_jos_cse.Prelude.{
  ℕ, zero, suc, ◌+◌, ◌*◌, ◌/◌, ◌%◌, ◌^◌, ◌≤◌, ◌<◌, ◌≡◌, ◌⊎◌, ap, ◌∙◌, arith, Memory, Outside,
}
use mit_jos_cse.Disk.Patch.{patch-Outside}
use mit_jos_cse.Elf.{read_le, read_le_ext, p_pa, p_memsz, p_offset}
use mit_jos_cse.Boot.{elfhdr}
use mit_jos_cse.Boot.Segment.{block, sectors, segment_in}

-- The file's first byte on the disk.
abbrev pub file : ℕ
file = 512

-- The program header at `h` on the disk asks for a segment that `readseg` can load and that does
-- not meet the 4096 bytes at the ELF header in memory.
pub record IsLoadable (image : ℕ → ℕ) (fuel h : ℕ) : Type 0 where
  pub below : p_pa image h + p_memsz image h + 512 ≤ 2 ^ 32
  pub near : p_offset image h < 2 ^ 32
  pub on_disk :
      p_offset image h / 512 + 1 + sectors (block (p_pa image h)) (p_pa image h + p_memsz image h)
      ≤ 2 ^ 28
  pub fuelled : sectors (block (p_pa image h)) (p_pa image h + p_memsz image h) < fuel
  pub apart :
      (block (p_pa image h) + sectors (block (p_pa image h)) (p_pa image h + p_memsz image h) * 512
        ≤ elfhdr)
      ⊎ (elfhdr + 4096 ≤ block (p_pa image h))

-- The memory after the segments of `n` headers from `h` on were loaded.
abbrev pub loaded : (ℕ → ℕ) → ℕ → ℕ → Memory → Memory
loaded image zero h m = m
loaded image (suc n) h m =
    loaded image n (h + 56) (segment_in image (p_pa image h) (p_memsz image h) (p_offset image h) m)

abbrev pub AllLoadable : (ℕ → ℕ) → ℕ → ℕ → ℕ → Type 0
AllLoadable image fuel zero h = Unit
AllLoadable image fuel (suc n) h = IsLoadable image fuel h × AllLoadable image fuel n (h + 56)

-- The memory at the ELF header holds the first 4096 bytes of the file.
abbrev pub Agrees : (ℕ → ℕ) → Memory → Type 0
Agrees image m = (i : ℕ) → i < 4096 → m (elfhdr + i) ≡ image (file + i)

pub field :
    (image : ℕ → ℕ) (m : Memory) (n o a b : ℕ)
    → Agrees image m
    → a ≡ elfhdr + o
    → b ≡ file + o
    → o + n ≤ 4096
    → read_le n m a ≡ read_le n image b
field image m n o a b agrees ea eb h =
    read_le_ext n m image a b
      λ i p. ap m (omega arith) ∙ agrees (o + i) (omega arith) ∙ ap image (omega arith)

apart-Outside :
    (b n i : ℕ) → (b + n ≤ elfhdr) ⊎ (elfhdr + 4096 ≤ b) → i < 4096 → Outside b n (elfhdr + i)
apart-Outside b n i h p = ground arith

pub low32 : (x : ℕ) → x < 2 ^ 32 → x % 2 ^ 32 ≡ x
low32 x h = omega arith

pub Agrees-header : (image : ℕ → ℕ) (m : Memory) → Agrees image (segment_in image elfhdr 4096 0 m)
Agrees-header image m i p = ground arith

pub Agrees-segment_in :
    (image : ℕ → ℕ) (m : Memory) (fuel h : ℕ)
    → IsLoadable image fuel h
    → Agrees image m
    → Agrees image (segment_in image (p_pa image h) (p_memsz image h) (p_offset image h) m)
Agrees-segment_in image m fuel h l agrees i p =
    let pa = p_pa image h in
    let n = sectors (block pa) (pa + p_memsz image h) * 512 in
    patch-Outside m (block pa) n image ((p_offset image h / 512 + 1) * 512) (elfhdr + i)
      (apart-Outside (block pa) n i l.apart p)
    ∙ agrees i p

pub Agrees-loaded :
    (image : ℕ → ℕ) (n fuel h : ℕ) (m : Memory)
    → AllLoadable image fuel n h
    → Agrees image m
    → Agrees image (loaded image n h m)
Agrees-loaded image zero fuel h m l agrees = agrees
Agrees-loaded image (suc n) fuel h m (l, ls) agrees =
    Agrees-loaded image n fuel (h + 56)
      (segment_in image (p_pa image h) (p_memsz image h) (p_offset image h) m) ls
      (Agrees-segment_in image m fuel h l agrees)
