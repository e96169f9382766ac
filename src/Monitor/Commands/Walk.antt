-- ===== src/Monitor/Commands/Walk.antt =====
-- kern/monitor.c: what `mon_backtrace` prints, and that its walk over the frames ends.
use mit_jos_cse.Prelude.{
  ℕ, zero, suc, ◌+◌, ◌-◌, ◌*◌, ◌/◌, ◌%◌, ◌^◌, ◌≤◌, ◌<◌, ◌≡◌, ◌≢◌, refl, sym, ap, ◌∙◌, List, [], ◌∷◌,
  ◌++◌, some, false, ◌==◌, arith, length, All, Memory, pos, Run, ok, stopped, fault, none,
}
use mit_jos_cse.Printf.Number.{emit, emit-append}
use mit_jos_cse.Elf.{read_le}
use mit_jos_cse.Kdebug.{Ripdebuginfo}
use mit_jos_cse.Monitor.Commands.{Formats, print_frame, walk, mon_backtrace}
use mit_jos_cse.Monitor.Commands.Backtrace.{
  AreFormats, IsTold, frame_text, read_le-bound, print_frame_lem,
}

module _ {ℓ} {S : Type ℓ} (cputchar : ℕ → S → S) (fuel : ℕ) (formats : Formats) (m : Memory) where
  -- What the walk knows of the addresses: what `debuginfo_rip` tells, and the texts of that.
  module _ (debuginfo : ℕ → Ripdebuginfo → Run Ripdebuginfo)
      (told : ℕ → Ripdebuginfo → Ripdebuginfo) (file_of name_of : ℕ → List ℕ) where
    -- The frames whose addresses these are, up to the null one.
    abbrev pub Chain : ℕ → List ℕ → Type 0
    Chain x [] = x ≡ 0
    Chain x (f ∷ fs) = (x ≡ f) × (f ≢ 0) × Chain (read_le 8 m f) fs

    abbrev pub caller : ℕ → ℕ
    caller f = read_le 8 m (f + 8)

    -- The information and the text after the frames.
    abbrev pub told_last : List ℕ → Ripdebuginfo → Ripdebuginfo
    told_last [] info = info
    told_last (f ∷ fs) info = told_last fs (told (caller f) info)

    abbrev pub trace : List ℕ → Ripdebuginfo → List ℕ
    trace [] info = []
    trace (f ∷ fs) info =
        let info' = told (caller f) info in
        frame_text (read_le 8 m f) (caller f) (λ i. read_le 8 m (f + 8 * (3 + i)) / 2 ^ 32) info'
          (file_of (caller f)) (name_of (caller f))
        ++ trace fs info'

    walk_end :
        (rounds : ℕ) (info : Ripdebuginfo) (s : S)
        → walk cputchar fuel formats m debuginfo (suc rounds) 0 info s ≡ ok (info, s)
    unfolding walk
    walk_end rounds info s = refl

    walk_frame :
        (rounds f : ℕ) (info : Ripdebuginfo) (s s' : S)
        → f ≢ 0
        → debuginfo (caller f) info ≡ ok (told (caller f) info)
        → print_frame cputchar fuel formats m
            (read_le 8 m f)
            (caller f)
            (caller f)
            (λ i. read_le 8 m (f + 8 * (3 + i)) / 2 ^ 32)
            (told (caller f) info)
            s
          ≡ some s'
        → walk cputchar fuel formats m debuginfo (suc rounds) f info s
          ≡ walk cputchar fuel formats m debuginfo rounds (read_le 8 m f) (told (caller f) info) s'
    unfolding walk
    walk_frame rounds f info s s' n e p =
        let more : (f == 0) ≡ false = ground (arith, n) in rw (more, e, p, walk) refl

    -- `debuginfo_rip` finds the address, the texts stand in the memory, and there is fuel for them.
    pub record IsKnown (a : ℕ) : Type 0 where
      pub tells : (info : Ripdebuginfo) → debuginfo a info ≡ ok (told a info)
      pub held : (info : Ripdebuginfo) → IsTold m (told a info) (file_of a) (name_of a)
      pub fits : length (file_of a) + length (name_of a) + 60 ≤ fuel

    module _ (h : AreFormats m formats) (bytes : (a : ℕ) → m a < 256) where
      walk_lem :
          (rounds x : ℕ) (fs : List ℕ) (info : Ripdebuginfo) (s : S)
          → Chain x fs
          → All (λ f. IsKnown (caller f)) fs
          → length fs < rounds
          → walk cputchar fuel formats m debuginfo rounds x info s
            ≡ ok (told_last fs info, emit cputchar (trace fs info) s)
      walk_lem zero x fs info s c k b = absurd (omega arith)
      walk_lem (suc rounds) x [] info s c k b =
          ap (λ y. walk cputchar fuel formats m debuginfo (suc rounds) y info s) c
          ∙ walk_end rounds info s
      walk_lem (suc rounds) x (f ∷ fs) info s (c, n, cs) (k, ks) b =
          let info' = told (caller f) info in
          let slot : ℕ → ℕ = λ i. read_le 8 m (f + 8 * (3 + i)) / 2 ^ 32 in
          let line =
            frame_text (read_le 8 m f) (caller f) slot info' (file_of (caller f))
              (name_of (caller f)) in
          let frame =
            print_frame_lem cputchar fuel formats m (read_le 8 m f) (caller f) slot info'
              (file_of (caller f)) (name_of (caller f)) s h (k.held info) (read_le-bound m f bytes)
              (read_le-bound m (f + 8) bytes)
              (λ i. omega (arith, read_le-bound m (f + 8 * (3 + i)) bytes)) k.fits in
          ap (λ y. walk cputchar fuel formats m debuginfo (suc rounds) y info s) c
          ∙ walk_frame rounds f info s (emit cputchar line s) n (k.tells info) frame
          ∙ walk_lem rounds (read_le 8 m f) fs info' (emit cputchar line s) cs ks (omega arith)
          ∙ ap (λ y. ok (told_last fs info', y))
              (sym (emit-append cputchar line (trace fs info') s))

      -- `mon_backtrace` has its structure at the null pointer: where nothing is mapped there, it stops
      -- with a fault. Where a structure stands there, apart from all else, the formats stand in the
      -- memory, a chain of frames ends at the null pointer, and `debuginfo_rip` finds the address of
      -- `mon_backtrace` and each frame's return address: with more rounds than frames, it ends and
      -- returns 0. It prints first, with `rip`, the numbers rip - 1 and rip, the file, the line, the
      -- function and the offset in it, and for each parameter the upper half of rip + 3 and on; and
      -- then for each frame, in the order of the chain, the saved `rbp` and the return address, the
      -- same of that address, and for each parameter the upper half of a slot of the frame.
      pub mon_backtrace_lem :
          (rounds rbp rip : ℕ) (fs : List ℕ) (info : Ripdebuginfo) (s : S)
          → Chain rbp fs
          → All (λ f. IsKnown (caller f)) fs
          → IsKnown rip
          → rip < 2 ^ 64
          → length fs < rounds
          → let info' = told rip info in
            (mon_backtrace cputchar fuel formats m debuginfo rounds rbp rip none s ≡ stopped fault)
            × (mon_backtrace cputchar fuel formats m debuginfo rounds rbp rip (some info) s
                ≡ ok (
                  pos 0,
                  told_last fs info',
                  emit cputchar
                      (frame_text
                          ((rip + 2 ^ 64 - 1) % 2 ^ 64)
                          rip
                          (λ i. (rip + 3 + i) % 2 ^ 64 / 2 ^ 32)
                          info'
                          (file_of rip)
                          (name_of rip)
                        ++ trace fs info')
                      s,
                ))
      unfolding mon_backtrace
      mon_backtrace_lem rounds rbp rip fs info s c k r b f =
          let info' = told rip info in
          let slot : ℕ → ℕ = λ i. (rip + 3 + i) % 2 ^ 64 / 2 ^ 32 in
          let own =
            frame_text ((rip + 2 ^ 64 - 1) % 2 ^ 64) rip slot info' (file_of rip) (name_of rip) in
          let first =
            print_frame_lem cputchar fuel formats m ((rip + 2 ^ 64 - 1) % 2 ^ 64) rip slot info'
              (file_of rip) (name_of rip) s h (r.held info) (omega arith) b (λ i. omega arith)
              r.fits in
          let others = walk_lem rounds rbp fs info' (emit cputchar own s) c k f in
          (
            refl,
            rw (r.tells info, first, others, mon_backtrace)
                (ap (λ y. ok (pos 0, told_last fs info', y))
                  (sym (emit-append cputchar own (trace fs info') s))),
          )
