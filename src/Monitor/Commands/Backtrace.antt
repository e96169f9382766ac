-- ===== src/Monitor/Commands/Backtrace.antt =====
-- kern/monitor.c: what `print_frame` of `mon_backtrace` prints.
use mit_jos_cse.Prelude.{
  ℕ, zero, suc, ◌+◌, ◌-◌, ◌*◌, ◌%◌, ◌^◌, ◌≤◌, ◌<◌, ◌≡◌, refl, sym, ap, ◌∙◌, List, [], ◌∷◌, ◌++◌,
  some, true, false, arith, length, codes, All, Memory, IsStr,
}
use mit_jos_cse.Printf.Number.{emit, emit-append}
use mit_jos_cse.Printf.Format.Parse.{no_width, width, text, decimal, hexadecimal}
use mit_jos_cse.Printf.Meaning.{Item, plain, escape, format_text, slots, fuel_for, IsItem}
use mit_jos_cse.Printf.Meaning
use mit_jos_cse.Elf.{read_le}
use mit_jos_cse.Kdebug.{Ripdebuginfo}
use mit_jos_cse.Monitor.Commands.{Formats, print_args, print_frame}
use mit_jos_cse.Monitor.Run.{plains, plains-IsItem}
use mit_jos_cse.Monitor.Commands.Help.{print-printed}

-- "%016x"
abbrev pub word : ℕ → Item
word x = escape true (width b'1' (b'6' ∷ [])) hexadecimal x []

-- "rbp %016x rip %016x", "\n%s:%d:  %s+%016x args:%d ", "%016x " and "\n"
abbrev pub frame_items : ℕ → ℕ → List Item
frame_items rbp rip = plains (codes "rbp ") (word rbp ∷ plains (codes " rip ") (word rip ∷ []))

abbrev pub location_items : Ripdebuginfo → List ℕ → List ℕ → ℕ → List Item
location_items info file name offset =
    plain 10
    ∷ escape false no_width text info.rip_file file
    ∷ plain b':'
    ∷ escape false no_width decimal info.rip_line []
    ∷ plains (codes ":  ") (
        escape false no_width text info.rip_fn_name name
        ∷ plain b'+'
        ∷ word offset
        ∷ plains (codes " args:")
            (escape false no_width decimal info.rip_fn_narg [] ∷ plain b' ' ∷ []))

abbrev pub argument_items : ℕ → List Item
argument_items x = word x ∷ plain b' ' ∷ []

abbrev pub newline_items : List Item
newline_items = plain 10 ∷ []

-- The arguments' slots from `i` on.
abbrev pub arguments_text : (ℕ → ℕ) → ℕ → ℕ → List ℕ
arguments_text slot i zero = []
arguments_text slot i (suc n) =
    Meaning.printed (argument_items (slot i)) ++ arguments_text slot (i + 1) n

-- What is printed for one frame.
abbrev pub frame_text : ℕ → ℕ → (ℕ → ℕ) → Ripdebuginfo → List ℕ → List ℕ → List ℕ
frame_text rbp rip slot info file name =
    Meaning.printed (frame_items rbp rip)
    ++ (Meaning.printed (location_items info file name ((rip + 2 ^ 64 - info.rip_fn_addr) % 2 ^ 64))
        ++ (arguments_text slot 0 info.rip_fn_narg ++ Meaning.printed newline_items))

-- The formats stand in the memory.
pub record AreFormats (m : Memory) (formats : Formats) : Type 0 where
  pub frame : IsStr m formats.frame (format_text (frame_items 0 0))
  pub location :
      (info : Ripdebuginfo) → IsStr m formats.location (format_text (location_items info [] [] 0))
  pub argument : IsStr m formats.argument (format_text (argument_items 0))
  pub newline : IsStr m formats.newline (10 ∷ [])

-- The texts of what is known of an address.
pub record IsTold (m : Memory) (info : Ripdebuginfo) (file name : List ℕ) : Type 0 where
  pub file_item : IsItem m (escape false no_width text info.rip_file file)
  pub name_item : IsItem m (escape false no_width text info.rip_fn_name name)
  pub line_bound : info.rip_line < 2 ^ 64
  pub count_bound : info.rip_fn_narg < 2 ^ 64

frame_items-IsItem :
    (m : Memory) (rbp rip : ℕ) → rbp < 2 ^ 64 → rip < 2 ^ 64 → All (IsItem m) (frame_items rbp rip)
frame_items-IsItem m rbp rip b r =
    plains-IsItem m (codes "rbp ") (word rbp ∷ plains (codes " rip ") (word rip ∷ [])) (omega arith)
      (
        ((omega arith), b),
        plains-IsItem m (codes " rip ") (word rip ∷ []) (omega arith) (((omega arith), r), tt),
      )

location_items-IsItem :
    (m : Memory) (info : Ripdebuginfo) (file name : List ℕ) (offset : ℕ)
    → IsTold m info file name
    → offset < 2 ^ 64
    → All (IsItem m) (location_items info file name offset)
location_items-IsItem m info file name offset t b =
    let last = escape false no_width decimal info.rip_fn_narg [] ∷ plain b' ' ∷ [] in
    let more = word offset ∷ plains (codes " args:") last in
    let items = escape false no_width text info.rip_fn_name name ∷ plain b'+' ∷ more in
    let end =
      plains-IsItem m (codes " args:") last (omega arith)
        ((tt, t.count_bound), (omega arith, tt)) in
    let named =
      plains-IsItem m (codes ":  ") items (omega arith)
        (t.name_item, (omega arith, (((omega arith), b), end))) in
    (omega arith, (t.file_item, (omega arith, ((tt, t.line_bound), named))))

read_le_step :
    (n : ℕ) {b : ℕ} (m : Memory)
    → ((a : ℕ) → m a < 256)
    → ((a : ℕ) → read_le n m a < b)
    → (a : ℕ) → read_le (suc n) m a < 256 * b
unfolding read_le
read_le_step n m bytes h a = omega (arith, bytes a, h (a + 1))

read_le_none : (m : Memory) (a : ℕ) → read_le 0 m a < 1
unfolding read_le
read_le_none m a = omega arith

-- A field of eight bytes is a 64-bit number.
pub read_le-bound : (m : Memory) (a : ℕ) → ((x : ℕ) → m x < 256) → read_le 8 m a < 2 ^ 64
read_le-bound m a bytes =
    let step2 = read_le_step 1 m bytes (read_le_step 0 m bytes (read_le_none m)) in
    let step4 = read_le_step 3 m bytes (read_le_step 2 m bytes step2) in
    let step6 = read_le_step 5 m bytes (read_le_step 4 m bytes step4) in
    omega (arith, read_le_step 7 m bytes (read_le_step 6 m bytes step6) a)

module _ {ℓ} {S : Type ℓ} (cputchar : ℕ → S → S) (fuel : ℕ) (formats : Formats) (m : Memory) where
  print_args_lem :
      (slot : ℕ → ℕ) (i n : ℕ) (s : S)
      → IsStr m formats.argument (format_text (argument_items 0))
      → ((j : ℕ) → slot j < 2 ^ 64)
      → 40 ≤ fuel
      → print_args cputchar fuel formats m slot i n s
        ≡ some (emit cputchar (arguments_text slot i n) s)
  unfolding print_args
  print_args_lem slot i zero s h b f = refl
  print_args_lem slot i (suc n) s h b f =
      let items = argument_items (slot i) in
      let one =
        print-printed cputchar fuel m formats.argument items s h (((omega arith), b i), omega arith)
          (omega arith) in
      rw (one, print_args)
        (print_args_lem slot (i + 1) n (emit cputchar (Meaning.printed items) s) h b f
          ∙ ap some (
              sym (emit-append cputchar (Meaning.printed items) (arguments_text slot (i + 1) n) s)))

  pub print_frame_lem :
      (rbp rip : ℕ) (slot : ℕ → ℕ) (info : Ripdebuginfo) (file name : List ℕ) (s : S)
      → AreFormats m formats
      → IsTold m info file name
      → rbp < 2 ^ 64
      → rip < 2 ^ 64
      → ((j : ℕ) → slot j < 2 ^ 64)
      → length file + length name + 60 ≤ fuel
      → print_frame cputchar fuel formats m rbp rip rip slot info s
        ≡ some (emit cputchar (frame_text rbp rip slot info file name) s)
  unfolding print_frame
  print_frame_lem rbp rip slot info file name s h t b r a f =
      let offset = (rip + 2 ^ 64 - info.rip_fn_addr) % 2 ^ 64 in
      let head = Meaning.printed (frame_items rbp rip) in
      let place = Meaning.printed (location_items info file name offset) in
      let args = arguments_text slot 0 info.rip_fn_narg in
      let end = Meaning.printed newline_items in
      let s1 = emit cputchar head s in
      let s2 = emit cputchar place s1 in
      let s3 = emit cputchar args s2 in
      let first =
        print-printed cputchar fuel m formats.frame (frame_items rbp rip) s h.frame
          (frame_items-IsItem m rbp rip b r) (omega arith) in
      let second =
        print-printed cputchar fuel m formats.location (location_items info file name offset) s1
          (h.location info) (location_items-IsItem m info file name offset t (omega arith))
          (omega arith) in
      let third = print_args_lem slot 0 info.rip_fn_narg s2 h.argument a (omega arith) in
      let last =
        print-printed cputchar fuel m formats.newline newline_items s3 h.newline (omega arith)
          (omega arith) in
      rw (first, second, third, last, print_frame)
        (ap some (
          sym (
            emit-append cputchar head (place ++ (args ++ end)) s
            ∙ emit-append cputchar place (args ++ end) s1
            ∙ emit-append cputchar args end s2)))
