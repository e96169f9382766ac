-- ===== src/Monitor/Run.antt =====
-- kern/monitor.c: what `runcmd` does with a line.
use mit_jos_cse.Prelude.{
  ℕ, zero, suc, ◌+◌, ◌^◌, ◌≤◌, ◌<◌, ◌≡◌, ◌≢◌, inl, inr, refl, ap, ◌∙◌, List, [], ◌∷◌, Option, none,
  some, Bool, true, false, ◌&&◌, ◌==◌, if◌then◌else◌, ◌↔◌, Option-cases, arith, length, codes, All,
  Memory, IsStr, ℤ, pos, negsuc,
}
use mit_jos_cse.CString.Compare.{strcmp, strcmp_lem}
use mit_jos_cse.Printf.Number.{emit}
use mit_jos_cse.Printf.Format.Parse.{no_width, text, decimal}
use mit_jos_cse.Printf.Output.{collect}
use mit_jos_cse.Printf.Meaning.{
  Item, plain, escape, format_text, IsItem, fuel_for, slots, vprintfmt-printed, emit-collect,
}
use mit_jos_cse.Printf.Meaning
use mit_jos_cse.Printf.Cprintf.{cprintf, printed, cprintf_lem}
use mit_jos_cse.Monitor.{Strings, Command, maxargs, find_command, run_args}

abbrev pub same_text : List ℕ → List ℕ → Bool
same_text [] [] = true
same_text [] (y ∷ k) = false
same_text (x ∷ l) [] = false
same_text (x ∷ l) (y ∷ k) = x == y && same_text l k

abbrev pub plains : List ℕ → List Item → List Item
plains [] rest = rest
plains (c ∷ t) rest = plain c ∷ plains t rest

same_text_iff : (l k : List ℕ) → (same_text l k ≡ true) ↔ (l ≡ k)
same_text_iff [] [] = ground arith
same_text_iff [] (y ∷ k) = ground arith
same_text_iff (x ∷ l) [] = ground arith
same_text_iff (x ∷ l) (y ∷ k) = ground (arith, same_text_iff l k)

-- The first command whose name is the word.
abbrev pub lookup : List ℕ → List Command → List (List ℕ) → Option Command
lookup w [] names = none
lookup w (c ∷ cs) [] = none
lookup w (c ∷ cs) (n ∷ names) = if same_text w n then some c else lookup w cs names

-- At each command's name stands the text of the same place.
abbrev pub AreNames : Memory → List Command → List (List ℕ) → Type 0
AreNames m [] [] = Unit
AreNames m [] (n ∷ names) = ⊥
AreNames m (c ∷ cs) [] = ⊥
AreNames m (c ∷ cs) (n ∷ names) = IsStr m c.name n × AreNames m cs names

abbrev pub is_zero : ℤ → Bool
is_zero (pos zero) = true
is_zero _ = false

pub same_text-is_zero : (r : ℤ) (l k : List ℕ) → ((r ≡ pos 0) ↔ (l ≡ k)) → same_text l k ≡ is_zero r
same_text-is_zero (pos zero) l k h = (same_text_iff l k).1 (h.0 refl)
same_text-is_zero (pos (suc n)) l k h = ground (arith, same_text_iff l k)
same_text-is_zero (negsuc n) l k h = ground (arith, same_text_iff l k)

find_command_step :
    (fuel : ℕ) (m : Memory) (arg : ℕ) (c : Command) (cs : List Command) (w x : List ℕ)
    (names : List (List ℕ)) (r : ℤ)
    → strcmp fuel m arg c.name ≡ some r
    → ((r ≡ pos 0) ↔ (w ≡ x))
    → find_command fuel m arg cs ≡ some (lookup w cs names)
    → find_command fuel m arg (c ∷ cs) ≡ some (lookup w (c ∷ cs) (x ∷ names))
unfolding find_command
find_command_step fuel m arg c cs w x names (pos zero) e h rest =
    rw (e, same_text-is_zero (pos zero) w x h, find_command) refl
find_command_step fuel m arg c cs w x names (pos (suc n)) e h rest =
    rw (e, same_text-is_zero (pos (suc n)) w x h, find_command) rest
find_command_step fuel m arg c cs w x names (negsuc n) e h rest =
    rw (e, same_text-is_zero (negsuc n) w x h, find_command) rest

find_command_lem :
    (fuel : ℕ) (m : Memory) (arg : ℕ) (w : List ℕ) (cs : List Command) (names : List (List ℕ))
    → IsStr m arg w
    → AreNames m cs names
    → length w < fuel
    → find_command fuel m arg cs ≡ some (lookup w cs names)
unfolding find_command
find_command_lem fuel m arg w [] [] h n f = refl
find_command_lem fuel m arg w [] (x ∷ names) h n f = absurd n
find_command_lem fuel m arg w (c ∷ cs) [] h n f = absurd n
find_command_lem fuel m arg w (c ∷ cs) (x ∷ names) h n f =
    let (r, compared, orders) = strcmp_lem fuel m arg c.name w x h n.0 f in
    find_command_step fuel m arg c cs w x names r compared orders.0
      (find_command_lem fuel m arg w cs names h n.1 f)

-- "Unknown command '%s'\n" and "Too many arguments (max %d)\n"
abbrev pub unknown_items : ℕ → List ℕ → List Item
unknown_items arg w =
    plains (codes "Unknown command '")
      (escape false no_width text arg w ∷ plain b'\'' ∷ plain 10 ∷ [])

abbrev pub too_many_items : List Item
too_many_items =
    plains (codes "Too many arguments (max ")
      (escape false no_width decimal maxargs [] ∷ plain b')' ∷ plain 10 ∷ [])

pub plains-IsItem :
    (m : Memory) (t : List ℕ) (is : List Item)
    → All (λ c. c ≢ b'%') t
    → All (IsItem m) is
    → All (IsItem m) (plains t is)
plains-IsItem m [] is h i = i
plains-IsItem m (c ∷ t) is h i = (h.0, plains-IsItem m t is h.1 i)

unknown_items-IsItem :
    (m : Memory) (arg : ℕ) (w : List ℕ)
    → arg ≢ 0
    → IsStr m arg w
    → length w < 2 ^ 31
    → All (IsItem m) (unknown_items arg w)
unknown_items-IsItem m arg w n h b =
    plains-IsItem m (codes "Unknown command '")
      (escape false no_width text arg w ∷ plain b'\'' ∷ plain 10 ∷ []) (omega arith)
      ((tt, (n, h, b)), omega arith)

pub too_many_items-IsItem : (m : Memory) → All (IsItem m) too_many_items
too_many_items-IsItem m =
    plains-IsItem m (codes "Too many arguments (max ")
      (escape false no_width decimal maxargs [] ∷ plain b')' ∷ plain 10 ∷ []) (omega arith)
      (omega arith)

module _ {ℓ} {S : Type ℓ} (cputchar : ℕ → S → S) where
  -- A message whose format is a text of items is printed as the items say.
  pub cprintf-printed :
      (fuel : ℕ) (m : Memory) (fmt : ℕ) (is : List Item) (s : S)
      → IsStr m fmt (format_text is)
      → All (IsItem m) is
      → fuel_for is ≤ fuel
      → cprintf cputchar fuel m fmt (slots is) s ≡ some (0, emit cputchar (Meaning.printed is) s)
  cprintf-printed fuel m fmt is s h i f =
      cprintf_lem cputchar fuel m fmt (slots is) s
      ∙ ap (printed cputchar s) (
          vprintfmt-printed collect fuel m fmt is [] h i f
          ∙ ap some (emit-collect (Meaning.printed is) []))

  module _ (call : ℕ → ℕ → List ℕ → Memory → S → Option (ℤ × Memory × S)) where
    -- What a line with the words `w ∷ ws` at `arg ∷ args` comes to.
    abbrev pub dispatched :
        Option Command → ℕ → List ℕ → List ℕ → Memory → S → Option (ℤ × Memory × S)
    dispatched (some c) arg args w m s = call c.func (length (arg ∷ args)) (arg ∷ args) m s
    dispatched none arg args w m s =
        some (pos 0, m, emit cputchar (Meaning.printed (unknown_items arg w)) s)

    pub run_args_lem :
        (fuel : ℕ) (strings : Strings) (commands : List Command) (names : List (List ℕ))
        (m : Memory) (arg : ℕ) (args w : List ℕ) (s : S)
        → AreNames m commands names
        → IsStr m strings.unknown_fmt (format_text (unknown_items arg w))
        → arg ≢ 0
        → IsStr m arg w
        → length w < 2 ^ 31
        → length w + 26 ≤ fuel
        → run_args cputchar call fuel strings commands m (arg ∷ args) s
          ≡ dispatched (lookup w commands names) arg args w m s
    unfolding run_args
    run_args_lem fuel strings commands names m arg args w s n fmt nz h b f =
        let found = find_command_lem fuel m arg w commands names h n (omega arith) in
        elim (Option-cases (lookup w commands names)) [
          | inl e ↦
              let printed_text =
                cprintf-printed fuel m strings.unknown_fmt (unknown_items arg w) s fmt
                  (unknown_items-IsItem m arg w nz h b) (omega arith) in
              rw (found, e, printed_text, run_args) refl
          | inr (c, e) ↦ rw (found, e, run_args) refl
        ]
