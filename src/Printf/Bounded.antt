-- ===== src/Printf/Bounded.antt =====
-- lib/printfmt.c: what `snprintf` leaves in its buffer for a format of items.
use mit_jos_cse.Prelude.{
  ◌%◌, ◌^◌, pos, take, blit, ℕ, suc, ◌+◌, ◌<◌, ◌≤◌, ◌≡◌, ◌≢◌, sym, ap, ◌∙◌, List, [], ◌∷◌, ◌++◌,
  some, arith, length, All, Memory, IsStr, IsStr-ext, blit-Outside, ◌⊎◌,
}
use mit_jos_cse.Printf.Format.Parse.{
  Conversion, decimal, unsigned, octal, hexadecimal, pointer, character, text, percent,
}
use mit_jos_cse.Printf.Format.{int_of}
use mit_jos_cse.Printf.Output.{collect}
use mit_jos_cse.Printf.Buffer.{snprintf, low_bytes, in_buffer, vsnprintf_lem}
use mit_jos_cse.Printf.Escape.{IsArg}
use mit_jos_cse.Printf.Meaning.{
  Item, plain, escape, format_text, slots, printed, IsItem, fuel_for, vprintfmt-printed,
  emit-collect,
}

-- A text at `a` with its terminator lies outside the `n` bytes at `buf`.
abbrev pub IsClear : ℕ → ℕ → ℕ → List ℕ → Type 0
IsClear buf n a t = (a + length t < buf) ⊎ (buf + n ≤ a)

abbrev pub ArgClear : ℕ → ℕ → Conversion → ℕ → List ℕ → Type 0
ArgClear buf n text x t = IsClear buf n x t
ArgClear buf n _ x t = Unit

-- The text of a `%s` is not in the buffer.
abbrev pub ItemClear : ℕ → ℕ → Item → Type 0
ItemClear buf n (plain c) = Unit
ItemClear buf n (escape z w k x t) = ArgClear buf n k x t

IsStr-clear :
    (m : Memory) (buf n a : ℕ) (t l : List ℕ)
    → length l ≤ n
    → IsClear buf n a t
    → IsStr m a t
    → IsStr (blit m buf l) a t
IsStr-clear m buf n a t l b c h =
    IsStr-ext m (blit m buf l) a t
      (λ x p q. sym (blit-Outside m buf x l (ground (arith, b, c, p, q)))) h

IsArg-clear :
    (m : Memory) (buf n : ℕ) (k : Conversion) (x : ℕ) (t l : List ℕ)
    → length l ≤ n
    → ArgClear buf n k x t
    → IsArg m k x t
    → IsArg (blit m buf l) k x t
IsArg-clear m buf n decimal x t l b c h = h
IsArg-clear m buf n unsigned x t l b c h = h
IsArg-clear m buf n octal x t l b c h = h
IsArg-clear m buf n hexadecimal x t l b c h = h
IsArg-clear m buf n pointer x t l b c h = h
IsArg-clear m buf n character x t l b c h = h
IsArg-clear m buf n text x t l b c (nz, h, short) = (nz, IsStr-clear m buf n x t l b c h, short)
IsArg-clear m buf n percent x t l b c h = h

IsItem-clear :
    (m : Memory) (buf n : ℕ) (is : List Item) (l : List ℕ)
    → length l ≤ n
    → All (ItemClear buf n) is
    → All (IsItem m) is
    → All (IsItem (blit m buf l)) is
IsItem-clear m buf n [] l b c h = tt
IsItem-clear m buf n (plain x ∷ is) l b c h = (h.0, IsItem-clear m buf n is l b c.1 h.1)
IsItem-clear m buf n (escape z w k x t ∷ is) l b c h =
    ((h.0.0, IsArg-clear m buf n k x t l b c.0 h.0.1), IsItem-clear m buf n is l b c.1 h.1)

-- With a buffer of `n + 1` bytes at an address that is not null, in which neither the format nor a
-- text of `%s` stands, `snprintf` on a format of items with its arguments and fuel for the loops
-- ends, stores the first `n` characters that the items print and a terminator at `buf`, changes
-- nothing else, and returns the length of all that they print. Whatever part of that has been
-- stored, or other bytes of at most the buffer's size, the format and the texts still stand.
pub snprintf-printed :
    (fuel : ℕ) (m : Memory) (buf n fmt : ℕ) (is : List Item) (part : List ℕ)
    → buf ≢ 0
    → IsStr m fmt (format_text is)
    → All (IsItem m) is
    → fuel_for is ≤ fuel
    → IsClear buf (suc n) fmt (format_text is)
    → All (ItemClear buf (suc n)) is
    → length part ≤ suc n
    → (snprintf fuel m buf (pos (suc n)) fmt (slots is)
        ≡ some (
          int_of (length (printed is) % 2 ^ 32),
          blit m buf (low_bytes (take n (printed is)) ++ 0 ∷ []),
        ))
      × IsStr (blit m buf part) fmt (format_text is)
      × All (IsItem (blit m buf part)) is
unfolding snprintf
snprintf-printed fuel m buf n fmt is part b h i f c cs short = (
  vsnprintf_lem fuel m buf n fmt (slots is) b
      ∙ ap (in_buffer m buf n) (
          vprintfmt-printed collect fuel m fmt is [] h i f
          ∙ ap some (emit-collect (printed is) [])),
  IsStr-clear m buf (suc n) fmt (format_text is) part short c h,
  IsItem-clear m buf (suc n) is part short cs i,
)
