-- ===== src/Printf/Meaning.antt =====
-- lib/printfmt.c: what `vprintfmt` prints for a format, told without its loops. A format is a list
-- of items: characters that are copied, and escape sequences with their arguments.
use mit_jos_cse.Prelude.{
  append-nil, append_assoc, ℕ, zero, suc, ◌+◌, ◌<◌, ◌≤◌, ◌≡◌, ◌≢◌, refl, sym, ap, ◌∙◌, subst, List,
  [], ◌∷◌, ◌++◌, some, Bool, false, arith, ◌==◌, length, All, Memory, IsStr, IsStr-rest,
}
use mit_jos_cse.Printf.Number.{emit, emit-append}
use mit_jos_cse.Printf.Format.{no_flags, reswitch}
use mit_jos_cse.Printf.Format.Parse.{
  Conversion, Width, IsWidth, conversion_char, zero_text, width_text, pad_char, width_value,
  flags_of, escape_size, reswitch_lem,
}
use mit_jos_cse.Printf.Engine.{vprintfmt}
use mit_jos_cse.Printf.Output.{collect}
use mit_jos_cse.Printf.Conversions.{convert_lem}
use mit_jos_cse.Printf.Escape.{IsArg, slots_of, conversion_text}

-- `escape z w k x t` has the flag 0 if `z`, the width `w`, the conversion `k` and the argument `x`,
-- which for `%s` is the address of `t`.
pub data Item : Type 0 where
  plain : ℕ → Item
  escape : Bool → Width → Conversion → ℕ → List ℕ → Item

-- The format as it is written.
abbrev pub format_text : List Item → List ℕ
format_text [] = []
format_text (plain c ∷ is) = c ∷ format_text is
format_text (escape z w k x t ∷ is) =
    b'%' ∷ (zero_text z ++ (width_text w ++ conversion_char k ∷ format_text is))

-- The arguments of the call.
abbrev pub slots : List Item → List ℕ
slots [] = []
slots (plain c ∷ is) = slots is
slots (escape z w k x t ∷ is) = slots_of k x (slots is)

-- The text that is printed.
abbrev pub printed : List Item → List ℕ
printed [] = []
printed (plain c ∷ is) = c ∷ printed is
printed (escape z w k x t ∷ is) = conversion_text k (width_value w) (pad_char z) x t ++ printed is

-- A copied character is no `%`, a width begins with no 0, and an argument is what its conversion
-- takes.
abbrev pub IsItem : Memory → Item → Type 0
IsItem m (plain c) = c ≢ b'%'
IsItem m (escape z w k x t) = IsWidth w × IsArg m k x t

-- Fuel for an item, with that for the loops over its width and its text.
abbrev pub fuel_for : List Item → ℕ
fuel_for [] = 1
fuel_for (plain c ∷ is) = suc (fuel_for is)
fuel_for (escape z w k x t ∷ is) = suc (escape_size z w + length t + fuel_for is)

module _ {ℓ} {S : Type ℓ} (putch : ℕ → S → S) where
  vprintfmt-plain :
      (fuel : ℕ) (m : Memory) (fmt c : ℕ) (args : List ℕ) (s : S)
      → m fmt ≡ c
      → c ≢ b'%'
      → c ≢ 0
      → vprintfmt putch (suc fuel) m fmt args s ≡ vprintfmt putch fuel m (fmt + 1) args (putch c s)
  unfolding vprintfmt
  vprintfmt-plain fuel m fmt c args s e h n =
      let no_escape : (c == b'%') ≡ false = ground (arith, h) in
      let no_end : (c == 0) ≡ false = ground (arith, n) in rw (e, no_escape, no_end, vprintfmt) refl

  vprintfmt-escape :
      (fuel : ℕ) (m : Memory) (fmt : ℕ) (z : Bool) (w : Width) (k : Conversion) (x : ℕ)
      (t args l : List ℕ) (s : S)
      → IsStr m fmt (b'%' ∷ (zero_text z ++ (width_text w ++ conversion_char k ∷ l)))
      → IsItem m (escape z w k x t)
      → escape_size z w + length t < fuel
      → vprintfmt putch (suc fuel) m fmt (slots_of k x args) s
        ≡ vprintfmt putch fuel m
            (fmt + 1 + escape_size z w)
            args
            (emit putch (conversion_text k (width_value w) (pad_char z) x t) s)
  unfolding vprintfmt
  vprintfmt-escape fuel m fmt z w k x t args l s h (d, a) f =
      let behind = fmt + 1 + escape_size z w in
      let read : reswitch fuel m (fmt + 1) (slots_of k x args) no_flags
          ≡ some (conversion_char k, behind, slots_of k x args, flags_of z w) =
        reswitch_lem fuel m (fmt + 1) (slots_of k x args) z w k l d h.2 (omega arith) in
      rw
        (
          h.0,
          read,
          convert_lem putch (λ m' a s'. vprintfmt putch fuel m' 0 a s') fuel m k behind z w x t args
              s a (omega arith),
          vprintfmt,
        )
        refl

  vprintfmt-end :
      (fuel : ℕ) (m : Memory) (fmt : ℕ) (args : List ℕ) (s : S)
      → m fmt ≡ 0
      → vprintfmt putch (suc fuel) m fmt args s ≡ some s
  unfolding vprintfmt
  vprintfmt-end fuel m fmt args s e = rw (e, vprintfmt) refl

IsStr-behind :
    (m : Memory) (fmt : ℕ) (z : Bool) (w : Width) (k : Conversion) (l : List ℕ)
    → IsStr m fmt (b'%' ∷ (zero_text z ++ (width_text w ++ conversion_char k ∷ l)))
    → IsStr m (fmt + 1 + escape_size z w) l
IsStr-behind m fmt z w k l h =
    subst (λ a. IsStr m a l) (omega arith)
      (IsStr-rest m (fmt + 1 + length (zero_text z)) (width_text w) (conversion_char k ∷ l)
        (IsStr-rest m (fmt + 1) (zero_text z) (width_text w ++ conversion_char k ∷ l) h.2)).2

fuel_for_pos : (is : List Item) → 0 < fuel_for is
fuel_for_pos [] = omega arith
fuel_for_pos (plain c ∷ is) = omega arith
fuel_for_pos (escape z w k x t ∷ is) = omega arith

-- On the text of a list of items, with their arguments in order and fuel for the loops, `vprintfmt`
-- ends, and calls `putch` exactly for the characters that the items print: a copied character as it
-- is, a number in its base and filled up on the left with blanks or zeros to its width, a `%d` with
-- the sign of its 64-bit slot in front of the padding, a pointer behind `0x`, a string filled up to
-- its width.
pub vprintfmt-printed {ℓ} :
    {S : Type ℓ} (putch : ℕ → S → S) (fuel : ℕ) (m : Memory) (fmt : ℕ) (is : List Item) (s : S)
    → IsStr m fmt (format_text is)
    → All (IsItem m) is
    → fuel_for is ≤ fuel
    → vprintfmt putch fuel m fmt (slots is) s ≡ some (emit putch (printed is) s)
vprintfmt-printed putch zero m fmt [] s h i f = absurd (omega arith)
vprintfmt-printed putch zero m fmt (plain c ∷ is) s h i f = absurd (omega arith)
vprintfmt-printed putch zero m fmt (escape z w k x t ∷ is) s h i f = absurd (omega arith)
vprintfmt-printed putch (suc fuel) m fmt [] s h i f = vprintfmt-end putch fuel m fmt [] s h
vprintfmt-printed putch (suc fuel) m fmt (plain c ∷ is) s h i f =
    vprintfmt-plain putch fuel m fmt c (slots is) s h.0 i.0 h.1
    ∙ vprintfmt-printed putch fuel m (fmt + 1) is (putch c s) h.2 i.1 (omega arith)
vprintfmt-printed putch (suc fuel) m fmt (escape z w k x t ∷ is) s h i f =
    let text = conversion_text k (width_value w) (pad_char z) x t in
    let behind = fmt + 1 + escape_size z w in
    let more : 0 < fuel_for is = fuel_for_pos is in
    vprintfmt-escape putch fuel m fmt z w k x t (slots is) (format_text is) s h i.0 (omega arith)
    ∙ vprintfmt-printed putch fuel m behind is (emit putch text s)
        (IsStr-behind m fmt z w k (format_text is) h) i.1 (omega arith)
    ∙ ap some (sym (emit-append putch text (printed is) s))

pub emit-collect : (t u : List ℕ) → emit collect t u ≡ u ++ t
emit-collect [] u = sym (append-nil u)
emit-collect (c ∷ t) u = emit-collect t (u ++ (c ∷ [])) ∙ append_assoc u (c ∷ []) t
