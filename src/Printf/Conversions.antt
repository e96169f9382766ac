-- ===== src/Printf/Conversions.antt =====
-- lib/printfmt.c: the conversions of `vprintfmt` print what `conversion_text` says.
use mit_jos_cse.Prelude.{
  ℕ, zero, suc, ◌+◌, ◌-◌, ◌%◌, ◌^◌, ◌<◌, ◌≤◌, ◌≡◌, ◌≢◌, refl, sym, ap, ◌∙◌, List, [], ◌∷◌, Option,
  some, Bool, true, false, arith, leb, ◌==◌, if◌then◌else◌, length, replicate, Memory, IsStr, ℤ,
  pos, negsuc, pos_part, ◌-ℤ◌, ltb_ℤ, Bool-cases, inl, inr, -ℤ_zero, -ℤ_suc,
}
use mit_jos_cse.CString.Scan.{strnlen, strnlen-short}
use mit_jos_cse.Printf.Number.{
  repeat, emit, repeat-emit, emit-append, numeral, padded, printnum-numeral,
}
use mit_jos_cse.Printf.Format.{
  int_of, int_char, Flags, no_flags, put_chars, put_string, getint, getuint,
}
use mit_jos_cse.Printf.Format.Parse.{
  Conversion, decimal, unsigned, octal, hexadecimal, pointer, character, text, percent,
  conversion_char, Width, pad_char, width_value, flags_of,
}
use mit_jos_cse.Printf.Engine.{put_number, put_decimal, put_text, with_arg, convert}
use mit_jos_cse.Printf.Escape.{
  shown_chars, length-shown_chars, decimal_text, conversion_text, IsArg, slots_of,
}

module _ {ℓ} {S : Type ℓ} (putch : ℕ → S → S) where
  put_number_lem :
      (num base : ℕ) (f : Flags) (s : S)
      → 1 < base
      → base ≤ 16
      → num < 2 ^ 64
      → put_number putch num base f s
        ≡ some (emit putch (padded f.width f.padc (numeral 64 base num)) s)
  unfolding put_number
  put_number_lem num base f s b l h = printnum-numeral putch 63 num base f.width f.padc s b l h

  put_decimal_lem :
      (num : ℕ) (f : Flags) (s : S)
      → num < 2 ^ 64
      → put_decimal putch num f s ≡ some (emit putch (decimal_text f.width f.padc num) s)
  unfolding put_decimal
  put_decimal_lem num f s h = elim (Bool-cases (leb (2 ^ 63) num)) [
    | inl e ↦ rw e (
        put_number_lem ((2 ^ 64 - num) % 2 ^ 64) 10 f (putch b'-' s) (omega arith) (omega arith)
          (omega arith))
    | inr e ↦ rw e (put_number_lem num 10 f s (omega arith) (omega arith) h)
  ]

  -- A text without a bound.
  put_chars_lem :
      (fuel : ℕ) (m : Memory) (p : ℕ) (width : ℤ) (t : List ℕ) (s : S)
      → IsStr m p t
      → length t < fuel
      → put_chars putch fuel m p (negsuc 0) width false s
        ≡ some (width -ℤ pos (length t), emit putch (shown_chars t) s)
  unfolding put_chars
  put_chars_lem zero m p width t s h f = absurd (omega arith)
  put_chars_lem (suc fuel) m p width [] s h f =
      rw (h, put_chars) (ap (λ w. some (w, s)) (sym (-ℤ_zero width)))
  put_chars_lem (suc fuel) m p width (c ∷ t) s h f =
      let more : (c == 0) ≡ false = ground (arith, h.1) in
      rw (h.0, more, put_chars)
        (put_chars_lem fuel m (p + 1) (width -ℤ pos 1) t (putch (int_char c) s) h.2 (omega arith)
          ∙ ap (λ w. some (w, emit putch (shown_chars (c ∷ t)) s)) (-ℤ_suc width (length t)))

pads_left : (z : Bool) → (pad_char z == b'-') ≡ false
pads_left true = refl
pads_left false = refl

none_right : (r : ℤ) (n : ℕ) → pos_part ((if ltb_ℤ (pos 0) r then pos 0 else r) -ℤ pos n) ≡ 0
unfolding ◌-ℤ◌
none_right r n = ground arith

pub none_missing : (w : ℤ) (n : ℕ) → ltb_ℤ (pos 0) w ≡ false → pos_part (w -ℤ pos n) ≡ 0
unfolding ◌-ℤ◌
none_missing w n h = ground arith

-- `getint(ap, 3)` and `getuint(ap, 3)` take the slot as it is.
getint_slot : (x : ℕ) (args : List ℕ) → getint (x ∷ args) 3 ≡ some (x, args)
unfolding getint
getint_slot x args = refl

getuint_slot : (x : ℕ) (args : List ℕ) → getuint (x ∷ args) 3 ≡ some (x, args)
unfolding getuint
getuint_slot x args = refl

int_of_small : (n : ℕ) → n < 2 ^ 31 → int_of n ≡ pos n
int_of_small n h = ground arith

-- The flags with a width, and with nothing else but the padding.
abbrev width_flags : Bool → ℤ → Flags
width_flags z w = record no_flags { padc = pad_char z; width = w }

module _ {ℓ} {S : Type ℓ} (putch : ℕ → S → S) where
  put_string_left :
      (fuel : ℕ) (m : Memory) (p : ℕ) (z : Bool) (w : ℤ) (t : List ℕ) (s : S)
      → IsStr m p t
      → length t < fuel
      → int_of (strnlen m p (2 ^ 64 - 1)) ≡ pos (length t)
      → ltb_ℤ (pos 0) w ≡ true
      → put_string putch fuel m p (width_flags z w) s
        ≡ some (emit putch (padded w (pad_char z) (shown_chars t)) s)
  unfolding put_string
  put_string_left fuel m p z w t s h f e l =
      let room = w -ℤ pos (length t) in
      let kept = if ltb_ℤ (pos 0) room then pos 0 else room in
      let s' = repeat putch (pos_part room) (pad_char z) s in
      rw
        (
          e,
          l,
          pads_left z,
          put_chars_lem putch fuel m p kept t s' h f,
          none_right room (length t),
          put_string,
          length-shown_chars t,
        )
        (ap (λ u. some (emit putch (shown_chars t) u))
            (repeat-emit putch (pos_part room) (pad_char z) s)
          ∙ ap some
              (sym (emit-append putch (replicate (pos_part room) (pad_char z)) (shown_chars t) s)))

  put_string_plain :
      (fuel : ℕ) (m : Memory) (p : ℕ) (z : Bool) (w : ℤ) (t : List ℕ) (s : S)
      → IsStr m p t
      → length t < fuel
      → ltb_ℤ (pos 0) w ≡ false
      → put_string putch fuel m p (width_flags z w) s
        ≡ some (emit putch (padded w (pad_char z) (shown_chars t)) s)
  unfolding put_string
  put_string_plain fuel m p z w t s h f l =
      rw
        (
          l,
          put_chars_lem putch fuel m p w t s h f,
          none_missing w (length t) l,
          put_string,
          length-shown_chars t,
        )
        (rw (none_missing w (length t) l) refl)

  put_text_lem :
      (fuel : ℕ) (m : Memory) (p : ℕ) (z : Bool) (w : ℤ) (t : List ℕ) (s : S)
      → p ≢ 0
      → IsStr m p t
      → length t < 2 ^ 31
      → length t < fuel
      → put_text putch fuel m p (width_flags z w) s
        ≡ some (emit putch (padded w (pad_char z) (shown_chars t)) s)
  unfolding put_text
  put_text_lem fuel m p z w t s n h b f =
      let here : (p == 0) ≡ false = ground (arith, n) in
      let len : int_of (strnlen m p (2 ^ 64 - 1)) ≡ pos (length t) =
        rw (strnlen-short m p (2 ^ 64 - 1) t h (omega arith) b) (int_of_small (length t) b) in
      rw here elim (Bool-cases (ltb_ℤ (pos 0) w)) [
        | inl l ↦ put_string_left fuel m p z w t s h f len l
        | inr l ↦ put_string_plain fuel m p z w t s h f l
      ]

  with_arg_lem :
      (fmt : ℕ) (source : Option (ℕ × List ℕ)) (put : ℕ → Option S) (x : ℕ) (args : List ℕ) (s' : S)
      → source ≡ some (x, args)
      → put x ≡ some s'
      → with_arg putch fmt source put ≡ some (fmt, args, s')
  unfolding with_arg
  with_arg_lem fmt source put x args s' e p = rw (e, p, with_arg) refl

  convert_number :
      (base fmt : ℕ) (z : Bool) (w : Width) (x : ℕ) (args : List ℕ) (s : S)
      → 1 < base
      → base ≤ 16
      → x < 2 ^ 64
      → with_arg putch fmt
          (getuint (x ∷ args) 3)
          (λ num. put_number putch num base (flags_of z w) s)
        ≡ some (fmt, args, emit putch (padded (width_value w) (pad_char z) (numeral 64 base x)) s)
  convert_number base fmt z w x args s b l h =
      with_arg_lem fmt (getuint (x ∷ args) 3) (λ num. put_number putch num base (flags_of z w) s) x
        args (emit putch (padded (width_value w) (pad_char z) (numeral 64 base x)) s)
        (getuint_slot x args) (put_number_lem putch x base (flags_of z w) s b l h)

  -- The `switch` at a conversion prints its text, and goes on behind it.
  pub convert_lem :
      (print : Memory → List ℕ → S → Option S) (fuel : ℕ) (m : Memory) (k : Conversion) (fmt : ℕ)
      (z : Bool) (w : Width) (x : ℕ) (t args : List ℕ) (s : S)
      → IsArg m k x t
      → length t < fuel
      → convert putch print fuel m (conversion_char k) fmt (slots_of k x args) (flags_of z w) s
        ≡ some (fmt, args, emit putch (conversion_text k (width_value w) (pad_char z) x t) s)
  unfolding convert
  convert_lem print fuel m decimal fmt z w x t args s h f =
      with_arg_lem fmt (getint (x ∷ args) 3) (λ num. put_decimal putch num (flags_of z w) s) x args
        (emit putch (decimal_text (width_value w) (pad_char z) x) s) (getint_slot x args)
        (put_decimal_lem putch x (flags_of z w) s h)
  convert_lem print fuel m unsigned fmt z w x t args s h f =
      convert_number 10 fmt z w x args s (omega arith) (omega arith) h
  convert_lem print fuel m octal fmt z w x t args s h f =
      convert_number 8 fmt z w x args s (omega arith) (omega arith) h
  convert_lem print fuel m hexadecimal fmt z w x t args s h f =
      convert_number 16 fmt z w x args s (omega arith) (omega arith) h
  convert_lem print fuel m pointer fmt z w x t args s h f =
      with_arg_lem fmt (some (x, args))
        (λ p. put_number putch p 16 (flags_of z w) (putch b'x' (putch b'0' s))) x args
        (emit putch (padded (width_value w) (pad_char z) (numeral 64 16 x))
          (putch b'x' (putch b'0' s)))
        refl
        (put_number_lem putch x 16 (flags_of z w) (putch b'x' (putch b'0' s)) (omega arith)
          (omega arith) h)
  convert_lem print fuel m character fmt z w x t args s h f =
      with_arg_lem fmt (some (x, args)) (λ c. some (putch (c % 2 ^ 32) s)) x args
        (putch (x % 2 ^ 32) s) refl refl
  convert_lem print fuel m text fmt z w x t args s (n, str, b) f =
      with_arg_lem fmt (some (x, args)) (λ p. put_text putch fuel m p (flags_of z w) s) x args
        (emit putch (padded (width_value w) (pad_char z) (shown_chars t)) s) refl
        (put_text_lem fuel m x z (width_value w) t s n str b f)
  convert_lem print fuel m percent fmt z w x t args s h f = refl
