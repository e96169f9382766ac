-- ===== src/Printf/Output.antt =====
-- What `vprintfmt` prints does not depend on the callback: the calls of `putch` are those for the
-- characters of one text.
pub mod Uniform
use mit_jos_cse.Prelude.{
  ℕ, zero, suc, ◌+◌, ◌-◌, ◌%◌, ◌/◌, ◌^◌, ◌≡◌, refl, sym, ap, ◌∙◌, List, [], ◌∷◌, ◌++◌, Option, none,
  some, Bool, true, false, ◌||◌, not, ◌&&◌, arith, leb, ltb, ◌==◌, if◌then◌else◌, codes, Memory, ℤ,
  pos, pos_part, ◌-ℤ◌, ltb_ℤ, Bool-cases, inl, inr,
}
use mit_jos_cse.CString.Scan.{strnlen}
use mit_jos_cse.Printf.Number.{digit_char, printnum, repeat, emit, emit-append}
use mit_jos_cse.Printf.Format.{
  literal, int_char, int_of, pattern64, va_arg, getuint, getint, Flags, no_flags, reswitch,
  error_string, max_error, rewind, put_chars, put_string,
}
use mit_jos_cse.Printf.Engine.{
  Next, put_number, put_decimal, put_error, put_text, with_arg, convert, vprintfmt,
}

-- The callback that collects the text.
abbrev pub collect : ℕ → List ℕ → List ℕ
collect c out = out ++ (c ∷ [])

module _ {ℓ} {S : Type ℓ} (putch : ℕ → S → S) (s : S) where
  -- The state after a text was printed.
  abbrev pub shown : Option (List ℕ) → Option S
  shown none = none
  shown (some t) = some (emit putch t s)

  abbrev shown_width : Option (ℤ × List ℕ) → Option (ℤ × S)
  shown_width none = none
  shown_width (some (w, t)) = some (w, emit putch t s)

  putch-emit : (c : ℕ) (t : List ℕ) → putch c (emit putch t s) ≡ emit putch (collect c t) s
  putch-emit c t = sym (emit-append putch t (c ∷ []) s)

  repeat-shown :
      (n c : ℕ) (t : List ℕ)
      → repeat putch n c (emit putch t s) ≡ emit putch (repeat collect n c t) s
  repeat-shown zero c t = refl
  repeat-shown (suc n) c t = ap (repeat putch n c) (putch-emit c t) ∙ repeat-shown n c (collect c t)

  last_shown :
      (c : ℕ) (o : Option (List ℕ))
      → elim (shown o) [ none ↦ none | some s' ↦ some (putch c s') ]
        ≡ shown (elim o [ none ↦ none | some t ↦ some (collect c t) ])
  last_shown c none = refl
  last_shown c (some t) = ap some (putch-emit c t)

  if-shown :
      (b : Bool) (x' y' : Option (List ℕ)) {x y : Option S}
      → x ≡ shown x'
      → y ≡ shown y'
      → (if b then x else y) ≡ shown (if b then x' else y')
  if-shown true x' y' h k = h
  if-shown false x' y' h k = k

  if-shown_width :
      (b : Bool) (x' y' : Option (ℤ × List ℕ)) {x y : Option (ℤ × S)}
      → x ≡ shown_width x'
      → y ≡ shown_width y'
      → (if b then x else y) ≡ shown_width (if b then x' else y')
  if-shown_width true x' y' h k = h
  if-shown_width false x' y' h k = k

  printnum-shown :
      (fuel num base : ℕ) (width : ℤ) (padc : ℕ) (t : List ℕ)
      → printnum putch fuel num base width padc (emit putch t s)
        ≡ shown (printnum collect fuel num base width padc t)
  unfolding printnum
  printnum-shown zero num base width padc t = refl
  printnum-shown (suc fuel) num base width padc t =
      let less = width -ℤ pos 1 in
      let c = digit_char (num % base) in
      let n = pos_part less in
      let front =
        if leb base num
        then printnum collect fuel (num / base) base less padc t
        else some (repeat collect n padc t) in
      ap (λ o. elim o as (λ _. Option S) [ none ↦ none | some s' ↦ some (putch c s') ])
        (if-shown (leb base num) _ _ (printnum-shown fuel (num / base) base less padc t)
          (ap some (repeat-shown n padc t)))
      ∙ last_shown c front

  put_chars-shown :
      (fuel : ℕ) (m : Memory) (p : ℕ) (precision width : ℤ) (alt : Bool) (t : List ℕ)
      → put_chars putch fuel m p precision width alt (emit putch t s)
        ≡ shown_width (put_chars collect fuel m p precision width alt t)
  unfolding put_chars
  put_chars-shown zero m p precision width alt t = refl
  put_chars-shown (suc fuel) m p precision width alt t =
      let unbounded = ltb_ℤ precision (pos 0) in
      let precision' = if unbounded then precision else precision -ℤ pos 1 in
      let c = if alt && (ltb (m p) b' ' || ltb b'~' (m p)) then b'?' else int_char (m p) in
      if-shown_width (m p == 0 || (not unbounded && ltb_ℤ precision' (pos 0))) _ _ refl (
        ap (put_chars putch fuel m (p + 1) precision' (width -ℤ pos 1) alt) (putch-emit c t)
        ∙ put_chars-shown fuel m (p + 1) precision' (width -ℤ pos 1) alt (collect c t))

  right_pad-shown :
      (o : Option (ℤ × List ℕ))
      → elim (shown_width o) [
        | none ↦ none
        | some (width', s'') ↦ some (repeat putch (pos_part width') b' ' s'')
      ]
        ≡ shown (elim o [
          | none ↦ none
          | some (width', t) ↦ some (repeat collect (pos_part width') b' ' t)
        ])
  right_pad-shown none = refl
  right_pad-shown (some (w, t)) = ap some (repeat-shown (pos_part w) b' ' t)

  left_pad-shown :
      (b : Bool) (n c : ℕ) (t : List ℕ)
      → (if b then repeat putch n c (emit putch t s) else emit putch t s)
        ≡ emit putch (if b then repeat collect n c t else t) s
  left_pad-shown true n c t = repeat-shown n c t
  left_pad-shown false n c t = refl

  put_string-shown :
      (fuel : ℕ) (m : Memory) (p : ℕ) (f : Flags) (t : List ℕ)
      → put_string putch fuel m p f (emit putch t s) ≡ shown (put_string collect fuel m p f t)
  unfolding put_string
  put_string-shown fuel m p f t =
      let len = int_of (strnlen m p (pattern64 f.precision)) in
      let left = ltb_ℤ (pos 0) f.width && not (f.padc == b'-') in
      let room = f.width -ℤ len in
      let width = if left then (if ltb_ℤ (pos 0) room then pos 0 else room) else f.width in
      let t' = if left then repeat collect (pos_part room) f.padc t else t in
      ap
        (λ x. elim (put_chars putch fuel m p f.precision width f.altflag x) as (λ _. Option S) [
          | none ↦ none
          | some (width', s'') ↦ some (repeat putch (pos_part width') b' ' s'')
        ])
        (left_pad-shown left (pos_part room) f.padc t)
      ∙ ap
          (λ o. elim o as (λ _. Option S) [
            | none ↦ none
            | some (width', s'') ↦ some (repeat putch (pos_part width') b' ' s'')
          ])
          (put_chars-shown fuel m p f.precision width f.altflag t')
      ∙ right_pad-shown (put_chars collect fuel m p f.precision width f.altflag t')
