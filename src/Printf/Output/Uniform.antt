-- ===== src/Printf/Output/Uniform.antt =====
-- The conversions and the outer loop of `vprintfmt` print one text, whatever the callback.
use mit_jos_cse.Printf.Output.{
  collect, shown, if-shown, putch-emit, printnum-shown, put_string-shown,
}
use mit_jos_cse.Prelude.{
  ℕ, zero, suc, ◌+◌, ◌-◌, ◌%◌, ◌^◌, ◌≡◌, refl, ap, ◌∙◌, List, [], ◌∷◌, ◌++◌, Option, none, some,
  Bool, true, false, leb, ◌==◌, if◌then◌else◌, codes, Memory,
}
use mit_jos_cse.Printf.Number.{emit}
use mit_jos_cse.Printf.Format.{
  literal, va_arg, getuint, getint, Flags, no_flags, reswitch, error_string, max_error, rewind,
}
use mit_jos_cse.Printf.Engine.{
  Next, put_number, put_decimal, put_error, put_text, with_arg, convert, vprintfmt,
}

module _ {ℓ} {S : Type ℓ} (putch : ℕ → S → S) (s : S) where
  abbrev shown_next : Next (List ℕ) → Next S
  shown_next none = none
  shown_next (some (fmt, args, t)) = some (fmt, args, emit putch t s)

  if-shown_next :
      (b : Bool) (x' y' : Next (List ℕ)) {x y : Next S}
      → x ≡ shown_next x'
      → y ≡ shown_next y'
      → (if b then x else y) ≡ shown_next (if b then x' else y')
  if-shown_next true x' y' h k = h
  if-shown_next false x' y' h k = k

  put_number-shown :
      (num base : ℕ) (f : Flags) (t : List ℕ)
      → put_number putch num base f (emit putch t s)
        ≡ shown putch s (put_number collect num base f t)
  unfolding put_number
  put_number-shown num base f t = printnum-shown putch s 64 num base f.width f.padc t

  put_decimal-shown :
      (num : ℕ) (f : Flags) (t : List ℕ)
      → put_decimal putch num f (emit putch t s) ≡ shown putch s (put_decimal collect num f t)
  unfolding put_decimal
  put_decimal-shown num f t =
      if-shown putch s (leb (2 ^ 63) num) _ _
        (ap (put_number putch ((2 ^ 64 - num) % 2 ^ 64) 10 f) (putch-emit putch s b'-' t)
          ∙ put_number-shown ((2 ^ 64 - num) % 2 ^ 64) 10 f (collect b'-' t))
        (put_number-shown num 10 f t)

  put_pointer-shown :
      (p : ℕ) (f : Flags) (t : List ℕ)
      → put_number putch p 16 f (putch b'x' (putch b'0' (emit putch t s)))
        ≡ shown putch s (put_number collect p 16 f (collect b'x' (collect b'0' t)))
  put_pointer-shown p f t =
      ap (put_number putch p 16 f)
        (ap (putch b'x') (putch-emit putch s b'0' t) ∙ putch-emit putch s b'x' (collect b'0' t))
      ∙ put_number-shown p 16 f (collect b'x' (collect b'0' t))

  put_text-shown :
      (fuel : ℕ) (m : Memory) (p : ℕ) (f : Flags) (t : List ℕ)
      → put_text putch fuel m p f (emit putch t s) ≡ shown putch s (put_text collect fuel m p f t)
  unfolding put_text
  put_text-shown fuel m p f t =
      if-shown putch s (p == 0) _ _ (put_string-shown putch s fuel (literal (codes "(null)")) 0 f t)
        (put_string-shown putch s fuel m p f t)

  next-shown :
      (fmt : ℕ) (args : List ℕ) (o : Option (List ℕ))
      → elim (shown putch s o) as (λ _. Next S) [ none ↦ none | some s' ↦ some (fmt, args, s') ]
        ≡ shown_next (elim o as (λ _. Next (List ℕ)) [ none ↦ none | some t ↦ some (fmt, args, t) ])
  next-shown fmt args none = refl
  next-shown fmt args (some t) = refl

  with_arg-shown :
      (fmt : ℕ) (a : Option (ℕ × List ℕ)) (put : ℕ → Option S) (put' : ℕ → Option (List ℕ))
      → ((x : ℕ) → put x ≡ shown putch s (put' x))
      → with_arg putch fmt a put ≡ shown_next (with_arg collect fmt a put')
  unfolding with_arg
  with_arg-shown fmt none put put' h = refl
  with_arg-shown fmt (some (x, args)) put put' h =
      ap (λ o. elim o as (λ _. Next S) [ none ↦ none | some s' ↦ some (fmt, args, s') ]) (h x)
      ∙ next-shown fmt args (put' x)

  error-shown :
      (o : Option (List ℕ)) (u : Option S) (u' : Option (List ℕ)) (print : List ℕ → Option S)
      (print' : List ℕ → Option (List ℕ))
      → u ≡ shown putch s u'
      → ((x : List ℕ) → print x ≡ shown putch s (print' x))
      → elim o as (λ _. Option S) [ none ↦ u | some text ↦ print text ]
        ≡ shown putch s (elim o as (λ _. Option (List ℕ)) [ none ↦ u' | some text ↦ print' text ])
  error-shown none u u' print print' h k = h
  error-shown (some text) u u' print print' h k = k text

  module _ (print : Memory → List ℕ → S → Option S)
      (print' : Memory → List ℕ → List ℕ → Option (List ℕ))
      (same : (m : Memory) (args t : List ℕ)
        → print m args (emit putch t s) ≡ shown putch s (print' m args t)) where
    put_error-shown :
        (x : ℕ) (t : List ℕ)
        → put_error putch print x (emit putch t s) ≡ shown putch s (put_error collect print' x t)
    unfolding put_error
    put_error-shown x t =
        let e = x % 2 ^ 32 in
        let err = if leb (2 ^ 31) e then 2 ^ 32 - e else e in
        let unknown = same (literal (codes "error %d")) (err ∷ []) t in
        if-shown putch s (err == 2 ^ 31) _ _ refl (
          if-shown putch s (leb max_error err) _ _ unknown (
            error-shown (error_string err) _ _
              (λ text. print (literal (codes "%s" ++ 0 ∷ text)) (3 ∷ []) (emit putch t s))
              (λ text. print' (literal (codes "%s" ++ 0 ∷ text)) (3 ∷ []) t) unknown
              (λ text. same (literal (codes "%s" ++ 0 ∷ text)) (3 ∷ []) t)))

    convert-shown :
        (fuel : ℕ) (m : Memory) (ch fmt : ℕ) (args : List ℕ) (f : Flags) (t : List ℕ)
        → convert putch print fuel m ch fmt args f (emit putch t s)
          ≡ shown_next (convert collect print' fuel m ch fmt args f t)
    unfolding convert
    convert-shown fuel m ch fmt args f t =
        if-shown_next (ch == b'c') _ _
          (with_arg-shown fmt (va_arg args) _ _ (λ x. ap some (putch-emit putch s (x % 2 ^ 32) t)))
          (if-shown_next (ch == b'e') _ _
            (with_arg-shown fmt (va_arg args) _ _ (λ x. put_error-shown x t))
            (if-shown_next (ch == b's') _ _
              (with_arg-shown fmt (va_arg args) _ _ (λ p. put_text-shown fuel m p f t))
              (if-shown_next (ch == b'd') _ _
                (with_arg-shown fmt (getint args 3) _ _ (λ num. put_decimal-shown num f t))
                (if-shown_next (ch == b'u') _ _
                  (with_arg-shown fmt (getuint args 3) _ _ (λ num. put_number-shown num 10 f t))
                  (if-shown_next (ch == b'o') _ _
                    (with_arg-shown fmt (getuint args 3) _ _ (λ num. put_number-shown num 8 f t))
                    (if-shown_next (ch == b'p') _ _
                      (with_arg-shown fmt (va_arg args) _ _ (λ p. put_pointer-shown p f t))
                      (if-shown_next (ch == b'x') _ _
                        (with_arg-shown fmt (getuint args 3) _ _
                          (λ num. put_number-shown num 16 f t))
                        (if-shown_next (ch == b'%') _ _
                          (ap (λ x. some (fmt, args, x)) (putch-emit putch s ch t))
                          (ap (λ x. some (rewind m (fmt - 1), args, x))
                            (putch-emit putch s b'%' t))))))))))

  go_on-shown :
      (go : ℕ → List ℕ → S → Option S) (go' : ℕ → List ℕ → List ℕ → Option (List ℕ))
      (same : (fmt : ℕ) (args t : List ℕ)
        → go fmt args (emit putch t s) ≡ shown putch s (go' fmt args t))
      (o : Next (List ℕ))
      → elim (shown_next o) as (λ _. Option S) [
        | none ↦ none
        | some (fmt, args, s') ↦ go fmt args s'
      ]
        ≡ shown putch s (elim o as (λ _. Option (List ℕ)) [
          | none ↦ none
          | some (fmt, args, t) ↦ go' fmt args t
        ])
  go_on-shown go go' same none = refl
  go_on-shown go go' same (some (fmt, args, t)) = same fmt args t

  escape-shown :
      (k : ℕ → ℕ → List ℕ → Flags → Option S) (k' : ℕ → ℕ → List ℕ → Flags → Option (List ℕ))
      (same : (c fmt : ℕ) (args : List ℕ) (f : Flags)
        → k c fmt args f ≡ shown putch s (k' c fmt args f))
      (o : Option (ℕ × ℕ × List ℕ × Flags))
      → elim o as (λ _. Option S) [ none ↦ none | some (c, fmt, args, f) ↦ k c fmt args f ]
        ≡ shown putch s (elim o as (λ _. Option (List ℕ)) [
          | none ↦ none
          | some (c, fmt, args, f) ↦ k' c fmt args f
        ])
  escape-shown k k' same none = refl
  escape-shown k k' same (some (c, fmt, args, f)) = same c fmt args f

  vprintfmt-shown :
      (fuel : ℕ) (m : Memory) (fmt : ℕ) (args t : List ℕ)
      → vprintfmt putch fuel m fmt args (emit putch t s)
        ≡ shown putch s (vprintfmt collect fuel m fmt args t)
  unfolding vprintfmt
  vprintfmt-shown zero m fmt args t = refl
  vprintfmt-shown (suc fuel) m fmt args t =
      let ch = m fmt in
      if-shown putch s (ch == b'%') _ _
        (escape-shown _ _
          (λ c fmt' args' f.
            ap
              (λ o. elim o as (λ _. Option S) [
                | none ↦ none
                | some (fmt'', args'', s'') ↦ vprintfmt putch fuel m fmt'' args'' s''
              ])
              (convert-shown (λ m' a s'. vprintfmt putch fuel m' 0 a s')
                (λ m' a t'. vprintfmt collect fuel m' 0 a t')
                (λ m' a t'. vprintfmt-shown fuel m' 0 a t') fuel m c fmt' args' f t)
            ∙ go_on-shown (vprintfmt putch fuel m) (vprintfmt collect fuel m)
                (vprintfmt-shown fuel m)
                (convert collect (λ m' a t'. vprintfmt collect fuel m' 0 a t') fuel m c fmt' args' f
                  t))
          (reswitch fuel m (fmt + 1) args no_flags))
        (if-shown putch s (ch == 0) _ _ refl (
          ap (vprintfmt putch fuel m (fmt + 1) args) (putch-emit putch s ch t)
          ∙ vprintfmt-shown fuel m (fmt + 1) args (collect ch t)))

-- Whatever the callback and its state, `vprintfmt` ends or faults as it does when the characters
-- are collected, and if it ends it has called `putch` for the collected characters, in order, and
-- for nothing else.
pub vprintfmt_lem {ℓ} :
    {S : Type ℓ} (putch : ℕ → S → S) (fuel : ℕ) (m : Memory) (fmt : ℕ) (args : List ℕ) (s : S)
    → vprintfmt putch fuel m fmt args s ≡ shown putch s (vprintfmt collect fuel m fmt args [])
vprintfmt_lem putch fuel m fmt args s = vprintfmt-shown putch s fuel m fmt args []
