-- ===== src/Printf/Engine.antt =====
-- lib/printfmt.c: the conversions of `vprintfmt`, its outer loop, and `printfmt`.
use mit_jos_cse.Prelude.{
  ℕ, zero, suc, ◌+◌, ◌-◌, ◌%◌, ◌^◌, List, [], ◌∷◌, ◌++◌, Option, none, some, leb, ◌==◌,
  if◌then◌else◌, codes, Memory,
}
use mit_jos_cse.Printf.Number.{printnum}
use mit_jos_cse.Printf.Format.{
  literal, va_arg, getuint, getint, Flags, no_flags, reswitch, error_string, max_error, rewind,
  put_string,
}

-- Where the format goes on, the arguments that are left, and the state.
abbrev pub Next {ℓ} : Type ℓ → Type ℓ
Next S = Option (ℕ × List ℕ × S)

module _ {ℓ} {S : Type ℓ} (putch : ℕ → S → S) where
  -- `number:`, with room for the digits of a 64-bit number
  unfoldable pub put_number : ℕ → ℕ → Flags → S → Option S
  put_number num base f s = printnum putch 64 num base f.width f.padc s

  -- `%d`
  unfoldable pub put_decimal : ℕ → Flags → S → Option S
  unfolding put_number
  put_decimal num f s =
      if leb (2 ^ 63) num
      then put_number ((2 ^ 64 - num) % 2 ^ 64) 10 f (putch b'-' s)
      else put_number num 10 f s

  -- `%e`, where `print m args` is `printfmt` with the format at address 0 of `m`. Negating the
  -- least `int` leaves it negative, and `error_string` is then read out of its bounds.
  unfoldable pub put_error : (Memory → List ℕ → S → Option S) → ℕ → S → Option S
  put_error print x s =
      let e = x % 2 ^ 32 in
      let err = if leb (2 ^ 31) e then 2 ^ 32 - e else e in
      let unknown = print (literal (codes "error %d")) (err ∷ []) s in
      if err == 2 ^ 31
      then none
      else if leb max_error err
      then unknown
      else elim (error_string err) [
        | none ↦ unknown
        | some text ↦ print (literal (codes "%s" ++ 0 ∷ text)) (3 ∷ []) s
      ]

  -- `%s`; a null pointer stands for "(null)".
  unfoldable pub put_text : ℕ → Memory → ℕ → Flags → S → Option S
  unfolding put_string
  put_text fuel m p f s =
      if p == 0
      then put_string putch fuel (literal (codes "(null)")) 0 f s
      else put_string putch fuel m p f s

  -- `break`: the format goes on behind the conversion character.
  unfoldable pub with_arg : ℕ → Option (ℕ × List ℕ) → (ℕ → Option S) → Next S
  with_arg fmt none put = none
  with_arg fmt (some (x, args)) put = elim (put x) [ none ↦ none | some s ↦ some (fmt, args, s) ]

  -- The `switch` at the conversion character `ch`; `fmt` is the address behind it.
  unfoldable pub convert :
      (Memory → List ℕ → S → Option S) → ℕ → Memory → ℕ → ℕ → List ℕ → Flags → S → Next S
  unfolding put_number put_decimal put_error put_text with_arg
  convert print fuel m ch fmt args f s =
      if ch == b'c'
      then with_arg fmt (va_arg args) (λ x. some (putch (x % 2 ^ 32) s))
      else if ch == b'e'
      then with_arg fmt (va_arg args) (λ x. put_error print x s)
      else if ch == b's'
      then with_arg fmt (va_arg args) (λ p. put_text fuel m p f s)
      else if ch == b'd'
      then with_arg fmt (getint args 3) (λ num. put_decimal num f s)
      else if ch == b'u'
      then with_arg fmt (getuint args 3) (λ num. put_number num 10 f s)
      else if ch == b'o'
      then with_arg fmt (getuint args 3) (λ num. put_number num 8 f s)
      else if ch == b'p'
      then with_arg fmt (va_arg args) (λ p. put_number p 16 f (putch b'x' (putch b'0' s)))
      else if ch == b'x'
      then with_arg fmt (getuint args 3) (λ num. put_number num 16 f s)
      else if ch == b'%'
      then some (fmt, args, putch ch s)
      else some (rewind m (fmt - 1), args, putch b'%' s)

  -- `while (1)` of `vprintfmt`; a round copies one character or handles one escape sequence.
  unfoldable pub vprintfmt : ℕ → Memory → ℕ → List ℕ → S → Option S
  unfolding convert
  vprintfmt zero m fmt args s = none
  vprintfmt (suc fuel) m fmt args s =
      let ch = m fmt in
      let copied = vprintfmt fuel m (fmt + 1) args (putch ch s) in
      let escape : Option S = elim (reswitch fuel m (fmt + 1) args no_flags) [
        | none ↦ none
        | some (c, fmt', args', f) ↦
            elim (convert (λ m' a s'. vprintfmt fuel m' 0 a s') fuel m c fmt' args' f s) [
              | none ↦ none
              | some (fmt'', args'', s'') ↦ vprintfmt fuel m fmt'' args'' s''
            ]
      ] in
      if ch == b'%' then escape else if ch == 0 then some s else copied
