-- ===== src/Printf/Cprintf.antt =====
-- kern/printf.c: `putch`, `vcprintf` and `cprintf`, over the console's `cputchar`.
use mit_jos_cse.Prelude.{ℕ, ◌≡◌, refl, ap, ◌∙◌, List, [], ◌∷◌, Option, none, some, Memory}
use mit_jos_cse.Printf.Number.{emit}
use mit_jos_cse.Printf.Engine.{vprintfmt}
use mit_jos_cse.Printf.Output.{collect, shown}
use mit_jos_cse.Printf.Output.Uniform.{vprintfmt_lem}

module _ {ℓ} {S : Type ℓ} (cputchar : ℕ → S → S) where
  -- `*cnt++` moves the local pointer and leaves the counter as it is.
  unfoldable pub putch : ℕ → S × ℕ → S × ℕ
  putch ch (console, cnt) = (cputchar ch console, cnt)

  unfoldable pub vcprintf : ℕ → Memory → ℕ → List ℕ → S → Option (ℕ × S)
  unfolding putch
  vcprintf fuel m fmt args console = elim (vprintfmt putch fuel m fmt args (console, 0)) [
    | none ↦ none
    | some (console', cnt) ↦ some (cnt, console')
  ]

  unfoldable pub cprintf : ℕ → Memory → ℕ → List ℕ → S → Option (ℕ × S)
  unfolding vcprintf
  cprintf fuel m fmt args console = vcprintf fuel m fmt args console

  emit-putch :
      (t : List ℕ) (console : S) (cnt : ℕ)
      → emit putch t (console, cnt) ≡ (emit cputchar t console, cnt)
  unfolding putch
  emit-putch [] console cnt = refl
  emit-putch (c ∷ t) console cnt = emit-putch t (cputchar c console) cnt

  abbrev pub printed : S → Option (List ℕ) → Option (ℕ × S)
  printed console none = none
  printed console (some t) = some (0, emit cputchar t console)

  returned :
      (console : S) (o : Option (List ℕ))
      → elim (shown putch (console, 0) o) as (λ _. Option (ℕ × S)) [
        | none ↦ none
        | some (console', cnt) ↦ some (cnt, console')
      ]
        ≡ printed console o
  returned console none = refl
  returned console (some t) = rw (emit-putch t console 0)

  -- Whenever `cprintf` ends, it has sent exactly the formatted text to the console, but the number
  -- that it returns is 0, whatever it printed.
  pub cprintf_lem :
      (fuel : ℕ) (m : Memory) (fmt : ℕ) (args : List ℕ) (console : S)
      → cprintf fuel m fmt args console ≡ printed console (vprintfmt collect fuel m fmt args [])
  unfolding cprintf
  cprintf_lem fuel m fmt args console =
      ap
        (λ o. elim o as (λ _. Option (ℕ × S)) [
          | none ↦ none
          | some (console', cnt) ↦ some (cnt, console')
        ])
        (vprintfmt_lem putch fuel m fmt args (console, 0))
      ∙ returned console (vprintfmt collect fuel m fmt args [])
