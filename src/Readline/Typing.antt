-- ===== src/Readline/Typing.antt =====
-- lib/readline.c over kern/console.c: `readline` on the console's own `getchar` and `cputchar`, while
-- keys are struck one after the other.
use mit_jos_cse.Prelude.{
  ℕ, ◌+◌, ◌-◌, ◌^◌, ◌≤◌, ◌<◌, ◌≡◌, ◌≢◌, refl, sym, ap, ◌∙◌, subst, inl, inr, List, [], ◌∷◌, ◌++◌,
  Option, none, some, Bool, true, ◌&&◌, arith, leb, ltb, length, All, Memory, IsStr, Outside, ℤ,
  pos, Bool-cases,
}
use mit_jos_cse.Printf.Number.{emit}
use mit_jos_cse.Printf.Escape.{shown_chars}
use mit_jos_cse.Console.Input.{Cons}
use mit_jos_cse.Console.Input.Ring.{IsValid, queue, first_of, rest_of}
use mit_jos_cse.Console.Input.Intr.{kept, Delivers, Serial}
use mit_jos_cse.Console.Getchar.{getchar, Quiet, getchar_lem}
use mit_jos_cse.Console.Display.{Crt, cputchar}
use mit_jos_cse.Readline.{buflen}
use mit_jos_cse.Readline.Line.{IsKey, IsEnter, erases, press, typed, turned, shown_key, typed-short}
use mit_jos_cse.Readline.Prompt.{line_stored, line_stored-IsStr, line_stored-Outside}
use mit_jos_cse.Readline.Live.{readline_live, Keyed, readline_live-Keyed}

kept_one : (c : ℕ) → 0 < c → c < 2 ^ 8 → kept (c ∷ []) ≡ c ∷ []
kept_one c a b = ground arith

module _ {D : Type 0} (inb : ℕ → D → ℕ × D) (outb : ℕ → ℕ → D → D) (addr : ℕ)
    (serial kbd : D → Option ℕ × D) (exists : Bool) (polls fuel : ℕ) where
  -- The console: its devices and display, and the input ring.
  abbrev pub Console : Type 0
  Console = (D × Crt) × Cons

  -- `getchar`, with fuel for the polls that find nothing.
  unfoldable pub console_getchar : Console → Option (ℤ × Console)
  console_getchar ((d, crt), r) = elim (getchar serial kbd exists polls fuel d r) [
    | none ↦ none
    | some (c, d', r') ↦ some (pos c, ((d', crt), r'))
  ]

  abbrev pub console_putchar : ℕ → Console → Console
  console_putchar c (screen, r) = (cputchar inb outb addr c screen, r)

  -- After some polls that find nothing, the keyboard delivers the character.
  abbrev pub Struck : D → ℕ → D → Type 0
  Struck d c d2 =
      (n : ℕ) × (d0 : D) × (d1 : D) × (n < polls)
      × Quiet serial kbd exists n d d0
      × Serial exists serial d0 [] d1
      × Delivers kbd d1 (c ∷ []) d2

  -- The keys are struck, each after the one before it was shown.
  abbrev pub Strokes : List ℕ → D × Crt → List ℕ → D × Crt → Type 0
  Strokes l screen [] screen' = screen ≡ screen'
  Strokes l (d, crt) (c ∷ keys) screen' =
      (d2 : D) × Struck d c d2
      × Strokes (press c l) (shown_key (cputchar inb outb addr) true c (length l) (d2, crt)) keys
          screen'

  console_getchar_lem :
      (d d' : D) (crt : Crt) (r r' : Cons) (c : ℕ)
      → getchar serial kbd exists polls fuel d r ≡ some (c, d', r')
      → console_getchar ((d, crt), r) ≡ some (pos c, ((d', crt), r'))
  unfolding console_getchar
  console_getchar_lem d d' crt r r' c e = rw (e, console_getchar) refl

  struck_lem :
      (d d2 : D) (crt : Crt) (c : ℕ) {r : Cons}
      → IsValid r
      → queue r ≡ []
      → Struck d c d2
      → 0 < c
      → c < 2 ^ 8
      → 1 < fuel
      → (r' : Cons) × (console_getchar ((d, crt), r) ≡ some (pos c, ((d2, crt), r')))
        × IsValid r'
        × (queue r' ≡ [])
  struck_lem d d2 crt c {r} v q (n, d0, d1, p, quiet, s, k) a b f =
      let one : kept [] ++ kept (c ∷ []) ≡ c ∷ [] = kept_one c a b in
      let (r', got, v', left) =
        getchar_lem serial kbd exists n polls fuel d d0 d1 d2 [] (c ∷ []) {r = r} v q quiet s k
          (omega (arith, ap first_of one, a)) (omega (arith, ap length one)) (omega arith) p in
      (
        r',
        console_getchar_lem d d2 crt r r' c (got ∙ ap (λ l. some (first_of l, d2, r')) one),
        v',
        left ∙ ap rest_of one,
      )

  shown_key-console :
      (c i : ℕ) (screen : D × Crt) (r : Cons)
      → shown_key console_putchar true c i (screen, r)
        ≡ (shown_key (cputchar inb outb addr) true c i screen, r)
  shown_key-console c i screen r = elim (Bool-cases (erases c && ltb 0 i)) [
    | inl e ↦ rw e refl
    | inr e ↦ elim (Bool-cases (leb b' ' c && ltb i (buflen - 1))) [
      | inl f ↦ rw (e, f) refl
      | inr f ↦ rw (e, f) refl
    ]
  ]

  emit-console :
      (t : List ℕ) (screen : D × Crt) (r : Cons)
      → emit console_putchar t (screen, r) ≡ (emit (cputchar inb outb addr) t screen, r)
  emit-console [] screen r = refl
  emit-console (c ∷ t) screen r = emit-console t (cputchar inb outb addr c screen) r

  Strokes-Keyed :
      (keys l : List ℕ) (screen screen' : D × Crt) {r : Cons}
      → IsValid r
      → queue r ≡ []
      → All IsKey keys
      → 1 < fuel
      → Strokes l screen keys screen'
      → (r' : Cons) × Keyed console_getchar console_putchar l (screen, r) keys (screen', r')
        × IsValid r'
        × (queue r' ≡ [])
  Strokes-Keyed [] l screen screen' {r} v q k f h = (r, ap (λ x. (x, r)) h, v, q)
  Strokes-Keyed (c ∷ keys) l (d, crt) screen' {r} v q (k, ks) f (d2, struck, h) =
      let (r1, got, v1, q1) = struck_lem d d2 crt c {r = r} v q struck k.0 k.1 f in
      let next = shown_key (cputchar inb outb addr) true c (length l) (d2, crt) in
      let (r2, keyed, v2, q2) = Strokes-Keyed keys (press c l) next screen' {r = r1} v1 q1 ks f h in
      (
        r2,
        (
          ((d2, crt), r1),
          got,
          subst (λ x. Keyed console_getchar console_putchar (press c l) x keys (screen', r2))
              (sym (shown_key-console c (length l) (d2, crt) r1)) keyed,
        ),
        v2,
        q2,
      )

  -- From a valid ring in which nothing waits, where keys of which none is Enter are struck on the
  -- keyboard, each after the one before it was shown and after some polls that find nothing, and then
  -- Enter: `readline` on the console's `getchar` and `cputchar` ends. It returns its buffer, which
  -- holds the edited line as a string, and has changed nothing else in memory; the ring is valid and
  -- empty again, and the display has shown the prompt, the keys and a new line.
  pub readline_live_lem :
      (rounds buf : ℕ) (prompt keys : List ℕ) (enter : ℕ) (m : Memory) (screen : D × Crt) (d d2 : D)
      (crt : Crt) {r : Cons}
      → IsValid r
      → queue r ≡ []
      → All (λ c. c ≢ 0) prompt
      → length prompt < 2 ^ 31
      → length prompt + 3 ≤ fuel
      → All IsKey keys
      → IsEnter enter
      → Strokes [] (emit (cputchar inb outb addr) (shown_chars prompt) screen) keys (d, crt)
      → Struck d enter d2
      → length keys < rounds
      → (r' : Cons) × (m' : Memory) × (readline_live console_getchar console_putchar rounds fuel buf
            (some prompt)
            m
            (screen, r)
          ≡ some (some buf, m', (cputchar inb outb addr 10 (d2, crt), r')))
        × IsStr m' buf (turned (typed keys []) [])
        × (length (typed keys []) < buflen)
        × ((a : ℕ) → Outside buf buflen a → m' a ≡ m a)
        × IsValid r'
        × (queue r' ≡ [])
  readline_live_lem rounds buf prompt keys enter m screen d d2 crt {r} v q n b f k e h last more =
      let shown = emit (cputchar inb outb addr) (shown_chars prompt) screen in
      let (r1, keyed, v1, q1) =
        Strokes-Keyed keys [] shown (d, crt) {r = r} v q k (omega arith) h in
      let (r2, got, v2, q2) =
        struck_lem d d2 crt enter {r = r1} v1 q1 last (omega (arith, e)) (omega (arith, e))
          (omega arith) in
      (
        r2,
        line_stored console_putchar keys buf m,
        readline_live-Keyed console_getchar console_putchar rounds fuel buf prompt keys enter m
            (screen, r) ((d, crt), r1) ((d2, crt), r2) n b f k e
            (subst (λ x. Keyed console_getchar console_putchar [] x keys ((d, crt), r1))
              (sym (emit-console (shown_chars prompt) screen r)) keyed)
            got more,
        line_stored-IsStr console_putchar keys buf m k,
        typed-short keys [] (omega arith),
        line_stored-Outside console_putchar keys buf m,
        v2,
        q2,
      )
