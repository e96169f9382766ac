-- ===== src/Printf/Buffer.antt =====
-- lib/printfmt.c: `sprintputch`, `vsnprintf` and `snprintf`. The buffer does not overlap the format
-- or the texts of `%s`: those are read in the memory as it is before the call.
use Prim.Native.Nat.{min}
use mit_jos_cse.Prelude.{
  false, true, ◌⊎◌, blit-append, ℕ, zero, suc, ◌+◌, ◌-◌, ◌%◌, ◌^◌, ◌<◌, ◌≡◌, ◌≢◌, refl, sym, ap,
  ◌∙◌, List, [], ◌∷◌, ◌++◌, Option, none, some, ◌||◌, arith, ltb, ◌==◌, if◌then◌else◌, length, take,
  Memory, store, blit, ℤ, pos, negsuc, pos_part, ltb_ℤ,
}
use mit_jos_cse.Printf.Number.{emit}
use mit_jos_cse.Printf.Format.{int_of}
use mit_jos_cse.Printf.Engine.{vprintfmt}
use mit_jos_cse.Printf.Output.{collect, shown}
use mit_jos_cse.Printf.Output.Uniform.{vprintfmt_lem}

-- `struct sprintbuf`, with the memory that it points into
pub record SprintBuf : Type 0 where
  pub memory : Memory
  pub buf : ℕ
  pub ebuf : ℕ
  pub cnt : ℕ

unfoldable pub sprintputch : ℕ → SprintBuf → SprintBuf
sprintputch ch b =
    let cnt' = (b.cnt + 1) % 2 ^ 32 in
    if ltb b.buf b.ebuf
    then record b { memory = store b.memory b.buf (ch % 2 ^ 8); buf = b.buf + 1; cnt = cnt' }
    else record b { cnt = cnt' }

abbrev pub e_inval : ℕ
e_inval = 3

-- The result is the `int` that is returned, and the memory.
-- The format and the texts of `%s` are read as they stand before the call, as they are where the
-- buffer does not overlap them.
unfoldable pub vsnprintf : ℕ → Memory → ℕ → ℤ → ℕ → List ℕ → Option (ℤ × Memory)
unfolding sprintputch
vsnprintf fuel m buf n fmt args =
    let b : SprintBuf = record { memory = m; buf = buf; ebuf = buf + pos_part n - 1; cnt = 0 } in
    if buf == 0 || ltb_ℤ n (pos 1)
    then some (negsuc (e_inval - 1), m)
    else elim (vprintfmt sprintputch fuel m fmt args b) [
      | none ↦ none
      | some b' ↦ some (int_of b'.cnt, store b'.memory b'.buf 0)
    ]

-- `snprintf` hands its variable arguments on.
unfoldable pub snprintf : ℕ → Memory → ℕ → ℤ → ℕ → List ℕ → Option (ℤ × Memory)
unfolding vsnprintf
snprintf fuel m buf n fmt args = vsnprintf fuel m buf n fmt args

-- The characters as they are stored.
abbrev pub low_bytes : List ℕ → List ℕ
low_bytes [] = []
low_bytes (c ∷ t) = c % 2 ^ 8 ∷ low_bytes t

-- The state after a text was printed into the buffer.
abbrev filled : List ℕ → SprintBuf → SprintBuf
filled t b = record b {
  memory = blit b.memory b.buf (low_bytes (take (b.ebuf - b.buf) t));
  buf = b.buf + min (length t) (b.ebuf - b.buf);
  cnt = (b.cnt + length t) % 2 ^ 32;
}

take-nil : (n : ℕ) → take {A = ℕ} n [] ≡ []
take-nil zero = refl
take-nil (suc n) = refl

take-cons : (n c : ℕ) (t : List ℕ) → 0 < n → take n (c ∷ t) ≡ c ∷ take (n - 1) t
take-cons zero c t h = elim h [ ]
take-cons (suc n) c t h = ap (λ k. c ∷ take k t) (omega arith)

emit-sprintputch : (t : List ℕ) (b : SprintBuf) → b.cnt < 2 ^ 32 → emit sprintputch t b ≡ filled t b
unfolding sprintputch
emit-sprintputch [] b h = ground (arith, take-nil (b.ebuf - b.buf))
emit-sprintputch (c ∷ t) b h =
    let before : b.ebuf - (b.buf + 1) ≡ b.ebuf - b.buf - 1 = omega arith in
    ground (arith, emit-sprintputch t (sprintputch c b), take-cons (b.ebuf - b.buf) c t, before)

length-low_bytes : (n : ℕ) (t : List ℕ) → length (low_bytes (take n t)) ≡ min (length t) n
length-low_bytes zero t = omega arith
length-low_bytes (suc n) [] = omega arith
length-low_bytes (suc n) (c ∷ t) = omega (arith, length-low_bytes n t)

-- The result and the memory of a call that printed a text with room for `n` characters.
abbrev pub in_buffer : Memory → ℕ → ℕ → Option (List ℕ) → Option (ℤ × Memory)
in_buffer m buf n none = none
in_buffer m buf n (some t) =
    some (int_of (length t % 2 ^ 32), blit m buf (low_bytes (take n t) ++ 0 ∷ []))

terminated :
    (m : Memory) (buf n : ℕ) (o : Option (List ℕ))
    → elim (shown sprintputch (record { memory = m; buf = buf; ebuf = buf + suc n - 1; cnt = 0 }) o)
        as (λ _. Option (ℤ × Memory)) [
          | none ↦ none
          | some b' ↦ some (int_of b'.cnt, store b'.memory b'.buf 0)
        ]
      ≡ in_buffer m buf n o
terminated m buf n none = refl
terminated m buf n (some t) =
    let b : SprintBuf = record { memory = m; buf = buf; ebuf = buf + suc n - 1; cnt = 0 } in
    let room : buf + suc n - 1 - buf ≡ n = omega arith in
    let count : 0 + length t ≡ length t = omega arith in
    rw (emit-sprintputch t b (omega arith), room, count)
      (ap (λ x. some (int_of (length t % 2 ^ 32), x))
        (ap (λ e. store (blit m buf (low_bytes (take n t))) (buf + e) 0)
            (sym (length-low_bytes n t))
          ∙ sym (blit-append m buf (low_bytes (take n t)) (0 ∷ []))))

-- With a buffer of `n + 1` bytes at an address that is not null, `vsnprintf` ends whenever the
-- formatting does. It stores the first `n` characters of the formatted text and a terminator at
-- `buf`, so never more than the buffer holds, changes nothing else, and returns the length of the
-- whole text as an `int`.
pub vsnprintf_lem :
    (fuel : ℕ) (m : Memory) (buf n fmt : ℕ) (args : List ℕ)
    → buf ≢ 0
    → vsnprintf fuel m buf (pos (suc n)) fmt args
      ≡ in_buffer m buf n (vprintfmt collect fuel m fmt args [])
unfolding vsnprintf
vsnprintf_lem fuel m buf n fmt args h =
    let b : SprintBuf = record { memory = m; buf = buf; ebuf = buf + suc n - 1; cnt = 0 } in
    let null : (buf == 0) ≡ false = ground arith in
    let room : ltb_ℤ (pos (suc n)) (pos 1) ≡ false = ground arith in
    rw (null, room, vprintfmt_lem sprintputch fuel m fmt args b, vsnprintf)
      (terminated m buf n (vprintfmt collect fuel m fmt args []))

-- With a null buffer, or a size below 1, `vsnprintf` returns `-E_INVAL` and writes nothing.
pub vsnprintf-e_inval :
    (fuel : ℕ) (m : Memory) (buf fmt : ℕ) (n : ℤ) (args : List ℕ)
    → (buf ≡ 0) ⊎ (ltb_ℤ n (pos 1) ≡ true)
    → vsnprintf fuel m buf n fmt args ≡ some (negsuc 2, m)
unfolding vsnprintf
vsnprintf-e_inval fuel m buf fmt n args h = ground arith
