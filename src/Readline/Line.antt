-- ===== src/Readline/Line.antt =====
-- lib/readline.c: the line that `readline` reads.
use mit_jos_cse.Prelude.{
  ℕ, ◌+◌, ◌-◌, ◌%◌, ◌^◌, ◌≤◌, ◌<◌, ◌≡◌, ◌≢◌, refl, ap, ◌∙◌, subst, ◌⊎◌, inl, inr, List, [], ◌∷◌,
  Bool, false, ◌&&◌, ◌||◌, arith, leb, ltb, ◌==◌, if◌then◌else◌, length, All, Memory, IsStr,
  Outside, store, ℤ, pos, Bool-cases,
}
use mit_jos_cse.Readline.{buflen, echo, read_keys}

-- A line under way is the list of its characters, the last one first.
abbrev pub erases : ℕ → Bool
erases c = c == 8 || c == 127

abbrev pub drop_last : List ℕ → List ℕ
drop_last [] = []
drop_last (c ∷ l) = l

-- What one key does to the line.
abbrev pub press : ℕ → List ℕ → List ℕ
press c l =
    if erases c && ltb 0 (length l)
    then drop_last l
    else if leb b' ' c && ltb (length l) (buflen - 1)
    then c ∷ l
    else l

abbrev pub typed : List ℕ → List ℕ → List ℕ
typed [] l = l
typed (c ∷ keys) l = typed keys (press c l)

-- A key that is not the end of the line.
abbrev pub IsKey : ℕ → Type 0
IsKey c = (0 < c) × (c < 2 ^ 8) × (c ≢ 10) × (c ≢ 13)

abbrev pub IsEnter : ℕ → Type 0
IsEnter c = (c ≡ 10) ⊎ (c ≡ 13)

-- What `getchar` returns for the keys.
abbrev pub input_of : List ℕ → List ℤ → List ℤ
input_of [] input = input
input_of (c ∷ keys) input = pos c ∷ input_of keys input

-- The line in the order in which it is read.
abbrev pub turned : List ℕ → List ℕ → List ℕ
turned [] r = r
turned (c ∷ l) r = turned l (c ∷ r)

-- The memory holds a line under way.
abbrev pub Holds : Memory → ℕ → List ℕ → Type 0
Holds m buf [] = Unit
Holds m buf (c ∷ l) = (m (buf + length l) ≡ c) × (c ≢ 0) × Holds m buf l

pub Holds-store :
    (m : Memory) (buf a v : ℕ) (l : List ℕ)
    → buf + length l ≤ a
    → Holds m buf l
    → Holds (store m a v) buf l
Holds-store m buf a v [] h p = tt
Holds-store m buf a v (c ∷ l) h p =
    (ground (arith, p.0), p.1, Holds-store m buf a v l (omega arith) p.2)

pub IsStr-turned :
    (m : Memory) (buf : ℕ) (l r : List ℕ)
    → Holds m buf l
    → IsStr m (buf + length l) r
    → IsStr m buf (turned l r)
IsStr-turned m buf [] r h p = subst (λ a. IsStr m a r) (omega arith) p
IsStr-turned m buf (c ∷ l) r h p =
    IsStr-turned m buf l (c ∷ r) h.2 (h.0, h.1, subst (λ a. IsStr m a r) (omega arith) p)

pub length-drop_last : (l : List ℕ) → length l - 1 ≡ length (drop_last l)
length-drop_last [] = omega arith
length-drop_last (c ∷ l) = omega arith

Holds-drop_last : (m : Memory) (buf : ℕ) (l : List ℕ) → Holds m buf l → Holds m buf (drop_last l)
Holds-drop_last m buf [] h = h
Holds-drop_last m buf (c ∷ l) h = h.2

pub press-short : (c : ℕ) (l : List ℕ) → length l < buflen → length (press c l) < buflen
press-short c l h = ground (arith, length-drop_last l)

module _ {ℓ} {S : Type ℓ} (cputchar : ℕ → S → S) where
  -- What one key, and many, show on the screen.
  abbrev pub shown_key : Bool → ℕ → ℕ → S → S
  shown_key echoing c i s =
      if erases c && ltb 0 i
      then echo cputchar echoing 8 s
      else if leb b' ' c && ltb i (buflen - 1)
      then echo cputchar echoing c s
      else s

  abbrev pub shown_keys : Bool → List ℕ → List ℕ → S → S
  shown_keys echoing [] l s = s
  shown_keys echoing (c ∷ keys) l s =
      shown_keys echoing keys (press c l) (shown_key echoing c (length l) s)

  -- The memory after a key.
  abbrev pub key_stored : ℕ → ℕ → Memory → List ℕ → Memory
  key_stored c buf m l =
      if erases c && ltb 0 (length l)
      then m
      else if leb b' ' c && ltb (length l) (buflen - 1)
      then store m (buf + length l) (c % 2 ^ 8)
      else m

  read_keys-step :
      (fuel : ℕ) (echoing : Bool) (buf c : ℕ) (input : List ℤ) (m : Memory) (l : List ℕ) (s : S)
      → IsKey c
      → read_keys cputchar fuel echoing buf (pos c ∷ input) m (length l) s
        ≡ read_keys cputchar fuel echoing buf input
            (key_stored c buf m l)
            (length (press c l))
            (shown_key echoing c (length l) s)
  unfolding read_keys
  read_keys-step fuel echoing buf c input m l s k =
      let no_enter : (c == 10 || c == 13) ≡ false = ground (arith, k) in
      elim (Bool-cases (erases c && ltb 0 (length l))) [
        | inl e ↦
            rw (e, read_keys)
              (ap (λ i. read_keys cputchar fuel echoing buf input m i (echo cputchar echoing 8 s))
                (length-drop_last l))
        | inr e ↦ elim (Bool-cases (leb b' ' c && ltb (length l) (buflen - 1))) [
          | inl f ↦
              rw (e, f, read_keys)
                (ap
                  (λ i.
                    read_keys cputchar fuel echoing buf input (store m (buf + length l) (c % 2 ^ 8))
                      i (echo cputchar echoing c s))
                  (omega arith))
          | inr f ↦ rw (e, f, no_enter, read_keys) refl
        ]
      ]

  key_stored-Holds :
      (c buf : ℕ) (m : Memory) (l : List ℕ)
      → IsKey c
      → Holds m buf l
      → Holds (key_stored c buf m l) buf (press c l)
  key_stored-Holds c buf m l k h = elim (Bool-cases (erases c && ltb 0 (length l))) [
    | inl e ↦ rw e (Holds-drop_last m buf l h)
    | inr e ↦ elim (Bool-cases (leb b' ' c && ltb (length l) (buflen - 1))) [
      | inl f ↦
          rw (e, f)
            (
              ground arith,
              omega (arith, k.0),
              Holds-store m buf (buf + length l) (c % 2 ^ 8) l (omega arith) h,
            )
      | inr f ↦ rw (e, f) h
    ]
  ]

  key_stored-Outside :
      (c buf a : ℕ) (m : Memory) (l : List ℕ) → Outside buf buflen a → key_stored c buf m l a ≡ m a
  key_stored-Outside c buf a m l o = ground arith

  -- The memory after the keys.
  abbrev pub keys_stored : List ℕ → ℕ → Memory → List ℕ → Memory
  keys_stored [] buf m l = m
  keys_stored (c ∷ keys) buf m l = keys_stored keys buf (key_stored c buf m l) (press c l)

  pub read_keys-typed :
      (fuel : ℕ) (echoing : Bool) (buf : ℕ) (keys : List ℕ) (input : List ℤ) (m : Memory)
      (l : List ℕ) (s : S)
      → All IsKey keys
      → read_keys cputchar fuel echoing buf (input_of keys input) m (length l) s
        ≡ read_keys cputchar fuel echoing buf input
            (keys_stored keys buf m l)
            (length (typed keys l))
            (shown_keys echoing keys l s)
  read_keys-typed fuel echoing buf [] input m l s k = refl
  read_keys-typed fuel echoing buf (c ∷ keys) input m l s k =
      read_keys-step fuel echoing buf c (input_of keys input) m l s k.0
      ∙ read_keys-typed fuel echoing buf keys input (key_stored c buf m l) (press c l)
          (shown_key echoing c (length l) s) k.1

  pub keys_stored-Holds :
      (keys : List ℕ) (buf : ℕ) (m : Memory) (l : List ℕ)
      → All IsKey keys
      → Holds m buf l
      → Holds (keys_stored keys buf m l) buf (typed keys l)
  keys_stored-Holds [] buf m l k h = h
  keys_stored-Holds (c ∷ keys) buf m l k h =
      keys_stored-Holds keys buf (key_stored c buf m l) (press c l) k.1
        (key_stored-Holds c buf m l k.0 h)

  pub keys_stored-Outside :
      (keys : List ℕ) (buf a : ℕ) (m : Memory) (l : List ℕ)
      → Outside buf buflen a
      → keys_stored keys buf m l a ≡ m a
  keys_stored-Outside [] buf a m l o = refl
  keys_stored-Outside (c ∷ keys) buf a m l o =
      keys_stored-Outside keys buf a (key_stored c buf m l) (press c l) o
      ∙ key_stored-Outside c buf a m l o

pub typed-short : (keys l : List ℕ) → length l < buflen → length (typed keys l) < buflen
typed-short [] l h = h
typed-short (c ∷ keys) l h = typed-short keys (press c l) (press-short c l h)
