-- ===== src/Console/Keyboard/Tables.antt =====
-- kern/console.c: the tables of the keyboard, scan codes and what they stand for.
use mit_jos_cse.Prelude.{ℕ, List, [], ◌∷◌, Bool, true, false, ◌||◌, ◌==◌, if◌then◌else◌, get_or}

abbrev pub key_home : ℕ
key_home = 0xe0

abbrev pub key_end : ℕ
key_end = 0xe1

abbrev pub key_up : ℕ
key_up = 0xe2

abbrev pub key_dn : ℕ
key_dn = 0xe3

abbrev pub key_lf : ℕ
key_lf = 0xe4

abbrev pub key_rt : ℕ
key_rt = 0xe5

abbrev pub key_pgup : ℕ
key_pgup = 0xe6

abbrev pub key_pgdn : ℕ
key_pgdn = 0xe7

abbrev pub key_ins : ℕ
key_ins = 0xe8

abbrev pub key_del : ℕ
key_del = 0xe9

-- The bits of `shiftcode[data]` and of `togglecode[data]`.
abbrev pub is_shift : ℕ → Bool
is_shift code = code == 0x2A || code == 0x36

abbrev pub is_ctl : ℕ → Bool
is_ctl code = code == 0x1D || code == 0x9D

abbrev pub is_alt : ℕ → Bool
is_alt code = code == 0x38 || code == 0xB8

abbrev pub is_capslock : ℕ → Bool
is_capslock code = code == 0x3A

abbrev pub is_numlock : ℕ → Bool
is_numlock code = code == 0x45

abbrev pub is_scrolllock : ℕ → Bool
is_scrolllock code = code == 0x46

-- The entries that have an index of their own; every other one is `NO`.
abbrev entry : List (ℕ × ℕ) → ℕ → ℕ
entry [] code = 0
entry ((at, c) ∷ entries) code = if code == at then c else entry entries code

abbrev normalmap_keys : List ℕ
normalmap_keys =
    0 ∷ 27 ∷ 49 ∷ 50 ∷ 51 ∷ 52 ∷ 53 ∷ 54 ∷ 55 ∷ 56 ∷ 57 ∷ 48 ∷ 45 ∷ 61 ∷ 8 ∷ 9 ∷ 113 ∷ 119 ∷ 101
    ∷ 114 ∷ 116 ∷ 121 ∷ 117 ∷ 105 ∷ 111 ∷ 112 ∷ 91 ∷ 93 ∷ 10 ∷ 0 ∷ 97 ∷ 115 ∷ 100 ∷ 102 ∷ 103 ∷ 104
    ∷ 106 ∷ 107 ∷ 108 ∷ 59 ∷ 39 ∷ 96 ∷ 0 ∷ 92 ∷ 122 ∷ 120 ∷ 99 ∷ 118 ∷ 98 ∷ 110 ∷ 109 ∷ 44 ∷ 46 ∷ 47
    ∷ 0 ∷ 42 ∷ 0 ∷ 32 ∷ 0 ∷ 0 ∷ 0 ∷ 0 ∷ 0 ∷ 0 ∷ 0 ∷ 0 ∷ 0 ∷ 0 ∷ 0 ∷ 0 ∷ 0 ∷ 55 ∷ 56 ∷ 57 ∷ 45 ∷ 52
    ∷ 53 ∷ 54 ∷ 43 ∷ 49 ∷ 50 ∷ 51 ∷ 48 ∷ 46 ∷ 0 ∷ 0 ∷ 0 ∷ 0 ∷ []

abbrev normalmap_extended : List (ℕ × ℕ)
normalmap_extended =
    (0xC7, key_home)
    ∷ (0x9C, 10)
    ∷ (0xB5, 47)
    ∷ (0xC8, key_up)
    ∷ (0xC9, key_pgup)
    ∷ (0xCB, key_lf)
    ∷ (0xCD, key_rt)
    ∷ (0xCF, key_end)
    ∷ (0xD0, key_dn)
    ∷ (0xD1, key_pgdn)
    ∷ (0xD2, key_ins)
    ∷ (0xD3, key_del)
    ∷ []

abbrev shiftmap_keys : List ℕ
shiftmap_keys =
    0 ∷ 27 ∷ 33 ∷ 64 ∷ 35 ∷ 36 ∷ 37 ∷ 94 ∷ 38 ∷ 42 ∷ 40 ∷ 41 ∷ 95 ∷ 43 ∷ 8 ∷ 9 ∷ 81 ∷ 87 ∷ 69 ∷ 82
    ∷ 84 ∷ 89 ∷ 85 ∷ 73 ∷ 79 ∷ 80 ∷ 123 ∷ 125 ∷ 10 ∷ 0 ∷ 65 ∷ 83 ∷ 68 ∷ 70 ∷ 71 ∷ 72 ∷ 74 ∷ 75 ∷ 76
    ∷ 58 ∷ 34 ∷ 126 ∷ 0 ∷ 124 ∷ 90 ∷ 88 ∷ 67 ∷ 86 ∷ 66 ∷ 78 ∷ 77 ∷ 60 ∷ 62 ∷ 63 ∷ 0 ∷ 42 ∷ 0 ∷ 32
    ∷ 0 ∷ 0 ∷ 0 ∷ 0 ∷ 0 ∷ 0 ∷ 0 ∷ 0 ∷ 0 ∷ 0 ∷ 0 ∷ 0 ∷ 0 ∷ 55 ∷ 56 ∷ 57 ∷ 45 ∷ 52 ∷ 53 ∷ 54 ∷ 43 ∷ 49
    ∷ 50 ∷ 51 ∷ 48 ∷ 46 ∷ 0 ∷ 0 ∷ 0 ∷ 0 ∷ []

abbrev shiftmap_extended : List (ℕ × ℕ)
shiftmap_extended =
    (0xC7, key_home)
    ∷ (0x9C, 10)
    ∷ (0xB5, 47)
    ∷ (0xC8, key_up)
    ∷ (0xC9, key_pgup)
    ∷ (0xCB, key_lf)
    ∷ (0xCD, key_rt)
    ∷ (0xCF, key_end)
    ∷ (0xD0, key_dn)
    ∷ (0xD1, key_pgdn)
    ∷ (0xD2, key_ins)
    ∷ (0xD3, key_del)
    ∷ []

abbrev ctlmap_keys : List ℕ
ctlmap_keys =
    0 ∷ 0 ∷ 0 ∷ 0 ∷ 0 ∷ 0 ∷ 0 ∷ 0 ∷ 0 ∷ 0 ∷ 0 ∷ 0 ∷ 0 ∷ 0 ∷ 0 ∷ 0 ∷ 17 ∷ 23 ∷ 5 ∷ 18 ∷ 20 ∷ 25 ∷ 21
    ∷ 9 ∷ 15 ∷ 16 ∷ 0 ∷ 0 ∷ 13 ∷ 0 ∷ 1 ∷ 19 ∷ 4 ∷ 6 ∷ 7 ∷ 8 ∷ 10 ∷ 11 ∷ 12 ∷ 0 ∷ 0 ∷ 0 ∷ 0 ∷ 28 ∷ 26
    ∷ 24 ∷ 3 ∷ 22 ∷ 2 ∷ 14 ∷ 13 ∷ 0 ∷ 0 ∷ 239 ∷ 0 ∷ 0 ∷ []

abbrev ctlmap_extended : List (ℕ × ℕ)
ctlmap_extended =
    (0x97, key_home)
    ∷ (0xB5, 239)
    ∷ (0xC8, key_up)
    ∷ (0xC9, key_pgup)
    ∷ (0xCB, key_lf)
    ∷ (0xCD, key_rt)
    ∷ (0xCF, key_end)
    ∷ (0xD0, key_dn)
    ∷ (0xD1, key_pgdn)
    ∷ (0xD2, key_ins)
    ∷ (0xD3, key_del)
    ∷ []

-- The tables hold their first entries in order.
unfoldable pub normalmap : ℕ → ℕ
normalmap code = get_or normalmap_keys code (entry normalmap_extended code)

unfoldable pub shiftmap : ℕ → ℕ
shiftmap code = get_or shiftmap_keys code (entry shiftmap_extended code)

unfoldable pub ctlmap : ℕ → ℕ
ctlmap code = get_or ctlmap_keys code (entry ctlmap_extended code)

-- `charcode[shift & (CTL | SHIFT)]`
unfoldable pub charcode : Bool → Bool → ℕ → ℕ
unfolding normalmap shiftmap ctlmap
charcode true shift code = ctlmap code
charcode false true code = shiftmap code
charcode false false code = normalmap code
