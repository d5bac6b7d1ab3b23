-- ===== src/ObjectCreate/Tree/Modes.antt =====
-- The modes that te_mode2str writes.
use gameoftrees.Base.{
  ℕ, ◌+◌, ◌*◌, ◌/◌, ◌%◌, ◌≤◌, ◌<◌, ◌^◌, ◌≡◌, ◌⊎◌, refl, List, [], ◌∷◌, ◌++◌, Option, none, some,
  All, arith, length, Bool-cases, inl, inr, bit_and, ◌==◌, if◌then◌else◌,
}
use gameoftrees.Base.Bits.{and_parts, and_high, and_ones}
use gameoftrees.Error.{bad_filetype, ok, err}
use gameoftrees.ObjectParse.Tree.RoundTrip.{octal, octal_text}
use gameoftrees.ObjectCreate.Tree.{TreeEntry, x_bits, git_mode, octal_loop, octal_digits, mode_text}

-- Git's modes by their octal digits, as arithmetic on a file's mode: the file type is in the bits
-- from 12 on, and a file that its owner, its group or others may run is a program.
abbrev pub git_digits : ℕ → Option (List ℕ)
git_digits mode =
    let file_type = mode / 2 ^ 12 % 2 ^ 4 in
    if file_type == 8
    then (if mode / 2 ^ 6 % 2 + mode / 2 ^ 3 % 2 + mode % 2 == 0
        then some (1 ∷ 0 ∷ 0 ∷ 6 ∷ 4 ∷ 4 ∷ [])
        else some (1 ∷ 0 ∷ 0 ∷ 7 ∷ 5 ∷ 5 ∷ []))
    else if file_type == 14
    then some (1 ∷ 6 ∷ 0 ∷ 0 ∷ 0 ∷ 0 ∷ [])
    else if file_type == 10
    then some (1 ∷ 2 ∷ 0 ∷ 0 ∷ 0 ∷ 0 ∷ [])
    else if file_type == 4
    then some (4 ∷ 0 ∷ 0 ∷ 0 ∷ 0 ∷ [])
    else none

-- Git's modes: a file, a program, a submodule, a symbolic link, a directory.
pub data IsGitMode : ℕ → Type 0 where
  plain_file : IsGitMode 0x81a4
  program : IsGitMode 0x81ed
  submodule : IsGitMode 0xe000
  symlink : IsGitMode 0xa000
  directory : IsGitMode 0x4000

-- The file type of a mode.
format_lem : (mode k : ℕ) → (bit_and mode 0xf000 == k * 2 ^ 12) ≡ (mode / 2 ^ 12 % 2 ^ 4 == k)
format_lem mode k = ground (arith, and_high 12 mode 15, and_ones 4 (mode / 2 ^ 12))

x_bits_lem :
    (mode : ℕ)
    → bit_and mode x_bits ≡ mode / 2 ^ 6 % 2 * 2 ^ 6 + (mode / 2 ^ 3 % 2 * 2 ^ 3 + mode % 2)
x_bits_lem mode =
    let whole : mode / 2 ^ 6 * 2 ^ 6 + (mode / 2 ^ 3 % 2 ^ 3 * 2 ^ 3 + mode % 2 ^ 3) ≡ mode =
      omega arith in
    let split = rw whole at (
      and_parts 6 (mode / 2 ^ 6) (mode / 2 ^ 3 % 2 ^ 3 * 2 ^ 3 + mode % 2 ^ 3) 1 (1 * 2 ^ 3 + 1)
        (omega arith) (omega arith)) in
    omega (
      arith,
      split,
      and_parts 3 (mode / 2 ^ 3 % 2 ^ 3) (mode % 2 ^ 3) 1 1 (omega arith) (omega arith),
      and_ones 1 (mode / 2 ^ 6),
      and_ones 1 (mode / 2 ^ 3 % 2 ^ 3),
      and_ones 1 (mode % 2 ^ 3),
    )

no_x_lem :
    (mode : ℕ) → (bit_and mode x_bits == 0) ≡ (mode / 2 ^ 6 % 2 + mode / 2 ^ 3 % 2 + mode % 2 == 0)
no_x_lem mode = ground (arith, x_bits_lem mode)

-- te_mode2str refuses the modes that have no digits, and has Git's mode with the others.
pub git_mode-git_digits :
    (te : TreeEntry)
    → ((git_mode te ≡ err bad_filetype) × (git_digits te.mode ≡ none))
      ⊎ ((mode : ℕ) × (git_mode te ≡ ok mode)
          × IsGitMode mode
          × (git_digits te.mode ≡ some (octal_digits mode)))
unfolding git_mode octal_digits octal_loop
git_mode-git_digits te = elim (Bool-cases (te.mode / 2 ^ 12 % 2 ^ 4 == 8)) [
  | inl f ↦ elim (Bool-cases (te.mode / 2 ^ 6 % 2 + te.mode / 2 ^ 3 % 2 + te.mode % 2 == 0)) [
    | inl x ↦ rw (format_lem te.mode 8, f, no_x_lem te.mode, x) (inr (_, refl, plain_file, refl))
    | inr x ↦ rw (format_lem te.mode 8, f, no_x_lem te.mode, x) (inr (_, refl, program, refl))
  ]
  | inr f ↦ elim (Bool-cases (te.mode / 2 ^ 12 % 2 ^ 4 == 14)) [
    | inl s ↦
        rw (format_lem te.mode 8, f, format_lem te.mode 14, s) (inr (_, refl, submodule, refl))
    | inr s ↦ elim (Bool-cases (te.mode / 2 ^ 12 % 2 ^ 4 == 10)) [
      | inl l ↦
          rw (format_lem te.mode 8, f, format_lem te.mode 14, s, format_lem te.mode 10, l)
            (inr (_, refl, symlink, refl))
      | inr l ↦ elim (Bool-cases (te.mode / 2 ^ 12 % 2 ^ 4 == 4)) [
        | inl d ↦
            rw
              (
                format_lem te.mode 8,
                f,
                format_lem te.mode 14,
                s,
                format_lem te.mode 10,
                l,
                format_lem te.mode 4,
                d,
              )
              (inr (_, refl, directory, refl))
        | inr d ↦
            rw
              (
                format_lem te.mode 8,
                f,
                format_lem te.mode 14,
                s,
                format_lem te.mode 10,
                l,
                format_lem te.mode 4,
                d,
              )
              (inl (refl, refl))
      ]
    ]
  ]
]

pub mode_text-IsGitMode :
    (m : ℕ) → IsGitMode m → mode_text 8 m ≡ ok (octal_text (octal_digits m) ++ (b' ' ∷ []))
unfolding mode_text octal_digits octal_loop
mode_text-IsGitMode _ plain_file = refl
mode_text-IsGitMode _ program = refl
mode_text-IsGitMode _ submodule = refl
mode_text-IsGitMode _ symlink = refl
mode_text-IsGitMode _ directory = refl

-- What an entry of a tree asks of the digits.
pub digits_lem :
    (m : ℕ)
    → IsGitMode m
    → (1 ≤ length (octal_digits m))
      × All (λ d. d < 8) (octal_digits m)
      × (octal 0 (octal_digits m) ≡ m)
unfolding octal_digits octal_loop
digits_lem _ plain_file = (
  omega arith,
  (omega arith, (omega arith, (omega arith, (omega arith, (omega arith, (omega arith, tt)))))),
  refl,
)
digits_lem _ program = (
  omega arith,
  (omega arith, (omega arith, (omega arith, (omega arith, (omega arith, (omega arith, tt)))))),
  refl,
)
digits_lem _ submodule = (
  omega arith,
  (omega arith, (omega arith, (omega arith, (omega arith, (omega arith, (omega arith, tt)))))),
  refl,
)
digits_lem _ symlink = (
  omega arith,
  (omega arith, (omega arith, (omega arith, (omega arith, (omega arith, (omega arith, tt)))))),
  refl,
)
digits_lem _ directory = (
  omega arith,
  (omega arith, (omega arith, (omega arith, (omega arith, (omega arith, tt))))),
  refl,
)

pub mode_small : (m : ℕ) → IsGitMode m → m < 2 ^ 32
mode_small _ plain_file = omega arith
mode_small _ program = omega arith
mode_small _ submodule = omega arith
mode_small _ symlink = omega arith
mode_small _ directory = omega arith
