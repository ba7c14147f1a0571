-- ===== src/Ext2/Commands/Words.antt =====
-- a3: the words that parse_cmd takes from the command line.
use csc369group.Prelude.{
  ℕ, zero, suc, ◌+◌, ◌-◌, ◌≤◌, ◌≡◌, refl, Bool, true, false, List, [], ◌∷◌, length, if◌then◌else◌,
  ◌==◌, arith, Bool-cases, inl, inr,
}
use csc369group.Outcome.{Outcome, ok, exit}
use csc369group.Ext2.Commands.{
  Text, is_absolute, check_count, choose_words, check_path, finish, Command, word,
}

-- The list without its element `i`.
unfoldable pub without : ℕ → List Text → List Text
without i [] = []
without zero (w ∷ ws) = ws
without (suc i) (w ∷ ws) = w ∷ without i ws

-- The words without the one before `optind`, where an option has been read.
unfoldable pub operands : (flag : Bool) → (optind : ℕ) → List Text → List Text
operands flag optind argv = if flag then without (optind - 1) argv else argv

-- A command line with an image and a path.
unfoldable pub read_command : Bool → List Text → Outcome Command
read_command flag (name ∷ img ∷ path ∷ []) =
    if is_absolute path then ok (record { flag = flag; img = img; path = path }) else exit 1
read_command flag _ = exit 1

four :
    (optind : ℕ) (a b c d : Text)
    → 2 ≤ optind
    → optind ≤ 4
    → finish true optind 4 (a ∷ b ∷ c ∷ d ∷ [])
      ≡ read_command true (operands true optind (a ∷ b ∷ c ∷ d ∷ []))
unfolding finish check_count choose_words check_path word operands without read_command
four zero a b c d low high = absurd (omega arith)
four (suc zero) a b c d low high = absurd (omega arith)
four (suc (suc zero)) a b c d low high = elim (Bool-cases (is_absolute d)) [
  | inl good ↦ rw good refl
  | inr bad ↦ rw bad refl
]
four (suc (suc (suc zero))) a b c d low high = elim (Bool-cases (is_absolute d)) [
  | inl good ↦ rw good refl
  | inr bad ↦ rw bad refl
]
four (suc (suc (suc (suc k)))) a b c d low high =
    let none_left : k ≡ 0 = omega arith in
    elim (Bool-cases (is_absolute c)) [
      | inl good ↦ rw (none_left, good) refl
      | inr bad ↦ rw (none_left, bad) refl
    ]

not_three : (n : ℕ) → (suc (suc (suc (suc (suc n)))) == 3) ≡ false
not_three n = ground arith

not_four : (n : ℕ) → (suc (suc (suc (suc (suc n)))) == 3 + 1) ≡ false
not_four n = ground arith

-- After the loop, with `optind` at least 2 and inside the command line: parse_cmd of ls and rm gives a
-- command exactly if the words, without the one before `optind` where an option has been read, are the
-- program's name, an image (which may be a word like "-a") and a path that starts with '/'. It ends the
-- program otherwise, and reads no word outside of the command line.
pub finish-operands :
    (flag : Bool) (optind : ℕ) (argv : List Text)
    → 2 ≤ optind
    → optind ≤ length argv
    → finish flag optind (length argv) argv ≡ read_command flag (operands flag optind argv)
unfolding finish check_count choose_words check_path word operands without read_command
finish-operands flag optind [] low high = absurd (omega arith)
finish-operands flag optind (a ∷ []) low high = absurd (omega arith)
finish-operands false optind (a ∷ b ∷ []) low high = refl
finish-operands true optind (a ∷ b ∷ []) low high =
    let two : optind ≡ 2 = omega arith in rw two refl
finish-operands false optind (a ∷ b ∷ c ∷ []) low high = elim (Bool-cases (is_absolute c)) [
  | inl good ↦ rw good refl
  | inr bad ↦ rw bad refl
]
finish-operands true zero (a ∷ b ∷ c ∷ []) low high = absurd (omega arith)
finish-operands true (suc zero) (a ∷ b ∷ c ∷ []) low high = absurd (omega arith)
finish-operands true (suc (suc zero)) (a ∷ b ∷ c ∷ []) low high = refl
finish-operands true (suc (suc (suc k))) (a ∷ b ∷ c ∷ []) low high =
    let three : k ≡ 0 = omega arith in rw three refl
finish-operands false optind (a ∷ b ∷ c ∷ d ∷ []) low high = refl
finish-operands true optind (a ∷ b ∷ c ∷ d ∷ []) low high = four optind a b c d low high
finish-operands false optind (a ∷ b ∷ c ∷ d ∷ e ∷ r) low high =
    rw (not_three (length r), not_four (length r)) refl
finish-operands true zero (a ∷ b ∷ c ∷ d ∷ e ∷ r) low high = absurd (omega arith)
finish-operands true (suc zero) (a ∷ b ∷ c ∷ d ∷ e ∷ r) low high = absurd (omega arith)
finish-operands true (suc (suc zero)) (a ∷ b ∷ c ∷ d ∷ e ∷ r) low high =
    rw (not_three (length r), not_four (length r)) refl
finish-operands true (suc (suc (suc zero))) (a ∷ b ∷ c ∷ d ∷ e ∷ r) low high =
    rw (not_three (length r), not_four (length r)) refl
finish-operands true (suc (suc (suc (suc zero)))) (a ∷ b ∷ c ∷ d ∷ e ∷ r) low high =
    rw (not_three (length r), not_four (length r)) refl
finish-operands true (suc (suc (suc (suc (suc k))))) (a ∷ b ∷ c ∷ d ∷ e ∷ r) low high =
    let before : suc (suc (suc (suc (suc k)))) - 1 ≡ suc (suc (suc (suc k))) = omega arith in
    rw (not_three (length r), not_four (length r), before) refl
