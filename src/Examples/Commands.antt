-- ===== src/Examples/Commands.antt =====
-- a3: parse_cmd at the command line `ext2_ls a.img -a /d`.
use csc369group.Prelude.{
  ℕ, zero, suc, ◌+◌, ◌≡◌, refl, true, Option, none, some, List, [], ◌∷◌, arith,
}
use csc369group.Ext2.Commands.{Text, Getopt, finish}
use csc369group.Ext2.Commands.Words.{operands, without, read_command, finish-operands}

abbrev name : Text
name = b'l' ∷ b's' ∷ []

abbrev image : Text
image = b'a' ∷ []

abbrev option : Text
option = b'-' ∷ b'a' ∷ []

abbrev path : Text
path = b'/' ∷ b'd' ∷ []

abbrev command_line : List Text
command_line = name ∷ image ∷ option ∷ path ∷ []

-- Without permutation `optind` is behind the option, at word 3.
operands_example : finish true 3 4 command_line ≡ read_command true (operands true 3 command_line)
operands_example = finish-operands true 3 command_line (omega arith) (omega arith)

operands-run : operands true 3 command_line ≡ name ∷ image ∷ path ∷ []
unfolding operands without
operands-run = refl

-- A getopt that knows `optind` and how many options are left, each in a word of its own.
abbrev give : ℕ × ℕ → Option ℕ × (ℕ × ℕ)
give (optind, zero) = (none, (optind, zero))
give (optind, suc left) = (some b'a', (optind + 1, left))

abbrev getopt : Getopt
getopt = record {
  State = ℕ × ℕ;
  optind = λ st. st.0;
  set_optind = λ k st. (k, st.1);
  argv = λ st. command_line;
  call = give;
}
