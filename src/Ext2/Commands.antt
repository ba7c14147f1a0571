-- ===== src/Ext2/Commands.antt =====
-- a3: parse_cmd of the five tools, which reads the command line. The usage that it prints is left out.
pub mod Words
pub mod Scan
use csc369group.Prelude.{
  ℕ, zero, suc, ◌+◌, ◌-◌, Bool, true, false, not, ◌&&◌, ◌||◌, Option, none, some, List, [], ◌∷◌,
  length, get_elem?, if◌then◌else◌, ltb, ◌==◌,
}
use csc369group.Outcome.{Outcome, ok, exit, abort, ◌>>=◌, ◌>>◌}

abbrev pub Text : Type 0
Text = List ℕ

-- getopt with a string of one option letter. It keeps `optind`, which the program also writes, and may
-- permute the words of the command line.
pub record Getopt : Type 1 where
  pub State : Type 0
  pub optind : State → ℕ
  pub set_optind : ℕ → State → State
  pub argv : State → List Text
  pub call : State → Option ℕ × State

-- argv[i]
unfoldable pub word : List Text → ℕ → Outcome Text
word argv i = elim (get_elem? argv i) [ none ↦ abort | some w ↦ ok w ]

-- *path[0] == '/'
unfoldable pub is_absolute : Text → Bool
is_absolute [] = false
is_absolute (c ∷ cs) = c == b'/'

module _ (G : Getopt) where
  -- `while ((opt = getopt(argc, argv, …)) != -1)`; another letter ends the program with `failure`.
  unfoldable pub scan_options :
      (fuel letter failure : ℕ) → (flag : Bool) → G.State → Outcome (Bool × G.State)
  scan_options zero letter failure flag st = abort
  scan_options (suc fuel) letter failure flag st =
      let (opt, st') = G.call st in
      let more = scan_options fuel letter failure true st' in
      elim opt [ none ↦ ok (flag, st') | some c ↦ if c == letter then more else exit failure ]

  -- `while (optind < argc)`: where no word has been taken, the next one is tried.
  unfoldable pub scan_words :
      (rounds fuel argc letter failure : ℕ) → (flag : Bool) → G.State → Outcome (Bool × G.State)
  unfolding scan_options
  scan_words zero fuel argc letter failure flag st = abort
  scan_words (suc r) fuel argc letter failure flag st =
      if ltb (G.optind st) argc
      then (do
        (flag, st') ← scan_options fuel letter failure flag st
        if G.optind st == G.optind st'
            then scan_words r fuel argc letter failure flag (G.set_optind (G.optind st' + 1) st')
            else ok (flag, st'))
      else ok (flag, st)

-- The check of the number of words: one more with the option than without.
unfoldable pub check_count : (plain failure : ℕ) → (flag : Bool) → (argc : ℕ) → Outcome (Unit {0})
check_count plain failure flag argc =
    if not (argc == plain)
    then (if argc == plain + 1 then (if not flag then exit failure else ok tt) else exit failure)
    else if argc == plain && flag
    then exit failure
    else ok tt

pub record Command : Type 0 where
  pub flag : Bool
  pub img : Text
  pub path : Text

-- ls and rm: the two words by the place of the option, which is the word before `optind`.
unfoldable pub choose_words : (flag : Bool) → (optind : ℕ) → List Text → Outcome Command
unfolding word
choose_words flag optind argv =
    let flag_location = optind - 1 in
    let first = if flag && flag_location == 1 then 2 else 1 in
    let second = if flag && (flag_location == 1 || flag_location == 2) then 3 else 2 in
    do
      img ← word argv first
      path ← word argv second
      ok (record { flag = flag; img = img; path = path })

unfoldable pub check_path : Command → Outcome Command
unfolding is_absolute
check_path c = if not (is_absolute c.path) then exit 1 else ok c

-- parse_cmd of ls and rm after the loop.
unfoldable pub finish : (flag : Bool) → (optind argc : ℕ) → List Text → Outcome Command
unfolding check_count choose_words check_path
finish flag optind argc argv = do
  check_count 3 1 flag argc
  c ← choose_words flag optind argv
  check_path c

pub record LinkCommand : Type 0 where
  pub flag : Bool
  pub img : Text
  pub path : Text
  pub link_path : Text

-- ln: the three words.
unfoldable pub choose_link_words : (flag : Bool) → (optind : ℕ) → List Text → Outcome LinkCommand
unfolding word
choose_link_words flag optind argv =
    let flag_location = optind - 1 in
    let first = if flag && flag_location == 1 then 2 else 1 in
    let second = if flag && (flag_location == 1 || flag_location == 2) then 3 else 2 in
    let third =
      if flag && (flag_location == 1 || flag_location == 2 || flag_location == 3) then 4 else 3 in
    do
      img ← word argv first
      path ← word argv second
      link_path ← word argv third
      ok (record { flag = flag; img = img; path = path; link_path = link_path })

unfoldable pub check_link_paths : LinkCommand → Outcome LinkCommand
unfolding is_absolute
check_link_paths c =
    if not (is_absolute c.path) || not (is_absolute c.link_path) then exit 1 else ok c

-- exit(-1) gives the status 255.
unfoldable pub finish_link : (flag : Bool) → (optind argc : ℕ) → List Text → Outcome LinkCommand
unfolding check_count choose_link_words check_link_paths
finish_link flag optind argc argv = do
  check_count 4 255 flag argc
  c ← choose_link_words flag optind argv
  check_link_paths c

module _ (G : Getopt) (fuel : ℕ) (argc : ℕ) where
  unfoldable pub ls_parse_cmd : G.State → Outcome Command
  ls_parse_cmd st = do
    (flag, st) ← scan_words G (argc + 1) fuel argc b'a' 1 false st
    finish flag (G.optind st) argc (G.argv st)

  unfoldable pub rm_parse_cmd : G.State → Outcome Command
  rm_parse_cmd st = do
    (flag, st) ← scan_words G (argc + 1) fuel argc b'r' 1 false st
    finish flag (G.optind st) argc (G.argv st)

  unfoldable pub ln_parse_cmd : G.State → Outcome LinkCommand
  ln_parse_cmd st = do
    (flag, st) ← scan_words G (argc + 1) fuel argc b's' 255 false st
    finish_link flag (G.optind st) argc (G.argv st)

-- mkdir has no option.
unfoldable pub mkdir_parse_cmd : (argc : ℕ) → List Text → Outcome Command
unfolding word is_absolute
mkdir_parse_cmd argc argv = if not (argc == 3) then exit 1 else (do
  img ← word argv 1
  path ← word argv 2
  if not (is_absolute path) then exit 1 else ok (record { flag = false; img = img; path = path }))

-- cp: the image, the file to copy and its path on the image.
unfoldable pub cp_parse_cmd : (argc : ℕ) → List Text → Outcome (Text × Text × Text)
unfolding word is_absolute
cp_parse_cmd argc argv = if not (argc == 4) then exit 1 else (do
  img ← word argv 1
  os_path ← word argv 2
  ext2_path ← word argv 3
  if not (is_absolute ext2_path) then exit 1 else ok (img, os_path, ext2_path))
