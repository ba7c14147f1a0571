-- ===== src/Paging/Sim/Program.antt =====
-- a2/starter/sim.c: main, with swap_init and the choice of the replacement algorithm.
use csc369group.Prelude.{
  ℕ, ◌%◌, ◌^◌, Bool, true, false, ◌&&◌, Option, none, some, List, [], ◌∷◌, if◌then◌else◌, ◌==◌,
}
use csc369group.Outcome.{Outcome, ok, exit, ◌>>=◌}
use csc369group.Paging.Bitmap.{Bitmap, bitmap_create}
use csc369group.Paging.Machine.{Page, Pte, SwapFile, Memalign, Functions}
use csc369group.Paging.Swap.{State}
use csc369group.Paging.PageTable.{init_pagetable}
use csc369group.Paging.PageTable.Printing.{Section, print_pagedirectory}
use csc369group.Paging.Fifo.{fifo, fifo_init, rand}
use csc369group.Paging.Clock.{clock, clock_init}
use csc369group.Paging.Lru.{lru, lru_init}
use csc369group.Paging.Opt.{opt, opt_init}
use csc369group.Paging.Sim.{Line, comment, access, replay_trace}

-- A string, as its characters.
abbrev pub Text : Type 0
Text = List ℕ

-- strcmp(a, b) == 0
unfoldable pub same_text : Text → Text → Bool
same_text [] [] = true
same_text [] (b ∷ bs) = false
same_text (a ∷ xs) [] = false
same_text (a ∷ xs) (b ∷ bs) = (a == b) && same_text xs bs

-- The variables that the options set.
pub record Options : Type 0 where
  pub tracefile : Option Text
  pub memsize : ℕ
  pub swapsize : ℕ
  pub replacement_alg : Option Text

abbrev pub no_options : Options
no_options = record { tracefile = none; memsize = 0; swapsize = 4096; replacement_alg = none }

-- One option with its argument, as `getopt` gives them.
abbrev pub Argument : Type 0
Argument = ℕ × Text

unfoldable pub read_option : (strtoul : Text → ℕ) → Argument → Options → Outcome Options
read_option strtoul (option, optarg) o =
    if option == b'f'
    then ok (record o { tracefile = some optarg })
    else if option == b'm'
    then ok (record o { memsize = strtoul optarg % 2 ^ 32 })
    else if option == b'a'
    then ok (record o { replacement_alg = some optarg })
    else if option == b's'
    then ok (record o { swapsize = strtoul optarg % 2 ^ 32 })
    else exit 1

-- The loop over the options. The usage that it prints is left out.
unfoldable pub read_options : (strtoul : Text → ℕ) → List Argument → Options → Outcome Options
unfolding read_option
read_options strtoul [] o = ok o
read_options strtoul (argument ∷ rest) o = do
  o ← read_option strtoul argument o
  read_options strtoul rest o

-- The entries of `algs`.
pub data Algorithm : Type 0 where
  by_rand by_lru by_fifo by_clock by_opt : Algorithm

unfoldable pub find_algorithm : Text → Outcome Algorithm
find_algorithm name =
    if same_text name (b'r' ∷ b'a' ∷ b'n' ∷ b'd' ∷ [])
    then ok by_rand
    else if same_text name (b'l' ∷ b'r' ∷ b'u' ∷ [])
    then ok by_lru
    else if same_text name (b'f' ∷ b'i' ∷ b'f' ∷ b'o' ∷ [])
    then ok by_fifo
    else if same_text name (b'c' ∷ b'l' ∷ b'o' ∷ b'c' ∷ b'k' ∷ [])
    then ok by_clock
    else if same_text name (b'o' ∷ b'p' ∷ b't' ∷ [])
    then ok by_opt
    else exit 1

-- The check of `replacement_alg` and of `evict_fcn`.
unfoldable pub choose_algorithm : Option Text → Outcome Algorithm
unfolding find_algorithm
choose_algorithm none = exit 1
choose_algorithm (some name) = find_algorithm name

-- The addresses that opt_init reads.
unfoldable pub addresses : List Line → List ℕ
addresses [] = []
addresses (comment ∷ rest) = addresses rest
addresses (access x ∷ rest) = x.vaddr ∷ addresses rest

module _ (S : SwapFile) where
  -- What the program finds: files, a temporary file unless mkstemp fails, and memory, of which `memory`
  -- and `tables` are the contents before anything is written.
  pub record World : Type 0 where
    pub fopen : Text → Option (List Line)
    pub stdin : List Line
    pub mkstemp : Option S.File
    pub first_malloc : Bool
    pub second_malloc : Bool
    pub strtoul : Text → ℕ
    pub random : ℕ → ℕ
    pub memalign : Memalign
    pub memory : ℕ → Page
    pub tables : ℕ → Pte

  -- What main prints, less the rates.
  pub record Report : Type 0 where
    pub complaints : List Bool
    pub directory : List Section
    pub hits : ℕ
    pub misses : ℕ
    pub clean_evictions : ℕ
    pub dirty_evictions : ℕ
    pub references : ℕ

  unfoldable pub open_trace : World → Option Text → Outcome (List Line)
  open_trace w none = ok w.stdin
  open_trace w (some name) = elim (w.fopen name) [ none ↦ exit 1 | some lines ↦ ok lines ]

  unfoldable pub swap_init : World → (swapsize : ℕ) → Outcome (S.File × Bitmap)
  swap_init w swapsize = elim w.mkstemp [
    | none ↦ exit 1
    | some file ↦ do
      found ← bitmap_create w.first_malloc w.second_malloc swapsize
      elim found [ none ↦ exit 1 | some swapmap ↦ ok (file, swapmap) ]
  ]

  -- calloc gives a coremap of zeros; the memory for frames and tables is as it was found.
  unfoldable pub set_up : World → Options → Outcome (State S)
  unfolding swap_init
  set_up w o = do
    (file, swapmap) ← swap_init w o.swapsize
    ok (record {
      memsize = o.memsize;
      coremap = λ i. record { prev = none; next = none; in_use = false; pte = 0 };
      physmem = w.memory;
      pgdir = init_pagetable 4096 (λ i. 0);
      ptes = w.tables;
      tables = 0;
      swapmap = swapmap;
      swapfile = file;
      hit_count = 0;
      miss_count = 0;
      ref_count = 0;
      evict_clean_count = 0;
      evict_dirty_count = 0;
    })

  unfoldable pub replay_by :
      {A : Type 0}
      → Functions S.File A
      → Memalign
      → List Line
      → State S
      → A
      → Outcome (List Bool × State S)
  replay_by fns memalign lines m a = do
    (complaints, m, a) ← replay_trace S fns memalign lines m a
    ok (complaints, m)

  -- init_fcn and replay_trace. opt_init reads the whole trace first; from the standard input nothing is
  -- left of it then.
  unfoldable pub simulate :
      World → Option Text → List Line → Algorithm → State S → Outcome (List Bool × State S)
  unfolding replay_by addresses
  simulate w tracefile lines by_rand m = replay_by (rand w.random) w.memalign lines m 0
  simulate w tracefile lines by_lru m = replay_by lru w.memalign lines m lru_init
  simulate w tracefile lines by_fifo m = replay_by fifo w.memalign lines m fifo_init
  simulate w tracefile lines by_clock m = replay_by clock w.memalign lines m clock_init
  simulate w tracefile lines by_opt m = do
    o ← opt_init (addresses lines)
    replay_by opt w.memalign (elim tracefile [ none ↦ [] | some name ↦ lines ]) m o

  unfoldable pub main : World → List Argument → Outcome Report
  main w arguments = do
    o ← read_options w.strtoul arguments no_options
    lines ← open_trace w o.tracefile
    m ← set_up w o
    algorithm ← choose_algorithm o.replacement_alg
    (complaints, m) ← simulate w o.tracefile lines algorithm m
    directory ← print_pagedirectory m
    ok (record {
      complaints = complaints;
      directory = directory;
      hits = m.hit_count;
      misses = m.miss_count;
      clean_evictions = m.evict_clean_count;
      dirty_evictions = m.evict_dirty_count;
      references = m.ref_count;
    })
