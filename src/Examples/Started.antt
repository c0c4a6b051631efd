-- ===== src/Examples/Started.antt =====
-- The theorems on the start of processes at a command line, a segment and a parent with a child, and
-- the theorem on overlapping blocks.
use gpintosy.Prelude.{
  false, ℕ, ◌+◌, ◌/◌, ◌≡◌, ◌≤◌, refl, true, arith, ◌==◌, leb, if◌then◌else◌, some, none, List, [],
  ◌∷◌,
}
use gpintosy.Prelude.Int.{negsuc, pos}
use gpintosy.Kernel.{Succeeds, undefined, ◌>>=◌}
use gpintosy.Vaddr.{Memory, is_user_vaddr}
use gpintosy.Text.{strlen}
use gpintosy.Syscall.{Ends}
use gpintosy.Process.Args.{collect_args, argc_of, push_args}
use gpintosy.Process.Args.Tokens.{words, collect_args-words}
use gpintosy.Process.Args.Pushed.{Gives, args_size, IsStarted, push_args-IsStarted}
use gpintosy.Process.Load.{Phdr, validate_segment, extent_of, load_segment}
use gpintosy.Process.Load.Segment.{
  IsPhdr, IsPlaced, extent_of-IsPlaced, IsMapped, load_segment-IsMapped,
}
use gpintosy.Process.Children.{
  runs, Family, wait, run, publish, wait_found, decrement_ref_cnt, free_if_unused,
  release_child_process,
}
use gpintosy.Process.Children.Waited.{publish-wait_found}
use gpintosy.Process.Children.Race.{release_child_process-interleaved}
use gpintosy.Text.Blocks.{memmove}
use gpintosy.Text.Blocks.Moved.{IsMoved, memmove-IsMoved}
use gpintosy.Process.Children.Shared.{IsShared, references, total}
use gpintosy.Process.Children.Steps.{run-IsShared}
use gpintosy.Examples.Called.{sys}

-- "ls  -l"
abbrev command : List ℕ
command = 108 ∷ 115 ∷ 32 ∷ 32 ∷ 45 ∷ 108 ∷ []

collect_args-words_example :
    collect_args 128 command
    ≡ (if leb (argc_of (words command)) 128 then some (words command) else none)
collect_args-words_example = collect_args-words 128 command

abbrev argv : List (List ℕ)
argv = (108 ∷ 115 ∷ []) ∷ (45 ∷ 108 ∷ []) ∷ []

abbrev zero_memory : Memory
zero_memory a = 0

argv_fits : args_size argv ≤ 4096
unfolding strlen
argv_fits = omega arith

push_args-IsStarted_example : Gives (IsStarted argv zero_memory) (push_args argv zero_memory)
push_args-IsStarted_example = push_args-IsStarted argv zero_memory argv_fits

-- A segment of 6000 bytes, 5000 of them in the file.
abbrev phdr : Phdr
phdr = record {
  p_type = 1;
  p_offset = 200;
  p_vaddr = 134512840;
  p_filesz = 5000;
  p_memsz = 6000;
  p_flags = 6;
}

phdr-IsPhdr : IsPhdr phdr
phdr-IsPhdr = record {
  offset = omega arith;
  vaddr = omega arith;
  filesz = omega arith;
  memsz = omega arith;
}

phdr_valid : validate_segment phdr 9000 ≡ true
unfolding validate_segment is_user_vaddr
phdr_valid = refl

extent_of-IsPlaced_example : IsPlaced phdr (extent_of phdr)
extent_of-IsPlaced_example = extent_of-IsPlaced phdr 9000 phdr-IsPhdr phdr_valid

two_pages : ((extent_of phdr).read_bytes + (extent_of phdr).zero_bytes) / 4096 ≤ 5
unfolding extent_of
two_pages = omega arith

load_segment-IsMapped_example :
    Ends
      (λ r s'.
        (r ≡ true)
        × IsMapped 70 true
            (extent_of phdr)
            0
            ((extent_of phdr).read_bytes + (extent_of phdr).zero_bytes)
            sys
            s')
      (load_segment 70 (extent_of phdr) true sys)
load_segment-IsMapped_example =
    load_segment-IsMapped 70 true phdr 9000 sys phdr-IsPhdr phdr_valid refl two_pages (λ i l. refl)

-- The thread 1 has the child 2, with the status 90; the child has exited with 0.
abbrev family : Family
family = record {
  children = λ c. record {
    tid = some 4;
    exit_status = pos 0;
    load_success = true;
    exited = true;
    ref_cnt = 1;
    load_sema = 0;
    exit_sema = 1;
  };
  allocated = λ c. c == 90;
  procs = λ t. record {
    start_info = 0;
    child_info = 0;
    child_processes = if t == 1 then 90 ∷ [] else [];
    exit_status = negsuc 0;
    phase = runs;
  };
}

family-IsShared : IsShared (1 ∷ 2 ∷ []) family
unfolding total references
family-IsShared = record {
  counted = λ d n. ground (arith, n);
  positive = λ d a. omega arith;
  no_null = refl;
  sound = λ t. record { listed = ground arith; phase = tt };
}

run-IsShared_example : Succeeds (IsShared (1 ∷ 2 ∷ [])) (run (wait 1 4) family)
run-IsShared_example = run-IsShared (1 ∷ 2 ∷ []) (wait 1 4) family family-IsShared (refl, refl)

-- The thread 2 ends, and its parent 1 waits for it.
abbrev living : Family
living = record {
  children = λ c. record {
    tid = some 4;
    exit_status = negsuc 0;
    load_success = true;
    exited = false;
    ref_cnt = 2;
    load_sema = 0;
    exit_sema = 0;
  };
  allocated = λ c. c == 90;
  procs = λ t. record {
    start_info = 0;
    child_info = if t == 2 then 90 else 0;
    child_processes = if t == 1 then 90 ∷ [] else [];
    exit_status = pos 7;
    phase = runs;
  };
}

living-IsShared : IsShared (1 ∷ 2 ∷ []) living
unfolding total references
living-IsShared = record {
  counted = λ d n. ground (arith, n);
  positive = λ d a. omega arith;
  no_null = refl;
  sound = λ t. record { listed = ground arith; phase = tt };
}

publish-wait_found_example :
    Succeeds (λ r. r.0 ≡ some (pos 7)) (publish 2 living >>= λ f'. wait_found 1 (some 90) f')
publish-wait_found_example =
    publish-wait_found (1 ∷ 2 ∷ []) 2 1 living living-IsShared refl refl (ground arith) refl
      (omega arith)

release_child_process-interleaved_example :
    Succeeds
      (λ f'. f'.allocated 90 ≡ false)
      (release_child_process 90 living >>= λ f1. release_child_process 90 f1)
    × ((decrement_ref_cnt 90 living >>= λ f1.
          release_child_process 90 f1 >>= λ f2. free_if_unused 90 f2)
        ≡ undefined)
release_child_process-interleaved_example = release_child_process-interleaved 90 living refl refl

memmove-IsMoved_example : Succeeds (IsMoved 100 102 6 zero_memory) (memmove 100 102 6 zero_memory)
memmove-IsMoved_example = memmove-IsMoved 100 102 6 zero_memory (ground arith) (ground arith)
