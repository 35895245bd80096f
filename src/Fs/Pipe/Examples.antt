-- ===== src/Fs/Pipe/Examples.antt =====
-- The theorems on pipes at concrete pipes.
use old_boruixkernel.Common.{ℕ, true, List, [], ◌∷◌, arith, replicate, length-replicate}
use old_boruixkernel.Fs.Pipe.{PipeInner, pipe_capacity, create_pair}
use old_boruixkernel.Fs.Pipe.Transfer.{
  IsValid, Act, reads, writes, closes, run, IsFifo, run-IsFifo, create_pair-IsFifo,
}

-- A pipe whose bytes go over the end of the buffer.
abbrev wrapped : PipeInner
wrapped = record { buf = replicate pipe_capacity 7; head = 4095; len = 3; readers = 1; writers = 1 }

wrapped-IsValid : IsValid wrapped
wrapped-IsValid = record {
  full = length-replicate {A = ℕ} pipe_capacity 7;
  head = omega arith;
  len = omega arith;
}

abbrev acts : List Act
acts = writes (1 ∷ 2 ∷ 3 ∷ []) ∷ reads 2 ∷ closes true ∷ reads 9 ∷ []

run-IsFifo_example : IsFifo (run (record { pipe = create_pair; sent = []; received = [] }) acts)
run-IsFifo_example =
    run-IsFifo acts (record { pipe = create_pair; sent = []; received = [] }) create_pair-IsFifo
