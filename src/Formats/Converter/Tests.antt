-- ===== src/Formats/Converter/Tests.antt =====
-- Two messages and two goroutines, where the second message is not encoded.
use framer.Base.{
  ℕ, ◌+◌, ◌*◌, ◌≤◌, ◌≡◌, ◌≢◌, ◌⊎◌, refl, [], ◌∷◌, none, some, true, false, if◌then◌else◌, ◌==◌,
  arith,
}
use framer.Formats.Converter.{
  Job, Status, System, Step, Reach, read_next, read_error, converted, write_item,
}
use framer.Formats.Converter.Invariant.{writes, failures}
use framer.Formats.Converter.Order.{IsComplete, Reach-ordered}
use framer.Formats.Converter.Progress.{IsWork}
use framer.Formats.Converter.Ends.{steps, Reach-ends}

abbrev job : Job ℕ
job = record {
  threads = 2;
  thread_buffer = 1;
  fail_on_convert_errors = false;
  err_write = λ n. true;
  message = λ k. k;
  count = 2;
  read_fails = false;
  decode = λ m. some (m + 10);
  encode = λ m. if m == 11 then none else some m;
  write = λ m. true;
}

abbrev run : (s : System ℕ) × Reach job s
unfolding read_next read_error converted write_item
run =
    let first =
      Reach.later (Reach.later Reach.here (Step.read refl)) (Step.hand 0 refl refl refl) in
    let second =
      Reach.later (Reach.later first (Step.read refl)) (Step.send 1 refl (omega arith)) in
    let over = Reach.later second (Step.read refl) in
    let written = Reach.later over (Step.write _ refl refl) in
    let taken = Reach.later written (Step.take 1 1 [] (omega arith) refl refl) in
    (_, Reach.later taken (Step.write _ refl refl))

run_written : (run.0.writer.written ≡ 10 ∷ []) × (run.0.writer.errors ≡ 2 ∷ [])
unfolding read_next read_error converted write_item
run_written = (refl, refl)

Reach-ordered_example :
    (k : ℕ) × (k ≤ 2)
    × (run.0.writer.written ≡ writes job k)
    × (run.0.writer.errors ≡ failures job k)
    × IsComplete job run.0.writer.status run.0.cancelled k
Reach-ordered_example = Reach-ordered job (omega arith) run.1

Reach-ends_example :
    (steps job run.1 ≤ 4 * 2 + 2 * 2 + 4)
    × ((run.0.writer.status ≢ Status.running)
        ⊎ ((t : System ℕ) × (step : Step job run.0 t) × IsWork job step))
Reach-ends_example = Reach-ends job run.1 (omega arith)
