-- ===== src/Runtime/Ps/Reads.antt =====
-- internal/runtime/process_unix.go: what `ListProcesses` reads of the lines that `ps` prints.
use the_score.Base.{
  ℕ, ◌≤◌, String, List, [], ◌∷◌, ◌++◌, All, none, some, ◌==◌, ◌≡◌, ◌≢◌, refl, sym, ◌∙◌, ap, arith,
  eq_iff, false, ℤ, pos, map, int64_max,
}
use the_score.Strings.Words.{trim_space, fields, join}
use the_score.Strings.Words.Laws.{
  IsGap, Spaced, spaced, IsSpaced, words_of, fields-spaced, fields_nil,
}
use the_score.Strings.Words.Lines.{NoBreak, printed, split-printed, spaced-NoBreak}
use the_score.Strings.Numbers.{itoa, atoi}
use the_score.Strings.Numbers.Laws.{atoi-itoa, itoa-IsWord}
use the_score.Strings.{◌⧺◌}
use the_score.Model.{Time, Process, zero_process}
use the_score.Model.Confidence
use the_score.Strings.Numbers.Value.{int_or_zero-atoi}
use the_score.Runtime.Ps.{listed_process, read_fields, read_line, read_lines, list_processes}

-- What `ps` prints of a process: the numbers and the texts, and the blanks between them.
pub record Row : Type 0 where
  pub lead : String
  pub pid : ℕ
  pub pid_gap : String
  pub ppid : ℕ
  pub ppid_gap : String
  pub command : String
  pub command_gap : String
  pub args : Spaced

abbrev pub row_words : Row → Spaced
row_words r =
    (itoa (pos r.pid), r.pid_gap)
    ∷ (itoa (pos r.ppid), r.ppid_gap)
    ∷ (r.command, r.command_gap)
    ∷ r.args

abbrev pub row_line : Row → String
row_line r = spaced r.lead (row_words r)

-- The numbers fit an `int`, the texts are words, and there are blanks between them.
pub record IsRow (r : Row) : Type 0 where
  pub lead : IsGap r.lead
  pub pid : r.pid ≤ int64_max
  pub pid_gap : IsGap r.pid_gap
  pub pid_apart : r.pid_gap ≢ ""
  pub ppid : r.ppid ≤ int64_max
  pub ppid_gap : IsGap r.ppid_gap
  pub ppid_apart : r.ppid_gap ≢ ""
  pub rest : IsSpaced ((r.command, r.command_gap) ∷ r.args)

abbrev pub row_process : Time → Row → Process
row_process time r = record zero_process {
  id = "process:" ⧺ itoa (pos r.pid);
  kind = "process";
  pid = pos r.pid;
  ppid = pos r.ppid;
  command = r.command;
  args = join " " (words_of r.args);
  liveness = "alive";
  source = "process";
  confidence = Confidence.high;
  observed_at = time;
}

row-IsSpaced : (r : Row) → IsRow r → IsSpaced (row_words r)
row-IsSpaced r v = (
  itoa-IsWord r.pid,
  v.pid_gap,
  v.pid_apart,
  (itoa-IsWord r.ppid, v.ppid_gap, v.ppid_apart, v.rest),
)

fields-row : (r : Row) → IsRow r → fields (trim_space (row_line r)) ≡ words_of (row_words r)
fields-row r v = fields-spaced r.lead (row_words r) v.lead (row-IsSpaced r v)

read_fields-words :
    (time : Time) (a b command : String) (rest : List String) (m n : ℤ)
    → atoi a ≡ some m
    → atoi b ≡ some n
    → read_fields time (a ∷ b ∷ command ∷ rest) ≡ some (listed_process time m n command rest)
unfolding read_fields
read_fields-words time a b command rest m n h k = rw (read_fields, h, int_or_zero-atoi b n k) refl

read_fields-row :
    (time : Time) (r : Row)
    → IsRow r
    → read_fields time (words_of (row_words r)) ≡ some (row_process time r)
unfolding listed_process
read_fields-row time r v =
    read_fields-words time (itoa (pos r.pid)) (itoa (pos r.ppid)) r.command (words_of r.args)
      (pos r.pid) (pos r.ppid) (atoi-itoa (pos r.pid) v.pid) (atoi-itoa (pos r.ppid) v.ppid)

read_line-row :
    (time : Time) (r : Row) → IsRow r → read_line time (row_line r) ≡ some (row_process time r)
unfolding read_line
read_line-row time r v =
    let line = trim_space (row_line r) in
    let there : line ≢ "" = λ e. cc (sym (ap fields e ∙ fields_nil) ∙ fields-row r v) in
    let there' : (line == "") ≡ false = ground (arith, eq_iff line "") in
    rw (there', fields-row r v) (read_fields-row time r v)

read_line_nil : (time : Time) → read_line time "" ≡ none
unfolding read_line trim_space
read_line_nil time = refl

read_lines-some :
    (time : Time) (raw : String) (raws : List String) (proc : Process)
    → read_line time raw ≡ some proc
    → read_lines time (raw ∷ raws) ≡ proc ∷ read_lines time raws
unfolding read_lines
read_lines-some time raw raws proc h = rw (read_lines, h) refl

read_lines-end : (time : Time) → read_lines time ("" ∷ []) ≡ []
unfolding read_lines
read_lines-end time = rw (read_lines, read_line_nil time) refl

read_lines-rows :
    (time : Time) (rs : List Row)
    → All IsRow rs
    → read_lines time (map row_line rs ++ "" ∷ []) ≡ map (row_process time) rs
read_lines-rows time [] v = read_lines-end time
read_lines-rows time (r ∷ rs) v =
    read_lines-some time (row_line r) (map row_line rs ++ "" ∷ []) (row_process time r)
      (read_line-row time r v.0)
    ∙ ap (λ rest. row_process time r ∷ rest) (read_lines-rows time rs v.1)

rows-NoBreak : (rs : List Row) → All IsRow rs → All NoBreak (map row_line rs)
rows-NoBreak [] v = tt
rows-NoBreak (r ∷ rs) v =
    (spaced-NoBreak r.lead (row_words r) v.0.lead (row-IsSpaced r v.0), rows-NoBreak rs v.1)

-- `ListProcesses` reads back what `ps` prints: for rows of blanks, two numbers that fit an `int`, a
-- command that is one word, and the words of its arguments, it returns the processes of the rows, in
-- order, each alive, with its numbers, its command and its arguments joined by one blank.
pub list_processes-printed :
    (time : Time) (rs : List Row)
    → All IsRow rs
    → list_processes time (some (printed (map row_line rs))) ≡ some (map (row_process time) rs)
unfolding list_processes
list_processes-printed time rs v =
    ap (λ rows. some (read_lines time rows)) (split-printed (map row_line rs) (rows-NoBreak rs v))
    ∙ ap some (read_lines-rows time rs v)
