-- ===== src/Tests/Parsing.antt =====
-- A run of the parser of the process listing.
use Prim.Native.String.{count}
use the_score.Base.{[], ◌∷◌, some, ◌≡◌, ◌≢◌, refl, ap, arith}
use the_score.Strings.Words.{is_space}
use the_score.Strings.Words.Laws.{IsWord}
use the_score.Strings.Words.Lines.{printed}
use the_score.Runtime.Ps.{list_processes}
use the_score.Runtime.Ps.Reads.{Row, IsRow, row_line, row_process, list_processes-printed}

-- "    1     0 init init\n" and "   42     1 codex codex resume\n"
abbrev init_row : Row
init_row = record {
  lead = "    ";
  pid = 1;
  pid_gap = "     ";
  ppid = 0;
  ppid_gap = " ";
  command = "init";
  command_gap = " ";
  args = ("init", "") ∷ [];
}

abbrev codex_row : Row
codex_row = record {
  lead = "   ";
  pid = 42;
  pid_gap = "     ";
  ppid = 1;
  ppid_gap = " ";
  command = "codex";
  command_gap = " ";
  args = ("codex", " ") ∷ ("resume", "") ∷ [];
}

blanks : init_row.ppid_gap ≢ ""
blanks e = omega (arith, ap count e)

many_blanks : init_row.pid_gap ≢ ""
many_blanks e = omega (arith, ap count e)

init-IsWord : IsWord "init"
unfolding is_space
init-IsWord = (λ e. omega (arith, ap count e), (refl, (refl, (refl, (refl, tt)))))

codex-IsWord : IsWord "codex"
unfolding is_space
codex-IsWord = (λ e. omega (arith, ap count e), (refl, (refl, (refl, (refl, (refl, tt))))))

resume-IsWord : IsWord "resume"
unfolding is_space
resume-IsWord = (λ e. omega (arith, ap count e), (refl, (refl, (refl, (refl, (refl, (refl, tt)))))))

init_row-IsRow : IsRow init_row
init_row-IsRow = record {
  lead = (refl, (refl, (refl, (refl, tt))));
  pid = omega arith;
  pid_gap = (refl, (refl, (refl, (refl, (refl, tt)))));
  pid_apart = many_blanks;
  ppid = omega arith;
  ppid_gap = (refl, tt);
  ppid_apart = blanks;
  rest = (init-IsWord, (refl, tt), blanks, (init-IsWord, tt));
}

codex_row-IsRow : IsRow codex_row
codex_row-IsRow = record {
  lead = (refl, (refl, (refl, tt)));
  pid = omega arith;
  pid_gap = (refl, (refl, (refl, (refl, (refl, tt)))));
  pid_apart = many_blanks;
  ppid = omega arith;
  ppid_gap = (refl, tt);
  ppid_apart = blanks;
  rest =
      (codex-IsWord, (refl, tt), blanks, (codex-IsWord, (refl, tt), blanks, (resume-IsWord, tt)));
}

list_processes-printed_example :
    list_processes 1000 (some (printed (row_line init_row ∷ row_line codex_row ∷ [])))
    ≡ some (row_process 1000 init_row ∷ row_process 1000 codex_row ∷ [])
list_processes-printed_example =
    list_processes-printed 1000 (init_row ∷ codex_row ∷ []) (init_row-IsRow, (codex_row-IsRow, tt))
