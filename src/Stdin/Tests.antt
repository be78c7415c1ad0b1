-- ===== src/Stdin/Tests.antt =====
-- Runs of ucore_os/kern/fs/devs/dev_stdin.c.
use dora_aos2019_homework.Prelude.{arith}
use dora_aos2019_homework.Stdin.{Stdin, read_available}
use dora_aos2019_homework.Stdin.Buffer.{IsValid, Read, read_available-Read}

-- Two characters wait.
abbrev waiting : Stdin
waiting = record { stdin_buffer = λ i. i; p_rpos = 5; p_wpos = 7 }

waiting-IsValid : IsValid waiting
waiting-IsValid = record { behind = omega arith; room = omega arith }

read_available-Read_example :
    Read 3 waiting
      (read_available 3 waiting).0
      (read_available 3 waiting).1
      (read_available 3 waiting).2
read_available-Read_example = read_available-Read 3 waiting waiting-IsValid
