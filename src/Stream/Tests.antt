-- ===== src/Stream/Tests.antt =====
-- Runs of `read_n`, `writen` and `readline` on a scripted stream, and the theorems at them.
use my_unp.Prelude.{◌≡◌, refl, [], ◌∷◌, arith}
use my_unp.Stream.Scripted.{Script, scripted, scripted-ReadLaws, scripted-WriteLaws}
use my_unp.Stream.Readn.{read_n, read_loop, Reads, read_n-Reads, stored}
use my_unp.Stream.Writen.{writen, Writes, writen-Writes}
use my_unp.Stream.Readline.{Buffered, readline, line, line_loop, my_read, refill}
use my_unp.Stream.Readline.Refine.{readline-Reads, take_line, unread}
use my_unp.Stream.Readline.Refine
use my_unp.Stream.Readline.Reentrant.{
  readline_rinit, readline_r, line_loop_r, recount, readline_r-recount,
}

-- Two short reads with a signal between them; "ab\ncd" is to be read.
abbrev short_reads : Script
short_reads = (1 ∷ 0 ∷ 2 ∷ [], 97 ∷ 98 ∷ 10 ∷ 99 ∷ 100 ∷ [], [])

read_n_run : read_n scripted 9 short_reads 4 ≡ stored (97 ∷ 98 ∷ 10 ∷ 99 ∷ []) ([], 100 ∷ [], [])
unfolding read_n read_loop
read_n_run = refl

read_n-Reads_example : Reads scripted short_reads 4 (read_n scripted 9 short_reads 4)
read_n-Reads_example = read_n-Reads scripted scripted-ReadLaws 9 short_reads 4 (omega arith)

writen_two : Writes scripted short_reads (1 ∷ 2 ∷ []) (writen scripted 9 short_reads (1 ∷ 2 ∷ []))
writen_two = writen-Writes scripted scripted-WriteLaws 9 short_reads (1 ∷ 2 ∷ []) (omega arith)

abbrev at_start : Buffered Script
at_start = record { ready = []; stream = short_reads }

-- The line "ab\n" is 3 bytes.
readline_run :
    readline scripted 9 80 at_start
    ≡ line 3 (97 ∷ 98 ∷ 10 ∷ []) (record { ready = []; stream = ([], 99 ∷ 100 ∷ [], []) })
unfolding readline line_loop my_read refill
readline_run = refl

-- A buffer of 2 bytes takes 1, and the count is 2.
readline_cut :
    readline scripted 9 2 at_start
    ≡ line 2 (97 ∷ []) (record { ready = []; stream = (0 ∷ 2 ∷ [], 98 ∷ 10 ∷ 99 ∷ 100 ∷ [], []) })
unfolding readline line_loop my_read refill
readline_cut = refl

readline-Reads_example :
    Refine.Reads scripted 79 (unread scripted at_start) (readline scripted 9 80 at_start)
readline-Reads_example = readline-Reads scripted scripted-ReadLaws 9 80 at_start (omega arith)

-- The end of file behind "cd": two bytes stored, and the count is 3.
readline_r_run :
    readline_r scripted 9 (readline_rinit (0 ∷ [], 99 ∷ 100 ∷ [], []) 80)
    ≡ line 3 (99 ∷ 100 ∷ []) (record { ready = []; stream = ([], [], []) })
unfolding readline_r readline_rinit line_loop_r my_read refill
readline_r_run = refl

readline_r-recount_example :
    readline_r scripted 9 (record { read_maxlen = 80; buffered = at_start })
    ≡ recount (readline scripted 9 80 at_start)
readline_r-recount_example =
    readline_r-recount scripted 9 (record { read_maxlen = 80; buffered = at_start })
