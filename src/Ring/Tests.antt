-- ===== src/Ring/Tests.antt =====
-- A ring of four entries, and the instances of the theorems.
use mikan_os.Prelude.{some, ℕ, ◌≡◌, List, [], ◌∷◌, arith}
use mikan_os.Ring.{Trb, Ring, initialize_ring}
use mikan_os.Ring.Cycle.{IsCycled, initialize_ring-IsCycled}
use mikan_os.Ring.Reader.{push_all, entries, read_entries, push_all-IsCycled, read-push_all}

abbrev command : ℕ → Trb
command n = record { data0 = n; data1 = 0; data2 = 0; data3 = 23552 }

abbrev commands : List Trb
commands = command 1 ∷ command 2 ∷ command 3 ∷ []

abbrev ring : Ring
ring = (initialize_ring (some 4096) 4).1

ring-IsCycled : IsCycled ring
ring-IsCycled = initialize_ring-IsCycled 4096 4 (omega arith) (omega arith)

push_all-IsCycled_example : IsCycled (push_all (initialize_ring (some 4096) 4).1 commands)
push_all-IsCycled_example = push_all-IsCycled 4096 4 commands (omega arith) (omega arith)

read-push_all_example : read_entries 4 (push_all ring commands).buf 3 0 1 ≡ entries ring commands
unfolding initialize_ring
read-push_all_example = read-push_all commands ring ring-IsCycled (omega arith)
