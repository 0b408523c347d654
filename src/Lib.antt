-- ===== src/Lib.antt =====
-- Verification of the student database of assignments/as1/as1_os.c, a menu program over a data
-- file of records and an index file of their offsets, and of smaller programs on processes,
-- threads, pipes and shared memory: assignments/as2, assignments/as3/part2, the shell of
-- assignments/as3/part3/forkNexec4.c, assignments/as4, assignments/as5,
-- assignments/as6_17feb/prob1.c, assignments/as7_10mar/as7.c, ipc, thread/mutexes.c and
-- thread/raceCond.c.
--
-- Parts.
-- Posix.antt models what the program calls: open, lseek, read, write and exit on one World, which
-- has the two files, a schedule of failures and the output. A call that has an entry `true` in the
-- schedule fails; an exhausted schedule means no more failures. A Cmd is a function from a World
-- to a Run, which is ok, exited with a code, undefined, or out of fuel. Posix/Calls.antt and
-- Posix/Writing.antt give the result of each call at a place where the file holds known bytes.
-- Students/Record.antt has the structure and the constants, Students/Print.antt print_student and
-- print_all, Students/Search.antt search, Students/Update.antt input_record and delete,
-- Students/Compaction.antt read_intobuffer and compaction, Students/Sort.antt index_of_min and
-- sort, and Students/Menu.antt the cases of the switch and the loop of main. Each function keeps
-- its name and its parameters, less the two descriptors; a loop is a function of its own, with the
-- suffix _loop, or gather for that of compaction, and parts of a body are helpers above it.
-- The modules below each of these prove what it does. Students/Layout.antt is the invariant of the
-- two files: the index file has a count and a list of slots, each that of a deleted record or the
-- offset of a record, and the data file holds a record at each such offset.
-- Students/Compaction/Counted.antt is about the variable n of compaction, where the read into idx
-- may reach it. Students/Menu/Registry.antt is what the program promises, on a list of students,
-- and Students/Menu/Database.antt relates the files to it. Students/Faults.antt has a rule for
-- each call that may fail; Students/Search/Faults.antt, Students/Update/Faults.antt,
-- Students/Update/DeleteFaults.antt and Students/Compaction/Faults.antt apply them, with
-- Students/Faults/Reading.antt for runs that write nothing.
-- Strings.antt has strrev, with its loop and the exchange of two characters, and Strings/Laws.antt
-- what it does. Reversal.antt has the programs that use it: as2_1.c (reverse_all, whose loop is
-- chain), reverse.c (reverse_main) and as3_2.c (exec_all). Mutex.antt has the threads of
-- thread/mutexes.c: Move is one move of a thread in loop or loop2, Step lets any thread move, and
-- Reach is what the threads of main reach; Mutex/Invariant.antt is what holds then,
-- Mutex/Moves.antt is about the number of moves, and Mutex/Ends.antt about their end.
-- Semaphores.antt has the processes of assignments/as5 as lists of operations: move is the next
-- operation of one process, ring is the state with p1.c, p2.c and p3.c, sample that of sample.c,
-- and Moves is any number of moves. Collatz.antt has ipc/shared_memory.c: collatz with the
-- segment, the child and the parent. Ranking.antt has assignments/as2/as2_2.c (print_ranks) and
-- as2_3.c (collect_ranks), with one function for the loop over k that both have; rank_chain is the
-- loop over i in one process and those below it, with the buffer of standard output. Shell.antt
-- has the child of assignments/as3/part3/forkNexec4.c: read_word is the inner loop, parse the
-- outer one, read_command all of the parsing and child what follows. Handshake.antt has
-- assignments/as4/part1.c: parent_step and child_step are one access of each process to the shared
-- memory, and Reachable is what their interleavings reach; Handshake/Factorial.antt is about fact,
-- and Handshake/Programs.antt has part2.c and part_exec.c, the same loops in two programs:
-- Launched is what these reach; the other modules below Handshake are about the handshake.
-- Blocks.antt has assignments/as7_10mar/as7.c: init_file_dd, get_freeblock, with take_block for
-- what follows its return of -1, and free_block, on the words of the file; Blocks/Files.antt says
-- which words the loops write, Blocks/Allocation.antt and Blocks/Handed.antt what get_freeblock
-- hands out, and Blocks/Freeing.antt what free_block does.
-- Race.antt has thread/raceCond.c: access is one access of a thread to the counter, and
-- Race/Lost.antt is about the bound of the counter.
-- Pipes.antt has the two loops that ipc/pipes.c and assignments/as6_17feb/prob1.c share: Step is
-- one call of the parent or of the child, Steps a number of them; Pipes/Copy.antt and
-- Pipes/Count.antt are the two programs, Pipes/Passed.antt and Pipes/Ended.antt what the loops do
-- with any child.
-- Streams/Writes.antt has assignments/as2/as2_5.c and Streams/Reads.antt as2_4.c: next_round is a
-- round of one process with its buffer, Reached what the two processes reach; Streams/Written.antt
-- and Streams/Apart.antt are about the writers, Streams/Rounds.antt and Streams/Shared.antt about
-- the readers.
-- The parts share only the helpers of Common.antt, but for Reversal, which uses strrev;
-- Common/Outcomes.antt is what the code without files ends with, and its array accesses, and
-- Common/Selection.antt is about a round of selection, in Students/Sort and in Ranking.
--
-- Bounds.
-- Numbers are natural numbers; an int is one below 2 ^ 32 and an off_t one below 2 ^ 64, in two's
-- complement and little-endian bytes, and counts wrap around. Files are below 2 ^ 30 bytes, so
-- that `int flag = lseek(...)` loses nothing. A Database with room for k changes has 200 bytes
-- left in the data file and 8 in the index file for each of them, which is more than an insertion,
-- the longest change, takes. In the other parts, an outcome is a value, an exit, undefined
-- behaviour or no fuel. A loop over an array runs on fuel, one more than the array has places, and
-- the shell's outer loop on one more than the input has characters; a loop with a known number of
-- rounds runs by these. The loop of free_block runs on fuel for the blocks down to 2 ^ 19 below 0,
-- where its offset overflows. The limit semadj_max is the one that Linux has for the adjustments
-- of SEM_UNDO. The loops of search, print_all, compaction and index_of_min run on fuel: the length
-- of the index file, or the offset of its end, is enough, since a round moves on by a slot of
-- eight bytes.
--
-- What is undefined.
-- A variable that is used after a read that was too short to set it, a write behind the end of a
-- buffer, an array of no or a negative length for a name, a `%s` without a null character, and an
-- overflow of `4 + n * 8`. The read of an off_t into an int in compaction sets the int to the low
-- half of the off_t; the high half is written behind it, which a compiler may make anything of:
-- Behind, a parameter of gather and of all that calls it, says whether it goes to bytes that are
-- not in use or to the variable n, which is where gcc without optimisation puts it. An array of no
-- entries in compaction is taken as GNU C does. In the other parts: an access to an array or to
-- the shared segment out of its range, the overflow of an int, a copy to where malloc gave no
-- block, a thread of thread/mutexes.c behind its array of 5, and a block number that get_freeblock
-- could not read, as where the process has no descriptor left to open the file with.
--
-- Not modelled.
-- The prompts, umask, close, the check of argc, permissions, a failure of malloc in the database,
-- and a write of fewer bytes than asked for. The user's input is an argument: a Choice for an
-- option with what it asks for. The programs of assignments/as3/part1 are endless loops of scanf,
-- fork, exec and wait; assignments/as6_17feb/sample.c prints for ever;
-- assignments/as7_10mar/prob1.c is a draft of as7.c that does not compile. What the programs print
-- to standard error is left out. The calls that make and remove semaphores and segments, their
-- failures, signals and sleep are left out, as they do not change what the loops do. In
-- thread/mutexes.c the clock and the prints are left out, and `counter++` is one read and one
-- write.
pub mod Common
pub mod Posix
pub mod Students
pub mod Strings
pub mod Mutex
pub mod Semaphores
pub mod Collatz
pub mod Ranking
pub mod Shell
pub mod Handshake
pub mod Blocks
pub mod Race
pub mod Pipes
pub mod Reversal
pub mod Streams
