-- ===== src/Lib.antt =====
-- The transaction simulation: a master process, processes of users that send each other money, and
-- processes of nodes that collect the transactions in blocks and write them to a shared ledger.
--
-- The master (src/master.c) reads the parameters (src/parser.c), makes the shared arrays, the
-- ledger and the semaphores, spawns the nodes and the users, and sends each node its friends. A user
-- (src/users.c) computes its balance from the ledger and from the list of its outgoing transactions
-- (src/utils/lklist.c), and sends a transaction to the message queue of a node. A node (src/nodes.c)
-- keeps what it receives in its pool (src/utils/pool.c), passes messages on to friends, or to the
-- master when they have no hop left, and forks a child for each nine transactions, which adds the
-- reward and writes the block to the ledger. src/print.c reports. src/utils/sem.c and
-- src/utils/msg.c wrap the semaphores and the queues.
--
-- The files, each with its children:
--   Prelude     lists, integers and machine words over the native numbers
--   Common      src/include/common.h: constants, structs, messages
--   Rand        the macro RAND
--   Table       the searches by pid and the writes to the shared arrays
--   Sys         errno, semaphore sets and queues, as the manual pages of the kernel describe them;
--               Decimal has snprintf of an int and atoi
--   Sem         src/utils/sem.c and semaphores_init of src/master.c
--   Msg         src/utils/msg.c; Attach has the loops of src/users.c and src/nodes.c that wait for a
--               queue
--   Memory      cells at addresses, with malloc and free, and the chains that the lists form
--   Pool        src/utils/pool.c; Pool/Queue refines it by a first-in first-out sequence
--   LinkedList  src/utils/lklist.c; Contents, Push and Remove refine it by its contents
--   Ledger      get_pid_nodeIndex, sum_reward, new_block, confirm_block and insert_block_in_ledger
--               of src/nodes.c; Ledger/Race has insert_block_in_ledger as a step relation, run by
--               several processes at once
--   Nodes       fetch_messages, send_to_random_friend, fill_block_transList, fill_friendList,
--               node_interrupt_handle, the round of main and the child that it forks, of src/nodes.c;
--               Run has the rounds one after the other, Children the children
--   Users       src/users.c: State (the globals, get_pid_userIndex, update_status,
--               update_balance), Wallet (get_balance, search_trans_list), Sending (the random
--               choices, transaction_init, send_transaction, the round of main), Cycle (the main
--               loop with its get_balance, beside what the other processes do), Handlers (what the
--               handlers of SIGUSR1 and SIGINT do after get_balance), Signals (with it)
--   Economy     the balances of all users and nodes on one ledger: Trade sums up what users pay each
--               other, Pay what the nodes earn, Conserved has both, Kept the blocks that are added, Finish
--               the handlers of SIGINT that run while master_interrupt_handle waits, and the table
--               that it prints then
--   Parser      src/parser.c
--   Master      make_friend_list, spawn_node and the round of the process for the extra nodes of
--               src/master.c; Startup has the loops of main that spawn nodes and users, and
--               send_friend_list; Arguments the IDs that make_arguments passes to attach_ipc_objects of
--               src/nodes.c and src/users.c; Ending has start_continuous_print, with its counts, and
--               the reason that master_interrupt_handle reports
--   Print       what src/print.c computes; Report has the rows of print_user_nodes_table and the
--               blocks of print_ledger, Chains print_outgoing_pool and print_transaction_pool
--   Tests       the theorems at concrete inputs, and runs of the definitions
--
-- Conventions. A global or a shared array that a function changes is passed in and returned. `none`
-- stands for an access outside an array, a division by 0 or the end of the process, as each
-- definition says. `unsigned` values are numbers that wrap where the code computes with them, `int`
-- and `long` values are integers; the `int` sums wrap. What rand, fork, clock_gettime, malloc,
-- msgget, msgsnd and msgrcv answer are arguments.
--
-- README.md lists as a known problem that the final total differs a little from the initial one. For
-- this the files of Economy/Finish let each user read a ledger of its own.
--
-- Fuel. The walks over the linked lists run on fuel, and a round for each cell, with one more for
-- print_transaction_pool, is enough. The other loops are bounded by the arrays that they run over; the
-- random choices of a receiver and of a node run for as many draws as they are given.
--
-- Not modelled: the attaching of shared memory, the installation of signal handlers, the sleeps and
-- the formatting of the output, which only call the system; src/utils/debug.c, which only prints;
-- the text of the configuration lines, which sscanf reads.
pub mod Prelude
pub mod Common
pub mod Table
pub mod Sys
pub mod Sem
pub mod Msg
pub mod Ledger
pub mod Memory
pub mod Pool
pub mod LinkedList
pub mod Master
pub mod Nodes
pub mod Parser
pub mod Rand
pub mod Print
pub mod Users
pub mod Economy
mod Tests
