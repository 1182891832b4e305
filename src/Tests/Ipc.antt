-- ===== src/Tests/Ipc.antt =====
-- The semaphores and the message wrappers.
use simulazione_transazioni.Prelude.{◌≡◌, ◌↔◌, refl, arith, false, none, some, [], ◌∷◌}
use simulazione_transazioni.Common.{success, error}
use simulazione_transazioni.Prelude.Int.{pos}
use simulazione_transazioni.Sys.{failed, efbig, eagain, enomsg}
use simulazione_transazioni.Sys.Decimal.{decimal, digits}
use simulazione_transazioni.Sem.{sem_getall, sem_reserve, sem_release, locked_num, semaphores_init}
use simulazione_transazioni.Sem.Locking.{sem_reserve-locked_num}
use simulazione_transazioni.Msg.{send_message, receive_message, bytes, refused}
use simulazione_transazioni.Msg.Attach.{
  found, missing, queue_to_pid, message_queue_attach, message_queue_attach_lem,
}
use simulazione_transazioni.Msg.Codes.{
  IsSendError, IsReceiveError, send_message_lem, receive_message_stale,
}

sem_reserve-locked_num_example :
    (sem_reserve (0 ∷ []) locked_num ≡ failed efbig)
    × (sem_release (0 ∷ []) locked_num ≡ failed efbig)
unfolding semaphores_init
sem_reserve-locked_num_example = sem_reserve-locked_num (0 ∷ []) (omega arith)

send_message_lem_example :
    ((send_message enomsg none).1 ≡ success)
    × (((send_message enomsg (some eagain)).1 ≡ error) ↔ IsSendError eagain)
send_message_lem_example = send_message_lem enomsg eagain

receive_message_stale_example :
    (((receive_message enomsg (bytes 88)).1 ≡ error) ↔ IsReceiveError enomsg)
    × ((receive_message enomsg (bytes 88)).1 ≡ (receive_message efbig (refused enomsg)).1)
receive_message_stale_example = receive_message_stale enomsg efbig 87

message_queue_attach_lem_example :
    (queue_to_pid (missing ∷ missing ∷ found (pos 7) ∷ found (pos 7) ∷ []) ≡ some (pos 7))
    × (message_queue_attach false (found (pos 7) ∷ found (pos 7) ∷ []) ≡ some (pos 7))
    × (message_queue_attach false (missing ∷ missing ∷ missing ∷ found (pos 7) ∷ []) ≡ none)
message_queue_attach_lem_example = message_queue_attach_lem 2 (pos 7) (pos 7 ∷ [])

-- Two semaphores, of value 0 and 12.
sem_getall_test : sem_getall (0 ∷ 12 ∷ []) ≡ b'0' ∷ b' ' ∷ b'1' ∷ b'2' ∷ b' ' ∷ []
unfolding sem_getall decimal digits
sem_getall_test = refl
