-- ===== src/Msg.antt =====
-- src/utils/msg.c: the wrappers of msgsnd and msgrcv. What the kernel answers is an argument; the
-- value of `errno` before the call is one too, and its value after it is returned.
pub mod Attach
pub mod Codes
use simulazione_transazioni.Prelude.{ℕ, zero, suc, Option, none, some}
use simulazione_transazioni.Prelude.Int.{ℤ, pos, negsuc}
use simulazione_transazioni.Common.{success, error}
use simulazione_transazioni.Sys.{
  Errno, no_error, e2big, eacces, eagain, efault, efbig, eidrm, eintr, einval, enomem, enomsg,
  erange, other,
}

-- The switch of send_message.
send_switch : Errno → ℤ
send_switch eacces = error
send_switch eagain = error
send_switch efault = error
send_switch eidrm = error
send_switch eintr = error
send_switch einval = error
send_switch enomem = error
send_switch _ = success

-- `none`: msgsnd returned 0; `some e`: it returned -1 and set `errno` to `e`.
unfoldable pub send_message : Errno → Option Errno → Errno × ℤ
unfolding send_switch
send_message errno none = (errno, success)
send_message errno (some e) = (e, send_switch e)

-- What msgrcv answers: the number of bytes that it copied, or -1 with an error.
pub data Received : Type 0 where
  bytes : ℕ → Received
  refused : Errno → Received

-- The switch of receive_message.
receive_switch : Errno → ℤ
receive_switch e2big = error
receive_switch eacces = error
receive_switch efault = error
receive_switch eidrm = error
receive_switch eintr = error
receive_switch enomsg = error
receive_switch _ = success

-- A call that succeeds leaves `errno` as it was, and the test is for the return value 0.
unfoldable pub receive_message : Errno → Received → Errno × ℤ
unfolding receive_switch
receive_message errno (bytes zero) = (errno, success)
receive_message errno (bytes (suc n)) = (errno, receive_switch errno)
receive_message errno (refused e) = (e, receive_switch e)
