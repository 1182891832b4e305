-- ===== src/Msg/Codes.antt =====
-- What the return codes of send_message and receive_message say of the kernel's answer.
use simulazione_transazioni.Prelude.{ℕ, suc, ◌≡◌, refl, ◌↔◌, ◌⊎◌, none, some, arith}
use simulazione_transazioni.Common.{success, error}
use simulazione_transazioni.Sys.{
  Errno, e2big, eacces, eagain, efault, eidrm, eintr, einval, enomem, enomsg,
}
use simulazione_transazioni.Msg.{send_message, receive_message, bytes, refused}

-- The errors of msgsnd that are reported.
abbrev pub IsSendError : Errno → Type 0
IsSendError e =
    (e ≡ eacces)
    ⊎ (e ≡ eagain)
    ⊎ (e ≡ efault)
    ⊎ (e ≡ eidrm)
    ⊎ (e ≡ eintr)
    ⊎ (e ≡ einval)
    ⊎ (e ≡ enomem)

-- The errors of msgrcv that are reported.
abbrev pub IsReceiveError : Errno → Type 0
IsReceiveError e =
    (e ≡ e2big) ⊎ (e ≡ eacces) ⊎ (e ≡ efault) ⊎ (e ≡ eidrm) ⊎ (e ≡ eintr) ⊎ (e ≡ enomsg)

send_error : (errno e : Errno) → (send_message errno (some e)).1 ≡ error → IsSendError e
unfolding send_message
send_error errno eacces h = ground arith
send_error errno _ h = ground arith

send_error_back : (errno e : Errno) → IsSendError e → (send_message errno (some e)).1 ≡ error
unfolding send_message
send_error_back errno eacces h = refl
send_error_back errno _ h = ground arith

-- A message that msgsnd accepts is reported as sent, whatever `errno` was; one that it refuses is
-- reported as an error exactly on EACCES, EAGAIN, EFAULT, EIDRM, EINTR, EINVAL and ENOMEM.
pub send_message_lem :
    (errno e : Errno)
    → ((send_message errno none).1 ≡ success)
      × (((send_message errno (some e)).1 ≡ error) ↔ IsSendError e)
unfolding send_message
send_message_lem errno e = (refl, (send_error errno e, send_error_back errno e))

receive_error :
    (errno : Errno) (n : ℕ)
    → (receive_message errno (bytes (suc n))).1 ≡ error
    → IsReceiveError errno
unfolding receive_message
receive_error e2big n h = ground arith
receive_error _ n h = ground arith

receive_error_back :
    (errno : Errno) (n : ℕ)
    → IsReceiveError errno
    → (receive_message errno (bytes (suc n))).1 ≡ error
unfolding receive_message
receive_error_back e2big n h = refl
receive_error_back _ n h = ground arith

-- A message that msgrcv did copy is reported as an error exactly if `errno` still holds one of
-- E2BIG, EACCES, EFAULT, EIDRM, EINTR and ENOMSG from an earlier call: the code is the one that a
-- refusal with that error gets.
pub receive_message_stale :
    (errno before : Errno) (n : ℕ)
    → (((receive_message errno (bytes (suc n))).1 ≡ error) ↔ IsReceiveError errno)
      × ((receive_message errno (bytes (suc n))).1 ≡ (receive_message before (refused errno)).1)
unfolding receive_message
receive_message_stale errno before n = ((receive_error errno n, receive_error_back errno n), refl)
