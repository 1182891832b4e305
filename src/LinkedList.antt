-- ===== src/LinkedList.antt =====
-- src/utils/lklist.c: the list of the outgoing transactions of a user. A loop runs on fuel: one
-- round for each cell of the list is enough.
pub mod Contents
pub mod Push
pub mod Remove
use simulazione_transazioni.Prelude.{ℕ, zero, suc, Bool, not, ◌&&◌, ◌==◌, if◌then◌else◌}
use simulazione_transazioni.Prelude.Int.{ℤ, ◌==ℤ◌}
use simulazione_transazioni.Common.{Transaction}
use simulazione_transazioni.Memory.{
  Ptr, null, Cell, Cmd, out_of_fuel, pure, ◌>>=◌, ◌>>◌, load, store, free, malloc,
}

-- The sender and the reward are not compared.
unfoldable pub compare_transactions : Transaction → Transaction → Bool
compare_transactions t1 t2 =
    (t1.timestamp.tv_nsec == t2.timestamp.tv_nsec)
    && (t1.timestamp.tv_sec == t2.timestamp.tv_sec)
    && (t1.amount ==ℤ t2.amount)
    && (t1.receiver ==ℤ t2.receiver)

-- `fresh` and `raw` are what malloc gives. If that is NULL, the writes fault.
unfoldable pub new_node : Ptr → Cell Transaction → Transaction → Cmd Transaction Ptr
new_node fresh raw t = do p ← malloc fresh raw; store p (record { value = t; next = null }); pure p

-- `p->next = q`
unfoldable pub set_next : Ptr → Ptr → Cmd Transaction Unit
set_next p q = do c ← load p; store p (record c { next = q })

-- The walk to the last cell, and the new cell that is linked to it.
unfoldable pub push_loop : ℕ → Ptr → Ptr → Cell Transaction → Transaction → Cmd Transaction Unit
unfolding new_node set_next
push_loop zero curr fresh raw t = λ _. out_of_fuel
push_loop (suc k) curr fresh raw t = do
  c ← load curr
  let rest = push_loop k c.next fresh raw t
  if not (c.next == null) then rest else (do p ← new_node fresh raw t; set_next curr p)

unfoldable pub push : ℕ → Ptr → Ptr → Cell Transaction → Transaction → Cmd Transaction Unit
unfolding push_loop
push fuel head fresh raw t = push_loop fuel head fresh raw t

-- The end of find_and_remove: `curr` holds the transaction. It is freed before its `next` is read.
unfoldable pub unlink : Ptr → Ptr → Ptr → Cmd Transaction Ptr
unfolding set_next
unlink head prev curr =
    if curr == head
    then (do free head; c ← load head; pure c.next)
    else (do free curr; c ← load curr; set_next prev c.next; pure head)

unfoldable pub find_loop : ℕ → Ptr → Ptr → Ptr → Transaction → Cmd Transaction Ptr
unfolding compare_transactions unlink
find_loop zero head prev curr to_search = λ _. out_of_fuel
find_loop (suc k) head prev curr to_search = do
  c ← load curr
  let rest = find_loop k head curr c.next to_search
  let ended = if c.next == null then pure head else rest
  if compare_transactions c.value to_search then unlink head prev curr else ended

-- The new head is returned.
unfoldable pub find_and_remove : ℕ → Ptr → Transaction → Cmd Transaction Ptr
unfolding find_loop
find_and_remove fuel head to_search =
    if head == null then pure head else find_loop fuel head null head to_search
