-- ===== src/Pool.antt =====
-- src/utils/pool.c: the transaction pool of a node, a linked list with pointers to its two ends.
-- `size` is kept by the callers in src/nodes.c.
pub mod Queue
use simulazione_transazioni.Prelude.{ℕ, Bool, not, ◌==◌, if◌then◌else◌}
use simulazione_transazioni.Prelude.Int.{ℤ}
use simulazione_transazioni.Common.{MsgbufTrans, success, error}
use simulazione_transazioni.Memory.{
  Ptr, null, Cell, Cmd, pure, ◌>>=◌, ◌>>◌, load, store, free, malloc,
}

pub record Pool : Type 0 where
  pub head : Ptr
  pub tail : Ptr
  pub size : ℕ

unfoldable pub transaction_pool_init : Pool
transaction_pool_init = record { head = null; tail = null; size = 0 }

-- `p->transactionMessage.next = q`
unfoldable pub set_next : Ptr → Ptr → Cmd MsgbufTrans Unit
set_next p q = do c ← load p; store p (record c { next = q })

-- `mtype` of the new cell stays what malloc left there.
unfoldable pub fill_cell : Ptr → MsgbufTrans → Cmd MsgbufTrans Unit
fill_cell p message = do
  c ← load p
  store p (record { value = record message { mtype = c.value.mtype }; next = null })

-- The link from the old last cell, if there is one.
unfoldable pub link_tail : Ptr → Ptr → Cmd MsgbufTrans Unit
unfolding set_next
link_tail tail p = if tail == null then pure tt else set_next tail p

-- `fresh` and `raw` are what malloc gives.
unfoldable pub add_to_pool :
    Ptr → Cell MsgbufTrans → Pool → MsgbufTrans → Cmd MsgbufTrans (ℤ × Pool)
unfolding fill_cell link_tail
add_to_pool fresh raw trans_pool message = do
  p ← malloc fresh raw
  fill_cell p message
  link_tail trans_pool.tail p
  pure (
    success,
    record trans_pool { head = if trans_pool.head == null then p else trans_pool.head; tail = p },
  )

-- The message that is copied to `*tMex` is returned, with the code and the pool; `old` is what
-- `*tMex` held. The pool is never NULL. The head is read once more after it is freed.
unfoldable pub remove_from_pool : Pool → MsgbufTrans → Cmd MsgbufTrans (ℤ × MsgbufTrans × Pool)
remove_from_pool trans_pool old =
    if trans_pool.head == null then pure (error, old, trans_pool) else do
      c ← load trans_pool.head
      free trans_pool.head
      again ← load trans_pool.head
      pure (
        success,
        c.value,
        record trans_pool {
          head = again.next;
          tail = if again.next == null then null else trans_pool.tail;
        },
      )
