-- ===== src/Economy/Conserved.antt =====
-- What all users of src/users.c have after get_balance and all nodes of src/nodes.c after
-- node_interrupt_handle, on one ledger.
use simulazione_transazioni.Prelude.{
  ℕ, ◌^◌, ◌<◌, ◌≡◌, refl, ap, ◌∙◌, false, List, [], ◌∷◌, map, some, arith, All,
}
use simulazione_transazioni.Prelude.Int.{ℤ, pos, negsuc, pos_part, ◌+ℤ◌, ◌≤ℤ◌, int_laws}
use simulazione_transazioni.Prelude.Words.{u32_of_ℤ}
use simulazione_transazioni.Common.{Block}
use simulazione_transazioni.Ledger.Blocks.{total_reward}
use simulazione_transazioni.Nodes.{ledger_balance}
use simulazione_transazioni.Users.State.{UserState, get_pid_user_index}
use simulazione_transazioni.Users.Wallet.{quiet, get_balance}
use simulazione_transazioni.Users.Wallet.Count.{spent, visible}
use simulazione_transazioni.Users.Wallet.Sums.{pending}
use simulazione_transazioni.Users.Wallet.Funds.{funds, refreshed, get_balance-refreshed}
use simulazione_transazioni.Economy.{total, IsBooked}
use simulazione_transazioni.Economy.Trade.{net, total-net}
use simulazione_transazioni.Economy.Pay.{visible-IsBetween, total-ledger_balance}

-- A user that reads the ledger `l`, stands in its array, and whose funds an `unsigned int` holds.
pub record IsReader (l : List Block) (s : UserState) : Type 0 where
  pub reads : s.ledger ≡ l
  pub index : ℕ
  pub at : get_pid_user_index s.par s.my_pid s.users_pid ≡ pos index
  pub funded : pos 0 ≤ℤ funds s
  pub small : pos_part (funds s) < 2 ^ 32

abbrev pub pids : List UserState → List ℤ
pids [] = []
pids (s ∷ us) = s.my_pid ∷ pids us

-- What a user has and what it has on its way.
abbrev pub holdings : UserState → ℤ
holdings s = pos s.curr_balance +ℤ spent s.out_going

abbrev pub budget : UserState → ℤ
budget s = pos s.par.so_budget_init

-- Every user calls get_balance, which raises nothing.
abbrev pub AllRefresh : List UserState → List UserState → Type 0
AllRefresh us after = map (get_balance false) us ≡ map (λ (s : UserState). some (s, quiet)) after

abbrev pub Conserves : List Block → List UserState → List ℤ → Type 0
Conserves l us nodes =
    (after : List UserState) × AllRefresh us after
    × (total holdings after +ℤ total (λ n. ledger_balance n (pos 0) l) nodes ≡ total budget us)

pub u32_of_ℤ-small : (w : ℤ) → pos 0 ≤ℤ w → pos_part w < 2 ^ 32 → pos (u32_of_ℤ w) ≡ w
unfolding u32_of_ℤ
u32_of_ℤ-small (pos n) h small = ap pos (omega arith)
u32_of_ℤ-small (negsuc n) h small = absurd (omega arith)

module _ (l : List Block) where
  -- What is on its way counts once, so that the holdings are read off the ledger.
  refresh_user :
      (s : UserState)
      → IsReader l s
      → (s' : UserState) × (get_balance false s ≡ some (s', quiet))
        × (holdings s' ≡ budget s +ℤ net (visible l) s.my_pid)
  refresh_user s h =
      let (u, _, _, done) = get_balance-refreshed s h.index h.at h.funded in
      (
        refreshed s h.index u,
        done,
        ap (λ (w : ℤ). w +ℤ spent (pending s)) (u32_of_ℤ-small (funds s) h.funded h.small)
            ∙ omega int_laws
            ∙ ap (λ (x : List Block). budget s +ℤ net (visible x) s.my_pid) h.reads,
      )

  refresh_users :
      (us : List UserState)
      → All (IsReader l) us
      → (after : List UserState) × AllRefresh us after
        × (total holdings after ≡ total budget us +ℤ total (net (visible l)) (pids us))
  refresh_users [] h = ([], refl, omega int_laws)
  refresh_users (s ∷ us) h =
      let (s', one, has) = refresh_user s h.0 in
      let (after, others, have) = refresh_users us h.1 in
      (s' ∷ after, (λ j. one j ∷ others j), (λ j. has j +ℤ have j) ∙ omega int_laws)

  -- Take users that read one ledger and stand in their arrays, each with funds, its budget and what
  -- it received less what it sent, that are not negative and fit an `unsigned int`. Let the ledger
  -- have in front blocks with a time, of nine transactions between two different users each, with
  -- no negative reward and a cost that an `int` holds, headed by a payment of just their rewards to
  -- one node, each of a pid that stands once among the pids of these users or nodes, and behind them
  -- free slots with no time, that pay nothing; and let all rewards sum up to less than 2 ^ 31. Then get_balance of every user raises nothing,
  -- and the balances it computes, with the cost of what it leaves on the outgoing lists, and the
  -- balances that the nodes sum up on SIGINT, come to the sum of the initial budgets: no money is
  -- made or lost.
  pub get_balance-Conserves :
      (us : List UserState) (nodes : List ℤ)
      → All (IsReader l) us
      → IsBooked (pids us) nodes l
      → total_reward (visible l) < 2 ^ 31
      → Conserves l us nodes
  get_balance-Conserves us nodes readers booked small =
      let (after, all, have) = refresh_users us readers in
      (
        after,
        all,
        (λ j. have j +ℤ total-ledger_balance (pids us) nodes l booked small j)
            ∙ ap (λ (x : ℤ). total budget us +ℤ x +ℤ pos (total_reward (visible l)))
                (total-net (pids us) (visible l) (visible-IsBetween (pids us) nodes l booked))
            ∙ omega int_laws,
      )
