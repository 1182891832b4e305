-- ===== src/Economy/Finish/Table.antt =====
-- What print_user_nodes_table of src/print.c shows after all handlers of SIGINT have run.
use simulazione_transazioni.Prelude.{
  ℕ, zero, suc, ◌*◌, ◌^◌, ◌≤◌, ◌<◌, ◌≡◌, refl, sym, ap, ◌∙◌, ◌⊎◌, List, [], ◌∷◌, map, some, arith,
  inl, inr, All, All-weaken, length, get_elem?, take, take_all, take_short, if◌then◌else◌,
  Bool-cases,
}
use simulazione_transazioni.Prelude.Int.{ℤ, pos, pos_part, ◌+ℤ◌, ◌-ℤ◌, ◌≤ℤ◌, ◌==ℤ◌, int_laws}
use simulazione_transazioni.Prelude.Words.{u32, u64_of_ℤ}
use simulazione_transazioni.Common.{Parameters, User, Node, Block}
use simulazione_transazioni.Table.{get_elem?-some}
use simulazione_transazioni.Ledger.Blocks.{total_reward}
use simulazione_transazioni.Nodes.{ledger_balance}
use simulazione_transazioni.Users.State.{UserState}
use simulazione_transazioni.Users.Wallet.Count.{visible}
use simulazione_transazioni.Print.Report.{
  Row, user_row, node_row, user_rows, node_rows, print_user_nodes_table,
}
use simulazione_transazioni.Economy.{total, Once, IsBooked}
use simulazione_transazioni.Economy.Trade.{net, total-net, total-cong}
use simulazione_transazioni.Economy.Pay.{
  total-add, total-zero, visible-IsBetween, ledger_balance-whole, total-ledger_balance,
}
use simulazione_transazioni.Economy.Conserved.{pids, u32_of_ℤ-small}
use simulazione_transazioni.Economy.Finish.{finish_users, finish_nodes, IsAmong}
use simulazione_transazioni.Economy.Finish.Users.{IsOurs, HasOwned, owned, finish_users-HasOwned}
use simulazione_transazioni.Economy.Finish.Nodes.{HasEarned, finish_nodes-HasEarned}

abbrev pub row_balance : Row → ℤ
row_balance (user_row pid status balance) = pos balance
row_balance (node_row pid status balance tp_size) = pos balance

abbrev pub user_pids : List User → List ℤ
user_pids = map (λ (u : User). u.pid)

abbrev pub node_pids : List Node → List ℤ
node_pids = map (λ (n : Node). n.pid)

-- The pids before the first slot of no node.
abbrev pub used : List ℤ → List ℤ
used [] = []
used (p ∷ ps) = if p ==ℤ pos 0 then [] else p ∷ used ps

take-total :
    (f : User → ℤ) (n : ℕ) (users : List User) {u : User}
    → get_elem? users n ≡ some u
    → total f (take (suc n) users) ≡ f u +ℤ total f (take n users)
take-total f n [] e = cc
take-total f zero (v ∷ users) e = let is : v ≡ _ = cc in ap (λ (x : User). f x +ℤ pos 0) is
take-total f (suc n) (v ∷ users) e = ap (◌+ℤ◌ (f v)) (take-total f n users e) ∙ omega int_laws

user_rows-total :
    (n : ℕ) (users : List User)
    → n ≤ length users
    → (rows : List Row) × (user_rows n users ≡ some rows)
      × (total row_balance rows ≡ total (λ u. pos u.balance) (take n users))
unfolding user_rows
user_rows-total zero users h = ([], refl, refl)
user_rows-total (suc n) users h =
    let (u, got) = get_elem?-some users n (omega arith) in
    let (rows, printed, sum) = user_rows-total n users (omega arith) in
    (
      user_row u.pid u.status u.balance ∷ rows,
      rw (user_rows, got, printed) refl,
      ap (◌+ℤ◌ (pos u.balance)) sum ∙ sym (take-total (λ (x : User). pos x.balance) n users got),
    )

module _ (par : Parameters) (read : ℤ → List Block) where
  -- The funds of the user are no debt, and fit an `unsigned int`.
  abbrev pub Fits : ℤ → Type 0
  Fits p = (pos 0 ≤ℤ owned par read p) × (pos_part (owned par read p) < 2 ^ 32)

  users-total :
      (users : List User)
      → All (HasOwned par read) users
      → All Fits (user_pids users)
      → total (λ u. pos u.balance) users ≡ total (owned par read) (user_pids users)
  users-total [] h fits = refl
  users-total (u ∷ users) h fits = λ j.
      (ap pos h.0 ∙ u32_of_ℤ-small (owned par read u.pid) fits.0.0 fits.0.1) j
      +ℤ users-total users h.1 fits.1 j

  budgets-total :
      (users : List User)
      → total (λ p. pos par.so_budget_init) (user_pids users)
        ≡ total (λ u. pos par.so_budget_init) users
  budgets-total [] = refl
  budgets-total (u ∷ users) = ap (◌+ℤ◌ (pos par.so_budget_init)) (budgets-total users)

module _ (par : Parameters) (l : List Block) where
  node_rows-total :
      (nodes : List Node)
      → ((p : ℤ) → pos (u64_of_ℤ (ledger_balance p (pos 0) l)) ≡ ledger_balance p (pos 0) l)
      → All (HasEarned par l) nodes
      → total row_balance (node_rows nodes)
        ≡ total (λ p. ledger_balance p (pos 0) l) (used (node_pids nodes))
  unfolding node_rows
  node_rows-total [] whole h = refl
  node_rows-total (n ∷ nodes) whole (inl empty, h) = rw empty refl
  node_rows-total (n ∷ nodes) whole (inr earns, h) = elim (Bool-cases (n.pid ==ℤ pos 0)) [
    | inl empty ↦ rw empty refl
    | inr node ↦ rw node (λ j. (ap pos earns ∙ whole n.pid) j +ℤ node_rows-total nodes whole h j)
  ]

-- The end of a simulation: processes of users and nodes, and the shared arrays. The nodes read the
-- ledger `l`, the user with pid `p` reads `read p`.
pub record IsEnding (par : Parameters) (l : List Block) (read : ℤ → List Block)
    (us : List UserState) (ps : List ℤ) (users : List User) (nodes : List Node) : Type 0 where
  pub ours : All (IsOurs par read) us
  pub users_size : length users ≡ par.so_user_num
  pub users_once : All (λ (s : UserState). Once (user_pids users) s.my_pid) us
  pub users_done : All (λ (u : User). IsAmong (pids us) u.pid) users
  pub nodes_size : length nodes ≤ u32 (par.so_nodes_num * 2)
  pub nodes_once : All (Once (node_pids nodes)) ps
  pub nodes_done : All (λ (n : Node). (n.pid ≡ pos 0) ⊎ IsAmong ps n.pid) nodes
  pub booked : IsBooked (user_pids users) (used (node_pids nodes)) l
  pub rewards : total_reward (visible l) < 2 ^ 31
  pub fits : All (Fits par read) (user_pids users)

-- One budget for each user.
abbrev pub budgets : Parameters → List User → ℤ
budgets par users = total (λ (u : User). pos par.so_budget_init) users

-- What a user reads on its ledger more than on that of the nodes.
abbrev pub drift : List Block → (ℤ → List Block) → ℤ → ℤ
drift l read p = net (visible (read p)) p -ℤ net (visible l) p

module _ (par : Parameters) (l : List Block) (read : ℤ → List Block) (us : List UserState)
    (ps : List ℤ) (users : List User) (nodes : List Node) where
  -- The table sums up to `w`.
  abbrev pub SumsTo : ℤ → Type 0
  SumsTo w =
      (users' : List User) × (nodes' : List Node) × (rows : List Row) × (rows' : List Row)
      × (finish_users us users ≡ some users')
      × (finish_nodes par l ps nodes ≡ some nodes')
      × (print_user_nodes_table par users' nodes' ≡ some (rows, rows'))
      × (total row_balance rows +ℤ total row_balance rows' ≡ w)

  module _ (e : IsEnding par l read us ps users nodes) where
    users-end :
        (users' : List User) × (finish_users us users ≡ some users')
        × All (HasOwned par read) users'
        × (user_pids users' ≡ user_pids users)
        × (length users' ≡ length users)
    users-end =
        finish_users-HasOwned par read us users e.ours e.users_size e.users_once
          (All-weaken (λ u among. inr among) users e.users_done)

    nodes-end :
        (nodes' : List Node) × (finish_nodes par l ps nodes ≡ some nodes')
        × All (HasEarned par l) nodes'
        × (node_pids nodes' ≡ node_pids nodes)
        × (length nodes' ≡ length nodes)
    nodes-end = finish_nodes-HasEarned par l ps nodes e.nodes_size e.nodes_once (
        All-weaken (λ (n : Node) h. elim h [ inl empty ↦ inl (inl empty) | inr among ↦ inr among ])
          nodes e.nodes_done)

    split :
        (p : ℤ) → owned par read p ≡ pos par.so_budget_init +ℤ (net (visible l) p +ℤ drift l read p)
    split p = omega int_laws

    -- What the users own and the nodes earn are the budgets, and the drift.
    owned-total :
        total (owned par read) (user_pids users)
          +ℤ total (λ p. ledger_balance p (pos 0) l) (used (node_pids nodes))
        ≡ budgets par users +ℤ total (drift l read) (user_pids users)
    owned-total =
        let ups = user_pids users in
        let nps = used (node_pids nodes) in
        let reward = pos (total_reward (visible l)) in
        (λ j. total-cong _ _ split ups j +ℤ total-ledger_balance ups nps l e.booked e.rewards j)
        ∙ ap (λ (x : ℤ). x +ℤ reward)
            (total-add (λ p. pos par.so_budget_init) (λ p. net (visible l) p +ℤ drift l read p) ups)
        ∙ (λ j.
            budgets-total par read users j
            +ℤ total-add (net (visible l)) (drift l read) ups j
            +ℤ reward)
        ∙ ap (λ (x : ℤ). budgets par users +ℤ (x +ℤ total (drift l read) ups) +ℤ reward)
            (total-net ups (visible l) (visible-IsBetween ups nps l e.booked))
        ∙ omega int_laws

    -- Take an array of users of which each has a process, whose pid stands in it once, an array of
    -- nodes with those that exist in front, the same way, and the ledger that the nodes read: in
    -- front blocks with a time, of nine transactions between two different users each, with no
    -- negative reward and a cost that an `int` holds, and a payment of just their rewards to a node,
    -- behind them free slots with no time that pay nothing, with all rewards below 2 ^ 31. Each user
    -- may read another ledger, on which its budget and receipts cover what it sent, on the ledger or
    -- on its way, and what it owns fits an `unsigned int`. When the users and the nodes have run their
    -- handlers of SIGINT, in any order, the balances in the table that is printed, over all its rows,
    -- sum up to one initial budget for each user, and for each user what the transactions on its
    -- ledger give it, less what those on the ledger of the nodes give it.
    pub print_user_nodes_table-SumsTo :
        SumsTo (budgets par users +ℤ total (drift l read) (user_pids users))
    unfolding print_user_nodes_table
    print_user_nodes_table-SumsTo =
        let (users', users_run, have, users_same, users_count) = users-end in
        let (nodes', nodes_run, earn, nodes_same, nodes_count) = nodes-end in
        let (rows, printed, users_sum) =
          user_rows-total par.so_user_num users' (omega (arith, users_count, e.users_size)) in
        let nodes_all : take (u32 (par.so_nodes_num * 2)) nodes' ≡ nodes' =
          take_short (u32 (par.so_nodes_num * 2)) nodes' (rw nodes_count e.nodes_size) in
        let users_all : take par.so_user_num users' ≡ users' =
          take_all par.so_user_num users' (users_count ∙ e.users_size) in
        let whole =
          ledger_balance-whole (user_pids users) (used (node_pids nodes)) l e.booked e.rewards in
        (
          users',
          nodes',
          rows,
          node_rows nodes',
          users_run,
          nodes_run,
          rw (printed, nodes_all, print_user_nodes_table) refl,
          (λ j. users_sum j +ℤ node_rows-total par l nodes' whole earn j)
              ∙ (λ j.
                  total (λ (u : User). pos u.balance) (users_all j)
                  +ℤ total (λ p. ledger_balance p (pos 0) l) (used (nodes_same j)))
              ∙ ap
                  (λ (x : ℤ). x +ℤ total (λ p. ledger_balance p (pos 0) l) (used (node_pids nodes)))
                  (users-total par read users' have (rw users_same e.fits)
                    ∙ ap (total (owned par read)) users_same)
              ∙ owned-total,
        )

module _ (par : Parameters) (l : List Block) (us : List UserState) (ps : List ℤ) (users : List User)
    (nodes : List Node) where
  abbrev pub Balanced : Type 0
  Balanced = SumsTo par l (λ _. l) us ps users nodes (budgets par users)

  -- With the arrays and the ledger of print_user_nodes_table-SumsTo, when all users read the ledger
  -- that the nodes read: after the handlers of SIGINT, in any order and whatever was on its way, the
  -- balances in the table that is printed, over all its rows, sum up to just one initial budget for
  -- each user.
  pub print_user_nodes_table-Balanced : IsEnding par l (λ _. l) us ps users nodes → Balanced
  print_user_nodes_table-Balanced e =
      let (users', nodes', rows, rows', users_run, nodes_run, printed, sum) =
        print_user_nodes_table-SumsTo par l (λ _. l) us ps users nodes e in
      (
        users',
        nodes',
        rows,
        rows',
        users_run,
        nodes_run,
        printed,
        sum
            ∙ ap (◌+ℤ◌ (budgets par users))
                (total-zero (drift l (λ _. l)) (λ p. omega int_laws) (user_pids users))
            ∙ omega int_laws,
      )
