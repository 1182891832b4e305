-- ===== src/Tests/Print.antt =====
-- The three wealthiest of a list of balances.
use simulazione_transazioni.Prelude.{ℕ, ◌≡◌, refl, List, [], ◌∷◌, ◌++◌, length}
use simulazione_transazioni.Prelude.Int.{pos}
use simulazione_transazioni.Print.{Place, rank_all, rank_high, no_places}
use simulazione_transazioni.Print.Ranks.{Rest, IsInOrder, Holds, maxima, rank_all-Sorted}

abbrev place : ℕ → Place
place b = record { balance = b; pid = pos 100 }

abbrev places : List Place
places = place 10 ∷ place 8 ∷ place 20 ∷ []

rank_all-Sorted_example :
    (r : Rest) × IsInOrder (rank_all rank_high places (no_places 0)) r
    × Holds
        (places ++ (no_places 0).first ∷ (no_places 0).second ∷ (no_places 0).third ∷ [])
        (rank_all rank_high places (no_places 0))
        r
    × (length r.displaced ≡ maxima 0 places)
rank_all-Sorted_example = rank_all-Sorted places

-- The place of the balance 8 is lost.
rank_all_test : (rank_all rank_high places (no_places 0)).third.balance ≡ 0
unfolding rank_all rank_high
rank_all_test = refl
