-- ===== src/Tests/Parser.antt =====
-- A configuration with a reward that is no percentage, and one that is read as it stands.
use simulazione_transazioni.Prelude.{◌≡◌, refl, arith, false, some, List, [], ◌∷◌}
use mathlib.Core.Option
use simulazione_transazioni.Prelude.Int.{ℤ}
use simulazione_transazioni.Common.{Parameters, success}
use simulazione_transazioni.Parser.{
  Setting, assign_defaults, assign, assign_all, normalize_gen, normalize_proc, normalize_tp_size,
  normalize_friends, correct, parse_parameters,
}
use simulazione_transazioni.Parser.Settings.{
  IsSound, FitsWords, lines_of, parse_parameters-IsSound, parse_parameters-lines_of,
}
use simulazione_transazioni.Tests.Data.{par}

abbrev lines : List Setting
lines =
    record { token = "SO_REWARD"; value = 250 }
    ∷ record { token = "SO_HOPS"; value = 4 }
    ∷ record { token = "SO_TP_SIZE"; value = 3 }
    ∷ record { token = "SO_FRIENDS_NUM"; value = 11 }
    ∷ record { token = ""; value = 0 }
    ∷ record { token = ""; value = 0 }
    ∷ record { token = ""; value = 0 }
    ∷ record { token = ""; value = 0 }
    ∷ record { token = ""; value = 0 }
    ∷ record { token = ""; value = 0 }
    ∷ record { token = ""; value = 0 }
    ∷ record { token = ""; value = 0 }
    ∷ record { token = ""; value = 0 }
    ∷ []

parse_parameters-IsSound_example :
    (p : Parameters) × (parse_parameters false (some lines) ≡ some (success, p)) × IsSound p
parse_parameters-IsSound_example = parse_parameters-IsSound false lines refl

-- The reward stays 1, the pool is made larger than a block, and the friends no more than the nodes.
parse_parameters_test :
    Option.map
      (λ (r : ℤ × Parameters).
        r.1.so_reward ∷ r.1.so_hops ∷ r.1.so_tp_size ∷ r.1.so_friends_num ∷ [])
      (parse_parameters false (some lines))
    ≡ some (1 ∷ 4 ∷ 11 ∷ 10 ∷ [])
unfolding parse_parameters correct assign_all assign assign_defaults normalize_gen normalize_proc
    normalize_tp_size normalize_friends
parse_parameters_test = refl

par-FitsWords : FitsWords par
par-FitsWords = record {
  user_num = omega arith;
  nodes_num = omega arith;
  budget_init = omega arith;
  retry = omega arith;
  tp_size = omega arith;
  sim_sec = omega arith;
  friends_num = omega arith;
  hops = omega arith;
}

par-IsSound : IsSound par
par-IsSound = record {
  reward = omega arith;
  gen = omega arith;
  proc = omega arith;
  tp_size = omega arith;
  friends = omega arith;
}

parse_parameters-lines_of_example :
    parse_parameters false (some (lines_of par)) ≡ some (success, par)
parse_parameters-lines_of_example = parse_parameters-lines_of par par-FitsWords par-IsSound
