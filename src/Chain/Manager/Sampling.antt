-- ===== src/Chain/Manager/Sampling.antt =====
-- What the managers take from other packages: the distribution of round leaders (`rand_distr`, with the
-- generator of `rand_chacha`) as an argument.
use linera_protocol.Prelude.{ℕ, List, Result}

pub record Sampling : Type 0 where
  -- `WeightedAliasIndex::new` fails on weights that it cannot use: none, all zero, or too many.
  pub accepts : List ℕ → Result (Unit {0}) (Unit {0})
  -- The index that the distribution of the weights samples with a generator seeded by the number.
  pub sample : List ℕ → ℕ → ℕ

-- `Outcome`.
pub data Outcome : Type 0 where
  accept skip : Outcome
