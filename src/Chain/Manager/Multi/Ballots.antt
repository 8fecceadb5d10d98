-- ===== src/Chain/Manager/Multi/Ballots.antt =====
-- linera-chain/src/manager/multi.rs: all votes that a validator casts at one height, those to end a round
-- included.
use linera_protocol.Prelude.{
  ◌≤◌, ◌≡◌, ◌⊎◌, inl, inr, refl, sym, arith, ap, false, Option, none, some, some_inj, List, [], ◌∷◌,
  All,
}
use linera_protocol.Base.Identifiers.{RoundNumber}
use linera_protocol.Chain.DataTypes.{Certificate, Vote, is_timeout}
use linera_protocol.Chain.Crypto.{Crypto, KeyPair}
use linera_protocol.Chain.Manager.Multi.{MultiOwnerManager, current_round}
use linera_protocol.Chain.Manager.Multi.Rounds.{Advances, InOrder, Step-Advances}
use linera_protocol.Chain.Manager.Multi.History.{In, Run, begin, show, then_step}
use linera_protocol.Chain.Manager.Multi.Casting.{IsCast, Step-IsCast, cast}

-- Each vote's round is not below those of the votes before it.
abbrev pub NeverBack : List Vote → Type 0
NeverBack [] = Unit {0}
NeverBack (v ∷ rest) = All (λ w. w.round ≤ v.round) rest × NeverBack rest

abbrev Bounded : RoundNumber → List Vote → Type 0
Bounded round votes = All (λ v. v.round ≤ round) votes

Bounded-mono : (r s : RoundNumber) (votes : List Vote) → r ≤ s → Bounded r votes → Bounded s votes
Bounded-mono r s [] le b = tt
Bounded-mono r s (v ∷ rest) le b = (omega arith, Bounded-mono r s rest le b.1)

module _ {crypto : Crypto} {key_pair : KeyPair} {G : Certificate → Type 0} where
  -- All votes of a run, the last one first.
  unfoldable pub ballots :
      {votes : List Vote} {m : MultiOwnerManager} → Run crypto key_pair G votes m → List Vote
  unfolding cast
  ballots (begin _) = []
  ballots (then_step run step) = show (cast step) (ballots run)

record Inv (votes all : List Vote) (m : MultiOwnerManager) : Type 0 where
  order : InOrder m
  back : NeverBack all
  bounded : Bounded (current_round m) all
  last : (v : Vote) → m.pending ≡ some v → In v all
  covered : (v : Vote) → In v votes → In v all
  blocks : (v : Vote) → In v all → is_timeout v.value.value ≡ false → In v votes

In-show : (v : Vote) (o : Option Vote) (votes : List Vote) → In v votes → In v (show o votes)
In-show v none votes h = h
In-show v (some w) votes h = inr h

In-shown : (v : Vote) (o : Option Vote) (votes : List Vote) → o ≡ some v → In v (show o votes)
In-shown v none votes e = cc
In-shown v (some w) votes e = inl (some_inj (sym e))

show-In :
    (v : Vote) (o : Option Vote) (votes : List Vote)
    → In v (show o votes)
    → (o ≡ some v) ⊎ In v votes
show-In v none votes h = inr h
show-In v (some w) votes (inl e) = inl (ap some (sym e))
show-In v (some w) votes (inr h) = inr h

show-NeverBack :
    (r : RoundNumber) (o : Option Vote) (votes : List Vote)
    → ((v : Vote) → o ≡ some v → r ≤ v.round)
    → Bounded r votes
    → NeverBack votes
    → NeverBack (show o votes)
show-NeverBack r none votes above b n = n
show-NeverBack r (some v) votes above b n = (Bounded-mono r v.round votes (above v refl) b, n)

show-Bounded :
    (r : RoundNumber) (o : Option Vote) (votes : List Vote)
    → ((v : Vote) → o ≡ some v → v.round ≤ r)
    → Bounded r votes
    → Bounded r (show o votes)
show-Bounded r none votes below b = b
show-Bounded r (some v) votes below b = (below v refl, b)

step-Inv :
    (votes all : List Vote) (m m' : MultiOwnerManager) (o : Option Vote)
    → Inv votes all m
    → Advances m m'
    → IsCast m m' o
    → Inv (show m'.pending votes) (show o all) m'
step-Inv votes all m m' o i a k =
    let last : (v : Vote) → m'.pending ≡ some v → In v (show o all) = λ v e. elim (k.shown v e) [
      | inl old ↦ In-show v o all (i.last v old)
      | inr new ↦ In-shown v o all new
    ] in
    record {
      order = a.order i.order;
      back = show-NeverBack (current_round m) o all k.above i.bounded i.back;
      bounded =
          show-Bounded (current_round m') o all k.below
            (Bounded-mono (current_round m) (current_round m') all a.round i.bounded);
      last = last;
      covered = λ v h. elim (show-In v m'.pending votes h) [
        | inl e ↦ last v e
        | inr old ↦ In-show v o all (i.covered v old)
      ];
      blocks = λ v h f. elim (show-In v o all h) [
        | inl e ↦ In-shown v m'.pending votes (k.blocks v e f)
        | inr old ↦ In-show v m'.pending votes (i.blocks v old f)
      ];
    }

module _ {crypto : Crypto} {key_pair : KeyPair} {G : Certificate → Type 0} where
  Run-Inv :
      {votes : List Vote} {m : MultiOwnerManager} (run : Run crypto key_pair G votes m)
      → Inv votes (ballots run) m
  unfolding ballots
  Run-Inv (begin {m = m} n) = record {
    order = λ v e. cc (n.pending, e);
    back = tt;
    bounded = tt;
    last = λ v e. cc (n.pending, e);
    covered = λ v h. h;
    blocks = λ v h f. h;
  }
  Run-Inv (then_step {votes = votes} {m = m} {m' = m'} run step) =
      step-Inv votes (ballots run) m m' (cast step) (Run-Inv run) (Step-Advances step)
        (Step-IsCast step)

  -- A vote for a block is one that has been shown.
  pub ballots-shown :
      {votes : List Vote} {m : MultiOwnerManager} (run : Run crypto key_pair G votes m) (v : Vote)
      → In v (ballots run)
      → is_timeout v.value.value ≡ false
      → In v votes
  ballots-shown run = (Run-Inv run).blocks

  -- Whatever proposals and certificates a validator is shown, from a new manager on, and whenever it is
  -- asked to end a round: of all its votes, to validate, to confirm and to end a round, none is for an
  -- earlier round than one before it, and none for a round above the current one. All votes that its
  -- manager has shown as pending are among them, and of those that it has not shown each is to end a round.
  pub Run-NeverBack :
      {votes : List Vote} {m : MultiOwnerManager} (run : Run crypto key_pair G votes m)
      → NeverBack (ballots run)
        × All (λ v. v.round ≤ current_round m) (ballots run)
        × ((v : Vote) → In v votes → In v (ballots run))
        × ((v : Vote) → In v (ballots run) → is_timeout v.value.value ≡ false → In v votes)
  Run-NeverBack run = let i = Run-Inv run in (i.back, i.bounded, i.covered, i.blocks)
