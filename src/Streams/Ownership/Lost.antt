-- ===== src/Streams/Ownership/Lost.antt =====
-- A token that a key has lost in the ownership machine.
use tori_py.Prelude.Dict
use tori_py.Prelude.{◌+◌, ◌≤◌, ◌≡◌, ◌≢◌, ap, some, arith, Bool-cases, inl, inr, ◌==◌}
use tori_py.Streams.Models.Positions.{CheckpointKey, key_eq, key_beq_iff, OwnershipToken}
use tori_py.Streams.Ownership.{
  Ownership, generation, next_token, Move, issued_to, dropped, cleared, Moves, here, next,
}
use tori_py.Streams.Ownership.Valid.{Moves-generation}

-- The token was issued, and the key has another one or none.
pub record Lost (key : CheckpointKey) (token : OwnershipToken) (o : Ownership) : Type 0 where
  pub before : token.generation ≤ generation o key
  pub other : Dict.get o.tokens key ≢ some token

Move-Lost :
    {o p : Ownership} (key : CheckpointKey) (token : OwnershipToken)
    → Move o p
    → token.generation ≤ generation p key
    → Lost key token o
    → Lost key token p
unfolding Dict.get
Move-Lost key token (issued_to o k owner_id) later lost = record {
  before = later;
  other = λ held. elim (Bool-cases (k == key)) [
    | inl same ↦
        let here : k ≡ key = (key_beq_iff k key).0 same in
        let first : generation o k + 1 ≡ token.generation =
          ground (arith, Dict.get-put o.tokens k key (next_token o k owner_id)) in
        absurd (omega (arith, lost.before, first, ap (generation o) here))
    | inr different ↦
        lost.other (ground (arith, Dict.get-put o.tokens k key (next_token o k owner_id)))
  ];
}
Move-Lost key token (dropped o k) later lost = record {
  before = later;
  other = λ held. lost.other (ground (arith, Dict.get-remove o.tokens k key));
}
Move-Lost key token (cleared o) later lost = record {
  before = later;
  other = λ held. absurd (ground arith);
}

pub Moves-Lost :
    {o p : Ownership} (key : CheckpointKey) (token : OwnershipToken)
    → Moves o p
    → Lost key token o
    → Lost key token p
Moves-Lost key token here lost = lost
Moves-Lost key token (next r m) lost =
    let lost' = Moves-Lost key token r lost in
    Move-Lost key token m (omega (arith, lost'.before, Moves-generation (next here m) key)) lost'
