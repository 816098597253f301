-- ===== src/Streams/Ownership.antt =====
-- What the log of inmemory.py promises about partitions and their owners, without its streams, tasks and
-- deliveries: leases are issued with generations that count on, dropped, and cleared.
pub mod Valid
pub mod Lost
use tori_py.Prelude.Dict
use tori_py.Prelude.Dict.{Dict}
use tori_py.Prelude.{ℕ, ◌+◌, String, Option, none, some, List, [], ◌∷◌, ◌++◌, length}
use tori_py.Streams.Models.Positions.{CheckpointKey, key_eq, OwnershipToken}

-- `issued` has every lease that there ever was, by the number of its object.
pub record Ownership : Type 0 where
  pub holders : Dict CheckpointKey ℕ
  pub tokens : Dict CheckpointKey OwnershipToken
  pub generations : Dict CheckpointKey ℕ
  pub issued : List (CheckpointKey × OwnershipToken)

abbrev pub number : Option ℕ → ℕ
number none = 0
number (some n) = n

abbrev pub generation : Ownership → CheckpointKey → ℕ
generation o key = number (Dict.get o.generations key)

abbrev pub next_token : Ownership → CheckpointKey → String → OwnershipToken
next_token o key owner_id = record { owner_id = owner_id; generation = generation o key + 1 }

abbrev pub issue : CheckpointKey → String → Ownership → Ownership
issue key owner_id o = record {
  holders = Dict.put o.holders key (length o.issued);
  tokens = Dict.put o.tokens key (next_token o key owner_id);
  generations = Dict.put o.generations key (generation o key + 1);
  issued = o.issued ++ (key, next_token o key owner_id) ∷ [];
}

abbrev pub drop_key : CheckpointKey → Ownership → Ownership
drop_key key o = record o { holders = Dict.remove o.holders key; tokens = Dict.remove o.tokens key }

abbrev pub clear : Ownership → Ownership
clear o = record o { holders = []; tokens = [] }

pub data Move : Ownership → Ownership → Type 0 where
  issued_to :
      (o : Ownership) (key : CheckpointKey) (owner_id : String) → Move o (issue key owner_id o)
  dropped : (o : Ownership) (key : CheckpointKey) → Move o (drop_key key o)
  cleared : (o : Ownership) → Move o (clear o)

pub data Moves (o : Ownership) : Ownership → Type 0 where
  here : Moves o o
  next : {p q : Ownership} → Moves o p → Move p q → Moves o q

pub Moves-trans : {o p q : Ownership} → Moves o p → Moves p q → Moves o q
Moves-trans h here = h
Moves-trans h (next r m) = next (Moves-trans h r) m

pub Moves-one : {o p : Ownership} → Move o p → Moves o p
Moves-one m = next here m
