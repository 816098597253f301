-- ===== src/Streams/Ownership/Valid.antt =====
-- What every sequence of moves of the ownership machine keeps.
use mathlib.Core.Path.{subst}
use tori_py.Prelude.Dict
use tori_py.Prelude.{
  ℕ, zero, suc, ◌+◌, ◌≤◌, ◌≡◌, refl, sym, ap, ◌∙◌, String, some, List, [], ◌∷◌, ◌++◌, length,
  get_elem?, arith, Bool-cases, inl, inr, ◌⊎◌, ◌==◌, ==_refl, if◌then◌else◌,
}
use tori_py.Streams.Models.Positions.{CheckpointKey, key_eq, key_beq_iff, OwnershipToken}
use tori_py.Streams.Ownership.{
  Ownership, number, generation, next_token, issue, drop_key, clear, Move, issued_to, dropped,
  cleared, Moves, here, next,
}

pub record OwnershipIsValid (o : Ownership) : Type 0 where
  pub held :
      (key : CheckpointKey) (l : ℕ)
      → Dict.get o.holders key ≡ some l
      → (token : OwnershipToken) × (get_elem? o.issued l ≡ some (key, token))
        × (Dict.get o.tokens key ≡ some token)
  pub kept :
      (key : CheckpointKey) (token : OwnershipToken)
      → Dict.get o.tokens key ≡ some token
      → (l : ℕ) × (Dict.get o.holders key ≡ some l)
  pub numbered :
      (l : ℕ) (key : CheckpointKey) (token : OwnershipToken)
      → get_elem? o.issued l ≡ some (key, token)
      → token.generation ≤ generation o key
  pub unique :
      (i j : ℕ) (key : CheckpointKey) (t u : OwnershipToken)
      → get_elem? o.issued i ≡ some (key, t)
      → get_elem? o.issued j ≡ some (key, u)
      → t.generation ≡ u.generation
      → i ≡ j

-- A lookup in a list with one more member.
pub get_elem?-snoc {ℓ} :
    {A : Type ℓ} (xs : List A) (x y : A) (i : ℕ)
    → get_elem? (xs ++ x ∷ []) i ≡ some y
    → (get_elem? xs i ≡ some y) ⊎ ((i ≡ length xs) × (x ≡ y))
get_elem?-snoc [] x y zero h = inr (refl, cc)
get_elem?-snoc [] x y (suc i) h = cc
get_elem?-snoc (z ∷ xs) x y zero h = inl h
get_elem?-snoc (z ∷ xs) x y (suc i) h = elim (get_elem?-snoc xs x y i h) [
  | inl there ↦ inl there
  | inr (last, same) ↦ inr (omega (arith, last), same)
]

pub get_elem?-snoc_last {ℓ} :
    {A : Type ℓ} (xs : List A) (x : A) → get_elem? (xs ++ x ∷ []) (length xs) ≡ some x
get_elem?-snoc_last [] x = refl
get_elem?-snoc_last (y ∷ xs) x = get_elem?-snoc_last xs x

pub get_elem?-snoc_old {ℓ} :
    {A : Type ℓ} (xs : List A) (x y : A) (i : ℕ)
    → get_elem? xs i ≡ some y
    → get_elem? (xs ++ x ∷ []) i ≡ some y
get_elem?-snoc_old [] x y i h = cc
get_elem?-snoc_old (z ∷ xs) x y zero h = h
get_elem?-snoc_old (z ∷ xs) x y (suc i) h = get_elem?-snoc_old xs x y i h

generation-issue :
    (o : Ownership) (key other : CheckpointKey) (owner_id : String)
    → generation (issue key owner_id o) other
      ≡ (if key == other then generation o key + 1 else generation o other)
generation-issue o key other owner_id =
    ap number (Dict.get-put o.generations key other (generation o key + 1)) ∙ ground arith

clear-IsValid : (o : Ownership) → OwnershipIsValid o → OwnershipIsValid (clear o)
unfolding Dict.get
clear-IsValid o v = record {
  held = λ key l h. absurd (ground arith);
  kept = λ key token h. absurd (ground arith);
  numbered = v.numbered;
  unique = v.unique;
}

drop_key-IsValid :
    (key : CheckpointKey) (o : Ownership) → OwnershipIsValid o → OwnershipIsValid (drop_key key o)
drop_key-IsValid key o v = record {
  held = λ other l h.
      let there : Dict.get o.holders other ≡ some l =
        ground (arith, Dict.get-remove o.holders key other) in
      let (token, object, owned) = v.held other l there in
      (
        token,
        object,
        ground (arith, Dict.get-remove o.holders key other, Dict.get-remove o.tokens key other),
      );
  kept = λ other token h.
      let there : Dict.get o.tokens other ≡ some token =
        ground (arith, Dict.get-remove o.tokens key other) in
      let (l, holds) = v.kept other token there in
      (l, ground (arith, Dict.get-remove o.holders key other, Dict.get-remove o.tokens key other));
  numbered = v.numbered;
  unique = v.unique;
}

generation-le-issue :
    (o : Ownership) (key other : CheckpointKey) (owner_id : String)
    → generation o other ≤ generation (issue key owner_id o) other
generation-le-issue o key other owner_id =
    ground (arith, generation-issue o key other owner_id, key_beq_iff key other)

generation-issue_self :
    (o : Ownership) (key : CheckpointKey) (owner_id : String)
    → generation (issue key owner_id o) key ≡ generation o key + 1
generation-issue_self o key owner_id = rw (generation-issue, ==_refl key) refl

issue-held :
    (key other : CheckpointKey) (owner_id : String) (o : Ownership) (l : ℕ)
    → OwnershipIsValid o
    → Dict.get (issue key owner_id o).holders other ≡ some l
    → (token : OwnershipToken) × (get_elem? (issue key owner_id o).issued l ≡ some (other, token))
      × (Dict.get (issue key owner_id o).tokens other ≡ some token)
issue-held key other owner_id o l v h =
    let token = next_token o key owner_id in
    elim (Bool-cases (key == other)) [
      | inl same ↦
          let here = (key_beq_iff key other).0 same in
          let last : length o.issued ≡ l =
            ground (arith, Dict.get-put o.holders key other (length o.issued)) in
          subst
            (λ k.
              (x : OwnershipToken) × (get_elem? (issue key owner_id o).issued l ≡ some (k, x))
              × (Dict.get (issue key owner_id o).tokens k ≡ some x))
            here
            (
              token,
              rw (← last) (get_elem?-snoc_last o.issued (key, token)),
              Dict.get-put_self o.tokens key token,
            )
      | inr different ↦
          let there : Dict.get o.holders other ≡ some l =
            ground (arith, Dict.get-put o.holders key other (length o.issued)) in
          let (t, object, owned) = v.held other l there in
          (
            t,
            get_elem?-snoc_old o.issued (key, token) (other, t) l object,
            rw (Dict.get-put, different) owned,
          )
    ]

issue-kept :
    (key other : CheckpointKey) (owner_id : String) (o : Ownership) (token : OwnershipToken)
    → OwnershipIsValid o
    → Dict.get (issue key owner_id o).tokens other ≡ some token
    → (l : ℕ) × (Dict.get (issue key owner_id o).holders other ≡ some l)
issue-kept key other owner_id o token v h = elim (Bool-cases (key == other)) [
  | inl same ↦ (length o.issued, rw (Dict.get-put, same) refl)
  | inr different ↦
      let there : Dict.get o.tokens other ≡ some token =
        ground (arith, Dict.get-put o.tokens key other (next_token o key owner_id)) in
      let (l, holds) = v.kept other token there in (l, rw (Dict.get-put, different) holds)
]

issue-numbered :
    (key other : CheckpointKey) (owner_id : String) (o : Ownership) (l : ℕ) (token : OwnershipToken)
    → OwnershipIsValid o
    → get_elem? (issue key owner_id o).issued l ≡ some (other, token)
    → token.generation ≤ generation (issue key owner_id o) other
issue-numbered key other owner_id o l token v h =
    elim (get_elem?-snoc o.issued (key, next_token o key owner_id) (other, token) l h) [
      | inl there ↦
          omega (arith, v.numbered l other token there, generation-le-issue o key other owner_id)
      | inr (last, same) ↦
          let here : key ≡ other = cc in
          let new : next_token o key owner_id ≡ token = cc in
          omega (
            arith,
            ap (λ (t : OwnershipToken). t.generation) new,
            generation-issue_self o key owner_id,
            ap (generation (issue key owner_id o)) here,
          )
    ]

-- An old lease and the new one of the same key differ in their generations.
issue-new :
    (key other : CheckpointKey) (owner_id : String) (o : Ownership) (l : ℕ) (t u : OwnershipToken)
    → OwnershipIsValid o
    → get_elem? o.issued l ≡ some (other, t)
    → ◌≡◌ {A = CheckpointKey × OwnershipToken} (key, next_token o key owner_id) (other, u)
    → t.generation ≡ u.generation
    → ⊥
issue-new key other owner_id o l t u v there same equal =
    let here : key ≡ other = cc in
    let new : next_token o key owner_id ≡ u = cc in
    omega (
      arith,
      equal,
      v.numbered l other t there,
      ap (λ (x : OwnershipToken). x.generation) new,
      ap (generation o) here,
    )

issue_unique :
    (key other : CheckpointKey) (owner_id : String) (o : Ownership) (i j : ℕ) (t u : OwnershipToken)
    → OwnershipIsValid o
    → get_elem? (issue key owner_id o).issued i ≡ some (other, t)
    → get_elem? (issue key owner_id o).issued j ≡ some (other, u)
    → t.generation ≡ u.generation
    → i ≡ j
issue_unique key other owner_id o i j t u v h k equal =
    let member : CheckpointKey × OwnershipToken = (key, next_token o key owner_id) in
    elim (get_elem?-snoc o.issued member (other, t) i h) [
      | inl first ↦ elim (get_elem?-snoc o.issued member (other, u) j k) [
        | inl second ↦ v.unique i j other t u first second equal
        | inr (last, same) ↦ absurd (issue-new key other owner_id o i t u v first same equal)
      ]
      | inr (first, same) ↦ elim (get_elem?-snoc o.issued member (other, u) j k) [
        | inl second ↦ absurd (issue-new key other owner_id o j u t v second same (sym equal))
        | inr (last, again) ↦ omega (arith, first, last)
      ]
    ]

issue-IsValid :
    (key : CheckpointKey) (owner_id : String) (o : Ownership)
    → OwnershipIsValid o
    → OwnershipIsValid (issue key owner_id o)
issue-IsValid key owner_id o v = record {
  held = λ other l h. issue-held key other owner_id o l v h;
  kept = λ other token h. issue-kept key other owner_id o token v h;
  numbered = λ l other token h. issue-numbered key other owner_id o l token v h;
  unique = λ i j other t u h k equal. issue_unique key other owner_id o i j t u v h k equal;
}

Move-IsValid : {o p : Ownership} → Move o p → OwnershipIsValid o → OwnershipIsValid p
Move-IsValid (issued_to o key owner_id) v = issue-IsValid key owner_id o v
Move-IsValid (dropped o key) v = drop_key-IsValid key o v
Move-IsValid (cleared o) v = clear-IsValid o v

pub Moves-IsValid : {o p : Ownership} → Moves o p → OwnershipIsValid o → OwnershipIsValid p
Moves-IsValid here v = v
Moves-IsValid (next r m) v = Move-IsValid m (Moves-IsValid r v)

Move-generation :
    {o p : Ownership} → Move o p → (key : CheckpointKey) → generation o key ≤ generation p key
Move-generation (issued_to o other owner_id) key = generation-le-issue o other key owner_id
Move-generation (dropped o other) key = omega arith
Move-generation (cleared o) key = omega arith

-- Generations never go back.
pub Moves-generation :
    {o p : Ownership} → Moves o p → (key : CheckpointKey) → generation o key ≤ generation p key
Moves-generation here key = omega arith
Moves-generation (next r m) key = omega (arith, Moves-generation r key, Move-generation m key)
