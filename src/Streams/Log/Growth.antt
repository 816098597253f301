-- ===== src/Streams/Log/Growth.antt =====
-- What a log keeps of the log before it: its streams, their definitions, records and producers.
use mathlib.Core.List.{Memᴰ}
use mathlib.Core.Path.{subst}
use mathlib.Core.Option.{none-ne-some}
use tori_py.Prelude.Dict
use tori_py.Prelude.{
  ℕ, ◌≤◌, ◌<◌, String, ◌≡◌, refl, sym, ap, none, ◌∙◌, ◌⊎◌, inl, inr, some, arith, get_elem?,
  string_eq, nat_eq, pair_eq, Option-cases, Bool-cases, Result, ◌==◌, set, get_elem?-set_self,
  get_elem?-set_other,
}
use tori_py.Streams.Errors.{Error}
use tori_py.Streams.Models.Records.{StoredRecord}
use tori_py.Streams.Log.{PartitionState, ProducerState, StreamState, Log, when_open, update_stream}

-- A record stays, unless the partition was trimmed past its offset; and each other record has an
-- offset from the old end on.
pub record PartitionGrows (part part' : PartitionState) : Type 0 where
  pub next : part.next_offset ≤ part'.next_offset
  pub earliest : part.earliest_offset ≤ part'.earliest_offset
  pub kept :
      (r : StoredRecord)
      → Memᴰ r part.records
      → Memᴰ r part'.records ⊎ (r.offset < part'.earliest_offset)
  pub added :
      (r : StoredRecord)
      → Memᴰ r part'.records
      → Memᴰ r part.records ⊎ (part.next_offset ≤ r.offset)

-- A producer's entry stays, or gives way to one with a higher publishing id.
abbrev pub Advances : ProducerState → ProducerState → Type 0
Advances p p' = (p' ≡ p) ⊎ (p.publishing_id < p'.publishing_id)

pub record StreamGrows (s s' : StreamState) : Type 0 where
  pub definition : s'.definition ≡ s.definition
  pub partitions :
      (i : ℕ) (part : PartitionState)
      → get_elem? s.partitions i ≡ some part
      → (part' : PartitionState) × (get_elem? s'.partitions i ≡ some part')
        × PartitionGrows part part'
  pub producers :
      (key : ℕ × String) (p : ProducerState)
      → Dict.get s.producers key ≡ some p
      → (p' : ProducerState) × (Dict.get s'.producers key ≡ some p') × Advances p p'

abbrev pub Grows : Log → Log → Type 0
Grows log log' =
    (name : String) (s : StreamState)
    → Dict.get log.streams name ≡ some s
    → (s' : StreamState) × (Dict.get log'.streams name ≡ some s') × StreamGrows s s'

pub PartitionGrows-refl : (part : PartitionState) → PartitionGrows part part
PartitionGrows-refl part = record {
  next = omega arith;
  earliest = omega arith;
  kept = λ r. inl;
  added = λ r. inl;
}

PartitionGrows-trans :
    (a b c : PartitionState) → PartitionGrows a b → PartitionGrows b c → PartitionGrows a c
PartitionGrows-trans a b c g h = record {
  next = omega (arith, g.next, h.next);
  earliest = omega (arith, g.earliest, h.earliest);
  kept = λ r m. elim (g.kept r m) [
    | inl there ↦ h.kept r there
    | inr trimmed ↦ inr (omega (arith, h.earliest, trimmed))
  ];
  added = λ r m. elim (h.added r m) [
    | inl there ↦ g.added r there
    | inr late ↦ inr (omega (arith, g.next, late))
  ];
}

Advances-trans : (a b c : ProducerState) → Advances a b → Advances b c → Advances a c
Advances-trans a b c (inl e) h = subst (λ x. Advances x c) e h
Advances-trans a b c (inr m) (inl e) =
    inr (subst (λ x. a.publishing_id < x.publishing_id) (sym e) m)
Advances-trans a b c (inr m) (inr n) = inr (omega (arith, m, n))

pub StreamGrows-refl : (s : StreamState) → StreamGrows s s
StreamGrows-refl s = record {
  definition = refl;
  partitions = λ i part h. (part, h, PartitionGrows-refl part);
  producers = λ key p h. (p, h, inl refl);
}

pub StreamGrows-trans : (a b c : StreamState) → StreamGrows a b → StreamGrows b c → StreamGrows a c
StreamGrows-trans a b c g h = record {
  definition = h.definition ∙ g.definition;
  partitions = λ i part there.
      let (part', there', m) = g.partitions i part there in
      let (part'', there'', n) = h.partitions i part' there' in
      (part'', there'', PartitionGrows-trans part part' part'' m n);
  producers = λ key p there.
      let (p', there', m) = g.producers key p there in
      let (p'', there'', n) = h.producers key p' there' in
      (p'', there'', Advances-trans p p' p'' m n);
}

pub Grows-same : (log log' : Log) → log'.streams ≡ log.streams → Grows log log'
Grows-same log log' same name s h = (s, rw same h, StreamGrows-refl s)

pub Grows-trans : (a b c : Log) → Grows a b → Grows b c → Grows a c
Grows-trans a b c g h name s there =
    let (s', there', m) = g name s there in
    let (s'', there'', n) = h name s' there' in (s'', there'', StreamGrows-trans s s' s'' m n)

pub when_open-Grows {ℓ} :
    {A : Type ℓ} (body : Log → Result Error A × Log) (log : Log)
    → Grows log (body log).1
    → Grows log (when_open body log).1
unfolding when_open
when_open-Grows body log grows = elim (Bool-cases log.closed) [
  | inl closed ↦ simp (closed, when_open) (Grows-same log log refl)
  | inr usable ↦ simp (usable, when_open) grows
]

pub put-Grows :
    (log : Log) (name : String) (s s' : StreamState)
    → Dict.get log.streams name ≡ some s
    → StreamGrows s s'
    → Grows log (record log { streams = Dict.put log.streams name s' })
put-Grows log name s s' known g other o there = elim (Bool-cases (name == other)) [
  | inl same ↦ (
    s',
    rw (Dict.get-put log.streams name other s', same) refl,
    subst (λ x. StreamGrows x s') (ground (arith, string_eq.beq_iff name other)) g,
  )
  | inr different ↦
      (o, rw (Dict.get-put log.streams name other s', different) there, StreamGrows-refl o)
]

-- A stream that is new.
pub put_new-Grows :
    (log : Log) (name : String) (s : StreamState)
    → Dict.get log.streams name ≡ none
    → Grows log (record log { streams = Dict.put log.streams name s })
put_new-Grows log name s unknown other o there = elim (Bool-cases (name == other)) [
  | inl same ↦ absurd (
      none-ne-some o (
        sym (ap (Dict.get log.streams) (sym ((string_eq.beq_iff name other).0 same)) ∙ unknown)
        ∙ there))
  | inr different ↦
      (o, rw (Dict.get-put log.streams name other s, different) there, StreamGrows-refl o)
]

pub update_stream-Grows {ℓ} :
    {A : Type ℓ} (name : String) (body : StreamState → Result Error A × StreamState) (log : Log)
    → ((s : StreamState) → StreamGrows s (body s).1)
    → Grows log (update_stream name body log).1
unfolding update_stream
update_stream-Grows name body log grows = elim (Option-cases (Dict.get log.streams name)) [
  | inl unknown ↦ simp (unknown, update_stream) (Grows-same log log refl)
  | inr (s, known) ↦ simp (known, update_stream) (put-Grows log name s (body s).1 known (grows s))
]

some_part : {a b : PartitionState} → some a ≡ some b → a ≡ b
some_part h = cc

-- One partition is replaced.
pub set-StreamGrows :
    (s : StreamState) (i : ℕ) (part part' : PartitionState)
    → get_elem? s.partitions i ≡ some part
    → PartitionGrows part part'
    → StreamGrows s (record s { partitions = set s.partitions i part' })
set-StreamGrows s i part part' present g = record {
  definition = refl;
  partitions = λ j other there. elim (Bool-cases (i == j)) [
    | inl same ↦
        let here : i ≡ j = (nat_eq.beq_iff i j).0 same in
        let old : part ≡ other =
          some_part
            (sym present ∙ subst (λ k. get_elem? s.partitions k ≡ some other) (sym here) there) in
        (
          part',
          subst (λ k. get_elem? (set s.partitions i part') k ≡ some part') here
              (get_elem?-set_self s.partitions i part' part present),
          subst (λ x. PartitionGrows x part') old g,
        )
    | inr apart ↦ (
      other,
      get_elem?-set_other s.partitions i j part' (λ e. ground (arith, nat_eq.beq_iff i j)) ∙ there,
      PartitionGrows-refl other,
    )
  ];
  producers = λ key p h. (p, h, inl refl);
}
