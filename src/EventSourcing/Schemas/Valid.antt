-- ===== src/EventSourcing/Schemas/Valid.antt =====
-- What holds of the schemas of a registry.
use mathlib.Core.Path.{subst}
use tori_py.Prelude.Dict
use tori_py.Prelude.{
  ℕ, suc, ◌+◌, ◌≤◌, ◌<◌, ◌≡◌, String, some, Bool, false, ok, arith, string_eq, nat_eq, ◌==◌,
  Bool-cases, Result-cases, >>=-eq-ok, inl, inr,
}
use tori_py.Value.{Value, int, text}
use tori_py.EventSourcing.Limits.{positive, EventSourcingLimits}
use tori_py.EventSourcing.Schemas.{
  Upcaster, EventSchema, RawSchema, SchemaRegistry, new_registry, check_register, register, freeze,
  alias_value, required, upcasters_value, check_versions, event_schema,
}
use tori_py.EventSourcing.Schemas.Versions.{check_versions_lem}

positive_lem : (v : Value) (n : ℕ) → positive v ≡ ok n → 0 < n
unfolding positive
positive_lem (int (suc m)) n h = ground arith
positive_lem v n h = absurd (ground arith)

alias_value_lem :
    (strip : String → String) (is_printable : String → Bool) (v : Value) (a : String)
    → alias_value strip is_printable v ≡ ok a
    → alias_value strip is_printable (text a) ≡ ok a
unfolding alias_value
alias_value_lem strip is_printable (text s) a h =
    let same : s ≡ a = ground arith in rw (← same) (rw (← same) at h)
alias_value_lem strip is_printable v a h = absurd (ground arith)

module _ (strip : String → String) (is_printable : String → Bool) {Event : Type 0} where
  pub record SchemaIsValid (schema : EventSchema Event) : Type 0 where
    pub named : alias_value strip is_printable (text schema.alias) ≡ ok schema.alias
    pub numbered : 0 < schema.version
    pub complete :
        (v : ℕ)
        → 1 ≤ v
        → v < schema.version
        → (up : Upcaster) × (Dict.get schema.upcasters v ≡ some up)

  -- A schema that its constructor accepts has a stable alias, a positive version, and an upcaster
  -- for each earlier version.
  pub event_schema-IsValid :
      (raw : RawSchema Event) (schema : EventSchema Event)
      → event_schema strip is_printable raw ≡ ok schema
      → SchemaIsValid schema
  unfolding event_schema
  event_schema-IsValid raw schema h =
      let (a, named, h1) = >>=-eq-ok (alias_value strip is_printable raw.alias) _ h in
      let (v, numbered, h2) = >>=-eq-ok (positive raw.version) _ h1 in
      let (t, _, h3) = >>=-eq-ok (required raw.event_type) _ h2 in
      let (e, _, h4) = >>=-eq-ok (required raw.encoder) _ h3 in
      let (d, _, h5) = >>=-eq-ok (required raw.decoder) _ h4 in
      let (u, _, h6) = >>=-eq-ok (upcasters_value raw.upcasters) _ h5 in
      let (_, complete, made) = >>=-eq-ok (check_versions v u) _ h6 in
      let built : EventSchema Event = record {
        alias = a;
        version = v;
        event_type = t;
        encoder = e;
        decoder = d;
        upcasters = u;
      } in
      let same : built ≡ schema = cc in
      subst SchemaIsValid same (record {
        named = alias_value_lem strip is_printable raw.alias a named;
        numbered = positive_lem raw.version v numbered;
        complete = λ n. check_versions_lem v u n complete;
      })

  pub record RegistryIsValid (r : SchemaRegistry Event) : Type 0 where
    pub aliased :
        (a : String) (s : EventSchema Event)
        → Dict.get r.by_alias a ≡ some s
        → (s.alias ≡ a)
          × (Dict.get r.by_class s.event_type ≡ some s)
          × SchemaIsValid s
          × (s.version ≤ r.limits.max_upcast_steps + 1)
    pub classed :
        (c : ℕ) (s : EventSchema Event)
        → Dict.get r.by_class c ≡ some s
        → (s.event_type ≡ c) × (Dict.get r.by_alias s.alias ≡ some s)

  pub new_registry-IsValid : (limits : EventSourcingLimits) → RegistryIsValid (new_registry limits)
  unfolding Dict.get
  new_registry-IsValid limits = record {
    aliased = λ a s h. absurd (ground arith);
    classed = λ c s h. absurd (ground arith);
  }

  pub freeze-IsValid : (r : SchemaRegistry Event) → RegistryIsValid r → RegistryIsValid (freeze r)
  unfolding freeze
  freeze-IsValid r v = record { aliased = v.aliased; classed = v.classed }

  check_register_lem :
      (schema : EventSchema Event) (r : SchemaRegistry Event)
      → check_register schema r ≡ ok tt
      → (schema.version ≤ r.limits.max_upcast_steps + 1)
        × (Dict.has r.by_alias schema.alias ≡ false)
        × (Dict.has r.by_class schema.event_type ≡ false)
  unfolding check_register
  check_register_lem schema r h = (ground arith, ground arith, ground arith)

  -- `register` keeps a registry well formed, whether it accepts the schema or refuses it: each
  -- schema stands under its alias and under its class, has an upcaster for each earlier version,
  -- and no more of them than `decode` takes steps.
  pub register-IsValid :
      (schema : EventSchema Event) (r : SchemaRegistry Event)
      → SchemaIsValid schema
      → RegistryIsValid r
      → RegistryIsValid (register schema r).1
  unfolding register
  register-IsValid schema r sound v = elim (Result-cases (check_register schema r)) [
    | inl (e, refused) ↦ simp (refused, register) v
    | inr (_, accepted) ↦
        let (short, fresh_alias, fresh_class) = check_register_lem schema r accepted in
        simp (accepted, register)
          (record {
            aliased = λ a s h. elim (Bool-cases (schema.alias == a)) [
              | inl same ↦
                  let made : schema ≡ s =
                    ground (arith, Dict.get-put r.by_alias schema.alias a schema) in
                  subst
                    (λ t.
                      (t.alias ≡ a)
                      × (Dict.get (Dict.put r.by_class schema.event_type schema) t.event_type
                          ≡ some t)
                      × SchemaIsValid t
                      × (t.version ≤ r.limits.max_upcast_steps + 1))
                    made
                    (
                      (string_eq.beq_iff schema.alias a).0 same,
                      Dict.get-put_self r.by_class schema.event_type schema,
                      sound,
                      short,
                    )
              | inr other ↦
                  let (named, typed, valid, few) =
                    v.aliased a s (ground (arith, Dict.get-put r.by_alias schema.alias a schema)) in
                  (
                    named,
                    Dict.put_keeps_other r.by_class schema.event_type s.event_type schema s
                        fresh_class typed,
                    valid,
                    few,
                  )
            ];
            classed = λ c s h. elim (Bool-cases (schema.event_type == c)) [
              | inl same ↦
                  let made : schema ≡ s =
                    ground (arith, Dict.get-put r.by_class schema.event_type c schema) in
                  subst
                    (λ t.
                      (t.event_type ≡ c)
                      × (Dict.get (Dict.put r.by_alias schema.alias schema) t.alias ≡ some t))
                    made
                    (
                      (nat_eq.beq_iff schema.event_type c).0 same,
                      Dict.get-put_self r.by_alias schema.alias schema,
                    )
              | inr other ↦
                  let (typed, named) =
                    v.classed c s
                      (ground (arith, Dict.get-put r.by_class schema.event_type c schema)) in
                  (
                    typed,
                    Dict.put_keeps_other r.by_alias schema.alias s.alias schema s fresh_alias named,
                  )
            ];
          })
  ]
