-- ===== src/EventSourcing/Schemas/Upcasts.antt =====
-- The loop of `decode` over the upcasters.
use tori_py.Prelude.Dict
use tori_py.Prelude.Dict.{Dict}
use tori_py.Prelude.{
  ℕ, zero, suc, ◌+◌, ◌-◌, String, Bool, string_eq, ◌≤◌, ◌<◌, ◌≡◌, refl, some, List, ok, arith,
  length, nat_eq,
}
use tori_py.Value.{binary}
use tori_py.EventSourcing.Limits.{EventSourcingLimits}
use tori_py.EventSourcing.Schemas.Valid.{RegistryIsValid}
use tori_py.EventSourcing.Schemas.{
  EventSchema, SchemaRegistry, Upcaster, codec_result, validate_payload, upcast_once, upcast,
}

-- The payload after so many versions, from one version on.
abbrev pub migrate : (ℕ → List ℕ → List ℕ) → ℕ → ℕ → List ℕ → List ℕ
migrate change zero version payload = payload
migrate change (suc k) version payload = migrate change k (version + 1) (change version payload)

-- Upcasters that return bytes within the payload limit, one for each version on the way.
abbrev pub Migrates : EventSourcingLimits → Dict ℕ Upcaster → (ℕ → List ℕ → List ℕ) → ℕ → ℕ → Type 0
Migrates limits upcasters change first last =
    (v : ℕ)
    → first ≤ v
    → v < last
    → (up : Upcaster) × (Dict.get upcasters v ≡ some up)
      × ((payload : List ℕ)
          → (up payload ≡ some (binary (change v payload)))
            × (length (change v payload) ≤ limits.max_payload_bytes))

upcast_once_lem :
    (limits : EventSourcingLimits) (up : Upcaster) (steps : ℕ) (payload changed : List ℕ)
    → steps ≤ limits.max_upcast_steps
    → up payload ≡ some (binary changed)
    → length changed ≤ limits.max_payload_bytes
    → upcast_once limits (some up) steps payload ≡ ok changed
unfolding upcast_once codec_result validate_payload
upcast_once_lem limits up steps payload changed few returned short = ground arith

-- The loop applies the upcaster of each version once and in order, within the step limit.
pub upcast_lem :
    (limits : EventSourcingLimits) (upcasters : Dict ℕ Upcaster) (change : ℕ → List ℕ → List ℕ)
    (k version steps : ℕ) (payload : List ℕ)
    → Migrates limits upcasters change version (version + k)
    → steps + k ≤ limits.max_upcast_steps
    → upcast limits upcasters k version steps payload ≡ ok (migrate change k version payload)
unfolding upcast
upcast_lem limits upcasters change zero version steps payload all few = refl
upcast_lem limits upcasters change (suc k) version steps payload all few =
    let (up, there, works) = all version (omega arith) (omega arith) in
    let (returned, short) = works payload in
    let once =
      upcast_once_lem limits up (steps + 1) payload (change version payload) (omega arith) returned
        short in
    simp (there, once)
      (upcast_lem limits upcasters change k (version + 1) (steps + 1) (change version payload)
        (λ v low high. all v (omega arith) (omega arith)) (omega arith))

-- An event of an earlier version, stored under an alias of a well-formed registry, is brought to
-- the current version: the loop of `decode` applies the upcaster of each version from the stored
-- one on, once and in order, where every upcaster of the schema returns bytes within the payload
-- limit. It misses no upcaster, and the step limit stops none.
pub upcast_registered :
    (strip : String → String) (is_printable : String → Bool) {Event : Type 0}
    (r : SchemaRegistry Event) (schema : EventSchema Event) (a : String) (n : ℕ) (payload : List ℕ)
    (change : ℕ → List ℕ → List ℕ)
    → RegistryIsValid strip is_printable r
    → Dict.get r.by_alias a ≡ some schema
    → 1 ≤ n
    → n ≤ schema.version
    → ((v : ℕ) (up : Upcaster)
        → Dict.get schema.upcasters v ≡ some up
        → (p : List ℕ)
        → (up p ≡ some (binary (change v p))) × (length (change v p) ≤ r.limits.max_payload_bytes))
    → upcast r.limits schema.upcasters (schema.version - n) n 0 payload
      ≡ ok (migrate change (schema.version - n) n payload)
upcast_registered strip is_printable r schema a n payload change v found first last returns =
    let (_, _, sound, few) = v.aliased a schema found in
    upcast_lem r.limits schema.upcasters change (schema.version - n) n 0 payload
      (λ w low high.
        let (up, there) = sound.complete w (omega arith) (omega arith) in
        (up, there, returns w up there))
      (omega (arith, few))
