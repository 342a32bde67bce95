-- ===== src/Storage/Naming.antt =====
-- What LMCache's storage name tells apart: `LmcacheBlendTransportConfig` of
-- src/cacheblend_gpt_oss/storage/lmcache_types.py.
use cacheblend_gpt_oss.Prelude.{
  ◌≤◌, ◌≡◌, refl, sym, subst, ◌∙◌, List, [], ◌∷◌, Text, Value, ok, >>=-eq-ok, length, All, All-map,
  arith,
}
use cacheblend_gpt_oss.Planner.Models.{CacheNamespace, max_token_id}
use cacheblend_gpt_oss.Planner.Fingerprint.{canonical_fields}
use cacheblend_gpt_oss.Planner.Fingerprint.Injective.{
  IsShortNamespace, canonical_prefix_injective, append_split,
}
use cacheblend_gpt_oss.Storage.Types.{
  LmcacheServerAttestation, max_namespace_field_bytes, check_field_lengths, validate_attestation,
  validate_namespace, require_plain_int,
}
use cacheblend_gpt_oss.Storage.Transport.{
  Timeout, LmcacheBlendTransportConfig, transport_config, storage_domain, storage_model_input,
}

check_field_lengths-All :
    (fields : List (Text × Text))
    → check_field_lengths fields ≡ ok tt
    → All (λ f. length f.1 ≤ max_namespace_field_bytes) fields
unfolding check_field_lengths
check_field_lengths-All [] h = tt
check_field_lengths-All ((name, value) ∷ fields) h =
    let rest : check_field_lengths fields ≡ ok tt = ground arith in
    (ground arith, check_field_lengths-All fields rest)

short : (f : Text × Text) → length f.1 ≤ max_namespace_field_bytes → length f.1 ≤ max_token_id
short f h = omega arith

validate_namespace-IsShort :
    (ns : CacheNamespace) → validate_namespace ns ≡ ok tt → IsShortNamespace ns
unfolding validate_namespace
validate_namespace-IsShort ns h =
    let lengths : check_field_lengths (canonical_fields ns) ≡ ok tt = ground arith in
    All-map short (canonical_fields ns) (check_field_lengths-All (canonical_fields ns) lengths)

-- A configuration that was built has the namespace, and that one's texts are short.
transport_config-IsShort :
    (ns : CacheNamespace) (attestation : LmcacheServerAttestation) (world worker size : Value)
    (timeout : Timeout) {config : LmcacheBlendTransportConfig}
    → transport_config ns attestation world worker size timeout ≡ ok config
    → (config.namespace ≡ ns) × IsShortNamespace ns
unfolding transport_config
transport_config-IsShort ns attestation world worker size timeout h =
    let (_, _, h₁) = >>=-eq-ok (validate_attestation attestation) _ h in
    let (_, v, h₂) = >>=-eq-ok (validate_namespace ns) _ h₁ in
    let (_, _, h₃) = >>=-eq-ok (require_plain_int world 1) _ h₂ in
    let (_, _, h₄) = >>=-eq-ok (require_plain_int worker 0) _ h₃ in
    let (_, _, h₅) = >>=-eq-ok (require_plain_int size 1) _ h₄ in
    (ground arith, validate_namespace-IsShort ns v)

-- Two configurations that were built hash the same bytes for their storage names only if they have
-- the same namespace: caches of different models, tokenizers or layouts share a name only by a
-- collision of SHA-256.
pub storage_model_input_injective :
    (m n : CacheNamespace) (a b : LmcacheServerAttestation) (w v x : Value) (w' v' x' : Value)
    (t t' : Timeout) {c d : LmcacheBlendTransportConfig}
    → transport_config m a w v x t ≡ ok c
    → transport_config n b w' v' x' t' ≡ ok d
    → storage_model_input c ≡ storage_model_input d
    → m ≡ n
unfolding storage_model_input
storage_model_input_injective m n a b w v x w' v' x' t t' {c} {d} h k e =
    let (p, sm) = transport_config-IsShort m a w v x t h in
    let (q, sn) = transport_config-IsShort n b w' v' x' t' k in
    let (_, e') = append_split storage_domain storage_domain _ _ refl e in
    let (same, _) =
      canonical_prefix_injective c.namespace d.namespace _ _ (subst IsShortNamespace (sym p) sm)
        (subst IsShortNamespace (sym q) sn) e' in
    sym p ∙ same ∙ q
