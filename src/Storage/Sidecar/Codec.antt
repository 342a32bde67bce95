-- ===== src/Storage/Sidecar/Codec.antt =====
-- The blob of tokens in a row of src/cacheblend_gpt_oss/storage/sidecar.py is decoded to the tokens.
use cacheblend_gpt_oss.Prelude.{
  ℕ, ◌+◌, ◌*◌, ◌≤◌, ◌<◌, ◌≡◌, refl, ap, pos, true, false, List, [], ◌∷◌, take, drop, ok, length,
  All, arith, ltb, ◌==◌, refuted,
}
use cacheblend_gpt_oss.Planner.Models.{max_token_id, tokens_discrete}
use cacheblend_gpt_oss.Planner.Fingerprint.{pack_u64, pack_all}
use cacheblend_gpt_oss.Planner.Fingerprint.Injective.{length-pack_all}
use cacheblend_gpt_oss.Storage.Sidecar.{
  unpack_u64, unpack_all, encode_token_ids, decode_token_ids, token_blob_magic,
  max_tokens_per_record,
}

unpack-pack : (n : ℕ) → n ≤ max_token_id → unpack_u64 (pack_u64 n) ≡ n
unfolding pack_u64 unpack_u64
unpack-pack n h = omega arith

unpack_all-pack_all : (ts : List ℕ) → All (λ t. t ≤ max_token_id) ts → unpack_all (pack_all ts) ≡ ts
unfolding unpack_all pack_all pack_u64
unpack_all-pack_all [] h = refl
unpack_all-pack_all (t ∷ ts) h =
    let head : unpack_u64 (pack_u64 t) ≡ t = unpack-pack t h.0 in
    cc (head, unpack_all-pack_all ts h.1)

length-encode : (ids : List ℕ) → length (encode_token_ids ids) ≡ 12 + length ids * 8
unfolding encode_token_ids pack_u64
length-encode ids = omega (arith, length-pack_all ids)

-- A blob of tokens is decoded to the tokens.
pub decode-encode :
    (ids : List ℕ)
    → 0 < length ids
    → length ids ≤ max_tokens_per_record
    → All (λ t. t ≤ max_token_id) ids
    → decode_token_ids (encode_token_ids ids) (pos (length ids)) ≡ ok ids
unfolding decode_token_ids
decode-encode ids n h b =
    let long = length-encode ids in
    let short : ltb (length (encode_token_ids ids)) 12 ≡ false = ground (arith, long) in
    let count : unpack_u64 (take 8 (drop 4 (encode_token_ids ids))) ≡ length ids =
      unfold encode_token_ids pack_u64 in unpack-pack (length ids) (omega arith) in
    let payload : unpack_all (drop 12 (encode_token_ids ids)) ≡ ids =
      unfold encode_token_ids pack_u64 in unpack_all-pack_all ids b in
    let magic : take 4 (encode_token_ids ids) ≡ token_blob_magic =
      unfold encode_token_ids pack_u64 in refl in
    let same_count : (length ids == length ids) ≡ true = ground arith in
    let some_tokens : (length ids == 0) ≡ false = ground arith in
    let few_tokens : ltb max_tokens_per_record (length ids) ≡ false = ground arith in
    let fits : (length (encode_token_ids ids) == 12 + length ids * 8) ≡ true =
      ground (arith, long) in
    rw
      (
        short,
        refuted (tokens_discrete (take 4 (encode_token_ids ids)) token_blob_magic) magic,
        count,
        same_count,
        some_tokens,
        few_tokens,
        fits,
      )
      (ap ok payload)
