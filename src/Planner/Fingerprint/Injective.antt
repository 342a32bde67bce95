-- ===== src/Planner/Fingerprint/Injective.antt =====
-- What is hashed for a segment determines its namespace and its tokens:
-- src/cacheblend_gpt_oss/planner/fingerprint.py.
use cacheblend_gpt_oss.Prelude.{
  ℕ, zero, suc, ◌+◌, ◌*◌, ◌/◌, ◌≤◌, ◌<◌, ◌≡◌, refl, ap, sym, ◌∙◌, List, [], ◌∷◌, ◌++◌, Text, length,
  All, arith, ltb, Bool-cases, inl, inr, rev_onto, append_assoc, append-nil, ◌-◌,
}
use cacheblend_gpt_oss.Planner.Models.{CacheNamespace, max_token_id}
use cacheblend_gpt_oss.Planner.Fingerprint.{
  pack_u64, length_prefix, pack_all, canonical_token_bytes, digits_from, decimal, canonical_fields,
  fields_before, fingerprint_input, token_encoding_domain, fingerprint_domain,
}

-- The number that eight bytes stand for.
abbrev unpack : List ℕ → ℕ
unpack (a ∷ b ∷ c ∷ d ∷ e ∷ f ∷ g ∷ h ∷ r) =
    ((((((a * 256 + b) * 256 + c) * 256 + d) * 256 + e) * 256 + f) * 256 + g) * 256 + h
unpack _ = 0

unpack-pack_u64 : (n : ℕ) (r : List ℕ) → n ≤ max_token_id → unpack (pack_u64 n ++ r) ≡ n
unfolding pack_u64
unpack-pack_u64 n r h = omega arith

rest_of : List ℕ → List ℕ
rest_of (a ∷ b ∷ c ∷ d ∷ e ∷ f ∷ g ∷ h ∷ r) = r
rest_of r = r

rest-pack_u64 : (n : ℕ) (r : List ℕ) → rest_of (pack_u64 n ++ r) ≡ r
unfolding pack_u64 rest_of
rest-pack_u64 n r = refl

pub pack_u64_split :
    (m n : ℕ) (r s : List ℕ)
    → m ≤ max_token_id
    → n ≤ max_token_id
    → pack_u64 m ++ r ≡ pack_u64 n ++ s
    → (m ≡ n) × (r ≡ s)
pack_u64_split m n r s h k e = (
  sym (unpack-pack_u64 m r h) ∙ (ap unpack e ∙ unpack-pack_u64 n s k),
  sym (rest-pack_u64 m r) ∙ (ap rest_of e ∙ rest-pack_u64 n s),
)

-- Two lists of one length that begin two equal lists are equal, and so is what follows them.
pub append_split {ℓ} :
    {A : Type ℓ} (xs ys r s : List A)
    → length xs ≡ length ys
    → xs ++ r ≡ ys ++ s
    → (xs ≡ ys) × (r ≡ s)
append_split [] [] r s h e = (refl, e)
append_split [] (y ∷ ys) r s h e = absurd (omega arith)
append_split (x ∷ xs) [] r s h e = absurd (omega arith)
append_split (x ∷ xs) (y ∷ ys) r s h e =
    let (p, q) = append_split xs ys r s (omega arith) (cc) in (cc, q)

pub length_prefix_split :
    (xs ys r s : List ℕ)
    → length xs ≤ max_token_id
    → length ys ≤ max_token_id
    → length_prefix xs ++ r ≡ length_prefix ys ++ s
    → (xs ≡ ys) × (r ≡ s)
unfolding length_prefix
length_prefix_split xs ys r s h k e =
    let e' : pack_u64 (length xs) ++ (xs ++ r) ≡ pack_u64 (length ys) ++ (ys ++ s) =
      sym (append_assoc (pack_u64 (length xs)) xs r)
      ∙ (e ∙ append_assoc (pack_u64 (length ys)) ys s) in
    let (p, q) = pack_u64_split (length xs) (length ys) (xs ++ r) (ys ++ s) h k e' in
    append_split xs ys r s p q

pack_all_injective :
    (xs ys : List ℕ)
    → All (λ t. t ≤ max_token_id) xs
    → All (λ t. t ≤ max_token_id) ys
    → length xs ≡ length ys
    → pack_all xs ≡ pack_all ys
    → xs ≡ ys
unfolding pack_all
pack_all_injective [] [] h k l e = refl
pack_all_injective [] (y ∷ ys) h k l e = absurd (omega arith)
pack_all_injective (x ∷ xs) [] h k l e = absurd (omega arith)
pack_all_injective (x ∷ xs) (y ∷ ys) h k l e =
    let (p, q) = pack_u64_split x y (pack_all xs) (pack_all ys) h.0 k.0 e in
    let r = pack_all_injective xs ys h.1 k.1 (omega arith) q in cc

-- Token ids within 64 bits are determined by their canonical bytes.
pub canonical_token_bytes_injective :
    (xs ys : List ℕ)
    → All (λ t. t ≤ max_token_id) xs
    → All (λ t. t ≤ max_token_id) ys
    → length xs ≤ max_token_id
    → length ys ≤ max_token_id
    → canonical_token_bytes xs ≡ canonical_token_bytes ys
    → xs ≡ ys
unfolding canonical_token_bytes
canonical_token_bytes_injective xs ys h k l m e =
    let (_, e') = append_split token_encoding_domain token_encoding_domain _ _ refl e in
    let (p, q) = pack_u64_split (length xs) (length ys) (pack_all xs) (pack_all ys) l m e' in
    pack_all_injective xs ys h k p q

abbrev digits_value : Text → ℕ
digits_value [] = 0
digits_value (c ∷ cs) = (c - 48) + 10 * digits_value cs

digits_value-digits_from : (fuel n : ℕ) → n < fuel → digits_value (digits_from fuel n) ≡ n
unfolding digits_from
digits_value-digits_from zero n h = absurd (omega arith)
digits_value-digits_from (suc fuel) n h = elim (Bool-cases (ltb n 10)) [
  | inl e ↦ rw e (ground arith)
  | inr e ↦ rw e (ground (arith, digits_value-digits_from fuel (n / 10)))
]

rev_onto-rev_onto {ℓ} :
    {A : Type ℓ} (xs acc ys : List A) → rev_onto (rev_onto xs acc) ys ≡ rev_onto acc (xs ++ ys)
rev_onto-rev_onto [] acc ys = refl
rev_onto-rev_onto (x ∷ xs) acc ys = rev_onto-rev_onto xs (x ∷ acc) ys

digits_of-decimal : (n : ℕ) → digits_value (rev_onto (decimal n) []) ≡ n
unfolding decimal
digits_of-decimal n =
    ap digits_value
      (rev_onto-rev_onto (digits_from (suc n) n) [] [] ∙ append-nil (digits_from (suc n) n))
    ∙ digits_value-digits_from (suc n) n (omega arith)

-- `str` of a number determines it.
pub decimal_injective : (m n : ℕ) → decimal m ≡ decimal n → m ≡ n
decimal_injective m n e =
    sym (digits_of-decimal m) ∙ (ap (λ t. digits_value (rev_onto t [])) e ∙ digits_of-decimal n)

abbrev Field : Type 0
Field = Text × Text

-- No text of the field is longer than a 64-bit length.
abbrev IsShortField : Field → Type 0
IsShortField f = (length f.0 ≤ max_token_id) × (length f.1 ≤ max_token_id)

fields_before_split :
    (fs gs : List Field) (r s : List ℕ)
    → length fs ≡ length gs
    → All IsShortField fs
    → All IsShortField gs
    → fields_before fs r ≡ fields_before gs s
    → (fs ≡ gs) × (r ≡ s)
unfolding fields_before
fields_before_split [] [] r s l h k e = (refl, e)
fields_before_split [] (g ∷ gs) r s l h k e = absurd (omega arith)
fields_before_split (f ∷ fs) [] r s l h k e = absurd (omega arith)
fields_before_split ((a, b) ∷ fs) ((c, d) ∷ gs) r s l h k e =
    let (p, e') =
      length_prefix_split a c (length_prefix b ++ fields_before fs r)
        (length_prefix d ++ fields_before gs s) h.0.0 k.0.0 e in
    let (q, e'') =
      length_prefix_split b d (fields_before fs r) (fields_before gs s) h.0.1 k.0.1 e' in
    let (u, v) = fields_before_split fs gs r s (omega arith) h.1 k.1 e'' in (cc, v)

-- No text of the namespace is longer than a 64-bit length.
abbrev pub IsShortNamespace : CacheNamespace → Type 0
IsShortNamespace ns = All (λ f. length f.1 ≤ max_token_id) (canonical_fields ns)

canonical_fields-IsShortField :
    (ns : CacheNamespace) → IsShortNamespace ns → All IsShortField (canonical_fields ns)
unfolding canonical_fields
canonical_fields-IsShortField ns h = omega arith

canonical_fields_injective :
    (m n : CacheNamespace) → canonical_fields m ≡ canonical_fields n → m ≡ n
unfolding canonical_fields
canonical_fields_injective m n e =
    let v : decimal m.schema_version ≡ decimal n.schema_version = cc in
    let w = decimal_injective m.schema_version n.schema_version v in ground arith

pub length-pack_all : (ts : List ℕ) → length (pack_all ts) ≡ 8 * length ts
unfolding pack_all
length-pack_all [] = refl
length-pack_all (t ∷ ts) = omega (arith, length-pack_all ts)

-- As many tokens as have their canonical bytes counted in 64 bits.
abbrev pub max_hashed_tokens : ℕ
max_hashed_tokens = 1152921504606846976

length-canonical_token_bytes :
    (ts : List ℕ) → length ts ≤ max_hashed_tokens → length (canonical_token_bytes ts) ≤ max_token_id
unfolding canonical_token_bytes
length-canonical_token_bytes ts h = omega (arith, length-pack_all ts)

length-canonical_fields :
    (m n : CacheNamespace) → length (canonical_fields m) ≡ length (canonical_fields n)
unfolding canonical_fields
length-canonical_fields m n = refl

-- The updates for a namespace's fields determine it, and what follows them.
pub canonical_prefix_injective :
    (m n : CacheNamespace) (r s : List ℕ)
    → IsShortNamespace m
    → IsShortNamespace n
    → fields_before (canonical_fields m) r ≡ fields_before (canonical_fields n) s
    → (m ≡ n) × (r ≡ s)
canonical_prefix_injective m n r s sm sn e =
    let (p, q) =
      fields_before_split (canonical_fields m) (canonical_fields n) r s
        (length-canonical_fields m n) (canonical_fields-IsShortField m sm)
        (canonical_fields-IsShortField n sn) e in
    (canonical_fields_injective m n p, q)

-- If the texts of two namespaces and two lists of 64-bit tokens are not absurdly long, what is
-- hashed for the one pair is what is hashed for the other only if the namespaces are the same and
-- so are the tokens: two segments share a fingerprint only by a collision of SHA-256.
pub fingerprint_input_injective :
    (m n : CacheNamespace) (xs ys : List ℕ)
    → IsShortNamespace m
    → IsShortNamespace n
    → All (λ t. t ≤ max_token_id) xs
    → All (λ t. t ≤ max_token_id) ys
    → length xs ≤ max_hashed_tokens
    → length ys ≤ max_hashed_tokens
    → fingerprint_input m xs ≡ fingerprint_input n ys
    → (m ≡ n) × (xs ≡ ys)
unfolding fingerprint_input
fingerprint_input_injective m n xs ys sm sn bx by lx ly e =
    let (_, e') = append_split fingerprint_domain fingerprint_domain _ _ refl e in
    let (p, q) = canonical_prefix_injective m n _ _ sm sn e' in
    let q' = ap (λ t. t ++ []) q in
    let (r, _) =
      length_prefix_split (canonical_token_bytes xs) (canonical_token_bytes ys) [] []
        (length-canonical_token_bytes xs lx) (length-canonical_token_bytes ys ly) q' in
    (p, canonical_token_bytes_injective xs ys bx by (omega arith) (omega arith) r)
