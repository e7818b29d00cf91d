-- ===== src/Audit/Proofs/Line.antt =====
-- What a line that passes the check of audit.py holds.
use universal_agent_middlewa.Prelude.{
  subst, Bool-cases, inl, inr, ==→eq, ℕ, suc, ◌≡◌, refl, sym, ap, ◌∙◌, String, true, false, Option,
  none, some, List, ◌∷◌, ◌==◌, str_eq, str_eq_iff, arith,
}
use universal_agent_middlewa.Audit.Chain.{
  JsonValue, json_null, json_bool, json_int, json_negative, json_float, json_str, json_nested,
  Object, Codec, Line, Progress, Verdict, sound, broken, without_hash, previous_is, version_of,
  advance, check_chain, check_sequence, check_version, check_digest, check_hash, check_object,
  check_line, and_then, verify_stream,
}

-- The record of a line after `p`, which leaves `q`.
pub record IsLinked (codec : Codec) (p : Progress) (l : Line) (q : Progress) : Type 0 where
  pub object : Object
  pub text : String
  pub ended : l.ended ≡ true
  pub parsed : codec.loads l.text ≡ some object
  pub hashed : object "record_hash" ≡ some (json_str q.previous)
  pub previous : without_hash object "previous_hash" ≡ some (json_str p.previous)
  pub canonical : codec.canonical (without_hash object) ≡ some text
  pub digest : codec.sha256_hex text ≡ q.previous
  pub count : q.count ≡ suc p.count
  pub version : version_of codec (without_hash object "schema_version") ≡ q.version
  pub sequence : q.version ≡ some 2 → without_hash object "sequence" ≡ some (json_int q.count)
  pub chain :
      q.version ≡ some 2
      → (c : String) × (without_hash object "chain_id" ≡ some (json_str c))
        × (q.chain_id ≡ some c)
        × (str_eq c "" ≡ false)
  pub has_version : (v : ℕ) × (q.version ≡ some v)

previous_is-eq :
    (s : String) (v : Option JsonValue) → previous_is s v ≡ true → v ≡ some (json_str s)
unfolding previous_is
previous_is-eq s (some (json_str t)) h = ground (arith, str_eq_iff t s)
previous_is-eq s none h = cc
previous_is-eq s (some json_null) h = cc
previous_is-eq s (some (json_bool b)) h = cc
previous_is-eq s (some (json_int n)) h = cc
previous_is-eq s (some (json_negative n)) h = cc
previous_is-eq s (some (json_float t)) h = cc
previous_is-eq s (some (json_nested t)) h = cc

-- What passes `check_version` leaves.
record Advanced (p : Progress) (body : Object) (claimed : String) (v : Option ℕ) (q : Progress)
    : Type 0 where
  previous : q.previous ≡ claimed
  count : q.count ≡ suc p.count
  version : q.version ≡ v
  sequence : q.version ≡ some 2 → body "sequence" ≡ some (json_int q.count)
  chain :
      q.version ≡ some 2
      → (c : String) × (body "chain_id" ≡ some (json_str c))
        × (q.chain_id ≡ some c)
        × (str_eq c "" ≡ false)
  has_version : (u : ℕ) × (q.version ≡ some u)

checked_chain :
    (p : Progress) (claimed : String) (v : Option JsonValue) {q : Progress}
    → check_chain p claimed v ≡ sound q
    → (c : String) × (v ≡ some (json_str c))
      × (str_eq c "" ≡ false)
      × (q ≡ advance p claimed 2 (some c))
unfolding check_chain
checked_chain p claimed (some (json_str c)) h = (c, refl, ground arith, ground arith)
checked_chain p claimed none h = cc
checked_chain p claimed (some json_null) h = cc
checked_chain p claimed (some (json_bool b)) h = cc
checked_chain p claimed (some (json_int n)) h = cc
checked_chain p claimed (some (json_negative n)) h = cc
checked_chain p claimed (some (json_float t)) h = cc
checked_chain p claimed (some (json_nested t)) h = cc

checked_sequence :
    (p : Progress) (claimed : String) (v chain : Option JsonValue) {q : Progress}
    → check_sequence p claimed v chain ≡ sound q
    → (v ≡ some (json_int (suc p.count))) × (check_chain p claimed chain ≡ sound q)
unfolding check_sequence
checked_sequence p claimed (some (json_int n)) chain h = ground arith
checked_sequence p claimed none chain h = cc
checked_sequence p claimed (some json_null) chain h = cc
checked_sequence p claimed (some (json_bool b)) chain h = cc
checked_sequence p claimed (some (json_str n)) chain h = cc
checked_sequence p claimed (some (json_negative n)) chain h = cc
checked_sequence p claimed (some (json_float t)) chain h = cc
checked_sequence p claimed (some (json_nested t)) chain h = cc

not_two : (v : ℕ) → (v == 2) ≡ false → some v ≡ some 2 → ⊥
not_two v other two = ground arith

module _ (codec : Codec) where
  of_version_two :
      (p : Progress) (body : Object) (claimed : String) {q : Progress}
      → check_sequence p claimed (body "sequence") (body "chain_id") ≡ sound q
      → Advanced p body claimed (some 2) q
  unfolding advance
  of_version_two p body claimed {q} h =
      let (at_sequence, rest) = checked_sequence p claimed (body "sequence") (body "chain_id") h in
      let (c, at_chain, nonempty, moved) = checked_chain p claimed (body "chain_id") rest in
      record {
        previous = ap (λ x. x.previous) moved;
        count = ap (λ x. x.count) moved;
        version = ap (λ x. x.version) moved;
        sequence = λ two. at_sequence ∙ ap (λ (x : Progress). some (json_int x.count)) (sym moved);
        chain = λ two. (c, at_chain, ap (λ x. x.chain_id) moved, nonempty);
        has_version = (2, ap (λ x. x.version) moved);
      }

  of_version_one :
      (p : Progress) (body : Object) (claimed : String) (v : ℕ) {q : Progress}
      → (v == 2) ≡ false
      → advance p claimed v p.chain_id ≡ q
      → Advanced p body claimed (some v) q
  unfolding advance
  of_version_one p body claimed v {q} other moved =
      let at_version = ap (λ (x : Progress). x.version) (sym moved) in
      record {
        previous = ap (λ x. x.previous) (sym moved);
        count = ap (λ x. x.count) (sym moved);
        version = at_version;
        sequence = λ two. absurd (not_two v other (sym at_version ∙ two));
        chain = λ two. absurd (not_two v other (sym at_version ∙ two));
        has_version = (v, at_version);
      }

  checked_version :
      (p : Progress) (body : Object) (claimed : String) (v : Option ℕ) {q : Progress}
      → check_version codec p body claimed v ≡ sound q
      → Advanced p body claimed v q
  unfolding check_version
  checked_version p body claimed none h = cc
  checked_version p body claimed (some v) {q} h = elim (Bool-cases (v == 2)) [
    | inl two ↦
        let eq : v ≡ 2 = ==→eq v 2 two in
        subst (λ u. Advanced p body claimed (some u) q) (sym eq)
          (of_version_two p body claimed (ground arith))
    | inr other ↦ of_version_one p body claimed v other (ground arith)
  ]

  checked_digest :
      (p : Progress) (body : Object) (claimed : String) (t : Option String) {q : Progress}
      → check_digest codec p body claimed t ≡ sound q
      → (text : String) × (t ≡ some text)
        × (codec.sha256_hex text ≡ claimed)
        × Advanced p body claimed (version_of codec (body "schema_version")) q
  unfolding check_digest
  checked_digest p body claimed none h = cc
  checked_digest p body claimed (some text) h =
      let same : codec.sha256_hex text ≡ claimed =
        ground (arith, str_eq_iff (codec.sha256_hex text) claimed) in
      (
        text,
        refl,
        same,
        checked_version p body claimed (version_of codec (body "schema_version"))
            (ground (arith, str_eq_iff (codec.sha256_hex text) claimed)),
      )

  checked_hash :
      (p : Progress) (body : Object) (v : Option JsonValue) {q : Progress}
      → check_hash codec p body v ≡ sound q
      → (claimed : String) × (v ≡ some (json_str claimed))
        × (previous_is p.previous (body "previous_hash") ≡ true)
        × (check_digest codec p body claimed (codec.canonical body) ≡ sound q)
  unfolding check_hash
  checked_hash p body (some (json_str claimed)) h = (claimed, refl, ground arith, ground arith)
  checked_hash p body none h = cc
  checked_hash p body (some json_null) h = cc
  checked_hash p body (some (json_bool b)) h = cc
  checked_hash p body (some (json_int n)) h = cc
  checked_hash p body (some (json_negative n)) h = cc
  checked_hash p body (some (json_float t)) h = cc
  checked_hash p body (some (json_nested t)) h = cc

  checked_object :
      (p : Progress) (l : Line) (o : Option Object) {q : Progress}
      → l.ended ≡ true
      → codec.loads l.text ≡ o
      → check_object codec p o ≡ sound q
      → IsLinked codec p l q
  unfolding check_object
  checked_object p l none ended parsed h = cc
  checked_object p l (some o) ended parsed h =
      let (claimed, hashed, prev, h1) = checked_hash p (without_hash o) (o "record_hash") h in
      let (text, canonical, digest, a) =
        checked_digest p (without_hash o) claimed (codec.canonical (without_hash o)) h1 in
      record {
        object = o;
        text = text;
        ended = ended;
        parsed = parsed;
        hashed = hashed ∙ ap (λ s. some (json_str s)) (sym a.previous);
        previous = previous_is-eq p.previous (without_hash o "previous_hash") prev;
        canonical = canonical;
        digest = digest ∙ sym a.previous;
        count = a.count;
        version = sym a.version;
        sequence = a.sequence;
        chain = a.chain;
        has_version = a.has_version;
      }

  pub check_line-IsLinked :
      (p : Progress) (l : Line) {q : Progress}
      → check_line codec p l ≡ sound q
      → IsLinked codec p l q
  unfolding check_line
  check_line-IsLinked p l h =
      checked_object p l (codec.loads l.text) (ground arith) refl (ground arith)

  -- The last line of a file that passes the check, and the check of the file before it.
  pub verify_stream-IsLinked :
      (l : Line) (older : List Line) {q : Progress}
      → verify_stream codec (l ∷ older) ≡ sound q
      → (p : Progress) × (verify_stream codec older ≡ sound p) × IsLinked codec p l q
  unfolding verify_stream and_then
  verify_stream-IsLinked l older h = after (verify_stream codec older) refl h
    where
      after :
          (v : Verdict) {q : Progress}
          → verify_stream codec older ≡ v
          → and_then codec l v ≡ sound q
          → (p : Progress) × (verify_stream codec older ≡ sound p) × IsLinked codec p l q
      after (broken f p) e h = cc
      after (sound p) e h = (p, e, check_line-IsLinked p l h)
