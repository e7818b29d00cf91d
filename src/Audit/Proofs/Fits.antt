-- ===== src/Audit/Proofs/Fits.antt =====
-- When a record of audit.py fits behind a chain, and that what `append` takes from the last line does.
use universal_agent_middlewa.Prelude.{
  ℕ, suc, ◌≡◌, ◌⊎◌, inl, inr, refl, sym, ap, ◌∙◌, subst, fun_ext, String, Bool, true, false, none,
  some, List, [], ◌∷◌, str_eq, str_eq_iff, str_eq_self, arith, length, codes, if◌then◌else◌,
}
use universal_agent_middlewa.Audit.Chain.{
  Object, JsonValue, json_str, json_int, Codec, Line, Progress, sound, without_hash, verify_stream,
  genesis, check_line, version_of, advance, same_version, same_chain, previous_is, check_hash,
  check_digest, check_version, check_sequence, check_chain, check_object,
}
use universal_agent_middlewa.Audit.Log.{
  refuses_chain, Log, System, Entry, no_tail, tail, set_field, record_of, links, next_sequence,
  tail_of, tail_object, tail_hash, tail_digest,
}
use universal_agent_middlewa.Audit.Proofs.Line.{IsLinked, verify_stream-IsLinked}

-- The links of a record that fits behind `p`.
pub record Fits (p : Progress) (c n h : JsonValue) (chain : String) : Type 0 where
  pub chain_is : c ≡ json_str chain
  pub sequence_is : n ≡ json_int (suc p.count)
  pub previous_is : h ≡ json_str p.previous
  pub nonempty : str_eq chain "" ≡ false
  pub continues :
      ((p.count ≡ 0) × (p.version ≡ none)) ⊎ ((p.version ≡ some 2) × (p.chain_id ≡ some chain))

sound-injective : {p q : Progress} → sound p ≡ sound q → p ≡ q
sound-injective h = cc

module _ (codec : Codec) where
  pub hash_set :
      (r : Object) (s : String)
      → set_field r "record_hash" (json_str s) "record_hash" ≡ some (json_str s)
  unfolding set_field
  hash_set r s = refl

  hash_removed :
      (r : Object) (s : String)
      → r "record_hash" ≡ none
      → without_hash (set_field r "record_hash" (json_str s)) ≡ r
  unfolding set_field without_hash
  hash_removed r s absent = fun_ext λ key. at key (str_eq key "record_hash") refl
    where
      at :
          (key : String) (b : Bool)
          → str_eq key "record_hash" ≡ b
          → (if b then none else if b then some (json_str s) else r key) ≡ r key
      at key true e = sym (ap r ((str_eq_iff key "record_hash").0 e) ∙ absent)
      at key false e = refl

  -- A record whose fields fit passes the check.
  fitting-check_hash :
      (p : Progress) (body : Object) (chain text : String)
      → body "previous_hash" ≡ some (json_str p.previous)
      → body "schema_version" ≡ some (json_int 2)
      → body "sequence" ≡ some (json_int (suc p.count))
      → body "chain_id" ≡ some (json_str chain)
      → str_eq chain "" ≡ false
      → ((p.count ≡ 0) × (p.version ≡ none)) ⊎ ((p.version ≡ some 2) × (p.chain_id ≡ some chain))
      → codec.canonical body ≡ some text
      → length (codes (codec.sha256_hex text)) ≡ 64
      → check_hash codec p body (some (json_str (codec.sha256_hex text)))
        ≡ sound (advance p (codec.sha256_hex text) 2 (some chain))
  unfolding check_hash previous_is check_digest check_version version_of check_sequence check_chain
      same_version same_chain
  fitting-check_hash p body chain text prev two sequence at_chain nonempty first canonical size =
      rw
        (
          size,
          prev,
          canonical,
          two,
          sequence,
          at_chain,
          nonempty,
          str_eq_self p.previous,
          str_eq_self (codec.sha256_hex text),
        )
        (elim first [
          | inl (zero_count, no_version) ↦ ground arith
          | inr (v, c) ↦ rw (v, c, str_eq_self chain) (ground arith)
        ])

  -- The line of a record that fits passes the check.
  pub record-check_line :
      (p : Progress) (log : Log) (os : System) (e : Entry) (c n h : JsonValue)
      (chain text bytes : String)
      → Fits p c n h chain
      → codec.canonical (record_of codec log os e (c, n, h)) ≡ some text
      → length (codes (codec.sha256_hex text)) ≡ 64
      → codec.loads bytes
        ≡ some (
            set_field
              (record_of codec log os e (c, n, h))
              "record_hash"
              (json_str (codec.sha256_hex text)))
      → check_line codec p (record { text = bytes; ended = true })
        ≡ sound (advance p (codec.sha256_hex text) 2 (some chain))
  unfolding check_line check_object record_of
  record-check_line p log os e c n h chain text bytes fits canonical size parsed =
      rw
        (
          parsed,
          hash_set (record_of codec log os e (c, n, h)) (codec.sha256_hex text),
          hash_removed (record_of codec log os e (c, n, h)) (codec.sha256_hex text) refl,
        )
        (fitting-check_hash p (record_of codec log os e (c, n, h)) chain text
          (ap some fits.previous_is) refl (ap some fits.sequence_is) (ap some fits.chain_is)
          fits.nonempty fits.continues canonical size)

  -- What `_tail` finds after a check of the whole file, whose chain has version 2.
  tail_of-linked :
      (l : Line) (older : List Line) (q p : Progress) (k : IsLinked codec q l p)
      → p.version ≡ some 2
      → tail_of codec (l ∷ older) ≡ tail k.object
  unfolding tail_of tail_object tail_hash tail_digest without_hash
  tail_of-linked l older q p k two =
      let version : version_of codec (k.object "schema_version") ≡ some 2 = k.version ∙ two in
      rw (k.ended, k.parsed, k.hashed, k.canonical, k.digest, str_eq_self p.previous, version) refl

  linked-Fits :
      (l : Line) (older : List Line) (os : System) (q p : Progress) (k : IsLinked codec q l p)
      {c n h : JsonValue}
      → p.version ≡ some 2
      → links codec (tail k.object) os ≡ some (c, n, h)
      → (chain : String) × Fits p c n h chain
  unfolding links next_sequence without_hash
  linked-Fits l older os q p k {c} {n} {h} two found =
      let (chain, at_chain, holds, nonempty) = k.chain two in
      let seen : k.object "chain_id" ≡ some (json_str chain) = at_chain in
      let sequence : k.object "sequence" ≡ some (json_int p.count) = k.sequence two in
      let computed : links codec (tail k.object) os
          ≡ some (json_str chain, json_int (suc p.count), json_str p.previous) =
        rw (seen, sequence, k.hashed) refl in
      let same = sym computed ∙ found in
      (
        chain,
        record {
          chain_is = cc;
          sequence_is = cc;
          previous_is = cc;
          nonempty = nonempty;
          continues = inr (two, holds);
        },
      )

  first-Fits :
      (os : System) {c n h : JsonValue}
      → str_eq os.new_chain "" ≡ false
      → links codec no_tail os ≡ some (c, n, h)
      → Fits genesis c n h os.new_chain
  unfolding links
  first-Fits os nonempty found = record {
    chain_is = cc;
    sequence_is = cc;
    previous_is = cc;
    nonempty = nonempty;
    continues = inl (refl, refl);
  }

  version_two :
      (p : Progress)
      → ((v : ℕ) × (p.version ≡ some v))
      → refuses_chain (sound p) ≡ none
      → p.version ≡ some 2
  unfolding refuses_chain
  version_two p (v, e) h = ground arith

  -- The links that `append` takes behind a file that passed its check fit.
  pub links-Fits :
      (lines : List Line) (os : System) (p : Progress) {c n h : JsonValue}
      → verify_stream codec lines ≡ sound p
      → refuses_chain (sound p) ≡ none
      → str_eq os.new_chain "" ≡ false
      → links codec (tail_of codec lines) os ≡ some (c, n, h)
      → (chain : String) × Fits p c n h chain
  unfolding tail_of verify_stream
  links-Fits [] os p {c} {n} {h} checked accepted nonempty found = (
    os.new_chain,
    subst (λ x. Fits x c n h os.new_chain) (sound-injective checked) (first-Fits os nonempty found),
  )
  links-Fits (l ∷ older) os p checked accepted nonempty found =
      let (q, earlier, k) = verify_stream-IsLinked codec l older checked in
      let two = version_two p k.has_version accepted in
      linked-Fits l older os q p k two
        (ap (λ t. links codec t os) (sym (tail_of-linked l older q p k two)) ∙ found)
