-- ===== src/Audit/Proofs/Binding.antt =====
-- The head hash that audit.py's check reports pins the records of a file.
use universal_agent_middlewa.Prelude.{
  ℕ, suc, ◌≡◌, ◌≢◌, ◌⊎◌, inl, inr, refl, sym, ap, ◌∙◌, String, true, false, Option, none, some,
  List, [], ◌∷◌, map, str_eq, str_eq_iff, Bool-cases, arith,
}
use universal_agent_middlewa.Audit.Chain.{
  Object, json_str, Codec, Line, Progress, sound, without_hash, verify_stream,
}
use universal_agent_middlewa.Audit.Proofs.Line.{IsLinked, verify_stream-IsLinked}

-- The record of a line, without its hash, as it was hashed.
abbrev pub hashed_text : Codec → Line → Option String
hashed_text codec l = elim (codec.loads l.text) [
  | none ↦ none
  | some o ↦ codec.canonical (without_hash o)
]

-- Two texts with one digest.
pub record Collision (codec : Codec) : Type 0 where
  pub one : String
  pub other : String
  pub different : one ≢ other
  pub same_digest : codec.sha256_hex one ≡ codec.sha256_hex other

-- Records with one canonical text have one `previous_hash`.
abbrev pub TellsPrevious : Codec → Type 0
TellsPrevious codec =
    (a b : Object) (t : String)
    → codec.canonical a ≡ some t
    → codec.canonical b ≡ some t
    → a "previous_hash" ≡ b "previous_hash"

bool_clash : true ≡ false → ⊥
bool_clash h = cc

no_record : {n : ℕ} → 0 ≡ suc n → ⊥
no_record h = cc

one_less : {m n : ℕ} → suc m ≡ suc n → m ≡ n
one_less h = cc

text_of : {s t : String} → some (json_str s) ≡ some (json_str t) → s ≡ t
text_of h = cc

both_equal : {x y : Option String} {l m : List (Option String)} → x ≡ y → l ≡ m → x ∷ l ≡ y ∷ m
both_equal h k = cc

count_of_empty : (codec : Codec) {p : Progress} → verify_stream codec [] ≡ sound p → p.count ≡ 0
unfolding verify_stream
count_of_empty codec h = cc

module _ (codec : Codec) (tells : TellsPrevious codec) where
  linked_text :
      (p : Progress) (l : Line) (q : Progress) (k : IsLinked codec p l q)
      → hashed_text codec l ≡ some k.text
  linked_text p l q k = ground arith

  same_text : (a b : String) → codec.sha256_hex a ≡ codec.sha256_hex b → (a ≡ b) ⊎ Collision codec
  same_text a b h = elim (Bool-cases (str_eq a b)) [
    | inl eq ↦ inl ((str_eq_iff a b).0 eq)
    | inr ne ↦ inr (record {
      one = a;
      other = b;
      different = λ eq. bool_clash (sym ((str_eq_iff a b).1 eq) ∙ ne);
      same_digest = h;
    })
  ]

  -- Where records with one canonical text have one `previous_hash`: two files that pass the check with the
  -- same number of records and the same head hash hold the same records, or show two texts with one
  -- SHA-256 digest.
  pub head_hash_binds :
      (a b : List Line) (p q : Progress)
      → verify_stream codec a ≡ sound p
      → verify_stream codec b ≡ sound q
      → p.count ≡ q.count
      → p.previous ≡ q.previous
      → (map (hashed_text codec) a ≡ map (hashed_text codec) b) ⊎ Collision codec
  head_hash_binds [] [] p q va vb count head = inl refl
  head_hash_binds [] (m ∷ b) p q va vb count head =
      let (q0, vb0, j) = verify_stream-IsLinked codec m b vb in
      absurd (no_record (sym (count_of_empty codec va) ∙ count ∙ j.count))
  head_hash_binds (l ∷ a) [] p q va vb count head =
      let (p0, va0, k) = verify_stream-IsLinked codec l a va in
      absurd (no_record (sym (count_of_empty codec vb) ∙ sym count ∙ k.count))
  head_hash_binds (l ∷ a) (m ∷ b) p q va vb count head =
      let (p0, va0, k) = verify_stream-IsLinked codec l a va in
      let (q0, vb0, j) = verify_stream-IsLinked codec m b vb in
      elim (same_text k.text j.text (k.digest ∙ head ∙ sym j.digest)) [
        | inr c ↦ inr c
        | inl same ↦
            let before =
              tells (without_hash k.object) (without_hash j.object) j.text
                (k.canonical ∙ ap some same) j.canonical in
            let earlier : p0.previous ≡ q0.previous =
              text_of (sym k.previous ∙ before ∙ j.previous) in
            let counts : p0.count ≡ q0.count = one_less (sym k.count ∙ count ∙ j.count) in
            elim (head_hash_binds a b p0 q0 va0 vb0 counts earlier) [
              | inr c ↦ inr c
              | inl rest ↦ inl (
                  both_equal (linked_text p0 l p k ∙ ap some same ∙ sym (linked_text q0 m q j))
                    rest)
            ]
      ]
