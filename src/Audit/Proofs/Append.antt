-- ===== src/Audit/Proofs/Append.antt =====
-- An append of audit.py to a file that passes the check leaves one that passes it.
use universal_agent_middlewa.Prelude.{
  ℕ, suc, ◌≡◌, inl, inr, refl, sym, ap, ◌∙◌, String, Bool, true, false, ◌&&◌, Option, none, some,
  List, ◌∷◌, str_eq, length, codes, if◌then◌else◌,
}
use universal_agent_middlewa.Audit.Chain.{
  Object, JsonValue, json_str, Codec, Line, Progress, sound, verify_stream, advance, and_then,
}
use universal_agent_middlewa.Audit.Log.{
  frozen, replaced_or_truncated, append_checked, write_stored, write_hashed, write_linked,
  write_line, write_record, append_after, append, first_check, was_replaced, current_writer,
  refuses_chain, Log, File, System, Entry, appended, refused, AuditError, Tail, no_tail, tail,
  bad_tail, set_field, record_of, links, tail_of,
}
use universal_agent_middlewa.Audit.Proofs.Fits.{Fits, record-check_line, hash_set, links-Fits}

appended-injective : {a b : Object} → appended a ≡ appended b → a ≡ b
appended-injective h = cc

-- What an answer of `write_record` means.
record IsWritten (codec : Codec) (f : File) (r stored : Object) (g : File) : Type 0 where
  text : String
  bytes : String
  canonical : codec.canonical r ≡ some text
  stored_is : stored ≡ set_field r "record_hash" (json_str (codec.sha256_hex text))
  canonical_stored : codec.canonical stored ≡ some bytes
  lines : g.lines ≡ record { text = bytes; ended = true } ∷ f.lines

module _ (codec : Codec) (f : File) (os : System) where
  write_line-IsWritten :
      (log : Log) (r stored : Object) (text bytes : String) (torn : Option ℕ) {answer : Object}
      → codec.canonical r ≡ some text
      → stored ≡ set_field r "record_hash" (json_str (codec.sha256_hex text))
      → codec.canonical stored ≡ some bytes
      → (write_line codec log f stored bytes torn).0 ≡ appended answer
      → IsWritten codec f r answer (write_line codec log f stored bytes torn).2
  unfolding write_line
  write_line-IsWritten log r stored text bytes (some n) c s d h = cc
  write_line-IsWritten log r stored text bytes none c s d h = record {
    text = text;
    bytes = bytes;
    canonical = c;
    stored_is = appended-injective (sym h) ∙ s;
    canonical_stored = ap codec.canonical (appended-injective (sym h)) ∙ d;
    lines = refl;
  }

  write_stored-IsWritten :
      (log : Log) (r stored : Object) (text : String) (b : Option String) {answer : Object}
      → codec.canonical r ≡ some text
      → stored ≡ set_field r "record_hash" (json_str (codec.sha256_hex text))
      → codec.canonical stored ≡ b
      → (write_stored codec log f os stored b).0 ≡ appended answer
      → IsWritten codec f r answer (write_stored codec log f os stored b).2
  unfolding write_stored
  write_stored-IsWritten log r stored text none c s d h = cc
  write_stored-IsWritten log r stored text (some bytes) c s d h =
      write_line-IsWritten log r stored text bytes os.torn c s d h

  write_hashed-IsWritten :
      (log : Log) (r : Object) (t : Option String) {answer : Object}
      → codec.canonical r ≡ t
      → (write_hashed codec log f os r t).0 ≡ appended answer
      → IsWritten codec f r answer (write_hashed codec log f os r t).2
  unfolding write_hashed
  write_hashed-IsWritten log r none c h = cc
  write_hashed-IsWritten log r (some text) c h =
      write_stored-IsWritten log r (set_field r "record_hash" (json_str (codec.sha256_hex text)))
        text (codec.canonical (set_field r "record_hash" (json_str (codec.sha256_hex text)))) c refl
        refl h

  write_linked-IsWritten :
      (log : Log) (e : Entry) (l : Option (JsonValue × JsonValue × JsonValue)) {answer : Object}
      → (write_linked codec log f os e l).0 ≡ appended answer
      → (c n h : JsonValue) × (l ≡ some (c, n, h))
        × IsWritten codec f
            (record_of codec log os e (c, n, h))
            answer
            (write_linked codec log f os e l).2
  unfolding write_linked write_record
  write_linked-IsWritten log e none h = cc
  write_linked-IsWritten log e (some (c, n, p)) h = (
    c,
    n,
    p,
    refl,
    write_hashed-IsWritten log (record_of codec log os e (c, n, p))
        (codec.canonical (record_of codec log os e (c, n, p))) refl h,
  )

  append_after-IsWritten :
      (log : Log) (e : Entry) (t : Tail) {answer : Object}
      → (append_after codec log f os e t).0 ≡ appended answer
      → (c n h : JsonValue) × (links codec t os ≡ some (c, n, h))
        × IsWritten codec f
            (record_of codec (current_writer log os) os e (c, n, h))
            answer
            (append_after codec log f os e t).2
  unfolding append_after
  append_after-IsWritten log e (bad_tail error) h = cc
  append_after-IsWritten log e no_tail h =
      write_linked-IsWritten (current_writer log os) e (links codec no_tail os) h
  append_after-IsWritten log e (tail o) h =
      write_linked-IsWritten (current_writer log os) e (links codec (tail o) os) h

  append-IsWritten :
      (log : Log) (e : Entry) {answer : Object}
      → (append codec log f os e).0 ≡ appended answer
      → (c n h : JsonValue) × (links codec (tail_of codec f.lines) os ≡ some (c, n, h))
        × IsWritten codec f
            (record_of codec (current_writer log os) os e (c, n, h))
            answer
            (append codec log f os e).2
  unfolding append append_checked
  append-IsWritten log e h =
      reached (log.has_freeze_file && os.latch_exists) (was_replaced log f)
        (first_check codec log f) h
    where
      reached :
          (latched replaced : Bool) (o : Option AuditError) {answer : Object}
          → (if latched
              then (refused frozen, log, f)
              else if replaced
              then (refused replaced_or_truncated, log, f)
              else append_checked codec log f os e o).0
            ≡ appended answer
          → (c n h : JsonValue) × (links codec (tail_of codec f.lines) os ≡ some (c, n, h))
            × IsWritten codec f
                (record_of codec (current_writer log os) os e (c, n, h))
                answer
                (if latched
                  then (refused frozen, log, f)
                  else if replaced
                  then (refused replaced_or_truncated, log, f)
                  else append_checked codec log f os e o).2
      reached true replaced o h = cc
      reached false true o h = cc
      reached false false (some error) h = cc
      reached false false none h = append_after-IsWritten log e (tail_of codec f.lines) h

-- A chain that goes on after `p` by one record.
pub record GoesOn (codec : Codec) (p : Progress) (stored : Object) (lines : List Line)
    : Type 0 where
  pub last : Progress
  pub checked : verify_stream codec lines ≡ sound last
  pub count : last.count ≡ suc p.count
  pub head : stored "record_hash" ≡ some (json_str last.previous)
  pub chain : p.version ≡ some 2 → last.chain_id ≡ p.chain_id

module _ (codec : Codec) (size : (t : String) → length (codes (codec.sha256_hex t)) ≡ 64) (f : File)
    (os : System) where
  written-GoesOn :
      (log : Log) (e : Entry) (p : Progress) (c n h : JsonValue) (chain : String) (stored : Object)
      (g : File)
      → verify_stream codec f.lines ≡ sound p
      → Fits p c n h chain
      → ((b : String) → codec.canonical stored ≡ some b → codec.loads b ≡ some stored)
      → IsWritten codec f (record_of codec log os e (c, n, h)) stored g
      → GoesOn codec p stored g.lines
  unfolding verify_stream and_then advance
  written-GoesOn log e p c n h chain stored g checked fits loaded k =
      let parsed = loaded k.bytes k.canonical_stored ∙ ap some k.stored_is in
      let passes =
        record-check_line codec p log os e c n h chain k.text k.bytes fits k.canonical (size k.text)
          parsed in
      record {
        last = advance p (codec.sha256_hex k.text) 2 (some chain);
        checked =
            ap (verify_stream codec) k.lines
            ∙ ap (and_then codec (record { text = k.bytes; ended = true })) checked
            ∙ passes;
        count = refl;
        head =
            ap (λ (o : Object). o "record_hash") k.stored_is
            ∙ hash_set codec (record_of codec log os e (c, n, h)) (codec.sha256_hex k.text);
        chain = λ two. elim fits.continues [ inl (z, v) ↦ cc | inr (v, at_chain) ↦ sym at_chain ];
      }

  -- Where the SHA-256 digest has 64 digits, JSON reads back what it wrote and uuid gives an identifier: an
  -- append that returns, to a file that passed the check with a version-2 chain or none, leaves a file that
  -- passes it with one record more, whose head hash is that of the record returned, and keeps the chain's
  -- identifier.
  pub append-GoesOn :
      (log : Log) (e : Entry) (p : Progress) (stored : Object)
      → ((b : String) → codec.canonical stored ≡ some b → codec.loads b ≡ some stored)
      → str_eq os.new_chain "" ≡ false
      → verify_stream codec f.lines ≡ sound p
      → refuses_chain (sound p) ≡ none
      → (append codec log f os e).0 ≡ appended stored
      → GoesOn codec p stored (append codec log f os e).2.lines
  append-GoesOn log e p stored loaded nonempty checked accepted h =
      let (c, n, k, linked, written) = append-IsWritten codec f os log e h in
      let (chain, fits) = links-Fits codec f.lines os p checked accepted nonempty linked in
      written-GoesOn (current_writer log os) e p c n k chain stored (append codec log f os e).2
        checked fits loaded written
