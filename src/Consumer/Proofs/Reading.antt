-- ===== src/Consumer/Proofs/Reading.antt =====
-- The journal of consumer.py read in parts: torn lines are left for the next time.
use universal_agent_middlewa.Prelude.{
  ℕ, ◌≡◌, refl, sym, ap, subst, ◌∙◌, ◌+◌, ◌||◌, String, Bool, true, false, Option, none, some, List,
  [], ◌∷◌, ◌++◌, length, ◌==◌, ==→eq, if◌then◌else◌, arith, Bool-cases, inl, inr,
}
use universal_agent_middlewa.Consumer.Journal.{Record, Ledger, empty_ledger, apply, refresh}
use universal_agent_middlewa.Consumer.Reader.{
  read_from, is_none_left, complete, add_byte, split_lines, Reader, new_reader, found_in, parse,
  refresh_from, follow,
}

-- The bytes end with a line end, or there are none.
abbrev IsWhole : List ℕ → Type 0
IsWhole [] = Unit {0}
IsWhole (c ∷ []) = c ≡ 10
IsWhole (c ∷ d ∷ l) = IsWhole (d ∷ l)

IsWhole-cons : (c : ℕ) (l : List ℕ) → is_none_left l ≡ false → IsWhole l → IsWhole (c ∷ l)
IsWhole-cons c [] e h = cc
IsWhole-cons c (d ∷ l) e h = h

IsWhole-step :
    (c : ℕ) (rest : List ℕ)
    → IsWhole rest
    → IsWhole (if is_none_left rest then (if c == 10 then c ∷ [] else []) else c ∷ rest)
IsWhole-step c [] h = elim (Bool-cases (c == 10)) [ inl e ↦ rw e (==→eq c 10 e) | inr e ↦ rw e tt ]
IsWhole-step c (d ∷ l) h = h

complete-IsWhole : (l : List ℕ) → IsWhole (complete l)
unfolding complete
complete-IsWhole [] = tt
complete-IsWhole (c ∷ l) = IsWhole-step c (complete l) (complete-IsWhole l)

complete-step : (l : List ℕ) → (if is_none_left l then 10 ∷ [] else 10 ∷ l) ≡ 10 ∷ l
complete-step [] = refl
complete-step (c ∷ l) = refl

complete-append : (a b : List ℕ) → IsWhole a → complete (a ++ b) ≡ a ++ complete b
unfolding complete
complete-append [] b h = refl
complete-append (c ∷ []) b h = rw h (complete-step (complete b))
complete-append (c ∷ d ∷ l) b h = rw (complete-append (d ∷ l) b h) refl

add_byte-append :
    (c : ℕ) (x : List ℕ) (xs ys : List (List ℕ))
    → add_byte c ((x ∷ xs) ++ ys) ≡ add_byte c (x ∷ xs) ++ ys
add_byte-append c x xs ys = refl

add_byte-cons :
    (c : ℕ) (l : List (List ℕ)) → (x : List ℕ) × (xs : List (List ℕ)) × (add_byte c l ≡ x ∷ xs)
add_byte-cons c [] = (c ∷ [], [], refl)
add_byte-cons c (x ∷ xs) = (c ∷ x, xs, refl)

split_lines-cons :
    (d : ℕ) (l : List ℕ) → (x : List ℕ) × (xs : List (List ℕ)) × (split_lines (d ∷ l) ≡ x ∷ xs)
unfolding split_lines
split_lines-cons d l = elim (Bool-cases (d == 10 || d == 13)) [
  | inl e ↦ rw e ([], split_lines l, refl)
  | inr e ↦ rw e (add_byte-cons d (split_lines l))
]

split_step :
    (b : Bool) (c : ℕ) (x : List ℕ) (xs ys first : List (List ℕ))
    → first ≡ x ∷ xs
    → (if b then [] ∷ (first ++ ys) else add_byte c (first ++ ys))
      ≡ (if b then [] ∷ first else add_byte c first) ++ ys
split_step true c x xs ys first e = refl
split_step false c x xs ys first e = rw e refl

split_lines-append :
    (a b : List ℕ) → IsWhole a → split_lines (a ++ b) ≡ split_lines a ++ split_lines b
unfolding split_lines
split_lines-append [] b h = refl
split_lines-append (c ∷ []) b h = rw h refl
split_lines-append (c ∷ d ∷ l) b h =
    let (x, xs, e) = split_lines-cons d l in
    ap (λ k. if c == 10 || c == 13 then [] ∷ k else add_byte c k) (split_lines-append (d ∷ l) b h)
    ∙ split_step (c == 10 || c == 13) c x xs (split_lines b) (split_lines (d ∷ l)) e

read_from-append : (a b : List ℕ) → read_from (length a) (a ++ b) ≡ b
unfolding read_from
read_from-append [] b = refl
read_from-append (c ∷ a) b = read_from-append a b

append_assoc : (a b c : List ℕ) → (a ++ b) ++ c ≡ a ++ (b ++ c)
append_assoc [] b c = refl
append_assoc (x ∷ a) b c = ap (λ l. x ∷ l) (append_assoc a b c)

length-append : {A : Type 0} (a b : List A) → length (a ++ b) ≡ length a + length b
length-append [] b = omega arith
length-append (x ∷ a) b = omega (arith, length-append a b)

-- the torn line at the end of a chunk
torn_step :
    (c : ℕ) (l rest t : List ℕ)
    → l ≡ rest ++ t
    → (u : List ℕ) × (c ∷ l
        ≡ (if is_none_left rest then (if c == 10 then c ∷ [] else []) else c ∷ rest) ++ u)
torn_step c l [] t e = elim (Bool-cases (c == 10)) [
  | inl end ↦ (l, rw end refl)
  | inr other ↦ (c ∷ l, rw other refl)
]
torn_step c l (d ∷ rest) t e = (t, ap (λ k. c ∷ k) e)

torn : (l : List ℕ) → (t : List ℕ) × (l ≡ complete l ++ t)
unfolding complete
torn [] = ([], refl)
torn (c ∷ l) = let (t, e) = torn l in torn_step c l (complete l) t e

refresh-append :
    (id : String) (l : Ledger) (xs ys : List Record)
    → refresh id l (xs ++ ys) ≡ refresh id (refresh id l xs) ys
unfolding refresh
refresh-append id l [] ys = refl
refresh-append id l (r ∷ xs) ys = refresh-append id (apply id l r) xs ys

module _ (record_of : List ℕ → Option Record) where
  found_step :
      (o : Option Record) (xs ys both : List Record)
      → both ≡ xs ++ ys
      → (elim o [ none ↦ both | some r ↦ r ∷ both ])
        ≡ (elim o [ none ↦ xs | some r ↦ r ∷ xs ]) ++ ys
  found_step none xs ys both e = e
  found_step (some r) xs ys both e = ap (λ l. r ∷ l) e

  found_in-append :
      (a b : List (List ℕ))
      → found_in record_of (a ++ b) ≡ found_in record_of a ++ found_in record_of b
  unfolding found_in
  found_in-append [] b = refl
  found_in-append (x ∷ a) b =
      found_step (record_of x) (found_in record_of a) (found_in record_of b)
        (found_in record_of (a ++ b)) (found_in-append a b)

  complete-complete : (f x : List ℕ) → complete (complete f ++ x) ≡ complete f ++ complete x
  complete-complete f x = complete-append (complete f) x (complete-IsWhole f)

  parse-append :
      (f x : List ℕ) → parse record_of (complete f ++ x) ≡ parse record_of f ++ parse record_of x
  unfolding parse
  parse-append f x =
      ap (λ l. found_in record_of (split_lines l)) (complete-complete f x)
      ∙ ap (found_in record_of) (split_lines-append (complete f) (complete x) (complete-IsWhole f))
      ∙ found_in-append (split_lines (complete f)) (split_lines (complete x))

  -- What one reading of the whole file gives.
  abbrev pub fresh : String → List ℕ → Reader
  fresh id file = refresh_from record_of id file new_reader

  same_reader :
      {r s : Reader} → r.offset ≡ s.offset → r.count ≡ s.count → r.ledger ≡ s.ledger → r ≡ s
  same_reader p q r = λ i. record { offset = p i; count = q i; ledger = r i }

  -- The reader after a first part `f` of the bytes, whose last line may be torn, reads the rest `x` behind `complete f`.
  refresh_rest :
      (id : String) (f x : List ℕ)
      → refresh_from record_of id (complete f ++ x) (fresh id f) ≡ fresh id (complete f ++ x)
  unfolding refresh_from read_from
  refresh_rest id f x =
      let chunk : read_from (0 + length (complete f)) (complete f ++ x) ≡ x =
        ap (λ n. read_from n (complete f ++ x)) (omega arith) ∙ read_from-append (complete f) x in
      same_reader
        (ap (λ c. (0 + length (complete f)) + length (complete c)) chunk
          ∙ omega
              (arith, length-append (complete f) (complete x), ap length (complete-complete f x)))
        (ap (λ c. (0 + length (parse record_of f)) + length (parse record_of c)) chunk
          ∙ omega (
            arith,
            length-append (parse record_of f) (parse record_of x),
            ap length (parse-append f x),
          ))
        (ap (λ c. refresh id (refresh id empty_ledger (parse record_of f)) (parse record_of c))
            chunk
          ∙ sym (refresh-append id empty_ledger (parse record_of f) (parse record_of x))
          ∙ ap (refresh id empty_ledger) (sym (parse-append f x)))

  refresh_more :
      (id : String) (f more : List ℕ)
      → refresh_from record_of id (f ++ more) (fresh id f) ≡ fresh id (f ++ more)
  refresh_more id f more =
      let (t, e) = torn f in
      let whole : f ++ more ≡ complete f ++ (t ++ more) =
        ap (λ l. l ++ more) e ∙ append_assoc (complete f) t more in
      subst (λ l. refresh_from record_of id l (fresh id f) ≡ fresh id l) (sym whole)
        (refresh_rest id f (t ++ more))

-- All that was written.
abbrev pub written : List ℕ → List (List ℕ) → List ℕ
written file [] = file
written file (more ∷ later) = written (file ++ more) later

-- Whenever the journal's reader refreshes while the file grows by further bytes, with lines torn at
-- any place, it ends with what one reading of the whole file gives: the ledger of every complete
-- record, once and in order, their number, and the offset of the last line end.
pub follow-fresh :
    (record_of : List ℕ → Option Record) (id : String) (file : List ℕ) (later : List (List ℕ))
    → follow record_of id file later (fresh record_of id file)
      ≡ fresh record_of id (written file later)
unfolding follow
follow-fresh record_of id file [] = refl
follow-fresh record_of id file (more ∷ later) =
    ap (follow record_of id (file ++ more) later) (refresh_more record_of id file more)
    ∙ follow-fresh record_of id (file ++ more) later
